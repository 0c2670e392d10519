-- ===== src/PdfExport/ShutdownDrain/Completion.antt =====
-- How a drain of the shutdown gate ends (pdfExport/pdfExportShutdownDrain.ts), whatever calls come in
-- between and in whatever order the reservations are released.
use mathlib.Core.Path.{subst}
use flowdoc_vnext_backend.Common.{
  ◌≤◌, String, ◌≡◌, ◌≢◌, refl, sym, ◌∙◌, ap, ◌⊎◌, inl, inr, Bool, true, false, some, List, [], ◌∷◌,
  text_eq, beq_refl, arith, Bool-cases,
}
use flowdoc_vnext_backend.PdfExport.Issue.{Time, Digest}
use flowdoc_vnext_backend.PdfExport.ShutdownDrain.{
  draining, stopped, shutdown_drain_complete, DrainFacts, Gate, is_accepting, is_none, completes,
  released_gate, reserve_claim, begin_drain, release_claim,
}
use flowdoc_vnext_backend.PdfExport.ShutdownDrain.Reserved.{IdSet, has, delete, has-delete}
use flowdoc_vnext_backend.PdfExport.ShutdownDrain.Invariant.{
  Call, reserve, release, drain, force, after, run_calls, GateFits, after-Changes, Changes-GateFits,
  PhaseFits, nil,
}
use flowdoc_vnext_backend.PdfExport.ShutdownDrain.Draining.{accepted_release}

abbrev pub time_of : Call → Time
time_of (reserve id t) = t
time_of (release id t) = t
time_of (drain t) = t
time_of (force t) = t

-- From a time on, the calls do not go back in time.
abbrev pub InOrder : Time → List Call → Type 0
InOrder t [] = Unit
InOrder t (c ∷ cs) = (t ≤ time_of c) × InOrder (time_of c) cs

abbrev pub IsUnforced : Call → Type 0
IsUnforced (force t) = ⊥
IsUnforced _ = Unit

-- None of the calls forces a stop.
abbrev pub Unforced : List Call → Type 0
Unforced [] = Unit
Unforced (c ∷ cs) = IsUnforced c × Unforced cs

abbrev pub Occurs : Call → List Call → Type 0
Occurs c [] = ⊥
Occurs c (d ∷ ds) = (d ≡ c) ⊎ Occurs c ds

InOrder-since : (t u : Time) (cs : List Call) → t ≤ u → InOrder u cs → InOrder t cs
InOrder-since t u [] h o = tt
InOrder-since t u (c ∷ cs) h o = (omega (arith, h, o.0), o.1)

some_reserved : (s : IdSet) → is_none s ≡ false → (x : String) × (has s x ≡ true)
some_reserved [] e = cc e
some_reserved (x ∷ s) e = (x, rw (beq_refl x) refl)

release-injective : (x y : String) (t u : Time) → release x t ≡ release y u → (x ≡ y) × (t ≡ u)
release-injective x y t u e = (cc e, cc e)

not_both : {b : Bool} → b ≡ false → b ≡ true → ⊥
not_both e f = cc (e, f)

module _ ⦃d : Digest DrainFacts⦄ where
  -- The drain is complete, at the time of a release of a reservation of the gate, one of the calls.
  pub record CompletesBy (g : Gate) (cs : List Call) (g' : Gate) : Type 0 where
    pub status : g'.state.status ≡ stopped
    pub reason : g'.state.stop_reason ≡ some shutdown_drain_complete
    pub none_left : g'.reservations ≡ []
    pub last : String
    pub time : Time
    pub reserved : has g.reservations last ≡ true
    pub released : Occurs (release last time) cs
    pub at : g'.state.stopped_at ≡ some time

  closed-reserve :
      (g : Gate) (x : String) (t : Time)
      → is_accepting g.state.status ≡ false
      → after g (reserve x t) ≡ g
  unfolding after reserve_claim
  closed-reserve g x t closed = ground arith

  closed-drain : (g : Gate) (t : Time) → is_accepting g.state.status ≡ false → after g (drain t) ≡ g
  unfolding after begin_drain
  closed-drain g t closed = ground arith

  unheld-release :
      (g : Gate) (x : String) (t : Time) → has g.reservations x ≡ false → after g (release x t) ≡ g
  unfolding after release_claim
  unheld-release g x t free = ground arith

  -- A stopped gate is changed by nothing.
  stopped-stays :
      (g : Gate) (cs : List Call)
      → Unforced cs
      → is_accepting g.state.status ≡ false
      → g.reservations ≡ []
      → run_calls g cs ≡ g
  unfolding run_calls
  stopped-stays g [] calm closed none_left = refl
  stopped-stays g (reserve x t ∷ cs) calm closed none_left =
      ap (λ z. run_calls z cs) (closed-reserve g x t closed)
      ∙ stopped-stays g cs calm.1 closed none_left
  stopped-stays g (release x t ∷ cs) calm closed none_left =
      ap (λ z. run_calls z cs) (unheld-release g x t (ap (λ (s : IdSet). has s x) none_left))
      ∙ stopped-stays g cs calm.1 closed none_left
  stopped-stays g (drain t ∷ cs) calm closed none_left =
      ap (λ z. run_calls z cs) (closed-drain g t closed)
      ∙ stopped-stays g cs calm.1 closed none_left
  stopped-stays g (force t ∷ cs) calm closed none_left = absurd calm.0

  -- A call to a gate that drains changes nothing and releases nothing, or releases a reservation.
  drains-cases :
      (g : Gate) (c : Call)
      → GateFits g
      → g.state.status ≡ draining
      → g.state.updated_at ≤ time_of c
      → IsUnforced c
      → (after g c ≡ g) × ((x : String) (t : Time) → c ≡ release x t → has g.reservations x ≡ false)
        ⊎ (x : String) × (t : Time) × (c ≡ release x t)
          × (has g.reservations x ≡ true)
          × (after g c ≡ released_gate g x t (completes g x))
  drains-cases g (reserve y u) h waiting later calm =
      inl (closed-reserve g y u (rw waiting refl), λ x t e. cc e)
  drains-cases g (drain u) h waiting later calm =
      inl (closed-drain g u (rw waiting refl), λ x t e. cc e)
  drains-cases g (force u) h waiting later calm = absurd calm
  drains-cases g (release y u) h waiting later calm = elim (Bool-cases (has g.reservations y)) [
    | inl held ↦ inr (y, u, refl, held, accepted_release g y u h held later)
    | inr free ↦ inl (
      unheld-release g y u free,
      λ x t e. subst (λ z. has g.reservations z ≡ false) (release-injective y x u t e).0 free,
    )
  ]

  still-held : (s : IdSet) (x z : String) → has (delete s x) z ≡ true → (has s z ≡ true) × (x ≢ z)
  still-held s x z e = (
    ground (arith, has-delete s x z),
    λ same. ground (arith, has-delete s x z, text_eq.same_iff z x),
  )

  -- The gate after its last release has stopped, and stays so.
  last-CompletesBy :
      (g : Gate) (cs : List Call) (x : String) (t : Time)
      → Unforced cs
      → has g.reservations x ≡ true
      → delete g.reservations x ≡ []
      → CompletesBy g (release x t ∷ cs) (run_calls (released_gate g x t true) cs)
  last-CompletesBy g cs x t calm held none_left =
      subst (CompletesBy g (release x t ∷ cs))
        (sym (stopped-stays (released_gate g x t true) cs calm refl none_left))
        (record {
          status = refl;
          reason = refl;
          none_left = none_left;
          last = x;
          time = t;
          reserved = held;
          released = inl refl;
          at = refl;
        })

  later-CompletesBy :
      (g g' g'' : Gate) (c : Call) (cs : List Call)
      → ((id : String) → has g'.reservations id ≡ true → has g.reservations id ≡ true)
      → CompletesBy g' cs g''
      → CompletesBy g (c ∷ cs) g''
  later-CompletesBy g g' g'' c cs earlier a = record {
    status = a.status;
    reason = a.reason;
    none_left = a.none_left;
    last = a.last;
    time = a.time;
    reserved = earlier a.last a.reserved;
    released = inr a.released;
    at = a.at;
  }

  -- Every reservation is released by one of the calls.
  abbrev pub AllReleased : Gate → List Call → Type 0
  AllReleased g cs =
      (id : String) → has g.reservations id ≡ true → (t : Time) × Occurs (release id t) cs

  completes-none_left :
      (g : Gate) (x : String)
      → g.state.status ≡ draining
      → completes g x ≡ is_none (delete g.reservations x)
  completes-none_left g x waiting = rw waiting refl

  -- Of a gate that drains, whatever calls come, in the order of their times and from its last change on,
  -- other than a forced stop: if each of its reservations is released by one of them, in any order, then
  -- the gate has stopped, with no reservation left, for the reason that the drain is complete and at
  -- the time of one of these releases.
  pub drain_ends :
      (cs : List Call) (g : Gate)
      → GateFits g
      → g.state.status ≡ draining
      → InOrder g.state.updated_at cs
      → Unforced cs
      → AllReleased g cs
      → CompletesBy g cs (run_calls g cs)
  unfolding run_calls
  drain_ends [] g h waiting order calm all =
      let phase : PhaseFits draining g = subst (λ x. PhaseFits x g) waiting h.phase in
      let (x, held) = some_reserved g.reservations phase.3 in absurd (all x held).1
  drain_ends (c ∷ cs) g h waiting order calm all =
      elim (drains-cases g c h waiting order.0 calm.0) [
        | inl (same, other) ↦
            let rest : AllReleased g cs = λ id held.
              let (t, occurs) = all id held in
              elim occurs [
                | inl e ↦ absurd (not_both (other id t e) held)
                | inr later ↦ (t, later)
              ] in
            subst (λ z. CompletesBy g (c ∷ cs) (run_calls z cs)) (sym same)
              (later-CompletesBy g g (run_calls g cs) c cs (λ id e. e)
                (drain_ends cs g h waiting
                  (InOrder-since g.state.updated_at (time_of c) cs order.0 order.1) calm.1 rest))
        | inr (x, t, is_release, held, made) ↦ elim (Bool-cases (completes g x)) [
          | inl last ↦
              let none_left =
                nil (delete g.reservations x) (sym (completes-none_left g x waiting) ∙ last) in
              subst (λ z. CompletesBy g (c ∷ cs) (run_calls z cs))
                (sym (made ∙ ap (released_gate g x t) last))
                (subst (λ z. CompletesBy g (z ∷ cs) (run_calls (released_gate g x t true) cs))
                  (sym is_release) (last-CompletesBy g cs x t calm.1 held none_left))
          | inr more ↦
              let next = released_gate g x t false in
              let to_next : after g c ≡ next = made ∙ ap (released_gate g x t) more in
              let rest : AllReleased next cs = λ id left.
                let (before, other) = still-held g.reservations x id left in
                let (u, occurs) = all id before in
                elim occurs [
                  | inl e ↦ absurd (other (release-injective x id t u (sym is_release ∙ e)).0)
                  | inr later ↦ (u, later)
                ] in
              subst (λ z. CompletesBy g (c ∷ cs) (run_calls z cs)) (sym to_next)
                (later-CompletesBy g next (run_calls next cs) c cs
                  (λ id left. (still-held g.reservations x id left).0)
                  (drain_ends cs next
                    (subst GateFits to_next (Changes-GateFits g (after g c) (after-Changes g c) h))
                    waiting (subst (λ z. InOrder z cs) (ap time_of is_release) order.1) calm.1
                    rest))
        ]
      ]
