-- ===== src/PdfExport/ShutdownDrain/Invariant.antt =====
-- What holds of the shutdown gate after any calls (pdfExport/pdfExportShutdownDrain.ts).
use mathlib.Core.Path.{subst}
use flowdoc_vnext_backend.Common.{
  ◌≤◌, String, ◌≡◌, ◌≢◌, refl, sym, inl, inr, Bool, true, false, not, ◌||◌, ◌&&◌, Option, none,
  some, List, [], ◌∷◌, ◌==◌, text_eq, arith, Bool-cases, if◌then◌else◌,
}
use flowdoc_vnext_backend.Common.Text.{is_bounded}
use flowdoc_vnext_backend.PdfExport.Issue.{Time, Digest, fingerprint}
use flowdoc_vnext_backend.PdfExport.ShutdownDrain.{
  GateStatus, accepting, draining, stopped, DrainFacts, Gate, is_accepting, is_draining, is_stopped,
  is_none, create_gate, initial_gate, reserved_gate, reserve_claim, released_gate, release_claim,
  completes, drained_gate, begin_drain, forced_gate, force_stop, stale_time, or_else, DrainResult,
}
use flowdoc_vnext_backend.PdfExport.ShutdownDrain.Reserved.{
  IdSet, has, delete, size, Distinct, has-add, add-Distinct, has-delete, delete-Distinct,
}

pub data Call : Type 0 where
  reserve : String → Time → Call
  release : String → Time → Call
  drain : Time → Call
  force : Time → Call

module _ ⦃d : Digest DrainFacts⦄ where
  unfoldable pub after : Gate → Call → Gate
  after g (reserve id t) = (reserve_claim g id t).0
  after g (release id t) = (release_claim g id t).0
  after g (drain t) = (begin_drain g t).0
  after g (force t) = (force_stop g t).0

  unfoldable pub run_calls : Gate → List Call → Gate
  unfolding after
  run_calls g [] = g
  run_calls g (c ∷ cs) = run_calls (after g c) cs

  -- What the fields hold in each status.
  abbrev pub PhaseFits : GateStatus → Gate → Type 0
  PhaseFits accepting g =
      (g.state.drain_requested_at ≡ none)
      × (g.state.stopped_at ≡ none)
      × (g.state.stop_reason ≡ none)
  PhaseFits draining g =
      (g.state.drain_requested_at ≢ none)
      × (g.state.stopped_at ≡ none)
      × (g.state.stop_reason ≡ none)
      × (is_none g.reservations ≡ false)
  PhaseFits stopped g =
      (g.state.drain_requested_at ≢ none)
      × (g.state.stopped_at ≡ some g.state.updated_at)
      × (g.state.stop_reason ≢ none)
      × (g.reservations ≡ [])

  pub record GateFits (g : Gate) : Type 0 where
    pub count : g.state.active_reservation_count ≡ size g.reservations
    pub distinct : Distinct g.reservations
    pub bounded : (id : String) → has g.reservations id ≡ true → is_bounded id ≡ true
    pub apart :
        (id : String) → has g.reservations id ≡ true → has g.completed_reservations id ≡ false
    pub phase : PhaseFits g.state.status g
    pub ordered : g.state.created_at ≤ g.state.updated_at
    pub matches : fingerprint g.state.facts ≡ g.state.drain_fingerprint

  pub nil : (s : IdSet) → is_none s ≡ true → s ≡ []
  nil [] h = refl
  nil (x ∷ xs) h = cc h

  asked : (o : Option Time) (t : Time) → or_else o t ≢ none
  asked none t e = cc e
  asked (some u) t e = cc e

  phase-reserved :
      (x : GateStatus) (g : Gate) (id : String) (t : Time)
      → is_accepting x ≡ true
      → PhaseFits x g
      → PhaseFits x (reserved_gate g id t)
  phase-reserved accepting g id t a h = h
  phase-reserved draining g id t a h = cc a
  phase-reserved stopped g id t a h = cc a

  reserved-GateFits :
      (g : Gate) (id : String) (t : Time)
      → GateFits g
      → is_bounded id ≡ true
      → has g.completed_reservations id ≡ false
      → is_accepting g.state.status ≡ true
      → g.state.updated_at ≤ t
      → GateFits (reserved_gate g id t)
  reserved-GateFits g id t h ok fresh open_ later = record {
    count = refl;
    distinct = add-Distinct g.reservations id h.distinct;
    bounded = λ z e. elim (Bool-cases (z == id)) [
      | inl same ↦ subst (λ x. is_bounded x ≡ true) (sym ((text_eq.same_iff z id).0 same)) ok
      | inr other ↦ h.bounded z (ground (arith, has-add g.reservations id z, other, e))
    ];
    apart = λ z e.
        ground (arith, has-add g.reservations id z, text_eq.same_iff z id, h.apart z, fresh, e);
    phase = phase-reserved g.state.status g id t open_ h.phase;
    ordered = ground (arith, h.ordered);
    matches = refl;
  }

  phase-released :
      (x : GateStatus) (g : Gate) (id : String) (t : Time)
      → has g.reservations id ≡ true
      → (is_draining x && is_none (delete g.reservations id)) ≡ false
      → PhaseFits x g
      → PhaseFits x (released_gate g id t false)
  phase-released accepting g id t held c h = h
  phase-released draining g id t held c h = (h.0, h.1, h.2, c)
  phase-released stopped g id t held c h = let gone : has [] id ≡ true = rw h.3 at held in cc gone

  phase-completed :
      (x : GateStatus) (g : Gate) (id : String) (t : Time)
      → (is_draining x && is_none (delete g.reservations id)) ≡ true
      → PhaseFits x g
      → PhaseFits stopped (released_gate g id t true)
  phase-completed accepting g id t c h = cc c
  phase-completed draining g id t c h = (h.0, refl, (λ e. cc e), nil (delete g.reservations id) c)
  phase-completed stopped g id t c h = cc c

  phase-after_release :
      (g : Gate) (id : String) (t : Time)
      → has g.reservations id ≡ true
      → PhaseFits g.state.status g
      → PhaseFits
          (released_gate g id t (completes g id)).state.status
          (released_gate g id t (completes g id))
  phase-after_release g id t held h = elim (Bool-cases (completes g id)) [
    | inl c ↦ rw c (phase-completed g.state.status g id t c h)
    | inr c ↦ rw c (phase-released g.state.status g id t held c h)
  ]

  released-GateFits :
      (g : Gate) (id : String) (t : Time)
      → GateFits g
      → has g.reservations id ≡ true
      → g.state.updated_at ≤ t
      → GateFits (released_gate g id t (completes g id))
  released-GateFits g id t h held later = record {
    count = refl;
    distinct = delete-Distinct g.reservations id h.distinct;
    bounded = λ z e. h.bounded z (ground (arith, has-delete g.reservations id z, e));
    apart = λ z e. ground (
      arith,
      has-delete g.reservations id z,
      has-add g.completed_reservations id z,
      h.apart z,
      e,
    );
    phase = phase-after_release g id t held h.phase;
    ordered = ground (arith, h.ordered);
    matches = refl;
  }

  phase-drained :
      (x : GateStatus) (g : Gate) (t : Time)
      → is_accepting x ≡ true
      → PhaseFits x g
      → PhaseFits
          (drained_gate g t (is_none g.reservations)).state.status
          (drained_gate g t (is_none g.reservations))
  phase-drained x g t a h = elim (Bool-cases (is_none g.reservations)) [
    | inl c ↦ rw c ((λ e. cc e), refl, (λ e. cc e), nil g.reservations c)
    | inr c ↦ rw c ((λ e. cc e), refl, refl, c)
  ]

  drained-GateFits :
      (g : Gate) (t : Time)
      → GateFits g
      → is_accepting g.state.status ≡ true
      → g.state.updated_at ≤ t
      → GateFits (drained_gate g t (is_none g.reservations))
  drained-GateFits g t h open_ later = record {
    count = h.count;
    distinct = h.distinct;
    bounded = h.bounded;
    apart = h.apart;
    phase = phase-drained g.state.status g t open_ h.phase;
    ordered = ground (arith, h.ordered);
    matches = refl;
  }

  forced-GateFits :
      (g : Gate) (t : Time) → GateFits g → g.state.updated_at ≤ t → GateFits (forced_gate g t)
  forced-GateFits g t h later = record {
    count = refl;
    distinct = tt;
    bounded = λ z e. cc e;
    apart = λ z e. cc e;
    phase = (asked g.state.drain_requested_at t, refl, (λ e. cc e), refl);
    ordered = ground (arith, h.ordered);
    matches = refl;
  }

  -- What a call may do: nothing, or one of the four changes, where its guards let it.
  pub data Changes (g : Gate) : Gate → Type 0 where
    unchanged : Changes g g
    reserves :
        (id : String) (t : Time)
        → is_bounded id ≡ true
        → has g.reservations id ≡ false
        → has g.completed_reservations id ≡ false
        → is_accepting g.state.status ≡ true
        → g.state.updated_at ≤ t
        → Changes g (reserved_gate g id t)
    releases :
        (id : String) (t : Time)
        → has g.reservations id ≡ true
        → g.state.updated_at ≤ t
        → Changes g (released_gate g id t (completes g id))
    drains :
        (t : Time)
        → is_accepting g.state.status ≡ true
        → g.state.updated_at ≤ t
        → Changes g (drained_gate g t (is_none g.reservations))
    forces :
        (t : Time)
        → is_stopped g.state.status ≡ false
        → g.state.updated_at ≤ t
        → Changes g (forced_gate g t)

  -- A call that its test refuses leaves the gate; otherwise the rest decides.
  guarded :
      {g : Gate} (b : Bool) (r x : Gate × DrainResult)
      → r.0 ≡ g
      → (b ≡ false → Changes g x.0)
      → Changes g (if b then r else x).0
  guarded {g} true r x same h = subst (Changes g) (sym same) unchanged
  guarded false r x same h = h refl

  in_time : (g : Gate) (t : Time) → stale_time g t ≡ false → g.state.updated_at ≤ t
  in_time g t h = ground arith

  reserve-Changes : (g : Gate) (id : String) (t : Time) → Changes g (reserve_claim g id t).0
  unfolding reserve_claim
  reserve-Changes g id t = guarded (not (is_bounded id)) _ _ refl (λ b.
      guarded (has g.reservations id || has g.completed_reservations id) _ _ refl (λ new.
        guarded (stale_time g t) _ _ refl (λ s.
          guarded (not (is_accepting g.state.status)) _ _ refl (λ a.
            reserves id t (ground arith) (ground arith) (ground arith) (ground arith)
              (in_time g t s)))))

  release-Changes : (g : Gate) (id : String) (t : Time) → Changes g (release_claim g id t).0
  unfolding release_claim
  release-Changes g id t = guarded (not (is_bounded id)) _ _ refl (λ b.
      guarded (has g.completed_reservations id) _ _ refl (λ new.
        guarded (stale_time g t) _ _ refl (λ s.
          guarded (not (has g.reservations id)) _ _ refl
            (λ a. releases id t (ground arith) (in_time g t s)))))

  drain-Changes : (g : Gate) (t : Time) → Changes g (begin_drain g t).0
  unfolding begin_drain
  drain-Changes g t =
      guarded (not (is_accepting g.state.status)) _ _ refl
        (λ a. guarded (stale_time g t) _ _ refl (λ s. drains t (ground arith) (in_time g t s)))

  force-Changes : (g : Gate) (t : Time) → Changes g (force_stop g t).0
  unfolding force_stop
  force-Changes g t =
      guarded (is_stopped g.state.status) _ _ refl
        (λ a. guarded (stale_time g t) _ _ refl (λ s. forces t a (in_time g t s)))

  pub after-Changes : (g : Gate) (c : Call) → Changes g (after g c)
  unfolding after
  after-Changes g (reserve id t) = reserve-Changes g id t
  after-Changes g (release id t) = release-Changes g id t
  after-Changes g (drain t) = drain-Changes g t
  after-Changes g (force t) = force-Changes g t

  pub Changes-GateFits : (g g' : Gate) → Changes g g' → GateFits g → GateFits g'
  Changes-GateFits g _ unchanged h = h
  Changes-GateFits g _ (reserves id t b n f a l) h = reserved-GateFits g id t h b f a l
  Changes-GateFits g _ (releases id t held l) h = released-GateFits g id t h held l
  Changes-GateFits g _ (drains t a l) h = drained-GateFits g t h a l
  Changes-GateFits g _ (forces t s l) h = forced-GateFits g t h l

  pub run_calls-GateFits : (cs : List Call) (g : Gate) → GateFits g → GateFits (run_calls g cs)
  unfolding run_calls
  run_calls-GateFits [] g h = h
  run_calls-GateFits (c ∷ cs) g h =
      run_calls-GateFits cs (after g c) (Changes-GateFits g (after g c) (after-Changes g c) h)

  initial-GateFits : (id : String) (t : Time) → GateFits (initial_gate id t)
  initial-GateFits id t = record {
    count = refl;
    distinct = tt;
    bounded = λ z e. cc e;
    apart = λ z e. cc e;
    phase = (refl, refl, refl);
    ordered = ground arith;
    matches = refl;
  }

  created-GateFits : (id : String) (t : Time) (g : Gate) → create_gate id t ≡ some g → GateFits g
  unfolding create_gate
  created-GateFits id t g e = elim (Bool-cases (is_bounded id)) [
    | inl b ↦
        let made : some (initial_gate id t) ≡ some g = rw b at e in
        let same : initial_gate id t ≡ g = cc made in subst GateFits same (initial-GateFits id t)
    | inr b ↦ let thrown : none ≡ some g = rw b at e in cc thrown
  ]

  -- Of a gate that was created, after any calls in any order: the count is the number of
  -- reservations, which are distinct and not completed; the times and the reason are those of the
  -- status; a draining gate still waits for a reservation and a stopped one has none; and the
  -- fingerprint is that of the facts.
  pub gate-GateFits :
      (id : String) (t : Time) (g : Gate) (cs : List Call)
      → create_gate id t ≡ some g
      → GateFits (run_calls g cs)
  gate-GateFits id t g cs e = run_calls-GateFits cs g (created-GateFits id t g e)
