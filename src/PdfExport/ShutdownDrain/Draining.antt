-- ===== src/PdfExport/ShutdownDrain/Draining.antt =====
-- How the shutdown gate goes on (pdfExport/pdfExportShutdownDrain.ts): no claim is taken or forgotten
-- during a drain, and a forced stop ends it.
use mathlib.Core.Path.{subst}
use flowdoc_vnext_backend.Common.{
  ◌≤◌, String, ◌≡◌, refl, sym, ◌∙◌, ap, Bool, true, false, not, ◌||◌, some, List, [], ◌∷◌, text_eq,
  arith, if◌then◌else◌,
}
use flowdoc_vnext_backend.Common.Text.{is_bounded}
use flowdoc_vnext_backend.PdfExport.Issue.{Time, Digest}
use flowdoc_vnext_backend.PdfExport.ShutdownDrain.{
  GateStatus, stopped, shutdown_forced, DrainFacts, Gate, is_accepting, is_stopped, released_gate,
  release_claim, completes, forced_gate, force_stop, stale_time, ok, idempotent_replay, now_stopped,
  DrainResult,
}
use flowdoc_vnext_backend.PdfExport.ShutdownDrain.Reserved.{
  has, size, sort, Sorted, has-add, has-delete, has-sort, has-add_each, size-sort, sort-Sorted,
}
use flowdoc_vnext_backend.PdfExport.ShutdownDrain.Invariant.{
  Call, release, after, run_calls, GateFits, Changes, unchanged, reserves, releases, drains, forces,
  after-Changes,
}

module _ ⦃d : Digest DrainFacts⦄ where
  -- Later than.
  pub record Follows (g g' : Gate) : Type 0 where
    pub known :
        (id : String)
        → (has g.reservations id || has g.completed_reservations id) ≡ true
        → (has g'.reservations id || has g'.completed_reservations id) ≡ true
    pub ended :
        (id : String)
        → has g.completed_reservations id ≡ true
        → has g'.completed_reservations id ≡ true
    pub closed : is_accepting g.state.status ≡ false → is_accepting g'.state.status ≡ false
    pub unclaimed :
        is_accepting g.state.status ≡ false
        → (id : String) → has g'.reservations id ≡ true
        → has g.reservations id ≡ true
    pub time : g.state.updated_at ≤ g'.state.updated_at

  closed_release :
      (b : Bool) (x : GateStatus)
      → is_accepting x ≡ false
      → is_accepting (if b then stopped else x) ≡ false
  closed_release true x e = refl
  closed_release false x e = e

  Changes-Follows : (g g' : Gate) → Changes g g' → Follows g g'
  Changes-Follows g _ unchanged = record {
    known = λ id e. e;
    ended = λ id e. e;
    closed = λ e. e;
    unclaimed = λ e id h. h;
    time = ground arith;
  }
  Changes-Follows g _ (reserves id t b n f a l) = record {
    known = λ z e. ground (arith, has-add g.reservations id z, e);
    ended = λ z e. e;
    closed = λ e. e;
    unclaimed = λ e. cc (a, e);
    time = l;
  }
  Changes-Follows g _ (releases id t held l) = record {
    known = λ z e.
        ground (arith, has-delete g.reservations id z, has-add g.completed_reservations id z, e);
    ended = λ z e. ground (arith, has-add g.completed_reservations id z, e);
    closed = λ e. closed_release (completes g id) g.state.status e;
    unclaimed = λ e z h. ground (arith, has-delete g.reservations id z, h);
    time = l;
  }
  Changes-Follows g _ (drains t a l) = record {
    known = λ z e. e;
    ended = λ z e. e;
    closed = λ e. cc (a, e);
    unclaimed = λ e. cc (a, e);
    time = l;
  }
  Changes-Follows g _ (forces t s l) = record {
    known = λ z e. ground (
      arith,
      has-add_each (sort g.reservations) g.completed_reservations z,
      has-sort g.reservations z,
      e,
    );
    ended = λ z e. ground (arith, has-add_each (sort g.reservations) g.completed_reservations z, e);
    closed = λ e. refl;
    unclaimed = λ e z h. cc h;
    time = l;
  }

  -- A run of calls forgets no reservation, does not take a completed one back, does not go back in
  -- time; and from a gate that accepts no claims, it never accepts again and reserves nothing.
  pub run_calls-Follows : (cs : List Call) (g : Gate) → Follows g (run_calls g cs)
  unfolding run_calls
  run_calls-Follows [] g = Changes-Follows g g unchanged
  run_calls-Follows (c ∷ cs) g =
      let one = Changes-Follows g (after g c) (after-Changes g c) in
      let rest = run_calls-Follows cs (after g c) in
      record {
        known = λ id e. rest.known id (one.known id e);
        ended = λ id e. rest.ended id (one.ended id e);
        closed = λ e. rest.closed (one.closed e);
        unclaimed = λ e id h. one.unclaimed e id (rest.unclaimed (one.closed e) id h);
        time = ground (arith, one.time, rest.time);
      }

  skip : (b : Bool) (r x : Gate × DrainResult) → b ≡ false → (if b then r else x) ≡ x
  skip true r x e = cc e
  skip false r x e = refl

  pub accepted_release :
      (g : Gate) (x : String) (t : Time)
      → GateFits g
      → has g.reservations x ≡ true
      → g.state.updated_at ≤ t
      → after g (release x t) ≡ released_gate g x t (completes g x)
  unfolding after release_claim
  accepted_release g x t h held later =
      ap (λ z. z.0)
        (skip (not (is_bounded x)) _ _ (ap not (h.bounded x held))
          ∙ skip (has g.completed_reservations x) _ _ (h.apart x held)
          ∙ skip (stale_time g t) _ _ (ground (arith, later))
          ∙ skip (not (has g.reservations x)) _ _ (ap not held))

  -- What a forced stop leaves and answers.
  pub record Forces (g : Gate) (t : Time) (g' : Gate) (r : DrainResult) : Type 0 where
    pub status : g'.state.status ≡ stopped
    pub reason : g'.state.stop_reason ≡ some shutdown_forced
    pub at : g'.state.stopped_at ≡ some t
    pub none_left : g'.reservations ≡ []
    pub sorted : Sorted r.forced_reservation_ids
    pub number : size r.forced_reservation_ids ≡ g.state.active_reservation_count
    pub each : (id : String) → has r.forced_reservation_ids id ≡ has g.reservations id
    pub replays :
        (id : String) (later : Time)
        → has g.reservations id ≡ true
        → release_claim g' id later ≡ (g', ok idempotent_replay)

  unfoldable forced_result : Gate → DrainResult
  forced_result g = record {
    answer = now_stopped;
    forced_reservation_ids = sort g.reservations;
    issues = [];
  }

  replays-forced :
      (g : Gate) (t later : Time) (id : String)
      → GateFits g
      → has g.reservations id ≡ true
      → release_claim (forced_gate g t) id later ≡ (forced_gate g t, ok idempotent_replay)
  unfolding release_claim
  replays-forced g t later id h held =
      let gone : has (forced_gate g t).completed_reservations id ≡ true = ground (
        arith,
        has-add_each (sort g.reservations) g.completed_reservations id,
        has-sort g.reservations id,
      ) in
      rw (h.bounded id held) (rw gone refl)

  -- A forced stop of a gate that has not stopped, no earlier than its last change, stops it at that
  -- time and for that reason, with no reservation left; it answers the ids that were reserved, all of
  -- them, as many as were counted and in order; and a later release of one of them replays.
  pub force_stop-Forces :
      (g : Gate) (t : Time)
      → GateFits g
      → is_stopped g.state.status ≡ false
      → g.state.updated_at ≤ t
      → Forces g t (force_stop g t).0 (force_stop g t).1
  unfolding force_stop forced_result
  force_stop-Forces g t h live later =
      let e : force_stop g t ≡ (forced_gate g t, forced_result g) =
        skip (is_stopped g.state.status) _ _ live
        ∙ skip (stale_time g t) _ _ (ground (arith, later)) in
      subst (λ z. Forces g t z.0 z.1) (sym e)
        (record {
          status = refl;
          reason = refl;
          at = refl;
          none_left = refl;
          sorted = sort-Sorted g.reservations;
          number = size-sort g.reservations ∙ sym h.count;
          each = has-sort g.reservations;
          replays = λ id later' held. replays-forced g t later' id h held;
        })
