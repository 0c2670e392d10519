-- ===== src/PdfExport/ShutdownDrain.antt =====
-- The shutdown gate of the worker (pdfExport/pdfExportShutdownDrain.ts): claims reserve a place, a
-- drain lets the reserved ones end and takes no new ones, and a forced stop ends them at once.
pub mod Reserved
pub mod Invariant
pub mod Draining
pub mod Completion
use flowdoc_vnext_backend.Common.{
  ℕ, ◌+◌, String, Bool, true, false, not, ◌&&◌, Option, none, some, List, [], ◌∷◌, ◌||◌,
  if◌then◌else◌, ltb,
}
use flowdoc_vnext_backend.Common.Text.{is_bounded}
use flowdoc_vnext_backend.PdfExport.Issue.{Time, Issue, issue, Digest, fingerprint}
use flowdoc_vnext_backend.PdfExport.ShutdownDrain.Reserved.{
  IdSet, has, add, add_each, delete, size, sort,
}

pub data GateStatus : Type 0 where
  accepting : GateStatus
  draining : GateStatus
  stopped : GateStatus

pub data GateStopReason : Type 0 where
  shutdown_drain_complete : GateStopReason
  shutdown_forced : GateStopReason

-- The fields of one literal type (source, contractVersion, kind, contracts) are left out: no
-- operation reads or writes them.
pub record DrainFacts : Type 0 where
  pub gate_id : String
  pub revision : ℕ
  pub status : GateStatus
  pub active_reservation_count : ℕ
  pub drain_requested_at : Option Time
  pub stopped_at : Option Time
  pub stop_reason : Option GateStopReason
  pub created_at : Time
  pub updated_at : Time

pub record DrainState : Type 0 where
  pub facts : DrainFacts
  pub open facts use *
  pub drain_fingerprint : String

-- The variables of the closure.
pub record Gate : Type 0 where
  pub state : DrainState
  pub reservations : IdSet
  pub completed_reservations : IdSet

pub data DrainStatus : Type 0 where
  reserved : DrainStatus
  released : DrainStatus
  now_draining : DrainStatus
  now_stopped : DrainStatus
  idempotent_replay : DrainStatus
  rejected : DrainStatus
  blocked : DrainStatus

-- An answer also has the state that the gate is left in.
pub record DrainResult : Type 0 where
  pub answer : DrainStatus
  pub forced_reservation_ids : List String
  pub issues : List Issue

abbrev pub ok : DrainStatus → DrainResult
ok x = record { answer = x; forced_reservation_ids = []; issues = [] }

abbrev pub refuse : DrainStatus → String → String → DrainResult
refuse x code path = record {
  answer = x;
  forced_reservation_ids = [];
  issues = issue code path ∷ [];
}

abbrev pub is_accepting : GateStatus → Bool
is_accepting accepting = true
is_accepting draining = false
is_accepting stopped = false

abbrev pub is_draining : GateStatus → Bool
is_draining accepting = false
is_draining draining = true
is_draining stopped = false

abbrev pub is_stopped : GateStatus → Bool
is_stopped accepting = false
is_stopped draining = false
is_stopped stopped = true

abbrev pub is_none : IdSet → Bool
is_none [] = true
is_none (x ∷ xs) = false

-- `value ?? fallback`
abbrev pub or_else : Option Time → Time → Option Time
or_else none t = some t
or_else (some u) t = some u

module _ ⦃d : Digest DrainFacts⦄ where
  abbrev pub finalize : DrainFacts → DrainState
  finalize f = record { facts = f; drain_fingerprint = fingerprint f }

  abbrev pub initial_gate : String → Time → Gate
  initial_gate id created = record {
    state = finalize (record {
      gate_id = id;
      revision = 0;
      status = accepting;
      active_reservation_count = 0;
      drain_requested_at = none;
      stopped_at = none;
      stop_reason = none;
      created_at = created;
      updated_at = created;
    });
    reservations = [];
    completed_reservations = [];
  }

  -- createFlowDocBackendPdfExportShutdownDrainGateV1: none where the source throws.
  unfoldable pub create_gate : String → Time → Option Gate
  create_gate id created = if not (is_bounded id) then none else some (initial_gate id created)

  -- staleTime
  abbrev pub stale_time : Gate → Time → Bool
  stale_time g t = ltb t g.state.updated_at

  -- reserveClaim, from the line that adds the reservation.
  abbrev pub reserved_gate : Gate → String → Time → Gate
  reserved_gate g id t = record {
    state = finalize (record {
      gate_id = g.state.gate_id;
      revision = g.state.revision + 1;
      status = g.state.status;
      active_reservation_count = size (add g.reservations id);
      drain_requested_at = g.state.drain_requested_at;
      stopped_at = g.state.stopped_at;
      stop_reason = g.state.stop_reason;
      created_at = g.state.created_at;
      updated_at = t;
    });
    reservations = add g.reservations id;
    completed_reservations = g.completed_reservations;
  }

  unfoldable pub reserve_claim : Gate → String → Time → Gate × DrainResult
  reserve_claim g id t =
      if not (is_bounded id)
      then (g, refuse blocked "pdf-export-drain-reservation-invalid" "reservation")
      else if has g.reservations id || has g.completed_reservations id
      then (g, ok idempotent_replay)
      else if stale_time g t
      then (g, refuse blocked "pdf-export-drain-reservation-invalid" "reservedAt")
      else if not (is_accepting g.state.status)
      then (g, refuse rejected "pdf-export-drain-claim-rejected" "status")
      else (reserved_gate g id t, ok reserved)

  -- The state after a release, by whether it completes the drain.
  abbrev pub released_gate : Gate → String → Time → Bool → Gate
  released_gate g id t completed = record {
    state = finalize (record {
      gate_id = g.state.gate_id;
      revision = g.state.revision + 1;
      status = if completed then stopped else g.state.status;
      active_reservation_count = size (delete g.reservations id);
      drain_requested_at = g.state.drain_requested_at;
      stopped_at = if completed then some t else g.state.stopped_at;
      stop_reason = if completed then some shutdown_drain_complete else g.state.stop_reason;
      created_at = g.state.created_at;
      updated_at = t;
    });
    reservations = delete g.reservations id;
    completed_reservations = add g.completed_reservations id;
  }

  abbrev pub completes : Gate → String → Bool
  completes g id = is_draining g.state.status && is_none (delete g.reservations id)

  unfoldable pub release_claim : Gate → String → Time → Gate × DrainResult
  release_claim g id t =
      if not (is_bounded id)
      then (g, refuse blocked "pdf-export-drain-release-invalid" "reservation")
      else if has g.completed_reservations id
      then (g, ok idempotent_replay)
      else if stale_time g t
      then (g, refuse blocked "pdf-export-drain-release-invalid" "releasedAt")
      else if not (has g.reservations id)
      then (g, refuse blocked "pdf-export-drain-reservation-not-found" "reservationId")
      else (
        released_gate g id t (completes g id),
        ok (if completes g id then now_stopped else released),
      )

  -- The state after a drain begins, by whether nothing is reserved.
  abbrev pub drained_gate : Gate → Time → Bool → Gate
  drained_gate g t completed = record {
    state = finalize (record {
      gate_id = g.state.gate_id;
      revision = g.state.revision + 1;
      status = if completed then stopped else draining;
      active_reservation_count = g.state.active_reservation_count;
      drain_requested_at = some t;
      stopped_at = if completed then some t else none;
      stop_reason = if completed then some shutdown_drain_complete else none;
      created_at = g.state.created_at;
      updated_at = t;
    });
    reservations = g.reservations;
    completed_reservations = g.completed_reservations;
  }

  unfoldable pub begin_drain : Gate → Time → Gate × DrainResult
  begin_drain g t =
      if not (is_accepting g.state.status)
      then (g, ok idempotent_replay)
      else if stale_time g t
      then (g, refuse blocked "pdf-export-drain-time-invalid" "requestedAt")
      else (
        drained_gate g t (is_none g.reservations),
        ok (if is_none g.reservations then now_stopped else now_draining),
      )

  abbrev pub forced_gate : Gate → Time → Gate
  forced_gate g t = record {
    state = finalize (record {
      gate_id = g.state.gate_id;
      revision = g.state.revision + 1;
      status = stopped;
      active_reservation_count = 0;
      drain_requested_at = or_else g.state.drain_requested_at t;
      stopped_at = some t;
      stop_reason = some shutdown_forced;
      created_at = g.state.created_at;
      updated_at = t;
    });
    reservations = [];
    completed_reservations = add_each g.completed_reservations (sort g.reservations);
  }

  unfoldable pub force_stop : Gate → Time → Gate × DrainResult
  force_stop g t =
      if is_stopped g.state.status
      then (g, ok idempotent_replay)
      else if stale_time g t
      then (g, refuse blocked "pdf-export-drain-time-invalid" "stoppedAt")
      else (
        forced_gate g t,
        record { answer = now_stopped; forced_reservation_ids = sort g.reservations; issues = [] },
      )
