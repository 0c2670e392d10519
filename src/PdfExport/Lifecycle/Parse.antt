-- ===== src/PdfExport/Lifecycle/Parse.antt =====
-- parseFlowDocBackendPdfExportLifecycleHeadV1: every test that a head must pass, in order.
use flowdoc_vnext_backend.Common.{
  ◌-◌, String, Bool, true, false, not, ◌&&◌, ◌||◌, Option, none, some, List, [], ◌∷◌, ltb, leb,
  ◌==◌, number_eq, text_eq, if◌then◌else◌,
}
use flowdoc_vnext_backend.Common.Text.{is_bounded, is_fingerprint}
use flowdoc_vnext_backend.PdfExport.Issue.{Issue, issue, reports, Digest, fingerprint}
use flowdoc_vnext_backend.PdfExport.Lifecycle.Head.{
  Status, pending, claimed, stopped, Claim, Cancellation, Release, CheckpointCheck, Stop,
  LifecycleContracts, HeadFacts, Head, head_source, lifecycle_version, max_claim_duration_ms,
  checkpoint_eq, reason_eq, cancellation_reason, is_cancelled,
}

pub data HeadResult : Type 0 where
  ready : Head → HeadResult
  blocked : List Issue → HeadResult

abbrev pub is_some {ℓ} : {A : Type ℓ} → Option A → Bool
is_some none = false
is_some (some _) = true

-- A test of what a nullable field holds; null passes it.
abbrev pub any {ℓ} : {A : Type ℓ} → (A → Bool) → Option A → Bool
any p none = false
any p (some a) = p a

-- A part that does not parse is null.
abbrev pub parse_part {ℓ} : {A : Type ℓ} → (A → Bool) → Option A → Option A
parse_part ok none = none
parse_part ok (some a) = if ok a then some a else none

-- parseClaim
unfoldable pub claim_parses : Claim → Bool
claim_parses c =
    is_bounded c.claim_token
    && is_bounded c.worker_id
    && leb 1 c.attempt_number
    && ltb c.claimed_at c.expires_at
    && leb (c.expires_at - c.claimed_at) max_claim_duration_ms

-- parseCancellation
unfoldable pub cancellation_parses : Cancellation → Bool
cancellation_parses c = is_bounded c.transition_id

-- parseRelease
unfoldable pub release_parses : Release → Bool
release_parses r = is_bounded r.claim_token && is_bounded r.worker_id && leb 1 r.attempt_number

-- parseCheckpointCheck
unfoldable pub check_parses : CheckpointCheck → Bool
check_parses c = is_bounded c.claim_token

-- parseStop: its reason, its checkpoint and its time are of their types.
unfoldable pub stop_parses : Stop → Bool
stop_parses s = true

unfoldable pub identity_valid : HeadFacts → Bool
identity_valid f =
    f.source == head_source
    && f.contract_version == lifecycle_version
    && f.kind == "pdf-export-lifecycle-head"
    && is_bounded f.operation_id
    && is_bounded f.scope.tenant_id
    && is_bounded f.scope.principal_id
    && is_fingerprint f.operation_fingerprint
    && is_fingerprint f.admission_fingerprint
    && is_fingerprint f.payload_fingerprint

unfoldable pub counters_valid : HeadFacts → Bool
counters_valid f =
    leb 1 f.max_attempts
    && leb f.attempt_count f.max_attempts
    && leb f.created_at f.updated_at
    && ltb f.created_at f.deadline_at

unfoldable pub contracts_exact : LifecycleContracts → Bool
contracts_exact c =
    c.revision_compare_and_swap
    && c.durable_transition_replay
    && c.bounded_claims
    && c.bounded_attempts
    && c.deadline_enforcement
    && c.checkpoint_cancellation
    && not c.renderer_execution
    && not c.byte_persistence
    && not c.artifact_projection
    && not c.backend_route
    && not c.production_binding

-- The parts as they parsed.
pub record Parts : Type 0 where
  pub claim : Option Claim
  pub cancellation : Option Cancellation
  pub last_release : Option Release
  pub checkpoint_check : Option CheckpointCheck
  pub stop : Option Stop

unfoldable pub parts : HeadFacts → Parts
parts f = record {
  claim = parse_part claim_parses f.claim;
  cancellation = parse_part cancellation_parses f.cancellation;
  last_release = parse_part release_parses f.last_release;
  checkpoint_check = parse_part check_parses f.checkpoint_check;
  stop = parse_part stop_parses f.stop;
}

-- The status must match the claim, the retry time and the stop.
unfoldable pub state_invalid : Status → HeadFacts → Parts → Bool
state_invalid pending f p = is_some p.claim || is_some p.checkpoint_check || is_some p.stop
state_invalid claimed f p = not (is_some p.claim) || is_some p.stop || is_some f.retry_after
state_invalid stopped f p =
    is_some p.claim || is_some p.checkpoint_check || not (is_some p.stop) || is_some f.retry_after

unfoldable pub claim_unbound : HeadFacts → Claim → Bool
claim_unbound f c =
    not (c.attempt_number == f.attempt_count)
    || ltb c.claimed_at f.created_at
    || ltb f.updated_at c.claimed_at
    || ltb f.deadline_at c.expires_at

unfoldable pub cancellation_unbound : HeadFacts → Cancellation → Bool
cancellation_unbound f c = ltb c.requested_at f.created_at || ltb f.updated_at c.requested_at

unfoldable pub release_unbound : HeadFacts → Release → Bool
release_unbound f r =
    ltb f.attempt_count r.attempt_number
    || ltb f.updated_at r.released_at
    || any (λ t. ltb t r.released_at) r.retry_after
    || any (λ t. leb f.deadline_at t) r.retry_after

-- Whether a token is not that of the live claim.
abbrev other_token : Option Claim → String → Bool
other_token none token = true
other_token (some c) token = not (token == c.claim_token)

unfoldable pub check_unbound : HeadFacts → Option Claim → CheckpointCheck → Bool
check_unbound f claim k =
    other_token claim k.claim_token
    || not (k.checkpoint == f.checkpoint)
    || not (k.checked_at == f.updated_at)

unfoldable pub stop_unbound : HeadFacts → Option Cancellation → Stop → Bool
stop_unbound f cancellation s =
    not (s.checkpoint == f.checkpoint)
    || not (s.stopped_at == f.updated_at)
    || (is_cancelled s.reason && not (s.reason == cancellation_reason s.checkpoint))
    || (is_cancelled s.reason && not (is_some cancellation))

-- A part that is there and did not parse.
abbrev pub broken {ℓ} : {A : Type ℓ} → Option A → Option A → Bool
broken given parsed = is_some given && not (is_some parsed)

module _ ⦃d : Digest HeadFacts⦄ where
  unfoldable pub head_rows : Head → List (Bool × Issue)
  head_rows h =
      let f = h.facts in
      let p = parts f in
      ((
        not (identity_valid f && counters_valid f && is_fingerprint h.lifecycle_fingerprint),
        issue "pdf-export-lifecycle-facts-invalid" "head",
      )
        ∷ (
          not (contracts_exact f.contracts),
          issue "pdf-export-lifecycle-boundary-invalid" "contracts",
        )
        ∷ (broken f.claim p.claim, issue "pdf-export-lifecycle-claim-invalid" "claim")
        ∷ (
          broken f.cancellation p.cancellation,
          issue "pdf-export-lifecycle-cancellation-invalid" "cancellation",
        )
        ∷ (
          broken f.last_release p.last_release,
          issue "pdf-export-lifecycle-release-invalid" "lastRelease",
        )
        ∷ (
          broken f.checkpoint_check p.checkpoint_check,
          issue "pdf-export-lifecycle-checkpoint-check-invalid" "checkpointCheck",
        )
        ∷ (broken f.stop p.stop, issue "pdf-export-lifecycle-stop-invalid" "stop")
        ∷ (state_invalid f.status f p, issue "pdf-export-lifecycle-state-invalid" "status")
        ∷ (
          any (claim_unbound f) p.claim,
          issue "pdf-export-lifecycle-claim-binding-invalid" "claim",
        )
        ∷ (
          any (cancellation_unbound f) p.cancellation,
          issue "pdf-export-lifecycle-cancellation-time-invalid" "cancellation.requestedAt",
        )
        ∷ (
          any (release_unbound f) p.last_release,
          issue "pdf-export-lifecycle-release-binding-invalid" "lastRelease",
        )
        ∷ (
          any (check_unbound f p.claim) p.checkpoint_check,
          issue "pdf-export-lifecycle-checkpoint-check-binding-invalid" "checkpointCheck",
        )
        ∷ (
          any (stop_unbound f p.cancellation) p.stop,
          issue "pdf-export-lifecycle-stop-binding-invalid" "stop",
        )
        ∷ (
          is_fingerprint h.lifecycle_fingerprint && not (fingerprint f == h.lifecycle_fingerprint),
          issue "pdf-export-lifecycle-fingerprint-mismatch" "lifecycleFingerprint",
        )
        ∷ [])

  unfoldable pub parse_head : Head → HeadResult
  parse_head h = elim (reports (head_rows h)) [ [] ↦ ready h | i ∷ is ↦ blocked (i ∷ is) ]
