-- ===== src/PdfExport/Lifecycle/Transition.antt =====
-- Creating a head and applying a transition to it (pdfExport/pdfExportLifecycle.ts, lines 240 to
-- 250 and 426 to 807). A request has the fields of its kind; its identities, its times and the
-- next checkpoint are tested here.
use flowdoc_vnext_backend.Common.{
  ◌+◌, ◌-◌, String, Bool, true, false, not, ◌&&◌, ◌||◌, Option, none, some, List, [], ◌∷◌, ◌++◌,
  ltb, leb, ◌==◌, number_eq, text_eq, if◌then◌else◌,
}
use flowdoc_vnext_backend.Common.Text.{is_bounded}
use flowdoc_vnext_backend.PdfExport.Issue.{Time, Issue, issue, reports, Digest, fingerprint}
use flowdoc_vnext_backend.PdfExport.Operation
use flowdoc_vnext_backend.PdfExport.Operation.{
  CoreNames, AdmissionFacts, OperationFacts, parse_operation,
}
use flowdoc_vnext_backend.PdfExport.Lifecycle.Head.{
  Checkpoint, before_handoff, before_render, before_persist, StopReason, deadline_exceeded,
  attempts_exhausted, shutdown_forced, Status, pending, claimed, stopped, Claim, Cancellation,
  Release, HeadFacts, Head, TransitionKind, claim, request_cancellation, pass_checkpoint,
  release_claim, check_checkpoint, enforce_deadline, force_shutdown, TransitionRequest, KindName,
  ReceiptFacts, Receipt, exact_contracts, head_source, transition_source, lifecycle_version,
  max_claim_duration_ms, checkpoint_eq, cancellation_reason,
}
use flowdoc_vnext_backend.PdfExport.Lifecycle.Parse
use flowdoc_vnext_backend.PdfExport.Lifecycle.Parse.{is_some, any, HeadResult, parse_head}

-- What a transition makes of the head: the next facts, or the issue that refuses it.
pub data Outcome : Type 0 where
  next : HeadFacts → Outcome
  refused : Issue → Outcome

abbrev refuse : String → String → Outcome
refuse code path = refused (issue code path)

pub data Inspection : Type 0 where
  ready : TransitionRequest → String → Inspection
  blocked : List Issue → Inspection

pub data ApplyResult : Type 0 where
  applied : Head → Receipt → ApplyResult
  blocked : Option Head → List Issue → ApplyResult

abbrev pub kind_name : TransitionKind → KindName
kind_name (claim _ _ _) = KindName.claim
kind_name request_cancellation = KindName.request_cancellation
kind_name (pass_checkpoint _ _) = KindName.pass_checkpoint
kind_name (release_claim _ _) = KindName.release_claim
kind_name (check_checkpoint _) = KindName.check_checkpoint
kind_name enforce_deadline = KindName.enforce_deadline
kind_name force_shutdown = KindName.force_shutdown

abbrev token_issue : Issue
token_issue = issue "pdf-export-lifecycle-claim-token-invalid" "claimToken"

abbrev identity_issue : String → Issue
identity_issue path = issue "pdf-export-lifecycle-transition-identity-invalid" path

-- normalizeBase
base_rows : TransitionRequest → List (Bool × Issue)
base_rows r =
    (not (is_bounded r.transition_id), identity_issue "transitionId")
    ∷ (not (is_bounded r.tenant_id), identity_issue "tenantId")
    ∷ (not (is_bounded r.principal_id), identity_issue "principalId")
    ∷ (not (is_bounded r.operation_id), identity_issue "operationId")
    ∷ []

kind_rows : TransitionKind → List (Bool × Issue)
kind_rows (claim token worker expires) =
    (not (is_bounded token), token_issue)
    ∷ (not (is_bounded worker), issue "pdf-export-lifecycle-worker-id-invalid" "workerId")
    ∷ []
kind_rows (pass_checkpoint token following) =
    (not (is_bounded token), token_issue)
    ∷ (
      following == before_handoff,
      issue "pdf-export-lifecycle-next-checkpoint-invalid" "nextCheckpoint",
    )
    ∷ []
kind_rows (release_claim token retry) = (not (is_bounded token), token_issue) ∷ []
kind_rows (check_checkpoint token) = (not (is_bounded token), token_issue) ∷ []
kind_rows request_cancellation = []
kind_rows enforce_deadline = []
kind_rows force_shutdown = []

-- The tests of inspectFlowDocBackendPdfExportLifecycleTransitionRequestV1
unfoldable pub request_rows : TransitionRequest → List (Bool × Issue)
unfolding base_rows kind_rows
request_rows r = base_rows r ++ kind_rows r.kind

unfoldable pub inspect : ⦃d : Digest TransitionRequest⦄ → TransitionRequest → Inspection
inspect r = elim (reports (request_rows r)) [
  | [] ↦ ready r (fingerprint r)
  | i ∷ is ↦ blocked (i ∷ is)
]

-- stopFacts
unfoldable pub stop_facts : HeadFacts → StopReason → Time → Option Cancellation → HeadFacts
stop_facts f reason at cancellation = record f {
  head_revision = f.head_revision + 1;
  status = stopped;
  retry_after = none;
  claim = none;
  cancellation = cancellation;
  checkpoint_check = none;
  stop = some (record { reason = reason; checkpoint = f.checkpoint; stopped_at = at });
  updated_at = at;
}

-- The facts that each other branch writes.
abbrev pub cancellation_of : TransitionRequest → Cancellation
cancellation_of r = record { transition_id = r.transition_id; requested_at = r.transition_at }

unfoldable pub marked_facts : HeadFacts → TransitionRequest → HeadFacts
marked_facts f r = record f {
  head_revision = f.head_revision + 1;
  cancellation = some (cancellation_of r);
  checkpoint_check = none;
  updated_at = r.transition_at;
}

abbrev pub claim_checkpoint : Status → Checkpoint → Checkpoint
claim_checkpoint claimed c = before_handoff
claim_checkpoint _ c = c

unfoldable pub claimed_facts : HeadFacts → Time → String → String → Time → HeadFacts
claimed_facts f at token worker expires = record f {
  head_revision = f.head_revision + 1;
  status = claimed;
  checkpoint = claim_checkpoint f.status f.checkpoint;
  attempt_count = f.attempt_count + 1;
  retry_after = none;
  claim = some (record {
    claim_token = token;
    worker_id = worker;
    attempt_number = f.attempt_count + 1;
    claimed_at = at;
    expires_at = expires;
  });
  checkpoint_check = none;
  updated_at = at;
}

unfoldable pub passed_facts : HeadFacts → Time → Checkpoint → HeadFacts
passed_facts f at following = record f {
  head_revision = f.head_revision + 1;
  checkpoint = following;
  checkpoint_check = none;
  updated_at = at;
}

abbrev pub release_of : Claim → Time → Option Time → Release
release_of c at retry = record {
  claim_token = c.claim_token;
  worker_id = c.worker_id;
  attempt_number = c.attempt_number;
  released_at = at;
  retry_after = retry;
}

unfoldable pub exhausted_facts : HeadFacts → Claim → Time → Option Time → HeadFacts
unfolding stop_facts
exhausted_facts f c at retry = record (stop_facts f attempts_exhausted at f.cancellation) {
  last_release = some (release_of c at retry);
}

unfoldable pub released_facts : HeadFacts → Claim → Time → Option Time → HeadFacts
released_facts f c at retry = record f {
  head_revision = f.head_revision + 1;
  status = pending;
  checkpoint = before_handoff;
  retry_after = retry;
  claim = none;
  checkpoint_check = none;
  last_release = some (release_of c at retry);
  updated_at = at;
}

unfoldable pub checked_facts : HeadFacts → Claim → Time → HeadFacts
checked_facts f c at = record f {
  head_revision = f.head_revision + 1;
  checkpoint_check =
      some (record { checkpoint = f.checkpoint; claim_token = c.claim_token; checked_at = at });
  updated_at = at;
}

unfoldable pub cancel_facts : HeadFacts → TransitionRequest → Outcome
cancel_facts f r =
    if is_some f.cancellation
    then refuse "pdf-export-lifecycle-cancellation-exists" "cancellation"
    else if leb f.deadline_at r.transition_at
    then next (stop_facts f deadline_exceeded r.transition_at (some (cancellation_of r)))
    else elim f.status [
      | pending ↦ next (
          stop_facts f (cancellation_reason f.checkpoint) r.transition_at
            (some (cancellation_of r)))
      | _ ↦ next (marked_facts f r)
    ]

-- `head.status === "claimed" && transitionMs < Date.parse(head.claim!.expiresAt)`
abbrev pub claim_busy : Status → Option Claim → Time → Bool
claim_busy claimed c at = any (λ c. ltb at c.expires_at) c
claim_busy _ c at = false

abbrev pub retry_deferred : Status → Option Time → Time → Bool
retry_deferred pending retry at = any (λ t. ltb at t) retry
retry_deferred _ retry at = false

unfoldable pub claim_facts : HeadFacts → Time → String → String → Time → Outcome
claim_facts f at token worker expires =
    if leb f.deadline_at at
    then next (stop_facts f deadline_exceeded at f.cancellation)
    else if is_some f.cancellation
    then next (stop_facts f (cancellation_reason f.checkpoint) at f.cancellation)
    else if claim_busy f.status f.claim at
    then refuse "pdf-export-lifecycle-claim-busy" "claim"
    else if retry_deferred f.status f.retry_after at
    then refuse "pdf-export-lifecycle-retry-deferred" "retryAfter"
    else if leb f.max_attempts f.attempt_count
    then next (stop_facts f attempts_exhausted at f.cancellation)
    else if leb expires at || ltb f.deadline_at expires || ltb max_claim_duration_ms (expires - at)
    then refuse "pdf-export-lifecycle-claim-window-invalid" "claimExpiresAt"
    else next (claimed_facts f at token worker expires)

abbrev pub valid_next : Checkpoint → Checkpoint → Bool
valid_next before_handoff before_render = true
valid_next before_render before_persist = true
valid_next _ _ = false

unfoldable pub pass_facts : HeadFacts → Time → Checkpoint → Outcome
pass_facts f at following =
    if valid_next f.checkpoint following
    then next (passed_facts f at following)
    else refuse "pdf-export-lifecycle-checkpoint-order-invalid" "nextCheckpoint"

unfoldable pub release_facts : HeadFacts → Claim → Time → Option Time → Outcome
release_facts f c at retry =
    if any (λ t. ltb t at || leb f.deadline_at t) retry
    then refuse "pdf-export-lifecycle-retry-window-invalid" "retryAfter"
    else if leb f.max_attempts f.attempt_count
    then next (exhausted_facts f c at retry)
    else next (released_facts f c at retry)

-- What the owner of the claim asks for, past the tests that all such requests share.
unfoldable pub owner_facts : HeadFacts → Claim → Time → TransitionKind → Outcome
unfolding pass_facts release_facts
owner_facts f c at (pass_checkpoint _ following) = pass_facts f at following
owner_facts f c at (release_claim _ retry) = release_facts f c at retry
owner_facts f c at (check_checkpoint _) = next (checked_facts f c at)
owner_facts f c at _ = refuse "pdf-export-lifecycle-transition-unhandled" "kind"

abbrev claim_stale : Outcome
claim_stale = refuse "pdf-export-lifecycle-claim-stale" "claimToken"

unfoldable pub owned_by : Option Claim → HeadFacts → Time → String → TransitionKind → Outcome
unfolding owner_facts
owned_by none f at token k = claim_stale
owned_by (some c) f at token k =
    if not (c.claim_token == token)
    then claim_stale
    else if leb c.expires_at at
    then refuse "pdf-export-lifecycle-claim-expired" "transitionAt"
    else if leb f.deadline_at at
    then next (stop_facts f deadline_exceeded at f.cancellation)
    else if is_some f.cancellation
    then next (stop_facts f (cancellation_reason f.checkpoint) at f.cancellation)
    else owner_facts f c at k

unfoldable pub with_claim : HeadFacts → Time → String → TransitionKind → Outcome
unfolding owned_by
with_claim f at token k = elim f.status [
  | claimed ↦ owned_by f.claim f at token k
  | _ ↦ claim_stale
]

-- The branches over `request.kind`.
unfoldable pub kind_facts : HeadFacts → TransitionRequest → TransitionKind → Outcome
unfolding cancel_facts claim_facts with_claim
kind_facts f r force_shutdown = next (stop_facts f shutdown_forced r.transition_at f.cancellation)
kind_facts f r enforce_deadline =
    if ltb r.transition_at f.deadline_at
    then refuse "pdf-export-lifecycle-deadline-not-reached" "transitionAt"
    else next (stop_facts f deadline_exceeded r.transition_at f.cancellation)
kind_facts f r request_cancellation = cancel_facts f r
kind_facts f r (claim token worker expires) = claim_facts f r.transition_at token worker expires
kind_facts f r (pass_checkpoint token following) =
    with_claim f r.transition_at token (pass_checkpoint token following)
kind_facts f r (release_claim token retry) =
    with_claim f r.transition_at token (release_claim token retry)
kind_facts f r (check_checkpoint token) =
    with_claim f r.transition_at token (check_checkpoint token)

-- The body of the apply function between its two parses of a head.
unfoldable pub transition_facts : HeadFacts → TransitionRequest → Outcome
unfolding kind_facts
transition_facts f r =
    if not (r.operation_id == f.operation_id)
    then refuse "pdf-export-lifecycle-operation-mismatch" "operationId"
    else if not (r.expected_head_revision == f.head_revision)
    then refuse "pdf-export-lifecycle-revision-stale" "expectedHeadRevision"
    else if ltb r.transition_at f.updated_at
    then refuse "pdf-export-lifecycle-time-stale" "transitionAt"
    else elim f.status [
      | stopped ↦ refuse "pdf-export-lifecycle-terminal" "status"
      | _ ↦ kind_facts f r r.kind
    ]

-- finalizeHead
unfoldable pub finalize_head : ⦃d : Digest HeadFacts⦄ → HeadFacts → Head
finalize_head f = record { facts = f; lifecycle_fingerprint = fingerprint f }

-- transitionReceipt
unfoldable pub transition_receipt :
    ⦃d : Digest ReceiptFacts⦄ → TransitionRequest → String → Head → Head → Receipt
transition_receipt r request_fingerprint previous following =
    let facts : ReceiptFacts = record {
      source = transition_source;
      contract_version = lifecycle_version;
      kind = "pdf-export-lifecycle-transition-receipt";
      transition_id = r.transition_id;
      operation_id = r.operation_id;
      transition_kind = kind_name r.kind;
      request_fingerprint = request_fingerprint;
      from_head_revision = previous.head_revision;
      to_head_revision = following.head_revision;
      result_head_fingerprint = following.lifecycle_fingerprint;
      applied_at = r.transition_at;
    } in
    record { facts = facts; receipt_fingerprint = fingerprint facts }

unfoldable pub initial_facts : Operation.Operation → HeadFacts
initial_facts o = record {
  source = head_source;
  contract_version = lifecycle_version;
  kind = "pdf-export-lifecycle-head";
  operation_id = o.operation_id;
  scope = o.scope;
  operation_fingerprint = o.operation_fingerprint;
  admission_fingerprint = o.admission.admission_fingerprint;
  payload_fingerprint = o.idempotency.payload_fingerprint;
  head_revision = 0;
  status = pending;
  checkpoint = before_handoff;
  attempt_count = 0;
  max_attempts = o.admission.max_attempts;
  retry_after = none;
  claim = none;
  cancellation = none;
  last_release = none;
  checkpoint_check = none;
  stop = none;
  created_at = o.accepted_at;
  updated_at = o.accepted_at;
  deadline_at = o.accepted_at + o.admission.execution_deadline_ms;
  contracts = exact_contracts;
}

-- lifecycleOperationMatchesV1
unfoldable pub operation_matches : Operation.Operation → Head → Bool
operation_matches o h =
    o.operation_id == h.operation_id
    && o.scope.tenant_id == h.scope.tenant_id
    && o.scope.principal_id == h.scope.principal_id
    && o.operation_fingerprint == h.operation_fingerprint
    && o.admission.admission_fingerprint == h.admission_fingerprint
    && o.idempotency.payload_fingerprint == h.payload_fingerprint
    && o.accepted_at == h.created_at
    && o.admission.max_attempts == h.max_attempts
    && (o.accepted_at + o.admission.execution_deadline_ms) == h.deadline_at

module _ ⦃h : Digest HeadFacts⦄ where
  -- createFlowDocBackendPdfExportLifecycleHeadV1
  unfoldable pub create_head :
      CoreNames
      → ⦃a : Digest AdmissionFacts⦄ → ⦃o : Digest OperationFacts⦄ → Operation.Operation
      → HeadResult
  create_head names operation = elim (parse_operation names operation) [
    | Operation.blocked issues ↦ Parse.blocked issues
    | Operation.ready o ↦ Parse.ready (finalize_head (initial_facts o))
  ]

  module _ ⦃q : Digest TransitionRequest⦄ ⦃r : Digest ReceiptFacts⦄ where
    -- The end of the apply function: the next head is parsed before it is given out.
    unfoldable pub apply_outcome : Head → TransitionRequest → String → Outcome → ApplyResult
    apply_outcome head request request_fingerprint (refused i) = blocked (some head) (i ∷ [])
    apply_outcome head request request_fingerprint (next facts) =
        elim (parse_head (finalize_head facts)) [
          | Parse.blocked issues ↦ blocked (some head) issues
          | Parse.ready following ↦
              applied following (transition_receipt request request_fingerprint head following)
        ]

    -- applyFlowDocBackendPdfExportLifecycleTransitionV1
    unfoldable pub apply_transition : Head → TransitionRequest → ApplyResult
    unfolding apply_outcome
    apply_transition given requested = elim (parse_head given) [
      | Parse.blocked issues ↦ blocked none issues
      | Parse.ready head ↦ elim (inspect requested) [
        | blocked issues ↦ blocked (some head) issues
        | ready request request_fingerprint ↦
            apply_outcome head request request_fingerprint (transition_facts head.facts request)
      ]
    ]
