-- ===== src/PdfExport/LifecycleRepository.antt =====
-- The in-memory lifecycle repository (pdfExport/pdfExportLifecycleRepository.ts). Its two maps are
-- its state; a method returns the next state and its answer. What it clones it keeps apart from the
-- caller, which values need not do.
pub mod Inversion
pub mod Replay
pub mod Retention
pub mod Exactness
pub mod Invariant
pub mod Isolation
use flowdoc_vnext_backend.Common.{
  String, Bool, true, false, not, ◌&&◌, ◌||◌, Option, none, some, List, [], ◌∷◌, ◌==◌, text_eq,
  number_eq, pair_eq, if◌then◌else◌,
}
use flowdoc_vnext_backend.Common.Dict
use flowdoc_vnext_backend.Common.Dict.{Dict, set}
use flowdoc_vnext_backend.Common.Text.{is_bounded}
use flowdoc_vnext_backend.PdfExport.Issue.{Issue, issue, Digest, Scope}
use flowdoc_vnext_backend.PdfExport.Operation
use flowdoc_vnext_backend.PdfExport.Operation.{
  CoreNames, AdmissionFacts, OperationFacts, parse_operation,
}
use flowdoc_vnext_backend.PdfExport.Lifecycle.Head.{
  HeadFacts, Head, TransitionRequest, ReceiptFacts, Receipt,
}
use flowdoc_vnext_backend.PdfExport.Lifecycle.Parse
use flowdoc_vnext_backend.PdfExport.Lifecycle.Transition
use flowdoc_vnext_backend.PdfExport.Lifecycle.Transition.{
  ApplyResult, inspect, create_head, operation_matches, apply_transition,
}

pub record StoredLifecycle : Type 0 where
  pub scope : Scope
  pub head : Head

pub record StoredTransition : Type 0 where
  pub request_fingerprint : String
  pub receipt : Receipt
  pub result_head : Head

pub record LifecycleRepository : Type 0 where
  pub lifecycle_by_operation_id : Dict String StoredLifecycle
  pub transition_by_key : Dict (String × String) StoredTransition

abbrev pub empty : LifecycleRepository
empty = record { lifecycle_by_operation_id = Dict.empty; transition_by_key = Dict.empty }

pub data InitializeResult : Type 0 where
  created : Head → InitializeResult
  idempotent_replay : Head → InitializeResult
  conflict : List Issue → InitializeResult
  invalid : List Issue → InitializeResult

pub data ReadResult : Type 0 where
  found : Head → ReadResult
  not_found : ReadResult
  invalid : List Issue → ReadResult

pub data TransitionResult : Type 0 where
  applied : Head → Receipt → TransitionResult
  idempotent_replay : Head → Receipt → TransitionResult
  blocked : Head → List Issue → TransitionResult
  stale : Head → List Issue → TransitionResult
  conflict : Head → List Issue → TransitionResult
  not_found : TransitionResult
  invalid : List Issue → TransitionResult

-- The input of readLifecycle.
pub record ReadInput : Type 0 where
  pub scope : Scope
  pub operation_id : String

-- validScope
abbrev pub valid_scope : Scope → Bool
valid_scope s = is_bounded s.tenant_id && is_bounded s.principal_id

-- sameScope
abbrev pub same_scope : Scope → Scope → Bool
same_scope a b = a.tenant_id == b.tenant_id && a.principal_id == b.principal_id

abbrev pub request_scope : TransitionRequest → Scope
request_scope r = record { tenant_id = r.tenant_id; principal_id = r.principal_id }

-- transitionKey
abbrev pub transition_key : TransitionRequest → String × String
transition_key r = (r.operation_id, r.transition_id)

-- readLifecycle
unfoldable pub read_lifecycle : LifecycleRepository → ReadInput → ReadResult
read_lifecycle s i =
    if not (valid_scope i.scope) || not (is_bounded i.operation_id)
    then invalid (issue "pdf-export-lifecycle-read-identity-invalid" "operationId" ∷ [])
    else elim (s.lifecycle_by_operation_id.get i.operation_id) [
      | none ↦ not_found
      | some stored ↦ if not (same_scope stored.scope i.scope) then not_found else found stored.head
    ]

module _ (names : CoreNames) ⦃a : Digest AdmissionFacts⦄ ⦃o : Digest OperationFacts⦄
    ⦃h : Digest HeadFacts⦄ where
  unfoldable pub initialize_with :
      LifecycleRepository
      → Operation.Operation
      → Head
      → Option StoredLifecycle
      → LifecycleRepository × InitializeResult
  initialize_with s p head none = (
    record s {
      lifecycle_by_operation_id =
          set s.lifecycle_by_operation_id p.operation_id (record { scope = p.scope; head = head });
    },
    created head,
  )
  initialize_with s p head (some existing) =
      if same_scope existing.scope p.scope && operation_matches p existing.head
      then (s, idempotent_replay existing.head)
      else (s, conflict (issue "pdf-export-lifecycle-operation-conflict" "operationId" ∷ []))

  -- initializeLifecycle
  unfoldable pub initialize_lifecycle :
      LifecycleRepository → Operation.Operation → LifecycleRepository × InitializeResult
  unfolding initialize_with
  initialize_lifecycle s value = elim (parse_operation names value) [
    | Operation.blocked is ↦ (s, invalid is)
    | Operation.ready p ↦ elim (create_head names p) [
      | Parse.blocked is ↦ (s, invalid is)
      | Parse.ready head ↦ initialize_with s p head (s.lifecycle_by_operation_id.get p.operation_id)
    ]
  ]

-- The two writes of an applied transition.
unfoldable pub kept :
    LifecycleRepository
    → StoredLifecycle
    → TransitionRequest
    → String
    → Head
    → Receipt
    → LifecycleRepository
kept s stored r request_fingerprint head receipt = record {
  lifecycle_by_operation_id =
      set s.lifecycle_by_operation_id r.operation_id (record stored { head = head });
  transition_by_key =
      set s.transition_by_key (transition_key r) (record {
        request_fingerprint = request_fingerprint;
        receipt = receipt;
        result_head = head;
      });
}

module _ ⦃h : Digest HeadFacts⦄ ⦃q : Digest TransitionRequest⦄ ⦃c : Digest ReceiptFacts⦄ where
  or_stored : Option Head → Head → Head
  or_stored none stored = stored
  or_stored (some head) stored = head

  -- What the pure apply function answered is kept and passed on.
  unfoldable pub retain :
      LifecycleRepository
      → StoredLifecycle
      → TransitionRequest
      → String
      → ApplyResult
      → LifecycleRepository × TransitionResult
  unfolding or_stored
  retain s stored r request_fingerprint (Transition.blocked head is) =
      (s, blocked (or_stored head stored.head) is)
  retain s stored r request_fingerprint (Transition.applied head receipt) =
      (kept s stored r request_fingerprint head receipt, applied head receipt)

  unfoldable pub with_transition :
      LifecycleRepository
      → StoredLifecycle
      → TransitionRequest
      → String
      → Option StoredTransition
      → LifecycleRepository × TransitionResult
  unfolding retain
  with_transition s stored r request_fingerprint (some replay) =
      if replay.request_fingerprint == request_fingerprint
      then (s, idempotent_replay replay.result_head replay.receipt)
      else (
        s,
        conflict stored.head (issue "pdf-export-lifecycle-transition-conflict" "transitionId" ∷ []),
      )
  with_transition s stored r request_fingerprint none =
      if not (r.expected_head_revision == stored.head.head_revision)
      then (
        s,
        stale stored.head (issue "pdf-export-lifecycle-revision-stale" "expectedHeadRevision" ∷ []),
      )
      else retain s stored r request_fingerprint (apply_transition stored.head r)

  unfoldable pub with_lifecycle :
      LifecycleRepository
      → TransitionRequest
      → String
      → Option StoredLifecycle
      → LifecycleRepository × TransitionResult
  unfolding with_transition
  with_lifecycle s r request_fingerprint none = (s, not_found)
  with_lifecycle s r request_fingerprint (some stored) =
      if not (same_scope stored.scope (request_scope r))
      then (s, not_found)
      else with_transition s stored r request_fingerprint
          (s.transition_by_key.get (transition_key r))

  -- applyLifecycleTransition
  unfoldable pub apply_lifecycle_transition :
      LifecycleRepository → TransitionRequest → LifecycleRepository × TransitionResult
  unfolding with_lifecycle
  apply_lifecycle_transition s value = elim (inspect value) [
    | Transition.blocked is ↦ (s, invalid is)
    | Transition.ready r request_fingerprint ↦
        with_lifecycle s r request_fingerprint (s.lifecycle_by_operation_id.get r.operation_id)
  ]
