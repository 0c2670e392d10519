-- ===== src/Examples/Repositories.antt =====
-- The two repositories, with one export.

use flowdoc_vnext_backend.Common.{◌≡◌, ◌≢◌, refl, ap, ◌∙◌, List, [], ◌∷◌, arith, text_eq, pair_eq}
use flowdoc_vnext_backend.Common.Dict
use flowdoc_vnext_backend.Common.Dict.{set}
use flowdoc_vnext_backend.PdfExport.Issue.{Scope, issue, fingerprint}
use flowdoc_vnext_backend.PdfExport.Lifecycle.Head.{Head, TransitionRequest, Receipt}
use flowdoc_vnext_backend.PdfExport.Lifecycle.Transition.{finalize_head, initial_facts}
use flowdoc_vnext_backend.PdfExport.Lifecycle.Apply.{inspect-RequestFits}
use flowdoc_vnext_backend.PdfExport.LifecycleRepository
use flowdoc_vnext_backend.PdfExport.LifecycleRepository.{
  StoredLifecycle, LifecycleRepository, applied, idempotent_replay, conflict, kept, retain,
  apply_lifecycle_transition, with_lifecycle, read_lifecycle, request_scope,
}
use flowdoc_vnext_backend.PdfExport.LifecycleRepository.Retention.{
  Call, initialize, transition, Retains, run_calls, run_calls-Retains,
}
use flowdoc_vnext_backend.PdfExport.LifecycleRepository.Exactness.{
  transition-replays, transition_id-conflicts, revision-spent,
}
use flowdoc_vnext_backend.PdfExport.LifecycleRepository.Invariant.{
  IsSound, empty-IsSound, run_calls-IsSound,
}
use flowdoc_vnext_backend.PdfExport.LifecycleRepository.Isolation.{foreign-unnoticed}
use flowdoc_vnext_backend.PdfExport.OperationRepository.Isolation.{ReadsOwn, found-ReadsOwn}
use flowdoc_vnext_backend.PdfExport.OperationRepository
use flowdoc_vnext_backend.PdfExport.OperationRepository.{
  OperationRepository, created, key_of, admit_operation, admit_parsed, admit_new,
}
use flowdoc_vnext_backend.PdfExport.OperationRepository.Admission.{
  empty-IsIndexed, admit-IsIndexed, admit_all,
}
use flowdoc_vnext_backend.PdfExport.OperationRepository.Idempotency.{
  valid-parsed, Serves, created-Serves,
}
use flowdoc_vnext_backend.Examples.Data.{
  admission_digest, operation_digest, head_digest, receipt_digest, request_digest, names, operation,
  take, shut,
}
use flowdoc_vnext_backend.Examples.Operations.{operation-IsValid}
use flowdoc_vnext_backend.Examples.Lifecycles.{
  head0, head1, receipt_of, taken, take-RequestFits, request-RequestFits, bounded_1,
}

-- The calls of one export: it is initialized, taken, and shut down under an id that is taken.
abbrev calls : List Call
calls = initialize operation ∷ transition take ∷ transition shut ∷ []

run_calls-IsSound_example : IsSound (run_calls names LifecycleRepository.empty calls)
run_calls-IsSound_example =
    run_calls-IsSound names calls LifecycleRepository.empty ((omega arith, omega arith), tt)
      empty-IsSound

run_calls-Retains_example :
    Retains LifecycleRepository.empty (run_calls names LifecycleRepository.empty calls)
run_calls-Retains_example = run_calls-Retains names LifecycleRepository.empty calls

abbrev entry : StoredLifecycle
entry = record { scope = record { tenant_id = "tenant"; principal_id = "principal" }; head = head0 }

-- The state with the first head, and the one with the next.
abbrev state0 : LifecycleRepository
state0 = record {
  lifecycle_by_operation_id = set Dict.empty "export-1" entry;
  transition_by_key = Dict.empty;
}

abbrev receipt : Receipt
receipt = receipt_of take head0 head1

abbrev state1 : LifecycleRepository
state1 = kept state0 entry take (fingerprint take) head1 receipt

applied_take : apply_lifecycle_transition state0 take ≡ (state1, applied head1 receipt)
unfolding apply_lifecycle_transition with_lifecycle retain set finalize_head initial_facts
applied_take =
    rw (inspect-RequestFits take take-RequestFits, apply_lifecycle_transition)
      (ap (retain state0 entry take (fingerprint take)) taken)

transition-replays_example :
    apply_lifecycle_transition (run_calls names state1 (transition shut ∷ [])) take
    ≡ (run_calls names state1 (transition shut ∷ []), idempotent_replay head1 receipt)
transition-replays_example =
    transition-replays names state0 state1 take head1 receipt applied_take (transition shut ∷ [])

transition_id-conflicts_example :
    (current : Head) × (apply_lifecycle_transition (run_calls names state1 []) shut ≡ (
      run_calls names state1 [],
      conflict current (issue "pdf-export-lifecycle-transition-conflict" "transitionId" ∷ []),
    ))
transition_id-conflicts_example =
    transition_id-conflicts names state0 state1 take head1 receipt applied_take [] shut
      (request-RequestFits "t-1" 0 2000 _ bounded_1 tt) refl refl refl

revision-spent_example :
    apply_lifecycle_transition (run_calls names state1 []) shut ≢ (state1, applied head1 receipt)
revision-spent_example =
    revision-spent names state0 state1 take head1 receipt applied_take [] shut state1 head1 receipt
      refl refl

abbrev admitted : OperationRepository
admitted = record {
  by_operation_id = set Dict.empty "export-1" operation;
  operation_id_by_caller_key = set Dict.empty (key_of operation) "export-1";
}

admits : admit_operation names OperationRepository.empty operation ≡ (admitted, created operation)
unfolding admit_operation admit_parsed admit_new
admits = valid-parsed names OperationRepository.empty operation operation-IsValid ∙ refl

created-Serves_example :
    (operation ≡ operation)
    × Serves names
        (admit_all names
          (admit_operation names OperationRepository.empty operation).0
          (operation ∷ []))
        operation
created-Serves_example =
    created-Serves names OperationRepository.empty operation operation (operation ∷ [])
      (rw admits refl)

-- Another tenant shuts the export down.
abbrev foreign_shut : TransitionRequest
foreign_shut = record shut { tenant_id = "other" }

abbrev foreign_calls : List Call
foreign_calls = initialize operation ∷ transition foreign_shut ∷ []

foreign-unnoticed_example :
    ((r : TransitionRequest)
      → r.operation_id ≡ "export-1"
      → (apply_lifecycle_transition (run_calls names state0 foreign_calls) r).1
        ≡ (apply_lifecycle_transition state0 r).1)
    × ((scope : Scope)
        → read_lifecycle
            (run_calls names state0 foreign_calls)
            (record { scope = scope; operation_id = "export-1" })
          ≡ read_lifecycle state0 (record { scope = scope; operation_id = "export-1" }))
unfolding set
foreign-unnoticed_example =
    foreign-unnoticed names foreign_calls state0 "export-1" entry refl (tt, (refl, tt))

found-ReadsOwn_example : ReadsOwn names admitted operation.scope operation
found-ReadsOwn_example = found-ReadsOwn names admitted operation.scope operation (
    rw admits at
      (admit-IsIndexed names OperationRepository.empty operation (empty-IsIndexed names)))
