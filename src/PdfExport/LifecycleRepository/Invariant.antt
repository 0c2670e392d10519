-- ===== src/PdfExport/LifecycleRepository/Invariant.antt =====
-- What every reachable state of the lifecycle repository satisfies.
use mathlib.Core.Path.{subst}
use flowdoc_vnext_backend.Common.{
  String, ◌≡◌, refl, sym, ◌∙◌, ◌<◌, ◌+◌, some, List, [], ◌∷◌, text_eq, pair_eq, inl, inr,
}
use flowdoc_vnext_backend.Common.Dict.{set-fits}
use flowdoc_vnext_backend.PdfExport.Issue.{Digest, fingerprint}
use flowdoc_vnext_backend.PdfExport.Operation.{CoreNames, AdmissionFacts, OperationFacts, Operation}
use flowdoc_vnext_backend.PdfExport.Lifecycle.Head.{
  HeadFacts, Head, TransitionRequest, ReceiptFacts, Receipt,
}
use flowdoc_vnext_backend.PdfExport.Lifecycle.Validity.{IsValid}
use flowdoc_vnext_backend.PdfExport.Lifecycle.Transition.{
  initial_facts, finalize_head, transition_receipt, apply_transition, applied,
}
use flowdoc_vnext_backend.PdfExport.Lifecycle.Binding.{Step-Continues}
use flowdoc_vnext_backend.PdfExport.Lifecycle.Step.Receipts.{Records-receipt}
use flowdoc_vnext_backend.PdfExport.Lifecycle.Apply.{
  apply-Applies, applied-IsValid, finalize_head-IsValid,
}
use flowdoc_vnext_backend.PdfExport.Lifecycle.Creation.{initial-FactsAreValid}
use flowdoc_vnext_backend.PdfExport.LifecycleRepository
use flowdoc_vnext_backend.PdfExport.LifecycleRepository.{
  StoredLifecycle, StoredTransition, LifecycleRepository, initialize_lifecycle, kept,
  transition_key, apply_lifecycle_transition,
}
use flowdoc_vnext_backend.PdfExport.LifecycleRepository.Inversion.{Applied, unchanged_or_Applied}
use flowdoc_vnext_backend.PdfExport.LifecycleRepository.Retention.{
  Call, initialize, transition, Initialized, unchanged_or_Initialized, after, run_calls,
}

module _ ⦃h : Digest HeadFacts⦄ where
  -- A stored lifecycle: a valid head of that operation, in the scope of the head.
  pub record LifecycleFits (id : String) (stored : StoredLifecycle) : Type 0 where
    pub valid : IsValid stored.head
    pub operation : stored.head.operation_id ≡ id
    pub scope : stored.scope ≡ stored.head.scope

  -- A kept transition: a valid head, and the receipt of that request, one revision on, for that head.
  pub record TransitionFits (key : String × String) (t : StoredTransition) : Type 0 where
    pub valid : IsValid t.result_head
    pub operation : t.receipt.operation_id ≡ key.0
    pub transition : t.receipt.transition_id ≡ key.1
    pub request : t.receipt.request_fingerprint ≡ t.request_fingerprint
    pub head : t.receipt.result_head_fingerprint ≡ t.result_head.lifecycle_fingerprint
    pub revision : t.receipt.to_head_revision ≡ t.result_head.head_revision
    pub one_on : t.receipt.to_head_revision ≡ t.receipt.from_head_revision + 1

  pub record IsSound (s : LifecycleRepository) : Type 0 where
    pub lifecycles :
        (id : String) (stored : StoredLifecycle)
        → s.lifecycle_by_operation_id.get id ≡ some stored
        → LifecycleFits id stored
    pub transitions :
        (key : String × String) (t : StoredTransition)
        → s.transition_by_key.get key ≡ some t
        → TransitionFits key t

  pub empty-IsSound : IsSound LifecycleRepository.empty
  empty-IsSound = record { lifecycles = λ id x e. cc; transitions = λ key x e. cc }

module _ ⦃h : Digest HeadFacts⦄ ⦃q : Digest TransitionRequest⦄ ⦃c : Digest ReceiptFacts⦄
    (s : LifecycleRepository) (r : TransitionRequest) (sound : IsSound s) where
  kept-TransitionFits :
      (stored : Head) (head : Head) (receipt : Receipt)
      → apply_transition stored r ≡ applied head receipt
      → stored.operation_id ≡ r.operation_id
      → TransitionFits
          (transition_key r)
          (record { request_fingerprint = fingerprint r; receipt = receipt; result_head = head })
  unfolding transition_receipt
  kept-TransitionFits stored head receipt e at_id =
      let a = (apply-Applies stored r head receipt).0 e in
      let continues = Step-Continues r a.step in
      rw (Records-receipt r stored head continues.revision receipt a.records) (record {
        valid = applied-IsValid stored r head receipt e;
        operation = refl;
        transition = refl;
        request = refl;
        head = refl;
        revision = refl;
        one_on = continues.revision;
      })

  kept-LifecycleFits :
      (stored : StoredLifecycle) (head : Head) (receipt : Receipt)
      → apply_transition stored.head r ≡ applied head receipt
      → LifecycleFits r.operation_id stored
      → LifecycleFits r.operation_id (record stored { head = head })
  kept-LifecycleFits stored head receipt e fits =
      let a = (apply-Applies stored.head r head receipt).0 e in
      let continues = Step-Continues r a.step in
      record {
        valid = applied-IsValid stored.head r head receipt e;
        operation = continues.operation_id ∙ fits.operation;
        scope = fits.scope ∙ sym continues.scope;
      }

  Applied-IsSound :
      (s' : LifecycleRepository) {head : Head} {receipt : Receipt}
      → Applied s r s' head receipt
      → IsSound s'
  Applied-IsSound s' {head} {receipt} a =
      let before = sound.lifecycles r.operation_id a.stored a.addresses.is_stored in
      subst IsSound (sym a.writes) (record {
        lifecycles =
            unfold kept in
            set-fits LifecycleFits s.lifecycle_by_operation_id r.operation_id
              (record a.stored { head = head })
              (kept-LifecycleFits a.stored head receipt a.pure before) sound.lifecycles;
        transitions =
            unfold kept in
            set-fits TransitionFits s.transition_by_key (transition_key r)
              (record {
                request_fingerprint = fingerprint r;
                receipt = receipt;
                result_head = head;
              })
              (kept-TransitionFits a.stored.head head receipt a.pure before.operation)
              sound.transitions;
      })

-- An operation that leaves room for an attempt.
abbrev pub HasLimits : Operation → Type 0
HasLimits p = (0 < p.admission.max_attempts) × (0 < p.admission.execution_deadline_ms)

abbrev pub AllLimited : List Call → Type 0
AllLimited [] = Unit
AllLimited (initialize p ∷ calls) = HasLimits p × AllLimited calls
AllLimited (transition r ∷ calls) = AllLimited calls

module _ (names : CoreNames) ⦃a : Digest AdmissionFacts⦄ ⦃o : Digest OperationFacts⦄
    ⦃h : Digest HeadFacts⦄ ⦃q : Digest TransitionRequest⦄ ⦃c : Digest ReceiptFacts⦄ where
  Initialized-IsSound :
      (s s' : LifecycleRepository) (p : Operation)
      → HasLimits p
      → IsSound s
      → Initialized names s p s'
      → IsSound s'
  unfolding finalize_head initial_facts
  Initialized-IsSound s s' p limits sound i = subst IsSound (sym i.writes) (record {
    lifecycles =
        set-fits LifecycleFits s.lifecycle_by_operation_id p.operation_id
          (record { scope = p.scope; head = finalize_head (initial_facts p) })
          (record {
            valid =
                finalize_head-IsValid (initial_facts p)
                  (initial-FactsAreValid names p i.valid limits.0 limits.1);
            operation = refl;
            scope = refl;
          })
          sound.lifecycles;
    transitions = sound.transitions;
  })

  initialize-IsSound :
      (s : LifecycleRepository) (p : Operation)
      → HasLimits p
      → IsSound s
      → IsSound (initialize_lifecycle names s p).0
  initialize-IsSound s p limits sound = elim (unchanged_or_Initialized names s p) [
    | inl same ↦ subst IsSound (sym same) sound
    | inr i ↦ Initialized-IsSound s (initialize_lifecycle names s p).0 p limits sound i
  ]

  transition-IsSound :
      (s : LifecycleRepository) (r : TransitionRequest)
      → IsSound s
      → IsSound (apply_lifecycle_transition s r).0
  transition-IsSound s r sound = elim (unchanged_or_Applied s r) [
    | inl same ↦ subst IsSound (sym same) sound
    | inr (head, receipt, x) ↦ Applied-IsSound s r sound (apply_lifecycle_transition s r).0 x
  ]

  -- Whatever the calls, if each operation that is offered allows an attempt and some time, then from
  -- a sound state every stored head stays valid, under the id and in the scope of its operation, and
  -- every kept receipt names its request and the fingerprint and revision of its valid head, one on.
  pub run_calls-IsSound :
      (calls : List Call) (s : LifecycleRepository)
      → AllLimited calls
      → IsSound s
      → IsSound (run_calls names s calls)
  unfolding run_calls after
  run_calls-IsSound [] s limited sound = sound
  run_calls-IsSound (initialize p ∷ calls) s limited sound =
      run_calls-IsSound calls (initialize_lifecycle names s p).0 limited.1
        (initialize-IsSound s p limited.0 sound)
  run_calls-IsSound (transition r ∷ calls) s limited sound =
      run_calls-IsSound calls (apply_lifecycle_transition s r).0 limited
        (transition-IsSound s r sound)
