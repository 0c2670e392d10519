-- ===== src/PdfExport/LifecycleRepository/Retention.antt =====
-- What the lifecycle repository keeps over any calls.
use mathlib.Core.Path.{subst}
use text.Mathlib.TextEquality.{eq_iff}
use flowdoc_vnext_backend.Common.{
  String, ◌≡◌, refl, sym, ap, ◌∙◌, ◌⊎◌, ◌≤◌, ◌+◌, inl, inr, Option, none, some, arith, Bool-cases,
  List, [], ◌∷◌, ◌==◌, text_eq, number_eq, pair_eq,
}
use flowdoc_vnext_backend.Common.Dict.{set, get-set_fresh}
use flowdoc_vnext_backend.PdfExport.Issue.{Digest, fingerprint}
use flowdoc_vnext_backend.PdfExport.Operation
use flowdoc_vnext_backend.PdfExport.Operation.{
  CoreNames, AdmissionFacts, OperationFacts, parse_operation,
}
use flowdoc_vnext_backend.PdfExport.Operation.Validity.{OperationIsValid, parse_operation-cases}
use flowdoc_vnext_backend.PdfExport.Lifecycle.Head.{
  HeadFacts, Head, TransitionRequest, ReceiptFacts, Receipt,
}
use flowdoc_vnext_backend.PdfExport.Lifecycle.Transition.{
  initial_facts, finalize_head, apply_transition, applied,
}
use flowdoc_vnext_backend.PdfExport.Lifecycle.Binding.{Step-Continues}
use flowdoc_vnext_backend.PdfExport.Lifecycle.Apply.{apply-Applies}
use flowdoc_vnext_backend.PdfExport.Lifecycle.Creation.{create_head-ready}
use flowdoc_vnext_backend.PdfExport.LifecycleRepository.{
  StoredLifecycle, StoredTransition, LifecycleRepository, initialize_with, initialize_lifecycle,
  apply_lifecycle_transition, kept, transition_key,
}
use flowdoc_vnext_backend.PdfExport.LifecycleRepository.Inversion.{Applied, unchanged_or_Applied}

pub data Call : Type 0 where
  initialize : Operation.Operation → Call
  transition : TransitionRequest → Call

module _ (names : CoreNames) ⦃a : Digest AdmissionFacts⦄ ⦃o : Digest OperationFacts⦄
    ⦃h : Digest HeadFacts⦄ where
  -- The first head of a valid operation, under an id that held none.
  pub record Initialized (s : LifecycleRepository) (p : Operation.Operation)
      (s' : LifecycleRepository) : Type 0 where
    pub valid : OperationIsValid names p
    pub fresh : s.lifecycle_by_operation_id.get p.operation_id ≡ none
    pub writes : s' ≡ record s {
      lifecycle_by_operation_id =
          set s.lifecycle_by_operation_id p.operation_id
            (record { scope = p.scope; head = finalize_head (initial_facts p) });
    }

  initialize_with-Initialized :
      (s : LifecycleRepository) (p : Operation.Operation) (x : Option StoredLifecycle)
      → OperationIsValid names p
      → s.lifecycle_by_operation_id.get p.operation_id ≡ x
      → ((initialize_with names s p (finalize_head (initial_facts p)) x).0 ≡ s)
        ⊎ Initialized s p (initialize_with names s p (finalize_head (initial_facts p)) x).0
  unfolding initialize_with
  initialize_with-Initialized s p none v e = inr (record { valid = v; fresh = e; writes = refl })
  initialize_with-Initialized s p (some stored) v e = inl (ground arith)

  pub unchanged_or_Initialized :
      (s : LifecycleRepository) (p : Operation.Operation)
      → ((initialize_lifecycle names s p).0 ≡ s)
        ⊎ Initialized s p (initialize_lifecycle names s p).0
  unfolding initialize_lifecycle
  unchanged_or_Initialized s p = elim (parse_operation-cases names p) [
    | inl (v, e) ↦
        rw (e, initialize_lifecycle)
          (rw (create_head-ready names p e, initialize_lifecycle)
            (initialize_with-Initialized s p (s.lifecycle_by_operation_id.get p.operation_id) v
              refl))
    | inr (is, e) ↦ inl (rw (e, initialize_lifecycle) refl)
  ]

-- What is kept: a transition as it was, and a lifecycle in its scope, at no earlier revision.
pub record Retains (s s' : LifecycleRepository) : Type 0 where
  pub transitions :
      (k : String × String) (t : StoredTransition)
      → s.transition_by_key.get k ≡ some t
      → s'.transition_by_key.get k ≡ some t
  pub lifecycles :
      (k : String) (stored : StoredLifecycle)
      → s.lifecycle_by_operation_id.get k ≡ some stored
      → (stored' : StoredLifecycle) × (s'.lifecycle_by_operation_id.get k ≡ some stored')
        × (stored'.scope ≡ stored.scope)
        × (stored.head.head_revision ≤ stored'.head.head_revision)

Retains-refl : (s : LifecycleRepository) → Retains s s
Retains-refl s = record {
  transitions = λ k t e. e;
  lifecycles = λ k stored e. (stored, e, refl, omega arith);
}

Retains-trans : (s t u : LifecycleRepository) → Retains s t → Retains t u → Retains s u
Retains-trans s t u p q = record {
  transitions = λ k x e. q.transitions k x (p.transitions k x e);
  lifecycles = λ k x e.
      let (y, ey, sy, ry) = p.lifecycles k x e in
      let (z, ez, sz, rz) = q.lifecycles k y ey in (z, ez, sz ∙ sy, omega (arith, ry, rz));
}

module _ ⦃h : Digest HeadFacts⦄ ⦃q : Digest TransitionRequest⦄ ⦃c : Digest ReceiptFacts⦄
    (s : LifecycleRepository) (r : TransitionRequest) where
  -- The revision of the head that is written.
  pub revision_grows :
      (stored head : Head) (receipt : Receipt)
      → apply_transition stored r ≡ applied head receipt
      → head.head_revision ≡ stored.head_revision + 1
  revision_grows stored head receipt e =
      (Step-Continues r ((apply-Applies stored r head receipt).0 e).step).revision

  Applied-lifecycles :
      {head : Head} {receipt : Receipt} (s' : LifecycleRepository) (a : Applied s r s' head receipt)
      (k : String) (stored : StoredLifecycle)
      → s.lifecycle_by_operation_id.get k ≡ some stored
      → (stored' : StoredLifecycle) × ((kept s a.stored r
              (fingerprint r)
              head
              receipt).lifecycle_by_operation_id.get
            k
          ≡ some stored')
        × (stored'.scope ≡ stored.scope)
        × (stored.head.head_revision ≤ stored'.head.head_revision)
  unfolding kept set
  Applied-lifecycles {head} {receipt} s' a k stored e = elim (Bool-cases (k == r.operation_id)) [
    | inl same ↦
        let at_key = ap s.lifecycle_by_operation_id.get ((eq_iff k r.operation_id).0 same) in
        let entry : a.stored ≡ stored = cc (at_key, e, a.addresses.is_stored) in
        let revision = ap (λ (x : StoredLifecycle). x.head.head_revision) entry in
        (
          record a.stored { head = head },
          rw same refl,
          ap (λ (x : StoredLifecycle). x.scope) entry,
          omega (arith, revision, revision_grows a.stored.head head receipt a.pure),
        )
    | inr other ↦ (stored, rw other e, refl, omega arith)
  ]

  Applied-Retains :
      (s' : LifecycleRepository) {head : Head} {receipt : Receipt}
      → Applied s r s' head receipt
      → Retains s s'
  Applied-Retains s' {head} {receipt} a = subst (Retains s) (sym a.writes) (record {
    transitions =
        λ k t e. unfold kept in get-set_fresh s.transition_by_key (transition_key r) _ k a.fresh e;
    lifecycles = Applied-lifecycles s' a;
  })

  transition-Retains : Retains s (apply_lifecycle_transition s r).0
  transition-Retains = elim (unchanged_or_Applied s r) [
    | inl same ↦ subst (Retains s) (sym same) (Retains-refl s)
    | inr (head, receipt, a) ↦ Applied-Retains (apply_lifecycle_transition s r).0 a
  ]

module _ (names : CoreNames) ⦃a : Digest AdmissionFacts⦄ ⦃o : Digest OperationFacts⦄
    ⦃h : Digest HeadFacts⦄ ⦃q : Digest TransitionRequest⦄ ⦃c : Digest ReceiptFacts⦄ where
  Initialized-Retains :
      (s s' : LifecycleRepository) (p : Operation.Operation)
      → Initialized names s p s'
      → Retains s s'
  Initialized-Retains s s' p i = subst (Retains s) (sym i.writes) (record {
    transitions = λ k t e. e;
    lifecycles = λ k stored e. (
      stored,
      get-set_fresh s.lifecycle_by_operation_id p.operation_id _ k i.fresh e,
      refl,
      omega arith,
    );
  })

  initialize-Retains :
      (s : LifecycleRepository) (p : Operation.Operation)
      → Retains s (initialize_lifecycle names s p).0
  initialize-Retains s p = elim (unchanged_or_Initialized names s p) [
    | inl same ↦ subst (Retains s) (sym same) (Retains-refl s)
    | inr i ↦ Initialized-Retains s (initialize_lifecycle names s p).0 p i
  ]

  -- The state after a call.
  unfoldable pub after : LifecycleRepository → Call → LifecycleRepository
  after s (initialize p) = (initialize_lifecycle names s p).0
  after s (transition r) = (apply_lifecycle_transition s r).0

  unfoldable pub run_calls : LifecycleRepository → List Call → LifecycleRepository
  run_calls s [] = s
  run_calls s (call ∷ calls) = run_calls (after s call) calls

  after-Retains : (s : LifecycleRepository) (call : Call) → Retains s (after s call)
  unfolding after
  after-Retains s (initialize p) = initialize-Retains s p
  after-Retains s (transition r) = transition-Retains s r

  -- Whatever calls follow, a kept transition stays as it was, and a stored lifecycle stays stored, in
  -- its scope, with a revision that never falls.
  pub run_calls-Retains :
      (s : LifecycleRepository) (calls : List Call) → Retains s (run_calls s calls)
  unfolding run_calls
  run_calls-Retains s [] = Retains-refl s
  run_calls-Retains s (call ∷ calls) =
      Retains-trans s (after s call) (run_calls (after s call) calls) (after-Retains s call)
        (run_calls-Retains (after s call) calls)
