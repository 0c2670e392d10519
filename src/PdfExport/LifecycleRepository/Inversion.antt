-- ===== src/PdfExport/LifecycleRepository/Inversion.antt =====
-- What an answer of the lifecycle repository says about its state.
use flowdoc_vnext_backend.Common.{
  ◌≡◌, refl, sym, ap, ◌∙◌, ◌⊎◌, inl, inr, true, Option, none, some, arith, Bool-cases, List, ◌==◌,
  text_eq, number_eq,
}
use flowdoc_vnext_backend.PdfExport.Issue.{Issue, Digest, fingerprint}
use flowdoc_vnext_backend.PdfExport.Lifecycle.Head.{
  HeadFacts, Head, TransitionRequest, ReceiptFacts, Receipt,
}
use flowdoc_vnext_backend.PdfExport.Lifecycle.Transition
use flowdoc_vnext_backend.PdfExport.Lifecycle.Transition.{ApplyResult, inspect, apply_transition}
use flowdoc_vnext_backend.PdfExport.Lifecycle.Step.{RequestFits}
use flowdoc_vnext_backend.PdfExport.Lifecycle.Apply.{inspect-cases}
use flowdoc_vnext_backend.PdfExport.LifecycleRepository.{
  StoredLifecycle, StoredTransition, LifecycleRepository, TransitionResult, applied, kept,
  same_scope, request_scope, transition_key, retain, with_transition, with_lifecycle,
  apply_lifecycle_transition,
}

module _ ⦃h : Digest HeadFacts⦄ ⦃q : Digest TransitionRequest⦄ ⦃c : Digest ReceiptFacts⦄
    (s : LifecycleRepository) (r : TransitionRequest) where
  -- The lifecycle that a request in form addresses, in its own scope.
  pub record Addresses (stored : StoredLifecycle) : Type 0 where
    pub fits : RequestFits r
    pub is_stored : s.lifecycle_by_operation_id.get r.operation_id ≡ some stored
    pub in_scope : same_scope stored.scope (request_scope r) ≡ true

  -- An applied transition is one of the addressed lifecycle, new, and now kept.
  pub record Applied (s' : LifecycleRepository) (head : Head) (receipt : Receipt) : Type 0 where
    pub stored : StoredLifecycle
    pub addresses : Addresses stored
    pub fresh : s.transition_by_key.get (transition_key r) ≡ none
    pub current : r.expected_head_revision ≡ stored.head.head_revision
    pub pure : apply_transition stored.head r ≡ Transition.applied head receipt
    pub writes : s' ≡ kept s stored r (fingerprint r) head receipt

  pub form-or_unchanged :
      RequestFits r
        × (apply_lifecycle_transition s r
            ≡ with_lifecycle s r (fingerprint r) (s.lifecycle_by_operation_id.get r.operation_id))
      ⊎ ((is : List Issue) × (apply_lifecycle_transition s r ≡ (s, TransitionResult.invalid is)))
  unfolding apply_lifecycle_transition
  form-or_unchanged = elim (inspect-cases r) [
    | inl (fits, e) ↦ inl (fits, rw (e, apply_lifecycle_transition))
    | inr (is, e) ↦ inr (is, rw (e, apply_lifecycle_transition))
  ]

  retain-applied :
      (stored : StoredLifecycle) (a : ApplyResult) {s' : LifecycleRepository} {head : Head}
      {receipt : Receipt}
      → retain s stored r (fingerprint r) a ≡ (s', applied head receipt)
      → (a ≡ Transition.applied head receipt) × (s' ≡ kept s stored r (fingerprint r) head receipt)
  unfolding retain
  retain-applied stored (Transition.blocked x is) e = ground arith
  retain-applied stored (Transition.applied x y) e = ground arith

  with_transition-applied :
      (stored : StoredLifecycle) (o : Option StoredTransition) {s' : LifecycleRepository}
      {head : Head} {receipt : Receipt}
      → Addresses stored
      → s.transition_by_key.get (transition_key r) ≡ o
      → with_transition s stored r (fingerprint r) o ≡ (s', applied head receipt)
      → Applied s' head receipt
  unfolding with_transition
  with_transition-applied stored (some t) {s'} {head} {receipt} a g e =
      elim (Bool-cases (t.request_fingerprint == fingerprint r)) [
        | inl same ↦ ground arith
        | inr differ ↦ ground arith
      ]
  with_transition-applied stored none {s'} {head} {receipt} a g e =
      elim (Bool-cases (r.expected_head_revision == stored.head.head_revision)) [
        | inl same ↦
            let kept_it =
              retain-applied stored (apply_transition stored.head r) {s' = s'} {head = head}
                {receipt = receipt} (ground arith) in
            record {
              stored = stored;
              addresses = a;
              fresh = g;
              current = ground arith;
              pure = kept_it.0;
              writes = kept_it.1;
            }
        | inr differ ↦ ground arith
      ]

  with_lifecycle-applied :
      (o : Option StoredLifecycle) {s' : LifecycleRepository} {head : Head} {receipt : Receipt}
      → RequestFits r
      → s.lifecycle_by_operation_id.get r.operation_id ≡ o
      → with_lifecycle s r (fingerprint r) o ≡ (s', applied head receipt)
      → Applied s' head receipt
  unfolding with_lifecycle
  with_lifecycle-applied none fits g e = ground arith
  with_lifecycle-applied (some stored) fits g e =
      elim (Bool-cases (same_scope stored.scope (request_scope r))) [
        | inl same ↦
            with_transition-applied stored (s.transition_by_key.get (transition_key r))
              (record { fits = fits; is_stored = g; in_scope = same }) refl (rw same at e)
        | inr differ ↦ ground arith
      ]

  -- An answer `applied` is an applied transition of the pure lifecycle, and its two writes.
  pub apply_lifecycle-Applied :
      {s' : LifecycleRepository} {head : Head} {receipt : Receipt}
      → apply_lifecycle_transition s r ≡ (s', applied head receipt)
      → Applied s' head receipt
  apply_lifecycle-Applied e = elim form-or_unchanged [
    | inl (fits, w) ↦
        with_lifecycle-applied (s.lifecycle_by_operation_id.get r.operation_id) fits refl
          (sym w ∙ e)
    | inr (is, w) ↦ cc (w, e)
  ]

  -- A call changes the state only by an applied transition.
  Effective : LifecycleRepository × TransitionResult → Type 0
  Effective x = (x.0 ≡ s) ⊎ ((head : Head) × (receipt : Receipt) × (x.1 ≡ applied head receipt))

  retain-Effective :
      (stored : StoredLifecycle) (a : ApplyResult) → Effective (retain s stored r (fingerprint r) a)
  unfolding Effective retain
  retain-Effective stored (Transition.blocked x is) = inl refl
  retain-Effective stored (Transition.applied x y) = inr (x, y, refl)

  with_transition-Effective :
      (stored : StoredLifecycle) (o : Option StoredTransition)
      → Effective (with_transition s stored r (fingerprint r) o)
  unfolding Effective with_transition
  with_transition-Effective stored (some t) =
      elim (Bool-cases (t.request_fingerprint == fingerprint r)) [
        | inl e ↦ inl (rw e refl)
        | inr e ↦ inl (rw e refl)
      ]
  with_transition-Effective stored none =
      elim (Bool-cases (r.expected_head_revision == stored.head.head_revision)) [
        | inl e ↦ rw e (retain-Effective stored (apply_transition stored.head r))
        | inr e ↦ inl (rw e refl)
      ]

  with_lifecycle-Effective :
      (o : Option StoredLifecycle) → Effective (with_lifecycle s r (fingerprint r) o)
  unfolding Effective with_lifecycle
  with_lifecycle-Effective none = inl refl
  with_lifecycle-Effective (some stored) =
      elim (Bool-cases (same_scope stored.scope (request_scope r))) [
        | inl e ↦
            rw e (with_transition-Effective stored (s.transition_by_key.get (transition_key r)))
        | inr e ↦ inl (rw e refl)
      ]

  pub unchanged_or_Applied :
      ((apply_lifecycle_transition s r).0 ≡ s)
      ⊎ ((head : Head) × (receipt : Receipt) × Applied
            (apply_lifecycle_transition s r).0
            head
            receipt)
  unfolding Effective
  unchanged_or_Applied = elim form-or_unchanged [
    | inr (is, w) ↦ inl (ap (λ (x : LifecycleRepository × TransitionResult). x.0) w)
    | inl (fits, w) ↦
        let e : Effective (apply_lifecycle_transition s r) =
          rw w (with_lifecycle-Effective (s.lifecycle_by_operation_id.get r.operation_id)) in
        elim e [
          | inl same ↦ inl same
          | inr (head, receipt, answer) ↦ inr (
            head,
            receipt,
            apply_lifecycle-Applied (λ i. ((apply_lifecycle_transition s r).0, answer i)),
          )
        ]
  ]
