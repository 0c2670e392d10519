-- ===== src/PdfExport/LifecycleRepository/Isolation.antt =====
-- Lifecycles of one scope are out of reach from another (pdfExport/pdfExportLifecycleRepository.ts).
use mathlib.Core.Path.{subst}
use flowdoc_vnext_backend.Common.{
  String, ◌≡◌, ◌≢◌, refl, sym, ap, ◌∙◌, false, Option, none, some, List, [], ◌∷◌, inl, inr, ◌==◌,
  text_eq, number_eq, pair_eq, Bool-cases,
}
use flowdoc_vnext_backend.Common.Dict.{get-set_ne, get-set_fresh}
use flowdoc_vnext_backend.PdfExport.Issue.{Scope, Digest, fingerprint}
use flowdoc_vnext_backend.PdfExport.Operation.{CoreNames, AdmissionFacts, OperationFacts}
use flowdoc_vnext_backend.PdfExport.Lifecycle.Head.{
  HeadFacts, Head, TransitionRequest, ReceiptFacts, Receipt,
}
use flowdoc_vnext_backend.PdfExport.Lifecycle.Transition
use flowdoc_vnext_backend.PdfExport.Lifecycle.Transition.{ApplyResult, apply_transition}
use flowdoc_vnext_backend.PdfExport.Lifecycle.Apply.{inspect-cases}
use flowdoc_vnext_backend.PdfExport.LifecycleRepository.{
  StoredLifecycle, StoredTransition, LifecycleRepository, request_scope, same_scope, kept, retain,
  with_transition, with_lifecycle, transition_key, read_lifecycle, apply_lifecycle_transition,
}
use flowdoc_vnext_backend.PdfExport.LifecycleRepository.Inversion.{Applied, unchanged_or_Applied}
use flowdoc_vnext_backend.PdfExport.LifecycleRepository.Retention.{
  Call, initialize, transition, unchanged_or_Initialized, after, run_calls,
}

-- A call that is no transition in this scope.
abbrev pub IsForeign : Scope → Call → Type 0
IsForeign scope (initialize p) = Unit
IsForeign scope (transition r) = same_scope scope (request_scope r) ≡ false

abbrev pub AllForeign : Scope → List Call → Type 0
AllForeign scope [] = Unit
AllForeign scope (c ∷ cs) = IsForeign scope c × AllForeign scope cs

-- The lifecycle under this id and all that is kept of its transitions are as they were.
record Same (s s' : LifecycleRepository) (id : String) (stored : StoredLifecycle) : Type 0 where
  lifecycle : s'.lifecycle_by_operation_id.get id ≡ some stored
  transitions : (t : String) → s'.transition_by_key.get (id, t) ≡ s.transition_by_key.get (id, t)

module _ ⦃h : Digest HeadFacts⦄ ⦃q : Digest TransitionRequest⦄ ⦃c : Digest ReceiptFacts⦄ where
  other_operation :
      (s : LifecycleRepository) (r : TransitionRequest) (id : String) (stored : StoredLifecycle)
      {s' : LifecycleRepository} {head : Head} {receipt : Receipt}
      → s.lifecycle_by_operation_id.get id ≡ some stored
      → same_scope stored.scope (request_scope r) ≡ false
      → Applied s r s' head receipt
      → id ≢ r.operation_id
  other_operation s r id stored held foreign a same =
      let entry : a.stored ≡ stored =
        cc (ap s.lifecycle_by_operation_id.get same, held, a.addresses.is_stored) in
      cc (
        ap (λ (x : StoredLifecycle). same_scope x.scope (request_scope r)) entry,
        foreign,
        a.addresses.in_scope,
      )

  Applied-Same :
      (s : LifecycleRepository) (r : TransitionRequest) (id : String) (stored : StoredLifecycle)
      (s' : LifecycleRepository) (head : Head) (receipt : Receipt)
      → s.lifecycle_by_operation_id.get id ≡ some stored
      → same_scope stored.scope (request_scope r) ≡ false
      → Applied s r s' head receipt
      → Same s s' id stored
  Applied-Same s r id stored s' head receipt held foreign a =
      let other = other_operation s r id stored held foreign a in
      subst (λ z. Same s z id stored) (sym a.writes)
        (record {
          lifecycle =
              unfold kept in
              get-set_ne s.lifecycle_by_operation_id r.operation_id _ id other ∙ held;
          transitions = λ t.
              unfold kept in
              get-set_ne s.transition_by_key (transition_key r) _ (id, t)
                (λ e. other (ap (λ (z : String × String). z.0) e));
        })

  -- What one request is answered, from two states that agree on what it asks for.
  retain-answer :
      (s s' : LifecycleRepository) (stored : StoredLifecycle) (r : TransitionRequest)
      (text : String) (a : ApplyResult)
      → (retain s' stored r text a).1 ≡ (retain s stored r text a).1
  unfolding retain
  retain-answer s s' stored r text (Transition.blocked x is) = refl
  retain-answer s s' stored r text (Transition.applied x y) = refl

  with_transition-answer :
      (s s' : LifecycleRepository) (stored : StoredLifecycle) (r : TransitionRequest)
      (text : String) (o : Option StoredTransition)
      → (with_transition s' stored r text o).1 ≡ (with_transition s stored r text o).1
  unfolding with_transition
  with_transition-answer s s' stored r text (some t) =
      elim (Bool-cases (t.request_fingerprint == text)) [
        | inl e ↦ rw (e, with_transition) refl
        | inr e ↦ rw (e, with_transition) refl
      ]
  with_transition-answer s s' stored r text none =
      elim (Bool-cases (r.expected_head_revision == stored.head.head_revision)) [
        | inl e ↦ rw e (retain-answer s s' stored r text (apply_transition stored.head r))
        | inr e ↦ rw (e, with_transition) refl
      ]

  with_lifecycle-answer :
      (s s' : LifecycleRepository) (r : TransitionRequest) (text : String)
      (o : Option StoredLifecycle)
      → s'.transition_by_key.get (transition_key r) ≡ s.transition_by_key.get (transition_key r)
      → (with_lifecycle s' r text o).1 ≡ (with_lifecycle s r text o).1
  unfolding with_lifecycle
  with_lifecycle-answer s s' r text none same = refl
  with_lifecycle-answer s s' r text (some stored) same =
      elim (Bool-cases (same_scope stored.scope (request_scope r))) [
        | inr e ↦ rw (e, with_lifecycle) refl
        | inl e ↦
            rw (e, with_lifecycle)
              (with_transition-answer s s' stored r text
                  (s'.transition_by_key.get (transition_key r))
                ∙ ap (λ z. (with_transition s stored r text z).1) same)
      ]

  inspected-answer :
      (s s' : LifecycleRepository) (r : TransitionRequest)
      → s'.lifecycle_by_operation_id.get r.operation_id
        ≡ s.lifecycle_by_operation_id.get r.operation_id
      → s'.transition_by_key.get (transition_key r) ≡ s.transition_by_key.get (transition_key r)
      → (apply_lifecycle_transition s' r).1 ≡ (apply_lifecycle_transition s r).1
  unfolding apply_lifecycle_transition
  inspected-answer s s' r at kept_same = elim (inspect-cases r) [
    | inr (is, e) ↦ rw (e, apply_lifecycle_transition) refl
    | inl (fits, e) ↦
        rw (e, apply_lifecycle_transition)
          (ap (λ z. (with_lifecycle s' r (fingerprint r) z).1) at
            ∙ with_lifecycle-answer s s' r (fingerprint r)
                (s.lifecycle_by_operation_id.get r.operation_id) kept_same)
  ]

module _ (names : CoreNames) ⦃a : Digest AdmissionFacts⦄ ⦃o : Digest OperationFacts⦄
    ⦃h : Digest HeadFacts⦄ ⦃q : Digest TransitionRequest⦄ ⦃c : Digest ReceiptFacts⦄ where
  after-Same :
      (s : LifecycleRepository) (call : Call) (id : String) (stored : StoredLifecycle)
      → s.lifecycle_by_operation_id.get id ≡ some stored
      → IsForeign stored.scope call
      → Same s (after names s call) id stored
  unfolding after
  after-Same s (initialize p) id stored held foreign = elim (unchanged_or_Initialized names s p) [
    | inl e ↦
        subst (λ z. Same s z id stored) (sym e)
          (record { lifecycle = held; transitions = λ t. refl })
    | inr i ↦
        subst (λ z. Same s z id stored) (sym i.writes)
          (record {
            lifecycle = get-set_fresh s.lifecycle_by_operation_id p.operation_id _ id i.fresh held;
            transitions = λ t. refl;
          })
  ]
  after-Same s (transition r) id stored held foreign = elim (unchanged_or_Applied s r) [
    | inl e ↦
        subst (λ z. Same s z id stored) (sym e)
          (record { lifecycle = held; transitions = λ t. refl })
    | inr (head, receipt, done) ↦
        Applied-Same s r id stored (apply_lifecycle_transition s r).0 head receipt held foreign done
  ]

  run_calls-Same :
      (cs : List Call) (s : LifecycleRepository) (id : String) (stored : StoredLifecycle)
      → s.lifecycle_by_operation_id.get id ≡ some stored
      → AllForeign stored.scope cs
      → Same s (run_calls names s cs) id stored
  unfolding run_calls
  run_calls-Same [] s id stored held foreign = record { lifecycle = held; transitions = λ t. refl }
  run_calls-Same (call ∷ cs) s id stored held foreign =
      let one = after-Same s call id stored held foreign.0 in
      let rest = run_calls-Same cs (after names s call) id stored one.lifecycle foreign.1 in
      record {
        lifecycle = rest.lifecycle;
        transitions = λ t. rest.transitions t ∙ one.transitions t;
      }

  -- Whatever calls come, initializations and transitions, if no transition among them is requested in
  -- the scope of a stored lifecycle, then nothing of that lifecycle has changed for anyone: every
  -- transition request that names it is answered as it would have been before the calls, and so is
  -- every read.
  pub foreign-unnoticed :
      (cs : List Call) (s : LifecycleRepository) (id : String) (stored : StoredLifecycle)
      → s.lifecycle_by_operation_id.get id ≡ some stored
      → AllForeign stored.scope cs
      → ((r : TransitionRequest)
          → r.operation_id ≡ id
          → (apply_lifecycle_transition (run_calls names s cs) r).1
            ≡ (apply_lifecycle_transition s r).1)
        × ((scope : Scope)
            → read_lifecycle (run_calls names s cs) (record { scope = scope; operation_id = id })
              ≡ read_lifecycle s (record { scope = scope; operation_id = id }))
  unfolding read_lifecycle
  foreign-unnoticed cs s id stored held foreign =
      let same = run_calls-Same cs s id stored held foreign in
      let at = same.lifecycle ∙ sym held in
      (
        λ r named.
            inspected-answer s (run_calls names s cs) r
              (ap (run_calls names s cs).lifecycle_by_operation_id.get named
                ∙ at
                ∙ ap s.lifecycle_by_operation_id.get (sym named))
              (ap (λ z. (run_calls names s cs).transition_by_key.get (z, r.transition_id)) named
                ∙ same.transitions r.transition_id
                ∙ ap (λ z. s.transition_by_key.get (z, r.transition_id)) (sym named)),
        λ scope. rw at refl,
      )
