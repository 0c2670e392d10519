-- ===== src/PdfExport/Lifecycle/Creation.antt =====
-- The first head of an operation, and that a live head can always be ended.
use mathlib.Core.Path.{subst}
use flowdoc_vnext_backend.Common.{◌≡◌, refl, ◌↔◌, ◌<◌, true, none, arith, beq_refl, inl, inr, List}
use flowdoc_vnext_backend.PdfExport.Issue.{Issue, Digest}
use flowdoc_vnext_backend.PdfExport.Operation
use flowdoc_vnext_backend.PdfExport.Operation.{
  AdmissionFacts, OperationFacts, CoreNames, parse_operation,
}
use flowdoc_vnext_backend.PdfExport.Operation.Validity.{OperationIsValid, parse_operation-cases}
use flowdoc_vnext_backend.PdfExport.Lifecycle.Head.{pending, before_handoff, HeadFacts, Head}
use flowdoc_vnext_backend.PdfExport.Lifecycle.Parse
use flowdoc_vnext_backend.PdfExport.Lifecycle.Parse.{HeadResult}
use flowdoc_vnext_backend.PdfExport.Lifecycle.Transition.{
  initial_facts, finalize_head, create_head, operation_matches,
}
use flowdoc_vnext_backend.PdfExport.Lifecycle.Validity.{FactsAreValid, IsValid}
use flowdoc_vnext_backend.PdfExport.Lifecycle.Apply.{finalize_head-IsValid}

module _ (names : CoreNames) ⦃a : Digest AdmissionFacts⦄ ⦃o : Digest OperationFacts⦄ where
  pub initial-FactsAreValid :
      (p : Operation.Operation)
      → OperationIsValid names p
      → 0 < p.admission.max_attempts
      → 0 < p.admission.execution_deadline_ms
      → FactsAreValid (initial_facts p)
  unfolding initial_facts
  initial-FactsAreValid p v some_attempt some_time = ground arith

  -- A head at its start, bound to its operation.
  pub record Begins ⦃d : Digest HeadFacts⦄ (p : Operation.Operation) (h : Head) : Type 0 where
    pub valid_operation : OperationIsValid names p
    pub matches : operation_matches p h ≡ true
    pub status : h.status ≡ pending
    pub checkpoint : h.checkpoint ≡ before_handoff
    pub revision : h.head_revision ≡ 0
    pub attempts : h.attempt_count ≡ 0
    pub unclaimed : h.claim ≡ none
    pub limits :
        IsValid h ↔ ((0 < p.admission.max_attempts) × (0 < p.admission.execution_deadline_ms))

  module _ ⦃d : Digest HeadFacts⦄ (p : Operation.Operation) where
    IsValid-limits :
        IsValid (finalize_head (initial_facts p))
        → (0 < p.admission.max_attempts) × (0 < p.admission.execution_deadline_ms)
    unfolding initial_facts finalize_head
    IsValid-limits v = (v.facts.some_attempt, omega (arith, v.facts.deadline))

    initial-matches : operation_matches p (finalize_head (initial_facts p)) ≡ true
    unfolding operation_matches initial_facts finalize_head
    initial-matches = simp beq_refl

    initial-Begins : OperationIsValid names p → Begins p (finalize_head (initial_facts p))
    unfolding initial_facts finalize_head
    initial-Begins v = record {
      valid_operation = v;
      matches = initial-matches;
      status = refl;
      checkpoint = refl;
      revision = refl;
      attempts = refl;
      unclaimed = refl;
      limits = (
        IsValid-limits,
        λ l. finalize_head-IsValid (initial_facts p) (initial-FactsAreValid p v l.0 l.1),
      );
    }

    pub create_head-ready :
        parse_operation names p ≡ Operation.ready p
        → create_head names p ≡ Parse.ready (finalize_head (initial_facts p))
    unfolding create_head
    create_head-ready e = rw (e, create_head)

    pub create_head-blocked :
        {is : List Issue}
        → parse_operation names p ≡ Operation.blocked is
        → create_head names p ≡ Parse.blocked is
    unfolding create_head
    create_head-blocked e = rw (e, create_head)

    -- A head that is created stands at the start of a valid operation, matches it, and is a valid head
    -- exactly when the admission allows an attempt and some time.
    pub create_head-Begins : (h : Head) → create_head names p ≡ Parse.ready h → Begins p h
    create_head-Begins h e = elim (parse_operation-cases names p) [
      | inl (v, q) ↦ subst (Begins p) (cc (e, create_head-ready q)) (initial-Begins v)
      | inr (is, q) ↦ cc (e, create_head-blocked q)
    ]
