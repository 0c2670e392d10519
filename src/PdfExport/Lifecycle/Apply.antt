-- ===== src/PdfExport/Lifecycle/Apply.antt =====
-- The apply function of pdfExport/pdfExportLifecycle.ts as a whole, against the step relation.
use mathlib.Core.Path.{subst, subst₂}
use flowdoc_vnext_backend.Common.Text.{is_fingerprint}
use flowdoc_vnext_backend.PdfExport.Lifecycle.Binding.{Step-Continues}
use flowdoc_vnext_backend.PdfExport.Lifecycle.Step.Receipts.{
  Records, receipt-Records, Records-receipt,
}
use flowdoc_vnext_backend.Common.{
  ◌≡◌, refl, sym, ap, ◌∙◌, ◌↔◌, ◌⊎◌, inl, inr, Option, none, some, [], ◌∷◌, List, arith, true,
  List-cases,
}
use flowdoc_vnext_backend.PdfExport.Issue.{Issue, reports, reports-nil, Digest, fingerprint}
use flowdoc_vnext_backend.PdfExport.Lifecycle.Head.{
  HeadFacts, Head, TransitionRequest, ReceiptFacts, Receipt,
}
use flowdoc_vnext_backend.PdfExport.Lifecycle.Parse
use flowdoc_vnext_backend.PdfExport.Lifecycle.Parse.{HeadResult, head_rows, parse_head}
use flowdoc_vnext_backend.PdfExport.Lifecycle.Transition.{
  Outcome, next, refused, ready, blocked, applied, request_rows, inspect, transition_facts,
  finalize_head, transition_receipt, apply_outcome, apply_transition,
}
use flowdoc_vnext_backend.PdfExport.Lifecycle.Validity.{FactsAreValid, IsValid}
use flowdoc_vnext_backend.PdfExport.Lifecycle.Validity.Parser.{parse_head-IsValid}
use flowdoc_vnext_backend.PdfExport.Lifecycle.Step.{RequestFits, rows-RequestFits}
use flowdoc_vnext_backend.PdfExport.Lifecycle.Step.Relation.{Step}
use flowdoc_vnext_backend.PdfExport.Lifecycle.Step.Code.{transition-Step, Step-transition}
use flowdoc_vnext_backend.PdfExport.Lifecycle.Step.Refusals.{
  Refuses, transition-Refuses, Refuses-transition,
}
use flowdoc_vnext_backend.PdfExport.Lifecycle.Step.Valid.{Step-FactsAreValid}

pub finalize_head-IsValid :
    ⦃d : Digest HeadFacts⦄ (f : HeadFacts) → FactsAreValid f → IsValid (finalize_head f)
unfolding finalize_head
finalize_head-IsValid ⦃d⦄ f v = record {
  facts = v;
  fingerprint_form = d.digest-is_fingerprint f;
  fingerprint_matches = refl;
}

module _ ⦃d : Digest TransitionRequest⦄ (r : TransitionRequest) where
  inspect-ready : inspect r ≡ ready r (fingerprint r) → RequestFits r
  unfolding inspect
  inspect-ready e = (rows-RequestFits r).0 ((reports-nil (request_rows r)).0 (ground arith))

  pub inspect-RequestFits : RequestFits r → inspect r ≡ ready r (fingerprint r)
  unfolding inspect
  inspect-RequestFits fits =
      rw ((reports-nil (request_rows r)).1 ((rows-RequestFits r).1 fits), inspect)

  pub inspect-cases :
      (RequestFits r × (inspect r ≡ ready r (fingerprint r)))
      ⊎ ((is : List Issue) × (inspect r ≡ blocked is))
  unfolding inspect
  inspect-cases = elim (List-cases (reports (request_rows r))) [
    | inl e ↦
        let fits = (rows-RequestFits r).0 ((reports-nil (request_rows r)).0 e) in
        inl (fits, rw (e, inspect))
    | inr (i, is, e) ↦ inr (i ∷ is, rw (e, inspect))
  ]

module _ ⦃d : Digest HeadFacts⦄ (h : Head) where
  parse_head-cases :
      (IsValid h × (parse_head h ≡ Parse.ready h))
      ⊎ ((is : List Issue) × (parse_head h ≡ Parse.blocked is))
  unfolding parse_head
  parse_head-cases = elim (List-cases (reports (head_rows h))) [
    | inl e ↦
        let p : parse_head h ≡ Parse.ready h = rw (e, parse_head) in
        inl ((parse_head-IsValid h).0 p, p)
    | inr (i, is, e) ↦ inr (i ∷ is, rw (e, parse_head))
  ]

module _ ⦃d : Digest HeadFacts⦄ ⦃q : Digest TransitionRequest⦄ ⦃c : Digest ReceiptFacts⦄ (h : Head)
    (r : TransitionRequest) where
  -- An applied transition: a valid head, a request in form, a step, its head and its receipt.
  pub record Applies (g : Head) (receipt : Receipt) : Type 0 where
    pub valid : IsValid h
    pub fits : RequestFits r
    pub step : Step h.facts r g.facts
    pub result : g.lifecycle_fingerprint ≡ fingerprint g.facts
    pub records : Records r h g receipt

  next-applied :
      (f : HeadFacts)
      → FactsAreValid f
      → apply_outcome h r (fingerprint r) (next f)
        ≡ applied (finalize_head f) (transition_receipt r (fingerprint r) h (finalize_head f))
  unfolding apply_outcome
  next-applied f v =
      rw ((parse_head-IsValid (finalize_head f)).1 (finalize_head-IsValid f v), apply_outcome)

  apply-outcome :
      IsValid h
      → RequestFits r
      → apply_transition h r ≡ apply_outcome h r (fingerprint r) (transition_facts h.facts r)
  unfolding apply_transition
  apply-outcome v fits =
      rw ((parse_head-IsValid h).1 v, inspect-RequestFits r fits, apply_transition) refl

  next-Applies :
      (f : HeadFacts)
      → IsValid h
      → RequestFits r
      → Step h.facts r f
      → Applies (finalize_head f) (transition_receipt r (fingerprint r) h (finalize_head f))
  unfolding finalize_head
  next-Applies f v fits s = record {
    valid = v;
    fits = fits;
    step = s;
    result = refl;
    records = receipt-Records r h (finalize_head f) (Step-Continues r s).revision;
  }

  outcome-Applies :
      (o : Outcome) {g : Head} {receipt : Receipt}
      → IsValid h
      → RequestFits r
      → transition_facts h.facts r ≡ o
      → apply_outcome h r (fingerprint r) o ≡ applied g receipt
      → Applies g receipt
  unfolding apply_outcome
  outcome-Applies (refused i) v fits e a = cc
  outcome-Applies (next f) {g} {receipt} v fits e a =
      let s = transition-Step h.facts r e in
      let n = next-applied f (Step-FactsAreValid r v.facts fits s) in
      subst₂ Applies (cc (n, a)) (cc (n, a)) (next-Applies f v fits s)

  apply-bad_head :
      {is : List Issue} → parse_head h ≡ Parse.blocked is → apply_transition h r ≡ blocked none is
  unfolding apply_transition
  apply-bad_head p = rw (p, apply_transition)

  apply-bad_request :
      {is : List Issue}
      → parse_head h ≡ Parse.ready h
      → inspect r ≡ blocked is
      → apply_transition h r ≡ blocked (some h) is
  unfolding apply_transition
  apply-bad_request p q = rw (p, q, apply_transition) refl

  apply_sound :
      {g : Head} {receipt : Receipt} → apply_transition h r ≡ applied g receipt → Applies g receipt
  apply_sound e = elim (parse_head-cases h) [
    | inr (is, p) ↦ cc (apply-bad_head p, e)
    | inl (v, p) ↦ elim (inspect-cases r) [
      | inr (is, q) ↦ cc (apply-bad_request p q, e)
      | inl (fits, q) ↦
          outcome-Applies (transition_facts h.facts r) v fits refl (sym (apply-outcome v fits) ∙ e)
    ]
  ]

  apply_complete :
      {g : Head} {receipt : Receipt} → Applies g receipt → apply_transition h r ≡ applied g receipt
  unfolding finalize_head
  apply_complete {g} {receipt} a =
      let made : finalize_head g.facts ≡ g =
        λ i. record { facts = g.facts; lifecycle_fingerprint = sym a.result i } in
      apply-outcome a.valid a.fits
      ∙ ap (apply_outcome h r (fingerprint r)) (Step-transition h.facts r a.step)
      ∙ next-applied g.facts (Step-FactsAreValid r a.valid.facts a.fits a.step)
      ∙ (λ i. applied (made i) (transition_receipt r (fingerprint r) h (made i)))
      ∙ ap (applied g)
          (sym (Records-receipt r h g (Step-Continues r a.step).revision receipt a.records))

  -- The apply function gives out a head and a receipt exactly when the given head is valid, the
  -- request is in form, the step relation takes the head's facts to those of the new head, the new head
  -- has the fingerprint of its facts, and the receipt names the request, its kind, its fingerprint and
  -- its time, the revision of the head and the next one, and the fingerprint of the new head, and has the
  -- fingerprint of its own facts.
  pub apply-Applies :
      (g : Head) (receipt : Receipt)
      → (apply_transition h r ≡ applied g receipt) ↔ Applies g receipt
  apply-Applies g receipt = (apply_sound, apply_complete)

  outcome-refused :
      (a : Outcome) (o : Option Head) (is : List Issue)
      → IsValid h
      → RequestFits r
      → transition_facts h.facts r ≡ a
      → apply_outcome h r (fingerprint r) a ≡ blocked o is
      → (o ≡ some h) × ((i : Issue) × (is ≡ i ∷ []) × Refuses h.facts r i)
  unfolding apply_outcome
  outcome-refused (refused i) o is v fits e b = (cc b, (i, cc b, transition-Refuses h.facts r e))
  outcome-refused (next f) o is v fits e b =
      cc (next-applied f (Step-FactsAreValid r v.facts fits (transition-Step h.facts r e)), b)

  -- For a valid head and a request in form: the apply function answers with issues exactly when a guard
  -- stands against the request, the first one in its order. It then answers that guard's issue alone,
  -- with the head as it was; so the parse of the head that a step has made never refuses.
  pub apply-refused :
      (o : Option Head) (is : List Issue)
      → IsValid h
      → RequestFits r
      → (apply_transition h r ≡ blocked o is)
        ↔ ((o ≡ some h) × ((i : Issue) × (is ≡ i ∷ []) × Refuses h.facts r i))
  unfolding apply_outcome
  apply-refused o is v fits = (
    λ b.
        outcome-refused (transition_facts h.facts r) o is v fits refl
          (sym (apply-outcome v fits) ∙ b),
    λ (whole, (i, one, e)).
        apply-outcome v fits
        ∙ ap (apply_outcome h r (fingerprint r)) (Refuses-transition h.facts r e)
        ∙ (λ k. blocked (sym whole k) (sym one k)),
  )

  -- A head that the apply function gives out is valid.
  pub applied-IsValid :
      (g : Head) (receipt : Receipt) → apply_transition h r ≡ applied g receipt → IsValid g
  applied-IsValid g receipt e =
      let a = apply_sound e in
      record {
        facts = Step-FactsAreValid r a.valid.facts a.fits a.step;
        fingerprint_form =
            subst (λ z. is_fingerprint z ≡ true) (sym a.result) (d.digest-is_fingerprint g.facts);
        fingerprint_matches = sym a.result;
      }
