-- ===== src/PdfExport/Operation/Validity.antt =====
-- What an operation must satisfy, said without the parser, and that the parser decides it
-- (pdfExport/pdfExportOperation.ts).
use mathlib.Core.Path.{subst}
use text.Mathlib.TextEquality.{eq_iff}
use flowdoc_vnext_backend.Common.{
  ◌≡◌, sym, ◌⊎◌, ◌↔◌, Bool, true, false, ◌∷◌, ◌++◌, arith, List-cases, inl, inr, List,
}
use flowdoc_vnext_backend.Common.Text.{is_bounded, is_fingerprint}
use flowdoc_vnext_backend.PdfExport.Issue.{
  Issue, reports, AllPass, AllPass-append, reports-nil, Digest, fingerprint,
}
use flowdoc_vnext_backend.PdfExport.Operation.{
  AdmissionFacts, Admission, OperationContracts, OperationFacts, Operation, ready, blocked,
  operation_source, exact_contracts, CoreNames, contract_rows, is_empty, admission_rows, head_rows,
  binding_rows, operation_rows, parse_operation,
}

module _ (names : CoreNames) ⦃a : Digest AdmissionFacts⦄ ⦃o : Digest OperationFacts⦄ where
  pub record AdmissionIsValid (m : Admission) : Type 0 where
    pub source : m.source ≡ names.admission_source
    pub version : m.contract_version ≡ names.admission_version
    pub kind : m.kind ≡ "pdf-export-production-admission"
    pub id : is_bounded m.admission_id ≡ true
    pub form : is_fingerprint m.admission_fingerprint ≡ true
    pub payload : is_fingerprint m.payload_fingerprint ≡ true
    pub unbound : m.production_binding ≡ false
    pub idle : m.renderer_execution ≡ false
    pub status : m.activation_status ≡ "blocked"
    pub inactive : m.activation_production_binding ≡ false
    pub matches : fingerprint m.facts ≡ m.admission_fingerprint

  pub record OperationIsValid (p : Operation) : Type 0 where
    pub source : p.source ≡ operation_source
    pub version : p.contract_version ≡ 1
    pub kind : p.kind ≡ "pdf-export-operation"
    pub status : p.status ≡ "accepted"
    pub id : is_bounded p.operation_id ≡ true
    pub form : is_fingerprint p.operation_fingerprint ≡ true
    pub tenant : is_bounded p.scope.tenant_id ≡ true
    pub principal : is_bounded p.scope.principal_id ≡ true
    pub caller : is_bounded p.idempotency.caller_key ≡ true
    pub payload : is_fingerprint p.idempotency.payload_fingerprint ≡ true
    pub admission : AdmissionIsValid p.admission
    pub contracts : p.contracts ≡ exact_contracts
    pub admission_id : p.admission.admission_id ≡ p.operation_id
    pub payload_bound : p.admission.payload_fingerprint ≡ p.idempotency.payload_fingerprint
    pub matches : fingerprint p.facts ≡ p.operation_fingerprint

  admission_iff : (m : Admission) → AllPass (admission_rows names m) ↔ AdmissionIsValid m
  unfolding admission_rows
  admission_iff m = (
    λ h. ground (
      arith,
      eq_iff m.source names.admission_source,
      eq_iff m.kind "pdf-export-production-admission",
      eq_iff m.activation_status "blocked",
      eq_iff (fingerprint m.facts) m.admission_fingerprint,
    ),
    λ h. ground (
      arith,
      eq_iff m.source names.admission_source,
      eq_iff m.kind "pdf-export-production-admission",
      eq_iff m.activation_status "blocked",
      eq_iff (fingerprint m.facts) m.admission_fingerprint,
    ),
  )

  contracts_iff : (c : OperationContracts) → AllPass (contract_rows c) ↔ (c ≡ exact_contracts)
  unfolding contract_rows
  contracts_iff c = (λ h. ground arith, λ h. ground arith)

  module _ (p : Operation) where
    -- The rows that are read before the bindings.
    abbrev before : List (Bool × Issue)
    before = head_rows names p ++ admission_rows names p.admission

    plain-valid :
        AllPass (head_rows names p)
        → AdmissionIsValid p.admission
        → p.contracts ≡ exact_contracts
        → AllPass (binding_rows names p true)
        → OperationIsValid p
    unfolding head_rows binding_rows
    plain-valid h m c b = record {
      source = ground (arith, eq_iff p.source operation_source);
      version = ground arith;
      kind = ground (arith, eq_iff p.kind "pdf-export-operation");
      status = ground (arith, eq_iff p.status "accepted");
      id = ground arith;
      form = ground arith;
      tenant = ground arith;
      principal = ground arith;
      caller = ground arith;
      payload = ground arith;
      admission = m;
      contracts = c;
      admission_id = ground (arith, eq_iff p.admission.admission_id p.operation_id);
      payload_bound =
          ground (arith, eq_iff p.admission.payload_fingerprint p.idempotency.payload_fingerprint);
      matches = ground (arith, eq_iff (fingerprint p.facts) p.operation_fingerprint);
    }

    valid-head_rows : OperationIsValid p → AllPass (head_rows names p)
    unfolding head_rows
    valid-head_rows v = ground (
      arith,
      eq_iff p.source operation_source,
      eq_iff p.kind "pdf-export-operation",
      eq_iff p.status "accepted",
    )

    valid-binding_rows : OperationIsValid p → AllPass (binding_rows names p true)
    unfolding binding_rows
    valid-binding_rows v = ground (
      arith,
      eq_iff p.admission.admission_id p.operation_id,
      eq_iff p.admission.payload_fingerprint p.idempotency.payload_fingerprint,
      eq_iff (fingerprint p.facts) p.operation_fingerprint,
    )

    abbrev bindings : List (Bool × Issue)
    bindings = binding_rows names p (is_empty (reports before))

    -- With nothing reported before, the bindings are tested in full.
    bindings-full : AllPass before → AllPass bindings ↔ AllPass (binding_rows names p true)
    unfolding is_empty
    bindings-full first =
        let e = (reports-nil before).1 first in
        (
          subst (λ l. AllPass (binding_rows names p (is_empty l))) e,
          subst (λ l. AllPass (binding_rows names p (is_empty l))) (sym e),
        )

    rows_iff : AllPass (operation_rows names p) ↔ OperationIsValid p
    unfolding operation_rows
    rows_iff = (
      λ h.
          let outer = (AllPass-append before (contract_rows p.contracts ++ bindings)).0 h in
          let inner =
            (AllPass-append (head_rows names p) (admission_rows names p.admission)).0 outer.0 in
          let rest = (AllPass-append (contract_rows p.contracts) bindings).0 outer.1 in
          plain-valid inner.0 ((admission_iff p.admission).0 inner.1)
            ((contracts_iff p.contracts).0 rest.0) ((bindings-full outer.0).0 rest.1),
      λ v.
          let first =
            (AllPass-append (head_rows names p) (admission_rows names p.admission)).1
              (valid-head_rows v, (admission_iff p.admission).1 v.admission) in
          let rest = (AllPass-append (contract_rows p.contracts) bindings).1 (
            (contracts_iff p.contracts).1 v.contracts,
            (bindings-full first).1 (valid-binding_rows v),
          ) in
          (AllPass-append before (contract_rows p.contracts ++ bindings)).1 (first, rest),
    )

    pub parse_operation-cases :
        (OperationIsValid p × (parse_operation names p ≡ ready p))
        ⊎ ((is : List Issue) × (parse_operation names p ≡ blocked is))
    unfolding parse_operation
    parse_operation-cases = elim (List-cases (reports (operation_rows names p))) [
      | inl e ↦
          inl (rows_iff.0 ((reports-nil (operation_rows names p)).0 e), rw (e, parse_operation))
      | inr (i, is, e) ↦ inr (i ∷ is, rw (e, parse_operation))
    ]

    -- An operation is parsed, to itself, exactly when it is valid.
    pub parse_operation-OperationIsValid : (parse_operation names p ≡ ready p) ↔ OperationIsValid p
    unfolding parse_operation
    parse_operation-OperationIsValid = (
      λ e. elim parse_operation-cases [ inl (v, _) ↦ v | inr (is, b) ↦ cc (e, b) ],
      λ v. rw ((reports-nil (operation_rows names p)).1 (rows_iff.1 v), parse_operation),
    )
