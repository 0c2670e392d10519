-- ===== src/PdfExport/Operation/Create.antt =====
-- createFlowDocBackendPdfExportOperationV1 (pdfExport/pdfExportOperation.ts, lines 401 to 472).
-- Core's production admission is a parameter: what it answers for an id and an input.
use flowdoc_vnext_backend.Common.{
  ℕ, suc, String, ◌≡◌, ◌≢◌, ◌⊎◌, refl, Bool, not, List, [], ◌∷◌, ◌++◌, ◌≤◌, ltb, arith, inl, inr,
}
use flowdoc_vnext_backend.Common.Text.{is_bounded}
use flowdoc_vnext_backend.PdfExport.Issue.{
  Time, Issue, core_issue, issue, reports, Digest, fingerprint,
}
use flowdoc_vnext_backend.PdfExport.Operation.{
  AdmissionFacts, Admission, OperationFacts, Operation, OperationResult, ready, blocked,
  operation_source, exact_contracts, CoreNames, parse_operation,
}
use flowdoc_vnext_backend.PdfExport.Operation.Validity.{
  AdmissionIsValid, OperationIsValid, parse_operation-OperationIsValid,
}

pub record CoreIssue : Type 0 where
  pub code : String
  pub path : String

pub data CoreAnswer : Type 0 where
  admitted : Admission → CoreAnswer
  not_admitted : List CoreIssue → CoreAnswer

CoreAnswer-cases :
    (x : CoreAnswer)
    → ((cs : List CoreIssue) × (x ≡ not_admitted cs)) ⊎ ((m : Admission) × (x ≡ admitted m))
CoreAnswer-cases (not_admitted cs) = inl (cs, refl)
CoreAnswer-cases (admitted m) = inr (m, refl)

-- The request, the current source, the measured draw contract and the policy are Core's values: of
-- them this code reads the time of the request.
pub record CreateInput (CoreInput : Type 0) : Type 0 where
  pub operation_id : String
  pub tenant_id : String
  pub principal_id : String
  pub caller_idempotency_key : String
  pub accepted_at : Time
  pub requested_at : Time
  pub core : CoreInput

abbrev string_issue : String → Issue
string_issue path = issue "pdf-export-operation-string-invalid" path

create_rows : {CoreInput : Type 0} → CreateInput CoreInput → List (Bool × Issue)
create_rows i =
    (not (is_bounded i.operation_id), string_issue "operationId")
    ∷ (not (is_bounded i.tenant_id), string_issue "tenantId")
    ∷ (not (is_bounded i.principal_id), string_issue "principalId")
    ∷ (not (is_bounded i.caller_idempotency_key), string_issue "callerIdempotencyKey")
    ∷ (
      ltb i.accepted_at i.requested_at,
      issue "pdf-export-operation-accepted-before-request" "acceptedAt",
    )
    ∷ []

-- One issue for each of Core's, with its index.
core_issues : ℕ → List CoreIssue → List Issue
core_issues n [] = []
core_issues n (c ∷ cs) =
    (record { code = "pdf-export-operation-core-admission-blocked"; path = core_issue n c.path })
    ∷ core_issues (suc n) cs

operation_facts : {CoreInput : Type 0} → CreateInput CoreInput → Admission → OperationFacts
operation_facts i admission = record {
  source = operation_source;
  contract_version = 1;
  kind = "pdf-export-operation";
  operation_id = i.operation_id;
  status = "accepted";
  scope = record { tenant_id = i.tenant_id; principal_id = i.principal_id };
  idempotency = record {
    caller_key = i.caller_idempotency_key;
    payload_fingerprint = admission.payload_fingerprint;
  };
  admission = admission;
  accepted_at = i.accepted_at;
  contracts = exact_contracts;
}

module _ {CoreInput : Type 0} (create_admission : String → CoreInput → CoreAnswer)
    ⦃o : Digest OperationFacts⦄ where
  unfoldable pub create_operation : CreateInput CoreInput → OperationResult
  unfolding create_rows core_issues operation_facts
  create_operation i = elim (create_admission i.operation_id i.core) [
    | not_admitted cs ↦ blocked (reports (create_rows i) ++ core_issues 0 cs)
    | admitted m ↦ elim (reports (create_rows i)) [
      | [] ↦ ready (record {
        facts = operation_facts i m;
        operation_fingerprint = fingerprint (operation_facts i m);
      })
      | x ∷ xs ↦ blocked (x ∷ xs)
    ]
  ]

  -- What creation makes.
  pub record Creates (i : CreateInput CoreInput) (p : Operation) : Type 0 where
    pub admission : create_admission i.operation_id i.core ≡ admitted p.admission
    pub accepted : i.requested_at ≤ p.accepted_at
    pub id : p.operation_id ≡ i.operation_id
    pub tenant : p.scope.tenant_id ≡ i.tenant_id
    pub principal : p.scope.principal_id ≡ i.principal_id
    pub caller : p.idempotency.caller_key ≡ i.caller_idempotency_key

  module _ (names : CoreNames) ⦃a : Digest AdmissionFacts⦄
      (core_admits : (id : String) (input : CoreInput) (m : Admission)
        → create_admission id input ≡ admitted m
        → AdmissionIsValid names m × (m.admission_id ≡ id)) where
    created :
        (i : CreateInput CoreInput) (m : Admission) (p : Operation)
        → create_admission i.operation_id i.core ≡ admitted m
        → create_operation i ≡ ready p
        → Creates i p × OperationIsValid names p
    unfolding create_operation
    created i m p e c = ground (
      arith,
      core_admits i.operation_id i.core m e,
      o.digest-is_fingerprint (operation_facts i m),
    )

    not_created :
        (i : CreateInput CoreInput) (cs : List CoreIssue) (p : Operation)
        → create_admission i.operation_id i.core ≡ not_admitted cs
        → create_operation i ≢ ready p
    unfolding create_operation
    not_created i cs p e c = ground arith

    -- An operation that creation gives out holds Core's admission of its own id, the identities of the
    -- input and an acceptance no earlier than the request; and the parser of operations accepts it,
    -- whenever what Core admits is in the form that the parser expects.
    pub create_operation-parses :
        (i : CreateInput CoreInput) (p : Operation)
        → create_operation i ≡ ready p
        → Creates i p × (parse_operation names p ≡ ready p)
    create_operation-parses i p c =
        elim (CoreAnswer-cases (create_admission i.operation_id i.core)) [
          | inl (cs, e) ↦ absurd (not_created i cs p e c)
          | inr (m, e) ↦
              let (made, valid) = created i m p e c in
              (made, (parse_operation-OperationIsValid names p).1 valid)
        ]
