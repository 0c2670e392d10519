-- ===== src/PdfExport/OperationRepository/Isolation.antt =====
-- The reads of operations stay in their scope (pdfExport/pdfExportOperationRepository.ts).
use text.Mathlib.TextEquality.{eq_iff}
use flowdoc_vnext_backend.Common.{
  String, ◌≡◌, sym, ap, ◌∙◌, inl, inr, some, arith, text_eq, Option-cases, pair_eq,
}
use flowdoc_vnext_backend.PdfExport.Issue.{Digest, Scope}
use flowdoc_vnext_backend.PdfExport.Operation.{CoreNames, AdmissionFacts, OperationFacts, Operation}
use flowdoc_vnext_backend.PdfExport.OperationRepository.{
  CallerKey, OperationRepository, found, caller_key, key_of, read_by_operation_id,
  read_by_caller_key,
}
use flowdoc_vnext_backend.PdfExport.OperationRepository.Admission.{IsIndexed}

id_read-found :
    (s : OperationRepository) (scope : Scope) (id : String) (p : Operation)
    → read_by_operation_id s scope id ≡ found p
    → (s.by_operation_id.get id ≡ some p)
      × (p.scope.tenant_id ≡ scope.tenant_id)
      × (p.scope.principal_id ≡ scope.principal_id)
unfolding read_by_operation_id
id_read-found s scope id p e = elim (Option-cases (s.by_operation_id.get id)) [
  | inl none_there ↦ ground arith
  | inr (q, at) ↦ ground (
    arith,
    eq_iff q.scope.tenant_id scope.tenant_id,
    eq_iff q.scope.principal_id scope.principal_id,
  )
]

key_read-found :
    (s : OperationRepository) (scope : Scope) (key : String) (p : Operation)
    → read_by_caller_key s scope key ≡ found p
    → (id : String) × (s.operation_id_by_caller_key.get (caller_key scope key) ≡ some id)
      × (s.by_operation_id.get id ≡ some p)
unfolding read_by_caller_key
key_read-found s scope key p e =
    elim (Option-cases (s.operation_id_by_caller_key.get (caller_key scope key))) [
      | inl none_there ↦ ground arith
      | inr (id, at) ↦ elim (Option-cases (s.by_operation_id.get id)) [
        | inl none_there ↦ ground arith
        | inr (q, at_id) ↦ (id, at, ground arith)
      ]
    ]

module _ (names : CoreNames) ⦃a : Digest AdmissionFacts⦄ ⦃o : Digest OperationFacts⦄ where
  -- What a read answers: an operation of the scope and the id or key that were asked for.
  pub record ReadsOwn (s : OperationRepository) (scope : Scope) (p : Operation) : Type 0 where
    pub by_id :
        (id : String)
        → read_by_operation_id s scope id ≡ found p
        → (p.operation_id ≡ id) × (p.scope ≡ scope)
    pub by_key :
        (key : String)
        → read_by_caller_key s scope key ≡ found p
        → (p.idempotency.caller_key ≡ key) × (p.scope ≡ scope)

  -- In a repository whose maps are in step, an operation that a read finds has the id, or the caller's
  -- key, that was asked for, and was admitted in the scope that asked.
  pub found-ReadsOwn :
      (s : OperationRepository) (scope : Scope) (p : Operation)
      → IsIndexed names s
      → ReadsOwn s scope p
  found-ReadsOwn s scope p h = record {
    by_id = λ id e.
        let (at, tenant, principal) = id_read-found s scope id p e in
        (
          (h.operations id p at).1,
          λ i. record { tenant_id = tenant i; principal_id = principal i },
        );
    by_key = λ key e.
        let (id, at, at_id) = key_read-found s scope key p e in
        let (q, at_q, own) = h.index (caller_key scope key) id at in
        let one : q ≡ p = cc (at_q, at_id) in
        let k : key_of p ≡ caller_key scope key = ap key_of (sym one) ∙ own in
        (
          ap (λ (x : CallerKey). x.1.1) k,
          λ i. record { tenant_id = (k i).0; principal_id = (k i).1.0 },
        );
  }
