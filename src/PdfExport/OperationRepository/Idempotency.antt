-- ===== src/PdfExport/OperationRepository/Idempotency.antt =====
-- A caller's key is bound once: to one operation, which replays and reads back from then on.
use flowdoc_vnext_backend.Common.{
  String, pair_eq, ◌≡◌, ◌≢◌, refl, ◌∙◌, inl, inr, some, none, arith, List, [], ◌∷◌, ◌==◌, text_eq,
  beq_refl, Bool-cases, Option, if◌then◌else◌,
}
use flowdoc_vnext_backend.Common.Dict.{get-set_self}
use flowdoc_vnext_backend.PdfExport.Issue.{issue, Digest}
use flowdoc_vnext_backend.PdfExport.Operation.{CoreNames, AdmissionFacts, OperationFacts, Operation}
use flowdoc_vnext_backend.PdfExport.Operation.Validity.{
  OperationIsValid, parse_operation-OperationIsValid,
}
use flowdoc_vnext_backend.PdfExport.OperationRepository.{
  OperationRepository, AdmitResult, created, idempotent_replay, conflict, found, key_of, admit_new,
  admit_again, admit_parsed, admit_operation, read_by_operation_id, read_by_caller_key,
}
use flowdoc_vnext_backend.PdfExport.OperationRepository.Admission.{
  IsIndexed, Admits, admit_all, parsed_or_invalid, admit_all-Keeps,
}

module _ (names : CoreNames) ⦃a : Digest AdmissionFacts⦄ ⦃o : Digest OperationFacts⦄ where
  pub valid-parsed :
      (s : OperationRepository) (p : Operation)
      → OperationIsValid names p
      → admit_operation names s p ≡ admit_parsed s p (s.operation_id_by_caller_key.get (key_of p))
  unfolding admit_operation
  valid-parsed s p v = rw ((parse_operation-OperationIsValid names p).1 v, admit_operation) refl

  taken :
      (s : OperationRepository) (p existing : Operation) (id : String)
      → OperationIsValid names p
      → s.operation_id_by_caller_key.get (key_of p) ≡ some id
      → s.by_operation_id.get id ≡ some existing
      → admit_operation names s p ≡ admit_again s p (some existing)
  unfolding admit_parsed
  taken s p existing id v at_key at_id =
      valid-parsed s p v ∙ rw (at_key, admit_parsed) (rw at_id refl)

  branch :
      (p existing : Operation) (id : String)
      → existing.operation_id ≡ id
      → (s : OperationRepository)
      → admit_again s p (some existing) ≡ (
        s,
        if existing.idempotency.payload_fingerprint == p.idempotency.payload_fingerprint
            then idempotent_replay existing
            else conflict id (
                issue "pdf-export-operation-idempotency-conflict" "idempotency.payloadFingerprint"
                ∷ []),
      )
  unfolding admit_again
  branch p existing id named s =
      elim (Bool-cases
        (existing.idempotency.payload_fingerprint == p.idempotency.payload_fingerprint)) [
          | inl e ↦ rw e refl
          | inr e ↦ rw (e, named) refl
        ]

  -- In a repository whose maps are in step, a valid operation whose caller's key is taken by an
  -- operation of the same key is answered with that operation if the payload fingerprints agree, and
  -- with a conflict that names its id if not; the state stays as it was.
  pub admit-taken :
      (s : OperationRepository) (p : Operation) (id : String)
      → IsIndexed names s
      → OperationIsValid names p
      → s.operation_id_by_caller_key.get (key_of p) ≡ some id
      → (existing : Operation) × (s.by_operation_id.get id ≡ some existing)
        × (key_of existing ≡ key_of p)
        × (admit_operation names s p ≡ (
          s,
          if existing.idempotency.payload_fingerprint == p.idempotency.payload_fingerprint
              then idempotent_replay existing
              else conflict id (
                  issue "pdf-export-operation-idempotency-conflict" "idempotency.payloadFingerprint"
                  ∷ []),
        ))
  admit-taken s p id h v at_key =
      let (existing, at_id, same_key) = h.index (key_of p) id at_key in
      let named = (h.operations id existing at_id).1 in
      (
        existing,
        at_id,
        same_key,
        taken s p existing id v at_key at_id ∙ branch p existing id named s,
      )

  -- What a caller sees of its operation: the same admission replays it and changes nothing, and both
  -- reads, in its scope, find it.
  pub record Serves (s : OperationRepository) (p : Operation) : Type 0 where
    pub replays : admit_operation names s p ≡ (s, idempotent_replay p)
    pub by_id : read_by_operation_id s p.scope p.operation_id ≡ found p
    pub by_key : read_by_caller_key s p.scope p.idempotency.caller_key ≡ found p

  again :
      (p : Operation) (s : OperationRepository)
      → admit_again s p (some p) ≡ (s, idempotent_replay p)
  unfolding admit_again
  again p s = rw (beq_refl p.idempotency.payload_fingerprint) refl

  id_read :
      (s : OperationRepository) (p : Operation)
      → OperationIsValid names p
      → s.by_operation_id.get p.operation_id ≡ some p
      → read_by_operation_id s p.scope p.operation_id ≡ found p
  unfolding read_by_operation_id
  id_read s p v at_id =
      rw
        (
          v.tenant,
          v.principal,
          v.id,
          at_id,
          beq_refl p.scope.tenant_id,
          beq_refl p.scope.principal_id,
        )
        refl

  key_read :
      (s : OperationRepository) (p : Operation)
      → OperationIsValid names p
      → s.operation_id_by_caller_key.get (key_of p) ≡ some p.operation_id
      → s.by_operation_id.get p.operation_id ≡ some p
      → read_by_caller_key s p.scope p.idempotency.caller_key ≡ found p
  unfolding read_by_caller_key
  key_read s p v at_key at_id = rw (v.tenant, v.principal, v.caller, at_key) (rw at_id refl)

  stored-Serves :
      (s : OperationRepository) (p : Operation)
      → OperationIsValid names p
      → s.operation_id_by_caller_key.get (key_of p) ≡ some p.operation_id
      → s.by_operation_id.get p.operation_id ≡ some p
      → Serves s p
  stored-Serves s p v at_key at_id = record {
    replays = taken s p p p.operation_id v at_key at_id ∙ again p s;
    by_id = id_read s p v at_id;
    by_key = key_read s p v at_key at_id;
  }

  new-created :
      (s : OperationRepository) (p q : Operation) (x : Option Operation)
      → OperationIsValid names p
      → s.operation_id_by_caller_key.get (key_of p) ≡ none
      → s.by_operation_id.get p.operation_id ≡ x
      → (admit_new s p x).1 ≡ created q
      → (q ≡ p) × Admits names s p (admit_new s p x).0
  unfolding admit_new
  new-created s p q none v k e c =
      (cc c, record { valid = v; new_key = k; new_id = e; writes = refl })
  new-created s p q (some owner) v k e c = cc c

  again-created :
      (s : OperationRepository) (p q : Operation) (x : Option Operation)
      → (admit_again s p x).1 ≢ created q
  unfolding admit_again
  again-created s p q none c = cc c
  again-created s p q (some existing) c = ground arith

  parsed-created :
      (s : OperationRepository) (p q : Operation) (x : Option String)
      → OperationIsValid names p
      → s.operation_id_by_caller_key.get (key_of p) ≡ x
      → (admit_parsed s p x).1 ≡ created q
      → (q ≡ p) × Admits names s p (admit_parsed s p x).0
  unfolding admit_parsed
  parsed-created s p q none v e c =
      new-created s p q (s.by_operation_id.get p.operation_id) v e refl c
  parsed-created s p q (some id) v e c = absurd (again-created s p q (s.by_operation_id.get id) c)

  created-Admits :
      (s : OperationRepository) (p q : Operation)
      → (admit_operation names s p).1 ≡ created q
      → (q ≡ p) × Admits names s p (admit_operation names s p).0
  created-Admits s p q c = elim (parsed_or_invalid names s p) [
    | inl (v, e) ↦
        rw e (parsed-created s p q (s.operation_id_by_caller_key.get (key_of p)) v refl (rw e at c))
    | inr (is, e) ↦ let bad : AdmitResult.invalid is ≡ created q = rw e at c in cc bad
  ]

  -- Once a repository has answered that it created an operation, it serves this operation, and it
  -- still does after any operations that are offered to it later.
  pub created-Serves :
      (s : OperationRepository) (p q : Operation) (later : List Operation)
      → (admit_operation names s p).1 ≡ created q
      → (q ≡ p) × Serves (admit_all names (admit_operation names s p).0 later) p
  created-Serves s p q later e =
      let (same, x) = created-Admits s p q e in
      let s' = (admit_operation names s p).0 in
      let keeps = admit_all-Keeps names later s' in
      let at_key : s'.operation_id_by_caller_key.get (key_of p) ≡ some p.operation_id =
        rw x.writes (get-set_self s.operation_id_by_caller_key (key_of p) p.operation_id) in
      let at_id : s'.by_operation_id.get p.operation_id ≡ some p =
        rw x.writes (get-set_self s.by_operation_id p.operation_id p) in
      (
        same,
        stored-Serves (admit_all names s' later) p x.valid
            (keeps.index (key_of p) p.operation_id at_key)
            (keeps.operations p.operation_id p at_id),
      )
