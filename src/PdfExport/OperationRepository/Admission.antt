-- ===== src/PdfExport/OperationRepository/Admission.antt =====
-- Operations are admitted once for each caller's key, and read back as they were admitted.
use mathlib.Core.Path.{subst}
use flowdoc_vnext_backend.Common.{
  String, ◌≡◌, refl, sym, ◌⊎◌, inl, inr, Option, none, some, arith, List, [], ◌∷◌, text_eq, pair_eq,
}
use flowdoc_vnext_backend.Common.Dict.{set, get-set_self, get-set_fresh, set-fits}
use flowdoc_vnext_backend.PdfExport.Issue.{Issue, Digest}
use flowdoc_vnext_backend.PdfExport.Operation.{CoreNames, AdmissionFacts, OperationFacts, Operation}
use flowdoc_vnext_backend.PdfExport.Operation.Validity.{OperationIsValid, parse_operation-cases}
use flowdoc_vnext_backend.PdfExport.OperationRepository
use flowdoc_vnext_backend.PdfExport.OperationRepository.{
  CallerKey, OperationRepository, AdmitResult, created, idempotent_replay, conflict, ReadResult,
  found, caller_key, key_of, valid_scope, admit_new, admit_again, admit_parsed, admit_operation,
  read_by_operation_id, read_by_caller_key,
}

module _ (names : CoreNames) ⦃a : Digest AdmissionFacts⦄ ⦃o : Digest OperationFacts⦄ where
  -- Every operation is valid and stored under its id, its caller's key leads to it, and every key of
  -- the index leads to an operation of that key.
  pub record IsIndexed (s : OperationRepository) : Type 0 where
    pub operations :
        (id : String) (p : Operation)
        → s.by_operation_id.get id ≡ some p
        → OperationIsValid names p
          × (p.operation_id ≡ id)
          × (s.operation_id_by_caller_key.get (key_of p) ≡ some id)
    pub index :
        (key : CallerKey) (id : String)
        → s.operation_id_by_caller_key.get key ≡ some id
        → (p : Operation) × (s.by_operation_id.get id ≡ some p) × (key_of p ≡ key)

  pub empty-IsIndexed : IsIndexed OperationRepository.empty
  empty-IsIndexed = record { operations = λ id p e. cc; index = λ key id e. cc }

  -- A new operation: valid, with a new key and a new id, and now stored under both.
  pub record Admits (s : OperationRepository) (p : Operation) (s' : OperationRepository)
      : Type 0 where
    pub valid : OperationIsValid names p
    pub new_key : s.operation_id_by_caller_key.get (key_of p) ≡ none
    pub new_id : s.by_operation_id.get p.operation_id ≡ none
    pub writes : s' ≡ record {
      by_operation_id = set s.by_operation_id p.operation_id p;
      operation_id_by_caller_key = set s.operation_id_by_caller_key (key_of p) p.operation_id;
    }

  pub parsed_or_invalid :
      (s : OperationRepository) (p : Operation)
      → (OperationIsValid names p
          × (admit_operation names s p
              ≡ admit_parsed s p (s.operation_id_by_caller_key.get (key_of p))))
        ⊎ ((is : List Issue) × (admit_operation names s p ≡ (s, AdmitResult.invalid is)))
  unfolding admit_operation
  parsed_or_invalid s p = elim (parse_operation-cases names p) [
    | inl (v, e) ↦ inl (v, rw (e, admit_operation) refl)
    | inr (is, e) ↦ inr (is, rw (e, admit_operation) refl)
  ]

  admit_new-Admits :
      (s : OperationRepository) (p : Operation) (x : Option Operation)
      → OperationIsValid names p
      → s.operation_id_by_caller_key.get (key_of p) ≡ none
      → s.by_operation_id.get p.operation_id ≡ x
      → ((admit_new s p x).0 ≡ s) ⊎ Admits s p (admit_new s p x).0
  unfolding admit_new
  admit_new-Admits s p none v k e =
      inr (record { valid = v; new_key = k; new_id = e; writes = refl })
  admit_new-Admits s p (some owner) v k e = inl refl

  admit_again-same :
      (s : OperationRepository) (p : Operation) (x : Option Operation) → (admit_again s p x).0 ≡ s
  unfolding admit_again
  admit_again-same s p none = refl
  admit_again-same s p (some existing) = ground arith

  admit_parsed-Admits :
      (s : OperationRepository) (p : Operation) (x : Option String)
      → OperationIsValid names p
      → s.operation_id_by_caller_key.get (key_of p) ≡ x
      → ((admit_parsed s p x).0 ≡ s) ⊎ Admits s p (admit_parsed s p x).0
  unfolding admit_parsed
  admit_parsed-Admits s p none v e =
      admit_new-Admits s p (s.by_operation_id.get p.operation_id) v e refl
  admit_parsed-Admits s p (some id) v e = inl (admit_again-same s p (s.by_operation_id.get id))

  pub unchanged_or_Admits :
      (s : OperationRepository) (p : Operation)
      → ((admit_operation names s p).0 ≡ s) ⊎ Admits s p (admit_operation names s p).0
  unchanged_or_Admits s p = elim (parsed_or_invalid s p) [
    | inl (v, e) ↦
        rw e (admit_parsed-Admits s p (s.operation_id_by_caller_key.get (key_of p)) v refl)
    | inr (is, e) ↦ inl (rw e refl)
  ]

  Admits-IsIndexed :
      (s s' : OperationRepository) (p : Operation) → IsIndexed s → Admits s p s' → IsIndexed s'
  Admits-IsIndexed s s' p h x = subst IsIndexed (sym x.writes) (record {
    operations =
        set-fits
          (λ id p'.
            OperationIsValid names p'
            × (p'.operation_id ≡ id)
            × ((set s.operation_id_by_caller_key (key_of p) p.operation_id).get (key_of p')
                ≡ some id))
          s.by_operation_id p.operation_id p
          (x.valid, refl, get-set_self s.operation_id_by_caller_key (key_of p) p.operation_id)
          (λ id p' e.
            let old = h.operations id p' e in
            (
              old.0,
              old.1,
              get-set_fresh s.operation_id_by_caller_key (key_of p) p.operation_id (key_of p')
                  x.new_key old.2,
            ));
    index =
        set-fits
          (λ key id.
            (p' : Operation) × ((set s.by_operation_id p.operation_id p).get id ≡ some p')
            × (key_of p' ≡ key))
          s.operation_id_by_caller_key (key_of p) p.operation_id
          (p, get-set_self s.by_operation_id p.operation_id p, refl)
          (λ key id e.
            let (p', at_id, at_key) = h.index key id e in
            (p', get-set_fresh s.by_operation_id p.operation_id p id x.new_id at_id, at_key));
  })

  pub admit-IsIndexed :
      (s : OperationRepository) (p : Operation)
      → IsIndexed s
      → IsIndexed (admit_operation names s p).0
  admit-IsIndexed s p h = elim (unchanged_or_Admits s p) [
    | inl same ↦ subst IsIndexed (sym same) h
    | inr x ↦ Admits-IsIndexed s (admit_operation names s p).0 p h x
  ]

  unfoldable pub admit_all : OperationRepository → List Operation → OperationRepository
  admit_all s [] = s
  admit_all s (p ∷ ps) = admit_all (admit_operation names s p).0 ps

  -- Whatever operations are offered, in any order and again, the two maps stay in step: every stored
  -- operation is valid and found by its id and by its caller's key, and every key of the index leads
  -- to a stored operation that has this key.
  pub admit_all-IsIndexed :
      (ps : List Operation) (s : OperationRepository) → IsIndexed s → IsIndexed (admit_all s ps)
  unfolding admit_all
  admit_all-IsIndexed [] s h = h
  admit_all-IsIndexed (p ∷ ps) s h =
      admit_all-IsIndexed ps (admit_operation names s p).0 (admit-IsIndexed s p h)

  -- What is stored stays stored.
  pub record Keeps (s s' : OperationRepository) : Type 0 where
    pub operations :
        (id : String) (p : Operation)
        → s.by_operation_id.get id ≡ some p
        → s'.by_operation_id.get id ≡ some p
    pub index :
        (key : CallerKey) (id : String)
        → s.operation_id_by_caller_key.get key ≡ some id
        → s'.operation_id_by_caller_key.get key ≡ some id

  Admits-Keeps : (s s' : OperationRepository) (p : Operation) → Admits s p s' → Keeps s s'
  Admits-Keeps s s' p x = subst (Keeps s) (sym x.writes) (record {
    operations = λ id p' e. get-set_fresh s.by_operation_id p.operation_id p id x.new_id e;
    index = λ key id e.
        get-set_fresh s.operation_id_by_caller_key (key_of p) p.operation_id key x.new_key e;
  })

  admit-Keeps : (s : OperationRepository) (p : Operation) → Keeps s (admit_operation names s p).0
  admit-Keeps s p = elim (unchanged_or_Admits s p) [
    | inl same ↦
        subst (Keeps s) (sym same) (record { operations = λ id q e. e; index = λ k id e. e })
    | inr x ↦ Admits-Keeps s (admit_operation names s p).0 p x
  ]

  pub admit_all-Keeps : (ps : List Operation) (s : OperationRepository) → Keeps s (admit_all s ps)
  unfolding admit_all
  admit_all-Keeps [] s = record { operations = λ id q e. e; index = λ k id e. e }
  admit_all-Keeps (p ∷ ps) s =
      let one = admit-Keeps s p in
      let rest = admit_all-Keeps ps (admit_operation names s p).0 in
      record {
        operations = λ id q e. rest.operations id q (one.operations id q e);
        index = λ key id e. rest.index key id (one.index key id e);
      }
