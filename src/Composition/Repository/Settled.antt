-- ===== src/Composition/Repository/Settled.antt =====
-- What stays true once a record is retained or a head is committed
-- (composition/compositionSchedulerRepository.ts), whatever calls follow.
use text.Mathlib.TextEquality.{eq_iff}
use flowdoc_vnext_backend.Common.{
  String, ◌≡◌, refl, sym, ap, ◌∙◌, ◌⊎◌, inl, inr, true, false, ◌&&◌, some, List, ◌==◌, text_eq,
  number_eq, beq_refl, arith, Bool-cases,
}
use flowdoc_vnext_backend.Common.Text.{byte_length_of, is_short}
use flowdoc_vnext_backend.Common.Dict.{get-set_self}
use flowdoc_vnext_backend.PdfExport.Issue.{Digest}
use flowdoc_vnext_backend.Composition.Core.{CompositionCore}
use flowdoc_vnext_backend.Composition.SourcePin.{
  ContentKind, ContentRef, kind_beq, ref_valid, PinFacts,
}
use flowdoc_vnext_backend.Composition.JobHead.{JobFacts, same_text}
use flowdoc_vnext_backend.Composition.JobHead.Validity.Conditions.{same_text_iff}
use flowdoc_vnext_backend.Composition.Transition.{ReceiptFacts}
use flowdoc_vnext_backend.Composition.Repository.{
  StoredValue, value_fingerprint, Immutable, Repository, pair_key, fingerprint_key, same_ref,
  PutResult, put_written, put_replay, put_conflict, put_invalid, put_at, put_immutable, found,
  read_of, read_immutable, indexed, read_indexed, read_by_fingerprint,
}
use flowdoc_vnext_backend.Composition.Repository.Swap.{Call, run_all}
use flowdoc_vnext_backend.Composition.Repository.Changes.{with_immutable, Puts, put_immutable-cases}
use flowdoc_vnext_backend.Composition.Repository.Keeping.{run_all-KeepsAll}

-- A bounded identity is not empty.
short-nonempty : (s : String) → is_short s ≡ true → (s == "") ≡ false
unfolding is_short
short-nonempty s e = elim (Bool-cases (s == "")) [
  | inl t ↦ cc (ap is_short (sym ((eq_iff s "").0 t)) ∙ e)
  | inr t ↦ t
]

kind_beq_refl : (k : ContentKind) → kind_beq k k ≡ true
kind_beq_refl k = ground arith

pub same_ref_refl : (r : ContentRef) → same_ref r r ≡ true
same_ref_refl r = ground (
  arith,
  kind_beq_refl r.kind,
  eq_iff r.job_id r.job_id,
  eq_iff r.record_id r.record_id,
  eq_iff r.record_fingerprint r.record_fingerprint,
)

record RefTests (r : ContentRef) : Type 0 where
  job : is_short r.job_id ≡ true
  id : is_short r.record_id ≡ true

ref_tests : (r : ContentRef) → ref_valid r ≡ true → RefTests r
unfolding ref_valid
ref_tests r e = ground arith

probe-valid :
    (r : ContentRef)
    → ref_valid r ≡ true
    → ref_valid (record {
      kind = r.kind;
      job_id = r.job_id;
      record_id = "fingerprint-probe";
      record_fingerprint = r.record_fingerprint;
      byte_length = 1;
    })
      ≡ true
unfolding ref_valid is_short
probe-valid r e = ground arith

module _ (core : CompositionCore) (json : StoredValue → String) ⦃head_digest : Digest JobFacts⦄
    ⦃pin_digest : Digest PinFacts⦄ ⦃receipt_digest : Digest ReceiptFacts⦄ where
  -- What a retained record is to all later calls.
  pub record IsRetained (u : Repository) (r : ContentRef) (v : StoredValue) : Type 0 where
    pub reads :
        read_immutable core json u r.job_id r.record_id ≡ found (record { ref = r; value = v })
    pub by_fingerprint :
        read_by_fingerprint core json u r.job_id r.kind r.record_fingerprint
        ≡ found (record { ref = r; value = v })
    pub replays : put_immutable core json u r v ≡ (u, put_replay r)
    pub conflicts :
        (q : ContentRef) (w : StoredValue)
        → pair_key q.job_id q.record_id ≡ pair_key r.job_id r.record_id
        → (same_ref r q && json v == json w) ≡ false
        → (put_immutable core json u q w ≡ (u, put_conflict))
          ⊎ (put_immutable core json u q w ≡ (u, put_invalid))

  put_written-Puts :
      (s : Repository) (r : ContentRef) (v : StoredValue)
      → (put_immutable core json s r v).1 ≡ put_written r
      → ((put_immutable core json s r v).0 ≡ with_immutable s r v) × Puts core json s r v
  put_written-Puts s r v e = elim (put_immutable-cases core json s r v) [
    | inl (same, not_written) ↦ absurd (not_written r e)
    | inr (made, p) ↦ (ap (λ (z : Repository × PutResult). z.0) made, p)
  ]

  -- A reference under a key that holds a record.
  put_held :
      (u : Repository) (i : Immutable) (q : ContentRef) (w : StoredValue)
      → u.immutable.get (pair_key q.job_id q.record_id) ≡ some i
      → (same_ref i.ref q && json i.value == json w) ≡ false
      → (put_immutable core json u q w ≡ (u, put_conflict))
        ⊎ (put_immutable core json u q w ≡ (u, put_invalid))
  unfolding put_immutable
  put_held u i q w held other = elim (Bool-cases (ref_valid q)) [
    | inr t ↦ inr (rw (t, put_immutable) refl)
    | inl t ↦ elim (Bool-cases (same_text (value_fingerprint w) (some q.record_fingerprint))) [
      | inr y ↦ inr (rw (t, y, put_immutable) refl)
      | inl y ↦ elim (Bool-cases (byte_length_of (json w) == q.byte_length)) [
        | inr z ↦ inr (rw (t, y, z, put_immutable) refl)
        | inl z ↦ inl (
            rw (t, y, z, put_immutable)
              (ap (put_at core json u q w) held ∙ rw (other, put_at) refl))
      ]
    ]
  ]

  put_same :
      (u : Repository) (r : ContentRef) (v : StoredValue)
      → u.immutable.get (pair_key r.job_id r.record_id) ≡ some (record { ref = r; value = v })
      → ref_valid r ≡ true
      → value_fingerprint v ≡ some r.record_fingerprint
      → byte_length_of (json v) ≡ r.byte_length
      → put_immutable core json u r v ≡ (u, put_replay r)
  unfolding put_immutable put_at
  put_same u r v held valid names bytes =
      let a : same_text (value_fingerprint v) (some r.record_fingerprint) ≡ true =
        (same_text_iff _ _).1 names in
      let b : (byte_length_of (json v) == r.byte_length) ≡ true =
        rw bytes (beq_refl r.byte_length) in
      let c : (same_ref r r && json v == json v) ≡ true =
        rw (same_ref_refl r) (beq_refl (json v)) in
      rw (valid, a, b, put_immutable) (ap (put_at core json u r v) held ∙ rw (c, put_at) refl)

  -- A record that is held under its key and named in the index.
  held-IsRetained :
      (u : Repository) (r : ContentRef) (v : StoredValue)
      → u.immutable.get (pair_key r.job_id r.record_id) ≡ some (record { ref = r; value = v })
      → u.fingerprints.get (fingerprint_key r.job_id r.kind r.record_fingerprint)
        ≡ some (pair_key r.job_id r.record_id)
      → ref_valid r ≡ true
      → value_fingerprint v ≡ some r.record_fingerprint
      → byte_length_of (json v) ≡ r.byte_length
      → IsRetained u r v
  unfolding read_immutable read_by_fingerprint
  held-IsRetained u r v held named valid names bytes =
      let t = ref_tests r valid in
      let exact : (r.job_id == r.job_id
            && kind_beq r.kind r.kind
            && r.record_fingerprint == r.record_fingerprint)
          ≡ true =
        rw (beq_refl r.job_id, kind_beq_refl r.kind) (beq_refl r.record_fingerprint) in
      record {
        reads =
            rw (short-nonempty r.job_id t.job, short-nonempty r.record_id t.id, read_immutable)
              (ap (read_of core json) held);
        by_fingerprint =
            rw (probe-valid r valid, read_by_fingerprint)
              (ap (read_indexed core json u r.job_id r.kind r.record_fingerprint) named
                ∙ ap (indexed core json r.job_id r.kind r.record_fingerprint) held
                ∙ rw (exact, indexed) refl);
        replays = put_same u r v held valid names bytes;
        conflicts = λ q w key other.
            put_held u (record { ref = r; value = v }) q w (ap u.immutable.get key ∙ held) other;
      }

  -- Once a record is retained, and after any later calls, it is read by its ids and by its
  -- fingerprint, it replays when it is put again, and another record under the same key is refused and
  -- changes nothing.
  pub written-IsRetained :
      (s : Repository) (r : ContentRef) (v : StoredValue) (cs : List Call)
      → (put_immutable core json s r v).1 ≡ put_written r
      → IsRetained (run_all core json (put_immutable core json s r v).0 cs) r v
  written-IsRetained s r v cs e =
      let (made, p) = put_written-Puts s r v e in
      let s' = (put_immutable core json s r v).0 in
      let key = pair_key r.job_id r.record_id in
      let keeps = run_all-KeepsAll core json cs s' in
      held-IsRetained (run_all core json s' cs) r v
        (keeps.immutable key _
          (ap (λ (z : Repository). z.immutable.get key) made ∙ get-set_self s.immutable key _))
        (keeps.fingerprints _ key (
          ap
            (λ (z : Repository).
              z.fingerprints.get (fingerprint_key r.job_id r.kind r.record_fingerprint))
            made
          ∙ get-set_self s.fingerprints _ key))
        p.valid p.names p.bytes
