-- ===== src/Composition/Repository/Changes.antt =====
-- What a call of the composition repository may do (composition/compositionSchedulerRepository.ts).
use text.Mathlib.Text.{starts_with}
use text.Mathlib.TextEquality.{eq_iff}
use flowdoc_vnext_backend.Common.{
  ◌+◌, ◌≤◌, String, ◌≡◌, ◌≢◌, refl, sym, ◌∙◌, ◌⊎◌, inl, inr, Bool, true, false, not, ◌&&◌, ◌||◌,
  Option, none, some, ◌==◌, text_eq, number_eq, arith, Bool-cases,
}
use flowdoc_vnext_backend.Common.Dict.{set}
use flowdoc_vnext_backend.Common.Text.{byte_length_of}
use flowdoc_vnext_backend.PdfExport.Issue.{Digest}
use flowdoc_vnext_backend.Composition.Core.{Manifest, CompositionCore}
use flowdoc_vnext_backend.Composition.SourcePin.{
  ContentRef, ref_valid, PinFacts, SourcePin, parse_pin,
}
use flowdoc_vnext_backend.Composition.JobHead.{JobFacts, JobHead, same_text, parse_head}
use flowdoc_vnext_backend.Composition.JobHead.Validity.Conditions.{same_text_iff}
use flowdoc_vnext_backend.Composition.Transition.{ReceiptFacts}
use flowdoc_vnext_backend.Composition.Repository.{
  StoredValue, value_fingerprint, Immutable, StoredHead, Repository, pair_key, fingerprint_key,
  is_terminal, same_ref, put_written, created, CreateInput, put_new, put_at, put_immutable,
  create_new, create_parsed, create_owned, create_head,
}
use flowdoc_vnext_backend.Composition.Repository.Swap.{head_advances}

-- A head one revision on, of the same owners, from one that is not terminal.
pub record Advances (old new : JobHead) : Type 0 where
  pub revision : new.head_revision ≡ old.head_revision + 1
  pub not_back : old.transition_number ≤ new.transition_number
  pub at_most_one : new.transition_number ≤ old.transition_number + 1
  pub source_pin : new.source_pin_fingerprint ≡ old.source_pin_fingerprint
  pub manifest : new.manifest_fingerprint ≡ old.manifest_fingerprint
  pub live : is_terminal old.status ≡ false

pub head_advances-Advances : (old new : JobHead) → head_advances old new ≡ true → Advances old new
unfolding head_advances
head_advances-Advances old new h = ground (
  arith,
  eq_iff new.source_pin_fingerprint old.source_pin_fingerprint,
  eq_iff new.manifest_fingerprint old.manifest_fingerprint,
)

first_of :
    (h : JobHead) (b c : Bool)
    → (not (h.head_revision == 0) || not (h.transition_number == 0) || b || c) ≡ false
    → h.head_revision ≡ 0
first_of h b c e = ground arith

start_of :
    (h : JobHead) (b c : Bool)
    → (not (h.head_revision == 0) || not (h.transition_number == 0) || b || c) ≡ false
    → h.transition_number ≡ 0
start_of h b c e = ground arith

-- A record that is retained under its own key, and its name in the index of fingerprints.
abbrev pub with_immutable : Repository → ContentRef → StoredValue → Repository
with_immutable s r v = record s {
  immutable = set s.immutable (pair_key r.job_id r.record_id) (record { ref = r; value = v });
  fingerprints =
      set s.fingerprints (fingerprint_key r.job_id r.kind r.record_fingerprint)
        (pair_key r.job_id r.record_id);
}

abbrev pub with_head : Repository → CreateInput → SourcePin → Manifest → JobHead → Repository
with_head s r pin m h = record s {
  heads = set s.heads pin.job_id (record {
    pin = pin;
    manifest = m;
    head = h;
    create_request_id = r.create_request_id;
    create_request_fingerprint = r.request_fingerprint;
  });
}

module _ (core : CompositionCore) (json : StoredValue → String) ⦃head_digest : Digest JobFacts⦄
    ⦃pin_digest : Digest PinFacts⦄ ⦃receipt_digest : Digest ReceiptFacts⦄ where
  pub record Puts (s : Repository) (r : ContentRef) (v : StoredValue) : Type 0 where
    pub valid : ref_valid r ≡ true
    pub names : value_fingerprint v ≡ some r.record_fingerprint
    pub bytes : byte_length_of (json v) ≡ r.byte_length
    pub fresh : s.immutable.get (pair_key r.job_id r.record_id) ≡ none
    pub index :
        (key : String)
        → s.fingerprints.get (fingerprint_key r.job_id r.kind r.record_fingerprint) ≡ some key
        → key ≡ pair_key r.job_id r.record_id

  put_new-cases :
      (s : Repository) (r : ContentRef) (v : StoredValue) (o : Option String)
      → (((put_new core json s r v o).0 ≡ s)
          × ((q : ContentRef) → (put_new core json s r v o).1 ≢ put_written q))
        ⊎ (((put_new core json s r v o) ≡ (with_immutable s r v, put_written r))
            × ((key : String) → o ≡ some key → key ≡ pair_key r.job_id r.record_id))
  unfolding put_new
  put_new-cases s r v none = inr (refl, λ key e. cc e)
  put_new-cases s r v (some k) = elim (Bool-cases (k == pair_key r.job_id r.record_id)) [
    | inl t ↦ inr (
      rw (t, put_new) refl,
      λ key e. let one : k ≡ key = cc e in sym one ∙ (eq_iff k (pair_key r.job_id r.record_id)).0 t,
    )
    | inr t ↦ inl (rw (t, put_new) refl, λ q e. cc (rw (t, put_new) at e))
  ]

  put_at-cases :
      (s : Repository) (r : ContentRef) (v : StoredValue) (o : Option Immutable)
      → (((put_at core json s r v o).0 ≡ s)
          × ((q : ContentRef) → (put_at core json s r v o).1 ≢ put_written q))
        ⊎ ((o ≡ none)
            × (put_at core json s r v o ≡ (with_immutable s r v, put_written r))
            × ((key : String)
                → s.fingerprints.get (fingerprint_key r.job_id r.kind r.record_fingerprint)
                  ≡ some key
                → key ≡ pair_key r.job_id r.record_id))
  unfolding put_at
  put_at-cases s r v (some i) = elim (Bool-cases (same_ref i.ref r && json i.value == json v)) [
    | inl t ↦ inl (rw (t, put_at) refl, λ q e. cc (rw (t, put_at) at e))
    | inr t ↦ inl (rw (t, put_at) refl, λ q e. cc (rw (t, put_at) at e))
  ]
  put_at-cases s r v none =
      elim (put_new-cases s r v
        (s.fingerprints.get (fingerprint_key r.job_id r.kind r.record_fingerprint))) [
          | inl e ↦ inl e
          | inr (e, f) ↦ inr (refl, e, f)
        ]

  pub put_immutable-cases :
      (s : Repository) (r : ContentRef) (v : StoredValue)
      → (((put_immutable core json s r v).0 ≡ s)
          × ((q : ContentRef) → (put_immutable core json s r v).1 ≢ put_written q))
        ⊎ ((put_immutable core json s r v ≡ (with_immutable s r v, put_written r)) × Puts s r v)
  unfolding put_immutable
  put_immutable-cases s r v = elim (Bool-cases (ref_valid r)) [
    | inr t ↦ inl (rw (t, put_immutable) refl, λ q e. cc (rw (t, put_immutable) at e))
    | inl t ↦ elim (Bool-cases (same_text (value_fingerprint v) (some r.record_fingerprint))) [
      | inr u ↦ inl (rw (t, u, put_immutable) refl, λ q e. cc (rw (t, u, put_immutable) at e))
      | inl u ↦ elim (Bool-cases (byte_length_of (json v) == r.byte_length)) [
        | inr w ↦
            inl (rw (t, u, w, put_immutable) refl, λ q e. cc (rw (t, u, w, put_immutable) at e))
        | inl w ↦ elim (put_at-cases s r v (s.immutable.get (pair_key r.job_id r.record_id))) [
          | inl (e, f) ↦
              inl (rw (t, u, w, put_immutable) e, λ q g. f q (rw (t, u, w, put_immutable) at g))
          | inr (fresh, e, f) ↦ inr (
            rw (t, u, w, put_immutable) e,
            record {
              valid = t;
              names = (same_text_iff _ _).0 u;
              bytes = ground arith;
              fresh = fresh;
              index = f;
            },
          )
        ]
      ]
    ]
  ]

  pub record Creates (s : Repository) (r : CreateInput) (pin : SourcePin) (m : Manifest)
      (h : JobHead) : Type 0 where
    pub source : parse_pin r.pin ≡ some pin
    pub manifest : core.parse_manifest r.manifest ≡ some m
    pub head : parse_head core pin m r.head ≡ some h
    pub first : h.head_revision ≡ 0
    pub start : h.transition_number ≡ 0
    pub fresh : s.heads.get pin.job_id ≡ none

  create_new-cases :
      (s : Repository) (r : CreateInput) (pin : SourcePin) (m : Manifest) (h : JobHead)
      (o : Option StoredHead)
      → ((create_new core json s r pin m h o).0 ≡ s)
        ⊎ ((o ≡ none) × (create_new core json s r pin m h o ≡ (with_head s r pin m h, created h)))
  unfolding create_new
  create_new-cases s r pin m h none = inr (refl, refl)
  create_new-cases s r pin m h (some x) =
      elim (Bool-cases (
        x.create_request_id == r.create_request_id
        && x.create_request_fingerprint == r.request_fingerprint)) [
          | inl t ↦ inl (rw (t, create_new) refl)
          | inr t ↦ inl (rw (t, create_new) refl)
        ]

  create_parsed-cases :
      (s : Repository) (r : CreateInput) (pin : SourcePin) (m : Manifest) (o : Option JobHead)
      → ((create_parsed core json s r pin m o).0 ≡ s)
        ⊎ ((h : JobHead) × (o ≡ some h)
            × (h.head_revision ≡ 0)
            × (h.transition_number ≡ 0)
            × (s.heads.get pin.job_id ≡ none)
            × (create_parsed core json s r pin m o ≡ (with_head s r pin m h, created h)))
  unfolding create_parsed
  create_parsed-cases s r pin m none = inl refl
  create_parsed-cases s r pin m (some h) =
      elim (Bool-cases (
        not (h.head_revision == 0)
        || not (h.transition_number == 0)
        || r.create_request_id == ""
        || not (starts_with r.request_fingerprint "sha256:"))) [
          | inl t ↦ inl (rw (t, create_parsed) refl)
          | inr t ↦ elim (create_new-cases s r pin m h (s.heads.get pin.job_id)) [
            | inl e ↦ inl (rw (t, create_parsed) e)
            | inr (fresh, e) ↦
                inr (h, refl, first_of h _ _ t, start_of h _ _ t, fresh, rw (t, create_parsed) e)
          ]
        ]

  create_owned-cases :
      (s : Repository) (r : CreateInput) (p : Option SourcePin) (o : Option Manifest)
      → parse_pin r.pin ≡ p
      → core.parse_manifest r.manifest ≡ o
      → ((create_owned core json s r p o).0 ≡ s)
        ⊎ ((pin : SourcePin) × (m : Manifest) × (h : JobHead) × (create_owned core json s r p o
              ≡ (with_head s r pin m h, created h))
            × Creates s r pin m h)
  unfolding create_owned
  create_owned-cases s r none o ep em = inl refl
  create_owned-cases s r (some pin) none ep em = inl refl
  create_owned-cases s r (some pin) (some m) ep em =
      elim (create_parsed-cases s r pin m (parse_head core pin m r.head)) [
        | inl e ↦ inl e
        | inr (h, at, first, start, fresh, e) ↦ inr (
          pin,
          m,
          h,
          e,
          record {
            source = ep;
            manifest = em;
            head = at;
            first = first;
            start = start;
            fresh = fresh;
          },
        )
      ]

  pub create_head-cases :
      (s : Repository) (r : CreateInput)
      → ((create_head core json s r).0 ≡ s)
        ⊎ ((pin : SourcePin) × (m : Manifest) × (h : JobHead) × (create_head core json s r
              ≡ (with_head s r pin m h, created h))
            × Creates s r pin m h)
  unfolding create_head
  create_head-cases s r =
      create_owned-cases s r (parse_pin r.pin) (core.parse_manifest r.manifest) refl refl
