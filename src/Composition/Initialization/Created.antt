-- ===== src/Composition/Initialization/Created.antt =====
-- What a creation of a head that answers with a head has stored
-- (composition/compositionSchedulerRepository.ts, createHead).
use mathlib.Core.Path.{subst}
use text.Mathlib.TextEquality.{eq_iff}
use text.Mathlib.Text.{starts_with}
use flowdoc_vnext_backend.Common.{
  String, ◌≡◌, refl, ap, ◌⊎◌, inl, inr, not, ◌||◌, Option, none, some, ◌==◌, text_eq, number_eq,
  Bool-cases,
}
use flowdoc_vnext_backend.Common.Dict.{get-set_self}
use flowdoc_vnext_backend.PdfExport.Issue.{Digest}
use flowdoc_vnext_backend.Composition.Core.{Manifest, CompositionCore}
use flowdoc_vnext_backend.Composition.SourcePin.{PinFacts, SourcePin, parse_pin}
use flowdoc_vnext_backend.Composition.JobHead.{JobFacts, JobHead, parse_head}
use flowdoc_vnext_backend.Composition.Transition.{ReceiptFacts}
use flowdoc_vnext_backend.Composition.Repository.{
  StoredValue, StoredHead, Repository, CreateInput, CreateResult, created, create_replay,
  create_conflict, create_invalid, create_new, create_parsed, create_owned, create_head,
}
use flowdoc_vnext_backend.Composition.Repository.Soundness.{parse_pin-inverse}

-- A job is stored with a head, as it was created under an id for a fingerprint.
pub record IsCreated (s : Repository) (job id text : String) (h : JobHead) : Type 0 where
  pub stored : StoredHead
  pub held : s.heads.get job ≡ some stored
  pub same_head : stored.head ≡ h
  pub same_id : stored.create_request_id ≡ id
  pub same_fingerprint : stored.create_request_fingerprint ≡ text

-- An answer with a head.
abbrev pub Answers : CreateResult → JobHead → Type 0
Answers o h = (o ≡ created h) ⊎ (o ≡ create_replay h)

invalid-no_answer : (h : JobHead) → Answers create_invalid h → ⊥
invalid-no_answer h (inl e) = cc e
invalid-no_answer h (inr e) = cc e

conflict-no_answer : (h : JobHead) → Answers create_conflict h → ⊥
conflict-no_answer h (inl e) = cc e
conflict-no_answer h (inr e) = cc e

created-head : (h k : JobHead) → Answers (created h) k → h ≡ k
created-head h k (inl e) = cc e
created-head h k (inr e) = cc e

replay-head : (h k : JobHead) → Answers (create_replay h) k → h ≡ k
replay-head h k (inl e) = cc e
replay-head h k (inr e) = cc e

module _ (core : CompositionCore) (json : StoredValue → String) ⦃head_digest : Digest JobFacts⦄
    ⦃pin_digest : Digest PinFacts⦄ ⦃receipt_digest : Digest ReceiptFacts⦄ where
  create_new-IsCreated :
      (s : Repository) (r : CreateInput) (pin : SourcePin) (m : Manifest) (h k : JobHead)
      (o : Option StoredHead)
      → s.heads.get pin.job_id ≡ o
      → Answers (create_new core json s r pin m h o).1 k
      → IsCreated
          (create_new core json s r pin m h o).0
          pin.job_id
          r.create_request_id
          r.request_fingerprint
          k
  unfolding create_new
  create_new-IsCreated s r pin m h k none held e = record {
    stored = _;
    held = get-set_self s.heads _ _;
    same_head = created-head h k e;
    same_id = refl;
    same_fingerprint = refl;
  }
  create_new-IsCreated s r pin m h k (some x) held e =
      elim (Bool-cases (x.create_request_id == r.create_request_id)) [
        | inr t ↦ absurd (conflict-no_answer k (rw (t, create_new) at e))
        | inl t ↦ elim (Bool-cases (x.create_request_fingerprint == r.request_fingerprint)) [
          | inr u ↦ absurd (conflict-no_answer k (rw (t, u, create_new) at e))
          | inl u ↦
              rw (t, u, create_new)
                (record {
                  stored = x;
                  held = held;
                  same_head = replay-head x.head k (rw (t, u, create_new) at e);
                  same_id = (eq_iff x.create_request_id r.create_request_id).0 t;
                  same_fingerprint =
                      (eq_iff x.create_request_fingerprint r.request_fingerprint).0 u;
                })
        ]
      ]

  create_parsed-IsCreated :
      (s : Repository) (r : CreateInput) (pin : SourcePin) (m : Manifest) (o : Option JobHead)
      (k : JobHead)
      → Answers (create_parsed core json s r pin m o).1 k
      → IsCreated
          (create_parsed core json s r pin m o).0
          pin.job_id
          r.create_request_id
          r.request_fingerprint
          k
  unfolding create_parsed
  create_parsed-IsCreated s r pin m none k e = absurd (invalid-no_answer k e)
  create_parsed-IsCreated s r pin m (some h) k e =
      elim (Bool-cases (
        not (h.head_revision == 0)
        || not (h.transition_number == 0)
        || r.create_request_id == ""
        || not (starts_with r.request_fingerprint "sha256:"))) [
          | inl t ↦ absurd (invalid-no_answer k (rw (t, create_parsed) at e))
          | inr t ↦
              rw (t, create_parsed)
                (create_new-IsCreated s r pin m h k _ refl (rw (t, create_parsed) at e))
        ]

  create_owned-IsCreated :
      (s : Repository) (r : CreateInput) (o : Option SourcePin) (n : Option Manifest) (k : JobHead)
      → parse_pin r.pin ≡ o
      → Answers (create_owned core json s r o n).1 k
      → IsCreated
          (create_owned core json s r o n).0
          r.pin.job_id
          r.create_request_id
          r.request_fingerprint
          k
  unfolding create_owned
  create_owned-IsCreated s r none n k at e = absurd (invalid-no_answer k e)
  create_owned-IsCreated s r (some pin) none k at e = absurd (invalid-no_answer k e)
  create_owned-IsCreated s r (some pin) (some m) k at e =
      let same = (parse_pin-inverse r.pin pin at).0 in
      let done = (create_parsed core json s r pin m (parse_head core pin m r.head)).0 in
      subst (λ (job : String). IsCreated done job r.create_request_id r.request_fingerprint k)
        (ap (λ (z : SourcePin). z.job_id) same)
        (create_parsed-IsCreated s r pin m (parse_head core pin m r.head) k e)

  pub create_head-IsCreated :
      (s : Repository) (r : CreateInput) (k : JobHead)
      → Answers (create_head core json s r).1 k
      → IsCreated
          (create_head core json s r).0
          r.pin.job_id
          r.create_request_id
          r.request_fingerprint
          k
  unfolding create_head
  create_head-IsCreated s r k e =
      create_owned-IsCreated s r (parse_pin r.pin) (core.parse_manifest r.manifest) k refl e
