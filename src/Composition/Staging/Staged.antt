-- ===== src/Composition/Staging/Staged.antt =====
-- What has been staged (composition/compositionSchedulerImmutableStaging.ts) is retained.
use text.Mathlib.TextEquality.{eq_iff}
use mathlib.Core.Path.{subst}
use flowdoc_vnext_backend.Common.{
  ℕ, ◌+◌, String, ◌≡◌, ◌≢◌, refl, sym, ap, ◌∙◌, ◌⊎◌, inl, inr, true, not, ◌&&◌, ◌||◌, Option, none,
  some, List, [], ◌∷◌, ◌==◌, text_eq, number_eq, Bool-cases, ltb,
}
use flowdoc_vnext_backend.Common.Dict.{get-set_self}
use flowdoc_vnext_backend.Common.Text.{byte_length_of}
use flowdoc_vnext_backend.PdfExport.Issue.{Digest}
use flowdoc_vnext_backend.Composition.Core.{CompositionCore}
use flowdoc_vnext_backend.Composition.SourcePin.{ContentRef, ref_valid, PinFacts}
use flowdoc_vnext_backend.Composition.JobHead.{JobFacts, is_some, same_text}
use flowdoc_vnext_backend.Composition.Transition.{ReceiptFacts, count_all}
use flowdoc_vnext_backend.Composition.Repository.{
  StoredValue, value_fingerprint, Immutable, Repository, pair_key, same_ref, PutResult, put_written,
  put_replay, put_conflict, put_invalid, put_new, put_at, put_immutable,
}
use flowdoc_vnext_backend.Composition.Repository.Swap.{Call, put_call, after, run_all}
use flowdoc_vnext_backend.Composition.Repository.Changes.{put_immutable-cases}
use flowdoc_vnext_backend.Composition.Repository.Settled.{same_ref_refl}
use flowdoc_vnext_backend.Composition.Repository.Keeping.{
  Keeps, Keeps-self, Keeps-trans, after-Keeps, run_all-KeepsAll,
}
use flowdoc_vnext_backend.Composition.Staging.{
  ToStage, StageResult, staged, put_nth, stage_each, stage_batch, max_batch_records,
}
use flowdoc_vnext_backend.Composition.ChainReader.Walk.{push}
use flowdoc_vnext_backend.Composition.ChainReader.Pages.{Every}

-- A record is retained, with the same reference and the same JSON.
abbrev pub IsHeld : (StoredValue → String) → Repository → ToStage → Type 0
IsHeld json u x =
    (i : Immutable) × (u.immutable.get (pair_key x.ref.job_id x.ref.record_id) ≡ some i)
    × (same_ref i.ref x.ref ≡ true)
    × (json i.value ≡ json x.value)

-- The four answers of a put.
data PutCase (o : PutResult) : Type 0 where
  was_written : (r : ContentRef) → o ≡ put_written r → PutCase o
  was_replay : (r : ContentRef) → o ≡ put_replay r → PutCase o
  was_conflict : o ≡ put_conflict → PutCase o
  was_invalid : o ≡ put_invalid → PutCase o

PutResult-PutCase : (o : PutResult) → PutCase o
PutResult-PutCase (put_written r) = was_written r refl
PutResult-PutCase (put_replay r) = was_replay r refl
PutResult-PutCase put_conflict = was_conflict refl
PutResult-PutCase put_invalid = was_invalid refl

module _ (core : CompositionCore) (json : StoredValue → String) ⦃head_digest : Digest JobFacts⦄
    ⦃pin_digest : Digest PinFacts⦄ ⦃receipt_digest : Digest ReceiptFacts⦄ where
  put_new-not_replay :
      (s : Repository) (r : ContentRef) (v : StoredValue) (o : Option String) (q : ContentRef)
      → (put_new core json s r v o).1 ≢ put_replay q
  unfolding put_new
  put_new-not_replay s r v o q e =
      elim (Bool-cases (is_some o && not (same_text o (some (pair_key r.job_id r.record_id))))) [
        | inl t ↦ cc (rw (t, put_new) at e)
        | inr t ↦ cc (rw (t, put_new) at e)
      ]

  put_at-replay :
      (s : Repository) (r : ContentRef) (v : StoredValue) (o : Option Immutable) (q : ContentRef)
      → (put_at core json s r v o).1 ≡ put_replay q
      → (i : Immutable) × (o ≡ some i) × (same_ref i.ref r ≡ true) × (json i.value ≡ json v)
  unfolding put_at
  put_at-replay s r v none q e = absurd (put_new-not_replay s r v _ q e)
  put_at-replay s r v (some i) q e = elim (Bool-cases (same_ref i.ref r)) [
    | inr t ↦ cc (rw (t, put_at) at e)
    | inl t ↦ elim (Bool-cases (json i.value == json v)) [
      | inr u ↦ cc (rw (t, u, put_at) at e)
      | inl u ↦ (i, refl, t, (eq_iff (json i.value) (json v)).0 u)
    ]
  ]

  put_replay-IsHeld :
      (s : Repository) (r : ContentRef) (v : StoredValue) (q : ContentRef)
      → (put_immutable core json s r v).1 ≡ put_replay q
      → IsHeld json s (record { ref = r; value = v })
  unfolding put_immutable
  put_replay-IsHeld s r v q e = elim (Bool-cases (ref_valid r)) [
    | inr t ↦ cc (rw (t, put_immutable) at e)
    | inl t ↦ elim (Bool-cases (same_text (value_fingerprint v) (some r.record_fingerprint))) [
      | inr u ↦ cc (rw (t, u, put_immutable) at e)
      | inl u ↦ elim (Bool-cases (byte_length_of (json v) == r.byte_length)) [
        | inr w ↦ cc (rw (t, u, w, put_immutable) at e)
        | inl w ↦ put_at-replay s r v _ q (rw (t, u, w, put_immutable) at e)
      ]
    ]
  ]

  put-Keeps :
      (s : Repository) (r : ContentRef) (v : StoredValue)
      → Keeps s (put_immutable core json s r v).0
  unfolding after
  put-Keeps s r v = after-Keeps core json s (put_call r v)

  pub Keeps-IsHeld :
      (s u : Repository) (x : ToStage) → Keeps s u → IsHeld json s x → IsHeld json u x
  Keeps-IsHeld s u x k (i, at, same, value) = (i, k.immutable _ i at, same, value)

  put_written-IsHeld :
      (s : Repository) (r : ContentRef) (v : StoredValue) (q : ContentRef)
      → (put_immutable core json s r v).1 ≡ put_written q
      → IsHeld json (put_immutable core json s r v).0 (record { ref = r; value = v })
  put_written-IsHeld s r v q e = elim (put_immutable-cases core json s r v) [
    | inl (same, never) ↦ absurd (never q e)
    | inr (made, p) ↦ (
      record { ref = r; value = v },
      ap (λ (z : Repository × PutResult). z.0.immutable.get (pair_key r.job_id r.record_id)) made
          ∙ get-set_self s.immutable _ _,
      same_ref_refl r,
      refl,
    )
  ]

  module _ (others : ℕ → List Call) where
    put_nth-Keeps :
        (n : ℕ) (s : Repository) (x : ToStage) → Keeps s (put_nth core json others n s x).0
    unfolding put_nth
    put_nth-Keeps n s x =
        Keeps-trans s (run_all core json s (others n)) _ (run_all-KeepsAll core json (others n) s)
          (put-Keeps _ x.ref x.value)

    put_nth-written :
        (n : ℕ) (s : Repository) (x : ToStage) (q : ContentRef)
        → (put_nth core json others n s x).1 ≡ put_written q
        → IsHeld json (put_nth core json others n s x).0 x
    unfolding put_nth
    put_nth-written n s x q e = put_written-IsHeld _ x.ref x.value q e

    put_nth-replay :
        (n : ℕ) (s : Repository) (x : ToStage) (q : ContentRef)
        → (put_nth core json others n s x).1 ≡ put_replay q
        → IsHeld json (put_nth core json others n s x).0 x
    unfolding put_nth
    put_nth-replay n s x q e =
        Keeps-IsHeld _ _ x (put-Keeps _ x.ref x.value) (put_replay-IsHeld _ x.ref x.value q e)

    -- What a staging that has an answer with references has done.
    pub record Stages (s : Repository) (xs : List ToStage) (u : Repository) : Type 0 where
      pub keeps : Keeps s u
      pub held : Every (IsHeld json u) xs

    Stages-step :
        (s t u : Repository) (x : ToStage) (xs : List ToStage)
        → Keeps s t
        → IsHeld json t x
        → Stages t xs u
        → Stages s (x ∷ xs) u
    Stages-step s t u x xs first held rest = record {
      keeps = Keeps-trans s t u first rest.keeps;
      held = (Keeps-IsHeld t u x rest.keeps held, rest.held);
    }

    stage_none :
        (n : ℕ) (s : Repository) (refs : List ContentRef) (w : ℕ)
        → stage_each core json others n s [] refs w ≡ (s, staged refs w)
    unfolding stage_each
    stage_none n s refs w = refl

    stage_written :
        (n : ℕ) (s : Repository) (x : ToStage) (xs : List ToStage) (refs : List ContentRef) (w : ℕ)
        (r : ContentRef)
        → (put_nth core json others n s x).1 ≡ put_written r
        → stage_each core json others n s (x ∷ xs) refs w
          ≡ stage_each core json others
              (n + 1)
              (put_nth core json others n s x).0
              xs
              (push refs r)
              (w + 1)
    unfolding stage_each
    stage_written n s x xs refs w r f = rw (f, stage_each) refl

    stage_replay :
        (n : ℕ) (s : Repository) (x : ToStage) (xs : List ToStage) (refs : List ContentRef) (w : ℕ)
        (r : ContentRef)
        → (put_nth core json others n s x).1 ≡ put_replay r
        → stage_each core json others n s (x ∷ xs) refs w
          ≡ stage_each core json others
              (n + 1)
              (put_nth core json others n s x).0
              xs
              (push refs r)
              w
    unfolding stage_each
    stage_replay n s x xs refs w r f = rw (f, stage_each) refl

    stage_refused :
        (n : ℕ) (s : Repository) (x : ToStage) (xs : List ToStage) (refs : List ContentRef) (w : ℕ)
        (q : List ContentRef) (k : ℕ)
        → ((put_nth core json others n s x).1 ≡ put_conflict)
          ⊎ ((put_nth core json others n s x).1 ≡ put_invalid)
        → (stage_each core json others n s (x ∷ xs) refs w).1 ≢ staged q k
    unfolding stage_each
    stage_refused n s x xs refs w q k (inl f) e = cc (rw (f, stage_each) at e)
    stage_refused n s x xs refs w q k (inr f) e = cc (rw (f, stage_each) at e)

    stage_each-Stages :
        (n : ℕ) (s : Repository) (xs : List ToStage) (refs : List ContentRef) (w : ℕ)
        (u : Repository) (q : List ContentRef) (k : ℕ)
        → stage_each core json others n s xs refs w ≡ (u, staged q k)
        → Stages s xs u
    stage_each-Stages n s [] refs w u q k e = record {
      keeps =
          subst (Keeps s)
            (ap (λ (z : Repository × StageResult). z.0) (sym (stage_none n s refs w) ∙ e))
            (Keeps-self s);
      held = tt;
    }
    stage_each-Stages n s (x ∷ xs) refs w u q k e =
        elim (PutResult-PutCase (put_nth core json others n s x).1) [
          | was_written r f ↦
              Stages-step s (put_nth core json others n s x).0 u x xs (put_nth-Keeps n s x)
                (put_nth-written n s x r f)
                (stage_each-Stages (n + 1) (put_nth core json others n s x).0 xs (push refs r)
                  (w + 1) u q k (sym (stage_written n s x xs refs w r f) ∙ e))
          | was_replay r f ↦
              Stages-step s (put_nth core json others n s x).0 u x xs (put_nth-Keeps n s x)
                (put_nth-replay n s x r f)
                (stage_each-Stages (n + 1) (put_nth core json others n s x).0 xs (push refs r) w u q
                  k (sym (stage_replay n s x xs refs w r f) ∙ e))
          | was_conflict f ↦ absurd (
              stage_refused n s x xs refs w q k (inl f)
                (ap (λ (z : Repository × StageResult). z.1) e))
          | was_invalid f ↦ absurd (
              stage_refused n s x xs refs w q k (inr f)
                (ap (λ (z : Repository × StageResult). z.1) e))
        ]

    -- A batch that is staged is retained, and nothing was lost.
    pub stage_batch-Stages :
        (s : Repository) (xs : List ToStage) (u : Repository) (q : List ContentRef) (k : ℕ)
        → stage_batch core json others s xs ≡ (u, staged q k)
        → Stages s xs u
    unfolding stage_batch
    stage_batch-Stages s xs u q k e =
        elim (Bool-cases (ltb (count_all xs) 1 || ltb max_batch_records (count_all xs))) [
          | inl t ↦ cc (ap (λ (z : Repository × StageResult). z.1) (rw (t, stage_batch) at e))
          | inr t ↦ stage_each-Stages 0 s xs [] 0 u q k (rw (t, stage_batch) at e)
        ]
