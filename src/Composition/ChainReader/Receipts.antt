-- ===== src/Composition/ChainReader/Receipts.antt =====
-- The receipts of a loaded chain (composition/compositionSchedulerChainReader.ts) are numbered from one,
-- each with the fingerprint of the one before.
use mathlib.Core.Path.{subst}
use flowdoc_vnext_backend.Common.{
  ℕ, ◌+◌, String, ◌≡◌, refl, ◌∙◌, true, ◌&&◌, Option, none, some, List, [], ◌∷◌, ◌==◌, text_eq,
  number_eq, arith, Bool-cases, inl, inr,
}
use flowdoc_vnext_backend.PdfExport.Issue.{Digest}
use flowdoc_vnext_backend.Composition.Core.{Manifest, CompositionCore}
use flowdoc_vnext_backend.Composition.SourcePin.{ContentRef, PinFacts, SourcePin}
use flowdoc_vnext_backend.Composition.JobHead.{JobFacts, JobHead, same_text}
use flowdoc_vnext_backend.Composition.JobHead.Validity.Conditions.{same_text_iff}
use flowdoc_vnext_backend.Composition.Transition.{ChunkFacts, PageChunk, ReceiptFacts, Receipt}
use flowdoc_vnext_backend.Composition.Repository.{StoredValue, Immutable, Repository}
use flowdoc_vnext_backend.Composition.ChainReader.{
  ReceiptRunning, window_of, with_window, chunk_referenced, with_chunk, after_receipt, each_receipt,
}

abbrev pub AreReceipts : ℕ → Option String → List Receipt → Type 0
AreReceipts n previous [] = Unit {0}
AreReceipts n previous (r ∷ rs) =
    (r.transition_number ≡ n + 1)
    × (r.previous_receipt ≡ previous)
    × AreReceipts (n + 1) (some r.fingerprint) rs

-- What the references of a receipt leave as it was; what was wrong stays wrong.
record Same (k l : ReceiptRunning) : Type 0 where
  index : l.index ≡ k.index
  previous : l.previous ≡ k.previous
  clean : l.clean ≡ true → k.clean ≡ true

Same-trans : (k l q : ReceiptRunning) → Same k l → Same l q → Same k q
Same-trans k l q a b = record {
  index = b.index ∙ a.index;
  previous = b.previous ∙ a.previous;
  clean = λ t. a.clean (b.clean t);
}

module _ (core : CompositionCore) (parse_window : StoredValue → Option String)
    (json : StoredValue → String) ⦃head_digest : Digest JobFacts⦄ ⦃pin_digest : Digest PinFacts⦄
    ⦃chunk_digest : Digest ChunkFacts⦄ ⦃receipt_digest : Digest ReceiptFacts⦄ (s : Repository)
    (pin : SourcePin) (m : Manifest) (h : JobHead) where
  window_of-Same :
      (r : ContentRef) (o : Option Immutable) (k : ReceiptRunning)
      → Same k (window_of core parse_window json s pin m h r o k)
  unfolding window_of
  window_of-Same r none k = record { index = refl; previous = refl; clean = λ t. cc t }
  window_of-Same r (some i) k =
      elim (Bool-cases (same_text (parse_window i.value) (some r.record_fingerprint))) [
        | inl t ↦ rw (t, window_of) (record { index = refl; previous = refl; clean = λ u. u })
        | inr t ↦ rw (t, window_of) (record { index = refl; previous = refl; clean = λ u. cc u })
      ]

  with_window-Same :
      (o : Option ContentRef) (k : ReceiptRunning)
      → Same k (with_window core parse_window json s pin m h o k)
  unfolding with_window
  with_window-Same none k = record { index = refl; previous = refl; clean = λ t. t }
  with_window-Same (some r) k = window_of-Same r _ k

  chunk_referenced-Same :
      (n : ℕ) (c : Option PageChunk) (o : Option Immutable) (k : ReceiptRunning)
      → Same k (chunk_referenced core parse_window json s pin m h n c o k)
  unfolding chunk_referenced
  chunk_referenced-Same n none o k = record { index = refl; previous = refl; clean = λ t. cc t }
  chunk_referenced-Same n (some c) none k = record {
    index = refl;
    previous = refl;
    clean = λ t. cc t;
  }
  chunk_referenced-Same n (some c) (some i) k = elim (Bool-cases (c.transition_number == n)) [
    | inl t ↦ rw (t, chunk_referenced) (record { index = refl; previous = refl; clean = λ u. u })
    | inr t ↦ rw (t, chunk_referenced) (record { index = refl; previous = refl; clean = λ u. cc u })
  ]

  with_chunk-Same :
      (chunks : List PageChunk) (n : ℕ) (o : Option ContentRef) (k : ReceiptRunning)
      → Same k (with_chunk core parse_window json s pin m h chunks n o k)
  unfolding with_chunk
  with_chunk-Same chunks n none k = record { index = refl; previous = refl; clean = λ t. t }
  with_chunk-Same chunks n (some r) k = chunk_referenced-Same n _ _ k

  -- Where nothing was wrong at the end, nothing was wrong before.
  pub each_receipt-AreReceipts :
      (chunks : List PageChunk) (k : ReceiptRunning) (rs : List Receipt)
      → (each_receipt core parse_window json s pin m h chunks k rs).clean ≡ true
      → (k.clean ≡ true) × AreReceipts k.index k.previous rs
  unfolding each_receipt after_receipt
  each_receipt-AreReceipts chunks k [] e = (e, tt)
  each_receipt-AreReceipts chunks k (r ∷ rs) e =
      let next = after_receipt core parse_window json s pin m h r k in
      let windowed = with_window core parse_window json s pin m h r.window_ref next in
      let done =
        with_chunk core parse_window json s pin m h chunks r.transition_number r.page_chunk_ref
          windowed in
      let same =
        Same-trans next windowed done (with_window-Same r.window_ref next)
          (with_chunk-Same chunks r.transition_number r.page_chunk_ref windowed) in
      let (clean, rest) = each_receipt-AreReceipts chunks done rs e in
      let all : (k.clean
            && r.transition_number == (k.index + 1)
            && same_text r.previous_receipt k.previous)
          ≡ true =
        same.clean clean in
      let later : AreReceipts (k.index + 1) (some r.fingerprint) rs =
        subst (λ (z : ℕ × Option String). AreReceipts z.0 z.1 rs)
          (λ i. (same.index i, same.previous i)) rest in
      (
        ground arith,
        (ground arith, (same_text_iff r.previous_receipt k.previous).0 (ground arith), later),
      )
