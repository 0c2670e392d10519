-- ===== src/Composition/ChainReader/Ends.antt =====
-- The reader of composition/compositionSchedulerChainReader.ts ends.

use flowdoc_vnext_backend.Common.{
  ℕ, zero, suc, ◌+◌, ◌≤◌, String, ◌≡◌, refl, ap, false, ◌||◌, Option, none, some, List, [], ◌∷◌,
  ltb, text_eq, arith, Bool-cases, ◌⊎◌, inl, inr,
}
use flowdoc_vnext_backend.PdfExport.Issue.{Digest}
use flowdoc_vnext_backend.Composition.Core.{Manifest, CompositionCore}
use flowdoc_vnext_backend.Composition.SourcePin.{ContentRef, PinFacts, SourcePin}
use flowdoc_vnext_backend.Composition.JobHead.{JobFacts, JobHead}
use flowdoc_vnext_backend.Composition.Transition.{
  ChunkFacts, PageChunk, ReceiptFacts, Receipt, count_all,
}
use flowdoc_vnext_backend.Composition.Repository.{StoredValue, Repository}
use flowdoc_vnext_backend.Composition.ChainReader.{
  LoadResult, checked_chunks, checked_of, covered_of, read_chunk_by, read_receipt_by,
  load_page_chunks, load_receipts, chain_result, load_chain,
}
use flowdoc_vnext_backend.Composition.ChainReader.Walk.{
  Walked, Turn, broken, read_one, turn, has, push, walk,
}

pub Turn-cases :
    {A : Type 0} (x : Turn A) → (x ≡ broken) ⊎ ((a : A) × (r : ContentRef) × (x ≡ read_one a r))
Turn-cases broken = inl refl
Turn-cases (read_one a r) = inr (a, r, refl)

turn-within :
    {A : Type 0} (read : String → Option (A × ContentRef)) (limit : ℕ) (t : String)
    (seen : List String) (items : List A) (a : A) (r : ContentRef)
    → turn read limit t seen items ≡ read_one a r
    → count_all items ≤ limit
unfolding turn
turn-within read limit t seen items a r e =
    elim (Bool-cases (has seen t || ltb limit (count_all items))) [
      | inl u ↦ cc (rw (u, turn) at e)
      | inr u ↦ ground arith
    ]

-- The loop ends within as many turns as the limit has room for, and one to break it.
walk_ends :
    {A : Type 0} (read : String → Option (A × ContentRef)) (previous : A → Option String)
    (limit fuel : ℕ) (o : Option String) (seen : List String) (items : List A)
    (refs : List ContentRef)
    → count_all items ≤ limit + 1
    → limit + 2 ≤ fuel + count_all items
    → (w : Walked A) × (walk read previous limit fuel o seen items refs ≡ some w)
unfolding walk
walk_ends read previous limit fuel none seen items refs low enough = (_, refl)
walk_ends read previous limit zero (some t) seen items refs low enough =
    absurd (omega (arith, low, enough))
walk_ends read previous limit (suc fuel) (some t) seen items refs low enough =
    elim (Turn-cases (turn read limit t seen items)) [
      | inl e ↦ rw (e, walk) (record { items = items; refs = refs; clean = false }, refl)
      | inr (a, r, e) ↦
          let within = turn-within read limit t seen items a r e in
          rw (e, walk)
            (walk_ends read previous limit fuel (previous a) (t ∷ seen) (a ∷ items) (push refs r)
              (omega (arith, within)) (omega (arith, enough)))
    ]

module _ (core : CompositionCore) (parse_window : StoredValue → Option String)
    (json : StoredValue → String) ⦃head_digest : Digest JobFacts⦄ ⦃pin_digest : Digest PinFacts⦄
    ⦃chunk_digest : Digest ChunkFacts⦄ ⦃receipt_digest : Digest ReceiptFacts⦄ (s : Repository)
    (pin : SourcePin) (m : Manifest) (h : JobHead) where
  pages_end :
      (w : Walked PageChunk) × (load_page_chunks core parse_window json s pin m h
          (h.chain.page_count + 2)
        ≡ some w)
  unfolding load_page_chunks
  pages_end =
      let (w, e) =
        walk_ends (read_chunk_by core parse_window json s pin m h)
          (λ (c : PageChunk). c.previous_chunk) h.chain.page_count (h.chain.page_count + 2)
          h.chain.closed_page_chunk_tip [] [] [] (omega arith) (omega arith) in
      (checked_chunks h w, ap (checked_of core parse_window json s pin m h) e)

  receipts_end :
      (chunks : List PageChunk)
      → (w : Walked Receipt) × (load_receipts core parse_window json s pin m h
            (h.transition_number + 2)
            chunks
          ≡ some w)
  unfolding load_receipts
  receipts_end chunks =
      let (w, e) =
        walk_ends (read_receipt_by core parse_window json s pin m h)
          (λ (r : Receipt). r.previous_receipt) h.transition_number (h.transition_number + 2)
          h.chain.transition_receipt_tip [] [] [] (omega arith) (omega arith) in
      (_, ap (covered_of core parse_window json s pin m h chunks) e)

  -- Whatever is in the repository, cycles included: for every head, the fuel of two turns more than the
  -- page count and of two more than the transition number is enough, and the reader has a result.
  pub load_chain_ends : (r : LoadResult) × (load_chain core parse_window json s pin m h ≡ some r)
  unfolding load_chain
  load_chain_ends =
      let (pages, e) = pages_end in
      let (receipts, f) = receipts_end pages.items in
      (chain_result core parse_window json s pin m h pages receipts, rw (e, f) refl)
