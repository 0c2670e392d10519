-- ===== src/Composition/ChainReader/Chunks.antt =====
-- The chunks that the reader of composition/compositionSchedulerChainReader.ts has loaded: their pages
-- are those of the head's chain.
use mathlib.Core.Path.{subst}
use flowdoc_vnext_backend.Common.{
  ℕ, zero, suc, String, ◌≡◌, refl, sym, ap, ◌∙◌, true, false, ◌&&◌, ◌||◌, Option, none, some, List,
  [], ◌∷◌, ltb, ◌==◌, text_eq, number_eq, arith, Bool-cases, Option-cases, inl, inr,
}
use flowdoc_vnext_backend.PdfExport.Issue.{Digest}
use flowdoc_vnext_backend.Composition.Core.{Manifest, ClosedPage, CompositionCore}
use flowdoc_vnext_backend.Composition.SourcePin.{ContentRef, PinFacts, SourcePin}
use flowdoc_vnext_backend.Composition.JobHead.{JobFacts, JobHead, Chain}
use flowdoc_vnext_backend.Composition.JobHead.Validity.Conditions.{same_text_iff}
use flowdoc_vnext_backend.Composition.Transition.{
  ChunkFacts, PageChunk, ReceiptFacts, count_all, Running, after_page, after_pages,
}
use flowdoc_vnext_backend.Composition.Repository.{
  StoredValue, receipt_value, chunk_value, other_value, Immutable, Repository, Read, found, missing,
  unreadable,
}
use flowdoc_vnext_backend.Composition.ChainReader.{
  ChainRunning, chain_start, after_chunks, chunks_continue, ends_at, pages_of, count_placements,
  count_headings, checked_chunks, parse_chunk_value, exact_chunk, chunk_found, read_chunk_by,
  load_page_chunks,
}
use flowdoc_vnext_backend.Composition.ChainReader.Walk.{Walked, read_one, turn, has, push, walk}
use flowdoc_vnext_backend.Composition.ChainReader.Ends.{Turn-cases}
use flowdoc_vnext_backend.Composition.ChainReader.Pages.{
  ArePages, pages_continue-ArePages, after_pages-counts, Every, IsChained, chunks-join,
  parse_chunk-IsChained,
}

turn-reads :
    {A : Type 0} (read : String → Option (A × ContentRef)) (limit : ℕ) (t : String)
    (seen : List String) (items : List A) (a : A) (r : ContentRef)
    → turn read limit t seen items ≡ read_one a r
    → read t ≡ some (a, r)
unfolding turn
turn-reads read limit t seen items a r e =
    elim (Bool-cases (has seen t || ltb limit (count_all items))) [
      | inl u ↦ cc (rw (u, turn) at e)
      | inr u ↦ elim (Option-cases (read t)) [
        | inl v ↦ cc (rw (u, v, turn) at e)
        | inr ((b, q), v) ↦
            let same : read_one b q ≡ read_one a r = rw (u, v, turn) at e in
            let first : b ≡ a = cc same in
            let second : q ≡ r = cc same in v ∙ (λ i. some (first i, second i))
      ]
    ]

-- What is true of all that can be read is true of all that a loop has read.
pub walk-Every :
    {A : Type 0} (P : A → Type 0) (read : String → Option (A × ContentRef))
    (previous : A → Option String) (limit fuel : ℕ) (o : Option String) (seen : List String)
    (items : List A) (refs : List ContentRef) (w : Walked A)
    → ((t : String) (a : A) (r : ContentRef) → read t ≡ some (a, r) → P a)
    → Every P items
    → walk read previous limit fuel o seen items refs ≡ some w
    → Every P w.items
unfolding walk
walk-Every P read previous limit fuel none seen items refs w each all e =
    let same : record { items = items; refs = refs; clean = true } ≡ w = cc e in
    subst (λ (z : Walked _). Every P z.items) same all
walk-Every P read previous limit zero (some t) seen items refs w each all e = cc e
walk-Every P read previous limit (suc fuel) (some t) seen items refs w each all e =
    elim (Turn-cases (turn read limit t seen items)) [
      | inl u ↦
          let same : record { items = items; refs = refs; clean = false } ≡ w =
            cc (rw (u, walk) at e) in
          subst (λ (z : Walked _). Every P z.items) same all
      | inr (a, r, u) ↦
          walk-Every P read previous limit fuel (previous a) (t ∷ seen) (a ∷ items) (push refs r) w
            each (each t a r (turn-reads read limit t seen items a r u), all) (rw (u, walk) at e)
    ]

-- The prefix after some pages.
abbrev pub prefix_after : Option String → List ClosedPage → Option String
prefix_after o [] = o
prefix_after o (p ∷ ps) = prefix_after (some p.prefix) ps

after_pages-prefix :
    (r : Running) (ps : List ClosedPage) → (after_pages r ps).prefix ≡ prefix_after r.prefix ps
unfolding after_pages after_page
after_pages-prefix r [] = refl
after_pages-prefix r (p ∷ ps) = after_pages-prefix (after_page r p) ps

-- What the end of the chunks at the head says of the running counts.
record EndsAt (r : Running) (k : Chain) : Type 0 where
  prefix : r.prefix ≡ k.closed_page_prefix
  pages : r.pages ≡ k.page_count
  placements : r.placements ≡ k.placement_count
  headings : r.headings ≡ k.heading_count

ends_at-EndsAt : (r : ChainRunning) (k : Chain) → ends_at r k ≡ true → EndsAt r.at k
unfolding ends_at
ends_at-EndsAt r k e = record {
  prefix = (same_text_iff r.at.prefix k.closed_page_prefix).0 (ground arith);
  pages = ground arith;
  placements = ground arith;
  headings = ground arith;
}

-- The pages of a whole chain.
pub record PagesFit (k : Chain) (ps : List ClosedPage) : Type 0 where
  pub pages : ArePages chain_start.at ps
  pub page_count : count_all ps ≡ k.page_count
  pub placements : count_placements ps ≡ k.placement_count
  pub headings : count_headings ps ≡ k.heading_count
  pub last_prefix : prefix_after none ps ≡ k.closed_page_prefix

pub pages-PagesFit :
    (k : Chain) (cs : List PageChunk)
    → Every IsChained cs
    → chunks_continue chain_start cs ≡ true
    → ends_at (after_chunks chain_start cs) k ≡ true
    → PagesFit k (pages_of cs)
pages-PagesFit k cs chained continues ends =
    let (joined, last) = chunks-join chain_start cs chained continues in
    let (a, b, d) = after_pages-counts chain_start.at (pages_of cs) in
    let e =
      subst (λ (z : Running). EndsAt z k) (sym last)
        (ends_at-EndsAt (after_chunks chain_start cs) k ends) in
    record {
      pages = pages_continue-ArePages chain_start.at (pages_of cs) joined;
      page_count = omega (arith, a, e.pages);
      placements = omega (arith, b, e.placements);
      headings = omega (arith, d, e.headings);
      last_prefix = sym (after_pages-prefix chain_start.at (pages_of cs)) ∙ e.prefix;
    }

module _ (core : CompositionCore) (parse_window : StoredValue → Option String)
    (json : StoredValue → String) ⦃head_digest : Digest JobFacts⦄ ⦃pin_digest : Digest PinFacts⦄
    ⦃chunk_digest : Digest ChunkFacts⦄ ⦃receipt_digest : Digest ReceiptFacts⦄ (s : Repository)
    (pin : SourcePin) (m : Manifest) (h : JobHead) where
  exact_chunk-inverse :
      (t : String) (q : ContentRef) (o : Option PageChunk) (c : PageChunk) (r : ContentRef)
      → exact_chunk core parse_window json s pin m h t q o ≡ some (c, r)
      → o ≡ some c
  unfolding exact_chunk
  exact_chunk-inverse t q none c r e = cc e
  exact_chunk-inverse t q (some d) c r e =
      elim (Bool-cases (d.fingerprint == t && q.record_fingerprint == t)) [
        | inr u ↦ cc (rw (u, exact_chunk) at e)
        | inl u ↦
            let same : ◌≡◌ {A = Option (PageChunk × ContentRef)} (some (d, q)) (some (c, r)) =
              rw (u, exact_chunk) at e in
            cc same
      ]

  value-IsChained :
      (v : StoredValue) (c : PageChunk)
      → parse_chunk_value core parse_window json s pin m h v ≡ some c
      → IsChained c
  value-IsChained (chunk_value k) c e = parse_chunk-IsChained core pin m k c e
  value-IsChained (receipt_value r) c e = cc e
  value-IsChained (other_value f rest) c e = cc e

  found-IsChained :
      (t : String) (o : Read Immutable) (c : PageChunk) (r : ContentRef)
      → chunk_found core parse_window json s pin m h t o ≡ some (c, r)
      → IsChained c
  unfolding chunk_found
  found-IsChained t missing c r e = cc e
  found-IsChained t unreadable c r e = cc e
  found-IsChained t (found i) c r e =
      value-IsChained i.value c (exact_chunk-inverse t i.ref _ c r e)

  read-IsChained :
      (t : String) (c : PageChunk) (r : ContentRef)
      → read_chunk_by core parse_window json s pin m h t ≡ some (c, r)
      → IsChained c
  unfolding read_chunk_by
  read-IsChained t c r e = found-IsChained t _ c r e

  -- What chunks without a fault are.
  pub record ChunksFit (w : Walked PageChunk) : Type 0 where
    pub chained : Every IsChained w.items
    pub continue_on : chunks_continue chain_start w.items ≡ true
    pub at_head : ends_at (after_chunks chain_start w.items) h.chain ≡ true

  pub chunks-fit :
      (fuel : ℕ) (w : Walked PageChunk)
      → load_page_chunks core parse_window json s pin m h fuel ≡ some w
      → w.clean ≡ true
      → ChunksFit w
  unfolding load_page_chunks checked_chunks
  chunks-fit fuel w e clean =
      let read = read_chunk_by core parse_window json s pin m h in
      let previous = λ (c : PageChunk). c.previous_chunk in
      let tip = h.chain.closed_page_chunk_tip in
      elim (Option-cases (walk read previous h.chain.page_count fuel tip [] [] [])) [
        | inl t ↦ cc (rw t at e)
        | inr (v, t) ↦
            let made : checked_chunks h v ≡ w = cc (rw t at e) in
            let all =
              walk-Every IsChained read previous h.chain.page_count fuel tip [] [] [] v
                read-IsChained tt t in
            let tests : (v.clean
                  && chunks_continue chain_start v.items
                  && ends_at (after_chunks chain_start v.items) h.chain)
                ≡ true =
              ap (λ (z : Walked PageChunk). z.clean) made ∙ clean in
            subst ChunksFit made
              (record { chained = all; continue_on = ground arith; at_head = ground arith })
      ]
