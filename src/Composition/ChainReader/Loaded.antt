-- ===== src/Composition/ChainReader/Loaded.antt =====
-- What the reader of composition/compositionSchedulerChainReader.ts has loaded when it is ready.
use mathlib.Core.Path.{subst}
use flowdoc_vnext_backend.Common.{
  ℕ, ◌+◌, String, ◌≡◌, refl, sym, ap, ◌∙◌, Bool, true, ◌&&◌, Option, none, some, List, [], ◌==◌,
  text_eq, number_eq, arith, Bool-cases, Option-cases, inl, inr,
}
use flowdoc_vnext_backend.PdfExport.Issue.{Digest}
use flowdoc_vnext_backend.Composition.Core.{Manifest, CompositionCore}
use flowdoc_vnext_backend.Composition.SourcePin.{PinFacts, SourcePin}
use flowdoc_vnext_backend.Composition.JobHead.{JobFacts, JobHead, same_text}
use flowdoc_vnext_backend.Composition.Transition.{
  ChunkFacts, PageChunk, ReceiptFacts, Receipt, count_all,
}
use flowdoc_vnext_backend.Composition.Repository.{StoredValue, Repository}
use flowdoc_vnext_backend.Composition.ChainReader.{
  chain_start, pages_of, count_placements, count_headings, load_page_chunks, ReceiptRunning,
  read_receipt_by, covered, terminal_matches, every_transition_referenced, receipts_cover,
  each_receipt, load_receipts, LoadedChain, ready, chain_retention, chain_result, with_receipts,
  with_pages, load_chain,
}
use flowdoc_vnext_backend.Composition.ChainReader.Walk.{Walked, walk}
use flowdoc_vnext_backend.Composition.ChainReader.Pages.{ArePages}
use flowdoc_vnext_backend.Composition.ChainReader.Receipts.{AreReceipts, each_receipt-AreReceipts}
use flowdoc_vnext_backend.Composition.ChainReader.Chunks.{
  prefix_after, PagesFit, pages-PagesFit, ChunksFit, chunks-fit,
}

both : (a b : Bool) → (a && b) ≡ true → (a ≡ true) × (b ≡ true)
both a b e = (ground arith, ground arith)

first_of_four : (a b c d : Bool) → (a && b && c && d) ≡ true → a ≡ true
first_of_four a b c d e = ground arith

covers-count :
    (h : JobHead) (chunks : List PageChunk) (rs : List Receipt) (k : ReceiptRunning)
    → receipts_cover h chunks rs k ≡ true
    → count_all rs ≡ h.transition_number
unfolding receipts_cover
covers-count h chunks rs k e =
    let first =
      first_of_four (count_all rs == h.transition_number)
        (same_text k.previous h.chain.transition_receipt_tip) (terminal_matches h rs)
        (every_transition_referenced k.referenced chunks) e in
    ground (arith, first)

module _ (core : CompositionCore) (parse_window : StoredValue → Option String)
    (json : StoredValue → String) ⦃head_digest : Digest JobFacts⦄ ⦃pin_digest : Digest PinFacts⦄
    ⦃chunk_digest : Digest ChunkFacts⦄ ⦃receipt_digest : Digest ReceiptFacts⦄ (s : Repository)
    (pin : SourcePin) (m : Manifest) (h : JobHead) where
  pub record ReceiptsFit (w : Walked Receipt) : Type 0 where
    pub numbered : AreReceipts 0 none w.items
    pub count : count_all w.items ≡ h.transition_number

  receipts-fit :
      (fuel : ℕ) (chunks : List PageChunk) (w : Walked Receipt)
      → load_receipts core parse_window json s pin m h fuel chunks ≡ some w
      → w.clean ≡ true
      → ReceiptsFit w
  unfolding load_receipts covered
  receipts-fit fuel chunks w e clean =
      let read = read_receipt_by core parse_window json s pin m h in
      let previous = λ (r : Receipt). r.previous_receipt in
      let tip = h.chain.transition_receipt_tip in
      elim (Option-cases (walk read previous h.transition_number fuel tip [] [] [])) [
        | inl t ↦ cc (rw t at e)
        | inr (v, t) ↦
            let start : ReceiptRunning = record {
              index = 0;
              previous = none;
              refs = v.refs;
              referenced = [];
              clean = v.clean;
            } in
            let k = each_receipt core parse_window json s pin m h chunks start v.items in
            let made : covered core parse_window json s pin m h chunks v k ≡ w = cc (rw t at e) in
            let tests : (k.clean && receipts_cover h chunks v.items k) ≡ true =
              ap (λ (z : Walked Receipt). z.clean) made ∙ clean in
            let (clean_k, covers) = both k.clean (receipts_cover h chunks v.items k) tests in
            let (_, all) =
              each_receipt-AreReceipts core parse_window json s pin m h chunks start v.items
                clean_k in
            subst ReceiptsFit made
              (record { numbered = all; count = covers-count h chunks v.items k covers })
      ]

  chain_result-inverse :
      (pages : Walked PageChunk) (receipts : Walked Receipt) (c : LoadedChain)
      → chain_result core parse_window json s pin m h pages receipts ≡ ready c
      → (pages.clean ≡ true)
        × (receipts.clean ≡ true)
        × (c.pages ≡ pages_of pages.items)
        × (c.receipts ≡ receipts.items)
        × (c.retention.record_count ≡ h.retention.record_count)
        × (c.retention.byte_count ≡ h.retention.byte_count)
  unfolding chain_result
  chain_result-inverse pages receipts c e =
      let kept = chain_retention core parse_window json s pin m h pages.refs receipts.refs in
      elim (Bool-cases (
        pages.clean
        && receipts.clean
        && kept.record_count == h.retention.record_count
        && kept.byte_count == h.retention.byte_count)) [
          | inr t ↦ cc (rw (t, chain_result) at e)
          | inl t ↦
              let made : record {
                pages = pages_of pages.items;
                page_chunks = pages.items;
                receipts = receipts.items;
                retention = kept;
              }
                  ≡ c =
                cc (rw (t, chain_result) at e) in
              let records : kept.record_count ≡ h.retention.record_count = ground arith in
              let bytes : kept.byte_count ≡ h.retention.byte_count = ground arith in
              (
                ground arith,
                ground arith,
                ap (λ (z : LoadedChain). z.pages) (sym made),
                ap (λ (z : LoadedChain). z.receipts) (sym made),
                ap (λ (z : LoadedChain). z.retention.record_count) (sym made) ∙ records,
                ap (λ (z : LoadedChain). z.retention.byte_count) (sym made) ∙ bytes,
              )
        ]

  with_receipts-inverse :
      (pages : Walked PageChunk) (o : Option (Walked Receipt)) (c : LoadedChain)
      → with_receipts core parse_window json s pin m h pages o ≡ some (ready c)
      → (w : Walked Receipt) × (o ≡ some w)
        × (chain_result core parse_window json s pin m h pages w ≡ ready c)
  with_receipts-inverse pages none c e = cc e
  with_receipts-inverse pages (some w) c e = (w, refl, cc e)

  with_pages-inverse :
      (o : Option (Walked PageChunk)) (c : LoadedChain)
      → with_pages core parse_window json s pin m h o ≡ some (ready c)
      → (v : Walked PageChunk) × (o ≡ some v)
        × (w : Walked Receipt) × (load_receipts core parse_window json s pin m h
              (h.transition_number + 2)
              v.items
            ≡ some w)
        × (chain_result core parse_window json s pin m h v w ≡ ready c)
  with_pages-inverse none c e = cc e
  with_pages-inverse (some v) c e =
      let (w, at, made) = with_receipts-inverse v _ c e in (v, refl, w, at, made)

  -- What a chain must be to be ready for the head.
  pub record IsLoaded (c : LoadedChain) : Type 0 where
    pub pages : ArePages chain_start.at c.pages
    pub page_count : count_all c.pages ≡ h.chain.page_count
    pub placements : count_placements c.pages ≡ h.chain.placement_count
    pub headings : count_headings c.pages ≡ h.chain.heading_count
    pub last_prefix : prefix_after none c.pages ≡ h.chain.closed_page_prefix
    pub receipts : AreReceipts 0 none c.receipts
    pub receipt_count : count_all c.receipts ≡ h.transition_number
    pub records : c.retention.record_count ≡ h.retention.record_count
    pub bytes : c.retention.byte_count ≡ h.retention.byte_count

  fits-IsLoaded :
      (v : Walked PageChunk) (w : Walked Receipt) (c : LoadedChain)
      → ChunksFit core parse_window json s pin m h v
      → ReceiptsFit w
      → c.pages ≡ pages_of v.items
      → c.receipts ≡ w.items
      → c.retention.record_count ≡ h.retention.record_count
      → c.retention.byte_count ≡ h.retention.byte_count
      → IsLoaded c
  fits-IsLoaded v w c a b pages receipts records bytes =
      let p =
        subst (PagesFit h.chain) (sym pages)
          (pages-PagesFit h.chain v.items a.chained a.continue_on a.at_head) in
      record {
        pages = p.pages;
        page_count = p.page_count;
        placements = p.placements;
        headings = p.headings;
        last_prefix = p.last_prefix;
        receipts = subst (AreReceipts 0 none) (sym receipts) b.numbered;
        receipt_count = ap count_all receipts ∙ b.count;
        records = records;
        bytes = bytes;
      }

  -- A chain that is ready for a head: its pages, across all chunks, are numbered from the first to the
  -- page count of the head, each with the counts of the pages, the placements and the headings before it
  -- and the prefix of the one before, with the head's counts and prefix at the end; its receipts are
  -- numbered from one to the transition number of the head, each with the fingerprint of the one before;
  -- and what it retains is the retention of the head.
  pub ready-IsLoaded :
      (c : LoadedChain) → load_chain core parse_window json s pin m h ≡ some (ready c) → IsLoaded c
  unfolding load_chain
  ready-IsLoaded c e =
      let (v, at_v, w, at_w, made) =
        with_pages-inverse
          (load_page_chunks core parse_window json s pin m h (h.chain.page_count + 2)) c e in
      let (clean_v, clean_w, pages, receipts, records, bytes) = chain_result-inverse v w c made in
      fits-IsLoaded v w c
        (chunks-fit core parse_window json s pin m h (h.chain.page_count + 2) v at_v clean_v)
        (receipts-fit (h.transition_number + 2) v.items w at_w clean_w) pages receipts records bytes
