-- ===== src/Composition/ChainReader.antt =====
-- The reader of a job's chains of page chunks and transition receipts
-- (composition/compositionSchedulerChainReader.ts). The issues that it collects are one Boolean: whether
-- there are none.
pub mod Walk
pub mod Ends
pub mod Pages
pub mod Receipts
pub mod Chunks
pub mod Loaded
use flowdoc_vnext_backend.Common.{
  ℕ, zero, suc, ◌+◌, String, Bool, true, false, not, ◌&&◌, ◌||◌, Option, none, some, List, [], ◌∷◌,
  ◌++◌, ltb, ◌==◌, number_eq, text_eq, if◌then◌else◌,
}
use flowdoc_vnext_backend.PdfExport.Issue.{Digest}
use flowdoc_vnext_backend.Composition.Core.{Manifest, ClosedPage, CompositionCore}
use flowdoc_vnext_backend.Composition.SourcePin.{
  ContentRef, closed_page_chunk, transition_receipt, Retention, summarize, PinFacts, SourcePin,
}
use flowdoc_vnext_backend.Composition.JobHead.{JobFacts, JobHead, Chain, is_some, same_text}
use flowdoc_vnext_backend.Composition.Transition.{
  ChunkFacts, PageChunk, parse_chunk, ReceiptFacts, Receipt, parse_receipt, Running, count_all,
  count_true,
}
use flowdoc_vnext_backend.Composition.Repository.{
  StoredValue, receipt_value, chunk_value, other_value, Immutable, Repository, Read, found, missing,
  unreadable, same_ref, read_immutable, read_by_fingerprint,
}
use flowdoc_vnext_backend.Composition.ChainReader.Walk.{push, has, Walked, walk}

-- What the next chunk must continue.
pub record ChainRunning : Type 0 where
  pub previous : Option String
  pub at : Running

abbrev pub chain_start : ChainRunning
chain_start = record {
  previous = none;
  at = record { pages = 0; placements = 0; headings = 0; prefix = none };
}

unfoldable pub count_placements : List ClosedPage → ℕ
count_placements [] = 0
count_placements (p ∷ ps) = count_all p.placements + count_placements ps

unfoldable pub count_headings : List ClosedPage → ℕ
count_headings [] = 0
count_headings (p ∷ ps) = count_true p.placements + count_headings ps

unfoldable pub after_chunk : ChainRunning → PageChunk → ChainRunning
unfolding count_placements count_headings
after_chunk r c = record {
  previous = some c.fingerprint;
  at = record {
    pages = r.at.pages + count_all c.pages;
    placements = r.at.placements + count_placements c.pages;
    headings = r.at.headings + count_headings c.pages;
    prefix = some c.closed_prefix_after;
  };
}

unfoldable pub chunk_continues : ChainRunning → PageChunk → Bool
chunk_continues r c =
    same_text c.previous_chunk r.previous
    && same_text c.closed_prefix_before r.at.prefix
    && c.page_count_before == r.at.pages
    && c.placement_count_before == r.at.placements
    && c.heading_count_before == r.at.headings

unfoldable pub chunks_continue : ChainRunning → List PageChunk → Bool
unfolding chunk_continues after_chunk
chunks_continue r [] = true
chunks_continue r (c ∷ cs) = chunk_continues r c && chunks_continue (after_chunk r c) cs

unfoldable pub after_chunks : ChainRunning → List PageChunk → ChainRunning
unfolding after_chunk
after_chunks r [] = r
after_chunks r (c ∷ cs) = after_chunks (after_chunk r c) cs

-- Whether the chunks end at the chain of the head.
unfoldable pub ends_at : ChainRunning → Chain → Bool
ends_at r k =
    same_text r.previous k.closed_page_chunk_tip
    && same_text r.at.prefix k.closed_page_prefix
    && r.at.pages == k.page_count
    && r.at.placements == k.placement_count
    && r.at.headings == k.heading_count

unfoldable pub checked_chunks : JobHead → Walked PageChunk → Walked PageChunk
unfolding chunks_continue after_chunks ends_at
checked_chunks h w = record w {
  clean =
      w.clean
      && chunks_continue chain_start w.items
      && ends_at (after_chunks chain_start w.items) h.chain;
}

abbrev pub pages_of : List PageChunk → List ClosedPage
pages_of [] = []
pages_of (c ∷ cs) = c.pages ++ pages_of cs

-- The chunk of a fingerprint, the last of them as in the Map.
unfoldable pub chunk_of : List PageChunk → String → Option PageChunk
chunk_of [] t = none
chunk_of (c ∷ cs) t = elim (chunk_of cs t) [
  | some d ↦ some d
  | none ↦ if c.fingerprint == t then some c else none
]

-- What the loop over the receipts keeps.
pub record ReceiptRunning : Type 0 where
  pub index : ℕ
  pub previous : Option String
  pub refs : List ContentRef
  pub referenced : List String
  pub clean : Bool

pub record LoadedChain : Type 0 where
  pub pages : List ClosedPage
  pub page_chunks : List PageChunk
  pub receipts : List Receipt
  pub retention : Retention

pub data LoadResult : Type 0 where
  ready : LoadedChain → LoadResult
  blocked_chain : LoadResult

unfoldable pub every_transition_referenced : List String → List PageChunk → Bool
every_transition_referenced referenced [] = true
every_transition_referenced referenced (c ∷ cs) =
    (not (ltb 0 c.transition_number) || has referenced c.fingerprint)
    && every_transition_referenced referenced cs

abbrev last_cursor : List Receipt → Option String
last_cursor [] = none
last_cursor (r ∷ []) = some r.cursor_after
last_cursor (r ∷ q ∷ rs) = last_cursor (q ∷ rs)

-- terminalReceiptMatches
unfoldable pub terminal_matches : JobHead → List Receipt → Bool
terminal_matches h rs =
    if h.transition_number == 0
    then count_all rs == 0 && not (is_some h.chain.transition_receipt_tip)
    else same_text (last_cursor rs) (some h.cursor.fingerprint)

unfoldable pub receipts_cover : JobHead → List PageChunk → List Receipt → ReceiptRunning → Bool
unfolding terminal_matches every_transition_referenced
receipts_cover h chunks receipts r =
    count_all receipts == h.transition_number
    && same_text r.previous h.chain.transition_receipt_tip
    && terminal_matches h receipts
    && every_transition_referenced r.referenced chunks

-- Core's parser of family windows gives the fingerprint of what it accepts.
module _ (core : CompositionCore) (parse_window : StoredValue → Option String)
    (json : StoredValue → String) ⦃head_digest : Digest JobFacts⦄ ⦃pin_digest : Digest PinFacts⦄
    ⦃chunk_digest : Digest ChunkFacts⦄ ⦃receipt_digest : Digest ReceiptFacts⦄ (s : Repository)
    (pin : SourcePin) (m : Manifest) (h : JobHead) where
  abbrev pub parse_chunk_value : StoredValue → Option PageChunk
  parse_chunk_value (chunk_value c) = parse_chunk core pin m c
  parse_chunk_value (receipt_value r) = none
  parse_chunk_value (other_value f rest) = none

  abbrev pub parse_receipt_value : StoredValue → Option Receipt
  parse_receipt_value (receipt_value r) = parse_receipt pin m r
  parse_receipt_value (chunk_value c) = none
  parse_receipt_value (other_value f rest) = none

  -- What was parsed is of the fingerprint that was asked for, and so is its reference.
  unfoldable pub exact_chunk :
      String → ContentRef → Option PageChunk → Option (PageChunk × ContentRef)
  exact_chunk t r none = none
  exact_chunk t r (some c) =
      if c.fingerprint == t && r.record_fingerprint == t then some (c, r) else none

  unfoldable pub exact_receipt :
      String → ContentRef → Option Receipt → Option (Receipt × ContentRef)
  exact_receipt t r none = none
  exact_receipt t r (some c) =
      if c.fingerprint == t && r.record_fingerprint == t then some (c, r) else none

  unfoldable pub chunk_found : String → Read Immutable → Option (PageChunk × ContentRef)
  unfolding exact_chunk
  chunk_found t missing = none
  chunk_found t unreadable = none
  chunk_found t (found i) = exact_chunk t i.ref (parse_chunk_value i.value)

  unfoldable pub receipt_found : String → Read Immutable → Option (Receipt × ContentRef)
  unfolding exact_receipt
  receipt_found t missing = none
  receipt_found t unreadable = none
  receipt_found t (found i) = exact_receipt t i.ref (parse_receipt_value i.value)

  unfoldable pub read_chunk_by : String → Option (PageChunk × ContentRef)
  unfolding chunk_found
  read_chunk_by t = chunk_found t (read_by_fingerprint core json s h.job_id closed_page_chunk t)

  unfoldable pub read_receipt_by : String → Option (Receipt × ContentRef)
  unfolding receipt_found
  read_receipt_by t =
      receipt_found t (read_by_fingerprint core json s h.job_id transition_receipt t)

  abbrev pub checked_of : Option (Walked PageChunk) → Option (Walked PageChunk)
  checked_of none = none
  checked_of (some w) = some (checked_chunks h w)

  -- loadPageChunks
  unfoldable pub load_page_chunks : ℕ → Option (Walked PageChunk)
  unfolding walk checked_chunks read_chunk_by
  load_page_chunks fuel = checked_of (
      walk read_chunk_by (λ (c : PageChunk). c.previous_chunk) h.chain.page_count fuel
        h.chain.closed_page_chunk_tip [] [] [])

  -- The record of a reference, where it is exact.
  unfoldable pub exact_record : ContentRef → Read Immutable → Option Immutable
  exact_record r missing = none
  exact_record r unreadable = none
  exact_record r (found i) = if same_ref i.ref r then some i else none

  abbrev pub resolve : ContentRef → Option Immutable
  resolve r = exact_record r (read_immutable core json s r.job_id r.record_id)

  -- The window of a receipt: it adds its reference, or spoils the result.
  unfoldable pub window_of : ContentRef → Option Immutable → ReceiptRunning → ReceiptRunning
  window_of r none k = record k { clean = false }
  window_of r (some i) k =
      if same_text (parse_window i.value) (some r.record_fingerprint)
      then record k { refs = push k.refs i.ref }
      else record k { clean = false }

  unfoldable pub with_window : Option ContentRef → ReceiptRunning → ReceiptRunning
  unfolding window_of exact_record
  with_window none k = k
  with_window (some r) k = window_of r (resolve r) k

  unfoldable pub chunk_referenced :
      ℕ → Option PageChunk → Option Immutable → ReceiptRunning → ReceiptRunning
  chunk_referenced n (some c) (some i) k =
      if c.transition_number == n
      then record k { referenced = push k.referenced c.fingerprint }
      else record k { clean = false }
  chunk_referenced n _ _ k = record k { clean = false }

  unfoldable pub with_chunk :
      List PageChunk → ℕ → Option ContentRef → ReceiptRunning → ReceiptRunning
  unfolding chunk_referenced chunk_of exact_record
  with_chunk chunks n none k = k
  with_chunk chunks n (some r) k =
      chunk_referenced n (chunk_of chunks r.record_fingerprint) (resolve r) k

  -- The number and the link of a receipt.
  unfoldable pub after_receipt : Receipt → ReceiptRunning → ReceiptRunning
  after_receipt r k = record {
    index = k.index + 1;
    previous = some r.fingerprint;
    refs = k.refs;
    referenced = k.referenced;
    clean =
        k.clean && r.transition_number == (k.index + 1) && same_text r.previous_receipt k.previous;
  }

  unfoldable pub each_receipt : List PageChunk → ReceiptRunning → List Receipt → ReceiptRunning
  unfolding after_receipt with_window with_chunk
  each_receipt chunks k [] = k
  each_receipt chunks k (r ∷ rs) =
      each_receipt chunks
        (with_chunk chunks r.transition_number r.page_chunk_ref
          (with_window r.window_ref (after_receipt r k)))
        rs

  unfoldable pub covered : List PageChunk → Walked Receipt → ReceiptRunning → Walked Receipt
  unfolding receipts_cover
  covered chunks w k = record w {
    refs = k.refs;
    clean = k.clean && receipts_cover h chunks w.items k;
  }

  abbrev pub covered_of : List PageChunk → Option (Walked Receipt) → Option (Walked Receipt)
  covered_of chunks none = none
  covered_of chunks (some w) = some (
      covered chunks w (
        each_receipt chunks
          (record { index = 0; previous = none; refs = w.refs; referenced = []; clean = w.clean })
          w.items))

  -- loadReceipts
  unfoldable pub load_receipts : ℕ → List PageChunk → Option (Walked Receipt)
  unfolding walk read_receipt_by each_receipt covered
  load_receipts fuel chunks = covered_of chunks (
      walk read_receipt_by (λ (r : Receipt). r.previous_receipt) h.transition_number fuel
        h.chain.transition_receipt_tip [] [] [])

  unfoldable pub chain_retention : List ContentRef → List ContentRef → Retention
  unfolding summarize
  chain_retention pages receipts =
      summarize (pin.source_snapshot_ref ∷ pin.manifest_ref ∷ (pages ++ receipts))

  unfoldable pub chain_result : Walked PageChunk → Walked Receipt → LoadResult
  unfolding chain_retention
  chain_result pages receipts =
      if pages.clean
        && receipts.clean
        && (chain_retention pages.refs receipts.refs).record_count == h.retention.record_count
        && (chain_retention pages.refs receipts.refs).byte_count == h.retention.byte_count
      then ready (record {
        pages = pages_of pages.items;
        page_chunks = pages.items;
        receipts = receipts.items;
        retention = chain_retention pages.refs receipts.refs;
      })
      else blocked_chain

  abbrev pub with_receipts : Walked PageChunk → Option (Walked Receipt) → Option LoadResult
  with_receipts pages none = none
  with_receipts pages (some receipts) = some (chain_result pages receipts)

  abbrev pub with_pages : Option (Walked PageChunk) → Option LoadResult
  with_pages none = none
  with_pages (some pages) =
      with_receipts pages (load_receipts (h.transition_number + 2) pages.items)

  -- loadFlowDocBackendCompositionChainV1
  unfoldable pub load_chain : Option LoadResult
  unfolding load_page_chunks load_receipts chain_result
  load_chain = with_pages (load_page_chunks (h.chain.page_count + 2))
