-- ===== src/Composition/Transition.antt =====
-- Page chunks and transition receipts (composition/compositionSchedulerTransitionRecords.ts), each
-- with its parser in a validated context.
use flowdoc_vnext_backend.Common.{
  ℕ, ◌+◌, String, Bool, true, false, not, ◌&&◌, Option, none, some, List, [], ◌∷◌, ◌==◌, number_eq,
  text_eq, if◌then◌else◌,
}
use flowdoc_vnext_backend.Common.Text.{is_short, is_fingerprint}
use flowdoc_vnext_backend.PdfExport.Issue.{Time, Digest, fingerprint}
use flowdoc_vnext_backend.Composition.Core.{Manifest, ClosedPage, TransitionWork, CompositionCore}
use flowdoc_vnext_backend.Composition.SourcePin.{
  ContentRef, family_window, closed_page_chunk, in_range, SourcePin, max_safe,
}
use flowdoc_vnext_backend.Composition.JobHead.{is_some, every, same_bool, same_text, own_ref}

pub record ChunkFacts : Type 0 where
  pub source : String
  pub schema_version : ℕ
  pub kind : String
  pub job_id : String
  pub transition_number : ℕ
  pub manifest_fingerprint : String
  pub window_ref : Option ContentRef
  pub previous_chunk : Option String
  pub closed_prefix_before : Option String
  pub closed_prefix_after : String
  pub page_count_before : ℕ
  pub placement_count_before : ℕ
  pub heading_count_before : ℕ
  pub pages : List ClosedPage
  pub created_at : Time

pub record PageChunk : Type 0 where
  pub facts : ChunkFacts
  pub open facts use *
  pub fingerprint : String

pub data ReceiptStatus : Type 0 where
  partial complete : ReceiptStatus

pub data ReceiptReason : Type 0 where
  needs_family_window output_limit document_complete : ReceiptReason

pub record ReceiptFacts : Type 0 where
  pub source : String
  pub schema_version : ℕ
  pub kind : String
  pub job_id : String
  pub transition_number : ℕ
  pub transition_request_id : String
  pub request_fingerprint : String
  pub attempt_id : String
  pub head_revision_before : ℕ
  pub head_revision_after : ℕ
  pub manifest_fingerprint : String
  pub demand_before : Option String
  pub window_ref : Option ContentRef
  pub transition_fingerprint : String
  pub cursor_before : String
  pub cursor_after : String
  pub open_page_after : Option String
  pub demand_after : Option String
  pub page_chunk_ref : Option ContentRef
  pub previous_receipt : Option String
  pub status : ReceiptStatus
  pub reason : ReceiptReason
  pub work : TransitionWork
  pub created_at : Time

pub record Receipt : Type 0 where
  pub facts : ReceiptFacts
  pub open facts use *
  pub fingerprint : String

-- validatedOwners: whether it reports nothing.
unfoldable pub record_owners_match : SourcePin → Manifest → Bool
record_owners_match pin m =
    pin.manifest_fingerprint == m.fingerprint && pin.document_id == m.document_id

abbrev pub page_chunk_source : String
page_chunk_source = "flowdoc-backend-composition-page-chunk"

abbrev pub receipt_source : String
receipt_source = "flowdoc-backend-composition-transition-receipt"

abbrev pub count_all {ℓ} : {A : Type ℓ} → List A → ℕ
count_all [] = 0
count_all (x ∷ xs) = count_all xs + 1

abbrev pub count_true : List Bool → ℕ
count_true [] = 0
count_true (true ∷ xs) = count_true xs + 1
count_true (false ∷ xs) = count_true xs

-- Core's parser on each page; none where it refuses one.
unfoldable pub parse_pages : CompositionCore → List ClosedPage → Option (List ClosedPage)
parse_pages core [] = some []
parse_pages core (p ∷ ps) = elim (core.parse_page p) [
  | none ↦ none
  | some q ↦ elim (parse_pages core ps) [ none ↦ none | some qs ↦ some (q ∷ qs) ]
]

-- The counts and the prefix that the next page continues.
pub record Running : Type 0 where
  pub pages : ℕ
  pub placements : ℕ
  pub headings : ℕ
  pub prefix : Option String

unfoldable pub after_page : Running → ClosedPage → Running
after_page r p = record {
  pages = r.pages + 1;
  placements = r.placements + count_all p.placements;
  headings = r.headings + count_true p.placements;
  prefix = some p.prefix;
}

unfoldable pub page_continues : Running → ClosedPage → Bool
page_continues r p =
    p.page_index == r.pages
    && p.page_number == (r.pages + 1)
    && p.closed_page_count_before == r.pages
    && p.closed_placement_count_before == r.placements
    && p.closed_heading_count_before == r.headings
    && same_text p.previous_prefix r.prefix

-- Whether each page continues what is before it, and where the pages end.
unfoldable pub pages_continue : Running → List ClosedPage → Bool
unfolding after_page page_continues
pages_continue r [] = true
pages_continue r (p ∷ ps) = page_continues r p && pages_continue (after_page r p) ps

unfoldable pub after_pages : Running → List ClosedPage → Running
unfolding after_page
after_pages r [] = r
after_pages r (p ∷ ps) = after_pages (after_page r p) ps

abbrev pub before_chunk : ChunkFacts → Running
before_chunk f = record {
  pages = f.page_count_before;
  placements = f.placement_count_before;
  headings = f.heading_count_before;
  prefix = f.closed_prefix_before;
}

unfoldable pub chunk_scalars_valid : ChunkFacts → Bool
chunk_scalars_valid f =
    f.source == page_chunk_source
    && f.schema_version == 1
    && f.kind == "composition-closed-page-chunk"
    && is_short f.job_id
    && in_range 0 1_000_000 f.transition_number
    && is_fingerprint f.manifest_fingerprint
    && every is_fingerprint f.previous_chunk
    && every is_fingerprint f.closed_prefix_before
    && is_fingerprint f.closed_prefix_after
    && in_range 0 1_000_000 f.page_count_before
    && in_range 0 10_000_000 f.placement_count_before
    && in_range 0 10_000_000 f.heading_count_before
    && in_range 1 10_000 (count_all f.pages)

unfoldable pub chunk_bound : SourcePin → Manifest → ChunkFacts → Bool
unfolding own_ref
chunk_bound pin m f =
    f.job_id == pin.job_id
    && f.manifest_fingerprint == m.fingerprint
    && every (own_ref f.job_id family_window) f.window_ref
    && not (f.transition_number == 0 && is_some f.window_ref)
    && same_bool (f.page_count_before == 0) (not (is_some f.previous_chunk))
    && same_bool (f.page_count_before == 0) (not (is_some f.closed_prefix_before))

unfoldable pub chunk_chain_valid : ChunkFacts → Bool
unfolding pages_continue after_pages
chunk_chain_valid f =
    pages_continue (before_chunk f) f.pages
    && same_text (after_pages (before_chunk f) f.pages).prefix (some f.closed_prefix_after)

unfoldable pub chunk_checked :
    SourcePin → Manifest → ChunkFacts → Option (List ClosedPage) → Option ChunkFacts
unfolding record_owners_match chunk_scalars_valid chunk_bound chunk_chain_valid
chunk_checked pin m f none = none
chunk_checked pin m f (some pages) =
    let g = record f { pages = pages } in
    if record_owners_match pin m
      && chunk_scalars_valid g
      && chunk_bound pin m g
      && chunk_chain_valid g
    then some g
    else none

-- readPageChunkFacts, in a validated context.
unfoldable pub read_chunk : CompositionCore → SourcePin → Manifest → ChunkFacts → Option ChunkFacts
unfolding parse_pages chunk_checked
read_chunk core pin m f = chunk_checked pin m f (parse_pages core f.pages)

module _ ⦃d : Digest ChunkFacts⦄ where
  unfoldable pub finalized_chunk : Option ChunkFacts → Option PageChunk
  finalized_chunk none = none
  finalized_chunk (some f) = some (record { facts = f; fingerprint = fingerprint f })

  -- finalizeFlowDocBackendCompositionPageChunkWithValidatedOwnersV1
  unfoldable pub finalize_chunk :
      CompositionCore → SourcePin → Manifest → ChunkFacts → Option PageChunk
  unfolding read_chunk finalized_chunk
  finalize_chunk core pin m f = finalized_chunk (read_chunk core pin m f)

  unfoldable pub same_chunk : String → Option PageChunk → Option PageChunk
  same_chunk text none = none
  same_chunk text (some c) = if c.fingerprint == text then some c else none

  -- parseFlowDocBackendCompositionPageChunkWithValidatedOwnersV1
  unfoldable pub parse_chunk : CompositionCore → SourcePin → Manifest → PageChunk → Option PageChunk
  unfolding finalize_chunk same_chunk
  parse_chunk core pin m c =
      if is_fingerprint c.fingerprint
      then same_chunk c.fingerprint (finalize_chunk core pin m c.facts)
      else none

abbrev pub is_complete : ReceiptStatus → Bool
is_complete complete = true
is_complete partial = false

abbrev pub is_document_complete : ReceiptReason → Bool
is_document_complete document_complete = true
is_document_complete _ = false

abbrev pub needs_window : ReceiptReason → Bool
needs_window needs_family_window = true
needs_window _ = false

-- readWork, on a value with all of the counts.
unfoldable pub work_valid : TransitionWork → Bool
work_valid w =
    in_range 0 10_000_000 w.window_count
    && in_range 0 10_000_000 w.family_page_count
    && in_range 0 10_000_000 w.closed_page_count
    && in_range 0 10_000_000 w.placement_count
    && in_range 0 10_000_000 w.body_item_completion_count
    && in_range 0 10_000_000 w.page_advance_count
    && in_range 0 10_000_000 w.cursor_commit_count

unfoldable pub receipt_scalars_valid : ReceiptFacts → Bool
unfolding work_valid
receipt_scalars_valid f =
    f.source == receipt_source
    && f.schema_version == 1
    && f.kind == "composition-transition-receipt"
    && is_short f.job_id
    && in_range 1 1_000_000 f.transition_number
    && is_short f.transition_request_id
    && is_fingerprint f.request_fingerprint
    && is_short f.attempt_id
    && in_range 0 max_safe f.head_revision_before
    && in_range 1 max_safe f.head_revision_after
    && is_fingerprint f.manifest_fingerprint
    && every is_fingerprint f.demand_before
    && is_fingerprint f.transition_fingerprint
    && is_fingerprint f.cursor_before
    && is_fingerprint f.cursor_after
    && every is_fingerprint f.open_page_after
    && every is_fingerprint f.demand_after
    && every is_fingerprint f.previous_receipt
    && work_valid f.work

unfoldable pub receipt_bound : SourcePin → Manifest → ReceiptFacts → Bool
unfolding own_ref
receipt_bound pin m f =
    f.job_id == pin.job_id
    && f.manifest_fingerprint == m.fingerprint
    && f.head_revision_after == (f.head_revision_before + 1)
    && same_bool (f.transition_number == 1) (not (is_some f.previous_receipt))
    && same_bool (is_some f.demand_before) (is_some f.window_ref)
    && every (own_ref f.job_id family_window) f.window_ref
    && every (own_ref f.job_id closed_page_chunk) f.page_chunk_ref
    && same_bool (f.work.closed_page_count == 0) (not (is_some f.page_chunk_ref))
    && same_bool (is_complete f.status) (is_document_complete f.reason)
    && same_bool (needs_window f.reason) (is_some f.demand_after)

-- readReceiptFacts, in a validated context.
unfoldable pub read_receipt : SourcePin → Manifest → ReceiptFacts → Option ReceiptFacts
unfolding record_owners_match receipt_scalars_valid receipt_bound
read_receipt pin m f =
    if record_owners_match pin m && receipt_scalars_valid f && receipt_bound pin m f
    then some f
    else none

module _ ⦃d : Digest ReceiptFacts⦄ where
  unfoldable pub finalized_receipt : Option ReceiptFacts → Option Receipt
  finalized_receipt none = none
  finalized_receipt (some f) = some (record { facts = f; fingerprint = fingerprint f })

  -- finalizeFlowDocBackendCompositionTransitionReceiptWithValidatedOwnersV1
  unfoldable pub finalize_receipt : SourcePin → Manifest → ReceiptFacts → Option Receipt
  unfolding read_receipt finalized_receipt
  finalize_receipt pin m f = finalized_receipt (read_receipt pin m f)

  unfoldable pub same_receipt : String → Option Receipt → Option Receipt
  same_receipt text none = none
  same_receipt text (some r) = if r.fingerprint == text then some r else none

  -- parseFlowDocBackendCompositionTransitionReceiptWithValidatedOwnersV1
  unfoldable pub parse_receipt : SourcePin → Manifest → Receipt → Option Receipt
  unfolding finalize_receipt same_receipt
  parse_receipt pin m r =
      if is_fingerprint r.fingerprint
      then same_receipt r.fingerprint (finalize_receipt pin m r.facts)
      else none
