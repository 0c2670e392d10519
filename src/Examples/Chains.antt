-- ===== src/Examples/Chains.antt =====
-- The chain of a job with one page, closed at the start, and one transition.
use flowdoc_vnext_backend.Common.{some, none, ◌≡◌, refl, [], ◌∷◌, true, Option, String}
use flowdoc_vnext_backend.Common.Dict.{set}
use flowdoc_vnext_backend.Common.Text.{is_short, is_fingerprint, byte_length_of}
use flowdoc_vnext_backend.PdfExport.Issue.{Digest}
use flowdoc_vnext_backend.Composition.Core.{ClosedPage}
use flowdoc_vnext_backend.Composition.SourcePin.{closed_page_chunk, ref_valid, summarize}
use flowdoc_vnext_backend.Composition.JobHead.{ready_to_advance, JobHead}
use flowdoc_vnext_backend.Composition.Transition.{
  ChunkFacts, PageChunk, page_chunk_source, parse_chunk, parse_receipt,
}
use flowdoc_vnext_backend.Composition.Repository.{
  StoredValue, chunk_value, receipt_value, Repository, empty_repository, put_immutable,
  read_by_fingerprint,
}
use flowdoc_vnext_backend.Composition.Repository.Swap.{put_call, run_all}
use flowdoc_vnext_backend.Composition.ChainReader.{LoadedChain, LoadResult, ready, load_chain}
use flowdoc_vnext_backend.Composition.ChainReader.Ends.{load_chain_ends}
use flowdoc_vnext_backend.Composition.ChainReader.Loaded.{IsLoaded, ready-IsLoaded}
use flowdoc_vnext_backend.Examples.Data.{zeros, ones, constant}
use flowdoc_vnext_backend.Examples.Jobs.{
  core, json, job_digest, pin_digest, transition_digest, manifest, pin, ref_of, facts_of,
}
use flowdoc_vnext_backend.Examples.CompositionCommits.{receipt, receipt_ref}

instance abbrev page_chunk_digest : Digest ChunkFacts
page_chunk_digest = constant ChunkFacts

abbrev parse_window : StoredValue → Option String
parse_window v = none

abbrev page : ClosedPage
page = record {
  page_index = 0;
  page_number = 1;
  closed_page_count_before = 0;
  closed_placement_count_before = 0;
  closed_heading_count_before = 0;
  previous_prefix = none;
  prefix = ones;
  placements = true ∷ [];
  carried = "";
}

abbrev chunk : PageChunk
chunk = record {
  facts = record {
    source = page_chunk_source;
    schema_version = 1;
    kind = "composition-closed-page-chunk";
    job_id = "job";
    transition_number = 0;
    manifest_fingerprint = zeros;
    window_ref = none;
    previous_chunk = none;
    closed_prefix_before = none;
    closed_prefix_after = ones;
    page_count_before = 0;
    placement_count_before = 0;
    heading_count_before = 0;
    pages = page ∷ [];
    created_at = 10;
  };
  fingerprint = zeros;
}

abbrev store : Repository
store = run_all core json empty_repository (
    put_call (ref_of closed_page_chunk "chunk" zeros) (chunk_value chunk)
    ∷ put_call receipt_ref (receipt_value receipt)
    ∷ [])

abbrev head : JobHead
head = record {
  facts = record (facts_of ready_to_advance) {
    head_revision = 1;
    transition_number = 1;
    chain = record {
      transition_receipt_tip = some zeros;
      closed_page_chunk_tip = some zeros;
      closed_page_prefix = some ones;
      page_count = 1;
      placement_count = 1;
      heading_count = 1;
    };
    retention = record { record_count = 4; byte_count = 8 };
  };
  fingerprint = zeros;
}

abbrev chain : LoadedChain
chain = record {
  pages = page ∷ [];
  page_chunks = chunk ∷ [];
  receipts = receipt ∷ [];
  retention = record { record_count = 4; byte_count = 8 };
}

load_chain_ends_example :
    (r : LoadResult) × (load_chain core parse_window json store pin manifest head ≡ some r)
load_chain_ends_example = load_chain_ends core parse_window json store pin manifest head

loads : load_chain core parse_window json store pin manifest head ≡ some (ready chain)
unfolding load_chain run_all put_immutable ref_valid is_short is_fingerprint byte_length_of set
    read_by_fingerprint parse_chunk parse_receipt summarize
loads = refl

ready-IsLoaded_example : IsLoaded core parse_window json store pin manifest head chain
ready-IsLoaded_example = ready-IsLoaded core parse_window json store pin manifest head chain loads
