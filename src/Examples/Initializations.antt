-- ===== src/Examples/Initializations.antt =====
-- The initialization of the composition job, with a call of another before its second put.
use flowdoc_vnext_backend.Common.{
  some, none, true, false, ◌≡◌, refl, inl, List, [], ◌∷◌, Option, String, ℕ, zero, suc,
}
use flowdoc_vnext_backend.Common.Dict.{set}
use flowdoc_vnext_backend.Common.Text.{is_short, is_fingerprint, byte_length_of}
use flowdoc_vnext_backend.PdfExport.Issue.{Digest}
use flowdoc_vnext_backend.Composition.Core.{Manifest, ClosedPage, Cursor}
use flowdoc_vnext_backend.Composition.SourcePin.{
  SourcePin, TransitionLimits, family_window, parse_pin, pin_facts_valid, finalize_pin,
}
use flowdoc_vnext_backend.Composition.JobHead.{JobHead, ready_to_advance, parse_head, finalize_head}
use flowdoc_vnext_backend.Composition.Transition.{ChunkFacts, finalize_chunk}
use flowdoc_vnext_backend.Composition.Repository.{
  other_value, empty_repository, create_head, put_immutable,
}
use flowdoc_vnext_backend.Composition.Repository.Swap.{Call, put_call, run_all}
use flowdoc_vnext_backend.Composition.Staging.{put_nth, stage_batch}
use flowdoc_vnext_backend.Composition.Initialization.{
  InitRequest, InitSource, InitIdentity, Initialized, init_ready, pin_facts_of, initialize,
}
use flowdoc_vnext_backend.Composition.Initialization.Stored.{IsInitial, initialize-IsInitial}
use flowdoc_vnext_backend.Examples.Data.{zeros, ones, constant}
use flowdoc_vnext_backend.Examples.Jobs.{
  core, json, job_digest, pin_digest, transition_digest, manifest, pin, ref_of, cursor_of, facts_of,
}

instance abbrev first_chunk_digest : Digest ChunkFacts
first_chunk_digest = constant ChunkFacts

instance abbrev identity_digest : Digest InitIdentity
identity_digest = constant InitIdentity

abbrev manifest_text : Manifest → String
manifest_text m = m.carried

-- Core closes one page at the start.
abbrev page : ClosedPage
page = record {
  page_index = 0;
  page_number = 1;
  closed_page_count_before = 0;
  closed_placement_count_before = 0;
  closed_heading_count_before = 0;
  previous_prefix = none;
  prefix = ones;
  placements = true ∷ [];
  carried = "";
}

abbrev cursor : Cursor
cursor = record (cursor_of ready_to_advance) {
  closed_prefix = record {
    page_count = 1;
    placement_count = 1;
    heading_count = 1;
    fingerprint = some ones;
  };
}

abbrev started : Manifest → TransitionLimits → Option Initialized
started m l = some (record {
  closed_pages = page ∷ [];
  cursor_after = cursor;
  open_page_after = none;
  demand = none;
  complete = false;
  output_limit = true;
})

abbrev others : ℕ → List Call
others (suc zero) =
    put_call (ref_of family_window "window" ones) (other_value (some ones) "rest") ∷ []
others _ = []

abbrev request : InitRequest
request = record {
  request_id = "create";
  job_id = "job";
  document_id = "document";
  base_revision = 1;
  profiles = pin.profiles;
  transition_limits = pin.transition_limits;
  execution_limits = pin.execution_limits;
  created_at = 10;
  expires_at = 100;
}

abbrev source : InitSource
source = record {
  current_revision = 1;
  package_fingerprint = zeros;
  resolved_projection_fingerprint = zeros;
  source_snapshot = other_value (some zeros) "snapshot";
  manifest = manifest;
}

abbrev made_pin : SourcePin
made_pin = record {
  facts = pin_facts_of core started manifest_text json others request source manifest;
  fingerprint = zeros;
}

abbrev first_head : JobHead
first_head = record {
  facts = record (facts_of ready_to_advance) {
    cursor = cursor;
    chain = record {
      transition_receipt_tip = none;
      closed_page_chunk_tip = some zeros;
      closed_page_prefix = some ones;
      page_count = 1;
      placement_count = 1;
      heading_count = 1;
    };
    retention = record { record_count = 3; byte_count = 6 };
  };
  fingerprint = zeros;
}

initializes :
    (initialize core started manifest_text json others empty_repository request source).1
    ≡ init_ready made_pin first_head
unfolding initialize is_short finalize_pin pin_facts_valid is_fingerprint byte_length_of stage_batch
    put_nth put_immutable run_all set finalize_head finalize_chunk create_head parse_pin parse_head
initializes = refl

initialize-IsInitial_example :
    (source.current_revision ≡ request.base_revision)
    × IsInitial core started manifest_text json others request source
        (initialize core started manifest_text json others empty_repository request source).0
        first_head
initialize-IsInitial_example =
    initialize-IsInitial core started manifest_text json others empty_repository request source
      first_head (made_pin, inl initializes)
