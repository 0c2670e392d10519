-- ===== src/Examples/CompositionCommits.antt =====
-- A transition and a finalization that are committed to a composition job.
use flowdoc_vnext_backend.Common.{some, none, [], ◌∷◌}
use flowdoc_vnext_backend.Composition.SourcePin.{
  transition_receipt, page_plan, heading_page_map, ContentRef,
}
use flowdoc_vnext_backend.Composition.JobHead.{
  ready_to_advance, ready_to_finalize, completed, JobHead,
}
use flowdoc_vnext_backend.Composition.Transition.{partial, output_limit, Receipt, receipt_source}
use flowdoc_vnext_backend.Composition.Repository.{
  receipt_value, other_value, Repository, empty_repository, CommittedRequest, CommittedFinalization,
  CasInput,
}
use flowdoc_vnext_backend.Composition.Repository.Swap.{put_call, create_call, run_all}
use flowdoc_vnext_backend.Examples.Data.{zeros, ones}
use flowdoc_vnext_backend.Examples.Jobs.{
  core, json, job_digest, pin_digest, transition_digest, ref_of, facts_of, creation,
}

abbrev pub receipt : Receipt
receipt = record {
  facts = record {
    source = receipt_source;
    schema_version = 1;
    kind = "composition-transition-receipt";
    job_id = "job";
    transition_number = 1;
    transition_request_id = "request";
    request_fingerprint = ones;
    attempt_id = "attempt";
    head_revision_before = 0;
    head_revision_after = 1;
    manifest_fingerprint = zeros;
    demand_before = none;
    window_ref = none;
    transition_fingerprint = zeros;
    cursor_before = zeros;
    cursor_after = zeros;
    open_page_after = none;
    demand_after = none;
    page_chunk_ref = none;
    previous_receipt = none;
    status = partial;
    reason = output_limit;
    work = record {
      window_count = 0;
      family_page_count = 0;
      closed_page_count = 0;
      placement_count = 0;
      body_item_completion_count = 0;
      page_advance_count = 0;
      cursor_commit_count = 1;
    };
    created_at = 20;
  };
  fingerprint = zeros;
}

abbrev pub receipt_ref : ContentRef
receipt_ref = ref_of transition_receipt "receipt" zeros

abbrev request : CommittedRequest
request = record { request_id = "request"; request_fingerprint = ones; receipt_ref = receipt_ref }

-- The head after the transition.
abbrev advanced : JobHead
advanced = record {
  facts = record (facts_of ready_to_advance) {
    head_revision = 1;
    transition_number = 1;
    chain = record ((facts_of ready_to_advance).chain) { transition_receipt_tip = some zeros };
    retention = record { record_count = 3; byte_count = 6 };
    updated_at = 20;
  };
  fingerprint = zeros;
}

abbrev advance : CasInput
advance = record {
  job_id = "job";
  expected_revision = 0;
  expected_fingerprint = zeros;
  next = advanced;
  request = some request;
  finalization = none;
}

abbrev staged : Repository
staged =
    run_all core json empty_repository
      (create_call (creation ready_to_advance) ∷ put_call receipt_ref (receipt_value receipt) ∷ [])

abbrev plan_ref : ContentRef
plan_ref = ref_of page_plan "plan" zeros

abbrev map_ref : ContentRef
map_ref = ref_of heading_page_map "map" ones

abbrev finalization : CommittedFinalization
finalization = record {
  request_id = "finalize";
  request_fingerprint = ones;
  page_plan_ref = plan_ref;
  heading_page_map_ref = map_ref;
}

-- The head after the finalization.
abbrev finished : JobHead
finished = record {
  facts = record (facts_of ready_to_finalize) {
    head_revision = 1;
    status = completed;
    retention = record { record_count = 4; byte_count = 8 };
    final_output = some (record {
      composition_fingerprint = zeros;
      page_plan_ref = plan_ref;
      heading_page_map_ref = map_ref;
    });
    updated_at = 20;
  };
  fingerprint = zeros;
}

abbrev finish : CasInput
finish = record {
  job_id = "job";
  expected_revision = 0;
  expected_fingerprint = zeros;
  next = finished;
  request = none;
  finalization = some finalization;
}

abbrev composed : Repository
composed = run_all core json empty_repository (
    create_call (creation ready_to_finalize)
    ∷ put_call plan_ref (other_value (some zeros) "plan")
    ∷ put_call map_ref (other_value (some ones) "map")
    ∷ [])
