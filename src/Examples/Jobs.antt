-- ===== src/Examples/Jobs.antt =====
-- A composition job of a document without pages, with a concrete Core and concrete digests.
use flowdoc_vnext_backend.Common.{Bool, String, none, some, true, false}
use flowdoc_vnext_backend.PdfExport.Issue.{Digest}
use flowdoc_vnext_backend.Composition.Core.{Manifest, Cursor, CompositionCore, ParsesSelf}
use flowdoc_vnext_backend.Composition.SourcePin.{
  ContentKind, source_snapshot, composition_manifest, ContentRef, PinFacts, SourcePin,
  source_pin_source,
}
use flowdoc_vnext_backend.Composition.JobHead.{
  JobStatus, ready_to_finalize, JobFacts, JobHead, job_head_source,
}
use flowdoc_vnext_backend.Composition.Transition.{ReceiptFacts}
use flowdoc_vnext_backend.Composition.Repository.{StoredValue, CreateInput}
use flowdoc_vnext_backend.Examples.Data.{zeros, constant}

-- A Core that accepts everything.
abbrev pub core : CompositionCore
core = record {
  parse_manifest = λ m. some m;
  parse_state = λ m c o. some (c, o);
  parse_demand = λ d. some d;
  parse_page = λ p. some p;
}

pub core-ParsesSelf : ParsesSelf core
core-ParsesSelf = record {
  manifest_self = λ m n e. cc e;
  state_self = λ m c d o p e. (cc e, cc e);
  demand_self = λ d e h. cc h;
  page_self = λ p q e. cc e;
}

abbrev pub json : StoredValue → String
json v = "{}"

instance abbrev pub job_digest : Digest JobFacts
job_digest = constant JobFacts

instance abbrev pub pin_digest : Digest PinFacts
pin_digest = constant PinFacts

instance abbrev pub transition_digest : Digest ReceiptFacts
transition_digest = constant ReceiptFacts

abbrev pub manifest : Manifest
manifest = record {
  document_id = "document";
  fingerprint = zeros;
  resolved_projection_fingerprint = zeros;
  carried = "";
}

abbrev pub ref_of : ContentKind → String → String → ContentRef
ref_of k id text = record {
  kind = k;
  job_id = "job";
  record_id = id;
  record_fingerprint = text;
  byte_length = 2;
}

abbrev pub pin : SourcePin
pin = record {
  facts = record {
    source = source_pin_source;
    schema_version = 1;
    kind = "composition-source-pin";
    job_id = "job";
    document_id = "document";
    package_version = 3;
    document_version = 4;
    base_revision = 1;
    package_fingerprint = zeros;
    resolved_projection_fingerprint = zeros;
    manifest_fingerprint = zeros;
    source_snapshot_ref = ref_of source_snapshot "source" zeros;
    manifest_ref = ref_of composition_manifest "manifest" zeros;
    profiles = record {
      layout_profile_id = "layout";
      measurement_profile_id = "measurement";
      composition_profile_id = "composition";
    };
    transition_limits = record {
      maximum_closed_page_count = 10;
      maximum_placement_count = 10;
      maximum_family_page_count = 10;
      maximum_family_fragment_count = 10;
    };
    execution_limits = record {
      maximum_transition_count = 10;
      maximum_attempt_count = 10;
      maximum_retained_byte_count = 100;
    };
    created_at = 10;
    expires_at = 100;
  };
  fingerprint = zeros;
}

abbrev is_ready_to_finalize : JobStatus → Bool
is_ready_to_finalize ready_to_finalize = true
is_ready_to_finalize _ = false

-- The cursor, complete where the job is ready to finalize.
abbrev pub cursor_of : JobStatus → Cursor
cursor_of s = record {
  document_id = "document";
  manifest_fingerprint = zeros;
  complete = is_ready_to_finalize s;
  active_root = none;
  closed_prefix = record {
    page_count = 0;
    placement_count = 0;
    heading_count = 0;
    fingerprint = none;
  };
  cumulative_work = record {
    body_items_completed = 0;
    family_pages_consumed = 0;
    page_advances = 0;
  };
  fingerprint = zeros;
  carried = "";
}

abbrev pub facts_of : JobStatus → JobFacts
facts_of s = record {
  source = job_head_source;
  schema_version = 1;
  kind = "composition-job-head";
  job_id = "job";
  head_revision = 0;
  source_pin_fingerprint = zeros;
  manifest_fingerprint = zeros;
  status = s;
  transition_number = 0;
  cursor = cursor_of s;
  open_page = none;
  demand = none;
  chain = record {
    transition_receipt_tip = none;
    closed_page_chunk_tip = none;
    closed_page_prefix = none;
    page_count = 0;
    placement_count = 0;
    heading_count = 0;
  };
  retention = record { record_count = 2; byte_count = 4 };
  lease = none;
  retry = record { attempt_count = 0; retry_after = none };
  blocker = none;
  final_output = none;
  created_at = 10;
  updated_at = 10;
  expires_at = 100;
}

abbrev pub head_of : JobStatus → JobHead
head_of s = record { facts = facts_of s; fingerprint = zeros }

abbrev pub creation : JobStatus → CreateInput
creation s = record {
  create_request_id = "create";
  request_fingerprint = zeros;
  pin = pin;
  manifest = manifest;
  head = head_of s;
}
