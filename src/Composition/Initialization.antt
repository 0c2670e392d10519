-- ===== src/Composition/Initialization.antt =====
-- The initialization of a composition job (composition/compositionSchedulerInitialization.ts), on a
-- repository of V1. It awaits before each put and before the creation of the head: the calls of others
-- that come before the n-th of these are an argument.
pub mod Created
pub mod Stored
use Prim.Native.String.{◌++◌}
use flowdoc_vnext_backend.Common.{
  ℕ, ◌+◌, String, Bool, true, false, not, ◌&&◌, ◌||◌, Option, none, some, List, [], ◌∷◌, ltb, ◌==◌,
  number_eq, text_eq, if◌then◌else◌,
}
use flowdoc_vnext_backend.Common.Text.{is_short, byte_length_of}
use flowdoc_vnext_backend.PdfExport.Issue.{Time, Digest, fingerprint}
use flowdoc_vnext_backend.Composition.Core.{
  Manifest, Cursor, OpenPage, Demand, ClosedPage, CompositionCore,
}
use flowdoc_vnext_backend.Composition.SourcePin.{
  ContentKind, ContentRef, source_snapshot, composition_manifest, closed_page_chunk, Profiles,
  TransitionLimits, ExecutionLimits, Retention, summarize, PinFacts, SourcePin, source_pin_source,
  finalize_pin,
}
use flowdoc_vnext_backend.Composition.JobHead.{
  JobStatus, waiting_window, ready_to_advance, ready_to_finalize, JobFacts, JobHead,
  job_head_source, same_text, finalize_head,
}
use flowdoc_vnext_backend.Composition.Transition.{
  ChunkFacts, PageChunk, page_chunk_source, finalize_chunk, ReceiptFacts, count_all,
}
use flowdoc_vnext_backend.Composition.Repository.{
  StoredValue, chunk_value, other_value, value_fingerprint, Repository, CreateInput, CreateResult,
  created, create_replay, create_conflict, create_invalid, create_head,
}
use flowdoc_vnext_backend.Composition.Repository.Swap.{Call, run_all}
use flowdoc_vnext_backend.Composition.Staging.{
  ToStage, StageResult, staged, stage_conflict, stage_invalid, stage_batch,
}

pub record InitRequest : Type 0 where
  pub request_id : String
  pub job_id : String
  pub document_id : String
  pub base_revision : ℕ
  pub profiles : Profiles
  pub transition_limits : TransitionLimits
  pub execution_limits : ExecutionLimits
  pub created_at : Time
  pub expires_at : Time

pub record InitSource : Type 0 where
  pub current_revision : ℕ
  pub package_fingerprint : String
  pub resolved_projection_fingerprint : String
  pub source_snapshot : StoredValue
  pub manifest : Manifest

-- What the fingerprint of the request is taken of.
pub record InitIdentity : Type 0 where
  pub request : InitRequest
  pub package_fingerprint : String
  pub resolved_projection_fingerprint : String
  pub source_snapshot_fingerprint : Option String
  pub manifest_fingerprint : String

-- What Core's initializer gives: of its status and its reason, what the scheduler asks.
pub record Initialized : Type 0 where
  pub closed_pages : List ClosedPage
  pub cursor_after : Cursor
  pub open_page_after : Option OpenPage
  pub demand : Option Demand
  pub complete : Bool
  pub output_limit : Bool

pub data InitResult : Type 0 where
  init_ready : SourcePin → JobHead → InitResult
  init_replay : SourcePin → JobHead → InitResult
  init_stale : InitResult
  init_blocked : InitResult

-- validRequest
unfoldable pub request_valid : InitRequest → Bool
request_valid r =
    is_short r.request_id
    && is_short r.job_id
    && is_short r.document_id
    && ltb r.created_at r.expires_at

abbrev pub identity_of : InitRequest → InitSource → InitIdentity
identity_of r x = record {
  request = r;
  package_fingerprint = x.package_fingerprint;
  resolved_projection_fingerprint = x.resolved_projection_fingerprint;
  source_snapshot_fingerprint = value_fingerprint x.source_snapshot;
  manifest_fingerprint = x.manifest.fingerprint;
}

abbrev pub initial_status : Initialized → JobStatus
initial_status c =
    if c.complete
    then ready_to_finalize
    else if c.output_limit
    then ready_to_advance
    else waiting_window

abbrev pub initial_chunk : InitRequest → Manifest → Initialized → String → ChunkFacts
initial_chunk r m c prefix = record {
  source = page_chunk_source;
  schema_version = 1;
  kind = "composition-closed-page-chunk";
  job_id = r.job_id;
  transition_number = 0;
  manifest_fingerprint = m.fingerprint;
  window_ref = none;
  previous_chunk = none;
  closed_prefix_before = none;
  closed_prefix_after = prefix;
  page_count_before = 0;
  placement_count_before = 0;
  heading_count_before = 0;
  pages = c.closed_pages;
  created_at = r.created_at;
}

abbrev pub initial_job :
    InitRequest → SourcePin → Manifest → Initialized → Option PageChunk → Retention → JobFacts
initial_job r pin m c chunk retention = record {
  source = job_head_source;
  schema_version = 1;
  kind = "composition-job-head";
  job_id = r.job_id;
  head_revision = 0;
  source_pin_fingerprint = pin.fingerprint;
  manifest_fingerprint = m.fingerprint;
  status = initial_status c;
  transition_number = 0;
  cursor = c.cursor_after;
  open_page = c.open_page_after;
  demand = c.demand;
  chain = record {
    transition_receipt_tip = none;
    closed_page_chunk_tip = elim chunk [ none ↦ none | some k ↦ some k.fingerprint ];
    closed_page_prefix = c.cursor_after.closed_prefix.fingerprint;
    page_count = c.cursor_after.closed_prefix.page_count;
    placement_count = c.cursor_after.closed_prefix.placement_count;
    heading_count = c.cursor_after.closed_prefix.heading_count;
  };
  retention = retention;
  lease = none;
  retry = record { attempt_count = 0; retry_after = none };
  blocker = none;
  final_output = none;
  created_at = r.created_at;
  updated_at = r.created_at;
  expires_at = r.expires_at;
}

abbrev pub refs_of : List ToStage → List ContentRef
refs_of [] = []
refs_of (x ∷ xs) = x.ref ∷ refs_of xs

-- Core's initializer, and JSON.stringify on a manifest and on retained values.
module _ (core : CompositionCore) (start : Manifest → TransitionLimits → Option Initialized)
    (manifest_text : Manifest → String) (json : StoredValue → String)
    ⦃head_digest : Digest JobFacts⦄ ⦃pin_digest : Digest PinFacts⦄
    ⦃chunk_digest : Digest ChunkFacts⦄ ⦃receipt_digest : Digest ReceiptFacts⦄
    ⦃request_digest : Digest InitIdentity⦄ (others : ℕ → List Call) where
  abbrev pub manifest_value : Manifest → StoredValue
  manifest_value m = other_value (some m.fingerprint) (manifest_text m)

  -- ref
  abbrev pub ref_to : String → ContentKind → String → String → StoredValue → ContentRef
  ref_to job k id text v = record {
    kind = k;
    job_id = job;
    record_id = id;
    record_fingerprint = text;
    byte_length = byte_length_of (json v);
  }

  abbrev pub snapshot_record : InitRequest → InitSource → ToStage
  snapshot_record r x = record {
    ref =
        ref_to r.job_id source_snapshot (r.job_id ++ ":source") x.package_fingerprint
          x.source_snapshot;
    value = x.source_snapshot;
  }

  abbrev pub manifest_record : InitRequest → Manifest → ToStage
  manifest_record r m = record {
    ref =
        ref_to r.job_id composition_manifest (r.job_id ++ ":manifest") m.fingerprint
          (manifest_value m);
    value = manifest_value m;
  }

  abbrev pub chunk_record : InitRequest → PageChunk → ToStage
  chunk_record r k = record {
    ref = ref_to r.job_id closed_page_chunk (r.job_id ++ ":chunk:0") k.fingerprint (chunk_value k);
    value = chunk_value k;
  }

  abbrev pub pin_facts_of : InitRequest → InitSource → Manifest → PinFacts
  pin_facts_of r x m = record {
    source = source_pin_source;
    schema_version = 1;
    kind = "composition-source-pin";
    job_id = r.job_id;
    document_id = r.document_id;
    package_version = 3;
    document_version = 4;
    base_revision = r.base_revision;
    package_fingerprint = x.package_fingerprint;
    resolved_projection_fingerprint = x.resolved_projection_fingerprint;
    manifest_fingerprint = m.fingerprint;
    source_snapshot_ref = (snapshot_record r x).ref;
    manifest_ref = (manifest_record r m).ref;
    profiles = r.profiles;
    transition_limits = r.transition_limits;
    execution_limits = r.execution_limits;
    created_at = r.created_at;
    expires_at = r.expires_at;
  }

  abbrev pub records_of : InitRequest → InitSource → Manifest → Option PageChunk → List ToStage
  records_of r x m none = snapshot_record r x ∷ manifest_record r m ∷ []
  records_of r x m (some k) = snapshot_record r x ∷ manifest_record r m ∷ chunk_record r k ∷ []

  unfoldable pub creation_answer : SourcePin → CreateResult → InitResult
  creation_answer pin (created h) = init_ready pin h
  creation_answer pin (create_replay h) = init_replay pin h
  creation_answer pin create_conflict = init_blocked
  creation_answer pin create_invalid = init_blocked

  abbrev pub creation_of : InitRequest → InitSource → SourcePin → Manifest → JobHead → CreateInput
  creation_of r x pin m h = record {
    create_request_id = r.request_id;
    request_fingerprint = fingerprint (identity_of r x);
    pin = pin;
    manifest = m;
    head = h;
  }

  -- The creation of the head, where its contract gives it.
  unfoldable pub create_initial :
      Repository
      → ℕ
      → InitRequest
      → InitSource
      → SourcePin
      → Manifest
      → Option JobHead
      → Repository × InitResult
  unfolding creation_answer
  create_initial s n r x pin m none = (s, init_blocked)
  create_initial s n r x pin m (some h) =
      let answer =
        create_head core json (run_all core json s (others n)) (creation_of r x pin m h) in
      (answer.0, creation_answer pin answer.1)

  unfoldable pub after_staging :
      InitRequest
      → InitSource
      → SourcePin
      → Manifest
      → Initialized
      → Option PageChunk
      → ℕ
      → Repository × StageResult
      → Repository × InitResult
  unfolding create_initial summarize
  after_staging r x pin m c chunk n (s, staged refs written) = create_initial s n r x pin m (
      finalize_head core pin m
        (initial_job r pin m c chunk (summarize (refs_of (records_of r x m chunk)))))
  after_staging r x pin m c chunk n (s, stage_conflict written) = (s, init_blocked)
  after_staging r x pin m c chunk n (s, stage_invalid written) = (s, init_blocked)

  unfoldable pub with_initial_chunk :
      Repository
      → InitRequest
      → InitSource
      → SourcePin
      → Manifest
      → Initialized
      → Option PageChunk
      → Repository × InitResult
  unfolding after_staging
  with_initial_chunk s r x pin m c chunk =
      let records = records_of r x m chunk in
      if ltb pin.execution_limits.maximum_retained_byte_count
        (summarize (refs_of records)).byte_count
      then (s, init_blocked)
      else after_staging r x pin m c chunk (count_all records)
          (stage_batch core json others s records)

  -- The chunk of the pages that are closed at the start: none if there are none.
  unfoldable pub first_chunk :
      InitRequest
      → SourcePin
      → Manifest
      → Initialized
      → List ClosedPage
      → Option String
      → Option (Option PageChunk)
  first_chunk r pin m c [] prefix = some none
  first_chunk r pin m c (p ∷ ps) none = none
  first_chunk r pin m c (p ∷ ps) (some prefix) =
      elim (finalize_chunk core pin m (initial_chunk r m c prefix)) [
        | none ↦ none
        | some k ↦ some (some k)
      ]

  unfoldable pub with_started :
      Repository
      → InitRequest
      → InitSource
      → SourcePin
      → Manifest
      → Option Initialized
      → Repository × InitResult
  unfolding first_chunk with_initial_chunk
  with_started s r x pin m none = (s, init_blocked)
  with_started s r x pin m (some c) =
      elim (first_chunk r pin m c c.closed_pages c.cursor_after.closed_prefix.fingerprint) [
        | none ↦ (s, init_blocked)
        | some chunk ↦ with_initial_chunk s r x pin m c chunk
      ]

  unfoldable pub with_pin :
      Repository → InitRequest → InitSource → Manifest → Option SourcePin → Repository × InitResult
  unfolding with_started
  with_pin s r x m none = (s, init_blocked)
  with_pin s r x m (some pin) = with_started s r x pin m (start m r.transition_limits)

  unfoldable pub with_manifest :
      Repository → InitRequest → InitSource → Option Manifest → Repository × InitResult
  unfolding with_pin
  with_manifest s r x none = (s, init_blocked)
  with_manifest s r x (some m) =
      if not (m.document_id == r.document_id)
        || not (m.resolved_projection_fingerprint == x.resolved_projection_fingerprint)
      then (s, init_blocked)
      else with_pin s r x m (finalize_pin (pin_facts_of r x m))

  -- initializeFlowDocBackendCompositionV1
  unfoldable pub initialize : Repository → InitRequest → InitSource → Repository × InitResult
  unfolding request_valid with_manifest
  initialize s r x =
      if not (request_valid r)
      then (s, init_blocked)
      else if not (x.current_revision == r.base_revision)
      then (s, init_stale)
      else if not (same_text (value_fingerprint x.source_snapshot) (some x.package_fingerprint))
      then (s, init_blocked)
      else with_manifest s r x (core.parse_manifest x.manifest)
