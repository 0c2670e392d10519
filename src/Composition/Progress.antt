-- ===== src/Composition/Progress.antt =====
-- composition/compositionSchedulerProgress.ts, and the read of it in
-- composition/compositionSchedulerLifecycle.ts: what a caller is shown of a job. That the observed time
-- is an exact one is in its type. The fields of a head that are shown as they are keep their types.
use flowdoc_vnext_backend.Common.{ℕ, String, Bool, true, false, Option, none, some, ◌==◌, number_eq}
use flowdoc_vnext_backend.PdfExport.Issue.{Time, Digest, fingerprint}
use flowdoc_vnext_backend.Composition.Core.{Manifest, Demand, CompositionCore}
use flowdoc_vnext_backend.Composition.SourcePin.{PinFacts, SourcePin}
use flowdoc_vnext_backend.Composition.JobHead.{
  JobStatus, ready_to_advance, Lease, Retry, Blocker, OutputRefs, JobFacts, JobHead,
}
use flowdoc_vnext_backend.Composition.Transition.{ChunkFacts, ReceiptFacts}
use flowdoc_vnext_backend.Composition.Repository.{
  StoredValue, StoredHead, Repository, Read, found, missing, unreadable, read_head,
}
use flowdoc_vnext_backend.Composition.Context.{parse_head_of}
pub mod Advances

pub record ProgressDemand : Type 0 where
  pub demand_fingerprint : String
  pub item_index : ℕ
  pub section_id : String
  pub zone_id : String
  pub root_node_id : String
  pub root_node_type : String
  pub family : String

pub record ProgressCounts : Type 0 where
  pub page_count : ℕ
  pub placement_count : ℕ
  pub heading_count : ℕ
  pub retained_record_count : ℕ
  pub retained_byte_count : ℕ
  pub body_item_completion_count : ℕ
  pub family_page_count : ℕ
  pub page_advance_count : ℕ

pub record ProgressContracts : Type 0 where
  pub exposes_cursor : Bool
  pub exposes_open_page : Bool
  pub exposes_family_window : Bool
  pub exposes_storage_paths : Bool
  pub renderer_output : Bool
  pub editor_command_policy : Bool

pub record ProgressFacts : Type 0 where
  pub source : String
  pub schema_version : ℕ
  pub kind : String
  pub job_id : String
  pub document_id : String
  pub source_revision : ℕ
  pub source_current : Bool
  pub head_revision : ℕ
  pub status : JobStatus
  pub transition_number : ℕ
  pub counts : ProgressCounts
  pub demand : Option ProgressDemand
  pub structural_continuation : Bool
  pub lease_expires_at : Option Time
  pub retry : Retry
  pub blocker : Option Blocker
  pub final_output : Option OutputRefs
  pub expires_at : Time
  pub observed_at : Time
  pub contracts : ProgressContracts

pub record Progress : Type 0 where
  pub facts : ProgressFacts
  pub open facts use *
  pub fingerprint : String

abbrev demand_shown : Option Demand → Option ProgressDemand
demand_shown none = none
demand_shown (some d) = some (record {
  demand_fingerprint = d.fingerprint;
  item_index = d.item_index;
  section_id = d.section_id;
  zone_id = d.zone_id;
  root_node_id = d.root_node_id;
  root_node_type = d.root_node_type;
  family = d.family;
})

abbrev lease_end : Option Lease → Option Time
lease_end none = none
lease_end (some l) = some l.expires_at

abbrev is_ready_to_advance : JobStatus → Bool
is_ready_to_advance ready_to_advance = true
is_ready_to_advance _ = false

abbrev counts_of : JobHead → ProgressCounts
counts_of h = record {
  page_count = h.chain.page_count;
  placement_count = h.chain.placement_count;
  heading_count = h.chain.heading_count;
  retained_record_count = h.retention.record_count;
  retained_byte_count = h.retention.byte_count;
  body_item_completion_count = h.cursor.cumulative_work.body_items_completed;
  family_page_count = h.cursor.cumulative_work.family_pages_consumed;
  page_advance_count = h.cursor.cumulative_work.page_advances;
}

abbrev progress_facts : SourcePin → Bool → Time → JobHead → ProgressFacts
progress_facts pin current at h = record {
  source = "flowdoc-backend-composition-progress";
  schema_version = 1;
  kind = "composition-progress";
  job_id = h.job_id;
  document_id = pin.document_id;
  source_revision = pin.base_revision;
  source_current = current;
  head_revision = h.head_revision;
  status = h.status;
  transition_number = h.transition_number;
  counts = counts_of h;
  demand = demand_shown h.demand;
  structural_continuation = is_ready_to_advance h.status;
  lease_expires_at = lease_end h.lease;
  retry = h.retry;
  blocker = h.blocker;
  final_output = h.final_output;
  expires_at = h.expires_at;
  observed_at = at;
  contracts = record {
    exposes_cursor = false;
    exposes_open_page = false;
    exposes_family_window = false;
    exposes_storage_paths = false;
    renderer_output = false;
    editor_command_policy = false;
  };
}

pub data ProgressRead : Type 0 where
  progress_ready : Progress → ProgressRead
  progress_blocked progress_failed : ProgressRead

unfoldable pub projected : Option Progress → ProgressRead
projected none = progress_blocked
projected (some p) = progress_ready p

module _ (core : CompositionCore) ⦃head_digest : Digest JobFacts⦄ ⦃pin_digest : Digest PinFacts⦄
    ⦃chunk_digest : Digest ChunkFacts⦄ ⦃receipt_digest : Digest ReceiptFacts⦄
    ⦃progress_digest : Digest ProgressFacts⦄ where
  abbrev pub progress_of : SourcePin → Bool → Time → JobHead → Progress
  progress_of pin current at h = record {
    facts = progress_facts pin current at h;
    fingerprint = fingerprint (progress_facts pin current at h);
  }

  unfoldable pub shown : SourcePin → Bool → Time → Option JobHead → Option Progress
  shown pin current at none = none
  shown pin current at (some h) = some (progress_of pin current at h)

  -- createFlowDocBackendCompositionProgressV1
  unfoldable pub create_progress : SourcePin → Manifest → JobHead → Bool → Time → Option Progress
  unfolding shown
  create_progress pin m h current at = shown pin current at (parse_head_of core pin m h)

  unfoldable pub read_projected : ℕ → Time → Read StoredHead → ProgressRead
  unfolding create_progress projected
  read_projected revision at missing = progress_failed
  read_projected revision at unreadable = progress_failed
  read_projected revision at (found x) =
      projected (create_progress x.pin x.manifest x.head (revision == x.pin.base_revision) at)

  -- readFlowDocBackendCompositionProgressV1
  unfoldable pub read_progress :
      (json : StoredValue → String) → Repository → String → ℕ → Time → ProgressRead
  unfolding read_projected
  read_progress json s job revision at = read_projected revision at (read_head core json s job)
