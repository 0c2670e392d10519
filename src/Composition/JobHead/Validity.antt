-- ===== src/Composition/JobHead/Validity.antt =====
-- What a job head must satisfy, said without the parser of composition/compositionSchedulerJobHead.ts.
pub mod Conditions
pub mod Parser
use flowdoc_vnext_backend.Common.{
  ◌+◌, ◌≤◌, ◌<◌, ◌≡◌, ◌≢◌, ◌↔◌, Bool, true, false, String, Option, none, some,
}
use flowdoc_vnext_backend.Common.Text.{is_short, is_fingerprint, is_within_512}
use flowdoc_vnext_backend.PdfExport.Issue.{Time, Digest, fingerprint}
use flowdoc_vnext_backend.Composition.Core.{
  Manifest, ActiveRoot, Cursor, OpenPage, Demand, CompositionCore,
}
use flowdoc_vnext_backend.Composition.SourcePin.{
  ContentKind, ContentRef, page_plan, heading_page_map, Retention, SourcePin, max_retained_bytes,
  max_retained_records, max_attempts, max_safe,
}
use flowdoc_vnext_backend.Composition.JobHead.{
  JobStatus, waiting_window, ready_to_advance, ready_to_finalize, completed, blocked, cancelled,
  expired, Lease, Blocker, OutputRefs, Chain, JobFacts, JobHead, job_head_source,
}

-- A property of what a nullable field holds.
abbrev pub Holds : {A : Type 0} → (A → Type 0) → Option A → Type 0
Holds P none = Unit {0}
Holds P (some a) = P a

abbrev pub IsFingerprint : String → Type 0
IsFingerprint s = is_fingerprint s ≡ true

pub record RefFits (r : ContentRef) : Type 0 where
  pub job : is_short r.job_id ≡ true
  pub name : is_short r.record_id ≡ true
  pub form : IsFingerprint r.record_fingerprint
  pub some_bytes : 0 < r.byte_length
  pub bytes : r.byte_length ≤ max_retained_bytes

-- A reference of a job, of a kind.
pub record OwnRef (job : String) (k : ContentKind) (r : ContentRef) : Type 0 where
  pub fits : RefFits r
  pub owner : r.job_id ≡ job
  pub kind : r.kind ≡ k

pub record LeaseFits (l : Lease) : Type 0 where
  pub attempt : is_short l.attempt_id ≡ true
  pub token : is_short l.lease_token ≡ true
  pub opens : l.acquired_at < l.expires_at

pub record BlockerFits (b : Blocker) : Type 0 where
  pub code : is_short b.code ≡ true
  pub message : is_short b.message ≡ true
  pub path : is_within_512 b.path ≡ true

pub record ChainFits (c : Chain) : Type 0 where
  pub receipts : Holds IsFingerprint c.transition_receipt_tip
  pub chunks : Holds IsFingerprint c.closed_page_chunk_tip
  pub prefix : Holds IsFingerprint c.closed_page_prefix
  pub pages : c.page_count ≤ 1_000_000
  pub placements : c.placement_count ≤ 10_000_000
  pub headings : c.heading_count ≤ 10_000_000
  pub no_chunk : (c.page_count ≡ 0) ↔ (c.closed_page_chunk_tip ≡ none)
  pub no_prefix : (c.page_count ≡ 0) ↔ (c.closed_page_prefix ≡ none)

pub record OutputFits (job : String) (o : OutputRefs) : Type 0 where
  pub form : IsFingerprint o.composition_fingerprint
  pub plan : OwnRef job page_plan o.page_plan_ref
  pub map : OwnRef job heading_page_map o.heading_page_map_ref

pub record RetentionFits (r : Retention) : Type 0 where
  pub some_records : 2 ≤ r.record_count
  pub records : r.record_count ≤ max_retained_records
  pub some_bytes : 1 ≤ r.byte_count
  pub bytes : r.byte_count ≤ max_retained_bytes

pub record ScalarsFit (f : JobFacts) : Type 0 where
  pub source : f.source ≡ job_head_source
  pub version : f.schema_version ≡ 1
  pub kind : f.kind ≡ "composition-job-head"
  pub job : is_short f.job_id ≡ true
  pub revision : f.head_revision ≤ max_safe
  pub pin_form : IsFingerprint f.source_pin_fingerprint
  pub manifest_form : IsFingerprint f.manifest_fingerprint
  pub transitions : f.transition_number ≤ 1_000_000

pub record PartsFit (f : JobFacts) : Type 0 where
  pub chain : ChainFits f.chain
  pub retention : RetentionFits f.retention
  pub lease : Holds LeaseFits f.lease
  pub attempts : f.retry.attempt_count ≤ max_attempts
  pub blocker : Holds BlockerFits f.blocker
  pub output : Holds (OutputFits f.job_id) f.final_output

-- The pin and the manifest belong together, and the head to both.
pub record OwnersFit (pin : SourcePin) (m : Manifest) (f : JobFacts) : Type 0 where
  pub document : pin.document_id ≡ m.document_id
  pub manifest : pin.manifest_fingerprint ≡ m.fingerprint
  pub projection : pin.resolved_projection_fingerprint ≡ m.resolved_projection_fingerprint
  pub job : f.job_id ≡ pin.job_id
  pub source_pin : f.source_pin_fingerprint ≡ pin.fingerprint
  pub own_manifest : f.manifest_fingerprint ≡ pin.manifest_fingerprint
  pub created : f.created_at ≡ pin.created_at
  pub expires : f.expires_at ≡ pin.expires_at
  pub cursor_document : f.cursor.document_id ≡ m.document_id
  pub cursor_manifest : f.cursor.manifest_fingerprint ≡ m.fingerprint
  pub demand :
      Holds
        (λ (d : Demand). (d.document_id ≡ m.document_id) × (d.manifest_fingerprint ≡ m.fingerprint))
        f.demand

-- The chain is the closed prefix of the cursor.
pub record PrefixFits (f : JobFacts) : Type 0 where
  pub pages : f.cursor.closed_prefix.page_count ≡ f.chain.page_count
  pub placements : f.cursor.closed_prefix.placement_count ≡ f.chain.placement_count
  pub headings : f.cursor.closed_prefix.heading_count ≡ f.chain.heading_count
  pub prefix : f.cursor.closed_prefix.fingerprint ≡ f.chain.closed_page_prefix
  pub first : (f.transition_number ≡ 0) ↔ (f.chain.transition_receipt_tip ≡ none)

-- A demand is for the active root.
pub record Demands (d : Demand) (r : ActiveRoot) : Type 0 where
  pub item : d.item_index ≡ r.item_index
  pub root : d.root_node_id ≡ r.root_node_id
  pub family : d.family ≡ r.family
  pub state : d.state_fingerprint ≡ r.state_fingerprint

abbrev pub StateFits : JobStatus → JobFacts → Type 0
StateFits waiting_window f =
    (f.cursor.complete ≡ false)
    × (f.final_output ≡ none)
    × ((d : Demand) × (r : ActiveRoot) × (f.demand ≡ some d)
        × (f.cursor.active_root ≡ some r)
        × Demands d r)
StateFits ready_to_advance f =
    (f.cursor.complete ≡ false)
    × (f.final_output ≡ none)
    × (f.demand ≡ none)
    × (f.cursor.active_root ≡ none)
StateFits ready_to_finalize f =
    (f.cursor.complete ≡ true) × (f.final_output ≡ none) × (f.demand ≡ none) × (f.open_page ≡ none)
StateFits completed f =
    (f.cursor.complete ≡ true)
    × (f.final_output ≢ none)
    × (f.demand ≡ none)
    × (f.open_page ≡ none)
    × (f.lease ≡ none)
StateFits blocked f = (f.final_output ≡ none) × (f.demand ≡ none) × (f.lease ≡ none)
StateFits cancelled f = (f.final_output ≡ none) × (f.demand ≡ none) × (f.lease ≡ none)
StateFits expired f = (f.final_output ≡ none) × (f.demand ≡ none) × (f.lease ≡ none)

-- A blocked job has a blocker; the others keep only a retryable one.
abbrev pub BlockedFits : JobStatus → Option Blocker → Type 0
BlockedFits status none = status ≢ blocked
BlockedFits status (some b) = status ≢ blocked → b.retryable ≡ true

pub record LimitsFit (pin : SourcePin) (f : JobFacts) : Type 0 where
  pub attempts : f.retry.attempt_count ≤ pin.execution_limits.maximum_attempt_count
  pub initial :
      pin.source_snapshot_ref.byte_length + pin.manifest_ref.byte_length ≤ f.retention.byte_count
  pub bytes : f.retention.byte_count ≤ pin.execution_limits.maximum_retained_byte_count

pub record TimesFit (f : JobFacts) : Type 0 where
  pub from_creation : f.created_at ≤ f.updated_at
  pub until_expiry : f.updated_at ≤ f.expires_at
  pub lease :
      Holds (λ (l : Lease). (f.updated_at ≤ l.acquired_at) × (l.expires_at ≤ f.expires_at)) f.lease

pub record FactsFit (pin : SourcePin) (m : Manifest) (f : JobFacts) : Type 0 where
  pub scalars : ScalarsFit f
  pub parts : PartsFit f
  pub owners : OwnersFit pin m f
  pub prefix : PrefixFits f
  pub state : StateFits f.status f
  pub blocked : BlockedFits f.status f.blocker
  pub limits : LimitsFit pin f
  pub times : TimesFit f

-- Core's parsers give the cursor, the open page and the demand back.
pub record Accepted (core : CompositionCore) (m : Manifest) (f : JobFacts) : Type 0 where
  pub state : core.parse_state m f.cursor f.open_page ≡ some (f.cursor, f.open_page)
  pub demand : Holds (λ (x : Demand). core.parse_demand x ≡ some x) f.demand

pub record IsValid (core : CompositionCore) ⦃d : Digest JobFacts⦄ (pin : SourcePin) (m : Manifest)
    (h : JobHead) : Type 0 where
  pub facts : FactsFit pin m h.facts
  pub accepted : Accepted core m h.facts
  pub matches : h.fingerprint ≡ fingerprint h.facts
