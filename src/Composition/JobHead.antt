-- ===== src/Composition/JobHead.antt =====
-- The head of a composition job and its parser (composition/compositionSchedulerJobHead.ts).
pub mod Validity
use flowdoc_vnext_backend.Common.{
  ℕ, ◌+◌, String, Bool, true, false, not, ◌&&◌, ◌||◌, Option, none, some, ltb, leb, ◌==◌, number_eq,
  text_eq, if◌then◌else◌,
}
use flowdoc_vnext_backend.Common.Text.{is_short, is_fingerprint, is_within_512}
use flowdoc_vnext_backend.PdfExport.Issue.{Time, Digest, fingerprint}
use flowdoc_vnext_backend.Composition.Core.{
  Manifest, ActiveRoot, Cursor, OpenPage, Demand, CompositionCore,
}
use flowdoc_vnext_backend.Composition.SourcePin.{
  ContentKind, ContentRef, page_plan, heading_page_map, kind_beq, in_range, ref_valid, Retention,
  SourcePin, max_retained_bytes, max_retained_records, max_attempts, max_safe,
}

pub data JobStatus : Type 0 where
  waiting_window ready_to_advance ready_to_finalize completed blocked cancelled expired : JobStatus

pub record Lease : Type 0 where
  pub attempt_id : String
  pub lease_token : String
  pub acquired_at : Time
  pub expires_at : Time

pub record Retry : Type 0 where
  pub attempt_count : ℕ
  pub retry_after : Option Time

pub record Blocker : Type 0 where
  pub code : String
  pub message : String
  pub path : String
  pub retryable : Bool
  pub recorded_at : Time

pub record OutputRefs : Type 0 where
  pub composition_fingerprint : String
  pub page_plan_ref : ContentRef
  pub heading_page_map_ref : ContentRef

pub record Chain : Type 0 where
  pub transition_receipt_tip : Option String
  pub closed_page_chunk_tip : Option String
  pub closed_page_prefix : Option String
  pub page_count : ℕ
  pub placement_count : ℕ
  pub heading_count : ℕ

pub record JobFacts : Type 0 where
  pub source : String
  pub schema_version : ℕ
  pub kind : String
  pub job_id : String
  pub head_revision : ℕ
  pub source_pin_fingerprint : String
  pub manifest_fingerprint : String
  pub status : JobStatus
  pub transition_number : ℕ
  pub cursor : Cursor
  pub open_page : Option OpenPage
  pub demand : Option Demand
  pub chain : Chain
  pub retention : Retention
  pub lease : Option Lease
  pub retry : Retry
  pub blocker : Option Blocker
  pub final_output : Option OutputRefs
  pub created_at : Time
  pub updated_at : Time
  pub expires_at : Time

pub record JobHead : Type 0 where
  pub facts : JobFacts
  pub open facts use *
  pub fingerprint : String

abbrev pub job_head_source : String
job_head_source = "flowdoc-backend-composition-job-head"

abbrev pub is_some {ℓ} : {A : Type ℓ} → Option A → Bool
is_some none = false
is_some (some _) = true

-- A test of what a nullable field holds; null passes it.
abbrev pub every {ℓ} : {A : Type ℓ} → (A → Bool) → Option A → Bool
every p none = true
every p (some a) = p a

abbrev pub same_bool : Bool → Bool → Bool
same_bool true b = b
same_bool false b = not b

-- `===` on nullable texts.
abbrev pub same_text : Option String → Option String → Bool
same_text none none = true
same_text (some s) (some t) = s == t
same_text _ _ = false

-- readLease
unfoldable pub lease_valid : Lease → Bool
lease_valid l = is_short l.attempt_id && is_short l.lease_token && ltb l.acquired_at l.expires_at

-- readRetry
unfoldable pub retry_valid : Retry → Bool
retry_valid r = in_range 0 max_attempts r.attempt_count

-- readRetention
unfoldable pub retention_valid : Retention → Bool
retention_valid r =
    in_range 2 max_retained_records r.record_count && in_range 1 max_retained_bytes r.byte_count

-- readBlocker
unfoldable pub blocker_valid : Blocker → Bool
blocker_valid b = is_short b.code && is_short b.message && is_within_512 b.path

-- readChain
unfoldable pub chain_valid : Chain → Bool
chain_valid c =
    every is_fingerprint c.transition_receipt_tip
    && every is_fingerprint c.closed_page_chunk_tip
    && every is_fingerprint c.closed_page_prefix
    && in_range 0 1_000_000 c.page_count
    && in_range 0 10_000_000 c.placement_count
    && in_range 0 10_000_000 c.heading_count
    && same_bool (c.page_count == 0) (not (is_some c.closed_page_chunk_tip))
    && same_bool (c.page_count == 0) (not (is_some c.closed_page_prefix))

-- A reference of the job, of the kind.
unfoldable pub own_ref : String → ContentKind → ContentRef → Bool
unfolding ref_valid
own_ref job k r = ref_valid r && r.job_id == job && kind_beq r.kind k

-- readFinalOutput
unfoldable pub output_valid : String → OutputRefs → Bool
unfolding own_ref
output_valid job o =
    is_fingerprint o.composition_fingerprint
    && own_ref job page_plan o.page_plan_ref
    && own_ref job heading_page_map o.heading_page_map_ref

-- validatedContext: whether it reports nothing.
unfoldable pub owners_match : SourcePin → Manifest → Bool
owners_match pin m =
    pin.document_id == m.document_id
    && pin.manifest_fingerprint == m.fingerprint
    && pin.resolved_projection_fingerprint == m.resolved_projection_fingerprint

-- The texts and the numbers that are read one by one.
unfoldable pub scalars_valid : JobFacts → Bool
scalars_valid f =
    f.source == job_head_source
    && f.schema_version == 1
    && f.kind == "composition-job-head"
    && is_short f.job_id
    && in_range 0 max_safe f.head_revision
    && is_fingerprint f.source_pin_fingerprint
    && is_fingerprint f.manifest_fingerprint
    && in_range 0 1_000_000 f.transition_number

-- The parts that are read after them.
unfoldable pub parts_valid : JobFacts → Bool
unfolding chain_valid retention_valid lease_valid retry_valid blocker_valid output_valid
parts_valid f =
    chain_valid f.chain
    && retention_valid f.retention
    && every lease_valid f.lease
    && retry_valid f.retry
    && every blocker_valid f.blocker
    && every (output_valid f.job_id) f.final_output

-- The head belongs to its source pin, and its cursor and demand to the manifest.
unfoldable pub owners_valid : SourcePin → Manifest → JobFacts → Bool
owners_valid pin m f =
    f.job_id == pin.job_id
    && f.source_pin_fingerprint == pin.fingerprint
    && f.manifest_fingerprint == pin.manifest_fingerprint
    && f.created_at == pin.created_at
    && f.expires_at == pin.expires_at
    && f.cursor.document_id == m.document_id
    && f.cursor.manifest_fingerprint == m.fingerprint
    && every
        (λ (d : Demand). d.document_id == m.document_id && d.manifest_fingerprint == m.fingerprint)
        f.demand

unfoldable pub chain_matches : JobFacts → Bool
chain_matches f =
    f.cursor.closed_prefix.page_count == f.chain.page_count
    && f.cursor.closed_prefix.placement_count == f.chain.placement_count
    && f.cursor.closed_prefix.heading_count == f.chain.heading_count
    && same_text f.cursor.closed_prefix.fingerprint f.chain.closed_page_prefix
    && same_bool (f.transition_number == 0) (not (is_some f.chain.transition_receipt_tip))

-- Whether a demand is for the active root.
unfoldable pub demand_matches : Option Demand → Option ActiveRoot → Bool
demand_matches (some d) (some r) =
    d.item_index == r.item_index
    && d.root_node_id == r.root_node_id
    && d.family == r.family
    && d.state_fingerprint == r.state_fingerprint
demand_matches _ _ = true

-- What the status asks of the cursor, the demand, the open page, the output and the lease.
unfoldable pub state_valid : JobStatus → JobFacts → Bool
unfolding demand_matches
state_valid waiting_window f =
    not f.cursor.complete
    && is_some f.demand
    && is_some f.cursor.active_root
    && not (is_some f.final_output)
    && demand_matches f.demand f.cursor.active_root
state_valid ready_to_advance f =
    not f.cursor.complete
    && not (is_some f.cursor.active_root)
    && not (is_some f.demand)
    && not (is_some f.final_output)
state_valid ready_to_finalize f =
    f.cursor.complete
    && not (is_some f.demand)
    && not (is_some f.open_page)
    && not (is_some f.final_output)
state_valid completed f =
    f.cursor.complete
    && not (is_some f.demand)
    && not (is_some f.open_page)
    && is_some f.final_output
    && not (is_some f.lease)
state_valid _ f = not (is_some f.demand) && not (is_some f.final_output) && not (is_some f.lease)

abbrev pub is_blocked : JobStatus → Bool
is_blocked blocked = true
is_blocked _ = false

unfoldable pub blocker_matches : JobStatus → Option Blocker → Bool
blocker_matches status none = not (is_blocked status)
blocker_matches status (some b) = is_blocked status || b.retryable

unfoldable pub limits_valid : SourcePin → JobFacts → Bool
limits_valid pin f =
    leb f.retry.attempt_count pin.execution_limits.maximum_attempt_count
    && leb (pin.source_snapshot_ref.byte_length + pin.manifest_ref.byte_length)
        f.retention.byte_count
    && leb f.retention.byte_count pin.execution_limits.maximum_retained_byte_count

unfoldable pub times_valid : JobFacts → Bool
times_valid f =
    leb f.created_at f.updated_at
    && leb f.updated_at f.expires_at
    && every (λ (l : Lease). leb f.updated_at l.acquired_at && leb l.expires_at f.expires_at)
        f.lease

-- What Core's parsers give for the cursor, the open page and the demand.
unfoldable pub with_state : JobFacts → Option (Cursor × Option OpenPage) → Option JobFacts
with_state f none = none
with_state f (some (c, o)) = some (record f { cursor = c; open_page = o })

unfoldable pub with_demand :
    Option JobFacts → Option Demand → (Demand → Option Demand) → Option JobFacts
with_demand none d parse = none
with_demand (some f) none parse = some f
with_demand (some f) (some d) parse = elim (parse d) [
  | none ↦ none
  | some e ↦ some (record f { demand = some e })
]

unfoldable pub all_valid : SourcePin → Manifest → JobFacts → Bool
unfolding owners_match scalars_valid parts_valid owners_valid chain_matches state_valid
    blocker_matches limits_valid times_valid
all_valid pin m f =
    owners_match pin m
    && scalars_valid f
    && parts_valid f
    && owners_valid pin m f
    && chain_matches f
    && state_valid f.status f
    && blocker_matches f.status f.blocker
    && limits_valid pin f
    && times_valid f

unfoldable pub checked : SourcePin → Manifest → Option JobFacts → Option JobFacts
unfolding all_valid
checked pin m none = none
checked pin m (some f) = if all_valid pin m f then some f else none

-- readJobHeadFacts, in a validated context.
unfoldable pub read_facts : CompositionCore → SourcePin → Manifest → JobFacts → Option JobFacts
unfolding with_state with_demand checked
read_facts core pin m f = checked pin m (
    with_demand (with_state f (core.parse_state m f.cursor f.open_page)) f.demand core.parse_demand)

module _ ⦃d : Digest JobFacts⦄ where
  unfoldable pub finalized : Option JobFacts → Option JobHead
  finalized none = none
  finalized (some f) = some (record { facts = f; fingerprint = fingerprint f })

  -- finalizeFlowDocBackendCompositionJobHeadWithValidatedContextV1
  unfoldable pub finalize_head : CompositionCore → SourcePin → Manifest → JobFacts → Option JobHead
  unfolding read_facts finalized
  finalize_head core pin m f = finalized (read_facts core pin m f)

  -- The comparison of the fingerprint that is made with the one that was read.
  unfoldable pub same_head : String → Option JobHead → Option JobHead
  same_head text none = none
  same_head text (some h) = if h.fingerprint == text then some h else none

  -- parseFlowDocBackendCompositionJobHeadWithValidatedContextV1
  unfoldable pub parse_head : CompositionCore → SourcePin → Manifest → JobHead → Option JobHead
  unfolding read_facts finalized same_head
  parse_head core pin m h =
      if is_fingerprint h.fingerprint
      then same_head h.fingerprint (finalized (read_facts core pin m h.facts))
      else none
