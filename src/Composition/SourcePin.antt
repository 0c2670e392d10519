-- ===== src/Composition/SourcePin.antt =====
-- Content references and the source pin of a job (composition/compositionSchedulerSourcePin.ts). A
-- value has the fields and the types of its V1 interface; the tests that remain are modelled.
use Prim.Native.String.{◌++◌}
use flowdoc_vnext_backend.Common.{
  ℕ, ◌+◌, String, Bool, true, false, not, ◌&&◌, Option, none, some, List, [], ◌∷◌, ltb, leb, ◌==◌,
  number_eq, text_eq, if◌then◌else◌,
}
use flowdoc_vnext_backend.Common.Text.{is_short, is_fingerprint}
use flowdoc_vnext_backend.PdfExport.Issue.{Time, Digest, fingerprint}

abbrev pub max_retained_bytes : ℕ
max_retained_bytes = 1_000_000_000

abbrev pub max_retained_records : ℕ
max_retained_records = 10_000_000

abbrev pub max_attempts : ℕ
max_attempts = 10_000

-- Number.MAX_SAFE_INTEGER
abbrev pub max_safe : ℕ
max_safe = 9_007_199_254_740_991

pub data ContentKind : Type 0 where
  source_snapshot composition_manifest family_window closed_page_chunk : ContentKind
  transition_receipt page_plan heading_page_map : ContentKind

abbrev pub kind_text : ContentKind → String
kind_text source_snapshot = "source-snapshot"
kind_text composition_manifest = "composition-manifest"
kind_text family_window = "family-window"
kind_text closed_page_chunk = "closed-page-chunk"
kind_text transition_receipt = "transition-receipt"
kind_text page_plan = "page-plan"
kind_text heading_page_map = "heading-page-map"

abbrev pub kind_beq : ContentKind → ContentKind → Bool
kind_beq source_snapshot source_snapshot = true
kind_beq composition_manifest composition_manifest = true
kind_beq family_window family_window = true
kind_beq closed_page_chunk closed_page_chunk = true
kind_beq transition_receipt transition_receipt = true
kind_beq page_plan page_plan = true
kind_beq heading_page_map heading_page_map = true
kind_beq _ _ = false

pub record ContentRef : Type 0 where
  pub kind : ContentKind
  pub job_id : String
  pub record_id : String
  pub record_fingerprint : String
  pub byte_length : ℕ

-- readCompositionInteger: whether it gives the number out.
abbrev pub in_range : ℕ → ℕ → ℕ → Bool
in_range low high n = leb low n && leb n high

-- parseFlowDocBackendCompositionContentRefV1: whether it accepts the reference.
unfoldable pub ref_valid : ContentRef → Bool
ref_valid r =
    is_short r.job_id
    && is_short r.record_id
    && is_fingerprint r.record_fingerprint
    && in_range 1 max_retained_bytes r.byte_length

pub record Retention : Type 0 where
  pub record_count : ℕ
  pub byte_count : ℕ

-- The key of a reference in the summary's map.
abbrev pub summary_key : ContentRef → String
summary_key r = r.job_id ++ ("\0" ++ (kind_text r.kind ++ ("\0" ++ r.record_id)))

abbrev pub add_ref : List ContentRef → ContentRef → List ContentRef
add_ref [] r = r ∷ []
add_ref (q ∷ qs) r = if summary_key q == summary_key r then r ∷ qs else q ∷ add_ref qs r

abbrev pub unique_refs : List ContentRef → List ContentRef → List ContentRef
unique_refs seen [] = seen
unique_refs seen (r ∷ rs) = unique_refs (add_ref seen r) rs

abbrev pub count_refs : List ContentRef → ℕ
count_refs [] = 0
count_refs (r ∷ rs) = count_refs rs + 1

abbrev pub total_bytes : List ContentRef → ℕ
total_bytes [] = 0
total_bytes (r ∷ rs) = r.byte_length + total_bytes rs

-- summarizeFlowDocBackendCompositionContentRefsV1
unfoldable pub summarize : List ContentRef → Retention
summarize refs = record {
  record_count = count_refs (unique_refs [] refs);
  byte_count = total_bytes (unique_refs [] refs);
}

pub record ExecutionLimits : Type 0 where
  pub maximum_transition_count : ℕ
  pub maximum_attempt_count : ℕ
  pub maximum_retained_byte_count : ℕ

pub record TransitionLimits : Type 0 where
  pub maximum_closed_page_count : ℕ
  pub maximum_placement_count : ℕ
  pub maximum_family_page_count : ℕ
  pub maximum_family_fragment_count : ℕ

pub record Profiles : Type 0 where
  pub layout_profile_id : String
  pub measurement_profile_id : String
  pub composition_profile_id : String

pub record PinFacts : Type 0 where
  pub source : String
  pub schema_version : ℕ
  pub kind : String
  pub job_id : String
  pub document_id : String
  pub package_version : ℕ
  pub document_version : ℕ
  pub base_revision : ℕ
  pub package_fingerprint : String
  pub resolved_projection_fingerprint : String
  pub manifest_fingerprint : String
  pub source_snapshot_ref : ContentRef
  pub manifest_ref : ContentRef
  pub profiles : Profiles
  pub transition_limits : TransitionLimits
  pub execution_limits : ExecutionLimits
  pub created_at : Time
  pub expires_at : Time

pub record SourcePin : Type 0 where
  pub facts : PinFacts
  pub open facts use *
  pub fingerprint : String

abbrev pub source_pin_source : String
source_pin_source = "flowdoc-backend-composition-source-pin"

unfoldable pub profiles_valid : Profiles → Bool
profiles_valid p =
    is_short p.layout_profile_id
    && is_short p.measurement_profile_id
    && is_short p.composition_profile_id

unfoldable pub transition_limits_valid : TransitionLimits → Bool
transition_limits_valid l =
    in_range 1 10_000 l.maximum_closed_page_count
    && in_range 1 100_000 l.maximum_placement_count
    && in_range 1 10_000 l.maximum_family_page_count
    && in_range 1 100_000 l.maximum_family_fragment_count

unfoldable pub execution_limits_valid : ExecutionLimits → Bool
execution_limits_valid l =
    in_range 1 1_000_000 l.maximum_transition_count
    && in_range 1 max_attempts l.maximum_attempt_count
    && in_range 1 max_retained_bytes l.maximum_retained_byte_count
    && not (ltb l.maximum_attempt_count l.maximum_transition_count)

-- readSourcePinFacts: whether it gives the facts out.
unfoldable pub pin_facts_valid : PinFacts → Bool
unfolding ref_valid profiles_valid transition_limits_valid execution_limits_valid
pin_facts_valid f =
    f.source == source_pin_source
    && f.schema_version == 1
    && f.kind == "composition-source-pin"
    && is_short f.job_id
    && is_short f.document_id
    && f.package_version == 3
    && f.document_version == 4
    && in_range 0 max_safe f.base_revision
    && is_fingerprint f.package_fingerprint
    && is_fingerprint f.resolved_projection_fingerprint
    && is_fingerprint f.manifest_fingerprint
    && ref_valid f.source_snapshot_ref
    && ref_valid f.manifest_ref
    && profiles_valid f.profiles
    && transition_limits_valid f.transition_limits
    && execution_limits_valid f.execution_limits
    && f.source_snapshot_ref.job_id == f.job_id
    && kind_beq f.source_snapshot_ref.kind source_snapshot
    && f.manifest_ref.job_id == f.job_id
    && kind_beq f.manifest_ref.kind composition_manifest
    && f.manifest_ref.record_fingerprint == f.manifest_fingerprint
    && ltb f.created_at f.expires_at

module _ ⦃d : Digest PinFacts⦄ where
  -- finalizeFlowDocBackendCompositionSourcePinV1
  unfoldable pub finalize_pin : PinFacts → Option SourcePin
  finalize_pin f =
      if pin_facts_valid f then some (record { facts = f; fingerprint = fingerprint f }) else none

  -- The comparison of the fingerprint that was read with the one that is made.
  unfoldable pub same_pin : SourcePin → Option SourcePin → Option SourcePin
  same_pin p none = none
  same_pin p (some q) = if q.fingerprint == p.fingerprint then some q else none

  -- parseFlowDocBackendCompositionSourcePinV1
  unfoldable pub parse_pin : SourcePin → Option SourcePin
  unfolding finalize_pin same_pin
  parse_pin p =
      if pin_facts_valid p.facts && is_fingerprint p.fingerprint
      then same_pin p (finalize_pin p.facts)
      else none
