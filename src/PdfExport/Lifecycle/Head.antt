-- ===== src/PdfExport/Lifecycle/Head.antt =====
-- The lifecycle head, its transition requests and receipts (pdfExport/pdfExportLifecycle.ts,
-- lines 21 to 194). A head and a receipt are their facts and the fingerprint of those.
use flowdoc_vnext_backend.Common.{
  ℕ, ◌*◌, String, ◌≡◌, ◌↔◌, Bool, true, false, Option, StrictEq, arith,
}
use flowdoc_vnext_backend.PdfExport.Issue.{Time, Scope}

pub data Checkpoint : Type 0 where
  before_handoff before_render before_persist : Checkpoint

pub data StopReason : Type 0 where
  cancelled_before_handoff cancelled_before_render cancelled_before_persist : StopReason
  deadline_exceeded attempts_exhausted shutdown_forced : StopReason

pub data Status : Type 0 where
  pending claimed stopped : Status

pub record Claim : Type 0 where
  pub claim_token : String
  pub worker_id : String
  pub attempt_number : ℕ
  pub claimed_at : Time
  pub expires_at : Time

pub record Cancellation : Type 0 where
  pub transition_id : String
  pub requested_at : Time

pub record Release : Type 0 where
  pub claim_token : String
  pub worker_id : String
  pub attempt_number : ℕ
  pub released_at : Time
  pub retry_after : Option Time

pub record CheckpointCheck : Type 0 where
  pub checkpoint : Checkpoint
  pub claim_token : String
  pub checked_at : Time

pub record Stop : Type 0 where
  pub reason : StopReason
  pub checkpoint : Checkpoint
  pub stopped_at : Time

pub record LifecycleContracts : Type 0 where
  pub revision_compare_and_swap : Bool
  pub durable_transition_replay : Bool
  pub bounded_claims : Bool
  pub bounded_attempts : Bool
  pub deadline_enforcement : Bool
  pub checkpoint_cancellation : Bool
  pub renderer_execution : Bool
  pub byte_persistence : Bool
  pub artifact_projection : Bool
  pub backend_route : Bool
  pub production_binding : Bool

pub record HeadFacts : Type 0 where
  pub source : String
  pub contract_version : ℕ
  pub kind : String
  pub operation_id : String
  pub scope : Scope
  pub operation_fingerprint : String
  pub admission_fingerprint : String
  pub payload_fingerprint : String
  pub head_revision : ℕ
  pub status : Status
  pub checkpoint : Checkpoint
  pub attempt_count : ℕ
  pub max_attempts : ℕ
  pub retry_after : Option Time
  pub claim : Option Claim
  pub cancellation : Option Cancellation
  pub last_release : Option Release
  pub checkpoint_check : Option CheckpointCheck
  pub stop : Option Stop
  pub created_at : Time
  pub updated_at : Time
  pub deadline_at : Time
  pub contracts : LifecycleContracts

pub record Head : Type 0 where
  pub facts : HeadFacts
  pub open facts use *
  pub lifecycle_fingerprint : String

-- What a request asks for, with the fields of that kind.
pub data TransitionKind : Type 0 where
  claim : String → String → Time → TransitionKind
  request_cancellation : TransitionKind
  pass_checkpoint : String → Checkpoint → TransitionKind
  release_claim : String → Option Time → TransitionKind
  check_checkpoint : String → TransitionKind
  enforce_deadline : TransitionKind
  force_shutdown : TransitionKind

pub record TransitionRequest : Type 0 where
  pub transition_id : String
  pub tenant_id : String
  pub principal_id : String
  pub operation_id : String
  pub expected_head_revision : ℕ
  pub transition_at : Time
  pub kind : TransitionKind

-- The name of a kind, as the receipt keeps it.
pub data KindName : Type 0 where
  claim request_cancellation pass_checkpoint release_claim : KindName
  check_checkpoint enforce_deadline force_shutdown : KindName

pub record ReceiptFacts : Type 0 where
  pub source : String
  pub contract_version : ℕ
  pub kind : String
  pub transition_id : String
  pub operation_id : String
  pub transition_kind : KindName
  pub request_fingerprint : String
  pub from_head_revision : ℕ
  pub to_head_revision : ℕ
  pub result_head_fingerprint : String
  pub applied_at : Time

pub record Receipt : Type 0 where
  pub facts : ReceiptFacts
  pub open facts use *
  pub receipt_fingerprint : String

abbrev pub head_source : String
head_source = "flowdoc-backend-pdf-export-lifecycle-head"

abbrev pub transition_source : String
transition_source = "flowdoc-backend-pdf-export-lifecycle-transition"

abbrev pub lifecycle_version : ℕ
lifecycle_version = 1

abbrev pub max_claim_duration_ms : ℕ
max_claim_duration_ms = 5 * 60 * 1000

-- The boundaries of the lifecycle, the same in every head.
abbrev pub exact_contracts : LifecycleContracts
exact_contracts = record {
  revision_compare_and_swap = true;
  durable_transition_replay = true;
  bounded_claims = true;
  bounded_attempts = true;
  deadline_enforcement = true;
  checkpoint_cancellation = true;
  renderer_execution = false;
  byte_persistence = false;
  artifact_projection = false;
  backend_route = false;
  production_binding = false;
}

abbrev checkpoint_beq : Checkpoint → Checkpoint → Bool
checkpoint_beq before_handoff before_handoff = true
checkpoint_beq before_render before_render = true
checkpoint_beq before_persist before_persist = true
checkpoint_beq _ _ = false

pub checkpoint_beq_iff : (a b : Checkpoint) → (checkpoint_beq a b ≡ true) ↔ (a ≡ b)
checkpoint_beq_iff a b = ground arith

instance abbrev pub checkpoint_eq : StrictEq Checkpoint
checkpoint_eq = record { same = checkpoint_beq; same_iff = checkpoint_beq_iff }

abbrev reason_beq : StopReason → StopReason → Bool
reason_beq cancelled_before_handoff cancelled_before_handoff = true
reason_beq cancelled_before_render cancelled_before_render = true
reason_beq cancelled_before_persist cancelled_before_persist = true
reason_beq deadline_exceeded deadline_exceeded = true
reason_beq attempts_exhausted attempts_exhausted = true
reason_beq shutdown_forced shutdown_forced = true
reason_beq _ _ = false

pub reason_beq_iff : (a b : StopReason) → (reason_beq a b ≡ true) ↔ (a ≡ b)
reason_beq_iff a b = ground arith

instance abbrev pub reason_eq : StrictEq StopReason
reason_eq = record { same = reason_beq; same_iff = reason_beq_iff }

-- cancellationReason
abbrev pub cancellation_reason : Checkpoint → StopReason
cancellation_reason before_handoff = cancelled_before_handoff
cancellation_reason before_render = cancelled_before_render
cancellation_reason before_persist = cancelled_before_persist

-- `reason.startsWith("cancelled-")`
abbrev pub is_cancelled : StopReason → Bool
is_cancelled cancelled_before_handoff = true
is_cancelled cancelled_before_render = true
is_cancelled cancelled_before_persist = true
is_cancelled _ = false
