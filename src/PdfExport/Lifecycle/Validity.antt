-- ===== src/PdfExport/Lifecycle/Validity.antt =====
-- What a lifecycle head must satisfy, said without the parser of pdfExport/pdfExportLifecycle.ts.
pub mod Parser
use flowdoc_vnext_backend.Common.{◌+◌, ◌≤◌, ◌<◌, ◌≡◌, ◌≢◌, true, Option, none, some}
use flowdoc_vnext_backend.Common.Text.{is_bounded, is_fingerprint}
use flowdoc_vnext_backend.PdfExport.Issue.{Digest, fingerprint}
use flowdoc_vnext_backend.PdfExport.Lifecycle.Head.{
  Status, pending, claimed, stopped, Claim, Cancellation, Release, CheckpointCheck, Stop, HeadFacts,
  Head, head_source, lifecycle_version, max_claim_duration_ms, exact_contracts, cancellation_reason,
  is_cancelled,
}

-- A property of what a nullable field holds.
abbrev pub Holds {ℓ} : {A : Type ℓ} → (A → Type 0) → Option A → Type 0
Holds P none = Unit
Holds P (some a) = P a

pub record ClaimFits (f : HeadFacts) (c : Claim) : Type 0 where
  pub token : is_bounded c.claim_token ≡ true
  pub worker : is_bounded c.worker_id ≡ true
  pub positive : 0 < c.attempt_number
  pub current : c.attempt_number ≡ f.attempt_count
  pub opens : c.claimed_at < c.expires_at
  pub short : c.expires_at ≤ c.claimed_at + max_claim_duration_ms
  pub from_creation : f.created_at ≤ c.claimed_at
  pub until_update : c.claimed_at ≤ f.updated_at
  pub in_deadline : c.expires_at ≤ f.deadline_at

pub record CancellationFits (f : HeadFacts) (c : Cancellation) : Type 0 where
  pub transition : is_bounded c.transition_id ≡ true
  pub from_creation : f.created_at ≤ c.requested_at
  pub until_update : c.requested_at ≤ f.updated_at

pub record ReleaseFits (f : HeadFacts) (r : Release) : Type 0 where
  pub token : is_bounded r.claim_token ≡ true
  pub worker : is_bounded r.worker_id ≡ true
  pub positive : 0 < r.attempt_number
  pub counted : r.attempt_number ≤ f.attempt_count
  pub until_update : r.released_at ≤ f.updated_at
  pub retry : Holds (λ t. (r.released_at ≤ t) × (t < f.deadline_at)) r.retry_after

pub record CheckFits (f : HeadFacts) (k : CheckpointCheck) : Type 0 where
  pub token : is_bounded k.claim_token ≡ true
  pub place : k.checkpoint ≡ f.checkpoint
  pub time : k.checked_at ≡ f.updated_at
  pub has_claim : f.claim ≢ none
  pub owner : Holds (λ c. k.claim_token ≡ c.claim_token) f.claim

pub record StopFits (f : HeadFacts) (s : Stop) : Type 0 where
  pub place : s.checkpoint ≡ f.checkpoint
  pub time : s.stopped_at ≡ f.updated_at
  pub reason : is_cancelled s.reason ≡ true → s.reason ≡ cancellation_reason s.checkpoint
  pub cause : is_cancelled s.reason ≡ true → f.cancellation ≢ none

abbrev pub StateFits : Status → HeadFacts → Type 0
StateFits pending f = (f.claim ≡ none) × (f.checkpoint_check ≡ none) × (f.stop ≡ none)
StateFits claimed f = (f.claim ≢ none) × (f.stop ≡ none) × (f.retry_after ≡ none)
StateFits stopped f =
    (f.claim ≡ none) × (f.checkpoint_check ≡ none) × (f.stop ≢ none) × (f.retry_after ≡ none)

-- The identity of the head, which no transition changes.
pub record IdentityFits (f : HeadFacts) : Type 0 where
  pub source : f.source ≡ head_source
  pub version : f.contract_version ≡ lifecycle_version
  pub kind : f.kind ≡ "pdf-export-lifecycle-head"
  pub operation : is_bounded f.operation_id ≡ true
  pub tenant : is_bounded f.scope.tenant_id ≡ true
  pub principal : is_bounded f.scope.principal_id ≡ true
  pub operation_fingerprint : is_fingerprint f.operation_fingerprint ≡ true
  pub admission_fingerprint : is_fingerprint f.admission_fingerprint ≡ true
  pub payload_fingerprint : is_fingerprint f.payload_fingerprint ≡ true

pub record FactsAreValid (f : HeadFacts) : Type 0 where
  pub identity : IdentityFits f
  pub contracts : f.contracts ≡ exact_contracts
  pub some_attempt : 0 < f.max_attempts
  pub attempts : f.attempt_count ≤ f.max_attempts
  pub time : f.created_at ≤ f.updated_at
  pub deadline : f.created_at < f.deadline_at
  pub state : StateFits f.status f
  pub claim : Holds (ClaimFits f) f.claim
  pub cancellation : Holds (CancellationFits f) f.cancellation
  pub last_release : Holds (ReleaseFits f) f.last_release
  pub checkpoint_check : Holds (CheckFits f) f.checkpoint_check
  pub stop : Holds (StopFits f) f.stop

pub record IsValid ⦃d : Digest HeadFacts⦄ (h : Head) : Type 0 where
  pub facts : FactsAreValid h.facts
  pub fingerprint_form : is_fingerprint h.lifecycle_fingerprint ≡ true
  pub fingerprint_matches : fingerprint h.facts ≡ h.lifecycle_fingerprint
