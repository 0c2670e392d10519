-- ===== src/PdfExport/Lifecycle/Step/Relation.antt =====
-- The lifecycle as a step relation: what a request may do to a live head, and when.
use flowdoc_vnext_backend.Common.{◌+◌, ◌≤◌, ◌<◌, ◌≡◌, ◌≢◌, Option, none, some, String, ◌⊎◌}
use flowdoc_vnext_backend.PdfExport.Issue.{Time}
use flowdoc_vnext_backend.PdfExport.Lifecycle.Head.{
  Checkpoint, before_handoff, before_render, before_persist, deadline_exceeded, attempts_exhausted,
  shutdown_forced, Status, pending, claimed, stopped, Claim, HeadFacts, TransitionKind, claim,
  request_cancellation, pass_checkpoint, release_claim, check_checkpoint, enforce_deadline,
  force_shutdown, TransitionRequest, max_claim_duration_ms,
}
use flowdoc_vnext_backend.PdfExport.Lifecycle.Step.Effects.{
  after_stop, asked_by, cancelled_at, after_mark, after_claim, after_pass, after_exhaustion,
  after_release, after_check,
}

-- A null time holds nothing back.
abbrev pub NotBefore : Option Time → Time → Type 0
NotBefore none at = Unit
NotBefore (some t) at = t ≤ at

-- Whether a worker may take the head: a live claim excludes it, and so does a retry time.
abbrev pub IsFree : Status → HeadFacts → Time → Type 0
IsFree pending f at = NotBefore f.retry_after at
IsFree claimed f at = (c : Claim) → f.claim ≡ some c → c.expires_at ≤ at
IsFree stopped f at = Unit

abbrev pub Follows : Checkpoint → Checkpoint → Type 0
Follows a b =
    (a ≡ before_handoff) × (b ≡ before_render) ⊎ (a ≡ before_render) × (b ≡ before_persist)

abbrev pub RetryFits : HeadFacts → Time → Option Time → Type 0
RetryFits f at none = Unit
RetryFits f at (some t) = (at ≤ t) × (t < f.deadline_at)

-- The head is claimed under this token, and the claim has not expired.
pub record Owns (f : HeadFacts) (at : Time) (token : String) (c : Claim) : Type 0 where
  pub live : f.status ≡ claimed
  pub held : f.claim ≡ some c
  pub shown : c.claim_token ≡ token
  pub unexpired : at < c.expires_at

pub record MayClaim (f : HeadFacts) (at : Time) : Type 0 where
  pub in_time : at < f.deadline_at
  pub uncancelled : f.cancellation ≡ none
  pub free : IsFree f.status f at

-- The token that a request of the claim's owner shows.
abbrev pub token_of : TransitionKind → Option String
token_of (pass_checkpoint token _) = some token
token_of (release_claim token _) = some token
token_of (check_checkpoint token) = some token
token_of _ = none

pub data OwnerEffect (f : HeadFacts) (at : Time) (c : Claim) (g : HeadFacts)
    : TransitionKind → Type 0 where
  late :
      (k : TransitionKind)
      → f.deadline_at ≤ at
      → g ≡ after_stop f deadline_exceeded at f.cancellation
      → OwnerEffect f at c g k
  observed :
      (k : TransitionKind)
      → at < f.deadline_at
      → f.cancellation ≢ none
      → g ≡ after_stop f (cancelled_at f.checkpoint) at f.cancellation
      → OwnerEffect f at c g k
  passes :
      (token : String) (following : Checkpoint)
      → at < f.deadline_at
      → f.cancellation ≡ none
      → Follows f.checkpoint following
      → g ≡ after_pass f at following
      → OwnerEffect f at c g (pass_checkpoint token following)
  gives_up :
      (token : String) (retry : Option Time)
      → at < f.deadline_at
      → f.cancellation ≡ none
      → RetryFits f at retry
      → f.max_attempts ≤ f.attempt_count
      → g ≡ after_exhaustion f c at retry
      → OwnerEffect f at c g (release_claim token retry)
  releases :
      (token : String) (retry : Option Time)
      → at < f.deadline_at
      → f.cancellation ≡ none
      → RetryFits f at retry
      → f.attempt_count < f.max_attempts
      → g ≡ after_release f c at retry
      → OwnerEffect f at c g (release_claim token retry)
  checks :
      (token : String)
      → at < f.deadline_at
      → f.cancellation ≡ none
      → g ≡ after_check f c at
      → OwnerEffect f at c g (check_checkpoint token)

-- The effect of a kind at a time.
pub data Effect (f : HeadFacts) (r : TransitionRequest) (g : HeadFacts)
    : TransitionKind → Type 0 where
  forced :
      g ≡ after_stop f shutdown_forced r.transition_at f.cancellation → Effect f r g force_shutdown
  enforced :
      f.deadline_at ≤ r.transition_at
      → g ≡ after_stop f deadline_exceeded r.transition_at f.cancellation
      → Effect f r g enforce_deadline
  cancelled_late :
      f.cancellation ≡ none
      → f.deadline_at ≤ r.transition_at
      → g ≡ after_stop f deadline_exceeded r.transition_at (some (asked_by r))
      → Effect f r g request_cancellation
  cancelled_idle :
      f.cancellation ≡ none
      → r.transition_at < f.deadline_at
      → f.status ≡ pending
      → g ≡ after_stop f (cancelled_at f.checkpoint) r.transition_at (some (asked_by r))
      → Effect f r g request_cancellation
  marked :
      f.cancellation ≡ none
      → r.transition_at < f.deadline_at
      → f.status ≡ claimed
      → g ≡ after_mark f r
      → Effect f r g request_cancellation
  claimed_late :
      (token worker : String) (expires : Time)
      → f.deadline_at ≤ r.transition_at
      → g ≡ after_stop f deadline_exceeded r.transition_at f.cancellation
      → Effect f r g (claim token worker expires)
  claimed_cancelled :
      (token worker : String) (expires : Time)
      → r.transition_at < f.deadline_at
      → f.cancellation ≢ none
      → g ≡ after_stop f (cancelled_at f.checkpoint) r.transition_at f.cancellation
      → Effect f r g (claim token worker expires)
  exhausted :
      (token worker : String) (expires : Time)
      → MayClaim f r.transition_at
      → f.max_attempts ≤ f.attempt_count
      → g ≡ after_stop f attempts_exhausted r.transition_at f.cancellation
      → Effect f r g (claim token worker expires)
  claims :
      (token worker : String) (expires : Time)
      → MayClaim f r.transition_at
      → f.attempt_count < f.max_attempts
      → r.transition_at < expires
      → expires ≤ f.deadline_at
      → expires ≤ r.transition_at + max_claim_duration_ms
      → g ≡ after_claim f r.transition_at token worker expires
      → Effect f r g (claim token worker expires)
  owned :
      (k : TransitionKind) (token : String) (c : Claim)
      → token_of k ≡ some token
      → Owns f r.transition_at token c
      → OwnerEffect f r.transition_at c g k
      → Effect f r g k

-- A request is read at all if it is for this head at this revision, in time and before the end.
pub record Reads (f : HeadFacts) (r : TransitionRequest) : Type 0 where
  pub operation : r.operation_id ≡ f.operation_id
  pub revision : r.expected_head_revision ≡ f.head_revision
  pub time : f.updated_at ≤ r.transition_at
  pub live : f.status ≢ stopped

pub record Step (f : HeadFacts) (r : TransitionRequest) (g : HeadFacts) : Type 0 where
  pub reads : Reads f r
  pub effect : Effect f r g r.kind
