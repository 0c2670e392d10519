-- ===== src/PdfExport/Lifecycle/Step/Valid.antt =====
-- Every transition keeps a valid head valid.
use flowdoc_vnext_backend.Common.{
  ◌+◌, ◌≤◌, ◌<◌, ◌≡◌, refl, true, false, ◌≢◌, sym, Option, none, some, String, arith,
}
use flowdoc_vnext_backend.Common.Text.{is_bounded}
use flowdoc_vnext_backend.PdfExport.Issue.{Time}
use flowdoc_vnext_backend.PdfExport.Lifecycle.Head.{
  Checkpoint, StopReason, deadline_exceeded, attempts_exhausted, shutdown_forced, stopped, claimed,
  Claim, Cancellation, HeadFacts, TransitionKind, TransitionRequest, max_claim_duration_ms,
  is_cancelled, cancellation_reason,
}
use flowdoc_vnext_backend.PdfExport.Lifecycle.Step.Effects.{
  after_stop, asked_by, cancelled_at, after_mark, after_claim, after_pass, after_exhaustion,
  after_release, after_check,
}
use flowdoc_vnext_backend.PdfExport.Lifecycle.Step.Code.{reason-same}
use flowdoc_vnext_backend.PdfExport.Lifecycle.Validity.{Holds, FactsAreValid}
use flowdoc_vnext_backend.PdfExport.Lifecycle.Step.{RequestFits, KindFits}
use flowdoc_vnext_backend.PdfExport.Lifecycle.Step.Relation.{
  RetryFits, OwnerEffect, late, observed, passes, gives_up, releases, checks, Effect, forced,
  enforced, cancelled_late, cancelled_idle, marked, claimed_late, claimed_cancelled, exhausted,
  claims, owned, Step,
}

-- What each branch writes is valid.
module _ {f : HeadFacts} (v : FactsAreValid f) (at : Time) (later : f.updated_at ≤ at) where
  stop-FactsAreValid :
      (reason : StopReason) (c : Option Cancellation)
      → Holds
          (λ c.
            (is_bounded c.transition_id ≡ true)
            × (f.created_at ≤ c.requested_at)
            × (c.requested_at ≤ at))
          c
      → (is_cancelled reason ≡ true → (reason ≡ cancellation_reason f.checkpoint) × (c ≢ none))
      → FactsAreValid (after_stop f reason at c)
  unfolding after_stop
  stop-FactsAreValid reason c fits why = ground arith

  -- The stops that no request for a cancellation makes.
  stop_kept-FactsAreValid :
      (reason : StopReason)
      → is_cancelled reason ≡ false
      → FactsAreValid (after_stop f reason at f.cancellation)
  stop_kept-FactsAreValid reason h =
      stop-FactsAreValid reason f.cancellation (ground arith) (λ k. cc)

  stop_cancelled-FactsAreValid :
      f.cancellation ≢ none
      → FactsAreValid (after_stop f (cancelled_at f.checkpoint) at f.cancellation)
  stop_cancelled-FactsAreValid h =
      stop-FactsAreValid (cancelled_at f.checkpoint) f.cancellation (ground arith)
        (λ k. (sym (reason-same f.checkpoint), h))

  claimed-FactsAreValid :
      (token worker : String) (expires : Time)
      → is_bounded token ≡ true
      → is_bounded worker ≡ true
      → f.status ≢ stopped
      → f.attempt_count < f.max_attempts
      → at < expires
      → expires ≤ f.deadline_at
      → expires ≤ at + max_claim_duration_ms
      → FactsAreValid (after_claim f at token worker expires)
  unfolding after_claim
  claimed-FactsAreValid token worker expires bounded named live left positive fits short =
      ground arith

  module _ (c : Claim) (live : f.status ≡ claimed) (own : f.claim ≡ some c) where
    passed-FactsAreValid : (k : Checkpoint) → FactsAreValid (after_pass f at k)
    unfolding after_pass
    passed-FactsAreValid k = ground arith

    exhausted-FactsAreValid :
        (retry : Option Time) → RetryFits f at retry → FactsAreValid (after_exhaustion f c at retry)
    unfolding after_exhaustion
    exhausted-FactsAreValid retry fits = ground arith

    released-FactsAreValid :
        (retry : Option Time) → RetryFits f at retry → FactsAreValid (after_release f c at retry)
    unfolding after_release
    released-FactsAreValid retry fits = ground arith

    checked-FactsAreValid : FactsAreValid (after_check f c at)
    unfolding after_check
    checked-FactsAreValid = ground arith

    OwnerEffect-FactsAreValid :
        {g : HeadFacts} (k : TransitionKind) → OwnerEffect f at c g k → FactsAreValid g
    OwnerEffect-FactsAreValid k (late _ over e) =
        rw e (stop_kept-FactsAreValid deadline_exceeded refl)
    OwnerEffect-FactsAreValid k (observed _ early asked e) =
        rw e (stop_cancelled-FactsAreValid asked)
    OwnerEffect-FactsAreValid k (passes _ following early free follows e) =
        rw e (passed-FactsAreValid following)
    OwnerEffect-FactsAreValid k (gives_up _ retry early free fits spent e) =
        rw e (exhausted-FactsAreValid retry fits)
    OwnerEffect-FactsAreValid k (releases _ retry early free fits left e) =
        rw e (released-FactsAreValid retry fits)
    OwnerEffect-FactsAreValid k (checks _ early free e) = rw e checked-FactsAreValid

module _ {f : HeadFacts} (v : FactsAreValid f) (r : TransitionRequest) (fits : RequestFits r)
    (later : f.updated_at ≤ r.transition_at) (live : f.status ≢ stopped) where
  marked-FactsAreValid : f.status ≡ claimed → FactsAreValid (after_mark f r)
  unfolding after_mark
  marked-FactsAreValid held = ground arith

  Effect-FactsAreValid :
      {g : HeadFacts} (k : TransitionKind) → KindFits k → Effect f r g k → FactsAreValid g
  Effect-FactsAreValid k kind (forced e) =
      rw e (stop_kept-FactsAreValid v r.transition_at later shutdown_forced refl)
  Effect-FactsAreValid k kind (enforced over e) =
      rw e (stop_kept-FactsAreValid v r.transition_at later deadline_exceeded refl)
  Effect-FactsAreValid k kind (cancelled_late none_yet over e) = rw e (
      stop-FactsAreValid v r.transition_at later deadline_exceeded (some (asked_by r))
        (ground arith) (λ h. cc))
  Effect-FactsAreValid k kind (cancelled_idle none_yet early idle e) = rw e (
      stop-FactsAreValid v r.transition_at later (cancelled_at f.checkpoint) (some (asked_by r))
        (ground arith) (λ h. (sym (reason-same f.checkpoint), λ h. cc)))
  Effect-FactsAreValid k kind (marked none_yet early held e) = rw e (marked-FactsAreValid held)
  Effect-FactsAreValid k kind (claimed_late token worker expires over e) =
      rw e (stop_kept-FactsAreValid v r.transition_at later deadline_exceeded refl)
  Effect-FactsAreValid k kind (claimed_cancelled token worker expires early asked e) =
      rw e (stop_cancelled-FactsAreValid v r.transition_at later asked)
  Effect-FactsAreValid k kind (exhausted token worker expires may spent e) =
      rw e (stop_kept-FactsAreValid v r.transition_at later attempts_exhausted refl)
  Effect-FactsAreValid k kind (claims token worker expires may left positive fits short e) = rw e (
      claimed-FactsAreValid v r.transition_at later token worker expires kind.0 kind.1 live left
        positive fits short)
  Effect-FactsAreValid k kind (owned _ token c h o e) =
      OwnerEffect-FactsAreValid v r.transition_at later c o.live o.held k e

pub Step-FactsAreValid :
    {f g : HeadFacts} (r : TransitionRequest)
    → FactsAreValid f
    → RequestFits r
    → Step f r g
    → FactsAreValid g
Step-FactsAreValid r v fits s =
    Effect-FactsAreValid v r fits s.reads.time s.reads.live r.kind fits.kind s.effect
