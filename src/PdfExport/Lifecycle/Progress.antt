-- ===== src/PdfExport/Lifecycle/Progress.antt =====
-- How a step moves the checkpoint and the attempts.

use flowdoc_vnext_backend.Common.{◌+◌, ◌<◌, ◌≡◌, refl, String, arith, ◌⊎◌, inl, inr, ◌≢◌, Option}
use flowdoc_vnext_backend.PdfExport.Issue.{Time}
use flowdoc_vnext_backend.PdfExport.Lifecycle.Head.{
  Checkpoint, before_handoff, pending, claimed, Claim, HeadFacts, TransitionKind, pass_checkpoint,
  claim, release_claim, check_checkpoint, request_cancellation, Status, stopped, TransitionRequest,
}
use flowdoc_vnext_backend.PdfExport.Lifecycle.Step.Effects.{
  after_stop, after_mark, after_claim, after_pass, after_exhaustion, after_release, after_check,
}
use flowdoc_vnext_backend.PdfExport.Lifecycle.Step.Relation.{
  Follows, OwnerEffect, late, observed, passes, gives_up, releases, checks, Effect, forced,
  enforced, cancelled_late, cancelled_idle, marked, claimed_late, claimed_cancelled, exhausted,
  claims, owned, Step,
}

-- How far a request moves the checkpoint and the attempts of a head.
pub data Moves (f : HeadFacts) (k : TransitionKind) (g : HeadFacts) : Type 0 where
  -- The end of the lifecycle, which keeps them.
  ends :
      g.status ≡ stopped
      → g.checkpoint ≡ f.checkpoint
      → g.attempt_count ≡ f.attempt_count
      → Moves f k g
  -- A cancellation or a check, of a claimed head that stays claimed.
  stays :
      (k ≡ request_cancellation) ⊎ ((token : String) × (k ≡ check_checkpoint token))
      → f.status ≡ claimed
      → g.status ≡ claimed
      → g.checkpoint ≡ f.checkpoint
      → g.attempt_count ≡ f.attempt_count
      → Moves f k g
  advances :
      (token : String) (following : Checkpoint)
      → k ≡ pass_checkpoint token following
      → f.status ≡ claimed
      → g.status ≡ claimed
      → Follows f.checkpoint following
      → g.checkpoint ≡ following
      → g.attempt_count ≡ f.attempt_count
      → Moves f k g
  returns :
      (token : String) (retry : Option Time)
      → k ≡ release_claim token retry
      → f.status ≡ claimed
      → g.status ≡ pending
      → g.checkpoint ≡ before_handoff
      → g.attempt_count ≡ f.attempt_count
      → Moves f k g
  starts :
      (token worker : String) (expires : Time)
      → k ≡ claim token worker expires
      → f.attempt_count < f.max_attempts
      → g.status ≡ claimed
      → g.attempt_count ≡ f.attempt_count + 1
      → (f.status ≡ pending) × (g.checkpoint ≡ f.checkpoint)
        ⊎ (f.status ≡ claimed) × (g.checkpoint ≡ before_handoff)
      → Moves f k g

start-cases :
    (f : HeadFacts) (s : Status) (at : Time) (token worker : String) (expires : Time)
    → f.status ≡ s
    → s ≢ stopped
    → (f.status ≡ pending) × ((after_claim f at token worker expires).checkpoint ≡ f.checkpoint)
      ⊎ (f.status ≡ claimed) × ((after_claim f at token worker expires).checkpoint ≡ before_handoff)
unfolding after_claim
start-cases f pending at token worker expires e live = inl (e, rw e refl)
start-cases f claimed at token worker expires e live = inr (e, rw e refl)
start-cases f stopped at token worker expires e live = absurd (live refl)

module _ {f g : HeadFacts} where
  OwnerEffect-Moves :
      (at : Time) (c : Claim) (k : TransitionKind)
      → f.status ≡ claimed
      → OwnerEffect f at c g k
      → Moves f k g
  unfolding after_stop after_pass after_exhaustion after_release after_check
  OwnerEffect-Moves at c k held (late _ over e) = ends (ground arith) (ground arith) (ground arith)
  OwnerEffect-Moves at c k held (observed _ early asked e) =
      ends (ground arith) (ground arith) (ground arith)
  OwnerEffect-Moves at c k held (passes _ following early free follows e) =
      advances _ following refl held (ground arith) follows (ground arith) (ground arith)
  OwnerEffect-Moves at c k held (gives_up _ retry early free fits spent e) =
      ends (ground arith) (ground arith) (ground arith)
  OwnerEffect-Moves at c k held (releases _ retry early free fits left e) =
      returns _ retry refl held (ground arith) (ground arith) (ground arith)
  OwnerEffect-Moves at c k held (checks token early free e) =
      stays (inr (token, refl)) held (ground arith) (ground arith) (ground arith)

  Effect-Moves :
      (r : TransitionRequest) (k : TransitionKind)
      → f.status ≢ stopped
      → Effect f r g k
      → Moves f k g
  unfolding after_stop after_mark after_claim
  Effect-Moves r k live (forced e) = ends (ground arith) (ground arith) (ground arith)
  Effect-Moves r k live (enforced over e) = ends (ground arith) (ground arith) (ground arith)
  Effect-Moves r k live (cancelled_late none_yet over e) =
      ends (ground arith) (ground arith) (ground arith)
  Effect-Moves r k live (cancelled_idle none_yet early idle e) =
      ends (ground arith) (ground arith) (ground arith)
  Effect-Moves r k live (marked none_yet early held e) =
      stays (inl refl) held (ground arith) (ground arith) (ground arith)
  Effect-Moves r k live (claimed_late token worker expires over e) =
      ends (ground arith) (ground arith) (ground arith)
  Effect-Moves r k live (claimed_cancelled token worker expires early asked e) =
      ends (ground arith) (ground arith) (ground arith)
  Effect-Moves r k live (exhausted token worker expires may spent e) =
      ends (ground arith) (ground arith) (ground arith)
  Effect-Moves r k live (claims token worker expires may left positive fits short e) =
      let cases = start-cases f f.status r.transition_at token worker expires refl live in
      starts token worker expires refl left (ground arith) (ground arith) (rw e cases)
  Effect-Moves r k live (owned _ token c shows o e) = OwnerEffect-Moves r.transition_at c _ o.live e

  -- A step ends the lifecycle, at the checkpoint and the attempt count that it had; or leaves both, of a
  -- claimed head, for a cancellation or a check; or passes one checkpoint in their order, for its owner;
  -- or gives the claim back, for a release, and returns to the first checkpoint; or starts one more
  -- attempt below the limit, for a claim: at the checkpoint that a pending head had, and at the first one
  -- where the claim is taken from a head that is still claimed.
  pub Step-Moves : (r : TransitionRequest) → Step f r g → Moves f r.kind g
  Step-Moves r s = Effect-Moves r r.kind s.reads.live s.effect
