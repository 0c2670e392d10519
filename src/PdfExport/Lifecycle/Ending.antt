-- ===== src/PdfExport/Lifecycle/Ending.antt =====
-- How a lifecycle ends: by a cancellation, at the deadline, or by a shutdown.
use mathlib.Core.Path.{subst}
use flowdoc_vnext_backend.Common.{
  ◌≤◌, ◌<◌, ◌≡◌, ◌≢◌, Option, none, some, String, arith, ◌⊎◌, inl, inr,
}
use flowdoc_vnext_backend.PdfExport.Issue.{Time}
use flowdoc_vnext_backend.PdfExport.Lifecycle.Head.{
  StopReason, deadline_exceeded, shutdown_forced, stopped, Claim, Cancellation, HeadFacts,
  TransitionKind, TransitionRequest,
}
use flowdoc_vnext_backend.PdfExport.Lifecycle.Step.Effects.{after_stop}
use flowdoc_vnext_backend.PdfExport.Lifecycle.Validity.{Holds, ClaimFits, FactsAreValid}
use flowdoc_vnext_backend.PdfExport.Lifecycle.Step.Relation.{
  Owns, OwnerEffect, late, observed, passes, gives_up, releases, checks, Effect, forced, enforced,
  cancelled_late, cancelled_idle, marked, claimed_late, claimed_cancelled, exhausted, claims, owned,
  Step,
}

-- The head is over, for the reason.
pub record StopsFor (reason : StopReason) (f : HeadFacts) (at : Time) (g : HeadFacts) : Type 0 where
  pub over : g.status ≡ stopped
  pub unclaimed : g.claim ≡ none
  pub why : g.stop ≡ some (record { reason = reason; checkpoint = f.checkpoint; stopped_at = at })

-- After a cancellation request, the next step ends the lifecycle.
module _ {f g : HeadFacts} (asked_for : f.cancellation ≢ none) where
  OwnerEffect-cancelled :
      (at : Time) (c : Claim) (k : TransitionKind) → OwnerEffect f at c g k → g.status ≡ stopped
  unfolding after_stop
  OwnerEffect-cancelled at c k (late _ over e) = ground arith
  OwnerEffect-cancelled at c k (observed _ early asked e) = ground arith
  OwnerEffect-cancelled at c k (passes _ following early free follows e) = absurd (asked_for free)
  OwnerEffect-cancelled at c k (gives_up _ retry early free fits spent e) = absurd (asked_for free)
  OwnerEffect-cancelled at c k (releases _ retry early free fits left e) = absurd (asked_for free)
  OwnerEffect-cancelled at c k (checks _ early free e) = absurd (asked_for free)

  Effect-cancelled :
      (r : TransitionRequest) (k : TransitionKind) → Effect f r g k → g.status ≡ stopped
  unfolding after_stop
  Effect-cancelled r k (forced e) = ground arith
  Effect-cancelled r k (enforced over e) = ground arith
  Effect-cancelled r k (cancelled_late none_yet over e) = ground arith
  Effect-cancelled r k (cancelled_idle none_yet early idle e) = ground arith
  Effect-cancelled r k (marked none_yet early live e) = absurd (asked_for none_yet)
  Effect-cancelled r k (claimed_late token worker expires over e) = ground arith
  Effect-cancelled r k (claimed_cancelled token worker expires early asked e) = ground arith
  Effect-cancelled r k (exhausted token worker expires may spent e) = ground arith
  Effect-cancelled r k (claims token worker expires may left positive fits short e) =
      absurd (asked_for may.uncancelled)
  Effect-cancelled r k (owned _ token c shows o e) = OwnerEffect-cancelled r.transition_at c _ e

  -- Once a cancellation is recorded, any step ends the lifecycle: no checkpoint is passed and no
  -- claim is granted, released or checked any more.
  pub Step-cancelled : (r : TransitionRequest) → Step f r g → g.status ≡ stopped
  Step-cancelled r s = Effect-cancelled r r.kind s.effect

-- The ends at or after the deadline.
abbrev pub EndsLate : HeadFacts → Time → HeadFacts → Type 0
EndsLate f at g = StopsFor deadline_exceeded f at g ⊎ StopsFor shutdown_forced f at g

stop-StopsFor :
    (f : HeadFacts) (reason : StopReason) (at : Time) (c : Option Cancellation)
    → StopsFor reason f at (after_stop f reason at c)
unfolding after_stop
stop-StopsFor f reason at c = ground arith

Owns-in_time :
    (f : HeadFacts) (at : Time) (token : String) (c : Claim)
    → FactsAreValid f
    → Owns f at token c
    → at < f.deadline_at
Owns-in_time f at token c v o =
    let fits : ClaimFits f c = subst (Holds (ClaimFits f)) o.held v.claim in
    omega (arith, o.unexpired, fits.in_deadline)

module _ {f g : HeadFacts} (v : FactsAreValid f) where
  Effect-late :
      (r : TransitionRequest) (k : TransitionKind)
      → f.deadline_at ≤ r.transition_at
      → Effect f r g k
      → EndsLate f r.transition_at g
  Effect-late r k past (forced e) = inr (rw e (stop-StopsFor f _ _ _))
  Effect-late r k past (enforced over e) = inl (rw e (stop-StopsFor f _ _ _))
  Effect-late r k past (cancelled_late none_yet over e) = inl (rw e (stop-StopsFor f _ _ _))
  Effect-late r k past (cancelled_idle none_yet early idle e) = absurd (omega arith)
  Effect-late r k past (marked none_yet early live e) = absurd (omega arith)
  Effect-late r k past (claimed_late token worker expires over e) =
      inl (rw e (stop-StopsFor f _ _ _))
  Effect-late r k past (claimed_cancelled token worker expires early asked e) = absurd (omega arith)
  Effect-late r k past (exhausted token worker expires may spent e) =
      absurd (omega (arith, may.in_time))
  Effect-late r k past (claims token worker expires may left positive fits short e) =
      absurd (omega (arith, may.in_time))
  Effect-late r k past (owned _ token c shows o e) =
      absurd (omega (arith, Owns-in_time f r.transition_at token c v o))

  -- From the deadline on, a step of a valid head ends it, for the deadline or by a forced shutdown.
  pub Step-late :
      (r : TransitionRequest)
      → f.deadline_at ≤ r.transition_at
      → Step f r g
      → EndsLate f r.transition_at g
  Step-late r past s = Effect-late r r.kind past s.effect
