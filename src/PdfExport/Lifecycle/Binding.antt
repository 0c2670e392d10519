-- ===== src/PdfExport/Lifecycle/Binding.antt =====
-- What every step of the lifecycle keeps, and what it always moves on.

use flowdoc_vnext_backend.Common.{◌+◌, ◌≡◌, arith}
use flowdoc_vnext_backend.PdfExport.Issue.{Time}
use flowdoc_vnext_backend.PdfExport.Lifecycle.Head.{
  Claim, HeadFacts, TransitionKind, TransitionRequest,
}
use flowdoc_vnext_backend.PdfExport.Lifecycle.Step.Effects.{
  after_stop, after_mark, after_claim, after_pass, after_exhaustion, after_release, after_check,
}
use flowdoc_vnext_backend.PdfExport.Lifecycle.Step.Relation.{
  OwnerEffect, late, observed, passes, gives_up, releases, checks, Effect, forced, enforced,
  cancelled_late, cancelled_idle, marked, claimed_late, claimed_cancelled, exhausted, claims, owned,
  Step,
}

-- What a step never changes, and what it always moves on.
pub record Continues (f : HeadFacts) (at : Time) (g : HeadFacts) : Type 0 where
  pub operation_id : g.operation_id ≡ f.operation_id
  pub scope : g.scope ≡ f.scope
  pub operation_fingerprint : g.operation_fingerprint ≡ f.operation_fingerprint
  pub admission_fingerprint : g.admission_fingerprint ≡ f.admission_fingerprint
  pub payload_fingerprint : g.payload_fingerprint ≡ f.payload_fingerprint
  pub max_attempts : g.max_attempts ≡ f.max_attempts
  pub created_at : g.created_at ≡ f.created_at
  pub deadline_at : g.deadline_at ≡ f.deadline_at
  pub contracts : g.contracts ≡ f.contracts
  pub revision : g.head_revision ≡ f.head_revision + 1
  pub time : g.updated_at ≡ at

module _ {f g : HeadFacts} where
  OwnerEffect-Continues :
      (at : Time) (c : Claim) (k : TransitionKind) → OwnerEffect f at c g k → Continues f at g
  unfolding after_stop after_pass after_exhaustion after_release after_check
  OwnerEffect-Continues at c k (late _ over e) = ground arith
  OwnerEffect-Continues at c k (observed _ early asked e) = ground arith
  OwnerEffect-Continues at c k (passes _ following early free follows e) = ground arith
  OwnerEffect-Continues at c k (gives_up _ retry early free fits spent e) = ground arith
  OwnerEffect-Continues at c k (releases _ retry early free fits left e) = ground arith
  OwnerEffect-Continues at c k (checks _ early free e) = ground arith

  Effect-Continues :
      (r : TransitionRequest) (k : TransitionKind) → Effect f r g k → Continues f r.transition_at g
  unfolding after_stop after_mark after_claim
  Effect-Continues r k (forced e) = ground arith
  Effect-Continues r k (enforced over e) = ground arith
  Effect-Continues r k (cancelled_late none_yet over e) = ground arith
  Effect-Continues r k (cancelled_idle none_yet early idle e) = ground arith
  Effect-Continues r k (marked none_yet early live e) = ground arith
  Effect-Continues r k (claimed_late token worker expires over e) = ground arith
  Effect-Continues r k (claimed_cancelled token worker expires early asked e) = ground arith
  Effect-Continues r k (exhausted token worker expires may spent e) = ground arith
  Effect-Continues r k (claims token worker expires may left positive fits short e) = ground arith
  Effect-Continues r k (owned _ token c shows o e) = OwnerEffect-Continues r.transition_at c _ e

  -- Every step keeps the operation binding, the scope, the fingerprints, the attempt limit, the
  -- creation time, the deadline and the boundaries; it adds one to the revision and sets the update
  -- time to that of the request.
  pub Step-Continues : (r : TransitionRequest) → Step f r g → Continues f r.transition_at g
  Step-Continues r s = Effect-Continues r r.kind s.effect
