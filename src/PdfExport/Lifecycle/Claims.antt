-- ===== src/PdfExport/Lifecycle/Claims.antt =====
-- No worker takes a claim that has not expired.
use mathlib.Core.Path.{subst}
use flowdoc_vnext_backend.Common.{◌≤◌, ◌<◌, ◌≡◌, none, some, String, arith, ◌⊎◌}
use flowdoc_vnext_backend.PdfExport.Issue.{Time}
use flowdoc_vnext_backend.PdfExport.Lifecycle.Head.{
  stopped, pending, claimed, Claim, HeadFacts, TransitionKind, TransitionRequest,
}
use flowdoc_vnext_backend.PdfExport.Lifecycle.Step.Effects.{
  after_stop, after_mark, after_pass, after_exhaustion, after_release, after_check,
}
use flowdoc_vnext_backend.PdfExport.Lifecycle.Step.Relation.{
  IsFree, token_of, OwnerEffect, late, observed, passes, gives_up, releases, checks, Effect, forced,
  enforced, cancelled_late, cancelled_idle, marked, claimed_late, claimed_cancelled, exhausted,
  claims, owned, Step,
}

-- The claim stays, or the head is over, or the owner of the claim gave it back.
abbrev pub Keeps : Claim → TransitionKind → HeadFacts → Type 0
Keeps held k g =
    (g.claim ≡ some held)
    ⊎ (g.claim ≡ none)
      × ((g.status ≡ stopped) ⊎ (g.status ≡ pending) × (token_of k ≡ some held.claim_token))

held-not_free :
    (f : HeadFacts) (held : Claim) (at : Time)
    → f.claim ≡ some held
    → IsFree f.status f at
    → f.status ≡ claimed
    → at < held.expires_at
    → ⊥
held-not_free f held at own free status unexpired =
    let over : held.expires_at ≤ at = subst (λ s. IsFree s f at) status free held own in omega arith

module _ {f g : HeadFacts} (held : Claim) (own : f.claim ≡ some held) where
  OwnerEffect-Keeps :
      (at : Time) (c : Claim) (k : TransitionKind) {token : String}
      → token_of k ≡ some token
      → c.claim_token ≡ token
      → f.claim ≡ some c
      → OwnerEffect f at c g k
      → Keeps held k g
  unfolding after_stop after_pass after_exhaustion after_release after_check
  OwnerEffect-Keeps at c k h t q (late _ over e) = ground arith
  OwnerEffect-Keeps at c k h t q (observed _ early asked e) = ground arith
  OwnerEffect-Keeps at c k h t q (passes _ following early free follows e) = ground arith
  OwnerEffect-Keeps at c k h t q (gives_up _ retry early free fits spent e) = ground arith
  OwnerEffect-Keeps at c k h t q (releases _ retry early free fits left e) = ground arith
  OwnerEffect-Keeps at c k h t q (checks _ early free e) = ground arith

  Effect-Keeps :
      (r : TransitionRequest) (k : TransitionKind)
      → r.transition_at < held.expires_at
      → f.status ≡ claimed
      → Effect f r g k
      → Keeps held k g
  unfolding after_stop after_mark
  Effect-Keeps r k unexpired status (forced e) = ground arith
  Effect-Keeps r k unexpired status (enforced over e) = ground arith
  Effect-Keeps r k unexpired status (cancelled_late none_yet over e) = ground arith
  Effect-Keeps r k unexpired status (cancelled_idle none_yet early idle e) = ground arith
  Effect-Keeps r k unexpired status (marked none_yet early live e) = ground arith
  Effect-Keeps r k unexpired status (claimed_late token worker expires over e) = ground arith
  Effect-Keeps r k unexpired status (claimed_cancelled token worker expires early asked e) =
      ground arith
  Effect-Keeps r k unexpired status (exhausted token worker expires may spent e) =
      absurd (held-not_free f held r.transition_at own may.free status unexpired)
  Effect-Keeps r k unexpired status (claims token worker expires may left positive fits short e) =
      absurd (held-not_free f held r.transition_at own may.free status unexpired)
  Effect-Keeps r k unexpired status (owned _ token c shows o e) =
      OwnerEffect-Keeps r.transition_at c _ shows o.shown o.held e

  -- While a claim has not expired, a step leaves it in place, or ends the lifecycle, or gives the
  -- claim back on a release that shows its token: no other worker can take it.
  pub Step-Keeps :
      (r : TransitionRequest)
      → r.transition_at < held.expires_at
      → f.status ≡ claimed
      → Step f r g
      → Keeps held r.kind g
  Step-Keeps r unexpired status s = Effect-Keeps r r.kind unexpired status s.effect
