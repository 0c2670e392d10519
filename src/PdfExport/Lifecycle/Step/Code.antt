-- ===== src/PdfExport/Lifecycle/Step/Code.antt =====
-- The code of a transition and the step relation are the same thing.
use text.Mathlib.TextEquality.{eq_iff}
use flowdoc_vnext_backend.Common.{
  ◌<◌, ◌≡◌, refl, ap, ◌∙◌, false, ◌≢◌, Option, none, some, arith, String, Bool-cases, inl, inr, leb,
}
use flowdoc_vnext_backend.PdfExport.Issue.{Time}
use flowdoc_vnext_backend.PdfExport.Lifecycle.Head.{
  Status, pending, claimed, stopped, Claim, HeadFacts, TransitionKind, claim, request_cancellation,
  pass_checkpoint, release_claim, check_checkpoint, enforce_deadline, force_shutdown,
  TransitionRequest, Checkpoint, before_handoff, before_render, before_persist, StopReason,
  Cancellation, cancellation_reason, deadline_exceeded, attempts_exhausted, shutdown_forced,
}
use flowdoc_vnext_backend.PdfExport.Lifecycle.Parse.{is_some}
use flowdoc_vnext_backend.PdfExport.Lifecycle.Transition.{
  next, cancel_facts, claim_facts, claim_busy, retry_deferred, pass_facts, release_facts,
  owner_facts, owned_by, with_claim, kind_facts, transition_facts, stop_facts, marked_facts,
  claimed_facts, passed_facts, exhausted_facts, released_facts, checked_facts, claim_checkpoint,
}
use flowdoc_vnext_backend.PdfExport.Lifecycle.Step.Effects.{
  after_stop, asked_by, cancelled_at, start_of, after_mark, after_claim, after_pass,
  after_exhaustion, after_release, after_check,
}
use flowdoc_vnext_backend.PdfExport.Lifecycle.Step.Relation.{
  IsFree, Owns, MayClaim, token_of, OwnerEffect, late, observed, passes, gives_up, releases, checks,
  Effect, forced, enforced, cancelled_late, cancelled_idle, marked, claimed_late, claimed_cancelled,
  exhausted, claims, owned, Reads, Step,
}

-- What each branch of the code writes is what the specification says.
pub reason-same : (c : Checkpoint) → cancellation_reason c ≡ cancelled_at c
reason-same before_handoff = refl
reason-same before_render = refl
reason-same before_persist = refl

stop-same :
    (f : HeadFacts) (reason : StopReason) (at : Time) (c : Option Cancellation)
    → stop_facts f reason at c ≡ after_stop f reason at c
unfolding stop_facts after_stop
stop-same f reason at c = refl

stop_cancelled-same :
    (f : HeadFacts) (at : Time) (c : Option Cancellation)
    → stop_facts f (cancellation_reason f.checkpoint) at c
      ≡ after_stop f (cancelled_at f.checkpoint) at c
stop_cancelled-same f at c =
    stop-same f (cancellation_reason f.checkpoint) at c
    ∙ ap (λ reason. after_stop f reason at c) (reason-same f.checkpoint)

mark-same : (f : HeadFacts) (r : TransitionRequest) → marked_facts f r ≡ after_mark f r
unfolding marked_facts after_mark
mark-same f r = refl

start-same : (s : Status) (c : Checkpoint) → claim_checkpoint s c ≡ start_of s c
start-same pending c = refl
start-same claimed c = refl
start-same stopped c = refl

claim-same :
    (f : HeadFacts) (at : Time) (token worker : String) (expires : Time)
    → claimed_facts f at token worker expires ≡ after_claim f at token worker expires
unfolding claimed_facts after_claim
claim-same f at token worker expires =
    ap (λ c. record (claimed_facts f at token worker expires) { checkpoint = c })
      (start-same f.status f.checkpoint)

pass-same :
    (f : HeadFacts) (at : Time) (following : Checkpoint)
    → passed_facts f at following ≡ after_pass f at following
unfolding passed_facts after_pass
pass-same f at following = refl

exhaustion-same :
    (f : HeadFacts) (c : Claim) (at : Time) (retry : Option Time)
    → exhausted_facts f c at retry ≡ after_exhaustion f c at retry
unfolding exhausted_facts after_exhaustion
exhaustion-same f c at retry = refl

release-same :
    (f : HeadFacts) (c : Claim) (at : Time) (retry : Option Time)
    → released_facts f c at retry ≡ after_release f c at retry
unfolding released_facts after_release
release-same f c at retry = refl

check-same : (f : HeadFacts) (c : Claim) (at : Time) → checked_facts f c at ≡ after_check f c at
unfolding checked_facts after_check
check-same f c at = refl

pub claim_busy-IsFree :
    (f : HeadFacts) (at : Time)
    → claim_busy f.status f.claim at ≡ false
    → retry_deferred f.status f.retry_after at ≡ false
    → IsFree f.status f at
claim_busy-IsFree f at busy deferred = ground arith

module _ (f : HeadFacts) (r : TransitionRequest) {g : HeadFacts} where
  cancel-Effect : cancel_facts f r ≡ next g → f.status ≢ stopped → Effect f r g request_cancellation
  unfolding cancel_facts
  cancel-Effect e live = grind (
    arith,
    cancelled_late,
    cancelled_idle,
    marked,
    stop-same f deadline_exceeded r.transition_at (some (asked_by r)),
    stop_cancelled-same f r.transition_at (some (asked_by r)),
    mark-same f r,
  )

  claim-Effect :
      (token worker : String) (expires : Time)
      → claim_facts f r.transition_at token worker expires ≡ next g
      → Effect f r g (claim token worker expires)
  unfolding claim_facts
  claim-Effect token worker expires e = elim (Bool-cases (leb f.deadline_at r.transition_at)) [
    | inl over ↦
        claimed_late token worker expires (ground arith)
          (ground (arith, stop-same f deadline_exceeded r.transition_at f.cancellation))
    | inr early ↦ elim (Bool-cases (is_some f.cancellation)) [
      | inl asked ↦
          claimed_cancelled token worker expires (ground arith) (ground arith)
            (ground (arith, stop_cancelled-same f r.transition_at f.cancellation))
      | inr free ↦
          let may : MayClaim f r.transition_at = record {
            in_time = ground arith;
            uncancelled = ground arith;
            free = claim_busy-IsFree f r.transition_at (ground arith) (ground arith);
          } in
          elim (Bool-cases (leb f.max_attempts f.attempt_count)) [
            | inl spent ↦
                exhausted token worker expires may (ground arith)
                  (ground (arith, stop-same f attempts_exhausted r.transition_at f.cancellation))
            | inr left ↦
                claims token worker expires may (ground arith) (ground arith) (ground arith)
                  (ground arith) (ground (arith, claim-same f r.transition_at token worker expires))
          ]
    ]
  ]

  owner-OwnerEffect :
      (at : Time) (c : Claim) (k : TransitionKind) {token : String}
      → token_of k ≡ some token
      → owner_facts f c at k ≡ next g
      → at < f.deadline_at
      → f.cancellation ≡ none
      → OwnerEffect f at c g k
  unfolding owner_facts pass_facts release_facts
  owner-OwnerEffect at c (pass_checkpoint token following) h e t n =
      grind (arith, passes, pass-same f at following)
  owner-OwnerEffect at c (release_claim token none) h e t n =
      grind (arith, gives_up, releases, exhaustion-same f c at none, release-same f c at none)
  owner-OwnerEffect at c (release_claim token (some retry)) h e t n = grind (
    arith,
    gives_up,
    releases,
    exhaustion-same f c at (some retry),
    release-same f c at (some retry),
  )
  owner-OwnerEffect at c (check_checkpoint token) h e t n =
      checks token t n (ground (arith, check-same f c at))
  owner-OwnerEffect at c _ h e t n = cc

  owned-OwnerEffect :
      (c : Claim) (token : String) (k : TransitionKind)
      → token_of k ≡ some token
      → owned_by (some c) f r.transition_at token k ≡ next g
      → OwnerEffect f r.transition_at c g k
  unfolding owned_by
  owned-OwnerEffect c token k h e = elim (Bool-cases (leb f.deadline_at r.transition_at)) [
    | inl over ↦
        late k (ground arith)
          (ground (arith, stop-same f deadline_exceeded r.transition_at f.cancellation))
    | inr early ↦ elim (Bool-cases (is_some f.cancellation)) [
      | inl asked ↦
          observed k (ground arith) (ground arith)
            (ground (arith, stop_cancelled-same f r.transition_at f.cancellation))
      | inr free ↦
          owner-OwnerEffect r.transition_at c k h (ground arith) (ground arith) (ground arith)
    ]
  ]

  owned-Effect :
      (token : String) (k : TransitionKind)
      → token_of k ≡ some token
      → f.status ≡ claimed
      → (o : Option Claim) → f.claim ≡ o
      → owned_by o f r.transition_at token k ≡ next g
      → Effect f r g k
  unfolding owned_by
  owned-Effect token k h live none held e = cc
  owned-Effect token k h live (some c) held e =
      owned k token c h
        (record {
          live = live;
          held = held;
          shown = ground (arith, eq_iff c.claim_token token);
          unexpired = ground arith;
        })
        (owned-OwnerEffect c token k h e)

  with_claim-Effect :
      (token : String) (k : TransitionKind)
      → token_of k ≡ some token
      → with_claim f r.transition_at token k ≡ next g
      → Effect f r g k
  unfolding with_claim
  with_claim-Effect token k h e = owned-Effect token k h (ground arith) f.claim refl (ground arith)

  kind-Effect :
      (k : TransitionKind) → f.status ≢ stopped → kind_facts f r k ≡ next g → Effect f r g k
  unfolding kind_facts
  kind-Effect (claim token worker expires) live e = claim-Effect token worker expires e
  kind-Effect request_cancellation live e = cancel-Effect e live
  kind-Effect enforce_deadline live e =
      enforced (ground arith)
        (ground (arith, stop-same f deadline_exceeded r.transition_at f.cancellation))
  kind-Effect force_shutdown live e =
      forced (ground (arith, stop-same f shutdown_forced r.transition_at f.cancellation))
  kind-Effect (pass_checkpoint token following) live e =
      with_claim-Effect token (pass_checkpoint token following) refl e
  kind-Effect (release_claim token retry) live e =
      with_claim-Effect token (release_claim token retry) refl e
  kind-Effect (check_checkpoint token) live e =
      with_claim-Effect token (check_checkpoint token) refl e

  read-Reads : transition_facts f r ≡ next g → Reads f r × (kind_facts f r r.kind ≡ next g)
  unfolding transition_facts
  read-Reads e = ground (arith, eq_iff r.operation_id f.operation_id)

  pub transition-Step : transition_facts f r ≡ next g → Step f r g
  transition-Step e =
      let (reads, effect) = read-Reads e in
      record { reads = reads; effect = kind-Effect r.kind reads.live effect }

-- The other way: what the relation allows, the code does.
module _ (f : HeadFacts) (at : Time) where
  claim-not_busy :
      (s : Status) (o : Option Claim) → IsFree s f at → f.claim ≡ o → claim_busy s o at ≡ false
  claim-not_busy pending o free e = refl
  claim-not_busy stopped o free e = refl
  claim-not_busy claimed none free e = refl
  claim-not_busy claimed (some c) free e = ground (arith, free c e)

  pub IsFree-not_busy : IsFree f.status f at → claim_busy f.status f.claim at ≡ false
  IsFree-not_busy free = claim-not_busy f.status f.claim free refl

  pub IsFree-not_deferred : IsFree f.status f at → retry_deferred f.status f.retry_after at ≡ false
  IsFree-not_deferred free = ground arith

module _ (f : HeadFacts) (r : TransitionRequest) {g : HeadFacts} where
  OwnerEffect-owned :
      (k : TransitionKind) (token : String) (c : Claim)
      → token_of k ≡ some token
      → Owns f r.transition_at token c
      → OwnerEffect f r.transition_at c g k
      → owned_by (some c) f r.transition_at token k ≡ next g
  unfolding owned_by owner_facts pass_facts release_facts
  OwnerEffect-owned k token c h o (late _ over e) = ground (
    arith,
    eq_iff c.claim_token token,
    stop-same f deadline_exceeded r.transition_at f.cancellation,
  )
  OwnerEffect-owned k token c h o (observed _ early asked e) =
      ground
        (arith, eq_iff c.claim_token token, stop_cancelled-same f r.transition_at f.cancellation)
  OwnerEffect-owned k token c h o (passes _ following early free follows e) =
      ground (arith, eq_iff c.claim_token token, pass-same f r.transition_at following)
  OwnerEffect-owned k token c h o (gives_up _ retry early free fits spent e) =
      ground (arith, eq_iff c.claim_token token, exhaustion-same f c r.transition_at retry)
  OwnerEffect-owned k token c h o (releases _ retry early free fits left e) =
      ground (arith, eq_iff c.claim_token token, release-same f c r.transition_at retry)
  OwnerEffect-owned k token c h o (checks _ early free e) =
      ground (arith, eq_iff c.claim_token token, check-same f c r.transition_at)

  Effect-kind : (k : TransitionKind) → Effect f r g k → kind_facts f r k ≡ next g
  unfolding kind_facts cancel_facts claim_facts with_claim
  Effect-kind k (forced e) =
      ground (arith, stop-same f shutdown_forced r.transition_at f.cancellation)
  Effect-kind k (enforced over e) =
      ground (arith, stop-same f deadline_exceeded r.transition_at f.cancellation)
  Effect-kind k (cancelled_late none_yet over e) =
      ground (arith, stop-same f deadline_exceeded r.transition_at (some (asked_by r)))
  Effect-kind k (cancelled_idle none_yet early idle e) =
      ground (arith, stop_cancelled-same f r.transition_at (some (asked_by r)))
  Effect-kind k (marked none_yet early live e) = ground (arith, mark-same f r)
  Effect-kind k (claimed_late token worker expires over e) =
      ground (arith, stop-same f deadline_exceeded r.transition_at f.cancellation)
  Effect-kind k (claimed_cancelled token worker expires early asked e) =
      ground (arith, stop_cancelled-same f r.transition_at f.cancellation)
  Effect-kind k (exhausted token worker expires may spent e) = ground (
    arith,
    IsFree-not_busy f r.transition_at may.free,
    IsFree-not_deferred f r.transition_at may.free,
    stop-same f attempts_exhausted r.transition_at f.cancellation,
  )
  Effect-kind k (claims token worker expires may left positive fits short e) = ground (
    arith,
    IsFree-not_busy f r.transition_at may.free,
    IsFree-not_deferred f r.transition_at may.free,
    claim-same f r.transition_at token worker expires,
  )
  Effect-kind k (owned (pass_checkpoint t following) token c h o e) =
      ground (arith, OwnerEffect-owned (pass_checkpoint t following) token c h o e)
  Effect-kind k (owned (release_claim t retry) token c h o e) =
      ground (arith, OwnerEffect-owned (release_claim t retry) token c h o e)
  Effect-kind k (owned (check_checkpoint t) token c h o e) =
      ground (arith, OwnerEffect-owned (check_checkpoint t) token c h o e)
  Effect-kind k (owned _ token c h o e) = cc

  pub Step-transition : Step f r g → transition_facts f r ≡ next g
  unfolding transition_facts
  Step-transition s =
      ground
        (arith, eq_iff r.operation_id f.operation_id, Effect-kind r.kind s.effect, s.reads.live)
