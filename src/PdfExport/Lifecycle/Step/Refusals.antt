-- ===== src/PdfExport/Lifecycle/Step/Refusals.antt =====
-- When a request is refused (pdfExport/pdfExportLifecycle.ts), and with which issue: the conditions of
-- the guards, and what stands against each step.
use text.Mathlib.TextEquality.{eq_iff}
use mathlib.Core.Path.{subst}
use flowdoc_vnext_backend.Common.{
  ◌+◌, ◌≤◌, ◌<◌, ◌≡◌, ◌≢◌, refl, ◌⊎◌, inl, inr, Option, none, some, String, arith, Bool-cases, Bool,
  true, false, leb, ltb, ◌==◌, text_eq, number_eq, ◌||◌,
}
use flowdoc_vnext_backend.PdfExport.Issue.{Time, Issue, issue}
use flowdoc_vnext_backend.PdfExport.Lifecycle.Head.{
  Checkpoint, before_handoff, before_render, before_persist, Status, pending, claimed, stopped,
  Claim, HeadFacts, TransitionKind, claim, request_cancellation, pass_checkpoint, release_claim,
  check_checkpoint, enforce_deadline, force_shutdown, TransitionRequest, max_claim_duration_ms,
}
use flowdoc_vnext_backend.PdfExport.Lifecycle.Parse.{is_some}
use flowdoc_vnext_backend.PdfExport.Lifecycle.Transition.{
  refused, cancel_facts, claim_facts, claim_busy, retry_deferred, valid_next, pass_facts,
  release_facts, owner_facts, owned_by, with_claim, kind_facts, transition_facts,
}
use flowdoc_vnext_backend.PdfExport.Lifecycle.Step.Relation.{
  Owns, MayClaim, Follows, token_of, Reads,
}
use flowdoc_vnext_backend.PdfExport.Lifecycle.Step.Code.{
  claim_busy-IsFree, IsFree-not_busy, IsFree-not_deferred,
}

-- Before the deadline, and not cancelled.
abbrev pub IsOpen : HeadFacts → Time → Type 0
IsOpen f at = (at < f.deadline_at) × (f.cancellation ≡ none)

-- What a kind is refused for, on a head that the request is read for.
pub data KindRefuses (f : HeadFacts) (at : Time) (i : Issue) : TransitionKind → Type 0 where
  cancelled_before :
      f.cancellation ≢ none
      → i ≡ issue "pdf-export-lifecycle-cancellation-exists" "cancellation"
      → KindRefuses f at i request_cancellation
  early :
      at < f.deadline_at
      → i ≡ issue "pdf-export-lifecycle-deadline-not-reached" "transitionAt"
      → KindRefuses f at i enforce_deadline
  busy :
      (token worker : String) (expires : Time) (c : Claim)
      → IsOpen f at
      → f.status ≡ claimed
      → f.claim ≡ some c
      → at < c.expires_at
      → i ≡ issue "pdf-export-lifecycle-claim-busy" "claim"
      → KindRefuses f at i (claim token worker expires)
  deferred :
      (token worker : String) (expires t : Time)
      → IsOpen f at
      → f.status ≡ pending
      → f.retry_after ≡ some t
      → at < t
      → i ≡ issue "pdf-export-lifecycle-retry-deferred" "retryAfter"
      → KindRefuses f at i (claim token worker expires)
  bad_window :
      (token worker : String) (expires : Time)
      → MayClaim f at
      → f.attempt_count < f.max_attempts
      → (expires ≤ at) ⊎ ((f.deadline_at < expires) ⊎ (at + max_claim_duration_ms < expires))
      → i ≡ issue "pdf-export-lifecycle-claim-window-invalid" "claimExpiresAt"
      → KindRefuses f at i (claim token worker expires)
  not_owner :
      (k : TransitionKind) (token : String)
      → token_of k ≡ some token
      → ((c : Claim) → f.status ≡ claimed → f.claim ≡ some c → c.claim_token ≢ token)
      → i ≡ issue "pdf-export-lifecycle-claim-stale" "claimToken"
      → KindRefuses f at i k
  run_out :
      (k : TransitionKind) (token : String) (c : Claim)
      → token_of k ≡ some token
      → f.status ≡ claimed
      → f.claim ≡ some c
      → c.claim_token ≡ token
      → c.expires_at ≤ at
      → i ≡ issue "pdf-export-lifecycle-claim-expired" "transitionAt"
      → KindRefuses f at i k
  out_of_order :
      (token : String) (following : Checkpoint) (c : Claim)
      → Owns f at token c
      → IsOpen f at
      → (Follows f.checkpoint following → ⊥)
      → i ≡ issue "pdf-export-lifecycle-checkpoint-order-invalid" "nextCheckpoint"
      → KindRefuses f at i (pass_checkpoint token following)
  bad_retry :
      (token : String) (t : Time) (c : Claim)
      → Owns f at token c
      → IsOpen f at
      → (t < at) ⊎ (f.deadline_at ≤ t)
      → i ≡ issue "pdf-export-lifecycle-retry-window-invalid" "retryAfter"
      → KindRefuses f at i (release_claim token (some t))

-- What a request is refused for: the first of these that holds.
pub data Refuses (f : HeadFacts) (r : TransitionRequest) (i : Issue) : Type 0 where
  other_operation :
      r.operation_id ≢ f.operation_id
      → i ≡ issue "pdf-export-lifecycle-operation-mismatch" "operationId"
      → Refuses f r i
  other_revision :
      r.operation_id ≡ f.operation_id
      → r.expected_head_revision ≢ f.head_revision
      → i ≡ issue "pdf-export-lifecycle-revision-stale" "expectedHeadRevision"
      → Refuses f r i
  back_in_time :
      r.operation_id ≡ f.operation_id
      → r.expected_head_revision ≡ f.head_revision
      → r.transition_at < f.updated_at
      → i ≡ issue "pdf-export-lifecycle-time-stale" "transitionAt"
      → Refuses f r i
  at_end :
      r.operation_id ≡ f.operation_id
      → r.expected_head_revision ≡ f.head_revision
      → f.updated_at ≤ r.transition_at
      → f.status ≡ stopped
      → i ≡ issue "pdf-export-lifecycle-terminal" "status"
      → Refuses f r i
  guarded : Reads f r → KindRefuses f r.transition_at i r.kind → Refuses f r i

abbrev is_stopped : Status → Bool
is_stopped stopped = true
is_stopped _ = false

busy-claim :
    (s : Status) (o : Option Claim) (at : Time)
    → claim_busy s o at ≡ true
    → (c : Claim) × (s ≡ claimed) × (o ≡ some c) × (at < c.expires_at)
busy-claim pending o at e = cc e
busy-claim stopped o at e = cc e
busy-claim claimed none at e = cc e
busy-claim claimed (some c) at e = (c, refl, refl, ground arith)

not_claimed-not_busy :
    (s : Status) (o : Option Claim) (at : Time) → s ≡ pending → claim_busy s o at ≡ false
not_claimed-not_busy s o at idle = rw idle refl

deferred-retry :
    (s : Status) (o : Option Time) (at : Time)
    → retry_deferred s o at ≡ true
    → (t : Time) × (s ≡ pending) × (o ≡ some t) × (at < t)
deferred-retry claimed o at e = cc e
deferred-retry stopped o at e = cc e
deferred-retry pending none at e = cc e
deferred-retry pending (some t) at e = (t, refl, refl, ground arith)

valid_next-Follows : (a b : Checkpoint) → valid_next a b ≡ false → Follows a b → ⊥
valid_next-Follows a b e f = ground arith

Follows-valid_next : (a b : Checkpoint) → (Follows a b → ⊥) → valid_next a b ≡ false
Follows-valid_next before_handoff before_handoff f = refl
Follows-valid_next before_handoff before_render f = absurd (f (inl (refl, refl)))
Follows-valid_next before_handoff before_persist f = refl
Follows-valid_next before_render before_handoff f = refl
Follows-valid_next before_render before_render f = refl
Follows-valid_next before_render before_persist f = absurd (f (inr (refl, refl)))
Follows-valid_next before_persist b f = refl

module _ (f : HeadFacts) (at : Time) {i : Issue} where
  claim-KindRefuses :
      (token worker : String) (expires : Time)
      → claim_facts f at token worker expires ≡ refused i
      → KindRefuses f at i (claim token worker expires)
  unfolding claim_facts
  claim-KindRefuses token worker expires e = elim (Bool-cases (leb f.deadline_at at)) [
    | inl over ↦ ground arith
    | inr before ↦ elim (Bool-cases (is_some f.cancellation)) [
      | inl asked ↦ ground arith
      | inr free ↦
          let open_ : IsOpen f at = (ground arith, ground arith) in
          elim (Bool-cases (claim_busy f.status f.claim at)) [
            | inl taken ↦
                let (c, live, held, unexpired) = busy-claim f.status f.claim at taken in
                busy token worker expires c open_ live held unexpired (ground arith)
            | inr not_busy ↦ elim (Bool-cases (retry_deferred f.status f.retry_after at)) [
              | inl waits ↦
                  let (t, idle, retry, sooner) = deferred-retry f.status f.retry_after at waits in
                  deferred token worker expires t open_ idle retry sooner (ground arith)
              | inr not_deferred ↦ elim (Bool-cases (leb f.max_attempts f.attempt_count)) [
                | inl spent ↦ ground arith
                | inr left ↦
                    bad_window token worker expires
                      (record {
                        in_time = open_.0;
                        uncancelled = open_.1;
                        free = claim_busy-IsFree f at not_busy not_deferred;
                      })
                      (ground arith) (ground arith) (ground arith)
              ]
            ]
          ]
    ]
  ]

  owner-KindRefuses :
      (c : Claim) (k : TransitionKind) (token : String)
      → token_of k ≡ some token
      → Owns f at token c
      → IsOpen f at
      → owner_facts f c at k ≡ refused i
      → KindRefuses f at i k
  unfolding owner_facts pass_facts release_facts
  owner-KindRefuses c (pass_checkpoint t following) token h own open_ e =
      elim (Bool-cases (valid_next f.checkpoint following)) [
        | inl ok ↦ ground arith
        | inr bad ↦
            out_of_order t following c (subst (λ z. Owns f at z c) (cc h) own) open_
              (valid_next-Follows f.checkpoint following bad) (ground arith)
      ]
  owner-KindRefuses c (release_claim t none) token h own open_ e = ground arith
  owner-KindRefuses c (release_claim t (some retry)) token h own open_ e =
      elim (Bool-cases (ltb retry at || leb f.deadline_at retry)) [
        | inl bad ↦
            bad_retry t retry c (subst (λ z. Owns f at z c) (cc h) own) open_ (ground arith)
              (ground arith)
        | inr ok ↦ ground arith
      ]
  owner-KindRefuses c (check_checkpoint t) token h own open_ e = cc e
  owner-KindRefuses c _ token h own open_ e = cc h

  owned-KindRefuses :
      (o : Option Claim) (k : TransitionKind) (token : String)
      → token_of k ≡ some token
      → f.status ≡ claimed
      → f.claim ≡ o
      → owned_by o f at token k ≡ refused i
      → KindRefuses f at i k
  unfolding owned_by
  owned-KindRefuses none k token h live held e =
      not_owner k token h (λ c l a. cc (a, held)) (ground arith)
  owned-KindRefuses (some c) k token h live held e = elim (Bool-cases (c.claim_token == token)) [
    | inr other ↦
        not_owner k token h (λ c' l a s. ground (arith, eq_iff c.claim_token token)) (ground arith)
    | inl same ↦ elim (Bool-cases (leb c.expires_at at)) [
      | inl over ↦
          run_out k token c h live held (ground (arith, eq_iff c.claim_token token)) (ground arith)
            (ground arith)
      | inr unexpired ↦ elim (Bool-cases (leb f.deadline_at at)) [
        | inl late ↦ ground arith
        | inr in_time ↦ elim (Bool-cases (is_some f.cancellation)) [
          | inl asked ↦ ground arith
          | inr free ↦
              owner-KindRefuses c k token h
                (record {
                  live = live;
                  held = held;
                  shown = ground (arith, eq_iff c.claim_token token);
                  unexpired = ground arith;
                })
                (ground arith, ground arith) (ground arith)
        ]
      ]
    ]
  ]

  status-KindRefuses :
      (s : Status) (k : TransitionKind) (token : String)
      → token_of k ≡ some token
      → f.status ≡ s
      → with_claim f at token k ≡ refused i
      → KindRefuses f at i k
  unfolding with_claim
  status-KindRefuses claimed k token h live e =
      owned-KindRefuses f.claim k token h live refl (ground arith)
  status-KindRefuses pending k token h live e =
      not_owner k token h (λ c l a. cc (l, live)) (ground arith)
  status-KindRefuses stopped k token h live e =
      not_owner k token h (λ c l a. cc (l, live)) (ground arith)

claim-busy :
    (s : Status) (o : Option Claim) (at : Time) (c : Claim)
    → s ≡ claimed
    → o ≡ some c
    → at < c.expires_at
    → claim_busy s o at ≡ true
claim-busy s o at c live held unexpired = rw (live, held) (ground arith)

retry-deferred :
    (s : Status) (o : Option Time) (at t : Time)
    → s ≡ pending
    → o ≡ some t
    → at < t
    → retry_deferred s o at ≡ true
retry-deferred s o at t idle held sooner = rw (idle, held) (ground arith)

module _ (f : HeadFacts) (r : TransitionRequest) {i : Issue} where
  kind-KindRefuses :
      (k : TransitionKind) → kind_facts f r k ≡ refused i → KindRefuses f r.transition_at i k
  unfolding kind_facts cancel_facts
  kind-KindRefuses (claim token worker expires) e =
      claim-KindRefuses f r.transition_at token worker expires e
  kind-KindRefuses request_cancellation e = cancelled_before (ground arith) (ground arith)
  kind-KindRefuses enforce_deadline e = early (ground arith) (ground arith)
  kind-KindRefuses force_shutdown e = cc e
  kind-KindRefuses (pass_checkpoint token following) e =
      status-KindRefuses f r.transition_at f.status _ token refl refl e
  kind-KindRefuses (release_claim token retry) e =
      status-KindRefuses f r.transition_at f.status _ token refl refl e
  kind-KindRefuses (check_checkpoint token) e =
      status-KindRefuses f r.transition_at f.status _ token refl refl e

  -- The code refuses for one of these reasons,
  pub transition-Refuses : transition_facts f r ≡ refused i → Refuses f r i
  unfolding transition_facts
  transition-Refuses e = elim (Bool-cases (r.operation_id == f.operation_id)) [
    | inr other ↦
        other_operation (ground (arith, eq_iff r.operation_id f.operation_id)) (ground arith)
    | inl same ↦
        let op : r.operation_id ≡ f.operation_id = (eq_iff r.operation_id f.operation_id).0 same in
        elim (Bool-cases (r.expected_head_revision == f.head_revision)) [
          | inr stale ↦ other_revision op (ground arith) (ground arith)
          | inl current ↦ elim (Bool-cases (ltb r.transition_at f.updated_at)) [
            | inl back ↦ back_in_time op (ground arith) (ground arith) (ground arith)
            | inr on ↦ elim (Bool-cases (is_stopped f.status)) [
              | inl over ↦ at_end op (ground arith) (ground arith) (ground arith) (ground arith)
              | inr live ↦
                  guarded
                    (record {
                      operation = op;
                      revision = ground arith;
                      time = ground arith;
                      live = ground arith;
                    })
                    (kind-KindRefuses r.kind (ground arith))
            ]
          ]
        ]
  ]

  stale_owner :
      (s : Status) (o : Option Claim) (token : String) (k : TransitionKind)
      → ((c : Claim) → f.status ≡ claimed → f.claim ≡ some c → c.claim_token ≢ token)
      → i ≡ issue "pdf-export-lifecycle-claim-stale" "claimToken"
      → f.status ≡ s
      → f.claim ≡ o
      → with_claim f r.transition_at token k ≡ refused i
  unfolding with_claim owned_by
  stale_owner pending o token k other e live held = ground arith
  stale_owner stopped o token k other e live held = ground arith
  stale_owner claimed none token k other e live held = ground arith
  stale_owner claimed (some c) token k other e live held =
      ground (arith, other c live held, eq_iff c.claim_token token)

  KindRefuses-owned :
      (k : TransitionKind) (token : String)
      → token_of k ≡ some token
      → KindRefuses f r.transition_at i k
      → with_claim f r.transition_at token k ≡ refused i
  unfolding with_claim owned_by owner_facts pass_facts release_facts
  KindRefuses-owned k token h (cancelled_before a e) = cc h
  KindRefuses-owned k token h (early a e) = cc h
  KindRefuses-owned k token h (busy _ _ _ c a b d g e) = cc h
  KindRefuses-owned k token h (deferred _ _ _ t a b d g e) = cc h
  KindRefuses-owned k token h (bad_window _ _ _ a b d e) = cc h
  KindRefuses-owned k token h (not_owner _ t shown other e) =
      stale_owner f.status f.claim token k
        (λ c live held. subst (λ z. c.claim_token ≢ z) (cc (shown, h)) (other c live held)) e refl
        refl
  KindRefuses-owned k token h (run_out _ t c shown live held same over e) =
      ground (arith, eq_iff c.claim_token token)
  KindRefuses-owned k token h (out_of_order t following c own open_ bad e) =
      ground (arith, eq_iff c.claim_token token, Follows-valid_next f.checkpoint following bad)
  KindRefuses-owned k token h (bad_retry t retry c own open_ bad e) =
      ground (arith, eq_iff c.claim_token token)

  KindRefuses-kind :
      (k : TransitionKind) → KindRefuses f r.transition_at i k → kind_facts f r k ≡ refused i
  unfolding kind_facts cancel_facts claim_facts
  KindRefuses-kind _ (cancelled_before a e) = ground arith
  KindRefuses-kind _ (early a e) = ground arith
  KindRefuses-kind _ (busy token worker expires c open_ live held unexpired e) =
      ground (arith, claim-busy f.status f.claim r.transition_at c live held unexpired)
  KindRefuses-kind _ (deferred token worker expires t open_ idle held sooner e) = ground (
    arith,
    retry-deferred f.status f.retry_after r.transition_at t idle held sooner,
    not_claimed-not_busy f.status f.claim r.transition_at idle,
  )
  KindRefuses-kind _ (bad_window token worker expires may left bad e) = ground (
    arith,
    IsFree-not_busy f r.transition_at may.free,
    IsFree-not_deferred f r.transition_at may.free,
  )
  KindRefuses-kind (pass_checkpoint t following) (not_owner _ token h other e) =
      KindRefuses-owned _ t refl (not_owner (pass_checkpoint t following) token h other e)
  KindRefuses-kind (release_claim t retry) (not_owner _ token h other e) =
      KindRefuses-owned _ t refl (not_owner (release_claim t retry) token h other e)
  KindRefuses-kind (check_checkpoint t) (not_owner _ token h other e) =
      KindRefuses-owned _ t refl (not_owner (check_checkpoint t) token h other e)
  KindRefuses-kind _ (not_owner _ token h other e) = cc h
  KindRefuses-kind (pass_checkpoint t following) (run_out _ token c h live held same over e) =
      KindRefuses-owned _ t refl
        (run_out (pass_checkpoint t following) token c h live held same over e)
  KindRefuses-kind (release_claim t retry) (run_out _ token c h live held same over e) =
      KindRefuses-owned _ t refl (run_out (release_claim t retry) token c h live held same over e)
  KindRefuses-kind (check_checkpoint t) (run_out _ token c h live held same over e) =
      KindRefuses-owned _ t refl (run_out (check_checkpoint t) token c h live held same over e)
  KindRefuses-kind _ (run_out _ token c h live held same over e) = cc h
  KindRefuses-kind _ (out_of_order token following c own open_ bad e) =
      KindRefuses-owned _ token refl (out_of_order token following c own open_ bad e)
  KindRefuses-kind _ (bad_retry token t c own open_ bad e) =
      KindRefuses-owned _ token refl (bad_retry token t c own open_ bad e)

  -- and wherever one of them holds.
  pub Refuses-transition : Refuses f r i → transition_facts f r ≡ refused i
  unfolding transition_facts
  Refuses-transition (other_operation other e) =
      ground (arith, eq_iff r.operation_id f.operation_id)
  Refuses-transition (other_revision op other e) =
      ground (arith, eq_iff r.operation_id f.operation_id)
  Refuses-transition (back_in_time op current back e) =
      ground (arith, eq_iff r.operation_id f.operation_id)
  Refuses-transition (at_end op current on over e) =
      ground (arith, eq_iff r.operation_id f.operation_id)
  Refuses-transition (guarded reads kind) = ground (
    arith,
    eq_iff r.operation_id f.operation_id,
    KindRefuses-kind r.kind kind,
    reads.live,
    reads.operation,
    reads.revision,
    reads.time,
  )
