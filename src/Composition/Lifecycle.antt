-- ===== src/Composition/Lifecycle.antt =====
-- The lifecycle commands on a composition job (composition/compositionSchedulerLifecycle.ts), over the
-- in-memory repository. A command reads the head and then swaps it: other calls may come between, and
-- are given as a list. The repository does not throw, so that no answer is "unavailable".
pub mod Moves
pub mod Fits
pub mod Follows
pub mod Refinement
pub mod Updates
use flowdoc_vnext_backend.Common.{
  ℕ, ◌+◌, String, Bool, true, false, not, ◌&&◌, ◌||◌, Option, none, some, List, ltb, leb, ◌==◌,
  number_eq, text_eq, if◌then◌else◌,
}
use flowdoc_vnext_backend.Common.Text.{is_short, is_fingerprint}
use flowdoc_vnext_backend.PdfExport.Issue.{Time, Digest}
use flowdoc_vnext_backend.Composition.Core.{CompositionCore}
use flowdoc_vnext_backend.Composition.SourcePin.{PinFacts}
use flowdoc_vnext_backend.Composition.JobHead.{
  JobStatus, waiting_window, ready_to_advance, ready_to_finalize, completed, cancelled, expired,
  Lease, Retry, Blocker, JobFacts, JobHead, is_some, every, finalize_head,
}
use flowdoc_vnext_backend.Composition.JobHead as Head
use flowdoc_vnext_backend.Composition.Transition.{ReceiptFacts}
use flowdoc_vnext_backend.Composition.Repository.{
  StoredValue, StoredHead, Repository, Read, found, missing, unreadable, CasResult, committed,
  idempotent_replay, conflict, invalid, not_found, CasInput, read_head,
}
use flowdoc_vnext_backend.Composition.Repository as Store
use flowdoc_vnext_backend.Composition.Repository.Swap.{compare_and_swap, Call, run_all}

pub record Expectation : Type 0 where
  pub job_id : String
  pub revision : ℕ
  pub fingerprint : String

pub data LifecycleResult : Type 0 where
  updated : JobHead → LifecycleResult
  replayed : JobHead → LifecycleResult
  not_needed : JobHead → LifecycleResult
  stale : JobHead → LifecycleResult
  busy : JobHead → LifecycleResult
  refused : JobHead → LifecycleResult
  failed : Option JobHead → LifecycleResult

-- validExpectation
unfoldable pub expectation_valid : Expectation → Bool
expectation_valid x = is_short x.job_id && is_fingerprint x.fingerprint

pub data ExactRead : Type 0 where
  exact : StoredHead → ExactRead
  not_exact : JobHead → ExactRead
  not_read : ExactRead

unfoldable pub exact_of : Expectation → Read StoredHead → ExactRead
exact_of e missing = not_read
exact_of e unreadable = not_read
exact_of e (found x) =
    if not (x.head.head_revision == e.revision) || not (x.head.fingerprint == e.fingerprint)
    then not_exact x.head
    else exact x

-- A command: to recover an expired lease at a time, with a time of retry; to schedule a retry at a time
-- for a later one; to cancel at a time; to expire what is over at a time.
pub data Command : Type 0 where
  recover : Time → Option Time → Command
  schedule : Time → Time → Command
  cancel : Time → Command
  expire : Time → Command

-- What a command comes to on a head: an answer, or other facts to commit.
pub data Plan : Type 0 where
  answer : LifecycleResult → Plan
  write : JobFacts → Plan

-- The end of a job, as cancelled or expired.
unfoldable pub ended_facts : JobStatus → Time → JobFacts → JobFacts
ended_facts status at f = record f {
  head_revision = f.head_revision + 1;
  status = status;
  demand = none;
  lease = none;
  retry = record { attempt_count = f.retry.attempt_count; retry_after = none };
  blocker = none;
  updated_at = at;
}

abbrev pub lease_expired : Time → Blocker
lease_expired at = record {
  code = "composition-lease-expired";
  message = "worker lease expired before an accepted head commit";
  path = "lease";
  retryable = true;
  recorded_at = at;
}

unfoldable pub recovered_facts : Time → Option Time → JobFacts → JobFacts
recovered_facts at retry f = record f {
  head_revision = f.head_revision + 1;
  lease = none;
  retry = record { attempt_count = f.retry.attempt_count; retry_after = retry };
  blocker = some (lease_expired at);
  updated_at = at;
}

unfoldable pub scheduled_facts : Time → Time → JobFacts → JobFacts
scheduled_facts at retry f = record f {
  head_revision = f.head_revision + 1;
  retry = record { attempt_count = f.retry.attempt_count; retry_after = some retry };
  updated_at = at;
}

abbrev pub is_expired : JobStatus → Bool
is_expired expired = true
is_expired _ = false

abbrev pub is_cancelled : JobStatus → Bool
is_cancelled cancelled = true
is_cancelled _ = false

-- Waiting for a window, ready to advance or ready to finalize.
abbrev pub is_live : JobStatus → Bool
is_live waiting_window = true
is_live ready_to_advance = true
is_live ready_to_finalize = true
is_live _ = false

abbrev pub is_retryable : Option Blocker → Bool
is_retryable none = false
is_retryable (some b) = b.retryable

unfoldable pub recover_leased : Time → Option Time → JobHead → Option Lease → Plan
recover_leased at retry h none = answer (not_needed h)
recover_leased at retry h (some l) =
    if ltb at l.expires_at
    then answer (busy h)
    else if leb h.expires_at at
    then write (ended_facts expired h.expires_at h.facts)
    else if not (every (λ t. not (ltb t at || ltb h.expires_at t)) retry)
    then answer (refused h)
    else write (recovered_facts at retry h.facts)

-- recoverExpiredFlowDocBackendCompositionLeaseV1, from the exact read on.
unfoldable pub recover_plan : Time → Option Time → JobHead → Plan
unfolding recover_leased
recover_plan at retry h =
    if is_expired h.status then answer (replayed h) else recover_leased at retry h h.lease

-- scheduleFlowDocBackendCompositionRetryV1
unfoldable pub schedule_plan : Time → Time → JobHead → Plan
schedule_plan at retry h =
    if not (is_live h.status) || is_some h.lease || not (is_retryable h.blocker)
    then answer (refused h)
    else if ltb at h.updated_at || leb retry at || ltb h.expires_at retry
    then answer (refused h)
    else write (scheduled_facts at retry h.facts)

-- cancelFlowDocBackendCompositionV1
unfoldable pub cancel_plan : Time → JobHead → Plan
cancel_plan at h =
    if is_cancelled h.status
    then answer (replayed h)
    else if not (is_live h.status)
    then answer (refused h)
    else if ltb at h.updated_at || leb h.expires_at at
    then answer (refused h)
    else write (ended_facts cancelled at h.facts)

-- expireFlowDocBackendCompositionV1
unfoldable pub expire_plan : Time → JobHead → Plan
expire_plan at h =
    if is_expired h.status
    then answer (replayed h)
    else if not (is_live h.status)
    then answer (refused h)
    else if ltb at h.expires_at
    then answer (not_needed h)
    else write (ended_facts expired h.expires_at h.facts)

unfoldable pub plan : Command → JobHead → Plan
unfolding recover_plan schedule_plan cancel_plan expire_plan
plan (recover at retry) h = recover_plan at retry h
plan (schedule at retry) h = schedule_plan at retry h
plan (cancel at) h = cancel_plan at h
plan (expire at) h = expire_plan at h

-- The answer to what the repository gives for the swap.
unfoldable pub swap_answer : JobHead → CasResult → LifecycleResult
swap_answer h (committed k) = updated k
swap_answer h (Store.stale k) = stale k
swap_answer h _ = failed (some h)

abbrev pub swap_input : JobHead → JobHead → CasInput
swap_input current next = record {
  job_id = current.job_id;
  expected_revision = current.head_revision;
  expected_fingerprint = current.fingerprint;
  next = next;
  request = none;
  finalization = none;
}

module _ (core : CompositionCore) (json : StoredValue → String) ⦃head_digest : Digest JobFacts⦄
    ⦃pin_digest : Digest PinFacts⦄ ⦃receipt_digest : Digest ReceiptFacts⦄ where
  -- readExact
  unfoldable pub read_exact : Repository → Expectation → ExactRead
  unfolding expectation_valid exact_of
  read_exact s e =
      if not (expectation_valid e) then not_read else exact_of e (read_head core json s e.job_id)

  unfoldable pub commit_next :
      Repository → List Call → JobHead → Option JobHead → Repository × LifecycleResult
  unfolding swap_answer
  commit_next s between h none = (s, failed (some h))
  commit_next s between h (some next) =
      let u = run_all core json s between in
      (
        (compare_and_swap core json u (swap_input h next)).0,
        swap_answer h (compare_and_swap core json u (swap_input h next)).1,
      )

  -- commit
  unfoldable pub commit : Repository → List Call → StoredHead → Plan → Repository × LifecycleResult
  unfolding commit_next
  commit s between x (answer r) = (s, r)
  commit s between x (write f) =
      commit_next s between x.head (finalize_head core x.pin x.manifest f)

  unfoldable pub execute_read :
      Repository → List Call → Command → ExactRead → Repository × LifecycleResult
  unfolding commit
  execute_read s between c not_read = (s, failed none)
  execute_read s between c (not_exact h) = (s, stale h)
  execute_read s between c (exact x) = commit s between x (plan c x.head)

  -- The four commands.
  unfoldable pub execute :
      Repository → List Call → Command → Expectation → Repository × LifecycleResult
  unfolding execute_read read_exact
  execute s between c e = execute_read s between c (read_exact s e)
