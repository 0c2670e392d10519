-- ===== src/Composition/Lifecycle/Moves.antt =====
-- The specification of the lifecycle commands of composition/compositionSchedulerLifecycle.ts: which
-- command takes which facts of a job to which.
use flowdoc_vnext_backend.Common.{
  ◌≤◌, ◌<◌, ◌≡◌, ◌≢◌, refl, sym, ap, ◌∙◌, inl, inr, ◌↔◌, Bool, true, false, not, ◌||◌, Option, none,
  some, ltb, leb, Bool-cases, arith, ℕ, ◌+◌,
}
use flowdoc_vnext_backend.PdfExport.Issue.{Time}
use flowdoc_vnext_backend.Composition.Core.{Demand}
use flowdoc_vnext_backend.Composition.JobHead.{
  JobStatus, waiting_window, ready_to_advance, ready_to_finalize, completed, blocked, cancelled,
  expired, Lease, Blocker, JobFacts, JobHead, is_some, every,
}
use flowdoc_vnext_backend.Composition.JobHead.Validity.{Holds}
use flowdoc_vnext_backend.Composition.Lifecycle.{
  Command, recover, schedule, cancel, expire, ended_facts, recovered_facts, scheduled_facts,
  is_live, is_expired, is_cancelled, is_retryable, recover_leased, recover_plan, schedule_plan,
  cancel_plan, expire_plan, write, plan,
}

-- All that a command may change, besides the revision and the time of the update.
pub record Work : Type 0 where
  pub status : JobStatus
  pub demand : Option Demand
  pub lease : Option Lease
  pub attempt_count : ℕ
  pub retry_after : Option Time
  pub blocker : Option Blocker

-- The facts with this work, one revision on; the rest stays.
unfoldable pub becomes : JobFacts → Time → Work → JobFacts
becomes f at w = record f {
  head_revision = f.head_revision + 1;
  status = w.status;
  demand = w.demand;
  lease = w.lease;
  retry = record { attempt_count = w.attempt_count; retry_after = w.retry_after };
  blocker = w.blocker;
  updated_at = at;
}

-- An ended job asks for nothing: no demand, no lease, no retry and no blocker.
abbrev pub over : JobFacts → JobStatus → Work
over f status = record {
  status = status;
  demand = none;
  lease = none;
  attempt_count = f.retry.attempt_count;
  retry_after = none;
  blocker = none;
}

-- A job freed of its lease says why, and may be tried again.
abbrev pub freed : JobFacts → Time → Option Time → Work
freed f at retry = record {
  status = f.status;
  demand = f.demand;
  lease = none;
  attempt_count = f.retry.attempt_count;
  retry_after = retry;
  blocker = some (record {
    code = "composition-lease-expired";
    message = "worker lease expired before an accepted head commit";
    path = "lease";
    retryable = true;
    recorded_at = at;
  });
}

-- A job that waits for its retry, with the blocker that it had.
abbrev pub waits : JobFacts → Time → Work
waits f retry = record {
  status = f.status;
  demand = f.demand;
  lease = f.lease;
  attempt_count = f.retry.attempt_count;
  retry_after = some retry;
  blocker = f.blocker;
}

-- What the commands write is that.
ended_facts-same :
    (status : JobStatus) (at : Time) (f : JobFacts)
    → ended_facts status at f ≡ becomes f at (over f status)
unfolding ended_facts becomes
ended_facts-same status at f = refl

recovered_facts-same :
    (at : Time) (retry : Option Time) (f : JobFacts)
    → recovered_facts at retry f ≡ becomes f at (freed f at retry)
unfolding recovered_facts becomes
recovered_facts-same at retry f = refl

scheduled_facts-same :
    (at retry : Time) (f : JobFacts) → scheduled_facts at retry f ≡ becomes f at (waits f retry)
unfolding scheduled_facts becomes
scheduled_facts-same at retry f = refl

-- A job that is not over may be scheduled, cancelled and expired.
abbrev pub is_open : JobStatus → Bool
is_open waiting_window = true
is_open ready_to_advance = true
is_open ready_to_finalize = true
is_open completed = false
is_open blocked = false
is_open cancelled = false
is_open expired = false

is_open-same : (s : JobStatus) → is_open s ≡ is_live s
is_open-same waiting_window = refl
is_open-same ready_to_advance = refl
is_open-same ready_to_finalize = refl
is_open-same completed = refl
is_open-same blocked = refl
is_open-same cancelled = refl
is_open-same expired = refl

-- A job moves in five ways. What is not named in the facts of the end stays.
pub data Moves (f g : JobFacts) : Command → Type 0 where
  -- A lease that is over is taken away, and the job says why, with the time of a retry in its life.
  lease_taken :
      (at : Time) (retry : Option Time) (l : Lease)
      → f.status ≢ expired
      → f.lease ≡ some l
      → l.expires_at ≤ at
      → at < f.expires_at
      → Holds (λ (t : Time). (at ≤ t) × (t ≤ f.expires_at)) retry
      → g ≡ becomes f at (freed f at retry)
      → Moves f g (recover at retry)
  -- Or the job is over with its lease.
  lease_expired :
      (at : Time) (retry : Option Time) (l : Lease)
      → f.status ≢ expired
      → f.lease ≡ some l
      → l.expires_at ≤ at
      → f.expires_at ≤ at
      → g ≡ becomes f f.expires_at (over f expired)
      → Moves f g (recover at retry)
  retry_set :
      (at retry : Time) (b : Blocker)
      → is_open f.status ≡ true
      → f.lease ≡ none
      → f.blocker ≡ some b
      → b.retryable ≡ true
      → f.updated_at ≤ at
      → at < retry
      → retry ≤ f.expires_at
      → g ≡ becomes f at (waits f retry)
      → Moves f g (schedule at retry)
  job_cancelled :
      (at : Time)
      → is_open f.status ≡ true
      → f.updated_at ≤ at
      → at < f.expires_at
      → g ≡ becomes f at (over f cancelled)
      → Moves f g (cancel at)
  job_expired :
      (at : Time)
      → is_open f.status ≡ true
      → f.expires_at ≤ at
      → g ≡ becomes f f.expires_at (over f expired)
      → Moves f g (expire at)

cancel_guard :
    (at : Time) (h : JobHead) (g : JobFacts)
    → cancel_plan at h ≡ write g
    → (is_live h.status ≡ true)
      × (h.updated_at ≤ at)
      × (at < h.expires_at)
      × (g ≡ ended_facts cancelled at h.facts)
unfolding cancel_plan
cancel_guard at h g e = (ground arith, ground arith, ground arith, ground arith)

expire_guard :
    (at : Time) (h : JobHead) (g : JobFacts)
    → expire_plan at h ≡ write g
    → (is_live h.status ≡ true)
      × (h.expires_at ≤ at)
      × (g ≡ ended_facts expired h.expires_at h.facts)
unfolding expire_plan
expire_guard at h g e = (ground arith, ground arith, ground arith)

schedule_guard :
    (at retry : Time) (h : JobHead) (g : JobFacts)
    → schedule_plan at retry h ≡ write g
    → (is_live h.status ≡ true)
      × (is_some h.lease ≡ false)
      × (is_retryable h.blocker ≡ true)
      × (h.updated_at ≤ at)
      × (at < retry)
      × (retry ≤ h.expires_at)
      × (g ≡ scheduled_facts at retry h.facts)
unfolding schedule_plan
schedule_guard at retry h g e = (
  ground arith,
  ground arith,
  ground arith,
  ground arith,
  ground arith,
  ground arith,
  ground arith,
)

not_some : {A : Type 0} (o : Option A) → is_some o ≡ false → o ≡ none
not_some none e = refl
not_some (some a) e = cc e

retryable-some :
    (o : Option Blocker)
    → is_retryable o ≡ true
    → (b : Blocker) × (o ≡ some b) × (b.retryable ≡ true)
retryable-some none e = cc e
retryable-some (some b) e = (b, refl, e)

retry-Holds :
    (at expires : Time) (o : Option Time)
    → (every (λ t. not (ltb t at || ltb expires t)) o ≡ true)
      ↔ Holds (λ (t : Time). (at ≤ t) × (t ≤ expires)) o
retry-Holds at expires none = (λ e. tt, λ e. refl)
retry-Holds at expires (some t) = (λ e. ground arith, λ e. ground arith)

leased_moves :
    (at : Time) (retry : Option Time) (h : JobHead) (g : JobFacts) (o : Option Lease)
    → h.status ≢ expired
    → h.lease ≡ o
    → recover_leased at retry h o ≡ write g
    → Moves h.facts g (recover at retry)
unfolding recover_leased
leased_moves at retry h g none live held e = cc e
leased_moves at retry h g (some l) live held e = elim (Bool-cases (ltb at l.expires_at)) [
  | inl t ↦ cc (rw (t, recover_leased) at e)
  | inr t ↦ elim (Bool-cases (leb h.expires_at at)) [
    | inl u ↦
        let made : ended_facts expired h.expires_at h.facts ≡ g =
          cc (rw (t, u, recover_leased) at e) in
        lease_expired at retry l live held (ground arith) (ground arith)
          (sym made ∙ ended_facts-same expired h.expires_at h.facts)
    | inr u ↦ elim (Bool-cases (every (λ t. not (ltb t at || ltb h.expires_at t)) retry)) [
      | inr v ↦ cc (rw (t, u, v, recover_leased) at e)
      | inl v ↦
          let made : recovered_facts at retry h.facts ≡ g =
            cc (rw (t, u, v, recover_leased) at e) in
          lease_taken at retry l live held (ground arith) (ground arith)
            ((retry-Holds at h.expires_at retry).0 v)
            (sym made ∙ recovered_facts-same at retry h.facts)
    ]
  ]
]

is_expired_iff : (s : JobStatus) → (is_expired s ≡ false) ↔ (s ≢ expired)
is_expired_iff s = (λ e. ground arith, λ e. ground arith)

recover_moves :
    (at : Time) (retry : Option Time) (h : JobHead) (g : JobFacts)
    → recover_plan at retry h ≡ write g
    → Moves h.facts g (recover at retry)
unfolding recover_plan
recover_moves at retry h g e = elim (Bool-cases (is_expired h.status)) [
  | inl t ↦ cc (rw (t, recover_plan) at e)
  | inr t ↦
      leased_moves at retry h g h.lease ((is_expired_iff h.status).0 t) refl
        (rw (t, recover_plan) at e)
]

-- A command that comes to facts makes a move to them.
pub plan-Moves : (c : Command) (h : JobHead) (g : JobFacts) → plan c h ≡ write g → Moves h.facts g c
unfolding plan
plan-Moves (recover at retry) h g e = recover_moves at retry h g e
plan-Moves (schedule at retry) h g e =
    let (live, no_lease, retryable, a, b, c, made) = schedule_guard at retry h g e in
    let (k, at_k, may) = retryable-some h.blocker retryable in
    retry_set at retry k (is_open-same h.status ∙ live) (not_some h.lease no_lease) at_k may a b c
      (made ∙ scheduled_facts-same at retry h.facts)
plan-Moves (cancel at) h g e =
    let (live, a, b, made) = cancel_guard at h g e in
    job_cancelled at (is_open-same h.status ∙ live) a b
      (made ∙ ended_facts-same cancelled at h.facts)
plan-Moves (expire at) h g e =
    let (live, a, made) = expire_guard at h g e in
    job_expired at (is_open-same h.status ∙ live) a
      (made ∙ ended_facts-same expired h.expires_at h.facts)

live-not_other :
    (s : JobStatus) → is_live s ≡ true → (is_cancelled s ≡ false) × (is_expired s ≡ false)
live-not_other s e = (ground arith, ground arith)

-- And a move is what the command comes to.
pub Moves-plan : (c : Command) (h : JobHead) (g : JobFacts) → Moves h.facts g c → plan c h ≡ write g
unfolding plan recover_plan recover_leased schedule_plan cancel_plan expire_plan
Moves-plan _ h g (lease_taken at retry l live held over before fits made) =
    let a = (is_expired_iff h.status).1 live in
    let b : ltb at l.expires_at ≡ false = ground arith in
    let d : leb h.expires_at at ≡ false = ground arith in
    let v = (retry-Holds at h.expires_at retry).1 fits in
    rw (a, held, b, d, v, recover_leased)
      (ap write (recovered_facts-same at retry h.facts ∙ sym made))
Moves-plan _ h g (lease_expired at retry l live held over after made) =
    let a = (is_expired_iff h.status).1 live in
    let b : ltb at l.expires_at ≡ false = ground arith in
    let d : leb h.expires_at at ≡ true = ground arith in
    rw (a, held, b, d, recover_leased)
      (ap write (ended_facts-same expired h.expires_at h.facts ∙ sym made))
Moves-plan _ h g (retry_set at retry k still no_lease held may a b d made) =
    let live = sym (is_open-same h.status) ∙ still in
    let x : ltb at h.updated_at ≡ false = ground arith in
    let y : leb retry at ≡ false = ground arith in
    let z : ltb h.expires_at retry ≡ false = ground arith in
    let free : is_some h.lease ≡ false = ap (is_some) no_lease in
    let again : is_retryable h.blocker ≡ true = ap is_retryable held ∙ may in
    rw (live, free, again, x, y, z) (ap write (scheduled_facts-same at retry h.facts ∙ sym made))
Moves-plan _ h g (job_cancelled at still a b made) =
    let live = sym (is_open-same h.status) ∙ still in
    let x : ltb at h.updated_at ≡ false = ground arith in
    let y : leb h.expires_at at ≡ false = ground arith in
    rw ((live-not_other h.status live).0, live, x, y)
      (ap write (ended_facts-same cancelled at h.facts ∙ sym made))
Moves-plan _ h g (job_expired at still a made) =
    let live = sym (is_open-same h.status) ∙ still in
    let x : ltb at h.expires_at ≡ false = ground arith in
    rw ((live-not_other h.status live).1, live, x)
      (ap write (ended_facts-same expired h.expires_at h.facts ∙ sym made))

-- A command commits facts exactly where the specification has a move to them.
pub plan-IsMove :
    (c : Command) (h : JobHead) (g : JobFacts) → (plan c h ≡ write g) ↔ Moves h.facts g c
plan-IsMove c h g = (plan-Moves c h g, Moves-plan c h g)
