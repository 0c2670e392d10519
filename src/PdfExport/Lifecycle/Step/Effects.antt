-- ===== src/PdfExport/Lifecycle/Step/Effects.antt =====
-- What the lifecycle of pdfExport/pdfExportLifecycle.ts promises of each transition: a table of all that
-- a transition may change, written from the promises and not from the code. The rest of a head stays.
use flowdoc_vnext_backend.Common.{ℕ, ◌+◌, Option, none, some, String}
use flowdoc_vnext_backend.PdfExport.Issue.{Time}
use flowdoc_vnext_backend.PdfExport.Lifecycle.Head.{
  Checkpoint, before_handoff, before_render, before_persist, StopReason, attempts_exhausted,
  cancelled_before_handoff, cancelled_before_render, cancelled_before_persist, Status, pending,
  claimed, stopped, Claim, Cancellation, Release, CheckpointCheck, Stop, HeadFacts,
  TransitionRequest,
}

-- All that a transition may change, besides the revision and the time of the update.
pub record Work : Type 0 where
  pub status : Status
  pub checkpoint : Checkpoint
  pub attempt_count : ℕ
  pub retry_after : Option Time
  pub claim : Option Claim
  pub cancellation : Option Cancellation
  pub last_release : Option Release
  pub checkpoint_check : Option CheckpointCheck
  pub stop : Option Stop

-- The head with this work, one revision on.
abbrev pub becomes : HeadFacts → Time → Work → HeadFacts
becomes f at w = record f {
  head_revision = f.head_revision + 1;
  status = w.status;
  checkpoint = w.checkpoint;
  attempt_count = w.attempt_count;
  retry_after = w.retry_after;
  claim = w.claim;
  cancellation = w.cancellation;
  last_release = w.last_release;
  checkpoint_check = w.checkpoint_check;
  stop = w.stop;
  updated_at = at;
}

-- A cancelled lifecycle names the checkpoint that it had not passed.
abbrev pub cancelled_at : Checkpoint → StopReason
cancelled_at before_handoff = cancelled_before_handoff
cancelled_at before_render = cancelled_before_render
cancelled_at before_persist = cancelled_before_persist

abbrev pub asked_by : TransitionRequest → Cancellation
asked_by r = record { transition_id = r.transition_id; requested_at = r.transition_at }

abbrev given_back : Claim → Time → Option Time → Release
given_back c at retry = record {
  claim_token = c.claim_token;
  worker_id = c.worker_id;
  attempt_number = c.attempt_number;
  released_at = at;
  retry_after = retry;
}

-- A stop keeps the checkpoint and the attempts, and drops the claim, its check and the retry time.
abbrev stopped_work : HeadFacts → StopReason → Time → Option Cancellation → Option Release → Work
stopped_work f reason at cancellation release = record {
  status = stopped;
  checkpoint = f.checkpoint;
  attempt_count = f.attempt_count;
  retry_after = none;
  claim = none;
  cancellation = cancellation;
  last_release = release;
  checkpoint_check = none;
  stop = some (record { reason = reason; checkpoint = f.checkpoint; stopped_at = at });
}

unfoldable pub after_stop : HeadFacts → StopReason → Time → Option Cancellation → HeadFacts
after_stop f reason at cancellation =
    becomes f at (stopped_work f reason at cancellation f.last_release)

-- A release when no attempt is left: stopped, and recorded as released.
unfoldable pub after_exhaustion : HeadFacts → Claim → Time → Option Time → HeadFacts
after_exhaustion f c at retry =
    becomes f at
      (stopped_work f attempts_exhausted at f.cancellation (some (given_back c at retry)))

-- A cancellation of claimed work is retained, and undoes a check of the checkpoint.
unfoldable pub after_mark : HeadFacts → TransitionRequest → HeadFacts
after_mark f r = becomes f r.transition_at (record {
  status = f.status;
  checkpoint = f.checkpoint;
  attempt_count = f.attempt_count;
  retry_after = f.retry_after;
  claim = f.claim;
  cancellation = some (asked_by r);
  last_release = f.last_release;
  checkpoint_check = none;
  stop = f.stop;
})

-- A new claim starts an attempt: where the head was pending, at the checkpoint that it has; where it is
-- taken from an expired claim, from the first checkpoint.
abbrev pub start_of : Status → Checkpoint → Checkpoint
start_of pending c = c
start_of claimed c = before_handoff
start_of stopped c = c

unfoldable pub after_claim : HeadFacts → Time → String → String → Time → HeadFacts
after_claim f at token worker expires = becomes f at (record {
  status = claimed;
  checkpoint = start_of f.status f.checkpoint;
  attempt_count = f.attempt_count + 1;
  retry_after = none;
  claim = some (record {
    claim_token = token;
    worker_id = worker;
    attempt_number = f.attempt_count + 1;
    claimed_at = at;
    expires_at = expires;
  });
  cancellation = f.cancellation;
  last_release = f.last_release;
  checkpoint_check = none;
  stop = f.stop;
})

-- The owner goes on to the next checkpoint, which is not checked yet.
unfoldable pub after_pass : HeadFacts → Time → Checkpoint → HeadFacts
after_pass f at following = becomes f at (record {
  status = f.status;
  checkpoint = following;
  attempt_count = f.attempt_count;
  retry_after = f.retry_after;
  claim = f.claim;
  cancellation = f.cancellation;
  last_release = f.last_release;
  checkpoint_check = none;
  stop = f.stop;
})

-- A release gives the claim back, and the next owner starts at the first checkpoint.
unfoldable pub after_release : HeadFacts → Claim → Time → Option Time → HeadFacts
after_release f c at retry = becomes f at (record {
  status = pending;
  checkpoint = before_handoff;
  attempt_count = f.attempt_count;
  retry_after = retry;
  claim = none;
  cancellation = f.cancellation;
  last_release = some (given_back c at retry);
  checkpoint_check = none;
  stop = f.stop;
})

-- A check is a receipt for the checkpoint and the claim as they are.
unfoldable pub after_check : HeadFacts → Claim → Time → HeadFacts
after_check f c at = becomes f at (record {
  status = f.status;
  checkpoint = f.checkpoint;
  attempt_count = f.attempt_count;
  retry_after = f.retry_after;
  claim = f.claim;
  cancellation = f.cancellation;
  last_release = f.last_release;
  checkpoint_check =
      some (record { checkpoint = f.checkpoint; claim_token = c.claim_token; checked_at = at });
  stop = f.stop;
})
