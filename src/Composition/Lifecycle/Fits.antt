-- ===== src/Composition/Lifecycle/Fits.antt =====
-- A move of a valid job is to valid facts (composition/compositionSchedulerLifecycle.ts): what a command
-- writes is never refused by the contract of the job head.
use flowdoc_vnext_backend.Common.{◌+◌, ◌≤◌, ◌<◌, ◌≡◌, refl, sym, true, Option, none, some, arith}
use flowdoc_vnext_backend.Common.Text.{is_short, is_within_512}
use flowdoc_vnext_backend.PdfExport.Issue.{Time}
use mathlib.Core.Path.{subst}
use flowdoc_vnext_backend.Composition.Core.{Manifest, Demand}
use flowdoc_vnext_backend.Composition.SourcePin.{SourcePin, max_safe}
use flowdoc_vnext_backend.Composition.JobHead.{
  JobStatus, waiting_window, ready_to_advance, ready_to_finalize, completed, blocked, cancelled,
  expired, Lease, Blocker, JobFacts,
}
use flowdoc_vnext_backend.Composition.JobHead.Validity.{
  Holds, BlockerFits, LeaseFits, StateFits, BlockedFits, FactsFit,
}
use flowdoc_vnext_backend.Composition.Lifecycle.{Command, lease_expired}
use flowdoc_vnext_backend.Composition.Lifecycle.Moves as Move
use flowdoc_vnext_backend.Composition.Lifecycle.Moves.{is_open, becomes, over, freed, waits, Moves}

-- The two ends that a command gives.
data IsEnd : JobStatus → Type 0 where
  by_cancel : IsEnd cancelled
  by_expiry : IsEnd expired

live-no_output :
    (s : JobStatus) (f : JobFacts) → is_open s ≡ true → StateFits s f → f.final_output ≡ none
live-no_output waiting_window f live fits = fits.1
live-no_output ready_to_advance f live fits = fits.1
live-no_output ready_to_finalize f live fits = fits.1
live-no_output completed f live fits = cc
live-no_output blocked f live fits = cc
live-no_output cancelled f live fits = cc
live-no_output expired f live fits = cc

-- A job with a lease is live.
pub leased-live :
    (s : JobStatus) (f : JobFacts) (l : Lease) → f.lease ≡ some l → StateFits s f → is_open s ≡ true
leased-live waiting_window f l held fits = refl
leased-live ready_to_advance f l held fits = refl
leased-live ready_to_finalize f l held fits = refl
leased-live completed f l held fits = cc (held, fits.4)
leased-live blocked f l held fits = cc (held, fits.2)
leased-live cancelled f l held fits = cc (held, fits.2)
leased-live expired f l held fits = cc (held, fits.2)

-- What a command changes in the facts of a job.
abbrev pub moved :
    JobStatus
    → Option Demand
    → Option Lease
    → Option Time
    → Option Blocker
    → Time
    → JobFacts
    → JobFacts
moved s d l r b at f = record f {
  head_revision = f.head_revision + 1;
  status = s;
  demand = d;
  lease = l;
  retry = record { attempt_count = f.retry.attempt_count; retry_after = r };
  blocker = b;
  updated_at = at;
}

-- What a status asks of a live job does not depend on what is changed.
live-StateFits :
    (s : JobStatus) (l : Option Lease) (r : Option Time) (b : Option Blocker) (at : Time)
    (f : JobFacts)
    → is_open s ≡ true
    → StateFits s f
    → StateFits s (moved s f.demand l r b at f)
live-StateFits waiting_window l r b at f live fits = fits
live-StateFits ready_to_advance l r b at f live fits = fits
live-StateFits ready_to_finalize l r b at f live fits = fits
live-StateFits completed l r b at f live fits = cc
live-StateFits blocked l r b at f live fits = cc
live-StateFits cancelled l r b at f live fits = cc
live-StateFits expired l r b at f live fits = cc

lease_expired-Fits : (at : Time) → BlockerFits (lease_expired at)
unfolding is_short is_within_512
lease_expired-Fits at = record { code = refl; message = refl; path = refl }

-- The lease of a valid job.
leased-Fits :
    (pin : SourcePin) (m : Manifest) (f : JobFacts) (l : Lease)
    → f.lease ≡ some l
    → FactsFit pin m f
    → (l.acquired_at < l.expires_at) × (f.updated_at ≤ l.acquired_at)
leased-Fits pin m f l held v =
    let a = subst (Holds LeaseFits) held v.parts.lease in
    let b =
      subst (Holds (λ (x : Lease). (f.updated_at ≤ x.acquired_at) × (x.expires_at ≤ f.expires_at)))
        held v.times.lease in
    (a.opens, b.0)

module _ (pin : SourcePin) (m : Manifest) where
  -- The facts after a change are valid if what is changed is.
  moved-Fits :
      (s : JobStatus) (d : Option Demand) (l : Option Lease) (r : Option Time) (b : Option Blocker)
      (at : Time) (f : JobFacts)
      → f.head_revision < max_safe
      → FactsFit pin m f
      → Holds
          (λ (x : Demand).
            (x.document_id ≡ m.document_id) × (x.manifest_fingerprint ≡ m.fingerprint))
          d
      → Holds LeaseFits l
      → Holds BlockerFits b
      → StateFits s (moved s d l r b at f)
      → BlockedFits s b
      → f.updated_at ≤ at
      → at ≤ f.expires_at
      → Holds (λ (x : Lease). (at ≤ x.acquired_at) × (x.expires_at ≤ f.expires_at)) l
      → FactsFit pin m (moved s d l r b at f)
  moved-Fits s d l r b at f room v demand lease blocker state reason after before held = record {
    scalars = record {
      source = v.scalars.source;
      version = v.scalars.version;
      kind = v.scalars.kind;
      job = v.scalars.job;
      revision = omega (arith, room);
      pin_form = v.scalars.pin_form;
      manifest_form = v.scalars.manifest_form;
      transitions = v.scalars.transitions;
    };
    parts = record {
      chain = v.parts.chain;
      retention = v.parts.retention;
      lease = lease;
      attempts = v.parts.attempts;
      blocker = blocker;
      output = v.parts.output;
    };
    owners = record {
      document = v.owners.document;
      manifest = v.owners.manifest;
      projection = v.owners.projection;
      job = v.owners.job;
      source_pin = v.owners.source_pin;
      own_manifest = v.owners.own_manifest;
      created = v.owners.created;
      expires = v.owners.expires;
      cursor_document = v.owners.cursor_document;
      cursor_manifest = v.owners.cursor_manifest;
      demand = demand;
    };
    prefix = record {
      pages = v.prefix.pages;
      placements = v.prefix.placements;
      headings = v.prefix.headings;
      prefix = v.prefix.prefix;
      first = v.prefix.first;
    };
    state = state;
    blocked = reason;
    limits = record {
      attempts = v.limits.attempts;
      initial = v.limits.initial;
      bytes = v.limits.bytes;
    };
    times = record {
      from_creation = omega (arith, v.times.from_creation);
      until_expiry = before;
      lease = held;
    };
  }

  ended-Fits :
      (s : JobStatus) (at : Time) (f : JobFacts)
      → IsEnd s
      → f.final_output ≡ none
      → f.updated_at ≤ at
      → at ≤ f.expires_at
      → f.head_revision < max_safe
      → FactsFit pin m f
      → FactsFit pin m (becomes f at (over f s))
  unfolding becomes
  ended-Fits _ at f by_cancel no_output after before room v =
      moved-Fits cancelled none none none none at f room v tt tt tt (no_output, refl, refl)
        (λ e. cc e) after before tt
  ended-Fits _ at f by_expiry no_output after before room v =
      moved-Fits expired none none none none at f room v tt tt tt (no_output, refl, refl)
        (λ e. cc e) after before tt

  recovered-Fits :
      (at : Time) (retry : Option Time) (l : Lease) (f : JobFacts)
      → f.lease ≡ some l
      → l.expires_at ≤ at
      → at < f.expires_at
      → f.head_revision < max_safe
      → FactsFit pin m f
      → FactsFit pin m (becomes f at (freed f at retry))
  unfolding becomes
  recovered-Fits at retry l f held over before room v =
      let live = leased-live f.status f l held v.state in
      let (opens, after) = leased-Fits pin m f l held v in
      moved-Fits f.status f.demand none retry (some (lease_expired at)) at f room v v.owners.demand
        tt (lease_expired-Fits at)
        (live-StateFits f.status none retry (some (lease_expired at)) at f live v.state) (λ _. refl)
        (omega (arith, over, opens, after)) (omega (arith, before)) tt

  scheduled-Fits :
      (at retry : Time) (f : JobFacts)
      → is_open f.status ≡ true
      → f.lease ≡ none
      → f.updated_at ≤ at
      → at ≤ f.expires_at
      → f.head_revision < max_safe
      → FactsFit pin m f
      → FactsFit pin m (becomes f at (waits f retry))
  unfolding becomes
  scheduled-Fits at retry f live no_lease after before room v =
      moved-Fits f.status f.demand f.lease (some retry) f.blocker at f room v v.owners.demand
        v.parts.lease v.parts.blocker
        (live-StateFits f.status f.lease (some retry) f.blocker at f live v.state) v.blocked after
        before
        (subst (Holds (λ (x : Lease). (at ≤ x.acquired_at) × (x.expires_at ≤ f.expires_at)))
          (sym no_lease) tt)

  -- A move of a valid job, whose revision is not the last, is to valid facts.
  pub Moves-Fits :
      (c : Command) (f g : JobFacts)
      → Moves f g c
      → f.head_revision < max_safe
      → FactsFit pin m f
      → FactsFit pin m g
  Moves-Fits _ f g (Move.lease_taken at retry l live held over before fits made) room v =
      subst (FactsFit pin m) (sym made) (recovered-Fits at retry l f held over before room v)
  Moves-Fits _ f g (Move.lease_expired at retry l live held over after made) room v =
      subst (FactsFit pin m) (sym made) (
        ended-Fits expired f.expires_at f by_expiry
          (live-no_output f.status f (leased-live f.status f l held v.state) v.state)
          v.times.until_expiry (omega arith) room v)
  Moves-Fits _ f g (Move.retry_set at retry b live no_lease held may after later before made) room
        v =
      subst (FactsFit pin m) (sym made)
        (scheduled-Fits at retry f live no_lease after (omega (arith, later, before)) room v)
  Moves-Fits _ f g (Move.job_cancelled at live after before made) room v =
      subst (FactsFit pin m) (sym made) (
        ended-Fits cancelled at f by_cancel (live-no_output f.status f live v.state) after
          (omega (arith, before)) room v)
  Moves-Fits _ f g (Move.job_expired at live over made) room v = subst (FactsFit pin m) (sym made) (
      ended-Fits expired f.expires_at f by_expiry (live-no_output f.status f live v.state)
        v.times.until_expiry (omega arith) room v)
