-- ===== src/Composition/Lifecycle/Follows.antt =====
-- What a swap asks of the next head holds after a move (composition/compositionSchedulerLifecycle.ts).
use flowdoc_vnext_backend.Common.{◌+◌, ◌≡◌, refl, sym, true, false, Option, none, some, arith}
use flowdoc_vnext_backend.PdfExport.Issue.{Time}
use mathlib.Core.Path.{subst}
use flowdoc_vnext_backend.Composition.Core.{Manifest, Demand, CompositionCore}
use flowdoc_vnext_backend.Composition.JobHead.{
  JobStatus, cancelled, expired, Lease, Blocker, JobFacts,
}
use flowdoc_vnext_backend.Composition.JobHead.Validity.{StateFits, Accepted}
use flowdoc_vnext_backend.Composition.Lifecycle.{Command, lease_expired}
use flowdoc_vnext_backend.Composition.Repository.{is_terminal}
use flowdoc_vnext_backend.Composition.Lifecycle.Moves as Move
use flowdoc_vnext_backend.Composition.Lifecycle.Moves.{is_open, becomes, Moves}
use flowdoc_vnext_backend.Composition.Lifecycle.Fits.{moved, leased-live}

-- Core accepts of the facts after a move what it accepted before.
pub Moves-Accepted :
    (core : CompositionCore) (m : Manifest) (c : Command) (f g : JobFacts)
    → Moves f g c
    → Accepted core m f
    → Accepted core m g
unfolding becomes
Moves-Accepted core m _ f g (Move.lease_taken at retry l live held over before fits made) a =
    subst (Accepted core m) (sym made) (record { state = a.state; demand = a.demand })
Moves-Accepted core m _ f g (Move.lease_expired at retry l live held over after made) a =
    subst (Accepted core m) (sym made) (record { state = a.state; demand = tt })
Moves-Accepted core m _ f g
      (Move.retry_set at retry b live no_lease held may after later before made) a =
    subst (Accepted core m) (sym made) (record { state = a.state; demand = a.demand })
Moves-Accepted core m _ f g (Move.job_cancelled at live after before made) a =
    subst (Accepted core m) (sym made) (record { state = a.state; demand = tt })
Moves-Accepted core m _ f g (Move.job_expired at live over made) a =
    subst (Accepted core m) (sym made) (record { state = a.state; demand = tt })

-- What a swap asks of the next head.
pub record Follows (f g : JobFacts) : Type 0 where
  pub revision : g.head_revision ≡ f.head_revision + 1
  pub transition : g.transition_number ≡ f.transition_number
  pub source : g.source_pin_fingerprint ≡ f.source_pin_fingerprint
  pub manifest : g.manifest_fingerprint ≡ f.manifest_fingerprint
  pub retention : g.retention ≡ f.retention

Follows-moved :
    (s : JobStatus) (d : Option Demand) (l : Option Lease) (r : Option Time) (b : Option Blocker)
    (at : Time) (f g : JobFacts)
    → g ≡ moved s d l r b at f
    → Follows f g
Follows-moved s d l r b at f g made = subst (Follows f) (sym made) (record {
  revision = refl;
  transition = refl;
  source = refl;
  manifest = refl;
  retention = refl;
})

pub Moves-Follows : (c : Command) (f g : JobFacts) → Moves f g c → Follows f g
unfolding becomes
Moves-Follows _ f g (Move.lease_taken at retry l live held over before fits made) =
    Follows-moved f.status f.demand none retry (some (lease_expired at)) at f g made
Moves-Follows _ f g (Move.lease_expired at retry l live held over after made) =
    Follows-moved expired none none none none f.expires_at f g made
Moves-Follows _ f g (Move.retry_set at retry b live no_lease held may after later before made) =
    Follows-moved f.status f.demand f.lease (some retry) f.blocker at f g made
Moves-Follows _ f g (Move.job_cancelled at live after before made) =
    Follows-moved cancelled none none none none at f g made
Moves-Follows _ f g (Move.job_expired at live over made) =
    Follows-moved expired none none none none f.expires_at f g made

live-not_terminal : (s : JobStatus) → is_open s ≡ true → is_terminal s ≡ false
live-not_terminal s e = ground arith

-- Only a job that is not over moves.
pub Moves-not_terminal :
    (c : Command) (f g : JobFacts)
    → Moves f g c
    → StateFits f.status f
    → is_terminal f.status ≡ false
Moves-not_terminal _ f g (Move.lease_taken at retry l live held over before fits made) v =
    live-not_terminal f.status (leased-live f.status f l held v)
Moves-not_terminal _ f g (Move.lease_expired at retry l live held over after made) v =
    live-not_terminal f.status (leased-live f.status f l held v)
Moves-not_terminal _ f g (Move.retry_set at retry b live no_lease held may after later before made)
      v =
    live-not_terminal f.status live
Moves-not_terminal _ f g (Move.job_cancelled at live after before made) v =
    live-not_terminal f.status live
Moves-not_terminal _ f g (Move.job_expired at live over made) v = live-not_terminal f.status live
