-- ===== src/Composition/JobHead/Validity/Conditions.antt =====
-- The tests of the parser of job heads (composition/compositionSchedulerJobHead.ts) against the validity
-- of a head, one by one.
use text.Mathlib.TextEquality.{eq_iff}
use flowdoc_vnext_backend.Common.{
  ◌≤◌, ◌≡◌, refl, ◌↔◌, Bool, true, ◌&&◌, ◌==◌, text_eq, number_eq, String, Option, none, some,
  arith, Option-cases, inl, inr,
}
use flowdoc_vnext_backend.Composition.Core.{Manifest, ActiveRoot, Demand}
use flowdoc_vnext_backend.Composition.SourcePin.{
  ContentKind, ContentRef, page_plan, heading_page_map, kind_beq, ref_valid, Retention, SourcePin,
  max_attempts,
}
use flowdoc_vnext_backend.Composition.JobHead.{
  JobStatus, waiting_window, ready_to_advance, ready_to_finalize, completed, blocked, cancelled,
  expired, Lease, Retry, Blocker, OutputRefs, Chain, JobFacts, job_head_source, every, same_text,
  lease_valid, retry_valid, retention_valid, blocker_valid, chain_valid, output_valid, own_ref,
  owners_match, scalars_valid, parts_valid, owners_valid, chain_matches, demand_matches,
  state_valid, blocker_matches, limits_valid, times_valid, all_valid,
}
use flowdoc_vnext_backend.Composition.JobHead.Validity.{
  Holds, RefFits, OwnRef, LeaseFits, BlockerFits, ChainFits, OutputFits, ScalarsFit, PartsFit,
  RetentionFits, OwnersFit, PrefixFits, Demands, StateFits, BlockedFits, LimitsFit, TimesFit,
  FactsFit,
}

and3_iff : (a b c : Bool) → (a && b && c ≡ true) ↔ ((a ≡ true) × (b ≡ true) × (c ≡ true))
and3_iff a b c = (λ h. ground arith, λ h. ground arith)

and2_iff : (a b : Bool) → (a && b ≡ true) ↔ ((a ≡ true) × (b ≡ true))
and2_iff a b = (λ h. ground arith, λ h. ground arith)

and9_iff :
    (a b c d e g i j k : Bool)
    → (a && b && c && d && e && g && i && j && k ≡ true) ↔ (
        (a ≡ true)
        × (b ≡ true)
        × (c ≡ true)
        × (d ≡ true)
        × (e ≡ true)
        × (g ≡ true)
        × (i ≡ true)
        × (j ≡ true)
        × (k ≡ true))
and9_iff a b c d e g i j k = (λ h. ground arith, λ h. ground arith)

and6_iff :
    (a b c d e g : Bool)
    → (a && b && c && d && e && g ≡ true)
      ↔ ((a ≡ true) × (b ≡ true) × (c ≡ true) × (d ≡ true) × (e ≡ true) × (g ≡ true))
and6_iff a b c d e g = (λ h. ground arith, λ h. ground arith)

every_iff :
    {A : Type 0} (p : A → Bool) (P : A → Type 0)
    → ((a : A) → (p a ≡ true) ↔ P a)
    → (o : Option A) → (every p o ≡ true) ↔ Holds P o
every_iff p P h none = (λ _. tt, λ _. refl)
every_iff p P h (some a) = h a

kind_iff : (k l : ContentKind) → (kind_beq k l ≡ true) ↔ (k ≡ l)
kind_iff k l = (λ h. ground arith, λ h. ground arith)

ref_iff : (r : ContentRef) → (ref_valid r ≡ true) ↔ RefFits r
unfolding ref_valid
ref_iff r = (λ h. ground arith, λ h. ground arith)

lease_iff : (l : Lease) → (lease_valid l ≡ true) ↔ LeaseFits l
unfolding lease_valid
lease_iff l = (λ h. ground arith, λ h. ground arith)

blocker_iff : (b : Blocker) → (blocker_valid b ≡ true) ↔ BlockerFits b
unfolding blocker_valid
blocker_iff b = (λ h. ground arith, λ h. ground arith)

chain_iff : (c : Chain) → (chain_valid c ≡ true) ↔ ChainFits c
unfolding chain_valid
chain_iff c = (λ h. ground arith, λ h. ground arith)

own_iff :
    (job : String) (k : ContentKind) (r : ContentRef) → (own_ref job k r ≡ true) ↔ OwnRef job k r
unfolding own_ref
own_iff job k r = (
  λ h. ground (arith, ref_iff r, eq_iff r.job_id job, kind_iff r.kind k),
  λ h. ground (arith, ref_iff r, eq_iff r.job_id job, kind_iff r.kind k),
)

output_iff : (job : String) (o : OutputRefs) → (output_valid job o ≡ true) ↔ OutputFits job o
unfolding output_valid
output_iff job o =
    let plan = own_iff job page_plan o.page_plan_ref in
    let map = own_iff job heading_page_map o.heading_page_map_ref in
    (
      λ h.
          let (a, b, c) = (and3_iff _ _ _).0 h in
          record { form = a; plan = plan.0 b; map = map.0 c },
      λ v. (and3_iff _ _ _).1 (v.form, plan.1 v.plan, map.1 v.map),
    )

retention_iff : (r : Retention) → (retention_valid r ≡ true) ↔ RetentionFits r
unfolding retention_valid
retention_iff r = (λ h. ground arith, λ h. ground arith)

retry_iff : (r : Retry) → (retry_valid r ≡ true) ↔ (r.attempt_count ≤ max_attempts)
unfolding retry_valid
retry_iff r = (λ h. ground arith, λ h. ground arith)

scalars_iff : (f : JobFacts) → (scalars_valid f ≡ true) ↔ ScalarsFit f
unfolding scalars_valid
scalars_iff f = (
  λ h. ground (arith, eq_iff f.source job_head_source, eq_iff f.kind "composition-job-head"),
  λ h. ground (arith, eq_iff f.source job_head_source, eq_iff f.kind "composition-job-head"),
)

parts_iff : (f : JobFacts) → (parts_valid f ≡ true) ↔ PartsFit f
unfolding parts_valid
parts_iff f =
    let lease = every_iff lease_valid LeaseFits lease_iff f.lease in
    let blocker = every_iff blocker_valid BlockerFits blocker_iff f.blocker in
    let output =
      every_iff (output_valid f.job_id) (OutputFits f.job_id) (output_iff f.job_id)
        f.final_output in
    (
      λ h.
          let (a, b, c, d, e, g) = (and6_iff _ _ _ _ _ _).0 h in
          record {
            chain = (chain_iff f.chain).0 a;
            retention = (retention_iff f.retention).0 b;
            lease = lease.0 c;
            attempts = (retry_iff f.retry).0 d;
            blocker = blocker.0 e;
            output = output.0 g;
          },
      λ v. (and6_iff _ _ _ _ _ _).1 (
        (chain_iff f.chain).1 v.chain,
        (retention_iff f.retention).1 v.retention,
        lease.1 v.lease,
        (retry_iff f.retry).1 v.attempts,
        blocker.1 v.blocker,
        output.1 v.output,
      ),
    )

pub same_text_iff : (s t : Option String) → (same_text s t ≡ true) ↔ (s ≡ t)
same_text_iff none none = (λ h. refl, λ h. refl)
same_text_iff none (some t) = (λ h. cc h, λ h. cc h)
same_text_iff (some s) none = (λ h. cc h, λ h. cc h)
same_text_iff (some s) (some t) = (λ h. ground (arith, eq_iff s t), λ h. ground (arith, eq_iff s t))

prefix_iff : (f : JobFacts) → (chain_matches f ≡ true) ↔ PrefixFits f
unfolding chain_matches
prefix_iff f = (
  λ h. ground (arith, same_text_iff f.cursor.closed_prefix.fingerprint f.chain.closed_page_prefix),
  λ h. ground (arith, same_text_iff f.cursor.closed_prefix.fingerprint f.chain.closed_page_prefix),
)

Demands-iff :
    (d : Demand) (r : ActiveRoot) → (demand_matches (some d) (some r) ≡ true) ↔ Demands d r
unfolding demand_matches
Demands-iff d r = (
  λ h. ground (
    arith,
    eq_iff d.root_node_id r.root_node_id,
    eq_iff d.family r.family,
    eq_iff d.state_fingerprint r.state_fingerprint,
  ),
  λ h. ground (
    arith,
    eq_iff d.root_node_id r.root_node_id,
    eq_iff d.family r.family,
    eq_iff d.state_fingerprint r.state_fingerprint,
  ),
)

waiting-fits :
    (f : JobFacts) (d : Demand) (r : ActiveRoot)
    → f.demand ≡ some d
    → f.cursor.active_root ≡ some r
    → state_valid waiting_window f ≡ true
    → StateFits waiting_window f
unfolding state_valid
waiting-fits f d r at_d at_r h =
    (ground arith, ground arith, (d, r, at_d, at_r, ground (arith, Demands-iff d r)))

fits-waiting :
    (f : JobFacts) (d : Demand) (r : ActiveRoot)
    → f.demand ≡ some d
    → f.cursor.active_root ≡ some r
    → StateFits waiting_window f
    → state_valid waiting_window f ≡ true
unfolding state_valid
fits-waiting f d r at_d at_r (a, b, (d', r', at_d', at_r', fits)) =
    let same_d : d' ≡ d = cc (at_d, at_d') in
    let same_r : r' ≡ r = cc (at_r, at_r') in
    let m : demand_matches (some d) (some r) ≡ true =
      rw (← same_d, ← same_r) ((Demands-iff d' r').1 fits) in
    rw (a, b, at_d, at_r) m

waiting_iff : (f : JobFacts) → (state_valid waiting_window f ≡ true) ↔ StateFits waiting_window f
unfolding state_valid
waiting_iff f = elim (Option-cases f.demand) [
  | inl none_d ↦ (λ h. ground arith, λ h. ground arith)
  | inr (d, at_d) ↦ elim (Option-cases f.cursor.active_root) [
    | inl none_r ↦ (λ h. ground arith, λ h. ground arith)
    | inr (r, at_r) ↦ (λ h. waiting-fits f d r at_d at_r h, λ h. fits-waiting f d r at_d at_r h)
  ]
]

state_iff : (s : JobStatus) (f : JobFacts) → (state_valid s f ≡ true) ↔ StateFits s f
unfolding state_valid
state_iff waiting_window f = waiting_iff f
state_iff ready_to_advance f = (λ h. ground arith, λ h. ground arith)
state_iff ready_to_finalize f = (λ h. ground arith, λ h. ground arith)
state_iff completed f = (λ h. ground arith, λ h. ground arith)
state_iff blocked f = (λ h. ground arith, λ h. ground arith)
state_iff cancelled f = (λ h. ground arith, λ h. ground arith)
state_iff expired f = (λ h. ground arith, λ h. ground arith)

blocked_iff : (s : JobStatus) (b : Option Blocker) → (blocker_matches s b ≡ true) ↔ BlockedFits s b
unfolding blocker_matches
blocked_iff s none = (λ h. ground arith, λ h. ground arith)
blocked_iff s (some b) = (λ h. ground arith, λ h. ground arith)

limits_iff : (pin : SourcePin) (f : JobFacts) → (limits_valid pin f ≡ true) ↔ LimitsFit pin f
unfolding limits_valid
limits_iff pin f = (λ h. ground arith, λ h. ground arith)

times_iff : (f : JobFacts) → (times_valid f ≡ true) ↔ TimesFit f
unfolding times_valid
times_iff f = (λ h. ground arith, λ h. ground arith)

demand_owner_iff :
    (m : Manifest) (o : Option Demand)
    → (every
          (λ (d : Demand).
            d.document_id == m.document_id && d.manifest_fingerprint == m.fingerprint)
          o
        ≡ true)
      ↔ Holds
          (λ (d : Demand).
            (d.document_id ≡ m.document_id) × (d.manifest_fingerprint ≡ m.fingerprint))
          o
demand_owner_iff m none = (λ h. tt, λ h. refl)
demand_owner_iff m (some d) = (
  λ h.
      ground
        (arith, eq_iff d.document_id m.document_id, eq_iff d.manifest_fingerprint m.fingerprint),
  λ h.
      ground
        (arith, eq_iff d.document_id m.document_id, eq_iff d.manifest_fingerprint m.fingerprint),
)

owners_iff :
    (pin : SourcePin) (m : Manifest) (f : JobFacts)
    → (owners_match pin m && owners_valid pin m f ≡ true) ↔ OwnersFit pin m f
unfolding owners_match owners_valid
owners_iff pin m f = (
  λ h. ground (
    arith,
    eq_iff pin.document_id m.document_id,
    eq_iff pin.manifest_fingerprint m.fingerprint,
    eq_iff pin.resolved_projection_fingerprint m.resolved_projection_fingerprint,
    eq_iff f.job_id pin.job_id,
    eq_iff f.source_pin_fingerprint pin.fingerprint,
    eq_iff f.manifest_fingerprint pin.manifest_fingerprint,
    eq_iff f.cursor.document_id m.document_id,
    eq_iff f.cursor.manifest_fingerprint m.fingerprint,
    demand_owner_iff m f.demand,
  ),
  λ h. ground (
    arith,
    eq_iff pin.document_id m.document_id,
    eq_iff pin.manifest_fingerprint m.fingerprint,
    eq_iff pin.resolved_projection_fingerprint m.resolved_projection_fingerprint,
    eq_iff f.job_id pin.job_id,
    eq_iff f.source_pin_fingerprint pin.fingerprint,
    eq_iff f.manifest_fingerprint pin.manifest_fingerprint,
    eq_iff f.cursor.document_id m.document_id,
    eq_iff f.cursor.manifest_fingerprint m.fingerprint,
    demand_owner_iff m f.demand,
  ),
)

module _ (pin : SourcePin) (m : Manifest) (f : JobFacts) where
  pub all_iff : (all_valid pin m f ≡ true) ↔ FactsFit pin m f
  unfolding all_valid
  all_iff = (
    λ h.
        let (o, a, b, c, e, g, i, j, k) = (and9_iff _ _ _ _ _ _ _ _ _).0 h in
        record {
          scalars = (scalars_iff f).0 a;
          parts = (parts_iff f).0 b;
          owners = (owners_iff pin m f).0 ((and2_iff _ _).1 (o, c));
          prefix = (prefix_iff f).0 e;
          state = (state_iff f.status f).0 g;
          blocked = (blocked_iff f.status f.blocker).0 i;
          limits = (limits_iff pin f).0 j;
          times = (times_iff f).0 k;
        },
    λ v.
        let (o, c) = (and2_iff _ _).0 ((owners_iff pin m f).1 v.owners) in
        (and9_iff _ _ _ _ _ _ _ _ _).1 (
          o,
          (scalars_iff f).1 v.scalars,
          (parts_iff f).1 v.parts,
          c,
          (prefix_iff f).1 v.prefix,
          (state_iff f.status f).1 v.state,
          (blocked_iff f.status f.blocker).1 v.blocked,
          (limits_iff pin f).1 v.limits,
          (times_iff f).1 v.times,
        ),
  )
