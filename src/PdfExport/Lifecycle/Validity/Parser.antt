-- ===== src/PdfExport/Lifecycle/Validity/Parser.antt =====
-- The parser of a lifecycle head accepts exactly the valid heads.
use text.Mathlib.TextEquality.{eq_iff}
use mathlib.Core.Path.{subst}
use flowdoc_vnext_backend.Common.{
  ◌≤◌, ◌<◌, ◌≡◌, refl, sym, ap, ◌↔◌, Bool, true, false, Option, none, some, [], arith, Option-cases,
  inl, inr,
}
use flowdoc_vnext_backend.Common.Text.{is_fingerprint}
use flowdoc_vnext_backend.PdfExport.Issue.{reports, AllPass, reports-nil, Digest, fingerprint}
use flowdoc_vnext_backend.PdfExport.Lifecycle.Head.{
  Claim, Cancellation, Release, CheckpointCheck, Stop, LifecycleContracts, HeadFacts, Head,
  head_source, exact_contracts,
}
use flowdoc_vnext_backend.PdfExport.Lifecycle.Parse.{
  ready, Parts, parts, any, parse_part, broken, claim_parses, cancellation_parses, release_parses,
  check_parses, stop_parses, identity_valid, counters_valid, contracts_exact, state_invalid,
  claim_unbound, cancellation_unbound, release_unbound, check_unbound, stop_unbound, head_rows,
  parse_head,
}
use flowdoc_vnext_backend.PdfExport.Lifecycle.Validity.{
  Holds, ClaimFits, CancellationFits, ReleaseFits, CheckFits, StopFits, StateFits, IdentityFits,
  IsValid,
}

identity_iff : (f : HeadFacts) → (identity_valid f ≡ true) ↔ IdentityFits f
unfolding identity_valid
identity_iff f = (
  λ h. ground (arith, eq_iff f.source head_source, eq_iff f.kind "pdf-export-lifecycle-head"),
  λ h. ground (arith, eq_iff f.source head_source, eq_iff f.kind "pdf-export-lifecycle-head"),
)

contracts_iff : (c : LifecycleContracts) → (contracts_exact c ≡ true) ↔ (c ≡ exact_contracts)
unfolding contracts_exact
contracts_iff c = (λ h. ground arith, λ h. ground arith)

counters_iff :
    (f : HeadFacts)
    → (counters_valid f ≡ true) ↔ (
        (0 < f.max_attempts)
        × (f.attempt_count ≤ f.max_attempts)
        × (f.created_at ≤ f.updated_at)
        × (f.created_at < f.deadline_at))
unfolding counters_valid
counters_iff f = (λ h. ground arith, λ h. ground arith)

-- A part parses and is bound to the head exactly when it fits.
module _ (f : HeadFacts) where
  claim_iff :
      (o : Option Claim)
      → ((broken o (parse_part claim_parses o) ≡ false)
          × (any (claim_unbound f) (parse_part claim_parses o) ≡ false))
        ↔ Holds (ClaimFits f) o
  unfolding claim_parses claim_unbound
  claim_iff none = (λ h. tt, λ h. (refl, refl))
  claim_iff (some c) = (λ h. ground arith, λ h. ground arith)

  cancellation_iff :
      (o : Option Cancellation)
      → ((broken o (parse_part cancellation_parses o) ≡ false)
          × (any (cancellation_unbound f) (parse_part cancellation_parses o) ≡ false))
        ↔ Holds (CancellationFits f) o
  unfolding cancellation_parses cancellation_unbound
  cancellation_iff none = (λ h. tt, λ h. (refl, refl))
  cancellation_iff (some c) = (λ h. ground arith, λ h. ground arith)

  release_iff :
      (o : Option Release)
      → ((broken o (parse_part release_parses o) ≡ false)
          × (any (release_unbound f) (parse_part release_parses o) ≡ false))
        ↔ Holds (ReleaseFits f) o
  unfolding release_parses release_unbound
  release_iff none = (λ h. tt, λ h. (refl, refl))
  release_iff (some r) = (λ h. ground arith, λ h. ground arith)

  check_iff :
      (o : Option CheckpointCheck)
      → ((broken o (parse_part check_parses o) ≡ false)
          × (any (check_unbound f f.claim) (parse_part check_parses o) ≡ false))
        ↔ Holds (CheckFits f) o
  unfolding check_parses check_unbound
  check_iff none = (λ h. tt, λ h. (refl, refl))
  check_iff (some k) = elim (Option-cases f.claim) [
    | inl e ↦ (λ h. ground arith, λ h. ground arith)
    | inr (c, e) ↦ (
      λ h. ground (arith, eq_iff k.claim_token c.claim_token),
      λ h. ground (arith, eq_iff k.claim_token c.claim_token),
    )
  ]

  stop_iff :
      (o : Option Stop)
      → ((broken o (parse_part stop_parses o) ≡ false)
          × (any (stop_unbound f f.cancellation) (parse_part stop_parses o) ≡ false))
        ↔ Holds (StopFits f) o
  unfolding stop_parses stop_unbound
  stop_iff none = (λ h. tt, λ h. (refl, refl))
  stop_iff (some s) = (λ h. ground arith, λ h. ground arith)

abbrev whole : HeadFacts → Parts
whole f = record {
  claim = f.claim;
  cancellation = f.cancellation;
  last_release = f.last_release;
  checkpoint_check = f.checkpoint_check;
  stop = f.stop;
}

state_iff : (f : HeadFacts) → (state_invalid f.status f (whole f) ≡ false) ↔ StateFits f.status f
unfolding state_invalid
state_iff f = (λ h. ground arith, λ h. ground arith)

-- A part that is not broken has parsed to itself.
parse_part_self {ℓ} :
    {A : Type ℓ} (ok : A → Bool) (o : Option A)
    → broken o (parse_part ok o) ≡ false
    → parse_part ok o ≡ o
parse_part_self ok none h = refl
parse_part_self ok (some a) h = ground arith

-- The tests, once each part has parsed to itself.
record TestsPass ⦃d : Digest HeadFacts⦄ (h : Head) : Type 0 where
  identity : identity_valid h.facts ≡ true
  counters : counters_valid h.facts ≡ true
  form : is_fingerprint h.lifecycle_fingerprint ≡ true
  contracts : contracts_exact h.contracts ≡ true
  claim : broken h.claim (parts h.facts).claim ≡ false
  cancellation : broken h.cancellation (parts h.facts).cancellation ≡ false
  last_release : broken h.last_release (parts h.facts).last_release ≡ false
  checkpoint_check : broken h.checkpoint_check (parts h.facts).checkpoint_check ≡ false
  stop : broken h.stop (parts h.facts).stop ≡ false
  state : state_invalid h.status h.facts (parts h.facts) ≡ false
  claim_bound : any (claim_unbound h.facts) (parts h.facts).claim ≡ false
  cancellation_bound : any (cancellation_unbound h.facts) (parts h.facts).cancellation ≡ false
  release_bound : any (release_unbound h.facts) (parts h.facts).last_release ≡ false
  check_bound :
      any (check_unbound h.facts (parts h.facts).claim) (parts h.facts).checkpoint_check ≡ false
  stop_bound : any (stop_unbound h.facts (parts h.facts).cancellation) (parts h.facts).stop ≡ false
  matches : fingerprint h.facts ≡ h.lifecycle_fingerprint

module _ ⦃d : Digest HeadFacts⦄ (h : Head) where
  rows_iff : AllPass (head_rows h) ↔ TestsPass h
  unfolding head_rows
  rows_iff = (
    λ t. ground (arith, eq_iff (fingerprint h.facts) h.lifecycle_fingerprint),
    λ t. ground (arith, eq_iff (fingerprint h.facts) h.lifecycle_fingerprint),
  )

  parts-whole :
      broken h.claim (parts h.facts).claim ≡ false
      → broken h.cancellation (parts h.facts).cancellation ≡ false
      → broken h.last_release (parts h.facts).last_release ≡ false
      → broken h.checkpoint_check (parts h.facts).checkpoint_check ≡ false
      → broken h.stop (parts h.facts).stop ≡ false
      → parts h.facts ≡ whole h.facts
  unfolding parts
  parts-whole a b c d e = λ i. record {
    claim = parse_part_self claim_parses h.claim a i;
    cancellation = parse_part_self cancellation_parses h.cancellation b i;
    last_release = parse_part_self release_parses h.last_release c i;
    checkpoint_check = parse_part_self check_parses h.checkpoint_check d i;
    stop = parse_part_self stop_parses h.stop e i;
  }

  tests-IsValid : TestsPass h → IsValid h
  unfolding parts
  tests-IsValid t =
      let e = parts-whole t.claim t.cancellation t.last_release t.checkpoint_check t.stop in
      record {
        facts = record {
          identity = (identity_iff h.facts).0 t.identity;
          contracts = (contracts_iff h.contracts).0 t.contracts;
          some_attempt = ((counters_iff h.facts).0 t.counters).0;
          attempts = ((counters_iff h.facts).0 t.counters).1;
          time = ((counters_iff h.facts).0 t.counters).2;
          deadline = ((counters_iff h.facts).0 t.counters).3;
          state =
              (state_iff h.facts).0
                (subst (λ p. state_invalid h.status h.facts p ≡ false) e t.state);
          claim = (claim_iff h.facts h.claim).0 (t.claim, t.claim_bound);
          cancellation =
              (cancellation_iff h.facts h.cancellation).0 (t.cancellation, t.cancellation_bound);
          last_release = (release_iff h.facts h.last_release).0 (t.last_release, t.release_bound);
          checkpoint_check = (check_iff h.facts h.checkpoint_check).0 (
            t.checkpoint_check,
            subst (λ c. any (check_unbound h.facts c) (parts h.facts).checkpoint_check ≡ false)
                (ap (λ (p : Parts). p.claim) e) t.check_bound,
          );
          stop = (stop_iff h.facts h.stop).0 (
            t.stop,
            subst (λ c. any (stop_unbound h.facts c) (parts h.facts).stop ≡ false)
                (ap (λ (p : Parts). p.cancellation) e) t.stop_bound,
          );
        };
        fingerprint_form = t.form;
        fingerprint_matches = t.matches;
      }

  IsValid-tests : IsValid h → TestsPass h
  unfolding parts
  IsValid-tests v =
      let claim = (claim_iff h.facts h.claim).1 v.facts.claim in
      let cancellation = (cancellation_iff h.facts h.cancellation).1 v.facts.cancellation in
      let release = (release_iff h.facts h.last_release).1 v.facts.last_release in
      let check = (check_iff h.facts h.checkpoint_check).1 v.facts.checkpoint_check in
      let stop = (stop_iff h.facts h.stop).1 v.facts.stop in
      let e = parts-whole claim.0 cancellation.0 release.0 check.0 stop.0 in
      record {
        identity = (identity_iff h.facts).1 v.facts.identity;
        counters =
            (counters_iff h.facts).1
              (v.facts.some_attempt, v.facts.attempts, v.facts.time, v.facts.deadline);
        form = v.fingerprint_form;
        contracts = (contracts_iff h.contracts).1 v.facts.contracts;
        claim = claim.0;
        cancellation = cancellation.0;
        last_release = release.0;
        checkpoint_check = check.0;
        stop = stop.0;
        state =
            subst (λ p. state_invalid h.status h.facts p ≡ false) (sym e)
              ((state_iff h.facts).1 v.facts.state);
        claim_bound = claim.1;
        cancellation_bound = cancellation.1;
        release_bound = release.1;
        check_bound =
            subst (λ c. any (check_unbound h.facts c) (parts h.facts).checkpoint_check ≡ false)
              (ap (λ (p : Parts). p.claim) (sym e)) check.1;
        stop_bound =
            subst (λ c. any (stop_unbound h.facts c) (parts h.facts).stop ≡ false)
              (ap (λ (p : Parts). p.cancellation) (sym e)) stop.1;
        matches = v.fingerprint_matches;
      }

  ready_iff : (parse_head h ≡ ready h) ↔ (reports (head_rows h) ≡ [])
  unfolding parse_head
  ready_iff = (λ e. ground arith, λ e. rw (e, parse_head))

  -- A head is parsed, to itself, exactly when it is valid.
  pub parse_head-IsValid : (parse_head h ≡ ready h) ↔ IsValid h
  parse_head-IsValid = (
    λ e. tests-IsValid (rows_iff.0 ((reports-nil (head_rows h)).0 (ready_iff.0 e))),
    λ v. ready_iff.1 ((reports-nil (head_rows h)).1 (rows_iff.1 (IsValid-tests v))),
  )

  -- What the parser gives out is what it was given.
  pub parse_head_self : (g : Head) → parse_head h ≡ ready g → g ≡ h
  unfolding parse_head
  parse_head_self g e = ground arith
