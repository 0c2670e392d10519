-- ===== src/Composition/Lifecycle/Refinement.antt =====
-- The lifecycle commands of composition/compositionSchedulerLifecycle.ts, on the in-memory repository,
-- commit the moves of their specification.

use text.Mathlib.TextEquality.{eq_iff}
use flowdoc_vnext_backend.Common.{
  ◌<◌, String, ◌≡◌, refl, ap, ◌∙◌, true, false, some, [], ◌==◌, text_eq, number_eq, arith,
}
use flowdoc_vnext_backend.Common.Dict.{set}
use flowdoc_vnext_backend.PdfExport.Issue.{Digest, fingerprint}
use flowdoc_vnext_backend.Composition.Core.{CompositionCore, ParsesSelf}
use flowdoc_vnext_backend.Composition.SourcePin.{PinFacts, max_safe}
use flowdoc_vnext_backend.Composition.JobHead.{JobFacts, JobHead, parse_head}
use flowdoc_vnext_backend.Composition.JobHead.Validity.{IsValid}
use flowdoc_vnext_backend.Composition.JobHead.Validity.Parser.{
  parse_head-AcceptsValid, finalize_head-Fits,
}
use flowdoc_vnext_backend.Composition.Transition.{ReceiptFacts}
use flowdoc_vnext_backend.Composition.Repository.{
  StoredValue, StoredHead, Repository, committed, read_head, is_terminal,
}
use flowdoc_vnext_backend.Composition.Repository.Swap.{
  head_advances, same_retention, swapped, request_answer, finalization_answer, request_commits,
  finalization_commits, plain_commits, swap_parsed, swap_current, swap_new, swap_held,
  compare_and_swap, run_all,
}
use flowdoc_vnext_backend.Composition.Repository.Soundness.{IsSound}
use flowdoc_vnext_backend.Composition.Lifecycle.{
  Expectation, updated, expectation_valid, exact, exact_of, Command, plan, swap_answer, swap_input,
  read_exact, commit_next, commit, execute_read, execute,
}
use flowdoc_vnext_backend.Composition.Lifecycle.Moves.{Moves, Moves-plan}
use flowdoc_vnext_backend.Composition.Lifecycle.Fits.{Moves-Fits}
use flowdoc_vnext_backend.Composition.Lifecycle.Follows.{
  Follows, Moves-Accepted, Moves-Follows, Moves-not_terminal,
}

-- The head that a job is stored with, as it was expected.
pub record IsExpected (s : Repository) (e : Expectation) (x : StoredHead) : Type 0 where
  pub well_formed : expectation_valid e ≡ true
  pub held : s.heads.get e.job_id ≡ some x
  pub revision : x.head.head_revision ≡ e.revision
  pub exact_text : x.head.fingerprint ≡ e.fingerprint

Follows-advances :
    (h k : JobHead)
    → Follows h.facts k.facts
    → is_terminal h.status ≡ false
    → head_advances h k ≡ true
unfolding head_advances
Follows-advances h k f live =
    let a = f.revision in
    let b = f.transition in
    let c = (eq_iff k.source_pin_fingerprint h.source_pin_fingerprint).1 f.source in
    let d = (eq_iff k.manifest_fingerprint h.manifest_fingerprint).1 f.manifest in ground arith

Follows-retention : (f g : JobFacts) → Follows f g → same_retention g.retention f.retention ≡ true
Follows-retention f g a =
    let b = ap (λ r. r.record_count) a.retention in
    let c = ap (λ r. r.byte_count) a.retention in ground arith

module _ (core : CompositionCore) (json : StoredValue → String) ⦃head_digest : Digest JobFacts⦄
    ⦃pin_digest : Digest PinFacts⦄ ⦃receipt_digest : Digest ReceiptFacts⦄ where
  read_exact-expected :
      (self : ParsesSelf core) (s : Repository) (e : Expectation) (x : StoredHead)
      → IsValid core x.pin x.manifest x.head
      → IsExpected s e x
      → read_exact core json s e ≡ exact x
  unfolding read_exact read_head exact_of
  read_exact-expected self s e x valid a =
      let parsed = (parse_head-AcceptsValid core x.pin x.manifest self x.head).1 valid in
      let revision : (x.head.head_revision == e.revision) ≡ true = ground (arith, a.revision) in
      let text = (eq_iff x.head.fingerprint e.fingerprint).1 a.exact_text in
      rw (a.well_formed, a.held, parsed, revision, text) refl

  -- A swap of no content for the next head of a job.
  swap-commits :
      (s : Repository) (x : StoredHead) (next : JobHead)
      → s.heads.get x.head.job_id ≡ some x
      → parse_head core x.pin x.manifest next ≡ some next
      → head_advances x.head next ≡ true
      → same_retention next.retention x.head.retention ≡ true
      → compare_and_swap core json s (swap_input x.head next)
        ≡ (swapped s (swap_input x.head next) x next, committed next)
  unfolding compare_and_swap swap_held swap_new swap_current swap_parsed request_answer
      finalization_answer request_commits finalization_commits plain_commits
  swap-commits s x next held parsed advances same =
      let number : (x.head.head_revision == x.head.head_revision) ≡ true = ground arith in
      let text = (eq_iff x.head.fingerprint x.head.fingerprint).1 refl in
      rw (held, number, text, parsed, advances, same) refl

  -- The commit of a move of a valid stored head, with no other call between.
  commit-Moves :
      ParsesSelf core
      → (s : Repository) (x : StoredHead) (c : Command) (g : JobFacts)
      → s.heads.get x.head.job_id ≡ some x
      → IsValid core x.pin x.manifest x.head
      → x.head.head_revision < max_safe
      → Moves x.head.facts g c
      → let h : JobHead = record { facts = g; fingerprint = fingerprint g } in
        commit core json s [] x (plan c x.head) ≡ (swapped s (swap_input x.head h) x h, updated h)
  unfolding commit commit_next swap_answer run_all
  commit-Moves self s x c g held valid room move =
      let fits = Moves-Fits x.pin x.manifest c x.head.facts g move room valid.facts in
      let accepted = Moves-Accepted core x.manifest c x.head.facts g move valid.accepted in
      let follows = Moves-Follows c x.head.facts g move in
      let h : JobHead = record { facts = g; fingerprint = fingerprint g } in
      let done =
        swap-commits s x h held
          ((parse_head-AcceptsValid core x.pin x.manifest self h).1
            (record { facts = fits; accepted = accepted; matches = refl }))
          (Follows-advances x.head h follows
            (Moves-not_terminal c x.head.facts g move valid.facts.state))
          (Follows-retention x.head.facts g follows) in
      rw
        (Moves-plan c x.head g move, finalize_head-Fits core x.pin x.manifest g accepted fits, done)
        refl

  -- A stored head is of the job under which it is stored.
  pub own_job :
      (s : Repository) (job : String) (x : StoredHead)
      → IsSound core json s
      → s.heads.get job ≡ some x
      → (x.head.job_id ≡ job) × IsValid core x.pin x.manifest x.head
  own_job s job x sound held =
      let fits = sound.heads job x held in (fits.head.facts.owners.job ∙ fits.own_job, fits.head)

  -- In a sound repository, a well-formed expectation of the revision and the fingerprint of the stored
  -- head, a move of its facts by the command, and a revision that is not the last: the command, with no
  -- other call between its read and its swap, answers "updated" with the head of the new facts, and
  -- the repository has changed in the head of that job only.
  pub execute-Moves :
      ParsesSelf core
      → (s : Repository) (c : Command) (e : Expectation) (x : StoredHead) (g : JobFacts)
      → IsSound core json s
      → IsExpected s e x
      → x.head.head_revision < max_safe
      → Moves x.head.facts g c
      → let h : JobHead = record { facts = g; fingerprint = fingerprint g } in
        execute core json s [] c e
        ≡ (record s { heads = set s.heads e.job_id (record x { head = h }) }, updated h)
  unfolding execute execute_read
  execute-Moves self s c e x g sound a room move =
      let h : JobHead = record { facts = g; fingerprint = fingerprint g } in
      let (own, valid) = own_job s e.job_id x sound a.held in
      let held = ap (λ z. s.heads.get z) own ∙ a.held in
      let read = read_exact-expected self s e x valid a in
      rw (read, commit-Moves self s x c g held valid room move)
        (ap (λ z. (record s { heads = set s.heads z (record x { head = h }) }, updated h)) own)
