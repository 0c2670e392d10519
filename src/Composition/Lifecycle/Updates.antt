-- ===== src/Composition/Lifecycle/Updates.antt =====
-- What a lifecycle command of composition/compositionSchedulerLifecycle.ts has done when it answers
-- "updated", with other calls between its read and its swap.
use mathlib.Core.Path.{subst}
use text.Mathlib.TextEquality.{eq_iff}
use flowdoc_vnext_backend.Common.{
  String, ◌≡◌, ◌≢◌, refl, sym, ap, ◌∙◌, inl, inr, some, List, ◌==◌, text_eq, number_eq, arith,
  Bool-cases, Option-cases,
}
use flowdoc_vnext_backend.Common.Dict.{get-set_self}
use flowdoc_vnext_backend.PdfExport.Issue.{Digest}
use flowdoc_vnext_backend.Composition.Core.{CompositionCore, ParsesSelf}
use flowdoc_vnext_backend.Composition.SourcePin.{PinFacts}
use flowdoc_vnext_backend.Composition.JobHead.{JobFacts, JobHead, parse_head, finalize_head}
use flowdoc_vnext_backend.Composition.JobHead.Validity.{IsValid}
use flowdoc_vnext_backend.Composition.JobHead.Validity.Parser.{
  parse_head-inverse, finalize_head-inverse,
}
use flowdoc_vnext_backend.Composition.Transition.{ReceiptFacts}
use flowdoc_vnext_backend.Composition.Repository.{
  StoredValue, StoredHead, Repository, Read, found, missing, unreadable, CasResult, committed,
  reread, read_stored, read_head,
}
use flowdoc_vnext_backend.Composition.Repository.Swap.{compare_and_swap, Call, run_all}
use flowdoc_vnext_backend.Composition.Repository.Commits.{committed-Commits}
use flowdoc_vnext_backend.Composition.Repository.Keeping.{IsLater, run_all-KeepsAll}
use flowdoc_vnext_backend.Composition.Repository.Soundness.{IsSound}
use flowdoc_vnext_backend.Composition.Lifecycle.{
  Expectation, LifecycleResult, updated, recover_leased, recover_plan, schedule_plan, cancel_plan,
  expire_plan, expectation_valid, ExactRead, exact, not_exact, not_read, exact_of, Command, Plan,
  answer, write, plan, swap_answer, swap_input, read_exact, commit_next, commit, execute_read,
  execute,
}
use flowdoc_vnext_backend.Composition.Lifecycle.Moves.{Moves, plan-Moves}
use flowdoc_vnext_backend.Composition.Lifecycle.Refinement.{IsExpected, own_job}

exact_of-exact :
    (e : Expectation) (r : Read StoredHead) (x : StoredHead)
    → exact_of e r ≡ exact x
    → (r ≡ found x) × (x.head.head_revision ≡ e.revision) × (x.head.fingerprint ≡ e.fingerprint)
unfolding exact_of
exact_of-exact e missing x at = cc at
exact_of-exact e unreadable x at = cc at
exact_of-exact e (found y) x at = elim (Bool-cases (y.head.head_revision == e.revision)) [
  | inr t ↦ cc (rw (t, exact_of) at at)
  | inl t ↦ elim (Bool-cases (y.head.fingerprint == e.fingerprint)) [
    | inr u ↦ cc (rw (t, u, exact_of) at at)
    | inl u ↦
        let same : y ≡ x = cc (rw (t, u, exact_of) at at) in
        (
          ap (λ (z : StoredHead). found z) same,
          subst (λ (z : StoredHead). z.head.head_revision ≡ e.revision) same (ground arith),
          subst (λ (z : StoredHead). z.head.fingerprint ≡ e.fingerprint) same
              ((eq_iff y.head.fingerprint e.fingerprint).0 u),
        )
  ]
]

swap_answer-updated :
    (h : JobHead) (a : CasResult) (k : JobHead) → swap_answer h a ≡ updated k → a ≡ committed k
unfolding swap_answer
swap_answer-updated h a k e = ground arith

-- A later head at the same revision is the same.
later-same : (x y : StoredHead) → IsLater x y → y.head.head_revision ≡ x.head.head_revision → y ≡ x
later-same x y later same = elim later.moved [
  | inr further ↦ absurd (omega (arith, further, same))
  | inl e ↦ λ i. record {
    pin = later.pin i;
    manifest = later.manifest i;
    head = e i;
    create_request_id = later.create_id i;
    create_request_fingerprint = later.create_fingerprint i;
  }
]

-- Only a commit updates.
plan-not_updated : (c : Command) (h k : JobHead) → plan c h ≢ answer (updated k)
unfolding plan recover_plan recover_leased schedule_plan cancel_plan expire_plan
plan-not_updated c h k e = ground arith

module _ (core : CompositionCore) (json : StoredValue → String) ⦃head_digest : Digest JobFacts⦄
    ⦃pin_digest : Digest PinFacts⦄ ⦃receipt_digest : Digest ReceiptFacts⦄ where
  pub read_head-found :
      (self : ParsesSelf core) (s : Repository) (job : String) (x : StoredHead)
      → read_head core json s job ≡ found x
      → s.heads.get job ≡ some x
  unfolding read_head read_stored reread
  read_head-found self s job x e = elim (Option-cases (s.heads.get job)) [
    | inl t ↦ cc (rw (t, read_head) at e)
    | inr (y, t) ↦ elim (Option-cases (parse_head core y.pin y.manifest y.head)) [
      | inl u ↦ cc (rw (t, u, read_head) at e)
      | inr (k, u) ↦
          let same = (parse_head-inverse core y.pin y.manifest self y.head k u).0 in
          let made : record y { head = k } ≡ x = cc (rw (t, u, read_head) at e) in
          t
          ∙ ap (λ (z : JobHead). some (record y { head = z })) (sym same)
          ∙ ap (λ (z : StoredHead). some z) made
    ]
  ]

  -- What a read has found exact is stored, and as expected.
  read_exact-inverse :
      (self : ParsesSelf core) (s : Repository) (e : Expectation) (x : StoredHead)
      → read_exact core json s e ≡ exact x
      → IsExpected s e x
  unfolding read_exact
  read_exact-inverse self s e x at = elim (Bool-cases (expectation_valid e)) [
    | inr t ↦ cc (rw (t, read_exact) at at)
    | inl t ↦
        let (read, revision, text) =
          exact_of-exact e (read_head core json s e.job_id) x (rw (t, read_exact) at at) in
        record {
          well_formed = t;
          held = read_head-found self s e.job_id x read;
          revision = revision;
          exact_text = text;
        }
  ]

  -- What an update has done: the head that was read was still the stored one, and has been swapped.
  pub record Updates (s u : Repository) (c : Command) (x : StoredHead) (h : JobHead)
      (done : Repository) : Type 0 where
    pub move : Moves x.head.facts h.facts c
    pub valid : IsValid core x.pin x.manifest h
    pub still : u.heads.get x.head.job_id ≡ some x
    pub stored : done.heads.get x.head.job_id ≡ some (record x { head = h })

  -- A swap that has committed for a head that was stored before.
  swapped-Updates :
      (self : ParsesSelf core) (s : Repository) (between : List Call) (c : Command) (x : StoredHead)
      (f : JobFacts) (next k : JobHead)
      → s.heads.get x.head.job_id ≡ some x
      → Moves x.head.facts f c
      → finalize_head core x.pin x.manifest f ≡ some next
      → (compare_and_swap core json (run_all core json s between) (swap_input x.head next)).1
        ≡ committed k
      → Updates s
          (run_all core json s between)
          c
          x
          k
          (compare_and_swap core json (run_all core json s between) (swap_input x.head next)).0
  swapped-Updates self s between c x f next k held move made done =
      let u = run_all core json s between in
      let r = swap_input x.head next in
      let (y, at, result, commits) = committed-Commits core json u r k done in
      let (z, at_z, later) = (run_all-KeepsAll core json between s).heads x.head.job_id x held in
      let one : z ≡ y = cc (at_z, at) in
      let same = later-same x y (subst (IsLater x) one later) commits.revision in
      let parsed : parse_head core x.pin x.manifest next ≡ some k =
        subst (λ (w : StoredHead). parse_head core w.pin w.manifest next ≡ some k) same
          commits.next in
      let (itself, valid) = parse_head-inverse core x.pin x.manifest self next k parsed in
      let facts = (finalize_head-inverse core x.pin x.manifest self f next made).0 in
      record {
        move =
            subst (λ (g : JobFacts). Moves x.head.facts g c)
              (sym facts ∙ ap (λ (w : JobHead). w.facts) (sym itself)) move;
        valid = valid;
        still = at ∙ ap (λ (w : StoredHead). some w) same;
        stored =
            ap (λ (w : Repository). w.heads.get x.head.job_id) result
            ∙ get-set_self u.heads x.head.job_id _
            ∙ ap (λ (w : StoredHead). some (record w { head = k })) same;
      }

  commit_next-Updates :
      (self : ParsesSelf core) (s : Repository) (between : List Call) (c : Command) (x : StoredHead)
      (f : JobFacts) (k : JobHead)
      → s.heads.get x.head.job_id ≡ some x
      → Moves x.head.facts f c
      → (commit_next core json s between x.head (finalize_head core x.pin x.manifest f)).1
        ≡ updated k
      → Updates s
          (run_all core json s between)
          c
          x
          k
          (commit_next core json s between x.head (finalize_head core x.pin x.manifest f)).0
  unfolding commit_next
  commit_next-Updates self s between c x f k held move done =
      elim (Option-cases (finalize_head core x.pin x.manifest f)) [
        | inl t ↦ cc (rw (t, commit_next) at done)
        | inr (next, t) ↦
            rw (t, commit_next)
              (swapped-Updates self s between c x f next k held move t
                (swap_answer-updated x.head _ k (rw (t, commit_next) at done)))
      ]

  commit-Updates :
      (self : ParsesSelf core) (s : Repository) (between : List Call) (c : Command) (x : StoredHead)
      (p : Plan) (k : JobHead)
      → plan c x.head ≡ p
      → s.heads.get x.head.job_id ≡ some x
      → (commit core json s between x p).1 ≡ updated k
      → Updates s (run_all core json s between) c x k (commit core json s between x p).0
  unfolding commit
  commit-Updates self s between c x (answer a) k planned held done =
      absurd (plan-not_updated c x.head k (planned ∙ ap (λ (z : LifecycleResult). answer z) done))
  commit-Updates self s between c x (write f) k planned held done =
      commit_next-Updates self s between c x f k held (plan-Moves c x.head f planned) done

  execute_read-Updates :
      (self : ParsesSelf core) (s : Repository) (between : List Call) (c : Command)
      (e : Expectation) (o : ExactRead) (k : JobHead)
      → IsSound core json s
      → read_exact core json s e ≡ o
      → (execute_read core json s between c o).1 ≡ updated k
      → (x : StoredHead) × IsExpected s e x
        × Updates s (run_all core json s between) c x k (execute_read core json s between c o).0
  unfolding execute_read
  execute_read-Updates self s between c e not_read k sound read done = cc done
  execute_read-Updates self s between c e (not_exact h) k sound read done = cc done
  execute_read-Updates self s between c e (exact x) k sound read done =
      let a = read_exact-inverse self s e x read in
      let (own, valid) = own_job core json s e.job_id x sound a.held in
      (
        x,
        a,
        commit-Updates self s between c x (plan c x.head) k refl
            (ap (λ z. s.heads.get z) own ∙ a.held) done,
      )

  -- Whatever calls come between the read and the swap of a command on a sound repository: if it answers
  -- "updated", then the expectation was well-formed and gave the revision and the fingerprint of the
  -- head that was stored when it was read, no call between has changed that head, the new head is valid
  -- in the context of the job, it is a move of the command, and it is stored in place of the old one.
  pub updated-Moves :
      ParsesSelf core
      → (s : Repository) (between : List Call) (c : Command) (e : Expectation) (h : JobHead)
      → IsSound core json s
      → (execute core json s between c e).1 ≡ updated h
      → (x : StoredHead) × IsExpected s e x
        × Updates s (run_all core json s between) c x h (execute core json s between c e).0
  unfolding execute
  updated-Moves self s between c e h sound done =
      execute_read-Updates self s between c e (read_exact core json s e) h sound refl done
