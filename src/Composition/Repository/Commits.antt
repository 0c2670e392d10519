-- ===== src/Composition/Repository/Commits.antt =====
-- What a compare-and-swap that commits has met and does (composition/compositionSchedulerRepository.ts).
use mathlib.Core.Path.{subst}
use text.Mathlib.TextEquality.{eq_iff}
use flowdoc_vnext_backend.Common.{
  String, ◌≡◌, ◌≢◌, refl, ap, ◌∙◌, ◌⊎◌, inl, inr, true, false, ◌&&◌, Option, none, some, ◌==◌,
  text_eq, number_eq, arith, Bool-cases, Option-cases,
}
use flowdoc_vnext_backend.PdfExport.Issue.{Digest}
use flowdoc_vnext_backend.Composition.Core.{CompositionCore}
use flowdoc_vnext_backend.Composition.SourcePin.{PinFacts}
use flowdoc_vnext_backend.Composition.JobHead.{JobFacts, JobHead, is_some, parse_head}
use flowdoc_vnext_backend.Composition.JobHead.Validity.{Holds}
use flowdoc_vnext_backend.Composition.Transition.{ReceiptFacts}
use flowdoc_vnext_backend.Composition.Repository.{
  StoredValue, StoredHead, Repository, pair_key, CasResult, committed, CommittedRequest,
  CommittedFinalization, CasInput,
}
use flowdoc_vnext_backend.Composition.Repository.Swap.{
  head_advances, request_answer, finalization_answer, replay_answer, swapped, request_commits,
  finalization_commits, plain_commits, swap_parsed, swap_current, swap_new, swap_held,
  compare_and_swap,
}
use flowdoc_vnext_backend.Composition.Repository.Changes.{Advances, head_advances-Advances}

request_answer-none :
    (s : Repository) (job : String) (o : Option CommittedRequest)
    → request_answer s job o ≡ none
    → Holds (λ (q : CommittedRequest). s.requests.get (pair_key job q.request_id) ≡ none) o
unfolding request_answer
request_answer-none s job none e = tt
request_answer-none s job (some q) e =
    elim (Option-cases (s.requests.get (pair_key job q.request_id))) [
      | inl t ↦ t
      | inr (x, t) ↦ cc (rw (t, request_answer) at e)
    ]

finalization_answer-none :
    (s : Repository) (job : String) (o : Option CommittedFinalization)
    → finalization_answer s job o ≡ none
    → Holds
        (λ (q : CommittedFinalization). s.finalizations.get (pair_key job q.request_id) ≡ none)
        o
unfolding finalization_answer
finalization_answer-none s job none e = tt
finalization_answer-none s job (some q) e =
    elim (Option-cases (s.finalizations.get (pair_key job q.request_id))) [
      | inl t ↦ t
      | inr (x, t) ↦ cc (rw (t, finalization_answer) at e)
    ]

-- An answer from what was committed before is no commit.
replay-not_committed :
    (given kept : String) (h k : JobHead) → replay_answer given kept h ≢ committed k
replay-not_committed given kept h k e = elim (Bool-cases (kept == given)) [
  | inl t ↦ cc (rw t at e)
  | inr t ↦ cc (rw t at e)
]

request_answer-not_committed :
    (s : Repository) (job : String) (o : Option CommittedRequest) (h : JobHead)
    → request_answer s job o ≢ some (committed h)
unfolding request_answer
request_answer-not_committed s job none h e = cc e
request_answer-not_committed s job (some q) h e =
    elim (Option-cases (s.requests.get (pair_key job q.request_id))) [
      | inl t ↦ cc (rw (t, request_answer) at e)
      | inr (x, t) ↦
          let f : some (replay_answer q.request_fingerprint x.request_fingerprint x.head)
              ≡ some (committed h) =
            rw (t, request_answer) at e in
          replay-not_committed q.request_fingerprint x.request_fingerprint x.head h (cc f)
    ]

finalization_answer-not_committed :
    (s : Repository) (job : String) (o : Option CommittedFinalization) (h : JobHead)
    → finalization_answer s job o ≢ some (committed h)
unfolding finalization_answer
finalization_answer-not_committed s job none h e = cc e
finalization_answer-not_committed s job (some q) h e =
    elim (Option-cases (s.finalizations.get (pair_key job q.request_id))) [
      | inl t ↦ cc (rw (t, finalization_answer) at e)
      | inr (x, t) ↦
          let f : some (replay_answer q.request_fingerprint x.request_fingerprint x.head)
              ≡ some (committed h) =
            rw (t, finalization_answer) at e in
          replay-not_committed q.request_fingerprint x.request_fingerprint x.head h (cc f)
    ]

module _ (core : CompositionCore) (json : StoredValue → String) ⦃head_digest : Digest JobFacts⦄
    ⦃pin_digest : Digest PinFacts⦄ ⦃receipt_digest : Digest ReceiptFacts⦄ where
  -- Everything that a commit has met.
  pub record Commits (s : Repository) (r : CasInput) (x : StoredHead) (h : JobHead) : Type 0 where
    pub one_kind : (is_some r.request && is_some r.finalization) ≡ false
    pub fresh_request :
        Holds
          (λ (q : CommittedRequest). s.requests.get (pair_key r.job_id q.request_id) ≡ none)
          r.request
    pub fresh_finalization :
        Holds
          (λ (q : CommittedFinalization).
            s.finalizations.get (pair_key r.job_id q.request_id) ≡ none)
          r.finalization
    pub revision : x.head.head_revision ≡ r.expected_revision
    pub exact : x.head.fingerprint ≡ r.expected_fingerprint
    pub next : parse_head core x.pin x.manifest r.next ≡ some h
    pub advances : Advances x.head h
    pub request : request_commits core json s x r h r.request ≡ true
    pub finalization : finalization_commits core json s x r h r.finalization ≡ true
    pub plain : plain_commits core json x r h ≡ true

  swap_parsed-cases :
      (s : Repository) (r : CasInput) (x : StoredHead) (o : Option JobHead)
      → (((swap_parsed core json s r x o).0 ≡ s)
          × ((h : JobHead) → (swap_parsed core json s r x o).1 ≢ committed h))
        ⊎ ((h : JobHead) × (o ≡ some h)
            × (swap_parsed core json s r x o ≡ (swapped s r x h, committed h))
            × (head_advances x.head h ≡ true)
            × (request_commits core json s x r h r.request ≡ true)
            × (finalization_commits core json s x r h r.finalization ≡ true)
            × (plain_commits core json x r h ≡ true))
  unfolding swap_parsed
  swap_parsed-cases s r x none = inl (refl, λ h e. cc e)
  swap_parsed-cases s r x (some h) = elim (Bool-cases (head_advances x.head h)) [
    | inr t ↦ inl (rw (t, swap_parsed) refl, λ k e. cc (rw (t, swap_parsed) at e))
    | inl t ↦ elim (Bool-cases (request_commits core json s x r h r.request)) [
      | inr u ↦ inl (rw (t, u, swap_parsed) refl, λ k e. cc (rw (t, u, swap_parsed) at e))
      | inl u ↦ elim (Bool-cases (finalization_commits core json s x r h r.finalization)) [
        | inr v ↦ inl (rw (t, u, v, swap_parsed) refl, λ k e. cc (rw (t, u, v, swap_parsed) at e))
        | inl v ↦ elim (Bool-cases (plain_commits core json x r h)) [
          | inr w ↦
              inl (rw (t, u, v, w, swap_parsed) refl, λ k e. cc (rw (t, u, v, w, swap_parsed) at e))
          | inl w ↦ inr (h, refl, rw (t, u, v, w, swap_parsed) refl, t, u, v, w)
        ]
      ]
    ]
  ]

  swap_current-cases :
      (s : Repository) (r : CasInput) (x : StoredHead)
      → (is_some r.request && is_some r.finalization) ≡ false
      → request_answer s r.job_id r.request ≡ none
      → finalization_answer s r.job_id r.finalization ≡ none
      → (((swap_current core json s r x).0 ≡ s)
          × ((h : JobHead) → (swap_current core json s r x).1 ≢ committed h))
        ⊎ ((h : JobHead) × (swap_current core json s r x ≡ (swapped s r x h, committed h))
            × Commits s r x h)
  unfolding swap_current
  swap_current-cases s r x one a b =
      elim (Bool-cases (x.head.head_revision == r.expected_revision)) [
        | inr t ↦ inl (rw (t, swap_current) refl, λ h e. cc (rw (t, swap_current) at e))
        | inl t ↦ elim (Bool-cases (x.head.fingerprint == r.expected_fingerprint)) [
          | inr u ↦ inl (rw (t, u, swap_current) refl, λ h e. cc (rw (t, u, swap_current) at e))
          | inl u ↦ elim (swap_parsed-cases s r x (parse_head core x.pin x.manifest r.next)) [
            | inl (e, f) ↦
                inl (rw (t, u, swap_current) e, λ h g. f h (rw (t, u, swap_current) at g))
            | inr (h, at, e, advances, request, finalization, plain) ↦ inr (
              h,
              rw (t, u, swap_current) e,
              record {
                one_kind = one;
                fresh_request = request_answer-none s r.job_id r.request a;
                fresh_finalization = finalization_answer-none s r.job_id r.finalization b;
                revision = ground arith;
                exact = (eq_iff x.head.fingerprint r.expected_fingerprint).0 u;
                next = at;
                advances = head_advances-Advances x.head h advances;
                request = request;
                finalization = finalization;
                plain = plain;
              },
            )
          ]
        ]
      ]

  swap_new-cases :
      (s : Repository) (r : CasInput) (x : StoredHead) (a b : Option CasResult)
      → (is_some r.request && is_some r.finalization) ≡ false
      → request_answer s r.job_id r.request ≡ a
      → finalization_answer s r.job_id r.finalization ≡ b
      → (((swap_new core json s r x a b).0 ≡ s)
          × ((h : JobHead) → (swap_new core json s r x a b).1 ≢ committed h))
        ⊎ ((h : JobHead) × (swap_new core json s r x a b ≡ (swapped s r x h, committed h))
            × Commits s r x h)
  unfolding swap_new
  swap_new-cases s r x (some y) none one ea eb = inl (
    refl,
    λ h e.
        request_answer-not_committed s r.job_id r.request h (ea ∙ ap (λ (z : CasResult). some z) e),
  )
  swap_new-cases s r x (some y) (some z) one ea eb = inl (
    refl,
    λ h e.
        request_answer-not_committed s r.job_id r.request h (ea ∙ ap (λ (z : CasResult). some z) e),
  )
  swap_new-cases s r x none (some y) one ea eb = inl (
    refl,
    λ h e.
        finalization_answer-not_committed s r.job_id r.finalization h
          (eb ∙ ap (λ (z : CasResult). some z) e),
  )
  swap_new-cases s r x none none one ea eb = swap_current-cases s r x one ea eb

  swap_held-cases :
      (s : Repository) (r : CasInput) (o : Option StoredHead)
      → (((swap_held core json s r o).0 ≡ s)
          × ((h : JobHead) → (swap_held core json s r o).1 ≢ committed h))
        ⊎ ((x : StoredHead) × (h : JobHead) × (o ≡ some x)
            × (swap_held core json s r o ≡ (swapped s r x h, committed h))
            × Commits s r x h)
  unfolding swap_held
  swap_held-cases s r none = inl (refl, λ h e. cc e)
  swap_held-cases s r (some x) = elim (Bool-cases (is_some r.request && is_some r.finalization)) [
    | inl t ↦ inl (rw (t, swap_held) refl, λ h e. cc (rw (t, swap_held) at e))
    | inr t ↦
        elim (swap_new-cases s r x (request_answer s r.job_id r.request)
          (finalization_answer s r.job_id r.finalization) t refl refl) [
            | inl (e, f) ↦ inl (rw (t, swap_held) e, λ h g. f h (rw (t, swap_held) at g))
            | inr (h, e, c) ↦ inr (x, h, refl, rw (t, swap_held) e, c)
          ]
  ]

  -- A compare-and-swap changes nothing and does not commit, or commits the next head of a stored one.
  pub compare_and_swap-cases :
      (s : Repository) (r : CasInput)
      → (((compare_and_swap core json s r).0 ≡ s)
          × ((h : JobHead) → (compare_and_swap core json s r).1 ≢ committed h))
        ⊎ ((x : StoredHead) × (h : JobHead) × (s.heads.get r.job_id ≡ some x)
            × (compare_and_swap core json s r ≡ (swapped s r x h, committed h))
            × Commits s r x h)
  unfolding compare_and_swap
  compare_and_swap-cases s r = swap_held-cases s r (s.heads.get r.job_id)

  -- One that has answered "committed".
  pub committed-Commits :
      (s : Repository) (r : CasInput) (h : JobHead)
      → (compare_and_swap core json s r).1 ≡ committed h
      → (x : StoredHead) × (s.heads.get r.job_id ≡ some x)
        × ((compare_and_swap core json s r).0 ≡ swapped s r x h)
        × Commits s r x h
  committed-Commits s r h e = elim (compare_and_swap-cases s r) [
    | inl (same, none_h) ↦ absurd (none_h h e)
    | inr (x, k, at, made, c) ↦
        let one : k ≡ h = cc (made, e) in
        (
          x,
          at,
          ap (λ (p : Repository × CasResult). p.0) made ∙ ap (swapped s r x) one,
          subst (Commits s r x) one c,
        )
  ]
