-- ===== src/Composition/Repository/Replays.antt =====
-- A committed transition or finalization replays for ever, and its revision is spent
-- (composition/compositionSchedulerRepository.ts).

use flowdoc_vnext_backend.Common.{
  ◌+◌, ◌<◌, String, ◌≡◌, ◌≢◌, ap, ◌∙◌, ◌⊎◌, inl, inr, none, some, List, text_eq, number_eq, arith,
}
use flowdoc_vnext_backend.Common.Dict.{get-set_self}
use flowdoc_vnext_backend.PdfExport.Issue.{Digest}
use flowdoc_vnext_backend.Composition.Core.{CompositionCore}
use flowdoc_vnext_backend.Composition.SourcePin.{PinFacts}
use flowdoc_vnext_backend.Composition.JobHead.{JobFacts, JobHead}
use flowdoc_vnext_backend.Composition.Transition.{ReceiptFacts}
use flowdoc_vnext_backend.Composition.Repository.{
  StoredValue, StoredHead, Repository, committed, CommittedRequest, CommittedFinalization, CasInput,
}
use flowdoc_vnext_backend.Composition.Repository.Swap.{
  replay_answer, compare_and_swap, Call, run_all,
}
use flowdoc_vnext_backend.Composition.Repository.Commits.{committed-Commits}
use flowdoc_vnext_backend.Composition.Repository.Keeping.{run_all-KeepsAll}

-- An input that commits this request and no finalization.
abbrev pub AsksRequest : CasInput → CommittedRequest → Type 0
AsksRequest r q = (r.request ≡ some q) × (r.finalization ≡ none)

-- An input that commits this finalization and no request.
abbrev pub AsksFinalization : CasInput → CommittedFinalization → Type 0
AsksFinalization r q = (r.request ≡ none) × (r.finalization ≡ some q)

above :
    (r : CasInput) (h : JobHead) (x y : StoredHead)
    → h.head_revision ≡ x.head.head_revision + 1
    → x.head.head_revision ≡ r.expected_revision
    → (y.head ≡ h) ⊎ (h.head_revision < y.head.head_revision)
    → r.expected_revision < y.head.head_revision
above r h x y a b (inl e) =
    let same = ap (λ (z : JobHead). z.head_revision) e in omega (arith, same, a, b)
above r h x y a b (inr l) = omega (arith, a, b)

module _ (core : CompositionCore) (json : StoredValue → String) ⦃head_digest : Digest JobFacts⦄
    ⦃pin_digest : Digest PinFacts⦄ ⦃receipt_digest : Digest ReceiptFacts⦄ where
  -- What a committed request is to all later calls: its answers, by the fingerprint.
  abbrev pub RequestSettled : Repository → String → CommittedRequest → JobHead → Type 0
  RequestSettled u job q h =
      (other : CasInput) (p : CommittedRequest)
      → other.job_id ≡ job
      → AsksRequest other p
      → p.request_id ≡ q.request_id
      → compare_and_swap core json u other
        ≡ (u, replay_answer p.request_fingerprint q.request_fingerprint h)

  abbrev pub FinalizationSettled : Repository → String → CommittedFinalization → JobHead → Type 0
  FinalizationSettled u job q h =
      (other : CasInput) (p : CommittedFinalization)
      → other.job_id ≡ job
      → AsksFinalization other p
      → p.request_id ≡ q.request_id
      → compare_and_swap core json u other
        ≡ (u, replay_answer p.request_fingerprint q.request_fingerprint h)

  -- The job of a commit stays stored, at a revision above the expected one.
  committed-stored :
      (s : Repository) (r : CasInput) (h : JobHead) (cs : List Call)
      → (compare_and_swap core json s r).1 ≡ committed h
      → (y : StoredHead) × ((run_all core json (compare_and_swap core json s r).0 cs).heads.get
            r.job_id
          ≡ some y)
        × (r.expected_revision < y.head.head_revision)
  committed-stored s r h cs e =
      let (x, held, made, c) = committed-Commits core json s r h e in
      let s' = (compare_and_swap core json s r).0 in
      let at : s'.heads.get r.job_id ≡ some (record x { head = h }) =
        ap (λ (z : Repository). z.heads.get r.job_id) made ∙ get-set_self s.heads r.job_id _ in
      let (y, at_y, later) = (run_all-KeepsAll core json cs s').heads r.job_id _ at in
      (y, at_y, above r h x y c.advances.revision c.revision later.moved)

  -- Once a head is committed, and after any later calls, no other compare-and-swap of the job that
  -- expects the same revision commits.
  pub swapped-spent :
      (s : Repository) (r other : CasInput) (h k : JobHead) (cs : List Call)
      → (compare_and_swap core json s r).1 ≡ committed h
      → other.job_id ≡ r.job_id
      → other.expected_revision ≡ r.expected_revision
      → (compare_and_swap core json
          (run_all core json (compare_and_swap core json s r).0 cs)
          other).1
        ≢ committed k
  swapped-spent s r other h k cs e job revision f =
      let u = run_all core json (compare_and_swap core json s r).0 cs in
      let (y, at_y, above) = committed-stored s r h cs e in
      let (z, at_z, made, c) = committed-Commits core json u other k f in
      let one : y ≡ z = cc (at_y, ap u.heads.get job, at_z) in
      let same = ap (λ (w : StoredHead). w.head.head_revision) one in
      absurd (omega (arith, above, same, c.revision, revision))
