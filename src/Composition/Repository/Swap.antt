-- ===== src/Composition/Repository/Swap.antt =====
-- compareAndSwapHead of the composition repository (composition/compositionSchedulerRepository.ts,
-- lines 622 to 796), and runs of calls of the three methods that write.
use flowdoc_vnext_backend.Common.{
  ◌+◌, String, Bool, true, false, not, ◌&&◌, ◌||◌, Option, none, some, List, [], ◌∷◌, ltb, ◌==◌,
  number_eq, text_eq, if◌then◌else◌,
}
use flowdoc_vnext_backend.Common.Dict.{Dict, set}
use flowdoc_vnext_backend.PdfExport.Issue.{Digest}
use flowdoc_vnext_backend.Composition.Core.{Manifest, CompositionCore}
use flowdoc_vnext_backend.Composition.SourcePin.{
  ContentRef, transition_receipt, kind_beq, ref_valid, Retention, summarize, PinFacts, SourcePin,
}
use flowdoc_vnext_backend.Composition.JobHead.{JobFacts, JobHead, is_some, same_text, parse_head}
use flowdoc_vnext_backend.Composition.Transition.{ReceiptFacts, Receipt, parse_receipt}
use flowdoc_vnext_backend.Composition.Repository.{
  StoredValue, receipt_value, chunk_value, other_value, Immutable, StoredHead, StoredRequest,
  StoredFinalization, Repository, pair_key, is_terminal, CasResult, committed, idempotent_replay,
  stale, conflict, invalid, not_found, CommittedRequest, CommittedFinalization, CasInput,
  CreateInput, put_immutable, create_head, retained, outputs_retained,
}

abbrev pub same_retention : Retention → Retention → Bool
same_retention q r = q.record_count == r.record_count && q.byte_count == r.byte_count

abbrev pub add_retention : Retention → Retention → Retention
add_retention q r = record {
  record_count = q.record_count + r.record_count;
  byte_count = q.byte_count + r.byte_count;
}

abbrev pub with_ref : Option ContentRef → List ContentRef → List ContentRef
with_ref none rs = rs
with_ref (some r) rs = r ∷ rs

-- The records that the commit of a transition retains.
abbrev pub receipt_refs : ContentRef → Receipt → List ContentRef
receipt_refs r x = r ∷ with_ref x.window_ref (with_ref x.page_chunk_ref [])

-- One revision on, of the same owners, and not from a terminal state.
unfoldable pub head_advances : JobHead → JobHead → Bool
head_advances old new =
    new.head_revision == (old.head_revision + 1)
    && not (ltb new.transition_number old.transition_number)
    && not (ltb (old.transition_number + 1) new.transition_number)
    && new.source_pin_fingerprint == old.source_pin_fingerprint
    && new.manifest_fingerprint == old.manifest_fingerprint
    && not (is_terminal old.status)

-- The answer to a request that was committed before: by its fingerprint.
abbrev pub replay_answer : String → String → JobHead → CasResult
replay_answer given kept head = if kept == given then idempotent_replay head else conflict

unfoldable pub request_answer : Repository → String → Option CommittedRequest → Option CasResult
unfolding pair_key
request_answer s job none = none
request_answer s job (some q) = elim (s.requests.get (pair_key job q.request_id)) [
  | none ↦ none
  | some x ↦ some (replay_answer q.request_fingerprint x.request_fingerprint x.head)
]

unfoldable pub finalization_answer :
    Repository → String → Option CommittedFinalization → Option CasResult
unfolding pair_key
finalization_answer s job none = none
finalization_answer s job (some q) = elim (s.finalizations.get (pair_key job q.request_id)) [
  | none ↦ none
  | some x ↦ some (replay_answer q.request_fingerprint x.request_fingerprint x.head)
]

-- The value of the head's job, with the next head and what it commits.
abbrev pub with_request :
    Repository → CasInput → JobHead → Option CommittedRequest → Dict String StoredRequest
with_request s r h none = s.requests
with_request s r h (some q) =
    set s.requests (pair_key r.job_id q.request_id) (record {
      request_fingerprint = q.request_fingerprint;
      receipt_ref = q.receipt_ref;
      head = h;
    })

abbrev pub with_finalization :
    Repository → CasInput → JobHead → Option CommittedFinalization → Dict String StoredFinalization
with_finalization s r h none = s.finalizations
with_finalization s r h (some q) = set s.finalizations (pair_key r.job_id q.request_id) (record {
  request_fingerprint = q.request_fingerprint;
  page_plan_ref = q.page_plan_ref;
  heading_page_map_ref = q.heading_page_map_ref;
  head = h;
})

abbrev pub swapped : Repository → CasInput → StoredHead → JobHead → Repository
swapped s r x h = record s {
  heads = set s.heads r.job_id (record x { head = h });
  requests = with_request s r h r.request;
  finalizations = with_finalization s r h r.finalization;
}

-- The calls that write.
pub data Call : Type 0 where
  put_call : ContentRef → StoredValue → Call
  create_call : CreateInput → Call
  swap_call : CasInput → Call

module _ (core : CompositionCore) (json : StoredValue → String) ⦃head_digest : Digest JobFacts⦄
    ⦃pin_digest : Digest PinFacts⦄ ⦃receipt_digest : Digest ReceiptFacts⦄ where
  -- A retained value that is a transition receipt of the job.
  unfoldable pub parse_retained : SourcePin → Manifest → Option Immutable → Option Receipt
  parse_retained pin m none = none
  parse_retained pin m (some i) = elim i.value [
    | receipt_value x ↦ parse_receipt pin m x
    | chunk_value c ↦ none
    | other_value f rest ↦ none
  ]

  -- The receipt of a commit is of the job, at the tip of the next head, and its records are added.
  unfoldable pub receipt_commits :
      StoredHead → CasInput → JobHead → CommittedRequest → Option Receipt → Bool
  receipt_commits x r h q none = false
  receipt_commits x r h q (some receipt) =
      ref_valid q.receipt_ref
      && q.receipt_ref.job_id == r.job_id
      && kind_beq q.receipt_ref.kind transition_receipt
      && same_text h.chain.transition_receipt_tip (some q.receipt_ref.record_fingerprint)
      && same_retention h.retention
          (add_retention x.head.retention (summarize (receipt_refs q.receipt_ref receipt)))

  unfoldable pub request_commits :
      Repository → StoredHead → CasInput → JobHead → Option CommittedRequest → Bool
  unfolding parse_retained receipt_commits
  request_commits s x r h none = true
  request_commits s x r h (some q) =
      receipt_commits x r h q (parse_retained x.pin x.manifest (retained core json s q.receipt_ref))

  unfoldable pub finalization_commits :
      Repository → StoredHead → CasInput → JobHead → Option CommittedFinalization → Bool
  unfolding outputs_retained
  finalization_commits s x r h none = true
  finalization_commits s x r h (some q) =
      outputs_retained core json s r.job_id q.page_plan_ref q.heading_page_map_ref h
      && same_retention h.retention (
          add_retention x.head.retention
            (summarize (q.page_plan_ref ∷ q.heading_page_map_ref ∷ [])))

  -- A commit of no content keeps the retention.
  unfoldable pub plain_commits : StoredHead → CasInput → JobHead → Bool
  plain_commits x r h =
      is_some r.request || is_some r.finalization || same_retention h.retention x.head.retention

  unfoldable pub swap_parsed :
      Repository → CasInput → StoredHead → Option JobHead → Repository × CasResult
  unfolding head_advances request_commits finalization_commits plain_commits
  swap_parsed s r x none = (s, invalid)
  swap_parsed s r x (some h) =
      if head_advances x.head h
        && request_commits s x r h r.request
        && finalization_commits s x r h r.finalization
        && plain_commits x r h
      then (swapped s r x h, committed h)
      else (s, invalid)

  unfoldable pub swap_current : Repository → CasInput → StoredHead → Repository × CasResult
  unfolding swap_parsed
  swap_current s r x =
      if not (x.head.head_revision == r.expected_revision)
        || not (x.head.fingerprint == r.expected_fingerprint)
      then (s, stale x.head)
      else swap_parsed s r x (parse_head core x.pin x.manifest r.next)

  -- What was committed before answers first.
  unfoldable pub swap_new :
      Repository
      → CasInput
      → StoredHead
      → Option CasResult
      → Option CasResult
      → Repository × CasResult
  unfolding swap_current
  swap_new s r x (some a) _ = (s, a)
  swap_new s r x none (some a) = (s, a)
  swap_new s r x none none = swap_current s r x

  unfoldable pub swap_held : Repository → CasInput → Option StoredHead → Repository × CasResult
  unfolding swap_new request_answer finalization_answer
  swap_held s r none = (s, not_found)
  swap_held s r (some x) =
      if is_some r.request && is_some r.finalization
      then (s, invalid)
      else swap_new s r x (request_answer s r.job_id r.request)
          (finalization_answer s r.job_id r.finalization)

  -- compareAndSwapHead
  unfoldable pub compare_and_swap : Repository → CasInput → Repository × CasResult
  unfolding swap_held
  compare_and_swap s r = swap_held s r (s.heads.get r.job_id)

  unfoldable pub after : Repository → Call → Repository
  after s (put_call r v) = (put_immutable core json s r v).0
  after s (create_call r) = (create_head core json s r).0
  after s (swap_call r) = (compare_and_swap s r).0

  unfoldable pub run_all : Repository → List Call → Repository
  unfolding after
  run_all s [] = s
  run_all s (c ∷ cs) = run_all (after s c) cs
