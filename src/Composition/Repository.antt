-- ===== src/Composition/Repository.antt =====
-- createInMemoryFlowDocBackendCompositionRepositoryV1 (composition/compositionSchedulerRepository.ts),
-- lines 190 to 799. Each method returns the next state beside its answer.
pub mod Swap
pub mod Changes
pub mod Commits
pub mod Keeping
pub mod Soundness
pub mod Settled
pub mod Replays
use Prim.Native.String.{◌++◌}
use text.Mathlib.Text.{starts_with}
use flowdoc_vnext_backend.Common.{
  ℕ, ◌+◌, ◌*◌, String, Bool, true, false, not, ◌&&◌, ◌||◌, Option, none, some, List, [], ◌∷◌, ltb,
  leb, ◌==◌, number_eq, text_eq, if◌then◌else◌,
}
use flowdoc_vnext_backend.Common.Dict
use flowdoc_vnext_backend.Common.Dict.{Dict, set}
use flowdoc_vnext_backend.Common.Text.{byte_length_of, is_within_512}
use flowdoc_vnext_backend.PdfExport.Issue.{Digest}
use flowdoc_vnext_backend.Composition.Core.{Manifest, CompositionCore}
use flowdoc_vnext_backend.Composition.SourcePin.{
  ContentKind, ContentRef, transition_receipt, page_plan, heading_page_map, kind_text, kind_beq,
  ref_valid, Retention, summarize, PinFacts, SourcePin, parse_pin,
}
use flowdoc_vnext_backend.Composition.JobHead.{
  JobStatus, completed, blocked, cancelled, expired, OutputRefs, JobFacts, JobHead, is_some,
  same_text, parse_head,
}
use flowdoc_vnext_backend.Composition.Transition.{PageChunk, ReceiptFacts, Receipt, parse_receipt}

-- A value to retain: a record of this program, or any other JSON value, with its `fingerprint` if it
-- is an object that has one, and one text for the rest.
pub data StoredValue : Type 0 where
  receipt_value : Receipt → StoredValue
  chunk_value : PageChunk → StoredValue
  other_value : Option String → String → StoredValue

abbrev pub value_fingerprint : StoredValue → Option String
value_fingerprint (receipt_value r) = some r.fingerprint
value_fingerprint (chunk_value c) = some c.fingerprint
value_fingerprint (other_value f rest) = f

pub record Immutable : Type 0 where
  pub ref : ContentRef
  pub value : StoredValue

pub record StoredHead : Type 0 where
  pub pin : SourcePin
  pub manifest : Manifest
  pub head : JobHead
  pub create_request_id : String
  pub create_request_fingerprint : String

pub record StoredRequest : Type 0 where
  pub request_fingerprint : String
  pub receipt_ref : ContentRef
  pub head : JobHead

pub record StoredFinalization : Type 0 where
  pub request_fingerprint : String
  pub page_plan_ref : ContentRef
  pub heading_page_map_ref : ContentRef
  pub head : JobHead

pub record Repository : Type 0 where
  pub immutable : Dict String Immutable
  pub fingerprints : Dict String String
  pub heads : Dict String StoredHead
  pub requests : Dict String StoredRequest
  pub finalizations : Dict String StoredFinalization

abbrev pub empty_repository : Repository
empty_repository = record {
  immutable = Dict.empty;
  fingerprints = Dict.empty;
  heads = Dict.empty;
  requests = Dict.empty;
  finalizations = Dict.empty;
}

-- immutableKey and requestKey
unfoldable pub pair_key : String → String → String
pair_key job id = job ++ ("\0" ++ id)

-- fingerprintKey
unfoldable pub fingerprint_key : String → ContentKind → String → String
fingerprint_key job k text = job ++ ("\0" ++ (kind_text k ++ ("\0" ++ text)))

-- `same` on two references.
abbrev pub same_ref : ContentRef → ContentRef → Bool
same_ref q r =
    kind_beq q.kind r.kind
    && q.job_id == r.job_id
    && q.record_id == r.record_id
    && q.record_fingerprint == r.record_fingerprint
    && q.byte_length == r.byte_length

abbrev pub is_terminal : JobStatus → Bool
is_terminal completed = true
is_terminal blocked = true
is_terminal cancelled = true
is_terminal expired = true
is_terminal _ = false

pub data PutResult : Type 0 where
  put_written : ContentRef → PutResult
  put_replay : ContentRef → PutResult
  put_conflict : PutResult
  put_invalid : PutResult

-- The answer of a read: a value, nothing, or "invalid".
pub data Read (A : Type 0) : Type 0 where
  found : A → Read A
  missing : Read A
  unreadable : Read A

pub data CreateResult : Type 0 where
  created : JobHead → CreateResult
  create_replay : JobHead → CreateResult
  create_conflict : CreateResult
  create_invalid : CreateResult

pub data CasResult : Type 0 where
  committed : JobHead → CasResult
  idempotent_replay : JobHead → CasResult
  stale : JobHead → CasResult
  conflict : CasResult
  invalid : CasResult
  not_found : CasResult

pub record CommittedRequest : Type 0 where
  pub request_id : String
  pub request_fingerprint : String
  pub receipt_ref : ContentRef

pub record CommittedFinalization : Type 0 where
  pub request_id : String
  pub request_fingerprint : String
  pub page_plan_ref : ContentRef
  pub heading_page_map_ref : ContentRef

pub record CasInput : Type 0 where
  pub job_id : String
  pub expected_revision : ℕ
  pub expected_fingerprint : String
  pub next : JobHead
  pub request : Option CommittedRequest
  pub finalization : Option CommittedFinalization

pub record CreateInput : Type 0 where
  pub create_request_id : String
  pub request_fingerprint : String
  pub pin : SourcePin
  pub manifest : Manifest
  pub head : JobHead

-- What the repository uses that is not of this program: Core's parsers, JSON.stringify on the values
-- that are retained, and SHA-256 on the facts of each contract.
module _ (core : CompositionCore) (json : StoredValue → String) ⦃head_digest : Digest JobFacts⦄
    ⦃pin_digest : Digest PinFacts⦄ ⦃receipt_digest : Digest ReceiptFacts⦄ where
  unfoldable pub put_new :
      Repository → ContentRef → StoredValue → Option String → Repository × PutResult
  unfolding pair_key fingerprint_key
  put_new s r v owner =
      let key = pair_key r.job_id r.record_id in
      if is_some owner && not (same_text owner (some key)) then (s, put_conflict) else (
        record s {
          immutable = set s.immutable key (record { ref = r; value = v });
          fingerprints =
              set s.fingerprints (fingerprint_key r.job_id r.kind r.record_fingerprint) key;
        },
        put_written r,
      )

  unfoldable pub put_at :
      Repository → ContentRef → StoredValue → Option Immutable → Repository × PutResult
  unfolding put_new
  put_at s r v (some i) =
      if same_ref i.ref r && json i.value == json v
      then (s, put_replay i.ref)
      else (s, put_conflict)
  put_at s r v none =
      put_new s r v (s.fingerprints.get (fingerprint_key r.job_id r.kind r.record_fingerprint))

  -- putImmutable
  unfoldable pub put_immutable : Repository → ContentRef → StoredValue → Repository × PutResult
  unfolding put_at pair_key
  put_immutable s r v =
      if not (ref_valid r)
      then (s, put_invalid)
      else if not (same_text (value_fingerprint v) (some r.record_fingerprint))
      then (s, put_invalid)
      else if not (byte_length_of (json v) == r.byte_length)
      then (s, put_invalid)
      else put_at s r v (s.immutable.get (pair_key r.job_id r.record_id))

  abbrev pub read_of : {A : Type 0} → Option A → Read A
  read_of none = missing
  read_of (some a) = found a

  -- readImmutable
  unfoldable pub read_immutable : Repository → String → String → Read Immutable
  unfolding pair_key
  read_immutable s job id =
      if job == "" || id == "" then unreadable else read_of (s.immutable.get (pair_key job id))

  -- The record that the index names, which must be the exact one.
  unfoldable pub indexed : String → ContentKind → String → Option Immutable → Read Immutable
  indexed job k text none = unreadable
  indexed job k text (some i) =
      if i.ref.job_id == job && kind_beq i.ref.kind k && i.ref.record_fingerprint == text
      then found i
      else unreadable

  unfoldable pub read_indexed :
      Repository → String → ContentKind → String → Option String → Read Immutable
  unfolding indexed
  read_indexed s job k text none = missing
  read_indexed s job k text (some key) = indexed job k text (s.immutable.get key)

  -- readImmutableByFingerprint
  unfoldable pub read_by_fingerprint : Repository → String → ContentKind → String → Read Immutable
  unfolding read_indexed fingerprint_key
  read_by_fingerprint s job k text =
      if ref_valid (record {
        kind = k;
        job_id = job;
        record_id = "fingerprint-probe";
        record_fingerprint = text;
        byte_length = 1;
      })
      then read_indexed s job k text (s.fingerprints.get (fingerprint_key job k text))
      else unreadable

  unfoldable pub create_new :
      Repository
      → CreateInput
      → SourcePin
      → Manifest
      → JobHead
      → Option StoredHead
      → Repository × CreateResult
  create_new s r pin m h (some x) =
      if x.create_request_id == r.create_request_id
        && x.create_request_fingerprint == r.request_fingerprint
      then (s, create_replay x.head)
      else (s, create_conflict)
  create_new s r pin m h none = (
    record s {
      heads = set s.heads pin.job_id (record {
        pin = pin;
        manifest = m;
        head = h;
        create_request_id = r.create_request_id;
        create_request_fingerprint = r.request_fingerprint;
      });
    },
    created h,
  )

  unfoldable pub create_parsed :
      Repository → CreateInput → SourcePin → Manifest → Option JobHead → Repository × CreateResult
  unfolding create_new
  create_parsed s r pin m none = (s, create_invalid)
  create_parsed s r pin m (some h) =
      if not (h.head_revision == 0)
        || not (h.transition_number == 0)
        || r.create_request_id == ""
        || not (starts_with r.request_fingerprint "sha256:")
      then (s, create_invalid)
      else create_new s r pin m h (s.heads.get pin.job_id)

  unfoldable pub create_owned :
      Repository → CreateInput → Option SourcePin → Option Manifest → Repository × CreateResult
  unfolding create_parsed
  create_owned s r none _ = (s, create_invalid)
  create_owned s r (some pin) none = (s, create_invalid)
  create_owned s r (some pin) (some m) = create_parsed s r pin m (parse_head core pin m r.head)

  -- createHead
  unfoldable pub create_head : Repository → CreateInput → Repository × CreateResult
  unfolding create_owned
  create_head s r = create_owned s r (parse_pin r.pin) (core.parse_manifest r.manifest)

  unfoldable pub reread : StoredHead → Option JobHead → Read StoredHead
  reread x none = unreadable
  reread x (some h) = found (record x { head = h })

  unfoldable pub read_stored : Option StoredHead → Read StoredHead
  unfolding reread
  read_stored none = missing
  read_stored (some x) = reread x (parse_head core x.pin x.manifest x.head)

  -- readHead, which gives out the context and the head of what is found.
  unfoldable pub read_head : Repository → String → Read StoredHead
  unfolding read_stored
  read_head s job = read_stored (s.heads.get job)

  -- readHeadCreation, which gives out the identity of the creation and the head.
  unfoldable pub read_head_creation : Repository → String → Read StoredHead
  unfolding read_stored
  read_head_creation s job =
      if job == "" || not (is_within_512 job) then unreadable else read_stored (s.heads.get job)

  -- What a request committed, with its head parsed, where its receipt is still exact.
  unfoldable pub exact_request :
      String → StoredRequest → Option Immutable → Option JobHead → Read StoredRequest
  exact_request job q (some i) (some h) =
      if ref_valid q.receipt_ref
        && q.receipt_ref.job_id == job
        && kind_beq q.receipt_ref.kind transition_receipt
        && i.ref.record_fingerprint == q.receipt_ref.record_fingerprint
        && same_text h.chain.transition_receipt_tip (some q.receipt_ref.record_fingerprint)
      then found (record q { head = h })
      else unreadable
  exact_request job q _ _ = unreadable

  abbrev pub retained : Repository → ContentRef → Option Immutable
  retained s r = s.immutable.get (pair_key r.job_id r.record_id)

  abbrev pub parsed_in : Option StoredHead → JobHead → Option JobHead
  parsed_in none h = none
  parsed_in (some x) h = parse_head core x.pin x.manifest h

  unfoldable pub read_request_at : Repository → String → Option StoredRequest → Read StoredRequest
  unfolding exact_request
  read_request_at s job none = missing
  read_request_at s job (some q) =
      exact_request job q (retained s q.receipt_ref) (parsed_in (s.heads.get job) q.head)

  -- readCommittedRequest
  unfoldable pub read_committed_request : Repository → String → String → Read StoredRequest
  unfolding read_request_at pair_key
  read_committed_request s job id =
      if job == "" || id == ""
      then unreadable
      else read_request_at s job (s.requests.get (pair_key job id))

  -- Whether the final output of a head is of these two references.
  unfoldable pub output_is : ContentRef → ContentRef → Option OutputRefs → Bool
  output_is plan map none = false
  output_is plan map (some o) = same_ref o.page_plan_ref plan && same_ref o.heading_page_map_ref map

  abbrev pub is_completed : JobStatus → Bool
  is_completed completed = true
  is_completed _ = false

  unfoldable pub outputs_retained : Repository → String → ContentRef → ContentRef → JobHead → Bool
  unfolding output_is
  outputs_retained s job plan map h =
      ref_valid plan
      && ref_valid map
      && plan.job_id == job
      && kind_beq plan.kind page_plan
      && is_some (retained s plan)
      && map.job_id == job
      && kind_beq map.kind heading_page_map
      && is_some (retained s map)
      && is_completed h.status
      && output_is plan map h.final_output

  unfoldable pub exact_finalization :
      Repository → String → StoredFinalization → Option JobHead → Read StoredFinalization
  unfolding outputs_retained
  exact_finalization s job q none = unreadable
  exact_finalization s job q (some h) =
      if outputs_retained s job q.page_plan_ref q.heading_page_map_ref h
      then found (record q { head = h })
      else unreadable

  unfoldable pub read_finalization_at :
      Repository → String → Option StoredFinalization → Read StoredFinalization
  unfolding exact_finalization
  read_finalization_at s job none = missing
  read_finalization_at s job (some q) =
      exact_finalization s job q (parsed_in (s.heads.get job) q.head)

  -- readCommittedFinalization
  unfoldable pub read_committed_finalization :
      Repository → String → String → Read StoredFinalization
  unfolding read_finalization_at pair_key
  read_committed_finalization s job id =
      if job == "" || id == ""
      then unreadable
      else read_finalization_at s job (s.finalizations.get (pair_key job id))
