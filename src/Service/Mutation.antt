-- ===== src/Service/Mutation.antt =====
-- executeBackendMutation (service/mutationService.ts) over the package repository. It awaits three
-- times: other calls may come between its reads and its write, and are given as lists.
pub mod Atomicity
pub mod Once
pub mod Writing
use Prim.Native.String.{◌++◌}
use flowdoc_vnext_backend.Common.{
  ℕ, ◌+◌, String, Bool, true, false, not, Option, none, some, List, [], ◌∷◌, ◌==◌, text_eq,
  number_eq, if◌then◌else◌,
}
use flowdoc_vnext_backend.PdfExport.Issue.{Time}
use flowdoc_vnext_backend.Storage.Package.{
  PackageV2, PackageV3, StoredPackage, active, next, is_active, CorePackages, AuthoringContext,
}
use flowdoc_vnext_backend.Storage.PackageRepository.{
  PackageRecord, MutationWriteRequest, MutationReceipt, Refusal, not_found, revision_conflict,
  unsupported_version, invalid_package, idempotency_conflict, thrown, WriteResult, written,
  idempotent_replay, refused, PackageRepository, read, read_mutation_receipt, both_or_neither,
  write_mutation,
}
use flowdoc_vnext_backend.Storage.PackageRepository.Changes.{Call, run_all}

pub data MutationSource : Type 0 where
  canvas inspector keyboard outline system toolbar : MutationSource

pub data NodeOperation : Type 0 where
  delete : String → NodeOperation
  duplicate : String → NodeOperation
  reorder : String → ℕ → NodeOperation

-- The children of a rich-inline replacement are Core's, kept as their text.
pub data MutationOperation : Type 0 where
  node : NodeOperation → MutationOperation
  rich_inline_replace : String → String → MutationOperation

pub record MutationRequest : Type 0 where
  pub base_revision : ℕ
  pub document_id : String
  pub operation : MutationOperation
  pub reason : Option String
  pub request_id : String
  pub source : MutationSource

abbrev node_id : NodeOperation → String
node_id (delete id) = id
node_id (duplicate id) = id
node_id (reorder id index) = id

-- operationTargetNodeIds
abbrev pub operation_target_node_ids : MutationOperation → List String
operation_target_node_ids (node o) = node_id o ∷ []
operation_target_node_ids (rich_inline_replace block children) = block ∷ []

abbrev pub operation_kind_of : MutationOperation → String
operation_kind_of (node (delete id)) = "node.delete"
operation_kind_of (node (duplicate id)) = "node.duplicate"
operation_kind_of (node (reorder id index)) = "node.reorder"
operation_kind_of (rich_inline_replace block children) = "text-block.rich-inline.replace"

-- toCoreOperationSource: whether the system, and not a user, is the source.
abbrev pub from_system : MutationSource → Bool
from_system system = true
from_system _ = false

-- What Core answers: the edited package, the summary and the target nodes, or the codes of its issues.
pub data Edit (P : Type 0) : Type 0 where
  committed : P → String → List String → Edit P
  not_committed : List String → Edit P

-- Core's edits, by the package, the operation and whether it is the system's; and the serialization of
-- an edited package with its time of update, none where it throws.
pub record CoreEdits : Type 0 where
  pub run_v3 : PackageV2 → NodeOperation → Bool → Edit PackageV2
  pub run_v4 : PackageV3 → NodeOperation → Bool → Edit PackageV3
  pub replace_v4 : AuthoringContext → PackageV3 → String → String → Bool → Edit PackageV3
  pub stamp_v2 : PackageV2 → Time → Option PackageV2
  pub stamp_v3 : PackageV3 → Time → Option PackageV3

pub data MutationStatus : Type 0 where
  applied rejected stale : MutationStatus

pub record ReadEnvelope : Type 0 where
  pub base_revision : ℕ
  pub document_id : String
  pub envelope_id : String
  pub package_value : StoredPackage
  pub source_revision : ℕ

-- BackendMutationResultEnvelope, without what it repeats of the request and of the clock. An issue is
-- its code. `replayed` is null, or whether the idempotency is "replayed" and not "new".
pub record Envelope : Type 0 where
  pub status : MutationStatus
  pub core : Option String
  pub codes : List String
  pub replayed : Option Bool
  pub read_envelope : Option ReadEnvelope
  pub revision : Option ℕ
  pub target_node_ids : List String

-- How the service ends: an answer, or an exception of Core.
pub data Ending : Type 0 where
  answers : Envelope → Ending
  throws : Ending

-- After its reads: the end, or a write to make, with whether the document is of the older pair.
pub data Plan : Type 0 where
  finish : Ending → Plan
  submit : Bool → MutationWriteRequest → Plan

abbrev pub failure : MutationStatus → List String → Option ℕ → List String → Envelope
failure status codes revision targets = record {
  status = status;
  core = none;
  codes = codes;
  replayed = none;
  read_envelope = none;
  revision = revision;
  target_node_ids = targets;
}

abbrev pub success : MutationRequest → Bool → MutationReceipt → ℕ → String → String → Envelope
success r replayed m base document core = record {
  status = applied;
  core = some core;
  codes = [];
  replayed = some replayed;
  read_envelope = some (record {
    base_revision = base;
    document_id = document;
    envelope_id = r.request_id ++ ":mutation-result";
    package_value = m.stored.package_value;
    source_revision = m.stored.revision;
  });
  revision = some m.stored.revision;
  target_node_ids = m.target_node_ids;
}

-- JSON.stringify of the request, of which this code uses the equality of two texts.
module _ (core : CorePackages) (edits : CoreEdits) (fingerprint_of : MutationRequest → String) where
  abbrev pub reject : MutationRequest → PackageRecord → List String → Plan
  reject r c codes =
      finish
        (answers (failure rejected codes (some c.revision) (operation_target_node_ids r.operation)))

  abbrev pub submission :
      MutationRequest → Time → PackageRecord → StoredPackage → String → List String → Plan
  submission r at c p summary targets = submit (is_active c.package_value) (record {
    write = record {
      document_id = r.document_id;
      expected_revision = c.revision;
      package_value = p;
      updated_at = at;
    };
    core = summary;
    operation_kind = operation_kind_of r.operation;
    request_fingerprint = fingerprint_of r;
    request_id = r.request_id;
    target_node_ids = targets;
  })

  unfoldable pub after_v2 : MutationRequest → Time → PackageRecord → Edit PackageV2 → Plan
  after_v2 r at c (not_committed codes) = reject r c codes
  after_v2 r at c (committed p summary targets) = elim (edits.stamp_v2 p at) [
    | none ↦ finish throws
    | some q ↦ submission r at c (active q) summary targets
  ]

  unfoldable pub after_v3 : MutationRequest → Time → PackageRecord → Edit PackageV3 → Plan
  after_v3 r at c (not_committed codes) = reject r c codes
  after_v3 r at c (committed p summary targets) = elim (edits.stamp_v3 p at) [
    | none ↦ finish throws
    | some q ↦ submission r at c (next q) summary targets
  ]

  unfoldable pub replace_in :
      MutationRequest → Time → PackageRecord → PackageV3 → String → String → Plan
  unfolding after_v3
  replace_in r at c p block children = elim c.authoring_context [
    | none ↦ reject r c ("authoring-context-missing" ∷ [])
    | some x ↦ after_v3 r at c (edits.replace_v4 x p block children (from_system r.source))
  ]

  unfoldable pub edit :
      MutationRequest → Time → PackageRecord → StoredPackage → MutationOperation → Plan
  unfolding after_v2 after_v3 replace_in
  edit r at c (active p) (rich_inline_replace block children) =
      reject r c ("unsupported-version" ∷ [])
  edit r at c (active p) (node o) = after_v2 r at c (edits.run_v3 p o (from_system r.source))
  edit r at c (next p) (rich_inline_replace block children) = replace_in r at c p block children
  edit r at c (next p) (node o) = after_v3 r at c (edits.run_v4 p o (from_system r.source))

  -- From the read of the document to the write.
  unfoldable pub plan_new : MutationRequest → Time → Option PackageRecord → Plan
  unfolding edit
  plan_new r at none = finish (
      answers
        (failure rejected ("document-not-found" ∷ []) none (operation_target_node_ids r.operation)))
  plan_new r at (some c) =
      if not (c.revision == r.base_revision)
      then finish (
          answers (
            failure stale ("revision-stale" ∷ []) (some c.revision)
              (operation_target_node_ids r.operation)))
      else edit r at c c.package_value r.operation

  unfoldable pub replay_answer : MutationRequest → MutationReceipt → Envelope
  replay_answer r m =
      if not (m.request_fingerprint == fingerprint_of r)
      then failure rejected ("idempotency-conflict" ∷ []) (some m.stored.revision)
          (operation_target_node_ids r.operation)
      else success r true m m.base_revision m.document_id m.core

  -- The codes and the revision of a refusal.
  abbrev pub refusal_codes : Refusal → List String
  refusal_codes (unsupported_version n) = "unsupported-version" ∷ []
  refusal_codes (invalid_package n) = "invalid-package" ∷ []
  refusal_codes (idempotency_conflict n) = "idempotency-conflict" ∷ []
  refusal_codes _ = []

  abbrev pub refusal_revision : Refusal → Option ℕ
  refusal_revision (revision_conflict n) = some n
  refusal_revision (unsupported_version n) = some n
  refusal_revision (invalid_package n) = some n
  refusal_revision (idempotency_conflict n) = some n
  refusal_revision _ = none

  -- The answer to a write that gave a receipt.
  unfoldable pub settle :
      MutationRequest → Bool → MutationWriteRequest → Bool → MutationReceipt → Envelope
  settle r older w replayed m =
      if not (both_or_neither core older (is_active m.stored.package_value))
      then failure rejected ("unsupported-version" ∷ []) (some m.stored.revision) w.target_node_ids
      else success r replayed m r.base_revision r.document_id w.core

  unfoldable pub conclude :
      MutationRequest → Bool → MutationWriteRequest → WriteResult MutationReceipt → Ending
  unfolding settle
  conclude r older w (written m) = answers (settle r older w false m)
  conclude r older w (idempotent_replay m) = answers (settle r older w true m)
  conclude r older w (refused thrown) = throws
  conclude r older w (refused (revision_conflict n)) =
      answers (failure stale ("revision-stale" ∷ []) (some n) w.target_node_ids)
  conclude r older w (refused e) =
      answers (failure rejected (refusal_codes e) (refusal_revision e) w.target_node_ids)

  unfoldable pub carry_out :
      PackageRepository → List Call → MutationRequest → Plan → PackageRepository × Ending
  unfolding conclude
  carry_out s second r (finish e) = (s, e)
  carry_out s second r (submit older w) =
      let s' = run_all core s second in
      ((write_mutation core s' w).0, conclude r older w (write_mutation core s' w).1)

  unfoldable pub execute_with :
      PackageRepository
      → List Call
      → List Call
      → MutationRequest
      → Time
      → Option MutationReceipt
      → PackageRepository × Ending
  unfolding plan_new replay_answer carry_out
  execute_with s first second r at (some m) = (s, answers (replay_answer r m))
  execute_with s first second r at none =
      let s' = run_all core s first in carry_out s' second r (plan_new r at (read s' r.document_id))

  -- executeBackendMutation: the calls of others come after its first read, and after its second.
  unfoldable pub execute_mutation :
      PackageRepository
      → List Call
      → List Call
      → MutationRequest
      → Time
      → PackageRepository × Ending
  unfolding execute_with
  execute_mutation s first second r at =
      execute_with s first second r at (read_mutation_receipt s r.document_id r.request_id)
