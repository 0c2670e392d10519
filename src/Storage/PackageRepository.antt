-- ===== src/Storage/PackageRepository.antt =====
-- The in-memory package repository (storage/packageRepository.ts): the record of each document, the
-- receipts of mutations and migrations, and the packages from before the migrations. A clone, which
-- serializes a package once more, is the value itself.
pub mod Changes
pub mod Invariant
pub mod Replays
pub mod Migrations
use Prim.Native.String.{◌++◌}
use flowdoc_vnext_backend.Common.{
  ℕ, ◌+◌, String, Bool, true, false, not, ◌&&◌, Option, none, some, ◌⊎◌, inl, inr, List, ◌==◌,
  text_eq, number_eq, pair_eq, if◌then◌else◌,
}
use flowdoc_vnext_backend.Common.Dict.{Dict, set}
use flowdoc_vnext_backend.PdfExport.Issue.{Time}
use flowdoc_vnext_backend.Storage.Package.{
  PackageV2, PackageV3, StoredPackage, active, next, is_active, package_id, CorePackages,
  AuthoringContext, create_context, advance_context, same_package,
}

pub record PackageRecord : Type 0 where
  pub authoring_context : Option AuthoringContext
  pub document_id : String
  pub package_value : StoredPackage
  pub revision : ℕ
  pub updated_at : Time

pub record MigrationSourceSnapshot : Type 0 where
  pub document_id : String
  pub package_value : PackageV2
  pub request_id : String
  pub retained_at : Time
  pub source_revision : ℕ
  pub target_revision : ℕ

-- The summary is Core's, kept as its text.
pub record MigrationReceipt : Type 0 where
  pub base_revision : ℕ
  pub change_count : ℕ
  pub document_id : String
  pub stored : PackageRecord
  pub request_id : String
  pub request_fingerprint : String
  pub snapshot : MigrationSourceSnapshot
  pub summary : String

pub record MutationReceipt : Type 0 where
  pub base_revision : ℕ
  pub core : String
  pub document_id : String
  pub operation_kind : String
  pub stored : PackageRecord
  pub request_fingerprint : String
  pub request_id : String
  pub target_node_ids : List String

pub record WriteRequest : Type 0 where
  pub document_id : String
  pub expected_revision : ℕ
  pub package_value : StoredPackage
  pub updated_at : Time

pub record MutationWriteRequest : Type 0 where
  pub write : WriteRequest
  pub open write use *
  pub core : String
  pub operation_kind : String
  pub request_fingerprint : String
  pub request_id : String
  pub target_node_ids : List String

pub record MigrationWriteRequest : Type 0 where
  pub change_count : ℕ
  pub document_id : String
  pub expected_revision : ℕ
  pub package_value : PackageV3
  pub request_id : String
  pub request_fingerprint : String
  pub summary : String
  pub updated_at : Time

-- The statuses of a refused write, with the current revision; the one issue has the code of its
-- status. `thrown` stands for an exception of Core that no handler takes.
pub data Refusal : Type 0 where
  not_found : Refusal
  revision_conflict : ℕ → Refusal
  unsupported_version : ℕ → Refusal
  invalid_package : ℕ → Refusal
  idempotency_conflict : ℕ → Refusal
  thrown : Refusal

pub data WriteResult (A : Type 0) : Type 0 where
  written : A → WriteResult A
  idempotent_replay : A → WriteResult A
  refused : Refusal → WriteResult A

pub record PackageRepository : Type 0 where
  pub records : Dict String PackageRecord
  pub receipts : Dict String MigrationReceipt
  pub mutation_receipts : Dict String MutationReceipt
  -- The key is a document and a revision: in the text that joins them with a colon, the last colon
  -- tells them apart.
  pub snapshots : Dict (String × ℕ) MigrationSourceSnapshot

-- `${documentId}:${requestId}`
abbrev pub receipt_key : String → String → String
receipt_key document request = document ++ ":" ++ request

-- read, readMigrationReceipt, readMigrationSourceSnapshot, readMutationReceipt
abbrev pub read : PackageRepository → String → Option PackageRecord
read s document = s.records.get document

abbrev pub read_migration_receipt : PackageRepository → String → String → Option MigrationReceipt
read_migration_receipt s document request = s.receipts.get (receipt_key document request)

abbrev pub read_migration_source_snapshot :
    PackageRepository → String → ℕ → Option MigrationSourceSnapshot
read_migration_source_snapshot s document revision = s.snapshots.get (document, revision)

abbrev pub read_mutation_receipt : PackageRepository → String → String → Option MutationReceipt
read_mutation_receipt s document request = s.mutation_receipts.get (receipt_key document request)

module _ (core : CorePackages) where
  map_package : {A B : Type 0} → (A → B) → Option A → Option B
  map_package f none = none
  map_package f (some a) = some (f a)

  -- The `try` of both writes.
  unfoldable pub normalize : StoredPackage → Option StoredPackage
  unfolding map_package
  normalize (active p) = map_package active (core.serialize_v2 p)
  normalize (next p) = elim (core.parse_v3 p) [
    | none ↦ none
    | some q ↦ map_package next (core.serialize_v3 q)
  ]

  -- The record that both writes make.
  abbrev pub advanced : PackageRecord → WriteRequest → StoredPackage → PackageRecord
  advanced c r p = record {
    authoring_context = advance_context c.authoring_context p (c.revision + 1);
    document_id = r.document_id;
    package_value = p;
    revision = c.revision + 1;
    updated_at = r.updated_at;
  }

  abbrev pub both_or_neither : Bool → Bool → Bool
  both_or_neither true b = b
  both_or_neither false b = not b

  -- From the lookup of the document to the new record, in both writes.
  unfoldable pub next_record : Option PackageRecord → WriteRequest → Refusal ⊎ PackageRecord
  unfolding normalize
  next_record none r = inl not_found
  next_record (some c) r =
      if not (c.revision == r.expected_revision)
      then inl (revision_conflict c.revision)
      else if not (both_or_neither (is_active c.package_value) (is_active r.package_value))
      then inl (unsupported_version c.revision)
      else elim (normalize r.package_value) [
        | none ↦ inl (invalid_package c.revision)
        | some p ↦
            if not (package_id p == r.document_id)
            then inl (invalid_package c.revision)
            else inr (advanced c r p)
      ]

  abbrev pub with_record : PackageRepository → String → PackageRecord → PackageRepository
  with_record s document x = record s { records = set s.records document x }

  unfoldable pub write_record :
      PackageRepository
      → WriteRequest
      → Refusal ⊎ PackageRecord
      → PackageRepository × WriteResult PackageRecord
  write_record s r (inl e) = (s, refused e)
  write_record s r (inr x) = (with_record s r.document_id x, written x)

  -- write
  unfoldable pub write :
      PackageRepository → WriteRequest → PackageRepository × WriteResult PackageRecord
  unfolding next_record write_record
  write s r = write_record s r (next_record (s.records.get r.document_id) r)

  abbrev pub mutation_receipt : MutationWriteRequest → PackageRecord → MutationReceipt
  mutation_receipt r x = record {
    base_revision = r.expected_revision;
    core = r.core;
    document_id = r.document_id;
    operation_kind = r.operation_kind;
    stored = x;
    request_fingerprint = r.request_fingerprint;
    request_id = r.request_id;
    target_node_ids = r.target_node_ids;
  }

  abbrev pub with_mutation :
      PackageRepository → MutationWriteRequest → PackageRecord → PackageRepository
  with_mutation s r x = record s {
    records = set s.records r.document_id x;
    mutation_receipts =
        set s.mutation_receipts (receipt_key r.document_id r.request_id) (mutation_receipt r x);
  }

  unfoldable pub mutate_new :
      PackageRepository
      → MutationWriteRequest
      → Refusal ⊎ PackageRecord
      → PackageRepository × WriteResult MutationReceipt
  mutate_new s r (inl e) = (s, refused e)
  mutate_new s r (inr x) = (with_mutation s r x, written (mutation_receipt r x))

  unfoldable pub mutate_with :
      PackageRepository
      → MutationWriteRequest
      → Option MutationReceipt
      → PackageRepository × WriteResult MutationReceipt
  unfolding mutate_new next_record
  mutate_with s r (some replay) =
      if replay.request_fingerprint == r.request_fingerprint
      then (s, idempotent_replay replay)
      else (s, refused (idempotency_conflict replay.stored.revision))
  mutate_with s r none = mutate_new s r (next_record (s.records.get r.document_id) r.write)

  -- writeMutation
  unfoldable pub write_mutation :
      PackageRepository → MutationWriteRequest → PackageRepository × WriteResult MutationReceipt
  unfolding mutate_with
  write_mutation s r =
      mutate_with s r (s.mutation_receipts.get (receipt_key r.document_id r.request_id))

  -- sameMigrationRequest
  abbrev pub same_migration_request : MigrationReceipt → MigrationWriteRequest → Bool
  same_migration_request receipt r =
      receipt.base_revision == r.expected_revision
      && receipt.request_fingerprint == r.request_fingerprint
      && same_package receipt.stored.package_value r.package_value

  abbrev pub migration_record :
      PackageRecord → MigrationWriteRequest → PackageV3 → PackageV3 → PackageRecord
  migration_record c r target serialized = record {
    authoring_context = some (create_context target (c.revision + 1));
    document_id = r.document_id;
    package_value = next serialized;
    revision = c.revision + 1;
    updated_at = r.updated_at;
  }

  abbrev pub snapshot_of :
      PackageRecord → PackageV2 → MigrationWriteRequest → MigrationSourceSnapshot
  snapshot_of c p r = record {
    document_id = r.document_id;
    package_value = p;
    request_id = r.request_id;
    retained_at = r.updated_at;
    source_revision = c.revision;
    target_revision = c.revision + 1;
  }

  abbrev pub migration_receipt :
      MigrationWriteRequest → PackageRecord → MigrationSourceSnapshot → MigrationReceipt
  migration_receipt r x snapshot = record {
    base_revision = r.expected_revision;
    change_count = r.change_count;
    document_id = r.document_id;
    stored = x;
    request_id = r.request_id;
    request_fingerprint = r.request_fingerprint;
    snapshot = snapshot;
    summary = r.summary;
  }

  abbrev pub with_migration :
      PackageRepository
      → MigrationWriteRequest
      → PackageRecord
      → MigrationSourceSnapshot
      → PackageRepository
  with_migration s r x snapshot = record s {
    records = set s.records r.document_id x;
    snapshots = set s.snapshots (r.document_id, x.revision) snapshot;
    receipts =
        set s.receipts (receipt_key r.document_id r.request_id) (migration_receipt r x snapshot);
  }

  -- A target that has parsed replaces the source.
  unfoldable pub migrate_target :
      PackageRepository
      → MigrationWriteRequest
      → PackageRecord
      → PackageV2
      → PackageV3
      → PackageRepository × WriteResult MigrationReceipt
  migrate_target s r c source target =
      if not (target.id == r.document_id)
      then (s, refused (invalid_package c.revision))
      else elim (core.serialize_v3 target) [
        | none ↦ (s, refused thrown)
        | some q ↦
            let x = migration_record c r target q in
            let snapshot = snapshot_of c source r in
            (with_migration s r x snapshot, written (migration_receipt r x snapshot))
      ]

  unfoldable pub migrate_source :
      PackageRepository
      → MigrationWriteRequest
      → PackageRecord
      → StoredPackage
      → PackageRepository × WriteResult MigrationReceipt
  unfolding migrate_target
  migrate_source s r c (next p) = (s, refused (unsupported_version c.revision))
  migrate_source s r c (active source) = elim (core.parse_v3 r.package_value) [
    | none ↦ (s, refused (invalid_package c.revision))
    | some target ↦ migrate_target s r c source target
  ]

  unfoldable pub migrate_new :
      PackageRepository
      → MigrationWriteRequest
      → Option PackageRecord
      → PackageRepository × WriteResult MigrationReceipt
  unfolding migrate_source
  migrate_new s r none = (s, refused not_found)
  migrate_new s r (some c) =
      if not (c.revision == r.expected_revision)
      then (s, refused (revision_conflict c.revision))
      else migrate_source s r c c.package_value

  unfoldable pub migrate_with :
      PackageRepository
      → MigrationWriteRequest
      → Option MigrationReceipt
      → PackageRepository × WriteResult MigrationReceipt
  unfolding migrate_new
  migrate_with s r (some replay) =
      if same_migration_request replay r
      then (s, idempotent_replay replay)
      else (s, refused (idempotency_conflict replay.stored.revision))
  migrate_with s r none = migrate_new s r (s.records.get r.document_id)

  -- migrate
  unfoldable pub migrate :
      PackageRepository → MigrationWriteRequest → PackageRepository × WriteResult MigrationReceipt
  unfolding migrate_with
  migrate s r = migrate_with s r (s.receipts.get (receipt_key r.document_id r.request_id))
