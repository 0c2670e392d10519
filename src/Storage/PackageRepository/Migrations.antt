-- ===== src/Storage/PackageRepository/Migrations.antt =====
-- A document is migrated once (storage/packageRepository.ts).

use flowdoc_vnext_backend.Common.{
  ◌≤◌, ◌≡◌, ◌≢◌, false, some, text_eq, number_eq, pair_eq, if◌then◌else◌,
}
use flowdoc_vnext_backend.Storage.Package.{PackageV2, PackageV3, active, is_active, CorePackages}
use flowdoc_vnext_backend.Storage.PackageRepository.{
  PackageRecord, MigrationWriteRequest, MigrationReceipt, written, idempotent_replay, refused,
  idempotency_conflict, PackageRepository, same_migration_request, read, read_migration_receipt,
  migration_record, snapshot_of, migration_receipt, with_migration, migrate,
}

module _ (core : CorePackages) where
  -- A migration that was written: of a record of the older pair.
  record Migrated (s : PackageRepository) (r : MigrationWriteRequest) (m : MigrationReceipt)
      (s' : PackageRepository) : Type 0 where
    before : PackageRecord
    target : PackageV3
    serialized : PackageV3
    source : PackageV2
    held : s.records.get r.document_id ≡ some before
    older : before.package_value ≡ active source
    receipt :
        m
        ≡ migration_receipt core r
            (migration_record core before r target serialized)
            (snapshot_of core before source r)
    writes :
        s'
        ≡ with_migration core s r
            (migration_record core before r target serialized)
            (snapshot_of core before source r)

  -- What a written migration is to all later requests.
  pub record SettledMigration (s u : PackageRepository) (r : MigrationWriteRequest)
      (m : MigrationReceipt) : Type 0 where
    pub repeats : migrate core u r ≡ (
      u,
      if same_migration_request core m r
          then idempotent_replay m
          else refused (idempotency_conflict m.stored.revision),
    )
    pub reads : read_migration_receipt u r.document_id r.request_id ≡ some m
    pub source :
        (c : PackageRecord) × (read s r.document_id ≡ some c)
        × (c.package_value ≡ active m.snapshot.package_value)
    pub stays :
        (c : PackageRecord) × (read u r.document_id ≡ some c)
        × (is_active c.package_value ≡ false)
        × (m.stored.revision ≤ c.revision)
    pub once :
        (other : MigrationWriteRequest) (m' : MigrationReceipt)
        → other.document_id ≡ r.document_id
        → (migrate core u other).1 ≢ written m'
