-- ===== src/Examples/Packages.antt =====
-- The package repository, with one document that is edited and migrated.

use flowdoc_vnext_backend.Common.{
  String, none, some, ◌≡◌, ◌≢◌, refl, sym, ap, List, [], ◌∷◌, text_eq,
}
use flowdoc_vnext_backend.Common.Dict
use flowdoc_vnext_backend.Common.Dict.{set, set-fits}
use flowdoc_vnext_backend.Storage.Package.{PackageV3, StoredPackage, active, CorePackages}
use flowdoc_vnext_backend.Storage.PackageRepository.{
  with_mutation, MigrationReceipt, migration_receipt, migration_record, snapshot_of, PackageRecord,
  MutationWriteRequest, MigrationWriteRequest, MutationReceipt, PackageRepository, written,
  advanced, mutation_receipt, write_mutation, next_record, normalize,
}
use flowdoc_vnext_backend.Storage.PackageRepository.Changes.{
  Call, mutation_call, migration_call, run_all,
}
use flowdoc_vnext_backend.Storage.PackageRepository.Invariant.{RecordFits, IsSound, run_all-IsSound}
use flowdoc_vnext_backend.Storage.PackageRepository.Replays.{Settled, written-Settled, base-spent}

-- A Core that takes every package as it is.
abbrev pub core : CorePackages
core = record { serialize_v2 = λ p. some p; parse_v3 = λ p. some p; serialize_v3 = λ p. some p }

core_keeps :
    (p q : PackageV3) → core.serialize_v3 p ≡ some q → (q.id ≡ p.id) × (q.fields ≡ p.fields)
core_keeps p q e =
    let one : p ≡ q = cc e in
    (ap (λ (x : PackageV3). x.id) (sym one), ap (λ (x : PackageV3). x.fields) (sym one))

abbrev pub package_of : String → StoredPackage
package_of text = active (record { id = "doc"; carried = text })

abbrev first : PackageRecord
first = record {
  authoring_context = none;
  document_id = "doc";
  package_value = package_of "draft";
  revision = 4;
  updated_at = 0;
}

abbrev pub store : PackageRepository
store = record {
  records = set Dict.empty "doc" first;
  receipts = Dict.empty;
  mutation_receipts = Dict.empty;
  snapshots = Dict.empty;
}

abbrev pub edit : String → MutationWriteRequest
edit text = record {
  write = record {
    document_id = "doc";
    expected_revision = 4;
    package_value = package_of text;
    updated_at = 10;
  };
  core = "";
  operation_kind = "node.delete";
  request_fingerprint = text;
  request_id = "r-1";
  target_node_ids = [];
}

abbrev migration : MigrationWriteRequest
migration = record {
  change_count = 1;
  document_id = "doc";
  expected_revision = 5;
  package_value = record { id = "doc"; fields = "f"; carried = "edited" };
  request_id = "r-2";
  request_fingerprint = "m";
  summary = "";
  updated_at = 20;
}

abbrev calls : List Call
calls = mutation_call (edit "edited") ∷ migration_call migration ∷ []

store-IsSound : IsSound store
unfolding set
store-IsSound = record {
  records =
      set-fits RecordFits Dict.empty "doc" first
        (record { document = refl; identity = refl; context = refl }) (λ j w e. cc e);
  mutations = λ k m e. cc e;
  migrations = λ k m e. cc e;
}

run_all-IsSound_example : IsSound (run_all core store calls)
run_all-IsSound_example = run_all-IsSound core core_keeps calls store store-IsSound

abbrev receipt : MutationReceipt
receipt =
    mutation_receipt core (edit "edited")
      (advanced core first (edit "edited").write (package_of "edited"))

edited : (write_mutation core store (edit "edited")).1 ≡ written receipt
unfolding write_mutation next_record normalize set
edited = refl

written-Settled_example :
    Settled core
      (run_all core (write_mutation core store (edit "edited")).0 (migration_call migration ∷ []))
      (edit "edited")
      receipt
written-Settled_example =
    written-Settled core store (edit "edited") receipt (migration_call migration ∷ []) edited

base-spent_example :
    (write_mutation core
      (run_all core (write_mutation core store (edit "edited")).0 (migration_call migration ∷ []))
      (edit "other")).1
    ≢ written receipt
base-spent_example =
    base-spent core store (edit "edited") (edit "other") receipt receipt
      (migration_call migration ∷ []) edited refl refl

-- The document once it is edited, and the receipt of its migration.
abbrev edited_store : PackageRepository
edited_store = with_mutation core store (edit "edited") receipt.stored

abbrev migrated : MigrationReceipt
migrated =
    let target : PackageV3 = record { id = "doc"; fields = "f"; carried = "edited" } in
    migration_receipt core migration (migration_record core receipt.stored migration target target)
      (snapshot_of core receipt.stored (record { id = "doc"; carried = "edited" }) migration)
