-- ===== src/Storage/PackageRepository/Changes.antt =====
-- What a call of the package repository may do to its state (storage/packageRepository.ts).

use text.Mathlib.TextEquality.{eq_iff}
use flowdoc_vnext_backend.Common.{
  ◌≡◌, refl, ◌⊎◌, inl, inr, Option, none, some, List, [], ◌∷◌, ◌==◌, text_eq, number_eq, arith,
  Bool-cases, Option-cases,
}
use flowdoc_vnext_backend.Storage.Package.{
  PackageV2, PackageV3, StoredPackage, active, next, is_active, package_id, CorePackages,
}
use flowdoc_vnext_backend.Storage.PackageRepository.{
  PackageRecord, WriteRequest, MutationWriteRequest, MigrationWriteRequest, MutationReceipt,
  MigrationReceipt, Refusal, not_found, PackageRepository, receipt_key, same_migration_request,
  normalize, advanced, next_record, with_record, write_record, write, with_mutation, mutate_new,
  mutate_with, write_mutation, migration_record, snapshot_of, with_migration, migrate_target,
  migrate_source, migrate_new, migrate_with, migrate,
}

-- The calls that may change the state.
pub data Call : Type 0 where
  write_call : WriteRequest → Call
  mutation_call : MutationWriteRequest → Call
  migration_call : MigrationWriteRequest → Call

outcome-cases :
    (o : Refusal ⊎ PackageRecord)
    → ((e : Refusal) × (o ≡ inl e)) ⊎ ((x : PackageRecord) × (o ≡ inr x))
outcome-cases (inl e) = inl (e, refl)
outcome-cases (inr x) = inr (x, refl)

module _ (core : CorePackages) where
  -- The record that a write at the current revision makes of a package that Core made.
  pub record Advances (c : PackageRecord) (r : WriteRequest) (x : PackageRecord) : Type 0 where
    pub current : c.revision ≡ r.expected_revision
    pub made : StoredPackage
    pub result : x ≡ advanced core c r made
    pub same_pair : is_active c.package_value ≡ is_active made
    pub id : package_id made ≡ r.document_id

  normalize-is_active :
      (p q : StoredPackage) → normalize core p ≡ some q → is_active p ≡ is_active q
  unfolding normalize
  normalize-is_active (active p) q e = ground arith
  normalize-is_active (next p) q e = ground arith

  next_record-Advances :
      (c : PackageRecord) (r : WriteRequest) (x : PackageRecord)
      → next_record core (some c) r ≡ inr x
      → Advances c r x
  unfolding next_record
  next_record-Advances c r x e = elim (Option-cases (normalize core r.package_value)) [
    | inl bad ↦ ground arith
    | inr (p, made) ↦ record {
      current = ground arith;
      made = p;
      result = ground arith;
      same_pair = ground (arith, normalize-is_active r.package_value p made);
      id = ground (arith, eq_iff (package_id p) r.document_id);
    }
  ]

  -- What one call does.
  pub data Changes (s : PackageRepository) : PackageRepository → Type 0 where
    unchanged : Changes s s
    writes :
        (r : WriteRequest) (c x : PackageRecord)
        → s.records.get r.document_id ≡ some c
        → Advances c r x
        → Changes s (with_record core s r.document_id x)
    mutates :
        (r : MutationWriteRequest) (c x : PackageRecord)
        → s.mutation_receipts.get (receipt_key r.document_id r.request_id) ≡ none
        → s.records.get r.document_id ≡ some c
        → Advances c r.write x
        → Changes s (with_mutation core s r x)
    migrates :
        (r : MigrationWriteRequest) (c : PackageRecord) (source : PackageV2) (target q : PackageV3)
        → s.receipts.get (receipt_key r.document_id r.request_id) ≡ none
        → s.records.get r.document_id ≡ some c
        → c.revision ≡ r.expected_revision
        → c.package_value ≡ active source
        → target.id ≡ r.document_id
        → core.serialize_v3 target ≡ some q
        → Changes s (
            with_migration core s r
              (migration_record core c r target q)
              (snapshot_of core c source r))

  pub next_record-cases :
      (o : Option PackageRecord) (r : WriteRequest)
      → ((e : Refusal) × (next_record core o r ≡ inl e))
        ⊎ ((c x : PackageRecord) × (o ≡ some c) × (next_record core o r ≡ inr x) × Advances c r x)
  unfolding next_record
  next_record-cases none r = inl (not_found, refl)
  next_record-cases (some c) r = elim (outcome-cases (next_record core (some c) r)) [
    | inl (e, f) ↦ inl (e, f)
    | inr (x, f) ↦ inr (c, x, refl, f, next_record-Advances c r x f)
  ]

  write-Changes : (s : PackageRepository) (r : WriteRequest) → Changes s (write core s r).0
  unfolding write write_record
  write-Changes s r = elim (next_record-cases (s.records.get r.document_id) r) [
    | inl (e, f) ↦ rw (f, write) unchanged
    | inr (c, x, at, f, a) ↦ rw (f, write) (writes r c x at a)
  ]

  mutate-Changes :
      (s : PackageRepository) (r : MutationWriteRequest) (o : Option MutationReceipt)
      → s.mutation_receipts.get (receipt_key r.document_id r.request_id) ≡ o
      → Changes s (mutate_with core s r o).0
  unfolding mutate_with mutate_new
  mutate-Changes s r (some replay) fresh =
      elim (Bool-cases (replay.request_fingerprint == r.request_fingerprint)) [
        | inl e ↦ rw (e, mutate_with) unchanged
        | inr e ↦ rw (e, mutate_with) unchanged
      ]
  mutate-Changes s r none fresh = elim (next_record-cases (s.records.get r.document_id) r.write) [
    | inl (e, f) ↦ rw (f, mutate_with) unchanged
    | inr (c, x, at, f, a) ↦ rw (f, mutate_with) (mutates r c x fresh at a)
  ]

  module _ (s : PackageRepository) (r : MigrationWriteRequest)
      (fresh : s.receipts.get (receipt_key r.document_id r.request_id) ≡ none) where
    target-Changes :
        (c : PackageRecord) (source : PackageV2) (target : PackageV3)
        → s.records.get r.document_id ≡ some c
        → c.revision ≡ r.expected_revision
        → c.package_value ≡ active source
        → Changes s (migrate_target core s r c source target).0
    unfolding migrate_target
    target-Changes c source target at current kind =
        elim (Bool-cases (target.id == r.document_id)) [
          | inr e ↦ rw (e, migrate_target) unchanged
          | inl e ↦ elim (Option-cases (core.serialize_v3 target)) [
            | inl t ↦ rw (e, t, migrate_target) unchanged
            | inr (q, t) ↦
                rw (e, t, migrate_target)
                  (migrates r c source target q fresh at current kind
                    ((eq_iff target.id r.document_id).0 e) t)
          ]
        ]

    source-Changes :
        (c : PackageRecord) (p : StoredPackage)
        → s.records.get r.document_id ≡ some c
        → c.revision ≡ r.expected_revision
        → c.package_value ≡ p
        → Changes s (migrate_source core s r c p).0
    unfolding migrate_source
    source-Changes c (next p) at current kind = unchanged
    source-Changes c (active source) at current kind =
        elim (Option-cases (core.parse_v3 r.package_value)) [
          | inl e ↦ rw (e, migrate_source) unchanged
          | inr (target, e) ↦
              rw (e, migrate_source) (target-Changes c source target at current kind)
        ]

    new-Changes :
        (o : Option PackageRecord)
        → s.records.get r.document_id ≡ o
        → Changes s (migrate_new core s r o).0
    unfolding migrate_new
    new-Changes none at = unchanged
    new-Changes (some c) at = elim (Bool-cases (c.revision == r.expected_revision)) [
      | inr e ↦ rw (e, migrate_new) unchanged
      | inl e ↦ rw (e, migrate_new) (source-Changes c c.package_value at (ground arith) refl)
    ]

  migrate-Changes :
      (s : PackageRepository) (r : MigrationWriteRequest) (o : Option MigrationReceipt)
      → s.receipts.get (receipt_key r.document_id r.request_id) ≡ o
      → Changes s (migrate_with core s r o).0
  unfolding migrate_with
  migrate-Changes s r none fresh = new-Changes s r fresh (s.records.get r.document_id) refl
  migrate-Changes s r (some replay) fresh =
      elim (Bool-cases (same_migration_request core replay r)) [
        | inl e ↦ rw (e, migrate_with) unchanged
        | inr e ↦ rw (e, migrate_with) unchanged
      ]

  unfoldable pub after : PackageRepository → Call → PackageRepository
  after s (write_call r) = (write core s r).0
  after s (mutation_call r) = (write_mutation core s r).0
  after s (migration_call r) = (migrate core s r).0

  unfoldable pub run_all : PackageRepository → List Call → PackageRepository
  unfolding after
  run_all s [] = s
  run_all s (c ∷ cs) = run_all (after s c) cs

  pub after-Changes : (s : PackageRepository) (c : Call) → Changes s (after s c)
  unfolding after write_mutation migrate
  after-Changes s (write_call r) = write-Changes s r
  after-Changes s (mutation_call r) =
      mutate-Changes s r (s.mutation_receipts.get (receipt_key r.document_id r.request_id)) refl
  after-Changes s (migration_call r) =
      migrate-Changes s r (s.receipts.get (receipt_key r.document_id r.request_id)) refl
