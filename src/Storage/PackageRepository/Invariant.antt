-- ===== src/Storage/PackageRepository/Invariant.antt =====
-- What every state of the package repository satisfies (storage/packageRepository.ts).
use mathlib.Core.Path.{subst}
use flowdoc_vnext_backend.Common.{
  ◌+◌, String, ◌≡◌, refl, sym, ap, ◌∙◌, none, some, List, [], ◌∷◌, text_eq, pair_eq, number_eq,
}
use flowdoc_vnext_backend.Common.Dict.{set-fits}
use flowdoc_vnext_backend.Storage.Package.{
  PackageV3, StoredPackage, active, next, is_active, package_id, CorePackages, AuthoringContext,
  create_context, advance_context,
}
use flowdoc_vnext_backend.Storage.PackageRepository.{
  PackageRecord, WriteRequest, MigrationWriteRequest, MutationReceipt, MigrationReceipt,
  PackageRepository, receipt_key, advanced, mutation_receipt, migration_record, snapshot_of,
  migration_receipt,
}
use flowdoc_vnext_backend.Storage.PackageRepository.Changes.{
  Call, Advances, Changes, unchanged, writes, mutates, migrates, run_all, after, after-Changes,
}

-- A document of the older pair has no authoring context; one of the newer pair has a context whose
-- three references stand at the revision of the record, with the fields of the package.
abbrev pub ContextFits : StoredPackage → PackageRecord → Type 0
ContextFits (active p) x = x.authoring_context ≡ none
ContextFits (next p) x =
    (c : AuthoringContext) × (x.authoring_context ≡ some c)
    × (c.artifact.revision ≡ x.revision)
    × (c.field_owner ≡ c.artifact)
    × (c.policy_owner ≡ c.artifact)
    × (c.registry ≡ p.fields)

pub record RecordFits (id : String) (x : PackageRecord) : Type 0 where
  pub document : x.document_id ≡ id
  pub identity : package_id x.package_value ≡ id
  pub context : ContextFits x.package_value x

pub record MutationFits (key : String) (m : MutationReceipt) : Type 0 where
  pub key_of : key ≡ receipt_key m.document_id m.request_id
  pub stored : RecordFits m.document_id m.stored
  pub one_on : m.stored.revision ≡ m.base_revision + 1

pub record MigrationFits (key : String) (m : MigrationReceipt) : Type 0 where
  pub key_of : key ≡ receipt_key m.document_id m.request_id
  pub stored : RecordFits m.document_id m.stored
  pub one_on : m.stored.revision ≡ m.base_revision + 1
  pub source : m.snapshot.source_revision ≡ m.base_revision
  pub target : m.snapshot.target_revision ≡ m.stored.revision
  pub snapshot : m.snapshot.package_value.id ≡ m.document_id

pub record IsSound (s : PackageRepository) : Type 0 where
  pub records : (id : String) (x : PackageRecord) → s.records.get id ≡ some x → RecordFits id x
  pub mutations :
      (key : String) (m : MutationReceipt)
      → s.mutation_receipts.get key ≡ some m
      → MutationFits key m
  pub migrations :
      (key : String) (m : MigrationReceipt) → s.receipts.get key ≡ some m → MigrationFits key m

-- The context of the next record of a document.
advance-ContextFits :
    (k made : StoredPackage) (x y : PackageRecord)
    → ContextFits k x
    → is_active k ≡ is_active made
    → y.authoring_context ≡ advance_context x.authoring_context made y.revision
    → ContextFits made y
unfolding advance_context
advance-ContextFits (active p) (active q) x y fits same e = rw fits at e
advance-ContextFits (active p) (next q) x y fits same e = cc same
advance-ContextFits (next p) (active q) x y fits same e = cc same
advance-ContextFits (next p) (next q) x y fits same e =
    let e' = rw fits.1 at e in (_, e', refl, refl, refl, refl)

module _ (core : CorePackages) where
  Advances-RecordFits :
      (c x : PackageRecord) (r : WriteRequest)
      → RecordFits r.document_id c
      → Advances core c r x
      → RecordFits r.document_id x
  Advances-RecordFits c x r fits a = subst (RecordFits r.document_id) (sym a.result) (record {
    document = refl;
    identity = a.id;
    context =
        advance-ContextFits c.package_value a.made c (advanced core c r a.made) fits.context
          a.same_pair refl;
  })

  Advances-one_on :
      (c x : PackageRecord) (r : WriteRequest)
      → Advances core c r x
      → x.revision ≡ r.expected_revision + 1
  Advances-one_on c x r a =
      ap (λ (y : PackageRecord). y.revision) a.result ∙ ap (λ n. n + 1) a.current

  module _
      (keeps : (p q : PackageV3)
        → core.serialize_v3 p ≡ some q
        → (q.id ≡ p.id) × (q.fields ≡ p.fields)) where
    migration-RecordFits :
        (r : MigrationWriteRequest) (c : PackageRecord) (target q : PackageV3)
        → target.id ≡ r.document_id
        → core.serialize_v3 target ≡ some q
        → RecordFits r.document_id (migration_record core c r target q)
    unfolding create_context
    migration-RecordFits r c target q id made =
        let (same_id, same_fields) = keeps target q made in
        record {
          document = refl;
          identity = same_id ∙ id;
          context =
              (create_context target (c.revision + 1), refl, refl, refl, refl, sym same_fields);
        }

    Changes-IsSound : (s s' : PackageRepository) → Changes core s s' → IsSound s → IsSound s'
    Changes-IsSound s _ unchanged h = h
    Changes-IsSound s _ (writes r c x at a) h = record {
      records =
          set-fits RecordFits s.records r.document_id x
            (Advances-RecordFits c x r (h.records r.document_id c at) a) h.records;
      mutations = h.mutations;
      migrations = h.migrations;
    }
    Changes-IsSound s _ (mutates r c x fresh at a) h =
        let fits = Advances-RecordFits c x r.write (h.records r.document_id c at) a in
        record {
          records = set-fits RecordFits s.records r.document_id x fits h.records;
          mutations =
              set-fits MutationFits s.mutation_receipts (receipt_key r.document_id r.request_id)
                (mutation_receipt core r x)
                (record { key_of = refl; stored = fits; one_on = Advances-one_on c x r.write a })
                h.mutations;
          migrations = h.migrations;
        }
    Changes-IsSound s _ (migrates r c source target q fresh at current kind id made) h =
        let fits = migration-RecordFits r c target q id made in
        let x = migration_record core c r target q in
        let old = (h.records r.document_id c at).identity in
        record {
          records = set-fits RecordFits s.records r.document_id x fits h.records;
          mutations = h.mutations;
          migrations =
              set-fits MigrationFits s.receipts (receipt_key r.document_id r.request_id)
                (migration_receipt core r x (snapshot_of core c source r))
                (record {
                  key_of = refl;
                  stored = fits;
                  one_on = ap (λ n. n + 1) current;
                  source = current;
                  target = refl;
                  snapshot = ap package_id (sym kind) ∙ old;
                })
                h.migrations;
        }

    -- If Core's serialization keeps the id and the fields of a package, then from a sound state any
    -- calls lead to a sound state: each document is stored under its id, with a package of that id and,
    -- exactly in the newer version pair, an authoring context at its revision with its fields; and each
    -- receipt stands under its document and request, with a record one revision on from its base, and
    -- that of a migration with the package from before it.
    pub run_all-IsSound :
        (cs : List Call) (s : PackageRepository) → IsSound s → IsSound (run_all core s cs)
    unfolding run_all
    run_all-IsSound [] s h = h
    run_all-IsSound (c ∷ cs) s h =
        run_all-IsSound cs (after core s c)
          (Changes-IsSound s (after core s c) (after-Changes core s c) h)
