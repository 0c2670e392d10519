-- ===== src/Storage/PackageRepository/Replays.antt =====
-- A mutation is written once (storage/packageRepository.ts): its receipt replays for ever, its request
-- id is taken for its document, and the revision that it was written at is spent.
use mathlib.Core.Path.{subst}
use text.Mathlib.TextEquality.{eq_iff}
use flowdoc_vnext_backend.Common.{
  ◌≤◌, String, ◌≡◌, ◌≢◌, refl, sym, ap, ◌∙◌, ◌⊎◌, inl, inr, true, false, Option, none, some, List,
  [], ◌∷◌, ◌==◌, text_eq, number_eq, pair_eq, beq_refl, arith, Bool-cases,
}
use flowdoc_vnext_backend.Common.Dict.{Dict, set, get-set_self, get-set_fresh}
use flowdoc_vnext_backend.Storage.Package.{is_active, CorePackages}
use flowdoc_vnext_backend.Storage.PackageRepository.{
  PackageRecord, WriteRequest, MutationWriteRequest, MutationReceipt, MigrationReceipt, Refusal,
  written, idempotent_replay, refused, idempotency_conflict, PackageRepository, receipt_key,
  read_mutation_receipt, next_record, with_mutation, mutation_receipt, mutate_new, mutate_with,
  write_mutation, migration_record,
}
use flowdoc_vnext_backend.Storage.PackageRepository.Changes.{
  Call, Advances, Changes, unchanged, writes, mutates, migrates, run_all, after, after-Changes,
  next_record-cases,
}

-- A later record of a document: at no earlier revision, and never back in the older version pair.
abbrev pub IsLater : PackageRecord → PackageRecord → Type 0
IsLater x y =
    (x.revision ≤ y.revision)
    × (is_active x.package_value ≡ false → is_active y.package_value ≡ false)

pub record Keeps (s s' : PackageRepository) : Type 0 where
  pub records :
      (id : String) (x : PackageRecord)
      → s.records.get id ≡ some x
      → (y : PackageRecord) × (s'.records.get id ≡ some y) × IsLater x y
  pub mutations :
      (key : String) (m : MutationReceipt)
      → s.mutation_receipts.get key ≡ some m
      → s'.mutation_receipts.get key ≡ some m
  pub migrations :
      (key : String) (m : MigrationReceipt)
      → s.receipts.get key ≡ some m
      → s'.receipts.get key ≡ some m

set-IsLater :
    (d : Dict String PackageRecord) (k : String) (c y : PackageRecord)
    → d.get k ≡ some c
    → IsLater c y
    → (id : String) (x : PackageRecord) → d.get id ≡ some x
    → (z : PackageRecord) × ((set d k y).get id ≡ some z) × IsLater x z
unfolding set
set-IsLater d k c y at later id x e = elim (Bool-cases (id == k)) [
  | inl same ↦
      let at_k = ap d.get ((eq_iff id k).0 same) in
      let one : c ≡ x = cc (at_k, at, e) in (y, rw same refl, subst (λ w. IsLater w y) one later)
  | inr other ↦ (x, rw other e, (omega arith, λ h. h))
]

module _ (core : CorePackages) where
  Advances-IsLater : (c x : PackageRecord) (r : WriteRequest) → Advances core c r x → IsLater c x
  Advances-IsLater c x r a =
      subst (IsLater c) (sym a.result) (omega arith, λ h. sym a.same_pair ∙ h)

  Changes-Keeps : (s s' : PackageRepository) → Changes core s s' → Keeps s s'
  Changes-Keeps s _ unchanged = record {
    records = λ id x e. (x, e, (omega arith, λ h. h));
    mutations = λ k m e. e;
    migrations = λ k m e. e;
  }
  Changes-Keeps s _ (writes r c x at a) = record {
    records = set-IsLater s.records r.document_id c x at (Advances-IsLater c x r a);
    mutations = λ k m e. e;
    migrations = λ k m e. e;
  }
  Changes-Keeps s _ (mutates r c x fresh at a) = record {
    records = set-IsLater s.records r.document_id c x at (Advances-IsLater c x r.write a);
    mutations = λ k m e. get-set_fresh s.mutation_receipts _ _ k fresh e;
    migrations = λ k m e. e;
  }
  Changes-Keeps s _ (migrates r c source target q fresh at current kind id made) = record {
    records =
        set-IsLater s.records r.document_id c (migration_record core c r target q) at
          (omega arith, λ h. refl);
    mutations = λ k m e. e;
    migrations = λ k m e. get-set_fresh s.receipts _ _ k fresh e;
  }

  -- Whatever calls follow, no receipt is lost or changed, and each document stays stored, at a revision
  -- that never falls and, once migrated, in the newer version pair.
  pub run_all-Keeps : (cs : List Call) (s : PackageRepository) → Keeps s (run_all core s cs)
  unfolding run_all
  run_all-Keeps [] s = Changes-Keeps s s unchanged
  run_all-Keeps (c ∷ cs) s =
      let one = Changes-Keeps s (after core s c) (after-Changes core s c) in
      let rest = run_all-Keeps cs (after core s c) in
      record {
        records = λ id x e.
            let (y, ey, ly) = one.records id x e in
            let (z, ez, lz) = rest.records id y ey in
            (z, ez, (omega (arith, ly.0, lz.0), λ h. lz.1 (ly.1 h)));
        mutations = λ k m e. rest.mutations k m (one.mutations k m e);
        migrations = λ k m e. rest.migrations k m (one.migrations k m e);
      }

  -- A mutation that was written.
  pub record Written (s : PackageRepository) (r : MutationWriteRequest) (m : MutationReceipt)
      (s' : PackageRepository) : Type 0 where
    pub before : PackageRecord
    pub held : s.records.get r.document_id ≡ some before
    pub stored : PackageRecord
    pub advances : Advances core before r.write stored
    pub receipt : m ≡ mutation_receipt core r stored
    pub writes : s' ≡ with_mutation core s r stored

  new-Written :
      (s : PackageRepository) (r : MutationWriteRequest) (m : MutationReceipt)
      (o : Refusal ⊎ PackageRecord)
      → (mutate_new core s r o).1 ≡ written m
      → (x : PackageRecord) × (o ≡ inr x)
        × (m ≡ mutation_receipt core r x)
        × ((mutate_new core s r o).0 ≡ with_mutation core s r x)
  unfolding mutate_new
  new-Written s r m (inl e) w = cc w
  new-Written s r m (inr x) w = (x, refl, cc w, refl)

  replay-not_written :
      (s : PackageRepository) (r : MutationWriteRequest) (m replay : MutationReceipt)
      → (mutate_with core s r (some replay)).1 ≢ written m
  unfolding mutate_with
  replay-not_written s r m replay w = ground arith

  mutate-Written :
      (s : PackageRepository) (r : MutationWriteRequest) (m : MutationReceipt)
      (o : Option MutationReceipt)
      → (mutate_with core s r o).1 ≡ written m
      → Written s r m (mutate_with core s r o).0
  unfolding mutate_with
  mutate-Written s r m (some replay) w = absurd (replay-not_written s r m replay w)
  mutate-Written s r m none w =
      let (x, at, receipt, wrote) =
        new-Written s r m (next_record core (s.records.get r.document_id) r.write) w in
      elim (next_record-cases core (s.records.get r.document_id) r.write) [
        | inl (e, f) ↦ cc (at, f)
        | inr (c, y, held, f, a) ↦ record {
          before = c;
          held = held;
          stored = x;
          advances = subst (Advances core c r.write) (cc (f, at)) a;
          receipt = receipt;
          writes = wrote;
        }
      ]

  pub write_mutation-Written :
      (s : PackageRepository) (r : MutationWriteRequest) (m : MutationReceipt)
      → (write_mutation core s r).1 ≡ written m
      → Written s r m (write_mutation core s r).0
  unfolding write_mutation
  write_mutation-Written s r m w =
      mutate-Written s r m (s.mutation_receipts.get (receipt_key r.document_id r.request_id)) w

  -- What a written mutation is to all later requests.
  pub record Settled (u : PackageRepository) (r : MutationWriteRequest) (m : MutationReceipt)
      : Type 0 where
    pub replays : write_mutation core u r ≡ (u, idempotent_replay m)
    pub reads : read_mutation_receipt u r.document_id r.request_id ≡ some m
    pub conflicts :
        (other : MutationWriteRequest)
        → receipt_key other.document_id other.request_id ≡ receipt_key r.document_id r.request_id
        → (r.request_fingerprint == other.request_fingerprint) ≡ false
        → write_mutation core u other ≡ (u, refused (idempotency_conflict m.stored.revision))

  with_replay :
      (u : PackageRepository) (r : MutationWriteRequest) (m : MutationReceipt)
      → u.mutation_receipts.get (receipt_key r.document_id r.request_id) ≡ some m
      → write_mutation core u r ≡ mutate_with core u r (some m)
  unfolding write_mutation
  with_replay u r m e = ap (mutate_with core u r) e

  same-replays :
      (u : PackageRepository) (r : MutationWriteRequest) (m : MutationReceipt)
      → (m.request_fingerprint == r.request_fingerprint) ≡ true
      → mutate_with core u r (some m) ≡ (u, idempotent_replay m)
  unfolding mutate_with
  same-replays u r m e = rw (e, mutate_with) refl

  other-conflicts :
      (u : PackageRepository) (r : MutationWriteRequest) (m : MutationReceipt)
      → (m.request_fingerprint == r.request_fingerprint) ≡ false
      → mutate_with core u r (some m) ≡ (u, refused (idempotency_conflict m.stored.revision))
  unfolding mutate_with
  other-conflicts u r m e = rw (e, mutate_with) refl

  kept-Settled :
      (u : PackageRepository) (r : MutationWriteRequest) (m : MutationReceipt)
      → m.request_fingerprint ≡ r.request_fingerprint
      → u.mutation_receipts.get (receipt_key r.document_id r.request_id) ≡ some m
      → Settled u r m
  kept-Settled u r m same e = record {
    replays = with_replay u r m e ∙ same-replays u r m (rw same (beq_refl r.request_fingerprint));
    reads = e;
    conflicts = λ other key differ.
        with_replay u other m (ap u.mutation_receipts.get key ∙ e)
        ∙ other-conflicts u other m (rw same differ);
  }

  -- Once a mutation is written, and after any later calls, the same request gets its receipt as a
  -- replay and changes nothing, the receipt reads back, and another mutation whose document and request
  -- ids join with a colon to the same text, with another fingerprint, is refused as a conflict and
  -- changes nothing.
  pub written-Settled :
      (s : PackageRepository) (r : MutationWriteRequest) (m : MutationReceipt) (cs : List Call)
      → (write_mutation core s r).1 ≡ written m
      → Settled (run_all core (write_mutation core s r).0 cs) r m
  written-Settled s r m cs w =
      let x = write_mutation-Written s r m w in
      let s' = (write_mutation core s r).0 in
      let key = receipt_key r.document_id r.request_id in
      let e : s'.mutation_receipts.get key ≡ some m =
        ap (λ (z : PackageRepository). z.mutation_receipts.get key) x.writes
        ∙ get-set_self s.mutation_receipts key (mutation_receipt core r x.stored)
        ∙ ap (λ z. some z) (sym x.receipt) in
      kept-Settled (run_all core s' cs) r m
        (ap (λ (z : MutationReceipt). z.request_fingerprint) x.receipt)
        ((run_all-Keeps cs s').mutations key m e)

  -- Once a mutation is written, and after any later calls, no other mutation of the document is written
  -- at the revision that it was written at.
  pub base-spent :
      (s : PackageRepository) (r other : MutationWriteRequest) (m m' : MutationReceipt)
      (cs : List Call)
      → (write_mutation core s r).1 ≡ written m
      → other.document_id ≡ r.document_id
      → other.expected_revision ≡ r.expected_revision
      → (write_mutation core (run_all core (write_mutation core s r).0 cs) other).1 ≢ written m'
  base-spent s r other m m' cs w d expects w' =
      let x = write_mutation-Written s r m w in
      let s' = (write_mutation core s r).0 in
      let u = run_all core s' cs in
      let y = write_mutation-Written u other m' w' in
      let e : s'.records.get r.document_id ≡ some x.stored =
        ap (λ (z : PackageRepository). z.records.get r.document_id) x.writes
        ∙ get-set_self s.records r.document_id x.stored in
      let (z, at, later) = (run_all-Keeps cs s').records r.document_id x.stored e in
      let one : z ≡ y.before = cc (at, ap u.records.get d, y.held) in
      let old = ap (λ (p : PackageRecord). p.revision) x.advances.result in
      let now = ap (λ (p : PackageRecord). p.revision) one in
      absurd (omega (arith, later.0, old, now, x.advances.current, y.advances.current))
