-- ===== src/Composition/Repository/Keeping.antt =====
-- What no call of the composition repository loses (composition/compositionSchedulerRepository.ts).
use mathlib.Core.Path.{subst}
use text.Mathlib.TextEquality.{eq_iff}
use flowdoc_vnext_backend.Common.{
  ◌≤◌, ◌<◌, String, ◌≡◌, refl, sym, ap, ◌∙◌, ◌⊎◌, inl, inr, true, Option, none, some, List, [], ◌∷◌,
  ◌==◌, text_eq, arith, Bool-cases,
}
use flowdoc_vnext_backend.Common.Dict.{Dict, set, get-set_fresh}
use flowdoc_vnext_backend.PdfExport.Issue.{Digest}
use flowdoc_vnext_backend.Composition.Core.{Manifest, CompositionCore}
use flowdoc_vnext_backend.Composition.SourcePin.{ContentRef, PinFacts, SourcePin}
use flowdoc_vnext_backend.Composition.JobHead.{JobFacts, JobHead}
use flowdoc_vnext_backend.Composition.JobHead.Validity.{Holds}
use flowdoc_vnext_backend.Composition.Transition.{ReceiptFacts}
use flowdoc_vnext_backend.Composition.Repository.{
  StoredValue, Immutable, StoredHead, StoredRequest, StoredFinalization, Repository, pair_key,
  is_terminal, CommittedRequest, CommittedFinalization, CasInput, CreateInput, PutResult,
  CreateResult, CasResult,
}
use flowdoc_vnext_backend.Composition.Repository.Swap.{
  swapped, with_request, with_finalization, Call, put_call, create_call, swap_call, after, run_all,
}
use flowdoc_vnext_backend.Composition.Repository.Changes.{
  Advances, with_immutable, with_head, Puts, put_immutable-cases, Creates, create_head-cases,
}
use flowdoc_vnext_backend.Composition.Repository.Commits.{Commits, compare_and_swap-cases}

-- The same job at a later time: with the same context and creation, at no earlier revision or
-- transition, with another head only at a higher revision, and with the same if it was terminal.
pub record IsLater (x y : StoredHead) : Type 0 where
  pub pin : y.pin ≡ x.pin
  pub manifest : y.manifest ≡ x.manifest
  pub create_id : y.create_request_id ≡ x.create_request_id
  pub create_fingerprint : y.create_request_fingerprint ≡ x.create_request_fingerprint
  pub transitions : x.head.transition_number ≤ y.head.transition_number
  pub moved : (y.head ≡ x.head) ⊎ (x.head.head_revision < y.head.head_revision)
  pub ended : is_terminal x.head.status ≡ true → y.head ≡ x.head

pub IsLater-self : (x : StoredHead) → IsLater x x
IsLater-self x = record {
  pin = refl;
  manifest = refl;
  create_id = refl;
  create_fingerprint = refl;
  transitions = omega arith;
  moved = inl refl;
  ended = λ t. refl;
}

moved_trans :
    (x y z : JobHead)
    → ((y ≡ x) ⊎ (x.head_revision < y.head_revision))
    → ((z ≡ y) ⊎ (y.head_revision < z.head_revision))
    → (z ≡ x) ⊎ (x.head_revision < z.head_revision)
moved_trans x y z (inl e) (inl f) = inl (f ∙ e)
moved_trans x y z (inl e) (inr f) = inr (subst (λ w. w.head_revision < z.head_revision) e f)
moved_trans x y z (inr e) (inl f) = inr (subst (λ w. x.head_revision < w.head_revision) (sym f) e)
moved_trans x y z (inr e) (inr f) = inr (omega arith)

IsLater-trans : (x y z : StoredHead) → IsLater x y → IsLater y z → IsLater x z
IsLater-trans x y z a b = record {
  pin = b.pin ∙ a.pin;
  manifest = b.manifest ∙ a.manifest;
  create_id = b.create_id ∙ a.create_id;
  create_fingerprint = b.create_fingerprint ∙ a.create_fingerprint;
  transitions = omega (arith, a.transitions, b.transitions);
  moved = moved_trans x.head y.head z.head a.moved b.moved;
  ended = λ t.
      let same = a.ended t in b.ended (ap (λ (w : JobHead). is_terminal w.status) same ∙ t) ∙ same;
}

pub Advances-IsLater :
    (x : StoredHead) (h : JobHead) → Advances x.head h → IsLater x (record x { head = h })
Advances-IsLater x h a = record {
  pin = refl;
  manifest = refl;
  create_id = refl;
  create_fingerprint = refl;
  transitions = a.not_back;
  moved = inr (omega (arith, a.revision));
  ended = λ t. cc (t, a.live);
}

pub record Keeps (s s' : Repository) : Type 0 where
  pub immutable :
      (key : String) (i : Immutable) → s.immutable.get key ≡ some i → s'.immutable.get key ≡ some i
  pub fingerprints :
      (key : String) (owner : String)
      → s.fingerprints.get key ≡ some owner
      → s'.fingerprints.get key ≡ some owner
  pub heads :
      (job : String) (x : StoredHead)
      → s.heads.get job ≡ some x
      → (y : StoredHead) × (s'.heads.get job ≡ some y) × IsLater x y
  pub requests :
      (key : String) (q : StoredRequest)
      → s.requests.get key ≡ some q
      → s'.requests.get key ≡ some q
  pub finalizations :
      (key : String) (q : StoredFinalization)
      → s.finalizations.get key ≡ some q
      → s'.finalizations.get key ≡ some q

pub Keeps-self : (s : Repository) → Keeps s s
Keeps-self s = record {
  immutable = λ k i e. e;
  fingerprints = λ k i e. e;
  heads = λ job x e. (x, e, IsLater-self x);
  requests = λ k q e. e;
  finalizations = λ k q e. e;
}

pub Keeps-trans : (s t u : Repository) → Keeps s t → Keeps t u → Keeps s u
Keeps-trans s t u a b = record {
  immutable = λ k i e. b.immutable k i (a.immutable k i e);
  fingerprints = λ k i e. b.fingerprints k i (a.fingerprints k i e);
  heads = λ job x e.
      let (y, at_y, later_y) = a.heads job x e in
      let (z, at_z, later_z) = b.heads job y at_y in (z, at_z, IsLater-trans x y z later_y later_z);
  requests = λ k q e. b.requests k q (a.requests k q e);
  finalizations = λ k q e. b.finalizations k q (a.finalizations k q e);
}

-- A write of the value that is there, or where there is none, loses nothing.
pub set-same :
    (d : Dict String String) (k v : String)
    → ((w : String) → d.get k ≡ some w → w ≡ v)
    → (j w : String) → d.get j ≡ some w
    → (set d k v).get j ≡ some w
unfolding set
set-same d k v only j w e = elim (Bool-cases (j == k)) [
  | inl t ↦
      let at_k : d.get k ≡ some w = ap d.get (sym ((eq_iff j k).0 t)) ∙ e in
      rw t (ap (λ (z : String). some z) (sym (only w at_k)))
  | inr t ↦ rw t e
]

-- A later record in place of one.
pub set-IsLater :
    (d : Dict String StoredHead) (k : String) (x y : StoredHead)
    → d.get k ≡ some x
    → IsLater x y
    → (job : String) (z : StoredHead) → d.get job ≡ some z
    → (w : StoredHead) × ((set d k y).get job ≡ some w) × IsLater z w
unfolding set
set-IsLater d k x y at later job z e = elim (Bool-cases (job == k)) [
  | inl t ↦
      let at_k = ap d.get ((eq_iff job k).0 t) in
      let one : x ≡ z = cc (at_k, at, e) in (y, rw t refl, subst (λ w. IsLater w y) one later)
  | inr t ↦ (z, rw t e, IsLater-self z)
]

with_request-keeps :
    (s : Repository) (r : CasInput) (h : JobHead) (o : Option CommittedRequest)
    → Holds (λ (q : CommittedRequest). s.requests.get (pair_key r.job_id q.request_id) ≡ none) o
    → (key : String) (q : StoredRequest) → s.requests.get key ≡ some q
    → (with_request s r h o).get key ≡ some q
with_request-keeps s r h none fresh key q e = e
with_request-keeps s r h (some c) fresh key q e = get-set_fresh s.requests _ _ key fresh e

with_finalization-keeps :
    (s : Repository) (r : CasInput) (h : JobHead) (o : Option CommittedFinalization)
    → Holds
        (λ (q : CommittedFinalization). s.finalizations.get (pair_key r.job_id q.request_id) ≡ none)
        o
    → (key : String) (q : StoredFinalization) → s.finalizations.get key ≡ some q
    → (with_finalization s r h o).get key ≡ some q
with_finalization-keeps s r h none fresh key q e = e
with_finalization-keeps s r h (some c) fresh key q e = get-set_fresh s.finalizations _ _ key fresh e

module _ (core : CompositionCore) (json : StoredValue → String) ⦃head_digest : Digest JobFacts⦄
    ⦃pin_digest : Digest PinFacts⦄ ⦃receipt_digest : Digest ReceiptFacts⦄ where
  pub Puts-Keeps :
      (s : Repository) (r : ContentRef) (v : StoredValue)
      → Puts core json s r v
      → Keeps s (with_immutable s r v)
  Puts-Keeps s r v p = record {
    immutable = λ k i e. get-set_fresh s.immutable _ _ k p.fresh e;
    fingerprints = set-same s.fingerprints _ _ p.index;
    heads = λ job x e. (x, e, IsLater-self x);
    requests = λ k q e. e;
    finalizations = λ k q e. e;
  }

  pub Creates-Keeps :
      (s : Repository) (r : CreateInput) (pin : SourcePin) (m : Manifest) (h : JobHead)
      → Creates core json s r pin m h
      → Keeps s (with_head s r pin m h)
  Creates-Keeps s r pin m h c = record {
    immutable = λ k i e. e;
    fingerprints = λ k i e. e;
    heads = λ job x e. (x, get-set_fresh s.heads _ _ job c.fresh e, IsLater-self x);
    requests = λ k q e. e;
    finalizations = λ k q e. e;
  }

  pub Commits-Keeps :
      (s : Repository) (r : CasInput) (x : StoredHead) (h : JobHead)
      → s.heads.get r.job_id ≡ some x
      → Commits core json s r x h
      → Keeps s (swapped s r x h)
  Commits-Keeps s r x h at c = record {
    immutable = λ k i e. e;
    fingerprints = λ k i e. e;
    heads =
        set-IsLater s.heads r.job_id x (record x { head = h }) at (Advances-IsLater x h c.advances);
    requests = with_request-keeps s r h r.request c.fresh_request;
    finalizations = with_finalization-keeps s r h r.finalization c.fresh_finalization;
  }

  pub after-Keeps : (s : Repository) (c : Call) → Keeps s (after core json s c)
  unfolding after
  after-Keeps s (put_call r v) = elim (put_immutable-cases core json s r v) [
    | inl (e, f) ↦ subst (Keeps s) (sym e) (Keeps-self s)
    | inr (e, p) ↦
        subst (Keeps s) (sym (ap (λ (z : Repository × PutResult). z.0) e)) (Puts-Keeps s r v p)
  ]
  after-Keeps s (create_call r) = elim (create_head-cases core json s r) [
    | inl e ↦ subst (Keeps s) (sym e) (Keeps-self s)
    | inr (pin, m, h, e, c) ↦
        subst (Keeps s) (sym (ap (λ (z : Repository × CreateResult). z.0) e))
          (Creates-Keeps s r pin m h c)
  ]
  after-Keeps s (swap_call r) = elim (compare_and_swap-cases core json s r) [
    | inl (e, f) ↦ subst (Keeps s) (sym e) (Keeps-self s)
    | inr (x, h, at, e, c) ↦
        subst (Keeps s) (sym (ap (λ (z : Repository × CasResult). z.0) e))
          (Commits-Keeps s r x h at c)
  ]

  -- Whatever calls follow, no retained record, no name in the index of fingerprints and no committed
  -- request or finalization is lost or changed; every job stays stored, with its source pin, its
  -- manifest and its creation; its revision and its transition number never fall, its head is another
  -- only at a higher revision, and once it is terminal it is never another.
  pub run_all-KeepsAll : (cs : List Call) (s : Repository) → Keeps s (run_all core json s cs)
  unfolding run_all
  run_all-KeepsAll [] s = Keeps-self s
  run_all-KeepsAll (c ∷ cs) s =
      Keeps-trans s (after core json s c) (run_all core json (after core json s c) cs)
        (after-Keeps s c) (run_all-KeepsAll cs (after core json s c))
