-- ===== src/Composition/Repository/Soundness.antt =====
-- The invariant of the composition repository (composition/compositionSchedulerRepository.ts): every
-- stored and committed head is valid in the context of its job, and the index of fingerprints is exact.
use mathlib.Core.Path.{subst}
use flowdoc_vnext_backend.Common.Text.{byte_length_of, is_fingerprint}
use text.Mathlib.TextEquality.{eq_iff}
use flowdoc_vnext_backend.Common.{
  ◌≤◌, ◌<◌, String, ◌≡◌, refl, sym, ap, ◌∙◌, ◌⊎◌, inl, inr, Bool, true, ◌&&◌, Option, none, some,
  List, [], ◌∷◌, ◌==◌, text_eq, arith, Bool-cases,
}
use flowdoc_vnext_backend.Common.Dict.{Dict, get-set_self, get-set_fresh, set-fits}
use flowdoc_vnext_backend.PdfExport.Issue.{Digest, fingerprint}
use flowdoc_vnext_backend.Composition.Core.{Manifest, CompositionCore, ParsesSelf}
use flowdoc_vnext_backend.Composition.SourcePin.{
  ContentRef, ref_valid, PinFacts, SourcePin, pin_facts_valid, finalize_pin, same_pin, parse_pin,
}
use flowdoc_vnext_backend.Composition.JobHead.{JobFacts, JobHead}
use flowdoc_vnext_backend.Composition.JobHead.Validity.{IsValid}
use flowdoc_vnext_backend.Composition.JobHead.Validity.Parser.{parse_head-inverse}
use flowdoc_vnext_backend.Composition.Transition.{ReceiptFacts}
use flowdoc_vnext_backend.Composition.Repository.{
  StoredValue, value_fingerprint, Immutable, StoredHead, StoredRequest, StoredFinalization,
  Repository, empty_repository, pair_key, fingerprint_key, CommittedRequest, CommittedFinalization,
  CasInput, CreateInput, PutResult, CreateResult, CasResult,
}
use flowdoc_vnext_backend.Composition.Repository.Swap.{
  swapped, with_request, with_finalization, Call, put_call, create_call, swap_call, after, run_all,
}
use flowdoc_vnext_backend.Composition.Repository.Changes.{
  with_immutable, with_head, Puts, put_immutable-cases, Creates, create_head-cases,
}
use flowdoc_vnext_backend.Composition.Repository.Commits.{Commits, compare_and_swap-cases}
use flowdoc_vnext_backend.Composition.Repository.Keeping.{
  Keeps, set-same, Creates-Keeps, Commits-Keeps,
}

-- A record under its key, which the index of fingerprints names.
pub record ImmutableFits (json : StoredValue → String) (names : Dict String String) (key : String)
    (i : Immutable) : Type 0 where
  pub own_key : key ≡ pair_key i.ref.job_id i.ref.record_id
  pub valid : ref_valid i.ref ≡ true
  pub own_fingerprint : value_fingerprint i.value ≡ some i.ref.record_fingerprint
  pub bytes : byte_length_of (json i.value) ≡ i.ref.byte_length
  pub named :
      names.get (fingerprint_key i.ref.job_id i.ref.kind i.ref.record_fingerprint) ≡ some key

-- A name in the index is that of a retained record.
abbrev pub IsNamed : Dict String Immutable → String → String → Type 0
IsNamed records name key =
    (i : Immutable) × (records.get key ≡ some i)
    × (name ≡ fingerprint_key i.ref.job_id i.ref.kind i.ref.record_fingerprint)

module _ (core : CompositionCore) ⦃head_digest : Digest JobFacts⦄ where
  -- A head under the id of its source pin, valid in its context.
  pub record StoredFits (job : String) (x : StoredHead) : Type 0 where
    pub own_job : x.pin.job_id ≡ job
    pub pin : pin_facts_valid x.pin.facts ≡ true
    pub head : IsValid core x.pin x.manifest x.head

  -- A committed head, valid in the context of a stored job whose head is at no lower revision.
  pub record HeadIsOf (heads : Dict String StoredHead) (h : JobHead) : Type 0 where
    pub job : String
    pub stored : StoredHead
    pub held : heads.get job ≡ some stored
    pub valid : IsValid core stored.pin stored.manifest h
    pub not_ahead : h.head_revision ≤ stored.head.head_revision

  pub record IsSound (json : StoredValue → String) (s : Repository) : Type 0 where
    pub immutable :
        (key : String) (i : Immutable)
        → s.immutable.get key ≡ some i
        → ImmutableFits json s.fingerprints key i
    pub index :
        (name key : String) → s.fingerprints.get name ≡ some key → IsNamed s.immutable name key
    pub heads : (job : String) (x : StoredHead) → s.heads.get job ≡ some x → StoredFits job x
    pub requests :
        (key : String) (q : StoredRequest) → s.requests.get key ≡ some q → HeadIsOf s.heads q.head
    pub finalizations :
        (key : String) (q : StoredFinalization)
        → s.finalizations.get key ≡ some q
        → HeadIsOf s.heads q.head

moved-le :
    (h k : JobHead)
    → (k ≡ h) ⊎ (h.head_revision < k.head_revision)
    → h.head_revision ≤ k.head_revision
moved-le h k (inl e) =
    subst (λ (z : JobHead). h.head_revision ≤ z.head_revision) (sym e) (omega arith)
moved-le h k (inr e) = omega arith

first_true : (a b : Bool) → (a && b) ≡ true → a ≡ true
first_true a b e = ground arith

module _ ⦃d : Digest PinFacts⦄ where
  same_pin-inverse :
      (p q : SourcePin)
      → pin_facts_valid p.facts ≡ true
      → same_pin p (finalize_pin p.facts) ≡ some q
      → (q ≡ p) × (pin_facts_valid q.facts ≡ true)
  unfolding same_pin finalize_pin
  same_pin-inverse p q t e = elim (Bool-cases (fingerprint p.facts == p.fingerprint)) [
    | inr u ↦ cc (rw (t, u, same_pin) at e)
    | inl u ↦
        let text = (eq_iff (fingerprint p.facts) p.fingerprint).0 u in
        let made : record { facts = p.facts; fingerprint = fingerprint p.facts } ≡ q =
          cc (rw (t, u, same_pin) at e) in
        let same : q ≡ p = sym made ∙ (λ i. record { facts = p.facts; fingerprint = text i }) in
        (same, ap (λ (z : SourcePin). pin_facts_valid z.facts) same ∙ t)
  ]

  -- A source pin that is parsed is the one that was given.
  pub parse_pin-inverse :
      (p q : SourcePin) → parse_pin p ≡ some q → (q ≡ p) × (pin_facts_valid q.facts ≡ true)
  unfolding parse_pin
  parse_pin-inverse p q e =
      elim (Bool-cases (pin_facts_valid p.facts && is_fingerprint p.fingerprint)) [
        | inr t ↦ cc (rw (t, parse_pin) at e)
        | inl t ↦ same_pin-inverse p q (first_true _ _ t) (rw (t, parse_pin) at e)
      ]

module _ (core : CompositionCore) (json : StoredValue → String) ⦃head_digest : Digest JobFacts⦄
    ⦃pin_digest : Digest PinFacts⦄ ⦃receipt_digest : Digest ReceiptFacts⦄ where
  HeadIsOf-Keeps :
      (s t : Repository) (h : JobHead)
      → Keeps s t
      → HeadIsOf core s.heads h
      → HeadIsOf core t.heads h
  HeadIsOf-Keeps s t h k a =
      let (y, at, later) = k.heads a.job a.stored a.held in
      record {
        job = a.job;
        stored = y;
        held = at;
        valid =
            subst (λ (p : SourcePin × Manifest). IsValid core p.0 p.1 h)
              (λ i. (sym later.pin i, sym later.manifest i)) a.valid;
        not_ahead = omega (arith, a.not_ahead, moved-le a.stored.head y.head later.moved);
      }

  Puts-IsSound :
      (s : Repository) (r : ContentRef) (v : StoredValue)
      → Puts core json s r v
      → IsSound core json s
      → IsSound core json (with_immutable s r v)
  Puts-IsSound s r v p a = record {
    immutable =
        set-fits (ImmutableFits json (with_immutable s r v).fingerprints) s.immutable _ _
          (record {
            own_key = refl;
            valid = p.valid;
            own_fingerprint = p.names;
            bytes = p.bytes;
            named = get-set_self s.fingerprints _ _;
          })
          (λ key i e.
            let f = a.immutable key i e in
            record {
              own_key = f.own_key;
              valid = f.valid;
              own_fingerprint = f.own_fingerprint;
              bytes = f.bytes;
              named = set-same s.fingerprints _ _ p.index _ key f.named;
            });
    index =
        set-fits (IsNamed (with_immutable s r v).immutable) s.fingerprints _ _
          (record { ref = r; value = v }, get-set_self s.immutable _ _, refl)
          (λ name key e.
            let (i, at, named) = a.index name key e in
            (i, get-set_fresh s.immutable _ _ key p.fresh at, named));
    heads = a.heads;
    requests = a.requests;
    finalizations = a.finalizations;
  }

  Creates-IsSound :
      (self : ParsesSelf core) (s : Repository) (r : CreateInput) (pin : SourcePin) (m : Manifest)
      (h : JobHead)
      → Creates core json s r pin m h
      → IsSound core json s
      → IsSound core json (with_head s r pin m h)
  Creates-IsSound self s r pin m h c a =
      let keeps = Creates-Keeps core json s r pin m h c in
      record {
        immutable = a.immutable;
        index = a.index;
        heads =
            set-fits (StoredFits core) s.heads _ _
              (record {
                own_job = refl;
                pin = (parse_pin-inverse r.pin pin c.source).1;
                head = (parse_head-inverse core pin m self r.head h c.head).1;
              })
              a.heads;
        requests = λ key q e. HeadIsOf-Keeps s _ q.head keeps (a.requests key q e);
        finalizations = λ key q e. HeadIsOf-Keeps s _ q.head keeps (a.finalizations key q e);
      }

  -- The next head, once it is stored.
  next-HeadIsOf :
      (s : Repository) (r : CasInput) (x : StoredHead) (h : JobHead)
      → IsValid core x.pin x.manifest h
      → HeadIsOf core (swapped s r x h).heads h
  next-HeadIsOf s r x h valid = record {
    job = r.job_id;
    stored = record x { head = h };
    held = get-set_self s.heads _ _;
    valid = valid;
    not_ahead = omega arith;
  }

  with_request-fits :
      (s : Repository) (r : CasInput) (h : JobHead) (heads : Dict String StoredHead)
      (o : Option CommittedRequest)
      → HeadIsOf core heads h
      → ((key : String) (q : StoredRequest)
          → s.requests.get key ≡ some q
          → HeadIsOf core heads q.head)
      → (key : String) (q : StoredRequest) → (with_request s r h o).get key ≡ some q
      → HeadIsOf core heads q.head
  with_request-fits s r h heads none new old = old
  with_request-fits s r h heads (some c) new old =
      set-fits (λ key (q : StoredRequest). HeadIsOf core heads q.head) s.requests _ _ new old

  with_finalization-fits :
      (s : Repository) (r : CasInput) (h : JobHead) (heads : Dict String StoredHead)
      (o : Option CommittedFinalization)
      → HeadIsOf core heads h
      → ((key : String) (q : StoredFinalization)
          → s.finalizations.get key ≡ some q
          → HeadIsOf core heads q.head)
      → (key : String) (q : StoredFinalization) → (with_finalization s r h o).get key ≡ some q
      → HeadIsOf core heads q.head
  with_finalization-fits s r h heads none new old = old
  with_finalization-fits s r h heads (some c) new old =
      set-fits (λ key (q : StoredFinalization). HeadIsOf core heads q.head) s.finalizations _ _ new
        old

  Commits-IsSound :
      (self : ParsesSelf core) (s : Repository) (r : CasInput) (x : StoredHead) (h : JobHead)
      → s.heads.get r.job_id ≡ some x
      → Commits core json s r x h
      → IsSound core json s
      → IsSound core json (swapped s r x h)
  Commits-IsSound self s r x h at c a =
      let valid = (parse_head-inverse core x.pin x.manifest self r.next h c.next).1 in
      let keeps = Commits-Keeps core json s r x h at c in
      let new = next-HeadIsOf s r x h valid in
      let old = a.heads r.job_id x at in
      record {
        immutable = a.immutable;
        index = a.index;
        heads =
            set-fits (StoredFits core) s.heads _ _
              (record { own_job = old.own_job; pin = old.pin; head = valid }) a.heads;
        requests =
            with_request-fits s r h _ r.request new
              (λ key q e. HeadIsOf-Keeps s _ q.head keeps (a.requests key q e));
        finalizations =
            with_finalization-fits s r h _ r.finalization new
              (λ key q e. HeadIsOf-Keeps s _ q.head keeps (a.finalizations key q e));
      }

  after-IsSound :
      (self : ParsesSelf core) (s : Repository) (c : Call)
      → IsSound core json s
      → IsSound core json (after core json s c)
  unfolding after
  after-IsSound self s (put_call r v) a = elim (put_immutable-cases core json s r v) [
    | inl (e, f) ↦ subst (IsSound core json) (sym e) a
    | inr (e, p) ↦
        subst (IsSound core json) (sym (ap (λ (z : Repository × PutResult). z.0) e))
          (Puts-IsSound s r v p a)
  ]
  after-IsSound self s (create_call r) a = elim (create_head-cases core json s r) [
    | inl e ↦ subst (IsSound core json) (sym e) a
    | inr (pin, m, h, e, c) ↦
        subst (IsSound core json) (sym (ap (λ (z : Repository × CreateResult). z.0) e))
          (Creates-IsSound self s r pin m h c a)
  ]
  after-IsSound self s (swap_call r) a = elim (compare_and_swap-cases core json s r) [
    | inl (e, f) ↦ subst (IsSound core json) (sym e) a
    | inr (x, h, at, e, c) ↦
        subst (IsSound core json) (sym (ap (λ (z : Repository × CasResult). z.0) e))
          (Commits-IsSound self s r x h at c a)
  ]

  -- Where Core's parsers give out what they accept, every call keeps a sound repository sound: each
  -- stored head is valid for the source pin and the manifest of its job, and stands under the job id
  -- of that pin, which is valid; each retained record stands under its own key, in the form of its
  -- reference, with its fingerprint and its number of bytes; the index of fingerprints names exactly
  -- the retained records; and each committed head is valid in the context of a stored job, whose head
  -- is at no lower revision.
  pub run_all-KeepsSound :
      ParsesSelf core
      → (cs : List Call) (s : Repository) → IsSound core json s
      → IsSound core json (run_all core json s cs)
  unfolding run_all
  run_all-KeepsSound self [] s a = a
  run_all-KeepsSound self (c ∷ cs) s a =
      run_all-KeepsSound self cs (after core json s c) (after-IsSound self s c a)

  -- The repository starts sound.
  pub empty-IsSound : IsSound core json empty_repository
  empty-IsSound = record {
    immutable = λ key i e. cc e;
    index = λ name key e. cc e;
    heads = λ job x e. cc e;
    requests = λ key q e. cc e;
    finalizations = λ key q e. cc e;
  }
