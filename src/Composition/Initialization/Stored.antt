-- ===== src/Composition/Initialization/Stored.antt =====
-- What an initialization that answers with a head has stored
-- (composition/compositionSchedulerInitialization.ts).
use Prim.Native.String.{◌++◌}
use mathlib.Core.Path.{subst}
use flowdoc_vnext_backend.Common.{
  true, ◌∙◌, ◌&&◌, ℕ, String, ◌≡◌, refl, sym, ap, ◌⊎◌, inl, inr, not, ◌||◌, Option, none, some,
  List, [], ◌∷◌, ◌==◌, text_eq, number_eq, arith, Bool-cases, Option-cases, ltb,
}
use flowdoc_vnext_backend.PdfExport.Issue.{Digest, fingerprint}
use flowdoc_vnext_backend.Common.Text.{byte_length_of}
use flowdoc_vnext_backend.Composition.Core.{Manifest, ClosedPage, CompositionCore}
use flowdoc_vnext_backend.Composition.SourcePin.{
  ContentKind, source_snapshot, composition_manifest, closed_page_chunk, TransitionLimits,
  summarize, PinFacts, SourcePin, pin_facts_valid, finalize_pin,
}
use flowdoc_vnext_backend.Composition.JobHead.{JobFacts, JobHead, same_text}
use flowdoc_vnext_backend.Composition.Transition.{
  parse_pages, record_owners_match, chunk_scalars_valid, chunk_bound, chunk_chain_valid,
  chunk_checked, read_chunk, finalized_chunk, finalize_chunk, ChunkFacts, PageChunk, ReceiptFacts,
  count_all,
}
use flowdoc_vnext_backend.Composition.Repository.{
  StoredValue, chunk_value, other_value, value_fingerprint, Immutable, pair_key, same_ref,
  Repository, CreateInput, CreateResult, created, create_replay, create_conflict, create_invalid,
  create_head,
}
use flowdoc_vnext_backend.Composition.Repository.Swap.{Call, create_call, after, run_all}
use flowdoc_vnext_backend.Composition.Repository.Keeping.{
  Keeps, Keeps-trans, after-Keeps, run_all-KeepsAll,
}
use flowdoc_vnext_backend.Composition.ChainReader.Pages.{Every}
use flowdoc_vnext_backend.Composition.Staging.{
  ToStage, StageResult, staged, stage_conflict, stage_invalid, stage_batch,
}
use flowdoc_vnext_backend.Composition.Staging.Staged.{IsHeld, Keeps-IsHeld, stage_batch-Stages}
use flowdoc_vnext_backend.Composition.Initialization.{
  InitRequest, InitSource, InitIdentity, identity_of, initial_chunk, Initialized, InitResult,
  init_ready, init_replay, init_stale, init_blocked, request_valid, refs_of, records_of,
  creation_answer, creation_of, create_initial, after_staging, with_initial_chunk, first_chunk,
  with_started, with_pin, pin_facts_of, with_manifest, initialize,
}
use flowdoc_vnext_backend.Composition.Initialization.Created.{
  IsCreated, Answers, create_head-IsCreated,
}

-- The answer of an initialization that gives a head out.
abbrev pub Gives : InitResult → JobHead → Type 0
Gives o h = (pin : SourcePin) × ((o ≡ init_ready pin h) ⊎ (o ≡ init_replay pin h))

blocked-no_head : (h : JobHead) → Gives init_blocked h → ⊥
blocked-no_head h (pin, inl e) = cc e
blocked-no_head h (pin, inr e) = cc e

stale-no_head : (h : JobHead) → Gives init_stale h → ⊥
stale-no_head h (pin, inl e) = cc e
stale-no_head h (pin, inr e) = cc e

module _ (core : CompositionCore) (start : Manifest → TransitionLimits → Option Initialized)
    (manifest_text : Manifest → String) (json : StoredValue → String)
    ⦃head_digest : Digest JobFacts⦄ ⦃pin_digest : Digest PinFacts⦄
    ⦃chunk_digest : Digest ChunkFacts⦄ ⦃receipt_digest : Digest ReceiptFacts⦄
    ⦃request_digest : Digest InitIdentity⦄ (others : ℕ → List Call) where
  answer-Gives :
      (pin : SourcePin) (o : CreateResult) (h : JobHead)
      → Gives (creation_answer core start manifest_text json others pin o) h
      → Answers o h
  unfolding creation_answer
  answer-Gives pin (created k) h (q, inl e) = inl (cc e)
  answer-Gives pin (created k) h (q, inr e) = cc e
  answer-Gives pin (create_replay k) h (q, inl e) = cc e
  answer-Gives pin (create_replay k) h (q, inr e) = inr (cc e)
  answer-Gives pin create_conflict h e = absurd (blocked-no_head h e)
  answer-Gives pin create_invalid h e = absurd (blocked-no_head h e)

  -- A record is retained under an id of the job, with a reference of its kind, its fingerprint and the
  -- bytes of its JSON, and with that JSON.
  pub record Retains (u : Repository) (job : String) (k : ContentKind) (id text : String)
      (v : StoredValue) : Type 0 where
    pub kept : Immutable
    pub held : u.immutable.get (pair_key job id) ≡ some kept
    pub reference :
        same_ref kept.ref (record {
          kind = k;
          job_id = job;
          record_id = id;
          record_fingerprint = text;
          byte_length = byte_length_of (json v);
        })
        ≡ true
    pub value : json kept.value ≡ json v

  -- The pages that are closed at the start, if there are any, are retained in the first chunk.
  pub record KeepsPages (r : InitRequest) (m : Manifest) (u : Repository) (p : ClosedPage)
      (ps : List ClosedPage) : Type 0 where
    pub chunk : PageChunk
    pub job : chunk.job_id ≡ r.job_id
    pub transition : chunk.transition_number ≡ 0
    pub manifest : chunk.manifest_fingerprint ≡ m.fingerprint
    pub first : chunk.previous_chunk ≡ none
    pub pages : parse_pages core (p ∷ ps) ≡ some chunk.pages
    pub retained :
        Retains u r.job_id closed_page_chunk
          (r.job_id ++ ":chunk:0")
          chunk.fingerprint
          (chunk_value chunk)

  abbrev pub KeptPages : InitRequest → Manifest → Repository → List ClosedPage → Type 0
  KeptPages r m u [] = Unit
  KeptPages r m u (p ∷ ps) = KeepsPages r m u p ps

  -- The job is stored as this request has created it, with the source snapshot, the manifest that was
  -- parsed and the pages that Core has closed at its start.
  pub record IsInitial (r : InitRequest) (x : InitSource) (u : Repository) (h : JobHead)
      : Type 0 where
    pub job : IsCreated u r.job_id r.request_id (fingerprint (identity_of r x)) h
    pub snapshot :
        Retains u r.job_id source_snapshot
          (r.job_id ++ ":source")
          x.package_fingerprint
          x.source_snapshot
    pub manifest : Manifest
    pub parsed : core.parse_manifest x.manifest ≡ some manifest
    pub manifest_kept :
        Retains u r.job_id composition_manifest
          (r.job_id ++ ":manifest")
          manifest.fingerprint
          (other_value (some manifest.fingerprint) (manifest_text manifest))
    pub started : Initialized
    pub at_start : start manifest r.transition_limits ≡ some started
    pub pages : KeptPages r manifest u started.closed_pages

  -- The chunk of the pages, if there are any.
  record ChunkFits (r : InitRequest) (m : Manifest) (p : ClosedPage) (ps : List ClosedPage)
      (chunk : PageChunk) : Type 0 where
    job : chunk.job_id ≡ r.job_id
    transition : chunk.transition_number ≡ 0
    manifest : chunk.manifest_fingerprint ≡ m.fingerprint
    first : chunk.previous_chunk ≡ none
    pages : parse_pages core (p ∷ ps) ≡ some chunk.pages

  abbrev IsFirst : InitRequest → Manifest → List ClosedPage → Option PageChunk → Type 0
  IsFirst r m [] chunk = Unit
  IsFirst r m (p ∷ ps) none = ⊥
  IsFirst r m (p ∷ ps) (some k) = ChunkFits r m p ps k

  finalize_chunk-ChunkFits :
      (r : InitRequest) (pin : SourcePin) (m : Manifest) (c : Initialized) (p : ClosedPage)
      (ps : List ClosedPage) (prefix : String) (k : PageChunk)
      → c.closed_pages ≡ p ∷ ps
      → finalize_chunk core pin m (initial_chunk r m c prefix) ≡ some k
      → ChunkFits r m p ps k
  unfolding finalize_chunk read_chunk finalized_chunk chunk_checked
  finalize_chunk-ChunkFits r pin m c p ps prefix k some_pages e =
      let f = initial_chunk r m c prefix in
      elim (Option-cases (parse_pages core c.closed_pages)) [
        | inl t ↦ cc (rw (t, finalize_chunk) at e)
        | inr (pages, t) ↦
            let g = record f { pages = pages } in
            elim (Bool-cases (
              record_owners_match pin m
              && chunk_scalars_valid g
              && chunk_bound pin m g
              && chunk_chain_valid g)) [
                | inr u ↦ cc (rw (t, u, finalize_chunk) at e)
                | inl u ↦
                    let made : record { facts = g; fingerprint = fingerprint g } ≡ k =
                      cc (rw (t, u, finalize_chunk) at e) in
                    subst (ChunkFits r m p ps) made (record {
                      job = refl;
                      transition = refl;
                      manifest = refl;
                      first = refl;
                      pages = ap (parse_pages core) (sym some_pages) ∙ t;
                    })
              ]
      ]

  first_chunk-IsFirst :
      (r : InitRequest) (pin : SourcePin) (m : Manifest) (c : Initialized) (ps : List ClosedPage)
      (prefix : Option String) (chunk : Option PageChunk)
      → c.closed_pages ≡ ps
      → first_chunk core start manifest_text json others r pin m c ps prefix ≡ some chunk
      → IsFirst r m ps chunk
  unfolding first_chunk
  first_chunk-IsFirst r pin m c [] prefix chunk same e = tt
  first_chunk-IsFirst r pin m c (p ∷ ps) none chunk same e = cc e
  first_chunk-IsFirst r pin m c (p ∷ ps) (some text) chunk same e =
      elim (Option-cases (finalize_chunk core pin m (initial_chunk r m c text))) [
        | inl t ↦ cc (rw (t, first_chunk) at e)
        | inr (k, t) ↦
            let made : some k ≡ chunk = cc (rw (t, first_chunk) at e) in
            subst (IsFirst r m (p ∷ ps)) made
              (finalize_chunk-ChunkFits r pin m c p ps text k same t)
      ]

  held-Retains :
      (u : Repository) (job : String) (k : ContentKind) (id text : String) (v : StoredValue)
      → IsHeld json u (record {
        ref = record {
          kind = k;
          job_id = job;
          record_id = id;
          record_fingerprint = text;
          byte_length = byte_length_of (json v);
        };
        value = v;
      })
      → Retains u job k id text v
  held-Retains u job k id text v (i, at, same, value) = record {
    kept = i;
    held = at;
    reference = same;
    value = value;
  }

  records-KeptPages :
      (u : Repository) (r : InitRequest) (x : InitSource) (m : Manifest) (ps : List ClosedPage)
      (chunk : Option PageChunk)
      → IsFirst r m ps chunk
      → Every (IsHeld json u) (records_of core start manifest_text json others r x m chunk)
      → KeptPages r m u ps
  records-KeptPages u r x m [] chunk first all = tt
  records-KeptPages u r x m (p ∷ ps) none first all = absurd first
  records-KeptPages u r x m (p ∷ ps) (some k) first (a, (b, (held, end))) = record {
    chunk = k;
    job = first.job;
    transition = first.transition;
    manifest = first.manifest;
    first = first.first;
    pages = first.pages;
    retained =
        held-Retains u r.job_id closed_page_chunk (r.job_id ++ ":chunk:0") k.fingerprint
          (chunk_value k) held;
  }

  -- What the start of an initialization is made from.
  abbrev IsFrom : InitRequest → InitSource → Manifest → Initialized → Option PageChunk → Type 0
  IsFrom r x m c chunk =
      (core.parse_manifest x.manifest ≡ some m)
      × (start m r.transition_limits ≡ some c)
      × IsFirst r m c.closed_pages chunk

  records-snapshot :
      (u : Repository) (r : InitRequest) (x : InitSource) (m : Manifest) (chunk : Option PageChunk)
      → Every (IsHeld json u) (records_of core start manifest_text json others r x m chunk)
      → Retains u r.job_id source_snapshot
          (r.job_id ++ ":source")
          x.package_fingerprint
          x.source_snapshot
        × Retains u r.job_id composition_manifest
            (r.job_id ++ ":manifest")
            m.fingerprint
            (other_value (some m.fingerprint) (manifest_text m))
  records-snapshot u r x m none (a, (b, end)) =
      (held-Retains u _ _ _ _ _ a, held-Retains u _ _ _ _ _ b)
  records-snapshot u r x m (some k) (a, (b, end)) =
      (held-Retains u _ _ _ _ _ a, held-Retains u _ _ _ _ _ b)

  Keeps-Every :
      (s u : Repository) (xs : List ToStage)
      → Keeps s u
      → Every (IsHeld json s) xs
      → Every (IsHeld json u) xs
  Keeps-Every s u [] k all = tt
  Keeps-Every s u (x ∷ xs) k (held, all) =
      (Keeps-IsHeld core json s u x k held, Keeps-Every s u xs k all)

  create-Keeps : (s : Repository) (c : CreateInput) → Keeps s (create_head core json s c).0
  unfolding after
  create-Keeps s c = after-Keeps core json s (create_call c)

  create_initial-IsInitial :
      (s : Repository) (n : ℕ) (r : InitRequest) (x : InitSource) (pin : SourcePin) (m : Manifest)
      (o : Option JobHead) (i : Initialized) (chunk : Option PageChunk) (h : JobHead)
      → IsFrom r x m i chunk
      → pin.job_id ≡ r.job_id
      → Every (IsHeld json s) (records_of core start manifest_text json others r x m chunk)
      → Gives (create_initial core start manifest_text json others s n r x pin m o).1 h
      → IsInitial r x (create_initial core start manifest_text json others s n r x pin m o).0 h
  unfolding create_initial
  create_initial-IsInitial s n r x pin m none i chunk h from own all e =
      absurd (blocked-no_head h e)
  create_initial-IsInitial s n r x pin m (some k) i chunk h from own all e =
      let t = run_all core json s (others n) in
      let c = creation_of core start manifest_text json others r x pin m k in
      let done = (create_head core json t c).0 in
      let made =
        create_head-IsCreated core json t c h
          (answer-Gives pin (create_head core json t c).1 h e) in
      let later =
        Keeps-Every s done (records_of core start manifest_text json others r x m chunk)
          (Keeps-trans s t done (run_all-KeepsAll core json (others n) s) (create-Keeps t c)) all in
      record {
        job =
            subst
              (λ (job : String). IsCreated done job r.request_id (fingerprint (identity_of r x)) h)
              own made;
        snapshot = (records-snapshot done r x m chunk later).0;
        manifest = m;
        parsed = from.0;
        manifest_kept = (records-snapshot done r x m chunk later).1;
        started = i;
        at_start = from.1;
        pages = records-KeptPages done r x m i.closed_pages chunk from.2 later;
      }

  after_staging-IsInitial :
      (s : Repository) (r : InitRequest) (x : InitSource) (pin : SourcePin) (m : Manifest)
      (c : Initialized) (chunk : Option PageChunk) (n : ℕ) (p : Repository × StageResult)
      (h : JobHead)
      → IsFrom r x m c chunk
      → pin.job_id ≡ r.job_id
      → stage_batch core json others s (records_of core start manifest_text json others r x m chunk)
        ≡ p
      → Gives (after_staging core start manifest_text json others r x pin m c chunk n p).1 h
      → IsInitial r x (after_staging core start manifest_text json others r x pin m c chunk n p).0 h
  unfolding after_staging
  after_staging-IsInitial s r x pin m c chunk n (u, staged q k) h from own at e =
      let done = stage_batch-Stages core json others s _ u q k at in
      create_initial-IsInitial u n r x pin m _ c chunk h from own done.held e
  after_staging-IsInitial s r x pin m c chunk n (u, stage_conflict k) h from own at e =
      absurd (blocked-no_head h e)
  after_staging-IsInitial s r x pin m c chunk n (u, stage_invalid k) h from own at e =
      absurd (blocked-no_head h e)

  with_chunk-IsInitial :
      (s : Repository) (r : InitRequest) (x : InitSource) (pin : SourcePin) (m : Manifest)
      (c : Initialized) (chunk : Option PageChunk) (h : JobHead)
      → IsFrom r x m c chunk
      → pin.job_id ≡ r.job_id
      → Gives (with_initial_chunk core start manifest_text json others s r x pin m c chunk).1 h
      → IsInitial r x
          (with_initial_chunk core start manifest_text json others s r x pin m c chunk).0
          h
  unfolding with_initial_chunk
  with_chunk-IsInitial s r x pin m c chunk h from own e =
      let records = records_of core start manifest_text json others r x m chunk in
      elim (Bool-cases (
        ltb pin.execution_limits.maximum_retained_byte_count
          (summarize (refs_of records)).byte_count)) [
            | inl t ↦ absurd (blocked-no_head h (rw (t, with_initial_chunk) at e))
            | inr t ↦
                rw (t, with_initial_chunk)
                  (after_staging-IsInitial s r x pin m c chunk (count_all records)
                    (stage_batch core json others s records) h from own refl
                    (rw (t, with_initial_chunk) at e))
          ]

  with_started-IsInitial :
      (s : Repository) (r : InitRequest) (x : InitSource) (pin : SourcePin) (m : Manifest)
      (o : Option Initialized) (h : JobHead)
      → core.parse_manifest x.manifest ≡ some m
      → start m r.transition_limits ≡ o
      → pin.job_id ≡ r.job_id
      → Gives (with_started core start manifest_text json others s r x pin m o).1 h
      → IsInitial r x (with_started core start manifest_text json others s r x pin m o).0 h
  unfolding with_started
  with_started-IsInitial s r x pin m none h parsed began own e = absurd (blocked-no_head h e)
  with_started-IsInitial s r x pin m (some c) h parsed began own e =
      elim (Option-cases (
        first_chunk core start manifest_text json others r pin m c c.closed_pages
          c.cursor_after.closed_prefix.fingerprint)) [
            | inl t ↦ absurd (blocked-no_head h (rw (t, with_started) at e))
            | inr (chunk, t) ↦
                rw (t, with_started)
                  (with_chunk-IsInitial s r x pin m c chunk h
                    (
                      parsed,
                      began,
                      first_chunk-IsFirst r pin m c c.closed_pages
                          c.cursor_after.closed_prefix.fingerprint chunk refl t,
                    )
                    own (rw (t, with_started) at e))
          ]

  with_pin-IsInitial :
      (s : Repository) (r : InitRequest) (x : InitSource) (m : Manifest) (o : Option SourcePin)
      (h : JobHead)
      → core.parse_manifest x.manifest ≡ some m
      → finalize_pin (pin_facts_of core start manifest_text json others r x m) ≡ o
      → Gives (with_pin core start manifest_text json others s r x m o).1 h
      → IsInitial r x (with_pin core start manifest_text json others s r x m o).0 h
  unfolding with_pin finalize_pin
  with_pin-IsInitial s r x m none h parsed at e = absurd (blocked-no_head h e)
  with_pin-IsInitial s r x m (some pin) h parsed at e =
      let facts = pin_facts_of core start manifest_text json others r x m in
      elim (Bool-cases (pin_facts_valid facts)) [
        | inr t ↦ cc (rw (t, finalize_pin) at at)
        | inl t ↦
            let made : record { facts = facts; fingerprint = fingerprint facts } ≡ pin =
              cc (rw (t, finalize_pin) at at) in
            with_started-IsInitial s r x pin m (start m r.transition_limits) h parsed refl
              (ap (λ (z : SourcePin). z.job_id) (sym made)) e
      ]

  with_manifest-IsInitial :
      (s : Repository) (r : InitRequest) (x : InitSource) (o : Option Manifest) (h : JobHead)
      → core.parse_manifest x.manifest ≡ o
      → Gives (with_manifest core start manifest_text json others s r x o).1 h
      → IsInitial r x (with_manifest core start manifest_text json others s r x o).0 h
  unfolding with_manifest
  with_manifest-IsInitial s r x none h parsed e = absurd (blocked-no_head h e)
  with_manifest-IsInitial s r x (some m) h parsed e =
      elim (Bool-cases (
        not (m.document_id == r.document_id)
        || not (m.resolved_projection_fingerprint == x.resolved_projection_fingerprint))) [
          | inl t ↦ absurd (blocked-no_head h (rw (t, with_manifest) at e))
          | inr t ↦
              rw (t, with_manifest)
                (with_pin-IsInitial s r x m _ h parsed refl (rw (t, with_manifest) at e))
        ]

  -- Whatever calls of others come before its puts and before its creation: an initialization that
  -- answers with a head, new or as a replay, is of the current revision of the source and has that head
  -- stored under its job, as created under its request id for the fingerprint of its request; the source
  -- snapshot and the manifest that Core has parsed are retained under their ids; and where Core's start
  -- has closed pages, a first chunk of the job with exactly those pages, as Core parses them, is
  -- retained under its id.
  pub initialize-IsInitial :
      (s : Repository) (r : InitRequest) (x : InitSource) (h : JobHead)
      → Gives (initialize core start manifest_text json others s r x).1 h
      → (x.current_revision ≡ r.base_revision)
        × IsInitial r x (initialize core start manifest_text json others s r x).0 h
  unfolding initialize
  initialize-IsInitial s r x h e = elim (Bool-cases (request_valid r)) [
    | inr t ↦ absurd (blocked-no_head h (rw (t, initialize) at e))
    | inl t ↦ elim (Bool-cases (x.current_revision == r.base_revision)) [
      | inr u ↦ absurd (stale-no_head h (rw (t, u, initialize) at e))
      | inl u ↦
          elim (Bool-cases
            (same_text (value_fingerprint x.source_snapshot) (some x.package_fingerprint))) [
              | inr v ↦ absurd (blocked-no_head h (rw (t, u, v, initialize) at e))
              | inl v ↦ (
                ground arith,
                rw (t, u, v, initialize)
                    (with_manifest-IsInitial s r x (core.parse_manifest x.manifest) h refl
                      (rw (t, u, v, initialize) at e)),
              )
            ]
    ]
  ]
