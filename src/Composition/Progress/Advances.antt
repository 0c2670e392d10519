-- ===== src/Composition/Progress/Advances.antt =====
-- What a caller is shown of a job over time (composition/compositionSchedulerProgress.ts).
use mathlib.Core.Path.{subst}
use flowdoc_vnext_backend.Common.{
  ℕ, ◌≤◌, ◌<◌, String, ◌≡◌, refl, sym, ap, ◌∙◌, ◌⊎◌, inl, inr, Bool, true, Option, none, some, List,
  arith, Option-cases, ◌≢◌, ◌==◌, number_eq,
}
use flowdoc_vnext_backend.PdfExport.Issue.{Time, Digest}
use flowdoc_vnext_backend.Composition.Core.{Manifest, CompositionCore, ParsesSelf}
use flowdoc_vnext_backend.Composition.SourcePin.{PinFacts, SourcePin, parse_pin}
use flowdoc_vnext_backend.Composition.JobHead.{JobFacts, JobHead, parse_head}
use flowdoc_vnext_backend.Composition.JobHead.Validity.Parser.{
  parse_head-inverse, parse_head-AcceptsValid,
}
use flowdoc_vnext_backend.Composition.Transition.{ChunkFacts, ReceiptFacts}
use flowdoc_vnext_backend.Composition.Repository.{
  StoredValue, StoredHead, Repository, Read, found, missing, unreadable, is_terminal, reread,
  read_stored, read_head,
}
use flowdoc_vnext_backend.Composition.Lifecycle.Updates.{read_head-found}
use flowdoc_vnext_backend.Composition.Repository.Swap.{Call, run_all}
use flowdoc_vnext_backend.Composition.Repository.Keeping.{IsLater, run_all-KeepsAll}
use flowdoc_vnext_backend.Composition.Repository.Soundness.{IsSound, run_all-KeepsSound}
use flowdoc_vnext_backend.Composition.Context.{parse_head_of, with_context_iff}
use flowdoc_vnext_backend.Composition.Progress.{
  ProgressFacts, Progress, progress_of, shown, create_progress, progress_ready, projected,
  read_projected, read_progress,
}

-- A later progress of the same job: with its document and the revision of its source, at no lower
-- revision or transition number, and, once the job has ended, with the same status, counts and output.
pub record ProgressFollows (p q : Progress) : Type 0 where
  pub document : q.document_id ≡ p.document_id
  pub source_revision : q.source_revision ≡ p.source_revision
  pub revision : p.head_revision ≤ q.head_revision
  pub transitions : p.transition_number ≤ q.transition_number
  pub ended :
      is_terminal p.status ≡ true
      → (q.status ≡ p.status) × (q.counts ≡ p.counts) × (q.final_output ≡ p.final_output)

Read-cases : {A : Type 0} → (r : Read A) → ((x : A) → r ≢ found x) ⊎ ((x : A) × (r ≡ found x))
Read-cases missing = inl (λ x e. cc e)
Read-cases unreadable = inl (λ x e. cc e)
Read-cases (found x) = inr (x, refl)

projected-ready : (o : Option Progress) (p : Progress) → projected o ≡ progress_ready p → o ≡ some p
unfolding projected
projected-ready none p e = cc e
projected-ready (some q) p e = cc e

revision_later :
    (g h : JobHead)
    → (h ≡ g) ⊎ (g.head_revision < h.head_revision)
    → g.head_revision ≤ h.head_revision
revision_later g h (inl e) =
    subst (λ (z : JobHead). g.head_revision ≤ z.head_revision) (sym e) (omega arith)
revision_later g h (inr e) = omega arith

module _ (core : CompositionCore) (json : StoredValue → String) ⦃head_digest : Digest JobFacts⦄
    ⦃pin_digest : Digest PinFacts⦄ ⦃chunk_digest : Digest ChunkFacts⦄
    ⦃receipt_digest : Digest ReceiptFacts⦄ ⦃progress_digest : Digest ProgressFacts⦄ where
  held-read_head :
      (s : Repository) (job : String) (x : StoredHead)
      → s.heads.get job ≡ some x
      → parse_head core x.pin x.manifest x.head ≡ some x.head
      → read_head core json s job ≡ found x
  unfolding read_head read_stored reread
  held-read_head s job x held parsed = rw (held, read_stored, parsed) refl

  not_found-not_ready :
      (revision : ℕ) (at : Time) (p : Progress) (r : Read StoredHead)
      → ((x : StoredHead) → r ≢ found x)
      → read_projected core revision at r ≢ progress_ready p
  unfolding read_projected
  not_found-not_ready revision at p missing f e = cc e
  not_found-not_ready revision at p unreadable f e = cc e
  not_found-not_ready revision at p (found x) f e = f x refl

  IsLater-ProgressFollows :
      (x y : StoredHead) (current later : Bool) (at until : Time)
      → IsLater x y
      → ProgressFollows
          (progress_of core x.pin current at x.head)
          (progress_of core y.pin later until y.head)
  IsLater-ProgressFollows x y current later at until l = record {
    document = ap (λ (p : SourcePin). p.document_id) l.pin;
    source_revision = ap (λ (p : SourcePin). p.base_revision) l.pin;
    revision = revision_later x.head y.head l.moved;
    transitions = l.transitions;
    ended = λ t.
        let same = l.ended t in
        (
          ap (λ (h : JobHead). h.status) same,
          ap (λ (h : JobHead). (progress_of core y.pin later until h).counts) same,
          ap (λ (h : JobHead). h.final_output) same,
        );
  }

  -- A progress is shown exactly of the head that the contract accepts.
  create_progress-inverse :
      ParsesSelf core
      → (pin : SourcePin) (m : Manifest) (h : JobHead) (current : Bool) (at : Time) (p : Progress)
      → create_progress core pin m h current at ≡ some p
      → (parse_pin pin ≡ some pin)
        × (core.parse_manifest m ≡ some m)
        × (p ≡ progress_of core pin current at h)
  unfolding create_progress shown parse_head_of
  create_progress-inverse self pin m h current at p e =
      elim (Option-cases (parse_head_of core pin m h)) [
        | inl t ↦ cc (rw (t, shown) at e)
        | inr (g, t) ↦
            let (a, b, c) =
              (with_context_iff core self pin m (λ q n. parse_head core q n h) g).0 t in
            let made : progress_of core pin current at g ≡ p = cc (rw (t, shown) at e) in
            (
              a,
              b,
              sym made
                  ∙ ap (progress_of core pin current at)
                      (parse_head-inverse core pin m self h g c).0,
            )
      ]

  create_progress-shows :
      ParsesSelf core
      → (pin : SourcePin) (m : Manifest) (h : JobHead) (current : Bool) (at : Time)
      → parse_pin pin ≡ some pin
      → core.parse_manifest m ≡ some m
      → parse_head core pin m h ≡ some h
      → create_progress core pin m h current at ≡ some (progress_of core pin current at h)
  unfolding create_progress shown parse_head_of
  create_progress-shows self pin m h current at a b c =
      ap (shown core pin current at)
        ((with_context_iff core self pin m (λ q n. parse_head core q n h) h).1 (a, b, c))

  read_progress-inverse :
      ParsesSelf core
      → (s : Repository) (job : String) (revision : ℕ) (at : Time) (p : Progress)
      → read_progress core json s job revision at ≡ progress_ready p
      → (x : StoredHead) × (s.heads.get job ≡ some x)
        × (create_progress core x.pin x.manifest x.head (revision == x.pin.base_revision) at
            ≡ some p)
  unfolding read_progress
  read_progress-inverse self s job revision at p e = elim (Read-cases (read_head core json s job)) [
    | inl f ↦ absurd (not_found-not_ready revision at p (read_head core json s job) f e)
    | inr (x, t) ↦ (
      x,
      read_head-found core json self s job x t,
      projected-ready
          (create_progress core x.pin x.manifest x.head (revision == x.pin.base_revision) at) p
          (rw (t, read_projected) at e),
    )
  ]

  -- Where Core's parsers give out what they accept: once a progress of a job of a sound repository is
  -- read, and after any later calls, its progress can still be read, whatever the current revision of
  -- the source and the time are then; it names the same document and the same revision of the source
  -- pin, the revision of the head and the transition number have not fallen, and if the job had ended,
  -- then its status, its counts and its output are the same.
  pub progress-Follows :
      ParsesSelf core
      → (cs : List Call) (s : Repository) (job : String) (revision later : ℕ) (at until : Time)
        (p : Progress)
      → IsSound core json s
      → read_progress core json s job revision at ≡ progress_ready p
      → (q : Progress) × (read_progress core json (run_all core json s cs) job later until
          ≡ progress_ready q)
        × ProgressFollows p q
  unfolding read_progress read_projected projected
  progress-Follows self cs s job revision later at until p sound e =
      let (x, held, made) = read_progress-inverse self s job revision at p e in
      let (pin, m, same) =
        create_progress-inverse self x.pin x.manifest x.head (revision == x.pin.base_revision) at p
          made in
      let (y, stands, l) = (run_all-KeepsAll core json cs s).heads job x held in
      let valid = ((run_all-KeepsSound core json self cs s sound).heads job y stands).head in
      let parsed = (parse_head-AcceptsValid core y.pin y.manifest self y.head).1 valid in
      let q = progress_of core y.pin (later == y.pin.base_revision) until y.head in
      (
        q,
        ap (read_projected core later until)
              (held-read_head (run_all core json s cs) job y stands parsed)
            ∙ ap projected (
                create_progress-shows self y.pin y.manifest y.head (later == y.pin.base_revision)
                  until (subst (λ (z : SourcePin). parse_pin z ≡ some z) (sym l.pin) pin)
                  (subst (λ (z : Manifest). core.parse_manifest z ≡ some z) (sym l.manifest) m)
                  parsed),
        subst (λ z. ProgressFollows z q) (sym same)
            (IsLater-ProgressFollows x y (revision == x.pin.base_revision)
              (later == y.pin.base_revision) at until l),
      )
