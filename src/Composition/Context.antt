-- ===== src/Composition/Context.antt =====
-- The contracts of composition/compositionSchedulerJobHead.ts and of
-- composition/compositionSchedulerTransitionRecords.ts on a context that has not been parsed: the source
-- pin and the manifest are parsed first.
use mathlib.Core.Path.{subst}
use flowdoc_vnext_backend.Common.{◌≡◌, ◌↔◌, ap, ◌∙◌, Option, none, some, inl, inr, Option-cases}
use flowdoc_vnext_backend.PdfExport.Issue.{Digest}
use flowdoc_vnext_backend.Composition.Core.{Manifest, CompositionCore, ParsesSelf}
use flowdoc_vnext_backend.Composition.SourcePin.{PinFacts, SourcePin, parse_pin}
use flowdoc_vnext_backend.Composition.JobHead.{JobFacts, JobHead, finalize_head, parse_head}
use flowdoc_vnext_backend.Composition.Transition.{
  ChunkFacts, PageChunk, finalize_chunk, parse_chunk, ReceiptFacts, Receipt, finalize_receipt,
  parse_receipt,
}
use flowdoc_vnext_backend.Composition.Repository.Soundness.{parse_pin-inverse}

-- parseContext and parseOwners, followed by what uses the context.
unfoldable pub in_context :
    {A : Type 0} → Option SourcePin → Option Manifest → (SourcePin → Manifest → Option A) → Option A
in_context none m use_it = none
in_context (some pin) none use_it = none
in_context (some pin) (some m) use_it = use_it pin m

module _ (core : CompositionCore) ⦃head_digest : Digest JobFacts⦄ ⦃pin_digest : Digest PinFacts⦄
    ⦃chunk_digest : Digest ChunkFacts⦄ ⦃receipt_digest : Digest ReceiptFacts⦄ where
  abbrev pub with_context :
      {A : Type 0} → SourcePin → Manifest → (SourcePin → Manifest → Option A) → Option A
  with_context pin m use_it = in_context (parse_pin pin) (core.parse_manifest m) use_it

  -- finalizeFlowDocBackendCompositionJobHeadV1
  unfoldable pub finalize_head_of : SourcePin → Manifest → JobFacts → Option JobHead
  unfolding in_context
  finalize_head_of pin m f = with_context pin m (λ p n. finalize_head core p n f)

  -- parseFlowDocBackendCompositionJobHeadV1
  unfoldable pub parse_head_of : SourcePin → Manifest → JobHead → Option JobHead
  unfolding in_context
  parse_head_of pin m h = with_context pin m (λ p n. parse_head core p n h)

  -- finalizeFlowDocBackendCompositionPageChunkV1
  unfoldable pub finalize_chunk_of : SourcePin → Manifest → ChunkFacts → Option PageChunk
  unfolding in_context
  finalize_chunk_of pin m f = with_context pin m (λ p n. finalize_chunk core p n f)

  -- parseFlowDocBackendCompositionPageChunkV1
  unfoldable pub parse_chunk_of : SourcePin → Manifest → PageChunk → Option PageChunk
  unfolding in_context
  parse_chunk_of pin m c = with_context pin m (λ p n. parse_chunk core p n c)

  -- finalizeFlowDocBackendCompositionTransitionReceiptV1
  unfoldable pub finalize_receipt_of : SourcePin → Manifest → ReceiptFacts → Option Receipt
  unfolding in_context
  finalize_receipt_of pin m f = with_context pin m (λ p n. finalize_receipt p n f)

  -- parseFlowDocBackendCompositionTransitionReceiptV1
  unfoldable pub parse_receipt_of : SourcePin → Manifest → Receipt → Option Receipt
  unfolding in_context
  parse_receipt_of pin m r = with_context pin m (λ p n. parse_receipt p n r)

  -- Where Core's parsers give out what they accept, a contract on a context gives a value exactly where
  -- the source pin and the manifest are accepted and the contract on them gives it.
  pub with_context_iff :
      {A : Type 0}
      → ParsesSelf core
      → (pin : SourcePin) (m : Manifest) (use_it : SourcePin → Manifest → Option A) (a : A)
      → (with_context pin m use_it ≡ some a)
        ↔ ((parse_pin pin ≡ some pin) × (core.parse_manifest m ≡ some m) × (use_it pin m ≡ some a))
  unfolding in_context
  with_context_iff self pin m use_it a = (
    λ e. elim (Option-cases (parse_pin pin)) [
      | inl t ↦ cc (rw (t, in_context) at e)
      | inr (p, t) ↦ elim (Option-cases (core.parse_manifest m)) [
        | inl u ↦ cc (rw (t, u, in_context) at e)
        | inr (n, u) ↦
            let same = (parse_pin-inverse pin p t).0 in
            let same_manifest = self.manifest_self m n u in
            let used : use_it p n ≡ some a = rw (t, u, in_context) at e in
            (
              t ∙ ap (λ (z : SourcePin). some z) same,
              u ∙ ap (λ (z : Manifest). some z) same_manifest,
              subst (λ (z : SourcePin × Manifest). use_it z.0 z.1 ≡ some a)
                  (λ i. (same i, same_manifest i)) used,
            )
      ]
    ],
    λ (t, u, used). rw (t, u, in_context) used,
  )
