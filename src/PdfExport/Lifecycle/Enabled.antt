-- ===== src/PdfExport/Lifecycle/Enabled.antt =====
-- What a live lifecycle cannot be refused: what the step relation allows it, and being ended.
use flowdoc_vnext_backend.Common.{◌≤◌, ◌≡◌, refl, ◌⊎◌, inl, inr}
use flowdoc_vnext_backend.PdfExport.Issue.{Digest, fingerprint}
use flowdoc_vnext_backend.PdfExport.Lifecycle.Head.{
  enforce_deadline, force_shutdown, deadline_exceeded, shutdown_forced, StopReason, HeadFacts, Head,
  TransitionRequest, ReceiptFacts,
}
use flowdoc_vnext_backend.PdfExport.Lifecycle.Transition.{
  applied, finalize_head, transition_receipt, apply_transition,
}
use flowdoc_vnext_backend.PdfExport.Lifecycle.Validity.{IsValid}
use flowdoc_vnext_backend.PdfExport.Lifecycle.Step.{RequestFits}
use flowdoc_vnext_backend.PdfExport.Lifecycle.Step.Relation.{Effect, forced, enforced, Reads, Step}
use flowdoc_vnext_backend.PdfExport.Lifecycle.Apply.{apply-Applies}
use flowdoc_vnext_backend.PdfExport.Lifecycle.Binding.{Step-Continues}
use flowdoc_vnext_backend.PdfExport.Lifecycle.Step.Effects.{after_stop}
use flowdoc_vnext_backend.PdfExport.Lifecycle.Step.Receipts.{receipt-Records}

module _ ⦃d : Digest HeadFacts⦄ ⦃q : Digest TransitionRequest⦄ ⦃c : Digest ReceiptFacts⦄ (h : Head)
    (r : TransitionRequest) (v : IsValid h) (fits : RequestFits r) (reads : Reads h.facts r) where
  -- The answer to a request that writes these facts.
  abbrev pub Gives : HeadFacts → Type 0
  Gives f =
      apply_transition h r
      ≡ applied (finalize_head f) (transition_receipt r (fingerprint r) h (finalize_head f))

  pub Effect-Gives : (f : HeadFacts) → Effect h.facts r f r.kind → Gives f
  unfolding finalize_head
  Effect-Gives f e =
      let step : Step h.facts r f = record { reads = reads; effect = e } in
      (apply-Applies h r (finalize_head f)
          (transition_receipt r (fingerprint r) h (finalize_head f))).1
        (record {
          valid = v;
          fits = fits;
          step = step;
          result = refl;
          records = receipt-Records r h (finalize_head f) (Step-Continues r step).revision;
        })

  -- Whatever its state, a valid live head is ended by a forced shutdown at any time that is not before
  -- its last update, and by a deadline request from the deadline on, with that reason, at the
  -- checkpoint it had, and with its claim dropped.
  pub apply-ends :
      (reason : StopReason)
      → (r.kind ≡ force_shutdown) × (reason ≡ shutdown_forced)
        ⊎ (r.kind ≡ enforce_deadline)
          × (reason ≡ deadline_exceeded)
          × (h.deadline_at ≤ r.transition_at)
      → Gives (after_stop h.facts reason r.transition_at h.cancellation)
  apply-ends reason (inl (e, why)) = rw why (Effect-Gives _ (rw e (forced refl)))
  apply-ends reason (inr (e, why, over)) = rw why (Effect-Gives _ (rw e (enforced over refl)))
