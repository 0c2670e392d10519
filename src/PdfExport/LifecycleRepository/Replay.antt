-- ===== src/PdfExport/LifecycleRepository/Replay.antt =====
-- Exact replay of a transition, at once and after any other calls of the repository.
use flowdoc_vnext_backend.Common.{
  ◌≡◌, refl, ◌∙◌, false, some, [], ◌∷◌, ◌==◌, text_eq, number_eq, pair_eq, beq_refl,
}
use flowdoc_vnext_backend.PdfExport.Issue.{issue, Digest, fingerprint}
use flowdoc_vnext_backend.PdfExport.Lifecycle.Head.{HeadFacts, TransitionRequest, ReceiptFacts}
use flowdoc_vnext_backend.PdfExport.Lifecycle.Apply.{inspect-RequestFits}
use flowdoc_vnext_backend.PdfExport.LifecycleRepository.{
  StoredLifecycle, StoredTransition, LifecycleRepository, idempotent_replay, conflict,
  transition_key, with_transition, with_lifecycle, apply_lifecycle_transition,
}
use flowdoc_vnext_backend.PdfExport.LifecycleRepository.Inversion.{Addresses}

module _ ⦃h : Digest HeadFacts⦄ ⦃q : Digest TransitionRequest⦄ ⦃c : Digest ReceiptFacts⦄
    (s : LifecycleRepository) (r : TransitionRequest) where
  addressed :
      (stored : StoredLifecycle)
      → Addresses s r stored
      → apply_lifecycle_transition s r
        ≡ with_transition s stored r (fingerprint r) (s.transition_by_key.get (transition_key r))
  unfolding apply_lifecycle_transition
  addressed stored a =
      rw (inspect-RequestFits r a.fits, apply_lifecycle_transition)
        (rw (a.is_stored, with_lifecycle) (rw (a.in_scope, with_lifecycle) refl))

  pub replayed :
      (stored : StoredLifecycle) (t : StoredTransition)
      → Addresses s r stored
      → s.transition_by_key.get (transition_key r) ≡ some t
      → t.request_fingerprint ≡ fingerprint r
      → apply_lifecycle_transition s r ≡ (s, idempotent_replay t.result_head t.receipt)
  unfolding with_transition
  replayed stored t a g e =
      addressed stored a
      ∙ rw (g, with_transition) (rw (e, with_transition) (rw (beq_refl (fingerprint r)) refl))

  -- A transition id that is kept for another request is refused, and nothing changes.
  pub reused :
      (stored : StoredLifecycle) (t : StoredTransition)
      → Addresses s r stored
      → s.transition_by_key.get (transition_key r) ≡ some t
      → (t.request_fingerprint == fingerprint r) ≡ false
      → apply_lifecycle_transition s r ≡ (
        s,
        conflict stored.head (issue "pdf-export-lifecycle-transition-conflict" "transitionId" ∷ []),
      )
  unfolding with_transition
  reused stored t a g e =
      addressed stored a ∙ rw (g, with_transition) (rw (e, with_transition) refl)
