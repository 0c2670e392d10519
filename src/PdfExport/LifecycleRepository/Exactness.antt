-- ===== src/PdfExport/LifecycleRepository/Exactness.antt =====
-- An applied transition is applied once: it replays for ever, its id is taken, its revision is spent.
use mathlib.Core.Path.{subst₂}
use flowdoc_vnext_backend.Common.{
  String, ◌≡◌, refl, sym, ap, ◌∙◌, ◌≢◌, ◌≤◌, ◌+◌, true, false, some, arith, List, [], ◌∷◌, ◌==◌,
  text_eq, pair_eq,
}
use flowdoc_vnext_backend.Common.Dict.{get-set_self}
use flowdoc_vnext_backend.PdfExport.Issue.{issue, Digest, fingerprint}
use flowdoc_vnext_backend.PdfExport.Operation.{CoreNames, AdmissionFacts, OperationFacts}
use flowdoc_vnext_backend.PdfExport.Lifecycle.Head.{
  HeadFacts, Head, TransitionRequest, ReceiptFacts, Receipt,
}
use flowdoc_vnext_backend.PdfExport.Lifecycle.Step.{RequestFits}
use flowdoc_vnext_backend.PdfExport.LifecycleRepository.{
  StoredLifecycle, StoredTransition, LifecycleRepository, applied, idempotent_replay, conflict,
  kept, same_scope, request_scope, transition_key, apply_lifecycle_transition,
}
use flowdoc_vnext_backend.PdfExport.LifecycleRepository.Inversion.{Applied, apply_lifecycle-Applied}
use flowdoc_vnext_backend.PdfExport.LifecycleRepository.Replay.{replayed, reused}
use flowdoc_vnext_backend.PdfExport.LifecycleRepository.Retention.{
  Call, Retains, revision_grows, run_calls, run_calls-Retains,
}

module _ ⦃h : Digest HeadFacts⦄ ⦃q : Digest TransitionRequest⦄ ⦃c : Digest ReceiptFacts⦄
    {s s' : LifecycleRepository} {r : TransitionRequest} {head : Head} {receipt : Receipt}
    (a : Applied s r s' head receipt) where
  abbrev entry : StoredLifecycle
  entry = record a.stored { head = head }

  abbrev memory : StoredTransition
  memory = record { request_fingerprint = fingerprint r; receipt = receipt; result_head = head }

  entry-stored : s'.lifecycle_by_operation_id.get r.operation_id ≡ some entry
  unfolding kept
  entry-stored =
      ap (λ (x : LifecycleRepository). x.lifecycle_by_operation_id.get r.operation_id) a.writes
      ∙ get-set_self s.lifecycle_by_operation_id r.operation_id entry

  memory-stored : s'.transition_by_key.get (transition_key r) ≡ some memory
  unfolding kept
  memory-stored =
      ap (λ (x : LifecycleRepository). x.transition_by_key.get (transition_key r)) a.writes
      ∙ get-set_self s.transition_by_key (transition_key r) memory

  -- What a later state holds of the applied transition.
  record Held (u : LifecycleRepository) : Type 0 where
    stored : StoredLifecycle
    is_stored : u.lifecycle_by_operation_id.get r.operation_id ≡ some stored
    scope : stored.scope ≡ a.stored.scope
    revision : a.stored.head.head_revision + 1 ≤ stored.head.head_revision
    is_kept : u.transition_by_key.get (transition_key r) ≡ some memory

  Retains-Held : (u : LifecycleRepository) → Retains s' u → Held u
  Retains-Held u keeps =
      let (stored, is_stored, scope, revision) =
        keeps.lifecycles r.operation_id entry entry-stored in
      record {
        stored = stored;
        is_stored = is_stored;
        scope = scope;
        revision = omega (arith, revision, revision_grows s r a.stored.head head receipt a.pure);
        is_kept = keeps.transitions (transition_key r) memory memory-stored;
      }

  Held-replay :
      (u : LifecycleRepository)
      → Held u
      → apply_lifecycle_transition u r ≡ (u, idempotent_replay head receipt)
  Held-replay u k =
      replayed u r k.stored memory
        (record {
          fits = a.addresses.fits;
          is_stored = k.is_stored;
          in_scope = rw k.scope a.addresses.in_scope;
        })
        k.is_kept refl

module _ (names : CoreNames) ⦃a : Digest AdmissionFacts⦄ ⦃o : Digest OperationFacts⦄
    ⦃h : Digest HeadFacts⦄ ⦃q : Digest TransitionRequest⦄ ⦃c : Digest ReceiptFacts⦄
    (s s' : LifecycleRepository) (r : TransitionRequest) (head : Head) (receipt : Receipt)
    (answer : apply_lifecycle_transition s r ≡ (s', applied head receipt)) (calls : List Call) where
  held : Held (apply_lifecycle-Applied s r answer) (run_calls names s' calls)
  held =
      Retains-Held (apply_lifecycle-Applied s r answer) (run_calls names s' calls)
        (run_calls-Retains names s' calls)

  -- After an applied transition and any further calls, the same request gets the head and the
  -- receipt that it got, as a replay, and changes nothing.
  pub transition-replays :
      apply_lifecycle_transition (run_calls names s' calls) r
      ≡ (run_calls names s' calls, idempotent_replay head receipt)
  transition-replays =
      Held-replay (apply_lifecycle-Applied s r answer) (run_calls names s' calls) held

  -- Another request in form, with the same ids and scope and another fingerprint, is a conflict from
  -- then on, and changes nothing.
  pub transition_id-conflicts :
      (other : TransitionRequest)
      → RequestFits other
      → transition_key other ≡ transition_key r
      → request_scope other ≡ request_scope r
      → (fingerprint r == fingerprint other) ≡ false
      → (current : Head) × (apply_lifecycle_transition (run_calls names s' calls) other ≡ (
        run_calls names s' calls,
        conflict current (issue "pdf-export-lifecycle-transition-conflict" "transitionId" ∷ []),
      ))
  transition_id-conflicts other fits key scope differ =
      let u = run_calls names s' calls in
      let a = apply_lifecycle-Applied s r answer in
      let at_id = ap u.lifecycle_by_operation_id.get (ap (λ (k : String × String). k.0) key) in
      (
        held.stored.head,
        reused u other held.stored (memory a)
            (record {
              fits = fits;
              is_stored = at_id ∙ held.is_stored;
              in_scope =
                  subst₂ (λ x y. same_scope x y ≡ true) (sym held.scope) (sym scope)
                    a.addresses.in_scope;
            })
            (ap u.transition_by_key.get key ∙ held.is_kept) differ,
      )

  -- No other request that expects the revision which the transition was applied to is ever applied.
  pub revision-spent :
      (other : TransitionRequest) (u : LifecycleRepository) (later : Head) (proof : Receipt)
      → other.operation_id ≡ r.operation_id
      → other.expected_head_revision ≡ r.expected_head_revision
      → apply_lifecycle_transition (run_calls names s' calls) other ≢ (u, applied later proof)
  revision-spent other u later proof same expects claim =
      let v = run_calls names s' calls in
      let a = apply_lifecycle-Applied s r answer in
      let b = apply_lifecycle-Applied v other claim in
      let at_id = ap v.lifecycle_by_operation_id.get same in
      let one : b.stored ≡ held.stored = cc (at_id, held.is_stored, b.addresses.is_stored) in
      let revision = ap (λ (x : StoredLifecycle). x.head.head_revision) one in
      absurd (omega (arith, revision, held.revision, b.current, a.current))
