-- ===== src/Service/Mutation/Atomicity.antt =====
-- A mutation is applied at the revision that it was made for, and once (service/mutationService.ts).

use flowdoc_vnext_backend.Common.{
  String, ◌≡◌, ◌≢◌, refl, sym, ap, ◌∙◌, inl, inr, Bool, true, false, Option, none, some, List, ◌==◌,
  text_eq, number_eq, arith, Bool-cases, Option-cases,
}
use flowdoc_vnext_backend.PdfExport.Issue.{Time}
use flowdoc_vnext_backend.Storage.Package.{
  PackageV2, PackageV3, StoredPackage, active, next, is_active, CorePackages,
}
use flowdoc_vnext_backend.Storage.PackageRepository.{
  PackageRecord, MutationWriteRequest, MutationReceipt, WriteResult, written, idempotent_replay,
  refused, not_found, revision_conflict, unsupported_version, invalid_package, idempotency_conflict,
  thrown, PackageRepository, read, read_mutation_receipt, both_or_neither, write_mutation,
}
use flowdoc_vnext_backend.Storage.PackageRepository.Changes.{Call, run_all}
use flowdoc_vnext_backend.Service.Mutation.{
  MutationRequest, MutationOperation, node, rich_inline_replace, Edit, committed, not_committed,
  CoreEdits, Envelope, answers, Plan, finish, submit, success, after_v2, after_v3, replace_in, edit,
  plan_new, replay_answer, settle, conclude, carry_out, execute_with, execute_mutation,
}

module _ (core : CorePackages) (edits : CoreEdits) (fingerprint_of : MutationRequest → String) where
  -- A write for the request.
  pub record Writes (r : MutationRequest) (w : MutationWriteRequest) : Type 0 where
    pub document : w.document_id ≡ r.document_id
    pub request : w.request_id ≡ r.request_id
    pub print : w.request_fingerprint ≡ fingerprint_of r
    pub base : w.expected_revision ≡ r.base_revision

  -- A plan writes for the request, or ends without a word of idempotency.
  abbrev pub PlanFits : MutationRequest → Plan → Type 0
  PlanFits r (finish x) = (e : Envelope) → x ≡ answers e → e.replayed ≡ none
  PlanFits r (submit older w) = Writes r w

  module _ (r : MutationRequest) (at : Time) (c : PackageRecord)
      (current : c.revision ≡ r.base_revision) where
    after_v2-PlanFits :
        (x : Edit PackageV2) → PlanFits r (after_v2 core edits fingerprint_of r at c x)
    unfolding after_v2
    after_v2-PlanFits (not_committed codes) = λ e q. ground arith
    after_v2-PlanFits (committed p summary targets) = elim (Option-cases (edits.stamp_v2 p at)) [
      | inl t ↦ rw (t, after_v2) (λ e q. cc q)
      | inr (q, t) ↦
          rw (t, after_v2)
            (record { document = refl; request = refl; print = refl; base = current })
    ]

    after_v3-PlanFits :
        (x : Edit PackageV3) → PlanFits r (after_v3 core edits fingerprint_of r at c x)
    unfolding after_v3
    after_v3-PlanFits (not_committed codes) = λ e q. ground arith
    after_v3-PlanFits (committed p summary targets) = elim (Option-cases (edits.stamp_v3 p at)) [
      | inl t ↦ rw (t, after_v3) (λ e q. cc q)
      | inr (q, t) ↦
          rw (t, after_v3)
            (record { document = refl; request = refl; print = refl; base = current })
    ]

    edit-PlanFits :
        (p : StoredPackage) (o : MutationOperation)
        → PlanFits r (edit core edits fingerprint_of r at c p o)
    unfolding edit replace_in
    edit-PlanFits (active p) (rich_inline_replace block children) = λ e q. ground arith
    edit-PlanFits (active p) (node o) = after_v2-PlanFits _
    edit-PlanFits (next p) (node o) = after_v3-PlanFits _
    edit-PlanFits (next p) (rich_inline_replace block children) =
        elim (Option-cases c.authoring_context) [
          | inl t ↦ rw (t, edit) (λ e q. ground arith)
          | inr (x, t) ↦ rw (t, edit) (after_v3-PlanFits _)
        ]

  pub plan_new-PlanFits :
      (r : MutationRequest) (at : Time) (o : Option PackageRecord)
      → PlanFits r (plan_new core edits fingerprint_of r at o)
  unfolding plan_new
  plan_new-PlanFits r at none = λ e q. ground arith
  plan_new-PlanFits r at (some c) = elim (Bool-cases (c.revision == r.base_revision)) [
    | inl e ↦ rw (e, plan_new) (edit-PlanFits r at c (ground arith) c.package_value r.operation)
    | inr e ↦ rw (e, plan_new) (λ x q. ground arith)
  ]

  -- A mutation that was applied anew: one write, for the request, on a state of the repository.
  pub record Applied (r : MutationRequest) (e : Envelope) (u : PackageRepository) : Type 0 where
    pub state : PackageRepository
    pub request : MutationWriteRequest
    pub receipt : MutationReceipt
    pub fits : Writes r request
    pub wrote : (write_mutation core state request).1 ≡ written receipt
    pub result : u ≡ (write_mutation core state request).0
    pub answer : e ≡ success r false receipt r.base_revision r.document_id request.core

  replay_answer-not_new :
      (r : MutationRequest) (m : MutationReceipt)
      → (replay_answer core edits fingerprint_of r m).replayed ≢ some false
  unfolding replay_answer
  replay_answer-not_new r m = elim (Bool-cases (m.request_fingerprint == fingerprint_of r)) [
    | inl e ↦ rw (e, replay_answer) (λ q. ground arith)
    | inr e ↦ rw (e, replay_answer) (λ q. ground arith)
  ]

  true-≢-false : true ≢ false
  true-≢-false q = ground arith

  some-not_none : some false ≢ none
  some-not_none q = cc q

  settle-new :
      (r : MutationRequest) (older : Bool) (w : MutationWriteRequest) (b : Bool)
      (m : MutationReceipt)
      → (settle core edits fingerprint_of r older w b m).replayed ≡ some false
      → (b ≡ false)
        × (settle core edits fingerprint_of r older w b m
            ≡ success r b m r.base_revision r.document_id w.core)
  unfolding settle
  settle-new r older w b m =
      elim (Bool-cases (both_or_neither core older (is_active m.stored.package_value))) [
        | inl e ↦ rw (e, settle) (λ q. (ground arith, refl))
        | inr e ↦ rw (e, settle) (λ q. ground arith)
      ]

  conclude-new :
      (r : MutationRequest) (older : Bool) (w : MutationWriteRequest)
      (x : WriteResult MutationReceipt) (e : Envelope)
      → conclude core edits fingerprint_of r older w x ≡ answers e
      → e.replayed ≡ some false
      → (m : MutationReceipt) × (x ≡ written m)
        × (e ≡ success r false m r.base_revision r.document_id w.core)
  unfolding conclude
  conclude-new r older w (written m) e q f =
      let same : settle core edits fingerprint_of r older w false m ≡ e = cc q in
      let x = settle-new r older w false m (ap (λ (z : Envelope). z.replayed) same ∙ f) in
      (m, refl, sym same ∙ x.1)
  conclude-new r older w (idempotent_replay m) e q f =
      let same : settle core edits fingerprint_of r older w true m ≡ e = cc q in
      let x = settle-new r older w true m (ap (λ (z : Envelope). z.replayed) same ∙ f) in
      absurd (true-≢-false x.0)
  conclude-new r older w (refused not_found) e q f = ground arith
  conclude-new r older w (refused thrown) e q f = ground arith
  conclude-new r older w (refused (revision_conflict n)) e q f = ground arith
  conclude-new r older w (refused (unsupported_version n)) e q f = ground arith
  conclude-new r older w (refused (invalid_package n)) e q f = ground arith
  conclude-new r older w (refused (idempotency_conflict n)) e q f = ground arith

  carry_out-new :
      (s : PackageRepository) (second : List Call) (r : MutationRequest) (p : Plan) (e : Envelope)
      → PlanFits r p
      → (carry_out core edits fingerprint_of s second r p).1 ≡ answers e
      → e.replayed ≡ some false
      → Applied r e (carry_out core edits fingerprint_of s second r p).0
  unfolding carry_out
  carry_out-new s second r (finish x) e fits q f = absurd (some-not_none (sym f ∙ fits e q))
  carry_out-new s second r (submit older w) e fits q f =
      let u = run_all core s second in
      let (m, wrote, answer) = conclude-new r older w (write_mutation core u w).1 e q f in
      record {
        state = u;
        request = w;
        receipt = m;
        fits = fits;
        wrote = wrote;
        result = refl;
        answer = answer;
      }

  execute_with-new :
      (s : PackageRepository) (first second : List Call) (r : MutationRequest) (at : Time)
      (o : Option MutationReceipt) (e : Envelope)
      → (execute_with core edits fingerprint_of s first second r at o).1 ≡ answers e
      → e.replayed ≡ some false
      → Applied r e (execute_with core edits fingerprint_of s first second r at o).0
  unfolding execute_with
  execute_with-new s first second r at (some m) e q f =
      let same : replay_answer core edits fingerprint_of r m ≡ e = cc q in
      absurd (replay_answer-not_new r m (ap (λ (z : Envelope). z.replayed) same ∙ f))
  execute_with-new s first second r at none e q f =
      let u = run_all core s first in
      carry_out-new u second r (plan_new core edits fingerprint_of r at (read u r.document_id)) e
        (plan_new-PlanFits r at (read u r.document_id)) q f

  pub execute_mutation-Applied :
      (s : PackageRepository) (first second : List Call) (r : MutationRequest) (at : Time)
      (e : Envelope)
      → (execute_mutation core edits fingerprint_of s first second r at).1 ≡ answers e
      → e.replayed ≡ some false
      → Applied r e (execute_mutation core edits fingerprint_of s first second r at).0
  unfolding execute_mutation
  execute_mutation-Applied s first second r at e q f =
      execute_with-new s first second r at (read_mutation_receipt s r.document_id r.request_id) e q
        f
