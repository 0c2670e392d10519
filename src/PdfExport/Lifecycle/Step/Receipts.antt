-- ===== src/PdfExport/Lifecycle/Step/Receipts.antt =====
-- The receipt of a transition (transitionReceipt of pdfExport/pdfExportLifecycle.ts).
use flowdoc_vnext_backend.Common.{◌+◌, ◌≡◌, refl, sym, ap, ◌∙◌}
use flowdoc_vnext_backend.PdfExport.Issue.{Digest, fingerprint}
use flowdoc_vnext_backend.PdfExport.Lifecycle.Head.{
  Head, TransitionKind, claim, request_cancellation, pass_checkpoint, release_claim,
  check_checkpoint, enforce_deadline, force_shutdown, TransitionRequest, KindName, ReceiptFacts,
  Receipt,
}
use flowdoc_vnext_backend.PdfExport.Lifecycle.Transition.{kind_name, transition_receipt}

-- The name of a kind of transition.
abbrev pub Names : TransitionKind → KindName → Type 0
Names (claim _ _ _) n = n ≡ KindName.claim
Names request_cancellation n = n ≡ KindName.request_cancellation
Names (pass_checkpoint _ _) n = n ≡ KindName.pass_checkpoint
Names (release_claim _ _) n = n ≡ KindName.release_claim
Names (check_checkpoint _) n = n ≡ KindName.check_checkpoint
Names enforce_deadline n = n ≡ KindName.enforce_deadline
Names force_shutdown n = n ≡ KindName.force_shutdown

kind_name-Names : (k : TransitionKind) → Names k (kind_name k)
kind_name-Names (claim _ _ _) = refl
kind_name-Names request_cancellation = refl
kind_name-Names (pass_checkpoint _ _) = refl
kind_name-Names (release_claim _ _) = refl
kind_name-Names (check_checkpoint _) = refl
kind_name-Names enforce_deadline = refl
kind_name-Names force_shutdown = refl

Names-kind_name : (k : TransitionKind) (n : KindName) → Names k n → n ≡ kind_name k
Names-kind_name (claim _ _ _) n e = e
Names-kind_name request_cancellation n e = e
Names-kind_name (pass_checkpoint _ _) n e = e
Names-kind_name (release_claim _ _) n e = e
Names-kind_name (check_checkpoint _) n e = e
Names-kind_name enforce_deadline n e = e
Names-kind_name force_shutdown n e = e

-- A receipt of a request, from the one head to the other.
pub record Records ⦃q : Digest TransitionRequest⦄ ⦃c : Digest ReceiptFacts⦄ (r : TransitionRequest)
    (h g : Head) (receipt : Receipt) : Type 0 where
  pub source : receipt.facts.source ≡ "flowdoc-backend-pdf-export-lifecycle-transition"
  pub contract_version : receipt.facts.contract_version ≡ 1
  pub kind : receipt.facts.kind ≡ "pdf-export-lifecycle-transition-receipt"
  pub transition : receipt.facts.transition_id ≡ r.transition_id
  pub operation : receipt.facts.operation_id ≡ r.operation_id
  pub transition_kind : Names r.kind receipt.facts.transition_kind
  pub request : receipt.facts.request_fingerprint ≡ fingerprint r
  pub from_revision : receipt.facts.from_head_revision ≡ h.head_revision
  pub to_revision : receipt.facts.to_head_revision ≡ h.head_revision + 1
  pub result : receipt.facts.result_head_fingerprint ≡ g.lifecycle_fingerprint
  pub applied : receipt.facts.applied_at ≡ r.transition_at
  pub matches : receipt.receipt_fingerprint ≡ fingerprint receipt.facts

module _ ⦃q : Digest TransitionRequest⦄ ⦃c : Digest ReceiptFacts⦄ (r : TransitionRequest)
    (h g : Head) (on : g.head_revision ≡ h.head_revision + 1) where
  -- The code makes such a receipt,
  pub receipt-Records : Records r h g (transition_receipt r (fingerprint r) h g)
  unfolding transition_receipt
  receipt-Records = record {
    source = refl;
    contract_version = refl;
    kind = refl;
    transition = refl;
    operation = refl;
    transition_kind = kind_name-Names r.kind;
    request = refl;
    from_revision = refl;
    to_revision = on;
    result = refl;
    applied = refl;
    matches = refl;
  }

  -- and there is no other.
  pub Records-receipt :
      (receipt : Receipt)
      → Records r h g receipt
      → receipt ≡ transition_receipt r (fingerprint r) h g
  unfolding transition_receipt
  Records-receipt receipt a =
      let made = transition_receipt r (fingerprint r) h g in
      let same : receipt.facts ≡ made.facts = λ i. record {
        source = a.source i;
        contract_version = a.contract_version i;
        kind = a.kind i;
        transition_id = a.transition i;
        operation_id = a.operation i;
        transition_kind = Names-kind_name r.kind receipt.facts.transition_kind a.transition_kind i;
        request_fingerprint = a.request i;
        from_head_revision = a.from_revision i;
        to_head_revision = (a.to_revision ∙ sym on) i;
        result_head_fingerprint = a.result i;
        applied_at = a.applied i;
      } in
      let text : receipt.receipt_fingerprint ≡ made.receipt_fingerprint =
        a.matches ∙ ap (λ (f : ReceiptFacts). fingerprint f) same in
      λ i. record { facts = same i; receipt_fingerprint = text i }
