-- ===== src/PdfExport/Lifecycle/Step.antt =====
-- What one applied transition does to the facts of a head.
pub mod Effects
pub mod Receipts
pub mod Relation
pub mod Code
pub mod Refusals
pub mod Valid
use flowdoc_vnext_backend.Common.{◌≡◌, refl, true, false, ◌↔◌, ◌≢◌, [], arith}
use flowdoc_vnext_backend.Common.Text.{is_bounded}
use flowdoc_vnext_backend.PdfExport.Issue.{AllPass}
use flowdoc_vnext_backend.PdfExport.Lifecycle.Head.{
  TransitionKind, claim, request_cancellation, pass_checkpoint, release_claim, check_checkpoint,
  enforce_deadline, force_shutdown, before_handoff, TransitionRequest,
}
use flowdoc_vnext_backend.PdfExport.Lifecycle.Transition.{request_rows}

-- What the fields of a kind must satisfy.
abbrev pub KindFits : TransitionKind → Type 0
KindFits (claim token worker expires) = (is_bounded token ≡ true) × (is_bounded worker ≡ true)
KindFits (pass_checkpoint token following) =
    (is_bounded token ≡ true) × (following ≢ before_handoff)
KindFits (release_claim token retry) = is_bounded token ≡ true
KindFits (check_checkpoint token) = is_bounded token ≡ true
KindFits request_cancellation = Unit
KindFits enforce_deadline = Unit
KindFits force_shutdown = Unit

pub record RequestFits (r : TransitionRequest) : Type 0 where
  pub transition : is_bounded r.transition_id ≡ true
  pub tenant : is_bounded r.tenant_id ≡ true
  pub principal : is_bounded r.principal_id ≡ true
  pub operation : is_bounded r.operation_id ≡ true
  pub kind : KindFits r.kind

-- The inspection tests exactly that.
pub rows-RequestFits : (r : TransitionRequest) → AllPass (request_rows r) ↔ RequestFits r
unfolding request_rows
rows-RequestFits r = (λ h. ground arith, λ h. ground arith)
