-- ===== src/PdfExport/Lifecycle/Behaviour.antt =====
-- What an answer of the apply function of pdfExport/pdfExportLifecycle.ts tells a caller about the
-- head that it gave and the head that it got.
use flowdoc_vnext_backend.Common.{◌≤◌, ◌<◌, ◌≡◌, ◌≢◌, some, none}
use flowdoc_vnext_backend.PdfExport.Issue.{Digest}
use flowdoc_vnext_backend.PdfExport.Lifecycle.Head.{
  claimed, stopped, Claim, HeadFacts, Head, TransitionRequest, ReceiptFacts, Receipt,
}
use flowdoc_vnext_backend.PdfExport.Lifecycle.Transition.{applied, apply_transition}
use flowdoc_vnext_backend.PdfExport.Lifecycle.Step.Relation.{Reads}
use flowdoc_vnext_backend.PdfExport.Lifecycle.Apply.{Applies, apply-Applies}
use flowdoc_vnext_backend.PdfExport.Lifecycle.Binding.{Continues, Step-Continues}
use flowdoc_vnext_backend.PdfExport.Lifecycle.Claims.{Keeps, Step-Keeps}
use flowdoc_vnext_backend.PdfExport.Lifecycle.Ending.{EndsLate, Step-cancelled, Step-late}
use flowdoc_vnext_backend.PdfExport.Lifecycle.Progress.{Moves, Step-Moves}

module _ ⦃d : Digest HeadFacts⦄ ⦃q : Digest TransitionRequest⦄ ⦃c : Digest ReceiptFacts⦄
    (h g : Head) (r : TransitionRequest) (receipt : Receipt)
    (answer : apply_transition h r ≡ applied g receipt) where
  made : Applies h r g receipt
  made = (apply-Applies h r g receipt).0 answer

  -- A head to which a request is applied had not stopped; the request is for its operation and its
  -- revision, and no earlier than its last update.
  pub applied-Reads : Reads h.facts r
  applied-Reads = made.step.reads

  -- An applied request leaves the operation, the scope, the fingerprints, the attempt limit, the
  -- creation, the deadline and the contracts of the head as they were, raises the revision by one and
  -- sets the time of the last update to its own.
  pub applied-Continues : Continues h.facts r.transition_at g.facts
  applied-Continues = Step-Continues r made.step

  -- An applied request ends the lifecycle, at the checkpoint and the attempt count that it had; or leaves both, of a
  -- claimed head, for a cancellation or a check; or passes one checkpoint in their order, for its owner;
  -- or gives the claim back, for a release, and returns to the first checkpoint; or starts one more
  -- attempt below the limit, for a claim: at the checkpoint that a pending head had, and at the first one
  -- where the claim is taken from a head that is still claimed.
  pub applied-Moves : Moves h.facts r.kind g.facts
  applied-Moves = Step-Moves r made.step

  -- A request that is applied to a claimed head, before its claim expires, leaves the claim in place,
  -- or ends the lifecycle, or gives the claim back and shows its token.
  pub applied-Keeps :
      (held : Claim)
      → h.claim ≡ some held
      → h.status ≡ claimed
      → r.transition_at < held.expires_at
      → Keeps held r.kind g.facts
  applied-Keeps held own live unexpired = Step-Keeps held own r unexpired live made.step

  -- Once a cancellation is recorded, any request that is applied ends the lifecycle.
  pub applied-cancelled : h.cancellation ≢ none → g.status ≡ stopped
  applied-cancelled asked = Step-cancelled asked r made.step

  -- From the deadline on, any request that is applied ends the lifecycle at its time, at the
  -- checkpoint of the head and without a claim, for the deadline or by a forced shutdown.
  pub applied-late : h.deadline_at ≤ r.transition_at → EndsLate h.facts r.transition_at g.facts
  applied-late past = Step-late made.valid.facts r past made.step
