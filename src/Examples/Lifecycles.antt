-- ===== src/Examples/Lifecycles.antt =====
-- The lifecycle of an export: created, taken, cancelled while it is taken, and ended.
use flowdoc_vnext_backend.Common.{ℕ, String, true, some, ◌≡◌, refl, [], ◌∷◌, arith, inl, ◌↔◌}
use flowdoc_vnext_backend.Common.Text.{is_bounded}
use flowdoc_vnext_backend.PdfExport.Lifecycle.Head.{
  TransitionKind, Claim, Head, TransitionRequest, claim, request_cancellation, force_shutdown,
  shutdown_forced, Receipt,
}
use flowdoc_vnext_backend.PdfExport.Issue.{Time, Issue, issue, fingerprint}
use flowdoc_vnext_backend.PdfExport.Lifecycle.Parse
use flowdoc_vnext_backend.PdfExport.Lifecycle.Parse.{parse_head, head_rows}
use flowdoc_vnext_backend.PdfExport.Lifecycle.Transition.{
  initial_facts, finalize_head, create_head, apply_transition, applied, blocked, transition_receipt,
}
use flowdoc_vnext_backend.PdfExport.Lifecycle.Validity.{IsValid}
use flowdoc_vnext_backend.PdfExport.Lifecycle.Validity.Parser.{parse_head-IsValid}
use flowdoc_vnext_backend.PdfExport.Lifecycle.Step.{RequestFits, KindFits}
use flowdoc_vnext_backend.PdfExport.Lifecycle.Step.Refusals.{Refuses}
use flowdoc_vnext_backend.PdfExport.Lifecycle.Step.Effects.{after_claim, after_mark, after_stop}
use flowdoc_vnext_backend.PdfExport.Lifecycle.Step.Relation.{Effect, claims, MayClaim, Reads}
use flowdoc_vnext_backend.PdfExport.Lifecycle.Apply.{
  finalize_head-IsValid, apply-Applies, Applies, applied-IsValid, apply-refused,
}
use flowdoc_vnext_backend.PdfExport.Lifecycle.Creation.{initial-FactsAreValid, create_head-ready}
use flowdoc_vnext_backend.PdfExport.Lifecycle.Behaviour.{applied-Moves, applied-Keeps}
use flowdoc_vnext_backend.PdfExport.Lifecycle.Claims.{Keeps}
use flowdoc_vnext_backend.PdfExport.Lifecycle.Progress.{Moves}
use flowdoc_vnext_backend.PdfExport.Lifecycle.Enabled.{Effect-Gives, apply-ends}
use flowdoc_vnext_backend.Examples.Data.{
  admission_digest, operation_digest, head_digest, receipt_digest, request_digest, names, operation,
  request, take,
}
use flowdoc_vnext_backend.Examples.Operations.{operation-parses, operation-IsValid}

abbrev pub head0 : Head
head0 = finalize_head (initial_facts operation)

pub head0-IsValid : IsValid head0
head0-IsValid =
    finalize_head-IsValid (initial_facts operation)
      (initial-FactsAreValid names operation operation-IsValid (omega arith) (omega arith))

pub head0-created : create_head names operation ≡ Parse.ready head0
head0-created = create_head-ready names operation operation-parses

pub take-RequestFits : RequestFits take
unfolding is_bounded
take-RequestFits = record {
  transition = refl;
  tenant = refl;
  principal = refl;
  operation = refl;
  kind = (refl, refl);
}

take-Reads : Reads head0.facts take
unfolding finalize_head initial_facts
take-Reads = record { operation = refl; revision = refl; time = omega arith; live = λ e. cc e }

take-MayClaim : MayClaim head0.facts 2000
unfolding finalize_head initial_facts
take-MayClaim = record { in_time = omega arith; uncancelled = refl; free = tt }

abbrev pub head1 : Head
head1 = finalize_head (after_claim head0.facts 2000 "token" "worker" 12000)

abbrev pub receipt_of : TransitionRequest → Head → Head → Receipt
receipt_of r h g = transition_receipt r (fingerprint r) h g

pub taken : apply_transition head0 take ≡ applied head1 (receipt_of take head0 head1)
unfolding finalize_head initial_facts
taken =
    Effect-Gives head0 take head0-IsValid take-RequestFits take-Reads
      (after_claim head0.facts 2000 "token" "worker" 12000)
      (claims "token" "worker" 12000 take-MayClaim (omega arith) (omega arith) (omega arith)
        (omega arith) refl)

-- A cancellation is recorded while the worker holds the claim.
abbrev cancel : TransitionRequest
cancel = request "t-2" 1 3000 request_cancellation

abbrev head2 : Head
head2 = finalize_head (after_mark head1.facts cancel)

-- The requests are all in form.
pub request-RequestFits :
    (id : String) (revision : ℕ) (at : Time) (kind : TransitionKind)
    → is_bounded id ≡ true
    → KindFits kind
    → RequestFits (request id revision at kind)
unfolding is_bounded
request-RequestFits id revision at kind bounded fits = record {
  transition = bounded;
  tenant = refl;
  principal = refl;
  operation = refl;
  kind = fits;
}

head1-IsValid : IsValid head1
head1-IsValid = applied-IsValid head0 take head1 (receipt_of take head0 head1) taken

bounded_2 : is_bounded "t-2" ≡ true
unfolding is_bounded
bounded_2 = refl

pub bounded_1 : is_bounded "t-1" ≡ true
unfolding is_bounded
bounded_1 = refl

marked : apply_transition head1 cancel ≡ applied head2 (receipt_of cancel head1 head2)
unfolding finalize_head after_claim initial_facts
marked =
    Effect-Gives head1 cancel head1-IsValid (request-RequestFits "t-2" 1 3000 _ bounded_2 tt)
      (record { operation = refl; revision = refl; time = omega arith; live = λ e. cc e })
      (after_mark head1.facts cancel) (Effect.marked refl (omega arith) refl refl)

head2-IsValid : IsValid head2
head2-IsValid = applied-IsValid head1 cancel head2 (receipt_of cancel head1 head2) marked

-- The lifecycle is ended, at once or past its deadline.
abbrev end : Head → TransitionRequest → Head
end h r = finalize_head (after_stop h.facts shutdown_forced r.transition_at h.cancellation)

abbrev shut2 : TransitionRequest
shut2 = request "t-1" 2 4000 force_shutdown

abbrev shut_late : TransitionRequest
shut_late = request "t-1" 0 70000 force_shutdown

shut2-Reads : Reads head2.facts shut2
unfolding finalize_head after_mark after_claim initial_facts
shut2-Reads = record { operation = refl; revision = refl; time = omega arith; live = λ e. cc e }

shut_late-Reads : Reads head0.facts shut_late
unfolding finalize_head initial_facts
shut_late-Reads = record { operation = refl; revision = refl; time = omega arith; live = λ e. cc e }

ended2 :
    apply_transition head2 shut2
    ≡ applied (end head2 shut2) (receipt_of shut2 head2 (end head2 shut2))
ended2 =
    apply-ends head2 shut2 head2-IsValid (request-RequestFits "t-1" 2 4000 _ bounded_1 tt)
      shut2-Reads shutdown_forced (inl (refl, refl))

ended_late :
    apply_transition head0 shut_late
    ≡ applied (end head0 shut_late) (receipt_of shut_late head0 (end head0 shut_late))
ended_late =
    apply-ends head0 shut_late head0-IsValid (request-RequestFits "t-1" 0 70000 _ bounded_1 tt)
      shut_late-Reads shutdown_forced (inl (refl, refl))

parse_head-IsValid_example : (parse_head head1 ≡ Parse.ready head1) ↔ IsValid head1
parse_head-IsValid_example = parse_head-IsValid head1

apply-Applies_example :
    (apply_transition head0 take ≡ applied head1 (receipt_of take head0 head1))
    ↔ Applies head0 take head1 (receipt_of take head0 head1)
apply-Applies_example = apply-Applies head0 take head1 (receipt_of take head0 head1)

-- A second worker finds the head taken.
abbrev busy : Issue
busy = issue "pdf-export-lifecycle-claim-busy" "claim"

abbrev take_again : TransitionRequest
take_again = request "t-2" 1 3000 (claim "other" "worker" 12000)

apply-refused_example : (apply_transition head1 take_again ≡ blocked (some head1) (busy ∷ [])) ↔ (
    (some head1 ≡ some head1)
    × ((i : Issue) × (busy ∷ [] ≡ i ∷ []) × Refuses head1.facts take_again i))
unfolding is_bounded
apply-refused_example =
    apply-refused head1 take_again (some head1) (busy ∷ []) head1-IsValid
      (request-RequestFits "t-2" 1 3000 _ bounded_2 (refl, refl))

applied-Moves_example : Moves head0.facts take.kind head1.facts
applied-Moves_example = applied-Moves head0 head1 take (receipt_of take head0 head1) taken

abbrev held : Claim
held = record {
  claim_token = "token";
  worker_id = "worker";
  attempt_number = 1;
  claimed_at = 2000;
  expires_at = 12000;
}

applied-Keeps_example : Keeps held request_cancellation head2.facts
unfolding finalize_head after_claim initial_facts
applied-Keeps_example =
    applied-Keeps head1 head2 cancel (receipt_of cancel head1 head2) marked held refl refl
      (omega arith)
