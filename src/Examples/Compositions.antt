-- ===== src/Examples/Compositions.antt =====
-- A composition job in the repository: created, cancelled by a lifecycle command, and a retained record.
use flowdoc_vnext_backend.Common.{
  true, some, ◌≡◌, ◌≢◌, ◌↔◌, refl, List, [], ◌∷◌, arith, text_eq, number_eq, pair_eq,
}
use flowdoc_vnext_backend.Common.Dict.{set}
use flowdoc_vnext_backend.Common.Text.{is_short, is_fingerprint, byte_length_of}
use flowdoc_vnext_backend.Composition.SourcePin.{
  family_window, ContentRef, ref_valid, parse_pin, pin_facts_valid,
}
use flowdoc_vnext_backend.Composition.JobHead.{
  ready_to_advance, cancelled, JobFacts, JobHead, parse_head, finalize_head,
}
use flowdoc_vnext_backend.Composition.JobHead.Validity.{IsValid}
use flowdoc_vnext_backend.Composition.JobHead.Validity.Parser.{parse_head-AcceptsValid}
use flowdoc_vnext_backend.Composition.Repository.{
  StoredValue, other_value, StoredHead, Repository, empty_repository, create_head, put_immutable,
  put_written, read_head, committed,
}
use flowdoc_vnext_backend.Composition.Repository.Swap.{
  Call, put_call, create_call, swap_call, run_all, compare_and_swap,
}
use flowdoc_vnext_backend.Composition.Repository.Keeping.{Keeps, run_all-KeepsAll}
use flowdoc_vnext_backend.Composition.Repository.Soundness.{
  IsSound, empty-IsSound, run_all-KeepsSound,
}
use flowdoc_vnext_backend.Composition.Repository.Settled.{IsRetained, written-IsRetained}
use flowdoc_vnext_backend.Composition.Repository.Replays.{swapped-spent}
use flowdoc_vnext_backend.Composition.Lifecycle.{
  Expectation, expectation_valid, updated, cancel, write, plan, read_exact, execute, ended_facts,
  swap_input,
}
use flowdoc_vnext_backend.Composition.Lifecycle.Moves.{becomes, Moves, job_cancelled, plan-IsMove}
use flowdoc_vnext_backend.Composition.Lifecycle.Refinement.{IsExpected, execute-Moves}
use flowdoc_vnext_backend.Composition.Lifecycle.Updates.{Updates, updated-Moves}
use flowdoc_vnext_backend.Composition.Context.{parse_head_of}
use flowdoc_vnext_backend.Composition.Progress.{
  ProgressFacts, Progress, progress_of, progress_ready, read_progress,
}
use flowdoc_vnext_backend.Composition.Progress.Advances.{ProgressFollows, progress-Follows}
use flowdoc_vnext_backend.PdfExport.Issue.{Digest}
use flowdoc_vnext_backend.Composition.Transition.{ChunkFacts}
use flowdoc_vnext_backend.Examples.Data.{zeros, ones, constant}
use flowdoc_vnext_backend.Examples.Jobs.{
  core, core-ParsesSelf, json, job_digest, pin_digest, transition_digest, manifest, pin, ref_of,
  facts_of, head_of, creation,
}

abbrev window : ContentRef
window = ref_of family_window "window" ones

abbrev value : StoredValue
value = other_value (some ones) "rest"

abbrev calls : List Call
calls = create_call (creation ready_to_advance) ∷ put_call window value ∷ []

abbrev store : Repository
store = run_all core json empty_repository calls

run_all-KeepsSound_example : IsSound core json store
run_all-KeepsSound_example =
    run_all-KeepsSound core json core-ParsesSelf calls empty_repository (empty-IsSound core json)

run_all-KeepsAll_example : Keeps empty_repository store
run_all-KeepsAll_example = run_all-KeepsAll core json calls empty_repository

parse_head-AcceptsValid_example :
    (parse_head core pin manifest (head_of ready_to_advance) ≡ some (head_of ready_to_advance))
    ↔ IsValid core pin manifest (head_of ready_to_advance)
parse_head-AcceptsValid_example =
    parse_head-AcceptsValid core pin manifest core-ParsesSelf (head_of ready_to_advance)

abbrev stored : StoredHead
stored = record {
  pin = pin;
  manifest = manifest;
  head = head_of ready_to_advance;
  create_request_id = "create";
  create_request_fingerprint = zeros;
}

held : store.heads.get "job" ≡ some stored
unfolding run_all create_head parse_pin pin_facts_valid ref_valid parse_head is_short is_fingerprint
    put_immutable set byte_length_of
held = refl

written : (put_immutable core json empty_repository window value).1 ≡ put_written window
unfolding put_immutable ref_valid is_short is_fingerprint byte_length_of
written = refl

-- A record that is retained before a job is created.
written-IsRetained_example :
    IsRetained core json
      (run_all core json
        (put_immutable core json empty_repository window value).0
        (create_call (creation ready_to_advance) ∷ []))
      window
      value
written-IsRetained_example =
    written-IsRetained core json empty_repository window value
      (create_call (creation ready_to_advance) ∷ []) written

abbrev expectation : Expectation
expectation = record { job_id = "job"; revision = 0; fingerprint = zeros }

stored-IsExpected : IsExpected store expectation stored
unfolding expectation_valid is_short is_fingerprint
stored-IsExpected = record { well_formed = refl; held = held; revision = refl; exact_text = refl }

abbrev cancelled_facts : JobFacts
cancelled_facts = ended_facts cancelled 20 (facts_of ready_to_advance)

abbrev cancelled_head : JobHead
cancelled_head = record { facts = cancelled_facts; fingerprint = zeros }

cancelling : Moves stored.head.facts cancelled_facts (cancel 20)
unfolding becomes ended_facts
cancelling = job_cancelled 20 refl (omega arith) (omega arith) refl

plan-IsMove_example :
    (plan (cancel 20) (head_of ready_to_advance) ≡ write cancelled_facts)
    ↔ Moves (facts_of ready_to_advance) cancelled_facts (cancel 20)
plan-IsMove_example = plan-IsMove (cancel 20) (head_of ready_to_advance) cancelled_facts

execute-Moves_example : execute core json store [] (cancel 20) expectation ≡ (
  record store { heads = set store.heads "job" (record stored { head = cancelled_head }) },
  updated cancelled_head,
)
execute-Moves_example =
    execute-Moves core json core-ParsesSelf store (cancel 20) expectation stored cancelled_facts
      run_all-KeepsSound_example stored-IsExpected (omega arith) cancelling

-- Another record is retained between the read and the swap.
abbrev between : List Call
between = put_call (ref_of family_window "other" zeros) (other_value (some zeros) "rest") ∷ []

updates : (execute core json store between (cancel 20) expectation).1 ≡ updated cancelled_head
unfolding execute read_exact is_short is_fingerprint read_head run_all put_immutable ref_valid
    byte_length_of create_head parse_pin pin_facts_valid parse_head set plan finalize_head
    ended_facts compare_and_swap
updates = refl

updated-Moves_example :
    (x : StoredHead) × IsExpected store expectation x
    × Updates core json store
        (run_all core json store between)
        (cancel 20)
        x
        cancelled_head
        (execute core json store between (cancel 20) expectation).0
updated-Moves_example =
    updated-Moves core json core-ParsesSelf store between (cancel 20) expectation cancelled_head
      run_all-KeepsSound_example updates

commits :
    (compare_and_swap core json store (swap_input stored.head cancelled_head)).1
    ≡ committed cancelled_head
unfolding compare_and_swap run_all put_immutable ref_valid is_short is_fingerprint byte_length_of
    create_head parse_pin pin_facts_valid parse_head set ended_facts
commits = refl

-- A swap that lost the race.
swapped-spent_example :
    (compare_and_swap core json
      (run_all core json
        (compare_and_swap core json store (swap_input stored.head cancelled_head)).0
        between)
      (swap_input stored.head stored.head)).1
    ≢ committed cancelled_head
swapped-spent_example =
    swapped-spent core json store (swap_input stored.head cancelled_head)
      (swap_input stored.head stored.head) cancelled_head cancelled_head between commits refl refl

instance abbrev shown_chunk_digest : Digest ChunkFacts
shown_chunk_digest = constant ChunkFacts

instance abbrev progress_digest : Digest ProgressFacts
progress_digest = constant ProgressFacts

-- A job is shown before and after its cancellation, when its source has moved on.
abbrev first_progress : Progress
first_progress = progress_of core pin true 15 (head_of ready_to_advance)

shows : read_progress core json store "job" 1 15 ≡ progress_ready first_progress
unfolding read_progress parse_head_of read_head run_all create_head parse_pin pin_facts_valid
    ref_valid parse_head is_short is_fingerprint put_immutable set byte_length_of
shows = refl

abbrev cancelling_calls : List Call
cancelling_calls = swap_call (swap_input stored.head cancelled_head) ∷ []

progress-Follows_example :
    (q : Progress) × (read_progress core json (run_all core json store cancelling_calls) "job" 2 30
      ≡ progress_ready q)
    × ProgressFollows first_progress q
progress-Follows_example =
    progress-Follows core json core-ParsesSelf cancelling_calls store "job" 1 2 15 30 first_progress
      run_all-KeepsSound_example shows
