-- ===== src/Composition/Staging.antt =====
-- The staging of immutable records (composition/compositionSchedulerImmutableStaging.ts), on a repository
-- of V1: one put after the other, with calls of others before each.
pub mod Staged
use flowdoc_vnext_backend.Common.{
  ℕ, ◌+◌, String, Bool, true, false, not, ◌||◌, Option, none, some, List, [], ◌∷◌, ltb,
  if◌then◌else◌,
}
use flowdoc_vnext_backend.PdfExport.Issue.{Digest}
use flowdoc_vnext_backend.Composition.Core.{CompositionCore}
use flowdoc_vnext_backend.Composition.SourcePin.{ContentRef, PinFacts}
use flowdoc_vnext_backend.Composition.JobHead.{JobFacts}
use flowdoc_vnext_backend.Composition.Transition.{ReceiptFacts, count_all}
use flowdoc_vnext_backend.Composition.Repository.{
  StoredValue, Repository, PutResult, put_written, put_replay, put_conflict, put_invalid,
  put_immutable,
}
use flowdoc_vnext_backend.Composition.Repository.Swap.{Call, run_all}
use flowdoc_vnext_backend.Composition.ChainReader.Walk.{push}

-- The references and how many were written; or the failure of a put, and how many were written before.
pub data StageResult : Type 0 where
  staged : List ContentRef → ℕ → StageResult
  stage_conflict : ℕ → StageResult
  stage_invalid : ℕ → StageResult

pub record ToStage : Type 0 where
  pub ref : ContentRef
  pub value : StoredValue

-- FLOWDOC_BACKEND_COMPOSITION_MAX_BATCH_WRITE_RECORDS
abbrev pub max_batch_records : ℕ
max_batch_records = 64

module _ (core : CompositionCore) (json : StoredValue → String) ⦃head_digest : Digest JobFacts⦄
    ⦃pin_digest : Digest PinFacts⦄ ⦃receipt_digest : Digest ReceiptFacts⦄
    (others : ℕ → List Call) where
  -- The n-th put, after the calls of others that came before it.
  unfoldable pub put_nth : ℕ → Repository → ToStage → Repository × PutResult
  put_nth n s x = put_immutable core json (run_all core json s (others n)) x.ref x.value

  unfoldable pub stage_each :
      ℕ → Repository → List ToStage → List ContentRef → ℕ → Repository × StageResult
  stage_each n s [] refs written = (s, staged refs written)
  stage_each n s (x ∷ xs) refs written = elim (put_nth n s x).1 [
    | put_written r ↦ stage_each (n + 1) (put_nth n s x).0 xs (push refs r) (written + 1)
    | put_replay r ↦ stage_each (n + 1) (put_nth n s x).0 xs (push refs r) written
    | put_conflict ↦ ((put_nth n s x).0, stage_conflict written)
    | put_invalid ↦ ((put_nth n s x).0, stage_invalid written)
  ]

  -- stageFlowDocBackendCompositionImmutableBatchV1
  unfoldable pub stage_batch : Repository → List ToStage → Repository × StageResult
  unfolding stage_each
  stage_batch s xs =
      if ltb (count_all xs) 1 || ltb max_batch_records (count_all xs)
      then (s, stage_invalid 0)
      else stage_each 0 s xs [] 0
