-- ===== src/Worker/Tasks.antt =====
-- app/worker/tasks.py: `process_job_async` and `build_ladder_async` over the writes of the
-- repository. What the step, the queue and the stop flag answer is given; `Gaps` is what the API,
-- other workers and the reaper write while the task holds no session.
use media_player.Prelude.{
  ℕ, ◌+◌, Bool, true, false, not, ◌&&◌, ◌||◌, Option, none, some, ltb, leb, if◌then◌else◌, is_none,
}
use media_player.Prelude.Text.{Text}
use media_player.Jobs.Row.{Job, HlsStatus, pending, ready, unavailable, is_done, is_pending}
use media_player.Jobs.Store.{
  Table, JobError, not_found, invalid_transition, Result, ok, err, table_after,
}
use media_player.Jobs.Queries.{get_job}
use media_player.Jobs.Writes.{
  Done, mark_processing, mark_done, mark_failed, mark_interrupted, mark_ladder_ready,
  mark_ladder_unavailable,
}
use media_player.Worker.Messages.{Raised, readable_error, interrupted_too_often}

pub data JobOutcome : Type 0 where
  done failed skipped interrupted : JobOutcome

-- How a task ends: with a value, with the error of a write that it does not catch, or with that of
-- the call that makes the step of an edit, which stands outside the `try`.
pub data End (A : Type 0) : Type 0 where
  returned : A → End A
  escaped : JobError → End A
  factory_raised : End A

abbrev pub max_interruptions : ℕ
max_interruptions = 3

-- What the step gives: the result with `ladder_pending`, or what it raised; `unmade`, where the job is
-- an edit and `edit_step_factory(operations)` raised, so that there is no step.
pub data StepEnd : Type 0 where
  result : Done → Bool → StepEnd
  raised : Raised → StepEnd
  unmade : StepEnd

-- The clock at each write of a task, and the writes of others before it.
pub record Gaps : Type 0 where
  pub claimed_at : ℕ
  pub recorded_at : ℕ
  pub settled_at : ℕ
  pub during_step : Table → Table
  pub after_record : Table → Table

-- `except (JobNotFoundError, InvalidJobTransitionError)`
abbrev pub is_caught : JobError → Bool
is_caught not_found = true
is_caught invalid_transition = true
is_caught _ = false

-- A write whose refusal is `SKIPPED`, and what its success returns.
abbrev pub recorded : JobOutcome → Result Job → Table → End JobOutcome × Table
recorded outcome (ok _ t') t = (returned outcome, t')
recorded outcome (err e) t = ((if is_caught e then returned skipped else escaped e), t)

-- `_give_back`
unfoldable pub give_back : ℕ → ℕ → ℕ → Table → End JobOutcome × Table
give_back now i interruptions t =
    if leb max_interruptions (interruptions + 1)
    then recorded failed (mark_failed now i interrupted_too_often t) t
    else recorded interrupted (mark_interrupted now i t) t

-- `_hand_off_ladder`: `enqueued` is false where the queue raised.
unfoldable pub hand_off_ladder : ℕ → ℕ → Bool → Table → Table
hand_off_ladder now i enqueued t =
    if enqueued then t else table_after (mark_ladder_unavailable now i t) t

-- `hls_status=HlsStatus.PENDING if result.ladder_pending else None`
abbrev pub done_of : Done → Bool → Done
done_of d ladder_pending = record d { hls_status = if ladder_pending then some pending else none }

-- Step 3 and 4, after a step that returned.
unfoldable pub record_success : Gaps → ℕ → Bool → Done → Bool → Table → End JobOutcome × Table
unfolding hand_off_ladder
record_success gaps i enqueued d ladder_pending t =
    elim (mark_done gaps.recorded_at i (done_of d ladder_pending) t) [
      | ok _ t' ↦
          if ladder_pending
          then (returned done, hand_off_ladder gaps.settled_at i enqueued (gaps.after_record t'))
          else (returned done, t')
      | err e ↦ ((if is_caught e then returned skipped else escaped e), t)
    ]

-- The `except` branch of the step.
unfoldable pub record_failure : Gaps → ℕ → Bool → ℕ → Raised → Table → End JobOutcome × Table
unfolding give_back readable_error
record_failure gaps i stop interruptions exception t =
    if stop
    then give_back gaps.recorded_at i interruptions t
    else recorded failed (mark_failed gaps.recorded_at i (readable_error exception) t) t

-- From the claim on: others write while the step runs.
abbrev pub after_step : Gaps → ℕ → Bool → Bool → ℕ → StepEnd → Table → End JobOutcome × Table
after_step gaps i enqueued stop interruptions (result d ladder_pending) t =
    record_success gaps i enqueued d ladder_pending (gaps.during_step t)
after_step gaps i enqueued stop interruptions (raised exception) t =
    record_failure gaps i stop interruptions exception (gaps.during_step t)
after_step gaps i enqueued stop interruptions unmade t = (factory_raised, t)

-- `step` makes and runs the selected step on the claimed row: an edit's if it has operations.
unfoldable pub process_job :
    Gaps → ℕ → (Job → StepEnd) → Bool → Bool → ℕ → Table → End JobOutcome × Table
unfolding record_success record_failure
process_job gaps i step enqueued stop interruptions t = elim (mark_processing gaps.claimed_at i t) [
  | ok job t' ↦ after_step gaps i enqueued stop interruptions (step job) t'
  | err e ↦ ((if is_caught e then returned skipped else escaped e), t)
]

-- What the ladder task returns.
pub data LadderOutcome : Type 0 where
  settled : HlsStatus → LadderOutcome
  given_back dropped : LadderOutcome

-- The file that the ladder is cut from: the original, or the edit's output.
unfoldable pub ladder_input : Job → Option Text
ladder_input job = if is_none job.operations then some job.source_key else job.output_key

-- `mark_ladder_unavailable`, and the value returned after it.
abbrev pub unavailable_after : Result (Option Job) → Table → End LadderOutcome × Table
unavailable_after (ok _ t') t = (returned (settled unavailable), t')
unavailable_after (err e) t = (escaped e, t)

-- After `mark_ladder_ready`: a row that moved on settles nothing.
abbrev pub ready_after : Result (Option Job) → Table → End LadderOutcome × Table
ready_after (ok (some _) t') t = (returned (settled ready), t')
ready_after (ok none t') t = (returned dropped, t')
ready_after (err e) t = (escaped e, t)

-- The step's end: the key of the ladder, or `none` where it raised.
unfoldable pub ladder_end : Gaps → ℕ → Bool → ℕ → Option Text → Table → End LadderOutcome × Table
ladder_end gaps i stop interruptions (some hls_key) t =
    ready_after (mark_ladder_ready gaps.recorded_at i hls_key t) t
ladder_end gaps i stop interruptions none t =
    if stop && ltb (interruptions + 1) max_interruptions
    then (returned given_back, t)
    else unavailable_after (mark_ladder_unavailable gaps.recorded_at i t) t

-- `step` gets the row that was read; what it uploads and discards is outside the table.
unfoldable pub build_ladder :
    Gaps → ℕ → (Job → Option Text) → Bool → ℕ → Table → End LadderOutcome × Table
unfolding ladder_end
build_ladder gaps i step stop interruptions t = elim (get_job i none false t) [
  | none ↦ (returned dropped, t)
  | some job ↦
      if not (is_done job.status && is_pending job.hls_status)
      then (returned dropped, t)
      else if is_none job.height || is_none job.width
      then unavailable_after (mark_ladder_unavailable gaps.recorded_at i (gaps.during_step t))
          (gaps.during_step t)
      else ladder_end gaps i stop interruptions (step job) (gaps.during_step t)
]
