-- ===== src/Tests/WorkerTests.antt =====
-- Processing tasks on a table with one queued job, and the theorems on the worker at them.
use media_player.Prelude.{
  ℕ, ◌≤◌, ◌≡◌, refl, true, false, none, some, Option, List, [], ◌∷◌, arith, length,
}
use media_player.Prelude.Text.{Text, codes, is_blank, strip, rstrip_of, lstrip_of, is_space}
use media_player.Jobs.Row.{Job, JobStatus, HlsStatus, pending, check_constraints}
use media_player.Jobs.Store.{Table, find}
use media_player.Jobs.Writes.{Done}
use media_player.Jobs.WellFormed.{IsValid}
use media_player.Worker.Messages.{
  store_error, unforeseen, readable_error, max_error_length, readable_error_lem,
}
use media_player.Worker.Tasks.{done, StepEnd, result, raised}
use media_player.Worker.Tasks.{settled, build_ladder}
use media_player.Worker.Ladders.{EndsWith, ready_row, build_ladder-settles}
use media_player.Worker.Leaving.{quiet}
use media_player.Jobs.Paging.{list_stale_ladders}
use media_player.Worker.LadderReaping.{written_off, settle_stale_ladders-row}
use media_player.Worker.Reaper.{Redis, RqStatus, settle_stale_ladders, Times, table_of, reap_stale}
use media_player.Worker.Reaping.{failed_row, reap_stale-row}
use media_player.Worker.Pieces.{
  Event, pops, notes, finishes, loses, sweeps, event, events, open_board, range_from, pop_piece,
  note_piece, finish, unclaimed,
}
use media_player.Worker.PiecesKept.{opened}
use media_player.Worker.Histories.{Reaches-refl, Apart}
use media_player.Worker.FrameStarts.{
  Clock, Rate, frame_starts, advance, output_tick, skip, suitable, joined, joined_starts,
  starts_from,
}
use media_player.Worker.FrameCuts.{Cuts, frame_starts-Cuts}

abbrev job : Job
job = record {
  id = 1;
  owner_id = 7;
  filename = codes "a";
  status = JobStatus.queued;
  source_key = codes "k";
  output_key = none;
  hls_key = none;
  operations = none;
  hls_status = pending;
  width = none;
  height = none;
  duration_seconds = none;
  thumbnail_key = none;
  preview_key = none;
  max_fps = 30;
  error = none;
  deleted_at = none;
  created_at = 0;
  updated_at = 0;
}

abbrev table : Table
table = job ∷ []

abbrev output : Done
output = record {
  output_key = codes "o";
  hls_key = none;
  hls_status = none;
  width = some 640;
  height = some 360;
  duration_seconds = some 5000000;
  thumbnail_key = none;
}

-- A step that ends with a ladder to come.
abbrev succeeds : Job → StepEnd
succeeds _ = result output true

abbrev crashes : Job → StepEnd
crashes _ = raised (store_error (codes " bad file "))

quiet-Apart : Apart (quiet 1 2 3)
quiet-Apart = record { during_step = Reaches-refl; after_record = Reaches-refl }

readable_error_lem_example :
    (is_blank (readable_error unforeseen) ≡ false)
    × (length (readable_error unforeseen) ≤ max_error_length)
readable_error_lem_example = readable_error_lem unforeseen

-- No worker keeps job 1 alive.
abbrev redis : Redis
redis = record {
  heartbeat_alive = λ _. false;
  exists = λ _. true;
  ladder_queue_status = λ _. none;
  ladder_alive = λ _. false;
}

abbrev times : Times
times = record { now = 1000; lease_before = 0; abandoned_before = 900; grace_before = 900 }

abbrev running : Job
running = record job { status = JobStatus.processing }

running-IsValid : IsValid (running ∷ [])
unfolding find check_constraints
running-IsValid = record { distinct = (refl, tt); rows = ((refl, refl), tt) }

reap_stale-row_example :
    find 1 (table_of (reap_stale times redis (running ∷ []))) ≡ some (failed_row 1000 running)
unfolding find
reap_stale-row_example = reap_stale-row times redis (running ∷ []) 1 running running-IsValid refl

-- A helper takes one piece and dies with the next; the last piece is finished, and the coordinator
-- sweeps.
abbrev helpers : List Event
helpers = pops ∷ notes 0 0 ∷ pops ∷ loses 1 ∷ pops ∷ notes 2 2 ∷ finishes 2 ∷ []

swept : (event 3 (sweeps 60 100) (events 3 helpers (opened 3))).mine ≡ 0 ∷ 1 ∷ []
unfolding events event open_board range_from pop_piece note_piece finish unclaimed
swept = refl

abbrev finished : Job
finished = record job {
  status = JobStatus.done;
  output_key = some (codes "o");
  width = some 640;
  height = some 360;
}

finished-IsValid : IsValid (finished ∷ [])
unfolding find check_constraints
finished-IsValid = record { distinct = (refl, tt); rows = ((refl, refl), tt) }

-- The ladder's task died.
abbrev dead_ladder : Redis
dead_ladder = record redis { ladder_queue_status = λ _. some RqStatus.started }

settle_stale_ladders-row_example :
    find 1 (
      table_of (
        settle_stale_ladders 1000 dead_ladder
          (list_stale_ladders 900 (finished ∷ []))
          0
          []
          (finished ∷ [])))
    ≡ some (written_off 1000 finished)
unfolding find
settle_stale_ladders-row_example =
    settle_stale_ladders-row 1000 900 dead_ladder (finished ∷ []) 1 finished finished-IsValid refl

abbrev segments : Job → Option Text
segments _ = some (codes "m")

build_ladder-settles_example :
    EndsWith 1
      (settled HlsStatus.ready)
      (ready_row 5 (codes "m") finished)
      (build_ladder (quiet 4 5 6) 1 segments false 0 (finished ∷ []))
unfolding find is_blank strip rstrip_of lstrip_of is_space
build_ladder-settles_example =
    build_ladder-settles 4 5 6 1 segments false 0 (finished ∷ []) finished refl finished-IsValid
      refl refl refl

-- Half-second frames, one of each pair kept.
abbrev slow : Rate
slow = record { frames = 1; seconds = 1 }

-- Two to the second; the file's start is at 2, and no frame stands before it.
abbrev halves : Clock
halves = record { per_second = 2; origin = 2 }

abbrev frame_times : List ℕ
frame_times = 2 ∷ 4 ∷ 3 ∷ 5 ∷ 6 ∷ 7 ∷ 8 ∷ []

cut_at : frame_starts halves (some slow) 1 frame_times ≡ some (2 ∷ 5 ∷ 7 ∷ [])
unfolding frame_starts advance output_tick skip suitable joined joined_starts starts_from
cut_at = refl

-- A frame before the start is passed over.
early_frame : frame_starts halves (some slow) 1 (0 ∷ frame_times) ≡ some (2 ∷ 5 ∷ 7 ∷ [])
unfolding frame_starts advance output_tick skip suitable joined joined_starts starts_from
early_frame = refl

frame_starts-Cuts_example :
    (starts : List ℕ) × (frame_starts halves (some slow) 1 frame_times ≡ some starts)
    × Cuts halves slow frame_times starts
frame_starts-Cuts_example =
    frame_starts-Cuts halves slow 1 frame_times (omega arith) (omega arith) (omega arith) refl
