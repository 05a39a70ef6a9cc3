-- ===== src/Tests/JobTests.antt =====
-- The `jobs` table: runs of its writes, and the theorems of Jobs at rows of a small table.
use mathlib.Core.List.{Perm}
use media_player.Prelude.{
  ℕ, ◌+◌, ◌≡◌, refl, ◌⊎◌, ◌≢◌, true, ◌&&◌, none, some, List, [], ◌∷◌, ◌++◌, arith, is_none, filter,
  take, drop, length,
}
use media_player.Prelude.Text.{
  codes, is_blank, strip, is_space, lstrip_of, rstrip_of, btrim, text_eq,
}
use media_player.Edits.Operation.{Operation}
use media_player.Edits.Operation
use media_player.Jobs.Row.{
  queued, processing, done, failed, pending, ready, unavailable, Job, check_constraints,
}
use media_player.Jobs.Store.{
  Table, not_found, invalid_transition, integrity_error, ok, err, find, replace, insert_row,
  update_row,
}
use media_player.Jobs.Writes.{
  Done, new_row, create_job, mark_processing, mark_done, settle_ladder, mark_ladder_ready,
  mark_interrupted, mark_failed, prepare_retry, set_values, done_values, owned_by,
  derived_hls_status, transition,
}
use media_player.Jobs.Trace.{Write, apply, run}
use media_player.Jobs.WellFormed.{IsValid, run-IsValid}
use media_player.Jobs.Finality.{Moves, apply-Moves, Lasts, done-Lasts}
use media_player.Jobs.Isolation.{apply-other_owner}
use media_player.Jobs.Claims.{claim_once}
use media_player.Jobs.Integrity.{bookkeeping-accepts, mark_done-eq, write_error}
use media_player.Jobs.Paging.{list_jobs, latest_first, created}
use media_player.Jobs.PageOrder.{is_ordered, list_jobs_pages}
use media_player.Jobs.EditRoots.{get, resolve_edit_roots, parent_of}

abbrev result : Done
result = record {
  output_key = codes "outputs/1/a.mp4";
  hls_key = none;
  hls_status = some pending;
  width = some 1920;
  height = some 1080;
  duration_seconds = some 5000000;
  thumbnail_key = none;
}

-- Job 1 of user 7 is uploaded, interrupted once, finished, and gets its ladder; job 2 fails.
abbrev history : List (ℕ × Write)
history =
    (10, Write.create 1 7 (codes "a.mp4") (codes "uploads/1/a.mp4") 30)
    ∷ (11, Write.create 2 8 (codes "b.mp4") (codes "uploads/2/b.mp4") 60)
    ∷ (12, Write.claim 1)
    ∷ (13, Write.interrupt 1)
    ∷ (14, Write.claim 1)
    ∷ (15, Write.claim 2)
    ∷ (16, Write.fail 2 (codes " no video stream "))
    ∷ (17, Write.finish 1 result)
    ∷ (18, Write.ladder_ready 1 (codes "outputs/1/hls/master.m3u8"))
    ∷ []

abbrev pub upload : Job
upload = record {
  id = 1;
  owner_id = 7;
  filename = codes "a.mp4";
  status = done;
  source_key = codes "uploads/1/a.mp4";
  output_key = some (codes "outputs/1/a.mp4");
  hls_key = some (codes "outputs/1/hls/master.m3u8");
  operations = none;
  hls_status = ready;
  width = some 1920;
  height = some 1080;
  duration_seconds = some 5000000;
  thumbnail_key = none;
  preview_key = none;
  max_fps = 30;
  error = none;
  deleted_at = none;
  created_at = 10;
  updated_at = 18;
}

abbrev pub broken : Job
broken = record {
  id = 2;
  owner_id = 8;
  filename = codes "b.mp4";
  status = failed;
  source_key = codes "uploads/2/b.mp4";
  output_key = none;
  hls_key = none;
  operations = none;
  hls_status = unavailable;
  width = none;
  height = none;
  duration_seconds = none;
  thumbnail_key = none;
  preview_key = none;
  max_fps = 60;
  error = some (codes "no video stream");
  deleted_at = none;
  created_at = 11;
  updated_at = 16;
}

-- An edit of the upload, waiting for a worker.
abbrev pub edit : Job
edit = record broken {
  id = 3;
  owner_id = 7;
  status = processing;
  source_key = codes "uploads/1/a.mp4";
  operations = some (Operation.flip Operation.Axis.horizontal ∷ []);
  hls_status = pending;
  error = none;
}

abbrev pub table : Table
table = broken ∷ upload ∷ []

history-table : run history [] ≡ table
unfolding run apply create_job new_row insert_row mark_processing mark_interrupted mark_failed
    mark_done mark_ladder_ready settle_ladder transition update_row find replace check_constraints
    is_blank strip is_space lstrip_of rstrip_of btrim derived_hls_status set_values
history-table = refl

empty-IsValid : IsValid []
empty-IsValid = record { distinct = tt; rows = tt }

run-IsValid_example : IsValid (run history [])
run-IsValid_example = run-IsValid history [] empty-IsValid

pub table-IsValid : IsValid table
table-IsValid =
    unfold find check_constraints btrim lstrip_of rstrip_of in
    record { distinct = (refl, (refl, tt)); rows = ((refl, refl), ((refl, refl), tt)) }

-- User 8 retries the failed job 2.
apply-Moves_example :
    Moves broken
      (record broken { status = queued; error = none; hls_status = pending; updated_at = 20 })
unfolding apply prepare_retry update_row find replace check_constraints
apply-Moves_example = apply-Moves 20 (Write.retry 2 8) 2 table table-IsValid.distinct refl refl

abbrev later : List (ℕ × Write)
later =
    (20, Write.claim 1)
    ∷ (21, Write.ladder_unavailable 1)
    ∷ (22, Write.trash 1 7)
    ∷ (23, Write.stale 1)
    ∷ []

done-Lasts_example : Lasts upload (find 1 (run later table))
done-Lasts_example = done-Lasts later 1 table table-IsValid.distinct refl (unfold find in refl) refl

apply-other_owner_example : find 1 (apply 20 (Write.delete 1 (some 8)) table) ≡ some upload
apply-other_owner_example =
    apply-other_owner 20 (Write.delete 1 (some 8)) 8 1 table table-IsValid.distinct refl
      (unfold find in refl) (omega arith)

abbrev fresh : Job
fresh = record broken { status = queued; error = none; hls_status = pending }

abbrev fresh_claimed : Job
fresh_claimed = record fresh { status = processing; updated_at = 20 }

fresh-claimed : mark_processing 20 2 (fresh ∷ []) ≡ ok fresh_claimed (fresh_claimed ∷ [])
unfolding mark_processing transition update_row find replace check_constraints set_values
fresh-claimed = refl

claim_once_example :
    (mark_processing 30 2 (run later (fresh_claimed ∷ [])) ≡ err not_found)
    ⊎ (mark_processing 30 2 (run later (fresh_claimed ∷ [])) ≡ err invalid_transition)
claim_once_example =
    claim_once 20 30 2 later (fresh ∷ []) (fresh_claimed ∷ []) fresh_claimed
      (unfold find in (refl, tt)) fresh-claimed refl

bookkeeping-accepts_example : write_error 20 (Write.retry 2 8) table ≢ some integrity_error
bookkeeping-accepts_example = bookkeeping-accepts 20 (Write.retry 2 8) table table-IsValid refl

edited-IsValid : IsValid (edit ∷ table)
edited-IsValid =
    unfold find check_constraints btrim lstrip_of rstrip_of in
    record {
      distinct = (refl, (refl, (refl, tt)));
      rows = ((refl, refl), ((refl, refl), ((refl, refl), tt)));
    }

mark_done-eq_example :
    let r = set_values 20 done (done_values result) edit in
    mark_done 20 3 result (edit ∷ table) ≡ ok r (replace r (edit ∷ table))
mark_done-eq_example =
    mark_done-eq 20 3 result (edit ∷ table) edit edited-IsValid (unfold find in refl) refl
      (unfold is_blank strip is_space lstrip_of rstrip_of in refl) refl

list_jobs_pages_example :
    let whole = list_jobs (some 7) (length (edit ∷ table)) 0 (edit ∷ table) in
    Perm whole (filter (λ j. is_none j.deleted_at && owned_by (some 7) j) (edit ∷ table))
    × (is_ordered (latest_first created) whole ≡ true)
    × (list_jobs (some 7) 1 0 (edit ∷ table) ≡ take 1 (drop 0 whole))
    × (list_jobs (some 7) 1 0 (edit ∷ table) ++ list_jobs (some 7) 1 (0 + 1) (edit ∷ table)
        ≡ list_jobs (some 7) (1 + 1) 0 (edit ∷ table))
list_jobs_pages_example = list_jobs_pages (some 7) 1 1 0 (edit ∷ table)

list_jobs_newest : list_jobs (some 7) 5 0 (edit ∷ table) ≡ edit ∷ upload ∷ []
unfolding list_jobs
list_jobs_newest = refl

-- The edit's root is the upload whose source it shares.
edit-root : get 3 (resolve_edit_roots (edit ∷ table) (edit ∷ upload ∷ [])) ≡ some upload
unfolding resolve_edit_roots parent_of text_eq
edit-root = refl
