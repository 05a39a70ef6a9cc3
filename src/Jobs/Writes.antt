-- ===== src/Jobs/Writes.antt =====
-- app/repositories/jobs.py: every write on `jobs`. `now` is the database clock at the statement.
use media_player.Prelude.{
  ℕ, Bool, true, false, ◌&&◌, Option, none, some, List, ◌==◌, if◌then◌else◌, is_none, is_some,
}
use media_player.Prelude.Text.{Text, codes, null, is_blank, strip}
use media_player.Edits.Operation.{Operation}
use media_player.Jobs.Row.{
  JobStatus, queued, processing, done, failed, HlsStatus, pending, ready, unavailable, Job,
  is_queued, is_processing, is_done, is_failed, is_pending, is_ready,
}
use media_player.Jobs.Store.{
  Table, not_found, invalid_transition, value_error, Result, ok, err, insert_row, update_row,
  delete_row,
}
use media_player.Jobs.Queries.{get_job}

-- A new row, with the defaults of the columns.
unfoldable pub new_row : ℕ → ℕ → ℕ → Text → Text → Option (List Operation) → ℕ → Job
new_row now i owner filename source_key operations max_fps = record {
  id = i;
  owner_id = owner;
  filename = filename;
  status = queued;
  source_key = source_key;
  output_key = none;
  hls_key = none;
  operations = operations;
  hls_status = pending;
  width = none;
  height = none;
  duration_seconds = none;
  thumbnail_key = none;
  preview_key = none;
  max_fps = max_fps;
  error = none;
  deleted_at = none;
  created_at = now;
  updated_at = now;
}

-- `i` is the caller's id or the one that `uuid4` gave.
unfoldable pub create_job : ℕ → ℕ → ℕ → Text → Text → ℕ → Table → Result Job
unfolding new_row
create_job now i owner filename source_key max_fps =
    insert_row (new_row now i owner filename source_key none max_fps)

unfoldable pub create_edit_job : ℕ → ℕ → ℕ → Text → Text → List Operation → ℕ → Table → Result Job
unfolding new_row
create_edit_job now i owner filename source_key operations max_fps t =
    if null operations
    then err value_error
    else insert_row (new_row now i owner filename source_key (some operations) max_fps) t

unfoldable pub trash_job : ℕ → ℕ → ℕ → Table → Result (Option Job)
trash_job now i owner =
    update_row i (λ j. j.owner_id == owner && is_none j.deleted_at)
      (λ j. record j { deleted_at = some now })

unfoldable pub restore_job : ℕ → ℕ → Table → Result (Option Job)
restore_job i owner =
    update_row i (λ j. j.owner_id == owner && is_some j.deleted_at)
      (λ j. record j { deleted_at = none })

-- `_derived_hls_status`
unfoldable pub derived_hls_status : JobStatus → Option Text → HlsStatus
derived_hls_status next (some _) = ready
derived_hls_status done none = unavailable
derived_hls_status failed none = unavailable
derived_hls_status _ none = pending

-- The optional arguments of `_transition`.
pub record Values : Type 0 where
  pub output_key : Option Text
  pub hls_key : Option Text
  pub hls_status : Option HlsStatus
  pub width : Option ℕ
  pub height : Option ℕ
  pub duration_seconds : Option ℕ
  pub thumbnail_key : Option Text
  pub error : Option Text

-- None of them given.
abbrev pub no_values : Values
no_values = record {
  output_key = none;
  hls_key = none;
  hls_status = none;
  width = none;
  height = none;
  duration_seconds = none;
  thumbnail_key = none;
  error = none;
}

-- `hls_status or _derived_hls_status(next_status, hls_key)`
abbrev pub chosen_hls_status : JobStatus → Values → HlsStatus
chosen_hls_status next v = elim (v.hls_status) [
  | some s ↦ s
  | none ↦ derived_hls_status next v.hls_key
]

-- The `values` of the UPDATE: every column of the run is written, given or not.
unfoldable pub set_values : ℕ → JobStatus → Values → Job → Job
unfolding derived_hls_status
set_values now next v j = record j {
  status = next;
  output_key = v.output_key;
  hls_key = v.hls_key;
  hls_status = chosen_hls_status next v;
  width = v.width;
  height = v.height;
  duration_seconds = v.duration_seconds;
  thumbnail_key = v.thumbnail_key;
  error = v.error;
  updated_at = now;
}

abbrev pub status_is : JobStatus → JobStatus → Bool
status_is queued s = is_queued s
status_is processing s = is_processing s
status_is done s = is_done s
status_is failed s = is_failed s

-- Why no row was written: `get_job` after the rollback.
unfoldable pub refused : Option Job → Result Job
refused none = err not_found
refused (some _) = err invalid_transition

unfoldable pub transition : ℕ → ℕ → JobStatus → JobStatus → Values → Table → Result Job
unfolding set_values refused
transition now i expected next v t =
    elim (update_row i (λ j. status_is expected j.status) (set_values now next v) t) [
      | ok (some j) t' ↦ ok j t'
      | ok none _ ↦ refused (get_job i none false t)
      | err e ↦ err e
    ]

unfoldable pub mark_processing : ℕ → ℕ → Table → Result Job
mark_processing now i = transition now i queued processing no_values

-- `not key.strip()`, where a key was given.
abbrev pub blank_key : Option Text → Bool
blank_key none = false
blank_key (some k) = is_blank k

-- The keyword arguments of `mark_done`.
pub record Done : Type 0 where
  pub output_key : Text
  pub hls_key : Option Text
  pub hls_status : Option HlsStatus
  pub width : Option ℕ
  pub height : Option ℕ
  pub duration_seconds : Option ℕ
  pub thumbnail_key : Option Text

abbrev pub done_values : Done → Values
done_values d = record {
  output_key = some d.output_key;
  hls_key = d.hls_key;
  hls_status = d.hls_status;
  width = d.width;
  height = d.height;
  duration_seconds = d.duration_seconds;
  thumbnail_key = d.thumbnail_key;
  error = none;
}

unfoldable pub mark_done : ℕ → ℕ → Done → Table → Result Job
mark_done now i d t =
    if is_blank d.output_key
    then err value_error
    else if blank_key d.thumbnail_key
    then err value_error
    else transition now i processing done (done_values d) t

-- `_settle_ladder`
unfoldable pub settle_ladder : ℕ → ℕ → HlsStatus → Option Text → Table → Result (Option Job)
settle_ladder now i hls_status hls_key =
    update_row i (λ j. is_done j.status && is_pending j.hls_status)
      (λ j. record j { hls_status = hls_status; hls_key = hls_key; updated_at = now })

unfoldable pub mark_ladder_ready : ℕ → ℕ → Text → Table → Result (Option Job)
mark_ladder_ready now i hls_key t =
    if is_blank hls_key then err value_error else settle_ladder now i ready (some hls_key) t

unfoldable pub mark_ladder_unavailable : ℕ → ℕ → Table → Result (Option Job)
mark_ladder_unavailable now i = settle_ladder now i unavailable none

unfoldable pub mark_preview_ready : ℕ → ℕ → Text → Table → Result (Option Job)
mark_preview_ready now i preview_key t =
    if is_blank preview_key
    then err value_error
    else update_row i (λ j. is_done j.status && is_ready j.hls_status)
        (λ j. record j { preview_key = some preview_key; updated_at = now }) t

unfoldable pub mark_interrupted : ℕ → ℕ → Table → Result Job
mark_interrupted now i = transition now i processing queued no_values

unfoldable pub mark_failed : ℕ → ℕ → Text → Table → Result Job
mark_failed now i error t =
    if is_blank error
    then err value_error
    else transition now i processing failed (record no_values { error = some (strip error) }) t

-- What `prepare_retry` reports when it wrote no row: `get_job` for the owner.
-- The table of `ok` is what the caller's transaction holds and may still roll back.
unfoldable pub prepare_retry : ℕ → ℕ → ℕ → Table → Result Job
unfolding refused
prepare_retry now i owner t =
    elim (update_row i (λ j. j.owner_id == owner && is_failed j.status)
      (λ j. record j {
        status = queued;
        error = none;
        output_key = none;
        hls_key = none;
        hls_status = pending;
        updated_at = now;
      })
      t) [
        | ok (some j) t' ↦ ok j t'
        | ok none _ ↦ refused (get_job i (some owner) false t)
        | err e ↦ err e
      ]

-- `owner_id` none: any owner.
abbrev pub owned_by : Option ℕ → Job → Bool
owned_by none j = true
owned_by (some o) j = j.owner_id == o

unfoldable pub delete_job : ℕ → Option ℕ → Table → Result (Option Job)
delete_job i owner = delete_row i (owned_by owner)

abbrev pub stale_error : Text
stale_error = codes "worker stopped responding; job was not completed"

unfoldable pub mark_stale_failed : ℕ → ℕ → Table → Result (Option Job)
mark_stale_failed now i =
    update_row i (λ j. is_processing j.status)
      (λ j. record j {
        status = failed;
        error = some stale_error;
        hls_status = unavailable;
        updated_at = now;
      })
