-- ===== src/Api/Shown.antt =====
-- app/api/jobs.py: `_to_response` with its helpers, and `GET /jobs/{job_id}`; the records are those
-- of app/schemas/job.py. A URL is the text of it; what signs one is a parameter.
use media_player.Prelude.{
  ℕ, ◌+◌, ◌*◌, Bool, true, false, ◌&&◌, not, Option, none, some, [], ◌∷◌, ◌++◌, ltb, ◌==◌,
  if◌then◌else◌, is_none,
}
use media_player.Prelude.Text.{Text, codes, null, rstrip_of}
use media_player.Prelude.Int.{ℤ, pos, negsuc}
use media_player.Edits.Rules.{Options, editable_height, scale_options}
use media_player.Jobs.Row.{JobStatus, HlsStatus, Job, is_done, is_failed, is_processing}
use media_player.Jobs.Store.{Table}
use media_player.Jobs.Queries.{get_job}
use media_player.Jobs.EditRoots.{get, resolve_edit_roots}

-- The settings that the routes read.
pub record Settings : Type 0 where
  pub api_public_prefix : Text
  pub worker_ffmpeg_max_height : ℕ
  pub trash_retention_days : ℤ

-- Calls of the object store's signer and of the language: `create_url` and `str` of an id.
pub record Signer : Type 0 where
  pub create_url : Text → Text
  pub id_text : ℕ → Text

-- `x and …`, for a text that may be missing: set and not empty.
abbrev pub has : Option Text → Bool
has none = false
has (some t) = not (null t)

abbrev pub edit_base : Job → Job → Job
edit_base job root = if is_none root.operations then root else job

-- `height if height and height > 0 else None`
abbrev pub positive_height : Option ℕ → Option ℕ
positive_height none = none
positive_height (some h) = if ltb 0 h then some h else none

unfoldable pub editable_height_of : Settings → Job → Option ℕ
editable_height_of s base =
    if is_none base.operations
    then positive_height base.height
    else editable_height base.height true s.worker_ffmpeg_max_height

unfoldable pub edit_options : Settings → Job → Job → Option Options
edit_options s job base =
    if is_done job.status then scale_options (editable_height_of s base) else none

pub record EditSource : Type 0 where
  pub job_id : ℕ
  pub width : Option ℕ
  pub height : Option ℕ
  pub duration_seconds : Option ℕ

unfoldable pub edit_source : Job → Job → Option EditSource
edit_source job base =
    if is_done job.status
    then some (record {
      job_id = base.id;
      width = base.width;
      height = base.height;
      duration_seconds = base.duration_seconds;
    })
    else none

pub record JobResponse : Type 0 where
  pub id : ℕ
  pub filename : Text
  pub status : JobStatus
  pub output_url : Option Text
  pub hls_url : Option Text
  pub hls_status : HlsStatus
  pub width : Option ℕ
  pub height : Option ℕ
  pub duration_seconds : Option ℕ
  pub thumbnail_url : Option Text
  pub preview_vtt_url : Option Text
  pub max_fps : ℕ
  pub edit_source : Option EditSource
  pub edit_options : Option Options
  pub progress : Option ℕ
  pub error : Option Text
  pub deleted_at : Option ℕ
  pub purge_at : Option ℕ

-- A URL for an object of a finished job.
abbrev pub signed : Signer → Job → Option Text → Option Text
signed g job key = elim key [
  | none ↦ none
  | some k ↦ if is_done job.status && has (some k) then some (g.create_url k) else none
]

-- `preview_vtt_path`
abbrev pub preview_vtt_path : Signer → ℕ → Text
preview_vtt_path g i = codes "/jobs/" ++ g.id_text i ++ codes "/preview.vtt"

abbrev pub prefix_of : Settings → Text
prefix_of s = rstrip_of (λ c. c == 47) s.api_public_prefix

abbrev pub hls_shown : Job → Bool
hls_shown job = is_done job.status && has job.hls_key

-- `timedelta(days=max(0, days))`, in seconds
abbrev pub retention_seconds : ℤ → ℕ
retention_seconds (pos n) = n * 86400
retention_seconds (negsuc n) = 0

abbrev pub purge_time : Settings → Option ℕ → Option ℕ
purge_time s none = none
purge_time s (some d) = some (d + retention_seconds s.trash_retention_days)

unfoldable pub to_response : Settings → Signer → Job → Option Job → Option ℕ → JobResponse
unfolding edit_source edit_options
to_response s g job root progress =
    let base = edit_base job (elim root [ some r ↦ r | none ↦ job ]) in
    record {
      id = job.id;
      filename = job.filename;
      status = job.status;
      output_url = signed g job job.output_key;
      hls_url =
          if hls_shown job
          then some (prefix_of s ++ codes "/jobs/" ++ g.id_text job.id ++ codes "/hls/master.m3u8")
          else none;
      hls_status = job.hls_status;
      width = job.width;
      height = job.height;
      duration_seconds = job.duration_seconds;
      thumbnail_url = signed g job job.thumbnail_key;
      preview_vtt_url =
          if hls_shown job && has job.preview_key
          then some (prefix_of s ++ preview_vtt_path g job.id)
          else none;
      max_fps = job.max_fps;
      edit_source = edit_source job base;
      edit_options = edit_options s job base;
      progress = if is_processing job.status then progress else none;
      error = if is_failed job.status then job.error else none;
      deleted_at = job.deleted_at;
      purge_at = purge_time s job.deleted_at;
    }

-- What a route answers: its result, an error status, or an exception that no handler expects.
pub data Reply (A : Type 0) : Type 0 where
  answered : A → Reply A
  http : ℕ → Reply A
  crashed : Reply A

-- `roots[job.id]`
abbrev pub root_of : Table → Job → Option Job
root_of t job = get job.id (resolve_edit_roots t (job ∷ []))

-- `GET /jobs/{job_id}`; `progress` is what Redis has for the job.
unfoldable pub get_job_by_id : Settings → Signer → ℕ → ℕ → Option ℕ → Table → Reply JobResponse
get_job_by_id s g job_id owner progress t = elim (get_job job_id (some owner) false t) [
  | none ↦ http 404
  | some job ↦ elim (root_of t job) [
    | none ↦ crashed
    | some root ↦ answered (to_response s g job (some root) progress)
  ]
]
