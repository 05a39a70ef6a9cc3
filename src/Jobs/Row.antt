-- ===== src/Jobs/Row.antt =====
-- app/models/job.py: a row of `jobs`, its two state columns and the CHECK constraints.
-- A UUID is a number, since the program only compares it; a time is in seconds; a duration, a
-- float in the source, in millionths of a second. `updated_at` stands in every row.
use media_player.Prelude.{
  ℕ, Bool, true, false, not, ◌&&◌, ◌||◌, Option, none, some, List, ltb, ◌==◌, is_none, is_some,
}
use media_player.Prelude.Text.{Text, null, btrim}
use media_player.Edits.Operation.{Operation}

pub data JobStatus : Type 0 where
  queued processing done failed : JobStatus

pub data HlsStatus : Type 0 where
  pending ready unavailable : HlsStatus

pub record Job : Type 0 where
  pub id : ℕ
  pub owner_id : ℕ
  pub filename : Text
  pub status : JobStatus
  pub source_key : Text
  pub output_key : Option Text
  pub hls_key : Option Text
  pub operations : Option (List Operation)
  pub hls_status : HlsStatus
  pub width : Option ℕ
  pub height : Option ℕ
  pub duration_seconds : Option ℕ
  pub thumbnail_key : Option Text
  pub preview_key : Option Text
  pub max_fps : ℕ
  pub error : Option Text
  pub deleted_at : Option ℕ
  pub created_at : ℕ
  pub updated_at : ℕ

-- `status == …`
abbrev pub is_queued : JobStatus → Bool
is_queued queued = true
is_queued _ = false

abbrev pub is_processing : JobStatus → Bool
is_processing processing = true
is_processing _ = false

abbrev pub is_done : JobStatus → Bool
is_done done = true
is_done _ = false

abbrev pub is_failed : JobStatus → Bool
is_failed failed = true
is_failed _ = false

abbrev pub is_pending : HlsStatus → Bool
is_pending pending = true
is_pending _ = false

abbrev pub is_ready : HlsStatus → Bool
is_ready ready = true
is_ready _ = false

abbrev pub bool_eq : Bool → Bool → Bool
bool_eq true b = b
bool_eq false b = not b

-- `x IS NULL OR x > 0`
abbrev pub null_or_positive : Option ℕ → Bool
null_or_positive none = true
null_or_positive (some n) = ltb 0 n

-- `error IS NOT NULL AND btrim(error) <> ''`
abbrev pub has_text : Option Text → Bool
has_text none = false
has_text (some t) = not (null (btrim t))

-- `operations IS NULL OR jsonb_array_length(operations) > 0`
abbrev pub null_or_nonempty : Option (List Operation) → Bool
null_or_nonempty none = true
null_or_nonempty (some ops) = not (null ops)

-- `__table_args__`: the constraints that are not already in the types of the columns.
unfoldable pub check_constraints : Job → Bool
check_constraints j =
    bool_eq (is_done j.status) (is_some j.output_key)
    && ((is_failed j.status && has_text j.error) || (not (is_failed j.status) && is_none j.error))
    && null_or_nonempty j.operations
    && bool_eq (is_ready j.hls_status) (is_some j.hls_key)
    && (null_or_positive j.width
        && null_or_positive j.height
        && null_or_positive j.duration_seconds)
    && (j.max_fps == 30 || j.max_fps == 60)
    && (is_none j.preview_key || is_some j.hls_key)
