-- ===== src/Jobs/Invariant.antt =====
-- What holds of every row that the writes of Jobs/Writes produce, beyond the database constraints.
use media_player.Prelude.{
  ℕ, ◌≡◌, refl, Bool, true, false, ◌&&◌, Option, none, some, List, arith, is_none,
}
use media_player.Prelude.Text.{
  Text, null, btrim, lstrip_of, rstrip_of, is_blank, strip, is_blank-strip, btrim_of_not_blank,
}
use media_player.Edits.Operation.{Operation}
use media_player.Jobs.Row.{
  JobStatus, queued, processing, done, failed, HlsStatus, pending, ready, unavailable, Job,
  is_queued, is_pending, is_processing, is_done, is_failed, is_ready, check_constraints,
}
use media_player.Jobs.Writes.{Done, set_values, new_row, no_values, done_values, stale_error}

-- Nothing of a run is recorded.
abbrev pub is_clean : Job → Bool
is_clean j =
    is_none j.output_key
    && is_none j.hls_key
    && is_none j.width
    && is_none j.height
    && is_none j.duration_seconds
    && is_none j.thumbnail_key
    && is_none j.preview_key

abbrev is_unavailable : HlsStatus → Bool
is_unavailable unavailable = true
is_unavailable _ = false

-- What each status says of the other columns.
abbrev consistent_at : JobStatus → Job → Bool
consistent_at queued j = is_clean j && is_pending j.hls_status
consistent_at processing j = is_clean j && is_pending j.hls_status
consistent_at failed j = is_clean j && is_unavailable j.hls_status
consistent_at done j = true

abbrev pub is_consistent : Job → Bool
is_consistent j = consistent_at j.status j

abbrev pub IsWellFormed : Job → Type 0
IsWellFormed j = (check_constraints j ≡ true) × (is_consistent j ≡ true)

stale_error-has_text : null (btrim stale_error) ≡ false
unfolding btrim lstrip_of rstrip_of
stale_error-has_text = refl

-- One lemma for each `SET` of the repository.
pub set_deleted_at-IsWellFormed :
    (j : Job) (d : Option ℕ) → IsWellFormed j → IsWellFormed (record j { deleted_at = d })
unfolding check_constraints
set_deleted_at-IsWellFormed j d h = ground arith

module _ (now : ℕ) (j : Job) (h : IsWellFormed j) where
  pub processing-IsWellFormed :
      is_queued j.status ≡ true → IsWellFormed (set_values now processing no_values j)
  unfolding check_constraints set_values
  processing-IsWellFormed q = ground arith

  pub queued-IsWellFormed :
      is_processing j.status ≡ true → IsWellFormed (set_values now queued no_values j)
  unfolding check_constraints set_values
  queued-IsWellFormed p = ground arith

  pub failed-IsWellFormed :
      (e : Text)
      → is_blank e ≡ false
      → is_processing j.status ≡ true
      → IsWellFormed (set_values now failed (record no_values { error = some (strip e) }) j)
  unfolding check_constraints set_values
  failed-IsWellFormed e b p = ground (arith, btrim_of_not_blank (strip e), is_blank-strip e)

  pub settled-IsWellFormed :
      is_done j.status ≡ true
      → is_pending j.hls_status ≡ true
      → IsWellFormed (record j { hls_status = unavailable; hls_key = none; updated_at = now })
  unfolding check_constraints
  settled-IsWellFormed d p = ground arith

  pub ladder-IsWellFormed :
      (k : Text)
      → is_done j.status ≡ true
      → is_pending j.hls_status ≡ true
      → IsWellFormed (record j { hls_status = ready; hls_key = some k; updated_at = now })
  unfolding check_constraints
  ladder-IsWellFormed k d p = ground arith

  pub preview-IsWellFormed :
      (k : Text)
      → is_done j.status ≡ true
      → is_ready j.hls_status ≡ true
      → IsWellFormed (record j { preview_key = some k; updated_at = now })
  unfolding check_constraints
  preview-IsWellFormed k d p = ground arith

  pub retry-IsWellFormed :
      is_failed j.status ≡ true
      → IsWellFormed (record j {
        status = queued;
        error = none;
        output_key = none;
        hls_key = none;
        hls_status = pending;
        updated_at = now;
      })
  unfolding check_constraints
  retry-IsWellFormed f = ground arith

  pub stale-IsWellFormed :
      is_processing j.status ≡ true
      → IsWellFormed (record j {
        status = failed;
        error = some stale_error;
        hls_status = unavailable;
        updated_at = now;
      })
  unfolding check_constraints
  stale-IsWellFormed p = ground (arith, stale_error-has_text)

-- A new row and a finished one are consistent as soon as the constraints accept them.
pub new_row-is_consistent :
    (now i o : ℕ) (f s : Text) (ops : Option (List Operation)) (m : ℕ)
    → is_consistent (new_row now i o f s ops m) ≡ true
unfolding new_row
new_row-is_consistent now i o f s ops m = refl

pub done-is_consistent :
    (now : ℕ) (j : Job) (d : Done) → is_consistent (set_values now done (done_values d) j) ≡ true
unfolding set_values
done-is_consistent now j d = refl
