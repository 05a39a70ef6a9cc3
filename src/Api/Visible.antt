-- ===== src/Api/Visible.antt =====
-- app/api/jobs.py: what `GET /jobs/{job_id}` shows of a row.
use media_player.Prelude.{
  ℕ, ◌≡◌, refl, Bool, true, false, not, ◌&&◌, ◌||◌, Option, some, arith, is_some,
}
use media_player.Jobs.Row.{Job, check_constraints, is_done, is_failed, is_processing, is_ready}
use media_player.Jobs.Store.{Table}
use media_player.Jobs.WellFormed.{IsValid}
use media_player.Jobs.Queries.{get_job}
use media_player.Api.Roots.{visible-IsWellFormed, root-IsWellFormed}
use media_player.Api.Shown.{
  Settings, Signer, has, JobResponse, edit_source, edit_options, to_response, get_job_by_id,
  answered,
}

-- The keys that the row has are not empty.
abbrev pub full_keys : Job → Bool
full_keys j =
    (not (is_some j.output_key) || has j.output_key) && (not (is_some j.hls_key) || has j.hls_key)

-- What the page is told of a job, column by column.
pub record Shows (j : Job) (r : JobResponse) : Type 0 where
  pub identity : (r.id ≡ j.id) × (r.status ≡ j.status)
  pub video : is_some r.output_url ≡ is_done j.status
  pub ladder : is_some r.hls_url ≡ (is_done j.status && is_ready j.hls_status)
  pub failure : is_some r.error ≡ is_failed j.status
  pub poster : is_some r.thumbnail_url ≡ true → is_done j.status ≡ true
  pub preview : is_some r.preview_vtt_url ≡ true → is_some r.hls_url ≡ true
  pub progress : is_some r.progress ≡ true → is_processing j.status ≡ true
  pub editor : is_some r.edit_source ≡ is_done j.status
  pub heights : is_some r.edit_options ≡ true → is_done j.status ≡ true

to_response-Shows :
    (s : Settings) (g : Signer) (j : Job) (root : Option Job) (progress : Option ℕ)
    → check_constraints j ≡ true
    → full_keys j ≡ true
    → Shows j (to_response s g j root progress)
unfolding to_response check_constraints edit_source edit_options
to_response-Shows s g j root progress c f = record {
  identity = (refl, refl);
  video = ground arith;
  ladder = ground arith;
  failure = ground arith;
  poster = λ h. ground arith;
  preview = λ h. ground arith;
  progress = λ h. ground arith;
  editor = ground arith;
  heights = λ h. ground arith;
}

-- On a valid table, the page of a job that its owner can see and whose keys are not empty is shown,
-- never an error: with the video's URL exactly if the job is done, the ladder's exactly if it is
-- ready too, an error text exactly if the job failed, a preview only beside a ladder, progress only
-- while it is processing, and the editor only when it is done.
pub get_job_by_id-Shows :
    (s : Settings) (g : Signer) (i o : ℕ) (progress : Option ℕ) (t : Table) (j : Job)
    → IsValid t
    → get_job i (some o) false t ≡ some j
    → full_keys j ≡ true
    → (r : JobResponse) × (get_job_by_id s g i o progress t ≡ answered r) × Shows j r
unfolding get_job_by_id
get_job_by_id-Shows s g i o progress t j v h f =
    let found = visible-IsWellFormed i o t {j = j} v h in
    let (root, e, _) = root-IsWellFormed t j v found in
    (
      to_response s g j (some root) progress,
      ground (arith, h, e),
      to_response-Shows s g j (some root) progress found.0 f,
    )
