-- ===== src/Jobs/Queries.antt =====
-- app/repositories/jobs.py: the reads that act on one row.
use media_player.Prelude.{
  ℕ, Bool, false, not, ◌&&◌, Option, none, some, ◌==◌, if◌then◌else◌, is_some,
}
use media_player.Jobs.Row.{Job}
use media_player.Jobs.Store.{Table, find}

-- `owner_id is not None and job.owner_id != owner_id`
abbrev pub other_owner : Option ℕ → Job → Bool
other_owner none j = false
other_owner (some o) j = not (j.owner_id == o)

-- `get_job(session, job_id, owner_id=owner, include_trashed=include_trashed)`
unfoldable pub get_job : ℕ → Option ℕ → Bool → Table → Option Job
get_job i owner include_trashed t = elim (find i t) [
  | none ↦ none
  | some j ↦
      if other_owner owner j
      then none
      else if is_some owner && is_some j.deleted_at && not include_trashed
      then none
      else some j
]
