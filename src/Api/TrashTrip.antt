-- ===== src/Api/TrashTrip.antt =====
-- app/api/jobs.py: `DELETE /jobs/{job_id}` and `POST /jobs/{job_id}/restore`, one after the other.
use media_player.Prelude.{ℕ, ◌≡◌, ap, sym, true, false, none, some, [], ◌∷◌, arith}
use media_player.Prelude.Int.{pos, ltb_ℤ}
use media_player.Jobs.Row.{Job}
use media_player.Jobs.Store.{Table, find, replace, update_row, ok}
use media_player.Jobs.StoreLaws.{find-id, find-replace_self}
use media_player.Jobs.Invariant.{set_deleted_at-IsWellFormed}
use media_player.Jobs.WellFormed.{IsValid}
use media_player.Jobs.Queries.{get_job}
use media_player.Jobs.Writes.{trash_job, restore_job}
use media_player.Api.Roots.{get_job-find, get_job-owner, visible-IsWellFormed}
use media_player.Api.Shown.{Settings, answered}
use media_player.Api.Cleanup.{Storage, delete_job_by_id, restore_job_by_id}

abbrev trash_row : ℕ → Job → Job
trash_row now j = record j { deleted_at = some now }

replace-replace :
    (i : ℕ) (j r : Job) (t : Table)
    → find i t ≡ some j
    → r.id ≡ i
    → j.id ≡ i
    → replace j (replace r t) ≡ t
unfolding find replace
replace-replace i j r [] f a b = ground arith
replace-replace i j r (k ∷ t) f a b = ground (arith, replace-replace i j r t)

untouched : (j : Job) → j.deleted_at ≡ none → record j { deleted_at = none } ≡ j
untouched j h = ap (λ d. record j { deleted_at = d }) (sym h)

visible-untrashed :
    (i o : ℕ) (t : Table) {j : Job} → get_job i (some o) false t ≡ some j → j.deleted_at ≡ none
unfolding get_job
visible-untrashed i o t h = ground arith

module _ (now i o : ℕ) (t : Table) (j : Job) (v : IsValid t)
    (h : get_job i (some o) false t ≡ some j) where
  trash-ok : trash_job now i o t ≡ ok (some (trash_row now j)) (replace (trash_row now j) t)
  unfolding trash_job update_row
  trash-ok =
      let fine =
        set_deleted_at-IsWellFormed j (some now) (visible-IsWellFormed i o t {j = j} v h) in
      ground (
        arith,
        get_job-find i o t {j = j} h,
        get_job-owner i o t {j = j} h,
        visible-untrashed i o t {j = j} h,
        fine.0,
      )

  restore-ok : restore_job i o (replace (trash_row now j) t) ≡ ok (some j) t
  unfolding restore_job update_row
  restore-ok =
      let found = get_job-find i o t {j = j} h in
      let same = untouched j (visible-untrashed i o t {j = j} h) in
      ground (
        arith,
        find-replace_self i (trash_row now j) t {j = j} (find-id i t {j = j} found) found,
        get_job-owner i o t {j = j} h,
        same,
        replace-replace i j (trash_row now j) t found (find-id i t {j = j} found)
            (find-id i t {j = j} found),
        (visible-IsWellFormed i o t {j = j} v h).0,
      )

-- A job that its owner can see goes to the trash and comes back: with a trash in use, deleting it
-- succeeds and touches no object, and restoring it after that gives back the row, and the whole
-- table, as they were.
pub restore-delete :
    (s : Settings) (st : Storage) (now i o : ℕ) (t : Table) (j : Job)
    → IsValid t
    → ltb_ℤ (pos 0) s.trash_retention_days ≡ true
    → get_job i (some o) false t ≡ some j
    → let d = delete_job_by_id s st now i o t in
      (d.reply ≡ answered tt)
      × (d.attempted ≡ [])
      × (restore_job_by_id i o d.jobs ≡ (answered j, t))
unfolding delete_job_by_id restore_job_by_id
restore-delete s st now i o t j v on h =
    let there = trash-ok now i o t j v h in
    let back = restore-ok now i o t j v h in
    (ground (arith, there), ground (arith, there), ground (arith, there, back))
