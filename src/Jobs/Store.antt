-- ===== src/Jobs/Store.antt =====
-- The table as a list of rows and the statements that the repository runs on it. A statement with
-- its commit is one step: a refused one is rolled back, so an error carries no new table.
use media_player.Prelude.{ℕ, Bool, Option, none, some, List, [], ◌∷◌, ◌==◌, if◌then◌else◌}
use media_player.Jobs.Row.{Job, check_constraints}

abbrev pub Table : Type 0
Table = List Job

-- `JobNotFoundError`, `InvalidJobTransitionError`, `ValueError`, and the database's `IntegrityError`.
pub data JobError : Type 0 where
  not_found invalid_transition value_error integrity_error : JobError

pub data Result (A : Type 0) : Type 0 where
  ok : A → Table → Result A
  err : JobError → Result A

-- `session.get(Job, job_id)`
unfoldable pub find : ℕ → Table → Option Job
find i [] = none
find i (j ∷ t) = if j.id == i then some j else find i t

-- The row with the id of `r` is replaced by `r`.
unfoldable pub replace : Job → Table → Table
replace r [] = []
replace r (j ∷ t) = let rest = replace r t in if j.id == r.id then r ∷ t else j ∷ rest

-- The row with this id is removed.
unfoldable pub remove : ℕ → Table → Table
remove i [] = []
remove i (j ∷ t) = let rest = remove i t in if j.id == i then t else j ∷ rest

-- `session.add(job)` with its commit; the primary key and the constraints are checked.
unfoldable pub insert_row : Job → Table → Result Job
insert_row r t = elim (find r.id t) [
  | some _ ↦ err integrity_error
  | none ↦ if check_constraints r then ok r (r ∷ t) else err integrity_error
]

-- `UPDATE jobs SET … WHERE id = i AND cond RETURNING *`: the row written, if one fitted.
unfoldable pub update_row : ℕ → (Job → Bool) → (Job → Job) → Table → Result (Option Job)
update_row i cond set t = elim (find i t) [
  | none ↦ ok none t
  | some j ↦
      if cond j
      then if check_constraints (set j)
        then ok (some (set j)) (replace (set j) t)
        else err integrity_error
      else ok none t
]

-- `DELETE FROM jobs WHERE id = i AND cond RETURNING *`
unfoldable pub delete_row : ℕ → (Job → Bool) → Table → Result (Option Job)
delete_row i cond t = elim (find i t) [
  | none ↦ ok none t
  | some j ↦ if cond j then ok (some j) (remove i t) else ok none t
]

-- The table that a call leaves behind.
abbrev pub table_after : {A : Type 0} → Result A → Table → Table
table_after (ok _ t') t = t'
table_after (err _) t = t
