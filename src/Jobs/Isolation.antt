-- ===== src/Jobs/Isolation.antt =====
-- The owner checks: what one user's writes and reads can reach.
use media_player.Prelude.{ℕ, ◌≡◌, refl, ◌≢◌, ◌∙◌, ◌↔◌, ◌⊎◌, Bool, true, Option, none, some, arith}
use media_player.Jobs.Row.{Job}
use media_player.Jobs.Store.{Table, not_found, err, find, update_row}
use media_player.Jobs.Queries.{get_job}
use media_player.Jobs.Writes.{prepare_retry, refused}
use media_player.Jobs.Trace.{Write, apply}
use media_player.Jobs.StoreLaws.{Distinct}
use media_player.Jobs.Effect.{effect, row_effect}
use media_player.Jobs.Finality.{find-apply}

-- The user for whom the API runs this write; none for the operator, the workers and the reaper.
abbrev pub acts_for : Write → Option ℕ
acts_for (Write.create i o f s m) = some o
acts_for (Write.create_edit i o f s ops m) = some o
acts_for (Write.trash i o) = some o
acts_for (Write.restore i o) = some o
acts_for (Write.retry i o) = some o
acts_for (Write.delete i o) = o
acts_for _ = none

row_effect-other :
    (now : ℕ) (w : Write) (o : ℕ) (j : Job)
    → acts_for w ≡ some o
    → j.owner_id ≢ o
    → row_effect (effect now w) j ≡ some j
row_effect-other now (Write.create i p f s m) o j a n = refl
row_effect-other now (Write.create_edit i p f s ops m) o j a n = ground arith
row_effect-other now (Write.delete i (some p)) o j a n = ground arith
row_effect-other now (Write.delete i none) o j a n = cc
row_effect-other now (Write.trash i p) o j a n = ground arith
row_effect-other now (Write.restore i p) o j a n = ground arith
row_effect-other now (Write.retry i p) o j a n = ground arith
row_effect-other now _ o j a n = cc

-- A write that the API runs for one user leaves every row of another user as it is.
pub apply-other_owner :
    (now : ℕ) (w : Write) (o i : ℕ) (t : Table) {j : Job}
    → Distinct t
    → acts_for w ≡ some o
    → find i t ≡ some j
    → j.owner_id ≢ o
    → find i (apply now w t) ≡ some j
apply-other_owner now w o i t {j} d a f n =
    find-apply now w i t d f ∙ row_effect-other now w o j a n

-- With an owner, `get_job` returns a row exactly if it is that owner's and is not in the trash,
-- or the trash was asked for.
pub get_job_iff :
    (i o : ℕ) (trashed : Bool) (t : Table) (j : Job)
    → (get_job i (some o) trashed t ≡ some j)
      ↔ ((find i t ≡ some j) × (j.owner_id ≡ o) × ((trashed ≡ true) ⊎ (j.deleted_at ≡ none)))
unfolding get_job
get_job_iff i o trashed t j = ground arith

-- A retry that is refused does not say whether the row exists: another owner's row and a missing
-- one give the same error.
pub prepare_retry-other_owner :
    (now i o : ℕ) (t : Table) {j : Job}
    → find i t ≡ some j
    → j.owner_id ≢ o
    → prepare_retry now i o t ≡ err not_found
unfolding prepare_retry update_row get_job refused
prepare_retry-other_owner now i o t f n = ground arith
