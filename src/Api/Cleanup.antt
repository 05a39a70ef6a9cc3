-- ===== src/Api/Cleanup.antt =====
-- app/services/job_cleanup.py: the objects of a deleted job; and the routes of app/api/jobs.py that
-- delete, trash and restore. What the storage holds and which calls of it fail are parameters.
use media_player.Prelude.{
  ℕ, Bool, true, not, ◌&&◌, Option, none, some, List, [], ◌∷◌, ◌++◌, ◌==◌, if◌then◌else◌, is_none,
  any, all,
}
use media_player.Prelude.Text.{Text, null, text_eq}
use media_player.Prelude.Int.{pos, ltb_ℤ}
use media_player.Jobs.Row.{Job}
use media_player.Jobs.Store.{Table, Result, ok, err}
use media_player.Jobs.Writes.{trash_job, restore_job, delete_job}
use media_player.Api.Shown.{Settings, Reply, answered, http, crashed}

-- `list_objects(prefix)`, with `none` for a call that raised, and the deletes that succeed.
pub record Storage : Type 0 where
  pub list_objects : Text → Option (List Text)
  pub deletes : Text → Bool

-- The part before the last slash, if there is one.
unfoldable pub before_slash : Text → Option Text
before_slash [] = none
before_slash (c ∷ t) = elim (before_slash t) [
  | some before ↦ some (c ∷ before)
  | none ↦ if c == 47 then some [] else none
]

-- `key.rsplit("/", 1)[0] + "/"`
unfoldable pub folder_of : Text → Text
unfolding before_slash
folder_of key = elim (before_slash key) [ some before ↦ before | none ↦ key ] ++ (47 ∷ [])

abbrev pub if_has : {A : Type 0} → (Text → A) → Option Text → List A
if_has f none = []
if_has f (some k) = if null k then [] else f k ∷ []

-- The keys that the row itself names.
unfoldable pub own_keys : Job → List Text
own_keys job =
    let keys = if_has (λ k. k) job.output_key ++ if_has (λ k. k) job.thumbnail_key in
    if is_none job.operations then job.source_key ∷ keys else keys

unfoldable pub prefixes : Job → List Text
unfolding folder_of
prefixes job = if_has folder_of job.hls_key ++ if_has folder_of job.preview_key

-- The objects under the prefixes; `none` if a listing raised and that is not to be ignored.
unfoldable pub listed : Storage → Bool → List Text → Option (List Text)
listed st best_effort [] = some []
listed st best_effort (p ∷ ps) =
    let rest = listed st best_effort ps in
    elim (st.list_objects p) [
      | some names ↦ elim rest [ none ↦ none | some more ↦ some (names ++ more) ]
      | none ↦ if best_effort then rest else none
    ]

abbrev pub elem : Text → List Text → Bool
elem k ks = any (text_eq k) ks

-- `dict.fromkeys(keys)`: each key once, in the order of the first places.
unfoldable pub fromkeys : List Text → List Text → List Text
fromkeys seen [] = []
fromkeys seen (k ∷ ks) = let rest = fromkeys (k ∷ seen) ks in if elem k seen then rest else k ∷ rest

-- The keys whose deletion is attempted, and whether the call raised at the end.
pub record Cleaned : Type 0 where
  pub attempted : List Text
  pub raised : Bool

unfoldable pub delete_job_storage : Storage → Job → Bool → Cleaned
unfolding own_keys prefixes listed fromkeys
delete_job_storage st job best_effort = elim (listed st best_effort (prefixes job)) [
  | none ↦ record { attempted = []; raised = true }
  | some names ↦
      let unique = fromkeys [] (own_keys job ++ names) in
      record { attempted = unique; raised = not best_effort && not (all st.deletes unique) }
]

-- The row's deletion first, then its objects: what the caller is told does not depend on them.
unfoldable pub delete_job_and_storage :
    Storage → ℕ → Option ℕ → Table → Option (Option Cleaned × Table)
unfolding delete_job_storage
delete_job_and_storage st job_id owner t = elim (delete_job job_id owner t) [
  | err _ ↦ none
  | ok none t' ↦ some (none, t')
  | ok (some job) t' ↦ some (some (delete_job_storage st job true), t')
]

-- The answer of a route that deletes for good, with the objects it touched.
pub record Deletion : Type 0 where
  pub reply : Reply (Unit {0})
  pub attempted : List Text
  pub jobs : Table

abbrev pub deletion : Option (Option Cleaned × Table) → Table → Deletion
deletion none t = record { reply = crashed; attempted = []; jobs = t }
deletion (some (none, t')) t = record { reply = http 404; attempted = []; jobs = t' }
deletion (some (some c, t')) t = record {
  reply = if c.raised then crashed else answered tt;
  attempted = c.attempted;
  jobs = t';
}

unfoldable pub delete_job_permanently : Storage → ℕ → ℕ → Table → Deletion
unfolding delete_job_and_storage
delete_job_permanently st job_id owner t =
    deletion (delete_job_and_storage st job_id (some owner) t) t

unfoldable pub delete_job_by_id_as_operator : Storage → ℕ → Table → Deletion
unfolding delete_job_and_storage
delete_job_by_id_as_operator st job_id t = deletion (delete_job_and_storage st job_id none t) t

abbrev pub trashed : Result (Option Job) → Table → Deletion
trashed (err _) t = record { reply = crashed; attempted = []; jobs = t }
trashed (ok none t') t = record { reply = http 404; attempted = []; jobs = t' }
trashed (ok (some _) t') t = record { reply = answered tt; attempted = []; jobs = t' }

unfoldable pub delete_job_by_id : Settings → Storage → ℕ → ℕ → ℕ → Table → Deletion
unfolding delete_job_permanently
delete_job_by_id s st now job_id owner t =
    if ltb_ℤ (pos 0) s.trash_retention_days
    then trashed (trash_job now job_id owner t) t
    else delete_job_permanently st job_id owner t

-- `POST /jobs/{job_id}/restore`, up to the response it builds from the row.
unfoldable pub restore_job_by_id : ℕ → ℕ → Table → Reply Job × Table
restore_job_by_id job_id owner t = elim (restore_job job_id owner t) [
  | err _ ↦ (crashed, t)
  | ok none t' ↦ (http 404, t')
  | ok (some job) t' ↦ (answered job, t')
]
