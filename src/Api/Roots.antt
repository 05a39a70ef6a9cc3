-- ===== src/Api/Roots.antt =====
-- app/api/jobs.py: the root that a route finds for the one job it serves.
use media_player.Prelude.{ℕ, ◌≡◌, some, [], ◌∷◌, arith, ==_refl, false}
use media_player.Jobs.Row.{Job}
use media_player.Jobs.Store.{Table, find}
use media_player.Jobs.StoreLaws.{Distinct, find-Rows}
use media_player.Jobs.Invariant.{IsWellFormed}
use media_player.Jobs.WellFormed.{IsValid}
use media_player.Jobs.Queries.{get_job}
use media_player.Jobs.EditRoots.Resolved.{resolve_edit_roots_lem}
use media_player.Jobs.EditRoots.Stored.{root-Rows}
use media_player.Api.Shown.{root_of}

alone : (j : Job) → find j.id (j ∷ []) ≡ some j
unfolding find
alone j = ground (arith, ==_refl j.id)

alone-Distinct : (j : Job) → Distinct (j ∷ [])
unfolding find
alone-Distinct j = ground arith

pub get_job-find :
    (i o : ℕ) (t : Table) {j : Job} → get_job i (some o) false t ≡ some j → find i t ≡ some j
unfolding get_job
get_job-find i o t h = ground arith

pub get_job-owner :
    (i o : ℕ) (t : Table) {j : Job} → get_job i (some o) false t ≡ some j → j.owner_id ≡ o
unfolding get_job
get_job-owner i o t h = ground arith

-- A row that a route reads from a valid table is consistent, and so is its root, which exists.
pub visible-IsWellFormed :
    (i o : ℕ) (t : Table) {j : Job}
    → IsValid t
    → get_job i (some o) false t ≡ some j
    → IsWellFormed j
visible-IsWellFormed i o t {j} v h =
    find-Rows IsWellFormed i t {j = j} v.rows (get_job-find i o t {j = j} h)

pub root-IsWellFormed :
    (t : Table) (j : Job)
    → IsValid t
    → IsWellFormed j
    → (r : Job) × (root_of t j ≡ some r) × IsWellFormed r
root-IsWellFormed t j v f =
    let (root, e, _, _) = resolve_edit_roots_lem t (j ∷ []) j.id j (alone-Distinct j) (alone j) in
    (root, e, root-Rows IsWellFormed t (j ∷ []) j.id {r = root} v.rows (f, tt) e)
