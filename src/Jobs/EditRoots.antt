-- ===== src/Jobs/EditRoots.antt =====
-- app/repositories/jobs.py: `resolve_edit_roots`, the original upload behind each job of a page.
-- A dict by job id is an association list; a dict built from rows keeps the last row of a key.
pub mod Owners
pub mod Filed
pub mod Resolved
pub mod Stored
use media_player.Prelude.{
  ℕ, zero, suc, Bool, true, false, not, ◌&&◌, ◌||◌, Option, none, some, List, [], ◌∷◌, map, ◌==◌,
  if◌then◌else◌, is_none, is_some, filter, any,
}
use media_player.Prelude.Text.{Text, null, text_eq}
use media_player.Jobs.Row.{Job}
use media_player.Jobs.Store.{Table}

abbrev pub max_edit_chain : ℕ
max_edit_chain = 8

abbrev pub Roots : Type 0
Roots = List (ℕ × Job)

-- `d.get(i)` of a dict by id
unfoldable pub get : ℕ → Roots → Option Job
get i [] = none
get i ((k, j) ∷ d) = if k == i then some j else get i d

-- `d[i] = j`
unfoldable pub put : ℕ → Job → Roots → Roots
put i j [] = (i, j) ∷ []
put i j ((k, m) ∷ d) = let rest = put i j d in if k == i then (i, j) ∷ d else (k, m) ∷ rest

-- The last row that fits: what a dict comprehension over the rows keeps.
unfoldable pub last_where : (Job → Bool) → List Job → Option Job
last_where p [] = none
last_where p (r ∷ rs) = elim (last_where p rs) [
  | some x ↦ some x
  | none ↦ if p r then some r else none
]

-- `row.output_key` is set, not empty, and equal to the key
abbrev pub is_output : Text → Job → Bool
is_output key r = elim (r.output_key) [ none ↦ false | some o ↦ not (null o) && text_eq o key ]

abbrev pub is_upload : Text → Job → Bool
is_upload key r = is_none r.operations && text_eq r.source_key key

-- `Job.output_key.in_(keys)` and `Job.source_key.in_(keys)`, for the pending jobs' source keys
abbrev pub fits_pending : Roots → Job → Bool
fits_pending pending r =
    any (λ e. e.1.owner_id == r.owner_id) pending
    && ((is_none r.operations && any (λ e. text_eq r.source_key e.1.source_key) pending)
        || any (λ e. elim (r.output_key) [ none ↦ false | some o ↦ text_eq o e.1.source_key ])
            pending)

-- `uploads.get(current.source_key) or outputs.get(current.source_key)`
abbrev pub candidate : List Job → Job → Option Job
candidate rows current = elim (last_where (is_upload current.source_key) rows) [
  | some u ↦ some u
  | none ↦ last_where (is_output current.source_key) rows
]

-- The parent, unless it is missing, another owner's, or the job itself.
unfoldable pub parent_of : List Job → Job → Option Job
unfolding last_where
parent_of rows current = elim (candidate rows current) [
  | none ↦ none
  | some p ↦ if not (p.owner_id == current.owner_id) || p.id == current.id then none else some p
]

-- The rest of the loop's body, once the parent is known: the roots, and the jobs still pending.
unfoldable pub settle : ℕ → Option Job → Roots → Roots → Roots × Roots
settle i none roots still = (roots, still)
settle i (some p) roots still =
    (put i p roots, if is_some p.operations then put i p still else still)

-- The inner loop over the pending jobs.
unfoldable pub hop : List Job → Roots → Roots → Roots → Roots × Roots
unfolding settle
hop rows [] roots still = (roots, still)
hop rows ((i, current) ∷ pending) roots still =
    let (roots', still') = settle i (parent_of rows current) roots still in
    hop rows pending roots' still'

-- The outer loop: at most `max_edit_chain` hops, one query each.
unfoldable pub hops : ℕ → Table → Roots → Roots → Roots
unfolding hop
hops zero t pending roots = roots
hops (suc n) t [] roots = roots
hops (suc n) t (e ∷ pending) roots =
    let (roots', still) = hop (filter (fits_pending (e ∷ pending)) t) (e ∷ pending) roots [] in
    hops n t still roots'

-- `{job.id: job for job in jobs}`; the ids of a page are distinct.
abbrev pub by_id : List Job → Roots
by_id [] = []
by_id (j ∷ js) = (j.id, j) ∷ by_id js

unfoldable pub resolve_edit_roots : Table → List Job → Roots
unfolding hops put get
resolve_edit_roots t jobs =
    hops max_edit_chain t (by_id (filter (λ j. is_some j.operations) jobs)) (by_id jobs)
