-- ===== src/Jobs/EditRoots/Resolved.antt =====
-- What `resolve_edit_roots` (app/repositories/jobs.py) promises for every job of a page.
use media_player.Prelude.{
  ℕ, ◌≡◌, refl, ap, Bool, true, false, none, some, List, [], ◌∷◌, arith, ◌==◌, if◌then◌else◌,
  is_some, filter, Option-cases, inl, inr, Bool-cases,
}
use media_player.Jobs.Row.{Job}
use media_player.Jobs.Store.{Table, find}
use media_player.Jobs.StoreLaws.{Distinct}
use media_player.Jobs.EditRoots.{Roots, get, hops, by_id, resolve_edit_roots, max_edit_chain}
use media_player.Jobs.EditRoots.Owners.{OwnedAt, get-OwnedAt, hops-OwnedAt}
use media_player.Jobs.EditRoots.Filed.{absent, filed-hops, hops-Untouched}

-- The page as a dict.
get-by_id : (i : ℕ) (js : List Job) → get i (by_id js) ≡ find i js
unfolding get find
get-by_id i [] = refl
get-by_id i (j ∷ js) = ground (arith, get-by_id i js)

by_id-absent :
    (i : ℕ) (js : List Job) (p : Job → Bool)
    → find i js ≡ none
    → absent i (by_id (filter p js)) ≡ true
unfolding find
by_id-absent i [] p h = refl
by_id-absent i (j ∷ js) p h = ground (arith, by_id-absent i js p)

OwnedAt-absent : (i o : ℕ) (d : Roots) → absent i d ≡ true → OwnedAt i o d
OwnedAt-absent i o [] h = tt
OwnedAt-absent i o ((k, m) ∷ d) h =
    (λ e. absurd (ground arith), OwnedAt-absent i o d (ground arith))

filter-true : (js : List Job) → filter (λ k. true) js ≡ js
filter-true [] = refl
filter-true (j ∷ js) = ap (λ r. j ∷ r) (filter-true js)

keep_first :
    (i o : ℕ) (k : Job) (rest : List Job) (b : Bool)
    → (k.id ≡ i → k.owner_id ≡ o)
    → OwnedAt i o (by_id rest)
    → OwnedAt i o (by_id (if b then k ∷ rest else rest))
keep_first i o k rest true h r = (h, r)
keep_first i o k rest false h r = r

by_id-OwnedAt :
    (i : ℕ) (js : List Job) (p : Job → Bool) {j : Job}
    → Distinct js
    → find i js ≡ some j
    → OwnedAt i j.owner_id (by_id (filter p js))
unfolding find
by_id-OwnedAt i [] p d f = tt
by_id-OwnedAt i (k ∷ js) p {j} d f = elim (Bool-cases (k.id == i)) [
  | inl same ↦
      keep_first i j.owner_id k (filter p js) (p k) (λ e. ground arith)
        (OwnedAt-absent i j.owner_id (by_id (filter p js)) (by_id-absent i js p (ground arith)))
  | inr other ↦
      keep_first i j.owner_id k (filter p js) (p k) (λ e. absurd (ground arith))
        (by_id-OwnedAt i js p {j = j} d.1 (ground arith))
]

uploads_absent :
    (i : ℕ) (js : List Job) {j : Job}
    → Distinct js
    → find i js ≡ some j
    → j.operations ≡ none
    → absent i (by_id (filter (λ k. is_some k.operations) js)) ≡ true
unfolding find
uploads_absent i [] d f o = refl
uploads_absent i (k ∷ js) {j} d f o = elim (Bool-cases (k.id == i)) [
  | inl same ↦ ground (arith, by_id-absent i js (λ (m : Job). is_some m.operations))
  | inr other ↦ ground (arith, uploads_absent i js {j = j} d.1)
]

-- Every job of a page whose ids are distinct gets a root; the root has the owner of the job, whatever
-- other owners' rows are in the table; and an upload is its own root.
pub resolve_edit_roots_lem :
    (t : Table) (jobs : List Job) (i : ℕ) (j : Job)
    → Distinct jobs
    → find i jobs ≡ some j
    → (r : Job) × (get i (resolve_edit_roots t jobs) ≡ some r)
      × (r.owner_id ≡ j.owner_id)
      × (j.operations ≡ none → r ≡ j)
unfolding resolve_edit_roots
resolve_edit_roots_lem t jobs i j d f =
    let pending = by_id (filter (λ (k : Job). is_some k.operations) jobs) in
    let all_jobs : filter (λ k. true) jobs ≡ jobs = filter-true jobs in
    let filed =
      filed-hops i max_edit_chain t pending (by_id jobs) (rw (get-by_id i jobs, f) refl) in
    let owned =
      hops-OwnedAt i j.owner_id max_edit_chain t pending (by_id jobs)
        (by_id-OwnedAt i jobs (λ k. is_some k.operations) {j = j} d f)
        (rw all_jobs at (by_id-OwnedAt i jobs (λ k. true) {j = j} d f)) in
    elim (Option-cases (get i (hops max_edit_chain t pending (by_id jobs)))) [
      | inl missing ↦ absurd (ground arith)
      | inr (r, e) ↦ (
        r,
        e,
        get-OwnedAt i j.owner_id (hops max_edit_chain t pending (by_id jobs)) {j = r} owned e,
        λ o. cc (
          e,
          hops-Untouched i max_edit_chain t pending (by_id jobs)
              (uploads_absent i jobs {j = j} d f o),
          get-by_id i jobs,
          f,
        ),
      )
    ]
