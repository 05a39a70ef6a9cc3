-- ===== src/Jobs/EditRoots/Stored.antt =====
-- `resolve_edit_roots` (app/repositories/jobs.py): every root is a job of the page or of the table.
use media_player.Prelude.{
  ℕ, zero, suc, ◌≡◌, Bool, true, false, Option, none, some, List, [], ◌∷◌, ◌==◌, if◌then◌else◌,
  is_some, filter, subst, not, ◌||◌,
}
use media_player.Jobs.Row.{Job}
use media_player.Jobs.Store.{Table}
use media_player.Jobs.StoreLaws.{Rows}
use media_player.Jobs.EditRoots.{
  Roots, get, put, last_where, is_upload, is_output, candidate, parent_of, settle, hop, hops,
  fits_pending, by_id, resolve_edit_roots, max_edit_chain,
}

module _ (P : Job → Type 0) where
  abbrev Filed : Roots → Type 0
  Filed [] = Unit {0}
  Filed ((k, m) ∷ d) = P m × Filed d

  put-Filed : (k : ℕ) (j : Job) (d : Roots) → P j → Filed d → Filed (put k j d)
  unfolding put
  put-Filed k j [] p h = (p, tt)
  put-Filed k j ((u, m) ∷ d) p h =
      elim (u == k) as (λ b. Filed (if b then (k, j) ∷ d else (u, m) ∷ put k j d)) [
        | true ↦ (p, h.1)
        | false ↦ (h.0, put-Filed k j d p h.1)
      ]

  get-Filed : (i : ℕ) (d : Roots) {j : Job} → Filed d → get i d ≡ some j → P j
  unfolding get
  get-Filed i [] h e = cc
  get-Filed i ((k, m) ∷ d) {j} h e =
      elim (k == i) as (λ b. (if b then some m else get i d) ≡ some j → P j) [
        | true ↦ λ q. subst P (cc) (h.0)
        | false ↦ λ q. get-Filed i d h.1 q
      ]
        e

  filter-Rows : (q : Job → Bool) (js : List Job) → Rows P js → Rows P (filter q js)
  filter-Rows q [] h = tt
  filter-Rows q (j ∷ js) h =
      elim (q j) as (λ b. Rows P (if b then j ∷ filter q js else filter q js)) [
        | true ↦ (h.0, filter-Rows q js h.1)
        | false ↦ filter-Rows q js h.1
      ]

  by_id-Filed : (js : List Job) → Rows P js → Filed (by_id js)
  by_id-Filed [] h = tt
  by_id-Filed (j ∷ js) h = (h.0, by_id-Filed js h.1)

  abbrev Maybe : Option Job → Type 0
  Maybe none = Unit {0}
  Maybe (some j) = P j

  last_where-Maybe : (q : Job → Bool) (rs : List Job) → Rows P rs → Maybe (last_where q rs)
  unfolding last_where
  last_where-Maybe q [] h = tt
  last_where-Maybe q (r ∷ rs) h =
      elim (last_where q rs)
          as (λ x.
            Maybe x → Maybe (elim x [ some y ↦ some y | none ↦ if q r then some r else none ])) [
              | some y ↦ λ p. p
              | none ↦ λ _. elim (q r) as (λ b. Maybe (if b then some r else none)) [
                | true ↦ h.0
                | false ↦ tt
              ]
            ]
        (last_where-Maybe q rs h.1)

  candidate-Maybe : (rows : List Job) (j : Job) → Rows P rows → Maybe (candidate rows j)
  candidate-Maybe rows j h =
      let key = j.source_key in
      elim (last_where (is_upload key) rows)
          as (λ x.
            Maybe x → Maybe (elim x [ some u ↦ some u | none ↦ last_where (is_output key) rows ])) [
              | some y ↦ λ p. p
              | none ↦ λ _. last_where-Maybe (is_output key) rows h
            ]
        (last_where-Maybe (is_upload key) rows h)

  parent-Maybe : (rows : List Job) (j : Job) → Rows P rows → Maybe (parent_of rows j)
  unfolding parent_of
  parent-Maybe rows j h =
      elim (candidate rows j)
          as (λ x.
            Maybe x
            → Maybe (elim x [
              | none ↦ none
              | some p ↦ if not (p.owner_id == j.owner_id) || p.id == j.id then none else some p
            ])) [
              | none ↦ λ _. tt
              | some p ↦ λ h'.
                  elim (not (p.owner_id == j.owner_id) || p.id == j.id)
                    as (λ b. Maybe (if b then none else some p)) [ true ↦ tt | false ↦ h' ]
            ]
        (candidate-Maybe rows j h)

  abbrev BothFiled : Roots × Roots → Type 0
  BothFiled (roots, still) = Filed roots × Filed still

  settle-BothFiled :
      (k : ℕ) (p : Option Job) (roots still : Roots)
      → Maybe p
      → BothFiled (roots, still)
      → BothFiled (settle k p roots still)
  unfolding settle
  settle-BothFiled k none roots still h b = b
  settle-BothFiled k (some p) roots still h b = (
    put-Filed k p roots h b.0,
    elim (is_some p.operations) as (λ c. Filed (if c then put k p still else still)) [
      | true ↦ put-Filed k p still h b.1
      | false ↦ b.1
    ],
  )

  hop-BothFiled :
      (rows : List Job) (pending roots still : Roots)
      → Rows P rows
      → BothFiled (roots, still)
      → BothFiled (hop rows pending roots still)
  unfolding hop
  hop-BothFiled rows [] roots still h b = b
  hop-BothFiled rows ((k, j) ∷ pending) roots still h b =
      let (roots', still') = settle k (parent_of rows j) roots still in
      hop-BothFiled rows pending roots' still' h
        (settle-BothFiled k (parent_of rows j) roots still (parent-Maybe rows j h) b)

  hops-Filed :
      (n : ℕ) (t : Table) (pending roots : Roots)
      → Rows P t
      → Filed roots
      → Filed (hops n t pending roots)
  unfolding hops
  hops-Filed zero t pending roots h r = r
  hops-Filed (suc n) t [] roots h r = r
  hops-Filed (suc n) t (e ∷ pending) roots h r =
      let rows = filter (fits_pending (e ∷ pending)) t in
      let (roots', still) = hop rows (e ∷ pending) roots [] in
      hops-Filed n t still roots' h
        (hop-BothFiled rows (e ∷ pending) roots [] (filter-Rows (fits_pending (e ∷ pending)) t h)
          (r, tt)).0

  -- What holds of every row of the table and of the page holds of every root.
  pub root-Rows :
      (t : Table) (jobs : List Job) (i : ℕ) {r : Job}
      → Rows P t
      → Rows P jobs
      → get i (resolve_edit_roots t jobs) ≡ some r
      → P r
  unfolding resolve_edit_roots
  root-Rows t jobs i {r} h g e =
      let pending = by_id (filter (λ (j : Job). is_some j.operations) jobs) in
      get-Filed i (hops max_edit_chain t pending (by_id jobs)) {j = r}
        (hops-Filed max_edit_chain t pending (by_id jobs) h (by_id-Filed jobs g)) e
