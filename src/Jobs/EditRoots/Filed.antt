-- ===== src/Jobs/EditRoots/Filed.antt =====
-- `resolve_edit_roots` (app/repositories/jobs.py): no root is dropped, and a job that is not
-- pending keeps its root.
use media_player.Prelude.{
  ℕ, zero, suc, ◌≡◌, refl, ◌≢◌, ◌∙◌, Bool, true, false, not, Option, none, some, List, [], ◌∷◌,
  arith, ◌==◌, if◌then◌else◌, is_some, filter, all, inl, inr, Bool-cases,
}
use media_player.Jobs.Row.{Job}
use media_player.Jobs.Store.{Table}
use media_player.Jobs.EditRoots.{Roots, get, put, parent_of, settle, hop, hops, fits_pending}

get-put_self : (i : ℕ) (j : Job) (d : Roots) → get i (put i j d) ≡ some j
unfolding get put
get-put_self i j [] = ground arith
get-put_self i j ((k, m) ∷ d) = ground (arith, get-put_self i j d)

get-put_ne : (i k : ℕ) (j : Job) (d : Roots) → i ≢ k → get i (put k j d) ≡ get i d
unfolding get put
get-put_ne i k j [] n = ground arith
get-put_ne i k j ((u, m) ∷ d) n = ground (arith, get-put_ne i k j d n)

-- What the loops do to the entry of one id: it stays filed, and is not touched while not pending.
module _ (i : ℕ) where
  filed-put :
      (k : ℕ) (j : Job) (d : Roots) → is_some (get i d) ≡ true → is_some (get i (put k j d)) ≡ true
  filed-put k j d h = elim (Bool-cases (i == k)) [
    | inl same ↦ ground (arith, get-put_self i j d)
    | inr other ↦ ground (arith, get-put_ne i k j d)
  ]

  filed-hop :
      (rows : List Job) (pending roots still : Roots)
      → is_some (get i roots) ≡ true
      → is_some (get i (hop rows pending roots still).0) ≡ true
  unfolding hop
  filed-hop rows [] roots still h = h
  filed-hop rows ((k, j) ∷ pending) roots still h =
      let (roots', still') = settle k (parent_of rows j) roots still in
      filed-hop rows pending roots' still' (filed-settle (parent_of rows j))
    where
      filed-settle : (p : Option Job) → is_some (get i (settle k p roots still).0) ≡ true
      filed-settle none = unfold settle in h
      filed-settle (some p) = unfold settle in filed-put k p roots h

  pub filed-hops :
      (n : ℕ) (t : Table) (pending roots : Roots)
      → is_some (get i roots) ≡ true
      → is_some (get i (hops n t pending roots)) ≡ true
  unfolding hops
  filed-hops zero t pending roots h = h
  filed-hops (suc n) t [] roots h = h
  filed-hops (suc n) t (e ∷ pending) roots h =
      let (roots', still) = hop (filter (fits_pending (e ∷ pending)) t) (e ∷ pending) roots [] in
      filed-hops n t still roots'
        (filed-hop (filter (fits_pending (e ∷ pending)) t) (e ∷ pending) roots [] h)

  abbrev pub absent : Roots → Bool
  absent d = all (λ e. not (e.0 == i)) d

  put-absent :
      (k : ℕ) (j : Job) (d : Roots) → (k == i) ≡ false → absent d ≡ true → absent (put k j d) ≡ true
  unfolding put
  put-absent k j [] n h = ground arith
  put-absent k j ((u, m) ∷ d) n h = ground (arith, put-absent k j d n)

  -- A root stays what it is, and the job stays out of the pending ones.
  abbrev Untouched : Roots → Roots × Roots → Type 0
  Untouched roots (roots', still') = (get i roots' ≡ get i roots) × (absent still' ≡ true)

  settle-Untouched :
      (k : ℕ) (p : Option Job) (roots still : Roots)
      → (k == i) ≡ false
      → absent still ≡ true
      → Untouched roots (settle k p roots still)
  unfolding settle
  settle-Untouched k none roots still n h = (refl, h)
  settle-Untouched k (some p) roots still n h = (
    get-put_ne i k p roots (ground arith),
    elim (is_some p.operations) as (λ c. absent (if c then put k p still else still) ≡ true) [
      | true ↦ put-absent k p still n h
      | false ↦ h
    ],
  )

  hop-Untouched :
      (rows : List Job) (pending roots still : Roots)
      → absent pending ≡ true
      → absent still ≡ true
      → Untouched roots (hop rows pending roots still)
  unfolding hop
  hop-Untouched rows [] roots still a h = (refl, h)
  hop-Untouched rows ((k, j) ∷ pending) roots still a h =
      let (roots', still') = settle k (parent_of rows j) roots still in
      let one = settle-Untouched k (parent_of rows j) roots still (ground arith) h in
      let rest = hop-Untouched rows pending roots' still' (ground arith) one.1 in
      (rest.0 ∙ one.0, rest.1)

  pub hops-Untouched :
      (n : ℕ) (t : Table) (pending roots : Roots)
      → absent pending ≡ true
      → get i (hops n t pending roots) ≡ get i roots
  unfolding hops
  hops-Untouched zero t pending roots a = refl
  hops-Untouched (suc n) t [] roots a = refl
  hops-Untouched (suc n) t (e ∷ pending) roots a =
      let (roots', still) = hop (filter (fits_pending (e ∷ pending)) t) (e ∷ pending) roots [] in
      let one =
        hop-Untouched (filter (fits_pending (e ∷ pending)) t) (e ∷ pending) roots [] a refl in
      hops-Untouched n t still roots' one.1 ∙ one.0
