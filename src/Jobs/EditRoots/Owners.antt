-- ===== src/Jobs/EditRoots/Owners.antt =====
-- `resolve_edit_roots` (app/repositories/jobs.py): the hops stay within one owner.
use media_player.Prelude.{
  ℕ, zero, suc, ◌≡◌, refl, ◌∙◌, true, false, Option, none, some, List, [], ◌∷◌, arith, ◌==◌,
  if◌then◌else◌, is_some, filter, inl, inr, Bool-cases,
}
use media_player.Jobs.Row.{Job}
use media_player.Jobs.Store.{Table}
use media_player.Jobs.EditRoots.{Roots, get, put, parent_of, settle, hop, hops, fits_pending}

parent-owner :
    (rows : List Job) (j : Job) {p : Job} → parent_of rows j ≡ some p → p.owner_id ≡ j.owner_id
unfolding parent_of
parent-owner rows j e = ground arith

-- Every job filed under the id `i` is owned by `o`.
abbrev pub OwnedAt : ℕ → ℕ → Roots → Type 0
OwnedAt i o [] = Unit {0}
OwnedAt i o ((k, m) ∷ d) = (k ≡ i → m.owner_id ≡ o) × OwnedAt i o d

module _ (i : ℕ) (o : ℕ) where
  put-OwnedAt :
      (k : ℕ) (j : Job) (d : Roots)
      → (k ≡ i → j.owner_id ≡ o)
      → OwnedAt i o d
      → OwnedAt i o (put k j d)
  unfolding put
  put-OwnedAt k j [] e h = (e, tt)
  put-OwnedAt k j ((u, m) ∷ d) e h =
      elim (u == k) as (λ b. OwnedAt i o (if b then (k, j) ∷ d else (u, m) ∷ put k j d)) [
        | true ↦ (e, h.1)
        | false ↦ (h.0, put-OwnedAt k j d e h.1)
      ]

  pub get-OwnedAt : (d : Roots) {j : Job} → OwnedAt i o d → get i d ≡ some j → j.owner_id ≡ o
  unfolding get
  get-OwnedAt [] h e = cc
  get-OwnedAt ((k, m) ∷ d) {j} h e = elim (Bool-cases (k == i)) [
    | inl same ↦ ground arith
    | inr other ↦ get-OwnedAt d {j = j} h.1 (ground arith)
  ]

  abbrev BothOwned : Roots × Roots → Type 0
  BothOwned (roots, still) = OwnedAt i o roots × OwnedAt i o still

  settle-BothOwned :
      (k : ℕ) (rows : List Job) (j : Job) (p : Option Job) (roots still : Roots)
      → parent_of rows j ≡ p
      → (k ≡ i → j.owner_id ≡ o)
      → BothOwned (roots, still)
      → BothOwned (settle k p roots still)
  unfolding settle
  settle-BothOwned k rows j none roots still e h b = b
  settle-BothOwned k rows j (some p) roots still e h b =
      let own : k ≡ i → p.owner_id ≡ o = λ q. parent-owner rows j e ∙ h q in
      (
        put-OwnedAt k p roots own b.0,
        elim (is_some p.operations) as (λ c. OwnedAt i o (if c then put k p still else still)) [
          | true ↦ put-OwnedAt k p still own b.1
          | false ↦ b.1
        ],
      )

  hop-BothOwned :
      (rows : List Job) (pending roots still : Roots)
      → OwnedAt i o pending
      → BothOwned (roots, still)
      → BothOwned (hop rows pending roots still)
  unfolding hop
  hop-BothOwned rows [] roots still p b = b
  hop-BothOwned rows ((k, j) ∷ pending) roots still p b =
      let (roots', still') = settle k (parent_of rows j) roots still in
      hop-BothOwned rows pending roots' still' p.1
        (settle-BothOwned k rows j (parent_of rows j) roots still refl p.0 b)

  pub hops-OwnedAt :
      (n : ℕ) (t : Table) (pending roots : Roots)
      → OwnedAt i o pending
      → OwnedAt i o roots
      → OwnedAt i o (hops n t pending roots)
  unfolding hops
  hops-OwnedAt zero t pending roots p r = r
  hops-OwnedAt (suc n) t [] roots p r = r
  hops-OwnedAt (suc n) t (e ∷ pending) roots p r =
      let (roots', still) = hop (filter (fits_pending (e ∷ pending)) t) (e ∷ pending) roots [] in
      let both =
        hop-BothOwned (filter (fits_pending (e ∷ pending)) t) (e ∷ pending) roots [] p (r, tt) in
      hops-OwnedAt n t still roots' both.1 both.0
