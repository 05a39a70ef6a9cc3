-- ===== src/Jobs/StoreLaws.antt =====
-- Laws of the statements in Jobs/Store: what a statement does to every row, and to one.
use media_player.Prelude.{
  ℕ, ◌≡◌, refl, subst, ◌≢◌, true, false, none, some, [], ◌∷◌, arith, ◌==◌, if◌then◌else◌,
}
use media_player.Jobs.Row.{Job}
use media_player.Jobs.Store.{Table, find, replace, remove}

-- `P` holds of every row.
abbrev pub Rows : (Job → Type 0) → Table → Type 0
Rows P [] = Unit {0}
Rows P (j ∷ t) = P j × Rows P t

-- No two rows share a primary key.
abbrev pub Distinct : Table → Type 0
Distinct [] = Unit {0}
Distinct (j ∷ t) = (find j.id t ≡ none) × Distinct t

module _ (P : Job → Type 0) where
  pub find-Rows : (i : ℕ) (t : Table) {j : Job} → Rows P t → find i t ≡ some j → P j
  unfolding find
  find-Rows i [] h e = cc
  find-Rows i (k ∷ t) {j} h e =
      elim (k.id == i) as (λ b. (if b then some k else find i t) ≡ some j → P j) [
        | true ↦ λ p. subst P (cc) (h.0)
        | false ↦ λ p. find-Rows i t h.1 p
      ]
        e

  pub replace-Rows : (r : Job) (t : Table) → P r → Rows P t → Rows P (replace r t)
  unfolding replace
  replace-Rows r [] p h = tt
  replace-Rows r (k ∷ t) p h =
      elim (k.id == r.id) as (λ b. Rows P (if b then r ∷ t else k ∷ replace r t)) [
        | true ↦ (p, h.1)
        | false ↦ (h.0, replace-Rows r t p h.1)
      ]

  pub remove-Rows : (i : ℕ) (t : Table) → Rows P t → Rows P (remove i t)
  unfolding remove
  remove-Rows i [] h = tt
  remove-Rows i (k ∷ t) h = elim (k.id == i) as (λ b. Rows P (if b then t else k ∷ remove i t)) [
    | true ↦ h.1
    | false ↦ (h.0, remove-Rows i t h.1)
  ]

-- A row that is found has the id asked for.
pub find-id : (i : ℕ) (t : Table) {j : Job} → find i t ≡ some j → j.id ≡ i
unfolding find
find-id i [] e = cc
find-id i (k ∷ t) {j} e = ground (arith, find-id i t {j = j})

pub find-replace_self :
    (i : ℕ) (r : Job) (t : Table) {j : Job}
    → r.id ≡ i
    → find i t ≡ some j
    → find i (replace r t) ≡ some r
unfolding find replace
find-replace_self i r [] h e = cc
find-replace_self i r (k ∷ t) {j} h e = ground (arith, find-replace_self i r t {j = j} h)

pub find-replace_ne : (i : ℕ) (r : Job) (t : Table) → i ≢ r.id → find i (replace r t) ≡ find i t
unfolding find replace
find-replace_ne i r [] h = refl
find-replace_ne i r (k ∷ t) h = ground (arith, find-replace_ne i r t h)

pub find-remove_ne : (i d : ℕ) (t : Table) → i ≢ d → find i (remove d t) ≡ find i t
unfolding find remove
find-remove_ne i d [] h = refl
find-remove_ne i d (k ∷ t) h = ground (arith, find-remove_ne i d t h)

pub find-remove_self : (i : ℕ) (t : Table) → Distinct t → find i (remove i t) ≡ none
unfolding find remove
find-remove_self i [] h = refl
find-remove_self i (k ∷ t) h = ground (arith, find-remove_self i t h.1)

-- An id that is absent stays absent.
pub find-replace-none :
    (i : ℕ) (r : Job) (t : Table) → find i t ≡ none → find i (replace r t) ≡ none
unfolding find replace
find-replace-none i r [] e = refl
find-replace-none i r (k ∷ t) e = ground (arith, find-replace-none i r t)

pub find-remove-none : (i d : ℕ) (t : Table) → find i t ≡ none → find i (remove d t) ≡ none
unfolding find remove
find-remove-none i d [] e = refl
find-remove-none i d (k ∷ t) e = ground (arith, find-remove-none i d t)

pub replace-Distinct : (r : Job) (t : Table) → Distinct t → Distinct (replace r t)
unfolding replace
replace-Distinct r [] h = tt
replace-Distinct r (k ∷ t) h =
    ground (arith, replace-Distinct r t h.1, find-replace-none k.id r t h.0)

pub remove-Distinct : (d : ℕ) (t : Table) → Distinct t → Distinct (remove d t)
unfolding remove
remove-Distinct d [] h = tt
remove-Distinct d (k ∷ t) h = ground (arith, remove-Distinct d t h.1, find-remove-none k.id d t h.0)
