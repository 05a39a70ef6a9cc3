-- ===== src/Jobs/Evolution.antt =====
-- Every write acts on each row by its own effect, and keeps the table and its rows well formed.
use media_player.Prelude.{
  ℕ, ◌≡◌, sym, subst, ◌∙◌, ◌∷◌, ◌≢◌, ◌⊎◌, inl, inr, Bool, true, false, ◌&&◌, none, some, arith,
  ◌==◌, Bool-cases, Option-cases,
}
use media_player.Jobs.Row.{Job, check_constraints}
use media_player.Jobs.Store.{
  Table, find, replace, remove, insert_row, update_row, delete_row, table_after,
}
use media_player.Jobs.Effect.{
  Effect, nothing, inserts, updates, deletes, perform, row_effect, KeepsId, Fresh,
}
use media_player.Jobs.StoreLaws.{
  Rows, Distinct, find-id, find-Rows, replace-Rows, remove-Rows, replace-Distinct, remove-Distinct,
  find-replace_self, find-replace_ne, find-remove_ne, find-remove_self, find-replace-none,
  find-remove-none,
}

ne_of_test : (i u : ℕ) → (i == u) ≡ false → i ≢ u
ne_of_test i u h = ground arith

update_other :
    (u : ℕ) (c : Job → Bool) (s : Job → Job) (i : ℕ) (t : Table)
    → ((j : Job) → (s j).id ≡ j.id)
    → i ≢ u
    → find i (table_after (update_row u c s t) t) ≡ find i t
unfolding update_row
update_other u c s i t k ne = elim (Option-cases (find u t)) [
  | inl absent ↦ ground arith
  | inr (j, e) ↦ ground (arith, find-replace_ne i (s j) t (λ p. ne (p ∙ (k j ∙ find-id u t e))))
]

delete_other :
    (u : ℕ) (c : Job → Bool) (i : ℕ) (t : Table)
    → i ≢ u
    → find i (table_after (delete_row u c t) t) ≡ find i t
unfolding delete_row
delete_other u c i t ne = ground (arith, find-remove_ne i u t ne)

-- Each row that is there evolves by its own effect, whatever the others do.
pub find-perform :
    (e : Effect) (i : ℕ) (t : Table) {j : Job}
    → KeepsId e
    → Distinct t
    → find i t ≡ some j
    → find i (perform e t) ≡ row_effect e j
find-perform nothing i t k d f = f
find-perform (inserts r) i t {j} k d f = unfold insert_row find in ground arith
find-perform (updates u c s) i t {j} k d f = elim (Bool-cases (i == u)) [
  | inl same ↦
      unfold update_row in
      ground
        (arith, find-id i t {j = j} f, find-replace_self i (s j) t {j = j} (k j ∙ find-id i t f) f)
  | inr other ↦
      ground (arith, find-id i t {j = j} f, update_other u c s i t k (ne_of_test i u other))
]
find-perform (deletes u c) i t {j} k d f = elim (Bool-cases (i == u)) [
  | inl same ↦ unfold delete_row in ground (arith, find-id i t {j = j} f, find-remove_self i t d)
  | inr other ↦ ground (arith, find-id i t {j = j} f, delete_other u c i t (ne_of_test i u other))
]

-- What a statement must respect for a property of all rows to be kept.
abbrev pub Respects : (Job → Type 0) → Effect → Type 0
Respects P nothing = Unit {0}
Respects P (inserts r) = check_constraints r ≡ true → P r
Respects P (updates i c s) = (j : Job) → P j → c j ≡ true → check_constraints (s j) ≡ true → P (s j)
Respects P (deletes i c) = Unit {0}

-- A statement leaves the table alone, or does its work on the row that it found.
insert_row-cases :
    (r : Job) (t : Table)
    → (table_after (insert_row r t) t ≡ t)
      ⊎ ((check_constraints r ≡ true) × (table_after (insert_row r t) t ≡ r ∷ t))
unfolding insert_row
insert_row-cases r t = ground arith

update_row-cases :
    (i : ℕ) (c : Job → Bool) (s : Job → Job) (t : Table)
    → (table_after (update_row i c s t) t ≡ t)
      ⊎ ((j : Job) × (find i t ≡ some j)
          × (c j ≡ true)
          × (check_constraints (s j) ≡ true)
          × (table_after (update_row i c s t) t ≡ replace (s j) t))
unfolding update_row
update_row-cases i c s t = elim (Option-cases (find i t)) [
  | inl absent ↦ inl (ground arith)
  | inr (j, e) ↦ elim (Bool-cases (c j && check_constraints (s j))) [
    | inl yes' ↦ inr (j, e, ground arith, ground arith, ground arith)
    | inr no' ↦ inl (ground arith)
  ]
]

delete_row-cases :
    (i : ℕ) (c : Job → Bool) (t : Table)
    → (table_after (delete_row i c t) t ≡ t) ⊎ (table_after (delete_row i c t) t ≡ remove i t)
unfolding delete_row
delete_row-cases i c t = ground arith

pub perform-Rows :
    (P : Job → Type 0) (e : Effect) (t : Table) → Respects P e → Rows P t → Rows P (perform e t)
perform-Rows P nothing t k h = h
perform-Rows P (inserts r) t k h = elim (insert_row-cases r t) [
  | inl same ↦ subst (Rows P) (sym same) h
  | inr (fits, new) ↦ subst (Rows P) (sym new) (k fits, h)
]
perform-Rows P (updates i c s) t k h = elim (update_row-cases i c s t) [
  | inl same ↦ subst (Rows P) (sym same) h
  | inr (j, e, cond, fits, new) ↦
      subst (Rows P) (sym new) (replace-Rows P (s j) t (k j (find-Rows P i t h e) cond fits) h)
]
perform-Rows P (deletes i c) t k h = elim (delete_row-cases i c t) [
  | inl same ↦ subst (Rows P) (sym same) h
  | inr gone ↦ subst (Rows P) (sym gone) (remove-Rows P i t h)
]

pub perform-Distinct : (e : Effect) (t : Table) → KeepsId e → Distinct t → Distinct (perform e t)
perform-Distinct nothing t k h = h
perform-Distinct (inserts r) t k h = unfold insert_row in ground arith
perform-Distinct (updates i c s) t k h = elim (Option-cases (find i t)) [
  | inl absent ↦ unfold update_row in ground arith
  | inr (j, e) ↦ unfold update_row in ground (arith, replace-Distinct (s j) t h)
]
perform-Distinct (deletes i c) t k h = unfold delete_row in ground (arith, remove-Distinct i t h)

-- A row that is not there is not brought by a statement that inserts no row of its id.
pub find-perform-none :
    (e : Effect) (i : ℕ) (t : Table) → Fresh i e → find i t ≡ none → find i (perform e t) ≡ none
find-perform-none nothing i t k f = f
find-perform-none (inserts r) i t k f = elim (insert_row-cases r t) [
  | inl same ↦ subst (λ u. find i u ≡ none) (sym same) f
  | inr (_, new) ↦ subst (λ u. find i u ≡ none) (sym new) (unfold find in ground arith)
]
find-perform-none (updates u c s) i t k f = elim (update_row-cases u c s t) [
  | inl same ↦ subst (λ v. find i v ≡ none) (sym same) f
  | inr (j, e, cond, fits, new) ↦
      subst (λ v. find i v ≡ none) (sym new) (find-replace-none i (s j) t f)
]
find-perform-none (deletes u c) i t k f = elim (delete_row-cases u c t) [
  | inl same ↦ subst (λ v. find i v ≡ none) (sym same) f
  | inr gone ↦ subst (λ v. find i v ≡ none) (sym gone) (find-remove-none i u t f)
]
