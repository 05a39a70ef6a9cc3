-- ===== src/Jobs/PageOrder.antt =====
-- The listing endpoints' pages: in order, complete, and without overlap.
use mathlib.Core.List.{Perm}
use mathlib.Core.List.Perm
use media_player.Prelude.{
  ℕ, zero, suc, ◌+◌, ◌≤◌, ◌≡◌, ◌∙◌, refl, ap, sym, subst, length, Bool, true, false, ◌&&◌, Option,
  List, [], ◌∷◌, ◌++◌, arith, if◌then◌else◌, is_none, filter, take, drop, all,
  take_append_take-drop, drop-drop, Bool-cases, inl, inr,
}
use media_player.Jobs.Row.{Job}
use media_player.Jobs.Store.{Table}
use media_player.Jobs.Writes.{owned_by}
use media_player.Jobs.Paging.{Before, insert_by, order_by, latest_first, created, page, list_jobs}

-- Every row comes before all those that follow it.
abbrev pub is_ordered : Before → List Job → Bool
is_ordered before [] = true
is_ordered before (j ∷ js) = all (before j) js && is_ordered before js

module _ (key : Job → ℕ) where
  all_after :
      (j k : Job) (js : List Job)
      → latest_first key j k ≡ true
      → all (latest_first key k) js ≡ true
      → all (latest_first key j) js ≡ true
  all_after j k [] h a = refl
  all_after j k (m ∷ js) h a = ground (arith, all_after j k js h)

  all-insert_by :
      (j k : Job) (js : List Job)
      → latest_first key k j ≡ true
      → all (latest_first key k) js ≡ true
      → all (latest_first key k) (insert_by (latest_first key) j js) ≡ true
  unfolding insert_by
  all-insert_by j k [] h a = ground arith
  all-insert_by j k (m ∷ js) h a = ground (arith, all-insert_by j k js h)

  insert_by-is_ordered :
      (j : Job) (js : List Job)
      → is_ordered (latest_first key) js ≡ true
      → is_ordered (latest_first key) (insert_by (latest_first key) j js) ≡ true
  unfolding insert_by
  insert_by-is_ordered j [] h = refl
  insert_by-is_ordered j (k ∷ js) h = elim (Bool-cases (latest_first key j k)) [
    | inl first ↦ ground (arith, all_after j k js first)
    | inr after ↦ ground (arith, insert_by-is_ordered j js, all-insert_by j k js)
  ]

  pub order_by-is_ordered :
      (js : List Job) → is_ordered (latest_first key) (order_by (latest_first key) js) ≡ true
  unfolding order_by
  order_by-is_ordered [] = refl
  order_by-is_ordered (j ∷ js) =
      insert_by-is_ordered j (order_by (latest_first key) js) (order_by-is_ordered js)

module _ (before : Before) where
  insert_by-Perm : (j : Job) (js : List Job) → Perm (insert_by before j js) (j ∷ js)
  unfolding insert_by
  insert_by-Perm j [] = Perm.refl (j ∷ [])
  insert_by-Perm j (k ∷ js) =
      elim (before j k)
        as (λ b. Perm (if b then j ∷ k ∷ js else k ∷ insert_by before j js) (j ∷ k ∷ js)) [
          | true ↦ Perm.refl (j ∷ k ∷ js)
          | false ↦ Perm.trans (Perm.cons k (insert_by-Perm j js)) (Perm.swap j k js)
        ]

  pub order_by-Perm : (js : List Job) → Perm (order_by before js) js
  unfolding order_by
  order_by-Perm [] = Perm.refl []
  order_by-Perm (j ∷ js) =
      Perm.trans (insert_by-Perm j (order_by before js)) (Perm.cons j (order_by-Perm js))

pub page_append : (n m o : ℕ) (js : List Job) → page n o js ++ page m (o + n) js ≡ page (n + m) o js
page_append n m o js = rw (← drop-drop o n js) (take_append_take-drop n m (drop o js))

take-whole : (n : ℕ) (js : List Job) → length js ≤ n → take n js ≡ js
take-whole zero [] h = refl
take-whole zero (j ∷ js) h = ground (arith, h)
take-whole (suc n) [] h = refl
take-whole (suc n) (j ∷ js) h = ap (λ l. j ∷ l) (take-whole n js (omega arith))

length-filter : (p : Job → Bool) (js : List Job) → length (filter p js) ≤ length js
length-filter p [] = omega arith
length-filter p (j ∷ js) = ground (arith, length-filter p js)

length-insert_by :
    (before : Before) (j : Job) (js : List Job) → length (insert_by before j js) ≡ suc (length js)
unfolding insert_by
length-insert_by before j [] = refl
length-insert_by before j (k ∷ js) = ground (arith, length-insert_by before j js)

length-order_by : (before : Before) (js : List Job) → length (order_by before js) ≡ length js
unfolding order_by
length-order_by before [] = refl
length-order_by before (j ∷ js) =
    length-insert_by before j (order_by before js) ∙ ap suc (length-order_by before js)

-- The pages of the library, newest first with ties by id, are the cuts of one listing: the one that a
-- page as long as the table gives. That listing is a rearrangement of the owner's rows that are not in
-- the trash (any owner's, for the operator), each as often as it is in the table; any other page
-- takes its rows from its own place in it; and a page with the one that follows it is the double page.
pub list_jobs_pages :
    (owner : Option ℕ) (n m o : ℕ) (t : Table)
    → let whole = list_jobs owner (length t) 0 t in
      Perm whole (filter (λ j. is_none j.deleted_at && owned_by owner j) t)
      × (is_ordered (latest_first created) whole ≡ true)
      × (list_jobs owner n o t ≡ take n (drop o whole))
      × (list_jobs owner n o t ++ list_jobs owner m (o + n) t ≡ list_jobs owner (n + m) o t)
unfolding list_jobs
list_jobs_pages owner n m o t =
    let keep : Job → Bool = λ j. is_none j.deleted_at && owned_by owner j in
    let rows : List Job = order_by (latest_first created) (filter keep t) in
    let whole : take (length t) rows ≡ rows = take-whole (length t) rows (
      omega
        (arith, length-order_by (latest_first created) (filter keep t), length-filter keep t)) in
    (
      subst (λ l. Perm l (filter keep t)) (sym whole)
          (order_by-Perm (latest_first created) (filter keep t)),
      subst (λ l. is_ordered (latest_first created) l ≡ true) (sym whole)
          (order_by-is_ordered created (filter keep t)),
      ap (λ l. take n (drop o l)) (sym whole),
      page_append n m o rows,
    )
