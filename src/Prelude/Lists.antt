-- ===== src/Prelude/Lists.antt =====
-- Lists over the native numbers: length, slices, and tests of all members.
use Prim.Native.Nat.{ℕ, zero, suc, ◌+◌}
use mathlib.Core.Path.{◌≡◌, refl, ap}
use native.Mathlib.Nat.{suc-add}
use mathlib.Core.Bool.{Bool, true, false, ◌&&◌, ◌||◌}
use mathlib.Core.List.{List, [], ◌∷◌, ◌++◌}
use native.Mathlib.Omega.{arith}
use media_player.Prelude.Tests.{if◌then◌else◌}

module _ {ℓ} {A : Type ℓ} where
  abbrev pub length : List A → ℕ
  length [] = 0
  length (_ ∷ xs) = suc (length xs)

  abbrev pub take : ℕ → List A → List A
  take zero xs = []
  take (suc n) [] = []
  take (suc n) (x ∷ xs) = x ∷ take n xs

  abbrev pub drop : ℕ → List A → List A
  drop zero xs = xs
  drop (suc n) [] = []
  drop (suc n) (x ∷ xs) = drop n xs

  abbrev pub all : (A → Bool) → List A → Bool
  all p [] = true
  all p (x ∷ xs) = p x && all p xs

  abbrev pub any : (A → Bool) → List A → Bool
  any p [] = false
  any p (x ∷ xs) = p x || any p xs

  -- the `where` of a query, and a comprehension's `if`
  abbrev pub filter : (A → Bool) → List A → List A
  filter p [] = []
  filter p (x ∷ xs) = let rest = filter p xs in if p x then x ∷ rest else rest

  take-nil : (n : ℕ) → take n [] ≡ []
  take-nil zero = refl
  take-nil (suc n) = refl

  drop-nil : (n : ℕ) → drop n [] ≡ []
  drop-nil zero = refl
  drop-nil (suc n) = refl

  pub take_append_take-drop :
      (n m : ℕ) (xs : List A) → take n xs ++ take m (drop n xs) ≡ take (n + m) xs
  take_append_take-drop zero m xs = ground arith
  take_append_take-drop (suc n) zero [] = ground (arith, take-nil (suc n + zero))
  take_append_take-drop (suc n) (suc m) [] = ground (arith, take-nil (suc n + suc m))
  take_append_take-drop (suc n) m (x ∷ xs) =
      rw suc-add (ap (λ r. x ∷ r) (take_append_take-drop n m xs))

  pub drop-drop : (n m : ℕ) (xs : List A) → drop m (drop n xs) ≡ drop (n + m) xs
  drop-drop zero m xs = ground arith
  drop-drop (suc n) zero [] = ground (arith, drop-nil (suc n + zero))
  drop-drop (suc n) (suc m) [] = ground (arith, drop-nil (suc n + suc m))
  drop-drop (suc n) m (x ∷ xs) = rw suc-add (drop-drop n m xs)
