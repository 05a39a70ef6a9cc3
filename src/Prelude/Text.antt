-- ===== src/Prelude/Text.antt =====
-- Python `str` as a list of code points, with `strip` and `rstrip`.
use Prim.Native.Nat.{ℕ, ◌≤◌}
use Prim.Native.Char.{code}
use Prim.Native.String.{String}
use mathlib.Core.Path.{◌≡◌, refl}
use mathlib.Core.Logic.{◌↔◌}
use mathlib.Core.Bool.{Bool, true, false, ◌&&◌, ◌||◌}
use mathlib.Core.List.{List, [], ◌∷◌}
use native.Mathlib.Omega.{arith}
use media_player.Prelude.Tests.{◌==◌, leb, if◌then◌else◌}
use media_player.Prelude.Lists.{length, all}

abbrev pub Text : Type 0
Text = List ℕ

abbrev pub codes : String → Text
codes String.[] = []
codes (String.◌∷◌ c s) = code c ∷ codes s

abbrev pub null {ℓ} : {A : Type ℓ} → List A → Bool
null [] = true
null (_ ∷ _) = false

-- `str.isspace` of one character: what `str.strip()` removes.
unfoldable pub is_space : ℕ → Bool
is_space c =
    (leb 9 c && leb c 13)
    || (leb 28 c && leb c 32)
    || c == 133
    || c == 160
    || c == 5760
    || (leb 8192 c && leb c 8202)
    || c == 8232
    || c == 8233
    || c == 8239
    || c == 8287
    || c == 12288

module _ (p : ℕ → Bool) where
  unfoldable pub lstrip_of : Text → Text
  lstrip_of [] = []
  lstrip_of (c ∷ t) = let rest = lstrip_of t in if p c then rest else c ∷ t

  unfoldable pub rstrip_of : Text → Text
  rstrip_of [] = []
  rstrip_of (c ∷ t) = let rest = rstrip_of t in if p c && null rest then [] else c ∷ rest

  pub null-lstrip_of : (t : Text) → null (lstrip_of t) ≡ all p t
  unfolding lstrip_of
  null-lstrip_of [] = refl
  null-lstrip_of (c ∷ t) = ground (arith, null-lstrip_of t)

  pub null-rstrip_of : (t : Text) → null (rstrip_of t) ≡ all p t
  unfolding rstrip_of
  null-rstrip_of [] = refl
  null-rstrip_of (c ∷ t) = ground (arith, null-rstrip_of t)

  pub all-lstrip_of : (t : Text) → all p (lstrip_of t) ≡ all p t
  unfolding lstrip_of
  all-lstrip_of [] = refl
  all-lstrip_of (c ∷ t) = ground (arith, all-lstrip_of t)

  pub length-rstrip_of : (t : Text) → length (rstrip_of t) ≤ length t
  unfolding rstrip_of
  length-rstrip_of [] = omega arith
  length-rstrip_of (c ∷ t) = ground (arith, length-rstrip_of t)

  -- Text that keeps a character outside `p` after the strip is not all in `p`.
  pub all-rstrip_of : (t : Text) → all p (rstrip_of t) ≡ all p t
  unfolding rstrip_of
  all-rstrip_of [] = refl
  all-rstrip_of (c ∷ t) = ground (arith, all-rstrip_of t, null-rstrip_of t)

-- `str.strip()`, `str.rstrip()`, and PostgreSQL's `btrim`, which removes only U+0020.
unfoldable pub strip : Text → Text
strip t = rstrip_of is_space (lstrip_of is_space t)

unfoldable pub rstrip : Text → Text
rstrip t = rstrip_of is_space t

unfoldable pub btrim : Text → Text
btrim t = rstrip_of (λ c. c == 32) (lstrip_of (λ c. c == 32) t)

-- `not text.strip()`
unfoldable pub is_blank : Text → Bool
is_blank t = null (strip t)

pub is_blank-eq-all : (t : Text) → is_blank t ≡ all is_space t
unfolding is_blank strip
is_blank-eq-all t =
    ground (arith, null-rstrip_of is_space (lstrip_of is_space t), all-lstrip_of is_space t)

pub is_blank-strip : (t : Text) → is_blank (strip t) ≡ is_blank t
is_blank-strip t =
    unfold strip in
    ground (
      arith,
      is_blank-eq-all (rstrip_of is_space (lstrip_of is_space t)),
      is_blank-eq-all t,
      all-rstrip_of is_space (lstrip_of is_space t),
      all-lstrip_of is_space t,
    )

all_spaces : (t : Text) → all (λ c. c == 32) t ≡ true → all is_space t ≡ true
unfolding is_space
all_spaces [] h = refl
all_spaces (c ∷ t) h = ground (arith, all_spaces t)

-- What Python finds not blank, PostgreSQL does too: U+0020 is among the characters of `strip`.
pub btrim_of_not_blank : (t : Text) → is_blank t ≡ false → null (btrim t) ≡ false
unfolding btrim
btrim_of_not_blank t h = ground (
  arith,
  is_blank-eq-all t,
  null-rstrip_of (λ (c : ℕ). c == 32) (lstrip_of (λ (c : ℕ). c == 32) t),
  all-lstrip_of (λ (c : ℕ). c == 32) t,
  all_spaces t,
)

-- `a == b` of two strings.
unfoldable pub text_eq : Text → Text → Bool
text_eq [] [] = true
text_eq (a ∷ s) (b ∷ t) = a == b && text_eq s t
text_eq _ _ = false

pub text_eq_iff : (s t : Text) → (text_eq s t ≡ true) ↔ (s ≡ t)
unfolding text_eq
text_eq_iff [] [] = ground arith
text_eq_iff [] (b ∷ t) = ground arith
text_eq_iff (a ∷ s) [] = ground arith
text_eq_iff (a ∷ s) (b ∷ t) = ground (arith, text_eq_iff s t)
