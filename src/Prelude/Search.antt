-- ===== src/Prelude/Search.antt =====
-- Python text: `startswith`, `in`, `split` at a character, and `str` of a number.
use Prim.Native.Nat.{ℕ, zero, suc, ◌+◌, ◌/◌, ◌%◌}
use mathlib.Core.Bool.{Bool, true, false, ◌&&◌, ◌||◌}
use mathlib.Core.Option.{Option, none, some}
use mathlib.Core.List.{[], ◌∷◌}
use media_player.Prelude.Tests.{◌==◌, ltb, if◌then◌else◌}
use media_player.Prelude.Text.{Text, text_eq}

-- `text.startswith(prefix)`
abbrev pub starts_with : Text → Text → Bool
starts_with [] t = true
starts_with (c ∷ p) [] = false
starts_with (c ∷ p) (d ∷ t) = c == d && starts_with p t

-- `part in text`
unfoldable pub contains : Text → Text → Bool
contains part [] = starts_with part []
contains part (c ∷ t) = starts_with part (c ∷ t) || contains part t

-- What stands behind a prefix.
abbrev pub behind : Text → Text → Option Text
behind [] t = some t
behind (c ∷ p) [] = none
behind (c ∷ p) (d ∷ t) = if c == d then behind p t else none

-- `text.split(sep, 1)[0]`
unfoldable pub before : ℕ → Text → Text
before sep [] = []
before sep (c ∷ t) = let rest = before sep t in if c == sep then [] else c ∷ rest

-- `str(n)`: the digits, from the last one; the fuel of `suc n` is more than their number.
unfoldable pub digits : ℕ → ℕ → Text → Text
digits zero n shown = shown
digits (suc fuel) n shown = elim (ltb n 10) [
  | true ↦ (48 + n) ∷ shown
  | false ↦ digits fuel (n / 10) ((48 + n % 10) ∷ shown)
]

abbrev pub str : ℕ → Text
str n = digits (suc n) n []

-- `text.endswith(suffix)`
unfoldable pub ends_with : Text → Text → Bool
ends_with suffix [] = text_eq suffix []
ends_with suffix (c ∷ t) = text_eq suffix (c ∷ t) || ends_with suffix t
