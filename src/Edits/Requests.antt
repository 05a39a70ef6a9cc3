-- ===== src/Edits/Requests.antt =====
-- app/schemas/edit.py: what a request must be like to reach the rules. An extra or a missing field is
-- refused by the library that reads the request; a value is a number or not.
use media_player.Prelude.{
  ℕ, ◌+◌, ◌*◌, ◌%◌, Bool, true, false, not, ◌&&◌, ◌||◌, Option, none, some, List, [], ◌∷◌, leb,
  ◌==◌, any, length, all, is_some,
}
use media_player.Prelude.Text.{null}
use media_player.Prelude.Int.{ℤ, pos, negsuc, ltb_ℤ, leb_ℤ}
use media_player.Edits.Operation.{Operation, OperationName, Value, int, float, other, name_of}
use media_player.Edits.Checking.{same_name}

-- A number in millionths; a whole one is below 10 ^ 12 where it matters, and exact.
abbrev pub millionths : ℤ → ℤ
millionths (pos n) = pos (n * 1000000)
millionths (negsuc n) = negsuc (n * 1000000 + 999999)

-- `FiniteNumber`
abbrev pub number : Value → Option ℤ
number (int n) = some (millionths n)
number (float n) = some n
number other = none

-- `ClipParams`
abbrev pub is_clip : Option ℤ → Option ℤ → Bool
is_clip (some start) (some end) = leb_ℤ (pos 0) start && ltb_ℤ start end
is_clip _ _ = false

-- `NonNegativeStrictInt` and `PositiveStrictInt`
abbrev pub is_natural : Value → Bool
is_natural (int n) = leb_ℤ (pos 0) n
is_natural _ = false

abbrev pub is_positive : Value → Bool
is_positive (int n) = ltb_ℤ (pos 0) n
is_positive _ = false

-- `low <= value <= high`, in millionths, where the value is given.
abbrev pub in_range : ℤ → ℕ → Option ℤ → Bool
in_range low high none = true
in_range low high (some v) = leb_ℤ low v && leb_ℤ v (pos high)

-- The validators of the parameters.
unfoldable pub valid_params : Operation → Bool
valid_params (Operation.clip start end) = is_clip (number start) (number end)
valid_params (Operation.crop x y w h) =
    is_natural x && is_natural y && is_positive w && is_positive h
valid_params (Operation.rotate degrees) = leb 90 degrees && leb degrees 270 && degrees % 90 == 0
valid_params (Operation.flip _) = true
valid_params (Operation.downscale height) = is_positive height
valid_params (Operation.upscale height) = is_positive height
valid_params (Operation.adjust brightness contrast saturation gamma) =
    (is_some brightness || is_some contrast || is_some saturation || is_some gamma)
    && in_range (negsuc 299999) 300000 brightness
    && in_range (pos 500000) 2000000 contrast
    && in_range (pos 0) 3000000 saturation
    && in_range (pos 500000) 2000000 gamma
valid_params (Operation.preset _) = true
valid_params (Operation.speed factor) = leb 50 factor && leb factor 200 && factor % 25 == 0
valid_params (Operation.convert _) = true

abbrev pub names : OperationName → List Operation → Bool
names n ops = any (λ op. same_name (name_of op) n) ops

-- `len(names) == len(set(names))`
abbrev pub each_once : List Operation → Bool
each_once [] = true
each_once (op ∷ ops) = not (names (name_of op) ops) && each_once ops

-- `EditRequest`
unfoldable pub is_edit_request : List Operation → Bool
unfolding valid_params
is_edit_request operations =
    all valid_params operations
    && not (null operations)
    && leb (length operations) 10
    && each_once operations
    && not (names OperationName.downscale operations && names OperationName.upscale operations)
