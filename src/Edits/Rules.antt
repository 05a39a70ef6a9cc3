-- ===== src/Edits/Rules.antt =====
-- app/services/media_rules.py: what a source may be and which edits make sense for it. A message
-- for the user is a constructor with the numbers and names that the text shows.
use media_player.Prelude.{
  ℕ, suc, ◌+◌, ◌*◌, ◌/◌, ◌%◌, Bool, true, false, not, ◌&&◌, ◌||◌, Option, none, some, List, [], ◌∷◌,
  ltb, leb, ◌==◌, if◌then◌else◌, any, filter,
}
use media_player.Prelude.Int.{ℤ, pos, negsuc, ltb_ℤ, leb_ℤ}
use media_player.Edits.Operation.{Operation, OperationName, Value, int}

pub data Label : Type 0 where
  rotate flip speed clip crop scale colour preset convert : Label

-- `downscale` or `upscale`, as the messages name it.
pub data Scaling : Type 0 where
  down up : Scaling

-- `754.2` is shown as 12:34, `3725` as 1:02:05.
pub data Shown : Type 0 where
  minutes_seconds : ℕ → ℕ → Shown
  hours_minutes_seconds : ℕ → ℕ → ℕ → Shown

-- `describe_limit`
pub data Limit : Type 0 where
  in_minutes in_seconds : ℕ → Limit

pub data RuleError : Type 0 where
  unknown_length : RuleError
  too_long : Shown → Limit → RuleError
  not_a_rung not_whole : Scaling → RuleError
  not_smaller not_larger : ℕ → ℕ → RuleError
  not_with_mp3 : List Label → RuleError

-- `MediaRuleError` or the returned value.
pub data Checked (A : Type 0) : Type 0 where
  ok : A → Checked A
  refused : RuleError → Checked A

infixl 5 ◌>>=◌
abbrev pub ◌>>=◌ : {A B : Type 0} → Checked A → (A → Checked B) → Checked B
ok a >>= f = f a
refused e >>= f = refused e

unfoldable pub scale_heights : List ℕ
scale_heights = 240 ∷ 360 ∷ 480 ∷ 720 ∷ 1080 ∷ 1440 ∷ 2160 ∷ []

abbrev pub operation_order : List OperationName
operation_order =
    OperationName.clip ∷ OperationName.crop ∷ OperationName.rotate ∷ OperationName.flip
    ∷ OperationName.downscale ∷ OperationName.upscale ∷ OperationName.adjust ∷ OperationName.preset
    ∷ OperationName.speed ∷ OperationName.convert ∷ []

-- The picture's size; a side may be unknown.
pub record Frame : Type 0 where
  pub width : Option ℕ
  pub height : Option ℕ

-- Whole seconds, rounded up, of a duration in millionths; a negative one is 0.
abbrev pub whole_seconds : ℤ → ℕ
whole_seconds (pos n) = (n + 999999) / 1000000
whole_seconds (negsuc n) = 0

unfoldable pub format_duration : ℤ → Shown
format_duration seconds =
    let total = whole_seconds seconds in
    let hours = total / 3600 in
    let remainder = total % 3600 in
    let minutes = remainder / 60 in
    let secs = remainder % 60 in
    if ltb 0 hours then hours_minutes_seconds hours minutes secs else minutes_seconds minutes secs

unfoldable pub describe_limit : ℕ → Limit
describe_limit seconds = if seconds % 60 == 0 then in_minutes (seconds / 60) else in_seconds seconds

-- A float: finite, in millionths, or not.
pub data Float : Type 0 where
  finite : ℤ → Float
  not_finite : Float

unfoldable pub check_source_duration : Float → ℤ → Checked (Unit {0})
check_source_duration duration (negsuc n) = ok tt
check_source_duration not_finite (pos limit) = if leb limit 0 then ok tt else refused unknown_length
check_source_duration (finite d) (pos limit) =
    if leb limit 0
    then ok tt
    else if leb_ℤ d (pos 0)
    then refused unknown_length
    else if ltb_ℤ (pos (limit * 1000000)) d
    then refused (too_long (format_duration d) (describe_limit limit))
    else ok tt

unfoldable pub editable_height : Option ℕ → Bool → ℕ → Option ℕ
editable_height none is_edit mp4_max_height = none
editable_height (some height) is_edit mp4_max_height =
    if leb height 0
    then none
    else if is_edit
    then some height
    else if ltb 0 mp4_max_height
    then if leb height mp4_max_height then some height else some mp4_max_height
    else some height

-- `sorted(…, reverse=True)`
abbrev pub insert_desc : ℕ → List ℕ → List ℕ
insert_desc n [] = n ∷ []
insert_desc n (m ∷ ms) = let rest = insert_desc n ms in if leb m n then n ∷ m ∷ ms else m ∷ rest

abbrev pub sorted_desc : List ℕ → List ℕ
sorted_desc [] = []
sorted_desc (n ∷ ns) = insert_desc n (sorted_desc ns)

pub record Options : Type 0 where
  pub downscale : List ℕ
  pub upscale : List ℕ

unfoldable pub scale_options : Option ℕ → Option Options
scale_options none = none
scale_options (some input_height) =
    if leb input_height 0
    then none
    else some (record {
      downscale = sorted_desc (filter (λ h. ltb h input_height) scale_heights);
      upscale = filter (λ h. ltb input_height h) scale_heights;
    })

abbrev pub is_rung : ℤ → Bool
is_rung (pos n) = any (λ h. h == n) scale_heights
is_rung (negsuc n) = false

abbrev pub magnitude : ℤ → ℕ
magnitude (pos n) = n
magnitude (negsuc n) = suc n

abbrev pub wrong_side : Scaling → ℕ → ℕ → Checked (Unit {0})
wrong_side down target input =
    if leb input target then refused (not_smaller input target) else ok tt
wrong_side up target input = if leb target input then refused (not_larger input target) else ok tt

unfoldable pub check_scale : Scaling → ℤ → Option ℕ → Checked (Unit {0})
check_scale operation target input_height =
    if not (is_rung target)
    then refused (not_a_rung operation)
    else elim input_height [ none ↦ ok tt | some h ↦ wrong_side operation (magnitude target) h ]

-- `_known`: a positive int, or unknown.
abbrev pub known : Value → Option ℕ
known (int (pos (suc n))) = some (suc n)
known _ = none

-- `round(x / y)` of Python, to even on a half.
unfoldable pub round_div : ℕ → ℕ → ℕ
round_div x y =
    let q = x / y in
    let r = x % y in
    if ltb (2 * r) y then q else if ltb y (2 * r) then q + 1 else if q % 2 == 0 then q else q + 1

-- `max(2, round(width * target / height / 2) * 2)`, with the quotient exact.
unfoldable pub scaled_width : ℕ → ℕ → ℕ → ℕ
unfolding round_div
scaled_width width target height =
    let w = round_div (width * target) (height * 2) * 2 in if leb w 2 then 2 else w

-- The width after a scale: unknown unless both sides are known and not 0.
abbrev pub width_after : Frame → ℕ → Option ℕ
width_after f target = elim (f.width) [
  | none ↦ none
  | some w ↦ elim (f.height) [
    | none ↦ none
    | some h ↦ if ltb 0 w && ltb 0 h then some (scaled_width w target h) else none
  ]
]

-- `_scale_rule`
unfoldable pub scale_rule : Scaling → Value → Frame → Checked Frame
unfolding check_scale
scale_rule operation (int target) frame = check_scale operation target frame.height >>= λ _.
    ok (record { width = width_after frame (magnitude target); height = some (magnitude target) })
scale_rule operation _ frame = refused (not_whole operation)

-- `OperationRule.check` of the registered rules.
unfoldable pub check : Operation → Frame → Checked Frame
unfolding scale_rule
check (Operation.crop x y w h) frame = ok (record { width = known w; height = known h })
check (Operation.rotate degrees) frame =
    if degrees == 90 || degrees == 270
    then ok (record { width = frame.height; height = frame.width })
    else ok frame
check (Operation.downscale height) frame = scale_rule down height frame
check (Operation.upscale height) frame = scale_rule up height frame
check _ frame = ok frame

abbrev pub changes_picture : OperationName → Bool
changes_picture OperationName.clip = false
changes_picture OperationName.speed = false
changes_picture OperationName.convert = false
changes_picture _ = true

abbrev pub label : OperationName → Label
label OperationName.clip = Label.clip
label OperationName.crop = Label.crop
label OperationName.rotate = Label.rotate
label OperationName.flip = Label.flip
label OperationName.downscale = Label.scale
label OperationName.upscale = Label.scale
label OperationName.adjust = Label.colour
label OperationName.preset = Label.preset
label OperationName.speed = Label.speed
label OperationName.convert = Label.convert
