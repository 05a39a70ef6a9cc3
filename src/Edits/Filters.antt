-- ===== src/Edits/Filters.antt =====
-- app/worker/edit_ops: the filters each operation adds, and the chain of a request.
use media_player.Prelude.{
  ℕ, Bool, true, false, Option, none, some, List, [], ◌∷◌, ◌++◌, ◌==◌, leb, if◌then◌else◌,
}
use media_player.Prelude.Int.{ℤ, pos}
use media_player.Edits.Operation.{
  Operation, OperationName, Value, horizontal, vertical, Preset, bw, name_of,
}
use media_player.Edits.Rules.{RuleError, Checked, ok, refused, Frame, check}
use media_player.Edits.Checking.{index, ordered}

-- An FFmpeg filter with the numbers that its text shows; a look is the fixed filter of a preset.
pub data Filter : Type 0 where
  crop_to : Value → Value → Value → Value → Filter
  transpose : ℕ → Filter
  hflip vflip : Filter
  scale_to lanczos_to : Value → Filter
  eq : Option ℤ → Option ℤ → Option ℤ → Option ℤ → Filter
  matrix yuv444 tags yuv420 : Filter
  look : Preset → ℕ → Filter
  setpts : ℕ → Filter
  asetpts : Filter
  atempo : ℕ → Filter

pub record FilterStep : Type 0 where
  pub video : List Filter
  pub audio : List Filter

abbrev pub picture : List Filter → FilterStep
picture v = record { video = v; audio = [] }

-- `PRESET_FILTERS`: one filter for `bw`, two for the others.
abbrev pub preset_filters : Preset → List Filter
preset_filters bw = look bw 0 ∷ []
preset_filters p = look p 0 ∷ look p 1 ∷ []

-- What a registered `build` gives; `key_error` is that of a dict without the key asked for.
pub data Build : Type 0 where
  unregistered : Build
  adds : FilterStep → Build
  key_error : Build

-- `_FILTERS[params["degrees"]]` of rotate.py
abbrev pub rotate_filters : ℕ → Build
rotate_filters degrees =
    if degrees == 90
    then adds (picture (transpose 1 ∷ []))
    else if degrees == 180
    then adds (picture (hflip ∷ vflip ∷ []))
    else if degrees == 270
    then adds (picture (transpose 2 ∷ []))
    else key_error

-- A field left out, or sent at its default (in millionths), is not passed.
abbrev pub passed : ℕ → Option ℤ → Option ℤ
passed default none = none
passed default (some (pos n)) = if n == default then none else some (pos n)
passed default (some v) = some v

abbrev pub eq_filter : Option ℤ → Option ℤ → Option ℤ → Option ℤ → List Filter
eq_filter none none none none = []
eq_filter b c s g = eq b c s g ∷ []

-- `FILTERS.get(name)`, with its call: clip and convert are not registered.
unfoldable pub build : Operation → Build
build (Operation.clip start end) = unregistered
build (Operation.crop x y w h) = adds (picture (crop_to w h x y ∷ []))
build (Operation.rotate degrees) = rotate_filters degrees
build (Operation.flip horizontal) = adds (picture (hflip ∷ []))
build (Operation.flip vertical) = adds (picture (vflip ∷ []))
build (Operation.downscale height) = adds (picture (scale_to height ∷ []))
build (Operation.upscale height) = adds (picture (lanczos_to height ∷ []))
build (Operation.adjust b c s g) =
    adds (picture (eq_filter (passed 0 b) (passed 1000000 c) (passed 1000000 s) (passed 1000000 g)))
build (Operation.preset name) =
    adds (picture (matrix ∷ yuv444 ∷ tags ∷ (preset_filters name ++ (matrix ∷ yuv420 ∷ tags ∷ []))))
build (Operation.speed factor) =
    adds (record { video = setpts factor ∷ []; audio = asetpts ∷ atempo factor ∷ [] })
build (Operation.convert format) = unregistered

pub record FilterChain : Type 0 where
  pub before_tone_map : List Filter
  pub after_tone_map : List Filter
  pub audio : List Filter

-- `FilterChain.video`
abbrev pub video : FilterChain → List Filter
video c = c.before_tone_map ++ c.after_tone_map

-- `TONE_MAPPED_FROM` and later.
abbrev pub is_mapped : OperationName → Bool
is_mapped n = leb (index OperationName.adjust) (index n)

-- One operation's step added to the chain.
unfoldable pub extend : FilterChain → Bool → Build → FilterChain
extend c mapped unregistered = c
extend c mapped key_error = c
extend c true (adds step) = record c {
  after_tone_map = c.after_tone_map ++ step.video;
  audio = c.audio ++ step.audio;
}
extend c false (adds step) = record c {
  before_tone_map = c.before_tone_map ++ step.video;
  audio = c.audio ++ step.audio;
}

abbrev pub is_key_error : Build → Bool
is_key_error key_error = true
is_key_error _ = false

-- What `filter_chain` gives or raises.
pub data Chain : Type 0 where
  made : FilterChain → Chain
  refused_by : RuleError → Chain
  no_such_key : Chain

abbrev pub after_check : Checked Frame → (Frame → Chain) → Chain
after_check (ok frame) f = f frame
after_check (refused e) f = refused_by e

-- The loop of `filter_chain`: the filters of an operation, and then its rule, either of which may end
-- it.
unfoldable pub chain_from : FilterChain → List Operation → Frame → Chain
unfolding extend build
chain_from c [] frame = made c
chain_from c (op ∷ ops) frame =
    if is_key_error (build op)
    then no_such_key
    else after_check (check op frame)
        (chain_from (extend c (is_mapped (name_of op)) (build op)) ops)

unfoldable pub filter_chain : List Operation → Frame → Chain
unfolding chain_from
filter_chain operations frame =
    chain_from (record { before_tone_map = []; after_tone_map = []; audio = [] })
      (ordered operations) frame
