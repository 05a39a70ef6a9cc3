-- ===== src/Playback/Sprite.antt =====
-- app/worker/preview.py: the sheet of small frames and its index. A duration is in millionths of a
-- second; a size or a setting that is not positive is 0 here.
use media_player.Prelude.{
  ℕ, suc, zero, ◌+◌, ◌-◌, ◌*◌, ◌/◌, ◌%◌, ◌||◌, Option, none, some, List, [], ◌∷◌, ◌++◌, ◌==◌,
  if◌then◌else◌, length,
}
use media_player.Prelude.Text.{Text, codes}
use media_player.Prelude.Search.{str}
use media_player.Edits.Rules.{round_div, scaled_width}
use media_player.Playback.Rungs.{min, max}

pub record SpriteLayout : Type 0 where
  pub interval_seconds : ℕ
  pub frames : ℕ
  pub columns : ℕ
  pub rows : ℕ
  pub tile_width : ℕ
  pub tile_height : ℕ

-- `math.ceil(x / y)`
unfoldable pub ceil_div : ℕ → ℕ → ℕ
ceil_div x y = (x + (y - 1)) / y

-- `PreviewError` is `none`.
unfoldable pub plan_sprite : ℕ → ℕ → ℕ → ℕ → ℕ → ℕ → ℕ → Option SpriteLayout
unfolding ceil_div scaled_width
plan_sprite width height duration interval_seconds tile_width columns max_frames =
    if width == 0 || height == 0 || duration == 0
    then none
    else if interval_seconds == 0 || tile_width == 0
    then none
    else (let interval = max interval_seconds (ceil_div duration (max_frames * 1000000)) in
        let frames = ceil_div duration (interval * 1000000) in
        some (record {
          interval_seconds = interval;
          frames = frames;
          columns = min columns frames;
          rows = ceil_div frames (min columns frames);
          tile_width = tile_width;
          tile_height = scaled_width height tile_width width;
        }))

-- The text of a number with zeros before it, `:02d` and `:03d`.
abbrev pub padded : ℕ → ℕ → Text
padded width n = zeros (width - length (str n)) (str n)
  where
    zeros : ℕ → Text → Text
    zeros zero t = t
    zeros (suc k) t = 48 ∷ zeros k t

-- `_timestamp`, of a time in millionths
unfoldable pub timestamp : ℕ → Text
unfolding round_div
timestamp seconds =
    let millis = round_div seconds 1000 in
    let hours = millis / 3600000 in
    let in_hour = millis % 3600000 in
    let minutes = in_hour / 60000 in
    let in_minute = in_hour % 60000 in
    padded 2 hours
    ++ codes ":"
    ++ padded 2 minutes
    ++ codes ":"
    ++ padded 2 (in_minute / 1000)
    ++ codes "."
    ++ padded 3 (in_minute % 1000)

-- A cue: its times in millionths, and the corner of its rectangle.
pub record Cue : Type 0 where
  pub start : ℕ
  pub end : ℕ
  pub x : ℕ
  pub y : ℕ

-- The body of the loop of `build_vtt`.
unfoldable pub cue : SpriteLayout → ℕ → ℕ → Cue
cue layout duration index = record {
  start = index * layout.interval_seconds * 1000000;
  end = min ((index * layout.interval_seconds + layout.interval_seconds) * 1000000) duration;
  x = index % layout.columns * layout.tile_width;
  y = index / layout.columns * layout.tile_height;
}

abbrev pub comma : Text
comma = codes ","

unfoldable pub cue_lines : SpriteLayout → Cue → List Text
unfolding timestamp
cue_lines layout c =
    (timestamp c.start ++ codes " --> " ++ timestamp c.end)
    ∷ (codes "sprite.jpg#xywh="
        ++ str c.x
        ++ comma
        ++ str c.y
        ++ comma
        ++ str layout.tile_width
        ++ comma
        ++ str layout.tile_height)
    ∷ []
    ∷ []

abbrev pub cues_from : SpriteLayout → ℕ → ℕ → ℕ → List Text
cues_from layout duration index zero = []
cues_from layout duration index (suc left) =
    cue_lines layout (cue layout duration index) ++ cues_from layout duration (suc index) left

-- The lines of the index, from the first frame to the last.
unfoldable pub build_vtt : SpriteLayout → ℕ → List Text
unfolding cue cue_lines
build_vtt layout duration = codes "WEBVTT" ∷ [] ∷ cues_from layout duration 0 layout.frames
