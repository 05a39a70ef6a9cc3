-- ===== src/Playback/Rungs.antt =====
-- app/worker/hls.py: the rungs of a ladder, their ceilings in thousands of bits per second, and the
-- content types.
use media_player.Prelude.{ℕ, Bool, not, ◌||◌, List, [], ◌∷◌, leb, ◌==◌, if◌then◌else◌, filter}
use media_player.Prelude.Text.{Text, codes, null}
use media_player.Prelude.Search.{ends_with}

unfoldable pub ladder_heights : List ℕ
ladder_heights = 360 ∷ 480 ∷ 720 ∷ 1080 ∷ 1440 ∷ 2160 ∷ []

-- `ONLY_AS_TOP_RUNG`
abbrev pub only_as_top_rung : ℕ → Bool
only_as_top_rung h = h == 480

abbrev pub cascade_from : ℕ
cascade_from = 1080

abbrev pub min : ℕ → ℕ → ℕ
min a b = if leb a b then a else b

abbrev pub max : ℕ → ℕ → ℕ
max a b = if leb a b then b else a

-- `max(rungs)`
abbrev pub tallest : List ℕ → ℕ
tallest [] = 0
tallest (h ∷ hs) = max h (tallest hs)

-- `LADDER_HEIGHTS` is in ascending order, and so is what a filter leaves of it.
unfoldable pub variants_for : ℕ → ℕ → List ℕ
unfolding ladder_heights
variants_for height max_height =
    let rungs = filter (λ rung. leb rung (min height max_height)) ladder_heights in
    if null rungs
    then height ∷ []
    else filter (λ r. r == tallest rungs || not (only_as_top_rung r)) rungs

-- `BITRATES`, and `FALLBACK_BITRATE` for the other heights.
unfoldable pub bitrate : ℕ → ℕ
bitrate h =
    if h == 360
    then 800
    else if h == 480
    then 1400
    else if h == 720
    then 2800
    else if h == 1080
    then 5000
    else if h == 1440
    then 8000
    else if h == 2160
    then 14000
    else 800

unfoldable pub content_type_for : Text → Text
content_type_for name =
    if ends_with (codes ".m3u8") name
    then codes "application/vnd.apple.mpegurl"
    else if ends_with (codes ".m4s") name
    then codes "video/iso.segment"
    else if ends_with (codes ".mp4") name
    then codes "video/mp4"
    else codes "video/mp2t"
