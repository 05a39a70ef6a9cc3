-- ===== src/Playback/Renditions.antt =====
-- app/worker/renditions.py: the rungs of an extra rendition, their ceilings in bits per second, and
-- what to encode. A kind that is neither constructor is refused with a `ValueError` before this.
use media_player.Prelude.{
  ℕ, ◌+◌, ◌*◌, ◌/◌, Bool, not, Option, none, some, List, [], ◌∷◌, ◌++◌, leb, ltb, ◌==◌,
  if◌then◌else◌, filter,
}
use media_player.Prelude.Text.{Text, codes, null, text_eq}
use media_player.Edits.Rules.{scaled_width}
use media_player.Playback.Rungs.{bitrate, min, max}

pub data Kind : Type 0 where
  hdr av1 : Kind

abbrev pub rungs : Kind → List ℕ
rungs hdr = 1080 ∷ 720 ∷ 360 ∷ []
rungs av1 = 1080 ∷ 720 ∷ 360 ∷ []

unfoldable pub rungs_for : Kind → ℕ → List ℕ
rungs_for kind source_height =
    let heights = filter (λ height. leb height source_height) (rungs kind) in
    if null heights then source_height ∷ [] else heights

-- `CAP_SHARE`, in hundredths
abbrev pub cap_share : Kind → ℕ
cap_share hdr = 75
cap_share av1 = 60

abbrev pub start_ceiling : ℕ
start_ceiling = 296000

unfoldable pub ceiling : Kind → ℕ → ℕ
ceiling kind height =
    let h264 = bitrate height * 1000 in
    let shared = h264 * cap_share kind / 100 in
    if leb height 360 then min shared start_ceiling else shared

-- `_level`
abbrev pub level : ℕ → Text
level height =
    if leb height 540 then codes "04" else if leb height 720 then codes "05" else codes "08"

-- What the probe of the source says, of what is read here.
pub record Source : Type 0 where
  pub width : ℕ
  pub height : ℕ
  pub is_hdr : Bool
  pub color_transfer : Text

-- `TRANSFER_CODE` and `VIDEO_RANGE`
abbrev pub transfer_code : Text → Option (Text × Text)
transfer_code t =
    if text_eq t (codes "smpte2084")
    then some (codes "16", codes "PQ")
    else if text_eq t (codes "arib-std-b67")
    then some (codes "18", codes "HLG")
    else none

-- The filters: the frame-rate cap, the height it may have, ten bits, or the tone map of `sdr_filters`.
pub data VideoFilter : Type 0 where
  cap_fps at_most : ℕ → VideoFilter
  ten_bits tone_map : VideoFilter

-- Colour tags of the output: none, BT.709, or BT.2020 with a transfer.
pub data Tags : Type 0 where
  untagged bt709 : Tags
  bt2020 : Text → Tags

pub record RenditionPlan : Type 0 where
  pub kind : Kind
  pub codecs : Text
  pub video_range : Text
  pub filters : List VideoFilter
  pub color_args : Tags
  pub crf : ℕ
  pub maxrate : ℕ

unfoldable pub plan_rendition : Kind → Source → ℕ → ℕ → Option RenditionPlan
unfolding ceiling
plan_rendition hdr probe max_fps height =
    if not probe.is_hdr then none else elim (transfer_code probe.color_transfer) [
      | none ↦ none
      | some (code, range) ↦ some (record {
        kind = hdr;
        codecs = codes "av01.0." ++ level height ++ codes "M.10.0.110.09." ++ code ++ codes ".09.0";
        video_range = range;
        filters = cap_fps max_fps ∷ at_most height ∷ ten_bits ∷ [];
        color_args = bt2020 probe.color_transfer;
        crf = 30;
        maxrate = ceiling hdr height;
      })
    ]
plan_rendition av1 probe max_fps height =
    if ltb 1080 probe.height
    then none
    else some (record {
      kind = av1;
      codecs = codes "av01.0." ++ level height ++ codes "M.08";
      video_range = codes "SDR";
      filters = cap_fps max_fps ∷ at_most height ∷ (if probe.is_hdr then tone_map ∷ [] else []);
      color_args = if probe.is_hdr then bt709 else untagged;
      crf = 30;
      maxrate = ceiling av1 height;
    })

unfoldable pub even_width : ℕ → ℕ → ℕ → ℕ
even_width width height target_height = scaled_width width target_height height

abbrev pub sum : List ℕ → ℕ
sum [] = 0
sum (n ∷ ns) = n + sum ns

-- The rates of the segments that last some time; durations in millionths of a second.
abbrev pub rates : List ℕ → List ℕ → List ℕ
rates (size ∷ sizes) (d ∷ ds) =
    let rest = rates sizes ds in if ltb 0 d then size * 8 * 1000000 / d ∷ rest else rest
rates _ _ = []

abbrev pub sizes_of : List ℕ → List ℕ → List ℕ
sizes_of (size ∷ sizes) (d ∷ ds) = size ∷ sizes_of sizes ds
sizes_of _ _ = []

abbrev pub highest : List ℕ → ℕ
highest [] = 0
highest (n ∷ ns) = max n (highest ns)

-- The sizes of the playlist's segments and their durations: the peak, and the average.
unfoldable pub peak_bandwidth : List ℕ → List ℕ → ℕ × ℕ
peak_bandwidth sizes durations =
    let total = if sum durations == 0 then 1000000 else sum durations in
    (highest (rates sizes durations), sum (sizes_of sizes durations) * 8 * 1000000 / total)
