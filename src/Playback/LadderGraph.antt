-- ===== src/Playback/LadderGraph.antt =====
-- app/worker/hls.py: `_ladder_filter` as its parts, and the streams that `build_ladder_command`
-- maps. A pad is a label in brackets; the filters of the first part are those of app/worker/storage.py
-- and keep the size, so they are not shown here.
use media_player.Prelude.{
  ℕ, suc, ◌*◌, Bool, not, ◌&&◌, ◌||◌, Option, none, some, List, [], ◌∷◌, ◌++◌, map, leb, ltb, ◌==◌,
  if◌then◌else◌, filter, any,
}
use media_player.Prelude.Text.{null}
use media_player.Playback.Rungs.{cascade_from, bitrate}

-- `[0:v]`, `[s720]`, `[a720]`, `[v1out]`
pub data Pad : Type 0 where
  input : Pad
  from_source from_anchor out : ℕ → Pad

-- `[pad]scale=-2:h,split=n[pad]…`, with no scale where it has none; a split into one is left out.
pub record FilterPart : Type 0 where
  pub takes : Pad
  pub scale : Option ℕ
  pub gives : List Pad

-- `index[height]`; the heights are distinct.
abbrev pub index : ℕ → List ℕ → ℕ
index h [] = 0
index h (k ∷ ks) = if k == h then 0 else suc (index h ks)

abbrev pub anchored : List ℕ → Bool
anchored heights = any (λ h. h == cascade_from) heights

-- The rungs that are scaled from the source, and those from the anchor.
abbrev pub source_rungs : List ℕ → List ℕ
source_rungs heights = filter (λ h. not (anchored heights) || leb cascade_from h) heights

abbrev pub anchor_rungs : List ℕ → List ℕ
anchor_rungs heights = filter (λ h. anchored heights && ltb h cascade_from) heights

abbrev pub source_part : List ℕ → ℕ → FilterPart
source_part heights h =
    if anchored heights && h == cascade_from && not (null (anchor_rungs heights))
    then record {
      takes = from_source h;
      scale = some h;
      gives = out (index h heights) ∷ map from_anchor (anchor_rungs heights);
    }
    else record { takes = from_source h; scale = some h; gives = out (index h heights) ∷ [] }

abbrev pub anchor_part : List ℕ → ℕ → FilterPart
anchor_part heights h = record {
  takes = from_anchor h;
  scale = some h;
  gives = out (index h heights) ∷ [];
}

unfoldable pub ladder_filter : List ℕ → List FilterPart
ladder_filter heights =
    record { takes = input; scale = none; gives = map from_source (source_rungs heights) }
    ∷ (map (source_part heights) (source_rungs heights)
        ++ map (anchor_part heights) (anchor_rungs heights))

-- A video stream of the command: the pad it maps, its ceiling and its buffer.
pub record Stream : Type 0 where
  pub pad : Pad
  pub maxrate : ℕ
  pub bufsize : ℕ

abbrev pub streams_from : ℕ → List ℕ → List Stream
streams_from i [] = []
streams_from i (h ∷ hs) =
    record { pad = out i; maxrate = bitrate h; bufsize = bitrate h * 2 } ∷ streams_from (suc i) hs

-- An entry of `-var_stream_map`: a stream of the video or the audio, by its number.
pub data Variant : Type 0 where
  video audio : ℕ → Variant

abbrev pub count_from : ℕ → List ℕ → List Variant
count_from i [] = audio 0 ∷ []
count_from i (h ∷ hs) = video i ∷ count_from (suc i) hs

pub record LadderCommand : Type 0 where
  pub filter_complex : List FilterPart
  pub streams : List Stream
  pub var_stream_map : List Variant

unfoldable pub build_ladder_command : List ℕ → LadderCommand
unfolding ladder_filter
build_ladder_command heights = record {
  filter_complex = ladder_filter heights;
  streams = streams_from 0 heights;
  var_stream_map = count_from 0 heights;
}
