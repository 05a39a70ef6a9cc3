-- ===== src/Playback/Master.antt =====
-- app/worker/renditions.py and app/worker/hls.py: the master playlist, as its lines.
use media_player.Prelude.{
  ℕ, ◌+◌, Bool, true, false, not, ◌&&◌, ◌||◌, Option, none, some, List, [], ◌∷◌, ◌++◌, leb, ◌==◌,
  if◌then◌else◌, filter, any, map,
}
use media_player.Prelude.Text.{Text, codes, is_blank, text_eq}
use media_player.Prelude.Search.{starts_with, contains, behind, before, str}
use media_player.Playback.Renditions.{Kind, hdr, av1, RenditionPlan}

pub record Entry : Type 0 where
  pub info : Text
  pub uri : Text

abbrev pub stream_inf : Text
stream_inf = codes "#EXT-X-STREAM-INF:"

unfoldable pub is_info : Text → Bool
is_info line = starts_with stream_inf line

-- The loop of `_entries`; `listed`: an entry was found before.
unfoldable pub scan : Bool → List Text → List Text × List Entry
scan listed [] = ([], [])
scan listed (line ∷ []) = (if listed then [] else line ∷ [], [])
scan listed (line ∷ next ∷ rest) = elim (is_info line) [
  | true ↦
      let (head, entries) = scan true rest in (head, record { info = line; uri = next } ∷ entries)
  | false ↦
      let (head, entries) = scan listed (next ∷ rest) in
      (if listed then head else line ∷ head, entries)
]

unfoldable pub is_full : Text → Bool
is_full line = not (is_blank line)

unfoldable pub entries : List Text → List Text × List Entry
unfolding scan
entries master = scan false (filter is_full master)

-- `_rank`
unfoldable pub rank : Text → ℕ
rank uri =
    let folder = before 47 uri in
    if text_eq folder (codes "hdr") then 0 else if text_eq folder (codes "av1") then 1 else 2

-- The first info with a resolution, or the empty text.
abbrev pub first_video : List Entry → Text
first_video [] = []
first_video (e ∷ es) =
    let rest = first_video es in if contains (codes "RESOLUTION=") e.info then e.info else rest

-- The text up to a quote; `none` if there is no quote.
abbrev pub up_to_quote : Text → Option Text
up_to_quote [] = none
up_to_quote (c ∷ t) =
    let rest = up_to_quote t in
    if c == 34 then some [] else elim rest [ none ↦ none | some s ↦ some (c ∷ s) ]

abbrev pub nonempty : Option Text → Option Text
nonempty none = none
nonempty (some []) = none
nonempty (some (c ∷ t)) = some (c ∷ t)

abbrev pub rate_characters : Text → Text
rate_characters [] = []
rate_characters (c ∷ t) =
    let rest = rate_characters t in if c == 46 || (leb 48 c && leb c 57) then c ∷ rest else []

-- `re.search(name + group, text)`: the first place where the group fits behind the name.
unfoldable pub search_for : Text → (Text → Option Text) → Text → Option Text
search_for name group [] = none
search_for name group (c ∷ t) =
    let later = search_for name group t in
    elim (behind name (c ∷ t)) [
      | none ↦ later
      | some s ↦ elim (group s) [ some found ↦ some found | none ↦ later ]
    ]

abbrev pub audio_of : Text → Option Text
audio_of = search_for (codes "AUDIO=" ++ (34 ∷ [])) (λ s. nonempty (up_to_quote s))

abbrev pub rate_of : Text → Option Text
rate_of = search_for (codes "FRAME-RATE=") (λ s. nonempty (some (rate_characters s)))

-- `",".join(texts)`
abbrev pub commas : List Text → Text
commas [] = []
commas (t ∷ []) = t
commas (t ∷ u ∷ ts) = t ++ (44 ∷ commas (u ∷ ts))

abbrev pub quoted : Text → Text
quoted t = 34 ∷ (t ++ (34 ∷ []))

-- A rung of a rendition to be listed.
pub record Rung : Type 0 where
  pub plan : RenditionPlan
  pub rung : ℕ
  pub resolution : Text
  pub bandwidth : ℕ × ℕ

abbrev pub kind_name : Kind → Text
kind_name hdr = codes "hdr"
kind_name av1 = codes "av1"

unfoldable pub uri_of : Rung → Text
uri_of r = kind_name r.plan.kind ++ codes "/" ++ str r.rung ++ codes "/index.m3u8"

unfoldable pub info_of : Rung → Text → Text
unfolding search_for
info_of r first =
    let audio = audio_of first in
    stream_inf
    ++ commas (
        (codes "BANDWIDTH=" ++ str (r.bandwidth.0 + 128000))
        ∷ (codes "AVERAGE-BANDWIDTH=" ++ str (r.bandwidth.1 + 128000))
        ∷ (codes "RESOLUTION=" ++ r.resolution)
        ∷ (codes "CODECS="
            ++ quoted (r.plan.codecs ++ elim audio [ none ↦ [] | some _ ↦ codes ",mp4a.40.2" ]))
        ∷ (codes "VIDEO-RANGE=" ++ r.plan.video_range)
        ∷ (elim audio [ none ↦ [] | some a ↦ (codes "AUDIO=" ++ quoted a) ∷ [] ]
            ++ elim (rate_of first) [ none ↦ [] | some f ↦ (codes "FRAME-RATE=" ++ f) ∷ [] ]))

-- `entries.sort(key=…)`, which is stable.
abbrev pub insert : Entry → List Entry → List Entry
insert e [] = e ∷ []
insert e (x ∷ xs) =
    let rest = insert e xs in if leb (rank e.uri) (rank x.uri) then e ∷ x ∷ xs else x ∷ rest

unfoldable pub sorted : List Entry → List Entry
unfolding rank
sorted [] = []
sorted (e ∷ es) = insert e (sorted es)

abbrev pub lines_of : List Entry → List Text
lines_of [] = []
lines_of (e ∷ es) = e.info ∷ e.uri ∷ lines_of es

unfoldable pub new_entry : Rung → List Entry → Entry
unfolding info_of uri_of
new_entry r es = record { info = info_of r (first_video es); uri = uri_of r }

unfoldable pub add_to_master : Rung → List Text → List Text
unfolding entries new_entry sorted uri_of
add_to_master r master =
    if any (contains (uri_of r)) master
    then master
    else (let (head, es) = entries master in
        head ++ lines_of (sorted (es ++ (new_entry r es ∷ []))))

-- `label_frame_rates`, with the rate as it is printed.
unfoldable pub label_frame_rates : Text → List Text → List Text
label_frame_rates rate master =
    map
      (λ line.
        if is_info line
          && contains (codes "RESOLUTION=") line
          && not (contains (codes "FRAME-RATE=") line)
        then line ++ codes ",FRAME-RATE=" ++ rate
        else line)
      master
