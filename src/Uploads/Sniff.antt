-- ===== src/Uploads/Sniff.antt =====
-- app/services/media_type.py: the media type that the first bytes of a file show.
use media_player.Prelude.{
  ℕ, Bool, false, ◌&&◌, ◌||◌, Option, none, some, List, [], ◌∷◌, ltb, leb, if◌then◌else◌, length,
  take, drop, any,
}
use media_player.Prelude.Text.{Text, codes, text_eq}

-- What `sniff_video_type` answers, by the container.
pub data MediaType : Type 0 where
  webm matroska msvideo quicktime mp4 mpeg : MediaType

abbrev pub ebml_magic : List ℕ
ebml_magic = 26 ∷ 69 ∷ 223 ∷ 163 ∷ []

abbrev pub legacy_boxes : List Text
legacy_boxes =
    codes "moov" ∷ codes "mdat" ∷ codes "free" ∷ codes "skip" ∷ codes "wide" ∷ codes "pnot" ∷ []

abbrev pub start_codes : List (List ℕ)
start_codes = (0 ∷ 0 ∷ 1 ∷ 186 ∷ []) ∷ (0 ∷ 0 ∷ 1 ∷ 179 ∷ []) ∷ []

-- `needle in bytes`
unfoldable pub contains : List ℕ → List ℕ → Bool
contains needle [] = text_eq needle []
contains needle (b ∷ bs) =
    let rest = contains needle bs in text_eq (take (length needle) (b ∷ bs)) needle || rest

-- `head[offset] == 0x47`, for an offset inside the head.
abbrev pub sync_at : ℕ → List ℕ → Bool
sync_at offset head = text_eq (take 1 (drop offset head)) (71 ∷ [])

-- `_looks_like_mpeg_ts`
unfoldable pub looks_like_mpeg_ts : List ℕ → Bool
looks_like_mpeg_ts head =
    if leb (length head) 376 then false else sync_at 0 head && sync_at 188 head && sync_at 376 head

unfoldable pub sniff_video_type : List ℕ → Option MediaType
unfolding contains looks_like_mpeg_ts
sniff_video_type head =
    let start = take 4 head in
    let box = take 4 (drop 4 head) in
    let brand = take 4 (drop 8 head) in
    if ltb (length head) 12
    then none
    else if text_eq start ebml_magic
    then if contains (codes "webm") (take 256 head)
      then some webm
      else if contains (codes "matroska") (take 256 head)
      then some matroska
      else none
    else if text_eq start (codes "RIFF") && text_eq brand (codes "AVI ")
    then some msvideo
    else if text_eq box (codes "ftyp")
    then if text_eq brand (codes "qt  ") then some quicktime else some mp4
    else if any (text_eq box) legacy_boxes
    then some quicktime
    else if any (text_eq start) start_codes
    then some mpeg
    else if looks_like_mpeg_ts head
    then some mpeg
    else none
