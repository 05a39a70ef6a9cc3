-- ===== src/Api/HlsRoute.antt =====
-- app/api/hls.py: the parts of a ladder behind the owner check; with app/services/popularity.py, the
-- count of plays, and the rest of app/api/preview.py. What Redis and the storage answer is an argument.
use media_player.Prelude.{
  ℕ, Bool, false, not, ◌&&◌, ◌||◌, Option, none, some, [], ◌∷◌, ◌++◌, leb, ◌==◌, if◌then◌else◌,
  length,
}
use media_player.Prelude.Text.{Text, codes, null, text_eq}
use media_player.Prelude.Search.{behind, ends_with}
use media_player.Jobs.Store.{Table}
use media_player.Jobs.Queries.{get_job}
use media_player.Api.Cleanup.{before_slash}

-- The classes `[0-9]` and `[A-Za-z0-9_-]`.
unfoldable pub is_digit : ℕ → Bool
is_digit c = leb 48 c && leb c 57

unfoldable pub is_word : ℕ → Bool
unfolding is_digit
is_word c = is_digit c || (leb 65 c && leb c 90) || (leb 97 c && leb c 122) || c == 95 || c == 45

-- The longest start of a text that lies in a class, and the rest.
unfoldable pub span : (ℕ → Bool) → Text → Text × Text
span p [] = ([], [])
span p (c ∷ t) = let (found, rest) = span p t in if p c then (c ∷ found, rest) else ([], c ∷ t)

abbrev pub between : ℕ → ℕ → Text → Bool
between low high t = leb low (length t) && leb (length t) high

-- `[A-Za-z0-9_-]+\.(?:m3u8|ts)`
unfoldable pub is_file : Text → Bool
unfolding span is_word
is_file t =
    let (name, rest) = span is_word t in
    not (null name) && (text_eq rest (codes ".m3u8") || text_eq rest (codes ".ts"))

-- `v[0-9]{1,2}/` and a file
unfoldable pub is_rung_file : Text → Bool
unfolding span is_digit is_file
is_rung_file t = elim (behind (codes "v") t) [
  | none ↦ false
  | some s ↦
      let (number, rest) = span is_digit s in
      between 1 2 number && elim (behind (codes "/") rest) [ none ↦ false | some u ↦ is_file u ]
]

-- `index\.m3u8|init\.mp4|seg[0-9]{1,6}\.m4s`
unfoldable pub is_extra_file : Text → Bool
unfolding span is_digit
is_extra_file t =
    text_eq t (codes "index.m3u8")
    || text_eq t (codes "init.mp4")
    || elim (behind (codes "seg") t) [
      | none ↦ false
      | some s ↦
          let (number, rest) = span is_digit s in between 1 6 number && text_eq rest (codes ".m4s")
    ]

-- `[0-9]{3,4}/` and a file of an extra rendition
unfoldable pub is_extra_rung : Option Text → Bool
unfolding span is_digit is_extra_file
is_extra_rung none = false
is_extra_rung (some s) =
    let (height, rest) = span is_digit s in
    between 3 4 height && elim (behind (codes "/") rest) [ none ↦ false | some u ↦ is_extra_file u ]

-- `_HLS_PATH.fullmatch(path)`
unfoldable pub safe_hls_path : Text → Bool
unfolding is_file is_rung_file is_extra_rung
safe_hls_path path =
    is_file path
    || is_rung_file path
    || is_extra_rung (behind (codes "hdr/") path)
    || is_extra_rung (behind (codes "av1/") path)

-- Redis's answer to a play: the count after it, or an error; and whether the enqueueing raised.
pub record Counter : Type 0 where
  pub incr : Option ℕ
  pub enqueues : Bool

-- `record_play`: whether the rendition was queued.
unfoldable pub record_play : Counter → ℕ → Bool
record_play c threshold =
    if threshold == 0
    then false
    else elim (c.incr) [ none ↦ false | some plays ↦ plays == threshold && c.enqueues ]

pub data HlsAnswer : Type 0 where
  not_found : HlsAnswer
  body : Text → Text → HlsAnswer
  redirect : Text → HlsAnswer

-- `f"{hls_key.rsplit('/', 1)[0]}/{safe}"`
unfoldable pub part_key : Text → Text → Text
part_key hls_key path =
    elim (before_slash hls_key) [ some folder ↦ folder | none ↦ hls_key ] ++ (47 ∷ path)

-- A playlist is served, and a segment redirected; `read_object` answers with the object, or raises.
unfoldable pub serve : (Text → Option Text) → Text → Text → HlsAnswer
unfolding part_key
serve read_object hls_key path =
    if ends_with (codes ".m3u8") path
    then elim (read_object (part_key hls_key path)) [
      | none ↦ not_found
      | some playlist ↦ body (part_key hls_key path) playlist
    ]
    else redirect (part_key hls_key path)

-- The play is counted by `record_play`, whose answer is dropped.
unfoldable pub get_hls_part : (Text → Option Text) → ℕ → Text → ℕ → Table → HlsAnswer
unfolding safe_hls_path serve
get_hls_part read_object job_id path owner t = elim (get_job job_id (some owner) false t) [
  | none ↦ not_found
  | some job ↦ elim (job.hls_key) [
    | none ↦ not_found
    | some hls_key ↦ if safe_hls_path path then serve read_object hls_key path else not_found
  ]
]
