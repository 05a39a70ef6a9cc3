-- ===== src/Playback/LadderRun.antt =====
-- app/worker/hls.py: `HlsLadderBuilder.build` from the encode on, over the keys in the bucket. What
-- the encodes leave on the disk, and what each upload answers, is an argument.
use media_player.Prelude.{
  ℕ, Bool, true, false, not, ◌||◌, Option, none, some, List, [], ◌∷◌, ◌++◌, ltb, ◌==◌,
  if◌then◌else◌, filter,
}
use media_player.Prelude.Text.{Text, codes, text_eq}
use media_player.Api.Cleanup.{elem}
use media_player.Playback.SpriteRun.{Upload}

-- `wants`: a builder of pieces is there, the source's key is given, and it wants this probe. `pieces`
-- is its answer, if it did not raise; `one_run`: the single FFmpeg run succeeded within its time.
-- `files` are the paths below the work directory, with `/` between their parts.
pub record LadderRun : Type 0 where
  pub wants : Bool
  pub pieces : Option Bool
  pub one_run : Bool
  pub files : List Text
  pub uploads : List Upload

abbrev pub encodes : LadderRun → Bool
encodes r =
    if not r.wants
    then r.one_run
    else elim (r.pieces) [ none ↦ false | some true ↦ true | some false ↦ r.one_run ]

unfoldable pub master_name : Text
master_name = codes "master.m3u8"

unfoldable pub is_master : Text → Bool
is_master f = text_eq f master_name

-- Paths compare part by part: a path's `/` is less than any character of a part.
abbrev pub before : ℕ → ℕ → Bool
before c d = if d == 47 then false else if c == 47 then true else ltb c d

abbrev pub path_le : Text → Text → Bool
path_le [] _ = true
path_le (c ∷ cs) [] = false
path_le (c ∷ cs) (d ∷ ds) = let rest = path_le cs ds in if c == d then rest else before c d

abbrev pub insert_path : Text → List Text → List Text
insert_path f [] = f ∷ []
insert_path f (g ∷ gs) = let rest = insert_path f gs in if path_le f g then f ∷ g ∷ gs else g ∷ rest

unfoldable pub sorted_paths : List Text → List Text
sorted_paths [] = []
sorted_paths (f ∷ fs) = insert_path f (sorted_paths fs)

-- `sorted`, and then a stable sort on whether the path is the master's.
unfoldable pub upload_order : List Text → List Text
unfolding sorted_paths is_master
upload_order files =
    let by_name = sorted_paths files in
    filter (λ f. not (is_master f)) by_name ++ filter is_master by_name

unfoldable pub file_key : Text → Text → Text
file_key prefix f = prefix ++ codes "/" ++ f

abbrev pub stored_part : Upload → Text → List Text → List Text
stored_part u key objects = if u.stores then key ∷ objects else objects

-- The uploads, one after the other: the answers that are left over, or `none` where an upload raised
-- or, with the answers at an end, the worker died.
unfoldable pub upload_files :
    Text → List Upload → List Text → List Text → Option (List Upload) × List Text
unfolding file_key
upload_files prefix us [] objects = (some us, objects)
upload_files prefix [] (f ∷ fs) objects = (none, objects)
upload_files prefix (u ∷ us) (f ∷ fs) objects =
    let objects' = stored_part u (file_key prefix f) objects in
    let rest = upload_files prefix us fs objects' in if u.raises then (none, objects') else rest

-- The master's key, or `none` where the build raised. The frame rates that are written into the master
-- (`label_frame_rates`) leave its path as it is.
unfoldable pub build_files : Text → LadderRun → List Text → Option Text × List Text
unfolding upload_files upload_order master_name file_key
build_files prefix r objects =
    if not (encodes r) || not (elem master_name r.files)
    then (none, objects)
    else elim ((upload_files prefix r.uploads (upload_order r.files) objects).0) [
      | none ↦ (none, (upload_files prefix r.uploads (upload_order r.files) objects).1)
      | some _ ↦ (
        some (file_key prefix master_name),
        (upload_files prefix r.uploads (upload_order r.files) objects).1,
      )
    ]
