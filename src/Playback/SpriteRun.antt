-- ===== src/Playback/SpriteRun.antt =====
-- app/worker/preview.py: `PreviewSprite.run` with `record_preview`, over the stored objects and the
-- table. What a download, the probe, FFmpeg and an upload answer is an argument.
use media_player.Prelude.{ℕ, Bool, not, Option, none, some, List, ◌∷◌, ◌++◌, if◌then◌else◌, filter}
use media_player.Prelude.Text.{Text, codes}
use media_player.Prelude.Search.{starts_with}
use media_player.Jobs.Store.{Table, ok, err}
use media_player.Jobs.Writes.{mark_preview_ready}
use media_player.Api.Cleanup.{before_slash}
use media_player.Playback.Sprite.{plan_sprite}

-- The keys in the bucket, and the rows.
pub record Stored : Type 0 where
  pub objects : List Text
  pub jobs : Table

-- An upload that raises may have stored its object all the same.
pub record Upload : Type 0 where
  pub raises : Bool
  pub stores : Bool

-- Size and duration that the probe of the MP4 found, if it did not raise.
pub record Run : Type 0 where
  pub download : Bool
  pub probe : Option (ℕ × ℕ × ℕ)
  pub render : Bool
  pub sheet : Upload
  pub index : Upload
  pub connects : Bool
  pub discards : Bool

pub record SpriteSettings : Type 0 where
  pub interval_seconds : ℕ
  pub tile_width : ℕ

-- `preview_prefix_for`; a key has no empty component.
unfoldable pub preview_prefix_for : Text → Text
preview_prefix_for output_key =
    elim (before_slash output_key) [ some parent ↦ parent | none ↦ codes "." ] ++ codes "/preview/"

pub data Preview : Type 0 where
  stored : Text → Preview
  gone raised : Preview

abbrev pub put_object : Upload → Text → Stored → Stored
put_object u key w = if u.stores then record w { objects = key ∷ w.objects } else w

-- `_discard`, which does not raise.
unfoldable pub discard_preview : Run → Text → Stored → Stored
discard_preview r prefix w =
    if r.discards
    then record w { objects = filter (λ k. not (starts_with prefix k)) w.objects }
    else w

abbrev pub sheet_key : Text → Text
sheet_key prefix = prefix ++ codes "sprite.jpg"

abbrev pub index_key : Text → Text
index_key prefix = prefix ++ codes "sprite.vtt"

-- `record_preview`, and what follows; `connects`: the database could be reached.
unfoldable pub record_index : Run → ℕ → ℕ → Text → Stored → Preview × Stored
unfolding discard_preview
record_index r now job_id prefix w =
    if not r.connects
    then (raised, discard_preview r prefix w)
    else elim (mark_preview_ready now job_id (index_key prefix) w.jobs) [
      | err _ ↦ (raised, discard_preview r prefix w)
      | ok none jobs ↦ (gone, discard_preview r prefix (record w { jobs = jobs }))
      | ok (some _) jobs ↦ (stored (index_key prefix), record w { jobs = jobs })
    ]

-- The uploads: the sheet, then the index, then the row.
unfoldable pub publish : Run → ℕ → ℕ → Text → Stored → Preview × Stored
unfolding discard_preview record_index
publish r now job_id prefix w =
    let with_sheet = put_object r.sheet (sheet_key prefix) w in
    if r.sheet.raises
    then (raised, discard_preview r prefix with_sheet)
    else (let with_index = put_object r.index (index_key prefix) with_sheet in
        if r.index.raises
        then (raised, discard_preview r prefix with_index)
        else record_index r now job_id prefix with_index)

unfoldable pub run_preview : SpriteSettings → Run → ℕ → ℕ → Text → Stored → Preview × Stored
unfolding publish preview_prefix_for plan_sprite
run_preview s r now job_id output_key w = if not r.download then (raised, w) else elim (r.probe) [
  | none ↦ (raised, w)
  | some (width, height, duration) ↦
      elim (plan_sprite width height duration s.interval_seconds s.tile_width 10 200) [
        | none ↦ (raised, w)
        | some layout ↦
            if r.render then publish r now job_id (preview_prefix_for output_key) w else (raised, w)
      ]
]
