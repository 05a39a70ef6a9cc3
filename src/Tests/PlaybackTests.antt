-- ===== src/Tests/PlaybackTests.antt =====
-- A ladder, its extra renditions and a preview sheet, and the theorems of Playback at them.
use media_player.Prelude.{
  ℕ, ◌+◌, ◌*◌, ◌<◌, ◌≤◌, ◌≡◌, refl, true, false, none, some, List, [], ◌∷◌, ◌++◌, arith,
}
use media_player.Prelude.Text.{
  Text, codes, is_blank, strip, is_space, lstrip_of, rstrip_of, text_eq,
}
use media_player.Prelude.Search.{contains, digits}
use media_player.Playback.Rungs.{variants_for, ladder_heights, bitrate}
use media_player.Playback.LadderWired.{Good, variants_for-Good}
use media_player.Playback.Renditions.{
  av1, rungs_for, ceiling, plan_rendition, RenditionPlan, untagged, cap_fps, at_most,
}
use media_player.Playback.RungCaps.{rungs_for-ceiling}
use media_player.Playback.Master.{
  Entry, Rung, entries, is_info, is_full, new_entry, uri_of, sorted, add_to_master,
}
use media_player.Playback.Listed.{at_rank, is_ranked, add_to_master-entries}
use media_player.Playback.Sprite.{SpriteLayout, plan_sprite, ceil_div, cue, cue_lines, timestamp}
use media_player.Playback.SpriteCues.{Follows, plan_sprite-Follows}
use media_player.Edits.Rules.{round_div, scaled_width}
use media_player.Playback.SpriteRun.{
  Upload, Run, SpriteSettings, Stored, stored, preview_prefix_for, run_preview, publish,
  record_index,
}
use media_player.Playback.SpriteKept.{Ends, run_preview-Ends}
use media_player.Playback.LadderRun.{
  LadderRun, is_master, master_name, sorted_paths, upload_order, upload_files, file_key,
  build_files,
}
use media_player.Playback.MasterLast.{master_comes_last}
use media_player.Api.Cleanup.{before_slash, elem}
use media_player.Jobs.Row.{check_constraints}
use media_player.Jobs.Store.{update_row, find, replace}
use media_player.Jobs.Writes.{mark_preview_ready}
use media_player.Tests.JobTests.{upload}

rungs_of_720 : variants_for 720 2160 ≡ 360 ∷ 720 ∷ []
unfolding variants_for ladder_heights
rungs_of_720 = refl

rungs_of_480 : variants_for 500 2160 ≡ 360 ∷ 480 ∷ []
unfolding variants_for ladder_heights
rungs_of_480 = refl

variants_for-Good_example : Good 720 (variants_for 720 2160)
variants_for-Good_example = variants_for-Good 720 2160

rungs_for-ceiling_example :
    (360 ≤ 1080)
    × (ceiling av1 360 < bitrate 360 * 1000)
    × (360 ≤ 360 → ceiling av1 360 * 5 + 128000 * 4 < 500000 * 4)
rungs_for-ceiling_example = rungs_for-ceiling av1 1080 360 (unfold rungs_for in refl)

unfoldable master : List Text
master =
    codes "#EXTM3U"
    ∷ codes "#EXT-X-STREAM-INF:BANDWIDTH=1000,RESOLUTION=640x360"
    ∷ codes "v0/index.m3u8"
    ∷ []
    ∷ []

unfoldable ladder : List Entry
ladder =
    record {
      info = codes "#EXT-X-STREAM-INF:BANDWIDTH=1000,RESOLUTION=640x360";
      uri = codes "v0/index.m3u8";
    }
    ∷ []

abbrev plan : RenditionPlan
plan = record {
  kind = av1;
  codecs = codes "av01.0.04M.08";
  video_range = codes "SDR";
  filters = cap_fps 30 ∷ at_most 360 ∷ [];
  color_args = untagged;
  crf = 30;
  maxrate = 296000;
}

planned :
    plan_rendition av1
      (record { width = 1280; height = 720; is_hdr = false; color_transfer = codes "bt709" })
      30
      360
    ≡ some plan
unfolding plan_rendition bitrate
planned = refl

abbrev rung : Rung
rung = record {
  plan = plan;
  rung = 360;
  resolution = codes "640x360";
  bandwidth = (300000, 200000);
}

master-entries : entries master ≡ (codes "#EXTM3U" ∷ [], ladder)
unfolding entries master ladder is_info is_full is_blank strip is_space rstrip_of lstrip_of
master-entries = refl

add_to_master-entries_example :
    let all_entries = ladder ++ (new_entry rung ladder ∷ []) in
    (entries (add_to_master rung master) ≡ (codes "#EXTM3U" ∷ [], sorted all_entries))
    × ((k : ℕ) → at_rank k (sorted all_entries) ≡ at_rank k all_entries)
    × (is_ranked (sorted all_entries) ≡ true)
    × (add_to_master rung (add_to_master rung master) ≡ add_to_master rung master)
add_to_master-entries_example =
    add_to_master-entries rung master (codes "#EXTM3U" ∷ []) ladder master-entries
      (unfold ladder in refl) (unfold uri_of contains master digits in refl)

-- Seven seconds at 16:9: two frames, five seconds apart.
abbrev sheet : SpriteLayout
sheet = record {
  interval_seconds = 5;
  frames = 2;
  columns = 2;
  rows = 1;
  tile_width = 160;
  tile_height = 90;
}

planned_sheet : plan_sprite 1920 1080 7000000 5 160 10 200 ≡ some sheet
unfolding plan_sprite scaled_width round_div ceil_div
planned_sheet = refl

plan_sprite-Follows_example :
    (0 < 2)
    × (2 ≤ 200)
    × ((cue sheet 7000000 0).start ≡ 0)
    × ((i : ℕ) → i < 2 → Follows sheet 7000000 i)
plan_sprite-Follows_example =
    plan_sprite-Follows 1920 1080 7000000 5 160 10 200 {l = sheet} (omega arith) (omega arith)
      planned_sheet

second_cue :
    cue_lines sheet (cue sheet 7000000 1)
    ≡ codes "00:00:05.000 --> 00:00:07.000" ∷ codes "sprite.jpg#xywh=160,0,160,90" ∷ [] ∷ []
unfolding cue_lines cue round_div digits timestamp
second_cue = refl

abbrev works : Upload
works = record { raises = false; stores = true }

-- Everything works, but the job is gone when the preview is to be recorded.
abbrev late : Run
late = record {
  download = true;
  probe = some (1920, 1080, 7000000);
  render = true;
  sheet = works;
  index = works;
  connects = true;
  discards = true;
}

abbrev every_five : SpriteSettings
every_five = record { interval_seconds = 5; tile_width = 160 }

abbrev video_only : Stored
video_only = record { objects = codes "outputs/1/a.mp4" ∷ []; jobs = [] }

run_preview-Ends_example :
    Ends late 1
      (preview_prefix_for (codes "outputs/1/a.mp4"))
      video_only
      (run_preview every_five late 30 1 (codes "outputs/1/a.mp4") video_only)
run_preview-Ends_example =
    run_preview-Ends every_five late 30 1 (codes "outputs/1/a.mp4") video_only (λ h. refl)
      (λ h. refl)

shown_preview :
    run_preview every_five late 30 1
      (codes "outputs/1/a.mp4")
      (record video_only { jobs = upload ∷ [] })
    ≡ (
      stored (codes "outputs/1/preview/sprite.vtt"),
      record {
        objects =
            codes "outputs/1/preview/sprite.vtt"
            ∷ codes "outputs/1/preview/sprite.jpg"
            ∷ codes "outputs/1/a.mp4"
            ∷ [];
        jobs =
            record upload {
              preview_key = some (codes "outputs/1/preview/sprite.vtt");
              updated_at = 30;
            }
            ∷ [];
      },
    )
unfolding run_preview publish record_index preview_prefix_for before_slash plan_sprite ceil_div
    mark_preview_ready update_row find replace check_constraints is_blank strip is_space lstrip_of
    rstrip_of scaled_width round_div
shown_preview = refl

-- A ladder of one rung, whose last upload is the master's.
abbrev small_ladder : LadderRun
small_ladder = record {
  wants = false;
  pieces = none;
  one_run = true;
  files =
      codes "v0/seg00000.ts" ∷ codes "master.m3u8" ∷ codes "v0/index.m3u8" ∷ codes "v/x.ts" ∷ [];
  uploads = works ∷ works ∷ works ∷ works ∷ [];
}

sent_in_order :
    upload_order small_ladder.files
    ≡ codes "v/x.ts" ∷ codes "v0/index.m3u8" ∷ codes "v0/seg00000.ts" ∷ codes "master.m3u8" ∷ []
unfolding upload_order sorted_paths is_master master_name text_eq
sent_in_order = refl

master_comes_last_example :
    elem
      (file_key (codes "o/1/hls") (codes "v0/index.m3u8"))
      (build_files (codes "o/1/hls") small_ladder []).1
    ≡ true
unfolding build_files upload_files upload_order sorted_paths is_master master_name text_eq file_key
master_comes_last_example =
    master_comes_last (codes "o/1/hls") (codes "v0/index.m3u8") small_ladder [] refl refl refl refl

-- The second upload raised, and so no master was sent.
abbrev refused_upload : Upload
refused_upload = record { raises = true; stores = false }

stopped_early :
    build_files (codes "o/1/hls") (record small_ladder { uploads = works ∷ refused_upload ∷ [] }) []
    ≡ (none, codes "o/1/hls/v/x.ts" ∷ [])
unfolding build_files upload_files upload_order sorted_paths is_master master_name text_eq file_key
stopped_early = refl
