-- ===== src/Tests/UploadTests.antt =====
-- One upload of two parts, played through, and the theorems on uploads applied to it.
use media_player.Prelude.{ℕ, ◌≤◌, ◌≡◌, refl, true, Option, none, some, List, [], ◌∷◌, length, arith}
use media_player.Prelude.Text.{codes, text_eq}
use media_player.Jobs.Row.{check_constraints}
use media_player.Jobs.Store.{insert_row, find}
use media_player.Jobs.Writes.{new_row}
use media_player.Uploads.Session.{
  UploadState, is_open, completing, Part, StoredPart, Upload, part_count, add_upload,
  max_open_uploads,
}
use media_player.Uploads.Parts.{
  manifest_of, validate_parts, is_complete_upload, counts_from, sort_parts, insert_part,
  sort_stored, insert_stored, parts_match, size_fits,
}
use media_player.Uploads.PartSizes.{total, validate_parts-total}
use media_player.Uploads.Sniff.{sniff_video_type}
use media_player.Uploads.Routes.{World, Replies, http, accepted, active, owned, same_parts, discard}
use media_player.Uploads.Completion.{
  complete, freeze, enter, settle, deliver, create_upload_job, head_of, abort, cleanup,
}
use media_player.Uploads.Forward.{IsFair, Fair, Good-refl}
use media_player.Uploads.Completed.{complete-IsFair}
use media_player.Uploads.GivenUp.{giving_up-IsFair}
use media_player.Uploads.Gate.{Checked, Seen, complete-checked, open_uploads, add_upload-bounded}
use media_player.Uploads.Retry.{alone, with_job, with_delivery, complete-completing}

abbrev parts : List Part
parts = record { n = 2; etag = codes "b" } ∷ record { n = 1; etag = codes "a" } ∷ []

abbrev stored : List StoredPart
stored =
    record { n = 2; etag = codes "b"; size = 3 }
    ∷ record { n = 1; etag = codes "a"; size = 10 }
    ∷ []

abbrev upload : UploadState → Option (List Part) → Upload
upload state manifest = record {
  id = 1;
  owner_id = 7;
  filename = codes "a.mp4";
  source_key = codes "uploads/9/a.mp4";
  storage_id = some (codes "s");
  size = 13;
  part_size = 10;
  state = state;
  max_fps = 30;
  manifest = manifest;
  job_id = 9;
  created_at = 0;
  expires_at = 100;
}

abbrev world : UploadState → Option (List Part) → World
world state manifest = record {
  users = 7 ∷ [];
  row = some (upload state manifest);
  jobs = [];
  queue = [];
}

-- The first bytes of an MP4 file.
abbrev mp4_head : List ℕ
mp4_head = 0 ∷ 0 ∷ 0 ∷ 32 ∷ (codes "ftypisom")

abbrev replies : Replies
replies = record {
  parts = some stored;
  head = some none;
  complete = true;
  head_after = some (some 13);
  sniff = some mp4_head;
  abort = true;
  enqueue = true;
}

whole_run : (complete 5 7 alone replies parts (world is_open none)).0 ≡ accepted 9
unfolding complete freeze enter settle deliver create_upload_job head_of discard active owned abort
    validate_parts manifest_of sniff_video_type is_complete_upload part_count counts_from sort_parts
    insert_part sort_stored insert_stored parts_match size_fits text_eq same_parts insert_row find
    check_constraints new_row
whole_run = refl

expired_run : (complete 100 7 alone replies parts (world is_open none)).0 ≡ http 410
unfolding complete freeze
expired_run = refl

abort_run : (abort 7 alone replies (world completing (some parts))).0 ≡ http 409
unfolding abort
abort_run = refl

alone-Fair : Fair alone
alone-Fair = record {
  after_freeze = λ w s. Good-refl w s;
  after_mark = λ w s. Good-refl w s;
  after_create = λ w s. Good-refl w s;
}

complete-IsFair_example : IsFair (λ w. (complete 5 7 alone replies parts w).1)
complete-IsFair_example = complete-IsFair 5 7 alone replies parts alone-Fair

giving_up-IsFair_example : IsFair (λ w. (abort 7 alone replies w).1) × IsFair (cleanup 7 replies)
giving_up-IsFair_example = giving_up-IsFair 7 alone replies alone-Fair

validate_parts-total_example :
    (length stored ≡ part_count (upload is_open none)) × (total stored ≡ 13)
unfolding is_complete_upload validate_parts manifest_of part_count counts_from sort_parts
    insert_part sort_stored insert_stored text_eq
validate_parts-total_example =
    validate_parts-total (upload is_open none) parts stored (omega arith) refl refl

checked : Checked replies parts (upload completing (some (manifest_of parts)))
unfolding manifest_of sort_parts insert_part text_eq same_parts head_of sniff_video_type
checked = record {
  same_manifest = refl;
  same_size = refl;
  bytes = mp4_head;
  read = refl;
  is_video = refl;
}

complete-checked_example : Seen 5 alone replies parts (upload is_open none) (world is_open none)
unfolding complete freeze enter settle deliver create_upload_job head_of discard active owned abort
    validate_parts manifest_of sniff_video_type is_complete_upload part_count counts_from sort_parts
    insert_part sort_stored insert_stored parts_match size_fits text_eq same_parts insert_row find
    check_constraints new_row
complete-checked_example =
    complete-checked 5 7 9 alone replies parts (upload is_open none) (world is_open none) refl refl

complete-completing_example :
    complete 5 7 alone replies parts (world completing (some (manifest_of parts))) ≡ (
      accepted 9,
      with_delivery (upload completing (some (manifest_of parts))) (
          with_job 5
            (upload completing (some (manifest_of parts)))
            (world completing (some (manifest_of parts)))),
    )
unfolding find
complete-completing_example =
    complete-completing 5 replies parts (upload completing (some (manifest_of parts)))
      (world completing (some (manifest_of parts))) refl refl refl checked refl refl refl

add_upload-bounded_example :
    (open_uploads 7 (upload is_open none ∷ []) ≤ max_open_uploads)
    × ((upload is_open none ∷ []) ≡ (upload is_open none ∷ []))
unfolding add_upload
add_upload-bounded_example =
    add_upload-bounded (upload is_open none) (7 ∷ []) [] (upload is_open none ∷ []) 7 (omega arith)
      refl
