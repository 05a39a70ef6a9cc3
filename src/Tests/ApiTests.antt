-- ===== src/Tests/ApiTests.antt =====
-- The routes on jobs at a small table, and the theorems of Api at them.
use media_player.Prelude.{
  ◌&&◌, is_some, ◌≡◌, refl, Bool, true, false, ◌||◌, Option, none, some, List, [], ◌∷◌, ◌++◌, arith,
  Bool-cases, inl, inr,
}
use media_player.Prelude.Text.{Text, codes, text_eq}
use media_player.Prelude.Search.{starts_with, ends_with}
use media_player.Prelude.Int.{pos}
use media_player.Edits.Operation.{Operation, OperationName, int, name_of}
use media_player.Edits.Rules.{down, scale_options, scale_heights}
use media_player.Jobs.Row.{Job}
use media_player.Jobs.Store.{find}
use media_player.Jobs.Queries.{get_job}
use media_player.Jobs.EditRoots.{resolve_edit_roots, get}
use media_player.Api.Shown.{
  Settings, Signer, JobResponse, to_response, get_job_by_id, answered, editable_height_of,
}
use media_player.Api.Visible.{Shows, get_job_by_id-Shows}
use media_player.Api.EditRoute.{operation, State, EditCall, edit_job_by_id, stem}
use media_player.Api.EditOutcome.{Outcome, edit_job_by_id-Outcome}
use media_player.Api.OfferedEdits.{offered_scale-answered}
use media_player.Api.RetryRoute.{committed, retry_job_by_id}
use media_player.Api.RetryOutcome.{Retried, retry_job_by_id-Retried}
use media_player.Api.TrashTrip.{restore-delete}
use media_player.Api.Cleanup.{
  Storage, delete_job_by_id, restore_job_by_id, delete_job_storage, own_keys, prefixes, elem,
  folder_of, before_slash, listed, fromkeys,
}
use media_player.Api.Cleaned.{
  is_named, is_beside, all_differ, lists, delete_job_storage_lem, edit-spares_source,
}
use media_player.Api.HlsRoute.{get_hls_part, serve, part_key, safe_hls_path}
use media_player.Api.HlsSafe.{stays, get_hls_part-stays}
use media_player.Edits.Checking.{named}
use media_player.Edits.Requests.{is_edit_request, valid_params}
use media_player.Api.Requested.{is_edit_request-kept}
use media_player.Tests.JobTests.{upload, edit, table, table-IsValid}

abbrev settings : Settings
settings = record {
  api_public_prefix = codes "/api/";
  worker_ffmpeg_max_height = 1080;
  trash_retention_days = pos 30;
}

abbrev signer : Signer
signer = record { create_url = λ k. codes "https://s3/" ++ k; id_text = λ i. i ∷ [] }

abbrev shown : JobResponse
shown = to_response settings signer upload (some upload) none

page : get_job_by_id settings signer 1 7 none table ≡ answered shown
unfolding get_job_by_id get_job find get resolve_edit_roots
page = refl

get_job_by_id-Shows_example :
    (r : JobResponse) × (get_job_by_id settings signer 1 7 none table ≡ answered r) × Shows upload r
get_job_by_id-Shows_example =
    get_job_by_id-Shows settings signer 1 7 none table upload table-IsValid
      (unfold get_job find in refl) refl

names : (stem (codes "a/my.film.mp4") ≡ codes "my.film") × (stem (codes ".mp4") ≡ codes ".mp4")
unfolding stem text_eq
names = (refl, refl)

abbrev call : EditCall
call = record {
  job_id = 1;
  owner = 7;
  new_job_id = 9;
  now = 30;
  operations = Operation.downscale (int (pos 480)) ∷ [];
  enqueue = record { delivered = true; raised = false };
  others = λ x. x;
}

abbrev state : State
state = record { jobs = table; queue = [] }

edit_job_by_id-Outcome_example : Outcome call state (edit_job_by_id settings call state)
edit_job_by_id-Outcome_example =
    edit_job_by_id-Outcome call state table-IsValid (unfold find in refl) refl (λ x d o. (d, o))
      settings

offered_scale-answered_example : (edit_job_by_id settings call state).0 ≡ answered 9
unfolding to_response
offered_scale-answered_example =
    offered_scale-answered settings signer none call state down 480 {r = shown}
      {o = record { downscale = 720 ∷ 480 ∷ 360 ∷ 240 ∷ []; upscale = 1440 ∷ 2160 ∷ [] }}
      {source = upload} table-IsValid (unfold find in refl) (unfold get_job find in refl) refl page
      (unfold scale_options scale_heights editable_height_of in refl) refl refl refl

retry_job_by_id-Retried_example :
    Retried 30 2 8
      (record { delivered = true; raised = false })
      committed
      state
      (retry_job_by_id 30 2 8 (record { delivered = true; raised = false }) committed state)
retry_job_by_id-Retried_example =
    retry_job_by_id-Retried 30 2 8 (record { delivered = true; raised = false }) committed state
      table-IsValid (λ _. refl)

abbrev if_hls : Bool → Option (List Text)
if_hls true = some (codes "outputs/1/hls/master.m3u8" ∷ [])
if_hls false = none

abbrev bucket : Storage
bucket = record {
  list_objects = λ p. if_hls (text_eq p (codes "outputs/1/hls/"));
  deletes = λ k. true;
}

restore-delete_example :
    let d = delete_job_by_id settings bucket 30 1 7 table in
    (d.reply ≡ answered tt)
    × (d.attempted ≡ [])
    × (restore_job_by_id 1 7 d.jobs ≡ (answered upload, table))
restore-delete_example =
    restore-delete settings bucket 30 1 7 table upload table-IsValid refl
      (unfold get_job find in refl)

emptied :
    (delete_job_storage bucket upload true).attempted
    ≡ codes "uploads/1/a.mp4" ∷ codes "outputs/1/a.mp4" ∷ codes "outputs/1/hls/master.m3u8" ∷ []
unfolding delete_job_storage own_keys prefixes folder_of listed fromkeys before_slash text_eq
emptied = refl

delete_job_storage_lem_example :
    let c = delete_job_storage bucket upload true in
    (c.raised ≡ false)
    × (all_differ c.attempted ≡ true)
    × ((k : Text)
        → elem k c.attempted ≡ (
            is_named k upload
            || is_beside bucket k upload.hls_key
            || is_beside bucket k upload.preview_key))
delete_job_storage_lem_example = delete_job_storage_lem bucket upload

-- The finished edit of the upload, with a ladder of its own.
abbrev finished : Job
finished = record edit {
  output_key = some (codes "outputs/3/a.mp4");
  hls_key = some (codes "outputs/3/hls/master.m3u8");
}

nowhere_else :
    (p : Text)
    → lists bucket finished.source_key p ≡ true
    → starts_with p finished.source_key ≡ true
unfolding text_eq
nowhere_else p h = elim (Bool-cases (text_eq p (codes "outputs/1/hls/"))) [
  | inl hls ↦ absurd (ground (arith, h, hls))
  | inr other ↦ absurd (ground (arith, h, other))
]

edit-spares_source_example :
    elem finished.source_key (delete_job_storage bucket finished false).attempted ≡ false
edit-spares_source_example =
    edit-spares_source bucket finished false refl (unfold text_eq in refl)
      (unfold prefixes folder_of before_slash in refl) nowhere_else

abbrev objects : Text → Option Text
objects key = some (codes "#EXTM3U")

get_hls_part-stays_example :
    (job : Job) × (hls_key : Text) × (find 1 table ≡ some job)
    × (job.owner_id ≡ 7)
    × (job.deleted_at ≡ none)
    × (job.hls_key ≡ some hls_key)
    × (codes "outputs/1/hls/v0/index.m3u8" ≡ part_key hls_key (codes "v0/index.m3u8"))
    × (stays true (codes "v0/index.m3u8") ≡ true)
get_hls_part-stays_example =
    get_hls_part-stays objects 1 7 (codes "v0/index.m3u8") table
      (codes "outputs/1/hls/v0/index.m3u8")
      (unfold get_hls_part serve part_key get_job find safe_hls_path text_eq ends_with
          before_slash in
        refl)

no_way_up : safe_hls_path (codes "../2/hls/master.m3u8") ≡ false
unfolding safe_hls_path
no_way_up = refl

abbrev wish : List Operation
wish = Operation.rotate 90 ∷ Operation.downscale (int (pos 480)) ∷ []

is_edit_request-kept_example :
    ((xs ys : List Operation) (op : Operation)
      → wish ≡ xs ++ (op ∷ ys)
      → named wish (name_of op) ≡ some op)
    × ((n : OperationName) → operation n wish ≡ named wish n)
    × ((is_some (named wish OperationName.downscale) && is_some (named wish OperationName.upscale))
        ≡ false)
is_edit_request-kept_example =
    is_edit_request-kept wish (unfold is_edit_request valid_params name_of in refl)
