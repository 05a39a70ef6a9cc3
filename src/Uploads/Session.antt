-- ===== src/Uploads/Session.antt =====
-- app/models/upload.py: one upload session, and the counting rule of app/repositories/uploads.py.
use media_player.Prelude.{
  ℕ, ◌+◌, ◌-◌, ◌/◌, Bool, true, false, not, ◌&&◌, Option, List, ◌∷◌, leb, ◌==◌, if◌then◌else◌, any,
  filter, length,
}
use media_player.Prelude.Text.{Text}

-- `is_open` stands for "open".
pub data UploadState : Type 0 where
  is_open completing ready completed aborting aborted : UploadState

-- `{"n": …, "etag": …}`
pub record Part : Type 0 where
  pub n : ℕ
  pub etag : Text

-- A part as the storage lists it.
pub record StoredPart : Type 0 where
  pub n : ℕ
  pub etag : Text
  pub size : ℕ

pub record Upload : Type 0 where
  pub id : ℕ
  pub owner_id : ℕ
  pub filename : Text
  pub source_key : Text
  pub storage_id : Option Text
  pub size : ℕ
  pub part_size : ℕ
  pub state : UploadState
  pub max_fps : ℕ
  pub manifest : Option (List Part)
  pub job_id : ℕ
  pub created_at : ℕ
  pub expires_at : ℕ

-- `(self.size + self.part_size - 1) // self.part_size`; with a part size of 0, which
-- `ck_upload_size` excludes, the source raises and this is 0.
unfoldable pub part_count : Upload → ℕ
part_count u = (u.size + u.part_size - 1) / u.part_size

-- `RESERVED_STATES`
unfoldable pub is_reserved : UploadState → Bool
is_reserved is_open = true
is_reserved completing = true
is_reserved aborting = true
is_reserved _ = false

abbrev pub max_open_uploads : ℕ
max_open_uploads = 5

pub data AddError : Type 0 where
  no_owner limit_reached : AddError

pub data Added : Type 0 where
  added : List Upload → Added
  not_added : AddError → Added

-- The sessions of an owner that hold a slot.
abbrev pub holds_slot : ℕ → Upload → Bool
holds_slot owner u = u.owner_id == owner && is_reserved u.state

-- `add_upload`: the owner's lock makes the count and the insert one step.
unfoldable pub add_upload : Upload → List ℕ → List Upload → Added
add_upload upload users sessions =
    if not (any (λ k. k == upload.owner_id) users)
    then not_added no_owner
    else if leb max_open_uploads (length (filter (holds_slot upload.owner_id) sessions))
    then not_added limit_reached
    else added (upload ∷ sessions)
