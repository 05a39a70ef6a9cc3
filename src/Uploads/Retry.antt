-- ===== src/Uploads/Retry.antt =====
-- A completion whose answer was lost can be asked for again (app/api/multipart_uploads.py).
use media_player.Prelude.{
  ℕ, ◌≡◌, refl, Bool, true, ◌||◌, none, some, List, [], ◌∷◌, ◌++◌, arith, ◌==◌, ==_refl, any,
}
use media_player.Jobs.Store.{find, insert_row}
use media_player.Jobs.Row.{check_constraints}
use media_player.Jobs.Writes.{new_row}
use media_player.Uploads.Session.{completing, ready, completed, Upload, Part}
use media_player.Uploads.Routes.{World, Others, Replies, accepted, go, owned}
use media_player.Uploads.Completion.{create_upload_job, settle, deliver, complete, enter}
use media_player.Uploads.Gate.{Checked}

-- No other call between the commits.
abbrev pub alone : Others
alone = record { after_freeze = λ w. w; after_mark = λ w. w; after_create = λ w. w }

abbrev pub is_user : ℕ → World → Bool
is_user owner w = any (λ k. k == owner) w.users

-- The world after a job is made of the session.
abbrev pub with_job : ℕ → Upload → World → World
with_job now u w = record w {
  jobs = new_row now u.job_id u.owner_id u.filename u.source_key none u.max_fps ∷ w.jobs;
  row = some (record u { state = ready });
}

abbrev pub with_delivery : Upload → World → World
with_delivery u w = record w {
  row = some (record u { state = completed });
  queue = w.queue ++ (u.job_id ∷ []);
}

owned-row :
    (u : Upload) (w : World)
    → is_user u.owner_id w ≡ true
    → w.row ≡ some u
    → owned u.owner_id w ≡ go u w
unfolding owned
owned-row u w user row = ground (arith, ==_refl u.owner_id)

create_upload_job-new :
    (now : ℕ) (u : Upload) (w : World)
    → find u.job_id w.jobs ≡ none
    → (u.max_fps == 30 || u.max_fps == 60) ≡ true
    → create_upload_job now u w ≡ some (with_job now u w)
unfolding create_upload_job insert_row check_constraints new_row
create_upload_job-new now u w new fps = ground arith

settle-new :
    (now : ℕ) (r : Replies) (parts : List Part) (u : Upload) (w : World)
    → is_user u.owner_id w ≡ true
    → Checked r parts u
    → find u.job_id w.jobs ≡ none
    → (u.max_fps == 30 || u.max_fps == 60) ≡ true
    → settle now alone r parts u w ≡ go (record u { state = ready }) (with_job now u w)
unfolding settle
settle-new now r parts u w user k new fps = ground (
  arith,
  k.same_manifest,
  k.same_size,
  k.read,
  k.is_video,
  ==_refl u.size,
  create_upload_job-new now u w new fps,
  owned-row (record u { state = ready }) (with_job now u w) user refl,
)

-- A completion whose parts are frozen and whose file passes the checks succeeds when it is asked
-- for again and no other call comes between: the job is made, with the owner, name, key and frame
-- rate of the session, the session is completed, and the job is queued.
pub complete-completing :
    (now : ℕ) (r : Replies) (parts : List Part) (u : Upload) (w : World)
    → is_user u.owner_id w ≡ true
    → w.row ≡ some u
    → u.state ≡ completing
    → Checked r parts u
    → find u.job_id w.jobs ≡ none
    → (u.max_fps == 30 || u.max_fps == 60) ≡ true
    → r.enqueue ≡ true
    → complete now u.owner_id alone r parts w
      ≡ (accepted u.job_id, with_delivery u (with_job now u w))
unfolding complete enter deliver
complete-completing now r parts u w user row c k new fps q =
    ground (arith, owned-row u w user row, settle-new now r parts u w user k new fps)
