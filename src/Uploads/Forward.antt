-- ===== src/Uploads/Forward.antt =====
-- What every call on a session keeps, whatever the other calls do between its commits
-- (app/api/multipart_uploads.py, app/services/upload_cleanup.py).
use media_player.Prelude.{
  ℕ, ◌≡◌, refl, ◌∙◌, Bool, true, false, ◌||◌, Option, none, some, List, arith, ◌==◌, is_some, any,
}
use media_player.Jobs.Store.{find}
use media_player.Uploads.Session.{
  UploadState, is_open, completing, ready, completed, aborting, aborted, Upload,
}
use media_player.Uploads.Routes.{World, Others}

-- The states that follow a state, itself included.
abbrev pub leads : UploadState → UploadState → Bool
leads is_open _ = true
leads completing is_open = false
leads completing _ = true
leads ready ready = true
leads ready completed = true
leads ready _ = false
leads completed completed = true
leads completed _ = false
leads aborting aborting = true
leads aborting aborted = true
leads aborting _ = false
leads aborted aborted = true
leads aborted _ = false

-- A job was made of the session.
abbrev pub is_created : UploadState → Bool
is_created ready = true
is_created completed = true
is_created _ = false

-- What a session fixes at its start stays, its state goes forward, and its manifest stays once
-- it is no longer open.
pub record Onward (u v : Upload) : Type 0 where
  pub same_job : v.job_id ≡ u.job_id
  pub same_owner : v.owner_id ≡ u.owner_id
  pub same_file : (v.filename ≡ u.filename) × (v.source_key ≡ u.source_key)
  pub same_size : (v.size ≡ u.size) × (v.part_size ≡ u.part_size)
  pub forward : leads u.state v.state ≡ true
  pub frozen : (leads u.state is_open ≡ false) → v.manifest ≡ u.manifest

-- The row of a session after and before: it may be deleted, it does not come back.
pub data Follows : Option Upload → Option Upload → Type 0 where
  gone : {a : Option Upload} → Follows a none
  on : {u v : Upload} → Onward u v → Follows (some u) (some v)

abbrev pub in_list : ℕ → List ℕ → Bool
in_list i is = any (λ k. k == i) is

-- The job of a session exists, or is in the queue.
abbrev pub is_made : Upload → World → Bool
is_made u w = is_some (find u.job_id w.jobs) || in_list u.job_id w.queue

-- Only a session that is ready or completed has a job.
abbrev pub IsSound : World → Type 0
IsSound w = (u : Upload) → w.row ≡ some u → is_made u w ≡ true → is_created u.state ≡ true

pub record Good (w w' : World) : Type 0 where
  pub sound : IsSound w'
  pub follows : Follows w.row w'.row

-- The other calls keep soundness and go forward.
abbrev pub IsFair : (World → World) → Type 0
IsFair f = (w : World) → IsSound w → Good w (f w)

pub record Fair (others : Others) : Type 0 where
  pub after_freeze : IsFair others.after_freeze
  pub after_mark : IsFair others.after_mark
  pub after_create : IsFair others.after_create

leads_refl : (s : UploadState) → leads s s ≡ true
leads_refl is_open = refl
leads_refl completing = refl
leads_refl ready = refl
leads_refl completed = refl
leads_refl aborting = refl
leads_refl aborted = refl

leads_trans : (a b c : UploadState) → leads a b ≡ true → leads b c ≡ true → leads a c ≡ true
leads_trans a b c p q = ground arith

leads-closed :
    (a b : UploadState) → leads a b ≡ true → leads a is_open ≡ false → leads b is_open ≡ false
leads-closed a b p q = ground arith

pub Onward-trans : {u v w : Upload} → Onward u v → Onward v w → Onward u w
Onward-trans {u} {v} {w} p q = record {
  same_job = q.same_job ∙ p.same_job;
  same_owner = q.same_owner ∙ p.same_owner;
  same_file = (q.same_file.0 ∙ p.same_file.0, q.same_file.1 ∙ p.same_file.1);
  same_size = (q.same_size.0 ∙ p.same_size.0, q.same_size.1 ∙ p.same_size.1);
  forward = leads_trans u.state v.state w.state p.forward q.forward;
  frozen = λ c. q.frozen (leads-closed u.state v.state p.forward c) ∙ p.frozen c;
}

pub Onward-refl : (u : Upload) → Onward u u
Onward-refl u = record {
  same_job = refl;
  same_owner = refl;
  same_file = (refl, refl);
  same_size = (refl, refl);
  forward = leads_refl u.state;
  frozen = λ _. refl;
}

pub Follows-trans : {a b c : Option Upload} → Follows a b → Follows b c → Follows a c
Follows-trans p gone = gone
Follows-trans (on p) (on q) = on (Onward-trans p q)

pub Follows-refl : (a : Option Upload) → Follows a a
Follows-refl none = gone
Follows-refl (some u) = on (Onward-refl u)

pub Good-trans : {a b c : World} → Good a b → Good b c → Good a c
Good-trans p q = record { sound = q.sound; follows = Follows-trans p.follows q.follows }

pub Good-refl : (w : World) → IsSound w → Good w w
Good-refl w s = record { sound = s; follows = Follows-refl w.row }
