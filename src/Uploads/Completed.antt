-- ===== src/Uploads/Completed.antt =====
-- A call of `complete` keeps what Forward states, and makes a job only of a checked file.
use media_player.Prelude.{
  ℕ, ◌≡◌, refl, ◌∙◌, sym, subst, ap, Bool, true, false, not, some, List, arith, ◌==◌, is_none,
  if◌then◌else◌,
}
use mathlib.Core.Option.{some-injective}
use media_player.Uploads.Session.{
  UploadState, is_open, completing, ready, completed, aborting, aborted, Upload, Part,
}
use media_player.Uploads.Parts.{manifest_of}
use media_player.Uploads.Sniff.{sniff_video_type}
use media_player.Uploads.Routes.{
  World, Others, Replies, Response, http, accepted, Step, stop, go, owned, manifest_is,
}
use media_player.Uploads.Completion.{
  freeze, head_of, create_upload_job, settle, deliver, complete, settle_if_completing,
  deliver_if_ready, enter, answer, state_is_completing, state_is_ready, state_is_completed,
}
use media_player.Uploads.Forward.{
  leads, is_created, Onward, Follows, on, IsSound, Good, IsFair, Fair, Good-refl,
}
use media_player.Uploads.Kept.{
  Kept, ended, going, if-Kept, option-Kept, owned-Kept, bind-Kept, gap-Kept, freeze-Kept,
  Onward-state, Kept-after,
}
use media_player.Uploads.GivenUp.{discard-Good}

-- A row that is ready or completed is sound with any jobs and any queue.
created-Good :
    {w w' : World} (u v : Upload)
    → w.row ≡ some u
    → Onward u v
    → w'.row ≡ some v
    → is_created v.state ≡ true
    → Good w w'
created-Good {w} {w'} u v row o row' c = record {
  sound = λ x e m.
      subst (λ (y : Upload). is_created y.state ≡ true) (some-injective v x (sym row' ∙ e)) c;
  follows =
      subst (λ r. Follows r w'.row) (sym row) (subst (λ r. Follows (some u) r) (sym row') (on o));
}

create_upload_job-Good :
    (now : ℕ) (u : Upload) (w w' : World)
    → w.row ≡ some u
    → u.state ≡ completing
    → create_upload_job now u w ≡ some w'
    → Good w w'
unfolding create_upload_job
create_upload_job-Good now u w w' row c h =
    created-Good u (record u { state = ready }) row
      (Onward-state u ready (ap (λ x. leads x ready) c)) (ground arith) (refl)

settle-Kept :
    (now : ℕ) (others : Others) (r : Replies) (parts : List Part) (u : Upload) (w : World)
    → Fair others
    → IsSound w
    → w.row ≡ some u
    → u.state ≡ completing
    → Kept w (settle now others r parts u w)
unfolding settle
settle-Kept now others r parts u w fair s row c =
    let stays = Good-refl w s in
    let given_up = λ (code : ℕ).
      discard-Good others r u w (http code) fair s row (ap (λ x. leads x aborting) c) in
    if-Kept (not (manifest_is (manifest_of parts) u.manifest)) (ended stays) (
      option-Kept (head_of r) (ended stays) (λ seen _. option-Kept seen (ended stays) (λ size _.
        if-Kept (not (size == u.size)) (ended (given_up 422)) (
          option-Kept r.sniff (ended stays) (λ bytes _.
            if-Kept (is_none (sniff_video_type bytes)) (ended (given_up 415)) (
              option-Kept (create_upload_job now u w) (ended stays) (λ w' made.
                gap-Kept u.owner_id others.after_create
                  (create_upload_job-Good now u w w' row c made) fair.after_create)))))))

deliver-Kept :
    (r : Replies) (u : Upload) (w : World)
    → IsSound w
    → w.row ≡ some u
    → u.state ≡ ready
    → Kept w (deliver r u w)
unfolding deliver
deliver-Kept r u w s row c =
    if-Kept r.enqueue
      (going
        (created-Good u (record u { state = completed }) row
          (Onward-state u completed (ap (λ x. leads x completed) c)) refl refl)
        refl)
      (ended (Good-refl w s))

-- The state that a test of the row finds.
completing_of : (u : Upload) → state_is_completing u ≡ true → u.state ≡ completing
completing_of u h = ground arith

ready_of : (u : Upload) → state_is_ready u ≡ true → u.state ≡ ready
ready_of u h = ground arith

when-Kept :
    {w : World} {a b : Step} (c : Bool)
    → (c ≡ true → Kept w a)
    → Kept w b
    → Kept w (if c then a else b)
when-Kept true p q = p refl
when-Kept false p q = q

enter-Kept :
    (now : ℕ) (others : Others) (r : Replies) (parts : List Part) (u : Upload) (w : World)
    → Fair others
    → IsSound w
    → w.row ≡ some u
    → Kept w (enter now others r parts u w)
unfolding enter
enter-Kept now others r parts u w fair s row = by_state u.state refl
  where
    by_state :
        (st : UploadState)
        → u.state ≡ st
        → Kept w (elim st as (λ _. Step) [
          | is_open ↦ freeze now others r parts u w
          | completing ↦ go u w
          | ready ↦ go u w
          | completed ↦ stop (accepted u.job_id) w
          | aborting ↦ stop (http 409) w
          | aborted ↦ stop (http 409) w
        ])
    by_state is_open e = freeze-Kept now others r parts u w fair s row e
    by_state completing e = going (Good-refl w s) row
    by_state ready e = going (Good-refl w s) row
    by_state completed e = ended (Good-refl w s)
    by_state aborting e = ended (Good-refl w s)
    by_state aborted e = ended (Good-refl w s)

answer-Good : {w : World} (s : Step) → Kept w s → Good w (answer s).1
answer-Good _ (ended g) = g
answer-Good {w} _ (going {u = u} {w' = w'} g e) =
    elim (state_is_completed u)
      as (λ b.
        Good w (if◌then◌else◌ {A = Response × World} b (accepted u.job_id, w') (http 409, w')).1) [
          | true ↦ g
          | false ↦ g
        ]

-- A call of `complete` is itself one of the other calls of any call: from a sound state, and
-- whatever fair calls do between its commits, it leaves the state sound (a job exists or is queued
-- only for a session that is ready or completed), its session goes only forward, with its owner,
-- file and size as they were, and the manifest stays once the session is no longer open. What the
-- storage, the queue and the sniffed bytes answer is arbitrary.
pub complete-IsFair :
    (now owner : ℕ) (others : Others) (r : Replies) (parts : List Part)
    → Fair others
    → IsFair (λ w. (complete now owner others r parts w).1)
unfolding complete
complete-IsFair now owner others r parts fair w s =
    let entered =
      bind-Kept (owned owner w) (enter now others r parts) (owned-Kept owner (Good-refl w s))
        (λ u w' g e. Kept-after g _ (enter-Kept now others r parts u w' fair g.sound e)) in
    let settled = bind-Kept _ (settle_if_completing now others r parts) entered (λ u w' g e.
      when-Kept (state_is_completing u)
        (λ c.
          Kept-after g _ (settle-Kept now others r parts u w' fair g.sound e (completing_of u c)))
        (going g e)) in
    answer-Good _ (
      bind-Kept _ (deliver_if_ready r) settled (λ u w' g e.
        when-Kept (state_is_ready u)
          (λ c. Kept-after g _ (deliver-Kept r u w' g.sound e (ready_of u c))) (going g e)))
