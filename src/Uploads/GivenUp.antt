-- ===== src/Uploads/GivenUp.antt =====
-- Giving a session up (`discard`, `abort` and `cleanup_expired`) keeps what Forward states.
use media_player.Prelude.{ℕ, ◌≡◌, refl, subst, ap, Bool, true, false, some, arith, if◌then◌else◌}
use media_player.Uploads.Session.{
  UploadState, is_open, completing, ready, completed, aborting, aborted, Upload, is_reserved,
}
use media_player.Uploads.Routes.{
  World, Others, Replies, Response, http, no_content, Step, stop, go, put, owned, discard,
}
use media_player.Uploads.Completion.{abort, cleanup, answer, abort_row}
use media_player.Uploads.Forward.{
  leads, is_created, IsSound, Good, IsFair, Fair, Good-trans, Good-refl,
}
use media_player.Uploads.Kept.{Kept, ended, going, owned-Kept, put-Good, Onward-state, Good-Onward}

-- The states from which a session can be given up.
abbrev pub is_abortable : UploadState → Bool
is_abortable s = leads s aborting

abortable_not_created :
    (s : UploadState) → leads s aborting ≡ true → is_created s ≡ true → is_created aborting ≡ true
abortable_not_created s l c = ground arith

ends : (s : UploadState) → leads aborting s ≡ true → leads s aborted ≡ true
ends s l = ground arith

given_up :
    (s : UploadState) → leads aborting s ≡ true → is_created s ≡ true → is_created aborted ≡ true
given_up s l c = ground arith

pub discard-Good :
    (others : Others) (r : Replies) (u : Upload) (w : World) (response : Response)
    → Fair others
    → IsSound w
    → w.row ≡ some u
    → is_abortable u.state ≡ true
    → Good w (discard others r u w response).1
unfolding discard
discard-Good others r u w response fair s row l =
    finish (owned u.owner_id (others.after_mark (put (record u { state = aborting }) w)))
      (owned-Kept u.owner_id (fair.after_mark (put (record u { state = aborting }) w) marked.sound))
  where
    marked : Good w (put (record u { state = aborting }) w)
    marked =
        put-Good u (record u { state = aborting }) s row (Onward-state u aborting l)
          (λ c. abortable_not_created u.state l c)

    finish :
        (t : Step)
        → Kept (put (record u { state = aborting }) w) t
        → Good w
            (elim t as (λ _. Response × World) [
              | stop r' w' ↦ (r', w')
              | go u' w' ↦
                  if r.abort
                  then (response, put (record u' { state = aborted }) w')
                  else (http 503, w')
            ]).1
    finish _ (ended g) = Good-trans marked g
    finish _ (going {u = u'} {w' = w'} g e) =
        let o = Good-Onward g refl e in
        let done =
          put-Good u' (record u' { state = aborted }) g.sound e
            (Onward-state u' aborted (ends u'.state o.forward)) (given_up u'.state o.forward) in
        elim r.abort
          as (λ b.
            Good w
              (if◌then◌else◌ {A = Response × World} b
                (response, put (record u' { state = aborted }) w') (http 503, w')).1) [
                  | true ↦ Good-trans marked (Good-trans g done)
                  | false ↦ Good-trans marked g
                ]

-- `abort`, whatever the other calls do meanwhile.
pub abort-Good :
    (owner : ℕ) (others : Others) (r : Replies) (w : World)
    → Fair others
    → IsSound w
    → Good w (abort owner others r w).1
unfolding abort
abort-Good owner others r w fair s = finish (owned owner w) (owned-Kept owner (Good-refl w s))
  where
    from :
        (u : Upload) (w' : World) (st : UploadState)
        → u.state ≡ st
        → Good w w'
        → w'.row ≡ some u
        → Good w
            (elim st as (λ _. Response × World) [
              | is_open ↦ discard others r u w' no_content
              | completing ↦ (http 409, w')
              | ready ↦ (http 409, w')
              | completed ↦ (http 409, w')
              | aborting ↦ discard others r u w' no_content
              | aborted ↦ (no_content, w')
            ]).1
    from u w' is_open eq g e =
        Good-trans g (discard-Good others r u w' no_content fair g.sound e (ap is_abortable eq))
    from u w' aborting eq g e =
        Good-trans g (discard-Good others r u w' no_content fair g.sound e (ap is_abortable eq))
    from u w' completing eq g e = g
    from u w' ready eq g e = g
    from u w' completed eq g e = g
    from u w' aborted eq g e = g

    finish :
        (t : Step)
        → Kept w t
        → Good w
            (elim t as (λ _. Response × World) [
              | stop answer w' ↦ (answer, w')
              | go u w' ↦ abort_row others r u w'
            ]).1
    finish _ (ended g) = g
    finish _ (going {u = u} {w' = w'} g e) = from u w' u.state refl g e

-- One expired session of `cleanup_expired`.
pub cleanup-Good : (owner : ℕ) (r : Replies) (w : World) → IsSound w → Good w (cleanup owner r w)
unfolding cleanup is_reserved
cleanup-Good owner r w s = finish (owned owner w) (owned-Kept owner (Good-refl w s))
  where
    from :
        (u : Upload) (w' : World) (st : UploadState) (b : Bool)
        → u.state ≡ st
        → Good w w'
        → w'.row ≡ some u
        → Good w
            (if is_reserved st then if b then put (record u { state = aborted }) w' else w' else w')
    from u w' is_open b eq g e =
        elim b as (λ c. Good w (if c then put (record u { state = aborted }) w' else w')) [
          | true ↦ Good-trans g (
              put-Good u (record u { state = aborted }) g.sound e
                (Onward-state u aborted (ap (λ x. leads x aborted) eq))
                (λ c. subst (λ x. is_created x ≡ true) eq c))
          | false ↦ g
        ]
    from u w' completing b eq g e =
        elim b as (λ c. Good w (if c then put (record u { state = aborted }) w' else w')) [
          | true ↦ Good-trans g (
              put-Good u (record u { state = aborted }) g.sound e
                (Onward-state u aborted (ap (λ x. leads x aborted) eq))
                (λ c. subst (λ x. is_created x ≡ true) eq c))
          | false ↦ g
        ]
    from u w' aborting b eq g e =
        elim b as (λ c. Good w (if c then put (record u { state = aborted }) w' else w')) [
          | true ↦ Good-trans g (
              put-Good u (record u { state = aborted }) g.sound e
                (Onward-state u aborted (ap (λ x. leads x aborted) eq))
                (λ c. subst (λ x. is_created x ≡ true) eq c))
          | false ↦ g
        ]
    from u w' ready b eq g e = g
    from u w' completed b eq g e = g
    from u w' aborted b eq g e = g

    finish :
        (t : Step)
        → Kept w t
        → Good w (elim t as (λ _. World) [
          | stop _ w' ↦ w'
          | go u w' ↦
              if is_reserved u.state
              then if r.abort then put (record u { state = aborted }) w' else w'
              else w'
        ])
    finish _ (ended g) = g
    finish _ (going {u = u} {w' = w'} g e) = from u w' u.state r.abort refl g e

-- A call of `abort`, and the clean-up of one session, are fair other calls of any call: from a
-- sound state they leave a sound one, and the session goes only forward, with its owner, file and
-- size as they were; so a session of which a job was made is never given up. `abort` allows fair
-- calls between its commits; what the storage answers is arbitrary.
pub giving_up-IsFair :
    (owner : ℕ) (others : Others) (r : Replies)
    → Fair others
    → IsFair (λ w. (abort owner others r w).1) × IsFair (cleanup owner r)
giving_up-IsFair owner others r fair =
    (λ w s. abort-Good owner others r w fair s, λ w s. cleanup-Good owner r w s)
