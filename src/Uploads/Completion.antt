-- ===== src/Uploads/Completion.antt =====
-- app/api/multipart_uploads.py: `complete` and `abort`; app/services/upload_cleanup.py: one session.
use media_player.Prelude.{
  ℕ, Bool, true, false, not, Option, none, some, List, [], ◌∷◌, ◌++◌, ◌==◌, if◌then◌else◌, is_none,
}
use media_player.Jobs.Store.{ok, err, insert_row}
use media_player.Jobs.Writes.{new_row}
use media_player.Uploads.Session.{
  is_open, completing, ready, completed, aborting, aborted, Part, Upload, is_reserved,
}
use media_player.Uploads.Parts.{manifest_of, validate_parts}
use media_player.Uploads.Sniff.{sniff_video_type}
use media_player.Uploads.Routes.{
  World, Replies, Others, Response, accepted, no_content, http, Step, stop, go, ◌>=>◌, put, owned,
  active, has_storage, manifest_is, discard,
}

-- The row with the request's parts as its manifest.
abbrev pub frozen : List Part → Upload → Upload
frozen parts u = record u { manifest = some (manifest_of parts); state = completing }

-- `if upload.state == "open"`: the manifest is frozen, and the row is read again.
unfoldable pub freeze : ℕ → Others → Replies → List Part → Upload → World → Step
unfolding active owned
freeze now others r parts u w = elim (active now u) [
  | some code ↦ stop (http code) w
  | none ↦ if not (has_storage u) then stop (http 409) w else elim (r.parts) [
    | none ↦ stop (http 503) w
    | some actual ↦
        if validate_parts u (manifest_of parts) actual
        then owned u.owner_id (others.after_freeze (put (frozen parts u) w))
        else stop (http 422) w
  ]
]

-- The size of the object: the first answer of `head`, or the one after `complete`; `none` raised.
unfoldable pub head_of : Replies → Option (Option ℕ)
head_of r = elim (r.head) [
  | none ↦ none
  | some (some size) ↦ some (some size)
  | some none ↦ if r.complete then r.head_after else none
]

-- `create_upload_job`: the job and the state in one transaction.
unfoldable pub create_upload_job : ℕ → Upload → World → Option World
create_upload_job now u w =
    elim (insert_row (new_row now u.job_id u.owner_id u.filename u.source_key none u.max_fps)
      w.jobs) [
        | ok _ jobs ↦ some (record w { jobs = jobs; row = some (record u { state = ready }) })
        | err _ ↦ none
      ]

abbrev pub stopped : Response × World → Step
stopped p = stop p.0 p.1

-- `if upload.state == "completing"`: the object is looked at, and the job is made.
unfoldable pub settle : ℕ → Others → Replies → List Part → Upload → World → Step
unfolding head_of create_upload_job owned discard
settle now others r parts u w =
    if not (manifest_is (manifest_of parts) u.manifest)
    then stop (http 409) w
    else elim (head_of r) [
      | none ↦ stop (http 503) w
      | some none ↦ stop (http 503) w
      | some (some size) ↦
          if not (size == u.size)
          then stopped (discard others r u w (http 422))
          else elim (r.sniff) [
            | none ↦ stop (http 503) w
            | some bytes ↦
                if is_none (sniff_video_type bytes)
                then stopped (discard others r u w (http 415))
                else elim (create_upload_job now u w) [
                  | none ↦ stop (http 503) w
                  | some w' ↦ owned u.owner_id (others.after_create w')
                ]
          ]
    ]

-- `if upload.state == "ready"`: the job is enqueued. A queue that raises leaves the row as it is.
unfoldable pub deliver : Replies → Upload → World → Step
deliver r u w =
    if r.enqueue
    then go (record u { state = completed })
        (record w {
          row = some (record u { state = completed });
          queue = w.queue ++ (u.job_id ∷ []);
        })
    else stop (http 503) w

abbrev pub state_is_completing : Upload → Bool
state_is_completing u = elim (u.state) [
  | is_open ↦ false
  | completing ↦ true
  | ready ↦ false
  | completed ↦ false
  | aborting ↦ false
  | aborted ↦ false
]

abbrev pub state_is_ready : Upload → Bool
state_is_ready u = elim (u.state) [
  | is_open ↦ false
  | completing ↦ false
  | ready ↦ true
  | completed ↦ false
  | aborting ↦ false
  | aborted ↦ false
]

abbrev pub state_is_completed : Upload → Bool
state_is_completed u = elim (u.state) [
  | is_open ↦ false
  | completing ↦ false
  | ready ↦ false
  | completed ↦ true
  | aborting ↦ false
  | aborted ↦ false
]

abbrev pub settle_if_completing : ℕ → Others → Replies → List Part → Upload → World → Step
settle_if_completing now others r parts u w =
    if state_is_completing u then settle now others r parts u w else go u w

abbrev pub deliver_if_ready : Replies → Upload → World → Step
deliver_if_ready r u w = if state_is_ready u then deliver r u w else go u w

-- The first branches of `complete`, by the state that the row has.
unfoldable pub enter : ℕ → Others → Replies → List Part → Upload → World → Step
enter now others r parts u w = elim (u.state) [
  | is_open ↦ freeze now others r parts u w
  | completing ↦ go u w
  | ready ↦ go u w
  | completed ↦ stop (accepted u.job_id) w
  | aborting ↦ stop (http 409) w
  | aborted ↦ stop (http 409) w
]

-- The last test of `complete`.
abbrev pub answer : Step → Response × World
answer (stop r w) = (r, w)
answer (go u w) = if state_is_completed u then (accepted u.job_id, w) else (http 409, w)

unfoldable pub complete : ℕ → ℕ → Others → Replies → List Part → World → Response × World
unfolding enter settle deliver owned
complete now owner others r parts w = answer (
    owned owner w
    >=> enter now others r parts
    >=> settle_if_completing now others r parts
    >=> deliver_if_ready r)

abbrev pub abort_row : Others → Replies → Upload → World → Response × World
abort_row others r u w = elim (u.state) [
  | is_open ↦ discard others r u w no_content
  | completing ↦ (http 409, w)
  | ready ↦ (http 409, w)
  | completed ↦ (http 409, w)
  | aborting ↦ discard others r u w no_content
  | aborted ↦ (no_content, w)
]

unfoldable pub abort : ℕ → Others → Replies → World → Response × World
unfolding owned discard
abort owner others r w = elim (owned owner w) [
  | stop answer w' ↦ (answer, w')
  | go u w' ↦ abort_row others r u w'
]

-- `cleanup_expired`, for a candidate that was seen expired; `owner` is the one that was read with it.
unfoldable pub cleanup : ℕ → Replies → World → World
unfolding owned
cleanup owner r w = elim (owned owner w) [
  | stop _ w' ↦ w'
  | go u w' ↦
      if is_reserved u.state
      then if r.abort then put (record u { state = aborted }) w' else w'
      else w'
]
