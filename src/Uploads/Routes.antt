-- ===== src/Uploads/Routes.antt =====
-- app/api/multipart_uploads.py: the routes on one session, as the steps between their commits.
-- A call that raises for another reason than an HTTP error is answered with 503 and its
-- transaction is rolled back. What the storage and the queue answer is given by `Replies`.
use media_player.Prelude.{
  ℕ, Bool, true, false, not, ◌&&◌, Option, none, some, List, [], ◌∷◌, leb, ◌==◌, if◌then◌else◌, any,
}
use media_player.Prelude.Text.{text_eq, null}
use media_player.Jobs.Store.{Table}
use media_player.Uploads.Session.{
  is_open, completing, ready, completed, aborting, aborted, Part, StoredPart, Upload,
}

-- The database seen by the calls on one session, and the queue: the users, the row of the session,
-- the jobs, the ids that were enqueued.
pub record World : Type 0 where
  pub users : List ℕ
  pub row : Option Upload
  pub jobs : Table
  pub queue : List ℕ

-- `none` is a call that raised. `head` is asked twice at most, `sniff` gives the first bytes.
pub record Replies : Type 0 where
  pub parts : Option (List StoredPart)
  pub head : Option (Option ℕ)
  pub complete : Bool
  pub head_after : Option (Option ℕ)
  pub sniff : Option (List ℕ)
  pub abort : Bool
  pub enqueue : Bool

-- What other calls do to the world while this one holds no lock: between its commits.
pub record Others : Type 0 where
  pub after_freeze : World → World
  pub after_mark : World → World
  pub after_create : World → World

pub data Response : Type 0 where
  accepted : ℕ → Response
  no_content : Response
  http : ℕ → Response

-- A call that ended, or one that goes on with the row it holds.
pub data Step : Type 0 where
  stop : Response → World → Step
  go : Upload → World → Step

infixl 5 ◌>=>◌
abbrev pub ◌>=>◌ : Step → (Upload → World → Step) → Step
stop r w >=> f = stop r w
go u w >=> f = f u w

abbrev pub put : Upload → World → World
put u w = record w { row = some u }

-- `owned`: `get_upload` after `lock_owner`, or 404.
unfoldable pub owned : ℕ → World → Step
owned owner w =
    if any (λ k. k == owner) w.users
    then elim (w.row) [
      | none ↦ stop (http 404) w
      | some u ↦ if u.owner_id == owner then go u w else stop (http 404) w
    ]
    else stop (http 404) w

-- A step `none`: `active` lets the call pass.
unfoldable pub active : ℕ → Upload → Option ℕ
active now u = if leb u.expires_at now then some 410 else elim (u.state) [
  | is_open ↦ none
  | completing ↦ some 409
  | ready ↦ some 409
  | completed ↦ some 409
  | aborting ↦ some 409
  | aborted ↦ some 409
]

abbrev pub has_storage : Upload → Bool
has_storage u = elim (u.storage_id) [ none ↦ false | some s ↦ not (null s) ]

unfoldable pub same_parts : List Part → List Part → Bool
same_parts [] [] = true
same_parts (p ∷ ps) (q ∷ qs) =
    let rest = same_parts ps qs in (p.n == q.n && text_eq p.etag q.etag) && rest
same_parts _ _ = false

abbrev pub manifest_is : List Part → Option (List Part) → Bool
manifest_is parts none = false
manifest_is parts (some m) = same_parts m parts

-- `discard`: the intent, the abort, the end.
unfoldable pub discard : Others → Replies → Upload → World → Response → Response × World
unfolding owned
discard others replies u w answer =
    elim (owned u.owner_id (others.after_mark (put (record u { state = aborting }) w))) [
      | stop r w' ↦ (r, w')
      | go u' w' ↦
          if replies.abort then (answer, put (record u' { state = aborted }) w') else (http 503, w')
    ]
