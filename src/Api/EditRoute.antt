-- ===== src/Api/EditRoute.antt =====
-- app/api/jobs.py: `POST /jobs/{job_id}/edit`. The queue's answer is an argument, and so is what
-- other calls do between the commit of the new row and the end of the call.
use media_player.Prelude.{
  ℕ, Bool, false, not, ◌||◌, Option, none, some, List, [], ◌∷◌, ◌++◌, ◌==◌, if◌then◌else◌, is_none,
}
use media_player.Prelude.Text.{Text, codes, null, text_eq}
use media_player.Edits.Operation.{Operation, OperationName, mkv, mp3, name_of}
use media_player.Edits.Rules.{ok, refused}
use media_player.Edits.Checking.{same_name, check_edit_operations}
use media_player.Jobs.Row.{Job, is_done}
use media_player.Jobs.Store.{Table, ok, err}
use media_player.Jobs.Queries.{get_job}
use media_player.Jobs.Writes.{create_edit_job, delete_job}
use media_player.Api.Shown.{
  Settings, has, edit_base, editable_height_of, root_of, Reply, answered, http, crashed,
}

-- The table, and the ids on the queue.
pub record State : Type 0 where
  pub jobs : Table
  pub queue : List ℕ

-- `enqueue_job`: whether Redis has the message, and whether the call raised. It may do both.
pub record Delivery : Type 0 where
  pub delivered : Bool
  pub raised : Bool

abbrev pub enqueued : Delivery → ℕ → State → State
enqueued d i w = if d.delivered then record w { queue = w.queue ++ (i ∷ []) } else w

pub record EditCall : Type 0 where
  pub job_id : ℕ
  pub owner : ℕ
  pub new_job_id : ℕ
  pub now : ℕ
  pub operations : List Operation
  pub enqueue : Delivery
  pub others : State → State

-- `PurePosixPath(path).name`: the last component that is not empty or `.`
abbrev pub component : Text → Text → Text
component part best = if null part || text_eq part (codes ".") then best else part

unfoldable pub path_name : Text → Text → Text → Text
path_name part best [] = component part best
path_name part best (c ∷ t) =
    if c == 47 then path_name [] (component part best) t else path_name (part ++ (c ∷ [])) best t

-- The text before the last dot, and the text after it.
unfoldable pub last_dot : Text → Option (Text × Text)
last_dot [] = none
last_dot (c ∷ t) = elim (last_dot t) [
  | some (before, after) ↦ some (c ∷ before, after)
  | none ↦ if c == 46 then some ([], t) else none
]

-- `PurePosixPath(path).stem`: a dot at either end of the name is no suffix.
unfoldable pub stem : Text → Text
unfolding path_name last_dot
stem path =
    let name = path_name [] [] path in
    elim (last_dot name) [
      | none ↦ name
      | some (before, after) ↦ if null before || null after then name else before
    ]

-- `f"{stem}-edited.{extension}"`
abbrev pub extension : Option Operation → Text
extension (some (Operation.convert mkv)) = codes "mkv"
extension (some (Operation.convert mp3)) = codes "mp3"
extension _ = codes "mp4"

-- `EditRequest.operation`: the first of the name.
unfoldable pub operation : OperationName → List Operation → Option Operation
operation n [] = none
operation n (op ∷ ops) = if same_name (name_of op) n then some op else operation n ops

unfoldable pub edited_name : Text → List Operation → Text
unfolding stem operation
edited_name filename operations =
    let base = stem filename in
    (if null base then codes "edited-video" else base)
    ++ codes "-edited."
    ++ extension (operation OperationName.convert operations)

-- The file that the edit starts from; NULL is refused by the column.
abbrev pub edit_file : Job → Option Text
edit_file base = if is_none base.operations then some base.source_key else base.output_key

-- From the enqueueing on, with the row committed.
unfoldable pub queue_edit : EditCall → Job → State → Reply ℕ × State
queue_edit c created w =
    let w' = c.others (enqueued c.enqueue created.id w) in
    if c.enqueue.raised
    then elim (delete_job created.id (some c.owner) w'.jobs) [
      | ok _ jobs ↦ (http 503, record w' { jobs = jobs })
      | err _ ↦ (crashed, w')
    ]
    else (answered created.id, w')

-- `create_edit_job` and what follows.
unfoldable pub make_edit : EditCall → Job → Job → Text → State → Reply ℕ × State
unfolding queue_edit
make_edit c source base key w =
    elim (create_edit_job c.now c.new_job_id c.owner (edited_name source.filename c.operations) key
      c.operations base.max_fps w.jobs) [
        | err _ ↦ (crashed, w)
        | ok created jobs ↦ queue_edit c created (record w { jobs = jobs })
      ]

unfoldable pub edit_job_by_id : Settings → EditCall → State → Reply ℕ × State
unfolding make_edit
edit_job_by_id s c w = elim (get_job c.job_id (some c.owner) false w.jobs) [
  | none ↦ (http 404, w)
  | some source ↦
      if not (is_done source.status) || not (has source.output_key)
      then (http 409, w)
      else elim (root_of w.jobs source) [
        | none ↦ (crashed, w)
        | some root ↦
            let base = edit_base source root in
            elim (check_edit_operations c.operations (editable_height_of s base) base.width) [
              | refused _ ↦ (http 422, w)
              | ok _ ↦ elim (edit_file base) [
                | none ↦ (crashed, w)
                | some key ↦ make_edit c source base key w
              ]
            ]
      ]
]
