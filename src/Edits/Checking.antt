-- ===== src/Edits/Checking.antt =====
-- app/services/media_rules.py: `check_edit_operations`, the rules run over one request.
use media_player.Prelude.{
  ℕ, Bool, true, false, not, ◌&&◌, Option, none, some, List, [], ◌∷◌, ◌++◌, ◌==◌, if◌then◌else◌,
  any,
}
use media_player.Prelude.Text.{null}
use media_player.Edits.Operation.{Operation, OperationName, mp3, name_of}
use media_player.Edits.Rules.{
  Label, Checked, ok, refused, ◌>>=◌, not_with_mp3, Frame, operation_order, check, changes_picture,
  label,
}

-- The place of a name in `OPERATION_ORDER`.
abbrev pub index : OperationName → ℕ
index OperationName.clip = 0
index OperationName.crop = 1
index OperationName.rotate = 2
index OperationName.flip = 3
index OperationName.downscale = 4
index OperationName.upscale = 5
index OperationName.adjust = 6
index OperationName.preset = 7
index OperationName.speed = 8
index OperationName.convert = 9

abbrev pub same_name : OperationName → OperationName → Bool
same_name a b = index a == index b

-- `{name: params for name, params in operations}.get(name)`: the last of a name counts.
unfoldable pub named : List Operation → OperationName → Option Operation
named [] n = none
named (op ∷ ops) n = elim (named ops n) [
  | some x ↦ some x
  | none ↦ if same_name (name_of op) n then some op else none
]

-- The operations of the request in the order in which the worker applies them.
abbrev pub in_order : (OperationName → Option Operation) → List OperationName → List Operation
in_order find [] = []
in_order find (n ∷ ns) =
    let rest = in_order find ns in elim (find n) [ none ↦ rest | some op ↦ op ∷ rest ]

-- `ordered(named)`, with the parameters.
unfoldable pub ordered : List Operation → List Operation
ordered operations = in_order (named operations) operation_order

abbrev pub same_label : Label → Label → Bool
same_label Label.rotate Label.rotate = true
same_label Label.flip Label.flip = true
same_label Label.speed Label.speed = true
same_label Label.clip Label.clip = true
same_label Label.crop Label.crop = true
same_label Label.scale Label.scale = true
same_label Label.colour Label.colour = true
same_label Label.preset Label.preset = true
same_label Label.convert Label.convert = true
same_label _ _ = false

-- The labels that MP3 cannot take, each once.
unfoldable pub picture_labels : List Label → List Operation → List Label
picture_labels labels [] = labels
picture_labels labels (op ∷ ops) =
    let n = name_of op in
    picture_labels
      (if changes_picture n && not (any (same_label (label n)) labels)
        then labels ++ (label n ∷ [])
        else labels)
      ops

abbrev pub is_mp3 : Option Operation → Bool
is_mp3 (some (Operation.convert mp3)) = true
is_mp3 _ = false

-- The last loop: each operation against the frame that the ones before it leave.
unfoldable pub check_all : List Operation → Frame → Checked Frame
check_all [] frame = ok frame
check_all (op ∷ ops) frame = check op frame >>= check_all ops

-- The frame that `ok` carries is the one after the last operation; the source drops it.
unfoldable pub check_edit_operations : List Operation → Option ℕ → Option ℕ → Checked Frame
unfolding ordered named check_all picture_labels
check_edit_operations operations input_height input_width =
    let ops = ordered operations in
    let labels = picture_labels [] ops in
    if is_mp3 (named operations OperationName.convert) && not (null labels)
    then refused (not_with_mp3 labels)
    else check_all ops (record { width = input_width; height = input_height })
