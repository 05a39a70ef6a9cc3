-- ===== src/Worker/EditChecks.antt =====
-- app/worker/validation.py and app/worker/operations.py: an edit against the file that it edits, up
-- to the filters of its command.
use media_player.Prelude.{
  ℕ, ◌+◌, Bool, true, false, not, ◌&&◌, ◌||◌, Option, none, some, List, ltb, ◌==◌, any,
  if◌then◌else◌,
}
use media_player.Prelude.Int.{ℤ, pos, ltb_ℤ, leb_ℤ}
use media_player.Edits.Operation.{Operation, OperationName, Value, int, name_of}
use media_player.Edits.Rules.{RuleError, Checked, ok, refused, Frame, Float, finite, not_finite}
use media_player.Edits.Checking.{same_name, check_edit_operations}
use media_player.Edits.Requests.{number}
use media_player.Edits.Filters.{FilterChain, Chain, made, filter_chain}
use media_player.Api.EditRoute.{operation}

-- What the probe of the file says, of what is read here.
pub record FileProbe : Type 0 where
  pub width : ℕ
  pub height : ℕ
  pub duration : Float

pub data FileError : Type 0 where
  not_finite_times start_negative end_not_after no_duration past_end : FileError
  not_pixels origin_negative empty_box no_dimensions outside : FileError
  rule : RuleError → FileError

pub data FileCheck : Type 0 where
  fine : FileCheck
  wrong : FileError → FileCheck

abbrev pub is_length : Float → Bool
is_length (finite d) = ltb_ℤ (pos 0) d
is_length not_finite = false

abbrev pub is_past : ℤ → Float → Bool
is_past t (finite d) = ltb_ℤ d t
is_past t not_finite = false

abbrev pub check_times : Option ℤ → Option ℤ → Float → FileCheck
check_times (some start) (some end) duration =
    if ltb_ℤ start (pos 0)
    then wrong start_negative
    else if leb_ℤ end start
    then wrong end_not_after
    else if not (is_length duration)
    then wrong no_duration
    else if is_past end duration
    then wrong past_end
    else fine
check_times _ _ duration = wrong not_finite_times

unfoldable pub validate_clip : Value → Value → FileProbe → FileCheck
validate_clip start end probe = check_times (number start) (number end) probe.duration

abbrev pub is_int : Value → Bool
is_int (int n) = true
is_int _ = false

abbrev pub is_below : Value → ℤ → Bool
is_below (int n) low = ltb_ℤ n low
is_below _ low = false

-- `x + w > size`, once neither is negative.
abbrev pub goes_past : Value → Value → ℕ → Bool
goes_past (int (pos x)) (int (pos w)) size = ltb size (x + w)
goes_past _ _ size = false

unfoldable pub validate_crop : Value → Value → Value → Value → FileProbe → FileCheck
validate_crop x y w h probe =
    if not (is_int x && is_int y && is_int w && is_int h)
    then wrong not_pixels
    else if is_below x (pos 0) || is_below y (pos 0)
    then wrong origin_negative
    else if is_below w (pos 1) || is_below h (pos 1)
    then wrong empty_box
    else if probe.width == 0 || probe.height == 0
    then wrong no_dimensions
    else if goes_past x w probe.width || goes_past y h probe.height
    then wrong outside
    else fine

abbrev pub check_clip : Option Operation → FileProbe → FileCheck
check_clip (some (Operation.clip start end)) probe = validate_clip start end probe
check_clip _ probe = fine

abbrev pub check_crop : Option Operation → FileProbe → FileCheck
check_crop (some (Operation.crop x y w h)) probe = validate_crop x y w h probe
check_crop _ probe = fine

abbrev pub check_rules : Checked Frame → FileCheck
check_rules (ok _) = fine
check_rules (refused e) = wrong (rule e)

abbrev pub and_then : FileCheck → FileCheck → FileCheck
and_then fine next = next
and_then (wrong e) next = wrong e

-- The checks of `EditProcessor.run`, in its order.
unfoldable pub check_file : List Operation → FileProbe → FileCheck
unfolding validate_clip validate_crop check_edit_operations operation
check_file ops probe = and_then (check_clip (operation OperationName.clip ops) probe) (
    and_then (check_crop (operation OperationName.crop ops) probe)
      (check_rules (check_edit_operations ops (some probe.height) (some probe.width))))

-- The filters of the command, an error shown to the user, or another exception: the probe's, or that
-- which is met while the filters are made.
pub data Prepared : Type 0 where
  ready : FilterChain → Prepared
  edit_refused : FileError → Prepared
  crashed : Prepared

abbrev pub with_chain : Chain → Prepared
with_chain (made c) = ready c
with_chain _ = crashed

abbrev pub is_probed : List Operation → Bool
is_probed ops = any (λ op. not (same_name (name_of op) OperationName.convert)) ops

abbrev pub prepare_checked : FileCheck → Chain → Prepared
prepare_checked fine chain = with_chain chain
prepare_checked (wrong e) chain = edit_refused e

-- `probe`: what the probe answers, if it does not raise.
unfoldable pub prepare : List Operation → Option FileProbe → Prepared
unfolding check_file filter_chain
prepare ops probe =
    if not (is_probed ops)
    then with_chain (filter_chain ops (record { width = none; height = none }))
    else elim probe [
      | none ↦ crashed
      | some f ↦
          prepare_checked (check_file ops f)
            (filter_chain ops (record { width = some f.width; height = some f.height }))
    ]
