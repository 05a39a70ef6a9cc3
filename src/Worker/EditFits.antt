-- ===== src/Worker/EditFits.antt =====
-- app/worker/validation.py: what is left to refuse of a request that the schema took.
use media_player.Prelude.{
  ℕ, ◌+◌, ◌≡◌, refl, sym, subst, Bool, true, false, not, ◌&&◌, Option, none, some, List, [], ◌∷◌,
  arith, leb, all, Bool-cases, inl, inr, ==_iff,
}
use media_player.Prelude.Int.{ℤ, pos, negsuc, leb_ℤ, ltb_ℤ}
use media_player.Edits.Operation.{Operation, OperationName, Value, int, name_of, Format}
use media_player.Edits.Rules.{
  RuleError, Checked, ok, refused, Frame, check, Float, finite, not_finite,
}
use media_player.Edits.Checking.{index, same_name, ordered, check_edit_operations}
use media_player.Edits.Requests.{is_edit_request, is_clip, valid_params, number, each_once}
use media_player.Edits.Filters.{made, filter_chain}
use media_player.Edits.Chains.{collect, no_filters, accepted_request}
use media_player.Api.EditRoute.{operation}
use media_player.Worker.EditChecks.{
  FileProbe, FileError, rule, FileCheck, fine, wrong, validate_clip, validate_crop, check_times,
  check_clip, check_crop, check_rules, check_file, and_then, with_chain, Prepared, ready,
  edit_refused, crashed, is_probed, prepare_checked, prepare,
}

-- The clip ends within the video.
abbrev pub ends_within : Option ℤ → Float → Bool
ends_within (some t) (finite d) = leb_ℤ t d
ends_within _ _ = false

abbrev pub clip_fits : Option Operation → FileProbe → Bool
clip_fits (some (Operation.clip start end)) f = ends_within (number end) f.duration
clip_fits _ f = true

-- The box lies within the picture, along one side.
abbrev pub within : Value → Value → ℕ → Bool
within (int (pos x)) (int (pos w)) size = leb (x + w) size
within _ _ size = false

abbrev pub crop_fits : Option Operation → FileProbe → Bool
crop_fits (some (Operation.crop x y w h)) f = within x w f.width && within y h f.height
crop_fits _ f = true

data Judged : Bool → FileCheck → Type 0 where
  passes : Judged true fine
  fails : (e : FileError) → Judged false (wrong e)

abbrev is_error : FileCheck → Bool
is_error fine = false
is_error (wrong e) = true

judged : (b : Bool) (c : FileCheck) → is_error c ≡ not b → Judged b c
judged true fine h = passes
judged true (wrong e) h = ground (arith, h)
judged false fine h = ground (arith, h)
judged false (wrong e) h = fails e

times-Judged :
    (start end : ℤ) (duration : Float)
    → (leb_ℤ (pos 0) start && ltb_ℤ start end) ≡ true
    → is_error (check_times (some start) (some end) duration)
      ≡ not (ends_within (some end) duration)
times-Judged (negsuc s) end duration h = ground (arith, h)
times-Judged (pos s) (negsuc e) duration h = ground (arith, h)
times-Judged (pos s) (pos e) not_finite h = ground (arith, h)
times-Judged (pos s) (pos e) (finite (negsuc d)) h = ground (arith, h)
times-Judged (pos s) (pos e) (finite (pos d)) h = ground (arith, h)

abbrev valid_option : Option Operation → Bool
valid_option none = true
valid_option (some op) = valid_params op

crop-Judged :
    (x y w h : ℤ) (f : FileProbe)
    → valid_params (Operation.crop (int x) (int y) (int w) (int h)) ≡ true
    → is_error (validate_crop (int x) (int y) (int w) (int h) f)
      ≡ not (crop_fits (some (Operation.crop (int x) (int y) (int w) (int h))) f)
unfolding validate_crop valid_params
crop-Judged (pos x) (pos y) (pos w) (pos h) f v = ground (arith, v)
crop-Judged (negsuc x) y w h f v = ground (arith, v)
crop-Judged (pos x) (negsuc y) w h f v = ground (arith, v)
crop-Judged (pos x) (pos y) (negsuc w) h f v = ground (arith, v)
crop-Judged (pos x) (pos y) (pos w) (negsuc h) f v = ground (arith, v)

operation-valid :
    (n : OperationName) (ops : List Operation)
    → all valid_params ops ≡ true
    → valid_option (operation n ops) ≡ true
unfolding operation
operation-valid n [] h = refl
operation-valid n (op ∷ ops) h = ground (arith, h, operation-valid n ops)

request-valid : (ops : List Operation) → is_edit_request ops ≡ true → all valid_params ops ≡ true
unfolding is_edit_request
request-valid ops v = ground (arith, v)

request-once : (ops : List Operation) → is_edit_request ops ≡ true → each_once ops ≡ true
unfolding is_edit_request
request-once ops v = ground (arith, v)

twice :
    (op op2 : Operation) (ops : List Operation)
    → same_name (name_of op) OperationName.convert ≡ true
    → same_name (name_of op2) OperationName.convert ≡ true
    → each_once (op ∷ op2 ∷ ops) ≡ false
twice op op2 ops a b =
    let e = (==_iff (index (name_of op)) 9).0 a in
    let e2 = (==_iff (index (name_of op2)) 9).0 b in ground (arith, e, e2)

probed_not :
    (op : Operation) (ops : List Operation)
    → is_probed (op ∷ ops) ≡ false
    → (same_name (name_of op) OperationName.convert ≡ true) × (is_probed ops ≡ false)
probed_not op ops h = ground (arith, h)

convert_only :
    (ops : List Operation)
    → is_edit_request ops ≡ true
    → is_probed ops ≡ false
    → check_edit_operations ops none none ≡ ok (record { width = none; height = none })
unfolding is_edit_request check_edit_operations name_of check
convert_only [] v h = ground (arith, v)
convert_only (Operation.convert Format.mkv ∷ []) v h = refl
convert_only (Operation.convert Format.mp3 ∷ []) v h = refl
convert_only (op ∷ op2 ∷ ops) v h = ground (
  arith,
  request-once (op ∷ op2 ∷ ops) v,
  twice op op2 ops (probed_not op (op2 ∷ ops) h).0
      (probed_not op2 ops (probed_not op (op2 ∷ ops) h).1).0,
)
convert_only (op ∷ []) v h = ground (arith, h)

-- How the preparation of a request that the schema took may end.
pub data Prepares (ops : List Operation) (probe : Option FileProbe) : Prepared → Type 0 where
  format_only :
      is_probed ops ≡ false → Prepares ops probe (ready (collect no_filters (ordered ops)))
  unread : is_probed ops ≡ true → probe ≡ none → Prepares ops probe crashed
  clip_refused :
      (f : FileProbe) (e : FileError)
      → probe ≡ some f
      → clip_fits (operation OperationName.clip ops) f ≡ false
      → Prepares ops probe (edit_refused e)
  crop_refused :
      (f : FileProbe) (e : FileError)
      → probe ≡ some f
      → crop_fits (operation OperationName.crop ops) f ≡ false
      → Prepares ops probe (edit_refused e)
  rule_refused :
      (f : FileProbe) (e : RuleError)
      → probe ≡ some f
      → check_edit_operations ops (some f.height) (some f.width) ≡ refused e
      → Prepares ops probe (edit_refused (rule e))
  taken :
      (f : FileProbe) (g : Frame)
      → probe ≡ some f
      → clip_fits (operation OperationName.clip ops) f ≡ true
      → crop_fits (operation OperationName.crop ops) f ≡ true
      → check_edit_operations ops (some f.height) (some f.width) ≡ ok g
      → Prepares ops probe (ready (collect no_filters (ordered ops)))

times_check :
    (start end : Option ℤ) (duration : Float)
    → is_clip start end ≡ true
    → Judged (ends_within end duration) (check_times start end duration)
times_check (some start) (some end) duration v =
    judged (ends_within (some end) duration) (check_times (some start) (some end) duration)
      (times-Judged start end duration v)
times_check (some start) none duration v = ground (arith, v)
times_check none end duration v = ground (arith, v)

clip_check :
    (o : Option Operation) (f : FileProbe)
    → valid_option o ≡ true
    → Judged (clip_fits o f) (check_clip o f)
unfolding validate_clip valid_params
clip_check (some (Operation.clip start end)) f v =
    times_check (number start) (number end) f.duration v
clip_check none f v = passes
clip_check (some _) f v = passes

crop_check :
    (o : Option Operation) (f : FileProbe)
    → valid_option o ≡ true
    → Judged (crop_fits o f) (check_crop o f)
unfolding valid_params
crop_check (some (Operation.crop (int x) (int y) (int w) (int h))) f v =
    judged (crop_fits (some (Operation.crop (int x) (int y) (int w) (int h))) f)
      (validate_crop (int x) (int y) (int w) (int h) f) (crop-Judged x y w h f v)
crop_check (some (Operation.crop x y w h)) f v = ground (arith, v)
crop_check none f v = passes
crop_check (some _) f v = passes

chain_made :
    (ops : List Operation) (h w : Option ℕ) (g : Frame)
    → all valid_params ops ≡ true
    → check_edit_operations ops h w ≡ ok g
    → filter_chain ops (record { width = w; height = h }) ≡ made (collect no_filters (ordered ops))
chain_made ops h w g v a = (accepted_request ops h w g v a).0

module _ (ops : List Operation) (f : FileProbe) (v : is_edit_request ops ≡ true) where
  -- The checks, one after the other, on a file that was probed.
  judge :
      (cb db : Bool) (c d : FileCheck) (r : Checked Frame)
      → Judged cb c
      → Judged db d
      → clip_fits (operation OperationName.clip ops) f ≡ cb
      → crop_fits (operation OperationName.crop ops) f ≡ db
      → check_edit_operations ops (some f.height) (some f.width) ≡ r
      → Prepares ops (some f) (
          prepare_checked
            (and_then c (and_then d (check_rules r)))
            (filter_chain ops (record { width = some f.width; height = some f.height })))
  judge _ _ _ _ (ok g) passes passes a b e =
      subst (λ x. Prepares ops (some f) (with_chain x))
        (sym (chain_made ops (some f.height) (some f.width) g (request-valid ops v) e))
        (taken f g refl a b e)
  judge _ _ _ _ (refused x) passes passes a b e = rule_refused f x refl e
  judge _ _ _ _ r (fails x) d a b e = clip_refused f x refl a
  judge _ _ _ _ r passes (fails x) a b e = crop_refused f x refl b

probed-Prepares :
    (ops : List Operation) (probe : Option FileProbe)
    → is_edit_request ops ≡ true
    → is_probed ops ≡ true
    → Prepares ops probe (prepare ops probe)
unfolding prepare check_file
probed-Prepares ops none v h = subst (λ x. Prepares ops none x) (ground (arith, h)) (unread h refl)
probed-Prepares ops (some f) v h =
    let clip = operation OperationName.clip ops in
    let crop = operation OperationName.crop ops in
    let valid = request-valid ops v in
    subst (λ x. Prepares ops (some f) x) (ground (arith, h))
      (judge ops f v (clip_fits clip f) (crop_fits crop f) (check_clip clip f) (check_crop crop f)
        (check_edit_operations ops (some f.height) (some f.width))
        (clip_check clip f (operation-valid OperationName.clip ops valid))
        (crop_check crop f (operation-valid OperationName.crop ops valid)) refl refl refl)

-- For a request that the schema took, whatever the file: the preparation crashes only if the probe
-- does, the filters never meet a rule that refuses, and the user is shown an error only if the clip
-- ends after the video, the crop leaves its picture, or a rule refuses the request for its size; if
-- none of these holds, or the request only changes the format, the chain is that of the operations in
-- the fixed order.
pub prepare-Prepares :
    (ops : List Operation) (probe : Option FileProbe)
    → is_edit_request ops ≡ true
    → Prepares ops probe (prepare ops probe)
unfolding prepare check_file
prepare-Prepares ops probe v = elim (Bool-cases (is_probed ops)) [
  | inr unprobed ↦
      subst (λ x. Prepares ops probe x)
        (ground (
          arith,
          unprobed,
          chain_made ops none none (record { width = none; height = none }) (request-valid ops v)
              (convert_only ops v unprobed),
        ))
        (format_only unprobed)
  | inl probed ↦ probed-Prepares ops probe v probed
]
