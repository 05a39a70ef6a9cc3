-- ===== src/Worker/Leaving.antt =====
-- Where a processing task leaves its row, and how it ends when its step raised.
use media_player.Prelude.{
  ℕ, ◌+◌, ◌≡◌, ap, Bool, true, false, not, ◌&&◌, Option, none, some, arith, if◌then◌else◌, ltb,
  Bool-cases, inl, inr,
}
use media_player.Prelude.Text.{Text, is_blank, strip, is_space, is_blank-eq-all}
use media_player.Jobs.Row.{Job, JobStatus, queued, processing, is_processing, check_constraints}
use media_player.Jobs.Store.{
  Table, find, replace, update_row, value_error, integrity_error, Result, ok,
}
use media_player.Jobs.StoreLaws.{find-id, find-replace_self}
use media_player.Jobs.Writes.{
  Done, Values, set_values, no_values, blank_key, status_is, transition, mark_failed,
  mark_interrupted,
}
use media_player.Jobs.Invariant.{IsWellFormed, queued-IsWellFormed, failed-IsWellFormed}
use media_player.Jobs.Integrity.{is_storable}
use media_player.Worker.Messages.{Raised, readable_error, readable_error_lem, interrupted_too_often}
use media_player.Worker.Tasks.{
  JobOutcome, done, failed, interrupted, End, returned, escaped, factory_raised, max_interruptions,
  StepEnd, result, raised, unmade, Gaps, recorded, give_back, done_of, record_failure,
}

-- A transition from a status that fits, to a row that the constraints take.
pub transition-fits :
    (now i : ℕ) (expected next : JobStatus) (x : Values) (t : Table) (j : Job)
    → find i t ≡ some j
    → status_is expected j.status ≡ true
    → check_constraints (set_values now next x j) ≡ true
    → transition now i expected next x t
      ≡ ok (set_values now next x j) (replace (set_values now next x j) t)
unfolding transition update_row
transition-fits now i expected next x t j f s c = ground arith

pub find-written :
    (now i : ℕ) (next : JobStatus) (x : Values) (t : Table) (j : Job)
    → find i t ≡ some j
    → find i (replace (set_values now next x j) t) ≡ some (set_values now next x j)
unfolding set_values
find-written now i next x t j f = find-replace_self i (set_values now next x j) t (find-id i t f) f

-- The status of a row.
abbrev pub status_of : ℕ → Table → Option JobStatus
status_of i t = elim (find i t) [ none ↦ none | some j ↦ some j.status ]

-- The keys of the result are not blank.
abbrev pub has_keys : Done → Bool
has_keys d = not (is_blank d.output_key) && not (blank_key d.thumbnail_key)

-- The repository takes the result.
abbrev pub is_recordable : Done → Bool → Bool
is_recordable d ladder_pending = has_keys d && is_storable (done_of d ladder_pending)

-- Where the task leaves the row, by the end of the step.
abbrev pub left_in : StepEnd → Bool → ℕ → JobStatus
left_in (result d l) stop n = if is_recordable d l then JobStatus.done else processing
left_in (raised e) stop n =
    if stop && ltb (n + 1) max_interruptions then queued else JobStatus.failed
left_in unmade stop n = processing

-- How the task says it ended: an error that it does not catch escapes.
abbrev pub says : StepEnd → Bool → ℕ → End JobOutcome
says (result d l) stop n =
    if is_recordable d l
    then returned done
    else if has_keys d
    then escaped integrity_error
    else escaped value_error
says (raised e) stop n =
    if stop && ltb (n + 1) max_interruptions then returned interrupted else returned failed
says unmade stop n = factory_raised

-- No other writer.
abbrev pub quiet : ℕ → ℕ → ℕ → Gaps
quiet a b c = record {
  claimed_at = a;
  recorded_at = b;
  settled_at = c;
  during_step = λ t. t;
  after_record = λ t. t;
}

-- The end `e` with the row in the status `s`.
abbrev pub Leaves : ℕ → End JobOutcome → JobStatus → End JobOutcome × Table → Type 0
Leaves i e s p = (p.0 ≡ e) × (status_of i p.1 ≡ some s)

pub recorded-Leaves :
    (i : ℕ) (outcome : JobOutcome) (x : Result Job) (t t' : Table) (r : Job)
    → x ≡ ok r t'
    → find i t' ≡ some r
    → Leaves i (returned outcome) r.status (recorded outcome x t)
recorded-Leaves i outcome x t t' r e f = ground arith

module _ (now i : ℕ) (t : Table) (j : Job) (f : find i t ≡ some j) (p : j.status ≡ processing)
    (h : IsWellFormed j) where
  fail-Leaves :
      (e : Text)
      → is_blank e ≡ false
      → Leaves i (returned failed) JobStatus.failed (recorded failed (mark_failed now i e t) t)
  unfolding mark_failed set_values
  fail-Leaves e b =
      let x = record no_values { error = some (strip e) } in
      let r = set_values now JobStatus.failed x j in
      recorded-Leaves i failed _ t (replace r t) r
        (ground (
          arith,
          transition-fits now i processing JobStatus.failed x t j f (ap is_processing p)
              (failed-IsWellFormed now j h e b (ap is_processing p)).0,
        ))
        (find-written now i JobStatus.failed x t j f)

  interrupt-Leaves :
      Leaves i (returned interrupted) queued (recorded interrupted (mark_interrupted now i t) t)
  unfolding mark_interrupted set_values
  interrupt-Leaves =
      let r = set_values now queued no_values j in
      recorded-Leaves i interrupted _ t (replace r t) r
        (transition-fits now i processing queued no_values t j f (ap is_processing p)
          (queued-IsWellFormed now j h (ap is_processing p)).0)
        (find-written now i queued no_values t j f)

interrupted_too_often-shows : is_blank interrupted_too_often ≡ false
unfolding interrupted_too_often is_space
interrupted_too_often-shows = is_blank-eq-all interrupted_too_often

pub failure-settles :
    (a b c i : ℕ) (stop : Bool) (n : ℕ) (e : Raised) (t : Table) (j : Job)
    → find i t ≡ some j
    → j.status ≡ processing
    → IsWellFormed j
    → Leaves i
        (says (raised e) stop n)
        (left_in (raised e) stop n)
        (record_failure (quiet a b c) i stop n e t)
unfolding record_failure give_back
failure-settles a b c i false n e t j f p h =
    fail-Leaves b i t j f p h (readable_error e) (readable_error_lem e).0
failure-settles a b c i true n e t j f p h = elim (Bool-cases (ltb (n + 1) 3)) [
  | inl again ↦ ground (arith, interrupt-Leaves b i t j f p h)
  | inr over ↦
      ground (arith, fail-Leaves b i t j f p h interrupted_too_often interrupted_too_often-shows)
]
