-- ===== src/Worker/Ladders.antt =====
-- What the ladder task makes of a pending ladder (app/worker/tasks.py, `build_ladder_async`).
use media_player.Prelude.{
  ℕ, ◌+◌, ◌≡◌, refl, ◌∙◌, Bool, true, false, not, ◌&&◌, ◌||◌, Option, none, some, arith,
  if◌then◌else◌, ltb, is_none, Bool-cases, inl, inr,
}
use media_player.Prelude.Text.{Text, is_blank}
use media_player.Jobs.Row.{Job, ready, unavailable, is_done, is_pending}
use media_player.Jobs.Store.{Table, find, replace, update_row}
use media_player.Jobs.StoreLaws.{find-id, find-replace_self, find-Rows}
use media_player.Jobs.Queries.{get_job}
use media_player.Jobs.Writes.{mark_ladder_ready, mark_ladder_unavailable, settle_ladder}
use media_player.Jobs.Invariant.{IsWellFormed, settled-IsWellFormed, ladder-IsWellFormed}
use media_player.Jobs.WellFormed.{IsValid}
use media_player.Worker.Tasks.{
  End, returned, LadderOutcome, settled, given_back, unavailable_after, ready_after, ladder_end,
  build_ladder, max_interruptions,
}
use media_player.Worker.Leaving.{quiet}

-- The row after the task.
abbrev pub unavailable_row : ℕ → Job → Job
unavailable_row now j = record j { hls_status = unavailable; hls_key = none; updated_at = now }

abbrev pub ready_row : ℕ → Text → Job → Job
ready_row now k j = record j { hls_status = ready; hls_key = some k; updated_at = now }

-- A task that ended with an outcome, and the row that it left.
abbrev pub EndsWith : ℕ → LadderOutcome → Job → End LadderOutcome × Table → Type 0
EndsWith i outcome r p = (p.0 ≡ returned outcome) × (find i p.1 ≡ some r)

module _ (now i : ℕ) (t : Table) (j : Job) (f : find i t ≡ some j) (v : IsValid t)
    (d : is_done j.status ≡ true) (p : is_pending j.hls_status ≡ true) where
  written : (r : Job) → r.id ≡ j.id → find i (replace r t) ≡ some r
  written r e = find-replace_self i r t (e ∙ find-id i t f) f

  given_up :
      EndsWith i
        (settled unavailable)
        (unavailable_row now j)
        (unavailable_after (mark_ladder_unavailable now i t) t)
  unfolding mark_ladder_unavailable settle_ladder update_row
  given_up = ground (
    arith,
    (settled-IsWellFormed now j (find-Rows IsWellFormed i t v.rows f) d p).0,
    written (unavailable_row now j) refl,
  )

  built :
      (k : Text)
      → is_blank k ≡ false
      → EndsWith i (settled ready) (ready_row now k j) (ready_after (mark_ladder_ready now i k t) t)
  unfolding mark_ladder_ready settle_ladder update_row
  built k b = ground (
    arith,
    (ladder-IsWellFormed now j (find-Rows IsWellFormed i t v.rows f) k d p).0,
    written (ready_row now k j) refl,
  )

-- The outcome, by the row and the step's end; and the row that goes with it.
abbrev pub fate : Job → Option Text → Bool → ℕ → LadderOutcome
fate j end stop n = if is_none j.height || is_none j.width then settled unavailable else elim end [
  | some _ ↦ settled ready
  | none ↦ if stop && ltb (n + 1) max_interruptions then given_back else settled unavailable
]

abbrev pub fate_row : ℕ → Job → Option Text → Bool → ℕ → Job
fate_row now j end stop n =
    if is_none j.height || is_none j.width then unavailable_row now j else elim end [
      | some k ↦ ready_row now k j
      | none ↦ if stop && ltb (n + 1) max_interruptions then j else unavailable_row now j
    ]

abbrev pub not_blank : Option Text → Bool
not_blank none = true
not_blank (some k) = not (is_blank k)

ladder_end-EndsWith :
    (a b c i : ℕ) (end : Option Text) (stop : Bool) (n : ℕ) (t : Table) (j : Job)
    → find i t ≡ some j
    → IsValid t
    → is_done j.status ≡ true
    → is_pending j.hls_status ≡ true
    → not_blank end ≡ true
    → (is_none j.height || is_none j.width) ≡ false
    → EndsWith i
        (fate j end stop n)
        (fate_row b j end stop n)
        (ladder_end (quiet a b c) i stop n end t)
unfolding ladder_end
ladder_end-EndsWith a b c i (some k) stop n t j f v d p nb dims =
    ground (arith, built b i t j f v d p k (ground arith))
ladder_end-EndsWith a b c i none stop n t j f v d p nb dims =
    elim (Bool-cases (stop && ltb (n + 1) 3)) [
      | inl again ↦ ground arith
      | inr over ↦ ground (arith, given_up b i t j f v d p)
    ]

-- A ladder task on a finished video whose ladder is pending, in a valid table and with no other
-- writer, settles it: ready with the key that the step gives (one that is not blank), unavailable
-- if the size is not known or the step failed; only a stop before the third interruption leaves it
-- pending, with the row as it was. The status and the result of the video stay.
pub build_ladder-settles :
    (a b c i : ℕ) (step : Job → Option Text) (stop : Bool) (n : ℕ) (t : Table) (j : Job)
    → find i t ≡ some j
    → IsValid t
    → is_done j.status ≡ true
    → is_pending j.hls_status ≡ true
    → not_blank (step j) ≡ true
    → EndsWith i
        (fate j (step j) stop n)
        (fate_row b j (step j) stop n)
        (build_ladder (quiet a b c) i step stop n t)
unfolding build_ladder get_job
build_ladder-settles a b c i step stop n t j f v d p nb =
    elim (Bool-cases (is_none j.height || is_none j.width)) [
      | inl unknown ↦ ground (arith, given_up b i t j f v d p)
      | inr dims ↦ ground (arith, ladder_end-EndsWith a b c i (step j) stop n t j f v d p nb dims)
    ]
