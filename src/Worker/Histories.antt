-- ===== src/Worker/Histories.antt =====
-- A task writes through the repository only: what it leaves is a history of its writes.
use media_player.Prelude.{
  ℕ, ◌+◌, ◌≡◌, refl, ◌∙◌, ap, subst, Bool, true, false, List, [], ◌∷◌, ◌++◌, if◌then◌else◌, leb,
}
use media_player.Jobs.Row.{Job}
use media_player.Jobs.Store.{Table, Result, ok, err, table_after}
use media_player.Jobs.Writes.{Done, mark_processing, mark_done}
use media_player.Jobs.Trace.{Write, apply, run}
use media_player.Jobs.WellFormed.{IsValid, run-IsValid}
use media_player.Worker.Messages.{Raised, readable_error, interrupted_too_often}
use media_player.Worker.Tasks.{
  JobOutcome, done, failed, skipped, interrupted, End, returned, escaped, max_interruptions,
  StepEnd, result, raised, unmade, Gaps, is_caught, recorded, give_back, hand_off_ladder, done_of,
  record_success, record_failure, after_step, process_job,
}

-- Writes lead from one table to the other.
pub record Reaches (t t' : Table) : Type 0 where
  pub writes : List (ℕ × Write)
  pub reached : run writes t ≡ t'

pub Reaches-refl : (t : Table) → Reaches t t
unfolding run
Reaches-refl t = record { writes = []; reached = refl }

run-append : (xs ys : List (ℕ × Write)) (t : Table) → run (xs ++ ys) t ≡ run ys (run xs t)
unfolding run
run-append [] ys t = refl
run-append ((now, w) ∷ xs) ys t = run-append xs ys (apply now w t)

pub Reaches-trans : {a b c : Table} → Reaches a b → Reaches b c → Reaches a c
Reaches-trans {a} {b} {c} p q = record {
  writes = p.writes ++ q.writes;
  reached = run-append p.writes q.writes a ∙ ap (run q.writes) p.reached ∙ q.reached;
}

one_write : (now : ℕ) (w : Write) (t : Table) → Reaches t (apply now w t)
unfolding run
one_write now w t = record { writes = (now, w) ∷ []; reached = refl }

-- The other writers use the repository too.
pub record Apart (gaps : Gaps) : Type 0 where
  pub during_step : (t : Table) → Reaches t (gaps.during_step t)
  pub after_record : (t : Table) → Reaches t (gaps.after_record t)

-- An end with a table that writes lead to.
pub data Ends {A : Type 0} (t : Table) : A × Table → Type 0 where
  ends : {x : A} {t' : Table} → Reaches t t' → Ends t (x, t')

Ends-Reaches : {A : Type 0} {t : Table} {p : A × Table} → Ends t p → Reaches t p.1
Ends-Reaches (ends r) = r

if-Ends :
    {A : Type 0} {t : Table} {p q : A × Table} (c : Bool)
    → Ends t p
    → Ends t q
    → Ends t (if c then p else q)
if-Ends true p q = p
if-Ends false p q = q

recorded-Ends :
    {t u : Table} (outcome : JobOutcome) (x : Result Job)
    → Reaches t u
    → Reaches t (table_after x u)
    → Ends t (recorded outcome x u)
recorded-Ends outcome (ok j t') s r = ends r
recorded-Ends outcome (err e) s r = ends s

-- One more write after others.
pub write-Reaches : {t u : Table} (now : ℕ) (w : Write) → Reaches t u → Reaches t (apply now w u)
write-Reaches {t} {u} now w r = Reaches-trans r (one_write now w u)

give_back-Ends :
    {t u : Table} (now i interruptions : ℕ) → Reaches t u → Ends t (give_back now i interruptions u)
unfolding give_back apply
give_back-Ends now i interruptions r =
    if-Ends (leb max_interruptions (interruptions + 1))
      (recorded-Ends failed _ r (write-Reaches now (Write.fail i interrupted_too_often) r))
      (recorded-Ends interrupted _ r (write-Reaches now (Write.interrupt i) r))

record_failure-Ends :
    {t u : Table} (gaps : Gaps) (i : ℕ) (stop : Bool) (interruptions : ℕ) (e : Raised)
    → Reaches t u
    → Ends t (record_failure gaps i stop interruptions e u)
unfolding record_failure apply
record_failure-Ends gaps i stop interruptions e r =
    if-Ends stop (give_back-Ends gaps.recorded_at i interruptions r) (
      recorded-Ends failed _ r (write-Reaches gaps.recorded_at (Write.fail i (readable_error e)) r))

hand_off_ladder-Reaches :
    {t u : Table} (now i : ℕ) (enqueued : Bool)
    → Reaches t u
    → Reaches t (hand_off_ladder now i enqueued u)
unfolding hand_off_ladder apply
hand_off_ladder-Reaches now i true r = r
hand_off_ladder-Reaches now i false r = write-Reaches now (Write.ladder_unavailable i) r

record_success-Ends :
    {t u : Table} (gaps : Gaps) (i : ℕ) (enqueued : Bool) (d : Done) (ladder_pending : Bool)
    → Apart gaps
    → Reaches t u
    → Ends t (record_success gaps i enqueued d ladder_pending u)
unfolding record_success apply
record_success-Ends {t} {u} gaps i enqueued d ladder_pending apart r =
    finish (mark_done gaps.recorded_at i (done_of d ladder_pending) u)
      (write-Reaches gaps.recorded_at (Write.finish i (done_of d ladder_pending)) r)
  where
    finish :
        (x : Result Job)
        → Reaches t (table_after x u)
        → Ends t (elim x as (λ _. End JobOutcome × Table) [
          | ok _ t' ↦
              if ladder_pending
              then (
                returned done,
                hand_off_ladder gaps.settled_at i enqueued (gaps.after_record t'),
              )
              else (returned done, t')
          | err e ↦ ((if is_caught e then returned skipped else escaped e), u)
        ])
    finish (ok _ t') s =
        if-Ends ladder_pending
          (ends (
            hand_off_ladder-Reaches gaps.settled_at i enqueued
              (Reaches-trans s (apart.after_record t'))))
          (ends s)
    finish (err e) s = ends r

after_step-Ends :
    {t u : Table} (gaps : Gaps) (i : ℕ) (enqueued stop : Bool) (interruptions : ℕ) (e : StepEnd)
    → Apart gaps
    → Reaches t u
    → Ends t (after_step gaps i enqueued stop interruptions e u)
after_step-Ends {t} {u} gaps i enqueued stop interruptions (result d l) apart r =
    record_success-Ends gaps i enqueued d l apart (Reaches-trans r (apart.during_step u))
after_step-Ends {t} {u} gaps i enqueued stop interruptions (raised e) apart r =
    record_failure-Ends gaps i stop interruptions e (Reaches-trans r (apart.during_step u))
after_step-Ends {t} {u} gaps i enqueued stop interruptions unmade apart r = ends r

-- A processing task, whatever its step, the queue and the stop flag do, leaves a table that the
-- writes of the repository lead to, if the others write through the repository too; so a valid
-- table stays valid.
pub process_job-Reaches :
    (gaps : Gaps) (i : ℕ) (step : Job → StepEnd) (enqueued stop : Bool) (interruptions : ℕ)
    (t : Table)
    → Apart gaps
    → Reaches t (process_job gaps i step enqueued stop interruptions t).1
      × (IsValid t → IsValid (process_job gaps i step enqueued stop interruptions t).1)
unfolding process_job apply
process_job-Reaches gaps i step enqueued stop interruptions t apart =
    let r = Ends-Reaches (
      claimed (mark_processing gaps.claimed_at i t)
        (one_write gaps.claimed_at (Write.claim i) t)) in
    (r, λ v. subst IsValid r.reached (run-IsValid r.writes t v))
  where
    claimed :
        (x : Result Job)
        → Reaches t (table_after x t)
        → Ends t (elim x as (λ _. End JobOutcome × Table) [
          | ok job t' ↦ after_step gaps i enqueued stop interruptions (step job) t'
          | err e ↦ ((if is_caught e then returned skipped else escaped e), t)
        ])
    claimed (ok job t') s = after_step-Ends gaps i enqueued stop interruptions (step job) apart s
    claimed (err e) s = ends (Reaches-refl t)
