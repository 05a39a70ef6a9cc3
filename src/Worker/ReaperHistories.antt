-- ===== src/Worker/ReaperHistories.antt =====
-- A pass of the reaper writes through the repository only (app/worker/reaper.py).
use media_player.Prelude.{
  ℕ, subst, Bool, true, false, Option, none, some, List, [], ◌∷◌, if◌then◌else◌,
}
use media_player.Jobs.Row.{Job}
use media_player.Jobs.Store.{Table, Result, ok, err, table_after}
use media_player.Jobs.Paging.{list_expired_trash}
use media_player.Jobs.Writes.{mark_stale_failed, mark_ladder_unavailable, delete_job}
use media_player.Jobs.Trace.{Write, apply}
use media_player.Jobs.WellFormed.{IsValid, run-IsValid}
use media_player.Worker.Histories.{Reaches, Reaches-refl, write-Reaches}
use media_player.Worker.Reaper.{
  Redis, Pass, passed, aborted, table_of, ◌then_pass◌, counted, is_dead, reap, requeue, wait,
  requeued, given_up, ladder_fate, settle_stale_ladders, Times, reap_stale, run_once, empty_rows,
  empty_trash,
}

-- A pass whose table writes lead to.
pub data Leads (t : Table) : Pass → Type 0 where
  goes : {n : ℕ} {ids : List ℕ} {t' : Table} → Reaches t t' → Leads t (passed n ids t')
  ends : {t' : Table} → Reaches t t' → Leads t (aborted t')

Leads-Reaches : {t : Table} {p : Pass} → Leads t p → Reaches t (table_of p)
Leads-Reaches (goes r) = r
Leads-Reaches (ends r) = r

counted-Leads :
    {t u : Table} (n : ℕ) (ids : List ℕ) (x : Result (Option Job))
    → Reaches t u
    → Reaches t (table_after x u)
    → Leads t (counted n ids x u)
counted-Leads n ids (ok (some _) t') r s = goes s
counted-Leads n ids (ok none t') r s = goes s
counted-Leads n ids (err _) r s = ends r

bind-Leads :
    {t : Table} (p : Pass) (f : ℕ → List ℕ → Table → Pass)
    → Leads t p
    → ((n : ℕ) (ids : List ℕ) (u : Table) → Reaches t u → Leads t (f n ids u))
    → Leads t (p then_pass f)
bind-Leads _ f (goes {n = n} {ids = ids} {t' = u} r) h = h n ids u r
bind-Leads _ f (ends r) h = ends r

if-Leads :
    {t : Table} {p q : Pass} (b : Bool) → Leads t p → Leads t q → Leads t (if b then p else q)
if-Leads true x y = x
if-Leads false x y = y

reap-Leads :
    {t : Table} (now : ℕ) (redis : Redis) (lease : ℕ) (jobs : List Job) (n : ℕ) (ids : List ℕ)
    (u : Table)
    → Reaches t u
    → Leads t (reap now redis lease jobs n ids u)
unfolding reap apply
reap-Leads now redis lease [] n ids u r = goes r
reap-Leads now redis lease (job ∷ jobs) n ids u r =
    if-Leads (is_dead redis lease job)
      (bind-Leads _ _
        (counted-Leads n ids (mark_stale_failed now job.id u) r
          (write-Reaches now (Write.stale job.id) r))
        (reap-Leads now redis lease jobs))
      (reap-Leads now redis lease jobs n ids u r)

requeue-Leads :
    {t : Table} (redis : Redis) (jobs : List Job) (n : ℕ) (ids : List ℕ) (u : Table)
    → Reaches t u
    → Leads t (requeue redis jobs n ids u)
unfolding requeue
requeue-Leads redis [] n ids u r = goes r
requeue-Leads redis (job ∷ jobs) n ids u r =
    if-Leads (redis.exists job.id) (requeue-Leads redis jobs n ids u r)
      (requeue-Leads redis jobs n (job.id ∷ ids) u r)

settle-Leads :
    {t : Table} (now : ℕ) (redis : Redis) (jobs : List Job) (n : ℕ) (ids : List ℕ) (u : Table)
    → Reaches t u
    → Leads t (settle_stale_ladders now redis jobs n ids u)
unfolding settle_stale_ladders apply
settle-Leads now redis [] n ids u r = goes r
settle-Leads {t} now redis (job ∷ jobs) n ids u r =
    elim (ladder_fate redis job)
      as (λ fate. Leads t (elim fate as (λ _. Pass) [
        | wait ↦ settle_stale_ladders now redis jobs n ids u
        | requeued ↦ settle_stale_ladders now redis jobs n (job.id ∷ ids) u
        | given_up ↦
            counted n ids (mark_ladder_unavailable now job.id u) u
            then_pass settle_stale_ladders now redis jobs
      ])) [
        | wait ↦ settle-Leads now redis jobs n ids u r
        | requeued ↦ settle-Leads now redis jobs n (job.id ∷ ids) u r
        | given_up ↦
            bind-Leads _ _
              (counted-Leads n ids (mark_ladder_unavailable now job.id u) r
                (write-Reaches now (Write.ladder_unavailable job.id) r))
              (settle-Leads now redis jobs)
      ]

empty-Leads :
    {t : Table} (jobs : List Job) (n : ℕ) (ids : List ℕ) (u : Table)
    → Reaches t u
    → Leads t (empty_rows jobs n ids u)
unfolding empty_rows apply
empty-Leads [] n ids u r = goes r
empty-Leads (job ∷ jobs) n ids u r =
    bind-Leads _ _
      (counted-Leads n ids (delete_job job.id none u) r
        (write-Reaches 0 (Write.delete job.id none) r))
      (empty-Leads jobs)

-- A whole pass of the reaper and the emptying of the trash, whatever Redis answers, leave tables
-- that writes of the repository lead to, and keep a valid table valid.
pub reaper-Reaches :
    (time : Times) (redis : Redis) (before : ℕ) (t : Table)
    → (Reaches t (table_of (run_once time redis t)) × Reaches t (table_of (empty_trash before t)))
      × (IsValid t
          → IsValid (table_of (run_once time redis t)) × IsValid (table_of (empty_trash before t)))
unfolding run_once empty_trash
reaper-Reaches time redis before t =
    let stale : Leads t (reap_stale time redis t) =
      reap-Leads time.now redis time.lease_before _ 0 [] t (Reaches-refl t) in
    let pass = Leads-Reaches (
      bind-Leads _ _ (bind-Leads _ _ stale (λ n ids u r. requeue-Leads redis _ n ids u r))
        (λ n ids u r. settle-Leads time.now redis _ n ids u r)) in
    let trash = Leads-Reaches (empty-Leads (list_expired_trash before t) 0 [] t (Reaches-refl t)) in
    (
      (pass, trash),
      λ v. (
        subst IsValid pass.reached (run-IsValid pass.writes t v),
        subst IsValid trash.reached (run-IsValid trash.writes t v),
      ),
    )
