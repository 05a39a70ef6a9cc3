-- ===== src/Worker/Reaper.antt =====
-- app/worker/reaper.py: one pass of `run_once` over the table, with what Redis answers given.
-- An error of a write ends the pass. The sweep of orphan objects is storage and is left out.
use media_player.Prelude.{
  ℕ, ◌+◌, Bool, not, ◌||◌, Option, none, some, List, [], ◌∷◌, ltb, if◌then◌else◌,
}
use media_player.Jobs.Row.{Job, JobStatus}
use media_player.Jobs.Store.{Table, Result, ok, err}
use media_player.Jobs.Paging.{list_stale, list_stale_ladders, list_expired_trash}
use media_player.Jobs.Writes.{mark_stale_failed, mark_ladder_unavailable, delete_job}

-- The states of a queue entry.
pub data RqStatus : Type 0 where
  queued started deferred scheduled finished failed stopped canceled : RqStatus

-- What Redis answers about a job: its heartbeat, whether it has an entry, its ladder's entry and
-- that entry's heartbeat.
pub record Redis : Type 0 where
  pub heartbeat_alive : ℕ → Bool
  pub exists : ℕ → Bool
  pub ladder_queue_status : ℕ → Option RqStatus
  pub ladder_alive : ℕ → Bool

-- A pass so far: rows settled, ids put in a queue, the table.
pub data Pass : Type 0 where
  passed : ℕ → List ℕ → Table → Pass
  aborted : Table → Pass

abbrev pub table_of : Pass → Table
table_of (passed _ _ t) = t
table_of (aborted t) = t

infixl 5 ◌then_pass◌
abbrev pub ◌then_pass◌ : Pass → (ℕ → List ℕ → Table → Pass) → Pass
passed n ids t then_pass f = f n ids t
aborted t then_pass f = aborted t

-- A conditional write: it counts if it wrote a row.
abbrev pub counted : ℕ → List ℕ → Result (Option Job) → Table → Pass
counted n ids (ok (some _) t') t = passed (n + 1) ids t'
counted n ids (ok none t') t = passed n ids t'
counted n ids (err _) t = aborted t

-- A processing job that the pass fails: past its lease, or without a heartbeat.
abbrev pub is_dead : Redis → ℕ → Job → Bool
is_dead redis lease_before job =
    ltb job.updated_at lease_before || not (redis.heartbeat_alive job.id)

-- The first loop of `run_once`.
unfoldable pub reap : ℕ → Redis → ℕ → List Job → ℕ → List ℕ → Table → Pass
reap now redis lease_before [] n ids t = passed n ids t
reap now redis lease_before (job ∷ jobs) n ids t =
    if is_dead redis lease_before job
    then counted n ids (mark_stale_failed now job.id t) t then_pass reap now redis lease_before jobs
    else reap now redis lease_before jobs n ids t

-- The second loop: queued jobs that have no entry are enqueued again.
unfoldable pub requeue : Redis → List Job → ℕ → List ℕ → Table → Pass
requeue redis [] n ids t = passed n ids t
requeue redis (job ∷ jobs) n ids t =
    if redis.exists job.id
    then requeue redis jobs n ids t
    else requeue redis jobs n (job.id ∷ ids) t

-- What becomes of a pending ladder, by its entry: `_LADDER_STILL_COMING` and the heartbeat.
pub data LadderFate : Type 0 where
  wait requeued given_up : LadderFate

unfoldable pub ladder_fate : Redis → Job → LadderFate
ladder_fate redis job = elim (redis.ladder_queue_status job.id) [
  | none ↦ requeued
  | some RqStatus.queued ↦ wait
  | some started ↦ if redis.ladder_alive job.id then wait else given_up
  | some deferred ↦ wait
  | some scheduled ↦ wait
  | some finished ↦ given_up
  | some failed ↦ given_up
  | some stopped ↦ given_up
  | some canceled ↦ given_up
]

-- `_settle_stale_ladders`
unfoldable pub settle_stale_ladders : ℕ → Redis → List Job → ℕ → List ℕ → Table → Pass
unfolding ladder_fate
settle_stale_ladders now redis [] n ids t = passed n ids t
settle_stale_ladders now redis (job ∷ jobs) n ids t = elim (ladder_fate redis job) [
  | wait ↦ settle_stale_ladders now redis jobs n ids t
  | requeued ↦ settle_stale_ladders now redis jobs n (job.id ∷ ids) t
  | given_up ↦
      counted n ids (mark_ladder_unavailable now job.id t) t
      then_pass settle_stale_ladders now redis jobs
]

-- The clock readings of a pass: now, and the three times before it that the settings give.
pub record Times : Type 0 where
  pub now : ℕ
  pub lease_before : ℕ
  pub abandoned_before : ℕ
  pub grace_before : ℕ

abbrev pub reap_stale : Times → Redis → Table → Pass
reap_stale time redis t =
    reap time.now redis time.lease_before (list_stale JobStatus.processing time.abandoned_before t)
      0 [] t

unfoldable pub run_once : Times → Redis → Table → Pass
unfolding reap requeue settle_stale_ladders
run_once time redis t =
    reap_stale time redis t
    then_pass (λ n ids t'.
        requeue redis (list_stale JobStatus.queued time.grace_before t') n ids t')
    then_pass (λ n ids t'.
        settle_stale_ladders time.now redis (list_stale_ladders time.abandoned_before t') n ids t')

-- `empty_trash`: the rows that it deletes for good; their files are removed after each.
unfoldable pub empty_rows : List Job → ℕ → List ℕ → Table → Pass
empty_rows [] n ids t = passed n ids t
empty_rows (job ∷ jobs) n ids t =
    counted n ids (delete_job job.id none t) t then_pass empty_rows jobs

unfoldable pub empty_trash : ℕ → Table → Pass
unfolding empty_rows
empty_trash before t = empty_rows (list_expired_trash before t) 0 [] t
