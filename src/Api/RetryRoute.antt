-- ===== src/Api/RetryRoute.antt =====
-- app/api/jobs.py: `POST /jobs/{job_id}/retry`. The row is written, the job enqueued, and only then
-- is the transaction committed; the row stays locked until then.
use media_player.Prelude.{ℕ, if◌then◌else◌}
use media_player.Jobs.Store.{JobError, not_found, invalid_transition, ok, err}
use media_player.Jobs.Writes.{prepare_retry}
use media_player.Api.Shown.{Reply, answered, http, crashed}
use media_player.Api.EditRoute.{State, Delivery, enqueued}

-- `JobNotFoundError` and `InvalidJobTransitionError` are answered, the rest is not caught.
abbrev pub refusal : JobError → Reply ℕ
refusal not_found = http 404
refusal invalid_transition = http 409
refusal _ = crashed

-- `session.commit()`: it returned; it raised, and the database rolled the transaction back; or it
-- raised, and the database had committed it, so that the rollback that follows finds nothing to undo.
pub data Commit : Type 0 where
  committed rolled_back unheard : Commit

abbrev pub after_commit : Commit → State → State → ℕ → Reply ℕ × State
after_commit committed before after job_id = (answered job_id, after)
after_commit rolled_back before after job_id = (http 503, before)
after_commit unheard before after job_id = (http 503, after)

-- A job may be delivered whose commit failed, or whose enqueueing raised.
unfoldable pub retry_job_by_id : ℕ → ℕ → ℕ → Delivery → Commit → State → Reply ℕ × State
retry_job_by_id now job_id owner enqueue commit w = elim (prepare_retry now job_id owner w.jobs) [
  | err e ↦ (refusal e, w)
  | ok _ jobs ↦
      let w' = enqueued enqueue job_id w in
      if enqueue.raised
      then (http 503, w')
      else after_commit commit w' (record w' { jobs = jobs }) job_id
]
