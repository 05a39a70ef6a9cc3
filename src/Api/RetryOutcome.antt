-- ===== src/Api/RetryOutcome.antt =====
-- app/api/jobs.py: what `POST /jobs/{job_id}/retry` leaves behind, whatever it answers.
use media_player.Prelude.{
  ℕ, ◌≡◌, ◌⊎◌, refl, subst, Bool, true, false, ◌&&◌, [], ◌∷◌, ◌++◌, none, some, arith, Option-cases,
  Bool-cases, inl, inr, ◌==◌,
}
use media_player.Jobs.Row.{Job, queued, pending, is_failed, check_constraints}
use media_player.Jobs.Store.{find, replace, update_row}
use media_player.Jobs.StoreLaws.{find-Rows}
use media_player.Jobs.Invariant.{IsWellFormed, retry-IsWellFormed}
use media_player.Jobs.WellFormed.{IsValid}
use media_player.Jobs.Queries.{get_job}
use media_player.Jobs.Writes.{prepare_retry}
use media_player.Api.Shown.{Reply, answered, http}
use media_player.Api.EditRoute.{State, Delivery, enqueued}
use media_player.Api.RetryRoute.{Commit, committed, rolled_back, unheard, retry_job_by_id}

-- The failed row as a new run finds it.
abbrev pub requeued : ℕ → Job → Job
requeued now j = record j {
  status = queued;
  error = none;
  output_key = none;
  hls_key = none;
  hls_status = pending;
  updated_at = now;
}

abbrev pub is_retriable : ℕ → Job → Bool
is_retriable owner j = j.owner_id == owner && is_failed j.status

Commit-cases : (c : Commit) → (c ≡ committed) ⊎ ((c ≡ rolled_back) ⊎ (c ≡ unheard))
Commit-cases committed = inl refl
Commit-cases rolled_back = inr (inl refl)
Commit-cases unheard = inr (inr refl)

-- How a retry ends.
pub data Retried (now i owner : ℕ) (d : Delivery) (c : Commit) (w : State)
    : Reply ℕ × State → Type 0 where
  accepted :
      (j : Job)
      → find i w.jobs ≡ some j
      → is_retriable owner j ≡ true
      → d.raised ≡ false
      → c ≡ committed
      → Retried now i owner d c w (
        answered i,
        record w { jobs = replace (requeued now j) w.jobs; queue = w.queue ++ (i ∷ []) },
      )
  undone :
      (j : Job)
      → find i w.jobs ≡ some j
      → is_retriable owner j ≡ true
      → (d.raised ≡ true) ⊎ (c ≡ rolled_back)
      → Retried now i owner d c w (http 503, enqueued d i w)
  unconfirmed :
      (j : Job)
      → find i w.jobs ≡ some j
      → is_retriable owner j ≡ true
      → d.raised ≡ false
      → c ≡ unheard
      → Retried now i owner d c w (
        http 503,
        record w { jobs = replace (requeued now j) w.jobs; queue = w.queue ++ (i ∷ []) },
      )
  missing : get_job i (some owner) false w.jobs ≡ none → Retried now i owner d c w (http 404, w)
  refused :
      (j : Job)
      → get_job i (some owner) false w.jobs ≡ some j
      → is_failed j.status ≡ false
      → Retried now i owner d c w (http 409, w)

module _ (now i owner : ℕ) (d : Delivery) (c : Commit) (w : State) (v : IsValid w.jobs)
    (sends : d.raised ≡ false → d.delivered ≡ true) where
  requeued-ok :
      {j : Job}
      → find i w.jobs ≡ some j
      → is_failed j.status ≡ true
      → check_constraints (requeued now j) ≡ true
  requeued-ok {j} f h =
      (retry-IsWellFormed now j (find-Rows IsWellFormed i w.jobs {j = j} v.rows f) h).0

  -- A retry by any user of a valid table, where an enqueueing that returns has sent its message, ends
  -- in one of five ways, and never in an error that is not expected. The owner's failed row goes back
  -- to the queue, with nothing of the failed run left on it, and its message is sent. Or the user is
  -- told that the retry could not be confirmed: either the table is as it was, whether the message was
  -- sent or not, since the enqueueing raised or the commit was rolled back; or the row is back in the
  -- queue and its message is sent, since the commit raised after the database had done it. Or the row
  -- is not the user's to see, or it has not failed, and nothing changes.
  pub retry_job_by_id-Retried : Retried now i owner d c w (retry_job_by_id now i owner d c w)
  unfolding retry_job_by_id prepare_retry update_row get_job
  retry_job_by_id-Retried = elim (Option-cases (find i w.jobs)) [
    | inl gone ↦ subst (λ p. Retried now i owner d c w p) (ground arith) (missing (ground arith))
    | inr (j, f) ↦ elim (Bool-cases (is_retriable owner j)) [
      | inl fits ↦
          let fine = requeued-ok {j = j} f (ground arith) in
          elim (Bool-cases d.raised) [
            | inl lost ↦
                subst (λ p. Retried now i owner d c w p) (ground arith) (undone j f fits (inl lost))
            | inr sent ↦ elim (Commit-cases c) [
              | inl done ↦
                  subst (λ p. Retried now i owner d c w p) (ground (arith, done, sends sent))
                    (accepted j f fits sent done)
              | inr (inl undo) ↦
                  subst (λ p. Retried now i owner d c w p) (ground (arith, undo))
                    (undone j f fits (inr undo))
              | inr (inr silent) ↦
                  subst (λ p. Retried now i owner d c w p) (ground (arith, silent, sends sent))
                    (unconfirmed j f fits sent silent)
            ]
          ]
      | inr other ↦ elim (Option-cases (get_job i (some owner) false w.jobs)) [
        | inl hidden ↦ subst (λ p. Retried now i owner d c w p) (ground arith) (missing hidden)
        | inr (k, g) ↦
            subst (λ p. Retried now i owner d c w p) (ground arith) (refused k g (ground arith))
      ]
    ]
  ]
