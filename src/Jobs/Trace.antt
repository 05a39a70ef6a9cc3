-- ===== src/Jobs/Trace.antt =====
-- The writes of app/repositories/jobs.py as values, so that any interleaving of the API, the
-- workers and the reaper is a list. Each write is one transaction.
use media_player.Prelude.{ℕ, Option, List, [], ◌∷◌}
use media_player.Prelude.Text.{Text}
use media_player.Edits.Operation.{Operation}
use media_player.Jobs.Store.{Table, table_after}
use media_player.Jobs.Writes.{
  Done, create_job, create_edit_job, trash_job, restore_job, mark_processing, mark_done,
  mark_ladder_ready, mark_ladder_unavailable, mark_preview_ready, mark_interrupted, mark_failed,
  prepare_retry, delete_job, mark_stale_failed,
}

pub data Write : Type 0 where
  create : ℕ → ℕ → Text → Text → ℕ → Write
  create_edit : ℕ → ℕ → Text → Text → List Operation → ℕ → Write
  trash restore retry : ℕ → ℕ → Write
  claim interrupt stale ladder_unavailable : ℕ → Write
  finish : ℕ → Done → Write
  fail ladder_ready preview_ready : ℕ → Text → Write
  delete : ℕ → Option ℕ → Write

-- One write at the time `now`.
unfoldable pub apply : ℕ → Write → Table → Table
apply now (Write.create i o f s m) t = table_after (create_job now i o f s m t) t
apply now (Write.create_edit i o f s ops m) t = table_after (create_edit_job now i o f s ops m t) t
apply now (Write.trash i o) t = table_after (trash_job now i o t) t
apply now (Write.restore i o) t = table_after (restore_job i o t) t
apply now (Write.retry i o) t = table_after (prepare_retry now i o t) t
apply now (Write.claim i) t = table_after (mark_processing now i t) t
apply now (Write.interrupt i) t = table_after (mark_interrupted now i t) t
apply now (Write.stale i) t = table_after (mark_stale_failed now i t) t
apply now (Write.ladder_unavailable i) t = table_after (mark_ladder_unavailable now i t) t
apply now (Write.finish i d) t = table_after (mark_done now i d t) t
apply now (Write.fail i e) t = table_after (mark_failed now i e t) t
apply now (Write.ladder_ready i k) t = table_after (mark_ladder_ready now i k t) t
apply now (Write.preview_ready i k) t = table_after (mark_preview_ready now i k t) t
apply now (Write.delete i o) t = table_after (delete_job i o t) t

-- A history: each write with its time.
unfoldable pub run : List (ℕ × Write) → Table → Table
run [] t = t
run ((now, w) ∷ ws) t = run ws (apply now w t)
