-- ===== src/Jobs/Integrity.antt =====
-- Which writes can run into a database constraint: on a valid table, only a creation and a result.
use media_player.Prelude.{
  ℕ, ◌≡◌, ◌≢◌, inl, inr, Bool, true, false, not, ◌&&◌, Option, none, some, arith, ◌==◌,
  if◌then◌else◌, Bool-cases, Option-cases,
}
use media_player.Prelude.Text.{Text, is_blank}
use media_player.Jobs.Row.{
  JobStatus, queued, processing, done, failed, HlsStatus, Job, is_failed, is_processing, is_ready,
  null_or_positive, check_constraints,
}
use media_player.Jobs.Store.{
  Table, JobError, integrity_error, Result, ok, err, find, replace, update_row, delete_row,
}
use media_player.Jobs.Writes.{
  create_job, create_edit_job, trash_job, restore_job, mark_processing, mark_done, settle_ladder,
  mark_ladder_ready, mark_ladder_unavailable, mark_preview_ready, mark_interrupted, mark_failed,
  prepare_retry, delete_job, mark_stale_failed, set_values, transition, no_values,
  derived_hls_status, done_values, blank_key, refused, Values, Done, status_is,
}
use media_player.Jobs.Trace.{Write}
use media_player.Jobs.StoreLaws.{find-Rows}
use media_player.Jobs.Invariant.{
  IsWellFormed, set_deleted_at-IsWellFormed, processing-IsWellFormed, queued-IsWellFormed,
  failed-IsWellFormed, settled-IsWellFormed, ladder-IsWellFormed, preview-IsWellFormed,
  retry-IsWellFormed, stale-IsWellFormed,
}
use media_player.Jobs.WellFormed.{IsValid}

abbrev pub error_of : {A : Type 0} → Result A → Option JobError
error_of (ok _ _) = none
error_of (err e) = some e

-- What a write raises.
abbrev pub write_error : ℕ → Write → Table → Option JobError
write_error now (Write.create i o f s m) t = error_of (create_job now i o f s m t)
write_error now (Write.create_edit i o f s ops m) t = error_of (create_edit_job now i o f s ops m t)
write_error now (Write.trash i o) t = error_of (trash_job now i o t)
write_error now (Write.restore i o) t = error_of (restore_job i o t)
write_error now (Write.retry i o) t = error_of (prepare_retry now i o t)
write_error now (Write.claim i) t = error_of (mark_processing now i t)
write_error now (Write.interrupt i) t = error_of (mark_interrupted now i t)
write_error now (Write.stale i) t = error_of (mark_stale_failed now i t)
write_error now (Write.ladder_unavailable i) t = error_of (mark_ladder_unavailable now i t)
write_error now (Write.finish i d) t = error_of (mark_done now i d t)
write_error now (Write.fail i e) t = error_of (mark_failed now i e t)
write_error now (Write.ladder_ready i k) t = error_of (mark_ladder_ready now i k t)
write_error now (Write.preview_ready i k) t = error_of (mark_preview_ready now i k t)
write_error now (Write.delete i o) t = error_of (delete_job i o t)

-- A write that neither creates a row nor records a result.
abbrev pub is_bookkeeping : Write → Bool
is_bookkeeping (Write.create i o f s m) = false
is_bookkeeping (Write.create_edit i o f s ops m) = false
is_bookkeeping (Write.finish i d) = false
is_bookkeeping _ = true

module _ (i : ℕ) (c : Job → Bool) (s : Job → Job) (t : Table) (v : IsValid t) where
  update_row-accepts :
      ((j : Job) → IsWellFormed j → c j ≡ true → IsWellFormed (s j))
      → error_of (update_row i c s t) ≡ none
  unfolding update_row
  update_row-accepts h = elim (Option-cases (find i t)) [
    | inl absent ↦ ground arith
    | inr (j, f) ↦ elim (Bool-cases (c j)) [
      | inl fits ↦ ground (arith, (h j (find-Rows IsWellFormed i t v.rows f) fits).0)
      | inr misfit ↦ ground arith
    ]
  ]

module _ (now i : ℕ) (expected next : JobStatus) (x : Values) (t : Table) (v : IsValid t) where
  transition-accepts :
      ((j : Job)
        → IsWellFormed j
        → status_is expected j.status ≡ true
        → IsWellFormed (set_values now next x j))
      → error_of (transition now i expected next x t) ≢ some integrity_error
  unfolding transition update_row refused
  transition-accepts h = elim (Option-cases (find i t)) [
    | inl absent ↦ ground arith
    | inr (j, f) ↦ elim (Bool-cases (status_is expected j.status)) [
      | inl fits ↦ ground (arith, (h j (find-Rows IsWellFormed i t v.rows f) fits).0)
      | inr misfit ↦ ground arith
    ]
  ]

retry-accepts :
    (now i o : ℕ) (t : Table)
    → IsValid t
    → error_of (prepare_retry now i o t) ≢ some integrity_error
unfolding prepare_retry update_row refused
retry-accepts now i o t v = elim (Option-cases (find i t)) [
  | inl absent ↦ ground arith
  | inr (j, f) ↦ elim (Bool-cases (j.owner_id == o && is_failed j.status)) [
    | inl fits ↦
        ground
          (arith, (retry-IsWellFormed now j (find-Rows IsWellFormed i t v.rows f) (ground arith)).0)
    | inr misfit ↦ ground arith
  ]
]

not_error : {o : Option JobError} → o ≡ none → o ≢ some integrity_error
not_error h = ground arith

-- On a valid table no trashing, restoring, retry, claim, interruption, failure, ladder or preview
-- write, reaper's write or deletion is ever refused by a database constraint.
pub bookkeeping-accepts :
    (now : ℕ) (w : Write) (t : Table)
    → IsValid t
    → is_bookkeeping w ≡ true
    → write_error now w t ≢ some integrity_error
bookkeeping-accepts now (Write.create i o f s m) t v b = cc
bookkeeping-accepts now (Write.create_edit i o f s ops m) t v b = cc
bookkeeping-accepts now (Write.finish i d) t v b = cc
bookkeeping-accepts now (Write.trash i o) t v b =
    unfold trash_job in
    not_error (update_row-accepts i _ _ t v (λ j h c. set_deleted_at-IsWellFormed j (some now) h))
bookkeeping-accepts now (Write.restore i o) t v b =
    unfold restore_job in
    not_error (update_row-accepts i _ _ t v (λ j h c. set_deleted_at-IsWellFormed j none h))
bookkeeping-accepts now (Write.retry i o) t v b = retry-accepts now i o t v
bookkeeping-accepts now (Write.claim i) t v b =
    unfold mark_processing in
    transition-accepts now i queued processing no_values t v
      (λ j h c. processing-IsWellFormed now j h c)
bookkeeping-accepts now (Write.interrupt i) t v b =
    unfold mark_interrupted in
    transition-accepts now i processing queued no_values t v
      (λ j h c. queued-IsWellFormed now j h c)
bookkeeping-accepts now (Write.stale i) t v b =
    unfold mark_stale_failed in
    not_error (update_row-accepts i _ _ t v (λ j h c. stale-IsWellFormed now j h c))
bookkeeping-accepts now (Write.ladder_unavailable i) t v b =
    unfold mark_ladder_unavailable settle_ladder in
    not_error (
      update_row-accepts i _ _ t v
        (λ j h c. settled-IsWellFormed now j h (ground arith) (ground arith)))
bookkeeping-accepts now (Write.fail i e) t v b = elim (Bool-cases (is_blank e)) [
  | inl blank ↦ unfold mark_failed in ground arith
  | inr text ↦
      unfold mark_failed in
      rw text (
        transition-accepts now i processing failed _ t v
          (λ j h c. failed-IsWellFormed now j h e text c))
]
bookkeeping-accepts now (Write.ladder_ready i k) t v b = elim (Bool-cases (is_blank k)) [
  | inl blank ↦ unfold mark_ladder_ready in ground arith
  | inr text ↦
      unfold mark_ladder_ready settle_ladder in
      rw text (
        not_error (
          update_row-accepts i _ _ t v
            (λ j h c. ladder-IsWellFormed now j h k (ground arith) (ground arith))))
]
bookkeeping-accepts now (Write.preview_ready i k) t v b = elim (Bool-cases (is_blank k)) [
  | inl blank ↦ unfold mark_preview_ready in ground arith
  | inr text ↦
      unfold mark_preview_ready in
      rw text (
        not_error (
          update_row-accepts i _ _ t v
            (λ j h c. preview-IsWellFormed now j h k (ground arith) (ground arith))))
]
bookkeeping-accepts now (Write.delete i o) t v b = unfold delete_job delete_row in ground arith

-- The two ladder arguments of a result agree: ready exactly if there is a key.
abbrev pub ladder_agrees : Option Text → Option HlsStatus → Bool
ladder_agrees (some _) none = true
ladder_agrees (some _) (some s) = is_ready s
ladder_agrees none none = true
ladder_agrees none (some s) = not (is_ready s)

-- A result that the constraints take.
abbrev pub is_storable : Done → Bool
is_storable d =
    null_or_positive d.width
    && null_or_positive d.height
    && null_or_positive d.duration_seconds
    && ladder_agrees d.hls_key d.hls_status

done_check :
    (now : ℕ) (j : Job) (d : Done)
    → IsWellFormed j
    → is_processing j.status ≡ true
    → check_constraints (set_values now done (done_values d) j) ≡ is_storable d
unfolding check_constraints set_values derived_hls_status
done_check now j d h p = ground arith

-- The result of a processing job, with keys that are not blank, is recorded exactly if its sizes
-- and duration are positive where given and its ladder is said to be ready exactly if its key is
-- given; otherwise the database refuses it and the row stays in `processing`.
pub mark_done-eq :
    (now i : ℕ) (d : Done) (t : Table) (j : Job)
    → IsValid t
    → find i t ≡ some j
    → j.status ≡ processing
    → is_blank d.output_key ≡ false
    → blank_key d.thumbnail_key ≡ false
    → let r = set_values now done (done_values d) j in
      mark_done now i d t ≡ (if is_storable d then ok r (replace r t) else err integrity_error)
unfolding mark_done transition update_row refused
mark_done-eq now i d t j v f p b c =
    ground (arith, done_check now j d (find-Rows IsWellFormed i t v.rows f) (rw p))
