-- ===== src/Jobs/Effect.antt =====
-- Each write of Jobs/Trace as one statement on the table, and what it does to one row.
use media_player.Prelude.{
  ℕ, ◌≡◌, refl, ◌≢◌, Bool, true, false, ◌&&◌, Option, none, some, arith, ◌==◌, if◌then◌else◌,
  is_none, is_some,
}
use media_player.Prelude.Text.{null, is_blank, strip}
use media_player.Jobs.Row.{
  JobStatus, queued, processing, done, failed, pending, ready, unavailable, Job, is_queued,
  is_processing, is_done, is_failed, is_pending, is_ready, check_constraints,
}
use media_player.Jobs.Store.{Table, insert_row, update_row, delete_row, table_after}
use media_player.Jobs.Writes.{
  create_job, create_edit_job, trash_job, restore_job, mark_processing, mark_done, settle_ladder,
  mark_ladder_ready, mark_ladder_unavailable, mark_preview_ready, mark_interrupted, mark_failed,
  prepare_retry, delete_job, mark_stale_failed, new_row, set_values, transition, no_values,
  done_values, blank_key, refused, Values, owned_by, stale_error, status_is,
}
use media_player.Jobs.Trace.{Write, apply}

pub data Effect : Type 0 where
  nothing : Effect
  inserts : Job → Effect
  updates : ℕ → (Job → Bool) → (Job → Job) → Effect
  deletes : ℕ → (Job → Bool) → Effect

abbrev pub perform : Effect → Table → Table
perform nothing t = t
perform (inserts r) t = table_after (insert_row r t) t
perform (updates i c s) t = table_after (update_row i c s t) t
perform (deletes i c) t = table_after (delete_row i c t) t

abbrev pub effect : ℕ → Write → Effect
effect now (Write.create i o f s m) = inserts (new_row now i o f s none m)
effect now (Write.create_edit i o f s ops m) =
    if null ops then nothing else inserts (new_row now i o f s (some ops) m)
effect now (Write.trash i o) =
    updates i (λ j. j.owner_id == o && is_none j.deleted_at)
      (λ j. record j { deleted_at = some now })
effect now (Write.restore i o) =
    updates i (λ j. j.owner_id == o && is_some j.deleted_at) (λ j. record j { deleted_at = none })
effect now (Write.retry i o) =
    updates i (λ j. j.owner_id == o && is_failed j.status)
      (λ j. record j {
        status = queued;
        error = none;
        output_key = none;
        hls_key = none;
        hls_status = pending;
        updated_at = now;
      })
effect now (Write.claim i) =
    updates i (λ j. is_queued j.status) (set_values now processing no_values)
effect now (Write.interrupt i) =
    updates i (λ j. is_processing j.status) (set_values now queued no_values)
effect now (Write.stale i) =
    updates i (λ j. is_processing j.status)
      (λ j. record j {
        status = failed;
        error = some stale_error;
        hls_status = unavailable;
        updated_at = now;
      })
effect now (Write.ladder_unavailable i) =
    updates i (λ j. is_done j.status && is_pending j.hls_status)
      (λ j. record j { hls_status = unavailable; hls_key = none; updated_at = now })
effect now (Write.finish i d) =
    if is_blank d.output_key
    then nothing
    else if blank_key d.thumbnail_key
    then nothing
    else updates i (λ j. is_processing j.status) (set_values now done (done_values d))
effect now (Write.fail i e) =
    if is_blank e
    then nothing
    else updates i (λ j. is_processing j.status)
        (set_values now failed (record no_values { error = some (strip e) }))
effect now (Write.ladder_ready i k) =
    if is_blank k
    then nothing
    else updates i (λ j. is_done j.status && is_pending j.hls_status)
        (λ j. record j { hls_status = ready; hls_key = some k; updated_at = now })
effect now (Write.preview_ready i k) =
    if is_blank k
    then nothing
    else updates i (λ j. is_done j.status && is_ready j.hls_status)
        (λ j. record j { preview_key = some k; updated_at = now })
effect now (Write.delete i o) = deletes i (owned_by o)

transition-perform :
    (now i : ℕ) (expected next : JobStatus) (v : Values) (t : Table)
    → table_after (transition now i expected next v t) t
      ≡ perform (updates i (λ j. status_is expected j.status) (set_values now next v)) t
unfolding transition update_row refused
transition-perform now i expected next v t = ground arith

pub apply-effect : (now : ℕ) (w : Write) (t : Table) → apply now w t ≡ perform (effect now w) t
unfolding apply
apply-effect now (Write.create i o f s m) t = unfold create_job in refl
apply-effect now (Write.create_edit i o f s ops m) t = unfold create_edit_job in ground arith
apply-effect now (Write.trash i o) t = unfold trash_job in refl
apply-effect now (Write.restore i o) t = unfold restore_job in refl
apply-effect now (Write.retry i o) t = unfold prepare_retry update_row refused in ground arith
apply-effect now (Write.claim i) t =
    unfold mark_processing in transition-perform now i queued processing no_values t
apply-effect now (Write.interrupt i) t =
    unfold mark_interrupted in transition-perform now i processing queued no_values t
apply-effect now (Write.stale i) t = unfold mark_stale_failed in refl
apply-effect now (Write.ladder_unavailable i) t =
    unfold mark_ladder_unavailable settle_ladder in refl
apply-effect now (Write.finish i d) t =
    unfold mark_done in ground (arith, transition-perform now i processing done (done_values d) t)
apply-effect now (Write.fail i e) t =
    unfold mark_failed in
    ground (
      arith,
      transition-perform now i processing failed (record no_values { error = some (strip e) }) t,
    )
apply-effect now (Write.ladder_ready i k) t = unfold mark_ladder_ready settle_ladder in ground arith
apply-effect now (Write.preview_ready i k) t = unfold mark_preview_ready in ground arith
apply-effect now (Write.delete i o) t = unfold delete_job in refl

-- What an effect does to the row `j`; none if it deletes it.
abbrev pub row_effect : Effect → Job → Option Job
row_effect nothing j = some j
row_effect (inserts r) j = some j
row_effect (updates i c s) j =
    if j.id == i && c j && check_constraints (s j) then some (s j) else some j
row_effect (deletes i c) j = if j.id == i && c j then none else some j

-- An update keeps the primary key.
abbrev pub KeepsId : Effect → Type 0
KeepsId (updates i c s) = (j : Job) → (s j).id ≡ j.id
KeepsId _ = Unit {0}

-- `create_job` or `create_edit_job` for the id `i`.
abbrev pub creates : ℕ → Write → Bool
creates i (Write.create k o f s m) = k == i
creates i (Write.create_edit k o f s ops m) = k == i
creates i _ = false

-- An effect inserts no row with the id `i`.
abbrev pub Fresh : ℕ → Effect → Type 0
Fresh i (inserts r) = r.id ≢ i
Fresh i _ = Unit {0}

if-KeepsId : (b : Bool) (e : Effect) → KeepsId e → KeepsId (if b then nothing else e)
if-KeepsId true e k = tt
if-KeepsId false e k = k

pub effect-KeepsId : (now : ℕ) (w : Write) → KeepsId (effect now w)
effect-KeepsId now (Write.create i o f s m) = tt
effect-KeepsId now (Write.create_edit i o f s ops m) = if-KeepsId (null ops) _ tt
effect-KeepsId now (Write.trash i o) = λ j. refl
effect-KeepsId now (Write.restore i o) = λ j. refl
effect-KeepsId now (Write.retry i o) = λ j. refl
effect-KeepsId now (Write.claim i) = λ j. unfold set_values in refl
effect-KeepsId now (Write.interrupt i) = λ j. unfold set_values in refl
effect-KeepsId now (Write.stale i) = λ j. refl
effect-KeepsId now (Write.ladder_unavailable i) = λ j. refl
effect-KeepsId now (Write.finish i d) =
    if-KeepsId (is_blank d.output_key) _
      (if-KeepsId (blank_key d.thumbnail_key) _ (λ j. unfold set_values in refl))
effect-KeepsId now (Write.fail i e) = if-KeepsId (is_blank e) _ (λ j. unfold set_values in refl)
effect-KeepsId now (Write.ladder_ready i k) = if-KeepsId (is_blank k) _ (λ j. refl)
effect-KeepsId now (Write.preview_ready i k) = if-KeepsId (is_blank k) _ (λ j. refl)
effect-KeepsId now (Write.delete i o) = tt

if-Fresh : (i : ℕ) (b : Bool) (e : Effect) → Fresh i e → Fresh i (if b then nothing else e)
if-Fresh i true e k = tt
if-Fresh i false e k = k

pub effect-Fresh : (now i : ℕ) (w : Write) → creates i w ≡ false → Fresh i (effect now w)
effect-Fresh now i (Write.create k o f s m) c = unfold new_row in ground arith
effect-Fresh now i (Write.create_edit k o f s ops m) c =
    if-Fresh i (null ops) _ (unfold new_row in ground arith)
effect-Fresh now i (Write.finish k d) c =
    if-Fresh i (is_blank d.output_key) _ (if-Fresh i (blank_key d.thumbnail_key) _ tt)
effect-Fresh now i (Write.fail k e) c = if-Fresh i (is_blank e) _ tt
effect-Fresh now i (Write.ladder_ready k x) c = if-Fresh i (is_blank x) _ tt
effect-Fresh now i (Write.preview_ready k x) c = if-Fresh i (is_blank x) _ tt
effect-Fresh now i _ c = tt
