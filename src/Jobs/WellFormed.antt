-- ===== src/Jobs/WellFormed.antt =====
-- The whole table under any history of writes: rows consistent, keys distinct, no constraint hit.
use media_player.Prelude.{
  ℕ, ◌≡◌, refl, Bool, true, false, none, some, List, [], ◌∷◌, arith, if◌then◌else◌, subst, sym,
}
use media_player.Prelude.Text.{null, is_blank}
use media_player.Jobs.Store.{Table}
use media_player.Jobs.Writes.{blank_key}
use media_player.Jobs.Trace.{Write, apply, run}
use media_player.Jobs.StoreLaws.{Rows, Distinct}
use media_player.Jobs.Effect.{Effect, nothing, effect, apply-effect, effect-KeepsId}
use media_player.Jobs.Evolution.{Respects, perform-Rows, perform-Distinct}
use media_player.Jobs.Invariant.{
  IsWellFormed, set_deleted_at-IsWellFormed, processing-IsWellFormed, queued-IsWellFormed,
  failed-IsWellFormed, settled-IsWellFormed, ladder-IsWellFormed, preview-IsWellFormed,
  retry-IsWellFormed, stale-IsWellFormed, new_row-is_consistent, done-is_consistent,
}

-- Distinct primary keys, and every row consistent with its status and with the constraints.
pub record IsValid (t : Table) : Type 0 where
  pub distinct : Distinct t
  pub rows : Rows IsWellFormed t

guarded :
    (b : Bool) (e : Effect)
    → (b ≡ false → Respects IsWellFormed e)
    → Respects IsWellFormed (if b then nothing else e)
guarded true e h = tt
guarded false e h = h refl

effect-Respects : (now : ℕ) (w : Write) → Respects IsWellFormed (effect now w)
effect-Respects now (Write.create i o f s m) = λ c. (c, new_row-is_consistent now i o f s none m)
effect-Respects now (Write.create_edit i o f s ops m) =
    guarded (null ops) _ (λ _ c. (c, new_row-is_consistent now i o f s (some ops) m))
effect-Respects now (Write.trash i o) = λ j h c k. set_deleted_at-IsWellFormed j (some now) h
effect-Respects now (Write.restore i o) = λ j h c k. set_deleted_at-IsWellFormed j none h
effect-Respects now (Write.retry i o) = λ j h c k. retry-IsWellFormed now j h (ground arith)
effect-Respects now (Write.claim i) = λ j h c k. processing-IsWellFormed now j h c
effect-Respects now (Write.interrupt i) = λ j h c k. queued-IsWellFormed now j h c
effect-Respects now (Write.stale i) = λ j h c k. stale-IsWellFormed now j h c
effect-Respects now (Write.ladder_unavailable i) =
    λ j h c k. settled-IsWellFormed now j h (ground arith) (ground arith)
effect-Respects now (Write.finish i d) =
    guarded (is_blank d.output_key) _
      (λ _. guarded (blank_key d.thumbnail_key) _ (λ _ j h c k. (k, done-is_consistent now j d)))
effect-Respects now (Write.fail i e) =
    guarded (is_blank e) _ (λ b j h c k. failed-IsWellFormed now j h e b c)
effect-Respects now (Write.ladder_ready i k) =
    guarded (is_blank k) _
      (λ b j h c f. ladder-IsWellFormed now j h k (ground arith) (ground arith))
effect-Respects now (Write.preview_ready i k) =
    guarded (is_blank k) _
      (λ b j h c f. preview-IsWellFormed now j h k (ground arith) (ground arith))
effect-Respects now (Write.delete i o) = tt

pub apply-IsValid : (now : ℕ) (w : Write) (t : Table) → IsValid t → IsValid (apply now w t)
apply-IsValid now w t v = subst IsValid (sym (apply-effect now w t)) (record {
  distinct = perform-Distinct (effect now w) t (effect-KeepsId now w) v.distinct;
  rows = perform-Rows IsWellFormed (effect now w) t (effect-Respects now w) v.rows;
})

-- After any interleaving of creations, claims, results, interruptions, retries, trash, deletions
-- and the reaper's writes on a valid table (such as the empty one), primary keys are distinct and
-- every row satisfies the database constraints and the rules of its status: a queued or processing
-- row has a pending ladder and no trace of a run, a failed one an unavailable ladder and none.
pub run-IsValid : (ws : List (ℕ × Write)) (t : Table) → IsValid t → IsValid (run ws t)
unfolding run
run-IsValid [] t v = v
run-IsValid ((now, w) ∷ ws) t v = run-IsValid ws (apply now w t) (apply-IsValid now w t v)
