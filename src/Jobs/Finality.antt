-- ===== src/Jobs/Finality.antt =====
-- How one row moves: the edges of the status, what never changes, and what a finished video keeps.
use media_player.Prelude.{
  ℕ, ◌≡◌, ◌∙◌, inl, inr, Bool, true, false, not, ◌||◌, Option, none, some, List, [], ◌∷◌, arith,
  all, subst, sym, Option-cases,
}
use media_player.Jobs.Row.{
  JobStatus, queued, processing, done, failed, Job, is_queued, is_processing, is_done, is_failed,
  is_pending,
}
use media_player.Jobs.Store.{Table, find}
use media_player.Jobs.Writes.{set_values}
use media_player.Jobs.Trace.{Write, apply, run}
use media_player.Jobs.StoreLaws.{Distinct}
use media_player.Jobs.Effect.{
  effect, row_effect, apply-effect, effect-KeepsId, creates, effect-Fresh,
}
use media_player.Jobs.Evolution.{find-perform, find-perform-none, perform-Distinct}

-- The columns that identify a video.
pub record SameVideo (j k : Job) : Type 0 where
  pub same_id : k.id ≡ j.id
  pub same_owner : k.owner_id ≡ j.owner_id
  pub same_filename : k.filename ≡ j.filename
  pub same_source : k.source_key ≡ j.source_key
  pub same_operations : k.operations ≡ j.operations
  pub same_max_fps : k.max_fps ≡ j.max_fps
  pub same_created : k.created_at ≡ j.created_at

-- A finished video keeps its result; its ladder, once settled, too.
pub record KeepsResult (j k : Job) : Type 0 where
  pub still_done : k.status ≡ done
  pub same_output : k.output_key ≡ j.output_key
  pub same_width : k.width ≡ j.width
  pub same_height : k.height ≡ j.height
  pub same_duration : k.duration_seconds ≡ j.duration_seconds
  pub same_thumbnail : k.thumbnail_key ≡ j.thumbnail_key
  pub ladder_settled :
      is_pending j.hls_status ≡ false → (k.hls_status ≡ j.hls_status) × (k.hls_key ≡ j.hls_key)

-- The edges of the status diagram, and staying.
abbrev pub is_edge : JobStatus → JobStatus → Bool
is_edge queued s = is_queued s || is_processing s
is_edge processing s = true
is_edge done s = is_done s
is_edge failed s = is_failed s || is_queued s

pub record Moves (j k : Job) : Type 0 where
  pub same_video : SameVideo j k
  pub edge : is_edge j.status k.status ≡ true
  pub result : j.status ≡ done → KeepsResult j k

row_effect-Moves :
    (now : ℕ) (w : Write) (j : Job) {k : Job} → row_effect (effect now w) j ≡ some k → Moves j k
unfolding set_values
row_effect-Moves now (Write.create i o f s m) j e = ground arith
row_effect-Moves now (Write.create_edit i o f s ops m) j e = ground arith
row_effect-Moves now (Write.trash i o) j e = ground arith
row_effect-Moves now (Write.restore i o) j e = ground arith
row_effect-Moves now (Write.retry i o) j e = ground arith
row_effect-Moves now (Write.claim i) j e = ground arith
row_effect-Moves now (Write.interrupt i) j e = ground arith
row_effect-Moves now (Write.stale i) j e = ground arith
row_effect-Moves now (Write.ladder_unavailable i) j e = ground arith
row_effect-Moves now (Write.finish i d) j e = ground arith
row_effect-Moves now (Write.fail i x) j e = ground arith
row_effect-Moves now (Write.ladder_ready i x) j e = ground arith
row_effect-Moves now (Write.preview_ready i x) j e = ground arith
row_effect-Moves now (Write.delete i o) j e = ground arith

module _ (now : ℕ) (w : Write) (i : ℕ) (t : Table) (d : Distinct t) where
  pub find-apply :
      {j : Job} → find i t ≡ some j → find i (apply now w t) ≡ row_effect (effect now w) j
  find-apply f =
      rw (apply-effect now w t) (find-perform (effect now w) i t (effect-KeepsId now w) d f)

  -- Every write moves a row along the edges queued → processing → done or failed, back from
  -- processing to queued and from failed to queued, and leaves the columns that identify the
  -- video; from `done` there is no edge, and the result of a done row does not change, nor does
  -- its ladder once it is no longer pending.
  pub apply-Moves : {j k : Job} → find i t ≡ some j → find i (apply now w t) ≡ some k → Moves j k
  apply-Moves {j} f g = row_effect-Moves now w j (sym (find-apply f) ∙ g)

  pub apply-Distinct : Distinct (apply now w t)
  apply-Distinct =
      rw (apply-effect now w t) (perform-Distinct (effect now w) t (effect-KeepsId now w) d)

-- No write of the history creates a row with the id `i`, which `uuid4` gives only once.
abbrev pub NotCreated : ℕ → List (ℕ × Write) → Type 0
NotCreated i ws = all (λ e. not (creates i e.1)) ws ≡ true

pub absent_stays :
    (now : ℕ) (w : Write) (i : ℕ) (t : Table)
    → creates i w ≡ false
    → find i t ≡ none
    → find i (apply now w t) ≡ none
absent_stays now w i t c f =
    rw (apply-effect now w t) (find-perform-none (effect now w) i t (effect-Fresh now i w c) f)

-- A row is gone, or it still has the result of `j`.
abbrev pub Lasts : Job → Option Job → Type 0
Lasts j none = Unit {0}
Lasts j (some k) = SameVideo j k × KeepsResult j k

absent_forever :
    (ws : List (ℕ × Write)) (i : ℕ) (t : Table)
    → NotCreated i ws
    → find i t ≡ none
    → find i (run ws t) ≡ none
unfolding run
absent_forever [] i t n f = f
absent_forever ((now, w) ∷ ws) i t n f =
    absent_forever ws i (apply now w t) (ground arith) (absent_stays now w i t (ground arith) f)

Lasts-trans : (j k : Job) (o : Option Job) → SameVideo j k → KeepsResult j k → Lasts k o → Lasts j o
Lasts-trans j k none v r l = tt
Lasts-trans j k (some m) v r l = ground arith

Lasts-refl : (j : Job) → j.status ≡ done → Lasts j (some j)
Lasts-refl j s = ground arith

-- Once a video is done, after any history of writes it is either deleted or still done with the
-- same identity, output, size, duration and thumbnail, and a ladder that was settled is as it was
-- (ids are not reused).
pub done-Lasts :
    (ws : List (ℕ × Write)) (i : ℕ) (t : Table) {j : Job}
    → Distinct t
    → NotCreated i ws
    → find i t ≡ some j
    → j.status ≡ done
    → Lasts j (find i (run ws t))
unfolding run
done-Lasts [] i t {j} d n f s = subst (Lasts j) (sym f) (Lasts-refl j s)
done-Lasts ((now, w) ∷ ws) i t {j} d n f s = elim (Option-cases (find i (apply now w t))) [
  | inl gone ↦ rw (absent_forever ws i (apply now w t) (ground arith) gone) tt
  | inr (k, g) ↦
      let m = apply-Moves now w i t d f g in
      Lasts-trans j k (find i (run ws (apply now w t))) m.same_video (m.result s) (
        done-Lasts ws i (apply now w t) {j = k} (apply-Distinct now w i t d) (ground arith) g
          (m.result s).still_done)
]
