-- ===== src/Jobs/Claims.antt =====
-- The conditional claim: of several workers with one queue entry, one wins.
use media_player.Prelude.{
  ℕ, ◌≡◌, refl, ◌⊎◌, inl, inr, Bool, true, false, not, Option, none, some, List, [], ◌∷◌, arith,
  ◌==◌, all, Option-cases,
}
use media_player.Jobs.Row.{JobStatus, processing, Job, queued, is_queued}
use media_player.Jobs.Store.{
  Table, not_found, invalid_transition, ok, err, find, replace, update_row,
}
use media_player.Jobs.Queries.{get_job}
use media_player.Jobs.Writes.{
  Values, no_values, status_is, mark_processing, transition, refused, set_values,
}
use media_player.Jobs.Trace.{Write, apply, run}
use media_player.Jobs.StoreLaws.{Distinct, find-replace_self, replace-Distinct, find-id}
use media_player.Jobs.Effect.{effect, row_effect, creates}
use media_player.Jobs.Finality.{find-apply, apply-Distinct, absent_stays}

-- What a transition that went through has done.
pub transition_ok :
    (now i : ℕ) (expected next : JobStatus) (v : Values) (t : Table) (j : Job) (t' : Table)
    → transition now i expected next v t ≡ ok j t'
    → (k : Job) × (find i t ≡ some k)
      × (status_is expected k.status ≡ true)
      × (j ≡ set_values now next v k)
      × (t' ≡ replace j t)
unfolding transition update_row refused
transition_ok now i expected next v t j t' h = elim (Option-cases (find i t)) [
  | inl absent ↦ absurd (ground arith)
  | inr (k, f) ↦ (k, f, ground arith, ground arith, ground arith)
]

-- The writes that can put the row `i` in `queued`.
abbrev pub requeues : ℕ → Write → Bool
requeues i (Write.interrupt k) = k == i
requeues i (Write.retry k o) = k == i
requeues i w = creates i w

abbrev not_queued : Option Job → Bool
not_queued none = true
not_queued (some j) = not (is_queued j.status)

row_effect-not_queued :
    (now : ℕ) (w : Write) (j : Job)
    → requeues j.id w ≡ false
    → is_queued j.status ≡ false
    → not_queued (row_effect (effect now w) j) ≡ true
unfolding set_values
row_effect-not_queued now (Write.create i o f s m) j r q = ground arith
row_effect-not_queued now (Write.create_edit i o f s ops m) j r q = ground arith
row_effect-not_queued now (Write.trash i o) j r q = ground arith
row_effect-not_queued now (Write.restore i o) j r q = ground arith
row_effect-not_queued now (Write.retry i o) j r q = ground arith
row_effect-not_queued now (Write.claim i) j r q = ground arith
row_effect-not_queued now (Write.interrupt i) j r q = ground arith
row_effect-not_queued now (Write.stale i) j r q = ground arith
row_effect-not_queued now (Write.ladder_unavailable i) j r q = ground arith
row_effect-not_queued now (Write.finish i d) j r q = ground arith
row_effect-not_queued now (Write.fail i x) j r q = ground arith
row_effect-not_queued now (Write.ladder_ready i x) j r q = ground arith
row_effect-not_queued now (Write.preview_ready i x) j r q = ground arith
row_effect-not_queued now (Write.delete i o) j r q = ground arith

requeues-creates : (i : ℕ) (w : Write) → requeues i w ≡ false → creates i w ≡ false
requeues-creates i (Write.interrupt k) h = refl
requeues-creates i (Write.retry k o) h = refl
requeues-creates i w h = h

apply-not_queued :
    (now i : ℕ) (w : Write) (t : Table)
    → Distinct t
    → requeues i w ≡ false
    → not_queued (find i t) ≡ true
    → not_queued (find i (apply now w t)) ≡ true
apply-not_queued now i w t d r q = elim (Option-cases (find i t)) [
  | inl gone ↦ rw (absent_stays now w i t (requeues-creates i w r) gone) refl
  | inr (j, f) ↦
      rw (find-apply now w i t d f)
        (row_effect-not_queued now w j (rw (find-id i t f) r) (ground arith))
]

run-not_queued :
    (ws : List (ℕ × Write)) (i : ℕ) (t : Table)
    → Distinct t
    → all (λ e. not (requeues i e.1)) ws ≡ true
    → not_queued (find i t) ≡ true
    → not_queued (find i (run ws t)) ≡ true
unfolding run
run-not_queued [] i t d r q = q
run-not_queued ((now, w) ∷ ws) i t d r q =
    run-not_queued ws i (apply now w t) (apply-Distinct now w i t d) (ground arith)
      (apply-not_queued now i w t d (ground arith) q)

claim_needs_queued :
    (now i : ℕ) (t : Table)
    → not_queued (find i t) ≡ true
    → (mark_processing now i t ≡ err not_found) ⊎ (mark_processing now i t ≡ err invalid_transition)
unfolding mark_processing transition update_row refused get_job
claim_needs_queued now i t q = ground arith

claimed-not_queued :
    (now i : ℕ) (t t' : Table) (j : Job)
    → Distinct t
    → mark_processing now i t ≡ ok j t'
    → (not_queued (find i t') ≡ true) × Distinct t'
claimed-not_queued now i t t' j d h =
    let (k, f, q, e, u) =
      transition_ok now i queued processing no_values t j t' (unfold mark_processing in h) in
    (
      rw u (
          rw (find-replace_self i j t (rw e (unfold set_values in find-id i t f)) f)
            (rw e (unfold set_values in refl))),
      rw u (replace-Distinct j t d),
    )

-- After a worker has claimed a job, a second claim is refused as long as the job is neither
-- interrupted nor retried in between (ids are not reused), whatever other writes come.
pub claim_once :
    (now later i : ℕ) (ws : List (ℕ × Write)) (t t' : Table) (j : Job)
    → Distinct t
    → mark_processing now i t ≡ ok j t'
    → all (λ e. not (requeues i e.1)) ws ≡ true
    → (mark_processing later i (run ws t') ≡ err not_found)
      ⊎ (mark_processing later i (run ws t') ≡ err invalid_transition)
claim_once now later i ws t t' j d h r =
    let (q, d') = claimed-not_queued now i t t' j d h in
    claim_needs_queued later i (run ws t') (run-not_queued ws i t' d' r q)
