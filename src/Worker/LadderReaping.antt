-- ===== src/Worker/LadderReaping.antt =====
-- What a pass of the reaper does to the pending ladder of each row.
use media_player.Prelude.{
  ℕ, ◌≡◌, refl, ◌∙◌, sym, ap, Bool, true, false, not, ◌&&◌, ◌||◌, Option, none, some, List, [], ◌∷◌,
  arith, ltb, ◌==◌, ==_iff, if◌then◌else◌, any, filter, Bool-cases, Option-cases, inl, inr,
}
use media_player.Jobs.Row.{Job, is_done, is_pending, unavailable}
use media_player.Jobs.Store.{Table, ok, find, replace, update_row, table_after}
use media_player.Jobs.StoreLaws.{find-id, find-replace_self, find-replace_ne, find-Rows}
use media_player.Jobs.Paging.{list_stale_ladders, updated_first}
use media_player.Jobs.Writes.{mark_ladder_unavailable, settle_ladder}
use media_player.Jobs.Invariant.{IsWellFormed, settled-IsWellFormed}
use media_player.Jobs.Trace.{Write, apply}
use media_player.Jobs.WellFormed.{IsValid, apply-IsValid}
use media_player.Worker.Reaper.{
  Redis, RqStatus, table_of, ◌then_pass◌, counted, LadderFate, wait, requeued, given_up,
  ladder_fate, settle_stale_ladders,
}
use media_player.Worker.Reaping.{
  counted_goes_on, any-order_by, any-filter, and_true, and_false, is_ok,
}

abbrev pub has_pending : Job → Bool
has_pending j = is_done j.status && is_pending j.hls_status

-- The row with its ladder written off.
abbrev pub written_off : ℕ → Job → Job
written_off now j = record j { hls_status = unavailable; hls_key = none; updated_at = now }

abbrev settled_if : ℕ → Bool → Option Job → Option Job
settled_if now b none = none
settled_if now b (some j) = some (if b && has_pending j then written_off now j else j)

unavailable-row :
    (now k : ℕ) (t : Table) (j : Job)
    → IsValid t
    → find k t ≡ some j
    → mark_ladder_unavailable now k t ≡ (
        if has_pending j
        then ok (some (written_off now j)) (replace (written_off now j) t)
        else ok none t)
unfolding mark_ladder_unavailable settle_ladder update_row
unavailable-row now k t j v f = elim (Bool-cases (has_pending j)) [
  | inl p ↦
      let d : is_done j.status ≡ true = ground (arith, p) in
      let q : is_pending j.hls_status ≡ true = ground (arith, p) in
      ground (arith, f, p, (settled-IsWellFormed now j (find-Rows IsWellFormed k t v.rows f) d q).0)
  | inr n ↦ ground (arith, f, n)
]

unavailable-none :
    (now k : ℕ) (t : Table) → find k t ≡ none → mark_ladder_unavailable now k t ≡ ok none t
unfolding mark_ladder_unavailable settle_ladder update_row
unavailable-none now k t f = ground (arith, f)

settled_if-false : (now : ℕ) (x : Option Job) → settled_if now false x ≡ x
settled_if-false now none = refl
settled_if-false now (some j) = refl

settled_if-twice :
    (now : ℕ) (b c : Bool) (x : Option Job)
    → settled_if now b (settled_if now c x) ≡ settled_if now (c || b) x
settled_if-twice now b c none = refl
settled_if-twice now b c (some j) = ground arith

unavailable-find :
    (now i k : ℕ) (t : Table)
    → IsValid t
    → find i (table_after (mark_ladder_unavailable now k t) t) ≡ settled_if now (k == i) (find i t)
unavailable-find now i k t v = elim (Option-cases (find k t)) [
  | inl absent ↦ elim (Bool-cases (k == i)) [
    | inl same ↦
        ground (arith, unavailable-none now k t absent, ap (λ x. find x t) ((==_iff k i).0 same))
    | inr differ ↦ ground (arith, unavailable-none now k t absent, settled_if-false now (find i t))
  ]
  | inr (j, f) ↦ elim (Bool-cases (k == i)) [
    | inl same ↦ ground (
      arith,
      unavailable-row now k t j v f,
      ap (λ x. find x t) ((==_iff k i).0 same),
      ap (λ x. find x (replace (written_off now j) t)) ((==_iff k i).0 same),
      find-replace_self k (written_off now j) t (find-id k t f) f,
    )
    | inr differ ↦ ground (
      arith,
      unavailable-row now k t j v f,
      settled_if-false now (find i t),
      find-id k t f,
      find-replace_ne i (written_off now j) t,
    )
  ]
]

unavailable-ok :
    (now k : ℕ) (t : Table) → IsValid t → is_ok (mark_ladder_unavailable now k t) ≡ true
unavailable-ok now k t v = elim (Option-cases (find k t)) [
  | inl absent ↦ ground (arith, unavailable-none now k t absent)
  | inr (j, e) ↦ ground (arith, unavailable-row now k t j v e)
]

unavailable-IsValid :
    (now k : ℕ) (t : Table) → IsValid t → IsValid (table_after (mark_ladder_unavailable now k t) t)
unfolding apply
unavailable-IsValid now k t v = apply-IsValid now (Write.ladder_unavailable k) t v

abbrev is_given_up : LadderFate → Bool
is_given_up wait = false
is_given_up requeued = false
is_given_up given_up = true

settle-find :
    (now i : ℕ) (redis : Redis) (n : ℕ) (ids : List ℕ) (jobs : List Job) (t : Table)
    → IsValid t
    → find i (table_of (settle_stale_ladders now redis jobs n ids t))
      ≡ settled_if now (any (λ j. j.id == i && is_given_up (ladder_fate redis j)) jobs) (find i t)
unfolding settle_stale_ladders
settle-find now i redis n ids [] t v = sym (settled_if-false now (find i t))
settle-find now i redis n ids (job ∷ jobs) t v =
    let rest = any (λ j. j.id == i && is_given_up (ladder_fate redis j)) jobs in
    elim (ladder_fate redis job)
      as (λ f.
        find i (
          table_of (elim f [
            | wait ↦ settle_stale_ladders now redis jobs n ids t
            | requeued ↦ settle_stale_ladders now redis jobs n (job.id ∷ ids) t
            | given_up ↦
                counted n ids (mark_ladder_unavailable now job.id t) t
                then_pass settle_stale_ladders now redis jobs
          ]))
        ≡ settled_if now ((job.id == i && is_given_up f) || rest) (find i t)) [
          | wait ↦
              settle-find now i redis n ids jobs t v
              ∙ ap (λ b. settled_if now b (find i t)) (and_false (job.id == i) rest)
          | requeued ↦
              settle-find now i redis n (job.id ∷ ids) jobs t v
              ∙ ap (λ b. settled_if now b (find i t)) (and_false (job.id == i) rest)
          | given_up ↦
              counted_goes_on n ids (mark_ladder_unavailable now job.id t) t
                (settle_stale_ladders now redis jobs)
                (λ p.
                  find i (table_of p) ≡ settled_if now ((job.id == i && true) || rest) (find i t))
                (unavailable-ok now job.id t v)
                (λ n'.
                  settle-find now i redis n' ids jobs
                    (table_after (mark_ladder_unavailable now job.id t) t)
                    (unavailable-IsValid now job.id t v)
                  ∙ ap (settled_if now rest) (unavailable-find now i job.id t v)
                  ∙ settled_if-twice now rest (job.id == i) (find i t)
                  ∙ ap (λ b. settled_if now (b || rest) (find i t)) (and_true (job.id == i)))
        ]

-- No entry of the queue will bring the ladder: it has one, and that entry has ended, or is started
-- with no worker that keeps it alive.
abbrev pub is_over : Option RqStatus → Bool → Bool
is_over none alive = false
is_over (some RqStatus.queued) alive = false
is_over (some RqStatus.deferred) alive = false
is_over (some RqStatus.scheduled) alive = false
is_over (some RqStatus.started) alive = not alive
is_over (some RqStatus.finished) alive = true
is_over (some RqStatus.failed) alive = true
is_over (some RqStatus.stopped) alive = true
is_over (some RqStatus.canceled) alive = true

fate_is_over :
    (redis : Redis) (j : Job) (s : Option RqStatus)
    → redis.ladder_queue_status j.id ≡ s
    → is_given_up (ladder_fate redis j) ≡ is_over s (redis.ladder_alive j.id)
unfolding ladder_fate
fate_is_over redis j none e = ground (arith, e)
fate_is_over redis j (some RqStatus.queued) e = ground (arith, e)
fate_is_over redis j (some RqStatus.started) e = ground (arith, e)
fate_is_over redis j (some RqStatus.deferred) e = ground (arith, e)
fate_is_over redis j (some RqStatus.scheduled) e = ground (arith, e)
fate_is_over redis j (some RqStatus.finished) e = ground (arith, e)
fate_is_over redis j (some RqStatus.failed) e = ground (arith, e)
fate_is_over redis j (some RqStatus.stopped) e = ground (arith, e)
fate_is_over redis j (some RqStatus.canceled) e = ground (arith, e)

-- The last loop of a pass, on a valid table and with no other writer: the ladder of a video that is
-- done is written off exactly if it is pending, the row has not been written since the limit, and the
-- ladder's entry in its queue has ended, or is started with no heartbeat; every other row stays as it
-- is.
pub settle_stale_ladders-row :
    (now before : ℕ) (redis : Redis) (t : Table) (i : ℕ) (r : Job)
    → IsValid t
    → find i t ≡ some r
    → find i (table_of (settle_stale_ladders now redis (list_stale_ladders before t) 0 [] t))
      ≡ some (
          if is_done r.status
            && is_pending r.hls_status
            && ltb r.updated_at before
            && is_over (redis.ladder_queue_status r.id) (redis.ladder_alive r.id)
          then written_off now r
          else r)
unfolding list_stale_ladders
settle_stale_ladders-row now before redis t i r v f =
    let up = λ (j : Job). is_given_up (ladder_fate redis j) in
    let stale =
      λ (j : Job). is_done j.status && is_pending j.hls_status && ltb j.updated_at before in
    settle-find now i redis 0 [] (list_stale_ladders before t) t v
    ∙ ap (λ b. settled_if now b (find i t))
        (any-order_by (λ j. j.id == i && up j) updated_first (filter stale t)
          ∙ any-filter i up stale t r v.distinct f)
    ∙ ap (settled_if now (stale r && up r)) f
    ∙ ground (arith, fate_is_over redis r (redis.ladder_queue_status r.id) refl)
