-- ===== src/Worker/Reaping.antt =====
-- What a pass of the reaper does to each row.
use media_player.Prelude.{
  ℕ, ◌+◌, ◌≡◌, refl, ◌∙◌, sym, ap, subst, Bool, true, false, not, ◌&&◌, ◌||◌, Option, none, some,
  List, [], ◌∷◌, arith, ltb, ◌==◌, ==_iff, if◌then◌else◌, any, filter, Bool-cases, Option-cases,
  inl, inr,
}
use mathlib.Core.Option.{some-injective}
use media_player.Jobs.Row.{Job, JobStatus, processing, is_processing, unavailable}
use media_player.Jobs.Store.{Table, Result, ok, err, find, replace, update_row, table_after}
use media_player.Jobs.StoreLaws.{Distinct, find-id, find-replace_self, find-replace_ne, find-Rows}
use media_player.Jobs.Paging.{list_stale, order_by, insert_by, updated_first, Before}
use media_player.Jobs.Writes.{mark_stale_failed, stale_error}
use media_player.Jobs.Invariant.{IsWellFormed, stale-IsWellFormed}
use media_player.Jobs.Trace.{Write, apply}
use media_player.Jobs.WellFormed.{IsValid, apply-IsValid}
use media_player.Worker.Reaper.{
  Redis, Pass, table_of, ◌then_pass◌, counted, is_dead, reap, Times, reap_stale,
}

-- The row that the reaper writes for a processing one.
abbrev pub failed_row : ℕ → Job → Job
failed_row now j = record j {
  status = JobStatus.failed;
  error = some stale_error;
  hls_status = unavailable;
  updated_at = now;
}

abbrev pub reaped_row : ℕ → Job → Job
reaped_row now j = if is_processing j.status then failed_row now j else j

abbrev pub reaped_if : ℕ → Bool → Option Job → Option Job
reaped_if now b none = none
reaped_if now b (some j) = some (if b then reaped_row now j else j)

mark_stale_failed-row :
    (now k : ℕ) (t : Table) (j : Job)
    → IsValid t
    → find k t ≡ some j
    → mark_stale_failed now k t ≡ (
        if is_processing j.status
        then ok (some (failed_row now j)) (replace (failed_row now j) t)
        else ok none t)
unfolding mark_stale_failed update_row
mark_stale_failed-row now k t j v f = elim (Bool-cases (is_processing j.status)) [
  | inl p ↦ ground (arith, (stale-IsWellFormed now j (find-Rows IsWellFormed k t v.rows f) p).0)
  | inr n ↦ ground arith
]

mark_stale_failed-none :
    (now k : ℕ) (t : Table) → find k t ≡ none → mark_stale_failed now k t ≡ ok none t
unfolding mark_stale_failed update_row
mark_stale_failed-none now k t f = ground arith

reaped_if-false : (now : ℕ) (x : Option Job) → reaped_if now false x ≡ x
reaped_if-false now none = refl
reaped_if-false now (some j) = refl

reaped_if-twice :
    (now : ℕ) (b c : Bool) (x : Option Job)
    → reaped_if now b (reaped_if now c x) ≡ reaped_if now (c || b) x
reaped_if-twice now b c none = refl
reaped_if-twice now b c (some j) = ground arith

-- One job of the loop.
marked-find :
    (now i k : ℕ) (t : Table)
    → IsValid t
    → find i (table_after (mark_stale_failed now k t) t) ≡ reaped_if now (k == i) (find i t)
marked-find now i k t v = elim (Option-cases (find k t)) [
  | inl absent ↦ elim (Bool-cases (k == i)) [
    | inl same ↦
        ground
          (arith, mark_stale_failed-none now k t absent, ap (λ x. find x t) ((==_iff k i).0 same))
    | inr differ ↦
        ground (arith, mark_stale_failed-none now k t absent, reaped_if-false now (find i t))
  ]
  | inr (j, f) ↦ elim (Bool-cases (k == i)) [
    | inl same ↦ ground (
      arith,
      mark_stale_failed-row now k t j v f,
      ap (λ x. find x t) ((==_iff k i).0 same),
      ap (λ x. find x (replace (failed_row now j) t)) ((==_iff k i).0 same),
      find-replace_self k (failed_row now j) t (find-id k t f) f,
    )
    | inr differ ↦ ground (
      arith,
      mark_stale_failed-row now k t j v f,
      reaped_if-false now (find i t),
      find-id k t f,
      find-replace_ne i (failed_row now j) t,
    )
  ]
]

abbrev pub is_ok : Result (Option Job) → Bool
is_ok (ok _ _) = true
is_ok (err _) = false

mark_stale_failed-ok :
    (now k : ℕ) (t : Table) → IsValid t → is_ok (mark_stale_failed now k t) ≡ true
mark_stale_failed-ok now k t v = elim (Option-cases (find k t)) [
  | inl absent ↦ ground (arith, mark_stale_failed-none now k t absent)
  | inr (j, e) ↦ ground (arith, mark_stale_failed-row now k t j v e)
]

-- The loop goes on after a write that returned.
pub counted_goes_on :
    (n : ℕ) (ids : List ℕ) (x : Result (Option Job)) (t : Table) (f : ℕ → List ℕ → Table → Pass)
    (P : Pass → Type 0)
    → is_ok x ≡ true
    → ((n' : ℕ) → P (f n' ids (table_after x t)))
    → P (counted n ids x t then_pass f)
counted_goes_on n ids (ok (some _) t') t f P e h = h (n + 1)
counted_goes_on n ids (ok none t') t f P e h = h n
counted_goes_on n ids (err _) t f P e h = cc

marked-IsValid :
    (now k : ℕ) (t : Table) → IsValid t → IsValid (table_after (mark_stale_failed now k t) t)
unfolding apply
marked-IsValid now k t v = apply-IsValid now (Write.stale k) t v

pub and_true : (b : Bool) → b ≡ (b && true)
and_true b = ground arith

pub and_false : (b c : Bool) → c ≡ ((b && false) || c)
and_false b c = ground arith

reap-find :
    (now i : ℕ) (redis : Redis) (lease n : ℕ) (ids : List ℕ) (jobs : List Job) (t : Table)
    → IsValid t
    → find i (table_of (reap now redis lease jobs n ids t))
      ≡ reaped_if now (any (λ j. j.id == i && is_dead redis lease j) jobs) (find i t)
unfolding reap
reap-find now i redis lease n ids [] t v = sym (reaped_if-false now (find i t))
reap-find now i redis lease n ids (job ∷ jobs) t v =
    elim (is_dead redis lease job)
      as (λ b.
        find i (
          table_of (
            if b
            then counted n ids (mark_stale_failed now job.id t) t
              then_pass reap now redis lease jobs
            else reap now redis lease jobs n ids t))
        ≡ reaped_if now ((job.id == i && b) || any (λ j. j.id == i && is_dead redis lease j) jobs)
            (find i t)) [
              | true ↦
                  counted_goes_on n ids (mark_stale_failed now job.id t) t
                    (reap now redis lease jobs)
                    (λ p.
                      find i (table_of p)
                      ≡ reaped_if now
                          ((job.id == i && true)
                            || any (λ j. j.id == i && is_dead redis lease j) jobs)
                          (find i t))
                    (mark_stale_failed-ok now job.id t v)
                    (λ n'.
                      let rest = any (λ j. j.id == i && is_dead redis lease j) jobs in
                      reap-find now i redis lease n' ids jobs
                        (table_after (mark_stale_failed now job.id t) t)
                        (marked-IsValid now job.id t v)
                      ∙ ap (reaped_if now rest) (marked-find now i job.id t v)
                      ∙ reaped_if-twice now rest (job.id == i) (find i t)
                      ∙ ap (λ b. reaped_if now (b || rest) (find i t)) (and_true (job.id == i)))
              | false ↦
                  reap-find now i redis lease n ids jobs t v
                  ∙ ap (λ b. reaped_if now b (find i t))
                      (and_false (job.id == i) (any (λ j. j.id == i && is_dead redis lease j) jobs))
            ]

any-insert_by :
    (p : Job → Bool) (before : Before) (j : Job) (js : List Job)
    → any p (insert_by before j js) ≡ (p j || any p js)
unfolding insert_by
any-insert_by p before j [] = refl
any-insert_by p before j (k ∷ ks) = ground (arith, any-insert_by p before j ks)

pub any-order_by :
    (p : Job → Bool) (before : Before) (js : List Job) → any p (order_by before js) ≡ any p js
unfolding order_by
any-order_by p before [] = refl
any-order_by p before (j ∷ js) =
    ground (arith, any-insert_by p before j (order_by before js), any-order_by p before js)

any-absent :
    (i : ℕ) (q : Job → Bool) (c : Job → Bool) (t : Table)
    → find i t ≡ none
    → any (λ j. j.id == i && q j) (filter c t) ≡ false
unfolding find
any-absent i q c [] h = refl
any-absent i q c (j ∷ t) h = ground (arith, any-absent i q c t)

pub any-filter :
    (i : ℕ) (q : Job → Bool) (c : Job → Bool) (t : Table) (r : Job)
    → Distinct t
    → find i t ≡ some r
    → any (λ j. j.id == i && q j) (filter c t) ≡ (c r && q r)
unfolding find
any-filter i q c [] r d h = cc
any-filter i q c (j ∷ t) r d h = elim (Bool-cases (j.id == i)) [
  | inl same ↦
      let e : some j ≡ some r = ground (arith, h) in
      let rest = any-absent i q c t (subst (λ k. find k t ≡ none) ((==_iff j.id i).0 same) d.0) in
      ground (arith, rest, ap q (some-injective j r e), ap c (some-injective j r e))
  | inr differ ↦ ground (arith, any-filter i q c t r d.1)
]

stale_choice :
    (now : ℕ) (r : Job) (b d : Bool)
    → reaped_if now ((is_processing r.status && b) && d) (some r)
      ≡ some (if (is_processing r.status && b) && d then failed_row now r else r)
stale_choice now r b d = elim (Bool-cases (is_processing r.status)) [
  | inl p ↦ ground arith
  | inr n ↦ ground arith
]

-- The first loop of a pass, on a valid table and with no other writer: a processing row that has
-- not been written since the first limit is failed exactly if its lease has run out or no worker
-- keeps it alive; every other row stays as it is.
pub reap_stale-row :
    (time : Times) (redis : Redis) (t : Table) (i : ℕ) (r : Job)
    → IsValid t
    → find i t ≡ some r
    → find i (table_of (reap_stale time redis t))
      ≡ some (
          if (is_processing r.status && ltb r.updated_at time.abandoned_before)
            && (ltb r.updated_at time.lease_before || not (redis.heartbeat_alive r.id))
          then failed_row time.now r
          else r)
unfolding list_stale
reap_stale-row time redis t i r v f =
    let must = is_dead redis time.lease_before in
    let stale = λ (j : Job). is_processing j.status && ltb j.updated_at time.abandoned_before in
    reap-find time.now i redis time.lease_before 0 []
      (list_stale processing time.abandoned_before t) t v
    ∙ ap (λ b. reaped_if time.now b (find i t))
        (any-order_by (λ j. j.id == i && must j) updated_first (filter stale t)
          ∙ any-filter i must stale t r v.distinct f)
    ∙ ap (reaped_if time.now (stale r && must r)) f
    ∙ stale_choice time.now r (ltb r.updated_at time.abandoned_before) (must r)
