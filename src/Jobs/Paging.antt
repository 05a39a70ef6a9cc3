-- ===== src/Jobs/Paging.antt =====
-- app/repositories/jobs.py: `list_jobs`, `list_trash`, `list_expired_trash`, the stale lists.
-- ORDER BY is an insertion sort by the test that each statement's keys make.
use media_player.Prelude.{
  ℕ, Bool, false, ◌&&◌, ◌||◌, Option, none, some, List, [], ◌∷◌, ◌==◌, ltb, leb, if◌then◌else◌,
  is_none, is_some, filter, take, drop,
}
use media_player.Jobs.Row.{JobStatus, Job, is_done, is_pending}
use media_player.Jobs.Store.{Table}
use media_player.Jobs.Writes.{owned_by, status_is}

abbrev pub Before : Type 0
Before = Job → Job → Bool

unfoldable pub insert_by : Before → Job → List Job → List Job
insert_by before j [] = j ∷ []
insert_by before j (k ∷ ks) =
    let rest = insert_by before j ks in if before j k then j ∷ k ∷ ks else k ∷ rest

unfoldable pub order_by : Before → List Job → List Job
order_by before [] = []
order_by before (j ∷ js) = insert_by before j (order_by before js)

-- `ORDER BY key DESC, id`
abbrev pub latest_first : (Job → ℕ) → Before
latest_first key j k = ltb (key k) (key j) || (key j == key k && leb j.id k.id)

abbrev pub created : Job → ℕ
created j = j.created_at

-- The time a row was trashed, for rows that were.
abbrev pub trashed_at : Job → ℕ
trashed_at j = elim (j.deleted_at) [ none ↦ 0 | some d ↦ d ]

-- `LIMIT limit OFFSET offset`
abbrev pub page : ℕ → ℕ → List Job → List Job
page limit offset js = take limit (drop offset js)

unfoldable pub list_jobs : Option ℕ → ℕ → ℕ → Table → List Job
unfolding order_by insert_by
list_jobs owner limit offset t =
    page limit offset
      (order_by (latest_first created) (filter (λ j. is_none j.deleted_at && owned_by owner j) t))

unfoldable pub list_trash : ℕ → ℕ → ℕ → Table → List Job
unfolding order_by insert_by
list_trash owner limit offset t = page limit offset (
    order_by (latest_first trashed_at)
      (filter (λ j. j.owner_id == owner && is_some j.deleted_at) t))

-- `ORDER BY deleted_at` and `ORDER BY updated_at`
abbrev pub trashed_first : Before
trashed_first j k = leb (trashed_at j) (trashed_at k)

abbrev pub updated_first : Before
updated_first j k = leb j.updated_at k.updated_at

abbrev pub trashed_before : ℕ → Job → Bool
trashed_before before j = elim (j.deleted_at) [ none ↦ false | some d ↦ ltb d before ]

unfoldable pub list_expired_trash : ℕ → Table → List Job
unfolding order_by insert_by
list_expired_trash before t = order_by trashed_first (filter (trashed_before before) t)

unfoldable pub list_stale : JobStatus → ℕ → Table → List Job
unfolding order_by insert_by
list_stale status before t =
    order_by updated_first (filter (λ j. status_is status j.status && ltb j.updated_at before) t)

unfoldable pub list_stale_ladders : ℕ → Table → List Job
unfolding order_by insert_by
list_stale_ladders before t =
    order_by updated_first
      (filter (λ j. is_done j.status && is_pending j.hls_status && ltb j.updated_at before) t)
