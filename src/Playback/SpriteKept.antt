-- ===== src/Playback/SpriteKept.antt =====
-- app/worker/preview.py: nothing is left behind that the row does not point at, and the row points
-- at nothing that is not there.
use media_player.Prelude.{
  ℕ, ◌≡◌, refl, true, false, not, ◌&&◌, Option, none, some, arith, all, Option-cases, Bool-cases,
  inl, inr, ◌⊎◌, subst, ◌∙◌,
}
use media_player.Prelude.Text.{Text, text_eq, text_eq_iff, is_blank}
use media_player.Prelude.Search.{starts_with}
use media_player.Jobs.Row.{Job, is_done, is_ready, check_constraints}
use media_player.Jobs.Store.{
  Table, Result, ok, err, find, update_row, replace, value_error, integrity_error,
}
use media_player.Jobs.StoreLaws.{find-id, find-replace_self}
use media_player.Jobs.Writes.{mark_preview_ready}
use media_player.Api.Cleanup.{elem}
use media_player.Playback.Sprite.{plan_sprite}
use media_player.Playback.Listing.{all-filter}
use media_player.Playback.SpriteRun.{
  Stored, Upload, Run, SpriteSettings, Preview, stored, gone, raised, put_object, discard_preview,
  sheet_key, index_key, preview_prefix_for, record_index, publish, run_preview,
}

-- How a run may end, for the folder of its preview.
pub data Ends (r : Run) (job_id : ℕ) (prefix : Text) (w : Stored) : Preview × Stored → Type 0 where
  untouched : Ends r job_id prefix w (raised, w)
  cleared :
      (answer : Preview) (w' : Stored)
      → (answer ≡ raised) ⊎ (answer ≡ gone)
      → w'.jobs ≡ w.jobs
      → (r.discards ≡ true → all (λ k. not (starts_with prefix k)) w'.objects ≡ true)
      → Ends r job_id prefix w (answer, w')
  shown :
      (w' : Stored) (j : Job)
      → elem (sheet_key prefix) w'.objects ≡ true
      → elem (index_key prefix) w'.objects ≡ true
      → find job_id w'.jobs ≡ some j
      → j.preview_key ≡ some (index_key prefix)
      → Ends r job_id prefix w (stored (index_key prefix), w')

discard-clears :
    (r : Run) (prefix : Text) (w : Stored)
    → r.discards ≡ true
    → all (λ k. not (starts_with prefix k)) (discard_preview r prefix w).objects ≡ true
unfolding discard_preview
discard-clears r prefix w h =
    ground (arith, h, all-filter (λ (k : Text). not (starts_with prefix k)) w.objects)

discard-jobs : (r : Run) (prefix : Text) (w : Stored) → (discard_preview r prefix w).jobs ≡ w.jobs
unfolding discard_preview
discard-jobs r prefix w = ground arith

put-jobs : (u : Upload) (key : Text) (w : Stored) → (put_object u key w).jobs ≡ w.jobs
put-jobs u key w = ground arith

text_eq_refl : (t : Text) → text_eq t t ≡ true
text_eq_refl t = (text_eq_iff t t).1 refl

put-elem :
    (u : Upload) (key : Text) (w : Stored)
    → u.stores ≡ true
    → elem key (put_object u key w).objects ≡ true
put-elem u key w h = ground (arith, h, text_eq_refl key)

put-keeps :
    (u : Upload) (key k : Text) (w : Stored)
    → elem k w.objects ≡ true
    → elem k (put_object u key w).objects ≡ true
put-keeps u key k w h = ground (arith, h)

-- What `mark_preview_ready` may answer.
pub data Marked (i : ℕ) (key : Text) (t : Table) : Result (Option Job) → Type 0 where
  refused : (e : _) → Marked i key t (err e)
  no_row : Marked i key t (ok none t)
  written :
      (j : Job) (t' : Table)
      → find i t' ≡ some j
      → j.preview_key ≡ some key
      → Marked i key t (ok (some j) t')

mark_preview_ready-Marked :
    (now i : ℕ) (key : Text) (t : Table) → Marked i key t (mark_preview_ready now i key t)
unfolding mark_preview_ready update_row
mark_preview_ready-Marked now i key t = elim (Bool-cases (is_blank key)) [
  | inl blank ↦ subst (λ x. Marked i key t x) (ground arith) (refused value_error)
  | inr key_shows ↦ elim (Option-cases (find i t)) [
    | inl missing ↦ subst (λ x. Marked i key t x) (ground arith) no_row
    | inr (j, e) ↦
        let j' : Job = record j { preview_key = some key; updated_at = now } in
        elim (Bool-cases (is_done j.status && is_ready j.hls_status)) [
          | inr unfit ↦ subst (λ x. Marked i key t x) (ground arith) no_row
          | inl fit ↦ elim (Bool-cases (check_constraints j')) [
            | inl fine ↦
                subst (λ x. Marked i key t x) (ground arith)
                  (written j' (replace j' t)
                    (find-replace_self i j' t {j = j} (find-id i t {j = j} e) e) refl)
            | inr broken ↦ subst (λ x. Marked i key t x) (ground arith) (refused integrity_error)
          ]
        ]
  ]
]

module _ (r : Run) (now job_id : ℕ) (prefix : Text) (w : Stored) where
  discarded :
      (answer : Preview) (w' : Stored)
      → (answer ≡ raised) ⊎ (answer ≡ gone)
      → w'.jobs ≡ w.jobs
      → Ends r job_id prefix w (answer, discard_preview r prefix w')
  discarded answer w' a j =
      cleared answer (discard_preview r prefix w') a (discard-jobs r prefix w' ∙ j)
        (discard-clears r prefix w')

  -- The end of a run that stored both objects.
  recorded :
      (w' : Stored)
      → w'.jobs ≡ w.jobs
      → elem (sheet_key prefix) w'.objects ≡ true
      → elem (index_key prefix) w'.objects ≡ true
      → Ends r job_id prefix w (record_index r now job_id prefix w')
  unfolding record_index
  recorded w' same sheet index = elim (Bool-cases r.connects) [
    | inr lost ↦
        subst (λ x. Ends r job_id prefix w x) (ground (arith, lost))
          (discarded raised w' (inl refl) same)
    | inl fine ↦
        subst (λ x. Ends r job_id prefix w x) (ground (arith, fine))
          (of_mark (mark_preview_ready now job_id (index_key prefix) w'.jobs)
            (mark_preview_ready-Marked now job_id (index_key prefix) w'.jobs))
  ]
    where
      of_mark :
          (x : Result (Option Job))
          → Marked job_id (index_key prefix) w'.jobs x
          → Ends r job_id prefix w (elim x [
            | err _ ↦ (raised, discard_preview r prefix w')
            | ok none jobs ↦ (gone, discard_preview r prefix (record w' { jobs = jobs }))
            | ok (some _) jobs ↦ (stored (index_key prefix), record w' { jobs = jobs })
          ])
      of_mark _ (refused e) = discarded raised w' (inl refl) same
      of_mark _ no_row = discarded gone w' (inr refl) same
      of_mark _ (written j t' f k) = shown (record w' { jobs = t' }) j sheet index f k

  module _ (sheet_stored : r.sheet.raises ≡ false → r.sheet.stores ≡ true)
      (index_stored : r.index.raises ≡ false → r.index.stores ≡ true) where
    published : Ends r job_id prefix w (publish r now job_id prefix w)
    unfolding publish
    published =
        let a = put_object r.sheet (sheet_key prefix) w in
        let b = put_object r.index (index_key prefix) a in
        let jobs_a = put-jobs r.sheet (sheet_key prefix) w in
        let jobs_b = put-jobs r.index (index_key prefix) a ∙ jobs_a in
        elim (Bool-cases r.sheet.raises) [
          | inl lost ↦
              subst (λ x. Ends r job_id prefix w x) (ground (arith, lost))
                (discarded raised a (inl refl) jobs_a)
          | inr fine ↦ elim (Bool-cases r.index.raises) [
            | inl lost ↦
                subst (λ x. Ends r job_id prefix w x) (ground (arith, fine, lost))
                  (discarded raised b (inl refl) jobs_b)
            | inr there ↦
                subst (λ x. Ends r job_id prefix w x) (ground (arith, fine, there))
                  (recorded b jobs_b
                    (put-keeps r.index (index_key prefix) (sheet_key prefix) a
                      (put-elem r.sheet (sheet_key prefix) w (sheet_stored fine)))
                    (put-elem r.index (index_key prefix) a (index_stored there)))
          ]
        ]

-- However the making of a preview goes, if an upload that returns has stored its object: either
-- nothing was touched, or no object is left in the folder of the preview, provided that the storage
-- let it be cleared, and no row has changed; or the sheet and the index are stored and the row
-- points at the index.
pub run_preview-Ends :
    (s : SpriteSettings) (r : Run) (now job_id : ℕ) (output_key : Text) (w : Stored)
    → (r.sheet.raises ≡ false → r.sheet.stores ≡ true)
    → (r.index.raises ≡ false → r.index.stores ≡ true)
    → Ends r job_id (preview_prefix_for output_key) w (run_preview s r now job_id output_key w)
unfolding run_preview
run_preview-Ends s r now job_id output_key w a b = elim (Bool-cases r.download) [
  | inr lost ↦
      subst (λ x. Ends r job_id (preview_prefix_for output_key) w x) (ground (arith, lost))
        untouched
  | inl fine ↦ elim (Option-cases (r.probe)) [
    | inl unread ↦
        subst (λ x. Ends r job_id (preview_prefix_for output_key) w x)
          (ground (arith, fine, unread)) untouched
    | inr ((width, height, duration), e) ↦
        elim (Option-cases
          (plan_sprite width height duration s.interval_seconds s.tile_width 10 200)) [
            | inl unplanned ↦
                subst (λ x. Ends r job_id (preview_prefix_for output_key) w x)
                  (ground (arith, fine, e, unplanned)) untouched
            | inr (layout, planned) ↦ elim (Bool-cases r.render) [
              | inr failed ↦
                  subst (λ x. Ends r job_id (preview_prefix_for output_key) w x)
                    (ground (arith, fine, e, planned, failed)) untouched
              | inl rendered ↦
                  subst (λ x. Ends r job_id (preview_prefix_for output_key) w x)
                    (ground (arith, fine, e, planned, rendered))
                    (published r now job_id (preview_prefix_for output_key) w a b)
            ]
          ]
  ]
]
