-- ===== src/Playback/MasterLast.antt =====
-- app/worker/hls.py: a master playlist that can be read is that of a whole ladder.
use media_player.Prelude.{
  ◌≡◌, refl, Bool, true, false, not, ◌||◌, Option, none, some, List, [], ◌∷◌, ◌++◌, arith, filter,
  all, Option-cases, Bool-cases, inl, inr, ◌∙◌, ap, sym, length, ◌≤◌, is_none, ==_refl,
}
use media_player.Prelude.Text.{Text, codes, text_eq, text_eq_iff}
use media_player.Api.Cleanup.{elem}
use media_player.Playback.SpriteRun.{Upload}
use media_player.Playback.LadderRun.{
  LadderRun, encodes, master_name, is_master, insert_path, sorted_paths, upload_order, file_key,
  stored_part, upload_files, build_files,
}

-- An upload that returns has stored its object.
abbrev pub is_honest : List Upload → Bool
is_honest us = all (λ (u : Upload). u.raises || u.stores) us

elem-insert_path : (k f : Text) (fs : List Text) → elem k (insert_path f fs) ≡ elem k (f ∷ fs)
elem-insert_path k f [] = refl
elem-insert_path k f (g ∷ gs) = ground (arith, elem-insert_path k f gs)

elem-sorted_paths : (k : Text) (fs : List Text) → elem k (sorted_paths fs) ≡ elem k fs
unfolding sorted_paths
elem-sorted_paths k [] = refl
elem-sorted_paths k (f ∷ fs) =
    elem-insert_path k f (sorted_paths fs) ∙ ground (arith, elem-sorted_paths k fs)

elem-append : (k : Text) (fs gs : List Text) → elem k (fs ++ gs) ≡ (elem k fs || elem k gs)
elem-append k [] gs = refl
elem-append k (f ∷ fs) gs = ground (arith, elem-append k fs gs)

-- A kept path is still there.
elem-filter :
    (p : Text → Bool) (k : Text) (fs : List Text)
    → p k ≡ true
    → elem k fs ≡ true
    → elem k (filter p fs) ≡ true
elem-filter p k [] kept h = ground (arith, h)
elem-filter p k (f ∷ fs) kept h = elim (Bool-cases (text_eq k f)) [
  | inr other ↦ ground (arith, other, elem-filter p k fs kept)
  | inl same ↦
      let p_f : p f ≡ true = rw (sym ((text_eq_iff k f).0 same)) kept in ground (arith, same, p_f)
]

text_eq_sym : (s t : Text) → text_eq s t ≡ text_eq t s
unfolding text_eq
text_eq_sym [] [] = refl
text_eq_sym [] (d ∷ ds) = refl
text_eq_sym (c ∷ cs) [] = refl
text_eq_sym (c ∷ cs) (d ∷ ds) = ground (arith, text_eq_sym cs ds)

cancel_prefix : (prefix f g : Text) → text_eq (prefix ++ f) (prefix ++ g) ≡ text_eq f g
unfolding text_eq
cancel_prefix [] f g = refl
cancel_prefix (c ∷ cs) f g = ground (arith, ==_refl c, cancel_prefix cs f g)

-- Two files have one key only if they are one file.
file_key-text_eq :
    (prefix f g : Text) → text_eq (file_key prefix f) (file_key prefix g) ≡ text_eq f g
unfolding file_key
file_key-text_eq prefix f g = cancel_prefix (prefix ++ codes "/") f g

module _ (prefix : Text) where
  upload_files-keeps :
      (k : Text) (us : List Upload) (fs objects : List Text)
      → elem k objects ≡ true
      → elem k (upload_files prefix us fs objects).1 ≡ true
  unfolding upload_files
  upload_files-keeps k us [] objects h = h
  upload_files-keeps k [] (f ∷ fs) objects h = h
  upload_files-keeps k (u ∷ us) (f ∷ fs) objects h =
      ground (arith, h, upload_files-keeps k us fs (stored_part u (file_key prefix f) objects))

  upload_files-stored :
      (k : Text) (us rest : List Upload) (fs objects : List Text)
      → is_honest us ≡ true
      → (upload_files prefix us fs objects).0 ≡ some rest
      → elem k fs ≡ true
      → elem (file_key prefix k) (upload_files prefix us fs objects).1 ≡ true
  unfolding upload_files
  upload_files-stored k (u ∷ us) rest (f ∷ fs) objects honest ends h =
      let then_objects = stored_part u (file_key prefix f) objects in
      elim (Bool-cases (text_eq k f)) [
        | inl same ↦ ground (
          arith,
          honest,
          ends,
          file_key-text_eq prefix k f,
          same,
          upload_files-keeps (file_key prefix k) us fs then_objects,
        )
        | inr other ↦
            ground (arith, honest, ends, h, other, upload_files-stored k us rest fs then_objects)
      ]
  upload_files-stored k us rest [] objects honest ends h = ground (arith, h)
  upload_files-stored k [] rest (f ∷ fs) objects honest ends h = ground (arith, ends)

  -- Until its turn comes, the master is not stored.
  upload_files-absent :
      (k : Text) (us : List Upload) (fs objects : List Text)
      → elem k fs ≡ false
      → elem (file_key prefix k) objects ≡ false
      → elem (file_key prefix k) (upload_files prefix us fs objects).1 ≡ false
  unfolding upload_files
  upload_files-absent k us [] objects new absent = absent
  upload_files-absent k [] (f ∷ fs) objects new absent = absent
  upload_files-absent k (u ∷ us) (f ∷ fs) objects new absent = ground (
    arith,
    new,
    absent,
    file_key-text_eq prefix k f,
    upload_files-absent k us fs (stored_part u (file_key prefix f) objects),
  )

  upload_files-append :
      (us : List Upload) (fs gs objects : List Text)
      → upload_files prefix us (fs ++ gs) objects ≡ elim ((upload_files prefix us fs objects).0) [
        | none ↦ (none, (upload_files prefix us fs objects).1)
        | some rest ↦ upload_files prefix rest gs (upload_files prefix us fs objects).1
      ]
  unfolding upload_files
  upload_files-append us [] gs objects = refl
  upload_files-append [] (f ∷ fs) gs objects = refl
  upload_files-append (u ∷ us) (f ∷ fs) gs objects =
      ground (arith, upload_files-append us fs gs (stored_part u (file_key prefix f) objects))

abbrev is_other : Text → Bool
is_other f = not (is_master f)

unlisted : (fs : List Text) → elem master_name (filter is_other fs) ≡ false
unfolding is_master
unlisted [] = refl
unlisted (f ∷ fs) = elim (Bool-cases (text_eq f master_name)) [
  | inl same ↦ ground (arith, same, unlisted fs)
  | inr other ↦ ground (arith, other, text_eq_sym master_name f, unlisted fs)
]

module _ (prefix : Text) (r : LadderRun) (objects : List Text) where
  -- What the uploads of the parts left, before the master's.
  abbrev parts : Option (List Upload) × List Text
  parts = upload_files prefix r.uploads (filter is_other (sorted_paths r.files)) objects

  sent-eq : upload_files prefix r.uploads (upload_order r.files) objects ≡ elim (parts.0) [
    | none ↦ (none, parts.1)
    | some rest ↦ upload_files prefix rest (filter is_master (sorted_paths r.files)) parts.1
  ]
  unfolding upload_order
  sent-eq =
      upload_files-append prefix r.uploads (filter is_other (sorted_paths r.files))
        (filter is_master (sorted_paths r.files)) objects

  parts-without_master :
      elem (file_key prefix master_name) objects ≡ false
      → elem (file_key prefix master_name) parts.1 ≡ false
  parts-without_master absent =
      upload_files-absent prefix master_name r.uploads (filter is_other (sorted_paths r.files))
        objects (unlisted (sorted_paths r.files)) absent

  part-stored :
      (f : Text) (rest : List Upload)
      → is_honest r.uploads ≡ true
      → parts.0 ≡ some rest
      → is_master f ≡ false
      → elem f r.files ≡ true
      → elem (file_key prefix f) parts.1 ≡ true
  part-stored f rest honest ends other h =
      upload_files-stored prefix f r.uploads rest (filter is_other (sorted_paths r.files)) objects
        honest ends
        (elem-filter is_other f (sorted_paths r.files) (ap not other)
          (elem-sorted_paths f r.files ∙ h))

  -- A master that is stored at some moment of the uploads comes with every file of the ladder.
  sent-whole :
      (f : Text)
      → is_honest r.uploads ≡ true
      → elem (file_key prefix master_name) objects ≡ false
      → elem
          (file_key prefix master_name)
          (upload_files prefix r.uploads (upload_order r.files) objects).1
        ≡ true
      → elem f r.files ≡ true
      → elem (file_key prefix f) (upload_files prefix r.uploads (upload_order r.files) objects).1
        ≡ true
  unfolding is_master
  sent-whole f honest absent there h = elim (Option-cases (parts.0)) [
    | inl stopped ↦ ground (arith, sent-eq, stopped, there, parts-without_master absent)
    | inr (rest, ends) ↦ elim (Bool-cases (text_eq f master_name)) [
      | inl same ↦ rw ((text_eq_iff f master_name).0 same) there
      | inr other ↦ ground (
        arith,
        sent-eq,
        ends,
        upload_files-keeps prefix (file_key prefix f) rest (filter is_master (sorted_paths r.files))
            parts.1 (part-stored f rest honest ends other h),
      )
    ]
  ]

-- At every moment of a build, and however it ends, with the answers of the uploads cut off where the
-- worker died: if an upload that returns has stored its object, and the master playlist was not in
-- the bucket before, then a master that is there comes with every file of the ladder.
pub master_comes_last :
    (prefix f : Text) (r : LadderRun) (objects : List Text)
    → is_honest r.uploads ≡ true
    → elem (file_key prefix master_name) objects ≡ false
    → elem (file_key prefix master_name) (build_files prefix r objects).1 ≡ true
    → elem f r.files ≡ true
    → elem (file_key prefix f) (build_files prefix r objects).1 ≡ true
unfolding build_files
master_comes_last prefix f r objects honest absent there h =
    ground (arith, absent, there, sent-whole prefix r objects f honest absent, h)

abbrev is_quiet : List Upload → Bool
is_quiet us = all (λ (u : Upload). not u.raises) us

upload_files-ends :
    (prefix : Text) (us : List Upload) (fs objects : List Text)
    → is_quiet us ≡ true
    → length fs ≤ length us
    → is_none (upload_files prefix us fs objects).0 ≡ false
unfolding upload_files
upload_files-ends prefix us [] objects quiet enough = refl
upload_files-ends prefix [] (f ∷ fs) objects quiet enough = ground (arith, enough)
upload_files-ends prefix (u ∷ us) (f ∷ fs) objects quiet enough = ground (
  arith,
  quiet,
  enough,
  upload_files-ends prefix us fs (stored_part u (file_key prefix f) objects),
)

-- A build whose encode left a master playlist, and whose uploads all return, answers with the key of
-- the master.
build_files-answers :
    (prefix : Text) (r : LadderRun) (objects : List Text)
    → encodes r ≡ true
    → elem master_name r.files ≡ true
    → is_quiet r.uploads ≡ true
    → length (upload_order r.files) ≤ length r.uploads
    → (build_files prefix r objects).0 ≡ some (file_key prefix master_name)
unfolding build_files
build_files-answers prefix r objects encoded listed quiet enough =
    let ends = upload_files-ends prefix r.uploads (upload_order r.files) objects quiet enough in
    elim (Option-cases ((upload_files prefix r.uploads (upload_order r.files) objects).0)) [
      | inl stopped ↦ ground (arith, ends, stopped)
      | inr (rest, e) ↦ ground (arith, encoded, listed, e)
    ]
