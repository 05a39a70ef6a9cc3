-- ===== src/Api/Cleaned.antt =====
-- app/services/job_cleanup.py: which objects a deletion touches.
use media_player.Prelude.{
  ◌≡◌, refl, Bool, true, false, not, ◌&&◌, ◌||◌, Option, none, some, List, [], ◌∷◌, ◌++◌, arith, ap,
  Bool-cases, Option-cases, inl, inr, any, is_some, is_none,
}
use media_player.Prelude.Text.{Text, null, text_eq, text_eq_iff}
use media_player.Prelude.Search.{starts_with}
use media_player.Jobs.Row.{Job}
use media_player.Api.Cleanup.{
  Storage, own_keys, prefixes, folder_of, listed, fromkeys, elem, if_has, delete_job_storage,
}

-- No key stands twice.
abbrev pub all_differ : List Text → Bool
all_differ [] = true
all_differ (k ∷ ks) = not (elem k ks) && all_differ ks

-- The storage lists the key under the prefix.
abbrev pub lists : Storage → Text → Text → Bool
lists st k p = elim (st.list_objects p) [ none ↦ false | some names ↦ elem k names ]

elem-append : (x : Text) (ks ls : List Text) → elem x (ks ++ ls) ≡ (elem x ks || elem x ls)
elem-append x [] ls = refl
elem-append x (k ∷ ks) ls = ground (arith, elem-append x ks ls)

elem-fromkeys :
    (x : Text) (seen ks : List Text) → elem x (fromkeys seen ks) ≡ (elem x ks && not (elem x seen))
unfolding fromkeys
elem-fromkeys x seen [] = refl
elem-fromkeys x seen (k ∷ ks) = elim (Bool-cases (text_eq x k)) [
  | inl same ↦
      ground
        (arith, ap (λ y. elem y seen) ((text_eq_iff x k).0 same), elem-fromkeys x (k ∷ seen) ks)
  | inr other ↦ ground (arith, elem-fromkeys x (k ∷ seen) ks)
]

text_eq_refl : (k : Text) → text_eq k k ≡ true
text_eq_refl k = (text_eq_iff k k).1 refl

fromkeys-differ : (seen ks : List Text) → all_differ (fromkeys seen ks) ≡ true
unfolding fromkeys
fromkeys-differ seen [] = refl
fromkeys-differ seen (k ∷ ks) =
    ground (arith, fromkeys-differ (k ∷ seen) ks, elem-fromkeys k (k ∷ seen) ks, text_eq_refl k)

elem-listed :
    (st : Storage) (best_effort : Bool) (x : Text) (ps : List Text) {names : List Text}
    → listed st best_effort ps ≡ some names
    → elem x names ≡ any (lists st x) ps
unfolding listed
elem-listed st b x [] h = ground arith
elem-listed st b x (p ∷ ps) {names} h = elim (Option-cases (listed st b ps)) [
  | inl missing ↦ ground arith
  | inr (more, e) ↦ elim (Option-cases (st.list_objects p)) [
    | inl raised ↦ ground (arith, elem-listed st b x ps {names = more} e)
    | inr (found, f) ↦
        ground (arith, elem-listed st b x ps {names = more} e, elem-append x found more)
  ]
]

listed-best_effort : (st : Storage) (ps : List Text) → is_some (listed st true ps) ≡ true
unfolding listed
listed-best_effort st [] = refl
listed-best_effort st (p ∷ ps) = ground (arith, listed-best_effort st ps)

-- The key is one of those that the row itself names: the output, the thumbnail, and the source of an
-- upload. An empty key names nothing.
abbrev pub is_key : Text → Option Text → Bool
is_key k none = false
is_key k (some key) = not (null key) && text_eq k key

abbrev pub is_named : Text → Job → Bool
is_named k job =
    (is_none job.operations && text_eq k job.source_key)
    || is_key k job.output_key
    || is_key k job.thumbnail_key

-- The storage lists the key under the folder of a master playlist or of a preview's index.
abbrev pub is_beside : Storage → Text → Option Text → Bool
is_beside st k none = false
is_beside st k (some key) = not (null key) && lists st k (folder_of key)

elem-if_has : (k : Text) (o : Option Text) → elem k (if_has (λ key. key) o) ≡ is_key k o
elem-if_has k none = refl
elem-if_has k (some key) = ground arith

any-if_has :
    (st : Storage) (k : Text) (o : Option Text)
    → any (lists st k) (if_has folder_of o) ≡ is_beside st k o
any-if_has st k none = refl
any-if_has st k (some key) = ground arith

any-append : (p : Text → Bool) (ks ls : List Text) → any p (ks ++ ls) ≡ (any p ks || any p ls)
any-append p [] ls = refl
any-append p (k ∷ ks) ls = ground (arith, any-append p ks ls)

own_keys-named : (k : Text) (job : Job) → elem k (own_keys job) ≡ is_named k job
unfolding own_keys
own_keys-named k job = ground (
  arith,
  elem-append k (if_has (λ key. key) job.output_key) (if_has (λ key. key) job.thumbnail_key),
  elem-if_has k job.output_key,
  elem-if_has k job.thumbnail_key,
)

prefixes-beside :
    (st : Storage) (k : Text) (job : Job)
    → any (lists st k) (prefixes job)
      ≡ (is_beside st k job.hls_key || is_beside st k job.preview_key)
unfolding prefixes
prefixes-beside st k job = ground (
  arith,
  any-append (lists st k) (if_has folder_of job.hls_key) (if_has folder_of job.preview_key),
  any-if_has st k job.hls_key,
  any-if_has st k job.preview_key,
)

-- A deletion that ignores failures never raises. It tries each object once, and tries exactly these:
-- the output, the thumbnail and, if the job is an upload and no edit, the source; and what the
-- storage lists in the folders of the ladder's master and of the preview's index.
pub delete_job_storage_lem :
    (st : Storage) (job : Job)
    → let c = delete_job_storage st job true in
      (c.raised ≡ false)
      × (all_differ c.attempted ≡ true)
      × ((k : Text)
          → elem k c.attempted
            ≡ (is_named k job || is_beside st k job.hls_key || is_beside st k job.preview_key))
unfolding delete_job_storage
delete_job_storage_lem st job = elim (Option-cases (listed st true (prefixes job))) [
  | inl missing ↦ absurd (ground (arith, listed-best_effort st (prefixes job)))
  | inr (names, e) ↦ (
    ground arith,
    ground (arith, fromkeys-differ [] (own_keys job ++ names)),
    λ k. ground (
      arith,
      elem-fromkeys k [] (own_keys job ++ names),
      elem-append k (own_keys job) names,
      elem-listed st true k (prefixes job) {names = names} e,
      own_keys-named k job,
      prefixes-beside st k job,
    ),
  )
]

outside :
    (st : Storage) (k : Text) (ps : List Text)
    → ((p : Text) → lists st k p ≡ true → starts_with p k ≡ true)
    → any (λ p. starts_with p k) ps ≡ false
    → any (lists st k) ps ≡ false
outside st k [] sound h = refl
outside st k (p ∷ ps) sound h = ground (arith, sound p, outside st k ps sound)

-- Deleting an edit leaves the file that it was made from, if that file is not the edit's own output
-- or thumbnail and lies in neither of its folders: whether failures are ignored or not, the source
-- is no key whose deletion is tried. The listing is taken to name only objects under its prefix.
pub edit-spares_source :
    (st : Storage) (job : Job) (best_effort : Bool)
    → is_some job.operations ≡ true
    → elem job.source_key (if_has (λ k. k) job.output_key ++ if_has (λ k. k) job.thumbnail_key)
      ≡ false
    → any (λ p. starts_with p job.source_key) (prefixes job) ≡ false
    → ((p : Text) → lists st job.source_key p ≡ true → starts_with p job.source_key ≡ true)
    → elem job.source_key (delete_job_storage st job best_effort).attempted ≡ false
unfolding delete_job_storage own_keys
edit-spares_source st job b edit own folders sound =
    elim (Option-cases (listed st b (prefixes job))) [
      | inl missing ↦ ground arith
      | inr (names, e) ↦ ground (
        arith,
        elem-fromkeys job.source_key [] (own_keys job ++ names),
        elem-append job.source_key (own_keys job) names,
        elem-listed st b job.source_key (prefixes job) {names = names} e,
        outside st job.source_key (prefixes job) sound folders,
      )
    ]
