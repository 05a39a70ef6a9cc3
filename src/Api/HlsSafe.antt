-- ===== src/Api/HlsSafe.antt =====
-- app/api/hls.py: no path leads out of the folder of the owner's ladder.
use mathlib.Core.Option.{some-injective}
use media_player.Prelude.{
  ℕ, ◌≡◌, refl, sym, ap, subst, ◌∙◌, Bool, true, false, not, ◌&&◌, Option, none, some, [], ◌∷◌,
  ◌++◌, arith, ◌==◌, if◌then◌else◌, Bool-cases, Option-cases, inl, inr, ==_iff,
}
use media_player.Prelude.Text.{Text, codes, null, text_eq, text_eq_iff}
use media_player.Prelude.Search.{behind}
use media_player.Jobs.Row.{Job}
use media_player.Jobs.Store.{Table, find}
use media_player.Jobs.Queries.{get_job}
use media_player.Api.HlsRoute.{
  is_digit, is_word, span, is_file, is_rung_file, is_extra_file, is_extra_rung, safe_hls_path,
  part_key, get_hls_part, serve, HlsAnswer, not_found, body, redirect,
}

-- No component of the path is empty or begins with a dot; so none is `.` or `..`. `start`: a
-- component begins here.
abbrev pub stays : Bool → Text → Bool
stays start [] = not start
stays start (c ∷ t) =
    if c == 47 then not start && stays true t else not (start && c == 46) && stays false t

abbrev Plain : (ℕ → Bool) → Type 0
Plain p = (c : ℕ) → p c ≡ true → (c == 47 ≡ false) × (c == 46 ≡ false)

digits-Plain : Plain is_digit
unfolding is_digit
digits-Plain c h = ground arith

words-Plain : Plain is_word
unfolding is_word is_digit
words-Plain c h = ground arith

-- Past the characters of a class without slash and dot, what counts is the rest.
stays-rest : (p : ℕ → Bool) (t : Text) → Plain p → stays false t ≡ stays false (span p t).1
unfolding span
stays-rest p [] q = refl
stays-rest p (c ∷ t) q = elim (Bool-cases (p c)) [
  | inl fits ↦ ground (arith, q c fits, stays-rest p t q)
  | inr other ↦ ground arith
]

stays-span :
    (p : ℕ → Bool) (start : Bool) (t : Text)
    → Plain p
    → null (span p t).0 ≡ false
    → stays start t ≡ stays false (span p t).1
unfolding span
stays-span p start [] q h = ground arith
stays-span p start (c ∷ t) q h = elim (Bool-cases (p c)) [
  | inl fits ↦ ground (arith, q c fits, stays-rest p t q)
  | inr other ↦ ground arith
]

behind-append : (s t u : Text) → behind s t ≡ some u → t ≡ s ++ u
behind-append [] t u h = some-injective t u h
behind-append (c ∷ s) [] u h = ground arith
behind-append (c ∷ s) (d ∷ t) u h = ground (arith, behind-append s t u)

stays_text : (t u : Text) → text_eq t u ≡ true → stays false u ≡ true → stays false t ≡ true
stays_text t u e h = subst (λ x. stays false x ≡ true) (sym ((text_eq_iff t u).0 e)) h

is_file-stays : (t : Text) → is_file t ≡ true → stays true t ≡ true
unfolding is_file
is_file-stays t h =
    let rest = (span is_word t).1 in
    stays-span is_word true t words-Plain (ground arith)
    ∙ (elim (Bool-cases (text_eq rest (codes ".ts"))) [
      | inl ts ↦ stays_text rest (codes ".ts") ts refl
      | inr other ↦ stays_text rest (codes ".m3u8") (ground arith) refl
    ])

text-stays : (t u : Text) → text_eq t u ≡ true → stays true u ≡ true → stays true t ≡ true
text-stays t u e h = subst (λ x. stays true x ≡ true) (sym ((text_eq_iff t u).0 e)) h

-- A number, a slash and a path that stays.
numbered :
    (start : Bool) (t u : Text)
    → null (span is_digit t).0 ≡ false
    → behind (codes "/") (span is_digit t).1 ≡ some u
    → stays true u ≡ true
    → stays start t ≡ true
numbered start t u n b h =
    stays-span is_digit start t digits-Plain n
    ∙ ap (λ x. stays false x) (behind-append (codes "/") (span is_digit t).1 u b)
    ∙ h

is_extra_file-stays : (t : Text) → is_extra_file t ≡ true → stays true t ≡ true
unfolding is_extra_file
is_extra_file-stays t h = elim (Bool-cases (text_eq t (codes "index.m3u8"))) [
  | inl index ↦ text-stays t (codes "index.m3u8") index refl
  | inr others ↦ elim (Bool-cases (text_eq t (codes "init.mp4"))) [
    | inl init ↦ text-stays t (codes "init.mp4") init refl
    | inr segments ↦ elim (Option-cases (behind (codes "seg") t)) [
      | inl none_such ↦ absurd (ground arith)
      | inr (s, e) ↦
          ap (λ x. stays true x) (behind-append (codes "seg") t s e)
          ∙ stays-span is_digit false s digits-Plain (ground arith)
          ∙ stays_text (span is_digit s).1 (codes ".m4s") (ground arith) refl
    ]
  ]
]

is_rung_file-stays : (t : Text) → is_rung_file t ≡ true → stays true t ≡ true
unfolding is_rung_file
is_rung_file-stays t h = elim (Option-cases (behind (codes "v") t)) [
  | inl none_such ↦ ground arith
  | inr (s, e) ↦ elim (Option-cases (behind (codes "/") (span is_digit s).1)) [
    | inl no_slash ↦ ground arith
    | inr (u, f) ↦
        ap (λ x. stays true x) (behind-append (codes "v") t s e)
        ∙ numbered false s u (ground arith) f (is_file-stays u (ground arith))
  ]
]

is_extra_rung-stays : (s : Text) → is_extra_rung (some s) ≡ true → stays false (47 ∷ s) ≡ true
unfolding is_extra_rung
is_extra_rung-stays s h = elim (Option-cases (behind (codes "/") (span is_digit s).1)) [
  | inl no_slash ↦ absurd (ground arith)
  | inr (u, f) ↦ numbered true s u (ground arith) f (is_extra_file-stays u (ground arith))
]

-- The folder of a kind, and the rung in it.
kind_path :
    (kind path : Text)
    → ((s : Text) → path ≡ kind ++ s → stays true path ≡ stays false (47 ∷ s))
    → is_extra_rung (behind kind path) ≡ true
    → stays true path ≡ true
unfolding is_extra_rung
kind_path kind path split h = elim (Option-cases (behind kind path)) [
  | inl none_such ↦ absurd (ground arith)
  | inr (s, e) ↦
      split s (behind-append kind path s e)
      ∙ is_extra_rung-stays s (sym (ap (λ x. is_extra_rung x) e) ∙ h)
]

safe_hls_path-stays : (path : Text) → safe_hls_path path ≡ true → stays true path ≡ true
unfolding safe_hls_path
safe_hls_path-stays path h = elim (Bool-cases (is_file path)) [
  | inl file ↦ is_file-stays path file
  | inr others ↦ elim (Bool-cases (is_rung_file path)) [
    | inl rung ↦ is_rung_file-stays path rung
    | inr extras ↦ elim (Bool-cases (is_extra_rung (behind (codes "hdr/") path))) [
      | inl hdr ↦ kind_path (codes "hdr/") path (λ s e. ap (λ x. stays true x) e) hdr
      | inr av1 ↦ kind_path (codes "av1/") path (λ s e. ap (λ x. stays true x) e) (ground arith)
    ]
  ]
]

-- The object that an answer shows or points at.
abbrev pub key_of : HlsAnswer → Option Text
key_of not_found = none
key_of (body key _) = some key
key_of (redirect key) = some key

serve-key :
    (read_object : Text → Option Text) (hls_key path : Text) {key : Text}
    → key_of (serve read_object hls_key path) ≡ some key
    → key ≡ part_key hls_key path
unfolding serve
serve-key read_object hls_key path h = ground arith

-- A row that a user may see is in the table, is the user's, and is not in the trash.
get_job-visible :
    (i owner : ℕ) (t : Table) (job : Job)
    → get_job i (some owner) false t ≡ some job
    → (find i t ≡ some job) × (job.owner_id ≡ owner) × (job.deleted_at ≡ none)
unfolding get_job
get_job-visible i owner t job h = elim (Option-cases (find i t)) [
  | inl missing ↦ absurd (ground arith)
  | inr (j, e) ↦ elim (Bool-cases (j.owner_id == owner)) [
    | inr other ↦ absurd (ground (arith, e, other, h))
    | inl same ↦ elim (Option-cases (j.deleted_at)) [
      | inr (d, trashed) ↦ absurd (ground (arith, e, same, trashed, h))
      | inl kept ↦
          let here : j ≡ job = some-injective j job (ground (arith, e, same, kept, h)) in
          (
            e ∙ ap some here,
            sym (ap (λ (k : Job). k.owner_id) here) ∙ (==_iff j.owner_id owner).0 same,
            sym (ap (λ (k : Job). k.deleted_at) here) ∙ kept,
          )
    ]
  ]
]

-- Whatever path a user asks for, an object is shown or signed only if the table has a job of the id
-- asked for that the user owns, that is not in the trash and has a ladder; the object lies under the
-- folder of that ladder's master, and no component of the rest of its key is empty or begins with a
-- dot, so none leads upwards.
pub get_hls_part-stays :
    (read_object : Text → Option Text) (job_id owner : ℕ) (path : Text) (t : Table) (key : Text)
    → key_of (get_hls_part read_object job_id path owner t) ≡ some key
    → (job : Job) × (hls_key : Text) × (find job_id t ≡ some job)
      × (job.owner_id ≡ owner)
      × (job.deleted_at ≡ none)
      × (job.hls_key ≡ some hls_key)
      × (key ≡ part_key hls_key path)
      × (stays true path ≡ true)
unfolding get_hls_part
get_hls_part-stays read_object job_id owner path t key h =
    elim (Option-cases (get_job job_id (some owner) false t)) [
      | inl missing ↦ absurd (ground arith)
      | inr (job, e) ↦ elim (Option-cases (job.hls_key)) [
        | inl no_ladder ↦ absurd (ground arith)
        | inr (hls_key, f) ↦ elim (Bool-cases (safe_hls_path path)) [
          | inl safe ↦
              let (here, owned, kept) = get_job-visible job_id owner t job e in
              (
                job,
                hls_key,
                here,
                owned,
                kept,
                f,
                serve-key read_object hls_key path {key = key} (ground (arith, e, f, safe, h)),
                safe_hls_path-stays path safe,
              )
          | inr unsafe ↦ absurd (ground (arith, e, f, unsafe, h))
        ]
      ]
    ]
