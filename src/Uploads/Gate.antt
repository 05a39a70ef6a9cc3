-- ===== src/Uploads/Gate.antt =====
-- What a completion needs (app/api/multipart_uploads.py), and the number of open sessions
-- (app/repositories/uploads.py).
use media_player.Prelude.{
  ℕ, ◌≤◌, ◌≡◌, ◌⊎◌, refl, ◌∙◌, subst, ap, Bool, true, false, not, Option, none, some, List, ◌∷◌,
  arith, ◌==◌, is_none, if◌then◌else◌, ==_iff, inl, inr, filter, length, any, ◌&&◌, Bool-cases,
  Option-cases,
}
use media_player.Uploads.Session.{
  UploadState, is_open, completing, ready, completed, aborting, aborted, Upload, Part, StoredPart,
  holds_slot, add_upload, added, max_open_uploads,
}
use media_player.Uploads.Parts.{manifest_of, validate_parts}
use media_player.Uploads.Sniff.{sniff_video_type}
use media_player.Uploads.Routes.{
  World, Others, Replies, Response, http, accepted, Step, stop, go, ◌>=>◌, owned, active,
  has_storage, put, discard, manifest_is,
}
use media_player.Uploads.Completion.{
  head_of, frozen, freeze, settle, complete, settle_if_completing, deliver_if_ready, enter, answer,
  stopped, state_is_completing,
}

-- What `settle` has to see before it goes on.
pub record Checked (r : Replies) (parts : List Part) (u : Upload) : Type 0 where
  pub same_manifest : manifest_is (manifest_of parts) u.manifest ≡ true
  pub same_size : head_of r ≡ some (some u.size)
  pub bytes : List ℕ
  pub read : r.sniff ≡ some bytes
  pub is_video : is_none (sniff_video_type bytes) ≡ false

abbrev pub is_accepted : Response → Bool
is_accepted (accepted _) = true
is_accepted _ = false

-- A step that refuses unless `A` holds.
pub data Gated (A : Type 0) : Step → Type 0 where
  refused :
      {response : Response} {w : World} → is_accepted response ≡ false → Gated A (stop response w)
  passed : {s : Step} → A → Gated A s

if-Gated :
    {A : Type 0} {a b : Step} (c : Bool)
    → (c ≡ true → Gated A a)
    → (c ≡ false → Gated A b)
    → Gated A (if c then a else b)
if-Gated true p q = p refl
if-Gated false p q = q refl

option-Gated :
    {A B : Type 0} {s : Step} {f : B → Step} (o : Option B)
    → Gated A s
    → ((b : B) → o ≡ some b → Gated A (f b))
    → Gated A (elim o [ none ↦ s | some b ↦ f b ])
option-Gated none k h = k
option-Gated (some b) k h = h b refl

discard_refuses :
    (others : Others) (r : Replies) (u : Upload) (w : World) (code : ℕ)
    → is_accepted (discard others r u w (http code)).0 ≡ false
unfolding discard owned
discard_refuses others r u w code = ground arith

discard-Gated :
    {A : Type 0} (others : Others) (r : Replies) (u : Upload) (w : World) (code : ℕ)
    → Gated A (stopped (discard others r u w (http code)))
discard-Gated others r u w code = refused (discard_refuses others r u w code)

settle-Gated :
    (now : ℕ) (others : Others) (r : Replies) (parts : List Part) (u : Upload) (w : World)
    → Gated (Checked r parts u) (settle now others r parts u w)
unfolding settle
settle-Gated now others r parts u w =
    if-Gated (not (manifest_is (manifest_of parts) u.manifest)) (λ _. refused refl)
      (λ same. option-Gated (head_of r) (refused refl) (λ seen e.
        option-Gated seen (refused refl) (λ size e'.
          if-Gated (not (size == u.size)) (λ _. discard-Gated others r u w 422)
            (λ fits. option-Gated r.sniff (refused refl) (λ bytes read.
              if-Gated (is_none (sniff_video_type bytes)) (λ _. discard-Gated others r u w 415)
                (λ video. passed (record {
                  same_manifest = ground arith;
                  same_size = e ∙ ap some (e' ∙ ap some ((==_iff size u.size).0 (ground arith)));
                  bytes = bytes;
                  read = read;
                  is_video = video;
                })))))))

bind-Gated : {A : Type 0} (s : Step) (f : Upload → World → Step) → Gated A s → Gated A (s >=> f)
bind-Gated _ f (refused n) = refused n
bind-Gated _ f (passed a) = passed a

answer-Gated : {A : Type 0} {i : ℕ} (s : Step) → Gated A s → (answer s).0 ≡ accepted i → A
answer-Gated _ (refused n) h = ground (arith, ap is_accepted h)
answer-Gated _ (passed a) h = a

-- A session that this call, or another one before it, has settled.
pub data Settled (r : Replies) (parts : List Part) (u : Upload) : Type 0 where
  before : (u.state ≡ ready) ⊎ (u.state ≡ completed) → Settled r parts u
  by_checks : u.state ≡ completing → Checked r parts u → Settled r parts u

-- What an accepted completion of the session `u` has seen.
pub data Seen (now : ℕ) (others : Others) (r : Replies) (parts : List Part) (u : Upload) (w : World)
    : Type 0 where
  settled : Settled r parts u → Seen now others r parts u w
  opened :
      (actual : List StoredPart) (u' : Upload)
      → u.state ≡ is_open
      → active now u ≡ none
      → r.parts ≡ some actual
      → validate_parts u (manifest_of parts) actual ≡ true
      → (others.after_freeze (put (frozen parts u) w)).row ≡ some u'
      → Settled r parts u'
      → Seen now others r parts u w

-- The call from where it holds a row that is no longer open.
abbrev rest_of : ℕ → Others → Replies → List Part → Step → Step
rest_of now others r parts s = s >=> settle_if_completing now others r parts >=> deliver_if_ready r

module _ (now : ℕ) (others : Others) (r : Replies) (parts : List Part) where
  rest-Settled :
      (i : ℕ) (u : Upload) (w : World) (s : UploadState)
      → u.state ≡ s
      → (answer (rest_of now others r parts (go u w))).0 ≡ accepted i
      → Settled r parts u
  rest-Settled i u w is_open e h = absurd (ground (arith, e, h))
  rest-Settled i u w completing e h = by_checks e (
      answer-Gated (rest_of now others r parts (go u w))
        (bind-Gated (settle_if_completing now others r parts u w) (deliver_if_ready r) (
          if-Gated (state_is_completing u) (λ _. settle-Gated now others r parts u w)
            (λ n. absurd (ground (arith, e, n)))))
        h)
  rest-Settled i u w ready e h = before (inl e)
  rest-Settled i u w completed e h = before (inr e)
  rest-Settled i u w aborting e h = absurd (ground (arith, e, h))
  rest-Settled i u w aborted e h = absurd (ground (arith, e, h))

  -- A step that ended without accepting, or that goes on with the row in the table.
  data Reads (w : World) : Step → Type 0 where
    ended :
        {response : Response} {w' : World}
        → is_accepted response ≡ false
        → Reads w (stop response w')
    read_row : (u : Upload) → w.row ≡ some u → Reads w (go u w)

  owned-Reads : (owner : ℕ) (w : World) → Reads w (owned owner w)
  unfolding owned
  owned-Reads owner w = elim (Bool-cases (any (λ k. k == owner) w.users)) [
    | inr unknown ↦
        subst (λ x. Reads w x) (ground (arith, unknown)) (ended {response = http 404} {w' = w} refl)
    | inl known ↦ elim (Option-cases (w.row)) [
      | inl gone ↦
          subst (λ x. Reads w x) (ground (arith, known, gone))
            (ended {response = http 404} {w' = w} refl)
      | inr (u, e) ↦ elim (Bool-cases (u.owner_id == owner)) [
        | inl own ↦ subst (λ x. Reads w x) (ground (arith, known, e, own)) (read_row u e)
        | inr other ↦
            subst (λ x. Reads w x) (ground (arith, known, e, other))
              (ended {response = http 404} {w' = w} refl)
      ]
    ]
  ]

  read-Settled :
      (i : ℕ) (w : World) (s : Step)
      → Reads w s
      → (answer (rest_of now others r parts s)).0 ≡ accepted i
      → (u : Upload) × (w.row ≡ some u) × Settled r parts u
  read-Settled i w _ (ended n) h = absurd (ground (arith, ap is_accepted h, n))
  read-Settled i w _ (read_row u e) h = (u, e, rest-Settled i u w u.state refl h)

  moved :
      (i : ℕ) (s s' : Step)
      → s ≡ s'
      → (answer (rest_of now others r parts s)).0 ≡ accepted i
      → (answer (rest_of now others r parts s')).0 ≡ accepted i
  moved i s s' e h = subst (λ x. (answer (rest_of now others r parts x)).0 ≡ accepted i) e h

  freeze-Seen :
      (i : ℕ) (u : Upload) (w : World)
      → u.state ≡ is_open
      → (answer (rest_of now others r parts (freeze now others r parts u w))).0 ≡ accepted i
      → Seen now others r parts u w
  unfolding freeze
  freeze-Seen i u w e h = elim (Option-cases (active now u)) [
    | inr (code, shut) ↦ absurd (ground (arith, shut, h))
    | inl live ↦ elim (Bool-cases (has_storage u)) [
      | inr bare ↦ absurd (ground (arith, live, bare, h))
      | inl stored ↦ elim (Option-cases (r.parts)) [
        | inl unread ↦ absurd (ground (arith, live, stored, unread, h))
        | inr (actual, found) ↦ elim (Bool-cases (validate_parts u (manifest_of parts) actual)) [
          | inr unfit ↦ absurd (ground (arith, live, stored, found, unfit, h))
          | inl fit ↦
              let w' = others.after_freeze (put (frozen parts u) w) in
              let (u', row, end) =
                read-Settled i w' (owned u.owner_id w') (owned-Reads u.owner_id w') (
                  moved i (freeze now others r parts u w) (owned u.owner_id w')
                    (ground (arith, live, stored, found, fit)) h) in
              opened actual u' e live found fit row end
        ]
      ]
    ]
  ]

  enter-Seen :
      (i : ℕ) (u : Upload) (w : World) (s : UploadState)
      → u.state ≡ s
      → (answer (rest_of now others r parts (enter now others r parts u w))).0 ≡ accepted i
      → Seen now others r parts u w
  unfolding enter
  enter-Seen i u w is_open e h =
      freeze-Seen i u w e (
        moved i (enter now others r parts u w) (freeze now others r parts u w) (ground (arith, e))
          h)
  enter-Seen i u w completing e h = settled (
      rest-Settled i u w completing e
        (moved i (enter now others r parts u w) (go u w) (ground (arith, e)) h))
  enter-Seen i u w ready e h = settled (before (inl e))
  enter-Seen i u w completed e h = settled (before (inr e))
  enter-Seen i u w aborting e h = absurd (ground (arith, e, h))
  enter-Seen i u w aborted e h = absurd (ground (arith, e, h))

-- A completion of a session is accepted only if the session was settled before, so that its job is
-- made, or after every check of this call, whatever other calls do between its commits. Where the
-- session was open, it has not expired and the stored parts fit the request, which names them in its
-- manifest; and the row that is read again after that is settled in turn. Where the row that the call
-- holds is completing, the request names the parts that were frozen, the object in the storage has
-- exactly the declared size, and its first bytes are those of a video.
pub complete-checked :
    (now owner i : ℕ) (others : Others) (r : Replies) (parts : List Part) (u : Upload) (w : World)
    → w.row ≡ some u
    → (complete now owner others r parts w).0 ≡ accepted i
    → Seen now others r parts u w
unfolding complete owned
complete-checked now owner i others r parts u w row h =
    elim (Bool-cases (any (λ k. k == owner) w.users && u.owner_id == owner)) [
      | inr other ↦ absurd (ground (arith, row, other, h))
      | inl own ↦ enter-Seen now others r parts i u w u.state refl (
          moved now others r parts i (owned owner w >=> enter now others r parts)
            (enter now others r parts u w) (ground (arith, row, own)) h)
    ]

-- The sessions of an owner that hold a slot.
abbrev pub open_uploads : ℕ → List Upload → ℕ
open_uploads owner sessions = length (filter (holds_slot owner) sessions)

-- Adding a session never takes any owner above five that hold a slot, and adds exactly the one
-- given.
pub add_upload-bounded :
    (u : Upload) (users : List ℕ) (sessions sessions' : List Upload) (owner : ℕ)
    → open_uploads owner sessions ≤ max_open_uploads
    → add_upload u users sessions ≡ added sessions'
    → (open_uploads owner sessions' ≤ max_open_uploads) × (sessions' ≡ u ∷ sessions)
unfolding add_upload
add_upload-bounded u users sessions sessions' owner few h = ground arith
