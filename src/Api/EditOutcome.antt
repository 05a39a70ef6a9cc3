-- ===== src/Api/EditOutcome.antt =====
-- app/api/jobs.py: what `POST /jobs/{job_id}/edit` leaves behind, whatever it answers.
use media_player.Prelude.{
  ==_refl, if◌then◌else◌, ◌∙◌, ℕ, ◌≡◌, refl, sym, subst, true, false, ◌&&◌, Option, none, some, ◌∷◌,
  arith, Option-cases, Bool-cases, inl, inr, ◌⊎◌, is_none,
}
use media_player.Prelude.Text.{Text, null}
use media_player.Edits.Rules.{ok, refused, Checked, Frame}
use media_player.Edits.Checking.{check_edit_operations}
use media_player.Jobs.Row.{Job, check_constraints, is_done}
use media_player.Jobs.Store.{Table, ok, find, insert_row, remove, delete_row}
use media_player.Jobs.StoreLaws.{Distinct, find-remove_self}
use media_player.Jobs.Invariant.{IsWellFormed}
use media_player.Jobs.WellFormed.{IsValid}
use media_player.Jobs.Queries.{get_job}
use media_player.Jobs.Writes.{new_row, create_edit_job, delete_job}
use media_player.Api.Roots.{visible-IsWellFormed, root-IsWellFormed}
use media_player.Api.Shown.{
  Settings, has, edit_base, root_of, editable_height_of, Reply, answered, http,
}
use media_player.Api.EditRoute.{
  State, enqueued, EditCall, edited_name, edit_file, queue_edit, make_edit, edit_job_by_id,
}

-- The row of the new edit.
abbrev pub edit_row : EditCall → Job → Job → Text → Job
edit_row c source base key =
    new_row c.now c.new_job_id c.owner (edited_name source.filename c.operations) key
      (some c.operations) base.max_fps

-- The state once the row is committed and the queue was asked.
abbrev pub asked : EditCall → Job → State → State
asked c row w = c.others (enqueued c.enqueue c.new_job_id (record w { jobs = row ∷ w.jobs }))

-- What the other calls do in the meantime: ids stay distinct, and the new id stays this owner's.
abbrev pub IsPolite : EditCall → Type 0
IsPolite c =
    (x : State)
    → Distinct x.jobs
    → ((j : Job) → find c.new_job_id x.jobs ≡ some j → j.owner_id ≡ c.owner)
    → Distinct (c.others x).jobs
      × ((j : Job) → find c.new_job_id (c.others x).jobs ≡ some j → j.owner_id ≡ c.owner)

pub data Outcome (c : EditCall) (w : State) : Reply ℕ × State → Type 0 where
  turned_down : (code : ℕ) → (code ≡ 404) ⊎ (code ≡ 409) ⊎ (code ≡ 422) → Outcome c w (http code, w)
  undone : (w' : State) → find c.new_job_id w'.jobs ≡ none → Outcome c w (http 503, w')
  accepted :
      (source root : Job) (key : Text)
      → get_job c.job_id (some c.owner) false w.jobs ≡ some source
      → is_done source.status ≡ true
      → root_of w.jobs source ≡ some root
      → edit_file (edit_base source root) ≡ some key
      → Outcome c w
          (answered c.new_job_id, asked c (edit_row c source (edit_base source root) key) w)

module _ (c : EditCall) (w : State) (fresh : find c.new_job_id w.jobs ≡ none)
    (some_operation : null c.operations ≡ false) where
  create-ok :
      (source base : Job) (key : Text)
      → IsWellFormed base
      → create_edit_job c.now c.new_job_id c.owner
          (edited_name source.filename c.operations)
          key
          c.operations
          base.max_fps
          w.jobs
        ≡ ok (edit_row c source base key) (edit_row c source base key ∷ w.jobs)
  unfolding create_edit_job insert_row new_row check_constraints
  create-ok source base key h = ground arith

  make_edit-eq :
      (source base : Job) (key : Text)
      → IsWellFormed base
      → make_edit c source base key w
        ≡ queue_edit c
            (edit_row c source base key)
            (record w { jobs = edit_row c source base key ∷ w.jobs })
  unfolding make_edit
  make_edit-eq source base key h = rw (make_edit, create-ok source base key h) refl

  -- A request that passes the rules, and whose message the queue takes, is accepted.
  pub passed-answered :
      (s : Settings) (source root : Job) (f : Frame)
      → get_job c.job_id (some c.owner) false w.jobs ≡ some source
      → is_done source.status ≡ true
      → has source.output_key ≡ true
      → root_of w.jobs source ≡ some root
      → IsWellFormed (edit_base source root)
      → check_edit_operations c.operations
          (editable_height_of s (edit_base source root))
          (edit_base source root).width
        ≡ ok f
      → c.enqueue.raised ≡ false
      → (edit_job_by_id s c w).0 ≡ answered c.new_job_id
  unfolding edit_job_by_id queue_edit new_row
  passed-answered s source root f g d k r h q fine =
      elim (Option-cases (edit_file (edit_base source root))) [
        | inl missing ↦ absurd (ground arith)
        | inr (key, file) ↦
            ground (arith, g, d, k, r, q, file, make_edit-eq source (edit_base source root) key h)
      ]

module _ (c : EditCall) (w : State) (v : IsValid w.jobs) (fresh : find c.new_job_id w.jobs ≡ none)
    (some_operation : null c.operations ≡ false) (polite : IsPolite c) where
  delete-gone :
      (t : Table)
      → Distinct t
      → ((j : Job) → find c.new_job_id t ≡ some j → j.owner_id ≡ c.owner)
      → (x : Option Job) × (t' : Table) × (delete_job c.new_job_id (some c.owner) t ≡ ok x t')
        × (find c.new_job_id t' ≡ none)
  unfolding delete_job delete_row
  delete-gone t d own = elim (Option-cases (find c.new_job_id t)) [
    | inl gone ↦ (none, t, ground arith, gone)
    | inr (j, e) ↦ (
      some j,
      remove c.new_job_id t,
      ground (arith, own j e, ==_refl c.owner),
      find-remove_self c.new_job_id t d,
    )
  ]

  row-Distinct : (row : Job) → row.id ≡ c.new_job_id → Distinct (row ∷ w.jobs)
  row-Distinct row i = (subst (λ n. find n w.jobs ≡ none) (sym i) fresh, v.distinct)

  row-owner :
      (row : Job)
      → row.id ≡ c.new_job_id
      → row.owner_id ≡ c.owner
      → (j : Job) → find c.new_job_id (row ∷ w.jobs) ≡ some j
      → j.owner_id ≡ c.owner
  unfolding find
  row-owner row i o j e = ground arith

  settled :
      (row : Job)
      → row.id ≡ c.new_job_id
      → row.owner_id ≡ c.owner
      → Distinct (asked c row w).jobs
        × ((j : Job) → find c.new_job_id (asked c row w).jobs ≡ some j → j.owner_id ≡ c.owner)
  settled row i o =
      let x = record w { jobs = row ∷ w.jobs } in
      let same : (enqueued c.enqueue c.new_job_id x).jobs ≡ x.jobs = ground arith in
      polite (enqueued c.enqueue c.new_job_id x)
        (subst (λ t. Distinct t) (sym same) (row-Distinct row i))
        (subst (λ t. (j : Job) → find c.new_job_id t ≡ some j → j.owner_id ≡ c.owner) (sym same)
          (row-owner row i o))

  raised-undone :
      (source base : Job) (key : Text)
      → IsWellFormed base
      → c.enqueue.raised ≡ true
      → Outcome c w (make_edit c source base key w)
  unfolding queue_edit new_row
  raised-undone source base key h r =
      let row = edit_row c source base key in
      let fine = settled row refl refl in
      let (x, t', e, gone) = delete-gone (asked c row w).jobs fine.0 fine.1 in
      let eq : make_edit c source base key w ≡ (http 503, record (asked c row w) { jobs = t' }) =
        make_edit-eq c w fresh some_operation source base key h ∙ ground (arith, r, e) in
      subst (λ p. Outcome c w p) (sym eq) (undone (record (asked c row w) { jobs = t' }) gone)

  accepts :
      (source root : Job) (key : Text)
      → get_job c.job_id (some c.owner) false w.jobs ≡ some source
      → is_done source.status ≡ true
      → root_of w.jobs source ≡ some root
      → edit_file (edit_base source root) ≡ some key
      → IsWellFormed (edit_base source root)
      → c.enqueue.raised ≡ false
      → Outcome c w (make_edit c source (edit_base source root) key w)
  unfolding queue_edit new_row
  accepts source root key g d r f h q =
      let row = edit_row c source (edit_base source root) key in
      let eq : make_edit c source (edit_base source root) key w
          ≡ (answered c.new_job_id, asked c row w) =
        make_edit-eq c w fresh some_operation source (edit_base source root) key h
        ∙ ground (arith, q) in
      subst (λ p. Outcome c w p) (sym eq) (accepted source root key g d r f)

  checked :
      (s : Settings) (source root : Job)
      → get_job c.job_id (some c.owner) false w.jobs ≡ some source
      → is_done source.status ≡ true
      → has source.output_key ≡ true
      → root_of w.jobs source ≡ some root
      → IsWellFormed (edit_base source root)
      → (x : Checked Frame)
      → check_edit_operations c.operations
          (editable_height_of s (edit_base source root))
          (edit_base source root).width
        ≡ x
      → Outcome c w (edit_job_by_id s c w)
  unfolding edit_job_by_id
  checked s source root g d k r h (refused e) q =
      subst (λ p. Outcome c w p) (ground (arith, g, d, k, r, q)) (turned_down 422 (inr (inr refl)))
  checked s source root g d k r h (ok f) q =
      elim (Option-cases (edit_file (edit_base source root))) [
        | inl missing ↦ absurd (ground arith)
        | inr (key, file) ↦
            subst (λ p. Outcome c w p) (ground (arith, g, d, k, r, q, file))
              (elim (Bool-cases c.enqueue.raised) [
                | inl raised ↦ raised-undone source (edit_base source root) key h raised
                | inr fine ↦ accepts source root key g d r file h fine
              ])
      ]

  -- On a valid table, for an id that is not taken, a request with an operation, and other calls that
  -- keep ids distinct and the new id with its owner, an edit request ends in one of three ways and
  -- never in an error that is not expected: it is turned down and nothing changes; the queue fails,
  -- and no row of the new id is left; or its answer names the one new row, which edits a done job of
  -- the user from the file that its edits start from, and whose message is on the queue if Redis has
  -- it.
  pub edit_job_by_id-Outcome : (s : Settings) → Outcome c w (edit_job_by_id s c w)
  unfolding edit_job_by_id
  edit_job_by_id-Outcome s = elim (Option-cases (get_job c.job_id (some c.owner) false w.jobs)) [
    | inl missing ↦
        subst (λ p. Outcome c w p) (ground (arith, missing)) (turned_down 404 (inl refl))
    | inr (source, g) ↦ elim (Bool-cases (is_done source.status && has source.output_key)) [
      | inr unfinished ↦
          subst (λ p. Outcome c w p) (ground (arith, g, unfinished))
            (turned_down 409 (inr (inl refl)))
      | inl finished ↦
          let fine = visible-IsWellFormed c.job_id c.owner w.jobs {j = source} v g in
          let (root, r, h) = root-IsWellFormed w.jobs source v fine in
          checked s source root g (ground arith) (ground arith) r
            (elim (is_none root.operations) as (λ b. IsWellFormed (if b then root else source)) [
              | true ↦ h
              | false ↦ fine
            ])
            (check_edit_operations c.operations (editable_height_of s (edit_base source root))
              (edit_base source root).width)
            refl
    ]
  ]
