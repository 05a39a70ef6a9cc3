-- ===== src/Api/OfferedEdits.antt =====
-- app/api/jobs.py: the heights that the page of a job offers, and the edits that the route takes.
use media_player.Prelude.{
  sym, ℕ, ◌≡◌, refl, subst, true, false, Option, none, some, [], ◌∷◌, arith, if◌then◌else◌, is_none,
}
use media_player.Prelude.Text.{null}
use media_player.Prelude.Int.{pos}
use media_player.Edits.Operation.{Operation, OperationName, int, name_of}
use media_player.Edits.Rules.{
  Scaling, down, up, Frame, ok, Options, scale_options, check_scale, scale_rule, check, width_after,
}
use media_player.Edits.Checking.{named, ordered, check_all, check_edit_operations}
use media_player.Edits.Offers.{offers_iff, side, member}
use media_player.Jobs.Row.{Job, is_done, check_constraints}
use media_player.Jobs.Store.{Table, find}
use media_player.Jobs.Invariant.{IsWellFormed}
use media_player.Jobs.WellFormed.{IsValid}
use media_player.Jobs.Queries.{get_job}
use media_player.Api.Shown.{
  Settings, Signer, JobResponse, edit_base, editable_height_of, edit_options, root_of, to_response,
  answered, get_job_by_id,
}
use media_player.Api.Roots.{visible-IsWellFormed, root-IsWellFormed}
use media_player.Api.Visible.{full_keys}
use media_player.Api.EditRoute.{State, EditCall, edit_job_by_id}
use media_player.Api.EditOutcome.{passed-answered}

abbrev pub scaled : Scaling → ℕ → Operation
scaled down h = Operation.downscale (int (pos h))
scaled up h = Operation.upscale (int (pos h))

ordered-one : (scaling : Scaling) (h : ℕ) → ordered (scaled scaling h ∷ []) ≡ scaled scaling h ∷ []
unfolding ordered named name_of
ordered-one down h = refl
ordered-one up h = refl

named-convert :
    (scaling : Scaling) (h : ℕ) → named (scaled scaling h ∷ []) OperationName.convert ≡ none
unfolding named name_of
named-convert down h = refl
named-convert up h = refl

check-one :
    (scaling : Scaling) (h : ℕ) (f : Frame)
    → check_scale scaling (pos h) f.height ≡ ok tt
    → check_all (scaled scaling h ∷ []) f ≡ ok (record { width = width_after f h; height = some h })
unfolding check_all check scale_rule
check-one down h f e = ground (arith, e)
check-one up h f e = ground (arith, e)

-- The rules for a request of one scale are those of the scale.
one_scale-ok :
    (scaling : Scaling) (h : ℕ) (height width : Option ℕ)
    → check_scale scaling (pos h) height ≡ ok tt
    → check_edit_operations (scaled scaling h ∷ []) height width
      ≡ ok (record {
        width = width_after (record { width = width; height = height }) h;
        height = some h;
      })
unfolding check_edit_operations
one_scale-ok scaling h height width e = ground (
  arith,
  ordered-one scaling h,
  named-convert scaling h,
  check-one scaling h (record { width = width; height = height }) e,
)

-- A height of the options that a height gives passes the rule for that height.
option-ok :
    (scaling : Scaling) (height : Option ℕ) {o : Options} (h : ℕ)
    → scale_options height ≡ some o
    → member h (side scaling o) ≡ true
    → check_scale scaling (pos h) height ≡ ok tt
unfolding scale_options
option-ok scaling none h e m = ground arith
option-ok scaling (some input) {o} h e m =
    (offers_iff scaling input h (ground arith)).0 (ground (arith, e, m))

-- The options on the page are those of the height that an edit starts from.
shown_options :
    (s : Settings) (g : Signer) (progress : Option ℕ) (i owner : ℕ) (t : Table) {source root : Job}
    {r : JobResponse} {o : Options}
    → get_job i (some owner) false t ≡ some source
    → root_of t source ≡ some root
    → get_job_by_id s g i owner progress t ≡ answered r
    → r.edit_options ≡ some o
    → (is_done source.status ≡ true)
      × (scale_options (editable_height_of s (edit_base source root)) ≡ some o)
unfolding get_job_by_id to_response edit_options
shown_options s g progress i owner t {source = source} {root = root} {r = r} {o = o} found e shown
      opts =
    let same : r ≡ to_response s g source (some root) progress = ground arith in
    let eq : edit_options s source (edit_base source root) ≡ some o =
      subst (λ x. x.edit_options ≡ some o) same opts in
    (ground arith, ground arith)

-- On a valid table, a height that the page of a job offers for a scale is one that an edit may ask
-- for: the request of that scale alone, made by the owner for an id that is not taken, is accepted
-- as soon as the queue takes its message.
pub offered_scale-answered :
    (s : Settings) (g : Signer) (progress : Option ℕ) (c : EditCall) (w : State) (scaling : Scaling)
    (h : ℕ) {r : JobResponse} {o : Options} {source : Job}
    → IsValid w.jobs
    → find c.new_job_id w.jobs ≡ none
    → get_job c.job_id (some c.owner) false w.jobs ≡ some source
    → full_keys source ≡ true
    → get_job_by_id s g c.job_id c.owner progress w.jobs ≡ answered r
    → r.edit_options ≡ some o
    → member h (side scaling o) ≡ true
    → c.operations ≡ scaled scaling h ∷ []
    → c.enqueue.raised ≡ false
    → (edit_job_by_id s c w).0 ≡ answered c.new_job_id
unfolding check_constraints
offered_scale-answered s g progress c w scaling h {r} {o} {source} v fresh found keys shown opts m
      ops fine =
    let here = visible-IsWellFormed c.job_id c.owner w.jobs {j = source} v found in
    let (root, e, good) = root-IsWellFormed w.jobs source v here in
    let base = edit_base source root in
    let height = editable_height_of s base in
    let eq =
      shown_options s g progress c.job_id c.owner w.jobs {source = source} {root = root} {r = r}
        {o = o} found e shown opts in
    passed-answered c w fresh (subst (λ xs. null xs ≡ false) (sym ops) refl) s source root
      (record {
        width = width_after (record { width = base.width; height = height }) h;
        height = some h;
      })
      found eq.0 (ground (arith, keys, here.0, eq.0)) e
      (elim (is_none root.operations) as (λ b. IsWellFormed (if b then root else source)) [
        | true ↦ good
        | false ↦ here
      ])
      (subst
        (λ xs.
          check_edit_operations xs height base.width
          ≡ ok (record {
            width = width_after (record { width = base.width; height = height }) h;
            height = some h;
          }))
        (sym ops)
        (one_scale-ok scaling h height base.width (option-ok scaling height {o = o} h eq.1 m)))
      fine
