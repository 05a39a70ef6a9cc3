-- ===== src/Uploads/Kept.antt =====
-- Each part of `complete`, `abort` and `cleanup_expired` keeps what Forward states.
use media_player.Prelude.{
  ℕ, ◌≡◌, refl, sym, subst, Bool, true, false, not, ◌||◌, Option, none, some, List, arith, ◌==◌,
  is_some, any, if◌then◌else◌,
}
use mathlib.Core.Option.{some-injective}
use media_player.Jobs.Store.{find}
use media_player.Uploads.Session.{UploadState, is_open, completing, Upload, Part}
use media_player.Uploads.Parts.{manifest_of, validate_parts}
use media_player.Uploads.Routes.{
  World, Others, Replies, Response, http, Step, stop, go, ◌>=>◌, put, owned, active, has_storage,
}
use media_player.Uploads.Completion.{freeze}
use media_player.Uploads.Forward.{
  leads, is_created, Onward, Follows, on, in_list, is_made, IsSound, Good, IsFair, Fair, Good-trans,
  Good-refl,
}

-- A step from `w` that is good, and that goes on with the row that the world has.
pub data Kept (w : World) : Step → Type 0 where
  ended : {r : Response} {w' : World} → Good w w' → Kept w (stop r w')
  going : {u : Upload} {w' : World} → Good w w' → w'.row ≡ some u → Kept w (go u w')

pub if-Kept :
    {w : World} {a b : Step} (c : Bool) → Kept w a → Kept w b → Kept w (if c then a else b)
if-Kept true p q = p
if-Kept false p q = q

pub option-Kept :
    {A : Type 0} {w : World} {s : Step} {f : A → Step} (o : Option A)
    → Kept w s
    → ((a : A) → o ≡ some a → Kept w (f a))
    → Kept w (elim o [ none ↦ s | some a ↦ f a ])
option-Kept none k h = k
option-Kept (some a) k h = h a refl

row-Kept :
    (owner : ℕ) {w w' : World}
    → Good w w'
    → (r : Option Upload) → w'.row ≡ r
    → Kept w (elim r [
      | none ↦ stop (http 404) w'
      | some u ↦ if u.owner_id == owner then go u w' else stop (http 404) w'
    ])
row-Kept owner g none e = ended g
row-Kept owner g (some u) e = if-Kept (u.owner_id == owner) (going g e) (ended g)

pub owned-Kept : (owner : ℕ) {w w' : World} → Good w w' → Kept w (owned owner w')
unfolding owned
owned-Kept owner {w} {w'} g =
    if-Kept (any (λ k. k == owner) w'.users) (row-Kept owner g w'.row refl) (ended g)

pub bind-Kept :
    {w : World} (s : Step) (f : Upload → World → Step)
    → Kept w s
    → ((u : Upload) (w' : World) → Good w w' → w'.row ≡ some u → Kept w (f u w'))
    → Kept w (s >=> f)
bind-Kept _ f (ended g) h = ended g
bind-Kept _ f (going {u = u} {w' = w'} g e) h = h u w' g e

-- A row that is written in place of the one it follows, with the jobs and the queue as they were.
pub put-Good :
    {w : World} (u v : Upload)
    → IsSound w
    → w.row ≡ some u
    → Onward u v
    → (is_created u.state ≡ true → is_created v.state ≡ true)
    → Good w (put v w)
put-Good {w} u v s row o c = record {
  sound = λ x e m.
      subst (λ (y : Upload). is_made y w ≡ true → is_created y.state ≡ true) (some-injective v x e)
        (λ m'. c (
          s u row (
            subst (λ (i : ℕ). (is_some (find i w.jobs) || in_list i w.queue) ≡ true) (o.same_job)
              m')))
        m;
  follows = subst (λ r. Follows r (some v)) (sym row) (on o);
}

-- A step made after a good one.
pub Kept-after : {w w' : World} → Good w w' → (s : Step) → Kept w' s → Kept w s
Kept-after g _ (ended k) = ended (Good-trans g k)
Kept-after g _ (going k e) = going (Good-trans g k) e

-- A write, what the others do then, and the row read again.
pub gap-Kept :
    {w w' : World} (owner : ℕ) (f : World → World)
    → Good w w'
    → IsFair f
    → Kept w (owned owner (f w'))
gap-Kept {w} {w'} owner f g fair = owned-Kept owner (Good-trans g (fair w' g.sound))

pub Onward-state :
    (u : Upload) (next : UploadState)
    → leads u.state next ≡ true
    → Onward u (record u { state = next })
Onward-state u next l = record {
  same_job = refl;
  same_owner = refl;
  same_file = (refl, refl);
  same_size = (refl, refl);
  forward = l;
  frozen = λ _. refl;
}

Onward-opened :
    (u : Upload) (parts : List Part)
    → u.state ≡ is_open
    → Onward u (record u { manifest = some parts; state = completing })
Onward-opened u parts o = record {
  same_job = refl;
  same_owner = refl;
  same_file = (refl, refl);
  same_size = (refl, refl);
  forward = ground arith;
  frozen = λ c. ground arith;
}

Onward-of : {u v : Upload} → Follows (some u) (some v) → Onward u v
Onward-of (on o) = o

-- The row that a good step leaves is onward of the one before.
pub Good-Onward :
    {w w' : World} {u v : Upload} → Good w w' → w.row ≡ some u → w'.row ≡ some v → Onward u v
Good-Onward {w} {w'} {u} {v} g p q =
    Onward-of (subst (λ r. Follows r (some v)) p (subst (λ r. Follows w.row r) q g.follows))

pub freeze-Kept :
    (now : ℕ) (others : Others) (r : Replies) (parts : List Part) (u : Upload) (w : World)
    → Fair others
    → IsSound w
    → w.row ≡ some u
    → u.state ≡ is_open
    → Kept w (freeze now others r parts u w)
unfolding freeze
freeze-Kept now others r parts u w fair s row o =
    let stays = Good-refl w s in
    option-Kept (active now u)
      (if-Kept (not (has_storage u)) (ended stays) (
        option-Kept (r.parts) (ended stays) (λ actual _.
          if-Kept (validate_parts u (manifest_of parts) actual)
            (gap-Kept u.owner_id others.after_freeze
              (put-Good u (record u { manifest = some (manifest_of parts); state = completing }) s
                row (Onward-opened u (manifest_of parts) o) (λ c. ground arith))
              fair.after_freeze)
            (ended stays))))
      (λ code _. ended stays)
