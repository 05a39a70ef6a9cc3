-- ===== src/Worker/Messages.antt =====
-- app/worker/tasks.py: what the uploader is told when a job fails.
use media_player.Prelude.{
  ℕ, ◌+◌, ◌-◌, ◌≤◌, ◌≡◌, refl, sym, subst, Bool, true, false, ◌&&◌, [], ◌∷◌, ◌++◌, arith, ltb,
  if◌then◌else◌, length, take, all, suc, zero,
}
use media_player.Prelude.Text.{
  Text, codes, null, strip, rstrip, is_blank, length-rstrip_of, is_space, is_blank-eq-all,
  is_blank-strip,
}

abbrev pub max_error_length : ℕ
max_error_length = 500

unfoldable pub unexpected_failure : Text
unexpected_failure = codes "processing failed unexpectedly; please try uploading again"

unfoldable pub interrupted_too_often : Text
interrupted_too_often = codes "processing was interrupted repeatedly; please try uploading again"

-- What a step raises: an `ObjectStoreError` with its `user_message`, or another exception.
pub data Raised : Type 0 where
  store_error : Text → Raised
  unforeseen : Raised

abbrev pub message_of : Raised → Text
message_of (store_error user_message) =
    if null (strip user_message) then unexpected_failure else strip user_message
message_of unforeseen = unexpected_failure

-- `message[: MAX_ERROR_LENGTH - 3].rstrip() + "..."`, where the message is too long.
unfoldable pub shortened : Text → Text
shortened message =
    if ltb max_error_length (length message)
    then rstrip (take (max_error_length - 3) message) ++ codes "..."
    else message

unfoldable pub readable_error : Raised → Text
unfolding shortened
readable_error exception = shortened (message_of exception)

all-append : (p : ℕ → Bool) (s t : Text) → all p (s ++ t) ≡ (all p s && all p t)
all-append p [] t = refl
all-append p (c ∷ s) t = ground (arith, all-append p s t)

length-append : (s t : Text) → length (s ++ t) ≡ length s + length t
length-append [] t = ground arith
length-append (c ∷ s) t = ground (arith, length-append s t)

length-take : (n : ℕ) (t : Text) → length (take n t) ≤ n
length-take zero t = ground arith
length-take (suc n) [] = omega arith
length-take (suc n) (c ∷ t) = ground (arith, length-take n t)

dots_show : (s : Text) → is_blank (s ++ codes "...") ≡ false
unfolding is_space
dots_show s =
    ground (arith, is_blank-eq-all (s ++ codes "..."), all-append is_space s (codes "..."))

unexpected_failure-shows : is_blank unexpected_failure ≡ false
unfolding unexpected_failure is_space
unexpected_failure-shows = is_blank-eq-all unexpected_failure

message_of-shows : (e : Raised) → is_blank (message_of e) ≡ false
unfolding is_blank
message_of-shows (store_error m) = ground (arith, is_blank-strip m, unexpected_failure-shows)
message_of-shows unforeseen = unexpected_failure-shows

with_dots :
    (s : Text)
    → length s ≤ 497
    → (is_blank (s ++ codes "...") ≡ false) × (length (s ++ codes "...") ≤ 500)
with_dots s h =
    (dots_show s, subst (λ n. n ≤ 500) (sym (length-append s (codes "..."))) (omega arith))

cut_short : (m : Text) → length (rstrip (take 497 m)) ≤ 497
unfolding rstrip
cut_short m = omega (arith, length-rstrip_of is_space (take 497 m), length-take 497 m)

shortened_lem :
    (m : Text) (b : Bool)
    → ltb 500 (length m) ≡ b
    → is_blank m ≡ false
    → let s = if b then rstrip (take 497 m) ++ codes "..." else m in
      (is_blank s ≡ false) × (length s ≤ 500)
shortened_lem m true e h = with_dots (rstrip (take 497 m)) (cut_short m)
shortened_lem m false e h = (h, ground arith)

-- Whatever was raised, the uploader is shown a text that is not blank, so that the failure can be
-- recorded, and that has at most 500 characters.
pub readable_error_lem :
    (e : Raised)
    → (is_blank (readable_error e) ≡ false) × (length (readable_error e) ≤ max_error_length)
unfolding readable_error
readable_error_lem e = shortened_lem (message_of e) _ refl (message_of-shows e)
