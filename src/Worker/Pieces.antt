-- ===== src/Worker/Pieces.antt =====
-- app/worker/chunked.py, `PieceBoard`: the pieces of one encode in Redis. The hash `inflight` is an
-- association list with one entry for a field, the set `done` a list; the plan is stored beside them
-- and read by helpers only. Times are in seconds, and no key expires while the encode runs.
use media_player.Prelude.{
  ℕ, zero, suc, ◌+◌, Bool, not, ◌&&◌, Option, none, some, List, [], ◌∷◌, ◌++◌, ltb, ◌==◌, any,
  filter,
}

pub record Board : Type 0 where
  pub todo : List ℕ
  pub inflight : List (ℕ × ℕ)
  pub done : List ℕ

abbrev pub has : ℕ → List ℕ → Bool
has i is = any (λ k. k == i) is

abbrev pub is_in_flight : ℕ → List (ℕ × ℕ) → Bool
is_in_flight i fs = any (λ f. f.0 == i) fs

-- `range(n)`, from `first` on.
unfoldable pub range_from : ℕ → ℕ → List ℕ
range_from first zero = []
range_from first (suc n) = first ∷ range_from (first + 1) n

-- `open`: the four keys are deleted, and every piece is to do.
unfoldable pub open_board : ℕ → Board
unfolding range_from
open_board count = record { todo = range_from 0 count; inflight = []; done = [] }

-- `hdel`
abbrev pub hdel : ℕ → List (ℕ × ℕ) → List (ℕ × ℕ)
hdel i fs = filter (λ f. not (f.0 == i)) fs

-- `take` is two steps: `lpop`, and then the note that the piece is in flight. In between the piece is
-- only in the helper's hands.
unfoldable pub pop_piece : Board → Option ℕ × Board
pop_piece b = elim (b.todo) [ [] ↦ (none, b) | i ∷ is ↦ (some i, record b { todo = is }) ]

unfoldable pub note_piece : ℕ → ℕ → Board → Board
note_piece now i b = record b { inflight = (i, now) ∷ hdel i b.inflight }

unfoldable pub finish : ℕ → Board → Board
finish i b = record b { done = i ∷ b.done; inflight = hdel i b.inflight }

unfoldable pub give_back_piece : ℕ → Board → Board
give_back_piece i b = record b { inflight = hdel i b.inflight; todo = i ∷ b.todo }

-- `now - since > stale_after`
abbrev pub is_stale : ℕ → ℕ → ℕ × ℕ → Bool
is_stale now stale_after f = ltb (f.1 + stale_after) now

-- The pieces in flight that are not stale.
abbrev pub busy : ℕ → ℕ → Board → List (ℕ × ℕ)
busy now stale_after b = filter (λ f. not (is_stale now stale_after f)) b.inflight

-- `unclaimed`, as one step, with no helper's between its reads: the pieces that nobody will finish, and the board without the stale entries.
unfoldable pub unclaimed : ℕ → ℕ → ℕ → Board → List ℕ × Board
unfolding range_from
unclaimed count stale_after now b =
    let fresh = busy now stale_after b in
    (
      filter (λ i. not (has i b.done) && not (is_in_flight i fresh) && not (has i b.todo))
          (range_from 0 count),
      record b { inflight = fresh },
    )

-- What helpers and the coordinator do to the board. `loses`: a helper dies after its pop.
pub data Event : Type 0 where
  pops : Event
  notes : ℕ → ℕ → Event
  finishes gives_back loses : ℕ → Event
  sweeps : ℕ → ℕ → Event

-- The pieces popped and not yet noted, the coordinator's own pieces, and the board.
pub record Encode : Type 0 where
  pub popped : List ℕ
  pub mine : List ℕ
  pub board : Board

abbrev pub without : ℕ → List ℕ → List ℕ
without i is = filter (λ k. not (k == i)) is

abbrev pub popped_into : Option ℕ × Board → Encode → Encode
popped_into (none, b) s = s
popped_into (some i, b) s = record s { popped = i ∷ s.popped; board = b }

unfoldable pub event : ℕ → Event → Encode → Encode
unfolding pop_piece note_piece unclaimed
event count pops s = popped_into (pop_piece s.board) s
event count (notes now i) s = record s {
  popped = without i s.popped;
  board = note_piece now i s.board;
}
event count (finishes i) s = record s { board = finish i s.board }
event count (gives_back i) s = record s { board = give_back_piece i s.board }
event count (loses i) s = record s { popped = without i s.popped }
event count (sweeps stale_after now) s =
    let swept = unclaimed count stale_after now s.board in
    record s { mine = s.mine ++ swept.0; board = swept.1 }

unfoldable pub events : ℕ → List Event → Encode → Encode
events count [] s = s
events count (e ∷ es) s = events count es (event count e s)
