-- ===== src/Worker/PiecesKept.antt =====
-- No piece of an encode is lost on its board.
use media_player.Prelude.{ℕ, Bool, false, ◌||◌, [], ◌==◌}
use media_player.Worker.Pieces.{has, is_in_flight, open_board, Event, loses, Encode}

-- Done, waiting, in flight, or the coordinator's.
abbrev pub is_kept : ℕ → Encode → Bool
is_kept i s =
    has i s.board.done || has i s.board.todo || is_in_flight i s.board.inflight || has i s.mine

-- The helper that holds the piece between its pop and its note has died: what no list shows.
abbrev pub is_lost : ℕ → Event → Bool
is_lost i (loses k) = k == i
is_lost i _ = false

abbrev pub is_known : ℕ → Encode → Bool
is_known i s = is_kept i s || has i s.popped

abbrev pub opened : ℕ → Encode
opened count = record { popped = []; mine = []; board = open_board count }
