-- ===== src/TcpServer.antt =====
-- net/TcpServer.cc: the set of connections and how they leave it. A connection is its number, in the
-- order of acceptance. `closing` holds the calls of `handleCloseInLoop` that were made and did not run
-- yet, `dying` those of `connectDestroyed`. The first run in the server's loop, when they are queued
-- or at once, and the others in the loops of the connections; any of them may be the next to run,
-- which leaves no order of the loops and of direct calls out.
pub mod Steps
pub mod Counts
pub mod Moves
pub mod Where
pub mod Keep
pub mod Leave
pub mod Safe
pub mod Twice
mod Tests
use trantor.Prelude.{
  update, ℕ, zero, suc, ◌+◌, ◌-◌, ◌≡◌, Bool, true, false, not, ◌&&◌, ◌||◌, Option, some, none, List,
  [], ◌∷◌, ◌++◌, ◌>>=◌, ◌>>◌, assert, if◌then◌else◌, leb, ◌==◌,
}
use trantor.MsgBuffer.{MsgBuffer}
use trantor.TcpConnection.{
  Event, high_water, extend_life, shut_write, connection_callback, close_callback,
}
use trantor.TcpConnection.Life.{Link, connect_destroyed}
use trantor.TcpConnection.Life.Steps.{new_link}

-- `loop_of` is the index of the loop in `ioLoops_` that a connection runs in.
pub record TcpServer : Type 0 where
  pub num_io_loops : ℕ
  pub next_loop_idx : ℕ
  pub accepted : ℕ
  pub conn_set : List ℕ
  pub links : ℕ → Link
  pub loop_of : ℕ → ℕ
  pub closing : List ℕ
  pub dying : List ℕ

-- `++nextLoopIdx_`, back to the first loop behind the last one.
unfoldable pub next_loop : TcpServer → ℕ
next_loop s = if leb s.num_io_loops (suc s.next_loop_idx) then 0 else suc s.next_loop_idx

-- `newConnection`, up to the call of `connectEstablished`.
unfoldable pub new_connection : MsgBuffer → Option ℕ → TcpServer → TcpServer
new_connection b mark s = record s {
  next_loop_idx = next_loop s;
  accepted = suc s.accepted;
  conn_set = s.accepted ∷ s.conn_set;
  links = update s.links s.accepted (new_link b mark);
  loop_of = update s.loop_of s.accepted s.next_loop_idx;
}

-- `erase` of a set: what is left, and how many elements went.
unfoldable pub erase : ℕ → List ℕ → List ℕ × ℕ
erase i [] = ([], 0)
erase i (j ∷ js) =
    let rest = erase i js in if i == j then (rest.0, suc rest.1) else (j ∷ rest.0, rest.1)

unfoldable pub handle_close_in_loop : ℕ → TcpServer → Option TcpServer
handle_close_in_loop i s = do
  let left = erase i s.conn_set
  assert (left.1 == 1)
  some (record s { conn_set = left.0; dying = s.dying ++ (i ∷ []) })

abbrev pub is_close_callback : Event → Bool
is_close_callback close_callback = true
is_close_callback _ = false

-- How often the close callback was called.
abbrev pub closes : List Event → ℕ
closes [] = 0
closes (e ∷ es) = if is_close_callback e then suc (closes es) else closes es

abbrev pub calls_of : ℕ → ℕ → List ℕ
calls_of i zero = []
calls_of i (suc n) = i ∷ calls_of i n

-- The connection `i` went on to `l`. Its close callback is `connectionClosed`: each call of it is a call
-- of `handleCloseInLoop`.
unfoldable pub connection_moved : ℕ → Link → TcpServer → TcpServer
connection_moved i l s = record s {
  links = update s.links i l;
  closing = s.closing ++ calls_of i (closes l.conn.events - closes (s.links i).conn.events);
}

-- `rest` is the list without one of its elements `i`.
abbrev pub Without : ℕ → List ℕ → List ℕ → Type 0
Without i js rest =
    (before : List ℕ) × (behind : List ℕ) × (js ≡ before ++ (i ∷ behind))
    × (rest ≡ before ++ behind)

-- A call of `connectDestroyed` for `i` runs, and `rest` is what is left of the queue `dying`.
unfoldable pub destroy_one : ℕ → List ℕ → TcpServer → Option TcpServer
destroy_one i rest s = connect_destroyed (s.links i) >>= λ l.
    some (record s { links = update s.links i l; dying = rest })
