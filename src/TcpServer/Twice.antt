-- ===== src/TcpServer/Twice.antt =====
-- A hangup that is not plain: the connection is handed back twice.
use trantor.Prelude.{
  ℕ, ◌+◌, ◌-◌, ◌≡◌, refl, ap, ◌∙◌, Bool, true, false, ◌&&◌, ◌||◌, some, none, List, [], ◌∷◌, ◌++◌,
  ◌>>=◌, arith,
}
use trantor.MsgBuffer.{MsgBuffer}
use trantor.MsgBuffer.Socket.{Reply, got, read_fd}
use trantor.Channel.{
  Events, close_callback, error_callback, read_callback, call, handle_event_safely,
}
use trantor.Channel.Run.{run_callbacks}
use trantor.TcpConnection.{
  Event, Kernel, high_water, extend_life, shut_write, connection_callback, log,
}
use trantor.TcpConnection as Conn
use trantor.TcpConnection.Life as Life
use trantor.TcpConnection.Life.{
  Link, handle_close, after_read, handlers, on_event, io_channel, stop_events,
}
use trantor.TcpConnection.Life.Dispatch.{dispatched}
use trantor.TcpServer.{TcpServer, erase, handle_close_in_loop, closes, calls_of, connection_moved}
use trantor.TcpServer.Counts.{count, erase-count}

-- A hangup with nothing left to read, and another readable event.
pub record IsOdd (r : Events) : Type 0 where
  pub hup : r.pollhup ≡ true
  pub not_in : r.pollin ≡ false
  pub urgent : (r.pollpri || r.pollrdhup) ≡ true
  pub not_out : r.pollout ≡ false

-- What the dispatch leaves.
abbrev twice : MsgBuffer → Link → Link
twice b l =
    let l' = handle_close (record (handle_close l) { read_buffer = b }) in
    record l' { conn = log extend_life l'.conn }

odd_calls :
    (r : Events) (l : Link)
    → IsOdd r
    → handle_event_safely (io_channel r l)
      ≡ close_callback
        ∷ (call ((r.pollnval || r.pollerr) && true) error_callback ++ (read_callback ∷ []))
unfolding handle_event_safely call
odd_calls r l odd =
    let hup = odd.hup in
    let not_in = odd.not_in in let urgent = odd.urgent in let not_out = odd.not_out in ground arith

module _ (os : Kernel) (fuel rounds : ℕ) (recv : MsgBuffer → MsgBuffer) (answer : Reply)
    (b : MsgBuffer) where
  odd_read :
      (l : Link)
      → read_fd (handle_close l).read_buffer answer ≡ some (b, got [])
      → run_callbacks (handlers os fuel rounds recv answer) (read_callback ∷ []) (handle_close l)
        ≡ some (twice b l)
  unfolding handlers Life.read_callback after_read
  odd_read l e = rw e refl

  odd_run :
      (x : Bool) (l : Link)
      → read_fd l.read_buffer answer ≡ some (b, got [])
      → run_callbacks
          (handlers os fuel rounds recv answer)
          (close_callback ∷ (call x error_callback ++ (read_callback ∷ [])))
          l
        ≡ some (twice b l)
  unfolding handlers call handle_close
  odd_run true l e = odd_read l e
  odd_run false l e = odd_read l e

  on_event-twice :
      (r : Events) (l : Link)
      → IsOdd r
      → l.conn.reading ≡ true
      → read_fd l.read_buffer answer ≡ some (b, got [])
      → on_event os fuel rounds recv r answer l ≡ some (twice b l)
  unfolding on_event
  on_event-twice r l odd reads e =
      ap (λ ks. run_callbacks (handlers os fuel rounds recv answer) ks l)
        (dispatched r l reads ∙ odd_calls r l odd)
      ∙ odd_run ((r.pollnval || r.pollerr) && true) l e

closes-append : (es fs : List Event) → closes (es ++ fs) ≡ closes es + closes fs
closes-append [] fs = omega arith
closes-append (high_water n ∷ es) fs = closes-append es fs
closes-append (extend_life ∷ es) fs = closes-append es fs
closes-append (shut_write ∷ es) fs = closes-append es fs
closes-append (connection_callback ∷ es) fs = closes-append es fs
closes-append (Conn.close_callback ∷ es) fs = let rest = closes-append es fs in ground arith

closes-handle_close : (l : Link) → closes (handle_close l).conn.events ≡ closes l.conn.events + 1
unfolding handle_close stop_events log
closes-handle_close l =
    closes-append (l.conn.events ++ (connection_callback ∷ [])) (Conn.close_callback ∷ [])
    ∙ ap (λ n. n + 1) (closes-append l.conn.events (connection_callback ∷ []) ∙ omega arith)

closes-twice :
    (b : MsgBuffer) (l : Link) → closes (twice b l).conn.events ≡ closes l.conn.events + 2
unfolding log
closes-twice b l =
    closes-append (handle_close (record (handle_close l) { read_buffer = b })).conn.events
      (extend_life ∷ [])
    ∙ ap (λ n. n + 0) (closes-handle_close (record (handle_close l) { read_buffer = b }))
    ∙ ap (λ n. (n + 1) + 0) (closes-handle_close l)
    ∙ omega arith

two_more :
    (i : ℕ) (b : MsgBuffer) (s : TcpServer)
    → closes (twice b (s.links i)).conn.events - closes (s.links i).conn.events ≡ 2
two_more i b s = let more = closes-twice b (s.links i) in omega arith

erased_twice :
    (i : ℕ) (s : TcpServer)
    → count i s.conn_set ≡ 1
    → (handle_close_in_loop i s >>= handle_close_in_loop i) ≡ none
unfolding handle_close_in_loop
erased_twice i s once =
    let first : (erase i s.conn_set).1 ≡ 1 = (erase-count i s.conn_set).0 ∙ once in
    let second : (erase i (erase i s.conn_set).0).1 ≡ 0 =
      (erase-count i (erase i s.conn_set).0).0 ∙ (erase-count i s.conn_set).1 in
    rw first (rw second refl)

-- A connection that reads and is once in the set, and a hangup that its poller reports without POLLIN and
-- POLLOUT, but with POLLPRI or POLLRDHUP, where `readFd` finds the end of the stream: the channel
-- calls for the close and then to read, which closes again. The server gets two calls of
-- `handleCloseInLoop` for the one connection, and the assertion of the second one fails.
pub on_event-handle_close_in_loop :
    (os : Kernel) (fuel rounds : ℕ) (recv : MsgBuffer → MsgBuffer) (answer : Reply) (b : MsgBuffer)
    (r : Events) (i : ℕ) (s : TcpServer)
    → IsOdd r
    → (s.links i).conn.reading ≡ true
    → read_fd (s.links i).read_buffer answer ≡ some (b, got [])
    → count i s.conn_set ≡ 1
    → (l : Link) × (on_event os fuel rounds recv r answer (s.links i) ≡ some l)
      × ((connection_moved i l s).closing ≡ s.closing ++ (i ∷ i ∷ []))
      × ((handle_close_in_loop i (connection_moved i l s) >>= handle_close_in_loop i) ≡ none)
unfolding connection_moved
on_event-handle_close_in_loop os fuel rounds recv answer b r i s odd reads e once = (
  twice b (s.links i),
  on_event-twice os fuel rounds recv answer b r (s.links i) odd reads e,
  ap (λ n. s.closing ++ calls_of i n) (two_more i b s),
  erased_twice i (connection_moved i (twice b (s.links i)) s) once,
)
