-- ===== src/TcpServer/Tests.antt =====
-- A server with two loops and a connection that comes, goes, and is about to be destroyed; and one that
-- hangs up with urgent data.
use trantor.Prelude.{◌≡◌, refl, true, some, none, [], ◌∷◌, ◌++◌, ◌>>=◌, arith, min}
use trantor.MsgBuffer.{MsgBuffer, new}
use trantor.Memory.{memcpy}
use trantor.MsgBuffer.Socket.{got, read_fd}
use trantor.Channel.{Events, none_event}
use trantor.TcpServer.Counts.{count}
use trantor.TcpServer.Twice.{on_event-handle_close_in_loop}
use trantor.TcpConnection.{Kernel, wrote, connected, connection_callback, log}
use trantor.TcpConnection.Life.{
  Link, on_event, connect_established, force_close, handle_close, stop_events,
}
use trantor.TcpConnection.Life.Steps.{new_link}
use trantor.TcpServer.{TcpServer, new_connection, erase, handle_close_in_loop, connection_moved}
use trantor.TcpServer.Steps.{establishes, forces, accepts, moves, erases, Reach, start, later}
use trantor.TcpServer.Leave.{erased}
use trantor.TcpServer.Safe.{Sound, Reach-Sound}

abbrev three_each : Kernel
three_each k len = wrote (min len 3) 11

abbrev kept : MsgBuffer → MsgBuffer
kept b = b

abbrev two_loops : TcpServer
two_loops = record {
  num_io_loops = 2;
  next_loop_idx = 0;
  accepted = 0;
  conn_set = [];
  links = λ i. new_link (new 8) none;
  loop_of = λ i. 0;
  closing = [];
  dying = [];
}

abbrev raised : Link
raised = record (new_link (new 8) none) {
  conn =
      log connection_callback
        (record (new_link (new 8) none).conn { reading = true; status = connected });
  tied = true;
  in_loop = true;
}

abbrev with_one : TcpServer
with_one = new_connection (new 8) none two_loops

abbrev with_raised : TcpServer
with_raised = connection_moved 0 raised with_one

abbrev with_closed : TcpServer
with_closed = connection_moved 0 (force_close raised) with_raised

one-Reach : Reach true three_each 2 3 kept with_one
one-Reach = later (start (omega arith, refl, refl, refl, refl, refl)) (accepts (new 8) none)

raised-Reach : Reach true three_each 2 3 kept with_raised
unfolding new_connection connect_established new_link
raised-Reach = later one-Reach (moves 0 raised (omega arith) (establishes refl))

closed-Reach : Reach true three_each 2 3 kept with_closed
unfolding new_connection connection_moved
closed-Reach = later raised-Reach (moves 0 (force_close raised) (omega arith) forces)

-- The connection leaves the set.
left-Reach : Reach true three_each 2 3 kept (erased 0 [] with_closed)
unfolding new_connection connection_moved force_close handle_close stop_events log new_link
    handle_close_in_loop erase
left-Reach = later closed-Reach (erases 0 [] ([], [], refl, refl) refl)

Reach-Sound_example : Sound (erased 0 [] with_closed)
Reach-Sound_example = Reach-Sound left-Reach

abbrev odd_hangup : Events
odd_hangup = record none_event { pollhup = true; pollrdhup = true }

raised_link : with_raised.links 0 ≡ raised
unfolding connection_moved
raised_link = refl

in_the_set : count 0 with_raised.conn_set ≡ 1
unfolding connection_moved new_connection
in_the_set = refl

read_end :
    read_fd (with_raised.links 0).read_buffer (got [])
    ≡ some ((with_raised.links 0).read_buffer, got [])
unfolding connection_moved new_connection new_link read_fd memcpy new
read_end = refl

reading_on : (with_raised.links 0).conn.reading ≡ true
unfolding connection_moved log
reading_on = refl

on_event-handle_close_in_loop_example :
    (l : Link) × (on_event three_each 2 3 kept odd_hangup (got []) (with_raised.links 0) ≡ some l)
    × ((connection_moved 0 l with_raised).closing ≡ with_raised.closing ++ (0 ∷ 0 ∷ []))
    × ((handle_close_in_loop 0 (connection_moved 0 l with_raised) >>= handle_close_in_loop 0)
        ≡ none)
on_event-handle_close_in_loop_example =
    on_event-handle_close_in_loop three_each 2 3 kept (got []) (with_raised.links 0).read_buffer
      odd_hangup 0 with_raised (record { hup = refl; not_in = refl; urgent = refl; not_out = refl })
      reading_on read_end in_the_set
