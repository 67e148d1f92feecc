-- ===== src/TcpConnection/Life/Tests.antt =====
-- A life of a connection: it comes up, is told to close, and is removed; and the theorems on it.
use trantor.Prelude.{◌≡◌, refl, true, false, Option, some, none, [], ◌∷◌, arith, min}
use trantor.BufferNode.{FileBufferNode, file}
use trantor.MsgBuffer.{MsgBuffer, new}
use trantor.MsgBuffer.Socket.{failed, read_fd}
use trantor.Channel.{Events, none_event, handle_event, handle_event_safely, is_none_event, call}
use trantor.TcpConnection.{Conn, disconnected, wrote, Kernel, log, connected, connection_callback}
use trantor.TcpConnection.Send.{send_file_buffer}
use trantor.TcpConnection.Life.{
  Link, connect_established, handle_close, force_close, connect_destroyed, stop_events, on_event,
  handlers, after_read, read_callback,
}
use trantor.TcpConnection.Life.Steps.{new_link, establishes, polled, forces, Reach, made, later}
use trantor.TcpConnection.Life.Once.{Stage}
use trantor.TcpConnection.Life.Dispatch.{Reach-Stage}
use trantor.TcpConnection.Life.Closed.{Ended, Reach-Ended}
use trantor.TcpConnection.Life.Revived.{send_file_buffer-connect_destroyed}

abbrev three_each : Kernel
three_each k len = wrote (min len 3) 11

abbrev kept : MsgBuffer → MsgBuffer
kept b = b

abbrev started : Link
started = new_link (new 8) none

abbrev raised : Link
raised = record started {
  conn = log connection_callback (record started.conn { reading = true; status = connected });
  tied = true;
  in_loop = true;
}

raised-Reach : Reach false three_each 2 3 kept raised
unfolding connect_established new_link
raised-Reach = later (made (new 8) none) (establishes refl)

closed-Reach : Reach false three_each 2 3 kept (force_close raised)
closed-Reach = later raised-Reach forces

is_gone : (force_close raised).conn.status ≡ disconnected
unfolding force_close handle_close stop_events log new_link
is_gone = refl

-- A hangup with urgent data, and no bytes but those: the channel calls for the close and then to read.
abbrev odd_hangup : Events
odd_hangup = record none_event { pollpri = true; pollhup = true }

-- What `readv` answers then: an error.
abbrev hung_up : Option Link
hung_up = on_event three_each 2 3 kept odd_hangup (failed 5) raised

abbrev closed_twice : Link
closed_twice = handle_close (handle_close raised)

hung_up-closed_twice : hung_up ≡ some closed_twice
unfolding on_event handlers handle_event handle_event_safely is_none_event call read_callback
    after_read read_fd handle_close stop_events log new_link
hung_up-closed_twice = refl

twice-Reach : Reach false three_each 2 3 kept closed_twice
twice-Reach =
    later raised-Reach
      (polled odd_hangup (failed 5) (λ e. absurd (ground arith)) hung_up-closed_twice)

Reach-Stage_example : Stage false closed_twice.conn
Reach-Stage_example = Reach-Stage three_each 2 3 kept twice-Reach

Reach-Ended_example : Ended three_each 2 3 kept (force_close raised)
Reach-Ended_example = Reach-Ended closed-Reach is_gone

abbrev gone : Link
gone = record started { conn = record started.conn { status = disconnected } }

abbrev a_file : FileBufferNode
a_file = record {
  is_done = false;
  is_open = true;
  bytes_to_send = 4;
  buffer = none;
  source = 6 ∷ 7 ∷ 8 ∷ 9 ∷ [];
}

nothing_waits : gone.conn.write_buffer_list ≡ []
unfolding new_link
nothing_waits = refl

send_file_buffer-connect_destroyed_example :
    (d : Conn) × (send_file_buffer three_each 2 gone.conn (file a_file) ≡ some d)
    × (d.writing ≡ true)
    × (connect_destroyed (record gone { conn = d }) ≡ none)
send_file_buffer-connect_destroyed_example =
    send_file_buffer-connect_destroyed three_each 2 gone a_file 3 11 refl nothing_waits
      (record { undone = refl; some_bytes = omega arith; backed = omega arith }) refl (omega arith)
      (omega arith)
