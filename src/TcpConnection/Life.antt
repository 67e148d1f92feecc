-- ===== src/TcpConnection/Life.antt =====
-- The life of a connection without TLS: `connectEstablished`, `readCallback`, `handleClose`,
-- `forceClose`, `connectDestroyed`, and the events that its channel dispatches. The callbacks of the
-- user are entries of the log; what they call on the connection is a step of its own.
pub mod Loud
pub mod Quiet
pub mod Callback
pub mod Steps
pub mod Once
pub mod Twice
pub mod Staged
pub mod Dispatch
pub mod Closed
pub mod Inside
pub mod Revived
mod Tests
use trantor.Prelude.{
  ℕ, ◌+◌, Bool, true, false, not, ◌&&◌, ◌||◌, Option, some, none, List, [], ◌∷◌, ◌>>=◌, ◌>>◌,
  assert, if◌then◌else◌, ltb, ◌==◌, length, add_size,
}
use trantor.MsgBuffer.{MsgBuffer}
use trantor.MsgBuffer.Socket.{Reply, failed, got, read_fd}
use trantor.Channel.{Events, none_event, Channel, handle_event}
use trantor.Channel.Run.{Handlers, run_callbacks}
use trantor.TcpConnection.{
  Conn, Kernel, Event, Status, disconnected, connecting, connected, disconnecting, is_connected,
  is_disconnecting, extend_life, connection_callback, close_callback, eagain, log, shutdown,
}
use trantor.TcpConnection.Send.{write_callback}

-- The fields of a connection besides those of `Conn`; `in_loop` says that the poller knows its
-- channel: since `enableReading` of `connectEstablished`, until `Channel::remove`.
pub record Link : Type 0 where
  pub conn : Conn
  pub read_buffer : MsgBuffer
  pub bytes_received : ℕ
  pub tied : Bool
  pub in_loop : Bool

abbrev pub is_connecting : Status → Bool
is_connecting connecting = true
is_connecting _ = false

-- `EPIPE` and `ECONNRESET` are 32 and 104 on Linux.
abbrev pub epipe : ℕ
epipe = 32

abbrev pub econnreset : ℕ
econnreset = 104

-- `ioChannelPtr_->disableAll()`
unfoldable pub stop_events : Conn → Conn
stop_events c = record c { reading = false; writing = false }

-- `connectEstablished`, run in the loop.
unfoldable pub connect_established : Link → Option Link
connect_established l = do
  assert (is_connecting l.conn.status)
  some (record l {
    conn = log connection_callback (record l.conn { reading = true; status = connected });
    tied = true;
    in_loop = true;
  })

unfoldable pub handle_close : Link → Link
handle_close l = record l {
  conn =
      log close_callback
        (log connection_callback (stop_events (record l.conn { status = disconnected })));
}

unfoldable pub force_close : Link → Link
force_close l =
    if is_connected l.conn.status || is_disconnecting l.conn.status
    then handle_close (record l { conn = record l.conn { status = disconnecting } })
    else l

-- `Channel::remove` asserts that no event is waited for, and the poller that it knows the channel.
unfoldable pub remove_channel : Link → Option Link
remove_channel l = do
  assert (not (l.conn.reading || l.conn.writing))
  assert l.in_loop
  some (record l { in_loop = false })

unfoldable pub connect_destroyed : Link → Option Link
connect_destroyed l =
    if is_connected l.conn.status
    then remove_channel (record l {
      conn = log connection_callback (stop_events (record l.conn { status = disconnected }));
    })
    else remove_channel l

-- `readCallback` behind its `readFd`; `recv` is what the receiver of the message leaves.
unfoldable pub after_read : (MsgBuffer → MsgBuffer) → Link → Reply → Link
after_read recv l (failed errno) =
    if errno == epipe || errno == econnreset
    then l
    else if errno == eagain
    then l
    else handle_close l
after_read recv l (got xs) =
    if length xs == 0
    then (let l' = handle_close l in record l' { conn = log extend_life l'.conn })
    else record l {
      conn = log extend_life l.conn;
      read_buffer = recv l.read_buffer;
      bytes_received = add_size l.bytes_received (length xs);
    }

unfoldable pub read_callback : (MsgBuffer → MsgBuffer) → Reply → Link → Option Link
read_callback recv answer l = read_fd l.read_buffer answer >>= λ (b, r).
    some (after_read recv (record l { read_buffer = b }) r)

-- The channel of the connection, with the events `r` that the poller found. The loop's owner keeps
-- the connection alive while an event is handled.
abbrev pub io_channel : Events → Link → Channel
io_channel r l = record {
  events = record none_event {
    pollin = l.conn.reading;
    pollpri = l.conn.reading;
    pollout = l.conn.writing;
  };
  revents = r;
  has_event_callback = false;
  has_close_callback = true;
  has_error_callback = true;
  has_read_callback = true;
  has_write_callback = true;
  tied = l.tied;
  alive = true;
  updates = 0;
}

-- The four callbacks that the constructor sets; `handleError` only logs. The answer is what the
-- kernel has for the `readFd`.
unfoldable pub handlers : Kernel → ℕ → ℕ → (MsgBuffer → MsgBuffer) → Reply → Handlers Link
handlers os fuel rounds recv answer = record {
  on_close = λ l. some (handle_close l);
  on_error = λ l. some l;
  on_read = read_callback recv answer;
  on_write = λ l. write_callback os fuel rounds l.conn >>= λ c. some (record l { conn = c });
}

-- An event on the connection's channel.
unfoldable pub on_event :
    Kernel → ℕ → ℕ → (MsgBuffer → MsgBuffer) → Events → Reply → Link → Option Link
on_event os fuel rounds recv r answer l =
    run_callbacks (handlers os fuel rounds recv answer) (handle_event (io_channel r l)) l
