-- ===== src/TcpConnection/Life/Steps.antt =====
-- What the loop thread does with a connection, in any order, and the states that it reaches.
use trantor.Prelude.{ℕ, Bool, true, false, not, ◌&&◌, ◌||◌, ◌≡◌, Option, some, List, []}
use trantor.MsgBuffer.{MsgBuffer}
use trantor.MsgBuffer.Socket.{Reply}
use trantor.Channel.{Events}
use trantor.TcpConnection.{Conn, Kernel, connecting, send_in_loop, shutdown}
use trantor.TcpConnection.Life.{Link, connect_established, force_close, connect_destroyed, on_event}

-- A hangup that leaves nothing to read comes without another readable event.
abbrev pub PlainHangup : Events → Type 0
PlainHangup r = (r.pollhup && not r.pollin) ≡ true → (r.pollin || r.pollpri || r.pollrdhup) ≡ false

-- A connection just made.
unfoldable pub new_link : MsgBuffer → Option ℕ → Link
new_link b mark = record {
  conn = record {
    status = connecting;
    reading = false;
    writing = false;
    write_buffer_list = [];
    close_on_empty = false;
    bytes_sent = 0;
    high_water_mark = mark;
    wire = [];
    calls = 0;
    events = [];
  };
  read_buffer = b;
  bytes_received = 0;
  tied = false;
  in_loop = false;
}

-- `plain` says whether the poller reports plain hangups only.
pub data Step (plain : Bool) (os : Kernel) (fuel rounds : ℕ) (recv : MsgBuffer → MsgBuffer)
    (l : Link) : Link → Type 0 where
  establishes : {l' : Link} → connect_established l ≡ some l' → Step plain os fuel rounds recv l l'
  polled :
      (r : Events) (answer : Reply)
      → {l' : Link} → (plain ≡ true → PlainHangup r)
      → on_event os fuel rounds recv r answer l ≡ some l'
      → Step plain os fuel rounds recv l l'
  sends :
      (xs : List ℕ) (c : Conn)
      → send_in_loop os l.conn xs ≡ some c
      → Step plain os fuel rounds recv l (record l { conn = c })
  shuts : Step plain os fuel rounds recv l (record l { conn = shutdown l.conn })
  forces : Step plain os fuel rounds recv l (force_close l)
  destroys : {l' : Link} → connect_destroyed l ≡ some l' → Step plain os fuel rounds recv l l'

pub data Reach (plain : Bool) (os : Kernel) (fuel rounds : ℕ) (recv : MsgBuffer → MsgBuffer)
    : Link → Type 0 where
  made : (b : MsgBuffer) (mark : Option ℕ) → Reach plain os fuel rounds recv (new_link b mark)
  later :
      {l l' : Link}
      → Reach plain os fuel rounds recv l
      → Step plain os fuel rounds recv l l'
      → Reach plain os fuel rounds recv l'
