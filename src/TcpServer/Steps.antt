-- ===== src/TcpServer/Steps.antt =====
-- The steps of a server and of its connections, in any order.
use trantor.Prelude.{ℕ, Bool, true, ◌<◌, ◌≡◌, Option, some, List, []}
use trantor.MsgBuffer.{MsgBuffer}
use trantor.MsgBuffer.Socket.{Reply}
use trantor.Channel.{Events}
use trantor.TcpConnection.{Conn, Kernel, send_in_loop, shutdown}
use trantor.TcpConnection.Life.{Link, connect_established, force_close, on_event}
use trantor.TcpConnection.Life.Steps as Life
use trantor.TcpServer.{
  TcpServer, new_connection, handle_close_in_loop, connection_moved, Without, destroy_one,
}

-- What moves a connection that its owner does not remove; `plain` says whether the poller reports
-- plain hangups only.
pub data Moves (plain : Bool) (os : Kernel) (fuel rounds : ℕ) (recv : MsgBuffer → MsgBuffer)
    (l : Link) : Link → Type 0 where
  establishes : {l' : Link} → connect_established l ≡ some l' → Moves plain os fuel rounds recv l l'
  polled :
      (r : Events) (answer : Reply)
      → {l' : Link} → (plain ≡ true → Life.PlainHangup r)
      → on_event os fuel rounds recv r answer l ≡ some l'
      → Moves plain os fuel rounds recv l l'
  sends :
      (xs : List ℕ) (c : Conn)
      → send_in_loop os l.conn xs ≡ some c
      → Moves plain os fuel rounds recv l (record l { conn = c })
  shuts : Moves plain os fuel rounds recv l (record l { conn = shutdown l.conn })
  forces : Moves plain os fuel rounds recv l (force_close l)

-- A server that has accepted nobody.
abbrev pub Empty : TcpServer → Type 0
Empty s =
    (0 < s.num_io_loops)
    × (s.next_loop_idx ≡ 0)
    × (s.accepted ≡ 0)
    × (s.conn_set ≡ [])
    × (s.closing ≡ [])
    × (s.dying ≡ [])

pub data Step (plain : Bool) (os : Kernel) (fuel rounds : ℕ) (recv : MsgBuffer → MsgBuffer)
    (s : TcpServer) : TcpServer → Type 0 where
  accepts :
      (b : MsgBuffer) (mark : Option ℕ) → Step plain os fuel rounds recv s (new_connection b mark s)
  moves :
      (i : ℕ) (l : Link)
      → i < s.accepted
      → Moves plain os fuel rounds recv (s.links i) l
      → Step plain os fuel rounds recv s (connection_moved i l s)
  erases :
      (i : ℕ) (rest : List ℕ)
      → {s' : TcpServer} → Without i s.closing rest
      → handle_close_in_loop i (record s { closing = rest }) ≡ some s'
      → Step plain os fuel rounds recv s s'
  destroys :
      (i : ℕ) (rest : List ℕ)
      → {s' : TcpServer} → Without i s.dying rest
      → destroy_one i rest s ≡ some s'
      → Step plain os fuel rounds recv s s'

pub data Reach (plain : Bool) (os : Kernel) (fuel rounds : ℕ) (recv : MsgBuffer → MsgBuffer)
    : TcpServer → Type 0 where
  start : {s : TcpServer} → Empty s → Reach plain os fuel rounds recv s
  later :
      {s s' : TcpServer}
      → Reach plain os fuel rounds recv s
      → Step plain os fuel rounds recv s s'
      → Reach plain os fuel rounds recv s'
