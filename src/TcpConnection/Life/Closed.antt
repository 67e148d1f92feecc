-- ===== src/TcpConnection/Life/Closed.antt =====
-- What is left to do with a connection that is down.
use trantor.Prelude.{ℕ, ◌≡◌, refl, Bool, true, false, some, none, List, arith}
use trantor.MsgBuffer.{MsgBuffer}
use trantor.MsgBuffer.Socket.{Reply}
use trantor.Channel.{Events}
use trantor.TcpConnection.{Kernel, disconnected, is_connected, send_in_loop, shutdown}
use trantor.TcpConnection.Life.{Link, force_close, connect_destroyed, remove_channel, on_event}
use trantor.TcpConnection.Life.Steps.{Reach}
use trantor.TcpConnection.Life.Once.{fresh, up, down}
use trantor.TcpConnection.Life.Dispatch.{on_event_silent, Reach-Stage}

-- The owner can remove the channel as long as the poller knows it, and nothing else changes the
-- connection.
pub record Ended (os : Kernel) (fuel rounds : ℕ) (recv : MsgBuffer → MsgBuffer) (l : Link)
    : Type 0 where
  pub removes : l.in_loop ≡ true → connect_destroyed l ≡ some (record l { in_loop = false })
  pub removes_not : l.in_loop ≡ false → connect_destroyed l ≡ none
  pub deaf : (r : Events) (answer : Reply) → on_event os fuel rounds recv r answer l ≡ some l
  pub sends_not : (xs : List ℕ) → send_in_loop os l.conn xs ≡ some l.conn
  pub shuts_not : shutdown l.conn ≡ l.conn
  pub forces_not : force_close l ≡ l

module _ (l : Link) (gone : l.conn.status ≡ disconnected) where
  off : is_connected l.conn.status ≡ false
  off = ground arith

  pub removed :
      l.conn.reading ≡ false
      → l.conn.writing ≡ false
      → l.in_loop ≡ true
      → connect_destroyed l ≡ some (record l { in_loop = false })
  unfolding connect_destroyed remove_channel
  removed r w known = ground arith

  removed_not : l.in_loop ≡ false → connect_destroyed l ≡ none
  unfolding connect_destroyed remove_channel
  removed_not unknown = ground arith

  pub not_sent : (os : Kernel) (xs : List ℕ) → send_in_loop os l.conn xs ≡ some l.conn
  unfolding send_in_loop
  not_sent os xs = ground arith

  pub not_shut : shutdown l.conn ≡ l.conn
  unfolding shutdown
  not_shut = rw off refl

  pub not_forced : force_close l ≡ l
  unfolding force_close
  not_forced = ground arith

-- A connection that is down, in every state that its loop reaches without `sendFile` and
-- `sendStream`, whatever events the poller reports (with `plain` true or false): `connectDestroyed` finds
-- no event waited for, and when the poller still knows the channel it meets no failed assertion, calls
-- nothing back, and takes the channel from the poller; behind that an assertion of the poller fails.
-- Every event of its channel, `send`, `shutdown` and `forceClose` leave the connection as it is.
pub Reach-Ended :
    {plain : Bool} {os : Kernel} {fuel rounds : ℕ} {recv : MsgBuffer → MsgBuffer} {l : Link}
    → Reach plain os fuel rounds recv l
    → l.conn.status ≡ disconnected
    → Ended os fuel rounds recv l
Reach-Ended {os = os} {fuel = fuel} {rounds = rounds} {recv = recv} {l = l} r gone =
    elim (Reach-Stage os fuel rounds recv r) [
      | fresh s e reading writing ↦ absurd (ground arith)
      | up s e on ↦ absurd (ground arith)
      | down s e reading writing ↦ record {
        removes = removed l gone reading writing;
        removes_not = removed_not l gone;
        deaf = λ ev answer. on_event_silent os fuel rounds recv ev answer l reading writing;
        sends_not = not_sent l gone os;
        shuts_not = not_shut l gone;
        forces_not = not_forced l gone;
      }
    ]
