-- ===== src/TcpServer/Moves.antt =====
-- What a step of a connection does to its stage.
use trantor.Prelude.{ℕ, ◌≡◌, inl, inr, ap, ◌∙◌, Bool, true, false, some, arith}
use trantor.MsgBuffer.{MsgBuffer}
use trantor.TcpConnection.{Conn, Kernel, disconnected}
use trantor.TcpConnection.Life.{Link, connect_established, connect_destroyed}
use trantor.TcpConnection.Life.Steps as Life
use trantor.TcpConnection.Life.Once.{Stage, fresh, up, down}
use trantor.TcpConnection.Life.Dispatch.{Step-Stage, on_event_silent}
use trantor.TcpConnection.Life.Closed.{removed, not_sent, not_shut, not_forced}
use trantor.TcpConnection.Life.Inside.{
  Inside, connect_established-Inside, on_event-Inside, send_in_loop-Inside, shutdown-Inside,
  force_close-Inside,
}
use trantor.TcpServer.{closes}
use trantor.TcpServer.Steps.{Moves, establishes, polled, sends, shuts, forces}
use trantor.TcpServer.Counts.{closes-loud}

module _ {plain : Bool} {os : Kernel} {fuel rounds : ℕ} {recv : MsgBuffer → MsgBuffer} where
  pub Moves-Stage :
      {l l' : Link}
      → Stage plain l.conn
      → Moves plain os fuel rounds recv l l'
      → Stage plain l'.conn
  Moves-Stage s (establishes e) = Step-Stage os fuel rounds recv s (Life.establishes e)
  Moves-Stage s (polled r answer only e) =
      Step-Stage os fuel rounds recv s (Life.polled r answer only e)
  Moves-Stage {l = l} s (sends xs c e) =
      Step-Stage os fuel rounds recv {l = l} s (Life.sends xs c e)
  Moves-Stage {l = l} s shuts = Step-Stage os fuel rounds recv {l = l} s Life.shuts
  Moves-Stage {l = l} s forces = Step-Stage os fuel rounds recv {l = l} s Life.forces

  -- A connection that is down stays as it is.
  stays :
      {l l' : Link}
      → l.conn.status ≡ disconnected
      → l.conn.reading ≡ false
      → l.conn.writing ≡ false
      → Moves plain os fuel rounds recv l l'
      → l'.conn ≡ l.conn
  unfolding connect_established
  stays {l} {l'} gone r w (establishes e) = absurd (ground arith)
  stays {l} {l'} gone r w (polled ev answer only e) =
      let same = on_event_silent os fuel rounds recv ev answer l r w in
      let it : l' ≡ l = ground arith in ap (λ (k : Link). k.conn) it
  stays {l} gone r w (sends xs c e) = let same = not_sent l gone os xs in ground arith
  stays {l} gone r w shuts = not_shut l gone
  stays {l} gone r w forces = ap (λ (k : Link). k.conn) (not_forced l gone)

  -- Once it has called its owner back, it does so no more.
  pub called-once :
      {l l' : Link}
      → Stage plain l.conn
      → closes l.conn.events ≡ 1
      → Moves plain os fuel rounds recv l l'
      → closes l'.conn.events ≡ 1
  called-once {l} {l'} (down s e r w) once m =
      ap (λ (c : Conn). closes c.events) (stays {l = l} {l' = l'} s r w m) ∙ once
  called-once {l} (fresh s e r w) once m =
      absurd (let none_yet = closes-loud l.conn.events ∙ ap closes e in omega arith)
  called-once {l} (up s e r) once m =
      absurd (let none_yet = closes-loud l.conn.events ∙ ap closes e in omega arith)

  pub Moves-Inside :
      {l l' : Link}
      → Stage plain l.conn
      → Moves plain os fuel rounds recv l l'
      → Inside l
      → Inside l'
  Moves-Inside {l} {l'} s (establishes e) k = connect_established-Inside l l' e
  Moves-Inside {l} {l'} s (polled r answer only e) k =
      on_event-Inside os fuel rounds recv answer r l l' s e k
  Moves-Inside {l} s (sends xs c e) k = send_in_loop-Inside os l xs c e k
  Moves-Inside {l} s shuts k = shutdown-Inside l k
  Moves-Inside {l} s forces k = force_close-Inside l k

-- A connection that has called its owner back, and that the poller knows, can be destroyed, which
-- changes no field of `Conn`.
pub can_destroy :
    (l : Link)
    → Stage true l.conn
    → closes l.conn.events ≡ 1
    → Inside l
    → connect_destroyed l ≡ some (record l { in_loop = false })
can_destroy l (down s e r w) once (inr known) = removed l s r w known
can_destroy l (down s e r w) once (inl new) = absurd (ground arith)
can_destroy l (fresh s e r w) once k =
    absurd (let none_yet = closes-loud l.conn.events ∙ ap closes e in omega arith)
can_destroy l (up s e r) once k =
    absurd (let none_yet = closes-loud l.conn.events ∙ ap closes e in omega arith)
