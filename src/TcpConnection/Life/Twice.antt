-- ===== src/TcpConnection/Life/Twice.antt =====
-- A connection that is closed, and whose channel calls on in the same dispatch.
use trantor.Prelude.{
  ◌≡◌, inl, inr, refl, sym, ap, subst, ◌∙◌, Bool, false, ◌||◌, some, [], ◌∷◌, ◌++◌, length, ◌==◌,
  Bool-cases,
}
use trantor.MsgBuffer.{MsgBuffer}
use trantor.MsgBuffer.Socket.{Reply, failed, got, read_fd}
use trantor.TcpConnection.{Conn, disconnected, connection_callback, close_callback, eagain, log}
use trantor.TcpConnection.Life.{
  Link, epipe, econnreset, stop_events, handle_close, after_read, read_callback,
}
use trantor.TcpConnection.Life.Loud.{loud, loud-append}
use trantor.TcpConnection.Life.Once.{Stage, down, Up, extend_life-Stage, read_link}

-- A connection that was closed once.
pub record Closed (c : Conn) : Type 0 where
  pub gone : c.status ≡ disconnected
  pub heard : loud c.events ≡ connection_callback ∷ connection_callback ∷ close_callback ∷ []
  pub reads_not : c.reading ≡ false
  pub writes_not : c.writing ≡ false

close_heard :
    (l : Link)
    → loud (handle_close l).conn.events
      ≡ (loud l.conn.events ++ (connection_callback ∷ [])) ++ (close_callback ∷ [])
unfolding handle_close stop_events log
close_heard l =
    loud-append (l.conn.events ++ (connection_callback ∷ [])) (close_callback ∷ [])
    ∙ ap (λ es. es ++ (close_callback ∷ [])) (loud-append l.conn.events (connection_callback ∷ []))

pub handle_close-Closed : (l : Link) → Up l.conn → Closed (handle_close l).conn
unfolding handle_close stop_events log
handle_close-Closed l u = record {
  gone = refl;
  heard =
      close_heard l
      ∙ ap (λ es. (es ++ (connection_callback ∷ [])) ++ (close_callback ∷ [])) u.heard;
  reads_not = refl;
  writes_not = refl;
}

module _ {plain : Bool} where
  pub Closed-Stage : {c : Conn} → Closed c → Stage plain c
  Closed-Stage k = down k.gone (inl k.heard) k.reads_not k.writes_not

  -- A second `handleClose` reports the connection down and hands it back again.
  closes_again : (l : Link) → plain ≡ false → Closed l.conn → Stage plain (handle_close l).conn
  unfolding handle_close stop_events log
  closes_again l odd k =
      down refl
        (inr (
          inr (
            odd,
            close_heard l
                ∙ ap (λ es. (es ++ (connection_callback ∷ [])) ++ (close_callback ∷ [])) k.heard,
          )))
        refl refl

  after_read_again :
      (recv : MsgBuffer → MsgBuffer) (l : Link) (r : Reply)
      → plain ≡ false
      → Closed l.conn
      → Stage plain (after_read recv l r).conn
  unfolding after_read
  after_read_again recv l (failed errno) odd k =
      elim (Bool-cases (errno == epipe || errno == econnreset)) [
        | inl gone ↦ rw gone (Closed-Stage k)
        | inr other ↦ rw other (elim (Bool-cases (errno == eagain)) [
          | inl again ↦ rw again (Closed-Stage k)
          | inr bad ↦ rw bad (closes_again l odd k)
        ])
      ]
  after_read_again recv l (got xs) odd k = elim (Bool-cases (length xs == 0)) [
    | inl closed ↦ rw closed (extend_life-Stage _ (closes_again l odd k))
    | inr more ↦ rw more (extend_life-Stage l.conn (Closed-Stage k))
  ]

  pub read_callback_again :
      (recv : MsgBuffer → MsgBuffer) (answer : Reply) (l l' : Link)
      → plain ≡ false
      → Closed l.conn
      → read_callback recv answer l ≡ some l'
      → Stage plain l'.conn
  unfolding read_callback
  read_callback_again recv answer l l' odd k e =
      let (b, r, made) = read_link recv answer l l' (read_fd l.read_buffer answer) e in
      subst (λ m. Stage plain m.conn) (sym made)
        (after_read_again recv (record l { read_buffer = b }) r odd k)
