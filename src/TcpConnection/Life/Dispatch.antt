-- ===== src/TcpConnection/Life/Dispatch.antt =====
-- The events of a connection's channel, and every state that its loop reaches.
use trantor.Prelude.{
  ℕ, ◌≡◌, refl, sym, subst, Bool, true, false, Option, some, [], arith, ◌⊎◌, inl, inr, not, ◌&&◌,
  ◌||◌,
}
use trantor.MsgBuffer.{MsgBuffer}
use trantor.MsgBuffer.Socket.{Reply}
use trantor.Channel.{Events, handle_event, handle_event_safely, is_none_event}
use trantor.TcpConnection.{Kernel}
use trantor.TcpConnection.Life.{Link, on_event, io_channel}
use trantor.TcpConnection.Life.Steps.{
  PlainHangup, Step, establishes, polled, sends, shuts, forces, destroys, Reach, made, later,
  new_link,
}
use trantor.TcpConnection.Life.Once.{
  Stage, fresh, up, down, Up, connect_established-Stage, force_close-Stage, shutdown-Stage,
  send_in_loop-Stage, connect_destroyed-Stage,
}
use trantor.TcpConnection.Life.Staged.{Staged, Staged-some, run, closes}

silent :
    (r : Events) (l : Link)
    → l.conn.reading ≡ false
    → l.conn.writing ≡ false
    → handle_event (io_channel r l) ≡ []
unfolding handle_event is_none_event
silent r l reading writing = ground arith

pub dispatched :
    (r : Events) (l : Link)
    → l.conn.reading ≡ true
    → handle_event (io_channel r l) ≡ handle_event_safely (io_channel r l)
unfolding handle_event is_none_event
dispatched r l reading = ground arith

pub new_link-Stage :
    {plain : Bool} (b : MsgBuffer) (mark : Option ℕ) → Stage plain (new_link b mark).conn
unfolding new_link
new_link-Stage b mark = fresh refl refl refl refl

module _ (os : Kernel) (fuel rounds : ℕ) (recv : MsgBuffer → MsgBuffer) where
  -- Without interest an event does nothing.
  pub on_event_silent :
      (r : Events) (answer : Reply) (l : Link)
      → l.conn.reading ≡ false
      → l.conn.writing ≡ false
      → on_event os fuel rounds recv r answer l ≡ some l
  unfolding on_event
  on_event_silent r answer l reading writing = rw (silent r l reading writing) refl

-- Behind a close the channel does not read, or hangups need not be plain.
plain_or_odd :
    (r : Events) (plain : Bool)
    → (plain ≡ true → PlainHangup r)
    → (r.pollhup && not r.pollin && true) ≡ true
    → (((r.pollin || r.pollpri || r.pollrdhup) && true) ≡ false) ⊎ (plain ≡ false)
plain_or_odd r false only c = inr refl
plain_or_odd r true only c = inl (let h = only refl in ground arith)

module _ {plain : Bool} (os : Kernel) (fuel rounds : ℕ) (recv : MsgBuffer → MsgBuffer) where
  safely-Staged :
      (r : Events) (answer : Reply) (l : Link)
      → Up l.conn
      → (plain ≡ true → PlainHangup r)
      → Staged plain (run os fuel rounds recv answer (handle_event_safely (io_channel r l)) l)
  unfolding handle_event_safely
  safely-Staged r answer l u only =
      closes os fuel rounds recv answer _ _ _ _ l u (λ c. plain_or_odd r plain only c)

  raised-Staged :
      (r : Events) (answer : Reply) (l : Link)
      → Up l.conn
      → (plain ≡ true → PlainHangup r)
      → Staged plain (on_event os fuel rounds recv r answer l)
  unfolding on_event
  raised-Staged r answer l u only =
      subst (λ ks. Staged plain (run os fuel rounds recv answer ks l))
        (sym (dispatched r l u.reads)) (safely-Staged r answer l u only)

  on_event-Staged :
      (r : Events) (answer : Reply) (l : Link)
      → Stage plain l.conn
      → (plain ≡ true → PlainHangup r)
      → Staged plain (on_event os fuel rounds recv r answer l)
  on_event-Staged r answer l (fresh s e off w) only =
      subst (Staged plain) (sym (on_event_silent os fuel rounds recv r answer l off w))
        (Staged-some l (fresh s e off w))
  on_event-Staged r answer l (down s e off w) only =
      subst (Staged plain) (sym (on_event_silent os fuel rounds recv r answer l off w))
        (Staged-some l (down s e off w))
  on_event-Staged r answer l (up s e on) only =
      raised-Staged r answer l (record { state = s; heard = e; reads = on }) only

  pub Step-Stage :
      {l l' : Link} → Stage plain l.conn → Step plain os fuel rounds recv l l' → Stage plain l'.conn
  Step-Stage {l} {l'} s (establishes e) = connect_established-Stage l l' s e
  Step-Stage {l} {l'} s (polled r answer only e) = (on_event-Staged r answer l s only).each l' e
  Step-Stage {l} s (sends xs c e) = send_in_loop-Stage os l.conn c xs s e
  Step-Stage {l} s shuts = shutdown-Stage l.conn s
  Step-Stage {l} s forces = force_close-Stage l s
  Step-Stage {l} {l'} s (destroys e) = connect_destroyed-Stage l l' s e

  -- With any sequence of events, or, when `plain` is true, any in which a hangup with nothing left to read
  -- comes without another readable event. Whatever the loop thread does with a connection besides
  -- `sendFile` and `sendStream`, in whatever order: it is reported to the user once when it comes up
  -- and then once when it goes down, and behind that handed back to its owner at most once; only when
  -- `plain` is false it may be reported down and handed back a second time. It reads as long as it is
  -- up, and waits for nothing before it is up and when it is down.
  pub Reach-Stage : {l : Link} → Reach plain os fuel rounds recv l → Stage plain l.conn
  Reach-Stage (made b mark) = new_link-Stage b mark
  Reach-Stage (later r s) = Step-Stage (Reach-Stage r) s
