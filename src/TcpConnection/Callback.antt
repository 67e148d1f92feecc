-- ===== src/TcpConnection/Callback.antt =====
-- `writeCallback` on a list of memory nodes, with what it does below its loop.
use trantor.Prelude.{
  ℕ, zero, suc, ◌*◌, ◌≤◌, ◌<◌, ◌≡◌, ◌⊎◌, inl, inr, refl, sym, ap, subst, ◌∙◌, Bool, true, false,
  ◌&&◌, Option, some, List, [], ◌∷◌, ◌++◌, arith, length,
}
use trantor.BufferNode.Content.{backlog}
use trantor.TcpConnection.{
  Conn, Kernel, disconnecting, is_connected, shutdown, Event, shut_write, log,
}
use trantor.TcpConnection.Raw.{outgoing, Obeys, Willing}
use trantor.TcpConnection.Drain.{MemList}
use trantor.TcpConnection.Send.{drain, after_drain, write_callback}
use trantor.TcpConnection.Loop.{drain-Drained}

-- The list has run empty: there is no interest in writing left, and a close that was put off is
-- made, on an open connection only.
pub record Idle (c out : Conn) : Type 0 where
  pub none_waits : out.write_buffer_list ≡ []
  pub off : out.writing ≡ false
  pub closes :
      (is_connected c.status && c.close_on_empty) ≡ true
      → (out.status ≡ disconnecting)
        × ((before : List Event) × (out.events ≡ before ++ (shut_write ∷ [])))
  pub stays : (is_connected c.status && c.close_on_empty) ≡ false → out.status ≡ c.status

-- Some of the list is left: writing stays enabled.
pub record Busy (c out : Conn) : Type 0 where
  pub on : out.writing ≡ true
  pub list : MemList out.write_buffer_list
  pub state : out.status ≡ c.status
  pub closing : out.close_on_empty ≡ c.close_on_empty

-- The stream is what it was before the call.
pub record Flushes (os : Kernel) (c : Conn) (o : Option Conn) : Type 0 where
  pub out : Conn
  pub returns : o ≡ some out
  pub stream : outgoing out ≡ outgoing c
  pub how : Idle c out ⊎ Busy c out
  pub shorter : length out.write_buffer_list ≤ length c.write_buffer_list
  pub moved : Willing os → (out.writing ≡ false) ⊎ (length c.wire < length out.wire)

after_drain-wire : (d : Conn) → d.write_buffer_list ≡ [] → (after_drain (d, true)).wire ≡ d.wire
unfolding after_drain shutdown log
after_drain-wire d e = ground arith

after_drain-Idle : (d : Conn) → d.write_buffer_list ≡ [] → Idle d (after_drain (d, true))
unfolding after_drain shutdown log
after_drain-Idle d e = record {
  none_waits = ground arith;
  off = ground arith;
  closes = λ h. (ground arith, (d.events, ground arith));
  stays = ground arith;
}

-- What `Idle` says depends on two fields of the state before.
Idle-from :
    {c d out : Conn}
    → d.status ≡ c.status
    → d.close_on_empty ≡ c.close_on_empty
    → Idle d out
    → Idle c out
Idle-from state closing i = record {
  none_waits = i.none_waits;
  off = i.off;
  closes = λ h. i.closes (rw (state, closing) h);
  stays = λ h. i.stays (rw (state, closing) h) ∙ state;
}

busy_end : (d : Conn) → after_drain (d, false) ≡ d
unfolding after_drain
busy_end d = refl

after_drain-Flushes :
    (os : Kernel) (c d : Conn) (ran_empty : Bool)
    → d.status ≡ c.status
    → d.close_on_empty ≡ c.close_on_empty
    → outgoing d ≡ outgoing c
    → MemList d.write_buffer_list
    → (ran_empty ≡ true) × (d.write_buffer_list ≡ []) ⊎ (ran_empty ≡ false) × (d.writing ≡ true)
    → length d.write_buffer_list ≤ length c.write_buffer_list
    → (Willing os → ran_empty ≡ false → length c.wire < length d.wire)
    → Flushes os c (some (after_drain (d, ran_empty)))
after_drain-Flushes os c d true state closing stream list (inl (e, none_waits)) shorter moved =
    let i = after_drain-Idle d none_waits in
    record {
      out = after_drain (d, true);
      returns = refl;
      stream =
          ap (λ m. m ++ backlog (after_drain (d, true)).write_buffer_list)
            (after_drain-wire d none_waits)
          ∙ ap (λ l. d.wire ++ backlog l) (i.none_waits ∙ sym none_waits)
          ∙ stream;
      how = inl (Idle-from state closing i);
      shorter = omega (arith, ap length i.none_waits);
      moved = λ w. inl i.off;
    }
after_drain-Flushes os c d true state closing stream list (inr (e, on)) shorter moved =
    absurd (ground arith)
after_drain-Flushes os c d false state closing stream list (inl (e, none_waits)) shorter moved =
    absurd (ground arith)
after_drain-Flushes os c d false state closing stream list (inr (e, on)) shorter moved = record {
  out = d;
  returns = ap some (busy_end d);
  stream = stream;
  how = inr (record { on = on; list = list; state = state; closing = closing });
  shorter = shorter;
  moved = λ w. inr (moved w refl);
}

callback_when :
    (os : Kernel) (fuel rounds : ℕ) (c d : Conn) (ran_empty : Bool)
    → c.writing ≡ true
    → drain os fuel rounds c c.write_buffer_list ≡ some (d, ran_empty)
    → write_callback os fuel rounds c ≡ some (after_drain (d, ran_empty))
unfolding write_callback
callback_when os fuel rounds c d ran_empty on e = rw (e, on)

-- `writeCallback`, called when the socket takes more, on a list of memory nodes with fewer than
-- 2 ^ 31 bytes each: the loop ends after at most two passes for each node; no byte is lost,
-- doubled or moved. Either the list has run empty, there is no more interest in writing, and a
-- close that was put off is made; or writing is still enabled for the rest.
pub write_callback-Flushes :
    (os : Kernel) (fuel rounds : ℕ) (c : Conn)
    → Obeys os
    → c.writing ≡ true
    → MemList c.write_buffer_list
    → 2 ≤ fuel
    → 2 * length c.write_buffer_list < rounds
    → Flushes os c (write_callback os fuel rounds c)
write_callback-Flushes os zero rounds c obeys on list two enough = absurd (omega arith)
write_callback-Flushes os (suc zero) rounds c obeys on list two enough = absurd (omega arith)
write_callback-Flushes os (suc (suc fuel)) rounds c obeys on list two enough =
    let d = drain-Drained os fuel rounds c c.write_buffer_list obeys list enough on in
    subst (λ o. Flushes os c o)
      (sym (callback_when os (suc (suc fuel)) rounds c d.out d.ran_empty on d.returns))
      (after_drain-Flushes os c d.out d.ran_empty d.state d.closing d.stream d.list d.how d.shorter
        d.moved)
