-- ===== src/TcpConnection/Drains.antt =====
-- `writeCallback`, called again and again as long as the connection asks for it.
use trantor.Prelude.{
  ℕ, zero, suc, ◌+◌, ◌*◌, ◌≤◌, ◌<◌, ◌≡◌, inl, inr, refl, sym, ap, ◌∙◌, Bool, true, false, Option,
  some, [], ◌++◌, ◌>>=◌, if◌then◌else◌, arith, length, length-append, append-nil,
}
use trantor.BufferNode.Content.{backlog}
use trantor.TcpConnection.{Conn, Kernel}
use trantor.TcpConnection.Raw.{outgoing, Obeys, Willing}
use trantor.TcpConnection.Drain.{MemList}
use trantor.TcpConnection.Send.{write_callback}
use trantor.TcpConnection.Callback.{write_callback-Flushes}

-- The loop calls back while there is interest in writing, at most `calls` times.
unfoldable pub flush : Kernel → ℕ → ℕ → ℕ → Conn → Option Conn
flush os fuel rounds zero c = some c
flush os fuel rounds (suc calls) c =
    if c.writing
    then (write_callback os fuel rounds c >>= λ d. flush os fuel rounds calls d)
    else some c

-- All that was to go out is on the wire, and there is no more interest in writing.
pub record Flushed (c : Conn) (o : Option Conn) : Type 0 where
  pub out : Conn
  pub returns : o ≡ some out
  pub none_waits : out.write_buffer_list ≡ []
  pub off : out.writing ≡ false
  pub on_wire : out.wire ≡ outgoing c

-- The bytes on the wire and the bytes that wait.
length-outgoing :
    (c : Conn) → length (outgoing c) ≡ length c.wire + length (backlog c.write_buffer_list)
length-outgoing c = length-append c.wire (backlog c.write_buffer_list)

fewer-left :
    (c d : Conn)
    → outgoing d ≡ outgoing c
    → length c.wire < length d.wire
    → length (backlog d.write_buffer_list) < length (backlog c.write_buffer_list)
fewer-left c d stream longer = omega (arith, length-outgoing c, length-outgoing d, ap length stream)

all_on_wire :
    (c d : Conn) → outgoing d ≡ outgoing c → d.write_buffer_list ≡ [] → d.wire ≡ outgoing c
all_on_wire c d stream none_waits =
    sym (append-nil d.wire) ∙ ap (λ l. d.wire ++ backlog l) (sym none_waits) ∙ stream

call_again :
    (b : Bool) (o stop : Option Conn) (next : Conn → Option Conn) (d : Conn)
    → b ≡ true
    → o ≡ some d
    → (if b then (o >>= next) else stop) ≡ next d
call_again b o stop next d on e = rw (on, e) refl

module _ (os : Kernel) (fuel rounds : ℕ) where
  flush_idle : (calls : ℕ) (c : Conn) → c.writing ≡ false → flush os fuel rounds calls c ≡ some c
  unfolding flush
  flush_idle zero c off = refl
  flush_idle (suc calls) c off = rw off refl

  flush_again :
      (calls : ℕ) (c d : Conn)
      → c.writing ≡ true
      → write_callback os fuel rounds c ≡ some d
      → flush os fuel rounds (suc calls) c ≡ flush os fuel rounds calls d
  unfolding flush
  flush_again calls c d on e =
      call_again c.writing (write_callback os fuel rounds c) (some c) (flush os fuel rounds calls) d
        on e

  -- A connection with writing enabled and a list of memory nodes only, each of fewer than 2 ^ 31 bytes, with
  -- enough fuel for the loops, and a kernel that keeps to the documented behaviour of `write` and takes
  -- at least one byte of each offer: after at most as many calls of `writeCallback` as bytes wait, and
  -- one more, every byte is on the wire, in order, the list is empty, and there is no more interest in
  -- writing.
  pub flush-Flushed :
      (calls : ℕ) (c : Conn)
      → Obeys os
      → Willing os
      → 2 ≤ fuel
      → c.writing ≡ true
      → MemList c.write_buffer_list
      → 2 * length c.write_buffer_list < rounds
      → length (backlog c.write_buffer_list) < calls
      → Flushed c (flush os fuel rounds calls c)
  flush-Flushed zero c obeys willing two on list enough many = absurd (omega arith)
  flush-Flushed (suc calls) c obeys willing two on list enough many =
      let f = write_callback-Flushes os fuel rounds c obeys on list two enough in
      let next = flush_again calls c f.out on f.returns in
      elim f.how [
        | inl idle ↦ record {
          out = f.out;
          returns = next ∙ flush_idle calls f.out idle.off;
          none_waits = idle.none_waits;
          off = idle.off;
          on_wire = all_on_wire c f.out f.stream idle.none_waits;
        }
        | inr busy ↦ elim (f.moved willing) [
          | inl off ↦ absurd (ground arith)
          | inr longer ↦
              let fewer = fewer-left c f.out f.stream longer in
              let shorter = f.shorter in
              let rest =
                flush-Flushed calls f.out obeys willing two busy.on busy.list (omega arith)
                  (omega arith) in
              record {
                out = rest.out;
                returns = next ∙ rest.returns;
                none_waits = rest.none_waits;
                off = rest.off;
                on_wire = rest.on_wire ∙ f.stream;
              }
        ]
      ]
