-- ===== src/TcpConnection/Life/Staged.antt =====
-- The callbacks that an event calls, and the stage of the connection behind each.
use trantor.Prelude.{
  ℕ, ◌≡◌, refl, sym, subst, Bool, true, false, Option, some, none, List, [], ◌∷◌, ◌++◌, ◌>>=◌,
  arith, ◌⊎◌, inl, inr,
}
use trantor.MsgBuffer.{MsgBuffer}
use trantor.MsgBuffer.Socket.{Reply}
use trantor.Channel.{close_callback, error_callback, read_callback, write_callback, Callback, call}
use trantor.Channel.Run.{run_callbacks}
use trantor.TcpConnection.{Conn, Kernel}
use trantor.TcpConnection.Send as Send
use trantor.TcpConnection.Life as Life
use trantor.TcpConnection.Life.{Link, handle_close, handlers, on_event, io_channel}
use trantor.TcpConnection.Life.Callback.{write_callback-Quietly}
use trantor.TcpConnection.Life.Twice.{
  Closed, Closed-Stage, handle_close-Closed, read_callback_again,
}
use trantor.TcpConnection.Life.Once.{Stage, Up, Up-Stage, Quiet-Stage, read_callback-Stage}

-- Each result of an event has a stage.
pub record Staged (plain : Bool) (o : Option Link) : Type 0 where
  pub each : (l : Link) → o ≡ some l → Stage plain l.conn

pub Staged-some : {plain : Bool} (l : Link) → Stage plain l.conn → Staged plain (some l)
Staged-some {plain = plain} l s = record {
  each = λ k e. subst (λ (m : Link). Stage plain m.conn) (some-injective e) s;
}
  where
    some-injective : {a b : Link} → some a ≡ some b → a ≡ b
    some-injective e = cc

Staged-bind :
    {plain : Bool} (o : Option Link) (next : Link → Option Link)
    → ((l : Link) → o ≡ some l → Staged plain (next l))
    → Staged plain (o >>= next)
Staged-bind none next h = record { each = λ k e. absurd (ground arith) }
Staged-bind (some l) next h = h l refl

write_idle :
    (os : Kernel) (fuel rounds : ℕ) (c d : Conn)
    → c.writing ≡ false
    → Send.write_callback os fuel rounds c ≡ some d
    → d ≡ c
unfolding Send.write_callback
write_idle os fuel rounds c d off e = ground arith

pub with_conn :
    (l l' : Link) (o : Option Conn)
    → (o >>= λ c. some (record l { conn = c })) ≡ some l'
    → (c : Conn) × (o ≡ some c) × (l'.conn ≡ c)
with_conn l l' none e = absurd (ground arith)
with_conn l l' (some c) e = (c, refl, ground arith)

module _ (os : Kernel) (fuel rounds : ℕ) (recv : MsgBuffer → MsgBuffer) (answer : Reply) where
  abbrev pub run : List Callback → Link → Option Link
  run ks l = run_callbacks (handlers os fuel rounds recv answer) ks l

module _ {plain : Bool} (os : Kernel) (fuel rounds : ℕ) (recv : MsgBuffer → MsgBuffer)
    (answer : Reply) where
  one : (l : Link) (o : Option Link) → Staged plain o → Staged plain (o >>= λ k. some k)
  one l none s = s
  one l (some k) s = s

  write-Staged :
      (l : Link)
      → Stage plain l.conn
      → Staged plain (run os fuel rounds recv answer (write_callback ∷ []) l)
  unfolding handlers
  write-Staged l s =
      one l (Send.write_callback os fuel rounds l.conn >>= λ c. some (record l { conn = c }))
        (record {
          each = λ l' e.
              let (c, wrote, kept) = with_conn l l' (Send.write_callback os fuel rounds l.conn) e in
              subst (Stage plain) (sym kept) (
                Quiet-Stage s ((write_callback-Quietly os fuel rounds l.conn).each c wrote)
                  (λ h off. write_idle os fuel rounds l.conn c off wrote));
        })

  -- The end of the list, behind the callback for reading.
  writes :
      (b : Bool) (l : Link)
      → Stage plain l.conn
      → Staged plain (run os fuel rounds recv answer (call b write_callback) l)
  unfolding call
  writes true l s = write-Staged l s
  writes false l s = Staged-some l s

  reads :
      (b w : Bool) (l : Link)
      → Up l.conn
      → Staged plain
          (run os fuel rounds recv answer (call b read_callback ++ call w write_callback) l)
  unfolding call handlers
  reads false w l u = writes w l (Up-Stage u)
  reads true w l u =
      Staged-bind (Life.read_callback recv answer l)
        (λ k. run os fuel rounds recv answer (call w write_callback) k)
        (λ k e. writes w k (read_callback-Stage recv answer l k u e))

  errs :
      (e r w : Bool) (l : Link)
      → Up l.conn
      → Staged plain (
          run os fuel rounds recv answer
            (call e error_callback ++ call r read_callback ++ call w write_callback)
            l)
  unfolding call handlers
  errs false r w l u = reads r w l u
  errs true r w l u = reads r w l u

  -- The end of the list, behind a close that may not have been the last.
  reads_again :
      (b w : Bool) (l : Link)
      → plain ≡ false
      → Closed l.conn
      → Staged plain
          (run os fuel rounds recv answer (call b read_callback ++ call w write_callback) l)
  unfolding call handlers
  reads_again false w l odd k = writes w l (Closed-Stage k)
  reads_again true w l odd k =
      Staged-bind (Life.read_callback recv answer l)
        (λ m. run os fuel rounds recv answer (call w write_callback) m)
        (λ m e. writes w m (read_callback_again recv answer l m odd k e))

  reads_closed :
      (b w : Bool) (l : Link)
      → (b ≡ false) ⊎ (plain ≡ false)
      → Closed l.conn
      → Staged plain
          (run os fuel rounds recv answer (call b read_callback ++ call w write_callback) l)
  unfolding call
  reads_closed b w l (inr odd) k = reads_again b w l odd k
  reads_closed true w l (inl off) k = absurd (ground arith)
  reads_closed false w l (inl off) k = writes w l (Closed-Stage k)

  pub closes :
      (c e r w : Bool) (l : Link)
      → Up l.conn
      → (c ≡ true → (r ≡ false) ⊎ (plain ≡ false))
      → Staged plain (
          run os fuel rounds recv answer
            (call c close_callback
              ++ call e error_callback
              ++ call r read_callback
              ++ call w write_callback)
            l)
  unfolding call handlers
  closes false e r w l u last = errs e r w l u
  closes true false r w l u last =
      reads_closed r w (handle_close l) (last refl) (handle_close-Closed l u)
  closes true true r w l u last =
      reads_closed r w (handle_close l) (last refl) (handle_close-Closed l u)
