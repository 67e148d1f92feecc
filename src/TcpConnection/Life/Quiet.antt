-- ===== src/TcpConnection/Life/Quiet.antt =====
-- The writing half of a connection makes no callback, and changes the status only by `shutdown`.
use trantor.Prelude.{
  ℕ, ◌≡◌, inl, inr, refl, Bool, true, false, ◌&&◌, Option, some, none, List, if◌then◌else◌, arith,
  ltb, length, drop, Bool-cases,
}
use trantor.BufferNode.{BufferNode, remaining_bytes}
use trantor.TcpConnection.{
  Conn, Answer, wrote, failed, Sent, sent, error, Kernel, Status, disconnected, connecting,
  connected, disconnecting, high_water, extend_life, shut_write, is_eagain, is_connected,
  enable_writing, log, wrote_some, after_write, next_call, back?, check_high_water, queue_rest,
  is_empty, write_raw, send_in_loop, shutdown,
}
use trantor.TcpConnection.Send.{sent_file_end}
use trantor.TcpConnection.Life.Loud.{
  Quiet, Quiet-keep, Quiet-refl, Quiet-trans, log-Quiet, Quietly, Quietly-some, Quietly-bind,
  Quietly-if, Quietly-from,
}

is_connected-connected : (s : Status) → is_connected s ≡ true → s ≡ connected
is_connected-connected disconnected e = absurd (ground arith)
is_connected-connected connecting e = absurd (ground arith)
is_connected-connected connected e = refl
is_connected-connected disconnecting e = absurd (ground arith)

pub if-Quiet : (b : Bool) {c d e : Conn} → Quiet c d → Quiet c e → Quiet c (if b then d else e)
if-Quiet true p q = p
if-Quiet false p q = q

enable_writing-Quiet : (c : Conn) → Quiet c (enable_writing c)
unfolding enable_writing
enable_writing-Quiet c = Quiet-keep c _ refl refl refl

wrote_some-Quiet : (c : Conn) (xs : List ℕ) (n : ℕ) → Quiet c (wrote_some c xs n).0
unfolding wrote_some
wrote_some-Quiet c xs n =
    Quiet-trans (if-Quiet _ (enable_writing-Quiet c) (Quiet-refl c)) (log-Quiet extend_life _ refl)

after_write-Quiet : (c : Conn) (xs : List ℕ) (a : Answer) → Quiet c (after_write c xs a).0
unfolding after_write
after_write-Quiet c xs (wrote n errno) = elim (Bool-cases (ltb 0 n)) [
  | inl more ↦ rw more (Quiet-trans (Quiet-keep c _ refl refl refl) (wrote_some-Quiet _ xs n))
  | inr nothing ↦ rw nothing (elim (Bool-cases (is_eagain errno)) [
    | inl again ↦ rw again (wrote_some-Quiet c xs 0)
    | inr other ↦ rw other (Quiet-refl c)
  ])
]
after_write-Quiet c xs (failed errno) = elim (Bool-cases (is_eagain errno)) [
  | inl again ↦ rw again (wrote_some-Quiet c xs 0)
  | inr other ↦ rw other (Quiet-refl c)
]

pub write_raw-Quiet : (os : Kernel) (c : Conn) (xs : List ℕ) → Quiet c (write_raw os c xs).0
unfolding write_raw
write_raw-Quiet os c xs =
    Quiet-trans (Quiet-keep c (next_call c) refl refl refl) (after_write-Quiet (next_call c) xs _)

marked-Quiet :
    (c : Conn) (mark : ℕ) (o : Option BufferNode)
    → Quiet c (elim o [
      | none ↦ c
      | some n ↦ if ltb mark (remaining_bytes n) then log (high_water (remaining_bytes n)) c else c
    ])
marked-Quiet c mark none = Quiet-refl c
marked-Quiet c mark (some n) =
    if-Quiet _ (log-Quiet (high_water (remaining_bytes n)) c refl) (Quiet-refl c)

check_high_water-Quiet : (c : Conn) → Quiet c (check_high_water c)
unfolding check_high_water
check_high_water-Quiet c =
    elim c.high_water_mark
      as (λ m. Quiet c (elim m [
        | none ↦ c
        | some mark ↦ elim (back? c.write_buffer_list) [
          | none ↦ c
          | some n ↦
              if ltb mark (remaining_bytes n) then log (high_water (remaining_bytes n)) c else c
        ]
      ])) [ none ↦ Quiet-refl c | some mark ↦ marked-Quiet c mark (back? c.write_buffer_list) ]

abbrev pub itself : Conn → Conn
itself c = c

queue_rest-Quietly : (c : Conn) (xs : List ℕ) → Quietly itself c (queue_rest c xs)
unfolding queue_rest
queue_rest-Quietly c xs =
    Quietly-if itself c (ltb 0 (length xs) && is_connected c.status)
      (Quietly-bind itself c (λ ns e. Quietly-some itself c _ (
        Quiet-trans (Quiet-keep c (record c { write_buffer_list = ns }) refl refl refl)
          (check_high_water-Quiet _))))
      (Quietly-some itself c c (Quiet-refl c))

after_direct :
    (c : Conn) (xs : List ℕ) (r : Conn × Sent)
    → Quiet c r.0
    → Quietly itself c (elim r.1 [ error ↦ some r.0 | sent n ↦ queue_rest r.0 (drop n xs) ])
after_direct c xs (c', error) q = Quietly-some itself c c' q
after_direct c xs (c', sent n) q = Quietly-from itself q (queue_rest-Quietly c' (drop n xs))

pub send_in_loop-Quietly :
    (os : Kernel) (c : Conn) (xs : List ℕ) → Quietly itself c (send_in_loop os c xs)
unfolding send_in_loop
send_in_loop-Quietly os c xs = Quietly-if itself c _ (Quietly-some itself c c (Quiet-refl c)) (
    Quietly-if itself c _ (after_direct c xs (write_raw os c xs) (write_raw-Quiet os c xs))
      (queue_rest-Quietly c xs))

pub shutdown-Quiet : (c : Conn) → Quiet c (shutdown c)
unfolding shutdown
shutdown-Quiet c = elim (Bool-cases (is_connected c.status)) [
  | inr other ↦ rw other (Quiet-refl c)
  | inl up ↦ rw up (
      if-Quiet (is_empty c.write_buffer_list)
        (if-Quiet c.writing (closes (is_connected-connected c.status up))
          (Quiet-trans (closes (is_connected-connected c.status up)) (log-Quiet shut_write _ refl)))
        (Quiet-keep c _ refl refl refl))
]
  where
    closes : c.status ≡ connected → Quiet c (record c { status = disconnecting })
    closes e = record { heard = refl; reading = refl; state = inr (e, refl) }

-- The node that is being sent, with the connection.
abbrev pub first : Conn × BufferNode × Sent → Conn
first (c, n, r) = c

pub sent_file_end-Quiet : (c : Conn) (k to_send : ℕ) → Quiet c (sent_file_end c k to_send)
unfolding sent_file_end
sent_file_end-Quiet c k to_send =
    if-Quiet _ (Quiet-trans (log-Quiet extend_life c refl) (enable_writing-Quiet _))
      (log-Quiet extend_life c refl)
