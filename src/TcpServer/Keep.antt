-- ===== src/TcpServer/Keep.antt =====
-- The steps of a server keep every connection in its place.
use trantor.Prelude.{
  same_or_not, update_same, update_other, ℕ, zero, suc, ◌+◌, ◌<◌, ◌≡◌, ◌≢◌, inl, inr, refl, sym, ap,
  subst, ◌∙◌, true, false, arith, ◌==◌,
}
use trantor.MsgBuffer.{MsgBuffer}
use trantor.TcpConnection.{Kernel}
use trantor.TcpConnection.Life.{Link}
use trantor.TcpConnection.Life.Once.{Stage}
use trantor.TcpConnection.Life.Inside.{Inside}
use trantor.TcpServer.{TcpServer, closes, connection_moved, calls_of}
use trantor.TcpServer.Steps.{Moves}
use trantor.TcpServer.Counts.{count, count-append, closes-Stage}
use trantor.TcpServer.Moves.{Moves-Stage, Moves-Inside, called-once}
use trantor.TcpServer.Where.{calls_back, Where, unborn, alive, ended, Where-keep}

count-calls_of : (i n : ℕ) → count i (calls_of i n) ≡ n
count-calls_of i zero = refl
count-calls_of i (suc n) =
    let same : (i == i) ≡ true = ground arith in rw same (ap suc (count-calls_of i n))

count-calls_of_other : (k i n : ℕ) → k ≢ i → count k (calls_of i n) ≡ 0
count-calls_of_other k i zero other = refl
count-calls_of_other k i (suc n) other =
    let differ : (k == i) ≡ false = ground (arith, other) in
    rw differ (count-calls_of_other k i n other)

pub born-Stage : (s : TcpServer) (i : ℕ) → i < s.accepted → Where s i → Stage true (s.links i).conn
born-Stage s i born (unborn h x y z) = absurd (omega arith)
born-Stage s i born (alive h st n x y z known) = st
born-Stage s i born (ended h st n x y known) = st

module _ (s : TcpServer) (i : ℕ) (l : Link) where
  queued_other : (k : ℕ) → k ≢ i → count k (connection_moved i l s).closing ≡ count k s.closing
  unfolding connection_moved
  queued_other k other =
      count-append k s.closing _
      ∙ ap (λ m. count k s.closing + m) (count-calls_of_other k i _ other)
      ∙ omega arith

  -- What waits for the connection: its close callback queues one call for each of its own.
  queued :
      (n : ℕ)
      → closes l.conn.events ≡ closes (s.links i).conn.events + n
      → count i (connection_moved i l s).closing ≡ count i s.closing + n
  unfolding connection_moved
  queued n e =
      count-append i s.closing _
      ∙ ap (λ m. count i s.closing + m) (count-calls_of i _)
      ∙ omega arith

  it_moved : (connection_moved i l s).links i ≡ l
  unfolding connection_moved
  it_moved = update_same s.links i l

  others_moved : (k : ℕ) → k ≢ i → Where s k → Where (connection_moved i l s) k
  unfolding connection_moved
  others_moved k other w =
      Where-keep s (connection_moved i l s) k (update_other s.links i l k (λ e. other (sym e)))
        (λ h. h) (omega arith) refl (queued_other k other) refl w

  -- The connection that moves.
  moved-Where :
      Stage true l.conn
      → (Inside (s.links i) → Inside l)
      → (calls_back s i ≡ 1 → closes l.conn.events ≡ 1)
      → i < s.accepted
      → Where s i
      → Where (connection_moved i l s) i
  unfolding connection_moved
  moved-Where st keep once born (unborn h x y z) = absurd (omega arith)
  moved-Where st keep once born (ended h old n x y known) =
      ended born (subst (λ (k : Link). Stage true k.conn) (sym it_moved) st)
        (ap (λ (k : Link). closes k.conn.events) it_moved ∙ once n)
        (x ∙ sym (queued 0 (once n ∙ sym n ∙ omega arith) ∙ omega arith)) y
        (λ one. subst Inside (sym it_moved) (keep (known one)))
  moved-Where st keep once born (alive h old n x y z known) = elim (closes-Stage st) [
    | inl none_yet ↦
        alive born (subst (λ (k : Link). Stage true k.conn) (sym it_moved) st)
          (ap (λ (k : Link). closes k.conn.events) it_moved ∙ none_yet) x
          (queued 0 (omega arith) ∙ omega arith) z (subst Inside (sym it_moved) (keep known))
    | inr now ↦
        ended born (subst (λ (k : Link). Stage true k.conn) (sym it_moved) st)
          (ap (λ (k : Link). closes k.conn.events) it_moved ∙ now)
          (x ∙ sym (queued 1 (omega arith) ∙ omega arith)) (omega arith)
          (λ one. subst Inside (sym it_moved) (keep known))
  ]

pub connection_moved-Where :
    {os : Kernel} {fuel rounds : ℕ} {recv : MsgBuffer → MsgBuffer} (s : TcpServer) (i : ℕ)
    (l : Link) (k : ℕ)
    → i < s.accepted
    → Moves true os fuel rounds recv (s.links i) l
    → ((j : ℕ) → Where s j)
    → Where (connection_moved i l s) k
connection_moved-Where s i l k born m w = elim (same_or_not k i) [
  | inl it ↦ subst (Where (connection_moved i l s)) (sym it) (
      moved-Where s i l (Moves-Stage (born-Stage s i born (w i)) m)
        (Moves-Inside (born-Stage s i born (w i)) m)
        (λ once. called-once (born-Stage s i born (w i)) once m) born (w i))
  | inr other ↦ others_moved s i l k other (w k)
]
