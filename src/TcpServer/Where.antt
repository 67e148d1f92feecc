-- ===== src/TcpServer/Where.antt =====
-- Where every connection of a server stands: in the set, in the queues, or not accepted yet.
use trantor.Prelude.{
  same_or_not, update_same, update_other, ℕ, ◌+◌, ◌≤◌, ◌<◌, ◌≡◌, ◌≢◌, inl, inr, refl, sym, ap,
  subst, ◌∙◌, true, Option, [], ◌∷◌, arith,
}
use trantor.MsgBuffer.{MsgBuffer}
use trantor.TcpConnection.Life.{Link}
use trantor.TcpConnection.Life.Steps.{new_link}
use trantor.TcpConnection.Life.Once.{Stage}
use trantor.TcpConnection.Life.Inside.{Inside}
use trantor.TcpConnection.Life.Dispatch.{new_link-Stage}
use trantor.TcpServer.{TcpServer, new_connection, closes}
use trantor.TcpServer.Counts.{count}

abbrev pub calls_back : TcpServer → ℕ → ℕ
calls_back s i = closes (s.links i).conn.events

-- Not accepted yet; in the set, and the owner not called; the owner called: then the connection is in
-- the set as long as its removal from it waits, and its end waits at most once behind that. Until it
-- has ended, the poller knows its channel once it is established.
pub data Where (s : TcpServer) (i : ℕ) : Type 0 where
  unborn :
      s.accepted ≤ i
      → count i s.conn_set ≡ 0
      → count i s.closing ≡ 0
      → count i s.dying ≡ 0
      → Where s i
  alive :
      i < s.accepted
      → Stage true (s.links i).conn
      → calls_back s i ≡ 0
      → count i s.conn_set ≡ 1
      → count i s.closing ≡ 0
      → count i s.dying ≡ 0
      → Inside (s.links i)
      → Where s i
  ended :
      i < s.accepted
      → Stage true (s.links i).conn
      → calls_back s i ≡ 1
      → count i s.conn_set ≡ count i s.closing
      → count i s.conn_set + count i s.dying ≤ 1
      → (count i s.conn_set + count i s.dying ≡ 1 → Inside (s.links i))
      → Where s i

-- Another connection's step.
pub Where-keep :
    (s s' : TcpServer) (i : ℕ)
    → s'.links i ≡ s.links i
    → (s.accepted ≤ i → s'.accepted ≤ i)
    → s.accepted ≤ s'.accepted
    → count i s'.conn_set ≡ count i s.conn_set
    → count i s'.closing ≡ count i s.closing
    → count i s'.dying ≡ count i s.dying
    → Where s i
    → Where s' i
Where-keep s s' i l above grows c q d (unborn h x y z) = unborn (above h) (c ∙ x) (q ∙ y) (d ∙ z)
Where-keep s s' i l above grows c q d (alive h st n x y z k) =
    alive (omega arith) (subst (λ (k : Link). Stage true k.conn) (sym l) st)
      (ap (λ (k : Link). closes k.conn.events) l ∙ n) (c ∙ x) (q ∙ y) (d ∙ z)
      (subst Inside (sym l) k)
Where-keep s s' i l above grows c q d (ended h st n x y k) =
    ended (omega arith) (subst (λ (k : Link). Stage true k.conn) (sym l) st)
      (ap (λ (k : Link). closes k.conn.events) l ∙ n) (c ∙ x ∙ sym q) (omega arith)
      (λ one. subst Inside (sym l) (k (omega arith)))

pub count_self : (i : ℕ) → count i (i ∷ []) ≡ 1
count_self i = ground arith

pub count_other : (i j : ℕ) → i ≢ j → count i (j ∷ []) ≡ 0
count_other i j h = ground arith

no_calls : (b : MsgBuffer) (mark : Option ℕ) → closes (new_link b mark).conn.events ≡ 0
unfolding new_link
no_calls b mark = refl

new_link-Inside : (b : MsgBuffer) (mark : Option ℕ) → Inside (new_link b mark)
unfolding new_link
new_link-Inside b mark = inl refl

accepted-alive :
    (b : MsgBuffer) (mark : Option ℕ) (s : TcpServer)
    → Where s s.accepted
    → Where (new_connection b mark s) s.accepted
unfolding new_connection
accepted-alive b mark s (alive h st n x y z k) = absurd (omega arith)
accepted-alive b mark s (ended h st n x y k) = absurd (omega arith)
accepted-alive b mark s (unborn h x y z) =
    let it = update_same s.links s.accepted (new_link b mark) in
    alive (omega arith) (subst (λ (k : Link). Stage true k.conn) (sym it) (new_link-Stage b mark))
      (ap (λ (k : Link). closes k.conn.events) it ∙ no_calls b mark) (ground arith) y z
      (subst Inside (sym it) (new_link-Inside b mark))

pub accepts-Where :
    (b : MsgBuffer) (mark : Option ℕ) (s : TcpServer) (i : ℕ)
    → Where s i
    → Where (new_connection b mark s) i
unfolding new_connection
accepts-Where b mark s i w = elim (same_or_not i s.accepted) [
  | inr other ↦
      Where-keep s (new_connection b mark s) i
        (update_other s.links s.accepted (new_link b mark) i (λ e. other (sym e)))
        (λ h. omega arith) (omega arith) (ground arith) refl refl w
  | inl it ↦
      subst (λ k. Where (new_connection b mark s) k) (sym it)
        (accepted-alive b mark s (subst (Where s) it w))
]
