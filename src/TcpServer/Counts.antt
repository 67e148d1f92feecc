-- ===== src/TcpServer/Counts.antt =====
-- How often a connection is in the set and in the queues, and how often it called back.
use trantor.Prelude.{
  ℕ, suc, ◌+◌, ◌≡◌, ◌≢◌, ◌⊎◌, inl, inr, refl, ap, ◌∙◌, true, false, List, [], ◌∷◌, ◌++◌,
  if◌then◌else◌, arith, ◌==◌, Bool-cases,
}
use trantor.TcpConnection.{
  Event, high_water, extend_life, shut_write, connection_callback, close_callback, Conn,
}
use trantor.TcpConnection.Life.Loud.{loud}
use trantor.TcpConnection.Life.Once.{Stage, fresh, up, down}
use trantor.TcpServer.{erase, closes}

abbrev pub count : ℕ → List ℕ → ℕ
count i [] = 0
count i (j ∷ js) = if i == j then suc (count i js) else count i js

pub count-append : (i : ℕ) (js ks : List ℕ) → count i (js ++ ks) ≡ count i js + count i ks
count-append i [] ks = omega arith
count-append i (j ∷ js) ks = elim (Bool-cases (i == j)) [
  | inl same ↦ (let rest = count-append i js ks in rw same (ground arith))
  | inr other ↦ rw other (count-append i js ks)
]

-- `erase` takes all of one element, counts them, and leaves the others.
pub erase-count :
    (i : ℕ) (js : List ℕ) → ((erase i js).1 ≡ count i js) × (count i (erase i js).0 ≡ 0)
unfolding erase
erase-count i [] = (refl, refl)
erase-count i (j ∷ js) =
    let (number, left) = erase-count i js in
    elim (Bool-cases (i == j)) [
      | inl same ↦ rw same (ap suc number, left)
      | inr other ↦ rw other (number, rw other left)
    ]

pub erase-others : (i k : ℕ) (js : List ℕ) → k ≢ i → count k (erase i js).0 ≡ count k js
unfolding erase
erase-others i k [] h = refl
erase-others i k (j ∷ js) h =
    let rest = erase-others i k js h in
    elim (Bool-cases (i == j)) [
      | inl same ↦ (let here : (k == j) ≡ false = ground (arith, h) in rw (same, here) rest)
      | inr other ↦ rw other (elim (Bool-cases (k == j)) [
        | inl it ↦ rw it (ap suc rest)
        | inr not_it ↦ rw not_it rest
      ])
    ]

pub closes-loud : (es : List Event) → closes es ≡ closes (loud es)
closes-loud [] = refl
closes-loud (high_water n ∷ es) = closes-loud es
closes-loud (extend_life ∷ es) = closes-loud es
closes-loud (shut_write ∷ es) = closes-loud es
closes-loud (connection_callback ∷ es) = closes-loud es
closes-loud (close_callback ∷ es) = ap suc (closes-loud es)

-- With plain hangups a connection calls its owner back at most once.
pub closes-Stage : {c : Conn} → Stage true c → (closes c.events ≡ 0) ⊎ (closes c.events ≡ 1)
closes-Stage {c} (fresh s e r w) = inl (closes-loud c.events ∙ ap closes e)
closes-Stage {c} (up s e r) = inl (closes-loud c.events ∙ ap closes e)
closes-Stage {c} (down s (inl e) r w) = inr (closes-loud c.events ∙ ap closes e)
closes-Stage {c} (down s (inr (inl e)) r w) = inl (closes-loud c.events ∙ ap closes e)
closes-Stage {c} (down s (inr (inr (odd, e))) r w) = absurd (ground arith)
