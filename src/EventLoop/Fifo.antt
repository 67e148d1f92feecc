-- ===== src/EventLoop/Fifo.antt =====
-- What follows for every state of a loop that is reached: order, memory, and no lost wakeup.
use trantor.Prelude.{
  ℕ, zero, suc, ◌+◌, ◌-◌, ◌≤◌, ◌<◌, ◌≡◌, ◌⊎◌, inl, inr, refl, sym, ap, ◌∙◌, true, Option, some,
  none, List, [], ◌∷◌, ◌++◌, arith, append-nil, append_assoc,
}
use trantor.MpscQueue.Threads.{idle, storing}
use trantor.EventLoop.{EventLoop}
use trantor.EventLoop.Steps.{Reach}
use trantor.EventLoop.Inv.{LoopInv, Alarm, upto, asleep}
use trantor.EventLoop.Keep.{Reach-LoopInv}

between : (ℕ → ℕ) → ℕ → ℕ → List ℕ
between items m zero = []
between items m (suc k) = between items m k ++ (items (suc (m + k)) ∷ [])

upto-between : (items : ℕ → ℕ) (m k : ℕ) → upto items (m + k) ≡ upto items m ++ between items m k
unfolding between
upto-between items m zero =
    let e : m + 0 ≡ m = omega arith in ap (upto items) e ∙ sym (append-nil (upto items m))
upto-between items m (suc k) =
    let e : m + suc k ≡ suc (m + k) = omega arith in
    ap (upto items) e
    ∙ ap (λ xs. xs ++ (items (suc (m + k)) ∷ [])) (upto-between items m k)
    ∙ append_assoc (upto items m) (between items m k) (items (suc (m + k)) ∷ [])

-- In every state that the threads reach, in whatever order they run, the functions that ran are the
-- first of those that were queued, in the order of their exchanges, and each ran once.
pub Reach_fifo : {n : ℕ} {l : EventLoop} → Reach n l → (rest : List ℕ) × (l.queued ≡ l.ran ++ rest)
Reach_fifo {l} r =
    let inv = Reach-LoopInv r in
    let b = inv.mem.bound in
    let sum : l.given ≡ l.taken + (l.given - l.taken) = omega arith in
    (
      between l.items l.taken (l.given - l.taken),
      inv.queued_so_far
          ∙ ap (upto l.items) sum
          ∙ upto-between l.items l.taken (l.given - l.taken)
          ∙ ap (λ xs. xs ++ between l.items l.taken (l.given - l.taken)) (sym inv.ran_so_far),
    )

le_cases : (m n : ℕ) → m ≤ n → (m < n) ⊎ (m ≡ n)
le_cases m n h = omega arith

-- All nodes that a thread can touch are allocated.
pub record Safe (l : EventLoop) : Type 0 where
  pub head : l.funcs.alloc l.funcs.head ≡ true
  pub tail : l.funcs.alloc l.funcs.tail ≡ true
  pub stores :
      (i p n : ℕ) → l.pc i ≡ storing p n → (l.funcs.alloc p ≡ true) × (l.funcs.alloc n ≡ true)
  pub follows : (n : ℕ) → l.funcs.next l.funcs.tail ≡ some n → l.funcs.alloc n ≡ true

module _ {l : EventLoop} (inv : LoopInv l) where
  node : (k : ℕ) → l.taken ≤ k → k ≤ l.given → {p : ℕ} → p ≡ l.order k → l.funcs.alloc p ≡ true
  node k from upto e = ap l.funcs.alloc e ∙ inv.mem.live k from upto

  following : (n : ℕ) → l.funcs.next l.funcs.tail ≡ some n → l.taken < l.given
  following n e = elim (le_cases l.taken l.given inv.mem.bound) [
    | inl h ↦ h
    | inr same ↦
        (let last = inv.mem.last in
          let here = ap l.funcs.next (inv.mem.at_tail ∙ ap l.order same) in absurd (ground arith))
  ]

  followed : (n : ℕ) → l.funcs.next l.funcs.tail ≡ some n → n ≡ l.order (suc l.taken)
  followed n e = elim (inv.mem.linked l.taken (omega arith) (following n e)) [
    | inl link ↦ (let here = ap l.funcs.next inv.mem.at_tail in cc)
    | inr (i, at) ↦
        (let open_end = (inv.mem.owed i _ _ at).open_end in
          let here = ap l.funcs.next inv.mem.at_tail in absurd (ground arith))
  ]

  stored_at :
      (i p n : ℕ) → l.pc i ≡ storing p n → (l.funcs.alloc p ≡ true) × (l.funcs.alloc n ≡ true)
  stored_at i p n at =
      let o = inv.mem.owed i p n at in
      (
        node o.at o.from (omega (arith, o.upto)) o.prev,
        node (suc o.at) (omega (arith, o.from)) o.upto o.node,
      )

  all_taken : l.funcs.next l.funcs.tail ≡ none → ((i : ℕ) → l.pc i ≡ idle) → l.taken ≡ l.given
  all_taken e quiet = elim (le_cases l.taken l.given inv.mem.bound) [
    | inr same ↦ same
    | inl h ↦ elim (inv.mem.linked l.taken (omega arith) h) [
      | inl link ↦ (let here = ap l.funcs.next inv.mem.at_tail in absurd (ground arith))
      | inr (i, at) ↦ (let q = quiet i in absurd (ground arith))
    ]
  ]

  silent : l.wakeup_fd ≡ 0 → ((i : ℕ) → l.pc i ≡ idle) → ¬ Alarm l
  silent e quiet (inl h) = omega arith
  silent e quiet (inr (i, at)) = (let q = quiet i in ground arith)

  nothing_linked :
      asleep l.phase ≡ true
      → l.wakeup_fd ≡ 0
      → ((i : ℕ) → l.pc i ≡ idle)
      → (o : Option ℕ) → l.funcs.next l.funcs.tail ≡ o
      → o ≡ none
  nothing_linked h e quiet none at = refl
  nothing_linked h e quiet (some n) at = absurd (silent e quiet (inv.heard h n at))

-- No thread ever touches a node that was deleted: in every state that the threads reach, the head,
-- the tail and what follows it, and both nodes of each store that is still to be made, are allocated.
pub Reach-Safe : {n : ℕ} {l : EventLoop} → Reach n l → Safe l
Reach-Safe {l} r =
    let inv = Reach-LoopInv r in
    record {
      head = node inv l.given inv.mem.bound (omega arith) inv.mem.at_head;
      tail = node inv l.taken (omega arith) inv.mem.bound inv.mem.at_tail;
      stores = stored_at inv;
      follows = λ m e. node inv (suc l.taken) (omega arith) (following inv m e) (followed inv m e);
    }

-- No wakeup is lost: when the loop thread sleeps in `poll`, or is outside `loop`, nobody has woken it,
-- and no thread is inside `queueInLoop`, then every function that was queued has run.
pub Reach_all_ran :
    {n : ℕ} {l : EventLoop}
    → Reach n l
    → asleep l.phase ≡ true
    → l.wakeup_fd ≡ 0
    → ((i : ℕ) → l.pc i ≡ idle)
    → l.ran ≡ l.queued
Reach_all_ran {l} r h e quiet =
    let inv = Reach-LoopInv r in
    let same = all_taken inv (nothing_linked inv h e quiet _ refl) quiet in
    inv.ran_so_far ∙ ap (upto l.items) same ∙ sym inv.queued_so_far
