-- ===== src/MpscQueue/Take.antt =====
-- `dequeue` takes the items in the order of the exchanges, and keeps the invariant.
use trantor.Prelude.{
  update, update_other, ℕ, suc, ◌≤◌, ◌<◌, ◌≡◌, ◌⊎◌, inl, inr, refl, sym, ap, ◌∙◌, true, false,
  Option, some, none, arith,
}
use trantor.MpscQueue.{MpscQueue, dequeue, empty}
use trantor.MpscQueue.Threads.{Pc, storing, Inv, Owed}

-- The queue behind a `dequeue` that found the node `n`.
abbrev pub taken_to : ℕ → MpscQueue → MpscQueue
taken_to n q = record q { tail = n; alloc = update q.alloc q.tail false }

pub dequeue-some :
    (q : MpscQueue) (n : ℕ) → q.next q.tail ≡ some n → dequeue q ≡ (some (q.datum n), taken_to n q)
unfolding dequeue
dequeue-some q n e = rw (dequeue, e)

le_cases : (m n : ℕ) → m ≤ n → (m < n) ⊎ (m ≡ n)
le_cases m n h = omega arith

module _ {q : MpscQueue} {pc : ℕ → Pc} {order items : ℕ → ℕ} {taken given : ℕ}
    (inv : Inv q pc order items taken given) where
  module _ (n : ℕ) (found : q.next q.tail ≡ some n) where
    more : taken < given
    more = elim (le_cases taken given inv.bound) [
      | inl h ↦ h
      | inr e ↦
          (let last : q.next (order given) ≡ none = inv.last in
            let here : q.next (order given) ≡ some n =
              ap (λ k. q.next (order k)) (sym e) ∙ ap q.next (sym inv.at_tail) ∙ found in
            cc)
    ]

    is_next : n ≡ order (suc taken)
    is_next = elim (inv.linked taken (omega arith) more) [
      | inl e ↦ (let here = ap q.next inv.at_tail in cc)
      | inr (i, e) ↦
          (let none_yet = (inv.owed i _ _ e).open_end in let here = ap q.next inv.at_tail in cc)
    ]

    pub taken-item : q.datum n ≡ items (suc taken)
    taken-item = ap q.datum is_next ∙ inv.stored (suc taken) (omega arith) more

    live' : (k : ℕ) → suc taken ≤ k → k ≤ given → update q.alloc q.tail false (order k) ≡ true
    live' k from upto =
        update_other q.alloc q.tail false (order k) (λ e.
          (let clash =
              inv.apart taken k (omega arith) inv.bound (omega arith) upto (sym inv.at_tail ∙ e) in
            omega arith))
        ∙ inv.live k (omega arith) upto

    owed' : (i p m : ℕ) → pc i ≡ storing p m → Owed (taken_to n q) order (suc taken) given p m
    owed' i p m e =
        let o = inv.owed i p m e in
        record {
          at = o.at;
          from = elim (le_cases taken o.at o.from) [
            | inl h ↦ h
            | inr same ↦
                (let none_yet = o.open_end in
                  let here : p ≡ q.tail = o.prev ∙ ap order (sym same) ∙ sym inv.at_tail in
                  let there = ap q.next here in absurd (ground arith))
          ];
          upto = o.upto;
          prev = o.prev;
          node = o.node;
          open_end = o.open_end;
        }

    pub take-Inv : Inv (taken_to n q) pc order items (suc taken) given
    take-Inv = record {
      bound = more;
      at_tail = is_next;
      at_head = inv.at_head;
      live = live';
      apart = λ j k a b c d e. inv.apart j k (omega arith) b (omega arith) d e;
      stored = λ k a b. inv.stored k (omega arith) b;
      linked = λ k a b. inv.linked k (omega arith) b;
      last = inv.last;
      owed = owed';
      own = inv.own;
    }

dequeue-none : (q : MpscQueue) → q.next q.tail ≡ none → dequeue q ≡ (none, q)
unfolding dequeue
dequeue-none q e = rw (dequeue, e)

found_node :
    (q : MpscQueue) (x : ℕ) (q' : MpscQueue) (o : Option ℕ)
    → dequeue q ≡ (some x, q')
    → q.next q.tail ≡ o
    → (n : ℕ) × (q.next q.tail ≡ some n) × (x ≡ q.datum n) × (q' ≡ taken_to n q)
found_node q x q' none e h =
    (let same = ap (λ r. r.0) (sym e ∙ dequeue-none q h) in absurd (ground arith))
found_node q x q' (some n) e h =
    let same = sym e ∙ dequeue-some q n h in
    let first : ◌≡◌ {A = Option ℕ} (some x) (some (q.datum n)) = ap (λ r. r.0) same in
    (n, h, (cc), ap (λ r. r.1) same)

-- What a `dequeue` and an `empty` saw.
pub dequeue-found :
    (q : MpscQueue) (x : ℕ) (q' : MpscQueue)
    → dequeue q ≡ (some x, q')
    → (n : ℕ) × (q.next q.tail ≡ some n) × (x ≡ q.datum n) × (q' ≡ taken_to n q)
dequeue-found q x q' e = found_node q x q' (q.next q.tail) e refl

pub empty-none : (q : MpscQueue) → empty q ≡ true → q.next q.tail ≡ none
unfolding empty
empty-none q e = ground arith
