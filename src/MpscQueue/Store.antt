-- ===== src/MpscQueue/Store.antt =====
-- The store of `enqueue` keeps the invariant: one link more, and no other store is disturbed.
use trantor.Prelude.{
  update, update_same, update_other, ℕ, suc, ◌≤◌, ◌<◌, ◌≡◌, ◌≢◌, ◌⊎◌, inl, inr, sym, ap, subst, ◌∙◌,
  some, none, arith, Bool-cases, ◌==◌,
}
use trantor.MpscQueue.{MpscQueue, store}
use trantor.MpscQueue.Threads.{Pc, idle, storing, waking, Inv, Owed}

-- A place behind `enqueue`.
abbrev pub Behind : Pc → Type 0
Behind idle = Unit
Behind waking = Unit
Behind (storing p n) = ⊥

Behind-not_storing : (z : Pc) (l m : ℕ) → Behind z → z ≢ storing l m
Behind-not_storing z l m behind e = subst Behind e behind

module _ {q : MpscQueue} {pc : ℕ → Pc} {order items : ℕ → ℕ} {taken given : ℕ}
    (inv : Inv q pc order items taken given) (i p n : ℕ) (at : pc i ≡ storing p n) (z : Pc)
    (behind : Behind z) where
  abbrev mine : Owed q order taken given p n
  mine = inv.owed i p n at

  abbrev pc' : ℕ → Pc
  pc' = update pc i z

  others : (j l m : ℕ) → pc' j ≡ storing l m → (i ≢ j) × (pc j ≡ storing l m)
  others j l m e = ground (arith, Behind-not_storing z l m behind)

  linked' :
      (k : ℕ)
      → taken ≤ k
      → k < given
      → (update q.next p (some n) (order k) ≡ some (order (suc k)))
        ⊎ ((j : ℕ) × (pc' j ≡ storing (order k) (order (suc k))))
  linked' k from upto = elim (Bool-cases (p == order k)) [
    | inl same ↦
        let o = mine in
        let here : p ≡ order k = ground arith in
        let e =
          inv.apart o.at k o.from (omega (arith, o.upto)) from (omega arith) (sym o.prev ∙ here) in
        inl (
          ap (λ y. update q.next y (some n) (order k)) here
          ∙ update_same q.next (order k) (some n)
          ∙ ap some (o.node ∙ ap (λ y. order (suc y)) e))
    | inr other ↦ elim (inv.linked k from upto) [
      | inl e ↦ inl (ground arith)
      | inr (j, e) ↦ inr (j, ground arith)
    ]
  ]

  last' : update q.next p (some n) (order given) ≡ none
  last' =
      let o = mine in
      update_other q.next p (some n) (order given) (λ e.
        (let clash =
            inv.apart o.at given o.from (omega (arith, o.upto)) inv.bound (omega arith)
              (sym o.prev ∙ e) in
          omega (arith, o.upto, clash)))
      ∙ inv.last

  owed' : (j l m : ℕ) → pc' j ≡ storing l m → Owed (store p n q) order taken given l m
  unfolding store
  owed' j l m e =
      let (ne, was) = others j l m e in
      let o = inv.owed j l m was in
      record {
        at = o.at;
        from = o.from;
        upto = o.upto;
        prev = o.prev;
        node = o.node;
        open_end =
            update_other q.next p (some n) l
              (λ same. ne (inv.own i j l n m (at ∙ ap (λ y. storing y n) same) was))
            ∙ o.open_end;
      }

  own' : (j l r m s : ℕ) → pc' j ≡ storing r m → pc' l ≡ storing r s → j ≡ l
  own' j l r m s a b = inv.own j l r m s (others j r m a).1 (others l r s b).1

  pub store-Inv : Inv (store p n q) pc' order items taken given
  unfolding store
  store-Inv = record {
    bound = inv.bound;
    at_tail = inv.at_tail;
    at_head = inv.at_head;
    live = inv.live;
    apart = inv.apart;
    stored = inv.stored;
    linked = linked';
    last = last';
    owed = owed';
    own = own';
  }

-- A thread that is not between its two accesses moves on.
module _ {q : MpscQueue} {pc : ℕ → Pc} {order items : ℕ → ℕ} {taken given : ℕ}
    (inv : Inv q pc order items taken given) (i : ℕ) (y z : Pc) (at : pc i ≡ y) (was : Behind y)
    (now : Behind z) where
  stays : (j l m : ℕ) → update pc i z j ≡ storing l m → pc j ≡ storing l m
  stays j l m e = ground (arith, Behind-not_storing z l m now)

  moves : (j l m : ℕ) → pc j ≡ storing l m → update pc i z j ≡ storing l m
  moves j l m e = ground (arith, Behind-not_storing y l m was)

  linked_still :
      (k : ℕ)
      → taken ≤ k
      → k < given
      → (q.next (order k) ≡ some (order (suc k)))
        ⊎ ((j : ℕ) × (update pc i z j ≡ storing (order k) (order (suc k))))
  linked_still k from upto = elim (inv.linked k from upto) [
    | inl e ↦ inl e
    | inr (j, e) ↦ inr (j, moves j _ _ e)
  ]

  pub move-Inv : Inv q (update pc i z) order items taken given
  move-Inv = record {
    bound = inv.bound;
    at_tail = inv.at_tail;
    at_head = inv.at_head;
    live = inv.live;
    apart = inv.apart;
    stored = inv.stored;
    linked = linked_still;
    last = inv.last;
    owed = λ j l m e. inv.owed j l m (stays j l m e);
    own = λ j l r m s a b. inv.own j l r m s (stays j r m a) (stays l r s b);
  }
