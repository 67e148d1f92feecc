-- ===== src/MpscQueue/Exchange.antt =====
-- The `exchange` of `enqueue` keeps the invariant: the new node is the last one.
use trantor.Prelude.{
  update_same, update, update_other, ℕ, suc, ◌≤◌, ◌<◌, ◌≡◌, ◌≢◌, ◌⊎◌, inl, inr, sym, ap, subst, ◌∙◌,
  true, false, some, none, arith, Bool-cases, ◌==◌,
}
use trantor.MpscQueue.{MpscQueue, exchange}
use trantor.MpscQueue.Threads.{Pc, idle, storing, Inv, Owed}

below_or_last : (k given : ℕ) → k < suc given → (k < given) ⊎ (k ≡ given)
below_or_last k given h = omega arith

module _ {q : MpscQueue} {pc : ℕ → Pc} {order items : ℕ → ℕ} {taken given : ℕ}
    (inv : Inv q pc order items taken given) where
  pub fresh : (n k : ℕ) → q.alloc n ≡ false → taken ≤ k → k ≤ given → n ≢ order k
  fresh n k free from upto e =
      let live = inv.live k from upto in
      let free' : q.alloc (order k) ≡ false = ap q.alloc (sym e) ∙ free in ground arith

  owed-not_head : (j p m : ℕ) → pc j ≡ storing p m → p ≢ q.head
  owed-not_head j p m e same =
      let o = inv.owed j p m e in
      let clash =
        inv.apart o.at given o.from (omega (arith, o.upto)) inv.bound (omega arith)
          (sym o.prev ∙ same ∙ inv.at_head) in
      omega (arith, o.upto, clash)

  module _ (i n x : ℕ) (at : pc i ≡ idle) (free : q.alloc n ≡ false) where
    abbrev pc' : ℕ → Pc
    pc' = update pc i (storing q.head n)

    abbrev order' : ℕ → ℕ
    order' = update order (suc given) n

    abbrev items' : ℕ → ℕ
    items' = update items (suc given) x

    old : (k : ℕ) → k ≤ given → order' k ≡ order k
    old k h = update_other order (suc given) n k (omega arith)

    newest : order' (suc given) ≡ n
    newest = update_same order (suc given) n

    live' : (k : ℕ) → taken ≤ k → k ≤ suc given → update q.alloc n true (order' k) ≡ true
    live' k from upto = ground (arith, inv.live k)

    apart' :
        (j k : ℕ)
        → taken ≤ j
        → j ≤ suc given
        → taken ≤ k
        → k ≤ suc given
        → order' j ≡ order' k
        → j ≡ k
    apart' j k a b c d e = ground (arith, inv.apart j k, fresh n j free, fresh n k free)

    stored' : (k : ℕ) → taken < k → k ≤ suc given → update q.datum n x (order' k) ≡ items' k
    stored' k from upto = ground (arith, inv.stored k, fresh n k free)

    linked' :
        (k : ℕ)
        → taken ≤ k
        → k < suc given
        → (update q.next n none (order' k) ≡ some (order' (suc k)))
          ⊎ ((j : ℕ) × (pc' j ≡ storing (order' k) (order' (suc k))))
    linked' k from upto = elim (below_or_last k given upto) [
      | inl h ↦ elim (inv.linked k from h) [
        | inl e ↦ inl (ground (arith, fresh n k free))
        | inr (j, e) ↦ inr (j, ground arith)
      ]
      | inr e ↦ inr (i, (let h = inv.at_head in ground arith))
    ]

    last' : update q.next n none (order' (suc given)) ≡ none
    last' = ground arith

    own' : (j l p m r : ℕ) → pc' j ≡ storing p m → pc' l ≡ storing p r → j ≡ l
    own' j l p m r a b = ground (arith, inv.own j l p m r, owed-not_head j p m, owed-not_head l p r)

    kept :
        (j p m : ℕ)
        → Owed q order taken given p m
        → Owed (exchange n x q) order' taken (suc given) p m
    unfolding exchange
    kept j p m o = record {
      at = o.at;
      from = o.from;
      upto = omega (arith, o.upto);
      prev = o.prev ∙ sym (old o.at (omega (arith, o.upto)));
      node = o.node ∙ sym (old (suc o.at) o.upto);
      open_end =
          update_other q.next n none p
            (λ e. fresh n o.at free o.from (omega (arith, o.upto)) (e ∙ o.prev))
          ∙ o.open_end;
    }

    newly : Owed (exchange n x q) order' taken (suc given) q.head n
    unfolding exchange
    newly = record {
      at = given;
      from = inv.bound;
      upto = omega arith;
      prev = inv.at_head ∙ sym (old given (omega arith));
      node = sym newest;
      open_end =
          update_other q.next n none q.head
            (λ e. fresh n given free inv.bound (omega arith) (e ∙ inv.at_head))
          ∙ ap q.next inv.at_head
          ∙ inv.last;
    }

    owed' : (j p m : ℕ) → pc' j ≡ storing p m → Owed (exchange n x q) order' taken (suc given) p m
    owed' j p m e = elim (Bool-cases (i == j)) [
      | inl same ↦
          let (hp, hm) : (p ≡ q.head) × (m ≡ n) = ground arith in
          subst (λ y. Owed (exchange n x q) order' taken (suc given) y m) (sym hp)
            (subst (λ z. Owed (exchange n x q) order' taken (suc given) q.head z) (sym hm) newly)
      | inr other ↦ kept j p m (inv.owed j p m (ground arith))
    ]

    pub exchange-Inv : Inv (exchange n x q) pc' order' items' taken (suc given)
    unfolding exchange
    exchange-Inv = record {
      bound = omega (arith, inv.bound);
      at_tail = inv.at_tail ∙ sym (old taken inv.bound);
      at_head = sym newest;
      live = live';
      apart = apart';
      stored = stored';
      linked = linked';
      last = last';
      owed = owed';
      own = own';
    }
