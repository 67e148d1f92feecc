-- ===== src/EventLoop/Inv.antt =====
-- What holds in every state of a loop.
use trantor.Prelude.{
  update, update_same, update_other, ℕ, zero, suc, ◌<◌, ◌≡◌, ◌≢◌, ◌⊎◌, inl, inr, refl, sym, ap, ap₂,
  ◌∙◌, Bool, true, false, some, none, List, [], ◌∷◌, ◌++◌, arith,
}
use trantor.MpscQueue.{new_queue, exchange}
use trantor.MpscQueue.Threads.{idle, storing, waking, Inv}
use trantor.MpscQueue.Exchange.{fresh, exchange-Inv}
use trantor.EventLoop.{
  EventLoop, Phase, stopped, polling, woken, runs_code, new_loop, queue_in_loop,
}

-- The functions that became the head, in order.
abbrev pub upto : (ℕ → ℕ) → ℕ → List ℕ
upto items zero = []
upto items (suc k) = upto items k ++ (items (suc k) ∷ [])

-- The loop thread is in code of the loop that queues nothing.
abbrev pub in_loop_code : Phase → Bool
in_loop_code polling = true
in_loop_code woken = true
in_loop_code _ = false

-- The loop thread looks at the queue only after it is woken, or started.
abbrev pub asleep : Phase → Bool
asleep stopped = true
asleep polling = true
asleep _ = false

-- Someone has woken the loop, or is about to.
abbrev pub Alarm : EventLoop → Type 0
Alarm l = (0 < l.wakeup_fd) ⊎ ((i : ℕ) × (l.pc i ≡ waking))

pub record LoopInv (l : EventLoop) : Type 0 where
  pub mem : Inv l.funcs l.pc l.order l.items l.taken l.given
  pub ran_so_far : l.ran ≡ upto l.items l.taken
  pub queued_so_far : l.queued ≡ upto l.items l.given
  pub at_rest : in_loop_code l.phase ≡ true → l.pc 0 ≡ idle
  pub heard : asleep l.phase ≡ true → (n : ℕ) → l.funcs.next l.funcs.tail ≡ some n → Alarm l

upto-update : (items : ℕ → ℕ) (m x k : ℕ) → k < m → upto (update items m x) k ≡ upto items k
upto-update items m x zero h = refl
upto-update items m x (suc k) h =
    ap₂ (λ xs y. xs ++ (y ∷ [])) (upto-update items m x k (omega arith))
      (update_other items m x (suc k) (omega arith))

upto-newest :
    (items : ℕ → ℕ) (k x : ℕ) → upto (update items (suc k) x) (suc k) ≡ upto items k ++ (x ∷ [])
upto-newest items k x =
    ap₂ (λ xs y. xs ++ (y ∷ [])) (upto-update items (suc k) x k (omega arith))
      (update_same items (suc k) x)

not_loop_thread :
    (i : ℕ) (phase : Phase) → (i ≢ 0) ⊎ (runs_code phase ≡ true) → in_loop_code phase ≡ true → i ≢ 0
not_loop_thread i phase can h = ground arith

pub new_loop-LoopInv : (n : ℕ) → LoopInv (new_loop n)
unfolding new_loop new_queue
new_loop-LoopInv n = record {
  mem = record {
    bound = omega arith;
    at_tail = refl;
    at_head = refl;
    live = λ k a b. update_same (λ _. false) n true;
    apart = λ j k a b c d e. omega arith;
    stored = λ k a b. absurd (omega arith);
    linked = λ k a b. absurd (omega arith);
    last = refl;
    owed = λ i p m e. absurd (ground arith);
    own = λ i j p m r a b. absurd (ground arith);
  };
  ran_so_far = refl;
  queued_so_far = refl;
  at_rest = λ h. refl;
  heard = λ h m e. absurd (ground arith);
}

module _ {l : EventLoop} (inv : LoopInv l) where
  abbrev tail : ℕ
  tail = l.funcs.tail

  tail-order : tail ≡ l.order l.taken
  tail-order = inv.mem.at_tail

  module _ (i n x : ℕ) (at : l.pc i ≡ idle) (free : l.funcs.alloc n ≡ false)
      (can : (i ≢ 0) ⊎ (runs_code l.phase ≡ true)) where
    queues-rest : in_loop_code l.phase ≡ true → update l.pc i (storing l.funcs.head n) 0 ≡ idle
    queues-rest h =
        update_other l.pc i (storing l.funcs.head n) 0 (not_loop_thread i l.phase can h)
        ∙ inv.at_rest h

    queues-heard :
        asleep l.phase ≡ true
        → (m : ℕ) → update l.funcs.next n none tail ≡ some m
        → Alarm (queue_in_loop i n x l)
    unfolding queue_in_loop
    queues-heard h m e =
        let ne : n ≢ tail =
          λ e. fresh inv.mem n l.taken free (omega arith) inv.mem.bound (e ∙ tail-order) in
        elim (inv.heard h m (sym (update_other l.funcs.next n none tail ne) ∙ e)) [
          | inl woken_already ↦ inl woken_already
          | inr (j, w) ↦ inr (j, ground arith)
        ]

    pub queues-LoopInv : LoopInv (queue_in_loop i n x l)
    unfolding queue_in_loop exchange
    queues-LoopInv = record {
      mem = exchange-Inv inv.mem i n x at free;
      ran_so_far =
          inv.ran_so_far
          ∙ sym
              (upto-update l.items (suc l.given) x l.taken (let b = inv.mem.bound in omega arith));
      queued_so_far =
          ap (λ xs. xs ++ (x ∷ [])) inv.queued_so_far ∙ sym (upto-newest l.items l.given x);
      at_rest = queues-rest;
      heard = queues-heard;
    }
