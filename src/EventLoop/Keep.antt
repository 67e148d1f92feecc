-- ===== src/EventLoop/Keep.antt =====
-- Every step of every thread keeps the invariant.
use trantor.Prelude.{
  update_same, update_other, ℕ, suc, ◌≡◌, ◌≢◌, inl, inr, refl, sym, ap, ap₂, subst, ◌∙◌, true, some,
  [], ◌∷◌, ◌++◌, arith, Bool-cases, if◌then◌else◌,
}
use trantor.MpscQueue.{MpscQueue, store, dequeue, empty}
use trantor.MpscQueue.Threads.{Pc, idle, storing, waking, Inv}
use trantor.MpscQueue.Store.{Behind, store-Inv, move-Inv}
use trantor.MpscQueue.Take.{dequeue-found, empty-none, taken-item, take-Inv}
use trantor.EventLoop.{
  EventLoop, Phase, stopped, polling, woken, events, calling, testing, needs_wakeup, finish_enqueue,
  wakeup, wakeup_read, run_func,
}
use trantor.EventLoop.Steps.{
  Step, queues, stores, wakes, starts, poll_woken, poll_other, reads, handled, calls, misses, again,
  polls, stops, Reach, start, later,
}
use trantor.EventLoop.Inv.{LoopInv, Alarm, in_loop_code, asleep, new_loop-LoopInv, queues-LoopInv}

after_store : ℕ → Phase → Pc
after_store i phase = if needs_wakeup i phase then waking else idle

after_store-Behind :
    (i : ℕ) (phase : Phase) → Behind (if needs_wakeup i phase then waking else idle)
after_store-Behind i phase = elim (Bool-cases (needs_wakeup i phase)) [
  | inl e ↦ rw e tt
  | inr e ↦ rw e tt
]

-- While the loop thread sleeps, a producer that has stored its link goes on to `wakeup`.
alarming :
    (i : ℕ) (phase : Phase)
    → asleep phase ≡ true
    → (in_loop_code phase ≡ true → i ≢ 0)
    → needs_wakeup i phase ≡ true
unfolding needs_wakeup
alarming i stopped h other = ground arith
alarming i polling h other = (let ne = other refl in ground arith)
alarming i woken h other = cc
alarming i events h other = cc
alarming i calling h other = cc
alarming i testing h other = cc

module _ {l : EventLoop} (inv : LoopInv l) where
  storer : (i p n : ℕ) → l.pc i ≡ storing p n → in_loop_code l.phase ≡ true → i ≢ 0
  storer i p n at h e = (let rest = inv.at_rest h in let same = ap l.pc e in absurd (ground arith))

  stores-LoopInv : (i p n : ℕ) → l.pc i ≡ storing p n → LoopInv (finish_enqueue i p n l)
  unfolding finish_enqueue store
  stores-LoopInv i p n at = record {
    mem = store-Inv inv.mem i p n at _ (after_store-Behind i l.phase);
    ran_so_far = inv.ran_so_far;
    queued_so_far = inv.queued_so_far;
    at_rest = λ h. update_other l.pc i _ 0 (storer i p n at h) ∙ inv.at_rest h;
    heard =
        λ h m e. inr (i, update_same l.pc i _ ∙ (rw (alarming i l.phase h (storer i p n at)) refl));
  }

  wakes-LoopInv : (i : ℕ) → l.pc i ≡ waking → LoopInv (wakeup i l)
  unfolding wakeup
  wakes-LoopInv i at = record {
    mem = move-Inv inv.mem i waking idle at tt tt;
    ran_so_far = inv.ran_so_far;
    queued_so_far = inv.queued_so_far;
    at_rest = λ h. (let rest = inv.at_rest h in ground arith);
    heard = λ h m e. inl (omega arith);
  }

  calls-LoopInv :
      (x : ℕ) (q : MpscQueue)
      → l.phase ≡ calling
      → dequeue l.funcs ≡ (some x, q)
      → LoopInv (run_func x q l)
  unfolding run_func
  calls-LoopInv x q at e =
      let (n, found, item, same) = dequeue-found l.funcs x q e in
      let mem = take-Inv inv.mem n found in
      record {
        mem = subst (λ r. Inv r l.pc l.order l.items (suc l.taken) l.given) (sym same) mem;
        ran_so_far =
            ap₂ (λ xs y. xs ++ (y ∷ [])) inv.ran_so_far (item ∙ taken-item inv.mem n found);
        queued_so_far = inv.queued_so_far;
        at_rest = λ h. (let phase = at in absurd (ground arith));
        heard = λ h. (let phase = at in absurd (ground arith));
      }

  -- A step that only moves the loop thread, to a phase in which it is awake, or with nothing linked.
  moves-LoopInv :
      (phase : Phase) (fd : ℕ)
      → (in_loop_code phase ≡ true → l.pc 0 ≡ idle)
      → (asleep phase ≡ true
          → (n : ℕ) → l.funcs.next l.funcs.tail ≡ some n
          → Alarm (record l { phase = phase; wakeup_fd = fd }))
      → LoopInv (record l { phase = phase; wakeup_fd = fd })
  moves-LoopInv phase fd rest heard = record {
    mem = inv.mem;
    ran_so_far = inv.ran_so_far;
    queued_so_far = inv.queued_so_far;
    at_rest = rest;
    heard = heard;
  }

  nothing_linked :
      empty l.funcs ≡ true → {A : Type 0} → (n : ℕ) → l.funcs.next l.funcs.tail ≡ some n → A
  nothing_linked e n found = (let none_there = empty-none l.funcs e in absurd (ground arith))

  reads-LoopInv : LoopInv (wakeup_read l)
  unfolding wakeup_read
  reads-LoopInv = moves-LoopInv events 0 (λ h. absurd (ground arith)) (λ h. absurd (ground arith))

Step-LoopInv : {l l' : EventLoop} → Step l l' → LoopInv l → LoopInv l'
Step-LoopInv (queues i n x at free can) inv = queues-LoopInv inv i n x at free can
Step-LoopInv (stores i p n at) inv = stores-LoopInv inv i p n at
Step-LoopInv (wakes i at) inv = wakes-LoopInv inv i at
Step-LoopInv {l} (starts at rest) inv =
    moves-LoopInv inv polling l.wakeup_fd (λ h. rest) (λ h. inv.heard (ap asleep at))
Step-LoopInv {l} (poll_woken at alarm) inv =
    moves-LoopInv inv woken l.wakeup_fd (λ h. inv.at_rest (ap in_loop_code at))
      (λ h. absurd (ground arith))
Step-LoopInv {l} (poll_other at) inv =
    moves-LoopInv inv events l.wakeup_fd (λ h. absurd (ground arith)) (λ h. absurd (ground arith))
Step-LoopInv {l} (reads at) inv = reads-LoopInv inv
Step-LoopInv {l} (handled at rest) inv =
    moves-LoopInv inv calling l.wakeup_fd (λ h. rest) (λ h. absurd (ground arith))
Step-LoopInv (calls x q at rest e) inv = calls-LoopInv inv x q at e
Step-LoopInv {l} (misses q at rest e) inv =
    moves-LoopInv inv testing l.wakeup_fd (λ h. rest) (λ h. absurd (ground arith))
Step-LoopInv {l} (again at rest e) inv =
    moves-LoopInv inv calling l.wakeup_fd (λ h. absurd (ground arith)) (λ h. absurd (ground arith))
Step-LoopInv {l} (polls at rest e) inv =
    moves-LoopInv inv polling l.wakeup_fd (λ h. rest) (λ h. nothing_linked inv e)
Step-LoopInv {l} (stops at rest e) inv =
    moves-LoopInv inv stopped l.wakeup_fd (λ h. absurd (ground arith)) (λ h. nothing_linked inv e)

pub Reach-LoopInv : {n : ℕ} {l : EventLoop} → Reach n l → LoopInv l
Reach-LoopInv {n} start = new_loop-LoopInv n
Reach-LoopInv (later r step) = Step-LoopInv step (Reach-LoopInv r)
