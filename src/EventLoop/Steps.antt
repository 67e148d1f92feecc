-- ===== src/EventLoop/Steps.antt =====
-- The steps of all threads, and the states that they reach.
use trantor.Prelude.{ℕ, ◌<◌, ◌≡◌, ◌≢◌, ◌⊎◌, true, false, some, none}
use trantor.MpscQueue.{MpscQueue, dequeue, empty}
use trantor.MpscQueue.Threads.{idle, storing, waking}
use trantor.EventLoop.{
  EventLoop, stopped, polling, woken, events, calling, testing, runs_code, new_loop, queue_in_loop,
  finish_enqueue, wakeup, wakeup_read, run_func,
}

pub data Step (l : EventLoop) : EventLoop → Type 0 where
  queues :
      (i n x : ℕ)
      → l.pc i ≡ idle
      → l.funcs.alloc n ≡ false
      → (i ≢ 0) ⊎ (runs_code l.phase ≡ true)
      → Step l (queue_in_loop i n x l)
  stores : (i p n : ℕ) → l.pc i ≡ storing p n → Step l (finish_enqueue i p n l)
  wakes : (i : ℕ) → l.pc i ≡ waking → Step l (wakeup i l)
  starts : l.phase ≡ stopped → l.pc 0 ≡ idle → Step l (record l { phase = polling })
  poll_woken : l.phase ≡ polling → 0 < l.wakeup_fd → Step l (record l { phase = woken })
  poll_other : l.phase ≡ polling → Step l (record l { phase = events })
  reads : l.phase ≡ woken → Step l (wakeup_read l)
  handled : l.phase ≡ events → l.pc 0 ≡ idle → Step l (record l { phase = calling })
  calls :
      (x : ℕ) (q : MpscQueue)
      → l.phase ≡ calling
      → l.pc 0 ≡ idle
      → dequeue l.funcs ≡ (some x, q)
      → Step l (run_func x q l)
  misses :
      (q : MpscQueue)
      → l.phase ≡ calling
      → l.pc 0 ≡ idle
      → dequeue l.funcs ≡ (none, q)
      → Step l (record l { phase = testing })
  again :
      l.phase ≡ testing
      → l.pc 0 ≡ idle
      → empty l.funcs ≡ false
      → Step l (record l { phase = calling })
  polls :
      l.phase ≡ testing
      → l.pc 0 ≡ idle
      → empty l.funcs ≡ true
      → Step l (record l { phase = polling })
  stops :
      l.phase ≡ testing
      → l.pc 0 ≡ idle
      → empty l.funcs ≡ true
      → Step l (record l { phase = stopped })

pub data Reach (n : ℕ) : EventLoop → Type 0 where
  start : Reach n (new_loop n)
  later : {l l' : EventLoop} → Reach n l → Step l l' → Reach n l'
