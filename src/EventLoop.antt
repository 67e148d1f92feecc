-- ===== src/EventLoop.antt =====
-- net/EventLoop.cc on Linux: `queueInLoop` of any thread against `loop`, `doRunInLoopFuncs`,
-- `wakeup` and `wakeupRead` of the loop thread, interleaved in any order, a shared access at a time;
-- the memory is sequentially consistent. Thread 0 is the loop thread. A function is its number, and
-- what it queues while it runs is an exchange of thread 0. `queued` and `ran` are the history.
pub mod Steps
pub mod Inv
pub mod Keep
pub mod Fifo
mod Tests
use trantor.Prelude.{
  update, ℕ, suc, ◌+◌, Bool, true, false, not, ◌&&◌, ◌||◌, Option, some, none, List, [], ◌∷◌, ◌++◌,
  if◌then◌else◌, ◌==◌,
}
use trantor.MpscQueue.{MpscQueue, new_queue, exchange, store, dequeue, empty}
use trantor.MpscQueue.Threads.{Pc, idle, storing, waking}

-- Where the loop thread stands: outside `loop`, in `poll`, before `wakeupRead`, at the events, in
-- the inner `while` of `doRunInLoopFuncs`, and at the test of the outer one.
pub data Phase : Type 0 where
  stopped polling woken events calling testing : Phase

pub record EventLoop : Type 0 where
  pub funcs : MpscQueue
  pub pc : ℕ → Pc
  pub phase : Phase
  pub wakeup_fd : ℕ
  pub queued : List ℕ
  pub ran : List ℕ
  pub order : ℕ → ℕ
  pub items : ℕ → ℕ
  pub taken : ℕ
  pub given : ℕ

abbrev pub looping : Phase → Bool
looping stopped = false
looping _ = true

-- The loop thread runs code that can queue a function outside `loop`, in a callback of an event, in a
-- function, and when the last one is destroyed, before the queue is tested again.
abbrev pub runs_code : Phase → Bool
runs_code stopped = true
runs_code events = true
runs_code calling = true
runs_code testing = true
runs_code _ = false

-- A loop whose queue has its first node at `n`.
unfoldable pub new_loop : ℕ → EventLoop
new_loop n = record {
  funcs = new_queue n;
  pc = λ _. idle;
  phase = stopped;
  wakeup_fd = 0;
  queued = [];
  ran = [];
  order = λ _. n;
  items = λ _. 0;
  taken = 0;
  given = 0;
}

-- `enqueue` of `x` by thread `i`, up to the exchange.
unfoldable pub queue_in_loop : ℕ → ℕ → ℕ → EventLoop → EventLoop
queue_in_loop i n x l = record l {
  funcs = exchange n x l.funcs;
  pc = update l.pc i (storing l.funcs.head n);
  queued = l.queued ++ (x ∷ []);
  order = update l.order (suc l.given) n;
  items = update l.items (suc l.given) x;
  given = suc l.given;
}

-- The test of `queueInLoop` behind its `enqueue`.
unfoldable pub needs_wakeup : ℕ → Phase → Bool
needs_wakeup i phase = not (i == 0) || not (looping phase)

unfoldable pub finish_enqueue : ℕ → ℕ → ℕ → EventLoop → EventLoop
finish_enqueue i p n l = record l {
  funcs = store p n l.funcs;
  pc = update l.pc i (if needs_wakeup i l.phase then waking else idle);
}

-- `wakeup`
unfoldable pub wakeup : ℕ → EventLoop → EventLoop
wakeup i l = record l { pc = update l.pc i idle; wakeup_fd = l.wakeup_fd + 1 }

-- `wakeupRead`
unfoldable pub wakeup_read : EventLoop → EventLoop
wakeup_read l = record l { wakeup_fd = 0; phase = events }

-- A function leaves the queue and runs.
unfoldable pub run_func : ℕ → MpscQueue → EventLoop → EventLoop
run_func x q l = record l { funcs = q; ran = l.ran ++ (x ∷ []); taken = suc l.taken }
