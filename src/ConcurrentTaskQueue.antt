-- ===== src/ConcurrentTaskQueue.antt =====
-- utils/ConcurrentTaskQueue.cc: a queue of tasks for several threads. A task is known by a number.
-- `queued` has the tasks that were given, `started` those that a thread has taken, in order, and
-- `finished` those that were run.
pub mod Steps
pub mod Fifo
pub mod Wakeups
pub mod Stopped
mod Tests
use trantor.Prelude.{
  ℕ, zero, suc, ◌+◌, Bool, true, false, Option, some, none, List, [], ◌∷◌, ◌++◌, if◌then◌else◌,
}

-- A thread of `queueFunc`: before the test of `stop_`; behind it, or awake in `wait`, where it wants the
-- mutex; with the mutex, when it has found `stop_` false and the queue empty, and has not begun to wait; in
-- `wait`; in a task; at its end.
pub data Worker : Type 0 where
  testing wanting resolved waiting : Worker
  running : ℕ → Worker
  ended : Worker

-- The thread that calls `stop`: before, behind the store of `stop_`, behind `notify_all`.
pub data Stopper : Type 0 where
  not_yet stored notified : Stopper

pub record ConcurrentTaskQueue : Type 0 where
  pub workers : List Worker
  pub task_queue : List ℕ
  pub stop : Bool
  pub stopper : Stopper
  pub queued : List ℕ
  pub started : List ℕ
  pub finished : List ℕ

abbrev pub replicate_worker : ℕ → List Worker
replicate_worker zero = []
replicate_worker (suc n) = testing ∷ replicate_worker n

unfoldable pub new_queue : ℕ → ConcurrentTaskQueue
new_queue thread_num = record {
  workers = replicate_worker thread_num;
  task_queue = [];
  stop = false;
  stopper = not_yet;
  queued = [];
  started = [];
  finished = [];
}

-- `notify_all`
abbrev pub wake_all : List Worker → List Worker
wake_all [] = []
wake_all (waiting ∷ ws) = wanting ∷ wake_all ws
wake_all (w ∷ ws) = w ∷ wake_all ws

-- `runTaskInQueue`; `woken` are the threads behind its `notify_one`.
unfoldable pub run_task_in_queue : ℕ → List Worker → ConcurrentTaskQueue → ConcurrentTaskQueue
run_task_in_queue task woken q = record q {
  task_queue = q.task_queue ++ (task ∷ []);
  workers = woken;
  queued = q.queued ++ (task ∷ []);
}

-- A thread that gets the mutex and finds `tasks`: its state behind the tests of the inner loop and of the
-- size.
abbrev pub look_at : List ℕ → ConcurrentTaskQueue → Worker × ConcurrentTaskQueue
look_at [] q = (if q.stop then testing else resolved, q)
look_at (task ∷ tasks) q =
    (running task, record q { task_queue = tasks; started = q.started ++ (task ∷ []) })

unfoldable pub look : ConcurrentTaskQueue → Worker × ConcurrentTaskQueue
look q = look_at q.task_queue q
