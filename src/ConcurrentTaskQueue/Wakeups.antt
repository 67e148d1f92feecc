-- ===== src/ConcurrentTaskQueue/Wakeups.antt =====
-- No task waits for a thread that was not woken for it, as long as the queue is not stopped.
use trantor.Prelude.{
  ℕ, zero, suc, ◌+◌, ◌≤◌, ◌<◌, ◌≡◌, refl, ap, Bool, true, false, List, [], ◌∷◌, ◌++◌, if◌then◌else◌,
  ◌⊎◌, inl, inr, arith, length, length-append,
}
use trantor.ConcurrentTaskQueue.{
  Worker, testing, wanting, resolved, waiting, running, ended, stored, ConcurrentTaskQueue,
  new_queue, wake_all, run_task_in_queue, replicate_worker, look_at, look,
}
use trantor.ConcurrentTaskQueue.Steps.{
  is_waiting, is_resolved, count, Notified, nobody, somebody, Cause, Step, gives, goes_in, leaves,
  looks, waits, finishes, wakes, stores, notifies, Reach, made, later,
}
use trantor.ConcurrentTaskQueue.Fifo.{count_change}

-- A thread that is going to look at the queue.
abbrev pub is_awake : Worker → ℕ
is_awake testing = 1
is_awake wanting = 1
is_awake _ = 0

-- As many threads are going to look as tasks are in the queue, unless all threads are busy; a thread
-- that has the mutex, and has found nothing to do, is the only one, and the queue is still empty.
pub record Woken (q : ConcurrentTaskQueue) : Type 0 where
  pub awake :
      q.stop ≡ false
      → 0 < count is_waiting q.workers
      → length q.task_queue ≤ count is_awake q.workers
  pub alone : count is_resolved q.workers ≤ 1
  pub nothing : 0 < count is_resolved q.workers → q.task_queue ≡ []
  pub told : q.stopper ≡ stored → q.stop ≡ true

-- A thread that goes from one state to another, with the queue as it is.
record Counts (ws vs : List Worker) (u v : Worker) : Type 0 where
  waitings : count is_waiting ws + is_waiting v ≡ count is_waiting vs + is_waiting u
  awakes : count is_awake ws + is_awake v ≡ count is_awake vs + is_awake u
  resolveds : count is_resolved ws + is_resolved v ≡ count is_resolved vs + is_resolved u

counts :
    (pre post ws : List Worker) (u v : Worker)
    → ws ≡ pre ++ u ∷ post
    → Counts ws (pre ++ v ∷ post) u v
counts pre post ws u v e = record {
  waitings = count_change is_waiting pre post ws u v e;
  awakes = count_change is_awake pre post ws u v e;
  resolveds = count_change is_resolved pre post ws u v e;
}

resolved-wake_all : (ws : List Worker) → count is_resolved (wake_all ws) ≡ count is_resolved ws
resolved-wake_all [] = refl
resolved-wake_all (testing ∷ ws) = ap (λ c. 0 + c) (resolved-wake_all ws)
resolved-wake_all (wanting ∷ ws) = ap (λ c. 0 + c) (resolved-wake_all ws)
resolved-wake_all (resolved ∷ ws) = ap (λ c. 1 + c) (resolved-wake_all ws)
resolved-wake_all (waiting ∷ ws) = ap (λ c. 0 + c) (resolved-wake_all ws)
resolved-wake_all (running y ∷ ws) = ap (λ c. 0 + c) (resolved-wake_all ws)
resolved-wake_all (ended ∷ ws) = ap (λ c. 0 + c) (resolved-wake_all ws)

-- A thread that does not begin to wait, that looks still if it looked, and does not get the mutex.
moved-Woken :
    (q : ConcurrentTaskQueue) (pre post : List Worker) (u v : Worker)
    → Woken q
    → q.workers ≡ pre ++ u ∷ post
    → is_waiting v ≤ is_waiting u
    → (is_awake u ≤ is_awake v) ⊎ (q.stop ≡ true)
    → is_resolved v ≤ is_resolved u
    → Woken (record q { workers = pre ++ v ∷ post })
moved-Woken q pre post u v s e hw ha hr =
    let k = counts pre post q.workers u v e in
    let a = k.waitings in
    let b = k.awakes in
    let c = k.resolveds in
    record {
      awake = λ goes some_wait. elim ha [
        | inl still ↦ let f = s.awake goes (omega arith) in omega arith
        | inr stopped ↦ absurd cc
      ];
      alone = let f = s.alone in omega arith;
      nothing = λ r. s.nothing (omega arith);
      told = s.told;
    }

resolved_le : (stop : Bool) → is_resolved (if stop then testing else resolved) ≤ 1
resolved_le true = omega arith
resolved_le false = omega arith

look_at-Woken :
    (q : ConcurrentTaskQueue) (pre post : List Worker) (tasks : List ℕ)
    → Woken q
    → q.workers ≡ pre ++ wanting ∷ post
    → count is_resolved q.workers ≡ 0
    → q.task_queue ≡ tasks
    → Woken (record ((look_at tasks q).1) { workers = pre ++ (look_at tasks q).0 ∷ post })
look_at-Woken q pre post [] s e free h =
    let z : length q.task_queue ≡ 0 = ap length h in
    let k = counts pre post q.workers wanting (if q.stop then testing else resolved) e in
    let b = k.awakes in
    let c = k.resolveds in
    let r = resolved_le q.stop in
    record {
      awake = λ goes some_wait. omega arith;
      alone = omega arith;
      nothing = λ r. h;
      told = s.told;
    }
look_at-Woken q pre post (task ∷ tasks) s e free h =
    let z : length q.task_queue ≡ suc (length tasks) = ap length h in
    let k = counts pre post q.workers wanting (running task) e in
    let a = k.waitings in
    let b = k.awakes in
    let c = k.resolveds in
    record {
      awake = λ goes some_wait. let f = s.awake goes (omega arith) in omega arith;
      alone = omega arith;
      nothing = λ r. absurd (omega arith);
      told = s.told;
    }

Notified-Woken :
    (q : ConcurrentTaskQueue) (task : ℕ) (woken : List Worker)
    → Woken q
    → count is_resolved q.workers ≡ 0
    → Notified q.workers woken
    → Woken (run_task_in_queue task woken q)
unfolding run_task_in_queue
Notified-Woken q task _ s free (nobody h) = record {
  awake = λ goes some_wait. absurd (omega arith);
  alone = omega arith;
  nothing = λ r. absurd (omega arith);
  told = s.told;
}
Notified-Woken q task _ s free (somebody pre post e) =
    let k = counts pre post q.workers waiting wanting e in
    let a = k.waitings in
    let b = k.awakes in
    let c = k.resolveds in
    let l = length-append q.task_queue (task ∷ []) in
    record {
      awake = λ goes some_wait. let f = s.awake goes (omega arith) in omega arith;
      alone = omega arith;
      nothing = λ r. absurd (omega arith);
      told = s.told;
    }

Step-Woken : (q q' : ConcurrentTaskQueue) (c : Cause) → Woken q → Step q c q' → Woken q'
unfolding look
Step-Woken q _ _ s (gives task woken free note) = Notified-Woken q task woken s free note
Step-Woken q _ _ s (goes_in pre post e h) =
    moved-Woken q pre post testing wanting s e (omega arith) (inl (omega arith)) (omega arith)
Step-Woken q _ _ s (leaves pre post e h) =
    moved-Woken q pre post testing ended s e (omega arith) (inr h) (omega arith)
Step-Woken q _ _ s (looks pre post e h) = look_at-Woken q pre post q.task_queue s e h refl
Step-Woken q _ _ s (waits pre post e) =
    let k = counts pre post q.workers resolved waiting e in
    let c = k.resolveds in
    let b = k.awakes in
    let f = s.alone in
    let empty : q.task_queue ≡ [] = s.nothing (omega arith) in
    let z : length q.task_queue ≡ 0 = ap length empty in
    record {
      awake = λ goes some_wait. omega arith;
      alone = omega arith;
      nothing = λ r. empty;
      told = s.told;
    }
Step-Woken q _ _ s (finishes task pre post e) =
    let m =
      moved-Woken q pre post (running task) testing s e (omega arith) (inl (omega arith))
        (omega arith) in
    record { awake = m.awake; alone = m.alone; nothing = m.nothing; told = m.told }
Step-Woken q _ _ s (wakes pre post e) =
    moved-Woken q pre post waiting wanting s e (omega arith) (inl (omega arith)) (omega arith)
Step-Woken q _ _ s (stores h) = record {
  awake = λ goes. absurd cc;
  alone = s.alone;
  nothing = s.nothing;
  told = λ e. refl;
}
Step-Woken q _ _ s (notifies h) =
    let r = resolved-wake_all q.workers in
    let stopped = s.told h in
    record {
      awake = λ goes. absurd cc;
      alone = let f = s.alone in omega arith;
      nothing = λ held. s.nothing (omega arith);
      told = λ e. absurd cc;
    }

none_resolved : (n : ℕ) → count is_resolved (replicate_worker n) ≡ 0
none_resolved zero = refl
none_resolved (suc n) = let h = none_resolved n in omega arith

-- In every reachable state of a queue that is not stopped, while a thread waits there are no more tasks
-- in the queue than threads that are going to look at it; and the mutex is with one thread at most, which has found the queue empty.
pub Reach-Woken : (n : ℕ) (q : ConcurrentTaskQueue) → Reach n q → Woken q
unfolding new_queue
Reach-Woken n _ made =
    let h = none_resolved n in
    record {
      awake = λ goes some_wait. omega arith;
      alone = omega arith;
      nothing = λ r. refl;
      told = λ e. absurd cc;
    }
Reach-Woken n q (later {q = p} c r s) = Step-Woken p q c (Reach-Woken n p r) s
