-- ===== src/ConcurrentTaskQueue/Stopped.antt =====
-- `stop` does not have the mutex, and can come between a thread's test of `stop_` and its wait.
use trantor.Prelude.{
  ℕ, zero, suc, ◌+◌, ◌≤◌, ◌<◌, ◌≡◌, refl, ◌∙◌, Bool, true, false, List, [], ◌∷◌, if◌then◌else◌,
  arith,
}
use trantor.ConcurrentTaskQueue.{
  testing, wanting, resolved, waiting, running, ended, notified, ConcurrentTaskQueue, new_queue,
  wake_all, replicate_worker, look_at, look,
}
use trantor.ConcurrentTaskQueue.Steps.{
  is_waiting, is_resolved, count, Cause, threads, Step, gives, goes_in, leaves, looks, waits,
  finishes, wakes, stores, notifies, Reach, made, later,
}
use trantor.ConcurrentTaskQueue.Fifo.{count_change}

-- Steps of the queue's own threads and of `stop`.
pub data Run (q : ConcurrentTaskQueue) : ConcurrentTaskQueue → Type 0 where
  stays : Run q q
  goes_on : {q' q'' : ConcurrentTaskQueue} → Run q q' → Step q' threads q'' → Run q q''

idle_waiting : (stop : Bool) → is_waiting (if stop then testing else resolved) ≡ 0
idle_waiting true = refl
idle_waiting false = refl

look_at-waiting : (tasks : List ℕ) (q : ConcurrentTaskQueue) → is_waiting ((look_at tasks q).0) ≡ 0
look_at-waiting [] q = idle_waiting q.stop
look_at-waiting (task ∷ tasks) q = refl

look_at-stopper :
    (tasks : List ℕ) (q : ConcurrentTaskQueue) → ((look_at tasks q).1).stopper ≡ q.stopper
look_at-stopper [] q = refl
look_at-stopper (task ∷ tasks) q = refl

-- Behind `notify_all`.
record Past (n : ℕ) (q : ConcurrentTaskQueue) : Type 0 where
  told : q.stopper ≡ notified
  waits_still : n ≤ count is_waiting q.workers

Step-Past :
    (n : ℕ) (q q' : ConcurrentTaskQueue) (c : Cause)
    → Past n q
    → Step q c q'
    → c ≡ threads
    → Past n q'
unfolding look
Step-Past n q _ _ p (gives task woken free note) at = absurd cc
Step-Past n q _ _ p (goes_in pre post e h) at =
    let a = count_change is_waiting pre post q.workers testing wanting e in
    record { told = p.told; waits_still = let b = p.waits_still in omega arith }
Step-Past n q _ _ p (leaves pre post e h) at =
    let a = count_change is_waiting pre post q.workers testing ended e in
    record { told = p.told; waits_still = let b = p.waits_still in omega arith }
Step-Past n q _ _ p (looks pre post e h) at =
    let a = count_change is_waiting pre post q.workers wanting ((look q).0) e in
    let z = look_at-waiting q.task_queue q in
    record {
      told = look_at-stopper q.task_queue q ∙ p.told;
      waits_still = let b = p.waits_still in omega arith;
    }
Step-Past n q _ _ p (waits pre post e) at =
    let a = count_change is_waiting pre post q.workers resolved waiting e in
    record { told = p.told; waits_still = let b = p.waits_still in omega arith }
Step-Past n q _ _ p (finishes task pre post e) at =
    let a = count_change is_waiting pre post q.workers (running task) testing e in
    record { told = p.told; waits_still = let b = p.waits_still in omega arith }
Step-Past n q _ _ p (wakes pre post e) at = absurd cc
Step-Past n q _ _ p (stores h) at = absurd (let t = p.told in cc)
Step-Past n q _ _ p (notifies h) at = absurd (let t = p.told in cc)

Run-Past : (n : ℕ) (q q' : ConcurrentTaskQueue) → Past n q → Run q q' → Past n q'
Run-Past n q _ p stays = p
Run-Past n q q'' p (goes_on {q' = q'} r s) = Step-Past n q' q'' threads (Run-Past n q q' p r) s refl

-- The state in which the first of the threads waits, though `stop` is done with `notify_all`.
abbrev missed : ℕ → ConcurrentTaskQueue
missed n = record (new_queue (suc n)) {
  workers = waiting ∷ wake_all (replicate_worker n);
  stop = true;
  stopper = notified;
}

none_resolved : (n : ℕ) → count is_resolved (replicate_worker n) ≡ 0
none_resolved zero = refl
none_resolved (suc n) = let h = none_resolved n in omega arith

missed-Reach : (n : ℕ) → Reach (suc n) (missed n)
unfolding new_queue look
missed-Reach n =
    let h : count is_resolved (replicate_worker n) ≡ 0 = none_resolved n in
    let free : 0 + count is_resolved (replicate_worker n) ≡ 0 = omega arith in
    later threads
      (later threads
        (later threads
          (later threads (later threads made (goes_in [] (replicate_worker n) refl refl))
            (looks [] (replicate_worker n) refl free))
          (stores refl))
        (notifies refl))
      (waits [] (wake_all (replicate_worker n)) refl)

-- With any number of threads there is a run of `stop` behind which one thread waits for ever, unless a
-- task is given or it wakes without a cause: `notify_all` came before its wait, and the `join` of it does not return.
pub stop-missed :
    (n : ℕ)
    → (q : ConcurrentTaskQueue) × Reach (suc n) q
      × (q.stopper ≡ notified)
      × ((q' : ConcurrentTaskQueue) → Run q q' → 0 < count is_waiting q'.workers)
unfolding new_queue
stop-missed n = (
  missed n,
  missed-Reach n,
  refl,
  λ q' r.
      (let p = Run-Past 1 (missed n) q' (record { told = refl; waits_still = omega arith }) r in
        p.waits_still),
)
