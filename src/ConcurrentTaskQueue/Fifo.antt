-- ===== src/ConcurrentTaskQueue/Fifo.antt =====
-- Tasks are taken in their order, and each one that was taken is run once.
use trantor.Prelude.{
  ℕ, zero, suc, ◌+◌, ◌≡◌, refl, sym, ap, ◌∙◌, Bool, true, false, List, [], ◌∷◌, ◌++◌, if◌then◌else◌,
  ◌==◌, arith, append_assoc,
}
use trantor.ConcurrentTaskQueue.{
  Worker, testing, wanting, resolved, waiting, running, ended, ConcurrentTaskQueue, new_queue,
  wake_all, run_task_in_queue, replicate_worker, look_at, look,
}
use trantor.ConcurrentTaskQueue.Steps.{
  count, Notified, nobody, somebody, Cause, Step, gives, goes_in, leaves, looks, waits, finishes,
  wakes, stores, notifies, Reach, made, later,
}

pub count-append :
    (f : Worker → ℕ) (ws vs : List Worker) → count f (ws ++ vs) ≡ count f ws + count f vs
count-append f [] vs = omega arith
count-append f (w ∷ ws) vs = let h = count-append f ws vs in omega arith

-- One thread in another state.
pub count_change :
    (f : Worker → ℕ) (pre post ws : List Worker) (u v : Worker)
    → ws ≡ pre ++ u ∷ post
    → count f ws + f v ≡ count f (pre ++ v ∷ post) + f u
count_change f pre post ws u v e =
    let a : count f ws ≡ count f (pre ++ u ∷ post) = ap (count f) e in
    let b = count-append f pre (u ∷ post) in let c = count-append f pre (v ∷ post) in omega arith

abbrev pub occurs : ℕ → List ℕ → ℕ
occurs x [] = 0
occurs x (y ∷ ys) = (if x == y then 1 else 0) + occurs x ys

occurs-append : (x : ℕ) (xs ys : List ℕ) → occurs x (xs ++ ys) ≡ occurs x xs + occurs x ys
occurs-append x [] ys = omega arith
occurs-append x (y ∷ xs) ys = let h = occurs-append x xs ys in omega arith

abbrev pub runs : ℕ → Worker → ℕ
runs x (running y) = if x == y then 1 else 0
runs x _ = 0

count-wake_all : (x : ℕ) (ws : List Worker) → count (runs x) (wake_all ws) ≡ count (runs x) ws
count-wake_all x [] = refl
count-wake_all x (testing ∷ ws) = ap (λ c. 0 + c) (count-wake_all x ws)
count-wake_all x (wanting ∷ ws) = ap (λ c. 0 + c) (count-wake_all x ws)
count-wake_all x (resolved ∷ ws) = ap (λ c. 0 + c) (count-wake_all x ws)
count-wake_all x (waiting ∷ ws) = ap (λ c. 0 + c) (count-wake_all x ws)
count-wake_all x (running y ∷ ws) = ap (λ c. runs x (running y) + c) (count-wake_all x ws)
count-wake_all x (ended ∷ ws) = ap (λ c. 0 + c) (count-wake_all x ws)

-- The tasks that were taken are those given first, in their order, and each of them is finished or run by a thread, as
-- often as it was taken.
pub record InOrder (q : ConcurrentTaskQueue) : Type 0 where
  pub order : q.queued ≡ q.started ++ q.task_queue
  pub once : (x : ℕ) → occurs x q.started ≡ occurs x q.finished + count (runs x) q.workers

-- Threads in states in which the same tasks run.
same-InOrder :
    (q : ConcurrentTaskQueue) (ws : List Worker)
    → InOrder q
    → ((x : ℕ) → count (runs x) ws ≡ count (runs x) q.workers)
    → InOrder (record q { workers = ws })
same-InOrder q ws s same = record {
  order = s.order;
  once = λ x. s.once x ∙ ap (λ c. occurs x q.finished + c) (sym (same x));
}

-- A thread that goes from one state to another, in none of which it runs a task.
moved-InOrder :
    (q : ConcurrentTaskQueue) (pre post : List Worker) (u v : Worker)
    → InOrder q
    → q.workers ≡ pre ++ u ∷ post
    → ((x : ℕ) → runs x u ≡ 0)
    → ((x : ℕ) → runs x v ≡ 0)
    → InOrder (record q { workers = pre ++ v ∷ post })
moved-InOrder q pre post u v s e hu hv = same-InOrder q (pre ++ v ∷ post) s λ x.
    let a = count_change (runs x) pre post q.workers u v e in
    let b = hu x in let c = hv x in omega arith

Notified-runs :
    (x : ℕ) (ws woken : List Worker) → Notified ws woken → count (runs x) woken ≡ count (runs x) ws
Notified-runs x ws _ (nobody h) = refl
Notified-runs x ws _ (somebody pre post e) =
    let a = count_change (runs x) pre post ws waiting wanting e in omega arith

occurs-last :
    (x y : ℕ) (xs : List ℕ) → occurs x (xs ++ (y ∷ [])) ≡ occurs x xs + (if x == y then 1 else 0)
occurs-last x y xs =
    occurs-append x xs (y ∷ [])
    ∙ (let z : occurs x (y ∷ []) ≡ (if x == y then 1 else 0) = omega arith in
        ap (λ c. occurs x xs + c) z)

idle_runs : (x : ℕ) (stop : Bool) → runs x (if stop then testing else resolved) ≡ 0
idle_runs x true = refl
idle_runs x false = refl

look_at-InOrder :
    (q : ConcurrentTaskQueue) (pre post : List Worker) (tasks : List ℕ)
    → InOrder q
    → q.workers ≡ pre ++ wanting ∷ post
    → q.task_queue ≡ tasks
    → InOrder (record ((look_at tasks q).1) { workers = pre ++ (look_at tasks q).0 ∷ post })
look_at-InOrder q pre post [] s e h =
    moved-InOrder q pre post wanting (if q.stop then testing else resolved) s e (λ x. refl)
      (λ x. idle_runs x q.stop)
look_at-InOrder q pre post (task ∷ tasks) s e h = record {
  order = s.order ∙ ap (λ t. q.started ++ t) h ∙ sym (append_assoc q.started (task ∷ []) tasks);
  once = λ x.
      let a = count_change (runs x) pre post q.workers wanting (running task) e in
      let b = occurs-last x task q.started in let c = s.once x in omega arith;
}

Step-InOrder : (q q' : ConcurrentTaskQueue) (c : Cause) → InOrder q → Step q c q' → InOrder q'
unfolding run_task_in_queue look
Step-InOrder q _ _ s (gives task woken free note) = record {
  order = ap (λ t. t ++ (task ∷ [])) s.order ∙ append_assoc q.started q.task_queue (task ∷ []);
  once = λ x.
      s.once x ∙ ap (λ c. occurs x q.finished + c) (sym (Notified-runs x q.workers woken note));
}
Step-InOrder q _ _ s (goes_in pre post e h) =
    moved-InOrder q pre post testing wanting s e (λ x. refl) (λ x. refl)
Step-InOrder q _ _ s (leaves pre post e h) =
    moved-InOrder q pre post testing ended s e (λ x. refl) (λ x. refl)
Step-InOrder q _ _ s (looks pre post e h) = look_at-InOrder q pre post q.task_queue s e refl
Step-InOrder q _ _ s (waits pre post e) =
    moved-InOrder q pre post resolved waiting s e (λ x. refl) (λ x. refl)
Step-InOrder q _ _ s (finishes task pre post e) = record {
  order = s.order;
  once = λ x.
      let a = count_change (runs x) pre post q.workers (running task) testing e in
      let b = occurs-last x task q.finished in let c = s.once x in omega arith;
}
Step-InOrder q _ _ s (wakes pre post e) =
    moved-InOrder q pre post waiting wanting s e (λ x. refl) (λ x. refl)
Step-InOrder q _ _ s (stores h) = record { order = s.order; once = s.once }
Step-InOrder q _ _ s (notifies h) = record {
  order = s.order;
  once = λ x. s.once x ∙ ap (λ c. occurs x q.finished + c) (sym (count-wake_all x q.workers));
}

new_workers : (x n : ℕ) → count (runs x) (replicate_worker n) ≡ 0
new_workers x zero = refl
new_workers x (suc n) = let h = new_workers x n in omega arith

-- In every reachable state the tasks that were taken are those given first, in their order, the others
-- are in the queue, and each one that was taken is finished or run by one thread.
pub Reach-InOrder : (n : ℕ) (q : ConcurrentTaskQueue) → Reach n q → InOrder q
unfolding new_queue
Reach-InOrder n _ made = record { order = refl; once = λ x. let h = new_workers x n in omega arith }
Reach-InOrder n q (later {q = p} c r s) = Step-InOrder p q c (Reach-InOrder n p r) s
