-- ===== src/ConcurrentTaskQueue/Steps.antt =====
-- The steps of the threads of the queue, of those that give tasks, and of the one that stops it, in any
-- order. `resolved` is the only state in which a thread has the mutex between two steps.
use trantor.Prelude.{ℕ, ◌+◌, ◌≡◌, true, false, List, [], ◌∷◌, ◌++◌}
use trantor.ConcurrentTaskQueue.{
  Worker, testing, wanting, resolved, waiting, running, ended, not_yet, stored, notified,
  ConcurrentTaskQueue, new_queue, wake_all, run_task_in_queue, look,
}

abbrev pub is_waiting : Worker → ℕ
is_waiting waiting = 1
is_waiting _ = 0

abbrev pub is_resolved : Worker → ℕ
is_resolved resolved = 1
is_resolved _ = 0

abbrev pub count : (Worker → ℕ) → List Worker → ℕ
count f [] = 0
count f (w ∷ ws) = f w + count f ws

-- `notify_one`: one thread that waits, whichever, or nobody.
pub data Notified (ws : List Worker) : List Worker → Type 0 where
  nobody : count is_waiting ws ≡ 0 → Notified ws ws
  somebody :
      (pre post : List Worker) → ws ≡ pre ++ waiting ∷ post → Notified ws (pre ++ wanting ∷ post)

abbrev pub placed : List Worker → Worker → List Worker → ConcurrentTaskQueue → ConcurrentTaskQueue
placed pre w post q = record q { workers = pre ++ w ∷ post }

-- Whose step it is: that of the queue's threads or of `stop`, of a thread that gives a task, or a
-- wake-up that nobody caused.
pub data Cause : Type 0 where
  threads giver chance : Cause

pub data Step (q : ConcurrentTaskQueue) : Cause → ConcurrentTaskQueue → Type 0 where
  gives :
      (task : ℕ) (woken : List Worker)
      → count is_resolved q.workers ≡ 0
      → Notified q.workers woken
      → Step q giver (run_task_in_queue task woken q)
  goes_in :
      (pre post : List Worker)
      → q.workers ≡ pre ++ testing ∷ post
      → q.stop ≡ false
      → Step q threads (placed pre wanting post q)
  leaves :
      (pre post : List Worker)
      → q.workers ≡ pre ++ testing ∷ post
      → q.stop ≡ true
      → Step q threads (placed pre ended post q)
  looks :
      (pre post : List Worker)
      → q.workers ≡ pre ++ wanting ∷ post
      → count is_resolved q.workers ≡ 0
      → Step q threads (placed pre ((look q).0) post ((look q).1))
  waits :
      (pre post : List Worker)
      → q.workers ≡ pre ++ resolved ∷ post
      → Step q threads (placed pre waiting post q)
  finishes :
      (task : ℕ) (pre post : List Worker)
      → q.workers ≡ pre ++ running task ∷ post
      → Step q threads
          (record q { workers = pre ++ testing ∷ post; finished = q.finished ++ (task ∷ []) })
  wakes :
      (pre post : List Worker)
      → q.workers ≡ pre ++ waiting ∷ post
      → Step q chance (placed pre wanting post q)
  stores : q.stopper ≡ not_yet → Step q threads (record q { stop = true; stopper = stored })
  notifies :
      q.stopper ≡ stored
      → Step q threads (record q { stopper = notified; workers = wake_all q.workers })

pub data Reach (n : ℕ) : ConcurrentTaskQueue → Type 0 where
  made : Reach n (new_queue n)
  later : {q q' : ConcurrentTaskQueue} (c : Cause) → Reach n q → Step q c q' → Reach n q'
