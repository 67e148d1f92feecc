-- ===== src/ConcurrentTaskQueue/Tests.antt =====
-- A queue of two threads that is given a task.
use trantor.Prelude.{◌<◌, ◌≡◌, refl, [], ◌∷◌}
use trantor.ConcurrentTaskQueue.{
  ConcurrentTaskQueue, testing, notified, new_queue, run_task_in_queue,
}
use trantor.ConcurrentTaskQueue.Steps.{is_waiting, count, nobody, giver, gives, Reach, made, later}
use trantor.ConcurrentTaskQueue.Fifo.{InOrder, Reach-InOrder}
use trantor.ConcurrentTaskQueue.Wakeups.{Woken, Reach-Woken}
use trantor.ConcurrentTaskQueue.Stopped.{Run, stop-missed}

abbrev one_task : ConcurrentTaskQueue
one_task = run_task_in_queue 7 (testing ∷ testing ∷ []) (new_queue 2)

one_task-Reach : Reach 2 one_task
unfolding new_queue
one_task-Reach = later giver made (gives 7 (testing ∷ testing ∷ []) refl (nobody refl))

Reach-InOrder_example : InOrder one_task
Reach-InOrder_example = Reach-InOrder 2 one_task one_task-Reach

Reach-Woken_example : Woken one_task
Reach-Woken_example = Reach-Woken 2 one_task one_task-Reach

stop-missed_example :
    (q : ConcurrentTaskQueue) × Reach 2 q
    × (q.stopper ≡ notified)
    × ((q' : ConcurrentTaskQueue) → Run q q' → 0 < count is_waiting q'.workers)
stop-missed_example = stop-missed 1
