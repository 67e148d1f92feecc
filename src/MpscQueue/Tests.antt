-- ===== src/MpscQueue/Tests.antt =====
-- A run of the queue by one thread.
use trantor.Prelude.{◌≡◌, refl, true, some}
use trantor.MpscQueue.{MpscQueue, new_queue, exchange, store, dequeue, empty}

abbrev two : MpscQueue
two = store 1 2 (exchange 2 8 (store 0 1 (exchange 1 7 (new_queue 0))))

first : (dequeue two).0 ≡ some 7
unfolding dequeue store exchange new_queue
first = refl

second : (dequeue (dequeue two).1).0 ≡ some 8
unfolding dequeue store exchange new_queue
second = refl

-- Between the two accesses of `enqueue` the item cannot be seen yet.
unseen : empty (exchange 1 7 (new_queue 0)) ≡ true
unfolding empty exchange new_queue
unseen = refl
