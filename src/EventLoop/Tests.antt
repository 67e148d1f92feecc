-- ===== src/EventLoop/Tests.antt =====
-- A schedule of two threads, and the theorems at the state that it reaches.
use trantor.Prelude.{ℕ, ◌≡◌, inl, refl, true, List, ◌++◌, arith}
use trantor.MpscQueue.{new_queue, exchange, store, dequeue, empty}
use trantor.MpscQueue.Threads.{idle}
use trantor.EventLoop.{
  EventLoop, polling, woken, calling, new_loop, queue_in_loop, needs_wakeup, finish_enqueue, wakeup,
  wakeup_read, run_func,
}
use trantor.EventLoop.Steps.{
  queues, stores, wakes, starts, poll_woken, reads, handled, calls, misses, polls, Reach, start,
  later,
}
use trantor.EventLoop.Inv.{asleep}
use trantor.EventLoop.Fifo.{Safe, Reach_fifo, Reach-Safe, Reach_all_ran}

-- The loop starts, and thread 2 queues function 7 with a node at 5.
abbrev started : EventLoop
started = record (new_loop 0) { phase = polling }

abbrev exchanged : EventLoop
exchanged = queue_in_loop 2 5 7 started

abbrev linked : EventLoop
linked = finish_enqueue 2 0 5 exchanged

abbrev alarmed : EventLoop
alarmed = wakeup 2 linked

started-Reach : Reach 0 started
unfolding new_loop
started-Reach = later start (starts refl refl)

exchanged-Reach : Reach 0 exchanged
unfolding new_loop new_queue
exchanged-Reach = later started-Reach (queues 2 5 7 refl refl (inl (omega arith)))

linked-Reach : Reach 0 linked
unfolding queue_in_loop new_loop new_queue
linked-Reach = later exchanged-Reach (stores 2 0 5 refl)

alarmed-Reach : Reach 0 alarmed
unfolding finish_enqueue queue_in_loop new_loop needs_wakeup
alarmed-Reach = later linked-Reach (wakes 2 refl)

-- The loop thread wakes, calls the function, and sleeps again.
abbrev called : EventLoop
called =
    run_func 7 (dequeue alarmed.funcs).1
      (record (wakeup_read (record alarmed { phase = woken })) { phase = calling })

abbrev sleeping : EventLoop
sleeping = record called { phase = polling }

calling-Reach :
    Reach 0 (record (wakeup_read (record alarmed { phase = woken })) { phase = calling })
unfolding wakeup wakeup_read finish_enqueue queue_in_loop new_loop
calling-Reach =
    later (later (later alarmed-Reach (poll_woken refl (omega arith))) (reads refl))
      (handled refl refl)

called-Reach : Reach 0 called
unfolding wakeup wakeup_read finish_enqueue queue_in_loop new_loop new_queue exchange store dequeue
called-Reach = later calling-Reach (calls 7 _ refl refl refl)

sleeping-Reach : Reach 0 sleeping
unfolding wakeup wakeup_read finish_enqueue queue_in_loop new_loop new_queue exchange store dequeue
    run_func empty
sleeping-Reach = later (later called-Reach (misses _ refl refl refl)) (polls refl refl refl)

quiet : (i : ℕ) → sleeping.pc i ≡ idle
unfolding wakeup wakeup_read finish_enqueue queue_in_loop new_loop run_func
quiet i = ground arith

sleeps : asleep sleeping.phase ≡ true
sleeps = refl

unwoken : sleeping.wakeup_fd ≡ 0
unfolding run_func wakeup_read
unwoken = refl

Reach_fifo_example : (rest : List ℕ) × (exchanged.queued ≡ exchanged.ran ++ rest)
Reach_fifo_example = Reach_fifo exchanged-Reach

Reach-Safe_example : Safe linked
Reach-Safe_example = Reach-Safe linked-Reach

Reach_all_ran_example : sleeping.ran ≡ sleeping.queued
Reach_all_ran_example = Reach_all_ran sleeping-Reach sleeps unwoken quiet
