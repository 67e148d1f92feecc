-- ===== src/TimerQueue/Tests.antt =====
-- Runs of a queue of timers, and the theorems at a concrete queue.
use trantor.Prelude.{ℕ, ◌≡◌, refl, Bool, if◌then◌else◌, ◌==◌, true, false, some, [], ◌∷◌, arith}
use trantor.TimerQueue.{
  Timer, TimerQueue, has_id, erase_id, push_timer, insert, invalidate_timer, take_expired,
  get_expired, restart, reset_one, reset_all, arm, reset, run_timer, run_all, handle_read,
}
use trantor.TimerQueue.Cancel.{Acts, rests, cancels, stop, expire, runs, invalidate_timer-Silent}
use trantor.TimerQueue.Sorted.{Timely}
use trantor.TimerQueue.Due.{Fires, handle_read-Fires}

abbrev soon : Timer
soon = record { id = 1; when = 3; interval = 5; repeat = true }

abbrev later : Timer
later = record { id = 2; when = 4; interval = 0; repeat = false }

abbrev waiting : TimerQueue
waiting = record {
  timers = soon ∷ later ∷ [];
  timer_id_set = 1 ∷ 2 ∷ [];
  calling_expired_timers = false;
  armed = some 3;
  fired = [];
}

-- The callback of timer 1 invalidates timer 2.
abbrev cancelling : ℕ → TimerQueue → TimerQueue
cancelling j q = if j == 1 then invalidate_timer 2 q else q

cancelling_if :
    (k : ℕ) (q : TimerQueue) (b : Bool) → Acts k q (if b then invalidate_timer 2 q else q)
cancelling_if k q true = cancels 2 (rests (invalidate_timer 2 q))
cancelling_if k q false = rests q

cancelling-Acts : (k j : ℕ) (q : TimerQueue) → Acts k q (cancelling j q)
cancelling-Acts k j q = cancelling_if k q (j == 1)

abbrev resting : ℕ → TimerQueue → TimerQueue
resting j q = q

-- Timer 2 is due as well, but timer 1 runs first and invalidates it.
cancelled_test : handle_read cancelling 10 waiting ≡ record {
  timers = record { id = 1; when = 15; interval = 5; repeat = true } ∷ [];
  timer_id_set = 1 ∷ [];
  calling_expired_timers = false;
  armed = some 15;
  fired = 1 ∷ [];
}
unfolding handle_read get_expired take_expired run_all run_timer invalidate_timer erase_id has_id
    reset reset_all reset_one restart insert push_timer arm
cancelled_test = refl

waiting-Timely : Timely waiting
waiting-Timely = (((omega arith, tt), (tt, tt)), refl)

handle_read-Fires_example : Fires 4 waiting (handle_read resting 4 waiting)
handle_read-Fires_example = handle_read-Fires resting (λ j p. refl) 4 waiting waiting-Timely

invalidate_timer-Silent_example :
    runs 2 (handle_read cancelling 10 (invalidate_timer 2 waiting)) ≡ runs 2 waiting
invalidate_timer-Silent_example =
    invalidate_timer-Silent cancelling 2 waiting (cancelling-Acts 2) (expire 10 (stop _))
