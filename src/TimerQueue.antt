-- ===== src/TimerQueue.antt =====
-- net/inner/TimerQueue.cc and Timer.cc: the timers of an event loop, on Linux. Times are numbers.
-- `std::priority_queue` is a list in the order of `when`; it leaves open which of two timers of one
-- time is on top, and here it is the older one. `armed` is what the timer descriptor is set to,
-- `fired` the ids of the timers that ran. A callback acts on the queue through `addTimer` and
-- `invalidateTimer`, which in the loop thread run at once; what it does is a parameter.
pub mod Cancel
pub mod Sorted
pub mod Due
pub mod Expire
mod Tests
use trantor.Prelude.{
  ℕ, ◌+◌, Bool, true, false, not, ◌&&◌, ◌||◌, Option, some, none, List, [], ◌∷◌, ◌++◌,
  if◌then◌else◌, ltb, ◌==◌,
}

pub record Timer : Type 0 where
  pub id : ℕ
  pub when : ℕ
  pub interval : ℕ
  pub repeat : Bool

pub record TimerQueue : Type 0 where
  pub timers : List Timer
  pub timer_id_set : List ℕ
  pub calling_expired_timers : Bool
  pub armed : Option ℕ
  pub fired : List ℕ

-- The constructor of `Timer`.
unfoldable pub new_timer : ℕ → ℕ → ℕ → Timer
new_timer id when interval = record {
  id = id;
  when = when;
  interval = interval;
  repeat = ltb 0 interval;
}

-- `find` in the set of ids, and `erase`.
unfoldable pub has_id : ℕ → List ℕ → Bool
has_id k [] = false
has_id k (x ∷ xs) = (k == x) || has_id k xs

unfoldable pub insert_id : ℕ → List ℕ → List ℕ
insert_id k xs = if has_id k xs then xs else k ∷ xs

unfoldable pub erase_id : ℕ → List ℕ → List ℕ
erase_id k [] = []
erase_id k (x ∷ xs) = let rest = erase_id k xs in if k == x then rest else x ∷ rest

-- `timers_.push`
unfoldable pub push_timer : Timer → List Timer → List Timer
push_timer t [] = t ∷ []
push_timer t (u ∷ us) =
    let rest = push_timer t us in if ltb t.when u.when then t ∷ u ∷ us else u ∷ rest

-- Whether a timer is earlier than all that wait.
unfoldable pub earliest : Timer → List Timer → Bool
earliest t [] = true
earliest t (u ∷ us) = ltb t.when u.when

unfoldable pub insert : Timer → TimerQueue → TimerQueue × Bool
insert t q = (record q { timers = push_timer t q.timers }, earliest t q.timers)

unfoldable pub add_timer_in_loop : Timer → TimerQueue → TimerQueue
add_timer_in_loop t q =
    let (q', earliest_changed) =
      insert t (record q { timer_id_set = insert_id t.id q.timer_id_set }) in
    if earliest_changed then record q' { armed = some t.when } else q'

unfoldable pub invalidate_timer : ℕ → TimerQueue → TimerQueue
invalidate_timer id q = record q { timer_id_set = erase_id id q.timer_id_set }

-- The timers whose time is before `now`, and the others.
unfoldable pub take_expired : ℕ → List Timer → List Timer × List Timer
take_expired now [] = ([], [])
take_expired now (t ∷ ts) =
    let (expired, rest) = take_expired now ts in
    if ltb t.when now then (t ∷ expired, rest) else ([], t ∷ ts)

unfoldable pub get_expired : ℕ → TimerQueue → List Timer × TimerQueue
get_expired now q =
    let (expired, rest) = take_expired now q.timers in (expired, record q { timers = rest })

-- `Timer::restart` of a timer that repeats.
unfoldable pub restart : ℕ → Timer → Timer
restart now t = record t { when = now + t.interval }

unfoldable pub reset_one : ℕ → Timer → TimerQueue → TimerQueue
reset_one now t q =
    if has_id t.id q.timer_id_set
    then (if t.repeat
        then (insert (restart now t) q).0
        else record q { timer_id_set = erase_id t.id q.timer_id_set })
    else q

unfoldable pub reset_all : ℕ → List Timer → TimerQueue → TimerQueue
reset_all now [] q = q
reset_all now (t ∷ ts) q = reset_all now ts (reset_one now t q)

-- `resetTimerfd` to the timer on top.
unfoldable pub arm : TimerQueue → TimerQueue
arm q = elim q.timers [ [] ↦ q | t ∷ ts ↦ record q { armed = some t.when } ]

unfoldable pub reset : ℕ → List Timer → TimerQueue → TimerQueue
reset now expired q = arm (reset_all now expired q)

module _ (run : ℕ → TimerQueue → TimerQueue) where
  -- `Timer::run`
  unfoldable pub run_timer : Timer → TimerQueue → TimerQueue
  run_timer t q = run t.id (record q { fired = q.fired ++ (t.id ∷ []) })

  -- The loop of `handleRead`: a timer that was invalidated meanwhile does not run.
  unfoldable pub run_all : List Timer → TimerQueue → TimerQueue
  run_all [] q = q
  run_all (t ∷ ts) q = run_all ts (if has_id t.id q.timer_id_set then run_timer t q else q)

  unfoldable pub handle_read : ℕ → TimerQueue → TimerQueue
  handle_read now q =
      let (expired, q1) = get_expired now q in
      let q2 = run_all expired (record q1 { calling_expired_timers = true }) in
      reset now expired (record q2 { calling_expired_timers = false })
