-- ===== src/TimerQueue/Expire.antt =====
-- `handleRead`: what the queue is afterwards.
use trantor.Prelude.{
  ℕ, ◌≤◌, ◌≡◌, refl, sym, subst, ◌∙◌, Bool, true, false, List, [], ◌∷◌, ◌++◌, if◌then◌else◌, arith,
  ◌⊎◌, inl, inr,
}
use trantor.TimerQueue.{
  Timer, TimerQueue, has_id, push_timer, insert, take_expired, get_expired, restart, reset_one,
  reset_all, arm, reset, run_timer, run_all, handle_read,
}
use trantor.TimerQueue.Cancel.{Acts}
use trantor.TimerQueue.Sorted.{
  AllFrom, InOrder, Timely, Acts-InOrder, push_timer-InOrder, push_timer-AllFrom,
  take_expired-Splits,
}

set_top : (ts : List Timer) (q : TimerQueue) → InOrder ts → Timely (arm (record q { timers = ts }))
unfolding arm
set_top [] q o = (tt, tt)
set_top (t ∷ ts) q o = (o, refl)

arm-Timely : (q : TimerQueue) → InOrder q.timers → Timely (arm q)
arm-Timely q o = set_top q.timers q o

arm-timers : (q : TimerQueue) → (arm q).timers ≡ q.timers
unfolding arm
arm-timers q = ground arith

arm-fired : (q : TimerQueue) → (arm q).fired ≡ q.fired
unfolding arm
arm-fired q = ground arith

-- Either the timer comes back, one interval after `now`, or the waiting timers stay.
reset_one-cases :
    (now : ℕ) (t : Timer) (q : TimerQueue)
    → ((reset_one now t q).timers ≡ push_timer (restart now t) q.timers)
      ⊎ ((reset_one now t q).timers ≡ q.timers)
unfolding reset_one insert
reset_one-cases now t q = ground arith

module _ (now : ℕ) where
  reset_one-InOrder :
      (t : Timer) (q : TimerQueue) → InOrder q.timers → InOrder (reset_one now t q).timers
  reset_one-InOrder t q o = elim (reset_one-cases now t q) [
    | inl back ↦ subst InOrder (sym back) (push_timer-InOrder (restart now t) q.timers o)
    | inr same ↦ subst InOrder (sym same) o
  ]

  restart-from : (t : Timer) → now ≤ (restart now t).when
  unfolding restart
  restart-from t = omega arith

  reset_one-AllFrom :
      (t : Timer) (q : TimerQueue) → AllFrom now q.timers → AllFrom now (reset_one now t q).timers
  reset_one-AllFrom t q a = elim (reset_one-cases now t q) [
    | inl back ↦
        subst (AllFrom now) (sym back)
          (push_timer-AllFrom now (restart now t) q.timers (restart-from t) a)
    | inr same ↦ subst (AllFrom now) (sym same) a
  ]

  reset_one-fired : (t : Timer) (q : TimerQueue) → (reset_one now t q).fired ≡ q.fired
  unfolding reset_one insert
  reset_one-fired t q = ground arith

  reset_all-keeps :
      (ts : List Timer) (q : TimerQueue)
      → (InOrder q.timers → InOrder (reset_all now ts q).timers)
        × (AllFrom now q.timers → AllFrom now (reset_all now ts q).timers)
        × ((reset_all now ts q).fired ≡ q.fired)
  unfolding reset_all
  reset_all-keeps [] q = (λ o. o, λ a. a, refl)
  reset_all-keeps (t ∷ ts) q =
      let (o, a, f) = reset_all-keeps ts (reset_one now t q) in
      (λ h. o (reset_one-InOrder t q h), λ h. a (reset_one-AllFrom t q h), f ∙ reset_one-fired t q)

  pub reset-Timely : (ts : List Timer) (q : TimerQueue) → InOrder q.timers → Timely (reset now ts q)
  unfolding reset
  reset-Timely ts q o = arm-Timely (reset_all now ts q) ((reset_all-keeps ts q).0 o)

  pub reset-AllFrom :
      (ts : List Timer) (q : TimerQueue)
      → AllFrom now q.timers
      → AllFrom now (reset now ts q).timers
  unfolding reset
  reset-AllFrom ts q a =
      subst (AllFrom now) (sym (arm-timers (reset_all now ts q))) ((reset_all-keeps ts q).1 a)

  pub reset-fired : (ts : List Timer) (q : TimerQueue) → (reset now ts q).fired ≡ q.fired
  unfolding reset
  reset-fired ts q = arm-fired (reset_all now ts q) ∙ (reset_all-keeps ts q).2

choose-InOrder :
    (b : Bool) (p q : TimerQueue)
    → InOrder p.timers
    → InOrder q.timers
    → InOrder (if b then p else q).timers
choose-InOrder true p q o o' = o
choose-InOrder false p q o o' = o'

module _ (run : ℕ → TimerQueue → TimerQueue) where
  run_all-InOrder :
      (k : ℕ) (ts : List Timer) (q : TimerQueue)
      → ((j : ℕ) (p : TimerQueue) → Acts k p (run j p))
      → InOrder q.timers
      → InOrder (run_all run ts q).timers
  unfolding run_all run_timer
  run_all-InOrder k [] q acts o = o
  run_all-InOrder k (t ∷ ts) q acts o =
      let started = record q { fired = q.fired ++ (t.id ∷ []) } in
      run_all-InOrder k ts _ acts (
        choose-InOrder (has_id t.id q.timer_id_set) (run t.id started) q
          (Acts-InOrder k o (acts t.id started)) o)

  -- After `handleRead` the timers are in order and the descriptor is set to the first of them,
  -- whatever the callbacks added or invalidated.
  pub handle_read-Timely :
      (k now : ℕ) (q : TimerQueue)
      → ((j : ℕ) (p : TimerQueue) → Acts k p (run j p))
      → Timely q
      → Timely (handle_read run now q)
  unfolding handle_read get_expired
  handle_read-Timely k now q acts (o, s) =
      let split = take_expired-Splits now q.timers o in
      reset-Timely now (take_expired now q.timers).0 _
        (run_all-InOrder k (take_expired now q.timers).0 _ acts split.order)
