-- ===== src/TimerQueue/Sorted.antt =====
-- The timer descriptor is set to the first timer.
use trantor.Prelude.{
  ℕ, ◌≤◌, ◌<◌, ◌≡◌, refl, ap, true, false, Option, some, List, [], ◌∷◌, ◌++◌, ltb, arith, inl, inr,
  Bool-cases,
}
use trantor.TimerQueue.{
  Timer, TimerQueue, push_timer, earliest, insert, add_timer_in_loop, invalidate_timer,
  take_expired,
}
use trantor.TimerQueue.Cancel.{Acts, rests, adds, cancels}

-- Each timer is not before the time `w`.
abbrev pub AllFrom : ℕ → List Timer → Type 0
AllFrom w [] = Unit
AllFrom w (t ∷ ts) = (w ≤ t.when) × AllFrom w ts

-- Each timer is before the time `w`.
abbrev pub AllBefore : ℕ → List Timer → Type 0
AllBefore w [] = Unit
AllBefore w (t ∷ ts) = (t.when < w) × AllBefore w ts

abbrev pub InOrder : List Timer → Type 0
InOrder [] = Unit
InOrder (t ∷ ts) = AllFrom t.when ts × InOrder ts

abbrev pub SetTo : List Timer → Option ℕ → Type 0
SetTo [] a = Unit
SetTo (t ∷ ts) a = a ≡ some t.when

-- The timers are in order, and the descriptor is set to the first of them.
abbrev pub Timely : TimerQueue → Type 0
Timely q = InOrder q.timers × SetTo q.timers q.armed

AllFrom-weaken : (v w : ℕ) (ts : List Timer) → v ≤ w → AllFrom w ts → AllFrom v ts
AllFrom-weaken v w [] h a = tt
AllFrom-weaken v w (t ∷ ts) h (a, b) = (omega arith, AllFrom-weaken v w ts h b)

pub push_timer-AllFrom :
    (w : ℕ) (t : Timer) (ts : List Timer) → w ≤ t.when → AllFrom w ts → AllFrom w (push_timer t ts)
unfolding push_timer
push_timer-AllFrom w t [] h a = (h, tt)
push_timer-AllFrom w t (u ∷ us) h (a, b) = elim (Bool-cases (ltb t.when u.when)) [
  | inl before ↦ rw before (h, (a, b))
  | inr behind ↦ rw behind (a, push_timer-AllFrom w t us h b)
]

pub push_timer-InOrder : (t : Timer) (ts : List Timer) → InOrder ts → InOrder (push_timer t ts)
unfolding push_timer
push_timer-InOrder t [] o = (tt, tt)
push_timer-InOrder t (u ∷ us) (a, o) = elim (Bool-cases (ltb t.when u.when)) [
  | inl before ↦
      rw before ((ground arith, AllFrom-weaken t.when u.when us (ground arith) a), (a, o))
  | inr behind ↦
      rw behind (push_timer-AllFrom u.when t us (ground arith) a, push_timer-InOrder t us o)
]

push_timer-SetTo_new :
    (t : Timer) (ts : List Timer) → earliest t ts ≡ true → SetTo (push_timer t ts) (some t.when)
unfolding push_timer earliest
push_timer-SetTo_new t [] e = refl
push_timer-SetTo_new t (u ∷ us) e = rw e refl

push_timer-SetTo_old :
    (t : Timer) (ts : List Timer) (a : Option ℕ)
    → earliest t ts ≡ false
    → SetTo ts a
    → SetTo (push_timer t ts) a
unfolding push_timer earliest
push_timer-SetTo_old t [] a e s = absurd (ground arith)
push_timer-SetTo_old t (u ∷ us) a e s = rw e s

-- `addTimerInLoop` keeps the queue timely: the descriptor is set anew only for a new first timer.
pub add_timer_in_loop-Timely :
    (t : Timer) (q : TimerQueue) → Timely q → Timely (add_timer_in_loop t q)
unfolding add_timer_in_loop insert
add_timer_in_loop-Timely t q (o, s) = elim (Bool-cases (earliest t q.timers)) [
  | inl first ↦ rw first (push_timer-InOrder t q.timers o, push_timer-SetTo_new t q.timers first)
  | inr later ↦
      rw later (push_timer-InOrder t q.timers o, push_timer-SetTo_old t q.timers q.armed later s)
]

add-InOrder :
    (t : Timer) (q : TimerQueue) → InOrder q.timers → InOrder (add_timer_in_loop t q).timers
unfolding add_timer_in_loop insert
add-InOrder t q o = elim (Bool-cases (earliest t q.timers)) [
  | inl first ↦ rw first (push_timer-InOrder t q.timers o)
  | inr later ↦ rw later (push_timer-InOrder t q.timers o)
]

invalidate-InOrder :
    (j : ℕ) (q : TimerQueue) → InOrder q.timers → InOrder (invalidate_timer j q).timers
unfolding invalidate_timer
invalidate-InOrder j q o = o

pub Acts-InOrder : (k : ℕ) {q q' : TimerQueue} → InOrder q.timers → Acts k q q' → InOrder q'.timers
Acts-InOrder k o (rests q) = o
Acts-InOrder k {q} o (adds t ne rest) = Acts-InOrder k (add-InOrder t q o) rest
Acts-InOrder k {q} o (cancels j rest) = Acts-InOrder k (invalidate-InOrder j q o) rest

-- The timers that are due come first, and the others are what waits.
pub record Splits (now : ℕ) (ts : List Timer) (r : List Timer × List Timer) : Type 0 where
  pub all : r.0 ++ r.1 ≡ ts
  pub due : AllBefore now r.0
  pub waiting : AllFrom now r.1
  pub order : InOrder r.1

pub take_expired-Splits :
    (now : ℕ) (ts : List Timer) → InOrder ts → Splits now ts (take_expired now ts)
unfolding take_expired
take_expired-Splits now [] o = record { all = refl; due = tt; waiting = tt; order = tt }
take_expired-Splits now (t ∷ ts) (a, o) =
    let r = take_expired-Splits now ts o in
    elim (Bool-cases (ltb t.when now)) [
      | inl due ↦ rw due (record {
        all = ap (◌∷◌ t) r.all;
        due = (ground arith, r.due);
        waiting = r.waiting;
        order = r.order;
      })
      | inr waits ↦ rw waits (record {
        all = refl;
        due = tt;
        waiting = (ground arith, AllFrom-weaken now t.when ts (ground arith) a);
        order = (a, o);
      })
    ]
