-- ===== src/TimerQueue/Due.antt =====
-- `handleRead`: which timers run.
use trantor.Prelude.{
  ℕ, ◌≡◌, refl, sym, ap, subst, ◌∙◌, Bool, true, false, ◌&&◌, List, [], ◌∷◌, ◌++◌, if◌then◌else◌,
  arith, ltb, inl, inr, append-nil, append_assoc, Bool-cases,
}
use trantor.TimerQueue.{
  Timer, TimerQueue, has_id, take_expired, get_expired, run_timer, run_all, handle_read,
}
use trantor.TimerQueue.Expire.{reset-Timely, reset-AllFrom, reset-fired}
use trantor.TimerQueue.Sorted.{AllFrom, AllBefore, InOrder, Timely, take_expired-Splits}

-- The ids of those timers that were not invalidated.
abbrev live_ids : List ℕ → List Timer → List ℕ
live_ids set [] = []
live_ids set (t ∷ ts) = let rest = live_ids set ts in if has_id t.id set then t.id ∷ rest else rest

-- The ids, in the order of the queue, of all timers that are due at `now` and not invalidated.
abbrev pub due_ids : ℕ → List ℕ → List Timer → List ℕ
due_ids now set [] = []
due_ids now set (t ∷ ts) =
    let rest = due_ids now set ts in if ltb t.when now && has_id t.id set then t.id ∷ rest else rest

due_ids-before :
    (now : ℕ) (set : List ℕ) (ts us : List Timer)
    → AllBefore now ts
    → due_ids now set (ts ++ us) ≡ live_ids set ts ++ due_ids now set us
due_ids-before now set [] us b = refl
due_ids-before now set (t ∷ ts) us (due, b) =
    let e : ltb t.when now ≡ true = ground arith in
    elim (Bool-cases (has_id t.id set)) [
      | inl live ↦ rw (e, live) (ap (λ r. t.id ∷ r) (due_ids-before now set ts us b))
      | inr cancelled ↦ rw (e, cancelled) (due_ids-before now set ts us b)
    ]

due_ids-from : (now : ℕ) (set : List ℕ) (ts : List Timer) → AllFrom now ts → due_ids now set ts ≡ []
due_ids-from now set [] a = refl
due_ids-from now set (t ∷ ts) (waits, a) =
    let e : ltb t.when now ≡ false = ground arith in rw e (due_ids-from now set ts a)

-- Of the timers that are taken, those that are not invalidated are all the due ones of the queue.
live_ids-take_expired :
    (now : ℕ) (set : List ℕ) (ts : List Timer)
    → InOrder ts
    → live_ids set (take_expired now ts).0 ≡ due_ids now set ts
live_ids-take_expired now set ts o =
    let s = take_expired-Splits now ts o in
    let r = take_expired now ts in
    sym (append-nil (live_ids set r.0))
    ∙ ap (λ l. live_ids set r.0 ++ l) (sym (due_ids-from now set r.1 s.waiting))
    ∙ sym (due_ids-before now set r.0 r.1 s.due)
    ∙ ap (due_ids now set) s.all

-- What `handleRead` makes of a queue: all that is due ran, and nothing that is due waits.
pub record Fires (now : ℕ) (q q' : TimerQueue) : Type 0 where
  pub ran : q'.fired ≡ q.fired ++ due_ids now q.timer_id_set q.timers
  pub waiting : AllFrom now q'.timers
  pub timely : Timely q'

module _ (run : ℕ → TimerQueue → TimerQueue) (quiet : (j : ℕ) (p : TimerQueue) → run j p ≡ p) where
  run_one :
      (t : Timer) (q : TimerQueue) (b : Bool)
      → (if b then run_timer run t q else q)
        ≡ record q { fired = q.fired ++ (if b then t.id ∷ [] else []) }
  unfolding run_timer
  run_one t q true = quiet t.id _
  run_one t q false = ap (λ l. record q { fired = l }) (sym (append-nil q.fired))

  live-cons :
      (t : Timer) (ts : List Timer) (set : List ℕ) (b : Bool)
      → has_id t.id set ≡ b
      → (if b then t.id ∷ [] else []) ++ live_ids set ts ≡ live_ids set (t ∷ ts)
  live-cons t ts set true e = rw e refl
  live-cons t ts set false e = rw e refl

  run_all-quiet :
      (ts : List Timer) (q : TimerQueue)
      → run_all run ts q ≡ record q { fired = q.fired ++ live_ids q.timer_id_set ts }
  unfolding run_all
  run_all-quiet [] q = ap (λ l. record q { fired = l }) (sym (append-nil q.fired))
  run_all-quiet (t ∷ ts) q =
      ap (run_all run ts) (run_one t q (has_id t.id q.timer_id_set))
      ∙ run_all-quiet ts _
      ∙ ap (λ l. record q { fired = l })
          (append_assoc q.fired _ _ ∙ ap (λ l. q.fired ++ l) (live-cons t ts q.timer_id_set _ refl))

  -- On a queue whose timers are in order, with the descriptor set to the first of them, and with
  -- callbacks that leave the queue alone: `handleRead` runs exactly those of all its timers whose time
  -- is before `now` and which are not invalidated, in the order of the queue, the earliest first;
  -- no timer that waits afterwards is due, and the timers are in order with the descriptor set to the
  -- first of them.
  pub handle_read-Fires :
      (now : ℕ) (q : TimerQueue) → Timely q → Fires now q (handle_read run now q)
  unfolding handle_read get_expired
  handle_read-Fires now q (o, s) =
      let split = take_expired-Splits now q.timers o in
      let expired = (take_expired now q.timers).0 in
      let q1 = record q { timers = (take_expired now q.timers).1; calling_expired_timers = true } in
      let e = run_all-quiet expired q1 in
      record {
        ran =
            reset-fired now expired _
            ∙ ap (λ p. p.fired) e
            ∙ ap (λ l. q.fired ++ l) (live_ids-take_expired now q.timer_id_set q.timers o);
        waiting =
            reset-AllFrom now expired _ (subst (λ p. AllFrom now p.timers) (sym e) split.waiting);
        timely = reset-Timely now expired _ (subst (λ p. InOrder p.timers) (sym e) split.order);
      }
