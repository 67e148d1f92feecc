-- ===== src/TimerQueue/Cancel.antt =====
-- A timer whose id has left the set never runs again.
use trantor.Prelude.{
  ℕ, ◌+◌, ◌≡◌, ◌≢◌, refl, ap, ◌∙◌, true, false, List, [], ◌∷◌, ◌++◌, if◌then◌else◌, ◌==◌, arith,
  inl, inr, Bool-cases,
}
use trantor.TimerQueue.{
  Timer, TimerQueue, has_id, insert_id, erase_id, insert, add_timer_in_loop, invalidate_timer,
  take_expired, get_expired, reset_one, reset_all, arm, reset, run_timer, run_all, handle_read,
}

-- How often a timer has run.
abbrev pub count_id : ℕ → List ℕ → ℕ
count_id k [] = 0
count_id k (x ∷ xs) = (if k == x then 1 else 0) + count_id k xs

abbrev pub runs : ℕ → TimerQueue → ℕ
runs k q = count_id k q.fired

-- What a callback can do, without a new timer that has the id `k`: the ids come from a counter.
pub data Acts (k : ℕ) : TimerQueue → TimerQueue → Type 0 where
  rests : (q : TimerQueue) → Acts k q q
  adds :
      {q q' : TimerQueue} (t : Timer) → t.id ≢ k → Acts k (add_timer_in_loop t q) q' → Acts k q q'
  cancels : {q q' : TimerQueue} (j : ℕ) → Acts k (invalidate_timer j q) q' → Acts k q q'

-- The id is not in the set, and no run of it was added.
pub record Silent (k : ℕ) (q q' : TimerQueue) : Type 0 where
  pub gone : has_id k q'.timer_id_set ≡ false
  pub no_runs : runs k q' ≡ runs k q

Silent-trans : {k : ℕ} {p q r : TimerQueue} → Silent k p q → Silent k q r → Silent k p r
Silent-trans a b = record { gone = b.gone; no_runs = b.no_runs ∙ a.no_runs }

has_id-erase_id_self : (k : ℕ) (xs : List ℕ) → has_id k (erase_id k xs) ≡ false
unfolding has_id erase_id
has_id-erase_id_self k [] = refl
has_id-erase_id_self k (x ∷ xs) = ground (arith, has_id-erase_id_self k xs)

has_id-erase_id : (k j : ℕ) (xs : List ℕ) → has_id k xs ≡ false → has_id k (erase_id j xs) ≡ false
unfolding has_id erase_id
has_id-erase_id k j [] e = refl
has_id-erase_id k j (x ∷ xs) e = elim (Bool-cases (has_id k xs)) [
  | inl there ↦ ground arith
  | inr absent ↦ (let ih = has_id-erase_id k j xs absent in ground arith)
]

has_id-insert_id :
    (k j : ℕ) (xs : List ℕ) → j ≢ k → has_id k xs ≡ false → has_id k (insert_id j xs) ≡ false
unfolding has_id insert_id
has_id-insert_id k j xs ne e = ground arith

module _ (k : ℕ) where
  add-Silent :
      (t : Timer) (q : TimerQueue)
      → t.id ≢ k
      → has_id k q.timer_id_set ≡ false
      → Silent k q (add_timer_in_loop t q)
  unfolding add_timer_in_loop insert
  add-Silent t q ne e =
      let kept = has_id-insert_id k t.id q.timer_id_set ne e in
      record { gone = ground arith; no_runs = ground arith }

  invalidate-Silent :
      (j : ℕ) (q : TimerQueue) → has_id k q.timer_id_set ≡ false → Silent k q (invalidate_timer j q)
  unfolding invalidate_timer
  invalidate-Silent j q e = record { gone = has_id-erase_id k j q.timer_id_set e; no_runs = refl }

  pub Acts-Silent :
      {q q' : TimerQueue} → has_id k q.timer_id_set ≡ false → Acts k q q' → Silent k q q'
  Acts-Silent e (rests q) = record { gone = e; no_runs = refl }
  Acts-Silent {q} e (adds t ne rest) =
      let s = add-Silent t q ne e in Silent-trans s (Acts-Silent s.gone rest)
  Acts-Silent {q} e (cancels j rest) =
      let s = invalidate-Silent j q e in Silent-trans s (Acts-Silent s.gone rest)

  module _ (run : ℕ → TimerQueue → TimerQueue)
      (acts : (j : ℕ) (q : TimerQueue) → Acts k q (run j q)) where
    count_other :
        (xs : List ℕ) (j : ℕ) → (k == j) ≡ false → count_id k (xs ++ (j ∷ [])) ≡ count_id k xs
    count_other [] j e = rw e refl
    count_other (x ∷ xs) j e = ap (λ m. (if k == x then 1 else 0) + m) (count_other xs j e)

    has_other : (xs : List ℕ) (j : ℕ) → has_id k xs ≡ false → has_id j xs ≡ true → (k == j) ≡ false
    has_other xs j e f = elim (Bool-cases (k == j)) [
      | inl same ↦ (let eq : k ≡ j = ground arith in cc)
      | inr other ↦ other
    ]

    -- A timer whose id is in the set is another one.
    run_timer-Silent :
        (t : Timer) (q : TimerQueue)
        → has_id k q.timer_id_set ≡ false
        → has_id t.id q.timer_id_set ≡ true
        → Silent k q (run_timer run t q)
    unfolding run_timer
    run_timer-Silent t q e f =
        let started = record q { fired = q.fired ++ (t.id ∷ []) } in
        let s = Acts-Silent e (acts t.id started) in
        record {
          gone = s.gone;
          no_runs = s.no_runs ∙ count_other q.fired t.id (has_other q.timer_id_set t.id e f);
        }

    run_all-Silent :
        (ts : List Timer) (q : TimerQueue)
        → has_id k q.timer_id_set ≡ false
        → Silent k q (run_all run ts q)
    unfolding run_all
    run_all-Silent [] q e = record { gone = e; no_runs = refl }
    run_all-Silent (t ∷ ts) q e = elim (Bool-cases (has_id t.id q.timer_id_set)) [
      | inl there ↦
          let s = run_timer-Silent t q e there in
          rw there (Silent-trans s (run_all-Silent ts (run_timer run t q) s.gone))
      | inr absent ↦ rw absent (run_all-Silent ts q e)
    ]

    reset_one-Silent :
        (now : ℕ) (t : Timer) (q : TimerQueue)
        → has_id k q.timer_id_set ≡ false
        → Silent k q (reset_one now t q)
    unfolding reset_one insert
    reset_one-Silent now t q e =
        let kept = has_id-erase_id k t.id q.timer_id_set e in
        record { gone = ground arith; no_runs = ground arith }

    reset_all-Silent :
        (now : ℕ) (ts : List Timer) (q : TimerQueue)
        → has_id k q.timer_id_set ≡ false
        → Silent k q (reset_all now ts q)
    unfolding reset_all
    reset_all-Silent now [] q e = record { gone = e; no_runs = refl }
    reset_all-Silent now (t ∷ ts) q e =
        let s = reset_one-Silent now t q e in
        Silent-trans s (reset_all-Silent now ts (reset_one now t q) s.gone)

    arm-Silent : (q : TimerQueue) → has_id k q.timer_id_set ≡ false → Silent k q (arm q)
    unfolding arm
    arm-Silent q e = record { gone = ground arith; no_runs = ground arith }

    reset-Silent :
        (now : ℕ) (ts : List Timer) (q : TimerQueue)
        → has_id k q.timer_id_set ≡ false
        → Silent k q (reset now ts q)
    unfolding reset
    reset-Silent now ts q e =
        let s = reset_all-Silent now ts q e in
        Silent-trans s (arm-Silent (reset_all now ts q) s.gone)

    pub handle_read-Silent :
        (now : ℕ) (q : TimerQueue)
        → has_id k q.timer_id_set ≡ false
        → Silent k q (handle_read run now q)
    unfolding handle_read get_expired
    handle_read-Silent now q e =
        let (expired, rest) = take_expired now q.timers in
        let s =
          run_all-Silent expired (record q { timers = rest; calling_expired_timers = true }) e in
        let r =
          reset-Silent now expired
            (record (run_all run expired
              (record q { timers = rest; calling_expired_timers = true })) {
                calling_expired_timers = false;
              })
            s.gone in
        record { gone = r.gone; no_runs = r.no_runs ∙ s.no_runs }

-- The life of a queue: what its loop does in any order. The new timers do not have the id `k`.
pub data Steps (run : ℕ → TimerQueue → TimerQueue) (k : ℕ) : TimerQueue → TimerQueue → Type 0 where
  stop : (q : TimerQueue) → Steps run k q q
  add :
      {q q' : TimerQueue} (t : Timer)
      → t.id ≢ k
      → Steps run k (add_timer_in_loop t q) q'
      → Steps run k q q'
  invalidate :
      {q q' : TimerQueue} (j : ℕ) → Steps run k (invalidate_timer j q) q' → Steps run k q q'
  expire : {q q' : TimerQueue} (now : ℕ) → Steps run k (handle_read run now q) q' → Steps run k q q'

Steps-Silent :
    (run : ℕ → TimerQueue → TimerQueue) (k : ℕ) {q q' : TimerQueue}
    → ((j : ℕ) (p : TimerQueue) → Acts k p (run j p))
    → has_id k q.timer_id_set ≡ false
    → Steps run k q q'
    → Silent k q q'
Steps-Silent run k acts e (stop q) = record { gone = e; no_runs = refl }
Steps-Silent run k {q} acts e (add t ne rest) =
    let s = add-Silent k t q ne e in Silent-trans s (Steps-Silent run k acts s.gone rest)
Steps-Silent run k {q} acts e (invalidate j rest) =
    let s = invalidate-Silent k j q e in Silent-trans s (Steps-Silent run k acts s.gone rest)
Steps-Silent run k {q} acts e (expire now rest) =
    let s = handle_read-Silent k run acts now q e in
    Silent-trans s (Steps-Silent run k acts s.gone rest)

-- A timer that was invalidated does not run again, whatever timers are added, invalidated or run
-- later, in whatever order, and whatever the callbacks do; the ids of new timers are fresh.
pub invalidate_timer-Silent :
    (run : ℕ → TimerQueue → TimerQueue) (k : ℕ) (q : TimerQueue) {q' : TimerQueue}
    → ((j : ℕ) (p : TimerQueue) → Acts k p (run j p))
    → Steps run k (invalidate_timer k q) q'
    → runs k q' ≡ runs k q
unfolding invalidate_timer
invalidate_timer-Silent run k q acts steps =
    (Steps-Silent run k acts (has_id-erase_id_self k q.timer_id_set) steps).no_runs
