-- ===== src/TimingWheel/Release.antt =====
-- A tick lets go what is due, and nothing else.
use trantor.Prelude.{ℕ, zero, suc, ◌+◌, ◌^◌, ◌≤◌, ◌<◌, ◌≡◌, inl, inr, refl, sym, subst, arith}
use trantor.TimingWheel.{TimingWheel, tick, insert_entry_inloop}
use trantor.TimingWheel.Counts.{count}
use trantor.TimingWheel.Buckets.{In}
use trantor.TimingWheel.Agenda.{On, Shaped}
use trantor.TimingWheel.Tick.{agenda_ahead}
use trantor.TimingWheel.Insert.{insert_entry_inloop-Adds}
use trantor.TimingWheel.Round.{Agenda, Ticks, tick-first, last-Ticks}

module _ (n : ℕ) (more : 0 < n) where
  -- A tick lets go every entry that is due at it, and no other one.
  pub tick-Ticks :
      (wheels_num : ℕ) (w : TimingWheel)
      → Shaped n w.wheels
      → 0 < wheels_num
      → Ticks n wheels_num w (tick n wheels_num w)
  tick-Ticks zero w s h = absurd (omega arith)
  tick-Ticks (suc left) w s h =
      subst (Ticks n (suc left) w) (sym (tick-first n more left w s)) (last-Ticks n more left w s)

  module _ (wheels_num : ℕ) (some_wheels : 0 < wheels_num) where
    -- So many ticks.
    abbrev pub ticks : ℕ → TimingWheel → TimingWheel
    ticks zero w = w
    ticks (suc m) w = ticks m (tick n wheels_num w)

    ticks-gone :
        (m t k : ℕ) (w : TimingWheel)
        → Shaped n w.wheels
        → In (t, k) w.gone
        → In (t, k) (ticks m w).gone
    ticks-gone zero t k w s h = h
    ticks-gone (suc m) t k w s h =
        let r = tick-Ticks wheels_num w s some_wheels in
        let (_, back) = r.gone t k in ticks-gone m t k (tick n wheels_num w) r.shaped (back (inl h))

    Agenda-gone :
        (m k c : ℕ) (w : TimingWheel)
        → Shaped n w.wheels
        → Agenda n wheels_num w k c
        → w.ticks_counter + m ≡ c
        → In (c, k) (ticks m w).gone
    Agenda-gone zero k c w s o e =
        absurd
          (let b = agenda_ahead n wheels_num more w.ticks_counter k c w.wheels s o in omega arith)
    Agenda-gone (suc zero) k c w s o e =
        let r = tick-Ticks wheels_num w s some_wheels in
        let (_, back) = r.gone c k in
        let z : c ≡ suc w.ticks_counter = omega arith in
        back (inr (z, subst (Agenda n wheels_num w k) z o))
    Agenda-gone (suc (suc m)) k c w s o e =
        let r = tick-Ticks wheels_num w s some_wheels in
        let (_, back) = r.kept k c in
        let at = r.counter in
        Agenda-gone (suc m) k c (tick n wheels_num w) r.shaped (back (o, λ z. absurd (omega arith)))
          (omega arith)

    -- An entry is let go after exactly as many ticks as its delay says, whatever wheels it passes.
    pub insert_entry_inloop-gone :
        (delay k : ℕ) (w : TimingWheel)
        → Shaped n w.wheels
        → 0 < delay
        → delay ≤ n ^ wheels_num
        → In
            (w.ticks_counter + delay, k)
            (ticks delay (insert_entry_inloop n wheels_num delay k w)).gone
    insert_entry_inloop-gone delay k w s pos small =
        let a = insert_entry_inloop-Adds n wheels_num more delay k w s some_wheels pos small in
        let w' = insert_entry_inloop n wheels_num delay k w in
        let c = w.ticks_counter + delay in
        let (_, back) = a.agenda k c in
        let o : Agenda n wheels_num w' k c =
          subst (λ t. On n wheels_num (λ p. count n p t) w'.wheels k c) (sym a.same_ticks)
            (back (inr (refl, refl))) in
        let at = a.same_ticks in Agenda-gone delay k c w' a.shaped o (omega arith)
