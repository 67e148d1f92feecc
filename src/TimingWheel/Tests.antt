-- ===== src/TimingWheel/Tests.antt =====
-- Two wheels of three buckets.
use trantor.Prelude.{◌+◌, ◌*◌, ◌≡◌, refl, some, [], ◌∷◌, arith}
use trantor.TimingWheel.{
  insert_at, destroy_all, turn_wheel, tick_loop, tick, insert_loop, insert_entry_inloop,
  grow_wheels, wheels_for, new_wheel,
}
use trantor.TimingWheel.Counts.{count}
use trantor.TimingWheel.Buckets.{In}
use trantor.TimingWheel.Agenda.{Shaped}
use trantor.TimingWheel.Insert.{Adds, insert_entry_inloop-Adds}
use trantor.TimingWheel.Round.{Ticks}
use trantor.TimingWheel.Release.{tick-Ticks, ticks, insert_entry_inloop-gone}
use trantor.TimingWheel.Size.{Enough, wheels_for-Enough, new_wheel-Shaped}

-- An entry with a delay of 8 ticks, put in at tick 0, passes the second wheel and is gone at tick 8.
eight_ticks :
    (ticks 3 (omega arith) 2 (omega arith) 8 (insert_entry_inloop 3 2 8 7 (new_wheel 3))).gone
    ≡ (8, 7) ∷ []
unfolding new_wheel insert_entry_inloop insert_loop insert_at tick tick_loop turn_wheel destroy_all
eight_ticks = refl

wheels_example : wheels_for 100 (100 * 100 + 1) ≡ some 3
unfolding wheels_for grow_wheels
wheels_example = refl

new_wheel_3 : Shaped 3 (new_wheel 3).wheels
new_wheel_3 = new_wheel-Shaped 3

insert_entry_inloop-Adds_example :
    Adds 3 2
      (λ p. count 3 p (new_wheel 3).ticks_counter)
      7
      ((new_wheel 3).ticks_counter + 8)
      (new_wheel 3)
      (insert_entry_inloop 3 2 8 7 (new_wheel 3))
insert_entry_inloop-Adds_example =
    insert_entry_inloop-Adds 3 2 (omega arith) 8 7 (new_wheel 3) new_wheel_3 (omega arith)
      (omega arith) (omega arith)

tick-Ticks_example : Ticks 3 2 (new_wheel 3) (tick 3 2 (new_wheel 3))
tick-Ticks_example = tick-Ticks 3 (omega arith) 2 (new_wheel 3) new_wheel_3 (omega arith)

insert_entry_inloop-gone_example :
    In
      ((new_wheel 3).ticks_counter + 8, 7)
      (ticks 3 (omega arith) 2 (omega arith) 8 (insert_entry_inloop 3 2 8 7 (new_wheel 3))).gone
insert_entry_inloop-gone_example =
    insert_entry_inloop-gone 3 (omega arith) 2 (omega arith) 8 7 (new_wheel 3) new_wheel_3
      (omega arith) (omega arith)

wheels_for-Enough_example : Enough 100 10001 (wheels_for 100 10001)
wheels_for-Enough_example = wheels_for-Enough 100 10001 (omega arith) (omega arith) (omega arith)
