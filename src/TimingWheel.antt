-- ===== src/TimingWheel.antt =====
-- utils/TimingWheel.h and utils/TimingWheel.cc: entries that are let go when so many ticks have passed.
-- An `EntryPtr` of a user is known by a number; the wheel's own entries hold another one in a closure.
-- A bucket is a set of pointers. An index outside of a deque, which C++ does not define, changes nothing.
pub mod Counts
pub mod Buckets
pub mod Agenda
pub mod Insert
pub mod Turn
pub mod Destroy
pub mod Tick
pub mod Round
pub mod Release
pub mod Size
mod Tests
use trantor.Prelude.{
  ℕ, zero, suc, ◌+◌, ◌-◌, ◌*◌, ◌/◌, ◌%◌, Bool, true, false, Option, some, none, List, [], ◌∷◌, ◌++◌,
  if◌then◌else◌, ltb, leb, ◌==◌, update, add_size, mul_size,
}

-- A pointer of a user, or a `CallbackEntry` with what its closure has caught.
pub data Entry : Type 0 where
  held : ℕ → Entry
  callback : (delay i t : ℕ) → Entry → Entry

-- `wheels_`, by index, `ticksCounter_`, and the pointers of users that were let go, each with its tick.
pub record TimingWheel : Type 0 where
  pub wheels : ℕ → List (List Entry)
  pub ticks_counter : ℕ
  pub gone : List (ℕ × ℕ)

-- Pointers of users are equal when they are the same one; a `CallbackEntry` is made where it is put in.
abbrev pub same_pointer : Entry → Entry → Bool
same_pointer (held k) (held m) = k == m
same_pointer (held k) (callback delay i t e) = false
same_pointer (callback delay i t e) f = false

abbrev pub has_pointer : Entry → List Entry → Bool
has_pointer e [] = false
has_pointer e (f ∷ bucket) = if same_pointer e f then true else has_pointer e bucket

-- `insert` of a set.
abbrev pub insert_pointer : Entry → List Entry → List Entry
insert_pointer e bucket = if has_pointer e bucket then bucket else e ∷ bucket

-- `wheel[j].insert(e)`
unfoldable pub insert_at : ℕ → Entry → List (List Entry) → List (List Entry)
insert_at j e [] = []
insert_at zero e (bucket ∷ buckets) = insert_pointer e bucket ∷ buckets
insert_at (suc j) e (bucket ∷ buckets) = bucket ∷ insert_at j e buckets

abbrev pub front : List (List Entry) → List Entry
front [] = []
front (bucket ∷ buckets) = bucket

-- `pop_front` and `push_back` of an empty bucket.
abbrev pub turn : List (List Entry) → List (List Entry)
turn [] = [] ∷ []
turn (bucket ∷ buckets) = buckets ++ ([] ∷ [])

abbrev pub put : ℕ → ℕ → Entry → TimingWheel → TimingWheel
put i j e w = record w { wheels = update w.wheels i (insert_at j e (w.wheels i)) }

-- The loop of the constructor that counts the wheels, in words of 64 bits; `none` when the fuel is used up.
unfoldable pub grow_wheels :
    (fuel buckets_num_per_wheel max_tick_num wheels_num ticks_num : ℕ) → Option ℕ
grow_wheels zero buckets_num_per_wheel max_tick_num wheels_num ticks_num = none
grow_wheels (suc fuel) buckets_num_per_wheel max_tick_num wheels_num ticks_num =
    let rest =
      grow_wheels fuel buckets_num_per_wheel max_tick_num (add_size wheels_num 1)
        (mul_size ticks_num buckets_num_per_wheel) in
    if ltb ticks_num max_tick_num then rest else some wheels_num

-- 64 rounds, since the number of ticks doubles at least in each.
unfoldable pub wheels_for : (buckets_num_per_wheel max_tick_num : ℕ) → Option ℕ
wheels_for buckets_num_per_wheel max_tick_num =
    grow_wheels 64 buckets_num_per_wheel max_tick_num 1 buckets_num_per_wheel

-- The buckets of a wheel as it is made.
abbrev pub buckets_of : ℕ → List (List Entry)
buckets_of zero = []
buckets_of (suc n) = [] ∷ buckets_of n

unfoldable pub new_wheel : ℕ → TimingWheel
new_wheel buckets_num_per_wheel = record {
  wheels = λ i. buckets_of buckets_num_per_wheel;
  ticks_counter = 0;
  gone = [];
}

module _ (buckets_num_per_wheel wheels_num : ℕ) where
  -- The end of the last pointer to an entry: the destructor of a `CallbackEntry` calls its closure.
  abbrev pub destroy : Entry → TimingWheel → TimingWheel
  destroy (held k) w = record w { gone = (w.ticks_counter, k) ∷ w.gone }
  destroy (callback delay i t e) w =
      if ltb 0 delay
      then put i ((delay + t % buckets_num_per_wheel - 1) % buckets_num_per_wheel) e w
      else w

  -- The end of a bucket.
  unfoldable pub destroy_all : List Entry → TimingWheel → TimingWheel
  destroy_all [] w = w
  destroy_all (e ∷ bucket) w = destroy_all bucket (destroy e w)

  unfoldable pub turn_wheel : ℕ → TimingWheel → TimingWheel
  turn_wheel i w =
      destroy_all (front (w.wheels i)) (record w { wheels = update w.wheels i (turn (w.wheels i)) })

  -- The loop of the timer's function, with `left` wheels to come.
  unfoldable pub tick_loop : (left i pow : ℕ) → TimingWheel → TimingWheel
  tick_loop zero i pow w = w
  tick_loop (suc left) i pow w =
      tick_loop left (suc i) (pow * buckets_num_per_wheel)
        (if w.ticks_counter % pow == 0 then turn_wheel i w else w)

  unfoldable pub tick : TimingWheel → TimingWheel
  tick w = tick_loop wheels_num 0 1 (record w { ticks_counter = suc w.ticks_counter })

  -- The loop of `insertEntryInloop`, with `left` wheels to come.
  unfoldable pub insert_loop : (left i delay t : ℕ) → Entry → TimingWheel → TimingWheel
  insert_loop zero i delay t e w = w
  insert_loop (suc left) i delay t e w =
      let later = (delay + t % buckets_num_per_wheel - 1) / buckets_num_per_wheel in
      let t' = t / buckets_num_per_wheel in
      if leb delay buckets_num_per_wheel
      then put i (delay - 1) e w
      else if ltb 0 left
      then insert_loop left (suc i) later t' (callback delay i t e) w
      else insert_loop left (suc i) later t' e (put i (buckets_num_per_wheel - 1) e w)

  -- `insertEntryInloop`, of a delay in ticks: `delay / ticksInterval_ + 1`, in whole numbers.
  unfoldable pub insert_entry_inloop : ℕ → ℕ → TimingWheel → TimingWheel
  insert_entry_inloop delay k w = insert_loop wheels_num 0 delay w.ticks_counter (held k) w

  -- `insertEntry`, with the number of ticks that its delay gives, and a pointer that is not null.
  unfoldable pub insert_entry : (ℕ → ℕ) → ℕ → ℕ → TimingWheel → TimingWheel
  insert_entry ticks delay k w = if ltb 0 delay then insert_entry_inloop (ticks delay) k w else w
