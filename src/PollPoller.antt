-- ===== src/PollPoller.antt =====
-- net/inner/poller/PollPoller.cc: the array for poll(2), and where each channel stands in it. A channel
-- is its descriptor; its events are a mask, 0 for none. An entry that is not watched has the number
-- - fd - 1 in place of the descriptor. `none` stands for a failed assertion or an index out of range.
-- That the map has this very channel for the descriptor, which the code asserts, is not modelled.
pub mod Slots
pub mod Laws
pub mod Removal
mod Tests
use trantor.Prelude.{
  ℕ, zero, suc, ◌-◌, Bool, true, false, not, ◌&&◌, Option, some, none, List, [], ◌∷◌, ◌++◌, ◌>>=◌,
  ◌>>◌, assert, if◌then◌else◌, ◌==◌, update, length, get_elem?,
}

pub record Pollfd : Type 0 where
  pub fd : ℕ
  pub watched : Bool
  pub events : ℕ

-- `pollfds_` and `channels_`, and of each channel its `index_`, `none` below 0, and its `events_`.
pub record PollPoller : Type 0 where
  pub pollfds : List Pollfd
  pub channels : ℕ → Bool
  pub index : ℕ → Option ℕ
  pub events : ℕ → ℕ

module _ {A : Type 0} where
  -- `pollfds_[idx] = a`, and `pop_back`.
  unfoldable pub set_at : ℕ → A → List A → List A
  set_at i a [] = []
  set_at zero a (x ∷ xs) = a ∷ xs
  set_at (suc i) a (x ∷ xs) = x ∷ set_at i a xs

  unfoldable pub pop_back : List A → List A
  pop_back [] = []
  pop_back (x ∷ []) = []
  pop_back (x ∷ y ∷ xs) = x ∷ pop_back (y ∷ xs)

-- The two branches of `updateChannel`: a new entry, and a change of the one at `idx`.
abbrev pub new_entry : ℕ → PollPoller → PollPoller
new_entry fd p = record p {
  pollfds = p.pollfds ++ (record { fd = fd; watched = true; events = p.events fd } ∷ []);
  index = update p.index fd (some (length p.pollfds));
  channels = update p.channels fd true;
}

abbrev pub changed_entry : ℕ → ℕ → PollPoller → PollPoller
changed_entry fd idx p = record p {
  pollfds =
      set_at idx (record { fd = fd; watched = not (p.events fd == 0); events = p.events fd })
        p.pollfds;
}

unfoldable pub update_channel : ℕ → PollPoller → Option PollPoller
update_channel fd p = elim (p.index fd) [
  | none ↦ assert (not (p.channels fd)) >> some (new_entry fd p)
  | some idx ↦
      assert (p.channels fd)
      >> (get_elem? p.pollfds idx >>= λ pfd. assert (pfd.fd == fd) >> some (changed_entry fd idx p))
]

-- The end of `removeChannel`: the last entry takes the place at `idx`.
unfoldable pub remove_at : ℕ → PollPoller → Option PollPoller
remove_at idx p =
    if idx == length p.pollfds - 1
    then some (record p { pollfds = pop_back p.pollfds })
    else (get_elem? p.pollfds (length p.pollfds - 1) >>= λ last. some (record p {
      pollfds = pop_back (set_at idx last p.pollfds);
      index = update p.index (last.fd) (some idx);
    }))

unfoldable pub remove_channel : ℕ → PollPoller → Option PollPoller
remove_channel fd p =
    assert (p.channels fd)
    >> assert (p.events fd == 0)
    >> (p.index fd >>= λ idx. get_elem? p.pollfds idx >>= λ pfd.
        assert ((pfd.fd == fd) && (not (pfd.watched) && (pfd.events == p.events fd)))
        >> remove_at idx (record p { channels = update p.channels fd false }))

-- A call of `enableReading` and its like: the channel gets the mask, and tells its poller.
unfoldable pub set_events : ℕ → ℕ → PollPoller → Option PollPoller
set_events fd mask p = update_channel fd (record p { events = update p.events fd mask })
