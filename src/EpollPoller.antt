-- ===== src/EpollPoller.antt =====
-- net/inner/poller/EpollPoller.cc: which channels the poller knows, and what it tells epoll. A channel
-- is its descriptor; its events are a mask, 0 for none. The kernel's side is a parameter: its state
-- `K`, and what `epoll_ctl` makes of it; the code does not look at the answer. That the map has this
-- very channel for the descriptor, which the code asserts, is not modelled.
pub mod Laws
pub mod Remove
mod Tests
use trantor.Prelude.{
  ℕ, Bool, true, false, not, ◌&&◌, Option, some, none, ◌>>=◌, ◌>>◌, assert, if◌then◌else◌, ◌==◌,
  update,
}

-- `kNew`, `kAdded`, `kDeleted`
pub data Index : Type 0 where
  k_new k_added k_deleted : Index

-- `EPOLL_CTL_ADD`, `EPOLL_CTL_MOD`, `EPOLL_CTL_DEL`
pub data Operation : Type 0 where
  ctl_add ctl_mod ctl_del : Operation

-- The poller's map, and of each channel its `index_` and its `events_`.
pub record EpollPoller (K : Type 0) : Type 0 where
  pub channels : ℕ → Bool
  pub index : ℕ → Index
  pub events : ℕ → ℕ
  pub kernel : K

-- `Channel::isNoneEvent`
abbrev pub none_events : ℕ → Bool
none_events mask = mask == 0

module _ {K : Type 0} (epoll_ctl : Operation → ℕ → ℕ → K → K) where
  -- `EpollPoller::update`
  unfoldable pub control : Operation → ℕ → EpollPoller K → EpollPoller K
  control op fd p = record p { kernel = epoll_ctl op fd (p.events fd) p.kernel }

  -- The channel of `fd` gets the index and `op` is told to epoll.
  unfoldable pub register : Operation → Index → ℕ → EpollPoller K → EpollPoller K
  register op i fd p = control op fd (record p { index = update p.index fd i })

  unfoldable pub update_channel : ℕ → EpollPoller K → Option (EpollPoller K)
  update_channel fd p = elim (p.index fd) [
    | k_new ↦
        assert (not (p.channels fd))
        >> some (register ctl_add k_added fd (record p { channels = update p.channels fd true }))
    | k_deleted ↦ assert (p.channels fd) >> some (register ctl_add k_added fd p)
    | k_added ↦
        assert (p.channels fd)
        >> some (
            if none_events (p.events fd)
            then register ctl_del k_deleted fd p
            else control ctl_mod fd p)
  ]

  unfoldable pub remove_channel : ℕ → EpollPoller K → Option (EpollPoller K)
  remove_channel fd p =
      assert (p.channels fd) >> assert (none_events (p.events fd)) >> elim (p.index fd) [
        | k_new ↦ none
        | k_added ↦
            some (register ctl_del k_new fd (record p { channels = update p.channels fd false }))
        | k_deleted ↦
            some
              (record p { channels = update p.channels fd false; index = update p.index fd k_new })
      ]

  -- A call of `enableReading` and its like: the channel gets the mask, and tells its poller.
  unfoldable pub set_events : ℕ → ℕ → EpollPoller K → Option (EpollPoller K)
  set_events fd mask p = update_channel fd (record p { events = update p.events fd mask })
