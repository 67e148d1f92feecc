-- ===== src/EpollPoller/Tests.antt =====
-- A kernel that keeps to the manual, and the theorems at a poller that knows nobody.
use trantor.Prelude.{
  ℕ, ◌≡◌, ◌≢◌, refl, sym, subst, true, false, Option, some, none, update, update_same, update_other,
}
use trantor.EpollPoller.{
  Operation, ctl_add, ctl_mod, ctl_del, k_new, k_deleted, EpollPoller, set_events,
}
use trantor.EpollPoller.Laws.{Epoll, unknown, Changes, set_events-Changes}
use trantor.EpollPoller.Remove.{set_events_twice}

abbrev Interest : Type 0
Interest = ℕ → Option ℕ

-- The second list if the descriptor is there.
abbrev choose : Option ℕ → Interest → Interest → Interest
choose none absent present = absent
choose (some mask) absent present = present

-- The interest list of the kernel.
abbrev epoll_ctl : Operation → ℕ → ℕ → Interest → Interest
epoll_ctl ctl_add fd mask k = choose (k fd) (update k fd (some mask)) k
epoll_ctl ctl_mod fd mask k = choose (k fd) k (update k fd (some mask))
epoll_ctl ctl_del fd mask k = update k fd none

abbrev watches : Interest → ℕ → Option ℕ
watches k fd = k fd

chosen :
    (o : Option ℕ) (a b : Interest) (g : ℕ) (r : Option ℕ) → a g ≡ r → b g ≡ r → choose o a b g ≡ r
chosen none a b g r x y = x
chosen (some m) a b g r x y = y

unwatched :
    (op : Operation) (fd mask g : ℕ) (k : Interest) → g ≢ fd → epoll_ctl op fd mask k g ≡ k g
unwatched ctl_add fd mask g k other =
    chosen (k fd) _ _ g _ (update_other k fd (some mask) g (λ e. other (sym e))) refl
unwatched ctl_mod fd mask g k other =
    chosen (k fd) _ _ g _ refl (update_other k fd (some mask) g (λ e. other (sym e)))
unwatched ctl_del fd mask g k other = update_other k fd none g (λ e. other (sym e))

kernel-Epoll : Epoll epoll_ctl watches
kernel-Epoll = record {
  adds = λ fd mask k e.
      subst (λ o. choose o (update k fd (some mask)) k fd ≡ some mask) (sym e)
        (update_same k fd (some mask));
  modifies = λ fd mask old k e.
      subst (λ o. choose o k (update k fd (some mask)) fd ≡ some mask) (sym e)
        (update_same k fd (some mask));
  deletes = λ fd mask old k e. update_same k fd none;
  others = unwatched;
}

abbrev nobody : EpollPoller (ℕ → Option ℕ)
nobody = record {
  channels = λ fd. false;
  index = λ fd. k_new;
  events = λ fd. 0;
  kernel = λ fd. none;
}

set_events-Changes_example : Changes epoll_ctl watches 5 1 nobody (set_events epoll_ctl 5 1 nobody)
set_events-Changes_example =
    set_events-Changes epoll_ctl watches 5 1 nobody kernel-Epoll (λ g. unknown refl refl refl)

-- A channel that was deleted.
abbrev deleted : EpollPoller (ℕ → Option ℕ)
deleted = record nobody { channels = λ fd. true; index = λ fd. k_deleted }

watched_again :
    (q : EpollPoller (ℕ → Option ℕ)) × (set_events epoll_ctl 5 0 deleted ≡ some q)
    × (q.kernel 5 ≡ some 0)
watched_again = set_events_twice epoll_ctl watches kernel-Epoll 5 deleted refl refl refl
