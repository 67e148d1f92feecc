-- ===== src/EpollPoller/Remove.antt =====
-- A channel leaves the poller, and a channel that disables its events twice.
use trantor.Prelude.{
  same_or_not, ℕ, ◌≡◌, inl, inr, refl, sym, ap, subst, ◌∙◌, true, false, Option, some, none, update,
  update_same, update_other, arith,
}
use trantor.EpollPoller.{
  k_new, k_added, k_deleted, Operation, ctl_add, ctl_del, EpollPoller, none_events, control,
  register, update_channel, remove_channel, set_events,
}
use trantor.EpollPoller.Laws.{Epoll, Known, unknown, watched, muted, Known-keep, Keeps, Serves}

module _ {K : Type 0} (epoll_ctl : Operation → ℕ → ℕ → K → K) (watches : K → ℕ → Option ℕ)
    (epoll : Epoll epoll_ctl watches) (fd : ℕ) (p : EpollPoller K) where
  -- A channel that waits for nothing and is removed.
  removed :
      Known epoll_ctl watches p fd
      → p.channels fd ≡ true
      → p.events fd ≡ 0
      → Keeps epoll_ctl watches
          (λ q. Known epoll_ctl watches q fd)
          fd
          p
          (remove_channel epoll_ctl fd p)
  unfolding remove_channel register control
  removed (unknown i c w) known none_left = absurd (ground arith)
  removed (watched i c w) known none_left =
      let q =
        register epoll_ctl ctl_del k_new fd (record p { channels = update p.channels fd false }) in
      let off : none_events (p.events fd) ≡ true = ground arith in
      record {
        out = q;
        returns = rw (remove_channel, c, off, i) refl;
        here =
            unknown (update_same p.index fd k_new) (update_same p.channels fd false)
              (epoll.deletes fd (p.events fd) (p.events fd) p.kernel w);
        mask = λ g. refl;
        there = λ g other.
            Known-keep epoll_ctl watches p q g
              (update_other p.index fd k_new g (λ e. other (sym e)))
              (update_other p.channels fd false g (λ e. other (sym e)))
              (epoll.others ctl_del fd (p.events fd) g p.kernel other) refl;
      }
  removed (muted i c w z) known none_left =
      let q : EpollPoller K = record p {
        channels = update p.channels fd false;
        index = update p.index fd k_new;
      } in
      let off : none_events (p.events fd) ≡ true = ground arith in
      record {
        out = q;
        returns = rw (remove_channel, c, off, i) refl;
        here = unknown (update_same p.index fd k_new) (update_same p.channels fd false) w;
        mask = λ g. refl;
        there = λ g other.
            Known-keep epoll_ctl watches p q g
              (update_other p.index fd k_new g (λ e. other (sym e)))
              (update_other p.channels fd false g (λ e. other (sym e))) refl refl;
      }

  -- A channel that waits for nothing and is known to the poller can be removed, and behind the call
  -- epoll watches neither it nor any channel but the added ones.
  pub remove_channel-Serves :
      ((g : ℕ) → Known epoll_ctl watches p g)
      → p.channels fd ≡ true
      → p.events fd ≡ 0
      → Serves epoll_ctl watches p (remove_channel epoll_ctl fd p)
  remove_channel-Serves known there none_left =
      let k = removed (known fd) there none_left in
      record {
        out = k.out;
        returns = k.returns;
        known = λ g. elim (same_or_not g fd) [
          | inl it ↦ subst (Known epoll_ctl watches k.out) (sym it) k.here
          | inr other ↦ k.there g other (known g)
        ];
      }

  -- A channel that epoll does not watch since it waits for nothing, and that disables all its events
  -- once more, is watched again, with an empty mask: epoll reports hangups and errors for it.
  pub set_events_twice :
      p.index fd ≡ k_deleted
      → p.channels fd ≡ true
      → watches p.kernel fd ≡ none
      → (q : EpollPoller K) × (set_events epoll_ctl fd 0 p ≡ some q)
        × (watches q.kernel fd ≡ some 0)
  unfolding set_events update_channel register control
  set_events_twice i c w =
      let d : EpollPoller K = record p { events = update p.events fd 0 } in
      (
        register epoll_ctl ctl_add k_added fd d,
        rw (update_channel, i, c) refl,
        epoll.adds fd (update p.events fd 0 fd) p.kernel w ∙ ap some (update_same p.events fd 0),
      )
