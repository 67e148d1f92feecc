-- ===== src/EpollPoller/Laws.antt =====
-- What epoll watches, for a kernel that keeps to the manual of epoll_ctl(2).
use trantor.Prelude.{
  same_or_not, ℕ, ◌≡◌, ◌≢◌, ◌⊎◌, inl, inr, refl, sym, ap, subst, ◌∙◌, true, false, Option, some,
  none, update, update_same, update_other, arith, Bool-cases,
}
use trantor.EpollPoller.{
  k_new, k_added, k_deleted, Operation, ctl_add, ctl_mod, ctl_del, EpollPoller, none_events,
  control, register, update_channel, set_events,
}

module _ {K : Type 0} (epoll_ctl : Operation → ℕ → ℕ → K → K) (watches : K → ℕ → Option ℕ) where
  -- A descriptor that is not watched can be added; one that is can be changed and deleted; a call is
  -- about its descriptor only.
  pub record Epoll : Type 0 where
    pub adds :
        (fd mask : ℕ) (k : K)
        → watches k fd ≡ none
        → watches (epoll_ctl ctl_add fd mask k) fd ≡ some mask
    pub modifies :
        (fd mask old : ℕ) (k : K)
        → watches k fd ≡ some old
        → watches (epoll_ctl ctl_mod fd mask k) fd ≡ some mask
    pub deletes :
        (fd mask old : ℕ) (k : K)
        → watches k fd ≡ some old
        → watches (epoll_ctl ctl_del fd mask k) fd ≡ none
    pub others :
        (op : Operation) (fd mask g : ℕ) (k : K)
        → g ≢ fd
        → watches (epoll_ctl op fd mask k) g ≡ watches k g

  -- How a channel stands with the poller and with epoll.
  pub data Known (p : EpollPoller K) (fd : ℕ) : Type 0 where
    unknown : p.index fd ≡ k_new → p.channels fd ≡ false → watches p.kernel fd ≡ none → Known p fd
    watched :
        p.index fd ≡ k_added
        → p.channels fd ≡ true
        → watches p.kernel fd ≡ some (p.events fd)
        → Known p fd
    muted :
        p.index fd ≡ k_deleted
        → p.channels fd ≡ true
        → watches p.kernel fd ≡ none
        → p.events fd ≡ 0
        → Known p fd

  -- What a change of its events makes of a channel: epoll watches it with the mask, or the mask is 0
  -- and epoll does not watch it any more.
  pub data Told (p : EpollPoller K) (fd mask : ℕ) : Type 0 where
    told :
        p.index fd ≡ k_added
        → p.channels fd ≡ true
        → watches p.kernel fd ≡ some mask
        → Told p fd mask
    silenced :
        mask ≡ 0
        → p.index fd ≡ k_deleted
        → p.channels fd ≡ true
        → watches p.kernel fd ≡ none
        → Told p fd mask

  Told-Known : (p : EpollPoller K) (fd : ℕ) → Told p fd (p.events fd) → Known p fd
  Told-Known p fd (told i c w) = watched i c w
  Told-Known p fd (silenced z i c w) = muted i c w z

  pub Known-keep :
      (p q : EpollPoller K) (g : ℕ)
      → q.index g ≡ p.index g
      → q.channels g ≡ p.channels g
      → watches q.kernel g ≡ watches p.kernel g
      → q.events g ≡ p.events g
      → Known p g
      → Known q g
  Known-keep p q g i c k e (unknown x y z) = unknown (i ∙ x) (c ∙ y) (k ∙ z)
  Known-keep p q g i c k e (watched x y z) = watched (i ∙ x) (c ∙ y) (k ∙ z ∙ ap some (sym e))
  Known-keep p q g i c k e (muted x y z w) = muted (i ∙ x) (c ∙ y) (k ∙ z) (e ∙ w)

  -- The state that an operation on `fd` gives, of which `Here` holds for `fd`.
  pub record Keeps (Here : EpollPoller K → Type 0) (fd : ℕ) (p : EpollPoller K)
      (o : Option (EpollPoller K)) : Type 0 where
    pub out : EpollPoller K
    pub returns : o ≡ some out
    pub here : Here out
    pub mask : (g : ℕ) → out.events g ≡ p.events g
    pub there : (g : ℕ) → g ≢ fd → Known p g → Known out g

  module _ (epoll : Epoll) (fd : ℕ) (p : EpollPoller K) where
    -- A channel whose events have just changed.
    update_channel-Keeps :
        (old : ℕ)
        → (p.index fd ≡ k_new) × (p.channels fd ≡ false) × (watches p.kernel fd ≡ none)
          ⊎ (p.index fd ≡ k_added) × (p.channels fd ≡ true) × (watches p.kernel fd ≡ some old)
          ⊎ (p.index fd ≡ k_deleted) × (p.channels fd ≡ true) × (watches p.kernel fd ≡ none)
        → Keeps (λ q. Told q fd (p.events fd)) fd p (update_channel epoll_ctl fd p)
    unfolding update_channel register control
    update_channel-Keeps old (inl (i, c, w)) =
        let q =
          register epoll_ctl ctl_add k_added fd
            (record p { channels = update p.channels fd true }) in
        record {
          out = q;
          returns = rw (update_channel, i, c) refl;
          here =
              told (update_same p.index fd k_added) (update_same p.channels fd true)
                (epoll.adds fd (p.events fd) p.kernel w);
          mask = λ g. refl;
          there = λ g other.
              Known-keep p q g (update_other p.index fd k_added g (λ e. other (sym e)))
                (update_other p.channels fd true g (λ e. other (sym e)))
                (epoll.others ctl_add fd (p.events fd) g p.kernel other) refl;
        }
    update_channel-Keeps old (inr (inl (i, c, w))) = elim (Bool-cases (none_events (p.events fd))) [
      | inl off ↦
          (let q = register epoll_ctl ctl_del k_deleted fd p in
            record {
              out = q;
              returns = rw (update_channel, i, c, off) refl;
              here =
                  silenced (ground arith) (update_same p.index fd k_deleted) c
                    (epoll.deletes fd (p.events fd) old p.kernel w);
              mask = λ g. refl;
              there = λ g other.
                  Known-keep p q g (update_other p.index fd k_deleted g (λ e. other (sym e))) refl
                    (epoll.others ctl_del fd (p.events fd) g p.kernel other) refl;
            })
      | inr on ↦
          (let q = control epoll_ctl ctl_mod fd p in
            record {
              out = q;
              returns = rw (update_channel, i, c, on) refl;
              here = told i c (epoll.modifies fd (p.events fd) old p.kernel w);
              mask = λ g. refl;
              there = λ g other.
                  Known-keep p q g refl refl
                    (epoll.others ctl_mod fd (p.events fd) g p.kernel other) refl;
            })
    ]
    update_channel-Keeps old (inr (inr (i, c, w))) =
        let q = register epoll_ctl ctl_add k_added fd p in
        record {
          out = q;
          returns = rw (update_channel, i, c) refl;
          here = told (update_same p.index fd k_added) c (epoll.adds fd (p.events fd) p.kernel w);
          mask = λ g. refl;
          there = λ g other.
              Known-keep p q g (update_other p.index fd k_added g (λ e. other (sym e))) refl
                (epoll.others ctl_add fd (p.events fd) g p.kernel other) refl;
        }

  -- The state of a channel before its events change.
  before :
      (p : EpollPoller K) (fd : ℕ)
      → Known p fd
      → (old : ℕ) × ((p.index fd ≡ k_new) × (p.channels fd ≡ false) × (watches p.kernel fd ≡ none)
          ⊎ (p.index fd ≡ k_added) × (p.channels fd ≡ true) × (watches p.kernel fd ≡ some old)
          ⊎ (p.index fd ≡ k_deleted) × (p.channels fd ≡ true) × (watches p.kernel fd ≡ none))
  before p fd (unknown i c w) = (0, inl (i, c, w))
  before p fd (watched i c w) = (p.events fd, inr (inl (i, c, w)))
  before p fd (muted i c w z) = (0, inr (inr (i, c, w)))

  -- All channels stand well, and the call has returned.
  pub record Serves (p : EpollPoller K) (o : Option (EpollPoller K)) : Type 0 where
    pub out : EpollPoller K
    pub returns : o ≡ some out
    pub known : (g : ℕ) → Known out g

  masked :
      (p : EpollPoller K) (fd mask : ℕ) (g : ℕ)
      → g ≢ fd
      → Known p g
      → Known (record p { events = update p.events fd mask }) g
  masked p fd mask g other k =
      Known-keep p _ g refl refl refl (update_other p.events fd mask g (λ e. other (sym e))) k

  -- The call has returned with the events of `fd` changed to the mask: epoll watches `fd` with exactly
  -- the mask, or the mask is 0 and it is not watched, and all channels stand well.
  pub record Changes (fd mask : ℕ) (p : EpollPoller K) (o : Option (EpollPoller K)) : Type 0 where
    pub out : EpollPoller K
    pub returns : o ≡ some out
    pub here : Told out fd mask
    pub events : (g : ℕ) → out.events g ≡ update p.events fd mask g
    pub known : (g : ℕ) → Known out g

  -- With a kernel that keeps to the manual of epoll_ctl, and channels that all stand well with the poller
  -- and with epoll: a channel that changes its events, known to the poller or not, meets no failed
  -- assertion. Behind the call it is in the map with its new events, and added, and epoll watches it
  -- with exactly these; or it has none and is deleted, and epoll does not watch it. The other channels
  -- have the events they had, and epoll watches every added channel with exactly its events, and no
  -- other one.
  pub set_events-Changes :
      (fd mask : ℕ) (p : EpollPoller K)
      → Epoll
      → ((g : ℕ) → Known p g)
      → Changes fd mask p (set_events epoll_ctl fd mask p)
  unfolding set_events
  set_events-Changes fd mask p epoll known =
      let (old, at) = before p fd (known fd) in
      let q : EpollPoller K = record p { events = update p.events fd mask } in
      let k = update_channel-Keeps epoll fd q old at in
      let here : Told k.out fd mask = subst (Told k.out fd) (update_same p.events fd mask) k.here in
      record {
        out = k.out;
        returns = k.returns;
        here = here;
        events = k.mask;
        known = λ g. elim (same_or_not g fd) [
          | inl it ↦
              subst (Known k.out) (sym it)
                (Told-Known k.out fd (subst (Told k.out fd) (sym (k.mask fd)) k.here))
          | inr other ↦ k.there g other (masked p fd mask g other (known g))
        ];
      }
