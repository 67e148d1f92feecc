-- ===== src/PollPoller/Laws.antt =====
-- The array has one entry for each channel, at its index, with its events.
use trantor.Prelude.{
  ℕ, ◌≡◌, ◌≢◌, ◌⊎◌, inl, inr, refl, sym, ap, subst, ◌∙◌, true, false, not, Option, some, none, ◌==◌,
  arith, length, get_elem?, update, update_same, update_other, same_or_not, Bool-cases,
}
use trantor.PollPoller.{
  Pollfd, PollPoller, set_at, new_entry, changed_entry, update_channel, set_events,
}
use trantor.PollPoller.Slots.{
  get_elem_lt, set_at_same, set_at_other, append_in, append_at, append_out,
}

-- The entry of a channel: it has its events, and is watched unless they are none.
pub record HasEntry (p : PollPoller) (fd : ℕ) : Type 0 where
  pub idx : ℕ
  pub pfd : Pollfd
  pub index : p.index fd ≡ some idx
  pub there : get_elem? p.pollfds idx ≡ some pfd
  pub is_fd : pfd.fd ≡ fd
  pub events : pfd.events ≡ p.events fd
  pub watched : (pfd.watched ≡ true) ⊎ (p.events fd ≡ 0)

-- Every channel has its entry, and every entry is that of a channel.
pub record Listed (p : PollPoller) : Type 0 where
  pub entry : (fd : ℕ) → p.channels fd ≡ true → HasEntry p fd
  pub channel :
      (idx : ℕ) (pfd : Pollfd)
      → get_elem? p.pollfds idx ≡ some pfd
      → (p.channels pfd.fd ≡ true) × (p.index pfd.fd ≡ some idx)

-- Two entries of different channels stand at different places.
pub apart :
    (p : PollPoller)
    → Listed p
    → (fd gd i j : ℕ) → p.index fd ≡ some i
    → p.index gd ≡ some j
    → i ≡ j
    → (pfd : Pollfd) → get_elem? p.pollfds i ≡ some pfd
    → pfd.fd ≡ fd
    → (qfd : Pollfd) → get_elem? p.pollfds j ≡ some qfd
    → qfd.fd ≡ gd
    → fd ≡ gd
apart p l fd gd i j a b e pfd f g qfd f' g' =
    let same : get_elem? p.pollfds i ≡ get_elem? p.pollfds j = ap (get_elem? p.pollfds) e in
    let q : pfd ≡ qfd = cc in sym g ∙ ap (λ x. x.fd) q ∙ g'

module _ (fd mask : ℕ) (p : PollPoller) (l : Listed p) where
  -- The poller when the channel has its new events.
  abbrev told : PollPoller
  told = record p { events = update p.events fd mask }

  pub other_entry :
      (gd : ℕ)
      → fd ≢ gd
      → (q : PollPoller) → (e : HasEntry p gd) → q.index gd ≡ p.index gd
      → get_elem? q.pollfds e.idx ≡ get_elem? p.pollfds e.idx
      → q.events gd ≡ p.events gd
      → HasEntry q gd
  other_entry gd ne q e a b c = record {
    idx = e.idx;
    pfd = e.pfd;
    index = a ∙ e.index;
    there = b ∙ e.there;
    is_fd = e.is_fd;
    events = e.events ∙ sym c;
    watched = elim (e.watched) [ inl w ↦ inl w | inr z ↦ inr (c ∙ z) ];
  }

  new_entry-Listed : p.channels fd ≡ false → p.index fd ≡ none → Listed (new_entry fd told)
  new_entry-Listed absent unknown = record {
    entry = λ gd h. elim (same_or_not fd gd) [
      | inl same ↦ subst (HasEntry (new_entry fd told)) same (record {
        idx = length p.pollfds;
        pfd = record { fd = fd; watched = true; events = told.events fd };
        index = update_same p.index fd (some (length p.pollfds));
        there = append_at p.pollfds _;
        is_fd = refl;
        events = refl;
        watched = inl refl;
      })
      | inr other ↦
          let e = l.entry gd (sym (update_other p.channels fd true gd other) ∙ h) in
          other_entry gd other (new_entry fd told) e
            (update_other p.index fd (some (length p.pollfds)) gd other)
            (append_in p.pollfds _ e.idx (get_elem_lt p.pollfds e.idx e.pfd e.there))
            (update_other p.events fd mask gd other)
    ];
    channel = λ idx pfd h. elim (append_out p.pollfds _ idx pfd h) [
      | inr (at, new) ↦
          let f : fd ≡ pfd.fd = ap (λ x. x.fd) (sym new) in
          (
            subst (λ g. update p.channels fd true g ≡ true) f (update_same p.channels fd true),
            subst (λ g. update p.index fd (some (length p.pollfds)) g ≡ some idx) f
                (update_same p.index fd (some (length p.pollfds)) ∙ ap some (sym at)),
          )
      | inl old ↦
          let (known, at) = l.channel idx pfd old in
          let other : fd ≢ pfd.fd =
            λ e. (let bad : p.channels fd ≡ true = ap p.channels e ∙ known in cc) in
          (
            update_other p.channels fd true (pfd.fd) other ∙ known,
            update_other p.index fd (some (length p.pollfds)) (pfd.fd) other ∙ at,
          )
    ];
  }

  changed_entry-Listed :
      (idx : ℕ) (pfd : Pollfd)
      → p.channels fd ≡ true
      → p.index fd ≡ some idx
      → get_elem? p.pollfds idx ≡ some pfd
      → pfd.fd ≡ fd
      → Listed (changed_entry fd idx told)
  changed_entry-Listed idx pfd known at there is_fd =
      let new : Pollfd = record {
        fd = fd;
        watched = not (told.events fd == 0);
        events = told.events fd;
      } in
      let low = get_elem_lt p.pollfds idx pfd there in
      record {
        entry = λ gd h. elim (same_or_not fd gd) [
          | inl same ↦ subst (HasEntry (changed_entry fd idx told)) same (record {
            idx = idx;
            pfd = new;
            index = at;
            there = set_at_same p.pollfds idx new low;
            is_fd = refl;
            events = refl;
            watched = elim (Bool-cases (told.events fd == 0)) [
              | inl z ↦ inr (ground arith)
              | inr z ↦ inl (ap not z)
            ];
          })
          | inr other ↦
              let e = l.entry gd h in
              other_entry gd other (changed_entry fd idx told) e refl
                (set_at_other p.pollfds idx e.idx new (λ z.
                  other
                    (apart p l fd gd idx e.idx at e.index z pfd there is_fd e.pfd e.there e.is_fd)))
                (update_other p.events fd mask gd other)
        ];
        channel = λ j qfd h. elim (same_or_not idx j) [
          | inr other ↦ l.channel j qfd (sym (set_at_other p.pollfds idx j new other) ∙ h)
          | inl same ↦
              let h' : get_elem? (set_at idx new p.pollfds) idx ≡ some qfd =
                subst (λ j. get_elem? (set_at idx new p.pollfds) j ≡ some qfd) (sym same) h in
              let q : new ≡ qfd = (let z = set_at_same p.pollfds idx new low in cc) in
              let f : fd ≡ qfd.fd = ap (λ x. x.fd) q in
              (ap p.channels (sym f) ∙ known, ap p.index (sym f) ∙ at ∙ ap some same)
        ];
      }

-- What a change of events gives: a poller with the channel, its new events and the entries of all.
abbrev pub Gives : ℕ → ℕ → PollPoller → Option PollPoller → Type 0
Gives fd mask p o =
    (p' : PollPoller) × (o ≡ some p')
    × Listed p'
    × (p'.channels fd ≡ true)
    × (p'.events ≡ update p.events fd mask)

-- A channel changes its events: no assertion fails and no index is out of range, whether the poller knows
-- the channel, or never has; and every channel has its entry.
pub set_events-Listed :
    (fd mask : ℕ) (p : PollPoller)
    → Listed p
    → (p.channels fd ≡ true) ⊎ (p.index fd ≡ none)
    → Gives fd mask p (set_events fd mask p)
unfolding set_events update_channel
set_events-Listed fd mask p l known = elim (Bool-cases (p.channels fd)) [
  | inl there ↦
      let e = l.entry fd there in
      let same : (e.pfd.fd == fd) ≡ true = (let z = e.is_fd in ground arith) in
      (
        changed_entry fd e.idx (record p { events = update p.events fd mask }),
        rw (e.index, there, e.there, same) refl,
        changed_entry-Listed fd mask p l e.idx e.pfd there e.index e.there e.is_fd,
        there,
        refl,
      )
  | inr absent ↦
      let unknown : p.index fd ≡ none = elim known [ inl there ↦ absurd cc | inr u ↦ u ] in
      (
        new_entry fd (record p { events = update p.events fd mask }),
        rw (unknown, absent) refl,
        new_entry-Listed fd mask p l absent unknown,
        update_same p.channels fd true,
        refl,
      )
]
