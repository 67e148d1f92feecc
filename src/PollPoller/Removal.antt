-- ===== src/PollPoller/Removal.antt =====
-- The removal of a channel moves the last entry, and tells its channel.
use trantor.Prelude.{
  ℕ, suc, ◌-◌, ◌<◌, ◌≡◌, ◌≢◌, inl, inr, refl, sym, ap, subst, ◌∙◌, true, false, Option, some, ◌==◌,
  arith, length, get_elem?, update, update_same, update_other, same_or_not, Bool-cases,
}
use trantor.PollPoller.{Pollfd, PollPoller, set_at, pop_back, remove_at, remove_channel}
use trantor.PollPoller.Slots.{
  get_elem_lt, get_elem_there, set_at_same, set_at_other, length-set_at, pop_back_in, pop_back_out,
}
use trantor.PollPoller.Laws.{HasEntry, Listed}

-- What the removal gives: a poller without the channel, and with the entries of the others.
abbrev pub Removes : ℕ → PollPoller → Option PollPoller → Type 0
Removes fd p o =
    (p' : PollPoller) × (o ≡ some p') × Listed p' × (p'.channels ≡ update p.channels fd false)

module _ (fd : ℕ) (p : PollPoller) (l : Listed p) (e : HasEntry p fd) where
  abbrev erased : PollPoller
  erased = record p { channels = update p.channels fd false }

  -- An entry at another place is that of another channel.
  elsewhere : (j : ℕ) (g : ℕ) → p.index g ≡ some j → e.idx ≢ j → fd ≢ g
  elsewhere j g at ne same =
      let z : some e.idx ≡ some j = sym e.index ∙ ap p.index same ∙ at in ne cc

  -- A channel that is still there is another one, and its entry stands at another place.
  still : (gd : ℕ) → update p.channels fd false gd ≡ true → (fd ≢ gd) × (p.channels gd ≡ true)
  still gd h = elim (same_or_not fd gd) [
    | inr other ↦ (other, sym (update_other p.channels fd false gd other) ∙ h)
    | inl same ↦
        let z : update p.channels fd false gd ≡ false =
          subst (λ g. update p.channels fd false g ≡ false) same
            (update_same p.channels fd false) in
        absurd cc
  ]

  other_place : (gd : ℕ) (f : HasEntry p gd) → fd ≢ gd → e.idx ≢ f.idx
  other_place gd f ne same =
      let z : get_elem? p.pollfds e.idx ≡ get_elem? p.pollfds f.idx =
        ap (get_elem? p.pollfds) same in
      let q : e.pfd ≡ f.pfd = let a = e.there in let b = f.there in cc in
      ne (sym e.is_fd ∙ ap (λ x. x.fd) q ∙ f.is_fd)

  last-Listed :
      e.idx ≡ length p.pollfds - 1 → Listed (record erased { pollfds = pop_back p.pollfds })
  last-Listed at = record {
    entry = λ gd h.
        let (ne, known) = still gd h in
        let f = l.entry gd known in
        let place = other_place gd f ne in
        let low = get_elem_lt p.pollfds f.idx f.pfd f.there in
        record {
          idx = f.idx;
          pfd = f.pfd;
          index = f.index;
          there = pop_back_in p.pollfds f.idx (omega arith) ∙ f.there;
          is_fd = f.is_fd;
          events = f.events;
          watched = f.watched;
        };
    channel = λ j pfd h.
        let low = pop_back_out p.pollfds j pfd h in
        let (known, at') = l.channel j pfd (sym (pop_back_in p.pollfds j low) ∙ h) in
        let ne = elsewhere j (pfd.fd) at' (λ z. absurd (omega arith)) in
        (update_other p.channels fd false (pfd.fd) ne ∙ known, at');
  }

  module _ (last : Pollfd) (there : get_elem? p.pollfds (length p.pollfds - 1) ≡ some last)
      (ne : e.idx ≢ length p.pollfds - 1) where
    abbrev swapped : PollPoller
    swapped = record erased {
      pollfds = pop_back (set_at e.idx last p.pollfds);
      index = update p.index (last.fd) (some e.idx);
    }

    inside : suc e.idx < length p.pollfds
    inside = let low = get_elem_lt p.pollfds e.idx e.pfd e.there in omega arith

    last_index : p.index (last.fd) ≡ some (length p.pollfds - 1)
    last_index = let (_, at) = l.channel (length p.pollfds - 1) last there in at

    at_idx : get_elem? swapped.pollfds e.idx ≡ some last
    at_idx =
        let n = length-set_at p.pollfds e.idx last in
        let i = inside in
        pop_back_in (set_at e.idx last p.pollfds) e.idx (omega arith)
        ∙ set_at_same p.pollfds e.idx last (omega arith)

    at_other :
        (j : ℕ)
        → e.idx ≢ j
        → suc j < length p.pollfds
        → get_elem? swapped.pollfds j ≡ get_elem? p.pollfds j
    at_other j other low =
        let n = length-set_at p.pollfds e.idx last in
        pop_back_in (set_at e.idx last p.pollfds) j (omega arith)
        ∙ set_at_other p.pollfds e.idx j last other

    entry_last : (gd : ℕ) (f : HasEntry p gd) → f.idx ≡ length p.pollfds - 1 → f.pfd ≡ last
    entry_last gd f z =
        let same : get_elem? p.pollfds f.idx ≡ get_elem? p.pollfds (length p.pollfds - 1) =
          ap (get_elem? p.pollfds) z in
        let a = f.there in cc

    swapped-entry : (gd : ℕ) → update p.channels fd false gd ≡ true → HasEntry swapped gd
    swapped-entry gd h =
        let (other, known) = still gd h in
        let f = l.entry gd known in
        elim (same_or_not (last.fd) gd) [
          | inl same ↦
              let at : some f.idx ≡ some (length p.pollfds - 1) =
                sym f.index ∙ ap p.index (sym same) ∙ last_index in
              let q : f.pfd ≡ last = entry_last gd f cc in
              record {
                idx = e.idx;
                pfd = last;
                index =
                    subst (λ g. update p.index (last.fd) (some e.idx) g ≡ some e.idx) same
                      (update_same p.index (last.fd) (some e.idx));
                there = at_idx;
                is_fd = same;
                events = ap (λ x. x.events) (sym q) ∙ f.events;
                watched = elim (f.watched) [
                  | inl w ↦ inl (ap (λ x. x.watched) (sym q) ∙ w)
                  | inr z ↦ inr z
                ];
              }
          | inr differs ↦
              let low = get_elem_lt p.pollfds f.idx f.pfd f.there in
              let not_last : f.idx ≢ length p.pollfds - 1 =
                λ z. differs (ap (λ x. x.fd) (sym (entry_last gd f z)) ∙ f.is_fd) in
              record {
                idx = f.idx;
                pfd = f.pfd;
                index = update_other p.index (last.fd) (some e.idx) gd differs ∙ f.index;
                there = at_other f.idx (other_place gd f other) (omega arith) ∙ f.there;
                is_fd = f.is_fd;
                events = f.events;
                watched = f.watched;
              }
        ]

    swapped-Listed : Listed swapped
    swapped-Listed = record {
      entry = swapped-entry;
      channel = λ j qfd h.
          let low = pop_back_out (set_at e.idx last p.pollfds) j qfd h in
          let n = length-set_at p.pollfds e.idx last in
          elim (same_or_not e.idx j) [
            | inl same ↦
                let a : get_elem? swapped.pollfds j ≡ some last =
                  subst (λ j. get_elem? swapped.pollfds j ≡ some last) same at_idx in
                let q : last ≡ qfd = cc in
                let (known, _) = l.channel (length p.pollfds - 1) last there in
                let other = elsewhere (length p.pollfds - 1) (last.fd) last_index ne in
                (
                  ap (λ x. update p.channels fd false x.fd) (sym q)
                      ∙ update_other p.channels fd false (last.fd) other
                      ∙ known,
                  ap (λ x. update p.index (last.fd) (some e.idx) x.fd) (sym q)
                      ∙ update_same p.index (last.fd) (some e.idx)
                      ∙ ap some same,
                )
            | inr place ↦
                let old = sym (at_other j place (omega arith)) ∙ h in
                let (known, at) = l.channel j qfd old in
                let not_last : last.fd ≢ qfd.fd = λ z.
                  (let bad : some j ≡ some (length p.pollfds - 1) =
                      sym at ∙ ap p.index (sym z) ∙ last_index in
                    let j_last : j ≡ length p.pollfds - 1 = cc in omega arith) in
                (
                  update_other p.channels fd false (qfd.fd) (elsewhere j (qfd.fd) at place) ∙ known,
                  update_other p.index (last.fd) (some e.idx) (qfd.fd) not_last ∙ at,
                )
          ];
    }

  remove_at-Removes : Removes fd p (remove_at e.idx erased)
  unfolding remove_at
  remove_at-Removes = elim (Bool-cases (e.idx == length p.pollfds - 1)) [
    | inl last ↦ (_, rw last refl, last-Listed (ground arith), refl)
    | inr inner ↦
        let low = get_elem_lt p.pollfds e.idx e.pfd e.there in
        let (last, there) = get_elem_there p.pollfds (length p.pollfds - 1) (omega arith) in
        (_, rw (inner, there) refl, swapped-Listed last there (λ z. absurd (ground arith)), refl)
  ]

-- The removal of a channel that is not watched and has no events: no assertion fails, no index is out of
-- range, and every other channel has its entry still.
pub remove_channel-Listed :
    (fd : ℕ) (p : PollPoller)
    → Listed p
    → (e : HasEntry p fd) → p.channels fd ≡ true
    → p.events fd ≡ 0
    → e.pfd.watched ≡ false
    → Removes fd p (remove_channel fd p)
unfolding remove_channel
remove_channel-Listed fd p l e known quiet off =
    let none_left : (p.events fd == 0) ≡ true = ground arith in
    let same : (e.pfd.fd == fd) ≡ true = (let z = e.is_fd in ground arith) in
    let mask : (e.pfd.events == p.events fd) ≡ true = (let z = e.events in ground arith) in
    let (q, runs, still, gone) = remove_at-Removes fd p l e in
    (q, rw (known, none_left, e.index, e.there, same, off, mask) runs, still, gone)
