-- ===== src/PollPoller/Tests.antt =====
-- A poller of two channels.
use trantor.Prelude.{
  ℕ, ◌≡◌, inl, inr, refl, subst, ◌>>=◌, true, false, Option, some, none, [], ◌∷◌, update,
}
use trantor.PollPoller.{
  PollPoller, set_at, pop_back, update_channel, remove_at, remove_channel, set_events,
}
use trantor.PollPoller.Laws.{HasEntry, Listed, Gives, set_events-Listed}
use trantor.PollPoller.Removal.{Removes, remove_channel-Listed}

abbrev no_channels : PollPoller
no_channels = record { pollfds = []; channels = λ fd. false; index = λ fd. none; events = λ fd. 0 }

no_channels-Listed : Listed no_channels
no_channels-Listed = record { entry = λ fd h. absurd cc; channel = λ idx pfd h. absurd cc }

-- The channel 4 reads, the channel 7 reads, and the channel 4 is disabled.
abbrev one_channel : PollPoller
one_channel = record no_channels {
  pollfds = (record { fd = 4; watched = true; events = 1 }) ∷ [];
  channels = update no_channels.channels 4 true;
  index = update no_channels.index 4 (some 0);
  events = update no_channels.events 4 1;
}

first_step : set_events 4 1 no_channels ≡ some one_channel
unfolding set_events update_channel
first_step = refl

set_events-Listed_example : Gives 4 1 no_channels (set_events 4 1 no_channels)
set_events-Listed_example = set_events-Listed 4 1 no_channels no_channels-Listed (inr refl)

outcome :
    (fd mask : ℕ) (p q : PollPoller) (o : Option PollPoller)
    → Gives fd mask p o
    → o ≡ some q
    → Listed q
outcome fd mask p q o (r, runs, listed, _, _) e = let same : r ≡ q = cc in subst Listed same listed

abbrev off_channel : PollPoller
off_channel = record one_channel {
  pollfds = (record { fd = 4; watched = false; events = 0 }) ∷ [];
  events = update one_channel.events 4 0;
}

second_step : set_events 4 0 one_channel ≡ some off_channel
unfolding set_events update_channel set_at
second_step = refl

off_channel-Listed : Listed off_channel
off_channel-Listed =
    let one =
      outcome 4 1 no_channels one_channel _
        (set_events-Listed 4 1 no_channels no_channels-Listed (inr refl)) first_step in
    outcome 4 0 one_channel off_channel _ (set_events-Listed 4 0 one_channel one (inl refl))
      second_step

abbrev off_entry : HasEntry off_channel 4
off_entry = record {
  idx = 0;
  pfd = record { fd = 4; watched = false; events = 0 };
  index = refl;
  there = refl;
  is_fd = refl;
  events = refl;
  watched = inr refl;
}

remove_channel-Listed_example : Removes 4 off_channel (remove_channel 4 off_channel)
remove_channel-Listed_example =
    remove_channel-Listed 4 off_channel off_channel-Listed off_entry refl refl refl

-- The channel keeps its index, so to enable it again fails an assertion.
enabled_again : (remove_channel 4 off_channel >>= λ p. set_events 4 1 p) ≡ none
unfolding remove_channel remove_at pop_back set_events update_channel
enabled_again = refl
