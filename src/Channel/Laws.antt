-- ===== src/Channel/Laws.antt =====
-- The interest in reading and in writing are independent, and a channel without interest is silent.
use trantor.Prelude.{◌≡◌, refl, true, false, []}
use trantor.Channel.{
  Channel, update, disable_all, enable_reading, disable_reading, enable_writing, disable_writing,
  is_writing, is_reading, is_none_event, handle_event,
}

-- What each call does to the interest in reading and in writing.
pub record Interest (c : Channel) : Type 0 where
  pub reads :
      (is_reading (enable_reading c) ≡ true) × (is_writing (enable_reading c) ≡ is_writing c)
  pub reads_not :
      (is_reading (disable_reading c) ≡ false) × (is_writing (disable_reading c) ≡ is_writing c)
  pub writes :
      (is_writing (enable_writing c) ≡ true) × (is_reading (enable_writing c) ≡ is_reading c)
  pub writes_not :
      (is_writing (disable_writing c) ≡ false) × (is_reading (disable_writing c) ≡ is_reading c)
  pub silent : handle_event (disable_all c) ≡ []

-- On every channel: each call sets or clears the interest that it names, keeps the other one, and
-- after `disableAll` an event calls nothing.
pub enable_reading-Interest : (c : Channel) → Interest c
unfolding enable_reading disable_reading enable_writing disable_writing disable_all update
    is_reading is_writing is_none_event handle_event
enable_reading-Interest c = record {
  reads = (refl, refl);
  reads_not = (refl, refl);
  writes = (refl, refl);
  writes_not = (refl, refl);
  silent = refl;
}
