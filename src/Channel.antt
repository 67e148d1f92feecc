-- ===== src/Channel.antt =====
-- net/Channel.h and Channel.cc: the events that a descriptor waits for, and which callbacks an
-- event calls. A set of events is the record of its bits; a callback is a flag, whether it is set.
-- The loop's `updateChannel` is a count of its calls.
pub mod Laws
pub mod Run
use trantor.Prelude.{ℕ, ◌+◌, Bool, true, false, not, ◌&&◌, ◌||◌, List, [], ◌∷◌, ◌++◌, if◌then◌else◌}

-- A set of events: POLLIN, POLLPRI, POLLOUT, POLLERR, POLLHUP, POLLRDHUP, POLLNVAL.
pub record Events : Type 0 where
  pub pollin : Bool
  pub pollpri : Bool
  pub pollout : Bool
  pub pollerr : Bool
  pub pollhup : Bool
  pub pollrdhup : Bool
  pub pollnval : Bool

pub data Callback : Type 0 where
  event_callback close_callback error_callback read_callback write_callback : Callback

-- `tie` says whether the tied object is alive, if the channel is tied; `updates` counts the calls
-- of `EventLoop::updateChannel`.
pub record Channel : Type 0 where
  pub events : Events
  pub revents : Events
  pub has_event_callback : Bool
  pub has_close_callback : Bool
  pub has_error_callback : Bool
  pub has_read_callback : Bool
  pub has_write_callback : Bool
  pub tied : Bool
  pub alive : Bool
  pub updates : ℕ

abbrev pub none_event : Events
none_event = record {
  pollin = false;
  pollpri = false;
  pollout = false;
  pollerr = false;
  pollhup = false;
  pollrdhup = false;
  pollnval = false;
}

unfoldable pub update : Channel → Channel
update c = record c { updates = c.updates + 1 }

unfoldable pub disable_all : Channel → Channel
disable_all c = update (record c { events = none_event })

unfoldable pub enable_reading : Channel → Channel
enable_reading c = update (record c { events = record c.events { pollin = true; pollpri = true } })

unfoldable pub disable_reading : Channel → Channel
disable_reading c =
    update (record c { events = record c.events { pollin = false; pollpri = false } })

unfoldable pub enable_writing : Channel → Channel
enable_writing c = update (record c { events = record c.events { pollout = true } })

unfoldable pub disable_writing : Channel → Channel
disable_writing c = update (record c { events = record c.events { pollout = false } })

unfoldable pub is_writing : Channel → Bool
is_writing c = c.events.pollout

unfoldable pub is_reading : Channel → Bool
is_reading c = c.events.pollin || c.events.pollpri

unfoldable pub is_none_event : Channel → Bool
is_none_event c =
    let e = c.events in
    not (e.pollin || e.pollpri || e.pollout || e.pollerr || e.pollhup || e.pollrdhup || e.pollnval)

-- A callback is called if it is set.
unfoldable pub call : Bool → Callback → List Callback
call set k = if set then k ∷ [] else []

unfoldable pub handle_event_safely : Channel → List Callback
handle_event_safely c =
    let r = c.revents in
    if c.has_event_callback
    then event_callback ∷ []
    else call (r.pollhup && not r.pollin && c.has_close_callback) close_callback
      ++ call ((r.pollnval || r.pollerr) && c.has_error_callback) error_callback
      ++ call ((r.pollin || r.pollpri || r.pollrdhup) && c.has_read_callback) read_callback
      ++ call (r.pollout && c.has_write_callback) write_callback

unfoldable pub handle_event : Channel → List Callback
handle_event c =
    if is_none_event c
    then []
    else if c.tied
    then (if c.alive then handle_event_safely c else [])
    else handle_event_safely c
