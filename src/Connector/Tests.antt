-- ===== src/Connector/Tests.antt =====
-- Runs of a connector, and the theorems at concrete connectors.
use trantor.Prelude.{◌≡◌, refl, true, false, some, none, [], ◌∷◌, arith}
use trantor.Connector.{
  Connector, disconnected, connecting, verdict, handle_write, try_again, in_progress,
  init_retry_delay_ms,
}
use trantor.Connector.Backoff.{Backs, attempts, schedule, attempts-Backs}
use trantor.Connector.Outcome.{Settled, handle_write-Settled}

abbrev fresh : Connector
fresh = record {
  status = disconnected;
  wanted = true;
  with_retry = true;
  retry_interval = init_retry_delay_ms;
  fd = none;
  socket_handed = false;
  channel = none;
  delays = [];
  done = [];
}

abbrev trying : Connector
trying = record fresh { status = connecting; fd = some 7; channel = some 7 }

-- ECONNREFUSED
refused_test : verdict 111 ≡ try_again
unfolding verdict
refused_test = refl

-- EINPROGRESS
in_progress_test : verdict 115 ≡ in_progress
unfolding verdict
in_progress_test = refl

schedule_test : schedule 8 500 ≡ 500 ∷ 1000 ∷ 2000 ∷ 4000 ∷ 8000 ∷ 16000 ∷ 30000 ∷ 30000 ∷ []
schedule_test = refl

attempts-Backs_example : Backs 8 fresh (attempts 7 111 8 fresh)
attempts-Backs_example =
    attempts-Backs 7 111 8 fresh refused_test
      (record { state = refl; wants = refl; retries = refl }) (omega arith)

handle_write-Settled_example : Settled 7 trying (handle_write 111 false trying)
handle_write-Settled_example = handle_write-Settled 111 false trying 7 refl refl

abbrev once : Connector
once = record trying { with_retry = false }
