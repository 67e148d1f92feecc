-- ===== src/Connector/Restart.antt =====
-- Starting after a stop, and after a failure without retries.
use trantor.Prelude.{ℕ, ◌≡◌, refl, ap, ◌∙◌, Bool, true, false, not, ◌||◌, some, none, ◌==◌}
use trantor.Connector.{
  Connector, connecting, opened, log, connect, connecting_with, verdict, in_progress, start,
  start_in_loop, stop, failed_attempt, handle_write,
}
use trantor.Connector.Outcome.{handle_write-returns}

connect-again :
    (sockfd errno : ℕ) (c : Connector)
    → verdict errno ≡ in_progress
    → (d : Connector) × (connect sockfd errno (stop c) ≡ some d)
      × (d.status ≡ connecting)
      × (d.channel ≡ some sockfd)
unfolding connect stop log connecting_with
connect-again sockfd errno c e = (
  record (log (opened sockfd) (record (stop c) { socket_handed = false; fd = some sockfd })) {
    status = connecting;
    channel = some sockfd;
  },
  rw (connect, e) refl,
  refl,
  refl,
)

starts_when :
    (sockfd errno : ℕ) (c : Connector)
    → c.wanted ≡ true
    → start_in_loop sockfd errno (stop c) ≡ connect sockfd errno (stop c)
unfolding start_in_loop stop
starts_when sockfd errno c wanted = rw wanted refl

-- `stop` does not take back the wish to connect: the timer of a retry that is pending starts a new
-- attempt after it.
pub stop-start_in_loop :
    (sockfd errno : ℕ) (c : Connector)
    → verdict errno ≡ in_progress
    → c.wanted ≡ true
    → (d : Connector) × (start_in_loop sockfd errno (stop c) ≡ some d)
      × (d.status ≡ connecting)
      × (d.channel ≡ some sockfd)
stop-start_in_loop sockfd errno c e wanted =
    let (d, r, s, ch) = connect-again sockfd errno c e in
    (d, starts_when sockfd errno c wanted ∙ r, s, ch)

failed-connecting :
    (fd : ℕ) (c : Connector) → c.with_retry ≡ false → (failed_attempt fd c).status ≡ c.status
unfolding failed_attempt log
failed-connecting fd c e = rw e refl

start-connecting : (fd errno : ℕ) (c : Connector) → c.status ≡ connecting → start fd errno c ≡ none
unfolding start start_in_loop
start-connecting fd errno c e = rw e refl

-- Without retries, an attempt that fails when the socket is ready leaves the status at
-- `Connecting`: the next `start` fails its assertion.
pub handle_write-start_stuck :
    (err sockfd fd errno : ℕ) (itself : Bool) (c : Connector)
    → c.status ≡ connecting
    → c.channel ≡ some sockfd
    → c.with_retry ≡ false
    → (not (err == 0) || itself) ≡ true
    → (out : Connector) × (handle_write err itself c ≡ some out) × (start fd errno out ≡ none)
handle_write-start_stuck err sockfd fd errno itself c s ch once failing =
    let d = record c { socket_handed = true; channel = none } in
    (
      failed_attempt sockfd d,
      handle_write-returns err itself c sockfd s ch ∙ ap some (rw failing refl),
      start-connecting fd errno (failed_attempt sockfd d) (failed-connecting sockfd d once ∙ s),
    )
