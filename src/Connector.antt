-- ===== src/Connector.antt =====
-- net/inner/Connector.cc: the attempts of a client to connect. The calls in the loop thread are
-- functions on the state; the descriptor that `socket` returns, the `errno` after `connect` and the
-- pending error of the socket are arguments. `none` is a failed assertion or a use of descriptor -1.
-- `delays` holds the timers that are set, in milliseconds, `done` what was done besides.
pub mod Backoff
pub mod Outcome
pub mod Restart
mod Tests
use trantor.Prelude.{
  ℕ, ◌+◌, ◌*◌, Bool, true, false, not, ◌&&◌, ◌||◌, Option, some, none, List, [], ◌∷◌, ◌++◌,
  if◌then◌else◌, ltb, ◌==◌, min, ◌>>=◌, ◌>>◌, assert,
}

-- `Connector::Status`
pub data Status : Type 0 where
  disconnected connecting connected : Status

abbrev pub is_disconnected : Status → Bool
is_disconnected disconnected = true
is_disconnected _ = false

abbrev pub is_connecting : Status → Bool
is_connecting connecting = true
is_connecting _ = false

pub data Event : Type 0 where
  opened closed new_connection : ℕ → Event
  error_callback : Event

pub record Connector : Type 0 where
  pub status : Status
  pub wanted : Bool
  pub with_retry : Bool
  pub retry_interval : ℕ
  pub fd : Option ℕ
  pub socket_handed : Bool
  pub channel : Option ℕ
  pub delays : List ℕ
  pub done : List Event

abbrev pub init_retry_delay_ms : ℕ
init_retry_delay_ms = 500

abbrev pub max_retry_delay_ms : ℕ
max_retry_delay_ms = 30 * 1000

-- What the `switch` of `connect` does with an `errno`, with the numbers of Linux.
pub data Verdict : Type 0 where
  in_progress try_again give_up : Verdict

unfoldable pub verdict : ℕ → Verdict
verdict errno =
    if errno == 0 || errno == 115 || errno == 4 || errno == 106
    then in_progress
    else if errno == 11 || errno == 98 || errno == 99 || errno == 111 || errno == 101
    then try_again
    else give_up

unfoldable pub log : Event → Connector → Connector
log e c = record c { done = c.done ++ (e ∷ []) }

-- The doubled delay, up to the longest one.
unfoldable pub next_interval : ℕ → ℕ
next_interval i = if ltb max_retry_delay_ms (i * 2) then max_retry_delay_ms else i * 2

-- `retry`, behind its assertion.
unfoldable pub retry : ℕ → Connector → Connector
retry sockfd c =
    let c' = record (log (closed sockfd) c) { status = disconnected } in
    if c.wanted
    then record c' {
      delays = c.delays ++ (c.retry_interval ∷ []);
      retry_interval = next_interval c.retry_interval;
    }
    else c'

unfoldable pub connecting_with : ℕ → Connector → Option Connector
connecting_with sockfd c = elim c.channel [
  | none ↦ some (record c { status = connecting; channel = some sockfd })
  | some other ↦ none
]

-- `connect` of the class: a new socket, and the answer of `connect(2)`.
unfoldable pub connect : ℕ → ℕ → Connector → Option Connector
connect sockfd errno c =
    let c' = log (opened sockfd) (record c { socket_handed = false; fd = some sockfd }) in
    elim (verdict errno) [
      | in_progress ↦ connecting_with sockfd c'
      | try_again ↦ some (if c.with_retry then retry sockfd c' else c')
      | give_up ↦
          some (log error_callback (log (closed sockfd) (record c' { socket_handed = true })))
    ]

unfoldable pub start_in_loop : ℕ → ℕ → Connector → Option Connector
start_in_loop sockfd errno c =
    if is_disconnected c.status then (if c.wanted then connect sockfd errno c else some c) else none

unfoldable pub start : ℕ → ℕ → Connector → Option Connector
start sockfd errno c = start_in_loop sockfd errno (record c { wanted = true })

-- `stop`, in the loop thread.
unfoldable pub stop : Connector → Connector
stop c = record c { status = disconnected; channel = none }

-- The end of an attempt that failed.
unfoldable pub failed_attempt : ℕ → Connector → Connector
failed_attempt sockfd c = log error_callback (
    if c.with_retry
    then retry sockfd c
    else log (closed sockfd) (record c { socket_handed = true }))

-- `err` is the pending error of the socket, `itself` whether it is connected to itself.
unfoldable pub handle_write : ℕ → Bool → Connector → Option Connector
handle_write err itself c =
    let c' = record c { socket_handed = true } in
    if is_connecting c.status
    then elim c.channel [
      | none ↦ none
      | some sockfd ↦
          let d = record c' { channel = none } in
          if not (err == 0) || itself
          then some (failed_attempt sockfd d)
          else some (
              if c.wanted
              then log (new_connection sockfd) (record d { status = connected })
              else log (closed sockfd) (record d { status = connected }))
    ]
    else if is_disconnected c.status
    then some c'
    else none

unfoldable pub handle_error : Connector → Option Connector
handle_error c =
    let c' = record c { socket_handed = true } in
    if is_connecting c.status
    then elim c.channel [
      | none ↦ none
      | some sockfd ↦
          let d = record c' { status = disconnected; channel = none } in
          some (log error_callback (if c.with_retry then retry sockfd d else log (closed sockfd) d))
    ]
    else some c'

-- The destructor closes a descriptor that was not handed on.
unfoldable pub destroy : Connector → Connector
destroy c =
    if c.socket_handed then c else elim c.fd [ none ↦ c | some sockfd ↦ log (closed sockfd) c ]
