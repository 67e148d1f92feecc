-- ===== src/Connector/Outcome.antt =====
-- What becomes of the descriptor of an attempt.
use trantor.Prelude.{
  ℕ, suc, ◌+◌, ◌≡◌, refl, ap, ◌∙◌, Bool, true, false, not, ◌||◌, Option, some, none, List, [], ◌∷◌,
  ◌++◌, ◌==◌, if◌then◌else◌, arith,
}
use trantor.Connector.{
  Connector, connecting, connected, is_connecting, Event, opened, closed, new_connection,
  error_callback, log, retry, connect, verdict, try_again, failed_attempt, handle_write, destroy,
}
use trantor.Connector.Backoff.{refused, connect-refused}

-- An event that ends the connector's care for the descriptor `fd`.
abbrev pub ends : ℕ → Event → ℕ
ends fd (closed k) = if fd == k then 1 else 0
ends fd (new_connection k) = if fd == k then 1 else 0
ends fd (opened k) = 0
ends fd error_callback = 0

abbrev pub count_ends : ℕ → List Event → ℕ
count_ends fd [] = 0
count_ends fd (e ∷ es) = ends fd e + count_ends fd es

pub count_ends-append :
    (fd : ℕ) (es : List Event) (e : Event)
    → count_ends fd (es ++ (e ∷ [])) ≡ count_ends fd es + ends fd e
count_ends-append fd [] e = omega arith
count_ends-append fd (x ∷ es) e = omega (arith, count_ends-append fd es e)

-- The descriptor is closed or handed on, once, and the destructor leaves it alone.
pub record Settled (fd : ℕ) (c : Connector) (o : Option Connector) : Type 0 where
  pub out : Connector
  pub returns : o ≡ some out
  pub no_channel : out.channel ≡ none
  pub once : count_ends fd out.done ≡ suc (count_ends fd c.done)
  pub left_alone : destroy out ≡ out

destroy-handed : (c : Connector) → c.socket_handed ≡ true → destroy c ≡ c
unfolding destroy
destroy-handed c e = rw e refl

abbrev pub handed_on : Bool → ℕ → Connector → Connector
handed_on wanted sockfd d =
    if wanted
    then log (new_connection sockfd) (record d { status = connected })
    else log (closed sockfd) (record d { status = connected })

some_if : (b : Bool) (x y : Connector) → (if b then some x else some y) ≡ some (if b then x else y)
some_if true x y = refl
some_if false x y = refl

pub handle_write-returns :
    (err : ℕ) (itself : Bool) (c : Connector) (sockfd : ℕ)
    → c.status ≡ connecting
    → c.channel ≡ some sockfd
    → let d = record c { socket_handed = true; channel = none } in
      handle_write err itself c
      ≡ some (
          if not (err == 0) || itself then failed_attempt sockfd d else handed_on c.wanted sockfd d)
unfolding handle_write
handle_write-returns err itself c sockfd s ch =
    rw (ch, ap is_connecting s) (some_if (not (err == 0) || itself) _ _)

ends_self : (fd : ℕ) → (ends fd (closed fd) ≡ 1) × (ends fd (new_connection fd) ≡ 1)
ends_self fd = ground arith

-- A state in which the descriptor has ended once more than in `c`.
pub record Ended (fd : ℕ) (c out : Connector) : Type 0 where
  pub no_channel : out.channel ≡ none
  pub once : count_ends fd out.done ≡ suc (count_ends fd c.done)
  pub handed : out.socket_handed ≡ true

failed_attempt-done :
    (fd : ℕ) (d : Connector)
    → ((failed_attempt fd d).done ≡ (d.done ++ (closed fd ∷ [])) ++ (error_callback ∷ []))
      × ((failed_attempt fd d).channel ≡ d.channel)
      × (d.socket_handed ≡ true → (failed_attempt fd d).socket_handed ≡ true)
unfolding failed_attempt retry log
failed_attempt-done fd d = ground arith

failed_attempt-Ended :
    (fd : ℕ) (d : Connector)
    → d.channel ≡ none
    → d.socket_handed ≡ true
    → Ended fd d (failed_attempt fd d)
failed_attempt-Ended fd d ch handed =
    let (done_, same, keeps) = failed_attempt-done fd d in
    record {
      no_channel = same ∙ ch;
      once =
          ap (count_ends fd) done_
          ∙ count_ends-append fd (d.done ++ (closed fd ∷ [])) error_callback
          ∙ ap (λ m. m + 0) (count_ends-append fd d.done (closed fd))
          ∙ omega (arith, (ends_self fd).0);
      handed = keeps handed;
    }

handed_on-Ended :
    (wanted : Bool) (fd : ℕ) (d : Connector)
    → d.channel ≡ none
    → d.socket_handed ≡ true
    → Ended fd d (handed_on wanted fd d)
unfolding log
handed_on-Ended true fd d ch handed = record {
  no_channel = ch;
  once = count_ends-append fd d.done (new_connection fd) ∙ omega (arith, (ends_self fd).1);
  handed = handed;
}
handed_on-Ended false fd d ch handed = record {
  no_channel = ch;
  once = count_ends-append fd d.done (closed fd) ∙ omega (arith, (ends_self fd).0);
  handed = handed;
}

either-Ended :
    (b : Bool) {fd : ℕ} {d p q : Connector}
    → Ended fd d p
    → Ended fd d q
    → Ended fd d (if b then p else q)
either-Ended true e f = e
either-Ended false e f = f

-- When the socket of an attempt that is under way (status connecting, with its channel) is ready, whatever
-- its error is, connected to itself or not, with or without retries, and wanted or not: its
-- descriptor is closed or handed to the callback, exactly once, the channel is gone, and the
-- destructor does not close the descriptor again. A connector that was stopped is not covered.
pub handle_write-Settled :
    (err : ℕ) (itself : Bool) (c : Connector) (sockfd : ℕ)
    → c.status ≡ connecting
    → c.channel ≡ some sockfd
    → Settled sockfd c (handle_write err itself c)
handle_write-Settled err itself c sockfd s ch =
    let d = record c { socket_handed = true; channel = none } in
    let e =
      either-Ended (not (err == 0) || itself) (failed_attempt-Ended sockfd d refl refl)
        (handed_on-Ended c.wanted sockfd d refl refl) in
    record {
      out =
          if not (err == 0) || itself then failed_attempt sockfd d else handed_on c.wanted sockfd d;
      returns = handle_write-returns err itself c sockfd s ch;
      no_channel = e.no_channel;
      once = e.once;
      left_alone = destroy-handed _ e.handed;
    }

refused-fields :
    (fd : ℕ) (c : Connector)
    → ((refused fd c).done ≡ (c.done ++ (opened fd ∷ [])) ++ (closed fd ∷ []))
      × ((refused fd c).socket_handed ≡ false)
      × ((refused fd c).fd ≡ some fd)
unfolding retry log
refused-fields fd c = ground arith

destroy-unhanded :
    (fd : ℕ) (c : Connector)
    → c.socket_handed ≡ false
    → c.fd ≡ some fd
    → (destroy c).done ≡ c.done ++ (closed fd ∷ [])
unfolding destroy log
destroy-unhanded fd c h e = rw (h, e) refl

-- An attempt that `connect` refuses at once, with retries: `retry` closes the descriptor, but it
-- is still taken for open, and the destructor closes it a second time.
pub connect-destroy_twice :
    (sockfd errno : ℕ) (c : Connector)
    → verdict errno ≡ try_again
    → c.with_retry ≡ true
    → (out : Connector) × (connect sockfd errno c ≡ some out)
      × (count_ends sockfd (destroy out).done ≡ 2 + count_ends sockfd c.done)
connect-destroy_twice sockfd errno c e retries =
    let (done_, unhanded, at) = refused-fields sockfd c in
    (
      refused sockfd c,
      connect-refused sockfd errno c e retries,
      ap (count_ends sockfd) (
            destroy-unhanded sockfd (refused sockfd c) unhanded at
            ∙ ap (λ l. l ++ (closed sockfd ∷ [])) done_)
          ∙ count_ends-append sockfd _ (closed sockfd)
          ∙ ap (λ m. m + ends sockfd (closed sockfd))
              (count_ends-append sockfd _ (closed sockfd)
                ∙ ap (λ m. m + ends sockfd (closed sockfd))
                    (count_ends-append sockfd c.done (opened sockfd)))
          ∙ omega (arith, (ends_self sockfd).0),
    )
