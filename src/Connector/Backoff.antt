-- ===== src/Connector/Backoff.antt =====
-- The delays between attempts that are refused.
use trantor.Prelude.{
  ℕ, zero, suc, ◌*◌, ◌^◌, ◌≤◌, ◌<◌, ◌≡◌, refl, sym, ap, ◌∙◌, true, false, Option, some, List, [],
  ◌∷◌, ◌++◌, arith, min, ◌>>=◌, append-nil, append_assoc, ap₂, ◌⊎◌, inl, inr,
}
use native.Mathlib.Nat.{mul_assoc, pow-succ', one-le-pow, mul-le-mul_right}
use trantor.Connector.{
  Connector, disconnected, is_disconnected, opened, log, max_retry_delay_ms, next_interval, retry,
  connect, verdict, try_again, start_in_loop,
}

-- `n` attempts, one for each timer, that all end with `errno`.
abbrev pub attempts : ℕ → ℕ → ℕ → Connector → Option Connector
attempts sockfd errno zero c = some c
attempts sockfd errno (suc n) c = start_in_loop sockfd errno c >>= λ c'. attempts sockfd errno n c'

-- A delay that doubles, up to the longest one.
abbrev pub schedule : ℕ → ℕ → List ℕ
schedule zero i = []
schedule (suc n) i = i ∷ schedule n (min (i * 2) max_retry_delay_ms)

-- A connector that waits for its next attempt.
pub record Waits (c : Connector) : Type 0 where
  pub state : c.status ≡ disconnected
  pub wants : c.wanted ≡ true
  pub retries : c.with_retry ≡ true

pub record Backs (n : ℕ) (c : Connector) (o : Option Connector) : Type 0 where
  pub out : Connector
  pub returns : o ≡ some out
  pub waits : Waits out
  pub delays : out.delays ≡ c.delays ++ schedule n c.retry_interval
  pub interval : out.retry_interval ≡ min (c.retry_interval * 2 ^ n) max_retry_delay_ms

next_interval-min : (i : ℕ) → next_interval i ≡ min (i * 2) max_retry_delay_ms
unfolding next_interval
next_interval-min i = ground arith

-- One attempt that is refused.
abbrev pub refused : ℕ → Connector → Connector
refused sockfd c =
    retry sockfd (log (opened sockfd) (record c { socket_handed = false; fd = some sockfd }))

pub connect-refused :
    (sockfd errno : ℕ) (c : Connector)
    → verdict errno ≡ try_again
    → c.with_retry ≡ true
    → connect sockfd errno c ≡ some (refused sockfd c)
unfolding connect
connect-refused sockfd errno c e retries = rw (connect, e, retries) refl

start_in_loop-refused :
    (sockfd errno : ℕ) (c : Connector)
    → verdict errno ≡ try_again
    → Waits c
    → start_in_loop sockfd errno c ≡ some (refused sockfd c)
unfolding start_in_loop
start_in_loop-refused sockfd errno c e w =
    rw (connect-refused sockfd errno c e w.retries, ap is_disconnected w.state, w.wants) refl

refused-Backs :
    (sockfd : ℕ) (c : Connector)
    → Waits c
    → let d = refused sockfd c in
      Waits d
      × (d.delays ≡ c.delays ++ (c.retry_interval ∷ []))
      × (d.retry_interval ≡ next_interval c.retry_interval)
unfolding retry log
refused-Backs sockfd c w =
    let up = w.wants in
    let re = w.retries in
    (
      record { state = ground arith; wants = ground arith; retries = ground arith },
      ground arith,
      ground arith,
    )

le-or-gt : (m n : ℕ) → (m ≤ n) ⊎ (n < m)
le-or-gt m n = omega arith

both_above : {a b m : ℕ} → m ≤ a → m ≤ b → min a m ≡ min b m
both_above h h' = omega arith

grown :
    (i n : ℕ)
    → min (min (i * 2) max_retry_delay_ms * 2 ^ n) max_retry_delay_ms
      ≡ min (i * 2 ^ suc n) max_retry_delay_ms
grown i n =
    let twice : i * 2 * 2 ^ n ≡ i * 2 ^ suc n =
      mul_assoc i 2 (2 ^ n) ∙ ap (λ m. i * m) (sym (pow-succ' 2 n)) in
    let at_least : 1 ≤ 2 ^ n = one-le-pow n 2 (omega arith) in
    elim (le-or-gt (i * 2) max_retry_delay_ms) [
      | inl below ↦
          let same : min (i * 2) max_retry_delay_ms ≡ i * 2 = omega arith in
          ap (λ m. min (m * 2 ^ n) max_retry_delay_ms) same
          ∙ ap (λ m. min m max_retry_delay_ms) twice
      | inr above ↦
          let grows : max_retry_delay_ms * 2 ^ n ≤ i * 2 * 2 ^ n =
            mul-le-mul_right (2 ^ n) (omega arith) in
          let same : min (i * 2) max_retry_delay_ms ≡ max_retry_delay_ms = omega arith in
          ap (λ m. min (m * 2 ^ n) max_retry_delay_ms) same
          ∙ both_above (omega arith) (omega (arith, twice))
    ]

one_more :
    (sockfd errno n : ℕ) (c : Connector)
    → verdict errno ≡ try_again
    → Waits c
    → Backs n (refused sockfd c) (attempts sockfd errno n (refused sockfd c))
    → Backs (suc n) c (attempts sockfd errno (suc n) c)
one_more sockfd errno n c e w b =
    let (waits, delays, interval) = refused-Backs sockfd c w in
    let next = interval ∙ next_interval-min c.retry_interval in
    record {
      out = b.out;
      returns = rw (start_in_loop-refused sockfd errno c e w) b.returns;
      waits = b.waits;
      delays =
          b.delays
          ∙ ap₂ (λ ds i. ds ++ schedule n i) delays next
          ∙ append_assoc c.delays (c.retry_interval ∷ []) _;
      interval =
          b.interval ∙ ap (λ i. min (i * 2 ^ n) max_retry_delay_ms) next ∙ grown c.retry_interval n;
    }

-- Attempts that are refused one after the other: each sets a timer for the next one, the delay
-- doubles from one to the next up to 30 seconds, and the connector is ready to try again.
pub attempts-Backs :
    (sockfd errno n : ℕ) (c : Connector)
    → verdict errno ≡ try_again
    → Waits c
    → c.retry_interval ≤ max_retry_delay_ms
    → Backs n c (attempts sockfd errno n c)
attempts-Backs sockfd errno zero c e w small = record {
  out = c;
  returns = refl;
  waits = w;
  delays = sym (append-nil c.delays);
  interval = omega arith;
}
attempts-Backs sockfd errno (suc n) c e w small =
    let (waits, delays, interval) = refused-Backs sockfd c w in
    one_more sockfd errno n c e w (
      attempts-Backs sockfd errno n (refused sockfd c) e waits
        (let next = interval ∙ next_interval-min c.retry_interval in omega arith))
