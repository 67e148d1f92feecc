-- ===== src/AsyncFileLogger.antt =====
-- utils/AsyncFileLogger.cc: the buffers between the threads that log, the thread that writes, and the
-- file. A buffer is a `std::string` with its capacity. `written` holds the texts that were handed to
-- the file, in order; `accepted` is what `output` took, the notices of lost messages among it.
pub mod Steps
pub mod State
pub mod Swap
pub mod Output
pub mod Write
pub mod Held
pub mod Keep
pub mod Stream
mod Tests
use trantor.Prelude.{
  ℕ, zero, suc, ◌-◌, ◌*◌, Bool, true, false, ◌&&◌, Option, some, none, List, [], ◌∷◌, ◌++◌, ◌>>=◌,
  if◌then◌else◌, leb, ltb, length, add_size,
}

-- `kMemBufferSize`
abbrev pub mem_buffer_size : ℕ
mem_buffer_size = 4 * 1024 * 1024

pub record Buffer : Type 0 where
  pub text : List ℕ
  pub capacity : ℕ

-- The writing thread: not started; behind the test of `stopFlag_`; at the loop over `tmpBuffers_`, which
-- the test follows; at its end; and the logger destroyed.
pub data Thread : Type 0 where
  absent waiting writing finished destroyed : Thread

pub record AsyncFileLogger : Type 0 where
  pub log_buffer : Option Buffer
  pub next_buffer : Option Buffer
  pub write_buffers : List Buffer
  pub tmp_buffers : List Buffer
  pub stop_flag : Bool
  pub lost_counter : ℕ
  pub thread : Thread
  pub written : List (List ℕ)
  pub accepted : List ℕ

-- The allocator's choices: the capacity that `reserve` gives, and the one that `append` gives to a
-- string that has the capacity `c` and needs `n`; and the text that `snprintf` makes of the number of
-- lost messages.
pub record Library : Type 0 where
  pub reserved : ℕ
  pub grown : ℕ → ℕ → ℕ
  pub notice : ℕ → List ℕ

-- `clear` leaves the capacity.
abbrev pub cleared : Buffer → Buffer
cleared b = record b { text = [] }

-- The texts of buffers, in order.
abbrev pub texts : List Buffer → List (List ℕ)
texts [] = []
texts (b ∷ bs) = b.text ∷ texts bs

module _ (lib : Library) where
  abbrev pub fresh_buffer : Buffer
  fresh_buffer = record { text = []; capacity = lib.reserved }

  unfoldable pub append : List ℕ → Buffer → Buffer
  append xs b =
      let n = length (b.text ++ xs) in
      record {
        text = b.text ++ xs;
        capacity = if leb n b.capacity then b.capacity else lib.grown b.capacity n;
      }

  -- The constructor.
  unfoldable pub new_logger : AsyncFileLogger
  new_logger = record {
    log_buffer = some fresh_buffer;
    next_buffer = some fresh_buffer;
    write_buffers = [];
    tmp_buffers = [];
    stop_flag = false;
    lost_counter = 0;
    thread = absent;
    written = [];
    accepted = [];
  }

  -- `swapBuffer`, of a logger whose current buffer is `b`: the next buffer is the one that waits, if
  -- there is one.
  abbrev pub swap_to : Buffer → AsyncFileLogger → Option Buffer → AsyncFileLogger
  swap_to b l none = record l {
    write_buffers = l.write_buffers ++ (b ∷ []);
    log_buffer = some fresh_buffer;
  }
  swap_to b l (some n) = record l {
    write_buffers = l.write_buffers ++ (b ∷ []);
    log_buffer = some (cleared n);
    next_buffer = none;
  }

  unfoldable pub swap_buffer : Buffer → AsyncFileLogger → AsyncFileLogger
  swap_buffer b l = swap_to b l l.next_buffer

  -- The end of `output`, with the notice of the messages lost before.
  unfoldable pub accept : List ℕ → Buffer → AsyncFileLogger → AsyncFileLogger
  accept xs b l =
      let note = if ltb 0 l.lost_counter then lib.notice l.lost_counter else [] in
      record l {
        log_buffer = some (append xs (if ltb 0 l.lost_counter then append note b else b));
        lost_counter = 0;
        accepted = l.accepted ++ (note ++ xs);
      }

  unfoldable pub accept_or_lose : List ℕ → AsyncFileLogger → Option AsyncFileLogger
  accept_or_lose xs l =
      if ltb 25 (length l.write_buffers)
      then some (record l { lost_counter = add_size l.lost_counter 1 })
      else (l.log_buffer >>= λ b. some (accept xs b l))

  -- A string is no longer than its capacity, so the subtraction does not wrap.
  unfoldable pub output : List ℕ → AsyncFileLogger → Option AsyncFileLogger
  output xs l =
      let b : Buffer = elim l.log_buffer [ none ↦ fresh_buffer | some c ↦ c ] in
      let l' = record l { log_buffer = some b } in
      if ltb mem_buffer_size (length xs)
      then some l
      else accept_or_lose xs
          (if ltb (b.capacity - length b.text) (length xs) then swap_buffer b l' else l')

  unfoldable pub flush : AsyncFileLogger → Option AsyncFileLogger
  flush l = l.log_buffer >>= λ b. some (if ltb 0 (length b.text) then swap_buffer b l else l)

  -- The part of `logThreadFunc` under the lock, when its wait is over: by the time-out, or otherwise.
  unfoldable pub take_buffers : Bool → AsyncFileLogger → Option AsyncFileLogger
  take_buffers timed_out l = l.log_buffer >>= λ b.
      let l' = if timed_out && ltb 0 (length b.text) then swap_buffer b l else l in
      some (record l' {
        tmp_buffers = l'.write_buffers;
        write_buffers = l'.tmp_buffers;
        thread = writing;
      })

-- A buffer of `tmpBuffers_` goes to the file, and comes back as the next one.
unfoldable pub write_front : Buffer → List Buffer → AsyncFileLogger → AsyncFileLogger
write_front b rest l = record l {
  tmp_buffers = rest;
  written = l.written ++ (b.text ∷ []);
  next_buffer = some (cleared b);
}

-- The end of the destructor, behind the `join`.
unfoldable pub write_rest : AsyncFileLogger → Option AsyncFileLogger
write_rest l = l.log_buffer >>= λ b.
    let left = if ltb 0 (length b.text) then l.write_buffers ++ (b ∷ []) else l.write_buffers in
    some (record l { write_buffers = []; written = l.written ++ texts left; thread = destroyed })
