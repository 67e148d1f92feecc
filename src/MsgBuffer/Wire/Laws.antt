-- ===== src/MsgBuffer/Wire/Laws.antt =====
-- What the integer methods put on the wire and read back, at every width.
use trantor.Prelude.{
  ℕ, ◌+◌, ◌-◌, ◌^◌, ◌≤◌, ◌<◌, ◌⊎◌, ◌≡◌, refl, ap, ◌∙◌, ◌>>=◌, Option, some, List, [], ◌∷◌, ◌++◌,
  arith, length, take, drop, length-append, take-append_left, drop-append_right, take-all,
}
use trantor.Bytes.{to_memory, of_memory, swap_bytes, hton64, ntoh64, htons, htonl, big_endian}
use trantor.Bytes.Order.{to_memory-swap_bytes, length-big_endian, swap_bytes-big_endian}
use trantor.MsgBuffer.{MsgBuffer, writable_bytes, append, add_in_front, retrieve}
use trantor.MsgBuffer.Bounds.{Holds, Stores, readable_bytes-length}
use trantor.MsgBuffer.Append.{size_limit, append-Stores}
use trantor.MsgBuffer.Consume.{read_at-take, retrieve-Holds}
use trantor.MsgBuffer.Front.{front_limit, add_in_front-Stores}
use trantor.MsgBuffer.Wire.{
  peek_word, append_int8, append_int16, append_int32, append_int64, add_in_front_int16,
  add_in_front_int32, add_in_front_int64, peek_int16, peek_int32, peek_int64, read_int16,
  read_int32, read_int64,
}

-- The sum of a front part and a rest, cut where they meet.
take-front : (xs ys : List ℕ) (k : ℕ) → length xs ≡ k → take k (xs ++ ys) ≡ xs
take-front xs ys k e = take-append_left k xs ys (omega arith) ∙ take-all k xs (omega arith)

drop-front : (xs ys : List ℕ) (k : ℕ) → length xs ≡ k → drop k (xs ++ ys) ≡ ys
drop-front xs ys k e =
    let nothing : k - length xs ≡ 0 = omega arith in
    drop-append_right k xs ys (omega arith) ∙ ap (λ j. drop j ys) nothing

one_byte : (n : ℕ) → to_memory 1 (swap_bytes 1 n) ≡ to_memory 1 n
unfolding to_memory swap_bytes of_memory
one_byte n = ap (λ x. x ∷ []) (omega arith)

-- An integer method that stores the bytes `ws` behind the contents.
module _ {b : MsgBuffer} {xs : List ℕ} (h : Holds b xs) where
  -- A peek at the first `k` bytes.
  peek_word-front :
      (k : ℕ) (ws ys : List ℕ) → length ws ≡ k → xs ≡ ws ++ ys → peek_word k b ≡ some (of_memory ws)
  unfolding peek_word
  peek_word-front k ws ys size e =
      let total = ap length e ∙ length-append ws ys in
      let view = read_at-take k h (omega (arith, total)) in
      ground (arith, readable_bytes-length h, view, ap (take k) e ∙ take-front ws ys k size)

  append_word :
      (k n : ℕ)
      → k ≤ 8
      → length b.buffer + 8 < size_limit
      → Stores (append b (to_memory k (swap_bytes k n))) (xs ++ big_endian k n)
  append_word k n few fits =
      rw (to_memory-swap_bytes k n)
        (append-Stores (big_endian k n) h (omega (arith, length-big_endian k n)))

  -- `appendInt8`, `16`, `32` and `64` store the value in network byte order behind the contents.
  pub append_int-Stores :
      (n : ℕ)
      → length b.buffer + 8 < size_limit
      → Stores (append_int8 b n) (xs ++ big_endian 1 n)
        × Stores (append_int16 b n) (xs ++ big_endian 2 n)
        × Stores (append_int32 b n) (xs ++ big_endian 4 n)
        × Stores (append_int64 b n) (xs ++ big_endian 8 n)
  unfolding append_int8 append_int16 append_int32 append_int64 htons htonl hton64 one_byte
  append_int-Stores n fits = (
    rw (← one_byte n) (append_word 1 n (omega arith) fits),
    append_word 2 n (omega arith) fits,
    append_word 4 n (omega arith) fits,
    append_word 8 n (omega arith) fits,
  )

  add_in_front_word :
      (k n : ℕ)
      → k ≤ 8
      → length b.buffer + 8 < front_limit
      → b.init_cap < front_limit
      → (k ≤ b.head) ⊎ (length xs ≤ k) ⊎ (writable_bytes b < k)
      → Stores (add_in_front b (to_memory k (swap_bytes k n))) (big_endian k n ++ xs)
  add_in_front_word k n few fits cap_fits room =
      let size = length-big_endian k n in
      rw (to_memory-swap_bytes k n)
        (add_in_front-Stores (big_endian k n) h (omega (arith, size)) cap_fits (rw size room))

-- The call returns `n` and leaves a valid buffer that holds `xs`.
pub record ReadsInt (o : Option (ℕ × MsgBuffer)) (n : ℕ) (xs : List ℕ) : Type 0 where
  pub out : MsgBuffer
  pub returns : o ≡ some (n, out)
  pub holds : Holds out xs

-- The bytes that a read of `k` bytes in network order gets, and what it leaves.
peek_word-big_endian :
    {b : MsgBuffer} (xs : List ℕ) (k n : ℕ)
    → Holds b (big_endian k n ++ xs)
    → peek_word k b ≡ some (of_memory (big_endian k n))
peek_word-big_endian xs k n h = peek_word-front h k (big_endian k n) xs (length-big_endian k n) refl

retrieve_word :
    {b : MsgBuffer} {xs : List ℕ} (k n : ℕ)
    → Holds b (big_endian k n ++ xs)
    → Holds (retrieve b k) xs
retrieve_word {b} {xs} k n h =
    rw (← drop-front (big_endian k n) xs k (length-big_endian k n)) (retrieve-Holds k h)

-- The condition under which `addInFront` of `k` bytes is defined.
abbrev pub FrontDefined : MsgBuffer → List ℕ → ℕ → Type 0
FrontDefined b xs k = (k ≤ b.head) ⊎ (length xs ≤ k) ⊎ (writable_bytes b < k)

module _ {b : MsgBuffer} {xs : List ℕ} (n : ℕ) (h : Holds b xs)
    (fits : length b.buffer + 8 < front_limit) (cap_fits : b.init_cap < front_limit) where
  -- `addInFrontInt16` and then `readInt16` returns the value and restores the contents.
  pub read_int16-add_in_front_int16 :
      n < 2 ^ 16 → FrontDefined b xs 2 → ReadsInt (add_in_front_int16 b n >>= read_int16) n xs
  unfolding add_in_front_int16 read_int16 peek_int16 htons
  read_int16-add_in_front_int16 small room =
      let s = add_in_front_word h 2 n (omega arith) fits cap_fits room in
      record {
        out = retrieve s.out 2;
        returns =
            rw (s.returns, peek_word-big_endian xs 2 n s.holds, swap_bytes-big_endian 2 n small);
        holds = retrieve_word 2 n s.holds;
      }

  -- `addInFrontInt32` and then `readInt32` returns the value and restores the contents.
  pub read_int32-add_in_front_int32 :
      n < 2 ^ 32 → FrontDefined b xs 4 → ReadsInt (add_in_front_int32 b n >>= read_int32) n xs
  unfolding add_in_front_int32 read_int32 peek_int32 htonl
  read_int32-add_in_front_int32 small room =
      let s = add_in_front_word h 4 n (omega arith) fits cap_fits room in
      record {
        out = retrieve s.out 4;
        returns =
            rw (s.returns, peek_word-big_endian xs 4 n s.holds, swap_bytes-big_endian 4 n small);
        holds = retrieve_word 4 n s.holds;
      }

  -- On a valid buffer below the size limits, for a value below 2 ^ 64, when there are 8 bytes before the
  -- contents, or these are at most 8 bytes, or there is no room for 8 bytes behind them (else the
  -- std::copy of `addInFront` is undefined): `addInFrontInt64` and then `readInt64` returns the value
  -- and restores the contents.
  pub read_int64-add_in_front_int64 :
      n < 2 ^ 64 → FrontDefined b xs 8 → ReadsInt (add_in_front_int64 b n >>= read_int64) n xs
  unfolding add_in_front_int64 read_int64 peek_int64 hton64 ntoh64
  read_int64-add_in_front_int64 small room =
      let s = add_in_front_word h 8 n (omega arith) fits cap_fits room in
      record {
        out = retrieve s.out 8;
        returns =
            rw (s.returns, peek_word-big_endian xs 8 n s.holds, swap_bytes-big_endian 8 n small);
        holds = retrieve_word 8 n s.holds;
      }
