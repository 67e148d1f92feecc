-- ===== src/MsgBuffer/Consume.antt =====
-- The methods that take bytes from either end: `retrieve`, `retrieveAll`, `retrieveUntil`, `read`,
-- `hasWritten` and `unwrite`, on the contents.
use trantor.Prelude.{
  ℕ, ◌+◌, ◌-◌, ◌≤◌, ◌≡◌, refl, sym, ap, ◌∙◌, some, List, [], ◌++◌, arith, length, take, drop,
  take-all, drop-all, take-take, take-drop, drop-drop, min, Bool-cases, inl, inr, leb, ltb, Option,
  add_size, sub_size,
}
use trantor.Memory.{window, read_at}
use trantor.Memory.Window.{length-resize, window-append}
use trantor.MsgBuffer.{
  MsgBuffer, readable_bytes, retrieve_all, retrieve, read, has_written, unwrite, retrieve_until,
}
use trantor.MsgBuffer.Bounds.{
  IsValid, Holds, Stores, contents, readable_bytes-eq, writable_bytes-eq, readable_bytes-length,
  tail-Holds,
}

-- `retrieveAll` empties the buffer, whether or not it gives the extra storage back.
pub retrieve_all-Holds : {b : MsgBuffer} → IsValid b → Holds (retrieve_all b) []
unfolding retrieve_all
retrieve_all-Holds {b} v =
    let size = length-resize b.init_cap b.buffer in
    record { valid = ground (arith, size, v.room, v.cap_room, v.cap_small, v.small); bytes = refl }

window-drop :
    (h k n : ℕ) (buf : List ℕ) → n ≤ k → window (h + n) (k - n) buf ≡ drop n (window h k buf)
window-drop h k n buf le =
    ap (take (k - n)) (sym (drop-drop n h buf))
    ∙ take-drop (k - n) n (drop h buf)
    ∙ ap (λ j. drop n (take j (drop h buf))) whole
  where
    whole : n + (k - n) ≡ k
    whole = omega arith

-- The step of `head_` inside the readable bytes.
advance-Holds :
    {b : MsgBuffer} {xs : List ℕ} (n : ℕ)
    → Holds b xs
    → b.head + n ≤ b.tail
    → Holds (record b { head = add_size b.head n }) (drop n xs)
advance-Holds {b} {xs} n h le = record {
  valid = record {
    ordered = omega (arith, h.valid.small, h.valid.within);
    within = h.valid.within;
    room = h.valid.room;
    cap_room = h.valid.cap_room;
    cap_small = h.valid.cap_small;
    small = h.valid.small;
  };
  bytes =
      rw (at, count) (window-drop b.head (b.tail - b.head) n b.buffer (omega arith))
      ∙ ap (drop n) h.bytes;
}
  where
    at : add_size b.head n ≡ b.head + n
    at = omega (arith, h.valid.small, h.valid.within)

    count : b.tail - (b.head + n) ≡ b.tail - b.head - n
    count = omega arith

-- `retrieve(n)` drops the first `n` bytes, or all if there are fewer.
pub retrieve-Holds :
    {b : MsgBuffer} {xs : List ℕ} (n : ℕ) → Holds b xs → Holds (retrieve b n) (drop n xs)
unfolding retrieve
retrieve-Holds {b} {xs} n h = elim (Bool-cases (leb (readable_bytes b) n)) [
  | inl all ↦
      let r = readable_bytes-length h in
      rw (all, drop-all n xs (ground arith)) (retrieve_all-Holds h.valid)
  | inr part ↦ rw part (advance-Holds n h (ground (arith, readable_bytes-eq h.valid)))
]

-- A shorter window shows a prefix of the contents.
pub window_prefix :
    {b : MsgBuffer} {xs : List ℕ} (n : ℕ)
    → Holds b xs
    → n ≤ length xs
    → window b.head n b.buffer ≡ take n xs
window_prefix {b} {xs} n h le =
    ap (λ k. take k (drop b.head b.buffer)) (sym least)
    ∙ sym (take-take n (b.tail - b.head) (drop b.head b.buffer))
    ∙ ap (take n) h.bytes
  where
    least : min n (b.tail - b.head) ≡ n
    least = omega (arith, tail-Holds h)

-- A read of at most the readable bytes, through `peek()`.
pub read_at-take :
    {b : MsgBuffer} {xs : List ℕ} (n : ℕ)
    → Holds b xs
    → n ≤ length xs
    → read_at b.buffer b.head n ≡ some (take n xs)
unfolding read_at
read_at-take {b} {xs} n h le = ground (arith, tail-Holds h, h.valid.within, window_prefix n h le)

-- The call returns `ys` and leaves a valid buffer that holds `xs`.
pub record Reads (o : Option (List ℕ × MsgBuffer)) (ys xs : List ℕ) : Type 0 where
  pub out : MsgBuffer
  pub returns : o ≡ some (ys, out)
  pub holds : Holds out xs

-- `read(n)` returns the first `n` bytes and removes them; it returns all if there are fewer.
pub read-Reads :
    {b : MsgBuffer} {xs : List ℕ} (n : ℕ) → Holds b xs → Reads (read b n) (take n xs) (drop n xs)
unfolding read
read-Reads {b} {xs} n h = elim (Bool-cases (ltb (readable_bytes b) n)) [
  | inl short ↦
      let few : length xs ≤ n = ground (arith, readable_bytes-length h) in
      record {
        out = retrieve b (readable_bytes b);
        returns = rw (
          short,
          read_at-take (readable_bytes b) h (omega (arith, readable_bytes-length h)),
          take-all (readable_bytes b) xs (omega (arith, readable_bytes-length h)),
          take-all n xs few,
        );
        holds =
            rw
              (
                drop-all n xs few,
                ← drop-all (readable_bytes b) xs (omega (arith, readable_bytes-length h)),
              )
              (retrieve-Holds (readable_bytes b) h);
      }
  | inr enough ↦ record {
    out = retrieve b n;
    returns = rw (enough, read_at-take n h (ground (arith, readable_bytes-length h)));
    holds = retrieve-Holds n h;
  }
]

-- `retrieveUntil(peek() + n)` inside the readable bytes is `retrieve(n)`.
pub retrieve_until-Stores :
    {b : MsgBuffer} {xs : List ℕ} (n : ℕ)
    → Holds b xs
    → n ≤ length xs
    → Stores (retrieve_until b (b.head + n)) (drop n xs)
unfolding retrieve_until
retrieve_until-Stores {b} {xs} n h le = record {
  out = retrieve b n;
  returns = ground (arith, end, offset, h.valid.within, h.valid.small);
  holds = retrieve-Holds n h;
}
  where
    end : b.tail ≡ b.head + length xs
    end = tail-Holds h

    offset : sub_size (b.head + n) b.head ≡ n
    offset = omega (arith, end, h.valid.within, h.valid.small)

-- `unwrite(n)` takes the last `n` bytes back, if there are as many.
pub unwrite-Stores :
    {b : MsgBuffer} {xs : List ℕ} (n : ℕ)
    → Holds b xs
    → n ≤ length xs
    → Stores (unwrite b n) (take (length xs - n) xs)
unfolding unwrite
unwrite-Stores {b} {xs} n h le = record {
  out = record b { tail = sub_size b.tail n };
  returns = ground (arith, readable_bytes-length h);
  holds = record { valid = omega (arith, tail-Holds h, h.valid); bytes = bytes };
}
  where
    count : sub_size b.tail n - b.head ≡ length xs - n
    count = omega (arith, tail-Holds h, h.valid)

    bytes : contents (record b { tail = sub_size b.tail n }) ≡ take (length xs - n) xs
    bytes = rw count (window_prefix (length xs - n) h (omega arith))

-- `hasWritten(n)` makes the next `n` bytes of the storage readable, if there are as many.
pub has_written-Stores :
    {b : MsgBuffer} {xs : List ℕ} (n : ℕ)
    → Holds b xs
    → b.tail + n ≤ length b.buffer
    → Stores (has_written b n) (xs ++ window b.tail n b.buffer)
unfolding has_written
has_written-Stores {b} {xs} n h le = record {
  out = record b { tail = add_size b.tail n };
  returns = ground (arith, writable_bytes-eq h.valid);
  holds = record { valid = omega (arith, h.valid); bytes = bytes };
}
  where
    count : add_size b.tail n - b.head ≡ (b.tail - b.head) + n
    count = omega (arith, h.valid)

    join : b.head + (b.tail - b.head) ≡ b.tail
    join = omega (arith, h.valid.ordered)

    bytes : contents (record b { tail = add_size b.tail n }) ≡ xs ++ window b.tail n b.buffer
    bytes =
        ap (λ k. window b.head k b.buffer) count
        ∙ window-append b.head (b.tail - b.head) n b.buffer
        ∙ ap (λ k. contents b ++ window k n b.buffer) join
        ∙ ap (λ l. l ++ window b.tail n b.buffer) h.bytes
