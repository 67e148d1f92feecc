-- ===== src/MsgBuffer/Bounds.antt =====
-- The representation invariant of `MsgBuffer`, and the two steps that its methods share: the write
-- at `tail_` and the move to the front.
use trantor.Prelude.{
  ℕ, ◌+◌, ◌-◌, ◌≤◌, ◌<◌, ◌%◌, ◌≡◌, refl, sym, ap, ◌∙◌, some, List, [], ◌++◌, arith, Option, length,
  append-nil, length-replicate, size_max, add_size,
}
use trantor.Memory.{window, splice, memcpy, std_copy}
use trantor.Memory.Window.{length-window, length-splice, window-splice}
use trantor.MsgBuffer.{MsgBuffer, buffer_offset, new, readable_bytes, writable_bytes, put, compact}

-- The bytes that a reader will get.
abbrev pub contents : MsgBuffer → List ℕ
contents b = window b.head (b.tail - b.head) b.buffer

pub record IsValid (b : MsgBuffer) : Type 0 where
  pub ordered : b.head ≤ b.tail
  pub within : b.tail ≤ length b.buffer
  pub room : buffer_offset ≤ length b.buffer
  pub cap_room : buffer_offset ≤ b.init_cap
  pub cap_small : b.init_cap < size_max
  pub small : length b.buffer < size_max

-- `b` is valid, and `xs` are its bytes.
pub record Holds (b : MsgBuffer) (xs : List ℕ) : Type 0 where
  pub valid : IsValid b
  pub bytes : contents b ≡ xs

pub length-contents : {b : MsgBuffer} → IsValid b → length (contents b) ≡ b.tail - b.head
length-contents {b} v =
    length-window b.head (b.tail - b.head) b.buffer (omega (arith, v.ordered, v.within))

pub readable_bytes-eq : {b : MsgBuffer} → IsValid b → readable_bytes b ≡ b.tail - b.head
readable_bytes-eq v = omega (arith, v.ordered, v.within, v.small)

pub writable_bytes-eq : {b : MsgBuffer} → IsValid b → writable_bytes b ≡ length b.buffer - b.tail
writable_bytes-eq v = omega (arith, v.within, v.small)

pub readable_bytes-length :
    {b : MsgBuffer} {xs : List ℕ} → Holds b xs → readable_bytes b ≡ length xs
readable_bytes-length h =
    readable_bytes-eq h.valid ∙ sym (length-contents h.valid) ∙ ap length h.bytes

pub tail-Holds : {b : MsgBuffer} {xs : List ℕ} → Holds b xs → b.tail ≡ b.head + length xs
tail-Holds h = omega (arith, h.valid.ordered, length-contents h.valid, ap length h.bytes)

-- The call returns a valid buffer that holds `xs`.
pub record Stores (o : Option MsgBuffer) (xs : List ℕ) : Type 0 where
  pub out : MsgBuffer
  pub returns : o ≡ some out
  pub holds : Holds out xs

-- The same, in the storage of `b` and at its `head_`.
pub record StoresIn (b : MsgBuffer) (o : Option MsgBuffer) (xs : List ℕ) : Type 0 where
  pub out : MsgBuffer
  pub returns : o ≡ some out
  pub holds : Holds out xs
  pub same_size : length out.buffer ≡ length b.buffer
  pub same_head : out.head ≡ b.head

pub new-Holds :
    (len : ℕ)
    → buffer_offset ≤ len
    → len + buffer_offset < size_max
    → Holds (new len) []
      × (length (new len).buffer ≡ len + buffer_offset)
      × ((new len).head ≡ buffer_offset)
unfolding new
new-Holds len lo hi =
    let size : length (new len).buffer ≡ len + buffer_offset =
      omega (arith, length-replicate {A = ℕ} ((len + buffer_offset) % size_max) 0) in
    (record { valid = omega arith; bytes = refl }, size, refl)

-- The write at `tail_`, where it fits.
pub memcpy-Holds :
    {b : MsgBuffer} {xs : List ℕ} (ys : List ℕ)
    → Holds b xs
    → b.tail + length ys ≤ length b.buffer
    → (buf : List ℕ) × (memcpy b.buffer b.tail ys ≡ some buf)
      × (length buf ≡ length b.buffer)
      × Holds (record b { buffer = buf; tail = add_size b.tail (length ys) }) (xs ++ ys)
unfolding memcpy
memcpy-Holds {b} {xs} ys h fits =
    (splice b.buffer b.tail ys, ground arith, size, record { valid = valid; bytes = bytes })
  where
    open h use {valid as v}

    b' : MsgBuffer
    b' = record b { buffer = splice b.buffer b.tail ys; tail = add_size b.tail (length ys) }

    size : length b'.buffer ≡ length b.buffer
    size = length-splice b.buffer b.tail ys fits

    valid : IsValid b'
    valid = omega (arith, size, v)

    count : add_size b.tail (length ys) - b.head ≡ (b.tail - b.head) + (length ys + 0)
    count = omega (arith, v.ordered, v.small)

    bytes : contents b' ≡ xs ++ ys
    bytes =
        rw count (window-splice b.buffer b.head b.tail 0 ys v.ordered fits)
        ∙ ap (λ l. l ++ (ys ++ [])) h.bytes
        ∙ ap (λ l. xs ++ l) (append-nil ys)

pub put-Holds :
    {b : MsgBuffer} {xs : List ℕ} (ys : List ℕ)
    → Holds b xs
    → b.tail + length ys ≤ length b.buffer
    → StoresIn b (put b ys) (xs ++ ys)
unfolding put
put-Holds {b} ys h fits =
    let (buf, e, size, done) = memcpy-Holds ys h fits in
    record {
      out = record b { buffer = buf; tail = add_size b.tail (length ys) };
      returns = rw e;
      holds = done;
      same_size = size;
      same_head = refl;
    }

-- The move to the front: the destination lies before the source.
pub compact-Holds :
    {b : MsgBuffer} {xs : List ℕ}
    → Holds b xs
    → buffer_offset < b.head
    → (b' : MsgBuffer) × (compact b ≡ some b')
      × Holds b' xs
      × (length b'.buffer ≡ length b.buffer)
      × (b'.head ≡ buffer_offset)
unfolding compact std_copy
compact-Holds {b} {xs} h above =
    (b', ground arith, record { valid = valid; bytes = bytes }, size, refl)
  where
    open h use {valid as v}

    moved : List ℕ
    moved = window b.head (b.tail - b.head) b.buffer

    b' : MsgBuffer
    b' = record b {
      buffer = splice b.buffer buffer_offset moved;
      tail = (buffer_offset + (b.tail + size_max - b.head) % size_max) % size_max;
      head = buffer_offset;
    }

    count : length moved ≡ b.tail - b.head
    count = length-contents v

    fits : buffer_offset + length moved ≤ length b.buffer
    fits = omega (arith, count, v.within, above)

    size : length b'.buffer ≡ length b.buffer
    size = length-splice b.buffer buffer_offset moved fits

    end : b'.tail ≡ buffer_offset + length xs
    end = omega (arith, v.ordered, v.within, v.small, count, ap length h.bytes)

    valid : IsValid b'
    valid = record {
      ordered = omega (arith, end);
      within = omega (arith, size, end, fits, ap length h.bytes);
      room = omega (arith, size, v.room);
      cap_room = v.cap_room;
      cap_small = v.cap_small;
      small = omega (arith, size, v.small);
    }

    span : b'.tail - buffer_offset ≡ (buffer_offset - buffer_offset) + (length moved + 0)
    span = omega (arith, end, ap length h.bytes)

    bytes : contents b' ≡ xs
    bytes =
        ap (λ n. window buffer_offset n b'.buffer) span
        ∙ window-splice b.buffer buffer_offset buffer_offset 0 moved (omega arith) fits
        ∙ append-nil moved
        ∙ h.bytes
