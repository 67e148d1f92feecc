-- ===== src/MsgBuffer/Front.antt =====
-- `addInFront` on its three branches, and where its `std::copy` is undefined.
use trantor.Prelude.{
  ℕ, ◌+◌, ◌-◌, ◌^◌, ◌⊎◌, leb→le, ◌≤◌, ◌<◌, ◌≡◌, sym, ap, ◌∙◌, none, List, ◌++◌, arith, length, leb,
  add_size, sub_size, Bool-cases, inl, inr,
}
use trantor.Memory.{window, splice, memcpy, std_copy}
use trantor.Memory.Window.{length-splice, window-splice_start, window-splice_self}
use trantor.MsgBuffer.{
  MsgBuffer, buffer_offset, writable_bytes, front_in_place, front_shift, front_grow, front_length,
  add_in_front, swap,
}
use trantor.MsgBuffer.Bounds.{
  IsValid, Holds, Stores, contents, readable_bytes-eq, writable_bytes-eq, tail-Holds, new-Holds,
}
use trantor.MsgBuffer.Append.{append-bounded, append_buffer-Stores}

-- The sizes for which the new lengths of both buffers stay below `size_limit`.
abbrev pub front_limit : ℕ
front_limit = 2 ^ 58

front_in_place-Stores :
    {b : MsgBuffer} {xs : List ℕ} (ys : List ℕ)
    → Holds b xs
    → length ys ≤ b.head
    → Stores (front_in_place b ys) (ys ++ xs)
unfolding front_in_place memcpy
front_in_place-Stores {b} {xs} ys h le = record {
  out = out;
  returns = ground (arith, at, h.valid.ordered, h.valid.within);
  holds = record { valid = valid; bytes = bytes };
}
  where
    at : sub_size b.head (length ys) ≡ b.head - length ys
    at = omega (arith, h.valid)

    fits : sub_size b.head (length ys) + length ys ≤ length b.buffer
    fits = omega (arith, h.valid)

    out : MsgBuffer
    out = record b {
      buffer = splice b.buffer (sub_size b.head (length ys)) ys;
      head = sub_size b.head (length ys);
    }

    size : length out.buffer ≡ length b.buffer
    size = length-splice b.buffer (sub_size b.head (length ys)) ys fits

    valid : IsValid out
    valid = omega (arith, size, h.valid, at)

    count : out.tail - out.head ≡ length ys + (b.tail - b.head)
    count = omega (arith, h.valid, at)

    back : out.head + length ys ≡ b.head
    back = omega (arith, at)

    bytes : contents out ≡ ys ++ xs
    bytes =
        ap (λ n. window out.head n out.buffer) count
        ∙ window-splice_start b.buffer out.head (b.tail - b.head) ys fits
        ∙ ap (λ k. ys ++ window k (b.tail - b.head) b.buffer) back
        ∙ ap (λ l. ys ++ l) h.bytes

-- The shift to the right, where the ranges do not overlap.
front_shift-Stores :
    {b : MsgBuffer} {xs : List ℕ} (ys : List ℕ)
    → Holds b xs
    → b.tail + length ys ≤ length b.buffer
    → length xs ≤ length ys
    → Stores (front_shift b ys) (ys ++ xs)
unfolding front_shift std_copy memcpy
front_shift-Stores {b} {xs} ys h fits apart = record {
  out = out;
  returns = ground (arith, at, tail-Holds h, h.valid.within, once);
  holds = record { valid = valid; bytes = bytes };
}
  where
    body : List ℕ
    body = window b.head (b.tail - b.head) b.buffer

    count : length body ≡ length xs
    count = ap length h.bytes

    end : b.tail ≡ b.head + length xs
    end = tail-Holds h

    at : add_size b.head (length ys) ≡ b.head + length ys
    at = omega (arith, h.valid)

    moved : List ℕ
    moved = splice b.buffer (add_size b.head (length ys)) body

    once : length moved ≡ length b.buffer
    once = length-splice b.buffer (add_size b.head (length ys)) body (omega (arith, at, end, count))

    out : MsgBuffer
    out = record b { buffer = splice moved b.head ys; tail = add_size b.tail (length ys) }

    room : b.head + length ys ≤ length moved
    room = omega (arith, once, h.valid)

    size : length out.buffer ≡ length b.buffer
    size = length-splice moved b.head ys room ∙ once

    valid : IsValid out
    valid = omega (arith, size, h.valid)

    span : out.tail - b.head ≡ length ys + length body
    span = omega (arith, h.valid, end, count)

    landed : window (b.head + length ys) (length body) moved ≡ body
    landed =
        ap (λ k. window k (length body) moved) (sym at)
        ∙ window-splice_self b.buffer (add_size b.head (length ys)) body
            (omega (arith, at, end, count))

    bytes : contents out ≡ ys ++ xs
    bytes =
        ap (λ n. window b.head n out.buffer) span
        ∙ window-splice_start moved b.head (length body) ys room
        ∙ ap (λ l. ys ++ l) (landed ∙ h.bytes)

front_length-bounds :
    {b : MsgBuffer} {xs : List ℕ} (len : ℕ)
    → Holds b xs
    → length b.buffer + len < front_limit
    → b.init_cap < front_limit
    → (buffer_offset ≤ front_length b len) × (front_length b len < front_limit)
unfolding front_length
front_length-bounds len h fits cap_fits = ground (arith, readable_bytes-eq h.valid, h.valid)

-- The third branch: a new buffer takes the new bytes, then the old ones.
front_grow-Stores :
    {b : MsgBuffer} {xs : List ℕ} (ys : List ℕ)
    → Holds b xs
    → length b.buffer + length ys < front_limit
    → b.init_cap < front_limit
    → Stores (front_grow b ys) (ys ++ xs)
unfolding front_grow swap
front_grow-Stores {b} {xs} ys h fits cap_fits =
    let bounds = front_length-bounds (length ys) h fits cap_fits in
    let (fresh, size, head) = new-Holds (front_length b (length ys)) bounds.0 (omega arith) in
    let (first, grown) = append-bounded ys fresh (omega arith) in
    let both = append_buffer-Stores first.holds h (omega (arith, tail-Holds h, h.valid.within)) in
    record { out = both.out; returns = rw (first.returns, both.returns); holds = both.holds }

-- `addInFront` puts the bytes before the contents, if there is room before `head_`, or the new bytes
-- are as many as the old, or the storage has to grow.
pub add_in_front-Stores :
    {b : MsgBuffer} {xs : List ℕ} (ys : List ℕ)
    → Holds b xs
    → length b.buffer + length ys < front_limit
    → b.init_cap < front_limit
    → (length ys ≤ b.head) ⊎ (length xs ≤ length ys) ⊎ (writable_bytes b < length ys)
    → Stores (add_in_front b ys) (ys ++ xs)
unfolding add_in_front
add_in_front-Stores {b} {xs} ys h fits cap_fits cases = elim (Bool-cases (leb (length ys) b.head)) [
  | inl before ↦ rw before (front_in_place-Stores ys h (leb→le _ _ before))
  | inr after ↦ elim (Bool-cases (leb (length ys) (writable_bytes b))) [
    | inl shift ↦
        rw (after, shift)
          (front_shift-Stores ys h (ground (arith, writable_bytes-eq h.valid, h.valid.within))
            (ground arith))
    | inr full ↦ rw (after, full) (front_grow-Stores ys h fits cap_fits)
  ]
]

-- In the remaining case the shift copies onto an overlapping range to its right.
pub add_in_front_overlap :
    {b : MsgBuffer} {xs : List ℕ} (ys : List ℕ)
    → Holds b xs
    → b.head < length ys
    → length ys ≤ writable_bytes b
    → length ys < length xs
    → add_in_front b ys ≡ none
unfolding add_in_front front_shift std_copy
add_in_front_overlap {b} ys h after room overlap =
    ground (arith, tail-Holds h, writable_bytes-eq h.valid, h.valid)
