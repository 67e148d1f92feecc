-- ===== src/MsgBuffer/Append.antt =====
-- `ensureWritableBytes` and the two kinds of `append`: they keep the invariant, never fault on a
-- valid buffer, and change the contents as a byte queue does.
use trantor.Prelude.{
  Option, Bool, ℕ, suc, ◌+◌, ◌*◌, ◌≤◌, ◌<◌, ◌^◌, ◌≡◌, ap, ◌∙◌, some, List, ◌++◌, arith, length,
  Bool-cases, inl, inr, leb, true, false, leb→le, add_size,
}
use trantor.Memory.{read_at}
use trantor.MsgBuffer.{
  MsgBuffer, buffer_offset, readable_bytes, writable_bytes, put, append_by, append_buffer_by,
  grown_length, grow, swap, ensure_fuel, ensure_writable_bytes, append, append_buffer,
}
use trantor.MsgBuffer.Bounds.{
  Stores, Holds, length-contents, readable_bytes-eq, writable_bytes-eq, readable_bytes-length,
  Stores, StoresIn, tail-Holds, new-Holds, put-Holds, compact-Holds,
}

-- The sizes for which no computation of a new length wraps.
abbrev pub size_limit : ℕ
size_limit = 2 ^ 62

pub read_at-contents :
    {b : MsgBuffer} {xs : List ℕ}
    → Holds b xs
    → read_at b.buffer b.head (readable_bytes b) ≡ some xs
unfolding read_at
read_at-contents {b} {xs} h =
    let e = readable_bytes-eq h.valid in
    rw e (ground (arith, h.valid.ordered, h.valid.within, h.bytes))

-- With room for `len` bytes nothing happens, at any depth.
pub ensure_fuel-roomy :
    (fuel : ℕ) (b : MsgBuffer) (len : ℕ)
    → len ≤ writable_bytes b
    → ensure_fuel (suc fuel) b len ≡ some b
unfolding ensure_fuel
ensure_fuel-roomy fuel b len h = ground arith

pub grown_length-bounds :
    {b : MsgBuffer} {xs : List ℕ} (len : ℕ)
    → Holds b xs
    → length b.buffer + len < size_limit
    → (buffer_offset + length xs + len ≤ grown_length b len)
      × (length b.buffer * 2 ≤ grown_length b len)
      × (grown_length b len ≤ 2 * length b.buffer + len + buffer_offset)
unfolding grown_length
grown_length-bounds {b} {xs} len h fits = ground (
  arith,
  h.valid.ordered,
  h.valid.within,
  h.valid.small,
  h.valid.room,
  readable_bytes-length h,
  length-contents h.valid,
  ap length h.bytes,
)

-- Appending the contents of `src` to a buffer that has the room.
pub append_buffer_by-roomy :
    (fuel : ℕ) {b src : MsgBuffer} {xs ys : List ℕ}
    → Holds b xs
    → Holds src ys
    → b.tail + length ys ≤ length b.buffer
    → StoresIn b (append_buffer_by (ensure_fuel (suc fuel)) b src) (xs ++ ys)
unfolding append_buffer_by
append_buffer_by-roomy fuel {b} {src} {xs} {ys} h k fits =
    let p = put-Holds ys h fits in
    record {
      out = p.out;
      returns = steps ∙ p.returns;
      holds = p.holds;
      same_size = p.same_size;
      same_head = p.same_head;
    }
  where
    room : readable_bytes src ≤ writable_bytes b
    room = omega (arith, readable_bytes-length k, writable_bytes-eq h.valid)

    steps : append_buffer_by (ensure_fuel (suc fuel)) b src ≡ put b ys
    steps =
        rw
          (ensure_fuel-roomy fuel b (readable_bytes src) room, read_at-contents k, append_buffer_by)

-- The third branch: a new buffer, which takes the contents and has the room.
pub grow-Holds :
    (fuel : ℕ) {b : MsgBuffer} {xs : List ℕ} (len : ℕ)
    → Holds b xs
    → length b.buffer + len < size_limit
    → (b' : MsgBuffer) × (grow (ensure_fuel (suc fuel)) b len ≡ some b')
      × Holds b' xs
      × (b'.tail + len ≤ length b'.buffer)
      × (length b'.buffer ≤ 2 * length b.buffer + len + 16)
unfolding grow swap
grow-Holds fuel {b} {xs} len h fits =
    let bounds = grown_length-bounds len h fits in
    let (fresh, size, head) = new-Holds (grown_length b len) (omega arith) (omega arith) in
    let start = tail-Holds fresh in
    let p = append_buffer_by-roomy fuel fresh h (omega arith) in
    let end = tail-Holds p.holds in
    (
      p.out,
      rw p.returns,
      p.holds,
      omega (arith, end, p.same_size, p.same_head),
      omega (arith, p.same_size),
    )

-- What `ensureWritableBytes(len)` promises.
pub record Roomy (b : MsgBuffer) (o : Option MsgBuffer) (xs : List ℕ) (len : ℕ) : Type 0 where
  pub out : MsgBuffer
  pub returns : o ≡ some out
  pub holds : Holds out xs
  pub has_room : out.tail + len ≤ length out.buffer
  pub growth : length out.buffer ≤ 2 * length b.buffer + len + 16

module _ {b : MsgBuffer} {xs : List ℕ} (fuel len : ℕ) (h : Holds b xs) where
  abbrev Short : Type 0
  Short = leb len (writable_bytes b) ≡ false

  abbrev Enough : Bool → Type 0
  Enough t = leb (add_size len buffer_offset) (add_size b.head (writable_bytes b)) ≡ t

  compact-Roomy :
      length b.buffer + len < size_limit
      → Short
      → Enough true
      → Roomy b (ensure_fuel (suc fuel) b len) xs len
  unfolding ensure_fuel
  compact-Roomy fits short enough =
      let w = writable_bytes-eq h.valid in
      let start = tail-Holds h in
      let (b', e, done, size, head) = compact-Holds h (ground arith) in
      record {
        out = b';
        returns = rw (short, enough) e;
        holds = done;
        has_room = ground (arith, tail-Holds done);
        growth = omega (arith, size);
      }

  grow-Roomy :
      length b.buffer + len < size_limit
      → Short
      → Enough false
      → Roomy b (ensure_fuel (suc (suc fuel)) b len) xs len
  grow-Roomy fits short full =
      let (b', e, done, room, growth) = grow-Holds fuel len h fits in
      record {
        out = b';
        returns = unfold ensure_fuel in rw (short, full) e;
        holds = done;
        has_room = room;
        growth = growth;
      }

-- On a valid buffer the call does not fault, keeps the contents, and makes the room.
pub ensure_writable_bytes-Roomy :
    {b : MsgBuffer} {xs : List ℕ} (len : ℕ)
    → Holds b xs
    → length b.buffer + len < size_limit
    → Roomy b (ensure_writable_bytes b len) xs len
unfolding ensure_writable_bytes
ensure_writable_bytes-Roomy {b} {xs} len h fits = elim (Bool-cases (leb len (writable_bytes b))) [
  | inl roomy ↦
      let room = leb→le _ _ roomy in
      record {
        out = b;
        returns = ensure_fuel-roomy 1 b len room;
        holds = h;
        has_room = omega (arith, writable_bytes-eq h.valid, h.valid.within);
        growth = omega arith;
      }
  | inr short ↦
      elim (Bool-cases (leb (add_size len buffer_offset) (add_size b.head (writable_bytes b)))) [
        | inl enough ↦ compact-Roomy 1 len h fits short enough
        | inr full ↦ grow-Roomy 0 len h fits short full
      ]
]

-- An append that also bounds the storage.
pub append-bounded :
    {b : MsgBuffer} {xs : List ℕ} (ys : List ℕ)
    → Holds b xs
    → length b.buffer + length ys < size_limit
    → (s : Stores (append b ys) (xs ++ ys)) × (length s.out.buffer
        ≤ 2 * length b.buffer + length ys + 16)
unfolding append append_by
append-bounded {b} ys h fits =
    let r = ensure_writable_bytes-Roomy (length ys) h fits in
    let p = put-Holds ys r.holds r.has_room in
    (
      record { out = p.out; returns = rw (r.returns, append_by) p.returns; holds = p.holds },
      omega (arith, p.same_size, r.growth),
    )

-- `append(data, len)` adds the bytes at the end.
pub append-Stores :
    {b : MsgBuffer} {xs : List ℕ} (ys : List ℕ)
    → Holds b xs
    → length b.buffer + length ys < size_limit
    → Stores (append b ys) (xs ++ ys)
append-Stores ys h fits = (append-bounded ys h fits).0

-- `append(buf)` adds the contents of another buffer.
pub append_buffer-Stores :
    {b src : MsgBuffer} {xs ys : List ℕ}
    → Holds b xs
    → Holds src ys
    → length b.buffer + length ys < size_limit
    → Stores (append_buffer b src) (xs ++ ys)
unfolding append_buffer append_buffer_by
append_buffer-Stores {src} {ys} h k fits =
    let r = ensure_writable_bytes-Roomy (length ys) h fits in
    let p = put-Holds ys r.holds r.has_room in
    let e : readable_bytes src ≡ length ys = readable_bytes-length k in
    record {
      out = p.out;
      returns =
          rw (ap (ensure_writable_bytes _) e, r.returns, read_at-contents k, append_buffer_by)
            p.returns;
      holds = p.holds;
    }
