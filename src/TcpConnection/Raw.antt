-- ===== src/TcpConnection/Raw.antt =====
-- What one `writeRaw` does, with a kernel that keeps to the documented behaviour of `write`.
use trantor.Prelude.{
  ℕ, ◌≤◌, ◌<◌, ◌^◌, ◌≡◌, ◌⊎◌, inl, inr, refl, sym, subst, true, List, ◌++◌, arith, length, take,
  append-nil, ltb, lt→ltb, Bool-cases,
}
use trantor.BufferNode.Content.{backlog}
use trantor.TcpConnection.{
  Conn, Answer, wrote, failed, Sent, sent, error, Kernel, is_eagain, below_int, enable_writing, log,
  wrote_some, after_write, next_call, write_raw,
}

-- What the kernel has taken, and behind it what waits in the list.
abbrev pub outgoing : Conn → List ℕ
outgoing c = c.wire ++ backlog c.write_buffer_list

-- A kernel takes no more than it is offered, and answers 0 only to an offer of nothing.
pub record Obeys (os : Kernel) : Type 0 where
  pub within : (k len n errno : ℕ) → os k len ≡ wrote n errno → n ≤ len
  pub progress : (k len errno : ℕ) → os k len ≡ wrote 0 errno → len ≡ 0

-- A kernel that takes something of every offer.
abbrev pub Willing : Kernel → Type 0
Willing os = (k len : ℕ) → 0 < len → (n errno : ℕ) × (os k len ≡ wrote n errno) × (0 < n)

-- The fields that a write leaves alone.
pub record SameQueue (c c' : Conn) : Type 0 where
  pub list : c'.write_buffer_list ≡ c.write_buffer_list
  pub state : c'.status ≡ c.status
  pub closing : c'.close_on_empty ≡ c.close_on_empty

-- `writeRaw` put the first `n` bytes of `xs` on the wire; if some are left, writing is enabled.
pub record Written (c : Conn) (xs : List ℕ) (n : ℕ) (c' : Conn) : Type 0 where
  pub same : SameQueue c c'
  pub bound : n ≤ length xs
  pub on_wire : c'.wire ≡ c.wire ++ take n xs
  pub armed : (n ≡ length xs) ⊎ (c'.writing ≡ true)
  pub kept : n ≡ length xs → c'.writing ≡ c.writing

abbrev pub RawResult : Conn → List ℕ → Conn × Sent → Type 0
RawResult c xs (c', sent n) = Written c xs n c'
RawResult c xs (c', error) = SameQueue c c' × (c'.wire ≡ c.wire) × (c'.writing ≡ c.writing)

-- The end of `writeRaw`, from a state `d` in which the bytes are on the wire.
wrote_some-Written :
    (c d : Conn) (xs : List ℕ) (n : ℕ)
    → SameQueue c d
    → d.writing ≡ c.writing
    → d.wire ≡ c.wire ++ take n xs
    → n ≤ length xs
    → length xs < 2 ^ 31
    → RawResult c xs (wrote_some d xs n)
unfolding wrote_some enable_writing log below_int
wrote_some-Written c d xs n same w e le small = record {
  same = record { list = ground arith; state = ground arith; closing = ground arith };
  bound = le;
  on_wire = ground arith;
  armed = ground arith;
  kept = ground arith;
}

next_call-SameQueue : (c : Conn) → SameQueue c (next_call c)
next_call-SameQueue c = record { list = refl; state = refl; closing = refl }

-- A negative answer that is EAGAIN counts as 0 bytes.
again-RawResult :
    (c : Conn) (xs : List ℕ) → length xs < 2 ^ 31 → RawResult c xs (wrote_some (next_call c) xs 0)
again-RawResult c xs small =
    wrote_some-Written c (next_call c) xs 0 (next_call-SameQueue c) refl (sym (append-nil c.wire))
      (omega arith) small

after_write-RawResult :
    (c : Conn) (xs : List ℕ) (a : Answer)
    → ((n errno : ℕ) → a ≡ wrote n errno → (n ≤ length xs) × (n ≡ 0 → length xs ≡ 0))
    → length xs < 2 ^ 31
    → RawResult c xs (after_write (next_call c) xs a)
unfolding after_write
after_write-RawResult c xs (wrote n errno) obeys small = elim (Bool-cases (ltb 0 n)) [
  | inl some_bytes ↦ rw some_bytes (
      wrote_some-Written c _ xs n (record { list = refl; state = refl; closing = refl }) refl refl
        (obeys n errno refl).0 small)
  | inr nothing ↦ rw nothing (elim (Bool-cases (is_eagain errno)) [
    | inl again ↦ rw again (again-RawResult c xs small)
    | inr other ↦ rw other (idle (ground arith))
  ])
]
  where
    idle : n ≡ 0 → Written c xs 0 (next_call c)
    idle e = record {
      same = next_call-SameQueue c;
      bound = omega arith;
      on_wire = sym (append-nil c.wire);
      armed = inl (sym ((obeys n errno refl).1 e));
      kept = λ _. refl;
    }
after_write-RawResult c xs (failed errno) obeys small = elim (Bool-cases (is_eagain errno)) [
  | inl again ↦ rw again (again-RawResult c xs small)
  | inr other ↦ rw other (next_call-SameQueue c, refl, refl)
]

-- `writeRaw` with a kernel that obeys.
pub write_raw-RawResult :
    (os : Kernel) (c : Conn) (xs : List ℕ)
    → Obeys os
    → length xs < 2 ^ 31
    → RawResult c xs (write_raw os c xs)
unfolding write_raw
write_raw-RawResult os c xs o small =
    after_write-RawResult c xs (os c.calls (length xs))
      (λ n errno e. (
        o.within c.calls (length xs) n errno e,
        λ z.
            o.progress c.calls (length xs) errno
              (subst (λ m. os c.calls (length xs) ≡ wrote m errno) z e),
      ))
      small

-- Bytes went out.
abbrev pub Moved : Conn × Sent → Type 0
Moved (c, sent n) = 0 < n
Moved (c, error) = ⊥

after_write-Moved :
    (c : Conn) (xs : List ℕ) (a : Answer) (n errno : ℕ)
    → a ≡ wrote n errno
    → 0 < n
    → Moved (after_write c xs a)
unfolding after_write wrote_some
after_write-Moved c xs a n errno e h = rw (e, lt→ltb 0 n h) h

pub write_raw-Moved :
    (os : Kernel) (c : Conn) (xs : List ℕ) → Willing os → 0 < length xs → Moved (write_raw os c xs)
unfolding write_raw
write_raw-Moved os c xs w h =
    let (n, errno, e, some_bytes) = w c.calls (length xs) h in
    after_write-Moved (next_call c) xs (os c.calls (length xs)) n errno e some_bytes
