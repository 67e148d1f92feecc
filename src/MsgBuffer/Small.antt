-- ===== src/MsgBuffer/Small.antt =====
-- Buffers made for fewer than `kBufferOffset` bytes, as `AsyncBufferNode` makes them.
use trantor.Prelude.{ℕ, ◌+◌, ◌*◌, ◌≤◌, ◌<◌, ◌≡◌, none, List, arith, length, size_max}
use trantor.Memory.{memcpy}
use trantor.Memory.Window.{length-resize}
use trantor.MsgBuffer.{
  MsgBuffer, buffer_offset, retrieve_all, append, append_by, put, ensure_writable_bytes,
}
use trantor.MsgBuffer.Append.{ensure_fuel-roomy}

module _ (b : MsgBuffer) (small : b.init_cap < buffer_offset)
    (big : 2 * b.init_cap < length b.buffer) where
  emptied_size : length (retrieve_all b).buffer ≡ b.init_cap
  unfolding retrieve_all
  emptied_size = ground (arith, length-resize b.init_cap b.buffer)

  emptied_tail : (retrieve_all b).tail ≡ buffer_offset
  unfolding retrieve_all
  emptied_tail = omega arith

  -- A buffer made for fewer than 8 bytes loses its room when it is emptied, and `writableBytes()`
  -- wraps: the next `append` writes outside the vector.
  pub append-retrieve_all_small :
      (xs : List ℕ)
      → 0 < length xs
      → length xs + buffer_offset ≤ size_max
      → append (retrieve_all b) xs ≡ none
  unfolding append append_by ensure_writable_bytes put memcpy
  append-retrieve_all_small xs some_bytes sane =
      let size = emptied_size in
      let at = emptied_tail in
      rw (ensure_fuel-roomy 1 (retrieve_all b) (length xs) (omega (arith, size, at)), append_by)
        (ground (arith, size, at))
