-- ===== src/MsgBuffer/Tests.antt =====
-- Runs of the buffer, those of unittests/MsgBufferUnittest.cc among them, and the theorems at
-- concrete buffers.
use trantor.Prelude.{◌≡◌, refl, some, [], ◌∷◌, inl, inr, arith, replicate, ◌>>=◌}
use trantor.Memory.{read_at, memcpy, std_copy}
use trantor.Bytes.{to_memory, of_memory, swap_bytes, hton64}
use trantor.MsgBuffer.{
  MsgBuffer, new, writable_bytes, swap, put, append_by, append_buffer_by, grown_length, grow,
  ensure_fuel, ensure_writable_bytes, append, read, front_in_place, front_shift, add_in_front,
}
use trantor.MsgBuffer.Bounds.{Holds, Stores}
use trantor.MsgBuffer.Append.{append-Stores}
use trantor.MsgBuffer.Consume.{Reads, read-Reads}
use trantor.MsgBuffer.Front.{add_in_front-Stores}
use trantor.MsgBuffer.Wire.{add_in_front_int64, read_int64}
use trantor.MsgBuffer.Wire.Laws.{ReadsInt, read_int64-add_in_front_int64}
use trantor.MsgBuffer.Socket.{got, read_fd, offered}
use trantor.MsgBuffer.Socket.Laws.{Receives, read_fd-Receives}

-- Three readable bytes at the end of a storage of 16.
abbrev sample : MsgBuffer
sample = record {
  head = 13;
  init_cap = 8;
  buffer = 0 ∷ 0 ∷ 0 ∷ 0 ∷ 0 ∷ 0 ∷ 0 ∷ 0 ∷ 9 ∷ 9 ∷ 9 ∷ 9 ∷ 9 ∷ 1 ∷ 2 ∷ 3 ∷ [];
  tail = 16;
}

sample-Holds : Holds sample (1 ∷ 2 ∷ 3 ∷ [])
sample-Holds = record { valid = omega arith; bytes = refl }

-- The same bytes in front of free storage.
abbrev low : MsgBuffer
low = record {
  head = 1;
  init_cap = 8;
  buffer = 0 ∷ 13 ∷ 10 ∷ 3 ∷ 0 ∷ 0 ∷ 0 ∷ 0 ∷ 0 ∷ 0 ∷ [];
  tail = 4;
}

low-Holds : Holds low (13 ∷ 10 ∷ 3 ∷ [])
low-Holds = record { valid = omega arith; bytes = refl }

-- A buffer made for three bytes, full.
abbrev three : MsgBuffer
three = record {
  head = 8;
  init_cap = 3;
  buffer = 0 ∷ 0 ∷ 0 ∷ 0 ∷ 0 ∷ 0 ∷ 0 ∷ 0 ∷ 1 ∷ 2 ∷ 3 ∷ [];
  tail = 11;
}

-- `three` is what the constructor and one `append` make.
append-new-three : append (new 3) (1 ∷ 2 ∷ 3 ∷ []) ≡ some three
unfolding append append_by ensure_writable_bytes ensure_fuel put memcpy new
append-new-three = refl

writable_test :
    (append (new 100) (replicate 5 97) >>= λ b.
    append b (replicate 100 120) >>= λ c. some (writable_bytes c))
    ≡ some 111
unfolding append append_by ensure_writable_bytes ensure_fuel grow grown_length append_buffer_by swap
    put memcpy read_at new
writable_test = refl

add_in_front_test :
    (add_in_front (new 100) (97 ∷ []) >>= λ b.
    add_in_front_int64 b 123 >>= λ c. some (writable_bytes c))
    ≡ some 92
unfolding add_in_front front_in_place front_shift std_copy memcpy new add_in_front_int64 to_memory
    hton64 swap_bytes of_memory
add_in_front_test = refl

append-Stores_example : Stores (append sample (4 ∷ 5 ∷ [])) (1 ∷ 2 ∷ 3 ∷ 4 ∷ 5 ∷ [])
append-Stores_example = append-Stores (4 ∷ 5 ∷ []) sample-Holds (omega arith)

read-Reads_example : Reads (read sample 2) (1 ∷ 2 ∷ []) (3 ∷ [])
read-Reads_example = read-Reads 2 sample-Holds

add_in_front-Stores_example :
    Stores (add_in_front low (1 ∷ 2 ∷ 3 ∷ 4 ∷ [])) (1 ∷ 2 ∷ 3 ∷ 4 ∷ 13 ∷ 10 ∷ 3 ∷ [])
add_in_front-Stores_example =
    add_in_front-Stores (1 ∷ 2 ∷ 3 ∷ 4 ∷ []) low-Holds (omega arith) (omega arith)
      (inr (inl (omega arith)))

read_int64-add_in_front_int64_example :
    ReadsInt (add_in_front_int64 low 77 >>= read_int64) 77 (13 ∷ 10 ∷ 3 ∷ [])
read_int64-add_in_front_int64_example =
    read_int64-add_in_front_int64 77 low-Holds (omega arith) (omega arith) (omega arith)
      (inr (inl (omega arith)))

read_fd-Receives_example :
    Receives (read_fd sample (got (4 ∷ 5 ∷ []))) (got (4 ∷ 5 ∷ [])) (1 ∷ 2 ∷ 3 ∷ 4 ∷ 5 ∷ [])
unfolding offered
read_fd-Receives_example = read_fd-Receives (4 ∷ 5 ∷ []) sample-Holds (omega arith) (omega arith)
