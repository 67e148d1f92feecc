-- ===== src/TcpConnection/Tests.antt =====
-- Runs of a connection, and the theorems at concrete connections and kernels.
use trantor.Prelude.{
  ℕ, ◌%◌, ◌^◌, ◌≤◌, ◌≡◌, ◌⊎◌, refl, inl, true, false, some, none, List, [], ◌∷◌, arith, length,
  replicate, length-replicate, drop, min,
}
use trantor.MsgBuffer.{MsgBuffer}
use trantor.MsgBuffer.Bounds.{Holds}
use trantor.BufferNode.{FileBufferNode, mem, file}
use trantor.BufferNode.Content.{backlog, holding}
use trantor.TcpConnection.{Conn, connected, wrote, failed, Kernel, send_in_loop, write_raw}
use trantor.TcpConnection.Raw.{Obeys, Willing}
use trantor.TcpConnection.Order.{Sends, Refused, send_in_loop-Sends}
use trantor.TcpConnection.Callback.{Flushes, write_callback-Flushes}
use trantor.TcpConnection.Drains.{flush, Flushed, flush-Flushed}
use trantor.TcpConnection.File.{Dropped, send_file_buffer-Sends}
use trantor.TcpConnection.Lost.{send_in_loop-Stalls}
use trantor.TcpConnection.Send.{write_callback, send_file_buffer}

-- A kernel that takes three bytes at a time.
abbrev three_each : Kernel
three_each k len = wrote (min len 3) 11

wrote-injective : {n m e f : ℕ} → wrote n e ≡ wrote m f → n ≡ m
wrote-injective h = cc

three_each-Obeys : Obeys three_each
three_each-Obeys = record {
  within = λ k len n errno e. let same = wrote-injective e in omega arith;
  progress = λ k len errno e. let same = wrote-injective e in omega arith;
}

-- An open connection with nothing to send.
abbrev idle : Conn
idle = record {
  status = connected;
  reading = true;
  writing = false;
  write_buffer_list = [];
  close_on_empty = false;
  bytes_sent = 0;
  high_water_mark = none;
  wire = [];
  calls = 0;
  events = [];
}

send_in_loop-Sends_example :
    Sends idle (1 ∷ 2 ∷ 3 ∷ 4 ∷ 5 ∷ []) (send_in_loop three_each idle (1 ∷ 2 ∷ 3 ∷ 4 ∷ 5 ∷ []))
    ⊎ Refused idle
        (write_raw three_each idle (1 ∷ 2 ∷ 3 ∷ 4 ∷ 5 ∷ []))
        (send_in_loop three_each idle (1 ∷ 2 ∷ 3 ∷ 4 ∷ 5 ∷ []))
send_in_loop-Sends_example =
    send_in_loop-Sends three_each idle (1 ∷ 2 ∷ 3 ∷ 4 ∷ 5 ∷ []) three_each-Obeys refl (inl refl) tt
      (omega arith)

-- Four bytes that wait.
abbrev four : MsgBuffer
four = record {
  head = 8;
  init_cap = 8;
  buffer = 0 ∷ 0 ∷ 0 ∷ 0 ∷ 0 ∷ 0 ∷ 0 ∷ 0 ∷ 1 ∷ 2 ∷ 3 ∷ 4 ∷ 0 ∷ 0 ∷ 0 ∷ 0 ∷ [];
  tail = 12;
}

four-Holds : Holds four (1 ∷ 2 ∷ 3 ∷ 4 ∷ [])
four-Holds = record { valid = omega arith; bytes = refl }

abbrev busy : Conn
busy = record idle {
  writing = true;
  write_buffer_list = mem (record { is_done = false; buffer = four }) ∷ [];
  close_on_empty = true;
}

write_callback-Flushes_example : Flushes three_each busy (write_callback three_each 2 3 busy)
write_callback-Flushes_example =
    write_callback-Flushes three_each 2 3 busy three_each-Obeys refl
      (1 ∷ 2 ∷ 3 ∷ 4 ∷ [], holding four four-Holds, omega arith, tt) (omega arith) (omega arith)

three_each-Willing : Willing three_each
three_each-Willing k len h = (min len 3, 11, refl, omega arith)

flush-Flushed_example : Flushed busy (flush three_each 2 3 5 busy)
flush-Flushed_example =
    flush-Flushed three_each 2 3 5 busy three_each-Obeys three_each-Willing (omega arith) refl
      (1 ∷ 2 ∷ 3 ∷ 4 ∷ [], holding four four-Holds, omega arith, tt) (omega arith) (omega arith)

abbrev a_file : FileBufferNode
a_file = record {
  is_done = false;
  is_open = true;
  bytes_to_send = 4;
  buffer = none;
  source = 6 ∷ 7 ∷ 8 ∷ 9 ∷ [];
}

send_file_buffer-Sends_example :
    Sends idle (6 ∷ 7 ∷ 8 ∷ 9 ∷ []) (send_file_buffer three_each 2 idle (file a_file))
    ⊎ ((errno : ℕ) × (three_each 0 4 ≡ failed errno))
      × Dropped idle (send_file_buffer three_each 2 idle (file a_file))
send_file_buffer-Sends_example =
    send_file_buffer-Sends three_each 2 idle a_file three_each-Obeys (inl refl)
      (record { undone = refl; some_bytes = omega arith; backed = omega arith })

unfoldable zeros : ℕ → List ℕ
zeros n = replicate n 0

length-zeros : (n : ℕ) → length (zeros n) ≡ n
unfolding zeros
length-zeros n = length-replicate n 0

zeros-wrap : 2 ^ 31 ≤ length (zeros (2 ^ 31)) % 2 ^ 32
zeros-wrap = omega (arith, length-zeros (2 ^ 31))

abbrev one_each : Kernel
one_each k len = wrote 1 11

send_in_loop-Stalls_example :
    (d : Conn) × (send_in_loop one_each idle (zeros (2 ^ 31)) ≡ some d)
    × (d.writing ≡ false)
    × (backlog d.write_buffer_list ≡ drop 1 (zeros (2 ^ 31)))
send_in_loop-Stalls_example =
    send_in_loop-Stalls one_each idle (zeros (2 ^ 31)) 1 11 refl refl refl refl (omega arith)
      zeros-wrap (omega (arith, length-zeros (2 ^ 31)))
