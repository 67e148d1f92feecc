-- ===== src/BufferNode/Content.antt =====
-- The bytes that a node has still to send, and the memory node as a queue of bytes.
use trantor.Prelude.{
  ℕ, ◌+◌, ◌<◌, ◌≡◌, refl, sym, ap, ◌∙◌, false, some, none, List, [], ◌∷◌, ◌++◌, arith, length, take,
  drop, if◌then◌else◌, append_assoc,
}
use trantor.MsgBuffer.{MsgBuffer, retrieve}
use trantor.MsgBuffer.Bounds.{Holds, contents, new-Holds, readable_bytes-length}
use trantor.MsgBuffer.Append.{size_limit, append-Stores, read_at-contents}
use trantor.MsgBuffer.Consume.{retrieve-Holds}
use trantor.BufferNode.{
  BufferNode, mem, file, stream, async, new_mem_node, remaining_bytes, view, get_data, append_node,
  retrieve_node,
}

-- What the callback of a stream will give before it ends.
abbrev pub until_empty : List (List ℕ) → List ℕ
until_empty [] = []
until_empty ([] ∷ rest) = []
until_empty ((x ∷ xs) ∷ rest) = (x ∷ xs) ++ until_empty rest

-- The bytes that a node has still to send.
abbrev pub pending : BufferNode → List ℕ
pending (mem n) = if n.is_done then [] else contents n.buffer
pending (file n) = if n.is_done then [] else take n.bytes_to_send n.source
pending (stream n) = if n.is_done then [] else contents n.buffer ++ until_empty n.chunks
pending (async n) = elim n.buffer [ none ↦ [] | some b ↦ contents b ]

abbrev pub backlog : List BufferNode → List ℕ
backlog [] = []
backlog (n ∷ ns) = pending n ++ backlog ns

pub backlog-append : (ns ms : List BufferNode) → backlog (ns ++ ms) ≡ backlog ns ++ backlog ms
backlog-append [] ms = refl
backlog-append (n ∷ ns) ms =
    ap (λ l. pending n ++ l) (backlog-append ns ms)
    ∙ sym (append_assoc (pending n) (backlog ns) (backlog ms))

-- A memory node in use, which holds `xs`.
pub data MemHolds : BufferNode → List ℕ → Type 0 where
  holding :
      (b : MsgBuffer) {xs : List ℕ}
      → Holds b xs
      → MemHolds (mem (record { is_done = false; buffer = b })) xs

pub MemHolds-pending : {n : BufferNode} {xs : List ℕ} → MemHolds n xs → pending n ≡ xs
MemHolds-pending (holding b h) = h.bytes

pub MemHolds-remaining_bytes :
    {n : BufferNode} {xs : List ℕ} → MemHolds n xs → remaining_bytes n ≡ length xs
unfolding remaining_bytes
MemHolds-remaining_bytes (holding b h) = readable_bytes-length h

pub new_mem_node-MemHolds : MemHolds new_mem_node []
unfolding new_mem_node
new_mem_node-MemHolds = holding _ (new-Holds 2048 (omega arith) (omega arith)).0

-- `getData` of a memory node offers all that it holds.
pub get_data-MemHolds : {n : BufferNode} {xs : List ℕ} → MemHolds n xs → get_data n ≡ some (n, xs)
unfolding get_data view
get_data-MemHolds (holding b h) = rw (read_at-contents h)

-- The node's storage.
abbrev pub mem_size : BufferNode → ℕ
mem_size (mem n) = length n.buffer.buffer
mem_size (file n) = 0
mem_size (stream n) = 0
mem_size (async n) = 0

pub append_node-MemHolds :
    {n : BufferNode} {xs : List ℕ} (ys : List ℕ)
    → MemHolds n xs
    → mem_size n + length ys < size_limit
    → (n' : BufferNode) × (append_node n ys ≡ some n') × MemHolds n' (xs ++ ys)
unfolding append_node
append_node-MemHolds ys (holding b h) fits =
    let s = append-Stores ys h fits in
    (mem (record { is_done = false; buffer = s.out }), rw s.returns, holding s.out s.holds)

pub retrieve_node-MemHolds :
    {n : BufferNode} {xs : List ℕ} (k : ℕ)
    → MemHolds n xs
    → (n' : BufferNode) × (retrieve_node n k ≡ some n') × MemHolds n' (drop k xs)
unfolding retrieve_node
retrieve_node-MemHolds k (holding b h) = (
  mem (record { is_done = false; buffer = retrieve b k }),
  refl,
  holding (retrieve b k) (retrieve-Holds k h),
)

pub mem_size-new_mem_node : mem_size new_mem_node ≡ 2056
unfolding new_mem_node
mem_size-new_mem_node = (new-Holds 2048 (omega arith) (omega arith)).1
