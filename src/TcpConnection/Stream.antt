-- ===== src/TcpConnection/Stream.antt =====
-- What reaches the kernel and what still waits: `sendInLoop` adds its bytes at the end of that
-- stream, and lets no other byte be lost, doubled or moved.
use trantor.Prelude.{
  ℕ, suc, ◌+◌, ◌<◌, ◌≡◌, inl, inr, refl, sym, ap, ◌∙◌, true, false, Option, some, List, [], ◌∷◌,
  ◌++◌, arith, length, append-nil, append_assoc, if◌then◌else◌, ltb, Bool-cases,
}
use trantor.BufferNode.{BufferNode, mem, file, stream, async, new_mem_node}
use trantor.BufferNode.Content.{
  pending, backlog, MemHolds, MemHolds-pending, mem_size, mem_size-new_mem_node,
  append_node-MemHolds, new_mem_node-MemHolds,
}
use trantor.MsgBuffer.Append.{size_limit}
use trantor.TcpConnection.{
  Conn, is_connected, log, append_back, needs_node, check_high_water, queue_rest,
}

-- The room that the last node of a list must have, if it is a memory node.
abbrev pub NodeFits : BufferNode → ℕ → Type 0
NodeFits (mem n) len = (xs : List ℕ) × MemHolds (mem n) xs × (mem_size (mem n) + len < size_limit)
NodeFits (file n) len = Unit
NodeFits (stream n) len = Unit
NodeFits (async n) len = Unit

abbrev pub BackFits : List BufferNode → ℕ → Type 0
BackFits [] len = Unit
BackFits (n ∷ []) len = NodeFits n len
BackFits (n ∷ m ∷ ns) len = BackFits (m ∷ ns) len

-- The list takes the bytes at its end.
pub record Appended (ns : List BufferNode) (xs : List ℕ) (o : Option (List BufferNode))
    : Type 0 where
  pub out : List BufferNode
  pub returns : o ≡ some out
  pub bytes : backlog out ≡ backlog ns ++ xs

append_back-Appended :
    (ns : List BufferNode) (xs : List ℕ)
    → BackFits ns (length xs)
    → needs_node ns ≡ false
    → Appended ns xs (append_back ns xs)
unfolding append_back needs_node
append_back-Appended [] xs fits e = cc
append_back-Appended (mem n ∷ []) xs fits e =
    let (ys, h, room) = fits in
    let (n', r, h') = append_node-MemHolds xs h room in
    record {
      out = n' ∷ [];
      returns = rw r;
      bytes =
          append-nil (pending n')
          ∙ MemHolds-pending h'
          ∙ ap (λ l. l ++ xs) (sym (append-nil (pending (mem n)) ∙ MemHolds-pending h));
    }
append_back-Appended (file n ∷ []) xs fits e = cc
append_back-Appended (stream n ∷ []) xs fits e = cc
append_back-Appended (async n ∷ []) xs fits e = cc
append_back-Appended (n ∷ m ∷ ns) xs fits e =
    let r = append_back-Appended (m ∷ ns) xs fits e in
    record {
      out = n ∷ r.out;
      returns = rw r.returns;
      bytes =
          ap (λ l. pending n ++ l) r.bytes ∙ sym (append_assoc (pending n) (backlog (m ∷ ns)) xs);
    }

append_back-fresh :
    (ns : List BufferNode) (xs : List ℕ)
    → length xs + 2056 < size_limit
    → Appended ns xs (append_back (ns ++ (new_mem_node ∷ [])) xs)
unfolding append_back
append_back-fresh [] xs room =
    let (n', r, h') =
      append_node-MemHolds xs new_mem_node-MemHolds (omega (arith, mem_size-new_mem_node)) in
    record { out = n' ∷ []; returns = rw r; bytes = append-nil (pending n') ∙ MemHolds-pending h' }
append_back-fresh (n ∷ []) xs room =
    let r = append_back-fresh [] xs room in
    record {
      out = n ∷ r.out;
      returns = rw r.returns;
      bytes = ap (λ l. pending n ++ l) r.bytes ∙ ap (λ l. l ++ xs) (sym (append-nil (pending n)));
    }
append_back-fresh (n ∷ m ∷ ns) xs room =
    let r = append_back-fresh (m ∷ ns) xs room in
    record {
      out = n ∷ r.out;
      returns = rw r.returns;
      bytes =
          ap (λ l. pending n ++ l) r.bytes ∙ sym (append_assoc (pending n) (backlog (m ∷ ns)) xs);
    }

-- The bytes of `xs` wait at the end of the list, and nothing else has changed.
pub record Queued (c : Conn) (xs : List ℕ) (o : Option Conn) : Type 0 where
  pub out : Conn
  pub returns : o ≡ some out
  pub bytes : backlog out.write_buffer_list ≡ backlog c.write_buffer_list ++ xs
  pub same_wire : out.wire ≡ c.wire
  pub same_writing : out.writing ≡ c.writing
  pub same_status : out.status ≡ c.status

check_high_water-same :
    (c : Conn)
    → let c' = check_high_water c in
      (c'.write_buffer_list ≡ c.write_buffer_list)
      × (c'.wire ≡ c.wire)
      × (c'.writing ≡ c.writing)
      × (c'.status ≡ c.status)
unfolding check_high_water log
check_high_water-same c = ground arith

-- The list, with a new memory node where the code starts one.
list_for : List BufferNode → List BufferNode
list_for ns = if needs_node ns then ns ++ (new_mem_node ∷ []) else ns

list_for-Appended :
    (ns : List BufferNode) (xs : List ℕ)
    → BackFits ns (length xs)
    → length xs + 2056 < size_limit
    → Appended ns xs (append_back (list_for ns) xs)
unfolding list_for
list_for-Appended ns xs fits room = elim (Bool-cases (needs_node ns)) [
  | inl fresh ↦ rw fresh (append_back-fresh ns xs room)
  | inr last ↦ rw last (append_back-Appended ns xs fits last)
]

pub queue_rest-nil : (c : Conn) → queue_rest c [] ≡ some c
unfolding queue_rest
queue_rest-nil c = refl

some_wait : (n : ℕ) → ltb 0 (suc n) ≡ true
some_wait n = ground arith

queue_rest-returns :
    (c : Conn) (x : ℕ) (xs : List ℕ) (ns : List BufferNode)
    → is_connected c.status ≡ true
    → append_back (list_for c.write_buffer_list) (x ∷ xs) ≡ some ns
    → queue_rest c (x ∷ xs) ≡ some (check_high_water (record c { write_buffer_list = ns }))
unfolding queue_rest list_for
queue_rest-returns c x xs ns up e = rw (up, some_wait (length xs), e)

pub queue_rest-Queued :
    (c : Conn) (xs : List ℕ)
    → is_connected c.status ≡ true
    → BackFits c.write_buffer_list (length xs)
    → length xs + 2056 < size_limit
    → Queued c xs (queue_rest c xs)
queue_rest-Queued c [] up fits room = record {
  out = c;
  returns = queue_rest-nil c;
  bytes = sym (append-nil (backlog c.write_buffer_list));
  same_wire = refl;
  same_writing = refl;
  same_status = refl;
}
queue_rest-Queued c (x ∷ xs) up fits room =
    let a = list_for-Appended c.write_buffer_list (x ∷ xs) fits room in
    let d = record c { write_buffer_list = a.out } in
    let same = check_high_water-same d in
    record {
      out = check_high_water d;
      returns = queue_rest-returns c x xs a.out up a.returns;
      bytes = ap backlog same.0 ∙ a.bytes;
      same_wire = same.1;
      same_writing = same.2;
      same_status = same.3;
    }
