-- ===== src/TcpConnection/Drain.antt =====
-- `writeCallback` over a list of memory nodes.
use trantor.Prelude.{
  ℕ, suc, ◌+◌, ◌-◌, ◌≤◌, ◌<◌, ◌^◌, ◌≡◌, ◌⊎◌, inl, inr, refl, sym, subst, ◌∙◌, Bool, true, false,
  Option, some, List, [], ◌∷◌, ◌++◌, arith, length, take, drop, length-drop, append-nil, ltb, ◌==◌,
  Bool-cases,
}
use trantor.BufferNode.{BufferNode, remaining_bytes, get_data}
use trantor.BufferNode.Content.{
  backlog, MemHolds, holding, MemHolds-remaining_bytes, get_data-MemHolds, retrieve_node-MemHolds,
}
use trantor.TcpConnection.{Conn, Sent, sent, error, Kernel, write_raw}
use trantor.TcpConnection.Raw.{
  outgoing, Obeys, Willing, Moved, write_raw-Moved, SameQueue, RawResult, write_raw-RawResult,
}
use trantor.TcpConnection.Send.{send_chunks, after_chunk, send_node_in_loop}

-- The first `k` bytes of the node went out, and writing is still enabled.
pub record Pushed (os : Kernel) (c : Conn) (xs : List ℕ) (o : Option (Conn × BufferNode × Sent))
    : Type 0 where
  pub out : Conn
  pub node : BufferNode
  pub answer : Sent
  pub count : ℕ
  pub returns : o ≡ some (out, node, answer)
  pub holds : MemHolds node (drop count xs)
  pub on_wire : out.wire ≡ c.wire ++ take count xs
  pub same : SameQueue c out
  pub on : out.writing ≡ true
  pub bound : count ≤ length xs
  pub moved : Willing os → 0 < count

all_gone : (k l : ℕ) → ltb k l ≡ false → l - k ≡ 0
all_gone k l e = ground arith

pub some_bytes : {m l : ℕ} → m ≡ suc l → (m == 0) ≡ false
some_bytes e = ground arith

module _ (os : Kernel) where
  nothing_left :
      (fuel : ℕ) (c : Conn) (n : BufferNode) (sum : ℕ)
      → remaining_bytes n ≡ 0
      → send_chunks os (suc fuel) c n sum ≡ some (c, n, sent sum)
  unfolding send_chunks
  nothing_left fuel c n sum e = rw (send_chunks, e)

  one_pass :
      (fuel : ℕ) (c : Conn) (n : BufferNode) (x : ℕ) (xs : List ℕ) (sum : ℕ)
      → (remaining_bytes n == 0) ≡ false
      → get_data n ≡ some (n, x ∷ xs)
      → send_chunks os (suc fuel) c n sum
        ≡ after_chunk (send_chunks os fuel) n (length (x ∷ xs)) sum (write_raw os c (x ∷ xs))
  unfolding send_chunks
  one_pass fuel c n x xs sum some_left data_ = rw (send_chunks, some_left, data_)

  -- What is behind a `writeRaw` of all that the node holds.
  after_chunk-Pushed :
      (fuel : ℕ) (c : Conn) (n : BufferNode) (xs : List ℕ) (sum : ℕ) (r : Conn × Sent)
      → MemHolds n xs
      → RawResult c xs r
      → c.writing ≡ true
      → (Willing os → Moved r)
      → Pushed os c xs (after_chunk (send_chunks os (suc fuel)) n (length xs) sum r)
  unfolding after_chunk
  after_chunk-Pushed fuel c n xs sum (c', error) h (same, w, e) on moved = record {
    out = c';
    node = n;
    answer = error;
    count = 0;
    returns = refl;
    holds = h;
    on_wire = w ∙ sym (append-nil c.wire);
    same = same;
    on = e ∙ on;
    bound = omega arith;
    moved = λ w. absurd (moved w);
  }
  after_chunk-Pushed fuel c n xs sum (c', sent k) h w on moved =
      let (n', r, h') = retrieve_node-MemHolds k h in
      record {
        out = c';
        node = n';
        answer = sent (sum + k);
        count = k;
        returns = rw r (elim (Bool-cases (ltb k (length xs))) [
          | inl less ↦ rw less
          | inr whole ↦ rw whole (
              nothing_left fuel c' n' (sum + k)
                (MemHolds-remaining_bytes h' ∙ length-drop k xs ∙ all_gone k (length xs) whole))
        ]);
        holds = h';
        on_wire = w.on_wire;
        same = w.same;
        bound = w.bound;
        moved = moved;
        on = elim w.armed [ inl whole ↦ w.kept whole ∙ on | inr e ↦ e ];
      }

  -- Two passes send a memory node as far as the kernel takes it.
  send_chunks-Pushed :
      (fuel : ℕ) (c : Conn) {n : BufferNode} (x : ℕ) (xs : List ℕ) (sum : ℕ)
      → Obeys os
      → MemHolds n (x ∷ xs)
      → length (x ∷ xs) < 2 ^ 31
      → c.writing ≡ true
      → Pushed os c (x ∷ xs) (send_chunks os (suc (suc fuel)) c n sum)
  send_chunks-Pushed fuel c {n} x xs sum obeys h small on =
      subst (λ o. Pushed os c (x ∷ xs) o)
        (sym (
          one_pass (suc fuel) c n x xs sum (some_bytes (MemHolds-remaining_bytes h))
            (get_data-MemHolds h)))
        (after_chunk-Pushed fuel c n (x ∷ xs) sum (write_raw os c (x ∷ xs)) h
          (write_raw-RawResult os c (x ∷ xs) obeys small) on
          (λ w. write_raw-Moved os c (x ∷ xs) w (omega arith)))

  pub send_node_in_loop-Pushed :
      (fuel : ℕ) (c : Conn) {n : BufferNode} (x : ℕ) (xs : List ℕ)
      → Obeys os
      → MemHolds n (x ∷ xs)
      → length (x ∷ xs) < 2 ^ 31
      → c.writing ≡ true
      → Pushed os c (x ∷ xs) (send_node_in_loop os (suc (suc fuel)) c n)
  unfolding send_node_in_loop
  send_node_in_loop-Pushed fuel c {n} x xs obeys (holding b h) small on =
      send_chunks-Pushed fuel c x xs 0 obeys (holding b h) small on

-- A list of memory nodes, each with fewer than 2 ^ 31 bytes.
abbrev pub MemList : List BufferNode → Type 0
MemList [] = Unit
MemList (n ∷ ns) = (xs : List ℕ) × MemHolds n xs × (length xs < 2 ^ 31) × MemList ns

-- `drain` from the list `ns`: the stream is what it was. If the list ran empty the code goes on
-- below the loop; else writing is still enabled.
pub record Drained (os : Kernel) (c : Conn) (ns : List BufferNode) (o : Option (Conn × Bool))
    : Type 0 where
  pub out : Conn
  pub ran_empty : Bool
  pub returns : o ≡ some (out, ran_empty)
  pub stream : outgoing out ≡ c.wire ++ backlog ns
  pub state : out.status ≡ c.status
  pub closing : out.close_on_empty ≡ c.close_on_empty
  pub list : MemList out.write_buffer_list
  pub shorter : length out.write_buffer_list ≤ length ns
  pub grows : length c.wire ≤ length out.wire
  pub moved : Willing os → ran_empty ≡ false → length c.wire < length out.wire
  pub how :
      (ran_empty ≡ true) × (out.write_buffer_list ≡ []) ⊎ (ran_empty ≡ false) × (out.writing ≡ true)
