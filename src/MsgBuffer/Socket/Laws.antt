-- ===== src/MsgBuffer/Socket/Laws.antt =====
-- `readFd` adds what the socket gave to the contents; `findCRLF` finds the first line end.
use trantor.Prelude.{
  ℕ, zero, suc, ◌+◌, ◌^◌, ◌≤◌, ◌<◌, ◌≡◌, true, false, ◌==◌, ◌&&◌, subst, add_size, sub_size, ap,
  ◌∙◌, Option, some, none, List, [], ◌∷◌, ◌++◌, arith, length, take, drop, length-take, length-drop,
  take-all, take-append-drop, append_assoc, Bool-cases, inl, inr, leb, leb→le,
}
use trantor.Memory.{memcpy}
use trantor.MsgBuffer.{MsgBuffer, writable_bytes, append}
use trantor.MsgBuffer.Bounds.{Holds, memcpy-Holds, writable_bytes-eq}
use trantor.MsgBuffer.Append.{size_limit, append-Stores, read_at-contents}
use trantor.MsgBuffer.Socket.{Reply, got, read_fd, offered, int_length, search_crlf, find_crlf}

-- The call reports `r` and leaves a valid buffer that holds `zs`.
pub record Receives (o : Option (MsgBuffer × Reply)) (r : Reply) (zs : List ℕ) : Type 0 where
  pub out : MsgBuffer
  pub returns : o ≡ some (out, r)
  pub holds : Holds out zs

-- The answer fits the free storage.
read_fd-fits :
    {b : MsgBuffer} {zs : List ℕ} (xs : List ℕ)
    → Holds b zs
    → int_length (writable_bytes b) ≡ writable_bytes b
    → leb (length xs) (writable_bytes b) ≡ true
    → Receives (read_fd b (got xs)) (got xs) (zs ++ xs)
unfolding read_fd
read_fd-fits {b} xs h cast few =
    let fits : b.tail + length xs ≤ length b.buffer =
      ground (arith, writable_bytes-eq h.valid, h.valid.within) in
    let (buf, e, size, done) = memcpy-Holds xs h fits in
    record {
      out = record b { buffer = buf; tail = add_size b.tail (length xs) };
      returns = rw (cast, take-all (writable_bytes b) xs (leb→le _ _ few), e, few);
      holds = done;
    }

read_fd-spilled_returns :
    (b : MsgBuffer) (xs buf : List ℕ) (out : MsgBuffer)
    → int_length (writable_bytes b) ≡ writable_bytes b
    → leb (length xs) (writable_bytes b) ≡ false
    → memcpy b.buffer b.tail (take (writable_bytes b) xs) ≡ some buf
    → append
        (record b { buffer = buf; tail = length buf })
        (take (sub_size (length xs) (writable_bytes b)) (drop (writable_bytes b) xs))
      ≡ some out
    → read_fd b (got xs) ≡ some (out, got xs)
unfolding read_fd
read_fd-spilled_returns b xs buf out cast many e r = rw (cast, e, many, r)

-- The second part of an answer, once the storage is full.
read_fd-spilled :
    (b : MsgBuffer) (zs xs buf : List ℕ)
    → memcpy b.buffer b.tail (take (writable_bytes b) xs) ≡ some buf
    → Holds (record b { buffer = buf; tail = length buf }) (zs ++ take (writable_bytes b) xs)
    → length buf + length xs < size_limit
    → int_length (writable_bytes b) ≡ writable_bytes b
    → leb (length xs) (writable_bytes b) ≡ false
    → Receives (read_fd b (got xs)) (got xs) (zs ++ xs)
read_fd-spilled b zs xs buf e filled fits cast many =
    let w = writable_bytes b in
    let s = append-Stores (drop w xs) filled (omega (arith, length-drop w xs)) in
    let rest : take (sub_size (length xs) w) (drop w xs) ≡ drop w xs =
      take-all (sub_size (length xs) w) (drop w xs) (ground (arith, length-drop w xs)) in
    let whole : (zs ++ take w xs) ++ drop w xs ≡ zs ++ xs =
      append_assoc zs (take w xs) (drop w xs) ∙ ap (λ l. zs ++ l) (take-append-drop w xs) in
    record {
      out = s.out;
      returns = read_fd-spilled_returns b xs buf s.out cast many e (ap (append _) rest ∙ s.returns);
      holds = subst (λ l. Holds s.out l) whole s.holds;
    }

-- The answer goes on into `extBuffer`.
read_fd-spills :
    {b : MsgBuffer} {zs : List ℕ} (xs : List ℕ)
    → Holds b zs
    → length b.buffer + length xs < size_limit
    → int_length (writable_bytes b) ≡ writable_bytes b
    → leb (length xs) (writable_bytes b) ≡ false
    → Receives (read_fd b (got xs)) (got xs) (zs ++ xs)
read_fd-spills {b} {zs} xs h fits cast many =
    let w = writable_bytes b in
    let first : length (take w xs) ≡ w = ground (arith, length-take w xs) in
    let (buf, e, size, done) =
      memcpy-Holds (take w xs) h
        (omega (arith, first, writable_bytes-eq h.valid, h.valid.within)) in
    let full : add_size b.tail (length (take w xs)) ≡ length buf =
      omega (arith, first, size, writable_bytes-eq h.valid, h.valid) in
    read_fd-spilled b zs xs buf e
      (subst (λ t. Holds (record b { buffer = buf; tail = t }) (zs ++ take w xs)) full done)
      (omega (arith, size)) cast many

-- `readFd` of a valid buffer whose storage is shorter than 2 ^ 31 bytes, so that the cast of its room
-- to int keeps the value, when `readv` took no more bytes than it was offered: all of them are added
-- to the contents, in order.
pub read_fd-Receives :
    {b : MsgBuffer} {zs : List ℕ} (xs : List ℕ)
    → Holds b zs
    → length b.buffer < 2 ^ 31
    → length xs ≤ offered b
    → Receives (read_fd b (got xs)) (got xs) (zs ++ xs)
unfolding offered
read_fd-Receives {b} {zs} xs h fits sane = elim (Bool-cases (leb (length xs) (writable_bytes b))) [
  | inl few ↦ read_fd-fits xs h cast few
  | inr many ↦ read_fd-spills xs h (ground (arith, writable_bytes-eq h.valid)) cast many
]
  where
    cast : int_length (writable_bytes b) ≡ writable_bytes b
    cast = ground (arith, writable_bytes-eq h.valid)

-- A line end at an offset.
abbrev pub CrlfAt : List ℕ → ℕ → Type 0
CrlfAt xs i = take 2 (drop i xs) ≡ 13 ∷ 10 ∷ []

-- What `findCRLF` has to answer: the offset of the first line end, or that there is none.
abbrev pub FirstCrlf : List ℕ → Option ℕ → Type 0
FirstCrlf xs none = (i : ℕ) → ¬ CrlfAt xs i
FirstCrlf xs (some i) = CrlfAt xs i × ((j : ℕ) → j < i → ¬ CrlfAt xs j)

-- One byte further, from a byte at which no line end starts.
FirstCrlf-cons :
    (x : ℕ) (xs : List ℕ) (o : Option ℕ)
    → ¬ CrlfAt (x ∷ xs) 0
    → FirstCrlf xs o
    → FirstCrlf (x ∷ xs) (elim o [ none ↦ none | some i ↦ some (suc i) ])
FirstCrlf-cons x xs none here later = never
  where
    never : (i : ℕ) → ¬ CrlfAt (x ∷ xs) i
    never zero = here
    never (suc i) = later i
FirstCrlf-cons x xs (some i) here later = (later.0, before)
  where
    before : (j : ℕ) → j < suc i → ¬ CrlfAt (x ∷ xs) j
    before zero lt = here
    before (suc j) lt = later.1 j (omega arith)

search_crlf-FirstCrlf : (xs : List ℕ) → FirstCrlf xs (search_crlf xs)
unfolding search_crlf
search_crlf-FirstCrlf [] = never
  where
    never : (i : ℕ) → ¬ CrlfAt [] i
    never zero e = cc
    never (suc i) e = cc
search_crlf-FirstCrlf (x ∷ []) = never
  where
    never : (i : ℕ) → ¬ CrlfAt (x ∷ []) i
    never zero e = cc
    never (suc zero) e = cc
    never (suc (suc i)) e = cc
search_crlf-FirstCrlf (x ∷ y ∷ ys) = elim (Bool-cases (x == 13 && y == 10)) [
  | inl found ↦ rw (found, FirstCrlf) (ground arith, λ j lt. absurd (omega arith))
  | inr other ↦
      rw (other, FirstCrlf)
        (FirstCrlf-cons x (y ∷ ys) (search_crlf (y ∷ ys)) (λ e. ground arith)
          (search_crlf-FirstCrlf (y ∷ ys)))
]

-- `findCRLF` on a valid buffer finds the first line end of the contents, if there is one.
pub find_crlf-FirstCrlf :
    {b : MsgBuffer} {xs : List ℕ}
    → Holds b xs
    → (find_crlf b ≡ some (search_crlf xs)) × FirstCrlf xs (search_crlf xs)
unfolding find_crlf
find_crlf-FirstCrlf {xs} h = (rw (read_at-contents h), search_crlf-FirstCrlf xs)
