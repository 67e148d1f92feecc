-- ===== src/AsyncFileLogger/Output.antt =====
-- What `output` does with a message.
use trantor.Prelude.{
  ℕ, ◌-◌, ◌≤◌, ◌<◌, ◌≡◌, inl, inr, refl, sym, ap, subst, ◌∙◌, true, false, Option, some, List, [],
  ◌++◌, ◌>>=◌, if◌then◌else◌, arith, ltb, length, append-nil, append_assoc, add_size, Bool-cases,
}
use trantor.AsyncFileLogger.{
  mem_buffer_size, Buffer, AsyncFileLogger, Library, texts, append, swap_buffer, accept,
  accept_or_lose, output,
}
use trantor.AsyncFileLogger.State.{Allocates, Fits, joined, Buffers, Beside, Moved}
use trantor.AsyncFileLogger.Swap.{
  append-Fits, append-text, two_appends, unmoved, swap_buffer-Buffers,
}

-- What `output` does with a message that is not too long: the message is lost, and counted, when
-- more than 25 buffers wait; else the notice of the lost ones goes before it.
pub data Taken (lib : Library) (xs : List ℕ) (l l' : AsyncFileLogger) : Type 0 where
  loses :
      25 < length l'.write_buffers
      → l'.accepted ≡ l.accepted
      → l'.lost_counter ≡ add_size l.lost_counter 1
      → Taken lib xs l l'
  takes :
      length l'.write_buffers ≤ 25
      → l'.accepted
        ≡ l.accepted ++ ((if ltb 0 l.lost_counter then lib.notice l.lost_counter else []) ++ xs)
      → l'.lost_counter ≡ 0
      → Taken lib xs l l'

module _ (lib : Library) (alloc : Allocates lib) where
  -- Room for a message is made by the swap, or is there.
  room :
      (xs : List ℕ) (b : Buffer) (l : AsyncFileLogger)
      → Buffers b l
      → length xs ≤ mem_buffer_size
      → let l' = if ltb (b.capacity - length b.text) (length xs) then swap_buffer lib b l else l in
        (c : Buffer) × Buffers c l' × Moved l l'
  room xs b l w short = elim (Bool-cases (ltb (b.capacity - length b.text) (length xs))) [
    | inl tight ↦
        rw tight (swap_buffer-Buffers lib alloc b l w (let f = w.fits.big in ground arith))
    | inr wide ↦ rw wide (b, w, unmoved lib alloc l)
  ]

  abbrev pub Outcome : List ℕ → AsyncFileLogger → Option AsyncFileLogger → Type 0
  Outcome xs l o =
      (l' : AsyncFileLogger) × (o ≡ some l')
      × Taken lib xs l l'
      × Beside l l'
      × (c : Buffer) × Buffers c l'

  accept_stream :
      (xs note : List ℕ) (b : Buffer) (w t acc bs : List ℕ)
      → acc ≡ w ++ (t ++ (bs ++ b.text))
      → acc ++ (note ++ xs) ≡ w ++ (t ++ (bs ++ ((b.text ++ note) ++ xs)))
  accept_stream xs note b w t acc bs e = rw (e) (simp (append_assoc) refl)

  -- The text that a message and a notice before it give.
  accepted_to :
      (xs note : List ℕ) (b d : Buffer) (l : AsyncFileLogger)
      → Buffers b l
      → length l.write_buffers ≤ 25
      → Fits d
      → d.text ≡ (b.text ++ note) ++ xs
      → Buffers d (record l {
        log_buffer = some d;
        lost_counter = 0;
        accepted = l.accepted ++ (note ++ xs);
      })
  accepted_to xs note b d l w free f e = record {
    current = refl;
    fits = f;
    next_fits = w.next_fits;
    write_fit = w.write_fit;
    tmp_fit = w.tmp_fit;
    few = w.few;
    full = λ h. absurd (omega arith);
    lost = λ h. absurd (omega arith);
    stream =
        accept_stream xs note b (joined l.written) (joined (texts l.tmp_buffers)) l.accepted
          (joined (texts l.write_buffers)) w.stream
        ∙ ap
            (λ t.
              joined l.written
              ++ (joined (texts l.tmp_buffers) ++ (joined (texts l.write_buffers) ++ t)))
            (sym e);
  }

  accept-Buffers :
      (xs : List ℕ) (b : Buffer) (l : AsyncFileLogger)
      → Buffers b l
      → length l.write_buffers ≤ 25
      → Outcome xs l (some (accept lib xs b l))
  unfolding accept
  accept-Buffers xs b l w free = elim (Bool-cases (ltb 0 l.lost_counter)) [
    | inl some_lost ↦
        let note = lib.notice l.lost_counter in
        let d = append lib xs (append lib note b) in
        rw some_lost (
          _,
          refl,
          takes free (rw some_lost refl) refl,
          record { tmp = refl; thread = refl; stop = refl; written = refl },
          d,
          accepted_to xs note b d l w free
              (append-Fits lib alloc xs (append lib note b) (append-Fits lib alloc note b w.fits))
              (two_appends lib alloc xs note b),
        )
    | inr none_lost ↦
        let d = append lib xs b in
        rw none_lost (
          _,
          refl,
          takes free (rw none_lost refl) refl,
          record { tmp = refl; thread = refl; stop = refl; written = refl },
          d,
          accepted_to xs [] b d l w free (append-Fits lib alloc xs b w.fits)
              (append-text lib alloc xs b ∙ ap (λ t. t ++ xs) (sym (append-nil b.text))),
        )
  ]

  accept_or_lose-Buffers :
      (xs : List ℕ) (b : Buffer) (l : AsyncFileLogger)
      → Buffers b l
      → Outcome xs l (accept_or_lose lib xs l)
  unfolding accept_or_lose
  accept_or_lose-Buffers xs b l w = elim (Bool-cases (ltb 25 (length l.write_buffers))) [
    | inl crowded ↦ rw crowded (
      _,
      refl,
      loses (ground arith) refl refl,
      record { tmp = refl; thread = refl; stop = refl; written = refl },
      b,
      record {
        current = w.current;
        fits = w.fits;
        next_fits = w.next_fits;
        write_fit = w.write_fit;
        tmp_fit = w.tmp_fit;
        few = w.few;
        full = w.full;
        lost = λ h. w.full (ground arith);
        stream = w.stream;
      },
    )
    | inr free ↦ rw free (
        subst (Outcome xs l) (sym (ap (λ o. o >>= λ x. some (accept lib xs x l)) w.current))
          (accept-Buffers xs b l w (ground arith)))
  ]

  output_short :
      (xs : List ℕ) (b : Buffer) (l : AsyncFileLogger)
      → l.log_buffer ≡ some b
      → length xs ≤ mem_buffer_size
      → output lib xs l
        ≡ accept_or_lose lib xs
            (if ltb (b.capacity - length b.text) (length xs) then swap_buffer lib b l else l)
  unfolding output
  output_short xs b l e short =
      let f : ltb mem_buffer_size (length xs) ≡ false = ground arith in rw (e, f) refl

  Taken-moved :
      (xs : List ℕ) (l l₁ l' : AsyncFileLogger)
      → Moved l l₁
      → Taken lib xs l₁ l'
      → Taken lib xs l l'
  Taken-moved xs l l₁ l' m (loses crowded a n) =
      loses crowded (a ∙ m.accepted) (n ∙ ap (λ k. add_size k 1) m.lost)
  Taken-moved xs l l₁ l' m (takes free a n) =
      takes free
        (a
          ∙ ap
              (λ t. t ++ ((if ltb 0 l₁.lost_counter then lib.notice l₁.lost_counter else []) ++ xs))
              m.accepted
          ∙ ap (λ k. l.accepted ++ ((if ltb 0 k then lib.notice k else []) ++ xs)) m.lost)
        n

  Beside-moved : (l l₁ l' : AsyncFileLogger) → Beside l l₁ → Beside l₁ l' → Beside l l'
  Beside-moved l l₁ l' p q = record {
    tmp = q.tmp ∙ p.tmp;
    thread = q.thread ∙ p.thread;
    stop = q.stop ∙ p.stop;
    written = q.written ∙ p.written;
  }

  -- A message that is not too long is taken, or counted as lost.
  pub output-Buffers :
      (xs : List ℕ) (b : Buffer) (l : AsyncFileLogger)
      → Buffers b l
      → length xs ≤ mem_buffer_size
      → Outcome xs l (output lib xs l)
  output-Buffers xs b l w short =
      let (c, kept, moved) = room xs b l w short in
      let (l', runs, taken, beside, d, still) = accept_or_lose-Buffers xs c _ kept in
      (
        l',
        output_short xs b l w.current short ∙ runs,
        Taken-moved xs l _ l' moved taken,
        Beside-moved l _ l' moved.beside beside,
        d,
        still,
      )

  -- A longer one is not.
  pub output-too_long :
      (xs : List ℕ) (l : AsyncFileLogger) → mem_buffer_size < length xs → output lib xs l ≡ some l
  unfolding output
  output-too_long xs l long =
      let f : ltb mem_buffer_size (length xs) ≡ true = ground arith in rw f refl
