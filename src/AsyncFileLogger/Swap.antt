-- ===== src/AsyncFileLogger/Swap.antt =====
-- The swap of the buffers and `flush` keep the invariant.
use trantor.Prelude.{
  ℕ, ◌≤◌, ◌<◌, ◌≡◌, inl, inr, refl, sym, ap, subst, ◌∙◌, Bool, true, false, ◌&&◌, Option, some,
  none, List, [], ◌∷◌, ◌++◌, if◌then◌else◌, arith, leb, ltb, length, length-append, append-nil,
  Bool-cases,
}
use trantor.AsyncFileLogger.{
  Buffer, AsyncFileLogger, Library, cleared, texts, fresh_buffer, append, swap_to, swap_buffer,
  flush,
}
use trantor.AsyncFileLogger.State.{
  Allocates, Fits, NextFits, joined, Buffers, Moved, bound, AllFit-append, joined-last,
  cleared-Fits,
}

module _ (lib : Library) (alloc : Allocates lib) where
  pub fresh-Fits : Fits (fresh_buffer lib)
  fresh-Fits = record { within = omega arith; big = alloc.reserves }

  pub append-Fits : (xs : List ℕ) (b : Buffer) → Fits b → Fits (append lib xs b)
  unfolding append
  append-Fits xs b f = elim (Bool-cases (leb (length (b.text ++ xs)) b.capacity)) [
    | inl enough ↦ rw enough (record { within = ground arith; big = f.big })
    | inr more ↦ rw more (
        let g = alloc.grows b.capacity (length (b.text ++ xs)) in
        let h = f.big in record { within = g; big = ground arith })
  ]

  pub append-text : (xs : List ℕ) (b : Buffer) → (append lib xs b).text ≡ b.text ++ xs
  unfolding append
  append-text xs b = refl

  pub two_appends :
      (xs ys : List ℕ) (b : Buffer) → (append lib xs (append lib ys b)).text ≡ (b.text ++ ys) ++ xs
  unfolding append
  two_appends xs ys b = refl

  -- The state behind a swap to the buffer `c`.
  record Swapped (b c : Buffer) (l l' : AsyncFileLogger) : Type 0 where
    next : Option Buffer
    fields : l' ≡ record l {
      write_buffers = l.write_buffers ++ (b ∷ []);
      log_buffer = some c;
      next_buffer = next;
    }
    empty : c.text ≡ []
    fits : Fits c
    next_fits : NextFits next

  swapped :
      (b : Buffer) (l : AsyncFileLogger) (o : Option Buffer)
      → NextFits o
      → NextFits l.next_buffer
      → (c : Buffer) × Swapped b c l (swap_to lib b l o)
  swapped b l none f g = (
    fresh_buffer lib,
    record { next = l.next_buffer; fields = refl; empty = refl; fits = fresh-Fits; next_fits = g },
  )
  swapped b l (some n) f g = (
    cleared n,
    record { next = none; fields = refl; empty = refl; fits = cleared-Fits n f; next_fits = tt },
  )

  swap_stream :
      (b c : Buffer) (w t acc : List ℕ) (bs : List Buffer)
      → acc ≡ w ++ (t ++ (joined (texts bs) ++ b.text))
      → c.text ≡ []
      → acc ≡ w ++ (t ++ (joined (texts (bs ++ (b ∷ []))) ++ c.text))
  swap_stream b c w t acc bs e empty =
      e
      ∙ ap (λ r. w ++ (t ++ r))
          (rw (joined-last bs b, empty, append-nil (joined (texts bs) ++ b.text)) refl)

  fewer :
      (b : Buffer) (bs : List Buffer)
      → length bs ≤ 26
      → (25 < length bs → b.text ≡ [])
      → 0 < length b.text
      → length (bs ++ (b ∷ [])) ≤ 26
  fewer b bs few full some_text =
      rw (length-append bs (b ∷ [])) (elim (Bool-cases (ltb 25 (length bs))) [
        | inl more ↦
            let z : length b.text ≡ 0 = ap length (full (ground arith)) in absurd (omega arith)
        | inr less ↦ ground arith
      ])

  -- The swap, of a current buffer that is not empty.
  pub swap_buffer-Buffers :
      (b : Buffer) (l : AsyncFileLogger)
      → Buffers b l
      → 0 < length b.text
      → (c : Buffer) × Buffers c (swap_buffer lib b l) × Moved l (swap_buffer lib b l)
  unfolding swap_buffer
  swap_buffer-Buffers b l w some_text =
      let (c, s) = swapped b l l.next_buffer w.next_fits w.next_fits in
      let kept : Buffers c (swap_to lib b l l.next_buffer) =
        subst (Buffers c) (sym s.fields) (record {
          current = refl;
          fits = s.fits;
          next_fits = s.next_fits;
          write_fit = AllFit-append l.write_buffers b w.write_fit w.fits;
          tmp_fit = w.tmp_fit;
          few = fewer b l.write_buffers w.few w.full some_text;
          full = λ h. s.empty;
          lost = λ h. s.empty;
          stream =
              swap_stream b c (joined l.written) (joined (texts l.tmp_buffers)) l.accepted
                l.write_buffers w.stream s.empty;
        }) in
      (
        c,
        kept,
        subst (Moved l) (sym s.fields) (record {
          accepted = refl;
          lost = refl;
          beside = record { tmp = refl; thread = refl; stop = refl; written = refl };
        }),
      )

  -- The current buffer, as the code reads it.
  current_same :
      (b : Buffer) (l : AsyncFileLogger)
      → l.log_buffer ≡ some b
      → record l { log_buffer = some b } ≡ l
  current_same b l e = ap (λ o. record l { log_buffer = o }) (sym e)

  pub unmoved : (l : AsyncFileLogger) → Moved l l
  unmoved l = record {
    accepted = refl;
    lost = refl;
    beside = record { tmp = refl; thread = refl; stop = refl; written = refl };
  }

  filled_text : (t : Bool) (b : Buffer) → (t && ltb 0 (length b.text)) ≡ true → 0 < length b.text
  filled_text true b e = ground arith
  filled_text false b e = absurd (cc)

  -- The buffers are moved when there is something in the current one.
  pub flushed :
      (t : Bool) (b : Buffer) (l : AsyncFileLogger)
      → Buffers b l
      → let l' = if t && ltb 0 (length b.text) then swap_buffer lib b l else l in
        (c : Buffer) × Buffers c l' × Moved l l'
  flushed t b l w = elim (Bool-cases (t && ltb 0 (length b.text))) [
    | inl filled ↦ rw filled (swap_buffer-Buffers b l w (filled_text t b filled))
    | inr empty ↦ rw empty (b, w, unmoved l)
  ]

  pub flush-Buffers :
      (b : Buffer) (l : AsyncFileLogger)
      → Buffers b l
      → (l' : AsyncFileLogger) × (flush lib l ≡ some l') × (c : Buffer) × Buffers c l' × Moved l l'
  unfolding flush
  flush-Buffers b l w =
      let (c, kept, moved) = flushed true b l w in (_, bound _ w.current, c, kept, moved)
