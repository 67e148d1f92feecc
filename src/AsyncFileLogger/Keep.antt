-- ===== src/AsyncFileLogger/Keep.antt =====
-- The invariant of every state that the threads reach.
use trantor.Prelude.{
  ℕ, ◌≡◌, ◌≢◌, inl, inr, refl, sym, subst, ◌∙◌, true, Option, some, List, [], arith, ltb, length,
  Bool-cases,
}
use trantor.AsyncFileLogger.{
  mem_buffer_size, Buffer, waiting, writing, finished, destroyed, AsyncFileLogger, Library,
  fresh_buffer, new_logger, output, flush, take_buffers, write_rest,
}
use trantor.AsyncFileLogger.Steps.{
  Step, outputs, flushes, starts, takes, writes, waits_again, leaves, stops, ends, Reach, made,
  later,
}
use trantor.AsyncFileLogger.State.{Allocates, joined, Buffers, Beside}
use trantor.AsyncFileLogger.Swap.{flush-Buffers, fresh-Fits}
use trantor.AsyncFileLogger.Output.{output-Buffers, output-too_long}
use trantor.AsyncFileLogger.Write.{
  at-Buffers, take_buffers-Buffers, write_front-Buffers, write_front-thread, write_rest-ends,
}

-- A logger that is not destroyed, and has buffers to write only in the writing thread; or one whose
-- file has everything that it took.
pub data Sound (l : AsyncFileLogger) : Type 0 where
  alive :
      (b : Buffer)
      → l.thread ≢ destroyed
      → Buffers b l
      → (l.thread ≢ writing → l.tmp_buffers ≡ [])
      → Sound l
  ended : l.thread ≡ destroyed → l.accepted ≡ joined l.written → Sound l

-- A logger that the writing thread has not changed.
unchanged_buffers :
    (l l' : AsyncFileLogger)
    → Beside l l'
    → l.thread ≢ destroyed
    → (l.thread ≢ writing → l.tmp_buffers ≡ [])
    → (b : Buffer) → Buffers b l'
    → Sound l'
unchanged_buffers l l' p living idle b w =
    alive b (λ h. living (sym p.thread ∙ h)) w (λ h. p.tmp ∙ idle (λ g. h (p.thread ∙ g)))

some_same : {A : Type 0} (o : Option A) {a b : A} → o ≡ some a → o ≡ some b → a ≡ b
some_same o e f = cc

abbrev pub Goes : Option AsyncFileLogger → Type 0
Goes o = (l' : AsyncFileLogger) × (o ≡ some l') × Sound l'

goes : (o : Option AsyncFileLogger) (l' : AsyncFileLogger) → Goes o → o ≡ some l' → Sound l'
goes o l' (m, e, s) f = subst Sound (some_same o e f) s

finish :
    (l l' : AsyncFileLogger) (b : Buffer)
    → Buffers b l
    → l.tmp_buffers ≡ []
    → write_rest l ≡ some l'
    → Sound l'
finish l l' b w e f =
    let (m, runs, at, _, same) = write_rest-ends b l w e in
    goes (write_rest l) l' (m, runs, ended at same) f

module _ (lib : Library) (alloc : Allocates lib) where
  output-Goes :
      (xs : List ℕ) (b : Buffer) (l : AsyncFileLogger)
      → l.thread ≢ destroyed
      → Buffers b l
      → (l.thread ≢ writing → l.tmp_buffers ≡ [])
      → Goes (output lib xs l)
  output-Goes xs b l living w idle = elim (Bool-cases (ltb mem_buffer_size (length xs))) [
    | inl long ↦ (l, output-too_long lib alloc xs l (ground arith), alive b living w idle)
    | inr short ↦
        let (l', runs, taken, beside, c, still) =
          output-Buffers lib alloc xs b l w (ground arith) in
        (l', runs, unchanged_buffers l l' beside living idle c still)
  ]

  -- Every step keeps the invariant.
  pub Step-Sound : (l l' : AsyncFileLogger) → Sound l → Step lib l l' → Sound l'
  Step-Sound l l' (alive b living w idle) (outputs xs _ e) =
      goes (output lib xs l) l' (output-Goes xs b l living w idle) e
  Step-Sound l l' (alive b living w idle) (flushes _ e) =
      let (m, runs, c, still, moved) = flush-Buffers lib alloc b l w in
      goes (flush lib l) l' (m, runs, unchanged_buffers l m moved.beside living idle c still) e
  Step-Sound l _ (alive b living w idle) (starts e) =
      alive b (λ h. cc) (at-Buffers writing l.stop_flag b l w) (λ h. absurd (h refl))
  Step-Sound l l' (alive b living w idle) (takes t e _ f) =
      let (m, runs, c, still, at, same, stop) =
        take_buffers-Buffers lib alloc t b l w (idle (λ h. cc)) in
      goes (take_buffers lib t l) l' (m, runs, alive c (λ h. cc) still (λ h. absurd (h at))) f
  Step-Sound l _ (alive b living w idle) (writes d rest e f) =
      alive b (λ h. living (sym (write_front-thread d rest l) ∙ h))
        (write_front-Buffers b d rest l w f) (λ h. absurd (h (write_front-thread d rest l ∙ e)))
  Step-Sound l _ (alive b living w idle) (waits_again e f g) =
      alive b (λ h. cc) (at-Buffers waiting l.stop_flag b l w) (λ h. f)
  Step-Sound l _ (alive b living w idle) (leaves e f g) =
      alive b (λ h. cc) (at-Buffers finished l.stop_flag b l w) (λ h. f)
  Step-Sound l _ (alive b living w idle) stops =
      alive b living (at-Buffers l.thread true b l w) idle
  Step-Sound l l' (alive b living w idle) (ends g (inl h) e) = finish l l' b w (idle (λ k. cc)) e
  Step-Sound l l' (alive b living w idle) (ends g (inr h) e) = finish l l' b w (idle (λ k. cc)) e
  Step-Sound l l' (ended at same) (outputs xs h e) = absurd (h at)
  Step-Sound l l' (ended at same) (flushes h e) = absurd (h at)
  Step-Sound l _ (ended at same) (starts e) = absurd cc
  Step-Sound l l' (ended at same) (takes t e _ f) = absurd cc
  Step-Sound l _ (ended at same) (writes d rest e f) = absurd cc
  Step-Sound l _ (ended at same) (waits_again e f g) = absurd cc
  Step-Sound l _ (ended at same) (leaves e f g) = absurd cc
  Step-Sound l _ (ended at same) stops = ended at same
  Step-Sound l l' (ended at same) (ends g (inl h) e) = absurd cc
  Step-Sound l l' (ended at same) (ends g (inr h) e) = absurd cc

  new_logger-Sound : Sound (new_logger lib)
  unfolding new_logger
  new_logger-Sound =
      let f = fresh-Fits lib alloc in
      alive (fresh_buffer lib) (λ h. cc)
        (record {
          current = refl;
          fits = f;
          next_fits = f;
          write_fit = tt;
          tmp_fit = tt;
          few = omega arith;
          full = λ h. refl;
          lost = λ h. refl;
          stream = refl;
        })
        (λ h. refl)

  pub Reach-Sound : (l : AsyncFileLogger) → Reach lib l → Sound l
  Reach-Sound _ made = new_logger-Sound
  Reach-Sound l (later {l = l₀} r s) = Step-Sound l₀ l (Reach-Sound l₀ r) s
