-- ===== src/AsyncFileLogger/Write.antt =====
-- What the steps of the writing thread and of the destructor do to the buffers.
use trantor.Prelude.{
  ℕ, ◌≡◌, inl, inr, refl, sym, ap, subst, ◌∙◌, Bool, some, List, [], ◌∷◌, ◌++◌, if◌then◌else◌,
  arith, ltb, length, append-nil, append_assoc, Bool-cases,
}
use trantor.AsyncFileLogger.{
  Buffer, Thread, writing, destroyed, AsyncFileLogger, Library, texts, take_buffers, write_front,
  write_rest,
}
use trantor.AsyncFileLogger.State.{
  Allocates, AllFit, joined, joined-append, joined-last, Buffers, bound, cleared-Fits,
}
use trantor.AsyncFileLogger.Swap.{flushed}

-- The swap of the waiting buffers with the empty list of the thread.
take_stream :
    (b : Buffer) (l : AsyncFileLogger)
    → Buffers b l
    → l.tmp_buffers ≡ []
    → Buffers b (record l {
      tmp_buffers = l.write_buffers;
      write_buffers = l.tmp_buffers;
      thread = writing;
    })
take_stream b l w e = record {
  current = w.current;
  fits = w.fits;
  next_fits = w.next_fits;
  write_fit = w.tmp_fit;
  tmp_fit = w.write_fit;
  few = let z : length l.tmp_buffers ≡ 0 = ap length e in omega arith;
  full = let z : length l.tmp_buffers ≡ 0 = ap length e in λ h. absurd (omega arith);
  lost = w.lost;
  stream =
      w.stream
      ∙ ap
          (λ t.
            joined l.written ++ (joined (texts t) ++ (joined (texts l.write_buffers) ++ b.text)))
          e
      ∙ ap
          (λ t.
            joined l.written ++ (joined (texts l.write_buffers) ++ (joined (texts t) ++ b.text)))
          (sym e);
}

front_stream :
    (d : Buffer) (b t w : List ℕ) (ts : List (List ℕ)) (acc : List ℕ)
    → acc ≡ joined ts ++ ((d.text ++ t) ++ (w ++ b))
    → acc ≡ joined (ts ++ (d.text ∷ [])) ++ (t ++ (w ++ b))
front_stream d b t w ts acc e =
    rw (e, joined-append ts (d.text ∷ []), append-nil d.text) (simp (append_assoc) refl)

pub write_front-Buffers :
    (b d : Buffer) (rest : List Buffer) (l : AsyncFileLogger)
    → Buffers b l
    → l.tmp_buffers ≡ d ∷ rest
    → Buffers b (write_front d rest l)
unfolding write_front
write_front-Buffers b d rest l w e =
    let (f, fs) = subst AllFit e w.tmp_fit in
    record {
      current = w.current;
      fits = w.fits;
      next_fits = cleared-Fits d f;
      write_fit = w.write_fit;
      tmp_fit = fs;
      few = w.few;
      full = w.full;
      lost = w.lost;
      stream =
          front_stream d b.text (joined (texts rest)) (joined (texts l.write_buffers)) l.written
            l.accepted
            (w.stream
              ∙ ap
                  (λ t.
                    joined l.written
                    ++ (joined (texts t) ++ (joined (texts l.write_buffers) ++ b.text)))
                  e);
    }

module _ (lib : Library) (alloc : Allocates lib) where
  pub take_buffers-Buffers :
      (t : Bool) (b : Buffer) (l : AsyncFileLogger)
      → Buffers b l
      → l.tmp_buffers ≡ []
      → (l' : AsyncFileLogger) × (take_buffers lib t l ≡ some l')
        × (c : Buffer) × Buffers c l'
        × (l'.thread ≡ writing)
        × (l'.accepted ≡ l.accepted)
        × (l'.stop_flag ≡ l.stop_flag)
  unfolding take_buffers
  take_buffers-Buffers t b l w e =
      let (c, kept, moved) = flushed lib alloc t b l w in
      (
        _,
        bound _ w.current,
        c,
        take_stream c _ kept (moved.beside.tmp ∙ e),
        refl,
        moved.accepted,
        moved.beside.stop,
      )

no_text : (xs : List ℕ) → length xs ≡ 0 → xs ≡ []
no_text [] e = refl
no_text (x ∷ xs) e = absurd (omega arith)

-- What is left, in order.
left_stream :
    (b : Buffer) (bs : List Buffer)
    → joined (texts (if ltb 0 (length b.text) then bs ++ (b ∷ []) else bs))
      ≡ joined (texts bs) ++ b.text
left_stream b bs = elim (Bool-cases (ltb 0 (length b.text))) [
  | inl filled ↦ rw filled (joined-last bs b)
  | inr empty ↦
      let e : b.text ≡ [] = no_text b.text (ground arith) in
      rw (empty, e, append-nil (joined (texts bs))) refl
]

pub write_rest-ends :
    (b : Buffer) (l : AsyncFileLogger)
    → Buffers b l
    → l.tmp_buffers ≡ []
    → (l' : AsyncFileLogger) × (write_rest l ≡ some l')
      × (l'.thread ≡ destroyed)
      × (l'.accepted ≡ l.accepted)
      × (l'.accepted ≡ joined l'.written)
unfolding write_rest
write_rest-ends b l w e = (
  _,
  bound _ w.current,
  refl,
  refl,
  w.stream
      ∙ ap
          (λ t.
            joined l.written ++ (joined (texts t) ++ (joined (texts l.write_buffers) ++ b.text)))
          e
      ∙ ap (λ t. joined l.written ++ t) (sym (left_stream b l.write_buffers))
      ∙ sym (joined-append l.written _),
)

pub at-Buffers :
    (t : Thread) (s : Bool) (b : Buffer) (l : AsyncFileLogger)
    → Buffers b l
    → Buffers b (record l { thread = t; stop_flag = s })
at-Buffers t s b l w = record {
  current = w.current;
  fits = w.fits;
  next_fits = w.next_fits;
  write_fit = w.write_fit;
  tmp_fit = w.tmp_fit;
  few = w.few;
  full = w.full;
  lost = w.lost;
  stream = w.stream;
}

pub write_front-thread :
    (d : Buffer) (rest : List Buffer) (l : AsyncFileLogger)
    → (write_front d rest l).thread ≡ l.thread
unfolding write_front
write_front-thread d rest l = refl
