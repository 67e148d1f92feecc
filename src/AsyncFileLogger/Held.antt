-- ===== src/AsyncFileLogger/Held.antt =====
-- What `output` does with the text in the buffers.
use trantor.Prelude.{
  ℕ, ◌≤◌, ◌<◌, ◌≡◌, ◌≢◌, inl, inr, refl, sym, ap, ◌∙◌, Option, some, none, List, [], ◌∷◌, ◌++◌,
  if◌then◌else◌, arith, ltb, length, append_assoc, add_size, drop, Bool-cases,
}
use trantor.AsyncFileLogger.{
  mem_buffer_size, Buffer, destroyed, AsyncFileLogger, Library, texts, output,
}
use trantor.AsyncFileLogger.Steps.{Reach}
use trantor.AsyncFileLogger.State.{Allocates, joined, pending, Buffers}
use trantor.AsyncFileLogger.Output.{Taken, loses, takes, output-Buffers, output-too_long}
use trantor.AsyncFileLogger.Keep.{alive, ended, Reach-Sound}

abbrev buffer_text : Option Buffer → List ℕ
buffer_text none = []
buffer_text (some b) = b.text

-- The text in the buffers: first those that the thread writes, then those that wait, then the current
-- one.
abbrev pub held : AsyncFileLogger → List ℕ
held l =
    joined (texts l.tmp_buffers) ++ (joined (texts l.write_buffers) ++ buffer_text l.log_buffer)

-- What `output` makes of a message, by the text in the buffers.
pub data Outputs (lib : Library) (xs : List ℕ) (l l' : AsyncFileLogger) : Type 0 where
  ignores : mem_buffer_size < length xs → l' ≡ l → Outputs lib xs l l'
  drops :
      length xs ≤ mem_buffer_size
      → 25 < length l'.write_buffers
      → held l' ≡ held l
      → l'.lost_counter ≡ add_size l.lost_counter 1
      → Outputs lib xs l l'
  keeps :
      length xs ≤ mem_buffer_size
      → length l'.write_buffers ≤ 25
      → held l' ≡ held l ++ ((if ltb 0 l.lost_counter then lib.notice l.lost_counter else []) ++ xs)
      → l'.lost_counter ≡ 0
      → Outputs lib xs l l'

append-cancel : (w xs ys : List ℕ) → w ++ xs ≡ w ++ ys → xs ≡ ys
append-cancel [] xs ys e = e
append-cancel (x ∷ w) xs ys e = append-cancel w xs ys (ap (drop 1) e)

held-pending : (b : Buffer) (l : AsyncFileLogger) → Buffers b l → held l ≡ pending b l
held-pending b l w =
    ap (λ o. joined (texts l.tmp_buffers) ++ (joined (texts l.write_buffers) ++ buffer_text o))
      w.current

-- What is taken beside the file is in the buffers.
held-accepted :
    (b : Buffer) (l : AsyncFileLogger) → Buffers b l → l.accepted ≡ joined l.written ++ held l
held-accepted b l w = w.stream ∙ ap (λ t. joined l.written ++ t) (sym (held-pending b l w))

held-more :
    (b c : Buffer) (l l' : AsyncFileLogger) (ys : List ℕ)
    → Buffers b l
    → Buffers c l'
    → l'.written ≡ l.written
    → l'.accepted ≡ l.accepted ++ ys
    → held l' ≡ held l ++ ys
held-more b c l l' ys w w' same more = append-cancel (joined l.written) (held l') (held l ++ ys) (
    ap (λ t. joined t ++ held l') (sym same)
    ∙ sym (held-accepted c l' w')
    ∙ more
    ∙ ap (λ t. t ++ ys) (held-accepted b l w)
    ∙ append_assoc (joined l.written) (held l) ys)

held-same :
    (b c : Buffer) (l l' : AsyncFileLogger)
    → Buffers b l
    → Buffers c l'
    → l'.written ≡ l.written
    → l'.accepted ≡ l.accepted
    → held l' ≡ held l
held-same b c l l' w w' same e = append-cancel (joined l.written) (held l') (held l) (
    ap (λ t. joined t ++ held l') (sym same)
    ∙ sym (held-accepted c l' w')
    ∙ e
    ∙ held-accepted b l w)

module _ (lib : Library) where
  Taken-Outputs :
      (xs : List ℕ) (b c : Buffer) (l l' : AsyncFileLogger)
      → length xs ≤ mem_buffer_size
      → Buffers b l
      → Buffers c l'
      → l'.written ≡ l.written
      → Taken lib xs l l'
      → Outputs lib xs l l'
  Taken-Outputs xs b c l l' short w w' same (loses crowded a n) =
      drops short crowded (held-same b c l l' w w' same a) n
  Taken-Outputs xs b c l l' short w w' same (takes free a n) =
      keeps short free (held-more b c l l' _ w w' same a) n

  -- With an allocator that gives what is asked for, `output` in every reachable state of a logger that
  -- is not destroyed returns. A message longer than 4 MB changes nothing. Another one leaves the text
  -- in the buffers as it is, and is counted as lost, when more than 25 buffers wait afterwards; and
  -- else comes behind all the text in the buffers, after the notice of the messages lost before, if
  -- there were any, whose count starts again.
  pub output-Outputs :
      (alloc : Allocates lib) (xs : List ℕ) (l : AsyncFileLogger)
      → Reach lib l
      → l.thread ≢ destroyed
      → (l' : AsyncFileLogger) × (output lib xs l ≡ some l') × Outputs lib xs l l'
  output-Outputs alloc xs l r living = elim (Reach-Sound lib alloc l r) [
    | ended at same ↦ absurd (living at)
    | alive b _ w idle ↦ elim (Bool-cases (ltb mem_buffer_size (length xs))) [
      | inl long ↦ (l, output-too_long lib alloc xs l (ground arith), ignores (ground arith) refl)
      | inr fits ↦
          let short : length xs ≤ mem_buffer_size = ground arith in
          let (l', runs, taken, beside, c, w') = output-Buffers lib alloc xs b l w short in
          (l', runs, Taken-Outputs xs b c l l' short w w' beside.written taken)
    ]
  ]
