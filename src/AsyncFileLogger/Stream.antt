-- ===== src/AsyncFileLogger/Stream.antt =====
-- What the threads together do with the messages.
use trantor.Prelude.{
  ℕ, ◌+◌, ◌≤◌, ◌<◌, ◌≡◌, ◌≢◌, ◌⊎◌, inl, inr, refl, sym, ap, subst, ◌∙◌, Bool, true, false, some,
  List, [], ◌∷◌, ◌++◌, length, append-nil,
}
use trantor.AsyncFileLogger.{
  Buffer, Thread, absent, waiting, writing, finished, destroyed, AsyncFileLogger, Library,
  write_front,
}
use trantor.AsyncFileLogger.Steps.{
  Step, takes, writes, leaves, stops, ends, Reach, Run, stays, goes_on,
}
use trantor.AsyncFileLogger.State.{Allocates, joined, pending, Buffers}
use trantor.AsyncFileLogger.Keep.{alive, ended, Reach-Sound}
use trantor.AsyncFileLogger.Write.{
  at-Buffers, take_buffers-Buffers, write_front-Buffers, write_rest-ends,
}
use trantor.LoggerFile.{LoggerFile}
use trantor.LoggerFile.Kept.{Kept}
use trantor.LoggerFile.Runs.{write_texts, Disk, write_texts-Disk}

-- A run to the end, which hands all that was taken to the file.
abbrev pub Delivers : Library → AsyncFileLogger → Type 0
Delivers lib l =
    (l' : AsyncFileLogger) × Run lib l l'
    × (l'.thread ≡ destroyed)
    × (l'.accepted ≡ l.accepted)
    × (joined l'.written ≡ l.accepted)

module _ (lib : Library) (alloc : Allocates lib) where
  -- The texts handed to the file, one behind the other, are at every moment a beginning of what was
  -- taken, and all of it when the logger is destroyed: no message is left out, written twice or out of order.
  pub written-prefix :
      (l : AsyncFileLogger)
      → Reach lib l
      → (rest : List ℕ) × (l.accepted ≡ joined l.written ++ rest)
        × (l.thread ≡ destroyed → rest ≡ [])
  written-prefix l r = elim (Reach-Sound lib alloc l r) [
    | alive b living w idle ↦ (pending b l, w.stream, λ h. absurd (living h))
    | ended at same ↦ ([], same ∙ sym (append-nil (joined l.written)), λ h. refl)
  ]

  -- At most 26 buffers wait, and the current one is within its capacity; when 26 wait, or messages
  -- were lost, it is empty.
  pub write_buffers-Bounded :
      (l : AsyncFileLogger)
      → Reach lib l
      → l.thread ≢ destroyed
      → (length l.write_buffers ≤ 26)
        × (b : Buffer) × (l.log_buffer ≡ some b)
        × (length b.text ≤ b.capacity)
        × ((25 < length l.write_buffers) ⊎ (0 < l.lost_counter) → b.text ≡ [])
  write_buffers-Bounded l r living = elim (Reach-Sound lib alloc l r) [
    | ended at same ↦ absurd (living at)
    | alive b _ w idle ↦
        (w.few, b, w.current, w.fits.within, λ h. elim h [ inl f ↦ w.full f | inr g ↦ w.lost g ])
  ]

  ends_stopped :
      (b : Buffer) (l : AsyncFileLogger)
      → Buffers b l
      → l.tmp_buffers ≡ []
      → l.stop_flag ≡ true
      → (l.thread ≡ finished) ⊎ (l.thread ≡ absent)
      → Delivers lib l
  ends_stopped b l w e stop at =
      let (l', runs, gone, same, all) = write_rest-ends b l w e in
      (l', goes_on (ends stop at runs) stays, gone, same, sym all ∙ same)

  goes_to :
      {l l' : AsyncFileLogger}
      → Step lib l l'
      → l'.accepted ≡ l.accepted
      → Delivers lib l'
      → Delivers lib l
  goes_to s e (m, run, gone, same, all) = (m, goes_on s run, gone, same ∙ e, all ∙ e)

  writes_stopped :
      (ds : List Buffer) (b : Buffer) (l : AsyncFileLogger)
      → Buffers b l
      → l.tmp_buffers ≡ ds
      → l.stop_flag ≡ true
      → l.thread ≡ writing
      → Delivers lib l
  unfolding write_front
  writes_stopped [] b l w e stop at =
      goes_to (leaves at e stop) refl
        (ends_stopped b _ (at-Buffers finished l.stop_flag b l w) e stop (inl refl))
  writes_stopped (d ∷ ds) b l w e stop at =
      goes_to (writes d ds at e) refl
        (writes_stopped ds b _ (write_front-Buffers b d ds l w e) refl stop at)

  goes_stopped :
      (t : Thread) (b : Buffer) (l : AsyncFileLogger)
      → Buffers b l
      → l.stop_flag ≡ true
      → l.thread ≡ t
      → l.thread ≢ destroyed
      → (l.thread ≢ writing → l.tmp_buffers ≡ [])
      → Delivers lib l
  goes_stopped absent b l w stop at living idle = ends_stopped b l w (idle (λ h. cc)) stop (inr at)
  goes_stopped waiting b l w stop at living idle =
      let (l', runs, c, still, on, same, stopped) =
        take_buffers-Buffers lib alloc false b l w (idle (λ h. cc)) in
      goes_to (takes false at (inr (inr stop)) runs) same
        (writes_stopped l'.tmp_buffers c l' still refl (stopped ∙ stop) on)
  goes_stopped writing b l w stop at living idle = writes_stopped l.tmp_buffers b l w refl stop at
  goes_stopped finished b l w stop at living idle =
      ends_stopped b l w (idle (λ h. cc)) stop (inl at)
  goes_stopped destroyed b l w stop at living idle = absurd (living at)

  -- From every state of a logger that is not destroyed a run of the writing thread and the destructor
  -- ends, with every text that was taken handed to the file.
  pub shutdown-Delivers :
      (l : AsyncFileLogger) → Reach lib l → l.thread ≢ destroyed → Delivers lib l
  shutdown-Delivers l r living = elim (Reach-Sound lib alloc l r) [
    | ended at same ↦ absurd (living at)
    | alive b _ w idle ↦
        goes_to stops refl
          (goes_stopped l.thread b _ (at-Buffers l.thread true b l w) refl refl living idle)
  ]

-- The log file of a logger that is destroyed, when its system calls succeed and its numbers stay below
-- a million: it has everything that the logger took, in order, behind what was on the disk before; when the
-- number of files is limited, some text may be gone from the beginning.
pub destroyed-Disk :
    (lib : Library)
    → Allocates lib
    → (opens renames : ℕ → Bool) → ((k : ℕ) → opens k ≡ true)
    → ((k : ℕ) → renames k ≡ true)
    → (max_files size_limit : ℕ) (f : LoggerFile) → Kept max_files f
    → (l : AsyncFileLogger) → Reach lib l
    → l.thread ≡ destroyed
    → f.file_seq + length l.written ≤ 1000000
    → Disk max_files f l.accepted (write_texts opens renames max_files size_limit l.written f)
destroyed-Disk lib alloc opens renames opened moved max_files size_limit f k l r gone h =
    let (rest, all, none_left) = written-prefix lib alloc l r in
    let e : l.accepted ≡ joined l.written =
      all ∙ ap (λ t. joined l.written ++ t) (none_left gone) ∙ append-nil (joined l.written) in
    subst (λ t. Disk max_files f t (write_texts opens renames max_files size_limit l.written f))
      (sym e) (write_texts-Disk opens renames opened moved max_files size_limit l.written f k h)
