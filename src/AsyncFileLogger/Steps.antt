-- ===== src/AsyncFileLogger/Steps.antt =====
-- The steps of the threads that log, of the writing thread and of the destructor, in any order. A part
-- of the code under the lock is one step.
use trantor.Prelude.{ℕ, ◌≡◌, ◌≢◌, ◌⊎◌, Bool, true, false, some, List, [], ◌∷◌}
use trantor.AsyncFileLogger.{
  Buffer, absent, waiting, writing, finished, destroyed, AsyncFileLogger, Library, new_logger,
  output, flush, take_buffers, write_front, write_rest,
}

pub data Step (lib : Library) (l : AsyncFileLogger) : AsyncFileLogger → Type 0 where
  outputs :
      (xs : List ℕ)
      → {l' : AsyncFileLogger} → l.thread ≢ destroyed
      → output lib xs l ≡ some l'
      → Step lib l l'
  flushes : {l' : AsyncFileLogger} → l.thread ≢ destroyed → flush lib l ≡ some l' → Step lib l l'
  starts : l.thread ≡ absent → Step lib l (record l { thread = writing })
  takes :
      (timed_out : Bool)
      → {l' : AsyncFileLogger} → l.thread ≡ waiting
      → (timed_out ≡ true) ⊎ (l.write_buffers ≢ []) ⊎ (l.stop_flag ≡ true)
      → take_buffers lib timed_out l ≡ some l'
      → Step lib l l'
  writes :
      (b : Buffer) (rest : List Buffer)
      → l.thread ≡ writing
      → l.tmp_buffers ≡ b ∷ rest
      → Step lib l (write_front b rest l)
  waits_again :
      l.thread ≡ writing
      → l.tmp_buffers ≡ []
      → l.stop_flag ≡ false
      → Step lib l (record l { thread = waiting })
  leaves :
      l.thread ≡ writing
      → l.tmp_buffers ≡ []
      → l.stop_flag ≡ true
      → Step lib l (record l { thread = finished })
  stops : Step lib l (record l { stop_flag = true })
  ends :
      {l' : AsyncFileLogger}
      → l.stop_flag ≡ true
      → (l.thread ≡ finished) ⊎ (l.thread ≡ absent)
      → write_rest l ≡ some l'
      → Step lib l l'

pub data Reach (lib : Library) : AsyncFileLogger → Type 0 where
  made : Reach lib (new_logger lib)
  later : {l l' : AsyncFileLogger} → Reach lib l → Step lib l l' → Reach lib l'

-- A run from one state to another.
pub data Run (lib : Library) : AsyncFileLogger → AsyncFileLogger → Type 0 where
  stays : {l : AsyncFileLogger} → Run lib l l
  goes_on : {l l' l'' : AsyncFileLogger} → Step lib l l' → Run lib l' l'' → Run lib l l''
