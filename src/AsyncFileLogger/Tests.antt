-- ===== src/AsyncFileLogger/Tests.antt =====
-- Runs of the logger.
use trantor.Prelude.{
  ℕ, ◌≤◌, ◌<◌, ◌≡◌, ◌≢◌, ◌⊎◌, inr, refl, Bool, true, some, List, [], ◌∷◌, ◌++◌, arith, length,
}
use trantor.AsyncFileLogger.{
  mem_buffer_size, Buffer, destroyed, AsyncFileLogger, Library, new_logger, append, accept,
  accept_or_lose, output, write_rest,
}
use trantor.AsyncFileLogger.Steps.{outputs, stops, ends, Reach, made, later}
use trantor.AsyncFileLogger.State.{Allocates, joined}
use trantor.AsyncFileLogger.Held.{Outputs, output-Outputs}
use trantor.AsyncFileLogger.Stream.{
  Delivers, written-prefix, write_buffers-Bounded, shutdown-Delivers, destroyed-Disk,
}
use trantor.LoggerFile.{LoggerFile}
use trantor.LoggerFile.Kept.{Kept}
use trantor.LoggerFile.Runs.{Disk, write_texts}

abbrev plain : Library
plain = record { reserved = mem_buffer_size; grown = λ c n. n; notice = λ n. [] }

plain-Allocates : Allocates plain
plain-Allocates = record { reserves = omega arith; grows = λ c n. omega arith }

abbrev hello : List ℕ
hello = 104 ∷ 105 ∷ []

-- A logger with one message, before and behind its destructor.
abbrev greeted : AsyncFileLogger
greeted = record (new_logger plain) {
  log_buffer = some (record { text = hello; capacity = mem_buffer_size });
  accepted = hello;
}

greeted-Reach : Reach plain greeted
unfolding new_logger output accept_or_lose accept append
greeted-Reach = later made (outputs hello (λ h. cc) refl)

abbrev gone : AsyncFileLogger
gone = record greeted { stop_flag = true; written = hello ∷ []; thread = destroyed }

gone-Reach : Reach plain gone
unfolding new_logger write_rest
gone-Reach = later (later greeted-Reach stops) (ends refl (inr refl) refl)

greeted-living : greeted.thread ≢ destroyed
unfolding new_logger
greeted-living = λ h. cc

greeted_text :
    (rest : List ℕ) × (greeted.accepted ≡ joined greeted.written ++ rest)
    × (greeted.thread ≡ destroyed → rest ≡ [])
greeted_text = written-prefix plain plain-Allocates greeted greeted-Reach

output-Outputs_example :
    (l' : AsyncFileLogger) × (output plain hello greeted ≡ some l') × Outputs plain hello greeted l'
output-Outputs_example =
    output-Outputs plain plain-Allocates hello greeted greeted-Reach greeted-living

write_buffers-Bounded_example :
    (length greeted.write_buffers ≤ 26)
    × (b : Buffer) × (greeted.log_buffer ≡ some b)
    × (length b.text ≤ b.capacity)
    × ((25 < length greeted.write_buffers) ⊎ (0 < greeted.lost_counter) → b.text ≡ [])
write_buffers-Bounded_example =
    write_buffers-Bounded plain plain-Allocates greeted greeted-Reach greeted-living

shutdown-Delivers_example : Delivers plain greeted
shutdown-Delivers_example =
    shutdown-Delivers plain plain-Allocates greeted greeted-Reach greeted-living

abbrev always : ℕ → Bool
always k = true

abbrev log_file : LoggerFile
log_file = record {
  is_open = true;
  base = 48 ∷ [];
  renamed = [];
  filename_queue = [];
  file_seq = 0;
  calls = 1;
}

log_file-Kept : Kept 1 log_file
log_file-Kept = record { ready = refl; low = 0; counted = refl; queued = λ h. (refl, omega arith) }

destroyed-Disk_example :
    Disk 1 log_file gone.accepted (write_texts always always 1 1 gone.written log_file)
destroyed-Disk_example =
    destroyed-Disk plain plain-Allocates always always (λ k. refl) (λ k. refl) 1 1 log_file
      log_file-Kept gone gone-Reach refl (omega arith)
