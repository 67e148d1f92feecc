-- ===== src/LoggerFile/Tests.antt =====
-- Writes to a log file.
use trantor.Prelude.{ℕ, ◌≡◌, refl, Bool, true, [], ◌∷◌, arith}
use trantor.LoggerFile.{
  LoggerFile, remove_file, write_log, get_length, delete_old_files, note_name, open_file,
  rename_base, switch_log, write_log_to_file,
}
use trantor.LoggerFile.Kept.{Kept}
use trantor.LoggerFile.Runs.{Disk, write_texts, write_texts-Disk}

abbrev always : ℕ → Bool
always k = true

abbrev started : LoggerFile
started = record {
  is_open = true;
  base = 48 ∷ [];
  renamed = [];
  filename_queue = [];
  file_seq = 0;
  calls = 1;
}

started-Kept : Kept 1 started
started-Kept = record { ready = refl; low = 0; counted = refl; queued = λ h. (refl, omega arith) }

-- Three switches with one old file allowed: the first ones are removed.
three_writes :
    (write_texts always always 1 0 ((1 ∷ []) ∷ (2 ∷ []) ∷ (3 ∷ []) ∷ []) started).renamed
    ≡ (2, 3 ∷ []) ∷ []
unfolding write_texts write_log_to_file write_log get_length switch_log rename_base remove_file
    note_name delete_old_files open_file
three_writes = refl

write_texts-Disk_example :
    Disk 1 started (1 ∷ 2 ∷ []) (write_texts always always 1 0 ((1 ∷ []) ∷ (2 ∷ []) ∷ []) started)
write_texts-Disk_example =
    write_texts-Disk always always (λ k. refl) (λ k. refl) 1 0 ((1 ∷ []) ∷ (2 ∷ []) ∷ []) started
      started-Kept (omega arith)
