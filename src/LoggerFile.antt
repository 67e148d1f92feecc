-- ===== src/LoggerFile.antt =====
-- `AsyncFileLogger::LoggerFile` of utils/AsyncFileLogger.cc, on systems other than Windows. A renamed
-- file is known by the number in its name; the rest of the name is the same for all. What `fopen` and
-- `rename` answer, by the number of the call, are parameters.
pub mod Names
pub mod Kept
pub mod Runs
mod Tests
use trantor.Prelude.{
  ℕ, zero, suc, ◌%◌, Bool, true, false, Option, some, none, List, [], ◌∷◌, ◌++◌, if◌then◌else◌, ltb,
  ◌==◌, length,
}

-- `fp_`, the file with the base name, the renamed files with their contents, oldest first, and the
-- number of system calls.
pub record LoggerFile : Type 0 where
  pub is_open : Bool
  pub base : List ℕ
  pub renamed : List (ℕ × List ℕ)
  pub filename_queue : List ℕ
  pub file_seq : ℕ
  pub calls : ℕ

-- The number in a name: ".%06llu" of `fileSeq_ % 1000000`.
abbrev pub seq_of : ℕ → ℕ
seq_of file_seq = file_seq % 1000000

-- `remove` of a renamed file.
unfoldable pub remove_file : ℕ → List (ℕ × List ℕ) → List (ℕ × List ℕ)
remove_file name [] = []
remove_file name ((n, text) ∷ files) =
    let rest = remove_file name files in if n == name then rest else (n, text) ∷ rest

unfoldable pub write_log : List ℕ → LoggerFile → LoggerFile
write_log buf f = if f.is_open then record f { base = f.base ++ buf } else f

-- `ftell` behind a write.
unfoldable pub get_length : LoggerFile → ℕ
get_length f = if f.is_open then length f.base else 0

-- The loop of `deleteOldFiles`, on the queue and the files.
unfoldable pub delete_old_files : ℕ → List ℕ → List (ℕ × List ℕ) → List ℕ × List (ℕ × List ℕ)
delete_old_files max_files [] files = ([], files)
delete_old_files max_files (name ∷ queue) files =
    let rest = delete_old_files max_files queue (remove_file name files) in
    if ltb max_files (length (name ∷ queue)) then rest else (name ∷ queue, files)

-- The part of `switchLog` that is about the number of files.
unfoldable pub note_name : ℕ → ℕ → LoggerFile → LoggerFile
note_name max_files name f =
    if ltb 0 max_files
    then (let r = delete_old_files max_files (f.filename_queue ++ (name ∷ [])) f.renamed in
        record f { filename_queue = r.0; renamed = r.1 })
    else f

module _ (opens renames : ℕ → Bool) (max_files : ℕ) where
  unfoldable pub open_file : LoggerFile → LoggerFile
  open_file f = record f { is_open = opens f.calls; calls = suc f.calls }

  -- `rename` replaces a file that has the new name.
  unfoldable pub rename_base : ℕ → LoggerFile → LoggerFile
  rename_base name f =
      if renames f.calls
      then record f {
        renamed = remove_file name f.renamed ++ ((name, f.base) ∷ []);
        base = [];
        calls = suc f.calls;
      }
      else record f { calls = suc f.calls }

  unfoldable pub switch_log : Bool → LoggerFile → LoggerFile
  switch_log open_new_one f =
      if f.is_open
      then (let closed = record f { is_open = false; file_seq = suc f.file_seq } in
          let named =
            note_name max_files (seq_of f.file_seq) (rename_base (seq_of f.file_seq) closed) in
          if open_new_one then open_file named else named)
      else f

  -- `writeLogToFile`, once the file object is there.
  unfoldable pub write_log_to_file : ℕ → List ℕ → LoggerFile → LoggerFile
  write_log_to_file size_limit buf f =
      let f' = write_log buf f in if ltb size_limit (get_length f') then switch_log true f' else f'
