-- ===== src/LoggerFile/Runs.antt =====
-- A log file behind any number of writes.
use trantor.Prelude.{
  ℕ, ◌+◌, ◌≤◌, ◌≡◌, inl, inr, refl, sym, ap, ◌∙◌, Bool, true, List, [], ◌∷◌, ◌++◌, arith, length,
  append-nil, append_assoc,
}
use trantor.LoggerFile.{LoggerFile, write_log_to_file}
use trantor.LoggerFile.Kept.{Kept, on_disk, write_log_to_file-Logs}

-- All bytes of a list of texts.
abbrev pub joined : List (List ℕ) → List ℕ
joined [] = []
joined (t ∷ ts) = t ++ joined ts

module _ (opens renames : ℕ → Bool) (max_files size_limit : ℕ) where
  -- `writeLogToFile` of one text behind the other.
  unfoldable pub write_texts : List (List ℕ) → LoggerFile → LoggerFile
  write_texts [] f = f
  write_texts (t ∷ ts) f = write_texts ts (write_log_to_file opens renames max_files size_limit t f)

-- The disk behind the writes of texts.
pub record Disk (max_files : ℕ) (f : LoggerFile) (bytes : List ℕ) (f' : LoggerFile) : Type 0 where
  pub kept : Kept max_files f'
  pub gone : List ℕ
  pub all_text : gone ++ on_disk f' ≡ on_disk f ++ bytes
  pub none_gone : max_files ≡ 0 → gone ≡ []

module _ (opens renames : ℕ → Bool) (opened : (k : ℕ) → opens k ≡ true)
    (moved : (k : ℕ) → renames k ≡ true) (max_files size_limit : ℕ) where
  all_texts :
      (g h d d' a b c : List ℕ)
      → g ++ d ≡ a ++ b
      → h ++ d' ≡ d ++ c
      → (g ++ h) ++ d' ≡ a ++ (b ++ c)
  all_texts g h d d' a b c e f =
      append_assoc g h d'
      ∙ ap (λ r. g ++ r) f
      ∙ sym (append_assoc g d c)
      ∙ ap (λ r. r ++ c) e
      ∙ append_assoc a b c

  -- A log file whose system calls succeed and whose numbers stay below a million: behind the writes of
  -- any texts the disk has all texts, in order, behind what it had; when the number of files is limited, some of it may be gone from
  -- the beginning.
  pub write_texts-Disk :
      (ts : List (List ℕ)) (f : LoggerFile)
      → Kept max_files f
      → f.file_seq + length ts ≤ 1000000
      → Disk max_files f (joined ts) (write_texts opens renames max_files size_limit ts f)
  unfolding write_texts
  write_texts-Disk [] f k h = record {
    kept = k;
    gone = [];
    all_text = sym (append-nil (on_disk f));
    none_gone = λ e. refl;
  }
  write_texts-Disk (t ∷ ts) f k h =
      let s =
        write_log_to_file-Logs opens renames opened moved max_files size_limit t f k
          (omega arith) in
      let q = s.seq in
      let f' = write_log_to_file opens renames max_files size_limit t f in
      let r = write_texts-Disk ts f' s.kept (omega arith) in
      record {
        kept = r.kept;
        gone = s.gone ++ r.gone;
        all_text =
            all_texts s.gone r.gone (on_disk f') _ (on_disk f) t (joined ts) s.all_text r.all_text;
        none_gone = λ e. elim s.full [
          | inl none ↦ rw (none, r.none_gone e) refl
          | inr (more, _) ↦ absurd (omega arith)
        ];
      }
