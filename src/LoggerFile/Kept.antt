-- ===== src/LoggerFile/Kept.antt =====
-- What a log file keeps, as long as its system calls succeed and its numbers do not wrap.
use trantor.Prelude.{
  ℕ, suc, ◌%◌, ◌≤◌, ◌<◌, ◌≡◌, ◌⊎◌, inl, inr, refl, sym, subst, ap, ◌∙◌, Bool, true, false, List, [],
  ◌∷◌, ◌++◌, arith, ltb, length, length-append, append-nil, append_assoc, Bool-cases,
}
use trantor.LoggerFile.{
  LoggerFile, write_log, get_length, delete_old_files, note_name, open_file, rename_base,
  switch_log, write_log_to_file,
}
use trantor.LoggerFile.Names.{
  texts, numbers, Counted, texts-append, numbers-append, Counted-append, remove_above, trims,
}

-- The file is open; the renamed files have the numbers up to the next one; and if their number is
-- limited, the queue knows them all, and they are no more than that.
pub record Kept (max_files : ℕ) (f : LoggerFile) : Type 0 where
  pub ready : f.is_open ≡ true
  pub low : ℕ
  pub counted : Counted low f.renamed f.file_seq
  pub queued :
      0 < max_files → (f.filename_queue ≡ numbers f.renamed) × (length f.renamed ≤ max_files)

-- All text that is on the disk.
abbrev pub on_disk : LoggerFile → List ℕ
on_disk f = texts f.renamed ++ f.base

-- `write_log_to_file` from `f`, of the text `buf`.
pub record Logs (max_files : ℕ) (f : LoggerFile) (buf : List ℕ) (f' : LoggerFile) : Type 0 where
  pub kept : Kept max_files f'
  pub gone : List ℕ
  pub seq : f'.file_seq ≤ suc f.file_seq
  pub all_text : gone ++ on_disk f' ≡ on_disk f ++ buf
  pub full : (gone ≡ []) ⊎ (0 < max_files) × (length f.renamed ≡ max_files)

module _ (opens renames : ℕ → Bool) (opened : (k : ℕ) → opens k ≡ true)
    (moved : (k : ℕ) → renames k ≡ true) (max_files : ℕ) where
  -- The files when the base file has been renamed.
  abbrev with_base : LoggerFile → List (ℕ × List ℕ)
  with_base f = f.renamed ++ ((f.file_seq, f.base) ∷ [])

  abbrev switched : List ℕ → List (ℕ × List ℕ) → LoggerFile → LoggerFile
  switched queue files f = record f {
    is_open = opens (suc f.calls);
    base = [];
    renamed = files;
    filename_queue = queue;
    file_seq = suc f.file_seq;
    calls = suc (suc f.calls);
  }

  rename_base-when :
      (f : LoggerFile) (low : ℕ)
      → f.is_open ≡ true
      → Counted low f.renamed f.file_seq
      → f.file_seq < 1000000
      → rename_base opens renames max_files f.file_seq
          (record f { is_open = false; file_seq = suc f.file_seq })
        ≡ record f {
          is_open = false;
          file_seq = suc f.file_seq;
          renamed = with_base f;
          base = [];
          calls = suc f.calls;
        }
  unfolding rename_base
  rename_base-when f low open_now c h =
      rw (moved f.calls, remove_above low f.renamed f.file_seq f.file_seq c (omega arith)) refl

  -- `switch_log`, when the number of files is not limited, and when it is.
  switch_log-all :
      (f : LoggerFile) (low : ℕ)
      → f.is_open ≡ true
      → Counted low f.renamed f.file_seq
      → f.file_seq < 1000000
      → max_files ≡ 0
      → switch_log opens renames max_files true f ≡ switched f.filename_queue (with_base f) f
  unfolding switch_log open_file note_name
  switch_log-all f low open_now c h unlimited =
      let name : f.file_seq % 1000000 ≡ f.file_seq = omega arith in
      let none_yet : ltb 0 max_files ≡ false = ground arith in
      rw (open_now, name, rename_base-when f low open_now c h, none_yet) refl

  switch_log-some :
      (f : LoggerFile) (low : ℕ) (queue : List ℕ) (files : List (ℕ × List ℕ))
      → f.is_open ≡ true
      → Counted low f.renamed f.file_seq
      → f.file_seq < 1000000
      → 0 < max_files
      → delete_old_files max_files (f.filename_queue ++ (f.file_seq ∷ [])) (with_base f)
        ≡ (queue, files)
      → switch_log opens renames max_files true f ≡ switched queue files f
  unfolding switch_log open_file note_name
  switch_log-some f low queue files open_now c h limited e =
      let name : f.file_seq % 1000000 ≡ f.file_seq = omega arith in
      let some_files : ltb 0 max_files ≡ true = ground arith in
      rw (open_now, name, rename_base-when f low open_now c h, some_files, e) refl

  with_base-text : (f : LoggerFile) → texts (with_base f) ≡ on_disk f
  with_base-text f = texts-append f.renamed f.file_seq f.base

  -- A switch keeps all text, except for the oldest file when the number of files is at its limit.
  switch_log-Logs :
      (f : LoggerFile)
      → Kept max_files f
      → f.file_seq < 1000000
      → Logs max_files f [] (switch_log opens renames max_files true f)
  switch_log-Logs f k h = elim (Bool-cases (ltb 0 max_files)) [
    | inr unlimited ↦
        (let e = switch_log-all f k.low k.ready k.counted h (ground arith) in
          subst (Logs max_files f []) (sym e) (record {
            kept = record {
              ready = opened (suc f.calls);
              low = k.low;
              counted = Counted-append k.low f.renamed f.file_seq f.base k.counted;
              queued = λ limited. absurd (ground arith);
            };
            seq = omega arith;
            gone = [];
            all_text =
                append-nil (texts (with_base f)) ∙ with_base-text f ∙ sym (append-nil (on_disk f));
            full = inl refl;
          }))
    | inl limited ↦
        (let (queue, few) = k.queued (ground arith) in
          let t =
            trims max_files k.low (suc f.file_seq) (with_base f)
              (Counted-append k.low f.renamed f.file_seq f.base k.counted)
              (omega (arith, length-append f.renamed ((f.file_seq, f.base) ∷ []))) in
          let e =
            switch_log-some f k.low (numbers t.rest) t.rest k.ready k.counted h (ground arith) (
              ap (λ q. delete_old_files max_files q (with_base f))
                (ap (λ q. q ++ (f.file_seq ∷ [])) queue
                  ∙ sym (numbers-append f.renamed f.file_seq f.base))
              ∙ t.result) in
          subst (Logs max_files f []) (sym e) (record {
            kept = record {
              ready = opened (suc f.calls);
              low = t.low;
              counted = t.counted;
              queued = λ l. (refl, t.few);
            };
            seq = omega arith;
            gone = t.gone;
            all_text =
                ap (λ r. t.gone ++ r) (append-nil (texts t.rest))
                ∙ t.text
                ∙ with_base-text f
                ∙ sym (append-nil (on_disk f));
            full = elim t.full [
              | inl none_gone ↦ inl none_gone
              | inr over ↦
                  inr (
                    ground arith,
                    omega (arith, length-append f.renamed ((f.file_seq, f.base) ∷ [])),
                  )
            ];
          }))
  ]

  written :
      (f : LoggerFile) (buf : List ℕ)
      → f.is_open ≡ true
      → write_log buf f ≡ record f { base = f.base ++ buf }
  unfolding write_log
  written f buf e = ground arith

  -- A log file whose system calls succeed and whose numbers stay below a million, all its earlier files
  -- in place: a write keeps it so, and all text on the disk stays, in order, with the new text behind
  -- it; except that a switch at the limit of files takes text from the beginning.
  pub write_log_to_file-Logs :
      (size_limit : ℕ) (buf : List ℕ) (f : LoggerFile)
      → Kept max_files f
      → f.file_seq < 1000000
      → Logs max_files f buf (write_log_to_file opens renames max_files size_limit buf f)
  unfolding write_log_to_file
  write_log_to_file-Logs size_limit buf f k h =
      let f' : LoggerFile = record f { base = f.base ++ buf } in
      let k' : Kept max_files f' = record {
        ready = k.ready;
        low = k.low;
        counted = k.counted;
        queued = k.queued;
      } in
      let more = sym (append_assoc (texts f.renamed) f.base buf) in
      rw (written f buf k.ready) (elim (Bool-cases (ltb size_limit (get_length f'))) [
        | inr small ↦
            rw small
              (record { kept = k'; seq = omega arith; gone = []; all_text = more; full = inl refl })
        | inl big ↦ rw big (
            let s = switch_log-Logs f' k' h in
            record {
              kept = s.kept;
              seq = s.seq;
              gone = s.gone;
              all_text = s.all_text ∙ append-nil (on_disk f') ∙ more;
              full = s.full;
            })
      ])
