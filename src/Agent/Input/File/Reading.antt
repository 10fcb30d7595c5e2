-- ===== src/Agent/Input/File/Reading.antt =====
-- What a batch of a followed file holds, and where a restart begins.
use logpilot.Prelude.{
  ℕ, zero, suc, ◌+◌, ◌-◌, ◌≤◌, String, ◌≡◌, refl, ap, ◌∙◌, subst, Bool, true, false, Option, some,
  List, [], ◌∷◌, ◌++◌, append_assoc, arith, str_eq, of_some-eq-some, length, length-append,
}
use logpilot.Api.{Bytes}
use logpilot.Agent.Record.{Record, plain}
use logpilot.Agent.Input.File.{
  FileInput, at_offset, Library, Select, line_read, line_failed, lines_closed, context_done,
  nothing, load_offset, with_defaults, seek_info, initial_lag, begun, new_file_input, read_lines,
  commit_offset, close, or_zero,
}

-- The lines of a script, up to where the lines or the context end.
abbrev pub lines : List Select → List Record
lines [] = []
lines (line_read text ∷ script) = plain text ∷ lines script
lines (line_failed ∷ script) = lines script
lines (lines_closed ∷ script) = lines script
lines (context_done ∷ script) = lines script
lines (nothing ∷ script) = lines script

abbrev pub ends : List Select → Bool
ends [] = false
ends (line_read text ∷ script) = ends script
ends (line_failed ∷ script) = ends script
ends (lines_closed ∷ script) = true
ends (context_done ∷ script) = true
ends (nothing ∷ script) = ends script

module _ (lib : Library) where
  -- A batch that was read from a script, of at most `room` records more than `records`.
  abbrev pub Batch : List Select → ℕ → List Record → List Record × List Select → Type 0
  Batch script room records (batch, rest) =
      (batch ++ lines rest ≡ records ++ lines script) × (length batch ≤ length records + room)

  abbrev pub Reads : List Select → ℕ → List Record → Option (List Record × List Select) → Type 0
  Reads script room records o =
      (ends script ≡ true → (r : List Record × List Select) × (o ≡ some r))
      × ((r : List Record × List Select) → o ≡ some r → Batch script room records r)

  at_once :
      (script rest : List Select) (room : ℕ) (records : List Record)
      → lines rest ≡ lines script
      → Reads script room records (some (records, rest))
  at_once script rest room records e = (
    (λ h. ((records, rest), refl)),
    λ r h.
        subst (Batch script room records) (of_some-eq-some h)
          (ap (λ l. records ++ l) e, omega arith),
  )

  one_more :
      (text : Bytes) (script : List Select) (room : ℕ) (records : List Record)
      (o : Option (List Record × List Select))
      → Reads script room (records ++ plain text ∷ []) o
      → Reads (line_read text ∷ script) (suc room) records o
  one_more text script room records o (total, right) = (
    total,
    λ r h.
        let (same, short) = right r h in
        (
          same ∙ append_assoc records (plain text ∷ []) (lines script),
          omega (arith, length-append records (plain text ∷ [])),
        ),
  )

  -- A batch that is read from a followed file whose name passes its filters, and what is left to read, are
  -- the lines of the file in order, but for lines with an error; the batch has the size at
  -- most; and if the lines or the context end at some time, there is a batch.
  pub read_lines_lem :
      (script : List Select) (room : ℕ) (records : List Record)
      → Reads script room records (read_lines lib true script room records)
  unfolding read_lines
  read_lines_lem script zero records = at_once script script zero records refl
  read_lines_lem [] (suc room) records = ((λ h. absurd (cc)), λ r h. absurd (cc))
  read_lines_lem (line_read text ∷ script) (suc room) records =
      one_more text script room records _ (read_lines_lem script room (records ++ plain text ∷ []))
  read_lines_lem (line_failed ∷ script) (suc room) records =
      read_lines_lem script (suc room) records
  read_lines_lem (lines_closed ∷ script) (suc room) records =
      at_once (lines_closed ∷ script) script (suc room) records refl
  read_lines_lem (context_done ∷ script) (suc room) records =
      at_once (context_done ∷ script) script (suc room) records refl
  read_lines_lem (nothing ∷ script) (suc room) [] = read_lines_lem script (suc room) []
  read_lines_lem (nothing ∷ script) (suc room) (r ∷ rs) =
      at_once (nothing ∷ script) script (suc room) (r ∷ rs) refl

  stored :
      (f : FileInput) (told size : Option ℕ) (disk : Option Bytes) (raw : Bytes)
      → str_eq f.cfg.meta_path "" ≡ false
      → lib.encode (or_zero told) ≡ some raw
      → (close lib told size true f disk).1 ≡ some raw
  unfolding close commit_offset
  stored f told size disk raw p e = rw p (rw e refl)

  reloaded :
      (f : FileInput) (told size : Option ℕ) (disk : Option Bytes) (meta_dir : String) (raw : Bytes)
      → str_eq f.cfg.meta_path "" ≡ false
      → lib.encode (or_zero told) ≡ some raw
      → lib.decode raw ≡ some (or_zero told)
      → load_offset lib
          (with_defaults lib f.cfg meta_dir).meta_path
          (close lib told size true f disk).1
        ≡ some (or_zero told)
  unfolding load_offset with_defaults
  reloaded f told size disk meta_dir raw p e d = rw (p, stored f told size disk raw p e) (rw p d)

  -- A followed file is closed and opened again at the same meta path: reading goes on at the offset
  -- that `Tell` answered, or at the beginning if it failed, whatever the configuration says of where
  -- to read from. The offset was stored, and the decoder inverts the encoder.
  pub close-new_file_input :
      (f : FileInput) (told size size' : Option ℕ) (disk : Option Bytes) (meta_dir : String)
      (raw : Bytes)
      → str_eq f.cfg.meta_path "" ≡ false
      → lib.encode (or_zero told) ≡ some raw
      → lib.decode raw ≡ some (or_zero told)
      → let stored = (close lib told size true f disk).1 in
        (g : FileInput) × (new_file_input lib f.cfg meta_dir (λ path. stored) size' true
          ≡ some (g, at_offset (or_zero told)))
        × ((n : ℕ) → size' ≡ some n → g.lag ≡ n - or_zero told)
  unfolding new_file_input seek_info initial_lag
  close-new_file_input f told size size' disk meta_dir raw p e d =
      let cfg = with_defaults lib f.cfg meta_dir in
      let load = load_offset lib cfg.meta_path (close lib told size true f disk).1 in
      let loaded = reloaded f told size disk meta_dir raw p e d in
      (
        (begun lib cfg load size').0,
        ap (λ o. some ((begun lib cfg load size').0, seek_info lib cfg o)) loaded,
        λ n h.
            ap (λ (z : Option ℕ). (begun lib cfg load z).0.lag) h
            ∙ ap (λ o. initial_lag lib cfg o n) loaded,
      )
