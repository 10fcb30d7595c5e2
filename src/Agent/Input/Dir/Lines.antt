-- ===== src/Agent/Input/Dir/Lines.antt =====
-- dir.go: reading a file that nothing else changes yields exactly its lines.
use logpilot.Prelude.{
  ℕ, zero, suc, ◌+◌, ◌≤◌, ◌<◌, ◌≡◌, refl, sym, ap, ◌∙◌, inl, inr, Bool, false, ◌||◌, Option, some,
  List, [], ◌∷◌, ◌++◌, append-nil, arith, str_eq, eq_refl, if◌then◌else◌, List-cases, length,
}
use logpilot.Api.{Bytes}
use logpilot.Agent.Record.{Record}
use logpilot.Agent.Input.Os.{FileSys, Library, Stat}
use logpilot.Agent.Input.Dir.{DirInput, detect_rotation, list_files, try_files, advance_file}
use logpilot.Agent.Input.Dir.Reading.{
  Line, fine, eof, drop_bytes, read_string, strip, read_open, read_checked, read_line, account,
  collected, read_rounds,
}
use logpilot.Agent.Input.Dir.Segments.{
  records_of-nil, segments, records_of, segments_split, length-read_string-le,
  drop_bytes-drop_bytes, length-drop_bytes, collected_room, collected-records_of,
}

-- The input reads the only file of its directory, which nobody renames, truncates or breaks.
pub record Stable (lib : Library) (fs : FileSys) (h : ℕ) (d : DirInput) : Type 0 where
  pub running : d.stopped ≡ false
  pub opened : d.current_f ≡ some h
  pub named : str_eq d.current_file "" ≡ false
  pub stat : Stat
  pub there : fs.stat d.current_file ≡ some stat
  pub same_inode : stat.inode ≡ d.current_inode
  pub whole : stat.size ≡ length (fs.content h)
  pub sound : fs.broken h ≡ false
  pub alone : list_files lib fs d ≡ d.current_file ∷ []
  pub in_sync : d.reader ≡ d.offset
  pub within : d.offset ≤ length (fs.content h)

module _ (lib : Library) (fs : FileSys) (h : ℕ) where
  stable_unrotated : (d : DirInput) → Stable lib fs h d → detect_rotation fs d ≡ false
  unfolding detect_rotation
  stable_unrotated d s = ground (arith, s.there, s.same_inode)

  stable_try :
      (d : DirInput)
      → Stable lib fs h d
      → try_files lib fs (lib.base d.current_file) d (d.current_file ∷ []) ≡ (d, false)
  unfolding try_files
  stable_try d s =
      ground (arith, s.there, eq_refl (lib.base d.current_file), eq_refl d.current_file)

  stable_alone : (d : DirInput) → Stable lib fs h d → advance_file lib fs d ≡ (d, false)
  unfolding advance_file
  stable_alone d s =
      let b : (if str_eq d.current_file "" then "" else lib.base d.current_file)
          ≡ lib.base d.current_file =
        rw s.named in
      ap (λ c. try_files lib fs c d (list_files lib fs d)) b
      ∙ ap (λ l. try_files lib fs (lib.base d.current_file) d l) s.alone
      ∙ stable_try d s

  stable_line : (d : DirInput) → Stable lib fs h d → read_line lib fs d ≡ read_open fs h d
  unfolding read_line read_checked
  stable_line d s = ground (arith, stable_unrotated d s, s.opened)

  account_files :
      (d : DirInput) (l : Line) → list_files lib fs (account fs (d, l)) ≡ list_files lib fs d
  unfolding account list_files
  account_files d l = ground arith

  account_offset :
      (d : DirInput) (l : Line)
      → ((account fs (d, l)).offset ≡ d.offset + l.count)
        × ((account fs (d, l)).reader ≡ d.reader)
        × ((account fs (d, l)).current_file ≡ d.current_file)
  unfolding account
  account_offset d l = ground arith

  -- The state after one segment of `n` bytes.
  abbrev advanced : DirInput → Bytes → DirInput
  advanced d raw = account fs (
    record d { reader = d.reader + length raw },
    record { line = strip raw; count = length raw; error = fine },
  )

  stable_more :
      (d : DirInput) (b : ℕ) (bs : Bytes)
      → Stable lib fs h d
      → drop_bytes d.reader (fs.content h) ≡ b ∷ bs
      → read_open fs h d ≡ (
        record d { reader = d.reader + length (read_string (b ∷ bs)) },
        record {
          line = strip (read_string (b ∷ bs));
          count = length (read_string (b ∷ bs));
          error = fine;
        },
      )
  unfolding read_open
  stable_more d b bs s e = rw (e, read_open) (ground (arith, s.sound))

  stable_end :
      (d : DirInput)
      → Stable lib fs h d
      → drop_bytes d.reader (fs.content h) ≡ []
      → read_open fs h d ≡ (d, record { line = []; count = 0; error = eof })
  unfolding read_open
  stable_end d s e = rw (e, read_open) (ground (arith, s.sound))

  advanced-Stable :
      (d : DirInput) (b : ℕ) (bs : Bytes)
      → Stable lib fs h d
      → drop_bytes d.reader (fs.content h) ≡ b ∷ bs
      → Stable lib fs h (advanced d (read_string (b ∷ bs)))
  unfolding account list_files
  advanced-Stable d b bs s e = record {
    running = ground arith;
    opened = ground arith;
    named = ground arith;
    stat = s.stat;
    there = ground arith;
    same_inode = ground arith;
    whole = s.whole;
    sound = s.sound;
    alone = account_files d' l ∙ s.alone ∙ ap (λ f. f ∷ []) (sym (account_offset d' l).2);
    in_sync = omega (arith, account_offset d' l, s.in_sync);
    within = omega (
      arith,
      account_offset d' l,
      s.in_sync,
      ap length e,
      length-drop_bytes d.reader (fs.content h),
      length-read_string-le (b ∷ bs),
    );
  }
    where
      raw : Bytes
      raw = read_string (b ∷ bs)

      d' : DirInput
      d' = record d { reader = d.reader + length raw }

      l : Line
      l = record { line = strip raw; count = length raw; error = fine }

  module _ (ctx late : ℕ → Bool) (size fuel k : ℕ) (d : DirInput) (records : List Record) where
    abbrev start : Option (DirInput × List Record)
    start = read_rounds lib (λ _. fs) ctx late size (suc fuel) k d records

    round_fine :
        (d' : DirInput) (l : Line)
        → (ctx k || late k) ≡ false
        → length records < size
        → read_line lib fs d ≡ (d', l)
        → l.error ≡ fine
        → start
          ≡ read_rounds lib
              (λ _. fs)
              ctx
              late
              size
              fuel
              (suc k)
              (account fs (d', l))
              (collected records l)
    unfolding read_rounds
    round_fine d' l quiet room e f = ground arith

    round_eof :
        (ctx k || late k) ≡ false
        → length records < size
        → read_line lib fs d ≡ (d, record { line = []; count = 0; error = eof })
        → advance_file lib fs d ≡ (d, false)
        → start ≡ some (d, records)
    unfolding read_rounds account
    round_eof quiet room e f = ground arith

  -- Reading, uninterrupted and with room in the batch, the only file of the directory, which nobody
  -- renames, truncates or breaks: the batch is exactly the non-blank lines of what lay behind the
  -- offset, in order, and the offset ends at the end of the file. One round more than there are
  -- lines is enough fuel.
  pub read_rounds-records_of :
      (ctx late : ℕ → Bool)
      → ((k : ℕ) → (ctx k || late k) ≡ false)
      → (size fuel k : ℕ) (d : DirInput) (records : List Record) → Stable lib fs h d
      → length (segments (drop_bytes d.reader (fs.content h))) < fuel
      → length records + length (segments (drop_bytes d.reader (fs.content h))) < size
      → (u : DirInput) × (read_rounds lib (λ _. fs) ctx late size fuel k d records
          ≡ some (u, records ++ records_of (drop_bytes d.reader (fs.content h))))
        × (u.offset ≡ length (fs.content h))
        × Stable lib fs h u
  read_rounds-records_of ctx late quiet size zero k d records s f r = absurd (omega arith)
  read_rounds-records_of ctx late quiet size (suc fuel) k d records s f r =
      elim (List-cases (drop_bytes d.reader (fs.content h))) [
        | inl e ↦ (
          d,
          round_eof ctx late size fuel k d records (quiet k) (omega arith)
                (stable_line d s ∙ stable_end d s e) (stable_alone d s)
              ∙ ap (λ l. some (d, l))
                  (sym (
                    ap (λ bs. records ++ records_of bs) e
                    ∙ ap (◌++◌ records) records_of-nil
                    ∙ append-nil records)),
          omega
              (arith, ap length e, length-drop_bytes d.reader (fs.content h), s.in_sync, s.within),
          s,
        )
        | inr (b, bs, e) ↦
            let raw = read_string (b ∷ bs) in
            let d' = record d { reader = d.reader + length raw } in
            let l : Line = record { line = strip raw; count = length raw; error = fine } in
            let behind : drop_bytes (account fs (d', l)).reader (fs.content h)
                ≡ drop_bytes (length raw) (b ∷ bs) =
              ap (λ n. drop_bytes n (fs.content h)) (account_offset d' l).1
              ∙ sym (drop_bytes-drop_bytes d.reader (length raw) (fs.content h))
              ∙ ap (drop_bytes (length raw)) e in
            let cut : length (segments (drop_bytes d.reader (fs.content h)))
                ≡ suc (length (segments (drop_bytes (account fs (d', l)).reader (fs.content h)))) =
              ap (λ x. length (segments x)) e
              ∙ ap length (segments_split b bs)
              ∙ ap (λ x. suc (length (segments x))) (sym behind) in
            let (u, read, off, s') =
              read_rounds-records_of ctx late quiet size fuel (suc k) (account fs (d', l))
                (collected records l) (advanced-Stable d b bs s e) (omega arith)
                (omega (arith, collected_room records l)) in
            (
              u,
              round_fine ctx late size fuel k d records d' l (quiet k) (omega arith)
                    (stable_line d s ∙ stable_more d b bs s e) refl
                  ∙ read
                  ∙ ap (λ x. some (u, x))
                      (ap (λ x. collected records l ++ records_of x) behind
                        ∙ collected-records_of records b bs l refl
                        ∙ ap (λ x. records ++ records_of x) (sym e)),
              off,
              s',
            )
      ]
