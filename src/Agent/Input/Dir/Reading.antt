-- ===== src/Agent/Input/Dir/Reading.antt =====
-- dir.go: reading lines and batches.
use logpilot.Prelude.{
  ℕ, zero, suc, ◌+◌, Bool, true, false, not, ◌&&◌, ◌||◌, Option, none, some, List, [], ◌∷◌, ◌++◌,
  ltb, ◌==◌, if◌then◌else◌, length, nonempty, any,
}
use logpilot.Api.{Bytes}
use logpilot.Agent.Record.{Record, plain}
use logpilot.Agent.Input.Os.{FileSys, Library}
use logpilot.Agent.Input.Dir.{
  DirInput, update_lag, mark_current_done, close_current, open_file, detect_rotation, advance_file,
}

pub data ReadErr : Type 0 where
  fine eof failed : ReadErr

abbrev pub newline : ℕ
newline = 10

abbrev pub carriage_return : ℕ
carriage_return = 13

abbrev pub drop_bytes : ℕ → Bytes → Bytes
drop_bytes zero bs = bs
drop_bytes (suc n) [] = []
drop_bytes (suc n) (b ∷ bs) = drop_bytes n bs

-- `ReadString('\n')`: the bytes up to and with the first newline, or all that there are.
unfoldable pub read_string : Bytes → Bytes
read_string [] = []
read_string (b ∷ bs) = if b == newline then b ∷ [] else b ∷ read_string bs

abbrev pub strippable : ℕ → Bool
strippable b = b == newline || b == carriage_return

abbrev pub cons_unless_blank : ℕ → Bytes → Bytes
cons_unless_blank b [] = if strippable b then [] else b ∷ []
cons_unless_blank b (c ∷ cs) = b ∷ c ∷ cs

-- The loop that cuts newlines and carriage returns off the end.
unfoldable pub strip : Bytes → Bytes
strip [] = []
strip (b ∷ bs) = cons_unless_blank b (strip bs)

-- `readLine`: the line, the bytes consumed, and the error.
pub record Line : Type 0 where
  pub line : Bytes
  pub count : ℕ
  pub error : ReadErr

abbrev pub at_end : ReadErr → Line
at_end e = record { line = []; count = 0; error = e }

-- The part of `readLine` behind the rotation check, on an open file.
unfoldable pub read_open : FileSys → ℕ → DirInput → DirInput × Line
unfolding read_string strip
read_open fs h d =
    let raw = read_string (drop_bytes d.reader (fs.content h)) in
    if nonempty raw
    then (
      record d { reader = d.reader + length raw },
      record {
        line = strip raw;
        count = length raw;
        error = if fs.broken h && not (str_end raw) then failed else fine;
      },
    )
    else (d, at_end (if fs.broken h then failed else eof))
  where
    str_end : Bytes → Bool
    str_end bs = any (λ b. b == newline) bs

-- What `readLine` does to the state when the file was swapped.
abbrev pub rotated : DirInput → DirInput
rotated d = record (close_current (mark_current_done d)) { current_file = ""; offset = 0 }

unfoldable pub read_checked : FileSys → DirInput → DirInput × Line
unfolding read_open detect_rotation mark_current_done
read_checked fs d =
    if detect_rotation fs d
    then (rotated d, at_end eof)
    else elim d.current_f [ none ↦ (d, at_end eof) | some h ↦ read_open fs h d ]

unfoldable pub read_line : Library → FileSys → DirInput → DirInput × Line
unfolding read_checked open_file
read_line lib fs d = elim d.current_f [
  | none ↦
      let (d', opened) = open_file lib fs d in
      if opened then read_checked fs d' else (d', at_end eof)
  | some h ↦ read_checked fs d
]

-- The accounting of `ReadBatch` after `readLine`.
unfoldable pub account : FileSys → DirInput × Line → DirInput
unfolding update_lag
account fs (d, l) =
    let moved : DirInput =
      if l.count == 0 then d else update_lag fs (record d { offset = d.offset + l.count }) in
    if nonempty l.line then record moved { read_count = moved.read_count + 1 } else moved

abbrev pub collected : List Record → Line → List Record
collected records l = if nonempty l.line then records ++ plain l.line ∷ [] else records

-- The loop of `ReadBatch`. Round `k` sees the system `fs k`, and whether the context is done and
-- the deadline has passed.
unfoldable pub read_rounds :
    Library
    → (ℕ → FileSys)
    → (ℕ → Bool)
    → (ℕ → Bool)
    → ℕ
    → ℕ
    → ℕ
    → DirInput
    → List Record
    → Option (DirInput × List Record)
read_rounds lib fs ctx late size zero k d records = none
read_rounds lib fs ctx late size (suc fuel) k d records =
    let (d', l) = read_line lib (fs k) d in
    let d'' = account (fs k) (d', l) in
    let (e, advanced) = advance_file lib (fs k) d'' in
    let records' = collected records l in
    elim (not (ltb (length records) size) || (ctx k || late k)) [
      | true ↦ some (d, records)
      | false ↦ elim l.error [
        | fine ↦ read_rounds lib fs ctx late size fuel (suc k) d'' records'
        | failed ↦ some (d'', records')
        | eof ↦ elim advanced [
          | true ↦ read_rounds lib fs ctx late size fuel (suc k) e records'
          | false ↦ some (e, records')
        ]
      ]
    ]

unfoldable pub read_batch :
    Library
    → (ℕ → FileSys)
    → (ℕ → Bool)
    → (ℕ → Bool)
    → ℕ
    → ℕ
    → DirInput
    → Option (DirInput × List Record)
unfolding read_rounds
read_batch lib fs ctx late size fuel d =
    if d.stopped then some (d, []) else read_rounds lib fs ctx late size fuel 0 d []
