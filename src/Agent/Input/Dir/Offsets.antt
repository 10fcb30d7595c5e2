-- ===== src/Agent/Input/Dir/Offsets.antt =====
-- dir.go: the offset is exactly what the reader has consumed of the open file.
use logpilot.Prelude.{
  ℕ, zero, suc, ◌+◌, String, ◌≡◌, inl, inr, Bool, none, some, List, [], ◌∷◌, arith, Bool-cases,
}
use logpilot.Agent.Record.{Record}
use logpilot.Agent.Input.Os.{FileSys, Library}
use logpilot.Agent.Input.Dir.{DirInput, open_file, try_file, try_files, advance_file}
use logpilot.Agent.Input.Dir.Reading.{
  Line, read_rounds, read_checked, read_line, account, collected,
}

-- While a file is open the offset is the reader's position, less `n` bytes not yet accounted for.
abbrev pub Ahead : ℕ → DirInput → Type 0
Ahead n d = elim d.current_f [ none ↦ Unit | some h ↦ d.reader ≡ d.offset + n ]

abbrev pub InSync : DirInput → Type 0
InSync d = Ahead 0 d

-- A line that was read, with no file open only if it is empty.
abbrev Reads : DirInput × Line → Type 0
Reads (d, l) = elim d.current_f [ none ↦ l.count ≡ 0 | some h ↦ d.reader ≡ d.offset + l.count ]

open_file-InSync :
    (lib : Library) (fs : FileSys) (d : DirInput) → InSync d → InSync (open_file lib fs d).0
unfolding open_file
open_file-InSync lib fs d h = ground arith

try_file-InSync :
    (lib : Library) (fs : FileSys) (base : String) (d : DirInput) (path : String)
    → InSync d
    → InSync (try_file lib fs base d path).0
unfolding try_file
try_file-InSync lib fs base d path h = ground arith

try_files-InSync :
    (lib : Library) (fs : FileSys) (base : String) (d : DirInput) (paths : List String)
    → InSync d
    → InSync (try_files lib fs base d paths).0
unfolding try_files
try_files-InSync lib fs base d [] h = h
try_files-InSync lib fs base d (path ∷ paths) h =
    let (d', opened) = try_file lib fs base d path in
    let k = try_file-InSync lib fs base d path h in
    elim (Bool-cases opened) [
      | inl e ↦ rw e k
      | inr e ↦ rw e (try_files-InSync lib fs base d' paths k)
    ]

advance_file-InSync :
    (lib : Library) (fs : FileSys) (d : DirInput) → InSync d → InSync (advance_file lib fs d).0
unfolding advance_file
advance_file-InSync lib fs d h = try_files-InSync lib fs _ d _ h

read_checked-Reads : (fs : FileSys) (d : DirInput) → InSync d → Reads (read_checked fs d)
unfolding read_checked
read_checked-Reads fs d h = ground arith

read_line-Reads :
    (lib : Library) (fs : FileSys) (d : DirInput) → InSync d → Reads (read_line lib fs d)
unfolding read_line open_file
read_line-Reads lib fs d h = ground (
  arith,
  read_checked-Reads fs d h,
  read_checked-Reads fs (open_file lib fs d).0 (open_file-InSync lib fs d h),
)

account-InSync : (fs : FileSys) (x : DirInput × Line) → Reads x → InSync (account fs x)
unfolding account
account-InSync fs (d, l) h = ground arith

-- Whatever the file system does between the rounds, a batch that is read leaves the offset at the
-- reader's position in the open file: the bytes consumed, neither more nor less.
pub read_rounds-InSync :
    (lib : Library) (fs : ℕ → FileSys) (ctx late : ℕ → Bool) (size fuel k : ℕ) (d : DirInput)
    (records : List Record) (u : DirInput) (got : List Record)
    → InSync d
    → read_rounds lib fs ctx late size fuel k d records ≡ some (u, got)
    → InSync u
unfolding read_rounds
read_rounds-InSync lib fs ctx late size zero k d records u got h e = cc
read_rounds-InSync lib fs ctx late size (suc fuel) k d records u got h e =
    let x = read_line lib (fs k) d in
    let d' = account (fs k) x in
    let kept = account-InSync (fs k) x (read_line-Reads lib (fs k) d h) in
    ground (
      arith,
      kept,
      advance_file-InSync lib (fs k) d' kept,
      read_rounds-InSync lib fs ctx late size fuel (suc k) d' (collected records x.1) u got,
      read_rounds-InSync lib fs ctx late size fuel (suc k) (advance_file lib (fs k) d').0
          (collected records x.1) u got,
    )
