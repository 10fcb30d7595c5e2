-- ===== src/Agent/Input/Dir.antt =====
-- internal/log-pilot-agent/input/dir.go: the input that reads the files of a directory. The state is
-- `dirInput`; the maps by inode are keyed by the number, where the code prints it in decimal. The
-- reader of an open file is its position in the file: `bufio.Reader` reads on from there.
pub mod Reading
pub mod Persist
pub mod Offsets
pub mod Segments
pub mod Lines
pub mod Rotation
use logpilot.Prelude.{
  ℕ, zero, suc, ◌-◌, String, Bool, true, false, not, ◌&&◌, ◌||◌, Option, none, some, List, [], ◌∷◌,
  map, str_eq, ltb, ◌==◌, if◌then◌else◌, length, last,
}
use logpilot.Api.{Bytes}
use logpilot.Agent.Input.Os.{FileSys, Library, DirEntry, Stat}
use logpilot.Agent.Input.Filter.{Pattern, passes_filter}

pub record DirConfig : Type 0 where
  pub dir : String
  pub meta_path : String
  pub read_from : String
  pub offset_commit_every : ℕ

pub record DirInput : Type 0 where
  pub cfg : DirConfig
  pub current_f : Option ℕ
  pub current_file : String
  pub current_inode : ℕ
  pub offset : ℕ
  pub reader : ℕ
  pub done_inodes : List (ℕ × ℕ)
  pub include : List Pattern
  pub exclude : List Pattern
  pub stopped : Bool
  pub lag : ℕ
  pub read_count : ℕ

unfoldable pub is_done : ℕ → List (ℕ × ℕ) → Bool
is_done i [] = false
is_done i ((j, o) ∷ m) = j == i || is_done i m

unfoldable pub set_done : ℕ → ℕ → List (ℕ × ℕ) → List (ℕ × ℕ)
set_done i o [] = (i, o) ∷ []
set_done i o ((j, p) ∷ m) = if j == i then (i, o) ∷ m else (j, p) ∷ set_done i o m

-- `max(info.Size()-d.offset, 0)`: `-` stops at 0. Where `Stat` fails the lag stays.
unfoldable pub update_lag : FileSys → DirInput → DirInput
update_lag fs d = elim d.current_f [
  | none ↦ d
  | some h ↦ if fs.stat_ok h then record d { lag = length (fs.content h) - d.offset } else d
]

unfoldable pub mark_current_done : DirInput → DirInput
unfolding set_done
mark_current_done d =
    if d.current_inode == 0
    then d
    else record d { done_inodes = set_done d.current_inode d.offset d.done_inodes }

-- `currentF.Close()` with the two assignments that follow it.
abbrev pub close_current : DirInput → DirInput
close_current d = record d { current_f = none }

-- The loop of `listFiles` that collects, before the sort.
unfoldable pub collect :
    Library → String → List Pattern → List Pattern → List DirEntry → List (String × ℕ)
collect lib dir include exclude [] = []
collect lib dir include exclude (e ∷ es) =
    let rest = collect lib dir include exclude es in
    if e.is_dir
    then rest
    else if not (passes_filter include exclude e.name)
    then rest
    else elim e.mod_time [ none ↦ rest | some t ↦ (lib.join dir e.name, t) ∷ rest ]

unfoldable pub list_files : Library → FileSys → DirInput → List String
unfolding collect
list_files lib fs d = elim (fs.read_dir d.cfg.dir) [
  | none ↦ []
  | some es ↦
      map (λ (f : String × ℕ). f.0)
        (lib.sort_by_time (collect lib d.cfg.dir d.include d.exclude es))
]

-- The file and the offset to start at; `none` for the offset is its end. Saved offsets are natural
-- numbers: the code saves no other.
unfoldable pub target : Library → FileSys → DirInput → Option (String × Option ℕ)
unfolding list_files
target lib fs d =
    if str_eq d.current_file ""
    then elim (list_files lib fs d) [
      | [] ↦ none
      | f ∷ more ↦
          if str_eq d.cfg.read_from "newest" then some (last f more, none) else some (f, some 0)
    ]
    else some (d.current_file, some d.offset)

-- Where the reader starts: a seek to an offset that fails starts from the beginning, and one to the end
-- that fails is the error `none`.
abbrev pub start_at : FileSys → ℕ → Option ℕ → Option ℕ
start_at fs h none = if fs.seek_end_ok h then some (length (fs.content h)) else none
start_at fs h (some zero) = some 0
start_at fs h (some (suc o)) = some (if fs.seek_ok h (suc o) then suc o else 0)

-- `openFile`; the flag says that no error is returned.
unfoldable pub open_file : Library → FileSys → DirInput → DirInput × Bool
unfolding target update_lag
open_file lib fs d = elim (target lib fs d) [
  | none ↦ (d, false)
  | some (path, o) ↦ elim (fs.open_file path) [
    | none ↦ (record d { current_file = "" }, false)
    | some h ↦ elim (start_at fs h o) [
      | none ↦ (d, false)
      | some at ↦ (
        update_lag fs (record d {
          current_f = some h;
          current_file = path;
          offset = at;
          current_inode = fs.inode_of h;
          reader = at;
        }),
        true,
      )
    ]
  ]
]

unfoldable pub detect_rotation : FileSys → DirInput → Bool
detect_rotation fs d = elim d.current_f [
  | none ↦ false
  | some h ↦ if str_eq d.current_file "" then false else elim (fs.stat d.current_file) [
    | none ↦ true
    | some st ↦
        if not (st.inode == 0) && (not (d.current_inode == 0) && not (st.inode == d.current_inode))
        then true
        else ltb st.size d.offset
  ]
]

-- One round of the loop of `advanceFile`; the flag says that it returns true.
unfoldable pub try_file : Library → FileSys → String → DirInput → String → DirInput × Bool
unfolding open_file mark_current_done is_done
try_file lib fs current_base d path = elim (fs.stat path) [
  | none ↦ (d, false)
  | some st ↦
      if is_done st.inode d.done_inodes
      then (d, false)
      else if str_eq (lib.base path) current_base && str_eq d.current_file path
      then (d, false)
      else let closed : DirInput = elim d.current_f [
        | none ↦ d
        | some h ↦ close_current (mark_current_done d)
      ] in
        open_file lib fs (record closed { current_file = path; offset = 0 })
]

unfoldable pub try_files : Library → FileSys → String → DirInput → List String → DirInput × Bool
unfolding try_file
try_files lib fs current_base d [] = (d, false)
try_files lib fs current_base d (path ∷ paths) =
    let (d', opened) = try_file lib fs current_base d path in
    let rest = try_files lib fs current_base d' paths in if opened then (d', true) else rest

unfoldable pub advance_file : Library → FileSys → DirInput → DirInput × Bool
unfolding try_files list_files
advance_file lib fs d =
    try_files lib fs (if str_eq d.current_file "" then "" else lib.base d.current_file) d
      (list_files lib fs d)
