-- ===== src/Agent/Input/File.antt =====
-- internal/log-pilot-agent/input/file.go: a file that is followed. The library tail, which delivers the lines, is a
-- script of what the selects of `ReadBatch` get, and the position that `Tell` answers. encoding/json and
-- path/filepath are parameters. Offsets and sizes count bytes.
pub mod Reading
use logpilot.Prelude.{
  ℕ, zero, suc, ◌+◌, ◌-◌, String, str_append, Bool, true, false, not, ◌&&◌, ◌||◌, Option, none,
  some, List, [], ◌∷◌, ◌++◌, str_eq, ◌==◌, if◌then◌else◌, length, nonempty,
}
use logpilot.Agent.Record.{Record, plain}
use logpilot.Api.{Bytes}
use logpilot.Agent.Input.Filter.{Pattern, compile_patterns, passes_filter}

pub record FileConfig : Type 0 where
  pub path : String
  pub meta_path : String
  pub read_from : String
  pub include : List String
  pub exclude : List String
  pub offset_commit_every : ℕ

pub record FileInput : Type 0 where
  pub cfg : FileConfig
  pub stopped : Bool
  pub lag : ℕ
  pub read_count : ℕ
  pub include : List Pattern
  pub exclude : List Pattern

-- Where the tail begins.
pub data Seek : Type 0 where
  at_offset : ℕ → Seek
  at_end : Seek

pub record Library : Type 0 where
  pub encode : ℕ → Option Bytes
  pub decode : Bytes → Option ℕ
  pub join : String → String → String
  pub base : String → String
  pub compile : String → Option Pattern

-- What a select gets: a line, a line with an error, the end of the lines, the end of the context, or
-- nothing yet.
pub data Select : Type 0 where
  line_read : Bytes → Select
  line_failed lines_closed context_done nothing : Select

-- `max(size - offset, 0)`
abbrev pub remaining : ℕ → ℕ → ℕ
remaining size offset = size - offset

abbrev pub or_zero : Option ℕ → ℕ
or_zero none = 0
or_zero (some n) = n

-- The lag, where the size is known.
abbrev pub with_lag : Option ℕ → ℕ → FileInput → FileInput
with_lag none offset f = f
with_lag (some size) offset f = record f { lag = remaining size offset }

module _ (lib : Library) where
  -- `disk` is the file at the path, none where it cannot be read; a negative offset is none.
  unfoldable pub load_offset : String → Option Bytes → Option ℕ
  load_offset meta_path disk =
      if str_eq meta_path "" then none else elim disk [ none ↦ none | some raw ↦ lib.decode raw ]

  -- The configuration with its defaults.
  unfoldable pub with_defaults : FileConfig → String → FileConfig
  with_defaults cfg meta_dir = record cfg {
    offset_commit_every = if cfg.offset_commit_every == 0 then 20000 else cfg.offset_commit_every;
    meta_path =
        if str_eq cfg.meta_path "" && not (str_eq meta_dir "")
        then lib.join meta_dir (str_append (lib.base cfg.path) ".offset")
        else cfg.meta_path;
  }

  unfoldable pub seek_info : FileConfig → Option ℕ → Seek
  seek_info cfg (some offset) = at_offset offset
  seek_info cfg none = if str_eq cfg.read_from "oldest" then at_offset 0 else at_end

  unfoldable pub initial_lag : FileConfig → Option ℕ → ℕ → ℕ
  initial_lag cfg (some offset) size = remaining size offset
  initial_lag cfg none size =
      if str_eq cfg.read_from "newest" then remaining size size else remaining size 0

  -- The input, and where the tail begins.
  abbrev pub begun : FileConfig → Option ℕ → Option ℕ → FileInput × Seek
  begun cfg saved size = (
    record {
      cfg = cfg;
      stopped = false;
      lag = elim size [ none ↦ 0 | some n ↦ initial_lag cfg saved n ];
      read_count = 0;
      include = compile_patterns lib.compile cfg.include;
      exclude = compile_patterns lib.compile cfg.exclude;
    },
    seek_info cfg saved,
  )

  -- `NewFileInput`: `disk` is the file at the meta path, and `size` the size of the followed file, none
  -- where Stat fails; `opens` says whether tail opens the file. The error is none.
  unfoldable pub new_file_input :
      FileConfig → String → (String → Option Bytes) → Option ℕ → Bool → Option (FileInput × Seek)
  unfolding with_defaults load_offset seek_info initial_lag compile_patterns
  new_file_input given meta_dir disk size opens =
      let cfg = with_defaults given meta_dir in
      let saved = load_offset cfg.meta_path (disk cfg.meta_path) in
      if not opens then none else some (begun cfg saved size)

  -- The loop of `ReadBatch`, with room for as many records; `passes` is the test of the file's name. With
  -- no record yet, a select that gets nothing goes over into one that waits. The records and what the
  -- script has left; none where the script is over and the loop still waits.
  unfoldable pub read_lines :
      Bool → List Select → ℕ → List Record → Option (List Record × List Select)
  read_lines passes script zero records = some (records, script)
  read_lines passes [] (suc room) records = none
  read_lines passes (line_read text ∷ script) (suc room) records = elim passes [
    | true ↦ read_lines passes script room (records ++ plain text ∷ [])
    | false ↦ read_lines passes script (suc room) records
  ]
  read_lines passes (line_failed ∷ script) (suc room) records =
      read_lines passes script (suc room) records
  read_lines passes (lines_closed ∷ script) (suc room) records = some (records, script)
  read_lines passes (context_done ∷ script) (suc room) records = some (records, script)
  read_lines passes (nothing ∷ script) (suc room) records =
      let waited = read_lines passes script (suc room) records in
      if nonempty records then some (records, script) else waited

  unfoldable pub read_batch :
      List Select → ℕ → FileInput → Option ((FileInput × List Record) × List Select)
  unfolding read_lines passes_filter
  read_batch script size f =
      if f.stopped
      then some ((f, []), script)
      else elim (read_lines (passes_filter f.include f.exclude (lib.base f.cfg.path)) script size
          []) [
            | none ↦ none
            | some (records, rest) ↦
                some ((record f { read_count = f.read_count + length records }, records), rest)
          ]

  -- `commitOffset`: `told` is what `Tell` answers, none where it fails; `stored` says whether the file
  -- can be written and renamed.
  unfoldable pub commit_offset :
      Option ℕ → Option ℕ → Bool → FileInput → Option Bytes → FileInput × Option Bytes
  commit_offset told size stored f disk =
      let f' = with_lag size (or_zero told) f in
      if str_eq f.cfg.meta_path "" || not stored
      then (f', disk)
      else elim (lib.encode (or_zero told)) [ none ↦ (f', disk) | some raw ↦ (f', some raw) ]

  unfoldable pub close :
      Option ℕ → Option ℕ → Bool → FileInput → Option Bytes → FileInput × Option Bytes
  unfolding commit_offset
  close told size stored f disk = commit_offset told size stored (record f { stopped = true }) disk
