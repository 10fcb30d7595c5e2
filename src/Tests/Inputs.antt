-- ===== src/Tests/Inputs.antt =====
-- A directory with one file of two lines and a blank one, and one whose open file was replaced.
use logpilot.Prelude.{
  ℕ, String, str_append, ◌≡◌, refl, Bool, true, false, none, some, List, [], ◌∷◌, arith, str_eq,
  if◌then◌else◌, length, All,
}
use logpilot.Api.{Bytes}
use logpilot.Agent.Input.Os.{FileSys, Library}
use logpilot.Agent.Input.Filter.{Pattern, passes_filter}
use logpilot.Agent.Input.Dir.{DirInput, list_files, advance_file}
use logpilot.Agent.Input.Dir.Reading.{read_rounds}
use logpilot.Agent.Input.Dir.Persist.{
  committed, Codec, commit_state, new_dir_input, new_dir_input-commit_state, prune_stale_inodes,
}
use logpilot.Agent.Input.Dir.Offsets.{InSync, read_rounds-InSync}
use logpilot.Agent.Input.Dir.Segments.{segments, records_of}
use logpilot.Agent.Input.Dir.Lines.{Stable, read_rounds-records_of}
use logpilot.Agent.Input.Dir.Rotation.{Moved, advance_file-Moved}

abbrev library : Library
library = record {
  join = λ dir name. str_append dir (str_append "/" name);
  base = λ path. path;
  sort_by_time = λ l. l;
}

abbrev one_file : String → ℕ → Bytes → FileSys
one_file name inode bytes = record {
  read_dir = λ dir. some (record { name = name; is_dir = false; mod_time = some 1 } ∷ []);
  stat = λ path.
      if str_eq path (str_append "logs/" name)
      then some (record { inode = inode; size = length bytes })
      else none;
  open_file = λ path. if str_eq path (str_append "logs/" name) then some 7 else none;
  inode_of = λ h. inode;
  seek_ok = λ h o. true;
  seek_end_ok = λ h. true;
  stat_ok = λ h. true;
  content = λ h. bytes;
  broken = λ h. false;
}

abbrev two_lines : Bytes
two_lines = 97 ∷ 98 ∷ 10 ∷ 10 ∷ 99 ∷ 10 ∷ []

abbrev disk_now : FileSys
disk_now = one_file "a.log" 5 two_lines

abbrev opened : DirInput
opened = record {
  cfg = record {
    dir = "logs";
    meta_path = "meta";
    read_from = "oldest";
    offset_commit_every = 1000;
  };
  current_f = some 7;
  current_file = "logs/a.log";
  current_inode = 5;
  offset = 0;
  reader = 0;
  done_inodes = (3, 20) ∷ [];
  include = [];
  exclude = [];
  stopped = false;
  lag = 0;
  read_count = 0;
}

opened-Stable : Stable library disk_now 7 opened
unfolding list_files passes_filter
opened-Stable = record {
  running = refl;
  opened = refl;
  named = refl;
  stat = record { inode = 5; size = 6 };
  there = refl;
  same_inode = refl;
  whole = refl;
  sound = refl;
  alone = refl;
  in_sync = refl;
  within = omega arith;
}

abbrev never : ℕ → Bool
never k = false

read_rounds-records_of_example :
    (u : DirInput) × (read_rounds library (λ k. disk_now) never never 10 8 0 opened []
      ≡ some (u, records_of two_lines))
    × (u.offset ≡ 6)
    × Stable library disk_now 7 u
unfolding segments
read_rounds-records_of_example =
    read_rounds-records_of library disk_now 7 never never (λ k. refl) 10 8 0 opened [] opened-Stable
      (omega arith) (omega arith)

abbrev lines_read :
    (u : DirInput) × (read_rounds library (λ k. disk_now) never never 10 8 0 opened []
      ≡ some (u, records_of two_lines))
    × (u.offset ≡ 6)
    × Stable library disk_now 7 u
unfolding segments
lines_read =
    read_rounds-records_of library disk_now 7 never never (λ k. refl) 10 8 0 opened [] opened-Stable
      (omega arith) (omega arith)

read_rounds-InSync_example : InSync lines_read.0
read_rounds-InSync_example =
    read_rounds-InSync library (λ k. disk_now) never never 10 8 0 opened [] lines_read.0
      (records_of two_lines) refl lines_read.1

-- A codec that knows one state.
abbrev codec : Codec
codec = record {
  encode = λ st. some (1 ∷ []);
  decode = λ raw. some (committed library disk_now opened);
}

new_dir_input-commit_state_example :
    let n =
      new_dir_input codec opened.cfg [] []
        (commit_state library codec disk_now true opened none).1 in
    (n.current_file ≡ "logs/a.log")
    × (n.offset ≡ 0)
    × (n.done_inodes ≡ (prune_stale_inodes library disk_now opened).done_inodes)
    × (n.current_f ≡ none)
new_dir_input-commit_state_example =
    new_dir_input-commit_state library codec disk_now opened none [] [] (1 ∷ []) refl refl refl

abbrev all_names : List Pattern
all_names = (λ n. true) ∷ []

abbrev name_b : List Pattern
name_b = (λ n. str_eq n "b") ∷ []

abbrev renamed : FileSys
renamed = one_file "b.log" 6 two_lines

renamed_listed : All (λ p. str_eq p "" ≡ false) (list_files library renamed opened)
unfolding list_files passes_filter
renamed_listed = (refl, tt)

renamed_advances : (advance_file library renamed opened).1 ≡ true
unfolding advance_file passes_filter
renamed_advances = refl

advance_file-Moved_example : Moved library renamed opened (advance_file library renamed opened).0
advance_file-Moved_example =
    advance_file-Moved library renamed opened renamed_listed renamed_advances
