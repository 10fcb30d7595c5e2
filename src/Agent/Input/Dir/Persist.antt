-- ===== src/Agent/Input/Dir/Persist.antt =====
-- dir.go: the state that survives a restart. `disk` is the content of the file at `MetaPath`; a
-- write goes to a temporary file that is renamed, so it lands whole or not at all. encoding/json is
-- a parameter.
use logpilot.Prelude.{
  ℕ, String, ◌≡◌, refl, subst, inl, inr, Bool, true, false, not, ◌&&◌, ◌||◌, Option, none, some,
  List, [], ◌∷◌, arith, str_eq, ◌==◌, if◌then◌else◌, Option-cases, List-cases, nonempty, keep,
}
use logpilot.Api.{Bytes}
use logpilot.Agent.Input.Os.{FileSys, Library, DirEntry}
use logpilot.Agent.Input.Filter.{Pattern}
use logpilot.Agent.Input.Dir.{DirConfig, DirInput, update_lag, is_done}

-- `dirOffsetState`
pub record OffsetState : Type 0 where
  pub current_file : String
  pub offset : ℕ
  pub done_inodes : List (ℕ × ℕ)

pub record Codec : Type 0 where
  pub encode : OffsetState → Option Bytes
  pub decode : Bytes → Option OffsetState

-- The inodes of the files that `pruneStaleInodes` finds.
unfoldable pub current_inodes : Library → FileSys → String → List DirEntry → List ℕ
current_inodes lib fs dir [] = []
current_inodes lib fs dir (e ∷ es) =
    let rest = current_inodes lib fs dir es in
    if e.is_dir
    then rest
    else elim (fs.stat (lib.join dir e.name)) [ none ↦ rest | some st ↦ st.inode ∷ rest ]

unfoldable pub contains : ℕ → List ℕ → Bool
contains i [] = false
contains i (j ∷ js) = j == i || contains i js

unfoldable pub prune_stale_inodes : Library → FileSys → DirInput → DirInput
unfolding current_inodes contains
prune_stale_inodes lib fs d =
    if not (nonempty d.done_inodes) then d else elim (fs.read_dir d.cfg.dir) [
      | none ↦ d
      | some es ↦ record d {
        done_inodes =
            keep (λ (x : ℕ × ℕ). contains x.0 (current_inodes lib fs d.cfg.dir es)) d.done_inodes;
      }
    ]

-- `stored` says whether the directory could be made and the file written and renamed.
unfoldable pub commit_state :
    Library → Codec → FileSys → Bool → DirInput → Option Bytes → DirInput × Option Bytes
commit_state lib codec fs stored d disk =
    let d' = prune_stale_inodes lib fs (update_lag fs d) in
    if str_eq d'.cfg.meta_path ""
    then (d', disk)
    else elim (codec.encode (record {
      current_file = d'.current_file;
      offset = d'.offset;
      done_inodes = d'.done_inodes;
    })) [ none ↦ (d', disk) | some raw ↦ if stored then (d', some raw) else (d', disk) ]

unfoldable pub load_state : Codec → DirInput → Option Bytes → DirInput
load_state codec d disk = if str_eq d.cfg.meta_path "" then d else elim disk [
  | none ↦ d
  | some raw ↦ elim (codec.decode raw) [
    | none ↦ d
    | some st ↦ record d {
      current_file = st.current_file;
      offset = st.offset;
      done_inodes = st.done_inodes;
    }
  ]
]

-- `NewDirInput`, with the patterns compiled.
unfoldable pub new_dir_input :
    Codec → DirConfig → List Pattern → List Pattern → Option Bytes → DirInput
unfolding load_state
new_dir_input codec cfg include exclude disk =
    load_state codec
      (record {
        cfg =
            if cfg.offset_commit_every == 0
            then record cfg { offset_commit_every = 20000 }
            else cfg;
        current_f = none;
        current_file = "";
        current_inode = 0;
        offset = 0;
        reader = 0;
        done_inodes = [];
        include = include;
        exclude = exclude;
        stopped = false;
        lag = 0;
        read_count = 0;
      })
      disk

-- `Close`: the file is closed after the state is stored.
unfoldable pub close :
    Library → Codec → FileSys → Bool → DirInput → Option Bytes → DirInput × Option Bytes
unfolding commit_state
close lib codec fs stored d disk =
    let (d', disk') = commit_state lib codec fs stored (record d { stopped = true }) disk in
    (record d' { current_f = none }, disk')

-- Some file of the directory has the inode, or the directory cannot be read.
abbrev pub is_present : Library → FileSys → DirInput → ℕ → Bool
is_present lib fs d i = elim (fs.read_dir d.cfg.dir) [
  | none ↦ true
  | some es ↦ contains i (current_inodes lib fs d.cfg.dir es)
]

is_done-nil : (i : ℕ) → is_done i [] ≡ false
unfolding is_done
is_done-nil i = refl

is_done-keep :
    (p : ℕ → Bool) (i : ℕ) (m : List (ℕ × ℕ))
    → is_done i (keep (λ (x : ℕ × ℕ). p x.0) m) ≡ (is_done i m && p i)
unfolding is_done
is_done-keep p i [] = refl
is_done-keep p i ((j, o) ∷ m) = ground (arith, is_done-keep p i m)

-- A commit forgets exactly the inodes that no file of the directory has any more, so the state does
-- not grow without bound; where the directory cannot be read it forgets none.
pub prune-is_done :
    (lib : Library) (fs : FileSys) (d : DirInput) (i : ℕ)
    → is_done i (prune_stale_inodes lib fs d).done_inodes
      ≡ (is_done i d.done_inodes && is_present lib fs d i)
unfolding prune_stale_inodes
prune-is_done lib fs d i = elim (List-cases d.done_inodes) [
  | inl e ↦ ground (arith, e, is_done-nil i)
  | inr (x, m, e) ↦ elim (Option-cases (fs.read_dir d.cfg.dir)) [
    | inl n ↦ ground (arith, e, n)
    | inr (es, r) ↦ ground (
      arith,
      e,
      r,
      is_done-keep (λ j. contains j (current_inodes lib fs d.cfg.dir es)) i d.done_inodes,
    )
  ]
]

prune_fields :
    (lib : Library) (fs : FileSys) (d : DirInput)
    → ((prune_stale_inodes lib fs d).current_file ≡ d.current_file)
      × ((prune_stale_inodes lib fs d).offset ≡ d.offset)
      × ((prune_stale_inodes lib fs d).cfg ≡ d.cfg)
unfolding prune_stale_inodes
prune_fields lib fs d = ground arith

prune_lag :
    (lib : Library) (fs : FileSys) (d : DirInput)
    → ((prune_stale_inodes lib fs (update_lag fs d)).done_inodes
        ≡ (prune_stale_inodes lib fs d).done_inodes)
      × ((update_lag fs d).current_file ≡ d.current_file)
      × ((update_lag fs d).offset ≡ d.offset)
      × ((update_lag fs d).cfg ≡ d.cfg)
unfolding prune_stale_inodes update_lag
prune_lag lib fs d = ground arith

-- The state that a commit stores.
abbrev pub committed : Library → FileSys → DirInput → OffsetState
committed lib fs d = record {
  current_file = d.current_file;
  offset = d.offset;
  done_inodes = (prune_stale_inodes lib fs d).done_inodes;
}

commit-committed :
    (lib : Library) (fs : FileSys) (d : DirInput)
    → let d' = prune_stale_inodes lib fs (update_lag fs d) in
      committed lib fs d
      ≡ record { current_file = d'.current_file; offset = d'.offset; done_inodes = d'.done_inodes }
unfolding prune_stale_inodes update_lag
commit-committed lib fs d = ground arith

-- What a commit that lands stores is what the next start reads: where the codec decodes what it
-- encoded for this state, a new input on the same path stands at the committed file and offset, with
-- the inodes that the commit kept, and has no file open.
pub new_dir_input-commit_state :
    (lib : Library) (codec : Codec) (fs : FileSys) (d : DirInput) (disk : Option Bytes)
    (include exclude : List Pattern) (raw : Bytes)
    → codec.encode (committed lib fs d) ≡ some raw
    → codec.decode raw ≡ some (committed lib fs d)
    → str_eq d.cfg.meta_path "" ≡ false
    → let n = new_dir_input codec d.cfg include exclude (commit_state lib codec fs true d disk).1 in
      (n.current_file ≡ d.current_file)
      × (n.offset ≡ d.offset)
      × (n.done_inodes ≡ (prune_stale_inodes lib fs d).done_inodes)
      × (n.current_f ≡ none)
unfolding commit_state new_dir_input
new_dir_input-commit_state lib codec fs d disk include exclude raw encodes decodes named =
    let same = commit-committed lib fs d in
    let e = subst (λ (st : OffsetState). codec.encode st ≡ some raw) same encodes in
    let (file, off, cfg) = prune_fields lib fs (update_lag fs d) in
    let (dones, file', off', cfg') = prune_lag lib fs d in
    ground (arith, e, decodes, file, off, cfg, file', off', cfg')
