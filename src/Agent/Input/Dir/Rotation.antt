-- ===== src/Agent/Input/Dir/Rotation.antt =====
-- dir.go: rotation and the move to the next file.
use logpilot.Prelude.{
  ℕ, ◌<◌, String, ◌≡◌, ◌≢◌, ◌↔◌, ◌⊎◌, inl, inr, Bool, true, false, ◌||◌, none, some, List, [], ◌∷◌,
  arith, str_eq, ◌==◌, if◌then◌else◌, Bool-cases, Option-cases, All,
}
use logpilot.Agent.Input.Os.{FileSys}
use logpilot.Agent.Input.Dir.{
  DirInput, is_done, set_done, detect_rotation, Library, mark_current_done, try_file, Stat,
  try_files, advance_file, list_files,
}

-- The conditions under which the code says that the open file was swapped: its path is gone, or
-- names another inode, both known, or is now shorter than what was read.
abbrev pub Swapped : FileSys → DirInput → Type 0
Swapped fs d = elim (fs.stat d.current_file) [
  | none ↦ Unit
  | some st ↦
      ((st.inode ≢ 0) × (d.current_inode ≢ 0) × (st.inode ≢ d.current_inode)) ⊎ (st.size < d.offset)
]

pub detect_rotation_iff :
    (fs : FileSys) (d : DirInput) (h : ℕ)
    → d.current_f ≡ some h
    → str_eq d.current_file "" ≡ false
    → (detect_rotation fs d ≡ true) ↔ Swapped fs d
unfolding detect_rotation
detect_rotation_iff fs d h e n = ground arith

is_done-set_done :
    (i j o : ℕ) (m : List (ℕ × ℕ)) → is_done j (set_done i o m) ≡ (i == j || is_done j m)
unfolding is_done set_done
is_done-set_done i j o [] = ground arith
is_done-set_done i j o ((k, p) ∷ m) = ground (arith, is_done-set_done i j o m)

-- What `advanceFile` opens: a path that the system names now, with an inode that was not done, read
-- from its start. The file left behind is done.
pub record Moved (lib : Library) (fs : FileSys) (d d' : DirInput) : Type 0 where
  pub stat : Stat
  pub there : fs.stat d'.current_file ≡ some stat
  pub fresh : is_done stat.inode d.done_inodes ≡ false
  pub from_start : (d'.offset ≡ 0) × (d'.reader ≡ 0)
  pub remembers : (i : ℕ) → is_done i d.done_inodes ≡ true → is_done i d'.done_inodes ≡ true
  pub left :
      (h : ℕ)
      → d.current_f ≡ some h
      → d.current_inode ≢ 0
      → is_done d.current_inode d'.done_inodes ≡ true

module _ (lib : Library) (fs : FileSys) where
  mark_remembers :
      (d : DirInput) (i : ℕ)
      → is_done i d.done_inodes ≡ true
      → is_done i (mark_current_done d).done_inodes ≡ true
  unfolding mark_current_done
  mark_remembers d i h = ground (arith, is_done-set_done d.current_inode i d.offset d.done_inodes)

  mark_marks :
      (d : DirInput)
      → d.current_inode ≢ 0
      → is_done d.current_inode (mark_current_done d).done_inodes ≡ true
  unfolding mark_current_done
  mark_marks d n =
      ground (arith, is_done-set_done d.current_inode d.current_inode d.offset d.done_inodes)

  -- What one candidate does: where it is opened, it was there and not done; what was done stays
  -- done; and the file at hand is done as soon as it is left.
  try_file-opens :
      (base : String) (d : DirInput) (path : String)
      → str_eq path "" ≡ false
      → (try_file lib fs base d path).1 ≡ true
      → (st : Stat) × (fs.stat path ≡ some st)
        × (is_done st.inode d.done_inodes ≡ false)
        × ((try_file lib fs base d path).0.current_file ≡ path)
        × ((try_file lib fs base d path).0.offset ≡ 0)
        × ((try_file lib fs base d path).0.reader ≡ 0)
  unfolding try_file
  try_file-opens base d path n = elim (Option-cases (fs.stat path)) [
    | inl e ↦ ground arith
    | inr (st, e) ↦ λ o. (st, e, ground arith, ground arith, ground arith, ground arith)
  ]

  try_file-remembers :
      (base : String) (d : DirInput) (path : String) (i : ℕ)
      → is_done i d.done_inodes ≡ true
      → is_done i (try_file lib fs base d path).0.done_inodes ≡ true
  unfolding try_file
  try_file-remembers base d path i k = ground (arith, mark_remembers d i k)

  try_file-leaves :
      (base : String) (d : DirInput) (path : String) (h : ℕ)
      → d.current_f ≡ some h
      → d.current_inode ≢ 0
      → (is_done d.current_inode (try_file lib fs base d path).0.done_inodes ≡ true)
        ⊎ (try_file lib fs base d path ≡ (d, false))
  unfolding try_file
  try_file-leaves base d path h e n = ground (arith, mark_marks d n)

  try_files-remembers :
      (base : String) (d : DirInput) (paths : List String) (i : ℕ)
      → is_done i d.done_inodes ≡ true
      → is_done i (try_files lib fs base d paths).0.done_inodes ≡ true
  unfolding try_files
  try_files-remembers base d [] i k = k
  try_files-remembers base d (path ∷ paths) i k =
      let (d', opened) = try_file lib fs base d path in
      let k' = try_file-remembers base d path i k in
      elim (Bool-cases opened) [
        | inl e ↦ rw e k'
        | inr e ↦ rw e (try_files-remembers base d' paths i k')
      ]

  try_files-leaves :
      (base : String) (d : DirInput) (paths : List String) (h : ℕ)
      → d.current_f ≡ some h
      → d.current_inode ≢ 0
      → (try_files lib fs base d paths).1 ≡ true
      → is_done d.current_inode (try_files lib fs base d paths).0.done_inodes ≡ true
  unfolding try_files
  try_files-leaves base d [] h e n o = cc
  try_files-leaves base d (path ∷ paths) h e n o =
      let (d', opened) = try_file lib fs base d path in
      elim (try_file-leaves base d path h e n) [
        | inl k ↦ ground (arith, k, try_files-remembers base d' paths d.current_inode k)
        | inr same ↦
            rw (same, try_files) (try_files-leaves base d paths h e n (rw (same, try_files) at o))
      ]

  try_files-opens :
      (base : String) (d : DirInput) (paths : List String)
      → All (λ p. str_eq p "" ≡ false) paths
      → (try_files lib fs base d paths).1 ≡ true
      → let d' = (try_files lib fs base d paths).0 in
        (st : Stat) × (fs.stat d'.current_file ≡ some st)
        × (is_done st.inode d.done_inodes ≡ false)
        × (d'.offset ≡ 0)
        × (d'.reader ≡ 0)
  unfolding try_files
  try_files-opens base d [] named o = cc
  try_files-opens base d (path ∷ paths) (n, named) o =
      let (d', opened) = try_file lib fs base d path in
      elim (Bool-cases opened) [
        | inl e ↦
            let (st, there, fresh, file, off, reader) = try_file-opens base d path n e in
            rw e (st, rw file there, fresh, off, reader)
        | inr e ↦
            let (st, there, fresh, off, reader) =
              try_files-opens base d' paths named (rw (e, try_files) at o) in
            let unread : is_done st.inode d.done_inodes ≡ false =
              elim (Bool-cases (is_done st.inode d.done_inodes)) [
                | inl k ↦
                    let k' = try_file-remembers base d path st.inode k in
                    absurd (absurd_of fresh k')
                | inr k ↦ k
              ] in
            rw e (st, there, unread, off, reader)
      ]
    where
      absurd_of : {b : Bool} → b ≡ false → b ≡ true → ⊥
      absurd_of p q = cc

  -- `advanceFile`, over a directory whose paths are not empty, opens only a file that is there and
  -- whose inode was not done, from its start; it forgets nothing that was done, and where it opens
  -- a file, the one that was open before, if its inode is known, is done.
  pub advance_file-Moved :
      (d : DirInput)
      → All (λ p. str_eq p "" ≡ false) (list_files lib fs d)
      → (advance_file lib fs d).1 ≡ true
      → Moved lib fs d (advance_file lib fs d).0
  unfolding advance_file
  advance_file-Moved d named o =
      let base = if str_eq d.current_file "" then "" else lib.base d.current_file in
      let (st, there, fresh, off, reader) = try_files-opens base d (list_files lib fs d) named o in
      record {
        stat = st;
        there = there;
        fresh = fresh;
        from_start = (off, reader);
        remembers = λ i k. try_files-remembers base d (list_files lib fs d) i k;
        left = λ h e n. try_files-leaves base d (list_files lib fs d) h e n o;
      }
