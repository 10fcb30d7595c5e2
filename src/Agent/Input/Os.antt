-- ===== src/Agent/Input/Os.antt =====
-- What the inputs see of the operating system and of Go's path and sort packages. None of it is
-- the program's, so it is a parameter: a `FileSys` is what the system answers at one moment, and a
-- `Library` is the functions of path/filepath and sort that the code calls.
use logpilot.Prelude.{ℕ, String, Bool, Option, List}
use logpilot.Api.{Bytes}

pub record Stat : Type 0 where
  pub inode : ℕ
  pub size : ℕ

-- `mod_time` is `none` where `Info` fails.
pub record DirEntry : Type 0 where
  pub name : String
  pub is_dir : Bool
  pub mod_time : Option ℕ

-- An open file is a handle: it goes on naming the same file when the path is renamed or removed.
-- `content` is what the file holds by now; `broken` says that a read past it fails with an error
-- other than the end of the file; `seek_ok`, `seek_end_ok` and `stat_ok` say that `Seek` and `Stat` on
-- the handle return no error. An inode of 0 is one that the system does not tell.
pub record FileSys : Type 0 where
  pub read_dir : String → Option (List DirEntry)
  pub stat : String → Option Stat
  pub open_file : String → Option ℕ
  pub inode_of : ℕ → ℕ
  pub seek_ok : ℕ → ℕ → Bool
  pub seek_end_ok : ℕ → Bool
  pub stat_ok : ℕ → Bool
  pub content : ℕ → Bytes
  pub broken : ℕ → Bool

pub record Library : Type 0 where
  pub join : String → String → String
  pub base : String → String
  pub sort_by_time : List (String × ℕ) → List (String × ℕ)
