-- ===== src/Tests/Files.antt =====
-- A followed file at concrete inputs.
use logpilot.Prelude.{ℕ, ◌-◌, str_append, ◌≡◌, refl, true, false, none, some, List, [], ◌∷◌}
use logpilot.Agent.Input.File.{
  FileInput, at_offset, Library, Select, line_read, line_failed, lines_closed, nothing,
  new_file_input, read_lines, close,
}
use logpilot.Agent.Input.File.Reading.{Reads, read_lines_lem, close-new_file_input}

abbrev library : Library
library = record {
  encode = λ n. some (n ∷ []);
  decode = λ raw. elim raw [ [] ↦ none | n ∷ ns ↦ some n ];
  join = λ a b. str_append a (str_append "/" b);
  base = λ path. path;
  compile = λ pattern. none;
}

abbrev script : List Select
script =
    nothing
    ∷ line_read (1 ∷ [])
    ∷ line_failed
    ∷ line_read (2 ∷ [])
    ∷ nothing
    ∷ line_read (3 ∷ [])
    ∷ lines_closed
    ∷ []

read_lines_lem_example : Reads library script 5 [] (read_lines library true script 5 [])
read_lines_lem_example = read_lines_lem library script 5 []

abbrev followed : FileInput
followed = record {
  cfg = record {
    path = "/var/log/app.log";
    meta_path = "/meta/app.offset";
    read_from = "oldest";
    include = [];
    exclude = [];
    offset_commit_every = 0;
  };
  stopped = false;
  lag = 0;
  read_count = 0;
  include = [];
  exclude = [];
}

close-new_file_input_example :
    (g : FileInput) × (new_file_input library followed.cfg ""
        (λ path. (close library (some 40) none true followed none).1)
        (some 100)
        true
      ≡ some (g, at_offset 40))
    × ((n : ℕ) → some 100 ≡ some n → g.lag ≡ n - 40)
close-new_file_input_example =
    close-new_file_input library followed (some 40) none (some 100) none "" (40 ∷ []) refl refl refl
