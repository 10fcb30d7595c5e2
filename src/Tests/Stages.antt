-- ===== src/Tests/Stages.antt =====
-- Transforms, outputs, cleaners and the status server on small inputs.
use logpilot.Prelude.{
  ℕ, ◌-◌, true, false, Option, none, some, List, [], ◌∷◌, ◌==◌, if◌then◌else◌, length,
}
use logpilot.Prelude.Int.{pos}
use logpilot.Api.{Bytes}
use logpilot.Json.{Json}
use logpilot.Agent.Record.{Record, plain}
use logpilot.Agent.Output.{Entry, HttpConfig, Request, FileOutput, file_write_batch}
use logpilot.Agent.Output.Laws.{Written, file_write_batch-Written}
use logpilot.Agent.Clean.{LogFile}
use logpilot.Agent.Status.{Server}

-- A decoder that reads every text as one map, and nothing else.
abbrev pub codec : Json
codec = record {
  to_string = λ b. none;
  to_string_map = λ b. some (("app", "web") ∷ []);
  to_strings = λ b. none;
  to_bool = λ b. none;
  to_policies = λ s. none;
  from_policies = λ ps. none;
}

abbrev tagged : Record
tagged = record { payload = 1 ∷ []; offset = 0; meta = some (("level", "debug") ∷ []) }

abbrev server : HttpConfig
server = record { url = "http://logs"; headers = []; tls_skip_verify = false; tls_ca_cert = "" }

abbrev encode_any : List Entry → Option (List ℕ)
encode_any es = some (length es ∷ [])

abbrev answer_200 : Request → Option ℕ
answer_200 r = some 200

abbrev old_file : FileOutput
old_file = record { path = "out"; opened = false; content = 7 ∷ [] }

abbrev text_of : Entry → Bytes
text_of es = length es ∷ 10 ∷ []

-- The second write ends after one byte.
abbrev short_write : ℕ → Option ℕ
short_write i = if i == 1 then some 1 else none

file_write_batch-Written_example :
    Written text_of
      (plain (2 ∷ []) ∷ tagged ∷ [])
      old_file
      (file_write_batch true text_of short_write old_file (plain (2 ∷ []) ∷ tagged ∷ []))
file_write_batch-Written_example =
    file_write_batch-Written text_of true short_write old_file (plain (2 ∷ []) ∷ tagged ∷ [])

abbrev log_files : List LogFile
log_files =
    record { name = "a"; mod_time = some 3; removable = true }
    ∷ record { name = "b"; mod_time = some 9; removable = true }
    ∷ []

abbrev days_ago : ℕ → ℕ
days_ago days = 10 - days

abbrev one_runner : Server
one_runner = ("a", record { name = "a"; lag = pos 2; sent = 1 }) ∷ []
