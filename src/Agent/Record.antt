-- ===== src/Agent/Record.antt =====
-- internal/log-pilot-agent/input/input.go: a record. `Meta` is `none` where Go's map is nil.
use logpilot.Prelude.{ℕ, String, Option, none, some, List, [], lookup, copy}
use logpilot.Api.{Bytes}

pub record Record : Type 0 where
  pub payload : Bytes
  pub offset : ℕ
  pub meta : Option (List (String × String))

-- `r.Meta[key]`: a nil map and a missing key read as the empty string.
abbrev pub or_empty : Option String → String
or_empty none = ""
or_empty (some v) = v

abbrev pub meta_map : Record → List (String × String)
meta_map r = elim r.meta [ none ↦ [] | some m ↦ m ]

unfoldable pub meta_get : Record → String → String
meta_get r key = or_empty (lookup key (meta_map r))

-- `Record{Data: …}`
unfoldable pub plain : Bytes → Record
plain line = record { payload = line; offset = 0; meta = none }

-- The meta data after `maps.Copy` into it, made first where it is nil.
unfoldable pub merge_meta : Record → List (String × String) → Record
merge_meta r fields = record r { meta = some (copy (meta_map r) fields) }
