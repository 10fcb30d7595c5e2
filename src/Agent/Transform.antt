-- ===== src/Agent/Transform.antt =====
-- internal/log-pilot-agent/transform: the three transforms and the factory that builds them from
-- a policy's specs. A transform's error is always nil, so `transform` returns the records alone.
pub mod Laws
use logpilot.Prelude.{◌+◌, String, not, none, some, List, [], ◌∷◌, ◌++◌, map, str_eq, if◌then◌else◌}
use logpilot.Api.{TransformSpec}
use logpilot.Json.{
  Json, Result, ok, err, ◌>>=◌, wrap, unknown_type, extract_string, extract_string_map,
}
use logpilot.Agent.Record.{Record, meta_get, merge_meta}

pub data Transform : Type 0 where
  json : Transform
  label : List (String × String) → Transform
  drop : String → String → Transform

-- The loop of `dropTransform.Transform`, with `out` built at the front of the same array.
unfoldable pub drop_loop : String → String → List Record → List Record → List Record
drop_loop key value out [] = out
drop_loop key value out (r ∷ rs) =
    drop_loop key value (if not (str_eq (meta_get r key) value) then out ++ r ∷ [] else out) rs

module _ (codec : Json) where
  -- One round of `jsonTransform.Transform`; data that is no JSON map of strings is left alone.
  unfoldable pub json_record : Record → Record
  unfolding merge_meta
  json_record r = elim (codec.to_string_map r.payload) [ none ↦ r | some m ↦ merge_meta r m ]

  unfoldable pub transform : Transform → List Record → List Record
  unfolding json_record drop_loop merge_meta
  transform json rs = map json_record rs
  transform (label fields) rs = map (λ r. merge_meta r fields) rs
  transform (drop key value) rs = drop_loop key value [] rs

  unfoldable pub new_from_spec : TransformSpec → Result Transform
  unfolding extract_string extract_string_map
  new_from_spec spec =
      if str_eq spec.type "json"
      then ok json
      else if str_eq spec.type "label"
      then (wrap "label transform" (extract_string_map codec spec.config "fields") >>= λ fields.
          ok (label fields))
      else if str_eq spec.type "drop"
      then (wrap "drop transform" (extract_string codec spec.config "key") >>= λ key.
          wrap "drop transform" (extract_string codec spec.config "value") >>= λ value.
          ok (drop key value))
      else err (unknown_type spec.type)

  -- The loop of `NewSliceFromSpecs`.
  unfoldable pub new_slice_from_specs : List TransformSpec → Result (List Transform)
  new_slice_from_specs [] = ok []
  new_slice_from_specs (s ∷ specs) =
      new_from_spec s >>= λ t. new_slice_from_specs specs >>= λ ts. ok (t ∷ ts)
