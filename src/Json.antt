-- ===== src/Json.antt =====
-- encoding/json at the types that the program decodes and encodes. It is the standard library's,
-- so it is a parameter of what uses it; `none` is an error. The helpers that look a key up in a
-- free-form config and decode its value stand here, as three packages repeat them.
use logpilot.Prelude.{
  String, ◌≡◌, refl, ◌⊎◌, inl, inr, Bool, true, Option, none, some, List, arith, lookup, has,
}
use logpilot.Api.{Bytes, RawConfig, ContainerPolicy}

pub record Json : Type 0 where
  pub to_string : Bytes → Option String
  pub to_string_map : Bytes → Option (List (String × String))
  pub to_strings : Bytes → Option (List String)
  pub to_bool : Bytes → Option Bool
  pub to_policies : String → Option (List ContainerPolicy)
  pub from_policies : List ContainerPolicy → Option String

pub data ConfigError : Type 0 where
  missing_key : String → ConfigError
  malformed : String → ConfigError
  unknown_type : String → ConfigError
  bad_certificate : ConfigError
  within : String → ConfigError → ConfigError

pub data Result {ℓ} (A : Type ℓ) : Type ℓ where
  ok : A → Result A
  err : ConfigError → Result A

infixl 5 ◌>>=◌
abbrev pub ◌>>=◌ {ℓ κ} : {A : Type ℓ} {B : Type κ} → Result A → (A → Result B) → Result B
ok a >>= f = f a
err e >>= f = err e

-- `fmt.Errorf("…: %w", err)`
abbrev pub wrap {ℓ} : {A : Type ℓ} → String → Result A → Result A
wrap what (ok a) = ok a
wrap what (err e) = err (within what e)

abbrev pub IsOk {ℓ} : {A : Type ℓ} → Result A → Type ℓ
IsOk {A = A} r = (a : A) × (r ≡ ok a)

-- The common body of the `extract…` functions.
unfoldable pub extract {ℓ} : {A : Type ℓ} → (Bytes → Option A) → RawConfig → String → Result A
extract decode config key = elim (lookup key config) [
  | none ↦ err (missing_key key)
  | some raw ↦ elim (decode raw) [ none ↦ err (malformed key) | some a ↦ ok a ]
]

module _ (json : Json) where
  unfoldable pub extract_string : RawConfig → String → Result String
  unfolding extract
  extract_string = extract json.to_string

  unfoldable pub extract_string_map : RawConfig → String → Result (List (String × String))
  unfolding extract
  extract_string_map = extract json.to_string_map

  unfoldable pub extract_bool : RawConfig → String → Result Bool
  unfolding extract
  extract_bool = extract json.to_bool

-- A key that is there and decodes is extracted.
pub extract_ok {ℓ} :
    {A : Type ℓ} (decode : Bytes → Option A) (config : RawConfig) (key : String) (raw : Bytes)
    (a : A)
    → lookup key config ≡ some raw
    → decode raw ≡ some a
    → extract decode config key ≡ ok a
unfolding extract
extract_ok decode config key raw a found decoded = ground arith

-- What is extracted was there.
pub extract-has {ℓ} :
    {A : Type ℓ} (decode : Bytes → Option A) (config : RawConfig) (key : String) (a : A)
    → extract decode config key ≡ ok a
    → has key config ≡ true
unfolding extract has
extract-has decode config key a h = ground arith

pub Result-cases {ℓ} :
    {A : Type ℓ} (r : Result A) → ((a : A) × (r ≡ ok a)) ⊎ ((e : ConfigError) × (r ≡ err e))
Result-cases (ok a) = inl (a, refl)
Result-cases (err e) = inr (e, refl)
