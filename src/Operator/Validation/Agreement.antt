-- ===== src/Operator/Validation/Agreement.antt =====
-- The operator's validation against the agent's factories: what the operator accepts, the agent
-- builds, as far as the config's values decode.
use logpilot.Prelude.{
  ℕ, ◌+◌, String, ◌≡◌, refl, ◌↔◌, inl, inr, Bool, true, false, ◌||◌, Option, none, some, List, [],
  ◌∷◌, arith, str_eq, Bool-cases, All, lookup, has,
}
use logpilot.Api.{Bytes, RawConfig, TransformSpec, OutputSpec, ClusterLogPilotPolicySpec}
use logpilot.Json.{
  Result-cases, Json, ok, IsOk, extract, extract_ok, extract_string, extract_string_map,
  extract_bool,
}
use logpilot.Agent.Transform
use logpilot.Agent.Transform.{Transform, json, label, drop}
use logpilot.Agent.Output
use logpilot.Agent.Output.{Output, http, file, new_http_output}
use logpilot.Operator.Validation.{
  validate_transform, validate_transforms_from, validate_transforms, validate_output,
  is_cluster_input, validate_cluster_log_pilot_policy,
}

-- A key that is there decodes.
abbrev Decodes : {A : Type 0} → (Bytes → Option A) → RawConfig → String → Type 0
Decodes {A = A} decode config key =
    (raw : Bytes) → lookup key config ≡ some raw → (a : A) × (decode raw ≡ some a)

-- The values of a transform's config are of the types that the transform wants.
pub record TransformDecodes (codec : Json) (t : TransformSpec) : Type 0 where
  pub fields : Decodes codec.to_string_map t.config "fields"
  pub key : Decodes codec.to_string t.config "key"
  pub value : Decodes codec.to_string t.config "value"

has-some :
    (key : String) (config : RawConfig)
    → has key config ≡ true
    → (raw : Bytes) × (lookup key config ≡ some raw)
unfolding has
has-some key config h = ground arith

extract_present :
    {A : Type 0} (decode : Bytes → Option A) (config : RawConfig) (key : String)
    → Decodes decode config key
    → has key config ≡ true
    → IsOk (extract decode config key)
extract_present decode config key d h =
    let (raw, e) = has-some key config h in
    let (a, f) = d raw e in (a, extract_ok decode config key raw a e f)

-- So are those of an output's config, and a certificate that is given parses.
pub record OutputDecodes (codec : Json) (parse_pem : String → Bool) (o : OutputSpec) : Type 0 where
  pub url : Decodes codec.to_string o.config "url"
  pub path : Decodes codec.to_string o.config "path"
  pub certificate :
      (str_eq (Output.or_default (extract_string codec o.config "tlsCACert") "") ""
        || parse_pem (Output.or_default (extract_string codec o.config "tlsCACert") ""))
      ≡ true

cluster_parts :
    (spec : ClusterLogPilotPolicySpec)
    → validate_cluster_log_pilot_policy spec ≡ none
    → (is_cluster_input spec.input.type ≡ true)
      × (validate_output spec.output ≡ none)
      × (validate_transforms spec.transforms ≡ none)
unfolding validate_cluster_log_pilot_policy
cluster_parts spec v = (ground (arith, v), ground (arith, v), ground (arith, v))

module _ (codec : Json) where
  slice_parts :
      (t : TransformSpec) (ts : List TransformSpec) (built : List Transform)
      → Transform.new_slice_from_specs codec (t ∷ ts) ≡ ok built
      → IsOk (Transform.new_from_spec codec t) × IsOk (Transform.new_slice_from_specs codec ts)
  unfolding Transform.new_slice_from_specs
  slice_parts t ts built e = elim (Result-cases (Transform.new_from_spec codec t)) [
    | inr (x, f) ↦ cc (rw (f, Transform.new_slice_from_specs) at e)
    | inl p ↦ elim (Result-cases (Transform.new_slice_from_specs codec ts)) [
      | inr (x, f) ↦ cc (rw (p.1, f, Transform.new_slice_from_specs) at e)
      | inl q ↦ (p, q)
    ]
  ]

  transform_builds :
      (i : ℕ) (t : TransformSpec)
      → TransformDecodes codec t
      → validate_transform i t ≡ none
      → IsOk (Transform.new_from_spec codec t)
  unfolding validate_transform Transform.new_from_spec
  transform_builds i t d v = elim (Bool-cases (str_eq t.type "json")) [
    | inl e ↦ (json, ground (arith, e))
    | inr n ↦ elim (Bool-cases (str_eq t.type "label")) [
      | inl e ↦
          let (fields, p) =
            extract_present codec.to_string_map t.config "fields" d.fields (ground (arith, v)) in
          (label fields, ground (arith, p))
      | inr m ↦ elim (Bool-cases (str_eq t.type "drop")) [
        | inl e ↦
            let (key, p) =
              extract_present codec.to_string t.config "key" d.key (ground (arith, v)) in
            let (value, q) =
              extract_present codec.to_string t.config "value" d.value (ground (arith, v)) in
            (drop key value, ground (arith, p, q))
        | inr k ↦ absurd (ground (arith, v))
      ]
    ]
  ]

  transforms_build :
      (i : ℕ) (ts : List TransformSpec)
      → All (TransformDecodes codec) ts
      → validate_transforms_from i ts ≡ none
      → IsOk (Transform.new_slice_from_specs codec ts)
  unfolding validate_transforms_from Transform.new_slice_from_specs
  transforms_build i [] d v = ([], refl)
  transforms_build i (t ∷ ts) (d, ds) v =
      let (a, p) = transform_builds i t d (ground (arith, v)) in
      let (as_built, q) = transforms_build (i + 1) ts ds (ground (arith, v)) in
      (a ∷ as_built, ground (arith, p, q))

  -- A transform that the agent builds, the operator accepts, at any index.
  transform_built :
      (i : ℕ) (t : TransformSpec) (a : Transform)
      → Transform.new_from_spec codec t ≡ ok a
      → validate_transform i t ≡ none
  unfolding validate_transform Transform.new_from_spec has
  transform_built i t a e = ground (arith, e)

  transforms_built :
      (i : ℕ) (ts : List TransformSpec) (as_built : List Transform)
      → Transform.new_slice_from_specs codec ts ≡ ok as_built
      → validate_transforms_from i ts ≡ none
  unfolding validate_transforms_from Transform.new_slice_from_specs
  transforms_built i [] as_built e = refl
  transforms_built i (t ∷ ts) as_built e =
      let ((a, p), (more, q)) = slice_parts t ts as_built e in
      ground (arith, transform_built i t a p, transforms_built (i + 1) ts more q)

  -- Where the values in the configs are of the types that the transforms want, the operator accepts
  -- a list of transforms exactly when the agent can build it.
  pub validate_transforms_iff :
      (ts : List TransformSpec)
      → All (TransformDecodes codec) ts
      → (validate_transforms ts ≡ none) ↔ IsOk (Transform.new_slice_from_specs codec ts)
  unfolding validate_transforms
  validate_transforms_iff ts d =
      ((λ v. transforms_build 0 ts d v), (λ b. transforms_built 0 ts b.0 b.1))

  output_builds :
      (parse_pem : String → Bool) (o : OutputSpec)
      → OutputDecodes codec parse_pem o
      → validate_output o ≡ none
      → IsOk (Output.new_from_spec codec parse_pem o)
  unfolding validate_output Output.new_from_spec
  output_builds parse_pem o d v = elim (Bool-cases (str_eq o.type "http")) [
    | inl e ↦
        let (url, p) = extract_present codec.to_string o.config "url" d.url (ground (arith, v)) in
        (
          http (record {
            url = url;
            headers = Output.or_default (extract_string_map codec o.config "headers") [];
            tls_skip_verify = Output.or_default (extract_bool codec o.config "tlsSkipVerify") false;
            tls_ca_cert = Output.or_default (extract_string codec o.config "tlsCACert") "";
          }),
          ground (arith, p, d.certificate),
        )
    | inr n ↦ elim (Bool-cases (str_eq o.type "file")) [
      | inl e ↦
          let (path, p) =
            extract_present codec.to_string o.config "path" d.path (ground (arith, v)) in
          (file path, ground (arith, p))
      | inr m ↦ absurd (ground (arith, v))
    ]
  ]

  -- A cluster policy that the operator accepts is one that the agent can run: its input is one of
  -- the two cluster inputs, and its transforms and its output can be built, where the values in
  -- the configs decode and the certificate, if one is given, parses.
  pub validate_cluster_log_pilot_policy_sound :
      (parse_pem : String → Bool) (spec : ClusterLogPilotPolicySpec)
      → All (TransformDecodes codec) spec.transforms
      → OutputDecodes codec parse_pem spec.output
      → validate_cluster_log_pilot_policy spec ≡ none
      → (is_cluster_input spec.input.type ≡ true)
        × IsOk (Transform.new_slice_from_specs codec spec.transforms)
        × IsOk (Output.new_from_spec codec parse_pem spec.output)
  unfolding validate_cluster_log_pilot_policy
  validate_cluster_log_pilot_policy_sound parse_pem spec dt do_ v =
      let (i, o, t) = cluster_parts spec v in
      (
        i,
        (validate_transforms_iff spec.transforms dt).0 t,
        output_builds parse_pem spec.output do_ o,
      )
