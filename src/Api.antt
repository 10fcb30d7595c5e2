-- ===== src/Api.antt =====
-- api/v1alpha1: the custom resources' specs, and the JSON codec that reads what they carry.
-- Text is `String`. A free-form `config` is a map from keys to raw JSON, which is bytes.
use logpilot.Prelude.{ℕ, String, Bool, Option, List}
use logpilot.Prelude.Int.{ℤ}

abbrev pub Bytes : Type 0
Bytes = List ℕ

-- `map[string]apiextensionsv1.JSON`
abbrev pub RawConfig : Type 0
RawConfig = List (String × Bytes)

pub record InputSpec : Type 0 where
  pub type : String
  pub batch_len : ℕ
  pub config : RawConfig

pub record TransformSpec : Type 0 where
  pub type : String
  pub batch_len : ℕ
  pub config : RawConfig

pub record OutputSpec : Type 0 where
  pub type : String
  pub batch_len : ℕ
  pub batch_size : ℕ
  pub batch_interval : ℕ
  pub config : RawConfig

pub record CleanSpec : Type 0 where
  pub strategy : String
  pub retain_days : ℤ
  pub interval : ℕ
  pub reserve_file_number : ℕ
  pub reserve_file_size : ℕ

pub record ContainerPolicy : Type 0 where
  pub name : String
  pub log_type : String
  pub path : String
  pub collector : String
  pub delivery : String
  pub batch_len : ℕ
  pub batch_size : ℕ
  pub batch_interval : ℕ
  pub input : InputSpec
  pub transforms : List TransformSpec
  pub output : OutputSpec
  pub clean : CleanSpec

-- `metav1.LabelSelector` is the API machinery's: only whether it is set, and whether it selects
-- a set of labels, is seen. `none` is a selector that does not parse.
abbrev pub Labels : Type 0
Labels = List (String × String)

abbrev pub LabelSelector : Type 0
LabelSelector = Labels → Option Bool

pub record LogPilotPolicySpec : Type 0 where
  pub selector : Option LabelSelector
  pub containers : List ContainerPolicy
  pub input : Option InputSpec
  pub transforms : List TransformSpec
  pub output : Option OutputSpec

pub record ClusterLogPilotPolicySpec : Type 0 where
  pub input : InputSpec
  pub transforms : List TransformSpec
  pub output : OutputSpec

pub record ClusterLogPilotPolicy : Type 0 where
  pub name : String
  pub spec : ClusterLogPilotPolicySpec
