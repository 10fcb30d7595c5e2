-- ===== src/Tests/Policies.antt =====
-- Validation, injection and the hand-over of policies at concrete inputs.
use logpilot.Prelude.{
  String, ◌≡◌, refl, subst, ◌↔◌, Bool, true, false, ◌||◌, none, some, [], ◌∷◌, ◌++◌, str_eq,
  if◌then◌else◌, of_some-eq-some, nonempty, lookup, has,
}
use logpilot.Prelude.Int.{pos}
use logpilot.Api.{
  ContainerPolicy, OutputSpec, TransformSpec, LogPilotPolicySpec, ClusterLogPilotPolicySpec,
}
use logpilot.Json.{extract_string, Json, IsOk}
use logpilot.Agent.Transform.{new_slice_from_specs}
use logpilot.Agent.Output
use logpilot.Operator.Validation.{
  is_cluster_input, validate_transforms, validate_cluster_log_pilot_policy,
}
use logpilot.Operator.Validation.Agreement.{
  TransformDecodes, OutputDecodes, validate_transforms_iff, validate_cluster_log_pilot_policy_sound,
}
use logpilot.Webhook.Injector.{
  Volume, Container, Pod, is_mounted, inject_volume_mounts, has_volume, ensure_log_volume,
  collect_policies, inject_pod,
}
use logpilot.Webhook.Injector.Laws.{
  wants, Distinct, inject_volume_mounts_lem, Backed, ensure_log_volume_lem,
}
use logpilot.Agent.Watcher.Build.{parse_policies_from_pod}
use logpilot.Handover.{In, Wanted, agent_pod, inject_pod-parse_policies_from_pod}

abbrev pub output_spec : OutputSpec
output_spec = record {
  type = "file";
  batch_len = 0;
  batch_size = 0;
  batch_interval = 0;
  config = ("path", 1 ∷ []) ∷ [];
}

abbrev pub policy : ContainerPolicy
policy = record {
  name = "app";
  log_type = "access";
  path = "/logs";
  collector = "";
  delivery = "bestEffort";
  batch_len = 0;
  batch_size = 0;
  batch_interval = 0;
  input = record { type = ""; batch_len = 0; config = [] };
  transforms = [];
  output = output_spec;
  clean = record {
    strategy = "";
    retain_days = pos 0;
    interval = 0;
    reserve_file_number = 0;
    reserve_file_size = 0;
  };
}

-- A codec that knows the list of this one policy.
abbrev pub codec : Json
codec = record {
  to_string = λ b. some "value";
  to_string_map = λ b. some [];
  to_strings = λ b. none;
  to_bool = λ b. none;
  to_policies = λ s. if str_eq s "one" then some (policy ∷ []) else none;
  from_policies = λ ps. some "one";
}

abbrev pub drop_spec : TransformSpec
drop_spec = record {
  type = "drop";
  batch_len = 0;
  config = ("key", 1 ∷ []) ∷ ("value", 2 ∷ []) ∷ [];
}

pub drop_spec-TransformDecodes : TransformDecodes codec drop_spec
drop_spec-TransformDecodes = record {
  fields = λ raw e. ([], refl);
  key = λ raw e. ("value", refl);
  value = λ raw e. ("value", refl);
}

validate_transforms_iff_example :
    (validate_transforms (drop_spec ∷ []) ≡ none)
    ↔ IsOk (new_slice_from_specs codec (drop_spec ∷ []))
validate_transforms_iff_example =
    validate_transforms_iff codec (drop_spec ∷ []) (drop_spec-TransformDecodes, tt)

abbrev pub no_pem : String → Bool
no_pem s = false

pub output_spec-OutputDecodes : OutputDecodes codec no_pem output_spec
unfolding extract_string lookup
output_spec-OutputDecodes = record {
  url = λ raw e. ("value", refl);
  path = λ raw e. ("value", refl);
  certificate = refl;
}

abbrev pub cluster_spec : ClusterLogPilotPolicySpec
cluster_spec = record {
  input = record { type = "k8sEvent"; batch_len = 0; config = [] };
  transforms = drop_spec ∷ [];
  output = output_spec;
}

cluster_spec_accepted : validate_cluster_log_pilot_policy cluster_spec ≡ none
unfolding validate_cluster_log_pilot_policy has
cluster_spec_accepted = refl

validate_cluster_log_pilot_policy_sound_example :
    (is_cluster_input "k8sEvent" ≡ true)
    × IsOk (new_slice_from_specs codec (drop_spec ∷ []))
    × IsOk (Output.new_from_spec codec no_pem output_spec)
validate_cluster_log_pilot_policy_sound_example =
    validate_cluster_log_pilot_policy_sound codec no_pem cluster_spec
      (drop_spec-TransformDecodes, tt) output_spec-OutputDecodes cluster_spec_accepted

abbrev container : Container
container = record {
  name = "app";
  env = record { name = "POD_NAME"; field_path = none } ∷ [];
  volume_mounts = record { name = "data"; mount_path = "/data"; sub_path_expr = "" } ∷ [];
}

abbrev pub pod : Pod
pod = record { labels = []; annotations = []; containers = container ∷ []; volumes = [] }

inject_volume_mounts_lem_example :
    Distinct (inject_volume_mounts container (policy ∷ policy ∷ [])).volume_mounts
    × ((path : String)
        → is_mounted path (inject_volume_mounts container (policy ∷ policy ∷ [])).volume_mounts
          ≡ (is_mounted path container.volume_mounts || wants path (policy ∷ policy ∷ [])))
unfolding is_mounted
inject_volume_mounts_lem_example =
    inject_volume_mounts_lem container (policy ∷ policy ∷ []) (refl, tt)

ensure_log_volume_lem_example :
    (has_volume (ensure_log_volume pod (policy ∷ [])).volumes ≡ true)
    × (has_volume pod.volumes ≡ false
        → (v : Volume) × ((ensure_log_volume pod (policy ∷ [])).volumes ≡ pod.volumes ++ v ∷ [])
          × Backed (policy ∷ []) v)
    × (ensure_log_volume (ensure_log_volume pod (policy ∷ [])) []
        ≡ ensure_log_volume pod (policy ∷ []))
ensure_log_volume_lem_example = ensure_log_volume_lem pod (policy ∷ []) []

abbrev pub selecting : LogPilotPolicySpec
selecting = record {
  selector = some (λ labels. some true);
  containers = policy ∷ [];
  input = none;
  transforms = [];
  output = none;
}

pub codec_law :
    (raw : String)
    → codec.from_policies (collect_policies pod (selecting ∷ [])) ≡ some raw
    → (codec.to_policies raw ≡ some (collect_policies pod (selecting ∷ [])))
      × (str_eq raw "" ≡ false)
unfolding collect_policies
codec_law raw e =
    subst (λ (r : String). (codec.to_policies r ≡ some (policy ∷ [])) × (str_eq r "" ≡ false))
      (of_some-eq-some e) (refl, refl)

inject_pod-parse_policies_from_pod_example :
    (collect_policies pod (selecting ∷ []) ≡ []
      → inject_pod codec.from_policies pod (selecting ∷ []) ≡ some pod)
    × ((raw : String)
        → nonempty (collect_policies pod (selecting ∷ [])) ≡ true
        → codec.from_policies (collect_policies pod (selecting ∷ [])) ≡ some raw
        → (pod' : Pod) × (inject_pod codec.from_policies pod (selecting ∷ []) ≡ some pod')
          × (parse_policies_from_pod codec (agent_pod "u1" "web" "default" pod')
              ≡ some (collect_policies pod (selecting ∷ []))))
    × ((cp : ContainerPolicy)
        → In cp (collect_policies pod (selecting ∷ [])) ↔ Wanted pod (selecting ∷ []) cp)
inject_pod-parse_policies_from_pod_example =
    inject_pod-parse_policies_from_pod codec pod (selecting ∷ []) "u1" "web" "default" codec_law
