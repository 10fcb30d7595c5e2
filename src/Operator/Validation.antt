-- ===== src/Operator/Validation.antt =====
-- internal/log-pilot-operator/policy_validation.go. A message is a value of `Problem`, with a
-- constructor for each of the code's formats.
pub mod Agreement
use logpilot.Prelude.{
  ℕ, ◌+◌, String, Bool, true, false, not, ◌&&◌, ◌||◌, Option, none, some, List, [], ◌∷◌, ◌++◌,
  str_eq, if◌then◌else◌, nonempty, has,
}
use logpilot.Api.{
  InputSpec, OutputSpec, TransformSpec, ContainerPolicy, LogPilotPolicySpec,
  ClusterLogPilotPolicySpec,
}

pub data Problem : Type 0 where
  incomplete cluster_input unsupported_cluster_input : Problem
  unknown_input unknown_output unknown_transform : String → Problem
  http_without_url file_without_path : Problem
  container_without_output : ℕ → Problem
  label_without_fields : ℕ → Problem
  drop_without : ℕ → List String → Problem
  in_container : ℕ → Problem → Problem

-- The result of a check: `none` is a nil error.
abbrev pub Check : Type 0
Check = Option Problem

abbrev pub then_check : Check → Check → Check
then_check none k = k
then_check (some p) k = some p

abbrev pub in_container_check : ℕ → Check → Check
in_container_check i none = none
in_container_check i (some p) = some (in_container i p)

unfoldable pub is_cluster_input : String → Bool
is_cluster_input t = str_eq t "k8sEvent" || str_eq t "k8sObjectState"

unfoldable pub validate_input : InputSpec → Check
validate_input input =
    if str_eq input.type "file" || (str_eq input.type "dir" || is_cluster_input input.type)
    then none
    else some (unknown_input input.type)

unfoldable pub validate_output : OutputSpec → Check
validate_output output =
    if str_eq output.type "http"
    then (if has "url" output.config then none else some http_without_url)
    else if str_eq output.type "file"
    then (if has "path" output.config then none else some file_without_path)
    else some (unknown_output output.type)

-- `missing` of the case "drop".
unfoldable pub missing_keys : TransformSpec → List String
missing_keys t =
    (if has "key" t.config then [] else "key" ∷ [])
    ++ (if has "value" t.config then [] else "value" ∷ [])

-- One round of the loop, at index `i`.
unfoldable pub validate_transform : ℕ → TransformSpec → Check
unfolding missing_keys
validate_transform i t =
    if str_eq t.type "json"
    then none
    else if str_eq t.type "label"
    then (if has "fields" t.config then none else some (label_without_fields i))
    else if str_eq t.type "drop"
    then (if nonempty (missing_keys t) then some (drop_without i (missing_keys t)) else none)
    else some (unknown_transform t.type)

unfoldable pub validate_transforms_from : ℕ → List TransformSpec → Check
unfolding validate_transform
validate_transforms_from i [] = none
validate_transforms_from i (t ∷ ts) =
    then_check (validate_transform i t) (validate_transforms_from (i + 1) ts)

unfoldable pub validate_transforms : List TransformSpec → Check
unfolding validate_transforms_from
validate_transforms ts = validate_transforms_from 0 ts

-- The loop over the containers.
unfoldable pub validate_containers_from : ℕ → List ContainerPolicy → Check
unfolding validate_output validate_transforms
validate_containers_from i [] = none
validate_containers_from i (cp ∷ cps) =
    let rest = validate_containers_from (i + 1) cps in
    if str_eq cp.output.type ""
    then some (container_without_output i)
    else then_check (in_container_check i (validate_output cp.output))
        (then_check (in_container_check i (validate_transforms cp.transforms)) rest)

abbrev pub is_set {ℓ} : {A : Type ℓ} → Option A → Bool
is_set none = false
is_set (some a) = true

-- The part of the check for a policy with an input and an output of its own.
unfoldable pub validate_standalone : Option InputSpec → Option OutputSpec → Check
unfolding is_cluster_input validate_input validate_output
validate_standalone none output = none
validate_standalone (some input) none = none
validate_standalone (some input) (some output) =
    if is_cluster_input input.type
    then some cluster_input
    else then_check (validate_input input) (validate_output output)

unfoldable pub validate_log_pilot_policy : LogPilotPolicySpec → Check
unfolding validate_standalone validate_containers_from validate_transforms
validate_log_pilot_policy spec =
    if not (is_set spec.selector && nonempty spec.containers)
      && not (is_set spec.input && is_set spec.output)
    then some incomplete
    else then_check (validate_standalone spec.input spec.output) (
        then_check (validate_containers_from 0 spec.containers)
          (validate_transforms spec.transforms))

unfoldable pub validate_cluster_log_pilot_policy : ClusterLogPilotPolicySpec → Check
unfolding is_cluster_input validate_output validate_transforms
validate_cluster_log_pilot_policy spec =
    if not (is_cluster_input spec.input.type)
    then some unsupported_cluster_input
    else then_check (validate_output spec.output) (validate_transforms spec.transforms)

pub record Condition : Type 0 where
  pub type : String
  pub status : String
  pub observed_generation : ℕ
  pub reason : String
  pub message : Option Problem

-- `acceptedCondition`; the message "policy accepted" is `none`.
unfoldable pub accepted_condition : Check → ℕ → Condition
accepted_condition result generation = record {
  type = "Accepted";
  status = elim result [ none ↦ "True" | some p ↦ "False" ];
  observed_generation = generation;
  reason = elim result [ none ↦ "Accepted" | some p ↦ "Invalid" ];
  message = result;
}
