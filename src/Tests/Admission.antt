-- ===== src/Tests/Admission.antt =====
-- The controllers of policies and the admission server at concrete inputs.
use logpilot.Prelude.{
  String, ◌≡◌, refl, ◌⊎◌, true, Option, none, some, List, [], ◌∷◌, str_eq, eq_refl, if◌then◌else◌,
  if-true, nonempty,
}
use logpilot.Api.{Bytes, LogPilotPolicySpec, ClusterLogPilotPolicySpec}
use logpilot.Json.{IsOk}
use logpilot.Agent.Transform
use logpilot.Agent.Output
use logpilot.Operator.Validation.{Condition}
use logpilot.Operator.Reconcile.{found, Outcome, done, is_done}
use logpilot.Operator.Policies.{
  Policy, reconcile_cluster_log_pilot_policy, reconcile_cluster-accepted,
}
use logpilot.Webhook.Injector.{Pod, collect_policies}
use logpilot.Webhook.Server.{Review, patched, mutate_pod}
use logpilot.Agent.Watcher.Build.{parse_policies_from_pod}
use logpilot.Handover.{agent_pod}
use logpilot.Handover.Admission.{mutate_pod-parse_policies_from_pod}
use logpilot.Tests.Policies.{
  pod, selecting, codec, cluster_spec, no_pem, codec_law, drop_spec-TransformDecodes,
  output_spec-OutputDecodes,
}

-- Of the conditions, the last of a type counts first.
abbrev set_status_condition : Condition → List Condition → List Condition
set_status_condition c cs = c ∷ cs

abbrev find : String → List Condition → Option Condition
find type [] = none
find type (c ∷ cs) = if str_eq type c.type then some c else find type cs

find-set : (c : Condition) (cs : List Condition) → find c.type (set_status_condition c cs) ≡ some c
find-set c cs = if-true _ _ (eq_refl c.type)

-- A cluster that keeps the last policy it was sent.
abbrev Kept : Type 0
Kept = Option (Policy ClusterLogPilotPolicySpec)

abbrev update : Policy ClusterLogPilotPolicySpec → Kept → Kept × Outcome
update p s = (some p, done)

abbrev cluster_policy : Policy ClusterLogPilotPolicySpec
cluster_policy = record { generation = 1; spec = cluster_spec; conditions = [] }

reconcile_cluster-accepted_example :
    (sent : Policy ClusterLogPilotPolicySpec) × (reconcile_cluster_log_pilot_policy
        set_status_condition update
        (found cluster_policy)
        none
      ≡ ((update sent none).0, is_done (update sent none).1))
    × (c : Condition) × (find "Accepted" sent.conditions ≡ some c)
    × (c.status ≡ "True"
        → IsOk (Transform.new_slice_from_specs codec cluster_spec.transforms)
          × IsOk (Output.new_from_spec codec no_pem cluster_spec.output))
reconcile_cluster-accepted_example =
    reconcile_cluster-accepted set_status_condition find codec no_pem find-set update cluster_policy
      none (drop_spec-TransformDecodes, tt) output_spec-OutputDecodes

abbrev decode : Bytes → Option Pod
decode raw = some pod

abbrev patch : Pod → Pod → Pod
patch a b = b

abbrev apply : Pod → Pod → Pod
apply p a = p

abbrev listed : String → Option (List LogPilotPolicySpec)
listed namespace = some (selecting ∷ [])

abbrev review : Review
review = record { namespace = "default"; raw = [] }

mutate_pod-parse_policies_from_pod_example :
    (p : Pod) × (mutate_pod decode patch listed codec.from_policies review ≡ patched p)
    × (((collect_policies pod (selecting ∷ []) ≡ []) × (apply p pod ≡ pod))
        ⊎ ((nonempty (collect_policies pod (selecting ∷ [])) ≡ true)
            × (parse_policies_from_pod codec (agent_pod "u1" "web" "default" (apply p pod))
                ≡ some (collect_policies pod (selecting ∷ [])))))
unfolding collect_policies
mutate_pod-parse_policies_from_pod_example =
    mutate_pod-parse_policies_from_pod codec decode patch listed apply (λ a b. refl) review pod
      (selecting ∷ []) "u1" "web" "one" refl refl refl (codec_law "one" refl)
