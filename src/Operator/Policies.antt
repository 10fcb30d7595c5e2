-- ===== src/Operator/Policies.antt =====
-- internal/log-pilot-operator/logpilotpolicy_controller.go and clusterlogpilotpolicy_controller.go, with
-- `setLogPilotPolicyCondition` and `setClusterLogPilotPolicyCondition` of policy_validation.go. Of the API
-- machinery, `meta.SetStatusCondition`, `Get` and the update of a status are parameters.
use logpilot.Prelude.{
  ℕ, String, ◌≡◌, refl, Bool, true, false, Option, none, some, List, eq_iff, All,
}
use logpilot.Api.{LogPilotPolicySpec, ClusterLogPilotPolicySpec}
use logpilot.Json.{Json, IsOk}
use logpilot.Agent.Transform
use logpilot.Agent.Output
use logpilot.Operator.Validation.{
  Check, Condition, accepted_condition, validate_log_pilot_policy,
  validate_cluster_log_pilot_policy,
}
use logpilot.Operator.Validation.Agreement.{
  TransformDecodes, OutputDecodes, validate_cluster_log_pilot_policy_sound,
}
use logpilot.Operator.Reconcile.{Answer, found, not_found, get_failed, Outcome, is_done}

-- A policy of either kind: what is read and written of it.
pub record Policy (Spec : Type 0) : Type 0 where
  pub generation : ℕ
  pub spec : Spec
  pub conditions : List Condition

module _ (set_status_condition : Condition → List Condition → List Condition) where
  abbrev with_check : {Spec : Type 0} → Policy Spec → Check → Policy Spec
  with_check p result = record p {
    conditions = set_status_condition (accepted_condition result p.generation) p.conditions;
  }

  unfoldable pub set_log_pilot_policy_condition :
      Policy LogPilotPolicySpec → Check → Policy LogPilotPolicySpec
  unfolding accepted_condition
  set_log_pilot_policy_condition p result = with_check p result

  unfoldable pub set_cluster_log_pilot_policy_condition :
      Policy ClusterLogPilotPolicySpec → Check → Policy ClusterLogPilotPolicySpec
  unfolding accepted_condition
  set_cluster_log_pilot_policy_condition p result = with_check p result

  module _ {S : Type 0} where
    -- `Reconcile`; the flag is false where an error is returned.
    unfoldable pub reconcile_log_pilot_policy :
        (Policy LogPilotPolicySpec → S → S × Outcome)
        → Answer (Policy LogPilotPolicySpec)
        → S
        → S × Bool
    unfolding validate_log_pilot_policy set_log_pilot_policy_condition
    reconcile_log_pilot_policy update get_failed s = (s, false)
    reconcile_log_pilot_policy update not_found s = (s, true)
    reconcile_log_pilot_policy update (found p) s =
        let (s', outcome) =
          update (set_log_pilot_policy_condition p (validate_log_pilot_policy p.spec)) s in
        (s', is_done outcome)

    unfoldable pub reconcile_cluster_log_pilot_policy :
        (Policy ClusterLogPilotPolicySpec → S → S × Outcome)
        → Answer (Policy ClusterLogPilotPolicySpec)
        → S
        → S × Bool
    unfolding validate_cluster_log_pilot_policy set_cluster_log_pilot_policy_condition
    reconcile_cluster_log_pilot_policy update get_failed s = (s, false)
    reconcile_cluster_log_pilot_policy update not_found s = (s, true)
    reconcile_cluster_log_pilot_policy update (found p) s =
        let (s', outcome) =
          update
            (set_cluster_log_pilot_policy_condition p (validate_cluster_log_pilot_policy p.spec))
            s in
        (s', is_done outcome)

-- What the status of a policy with this check says.
of_status :
    (result : Check) (generation : ℕ)
    → (accepted_condition result generation).status ≡ "True"
    → result ≡ none
unfolding accepted_condition
of_status none generation h = refl
of_status (some p) generation h = let w = (eq_iff "False" "True").1 h in absurd (cc)

-- A status that says that a cluster policy is accepted can be relied on: if the round sends
-- a status in which the condition "Accepted" is "True", the agent can build the policy's
-- transforms and its output, provided that the strings of the configurations decode as the agent
-- decodes them and that a CA certificate given for an HTTP output parses, neither of which the
-- operator looks at. A condition that was set can be found.
pub reconcile_cluster-accepted :
    (set_status_condition : Condition → List Condition → List Condition)
    (find : String → List Condition → Option Condition) (codec : Json) (parse_pem : String → Bool)
    → ((c : Condition) (cs : List Condition) → find c.type (set_status_condition c cs) ≡ some c)
    → {S : Type 0} (update : Policy ClusterLogPilotPolicySpec → S → S × Outcome)
    → (p : Policy ClusterLogPilotPolicySpec) (s : S)
    → All (TransformDecodes codec) p.spec.transforms
    → OutputDecodes codec parse_pem p.spec.output
    → (sent : Policy ClusterLogPilotPolicySpec) × (reconcile_cluster_log_pilot_policy
          set_status_condition update
          (found p)
          s
        ≡ ((update sent s).0, is_done (update sent s).1))
      × (c : Condition) × (find "Accepted" sent.conditions ≡ some c)
      × (c.status ≡ "True"
          → IsOk (Transform.new_slice_from_specs codec p.spec.transforms)
            × IsOk (Output.new_from_spec codec parse_pem p.spec.output))
unfolding reconcile_cluster_log_pilot_policy accepted_condition
reconcile_cluster-accepted set_status_condition find codec parse_pem law update p s dt do_ =
    let result = validate_cluster_log_pilot_policy p.spec in
    (
      set_cluster_log_pilot_policy_condition set_status_condition p result,
      refl,
      accepted_condition result p.generation,
      law (accepted_condition result p.generation) p.conditions,
      λ h.
          let (kind, transforms, output) =
            validate_cluster_log_pilot_policy_sound codec parse_pem p.spec dt do_
              (of_status result p.generation h) in
          (transforms, output),
    )
