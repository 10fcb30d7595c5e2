-- ===== src/Agent/Watcher/Cluster.antt =====
-- `reconcileClusterPolicies`, `startClusterPolicyRunner`, `stopRunner` and `extractStringSlice` of
-- internal/log-pilot-agent/watcher/watcher.go. Of the map of runners only the entries of cluster
-- policies are here: a pod's key starts with its UID, and theirs with "ClusterLogPilotPolicy/".
-- `stopRunner` returns when the runner is done or 30 seconds have passed, and then removes its status.
pub mod Granted
use logpilot.Prelude.{
  ℕ, String, str_append, Bool, true, false, not, ◌&&◌, Option, none, some, List, [], ◌∷◌, map,
  str_eq, ◌==◌, if◌then◌else◌, lookup, insert, delete, has,
}
use logpilot.Prelude.Int.{pos}
use logpilot.Api.{RawConfig, ClusterLogPilotPolicy}
use logpilot.Json.{Json, ok, err}
use logpilot.Agent.Status.{Server, update_runner, remove_runner}
use logpilot.Agent.Transform.{Transform, new_slice_from_specs}
use logpilot.Agent.Output.{Output}
use logpilot.Agent.Output
use logpilot.Agent.Watcher.Build.{Config}
use logpilot.Agent.Watcher.Lease.{Attempt, acquire_cluster_policy_lease}
use logpilot.Agent.Watcher.Pods.{contains, remove_key}

pub data ClusterInput : Type 0 where
  k8s_event : List String → String → ClusterInput
  k8s_object_state : List String → List String → ClusterInput

pub record ClusterRunner : Type 0 where
  pub name : String
  pub input : ClusterInput
  pub transforms : List Transform
  pub output : Output
  pub batch_len : ℕ

pub record ClusterWatcher : Type 0 where
  pub runners : List (String × ClusterRunner)
  pub status : Server

unfoldable pub policy_key : ClusterLogPilotPolicy → String
policy_key p = str_append "ClusterLogPilotPolicy/" p.name

-- A missing or malformed value is nil.
unfoldable pub extract_string_slice : Json → RawConfig → String → List String
extract_string_slice json config key = elim (lookup key config) [
  | none ↦ []
  | some raw ↦ elim (json.to_strings raw) [ none ↦ [] | some out ↦ out ]
]

unfoldable pub stop_runner : String → ClusterWatcher → ClusterWatcher
stop_runner key w =
    if has key w.runners
    then record w { runners = delete key w.runners; status = remove_runner key w.status }
    else w

module _ (json : Json) (usable : String → Bool) (join : List String → String) (cfg : Config) where
  -- The input that the runner gets; a k8sEvent input that is made and not used is left out.
  unfoldable pub cluster_input : ClusterLogPilotPolicy → String → ClusterInput
  unfolding extract_string_slice
  cluster_input policy key =
      let namespaces = extract_string_slice json policy.spec.input.config "namespaces" in
      if str_eq policy.spec.input.type "k8sObjectState"
      then k8s_object_state namespaces
          (extract_string_slice json policy.spec.input.config "resources")
      else k8s_event namespaces (join (cfg.meta_dir ∷ key ∷ "resource-version" ∷ []))

  unfoldable pub start_cluster_policy_runner :
      ClusterLogPilotPolicy → String → ClusterWatcher → ClusterWatcher × Bool
  unfolding cluster_input
  start_cluster_policy_runner policy key w =
      if not (str_eq policy.spec.input.type "k8sEvent")
        && not (str_eq policy.spec.input.type "k8sObjectState")
      then (w, true)
      else if has key w.runners
      then (w, true)
      else elim (new_slice_from_specs json policy.spec.transforms) [
        | err e ↦ (w, false)
        | ok transforms ↦ elim (Output.new_from_spec json usable policy.spec.output) [
          | err e ↦ (w, false)
          | ok output ↦
              let batch_len =
                if policy.spec.input.batch_len == 0 then 1000 else policy.spec.input.batch_len in
              let r : ClusterRunner = record {
                name = key;
                input = cluster_input policy key;
                transforms = transforms;
                output = output;
                batch_len = batch_len;
              } in
              (
                record w {
                  runners = insert key r w.runners;
                  status = update_runner key (pos 0) 0 w.status;
                },
                true,
              )
        ]
      ]

  module _ (granted : String → Bool) where
    -- One round of the first loop.
    unfoldable pub reconcile_policy :
        ClusterLogPilotPolicy → ClusterWatcher → List String → ClusterWatcher × List String
    unfolding start_cluster_policy_runner stop_runner policy_key
    reconcile_policy policy w seen =
        let key = policy_key policy in
        let (started, good) = start_cluster_policy_runner policy key w in
        if not (granted policy.name)
        then (if contains key seen then (stop_runner key w, remove_key key seen) else (w, seen))
        else if contains key seen
        then (w, seen)
        else if good
        then (started, key ∷ seen)
        else (started, seen)

    unfoldable pub reconcile_policies :
        List ClusterLogPilotPolicy → ClusterWatcher → List String → ClusterWatcher × List String
    unfolding reconcile_policy
    reconcile_policies [] w seen = (w, seen)
    reconcile_policies (p ∷ ps) w seen =
        let (w', seen') = reconcile_policy p w seen in reconcile_policies ps w' seen'

  -- The second loop, over the keys of `seen`.
  unfoldable pub stop_gone :
      List String → List String → ClusterWatcher → List String → ClusterWatcher × List String
  unfolding stop_runner
  stop_gone current [] w seen = (w, seen)
  stop_gone current (key ∷ keys) w seen =
      if contains key current
      then stop_gone current keys w seen
      else stop_gone current keys (stop_runner key w) (remove_key key seen)

  -- `none` is an error of `List`; `scripts` is what the API server answers about each lease.
  unfoldable pub reconcile_cluster_policies :
      (String → ℕ → Attempt)
      → Option (List ClusterLogPilotPolicy)
      → ClusterWatcher
      → List String
      → ClusterWatcher × List String
  unfolding reconcile_policies stop_gone
  reconcile_cluster_policies scripts none w seen = (w, seen)
  reconcile_cluster_policies scripts (some policies) w seen =
      let (w', seen') =
        reconcile_policies
          (λ name. (acquire_cluster_policy_lease cfg.namespace cfg.node_name (scripts name)).1)
          policies w seen in
      stop_gone (map policy_key policies) seen' w' seen'
