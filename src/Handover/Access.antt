-- ===== src/Handover/Access.antt =====
-- What the agent asks of the API server, in internal/log-pilot-agent, and what the role that the operator
-- makes for it (internal/log-pilot-operator/deploy.go) lets it do.
use logpilot.Prelude.{
  ℕ, String, ◌≡◌, refl, Bool, true, false, ◌&&◌, Option, List, [], ◌∷◌, map, str_eq, if◌then◌else◌,
  any, concat, All, All-append,
}
use logpilot.Api.{Bytes}
use logpilot.Operator.LogPilot.{LogPilot, PolicyRule, Body, cluster_role, Object}
use logpilot.Operator.Deploy.{build_agent_cluster_role}
use logpilot.Agent.Input.Objects.State.{Value}
use logpilot.Agent.Input.Objects.{
  ObjectConfig, Collector, collect, start, run, resources, namespaces, start_pod_collectors,
  collect_nodes, start_deployment_collectors, start_stateful_set_collectors,
  start_daemon_set_collectors, start_job_collectors,
}

-- A request: a verb on a resource of an API group.
pub record Request : Type 0 where
  pub group : String
  pub resource : String
  pub verb : String

abbrev holds : String → List String → Bool
holds name names = any (str_eq name) names

abbrev allows_rule : Request → PolicyRule → Bool
allows_rule r rule =
    holds r.group rule.api_groups && (holds r.resource rule.resources && holds r.verb rule.verbs)

abbrev rules_of : Body → List PolicyRule
rules_of (cluster_role rules) = rules
rules_of b = []

-- A role allows what one of its rules names.
abbrev pub Allows : Object → Request → Type 0
Allows role r = any (allows_rule r) (rules_of role.body) ≡ true

abbrev ask : String → String → String → Request
ask group resource verb = record { group = group; resource = resource; verb = verb }

-- What a collector asks: it lists and watches.
abbrev pub asked_by : Collector → List Request
asked_by c = ask c.group c.resource "list" ∷ ask c.group c.resource "watch" ∷ []

-- The agent's other requests: the pods of the node and their events, the cluster policies, the leases,
-- and the events of a k8sEvent input.
abbrev pub standing : List Request
standing =
    ask "" "pods" "list"
    ∷ ask "" "pods" "watch"
    ∷ ask "logpilot.logpilot.jimyag.com" "clusterlogpilotpolicies" "list"
    ∷ ask "coordination.k8s.io" "leases" "get"
    ∷ ask "coordination.k8s.io" "leases" "create"
    ∷ ask "coordination.k8s.io" "leases" "update"
    ∷ ask "" "events" "list"
    ∷ ask "" "events" "watch"
    ∷ []

module _ (marshal : Value → Option Bytes) (format : ℕ → String) (now : ℕ → ℕ) (accepts : ℕ → Bool)
    (lp : LogPilot) where
  abbrev Served : Collector → Type 0
  Served c = All (Allows (build_agent_cluster_role lp)) (asked_by c)

  record AllServed (cs : List Collector) : Type 0 where
    served : All Served cs

  -- The collectors of a resource, one for every namespace.
  lists_Served :
      (group resource : String)
      → Allows (build_agent_cluster_role lp) (ask group resource "list")
      → Allows (build_agent_cluster_role lp) (ask group resource "watch")
      → (names : List String)
      → All Served (
          map
            (λ (ns : String). record {
              group = group;
              resource = resource;
              namespace = ns;
              body = collect marshal format now accepts;
            })
            names)
  lists_Served group resource l w [] = tt
  lists_Served group resource l w (n ∷ ns) = ((l, (w, tt)), lists_Served group resource l w ns)

  every_Served :
      (group resource : String)
      → Allows (build_agent_cluster_role lp) (ask group resource "list")
      → Allows (build_agent_cluster_role lp) (ask group resource "watch")
      → (names : List String)
      → AllServed (
          map
            (λ (ns : String). record {
              group = group;
              resource = resource;
              namespace = ns;
              body = collect marshal format now accepts;
            })
            names)
  every_Served group resource l w names = record { served = lists_Served group resource l w names }

  none_Served : AllServed []
  none_Served = record { served = tt }

  either-Served :
      (b : Bool) (xs ys : List Collector)
      → AllServed xs
      → AllServed ys
      → AllServed (if b then xs else ys)
  either-Served true xs ys hx hy = hx
  either-Served false xs ys hx hy = hy

  start-Served :
      (cfg : ObjectConfig) (resource : String)
      → AllServed (start marshal format now accepts cfg resource)
  unfolding start start_pod_collectors collect_nodes start_deployment_collectors
      start_stateful_set_collectors start_daemon_set_collectors start_job_collectors
      build_agent_cluster_role
  start-Served cfg resource =
      let names = namespaces cfg in
      either-Served _ _ _ (every_Served "" "pods" refl refl names) (
        either-Served _ _ _ (every_Served "" "nodes" refl refl ("" ∷ [])) (
          either-Served _ _ _ (every_Served "apps" "deployments" refl refl names) (
            either-Served _ _ _ (every_Served "apps" "statefulsets" refl refl names) (
              either-Served _ _ _ (every_Served "apps" "daemonsets" refl refl names)
                (either-Served _ _ _ (every_Served "batch" "jobs" refl refl names) none_Served)))))

  starts-Served :
      (cfg : ObjectConfig) (names : List String)
      → All Served (concat (map (start marshal format now accepts cfg) names))
  starts-Served cfg [] = tt
  starts-Served cfg (n ∷ ns) =
      All-append Served (start marshal format now accepts cfg n) _ (start-Served cfg n).served
        (starts-Served cfg ns)

  -- The role that the operator makes for the agent allows everything that the agent asks of the API
  -- server: its own requests, and the lists and watches of every collector that a k8sObjectState
  -- input starts, for whatever resources and namespaces its configuration names.
  pub agent_cluster_role-Allows :
      (cfg : ObjectConfig)
      → All (Allows (build_agent_cluster_role lp)) standing
        × All
            (λ (c : Collector). All (Allows (build_agent_cluster_role lp)) (asked_by c))
            (run marshal format now accepts cfg)
  unfolding build_agent_cluster_role run
  agent_cluster_role-Allows cfg = (
    (refl, (refl, (refl, (refl, (refl, (refl, (refl, (refl, tt)))))))),
    starts-Served cfg (resources cfg),
  )
