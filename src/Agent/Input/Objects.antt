-- ===== src/Agent/Input/Objects.antt =====
-- internal/log-pilot-agent/input/k8sobjectstate.go: snapshots of objects, and what changes in them. The
-- API server is its answers, and encoding/json is a parameter. `accepts i` says that the `i`-th
-- select of `enqueue` in a round sends, and `now i` is the time that it reads. The channel's room and
-- the counter behind `Lag` are left out; each collector is a goroutine of its own on the one shared
-- queue.
pub mod State
pub mod Queue
pub mod Reading
use logpilot.Prelude.{
  ℕ, suc, ◌+◌, String, Bool, true, false, ◌||◌, Option, none, some, List, [], ◌∷◌, ◌++◌, map,
  str_eq, if◌then◌else◌, length, nonempty, concat,
}
use logpilot.Api.{Bytes}
use logpilot.Agent.Record.{Record}
use logpilot.Agent.Input.Channel.{take_batch}
use logpilot.Agent.Input.Objects.State.{
  Value, text, object, Fields, no_field, field, Pod, Node, Deployment, StatefulSet, DaemonSet, Job,
  pod_state, node_state, deployment_state, stateful_set_state, daemon_set_state, job_state,
}

pub record ObjectConfig : Type 0 where
  pub namespaces : List String
  pub resources : List String

pub record ObjectInput : Type 0 where
  pub cfg : ObjectConfig
  pub queue : List Record
  pub cancelled : Bool

-- `NewK8sObjectStateInput`, before its goroutines run.
unfoldable pub new_k8s_object_state_input : ObjectConfig → ObjectInput
new_k8s_object_state_input cfg = record { cfg = cfg; queue = []; cancelled = false }

unfoldable pub resources : ObjectConfig → List String
resources cfg =
    if nonempty cfg.resources
    then cfg.resources
    else "pod" ∷ "node" ∷ "deployment" ∷ "statefulset" ∷ "daemonset" ∷ "job" ∷ []

unfoldable pub namespaces : ObjectConfig → List String
namespaces cfg = if nonempty cfg.namespaces then cfg.namespaces else "" ∷ []

-- An object as the API server hands it out.
pub data ApiObject : Type 0 where
  pod_object : Pod → ApiObject
  node_object : Node → ApiObject
  deployment_object : Deployment → ApiObject
  stateful_set_object : StatefulSet → ApiObject
  daemon_set_object : DaemonSet → ApiObject
  job_object : Job → ApiObject
  other_object : ApiObject

-- A watch event: its type and its object.
pub record WatchEvent : Type 0 where
  pub type : String
  pub obj : ApiObject

-- A round of a collector: what `List` answers, and then what the watch delivers until it closes, none
-- where it cannot be opened.
pub data Round : Type 0 where
  list_failed : Round
  listed : List ApiObject → Option (List WatchEvent) → Round

-- A goroutine: the API group and the resource that it lists and watches, the namespace, and what it
-- does.
pub record Collector : Type 0 where
  pub group : String
  pub resource : String
  pub namespace : String
  pub body : List Round → ObjectInput → ObjectInput

module _ (marshal : Value → Option Bytes) (format : ℕ → String) (now : ℕ → ℕ)
    (accepts : ℕ → Bool) where
  -- The flag is false where an error is returned.
  unfoldable pub enqueue : ℕ → String → String → Fields → ObjectInput → ObjectInput × Bool
  enqueue i kind action state k =
      elim (marshal (
        object (
          field "kind" (text kind) (
            field "action" (text action) (
              field "timestamp" (text (format (now i)))
                (field "object" (object state) no_field)))))) [
                  | none ↦ (k, false)
                  | some raw ↦
                      if accepts i
                      then (
                        record k {
                          queue =
                              k.queue
                              ++ record {
                                payload = raw;
                                offset = 0;
                                meta = some (("kind", kind) ∷ ("action", action) ∷ []);
                              }
                                ∷ [];
                        },
                        true,
                      )
                      else (k, false)
                ]

  -- The type switch of `handleObject`; a collector's snapshots have the kind and the state that belong
  -- to the type of their list.
  unfoldable pub describe : ApiObject → Option (String × Fields)
  unfolding pod_state node_state deployment_state stateful_set_state daemon_set_state job_state
  describe (pod_object o) = some ("Pod", pod_state format o)
  describe (node_object o) = some ("Node", node_state format o)
  describe (deployment_object o) = some ("Deployment", deployment_state format o)
  describe (stateful_set_object o) = some ("StatefulSet", stateful_set_state format o)
  describe (daemon_set_object o) = some ("DaemonSet", daemon_set_state format o)
  describe (job_object o) = some ("Job", job_state format o)
  describe other_object = none

  -- One object; the error of `enqueue` is dropped.
  unfoldable pub handle : ℕ → String → ApiObject → ObjectInput → ObjectInput
  unfolding describe enqueue
  handle i action o k = elim (describe o) [
    | none ↦ k
    | some (kind, state) ↦ (enqueue i kind action state k).0
  ]

  unfoldable pub handle_object : ℕ → WatchEvent → ObjectInput → ObjectInput
  unfolding handle
  handle_object i ev k = handle i ev.type ev.obj k

  -- The loop over a list.
  unfoldable pub snapshot : ℕ → List ApiObject → ObjectInput → ObjectInput
  unfolding handle
  snapshot i [] k = k
  snapshot i (o ∷ os) k = snapshot (suc i) os (handle i "snapshot" o k)

  unfoldable pub watch : ℕ → List WatchEvent → ObjectInput → ObjectInput
  unfolding handle_object
  watch i [] k = k
  watch i (ev ∷ evs) k = watch (suc i) evs (handle_object i ev k)

  -- A goroutine, round by round, until the context is done.
  unfoldable pub collect : List Round → ObjectInput → ObjectInput
  unfolding snapshot watch
  collect [] k = k
  collect (list_failed ∷ rounds) k = collect rounds k
  collect (listed os none ∷ rounds) k = collect rounds (snapshot 0 os k)
  collect (listed os (some evs) ∷ rounds) k =
      collect rounds (watch (length os) evs (snapshot 0 os k))

  abbrev in_namespaces : String → String → ObjectConfig → List Collector
  in_namespaces group resource cfg =
      map
        (λ (ns : String). record {
          group = group;
          resource = resource;
          namespace = ns;
          body = collect;
        })
        (namespaces cfg)

  unfoldable pub start_pod_collectors : ObjectConfig → List Collector
  unfolding namespaces collect
  start_pod_collectors cfg = in_namespaces "" "pods" cfg

  unfoldable pub collect_nodes : List Collector
  unfolding collect
  collect_nodes = record { group = ""; resource = "nodes"; namespace = ""; body = collect } ∷ []

  unfoldable pub start_deployment_collectors : ObjectConfig → List Collector
  unfolding namespaces collect
  start_deployment_collectors cfg = in_namespaces "apps" "deployments" cfg

  unfoldable pub start_stateful_set_collectors : ObjectConfig → List Collector
  unfolding namespaces collect
  start_stateful_set_collectors cfg = in_namespaces "apps" "statefulsets" cfg

  unfoldable pub start_daemon_set_collectors : ObjectConfig → List Collector
  unfolding namespaces collect
  start_daemon_set_collectors cfg = in_namespaces "apps" "daemonsets" cfg

  unfoldable pub start_job_collectors : ObjectConfig → List Collector
  unfolding namespaces collect
  start_job_collectors cfg = in_namespaces "batch" "jobs" cfg

  abbrev either : String → String → String → Bool
  either resource one many = str_eq resource one || str_eq resource many

  -- The switch of `run`.
  unfoldable pub start : ObjectConfig → String → List Collector
  unfolding start_pod_collectors collect_nodes start_deployment_collectors
      start_stateful_set_collectors start_daemon_set_collectors start_job_collectors
  start cfg resource =
      if either resource "pod" "pods"
      then start_pod_collectors cfg
      else if either resource "node" "nodes"
      then collect_nodes
      else if either resource "deployment" "deployments"
      then start_deployment_collectors cfg
      else if either resource "statefulset" "statefulsets"
      then start_stateful_set_collectors cfg
      else if either resource "daemonset" "daemonsets"
      then start_daemon_set_collectors cfg
      else if either resource "job" "jobs"
      then start_job_collectors cfg
      else []

  -- `run`: the goroutines that it starts.
  unfoldable pub run : ObjectConfig → List Collector
  unfolding start resources
  run cfg = concat (map (start cfg) (resources cfg))

unfoldable pub read_batch :
    (ℕ → List Record) → (ℕ → Bool) → ℕ → ObjectInput → ObjectInput × List Record
unfolding take_batch
read_batch arrivals leaves size k =
    let (batch, waiting) = take_batch arrivals leaves size 0 k.queue in
    (record k { queue = waiting }, batch)

-- `Commit` has nothing to do.
unfoldable pub commit : ObjectInput → ObjectInput
commit k = k

unfoldable pub close : ObjectInput → ObjectInput
close k = record k { cancelled = true }
