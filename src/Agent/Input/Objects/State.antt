-- ===== src/Agent/Input/Objects/State.antt =====
-- What k8sobjectstate.go records of an object: `podState` and its kin. A `map[string]any` is `Fields`.
-- Times are instants, which `format` writes in UTC as time.RFC3339Nano; quantities are text.
use logpilot.Prelude.{ℕ, String, Bool, Option, none, some, List, [], ◌∷◌}
use logpilot.Prelude.Int.{ℤ}
use logpilot.Api.{Labels}

-- `metav1.Object`
pub record Meta : Type 0 where
  pub name : String
  pub namespace : String
  pub uid : String
  pub resource_version : String
  pub labels : Labels
  pub annotations : Labels
  pub creation : ℕ

-- A condition of any of the six types.
pub record Condition : Type 0 where
  pub type : String
  pub status : String
  pub reason : String
  pub message : String

mutual
  pub data Value : Type 0 where
    text : String → Value
    number : ℤ → Value
    flag : Bool → Value
    null : Value
    labels : Labels → Value
    conditions : List Condition → Value
    object : Fields → Value
    array : Values → Value

  pub data Fields : Type 0 where
    no_field : Fields
    field : String → Value → Fields → Fields

  pub data Values : Type 0 where
    no_value : Values
    more : Value → Values → Values

pub record Terminated : Type 0 where
  pub reason : String
  pub message : String
  pub exit_code : ℤ
  pub started_at : ℕ
  pub finished_at : ℕ

-- `corev1.ContainerState`; `waiting` holds a reason and a message, `running` the start.
pub record ContainerState : Type 0 where
  pub waiting : Option (String × String)
  pub running : Option ℕ
  pub terminated : Option Terminated

pub record ContainerStatus : Type 0 where
  pub name : String
  pub ready : Bool
  pub restart_count : ℤ
  pub state : ContainerState
  pub last_state : ContainerState

pub record Pod : Type 0 where
  pub meta : Meta
  pub node_name : String
  pub phase : String
  pub reason : String
  pub message : String
  pub conditions : List Condition
  pub container_statuses : List ContainerStatus

pub record Node : Type 0 where
  pub meta : Meta
  pub conditions : List Condition
  pub capacity : Labels
  pub allocatable : Labels

pub record Deployment : Type 0 where
  pub meta : Meta
  pub replicas : ℤ
  pub ready_replicas : ℤ
  pub available_replicas : ℤ
  pub updated_replicas : ℤ
  pub unavailable_replicas : ℤ
  pub observed_generation : ℤ
  pub conditions : List Condition

pub record StatefulSet : Type 0 where
  pub meta : Meta
  pub replicas : ℤ
  pub ready_replicas : ℤ
  pub available_replicas : ℤ
  pub updated_replicas : ℤ
  pub current_replicas : ℤ
  pub observed_generation : ℤ
  pub conditions : List Condition

pub record DaemonSet : Type 0 where
  pub meta : Meta
  pub desired_number_scheduled : ℤ
  pub current_number_scheduled : ℤ
  pub number_ready : ℤ
  pub updated_number_scheduled : ℤ
  pub number_available : ℤ
  pub number_unavailable : ℤ
  pub observed_generation : ℤ
  pub conditions : List Condition

pub record Job : Type 0 where
  pub meta : Meta
  pub active : ℤ
  pub succeeded : ℤ
  pub failed : ℤ
  pub ready : Option ℤ
  pub completed_indexes : String
  pub failed_indexes : Option String
  pub conditions : List Condition
  pub start_time : Option ℕ
  pub completion_time : Option ℕ

-- A pointer, which is null where it is nil.
abbrev pointer : {A : Type 0} → (A → Value) → Option A → Value
pointer value none = null
pointer value (some a) = value a

module _ (format : ℕ → String) where
  unfoldable pub metadata_state : Meta → Fields
  metadata_state m = field "name" (text m.name) (
      field "namespace" (text m.namespace) (
        field "uid" (text m.uid) (
          field "resourceVersion" (text m.resource_version) (
            field "labels" (labels m.labels) (
              field "annotations" (labels m.annotations)
                (field "creationTime" (text (format m.creation)) no_field))))))

  abbrev terminated_state : Terminated → Value
  terminated_state t = object (
      field "state" (text "terminated") (
        field "reason" (text t.reason) (
          field "message" (text t.message) (
            field "exitCode" (number t.exit_code) (
              field "startedAt" (text (format t.started_at))
                (field "finishedAt" (text (format t.finished_at)) no_field))))))

  -- A nil map is null.
  unfoldable pub container_state : ContainerState → Value
  container_state c = elim c.waiting [
    | some (reason, message) ↦ object (
        field "state" (text "waiting")
          (field "reason" (text reason) (field "message" (text message) no_field)))
    | none ↦ elim c.running [
      | some started_at ↦
          object
            (field "state" (text "running") (field "startedAt" (text (format started_at)) no_field))
      | none ↦ elim c.terminated [ some t ↦ terminated_state t | none ↦ null ]
    ]
  ]

  -- The loop of `podState`.
  unfoldable pub container_states : List ContainerStatus → Values
  unfolding container_state
  container_states [] = no_value
  container_states (s ∷ ss) =
      more
        (object (
          field "name" (text s.name) (
            field "ready" (flag s.ready) (
              field "restartCount" (number s.restart_count) (
                field "state" (container_state s.state)
                  (field "lastState" (container_state s.last_state) no_field))))))
        (container_states ss)

  unfoldable pub pod_state : Pod → Fields
  unfolding metadata_state container_states
  pod_state p = field "metadata" (object (metadata_state p.meta)) (
      field "nodeName" (text p.node_name) (
        field "phase" (text p.phase) (
          field "reason" (text p.reason) (
            field "message" (text p.message) (
              field "conditions" (conditions p.conditions) (
                field "containerStatuses" (array (container_states p.container_statuses))
                  no_field))))))

  unfoldable pub node_state : Node → Fields
  unfolding metadata_state
  node_state n = field "metadata" (object (metadata_state n.meta)) (
      field "conditions" (conditions n.conditions) (
        field "capacity" (labels n.capacity) (field "allocatable" (labels n.allocatable) no_field)))

  unfoldable pub deployment_state : Deployment → Fields
  unfolding metadata_state
  deployment_state d = field "metadata" (object (metadata_state d.meta)) (
      field "replicas" (number d.replicas) (
        field "readyReplicas" (number d.ready_replicas) (
          field "availableReplicas" (number d.available_replicas) (
            field "updatedReplicas" (number d.updated_replicas) (
              field "unavailableReplicas" (number d.unavailable_replicas) (
                field "observedGeneration" (number d.observed_generation)
                  (field "conditions" (conditions d.conditions) no_field)))))))

  unfoldable pub stateful_set_state : StatefulSet → Fields
  unfolding metadata_state
  stateful_set_state s = field "metadata" (object (metadata_state s.meta)) (
      field "replicas" (number s.replicas) (
        field "readyReplicas" (number s.ready_replicas) (
          field "availableReplicas" (number s.available_replicas) (
            field "updatedReplicas" (number s.updated_replicas) (
              field "currentReplicas" (number s.current_replicas) (
                field "observedGeneration" (number s.observed_generation)
                  (field "conditions" (conditions s.conditions) no_field)))))))

  unfoldable pub daemon_set_state : DaemonSet → Fields
  unfolding metadata_state
  daemon_set_state d = field "metadata" (object (metadata_state d.meta)) (
      field "desiredNumberScheduled" (number d.desired_number_scheduled) (
        field "currentNumberScheduled" (number d.current_number_scheduled) (
          field "numberReady" (number d.number_ready) (
            field "updatedNumberScheduled" (number d.updated_number_scheduled) (
              field "numberAvailable" (number d.number_available) (
                field "numberUnavailable" (number d.number_unavailable) (
                  field "observedGeneration" (number d.observed_generation)
                    (field "conditions" (conditions d.conditions) no_field))))))))

  unfoldable pub optional_time : Option ℕ → String
  optional_time none = ""
  optional_time (some t) = format t

  unfoldable pub job_state : Job → Fields
  unfolding metadata_state optional_time
  job_state j = field "metadata" (object (metadata_state j.meta)) (
      field "active" (number j.active) (
        field "succeeded" (number j.succeeded) (
          field "failed" (number j.failed) (
            field "ready" (pointer number j.ready) (
              field "completedIndexes" (text j.completed_indexes) (
                field "failedIndexes" (pointer text j.failed_indexes) (
                  field "conditions" (conditions j.conditions) (
                    field "startTime" (text (optional_time j.start_time)) (
                      field "completionTime" (text (optional_time j.completion_time))
                        no_field)))))))))
