-- ===== src/Agent/Input/Objects/Reading.antt =====
-- What can be read back from the state that is recorded of a pod.
use logpilot.Prelude.{
  ℕ, String, ◌≡◌, refl, ap, Bool, false, Option, none, some, List, [], ◌∷◌, map, str_eq,
  if◌then◌else◌,
}
use logpilot.Prelude.Int.{ℤ, pos}
use logpilot.Api.{Labels}
use logpilot.Agent.Input.Objects.State.{
  Meta, Condition, Value, text, number, flag, null, labels, conditions, object, array, Fields,
  no_field, field, Values, no_value, more, Terminated, ContainerState, ContainerStatus, Pod,
  metadata_state, container_state, container_states, pod_state,
}

abbrev get : String → Fields → Value
get name no_field = null
get name (field n v fs) = if str_eq name n then v else get name fs

abbrev text_of : Value → String
text_of (text s) = s
text_of v = ""

abbrev number_of : Value → ℤ
number_of (number n) = n
number_of v = pos 0

abbrev flag_of : Value → Bool
flag_of (flag b) = b
flag_of v = false

abbrev labels_of : Value → Labels
labels_of (labels ls) = ls
labels_of v = []

abbrev conditions_of : Value → List Condition
conditions_of (conditions cs) = cs
conditions_of v = []

abbrev fields_of : Value → Fields
fields_of (object fs) = fs
fields_of v = no_field

abbrev values_of : Value → Values
values_of (array vs) = vs
values_of v = no_value

module _ (parse : String → ℕ) where
  abbrev read_meta : Fields → Meta
  read_meta f = record {
    name = text_of (get "name" f);
    namespace = text_of (get "namespace" f);
    uid = text_of (get "uid" f);
    resource_version = text_of (get "resourceVersion" f);
    labels = labels_of (get "labels" f);
    annotations = labels_of (get "annotations" f);
    creation = parse (text_of (get "creationTime" f));
  }

  abbrev read_terminated : Fields → Terminated
  read_terminated f = record {
    reason = text_of (get "reason" f);
    message = text_of (get "message" f);
    exit_code = number_of (get "exitCode" f);
    started_at = parse (text_of (get "startedAt" f));
    finished_at = parse (text_of (get "finishedAt" f));
  }

  abbrev read_state : Fields → ContainerState
  read_state f =
      let state = text_of (get "state" f) in
      record {
        waiting =
            if str_eq state "waiting"
            then some (text_of (get "reason" f), text_of (get "message" f))
            else none;
        running =
            if str_eq state "running" then some (parse (text_of (get "startedAt" f))) else none;
        terminated = if str_eq state "terminated" then some (read_terminated f) else none;
      }

  abbrev read_statuses : Values → List ContainerStatus
  read_statuses no_value = []
  read_statuses (more v vs) =
      let f = fields_of v in
      record {
        name = text_of (get "name" f);
        ready = flag_of (get "ready" f);
        restart_count = number_of (get "restartCount" f);
        state = read_state (fields_of (get "state" f));
        last_state = read_state (fields_of (get "lastState" f));
      }
      ∷ read_statuses vs

  abbrev pub read_pod : Fields → Pod
  read_pod f = record {
    meta = read_meta (fields_of (get "metadata" f));
    node_name = text_of (get "nodeName" f);
    phase = text_of (get "phase" f);
    reason = text_of (get "reason" f);
    message = text_of (get "message" f);
    conditions = conditions_of (get "conditions" f);
    container_statuses = read_statuses (values_of (get "containerStatuses" f));
  }

-- The member of a container's state that is recorded: the first that is set.
abbrev first_set : Option (String × String) → Option ℕ → Option Terminated → ContainerState
first_set (some w) running terminated = record {
  waiting = some w;
  running = none;
  terminated = none;
}
first_set none (some t) terminated = record { waiting = none; running = some t; terminated = none }
first_set none none terminated = record { waiting = none; running = none; terminated = terminated }

abbrev pub shown : ContainerState → ContainerState
shown c = first_set c.waiting c.running c.terminated

abbrev pub shown_status : ContainerStatus → ContainerStatus
shown_status s = record s { state = shown s.state; last_state = shown s.last_state }

module _ (parse : String → ℕ) (format : ℕ → String) (law : (t : ℕ) → parse (format t) ≡ t) where
  read_state-first_set :
      (waiting : Option (String × String)) (running : Option ℕ) (terminated : Option Terminated)
      → read_state parse (
          fields_of (
            container_state format
              (record { waiting = waiting; running = running; terminated = terminated })))
        ≡ first_set waiting running terminated
  unfolding container_state
  read_state-first_set (some (reason, message)) running terminated = refl
  read_state-first_set none (some t) terminated =
      ap (λ x. record { waiting = none; running = some x; terminated = none }) (law t)
  read_state-first_set none none none = refl
  read_state-first_set none none (some t) = rw (law t.started_at, law t.finished_at) refl

  read_statuses-container_states :
      (ss : List ContainerStatus)
      → read_statuses parse (container_states format ss) ≡ map shown_status ss
  unfolding container_states
  read_statuses-container_states [] = refl
  read_statuses-container_states (s ∷ ss) =
      let one = read_state-first_set s.state.waiting s.state.running s.state.terminated in
      let other =
        read_state-first_set s.last_state.waiting s.last_state.running s.last_state.terminated in
      λ i. record s { state = one i; last_state = other i } ∷ read_statuses-container_states ss i

  -- What is recorded of a pod tells everything that is read of it, but that of each container's
  -- states only the first member of waiting, running and terminated is told: reading it by the names
  -- of the fields gives the pod back, if times can be parsed.
  pub read_pod-pod_state :
      (p : Pod)
      → read_pod parse (pod_state format p)
        ≡ record p { container_statuses = map shown_status p.container_statuses }
  unfolding pod_state metadata_state
  read_pod-pod_state p =
      rw (law p.meta.creation, read_statuses-container_states p.container_statuses) refl
