-- ===== src/Tests/Snapshots.antt =====
-- The object state input at concrete inputs.
use logpilot.Prelude.{
  ℕ, zero, suc, ◌+◌, String, str_append, ◌≡◌, refl, ap, ◌∙◌, true, none, some, List, [], ◌∷◌, ◌++◌,
  map, arith,
}
use logpilot.Prelude.Int.{pos}
use logpilot.Api.{Bytes}
use Prim.Native.String.{len}
use text.Mathlib.TextPositions.{len-append}
use logpilot.Agent.Input.Objects.{
  ObjectInput, new_k8s_object_state_input, Round, listed, list_failed, pod_object, other_object,
  collect,
}
use logpilot.Agent.Input.Objects.State.{Value, Pod, pod_state}
use logpilot.Agent.Input.Objects.Queue.{marshal, always, queued, labels_of, sights, collect-queued}
use logpilot.Agent.Input.Objects.Reading.{read_pod, shown_status, read_pod-pod_state}

abbrev web : Pod
web = record {
  meta = record {
    name = "web";
    namespace = "shop";
    uid = "u1";
    resource_version = "4";
    labels = [];
    annotations = [];
    creation = 0;
  };
  node_name = "node";
  phase = "Running";
  reason = "";
  message = "";
  conditions = [];
  container_statuses =
      record {
        name = "app";
        ready = true;
        restart_count = pos 0;
        state = record { waiting = none; running = some 0; terminated = none };
        last_state = record { waiting = none; running = none; terminated = none };
      }
      ∷ [];
}

abbrev input : ObjectInput
input = new_k8s_object_state_input (record { namespaces = []; resources = [] })

abbrev rounds : List Round
rounds =
    list_failed
    ∷ listed (pod_object web ∷ []) (
        some (
          record { type = "MODIFIED"; obj = pod_object web }
          ∷ record { type = "ERROR"; obj = other_object }
          ∷ []))
    ∷ []

abbrev encode : Value → Bytes
encode v = 7 ∷ []

-- A time is as many strokes.
abbrev strokes : ℕ → String
strokes zero = ""
strokes (suc n) = str_append "|" (strokes n)

collect-queued_example :
    queued (
      collect
        (marshal encode strokes (λ i. i))
        strokes
        (λ i. i)
        (always encode strokes (λ i. i))
        rounds
        input)
    ≡ queued input ++ labels_of (sights rounds)
collect-queued_example = collect-queued encode strokes (λ i. i) rounds input

strokes-len : (t : ℕ) → len (strokes t) ≡ t
strokes-len zero = refl
strokes-len (suc t) = len-append "|" (strokes t) ∙ ap (λ n. 1 + n) (strokes-len t) ∙ omega arith

read_pod-pod_state_example :
    read_pod len (pod_state strokes web)
    ≡ record web { container_statuses = map shown_status web.container_statuses }
read_pod-pod_state_example = read_pod-pod_state len strokes strokes-len web
