-- ===== src/Tests/Sources.antt =====
-- The Kubernetes inputs at concrete inputs.
use logpilot.Prelude.{
  ℕ, String, ◌≡◌, refl, Bool, true, false, Option, none, some, List, [], ◌∷◌, ◌++◌, ◌==◌,
  if◌then◌else◌,
}
use logpilot.Api.{Bytes}
use logpilot.Agent.Record.{Record}
use logpilot.Agent.Input.Channel.{take_batch}
use logpilot.Agent.Input.Channel.Batch.{Taken, take_batch_lem}
use logpilot.Agent.Input.Events.{
  ApiEvent, EventInput, Listed, list_failed, changed, deleted, Watched, opened, watch_failed,
  new_k8s_event_input, run_namespace, close, list_namespace,
}
use logpilot.Agent.Input.Events.Listing.{
  marshal, always, records, namespace_events, run_namespace-queue,
}
use logpilot.Agent.Input.Events.Restart.{list_in_turn, list_in_turn-queue, close-list_namespace}
use logpilot.Agent.Input.Objects.{list_failed}

abbrev record_one : Record
record_one = record { payload = 1 ∷ []; offset = 0; meta = none }

abbrev record_two : Record
record_two = record { payload = 2 ∷ []; offset = 0; meta = none }

abbrev arrivals : ℕ → List Record
arrivals k = if k == 1 then record_two ∷ [] else []

abbrev stays : ℕ → Bool
stays k = false

take_batch_lem_example :
    Taken arrivals stays 3 0 (record_one ∷ []) (take_batch arrivals stays 3 0 (record_one ∷ []))
take_batch_lem_example = take_batch_lem arrivals stays 3 0 (record_one ∷ [])

abbrev event : String → ApiEvent
event version = record { resource_version = version; body = [] }

abbrev encode : ApiEvent → Bytes
encode ev = 7 ∷ []

abbrev events : EventInput
events =
    new_k8s_event_input (record { namespaces = []; resource_version_path = "/meta/version" }) none

abbrev lists : List (Option String × (Listed × Listed))
lists =
    (some "4", (list_failed, list_failed))
    ∷ (some "", (Listed.listed "5" (event "3" ∷ []), list_failed))
    ∷ []

abbrev rounds : List Watched
rounds = opened (changed (event "6") ∷ deleted ∷ []) ∷ watch_failed ∷ []

run_namespace-queue_example :
    (run_namespace (marshal encode) (always encode) lists rounds events).queue
    ≡ events.queue ++ records encode (namespace_events events.last_resource_version lists rounds)
run_namespace-queue_example = run_namespace-queue encode lists rounds events

abbrev existing : List (String × List ApiEvent)
existing = ("5", event "3" ∷ []) ∷ ("6", event "4" ∷ []) ∷ []

list_in_turn-queue_example :
    (list_in_turn encode existing events).queue ≡ events.queue ++ records encode (event "3" ∷ [])
unfolding new_k8s_event_input
list_in_turn-queue_example =
    list_in_turn-queue encode "5" (event "3" ∷ []) (("6", event "4" ∷ []) ∷ []) events refl
      (refl, (refl, tt))

abbrev read_to_five : EventInput
read_to_five = record events { read_resource_version = "5" }

close-list_namespace_example :
    let n = new_k8s_event_input events.cfg (close true read_to_five none).1 in
    (n.last_resource_version ≡ "5")
    × (list_namespace
          (marshal encode)
          (always encode)
          (Listed.listed "9" (event "7" ∷ []))
          list_failed
          n
        ≡ (record n { last_resource_version = "9" }, true))
    × (n.queue ≡ [])
unfolding new_k8s_event_input
close-list_namespace_example =
    close-list_namespace encode read_to_five none "9" (event "7" ∷ []) list_failed refl refl
