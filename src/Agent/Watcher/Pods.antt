-- ===== src/Agent/Watcher/Pods.antt =====
-- `OnPodAdd`, `onPodDeleted`, `syncPods` and the pod events of `consumePodWatch`, of
-- internal/log-pilot-agent/watcher/watcher.go. They run in one goroutine; the runners' own
-- goroutines only report to the status server, and the first report is taken before the runner has read.
-- An event of the type watch.Error whose object is no pod is `not_a_pod`, as any such event. `stopping` are the runners whose stop was asked for
-- in a goroutine of their own. A `map[string]bool` that only holds true is the list of its keys.
pub mod Keys
pub mod Adding
pub mod Sync
use logpilot.Prelude.{
  String, str_append, Bool, true, false, not, ◌&&◌, ◌||◌, Option, none, some, List, [], ◌∷◌, ◌++◌,
  map, str_eq, starts_with, if◌then◌else◌, nonempty, keep, insert, has,
}
use logpilot.Prelude.Int.{pos}
use logpilot.Api.{ContainerPolicy}
use logpilot.Json.{Json, ok, err}
use logpilot.Agent.Status.{Server, update_runner}
use logpilot.Agent.Input.Dir.Persist.{Codec}
use logpilot.Agent.Watcher.Build.{
  Config, Pod, System, Built, runner_key, log_path, parse_policies_from_pod, ensure_log_path,
  build_runner,
}

pub record RunnerEntry : Type 0 where
  pub runner : Built
  pub log_path : String

pub record Watcher (S : Type 0) : Type 0 where
  pub runners : List (String × RunnerEntry)
  pub status : Server
  pub stopping : List (String × RunnerEntry)
  pub system : S

pub data Event : Type 0 where
  added modified deleted bookmark watch_error : Pod → Event
  not_a_pod closed : Event

unfoldable pub contains : String → List String → Bool
contains uid [] = false
contains uid (u ∷ us) = str_eq u uid || contains uid us

unfoldable pub remove_key : String → List String → List String
remove_key uid us = keep (λ u. not (str_eq u uid)) us

-- `strings.HasPrefix(key, podUID+"/")`
abbrev pub is_of : String → String → Bool
is_of uid key = starts_with key (str_append uid "/")

module _ {S : Type 0} (sys : System S) (json : Json) (codec : Codec) (usable : String → Bool)
    (cfg : Config) where
  -- One round of the loop of `OnPodAdd`; the flag is false where it clears `allReady`.
  unfoldable pub add_policy : Watcher S → Pod → ContainerPolicy → Watcher S × Bool
  add_policy w pod cp =
      let key = runner_key pod.uid cp.name cp.log_type in
      let path = log_path cfg pod cp in
      if has key w.runners
      then (w, true)
      else let (system, ensured) = ensure_log_path sys pod cp path w.system in
        if not ensured
        then (record w { system = system }, false)
        else elim (build_runner sys json codec usable cp path pod.uid cfg system) [
          | err e ↦ (record w { system = system }, false)
          | ok r ↦ (
            record w {
              system = system;
              runners = insert key (record { runner = r; log_path = path }) w.runners;
              status = update_runner key (pos r.input.lag) 0 w.status;
            },
            true,
          )
        ]

  unfoldable pub add_policies : Watcher S → Pod → List ContainerPolicy → Watcher S × Bool
  unfolding add_policy
  add_policies w pod [] = (w, true)
  add_policies w pod (cp ∷ cps) =
      let (w', ready) = add_policy w pod cp in
      let (w'', rest) = add_policies w' pod cps in (w'', ready && rest)

  unfoldable pub on_pod_add : Watcher S → Pod → Watcher S × Bool
  unfolding add_policies
  on_pod_add w pod = elim (parse_policies_from_pod json pod) [
    | none ↦ (w, true)
    | some cps ↦ if not (nonempty cps) then (w, true) else add_policies w pod cps
  ]

  -- The goroutines that wait for the runners are started, not run.
  unfoldable pub on_pod_deleted : Watcher S → String → Watcher S
  on_pod_deleted w uid = record w {
    runners = keep (λ (p : String × RunnerEntry). not (is_of uid p.0)) w.runners;
    stopping = w.stopping ++ keep (λ (p : String × RunnerEntry). is_of uid p.0) w.runners;
  }

  -- A pod that is listed, added or modified.
  unfoldable pub see_pod : Watcher S → List String → Pod → Watcher S × List String
  unfolding on_pod_add contains
  see_pod w seen pod =
      if contains pod.uid seen
      then (w, seen)
      else let (w', ready) = on_pod_add w pod in if ready then (w', pod.uid ∷ seen) else (w', seen)

  -- The first loop of `syncPods`.
  unfoldable pub see_pods : Watcher S → List String → List Pod → Watcher S × List String
  unfolding see_pod
  see_pods w seen [] = (w, seen)
  see_pods w seen (p ∷ ps) = let (w', seen') = see_pod w seen p in see_pods w' seen' ps

  -- The second, over the keys of `seen`.
  unfoldable pub drop_gone :
      List String → List String → Watcher S → List String → Watcher S × List String
  unfolding on_pod_deleted contains remove_key
  drop_gone current [] w seen = (w, seen)
  drop_gone current (uid ∷ uids) w seen =
      if contains uid current
      then drop_gone current uids w seen
      else drop_gone current uids (on_pod_deleted w uid) (remove_key uid seen)

  -- `none` is an error of `List`; the flag is whether the sync ended well.
  unfoldable pub sync_pods :
      Watcher S → List String → Option (List Pod) → (Watcher S × List String) × Bool
  unfolding see_pods drop_gone
  sync_pods w seen none = ((w, seen), false)
  sync_pods w seen (some pods) =
      let (w', seen') = see_pods w seen pods in
      (drop_gone (map (λ (p : Pod). p.uid) pods) seen' w' seen', true)

  -- One event of `consumePodWatch`; the flag is whether the loop goes on.
  unfoldable pub on_event : Watcher S → List String → Event → (Watcher S × List String) × Bool
  unfolding see_pod on_pod_deleted remove_key
  on_event w seen (added pod) = (see_pod w seen pod, true)
  on_event w seen (modified pod) = (see_pod w seen pod, true)
  on_event w seen (deleted pod) = ((on_pod_deleted w pod.uid, remove_key pod.uid seen), true)
  on_event w seen (bookmark pod) = ((w, seen), true)
  on_event w seen (watch_error pod) = ((w, seen), false)
  on_event w seen not_a_pod = ((w, seen), true)
  on_event w seen closed = ((w, seen), false)
