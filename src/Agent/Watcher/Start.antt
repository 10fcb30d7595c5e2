-- ===== src/Agent/Watcher/Start.antt =====
-- `Start`, `consumePodWatch`, `New` and `StopAll` of internal/log-pilot-agent/watcher/watcher.go. The code has one
-- map of runners and one status server for pods and cluster policies; here the map is in two
-- parts, and the status is handed over. The API server, the ticker and the context are a script: what each
-- select gets, and what each call answers. The end of the script is a loop that still waits.
pub mod Ending
use logpilot.Prelude.{
  ℕ, ◌+◌, String, Bool, not, ◌&&◌, Option, List, [], ◌∷◌, ◌++◌, map, if◌then◌else◌, all,
}
use logpilot.Api.{ClusterLogPilotPolicy}
use logpilot.Json.{Json}
use logpilot.Agent.Status.{Server}
use logpilot.Agent.Input.Dir.Persist.{Codec}
use logpilot.Agent.Watcher.Build.{Config, Pod, System}
use logpilot.Agent.Watcher.Lease.{Attempt}
use logpilot.Agent.Watcher.Pods.{RunnerEntry, Watcher, Event, sync_pods, on_event}
use logpilot.Agent.Watcher.Cluster.{ClusterWatcher, ClusterRunner, reconcile_cluster_policies}

pub record Agent (S : Type 0) : Type 0 where
  pub pods : Watcher S
  pub seen : List String
  pub cluster : ClusterWatcher
  pub cluster_seen : List String

-- `New`, and the two maps that `Start` makes.
unfoldable pub new_agent : {S : Type 0} → Server → S → Agent S
new_agent status system = record {
  pods = record { runners = []; status = status; stopping = []; system = system };
  seen = [];
  cluster = record { runners = []; status = status };
  cluster_seen = [];
}

-- What the API server answers about the cluster policies: the leases' script, and the list.
pub record Answers : Type 0 where
  pub leases : String → ℕ → Attempt
  pub policies : Option (List ClusterLogPilotPolicy)

-- What one select of `consumePodWatch` gets.
pub data Turn : Type 0 where
  pod_event : Event → Turn
  ticked : Answers → Turn
  context_done : Turn

-- One round of the loop of `Start`: a watch that cannot be opened, and whether the context is done then
-- or in the wait; or a watch with its turns, and for the case that it breaks whether the context is
-- done, what `List` answers, and whether the context is done after it.
pub data Round : Type 0 where
  not_opened : Bool → Round
  opened : List Turn → Bool → Option (List Pod) → Bool → Round

-- `nil` or an error is returned, or the script is over.
pub data Ended : Type 0 where
  returned failed waiting : Ended

module _ {S : Type 0} (sys : System S) (json : Json) (codec : Codec) (usable : String → Bool)
    (join : List String → String) (cfg : Config) where
  unfoldable pub reconcile_cluster : Answers → Agent S → Agent S
  unfolding reconcile_cluster_policies
  reconcile_cluster answers a =
      let (cluster, seen) =
        reconcile_cluster_policies json usable join cfg answers.leases answers.policies
          (record a.cluster { status = a.pods.status }) a.cluster_seen in
      record a {
        pods = record a.pods { status = cluster.status };
        cluster = cluster;
        cluster_seen = seen;
      }

  unfoldable pub consume_pod_watch : List Turn → Agent S → Agent S × Ended
  unfolding on_event reconcile_cluster
  consume_pod_watch [] a = (a, waiting)
  consume_pod_watch (context_done ∷ turns) a = (a, returned)
  consume_pod_watch (ticked answers ∷ turns) a =
      consume_pod_watch turns (reconcile_cluster answers a)
  consume_pod_watch (pod_event ev ∷ turns) a =
      let ((w, seen), on) = on_event sys json codec usable cfg a.pods a.seen ev in
      let a' = record a { pods = w; seen = seen } in
      let rest = consume_pod_watch turns a' in if on then rest else (a', failed)

  abbrev pub resync : Option (List Pod) → Agent S → Agent S × Bool
  resync listing a =
      let ((w, seen), good) = sync_pods sys json codec usable cfg a.pods a.seen listing in
      (record a { pods = w; seen = seen }, good)

  -- The loop of `Start` behind a watch: how it ended, whether the context is done, what the sync
  -- made, whether the context is done then, and what the further rounds make.
  abbrev pub after_watch :
      Agent S → Ended → Bool → Agent S × Bool → Bool → Agent S × Ended → Agent S × Ended
  after_watch a returned gone synced gone_after rest = (a, returned)
  after_watch a waiting gone synced gone_after rest = (a, waiting)
  after_watch a failed gone (a', good) gone_after rest =
      if gone then (a, returned) else if not good && gone_after then (a', returned) else rest

  unfoldable pub watch_loop : List Round → Agent S → Agent S × Ended
  unfolding consume_pod_watch sync_pods
  watch_loop [] a = (a, waiting)
  watch_loop (not_opened gone ∷ rounds) a =
      let rest = watch_loop rounds a in if gone then (a, returned) else rest
  watch_loop (opened turns gone listing gone_after ∷ rounds) a =
      let (a', ended) = consume_pod_watch turns a in
      let synced = resync listing a' in
      after_watch a' ended gone synced gone_after (watch_loop rounds synced.0)

  unfoldable pub start : Option (List Pod) → Answers → List Round → Agent S → Agent S × Ended
  unfolding watch_loop
  start listing answers rounds a =
      let (a', good) = resync listing a in
      if not good then (a', failed) else watch_loop rounds (reconcile_cluster answers a')

-- `StopAll`: the runners of both parts are asked to stop; `done` says of each whether it is done before 30
-- seconds are over. The flag is whether it waited for all.
unfoldable pub stop_all : {S : Type 0} → (String → Bool) → Agent S → List String × Bool
stop_all finishes a =
    let keys =
      map (λ (p : String × RunnerEntry). p.0) a.pods.runners
      ++ map (λ (p : String × ClusterRunner). p.0) a.cluster.runners in
    (keys, all finishes keys)
