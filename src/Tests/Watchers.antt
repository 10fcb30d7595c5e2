-- ===== src/Tests/Watchers.antt =====
-- The watcher, its leases and its labels at concrete inputs.
use logpilot.Prelude.{
  ℕ, zero, suc, ◌+◌, String, ◌≡◌, refl, ◌≢◌, ◌↔◌, Bool, true, false, ◌&&◌, none, some, List, [],
  ◌∷◌, map, arith, leb, if◌then◌else◌, All, lookup, has,
}
use logpilot.Prelude.Int.{pos}
use logpilot.Api.{ClusterLogPilotPolicy, ContainerPolicy}
use logpilot.Json.{Json}
use logpilot.Agent.Input.Dir.Persist.{Codec}
use logpilot.Agent.Watcher.Label.{IsLabel, dns1123_name, dns1123_name-IsLabel}
use logpilot.Agent.Watcher.Lease.{
  Lease, found, not_found, accepted, Attempt, acquire_cluster_policy_lease, already_exists,
}
use logpilot.Agent.Watcher.Lease.Safety.{WinsFrom, MadeFrom, acquire_cluster_policy_lease_iff}
use logpilot.Agent.Watcher.Cluster.{ClusterWatcher, reconcile_cluster_policies}
use logpilot.Agent.Watcher.Cluster.Granted.{Tracked, is_granted, reconcile_cluster_policies_lem}
use logpilot.Agent.Watcher.Build.{Config, Pod, System}
use logpilot.Agent.Watcher.Pods.{
  RunnerEntry, Watcher, contains, is_of, on_pod_add, sync_pods, added, closed,
}
use logpilot.Agent.Watcher.Start.{
  Agent, Answers, pod_event, ticked, context_done, Round, not_opened, opened, returned, failed,
  start,
}
use logpilot.Agent.Watcher.Start.Ending.{done_in, start-returned}
use logpilot.Agent.Watcher.Pods.Adding.{Adds, on_pod_add_lem}
use logpilot.Agent.Watcher.Pods.Sync.{is_gone, sync_pods_lem}

-- "-A." in lower case
-- "-A." and its lower case.
abbrev lower_case : List ℕ → List ℕ
lower_case [] = []
lower_case (c ∷ cs) = (if leb 65 c && leb c 90 then c + 32 else c) ∷ lower_case cs

dns1123_name-IsLabel_example : IsLabel (dns1123_name lower_case (45 ∷ 65 ∷ 46 ∷ []))
dns1123_name-IsLabel_example = dns1123_name-IsLabel lower_case (45 ∷ 65 ∷ 46 ∷ [])

-- The node b renewed its lease at the time 0.
abbrev old_lease : Lease
old_lease = record {
  holder = some "b";
  duration = some 30;
  acquire_time = some 0;
  renew_time = some 0;
}

-- First a conflict, and 31 seconds after the renewal an update that is accepted.
abbrev script : ℕ → Attempt
script zero = record { now = 1; got = not_found; checked = 1; answer = already_exists }
script (suc n) = record {
  now = 31000000000;
  got = found old_lease;
  checked = 31000000000;
  answer = accepted;
}

acquire_cluster_policy_lease_iff_example :
    (((acquire_cluster_policy_lease "ns" "a" script).1 ≡ true) ↔ WinsFrom "a" script 3 0)
    × All (MadeFrom "a" script 3 0) (acquire_cluster_policy_lease "ns" "a" script).0
acquire_cluster_policy_lease_iff_example =
    acquire_cluster_policy_lease_iff "ns" "a" script refl refl

abbrev config : Config
config = record {
  node_name = "a";
  namespace = "ns";
  log_dir = "/var/log/log-pilot";
  config_dir = "/etc/log-pilot";
  meta_dir = "/var/lib/log-pilot";
}

abbrev stdout_policy : ContainerPolicy
stdout_policy = record {
  name = "app";
  log_type = "stdout";
  path = "-";
  collector = "";
  delivery = "";
  batch_len = 0;
  batch_size = 0;
  batch_interval = 0;
  input = record { type = ""; batch_len = 0; config = [] };
  transforms = [];
  output = record {
    type = "file";
    batch_len = 0;
    batch_size = 0;
    batch_interval = 0;
    config = ("path", 1 ∷ []) ∷ [];
  };
  clean = record {
    strategy = "";
    retain_days = pos 0;
    interval = 0;
    reserve_file_number = 0;
    reserve_file_size = 0;
  };
}

abbrev codec : Json
codec = record {
  to_string = λ b. some "out.log";
  to_string_map = λ b. none;
  to_strings = λ b. none;
  to_bool = λ b. none;
  to_policies = λ s. some (stdout_policy ∷ []);
  from_policies = λ ps. some "policies";
}

abbrev states : Codec
states = record { encode = λ st. none; decode = λ raw. none }

-- A system that lets everything be made; its state counts the calls.
abbrev system : System ℕ
system = record {
  mkdir_all = λ path s. (s + 1, true);
  remove = λ path s. s + 1;
  symlink = λ target link s. (s + 1, true);
  read_file = λ path s. none;
  dir = λ path. path;
  join = λ parts. "meta";
}

abbrev no_pem : String → Bool
no_pem s = false

abbrev pod : String → Pod
pod uid = record {
  uid = uid;
  name = "web";
  namespace = "default";
  annotations = ("beta.logpilot.io/log-policy", "policies") ∷ [];
}

abbrev empty : Watcher ℕ
empty = record { runners = []; status = []; stopping = []; system = 0 }

abbrev one_pod : Watcher ℕ
one_pod = (on_pod_add system codec states no_pem config empty (pod "u1")).0

on_pod_add_lem_example :
    Adds system codec states no_pem config empty
      (pod "u1")
      (on_pod_add system codec states no_pem config empty (pod "u1"))
on_pod_add_lem_example = on_pod_add_lem system codec states no_pem config empty (pod "u1")

-- The pod u1 is gone, and u2 is new.
sync_pods_lem_example :
    let ((w', seen'), good) =
      sync_pods system codec states no_pem config one_pod ("u1" ∷ []) (some (pod "u2" ∷ [])) in
    (good ≡ true)
    × ((u k : String)
        → is_gone system codec states no_pem config ("u1" ∷ []) (pod "u2" ∷ []) u ≡ true
        → is_of u k ≡ true
        → lookup k w'.runners ≡ none)
    × ((u : String)
        → contains u seen' ≡ true
        → contains u (map (λ (p : Pod). p.uid) (pod "u2" ∷ [])) ≡ true)
    × ((k : String) (e : RunnerEntry)
        → lookup k one_pod.runners ≡ some e
        → ((u : String)
            → is_gone system codec states no_pem config ("u1" ∷ []) (pod "u2" ∷ []) u ≡ true
            → is_of u k ≡ false)
        → lookup k w'.runners ≡ some e)
sync_pods_lem_example =
    sync_pods_lem system codec states no_pem config one_pod ("u1" ∷ []) (pod "u2" ∷ [])

abbrev events : ClusterLogPilotPolicy
events = record {
  name = "events";
  spec = record {
    input = record { type = "k8sEvent"; batch_len = 0; config = [] };
    transforms = [];
    output = stdout_policy.output;
  };
}

abbrev nothing_runs : ClusterWatcher
nothing_runs = record { runners = []; status = [] }

nothing_runs-Tracked : Tracked nothing_runs []
unfolding has lookup
nothing_runs-Tracked k h = ground arith

reconcile_cluster_policies_lem_example :
    let (w', seen') =
      reconcile_cluster_policies codec no_pem system.join config
        (λ name. script)
        (some (events ∷ []))
        nothing_runs
        [] in
    Tracked w' seen'
    × ((k : String)
        → has k w'.runners ≡ true
        → is_granted codec no_pem system.join config
            (λ name. (acquire_cluster_policy_lease "ns" "a" script).1)
            (events ∷ [])
            k
          ≡ true)
reconcile_cluster_policies_lem_example =
    reconcile_cluster_policies_lem codec no_pem system.join config (λ name. script) (events ∷ [])
      nothing_runs [] nothing_runs-Tracked

abbrev answers : Answers
answers = record { leases = λ name. script; policies = some (events ∷ []) }

abbrev rounds : List Round
rounds =
    not_opened false
    ∷ opened (pod_event (added (pod "u1")) ∷ pod_event closed ∷ []) false none false
    ∷ opened (ticked answers ∷ context_done ∷ []) true none true
    ∷ []

abbrev agent : Agent ℕ
agent = record { pods = empty; seen = []; cluster = nothing_runs; cluster_seen = [] }

start-returned_example :
    ((start system codec states no_pem system.join config none answers rounds agent).1 ≡ failed)
    × ((pods : List Pod)
        → ((start system codec states no_pem system.join config (some pods) answers rounds agent).1
            ≢ failed)
          × ((start system codec states no_pem system.join config
                  (some pods)
                  answers
                  rounds
                  agent).1
                ≡ returned
              → done_in rounds ≡ true))
start-returned_example =
    start-returned system codec states no_pem system.join config answers rounds agent
