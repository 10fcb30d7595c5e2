-- ===== src/Agent/Watcher/Build.antt =====
-- `ensureLogPath` of internal/log-pilot-agent/watcher/symlink.go, and `logPath`, `runnerKey`,
-- `parsePoliciesFromPod` and `buildRunner` of watcher.go. The operating system and path/filepath
-- are parameters; the system's state is `S`.
use logpilot.Prelude.{
  ℕ, String, str_append, Bool, false, not, Option, none, some, List, [], ◌∷◌, str_eq, ◌==◌,
  if◌then◌else◌, nonempty, lookup,
}
use logpilot.Api.{Bytes, ContainerPolicy}
use logpilot.Json.{Json, Result, ok, ◌>>=◌}
use logpilot.Agent.Transform.{Transform, new_slice_from_specs}
use logpilot.Agent.Output.{Output}
use logpilot.Agent.Output
use logpilot.Agent.Clean.{Clean}
use logpilot.Agent.Clean
use logpilot.Agent.Input.Dir.{DirInput}
use logpilot.Agent.Input.Dir.Persist.{Codec, new_dir_input}

pub record Config : Type 0 where
  pub node_name : String
  pub namespace : String
  pub log_dir : String
  pub config_dir : String
  pub meta_dir : String

-- Of a pod, what the watcher reads.
pub record Pod : Type 0 where
  pub uid : String
  pub name : String
  pub namespace : String
  pub annotations : List (String × String)

pub record System (S : Type 0) : Type 0 where
  pub mkdir_all : String → S → S × Bool
  pub remove : String → S → S
  pub symlink : String → String → S → S × Bool
  pub read_file : String → S → Option Bytes
  pub dir : String → String
  pub join : List String → String

-- A runner's configuration, as `runner.New` takes it.
pub record Built : Type 0 where
  pub name : String
  pub input : DirInput
  pub transforms : List Transform
  pub output : Output
  pub clean : Clean
  pub batch_len : ℕ

-- The parts with a slash before each but the first.
unfoldable pub slashed : List String → String
slashed [] = ""
slashed (p ∷ ps) = if nonempty ps then str_append p (str_append "/" (slashed ps)) else p

unfoldable pub runner_key : String → String → String → String
unfolding slashed
runner_key uid container log_type = slashed (uid ∷ container ∷ log_type ∷ [])

unfoldable pub log_path : Config → Pod → ContainerPolicy → String
unfolding slashed
log_path cfg pod cp = slashed (
    cfg.log_dir ∷ "LogPilotPolicy" ∷ pod.namespace ∷ pod.name ∷ pod.uid ∷ cp.name ∷ cp.log_type
    ∷ [])

abbrev pub pod_log_policy_annotation : String
pod_log_policy_annotation = "beta.logpilot.io/log-policy"

-- A read of a missing annotation gives the empty string; `none` is the error.
unfoldable pub parse_policies_from_pod : Json → Pod → Option (List ContainerPolicy)
parse_policies_from_pod json pod =
    let ann : String = elim (lookup pod_log_policy_annotation pod.annotations) [
      | none ↦ ""
      | some a ↦ a
    ] in
    if str_eq ann "" then some [] else json.to_policies ann

module _ {S : Type 0} (sys : System S) where
  unfoldable pub force_symlink : String → String → S → S × Bool
  force_symlink target link s = sys.symlink target link (sys.remove link s)

  unfoldable pub ensure_log_path : Pod → ContainerPolicy → String → S → S × Bool
  unfolding force_symlink slashed
  ensure_log_path pod cp path s =
      let (s', made) = sys.mkdir_all (sys.dir path) s in
      if not made
      then (s', false)
      else if str_eq cp.path "-"
      then force_symlink
          (str_append "/var/log/pods/" (
            str_append pod.namespace (
              str_append "_"
                (str_append pod.name (str_append "_" (slashed (pod.uid ∷ cp.name ∷ [])))))))
          path s'
      else if str_eq cp.delivery "bestEffort"
      then force_symlink
          (slashed (
            "/var/lib/kubelet/pods" ∷ pod.uid ∷ "volumes/kubernetes.io~empty-dir/log-pilot-logs"
            ∷ cp.name ∷ cp.log_type ∷ []))
          path s'
      else sys.mkdir_all path s'

  module _ (json : Json) (codec : Codec) (usable : String → Bool) where
    unfoldable pub build_runner : ContainerPolicy → String → String → Config → S → Result Built
    build_runner cp path uid cfg s =
        let batch_len = if cp.batch_len == 0 then 1000 else cp.batch_len in
        let meta_path = sys.join (
          cfg.meta_dir
          ∷ "LogPilotPolicy"
          ∷ uid
          ∷ str_append cp.name (str_append "_" (str_append cp.log_type "_dir.json"))
          ∷ []) in
        let input =
          new_dir_input codec
            (record {
              dir = path;
              meta_path = meta_path;
              read_from = "oldest";
              offset_commit_every = 1000;
            })
            [] [] (sys.read_file meta_path s) in
        new_slice_from_specs json cp.transforms >>= λ transforms.
        Output.new_from_spec json usable cp.output >>= λ output. ok (record {
          name = slashed (cp.name ∷ cp.log_type ∷ []);
          input = input;
          transforms = transforms;
          output = output;
          clean = Clean.new_from_spec cp.clean;
          batch_len = batch_len;
        })
