-- ===== src/Webhook/Injector.antt =====
-- internal/log-pilot-api/injector.go. Of a pod, the fields that the injector reads or writes.
-- `metav1.LabelSelectorAsSelector` with `Matches` is the API machinery's: a selector is the test
-- that it stands for. `json.Marshal` of the policies is a parameter.
pub mod Laws
use logpilot.Prelude.{
  ◌+◌, String, str_append, Bool, true, false, not, ◌||◌, Option, none, some, List, [], ◌∷◌, ◌++◌,
  map, str_eq, if◌then◌else◌, nonempty, keep, insert,
}
use logpilot.Api.{ContainerPolicy, LogPilotPolicySpec, Labels}

-- `value_from` is the field path of the downward API, where the variable has one.
pub record EnvVar : Type 0 where
  pub name : String
  pub field_path : Option String

pub record VolumeMount : Type 0 where
  pub name : String
  pub mount_path : String
  pub sub_path_expr : String

pub data VolumeSource : Type 0 where
  host_path : String → VolumeSource
  empty_dir other : VolumeSource

pub record Volume : Type 0 where
  pub name : String
  pub source : VolumeSource

pub record Container : Type 0 where
  pub name : String
  pub env : List EnvVar
  pub volume_mounts : List VolumeMount

pub record Pod : Type 0 where
  pub labels : Labels
  pub annotations : List (String × String)
  pub containers : List Container
  pub volumes : List Volume

abbrev pub log_volume_name : String
log_volume_name = "log-pilot-logs"

abbrev pub log_host_path : String
log_host_path = "/var/log/log-pilot"

abbrev pub pod_log_policy_annotation : String
pod_log_policy_annotation = "beta.logpilot.io/log-policy"

unfoldable pub matches_policy : Pod → LogPilotPolicySpec → Bool
matches_policy pod spec = elim spec.selector [
  | none ↦ false
  | some selector ↦ elim (selector pod.labels) [ none ↦ false | some b ↦ b ]
]

-- The first loop of `injectPod`.
unfoldable pub collect_policies : Pod → List LogPilotPolicySpec → List ContainerPolicy
unfolding matches_policy
collect_policies pod [] = []
collect_policies pod (p ∷ ps) =
    if matches_policy pod p
    then p.containers ++ collect_policies pod ps
    else collect_policies pod ps

abbrev pub downward_api_env_vars : List EnvVar
downward_api_env_vars =
    record { name = "POD_NAME"; field_path = some "metadata.name" }
    ∷ record { name = "NAMESPACE"; field_path = some "metadata.namespace" }
    ∷ record { name = "POD_UID"; field_path = some "metadata.uid" }
    ∷ []

unfoldable pub has_env : String → List EnvVar → Bool
has_env n [] = false
has_env n (e ∷ es) = str_eq e.name n || has_env n es

-- `existing` is read off the container before the loop.
unfoldable pub inject_env_vars : Container → Container
unfolding has_env
inject_env_vars c = record c {
  env = c.env ++ keep (λ e. not (has_env e.name c.env)) downward_api_env_vars;
}

unfoldable pub volume_sub_path_expr : ContainerPolicy → String
volume_sub_path_expr cp =
    if str_eq cp.delivery "bestEffort"
    then str_append cp.name (str_append "/" cp.log_type)
    else str_append "LogPilotPolicy/$(NAMESPACE)/$(POD_NAME)/$(POD_UID)/"
        (str_append cp.name (str_append "/" cp.log_type))

unfoldable pub is_mounted : String → List VolumeMount → Bool
is_mounted path [] = false
is_mounted path (m ∷ ms) = str_eq m.mount_path path || is_mounted path ms

-- `existing` always holds exactly the paths of the mounts, so the mounts are asked.
unfoldable pub inject_mount : List VolumeMount → ContainerPolicy → List VolumeMount
unfolding is_mounted volume_sub_path_expr
inject_mount ms cp =
    if str_eq cp.path "-" || is_mounted cp.path ms
    then ms
    else ms
      ++ record {
        name = log_volume_name;
        mount_path = cp.path;
        sub_path_expr = volume_sub_path_expr cp;
      }
        ∷ []

unfoldable pub inject_mounts : List VolumeMount → List ContainerPolicy → List VolumeMount
unfolding inject_mount
inject_mounts ms [] = ms
inject_mounts ms (cp ∷ cps) = inject_mounts (inject_mount ms cp) cps

unfoldable pub inject_volume_mounts : Container → List ContainerPolicy → Container
unfolding inject_mounts
inject_volume_mounts c cps = record c { volume_mounts = inject_mounts c.volume_mounts cps }

unfoldable pub has_volume : List Volume → Bool
has_volume [] = false
has_volume (v ∷ vs) = str_eq v.name log_volume_name || has_volume vs

-- The loop that looks for a policy whose delivery is guaranteed.
unfoldable pub any_guaranteed : List ContainerPolicy → Bool
any_guaranteed [] = false
any_guaranteed (cp ∷ cps) =
    if not (str_eq cp.delivery "bestEffort") then true else any_guaranteed cps

unfoldable pub ensure_log_volume : Pod → List ContainerPolicy → Pod
unfolding has_volume any_guaranteed
ensure_log_volume pod cps = if has_volume pod.volumes then pod else record pod {
  volumes =
      pod.volumes
      ++ record {
        name = log_volume_name;
        source = if any_guaranteed cps then host_path log_host_path else empty_dir;
      }
        ∷ [];
}

-- One round of the loop over the pod's containers.
unfoldable pub inject_container : List ContainerPolicy → Container → Container
unfolding inject_env_vars inject_volume_mounts
inject_container cps c =
    let matched = keep (λ (cp : ContainerPolicy). str_eq cp.name c.name) cps in
    if not (nonempty matched) then c else inject_volume_mounts (inject_env_vars c) matched

-- `injectPod`; `none` is its error.
unfoldable pub inject_pod :
    (List ContainerPolicy → Option String) → Pod → List LogPilotPolicySpec → Option Pod
unfolding collect_policies inject_container ensure_log_volume
inject_pod marshal pod policies =
    let cps = collect_policies pod policies in
    if not (nonempty cps)
    then some pod
    else let pod' =
        ensure_log_volume (record pod { containers = map (inject_container cps) pod.containers })
          cps in
      elim (marshal cps) [
        | none ↦ none
        | some raw ↦
            some
              (record pod' { annotations = insert pod_log_policy_annotation raw pod'.annotations })
      ]
