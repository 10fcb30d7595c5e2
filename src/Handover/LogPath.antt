-- ===== src/Handover/LogPath.antt =====
-- Where the pods' logs are on the node: the operator's daemon set (internal/log-pilot-operator/deploy.go),
-- the agent that it starts (cmd/log-pilot-agent/main.go, logPath of internal/log-pilot-agent/watcher/watcher.go),
-- and the volume that the webhook mounts (internal/log-pilot-api/injector.go).
use logpilot.Prelude.{
  String, str_append, ◌≡◌, refl, sym, ap, ◌∙◌, ◌↔◌, inl, inr, false, not, some, List, [], ◌∷◌,
  str_eq, if-true, if-false, Bool-cases, All,
}
use text.Mathlib.TextLemmas.{append_cancel_right}
use logpilot.Api.{ContainerPolicy}
use logpilot.Operator.LogPilot.{
  LogPilot, EnvSource, value, field_ref, Body, daemon_set, Object, Container,
}
use logpilot.Operator.Deploy.{build_agent_daemon_set, or_default}
use logpilot.Webhook.Injector.{log_host_path, volume_sub_path_expr}
use logpilot.Agent.Program.{agent_config, env_or_default}
use logpilot.Agent.Watcher.Build.{Config, Pod, log_path, slashed}

abbrev containers_of : Body → List Container
containers_of (daemon_set d) = d.template.containers
containers_of b = []

-- A container's variables in its environment; `fields` is the downward API.
abbrev pub Sees : (String → String) → (String → String) → List (String × EnvSource) → Type 0
Sees fields env [] = Unit
Sees fields env ((name, value v) ∷ vars) = (env name ≡ v) × Sees fields env vars
Sees fields env ((name, field_ref f) ∷ vars) = (env name ≡ fields f) × Sees fields env vars

-- `env` is the environment of the agent that runs in a pod of the daemon set.
abbrev pub RunsIn : (String → String) → (String → String) → Object → Type 0
RunsIn fields env o = All (λ (c : Container). Sees fields env c.env) (containers_of o.body)

abbrev pub log_dir_of : LogPilot → String
log_dir_of lp = or_default lp.spec.agent.log_dir "/var/log/log-pilot"

log_dir-nonempty : (lp : LogPilot) → str_eq (log_dir_of lp) "" ≡ false
log_dir-nonempty lp = elim (Bool-cases (str_eq lp.spec.agent.log_dir "")) [
  | inl e ↦ rw e refl
  | inr e ↦ rw e e
]

abbrev pub parts : Pod → ContainerPolicy → List String
parts pod cp = pod.namespace ∷ pod.name ∷ pod.uid ∷ cp.name ∷ cp.log_type ∷ []

agent_config-log_dir :
    (lp : LogPilot) (image : String) (fields env : String → String)
    → RunsIn fields env (build_agent_daemon_set lp image)
    → str_eq (fields "spec.nodeName") "" ≡ false
    → (cfg : Config) × (agent_config env ≡ some cfg) × (cfg.log_dir ≡ log_dir_of lp)
unfolding build_agent_daemon_set agent_config env_or_default
agent_config-log_dir lp image fields env ((node, (namespace, (log_dir, others))), rest) named =
    let named' : str_eq (env "NODE_NAME") "" ≡ false = rw node named in
    let full : str_eq (env "LOG_DIR") "" ≡ false = rw log_dir (log_dir-nonempty lp) in
    (_, if-false _ _ named', if-true _ _ (ap not full) ∙ log_dir)

log_path-slashed :
    (cfg : Config) (pod : Pod) (cp : ContainerPolicy)
    → log_path cfg pod cp
      ≡ str_append cfg.log_dir (str_append "/" (slashed ("LogPilotPolicy" ∷ parts pod cp)))
unfolding log_path slashed
log_path-slashed cfg pod cp = refl

sub_path-guaranteed :
    (cp : ContainerPolicy)
    → str_eq cp.delivery "bestEffort" ≡ false
    → volume_sub_path_expr cp
      ≡ str_append "LogPilotPolicy/$(NAMESPACE)/$(POD_NAME)/$(POD_UID)/"
          (slashed (cp.name ∷ cp.log_type ∷ []))
unfolding volume_sub_path_expr slashed
sub_path-guaranteed cp g = if-false _ _ g

-- An agent that runs in a pod of the operator's daemon set has a configuration, and with it reads a
-- guaranteed policy's logs where the webhook makes the container write them, if and only if the
-- LogPilot's log directory is "/var/log/log-pilot" (or not set). The kubelet expands the sub path
-- with the pod's names; a container's variables and the node's name are set.
pub guaranteed_path_iff :
    (lp : LogPilot) (image : String) (fields env expand : String → String) (pod : Pod)
    (cp : ContainerPolicy)
    → RunsIn fields env (build_agent_daemon_set lp image)
    → str_eq (fields "spec.nodeName") "" ≡ false
    → expand (
        str_append "LogPilotPolicy/$(NAMESPACE)/$(POD_NAME)/$(POD_UID)/"
          (slashed (cp.name ∷ cp.log_type ∷ [])))
      ≡ slashed ("LogPilotPolicy" ∷ parts pod cp)
    → str_eq cp.delivery "bestEffort" ≡ false
    → (cfg : Config) × (agent_config env ≡ some cfg)
      × ((log_path cfg pod cp
            ≡ str_append log_host_path (str_append "/" (expand (volume_sub_path_expr cp))))
          ↔ (log_dir_of lp ≡ log_host_path))
guaranteed_path_iff lp image fields env expand pod cp runs node expands guaranteed =
    let (cfg, started, same) = agent_config-log_dir lp image fields env runs node in
    let tail = str_append "/" (slashed ("LogPilotPolicy" ∷ parts pod cp)) in
    let host : str_append log_host_path (str_append "/" (expand (volume_sub_path_expr cp)))
        ≡ str_append log_host_path tail =
      ap (λ x. str_append log_host_path (str_append "/" x))
        (ap expand (sub_path-guaranteed cp guaranteed) ∙ expands) in
    let agent : log_path cfg pod cp ≡ str_append (log_dir_of lp) tail =
      log_path-slashed cfg pod cp ∙ ap (λ x. str_append x tail) same in
    (
      cfg,
      started,
      (
        (λ e. append_cancel_right _ _ tail (sym agent ∙ e ∙ host)),
        λ e. agent ∙ ap (λ x. str_append x tail) e ∙ sym host,
      ),
    )
