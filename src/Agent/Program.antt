-- ===== src/Agent/Program.antt =====
-- cmd/log-pilot-agent/main.go: the watcher's configuration from the environment, which is a function
-- from a variable's name to its value, empty where it is not set.
use logpilot.Prelude.{String, not, Option, none, some, str_eq, if◌then◌else◌}
use logpilot.Agent.Watcher.Build.{Config}

unfoldable pub env_or_default : (String → String) → String → String → String
env_or_default env name fallback = if not (str_eq (env name) "") then env name else fallback

-- None where the node's name is not set: the program ends.
unfoldable pub agent_config : (String → String) → Option Config
unfolding env_or_default
agent_config env =
    if str_eq (env "NODE_NAME") ""
    then none
    else some (record {
      node_name = env "NODE_NAME";
      namespace = env_or_default env "POD_NAMESPACE" "default";
      log_dir = env_or_default env "LOG_DIR" "/var/log/log-pilot";
      config_dir = env_or_default env "CONFIG_DIR" "/var/lib/log-pilot-agent/conf";
      meta_dir = env_or_default env "META_DIR" "/var/lib/log-pilot-agent/meta";
    })
