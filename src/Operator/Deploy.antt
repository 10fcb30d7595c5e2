-- ===== src/Operator/Deploy.antt =====
-- internal/log-pilot-operator/deploy.go: the objects that the operator builds for a LogPilot.
pub mod Keys
use logpilot.Prelude.{
  ℕ, zero, String, str_append, true, false, none, some, List, [], ◌∷◌, ◌++◌, str_eq, if◌then◌else◌,
}
use logpilot.Prelude.Int.{ℤ, pos}
use logpilot.Api.{Labels}
use logpilot.Operator.LogPilot.{
  LogPilot, ObjectMeta, PolicyRule, value, field_ref, service_account, service, cluster_role,
  cluster_role_binding, mutating_webhook, deployment, daemon_set, Object,
}

abbrev pub api_name : String
api_name = "log-pilot-api"

abbrev pub agent_name : String
agent_name = "log-pilot-agent"

abbrev pub webhook_port : ℕ
webhook_port = 8443

abbrev labels_of : String → String → Labels
labels_of name component =
    ("app.kubernetes.io/name", name) ∷ ("app.kubernetes.io/component", component) ∷ []

-- An object's name and namespace, all that a builder sets of its meta data.
abbrev pub named : String → String → ObjectMeta
named name namespace = record {
  name = name;
  namespace = namespace;
  resource_version = "";
  owners = [];
}

abbrev pub or_default : String → String → String
or_default text fallback = if str_eq text "" then fallback else text

unfoldable pub default_replicas : ℤ → ℤ
default_replicas (pos zero) = pos 2
default_replicas n = n

unfoldable pub build_api_deployment : LogPilot → String → Object
unfolding default_replicas
build_api_deployment lp image = record {
  meta = named api_name lp.namespace;
  body = deployment (record {
    replicas = default_replicas lp.spec.api.replicas;
    match_labels = labels_of api_name "webhook";
    template = record {
      labels = labels_of api_name "webhook";
      service_account_name = api_name;
      run_as = none;
      containers =
          record {
            name = api_name;
            image = image;
            command = "/usr/local/bin/log-pilot-api" ∷ [];
            resources = lp.spec.api.resources;
            ports = ("https", webhook_port) ∷ [];
            env = [];
            volume_mounts = [];
          }
          ∷ [];
      volumes = [];
    };
  });
}

unfoldable pub build_agent_daemon_set : LogPilot → String → Object
build_agent_daemon_set lp image =
    let log_dir = or_default lp.spec.agent.log_dir "/var/log/log-pilot" in
    let meta_dir = or_default lp.spec.agent.meta_dir "/var/lib/log-pilot-agent" in
    record {
      meta = named agent_name lp.namespace;
      body = daemon_set (record {
        match_labels = labels_of agent_name "agent";
        template = record {
          labels = labels_of agent_name "agent";
          service_account_name = agent_name;
          run_as = some (0, 0);
          containers =
              record {
                name = agent_name;
                image = image;
                command = "/usr/local/bin/log-pilot-agent" ∷ [];
                resources = lp.spec.agent.resources;
                ports = [];
                env =
                    ("NODE_NAME", field_ref "spec.nodeName")
                    ∷ ("POD_NAMESPACE", field_ref "metadata.namespace")
                    ∷ ("LOG_DIR", value log_dir)
                    ∷ ("META_DIR", value meta_dir)
                    ∷ [];
                volume_mounts =
                    record { name = "log-dir"; mount_path = log_dir; read_only = false }
                    ∷ record { name = "meta-dir"; mount_path = meta_dir; read_only = false }
                    ∷ record { name = "pod-logs"; mount_path = "/var/log/pods"; read_only = true }
                    ∷ record { name = "kubelet"; mount_path = "/var/lib/kubelet"; read_only = true }
                    ∷ [];
              }
              ∷ [];
          volumes =
              record { name = "log-dir"; path = log_dir }
              ∷ record { name = "meta-dir"; path = meta_dir }
              ∷ record { name = "pod-logs"; path = "/var/log/pods" }
              ∷ record { name = "kubelet"; path = "/var/lib/kubelet" }
              ∷ [];
        };
      });
    }

unfoldable pub build_service_account : LogPilot → String → Object
build_service_account lp name = record { meta = named name lp.namespace; body = service_account }

unfoldable pub build_api_service : LogPilot → Object
build_api_service lp = record {
  meta = named api_name lp.namespace;
  body = service (record {
    selector = labels_of api_name "webhook";
    ports = record { name = "https"; port = webhook_port; target_port = webhook_port } ∷ [];
    cluster_ip = "";
    cluster_ips = [];
    ip_families = [];
    ip_family_policy = none;
  });
}

abbrev read_verbs : List String
read_verbs = "get" ∷ "list" ∷ "watch" ∷ []

abbrev all_verbs : List String
all_verbs = "get" ∷ "list" ∷ "watch" ∷ "create" ∷ "update" ∷ "patch" ∷ "delete" ∷ []

abbrev rule : String → List String → List String → PolicyRule
rule group resources verbs = record {
  api_groups = group ∷ [];
  resources = resources;
  verbs = verbs;
}

abbrev pub role_name : LogPilot → String → String
role_name lp name = str_append lp.namespace (str_append "-" name)

unfoldable pub build_api_cluster_role : LogPilot → Object
build_api_cluster_role lp = record {
  meta = named (role_name lp api_name) "";
  body = cluster_role (
      rule "" ("secrets" ∷ "configmaps" ∷ "events" ∷ []) all_verbs
      ∷ rule "coordination.k8s.io" ("leases" ∷ []) all_verbs
      ∷ rule "logpilot.logpilot.jimyag.com" ("logpilotpolicies" ∷ []) read_verbs
      ∷ rule "admissionregistration.k8s.io" ("mutatingwebhookconfigurations" ∷ [])
          ("get" ∷ "list" ∷ "watch" ∷ "update" ∷ "patch" ∷ [])
      ∷ []);
}

abbrev bind_role : LogPilot → String → Object
bind_role lp name = record {
  meta = named (role_name lp name) "";
  body =
      cluster_role_binding
        (record {
          api_group = "rbac.authorization.k8s.io";
          kind = "ClusterRole";
          name = role_name lp name;
        })
        (record { kind = "ServiceAccount"; name = name; namespace = lp.namespace } ∷ []);
}

unfoldable pub build_api_cluster_role_binding : LogPilot → Object
build_api_cluster_role_binding lp = bind_role lp api_name

unfoldable pub build_agent_cluster_role : LogPilot → Object
build_agent_cluster_role lp = record {
  meta = named (role_name lp agent_name) "";
  body = cluster_role (
      rule "" ("pods" ∷ "nodes" ∷ "events" ∷ []) read_verbs
      ∷ rule "apps" ("deployments" ∷ "statefulsets" ∷ "daemonsets" ∷ []) read_verbs
      ∷ rule "batch" ("jobs" ∷ []) read_verbs
      ∷ rule "coordination.k8s.io" ("leases" ∷ [])
          ("get" ∷ "list" ∷ "watch" ∷ "create" ∷ "update" ∷ "patch" ∷ [])
      ∷ rule "logpilot.logpilot.jimyag.com" ("clusterlogpilotpolicies" ∷ []) read_verbs
      ∷ []);
}

unfoldable pub build_agent_cluster_role_binding : LogPilot → Object
build_agent_cluster_role_binding lp = bind_role lp agent_name

unfoldable pub build_mutating_webhook : LogPilot → Object
build_mutating_webhook lp = record {
  meta = named api_name "";
  body = mutating_webhook (
      record {
        name = "pods.logpilot.jimyag.com";
        admission_review_versions = "v1" ∷ [];
        side_effects = "None";
        failure_policy = "Ignore";
        service = record {
          name = api_name;
          namespace = lp.namespace;
          path = "/mutate-pod";
          port = webhook_port;
        };
        ca_bundle = [];
        rules =
            record {
              operations = "CREATE" ∷ [];
              api_groups = "" ∷ [];
              api_versions = "v1" ∷ [];
              resources = "pods" ∷ [];
            }
            ∷ [];
      }
      ∷ []);
}

unfoldable pub build_support_objects : LogPilot → List Object
unfolding build_service_account build_api_service build_api_cluster_role
    build_api_cluster_role_binding build_agent_cluster_role build_agent_cluster_role_binding
    build_mutating_webhook
build_support_objects lp =
    build_service_account lp api_name
    ∷ build_service_account lp agent_name
    ∷ build_api_service lp
    ∷ build_api_cluster_role lp
    ∷ build_api_cluster_role_binding lp
    ∷ build_agent_cluster_role lp
    ∷ build_agent_cluster_role_binding lp
    ∷ build_mutating_webhook lp
    ∷ []

unfoldable pub build_managed_objects : LogPilot → String → String → List Object
unfolding build_support_objects build_api_deployment build_agent_daemon_set
build_managed_objects lp api_image agent_image =
    build_support_objects lp
    ++ build_api_deployment lp api_image ∷ build_agent_daemon_set lp agent_image ∷ []
