-- ===== src/Tests/Cluster.antt =====
-- The operator's theorems at concrete inputs.
use logpilot.Prelude.{
  String, str_append, ◌≡◌, refl, ◌≢◌, ◌↔◌, inl, inr, Bool, true, false, none, some, List, [], ◌∷◌,
  str_eq, if◌then◌else◌, All,
}
use logpilot.Prelude.Int.{pos}
use logpilot.Api.{ContainerPolicy}
use logpilot.Operator.LogPilot.{LogPilot, Object, Key, object_key}
use logpilot.Operator.Deploy.{
  build_managed_objects, build_agent_daemon_set, build_agent_cluster_role, build_support_objects,
  build_api_deployment, build_service_account, build_api_service, build_api_cluster_role,
  build_api_cluster_role_binding, build_agent_cluster_role_binding, build_mutating_webhook,
}
use logpilot.Operator.Reconcile.Upsert.{Installed}
use logpilot.Operator.Controller.{log_pilot_finalizer, reconcile, api_image_of, agent_image_of}
use logpilot.Operator.Controller.Finalize.{reconcile_deleting, Finalized}
use logpilot.Operator.Controller.Install.{reconcile_installs}
use logpilot.Operator.Controller.Progress.{reconcile_twice, Done, Ready}
use logpilot.Webhook.Injector.{log_host_path, volume_sub_path_expr}
use logpilot.Agent.Program.{agent_config}
use logpilot.Agent.Watcher.Build.{Config, Pod, log_path, slashed}
use logpilot.Agent.Input.Objects.{ObjectConfig, Collector, run}
use logpilot.Handover.LogPath.{log_dir_of, guaranteed_path_iff}
use logpilot.Handover.Access.{Allows, asked_by, standing, agent_cluster_role-Allows}
use logpilot.Tests.Store.{Store, client, Stored, client-IsClient, client-IsUp}

abbrev pilot : Bool → List String → LogPilot
pilot deleting finalizers = record {
  name = "main";
  namespace = "logs";
  deleting = deleting;
  finalizers = finalizers;
  spec = record {
    agent = record {
      config_dir = "";
      meta_dir = "";
      log_dir = "/data/logs";
      self_log = record { dir = ""; reserve_count = pos 0 };
      resources = record { limits = []; requests = [] };
    };
    api = record { replicas = pos 0; resources = record { limits = []; requests = [] } };
  };
}

abbrev with_finalizer : Bool → LogPilot
with_finalizer deleting = pilot deleting (log_pilot_finalizer ∷ [])

abbrev behind_six : List Object → List Object
behind_six (a ∷ b ∷ c ∷ d ∷ e ∷ f ∷ os) = os
behind_six os = []

-- A store that holds a LogPilot, and the last four of its objects.
abbrev stored_objects : LogPilot → List Object
stored_objects lp = behind_six (build_managed_objects lp "" "")

abbrev holding : LogPilot → Store
holding lp = record { objects = stored_objects lp; pilot = some lp }

reconcile_deleting_example :
    Finalized client "logs" "main"
      (with_finalizer true)
      (build_managed_objects (with_finalizer true) "" "")
      (reconcile client "logs" "main" "" "" (holding (with_finalizer true)))
reconcile_deleting_example =
    reconcile_deleting client Stored client-IsClient "logs" "main" "" "" "" ""
      (holding (with_finalizer true)) (with_finalizer true) refl refl refl

reconcile_installs_example :
    let (s', good) = reconcile client "logs" "main" "" "" (holding (with_finalizer false)) in
    let os = build_managed_objects (with_finalizer false) (api_image_of "") (agent_image_of "") in
    (good ≡ true → All (Installed client Stored s') os)
    × ((k : Key)
        → All (λ (o : Object). k ≢ object_key o) os
        → client.get k s' ≡ client.get k (holding (with_finalizer false)))
reconcile_installs_example =
    reconcile_installs client Stored client-IsClient "logs" "main" "" ""
      (holding (with_finalizer false)) (with_finalizer false) refl refl refl

managed-Ready :
    All
      (Ready client (holding (pilot false [])))
      (build_managed_objects (pilot false []) (api_image_of "") (agent_image_of ""))
unfolding build_managed_objects build_support_objects build_api_deployment build_agent_daemon_set
    build_service_account build_api_service build_api_cluster_role build_api_cluster_role_binding
    build_agent_cluster_role build_agent_cluster_role_binding build_mutating_webhook
managed-Ready = (
  inl refl,
  (
    inl refl,
    (
      inl refl,
      (
        inl refl,
        (
          inl refl,
          (
            inl refl,
            (
              inr (_, refl, refl),
              (inr (_, refl, tt), (inr (_, refl, refl), (inr (_, refl, refl), tt))),
            ),
          ),
        ),
      ),
    ),
  ),
)

reconcile_twice_example :
    Done client Stored
      (pilot false [])
      ""
      ""
      (reconcile client "logs" "main" "" "" (holding (pilot false []))).0
reconcile_twice_example =
    reconcile_twice client Stored client-IsClient client-IsUp "" "" (holding (pilot false []))
      (pilot false []) refl refl refl managed-Ready

abbrev policy : ContainerPolicy
policy = record {
  name = "app";
  log_type = "access";
  path = "/logs";
  collector = "";
  delivery = "guaranteed";
  batch_len = 0;
  batch_size = 0;
  batch_interval = 0;
  input = record { type = ""; batch_len = 0; config = [] };
  transforms = [];
  output = record { type = "file"; batch_len = 0; batch_size = 0; batch_interval = 0; config = [] };
  clean = record {
    strategy = "";
    retain_days = pos 0;
    interval = 0;
    reserve_file_number = 0;
    reserve_file_size = 0;
  };
}

abbrev pod : Pod
pod = record { uid = "u1"; name = "web"; namespace = "shop"; annotations = [] }

abbrev fields : String → String
fields path = if str_eq path "spec.nodeName" then "node" else "logs"

abbrev environment : String → String
environment name =
    if str_eq name "NODE_NAME"
    then "node"
    else if str_eq name "POD_NAMESPACE"
    then "logs"
    else if str_eq name "LOG_DIR"
    then "/data/logs"
    else if str_eq name "META_DIR"
    then "/var/lib/log-pilot-agent"
    else ""

-- The expansion of the one expression.
abbrev expand : String → String
expand text =
    if str_eq text "LogPilotPolicy/$(NAMESPACE)/$(POD_NAME)/$(POD_UID)/app/access"
    then "LogPilotPolicy/shop/web/u1/app/access"
    else text

guaranteed_path_iff_example :
    (cfg : Config) × (agent_config environment ≡ some cfg)
    × ((log_path cfg pod policy
          ≡ str_append log_host_path (str_append "/" (expand (volume_sub_path_expr policy))))
        ↔ (log_dir_of (pilot false []) ≡ log_host_path))
unfolding build_agent_daemon_set slashed
guaranteed_path_iff_example =
    guaranteed_path_iff (pilot false []) "image" fields environment expand pod policy
      ((refl, (refl, (refl, (refl, tt)))), tt) refl refl refl

abbrev config : ObjectConfig
config = record { namespaces = []; resources = "pods" ∷ "nodes" ∷ "secret" ∷ [] }

agent_cluster_role-Allows_example :
    All (Allows (build_agent_cluster_role (pilot false []))) standing
    × All
        (λ (c : Collector). All (Allows (build_agent_cluster_role (pilot false []))) (asked_by c))
        (run (λ v. none) (λ t. "") (λ i. i) (λ i. true) config)
agent_cluster_role-Allows_example =
    agent_cluster_role-Allows (λ v. none) (λ t. "") (λ i. i) (λ i. true) (pilot false []) config
