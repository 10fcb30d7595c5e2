-- ===== src/Operator/LogPilot.antt =====
-- The LogPilot resource, api/v1alpha1/logpilot_types.go, and of the Kubernetes API the objects that
-- the operator keeps for it, with the fields that it reads or writes.
use logpilot.Prelude.{ℕ, String, Bool, Option, List}
use logpilot.Prelude.Int.{ℤ}
use logpilot.Api.{Bytes, Labels}

-- `corev1.ResourceRequirements`
pub record Resources : Type 0 where
  pub limits : List (String × String)
  pub requests : List (String × String)

pub record AgentSelfLogSpec : Type 0 where
  pub dir : String
  pub reserve_count : ℤ

pub record AgentSpec : Type 0 where
  pub config_dir : String
  pub meta_dir : String
  pub log_dir : String
  pub self_log : AgentSelfLogSpec
  pub resources : Resources

pub record ApiSpec : Type 0 where
  pub replicas : ℤ
  pub resources : Resources

pub record LogPilotSpec : Type 0 where
  pub agent : AgentSpec
  pub api : ApiSpec

-- `deleting` says that the deletion time stamp is set.
pub record LogPilot : Type 0 where
  pub name : String
  pub namespace : String
  pub deleting : Bool
  pub finalizers : List String
  pub spec : LogPilotSpec

-- Of `metav1.ObjectMeta`; `owners` are the references to owners, by name.
pub record ObjectMeta : Type 0 where
  pub name : String
  pub namespace : String
  pub resource_version : String
  pub owners : List String

pub record ServicePort : Type 0 where
  pub name : String
  pub port : ℕ
  pub target_port : ℕ

pub record ServiceSpec : Type 0 where
  pub selector : Labels
  pub ports : List ServicePort
  pub cluster_ip : String
  pub cluster_ips : List String
  pub ip_families : List String
  pub ip_family_policy : Option String

pub record PolicyRule : Type 0 where
  pub api_groups : List String
  pub resources : List String
  pub verbs : List String

pub record RoleRef : Type 0 where
  pub api_group : String
  pub kind : String
  pub name : String

pub record Subject : Type 0 where
  pub kind : String
  pub name : String
  pub namespace : String

pub record RuleWithOperations : Type 0 where
  pub operations : List String
  pub api_groups : List String
  pub api_versions : List String
  pub resources : List String

pub record ServiceReference : Type 0 where
  pub name : String
  pub namespace : String
  pub path : String
  pub port : ℕ

pub record MutatingWebhook : Type 0 where
  pub name : String
  pub admission_review_versions : List String
  pub side_effects : String
  pub failure_policy : String
  pub service : ServiceReference
  pub ca_bundle : Bytes
  pub rules : List RuleWithOperations

-- A variable has a value, or the field path of the downward API.
pub data EnvSource : Type 0 where
  value : String → EnvSource
  field_ref : String → EnvSource

pub record VolumeMount : Type 0 where
  pub name : String
  pub mount_path : String
  pub read_only : Bool

-- A host path volume, of the type `DirectoryOrCreate`.
pub record HostVolume : Type 0 where
  pub name : String
  pub path : String

pub record Container : Type 0 where
  pub name : String
  pub image : String
  pub command : List String
  pub resources : Resources
  pub ports : List (String × ℕ)
  pub env : List (String × EnvSource)
  pub volume_mounts : List VolumeMount

-- `run_as` is the user and the group of the security context.
pub record PodTemplate : Type 0 where
  pub labels : Labels
  pub service_account_name : String
  pub run_as : Option (ℕ × ℕ)
  pub containers : List Container
  pub volumes : List HostVolume

pub record DeploymentSpec : Type 0 where
  pub replicas : ℤ
  pub match_labels : Labels
  pub template : PodTemplate

pub record DaemonSetSpec : Type 0 where
  pub match_labels : Labels
  pub template : PodTemplate

pub data Body : Type 0 where
  service_account : Body
  service : ServiceSpec → Body
  cluster_role : List PolicyRule → Body
  cluster_role_binding : RoleRef → List Subject → Body
  mutating_webhook : List MutatingWebhook → Body
  deployment : DeploymentSpec → Body
  daemon_set : DaemonSetSpec → Body

-- `client.Object`
pub record Object : Type 0 where
  pub meta : ObjectMeta
  pub body : Body

abbrev pub kind_of : Body → String
kind_of service_account = "ServiceAccount"
kind_of (service spec) = "Service"
kind_of (cluster_role rules) = "ClusterRole"
kind_of (cluster_role_binding role subjects) = "ClusterRoleBinding"
kind_of (mutating_webhook webhooks) = "MutatingWebhookConfiguration"
kind_of (deployment spec) = "Deployment"
kind_of (daemon_set spec) = "DaemonSet"

-- The Go type of an object and its `client.ObjectKey`.
pub record Key : Type 0 where
  pub kind : String
  pub namespace : String
  pub name : String

abbrev pub object_key : Object → Key
object_key o = record { kind = kind_of o.body; namespace = o.meta.namespace; name = o.meta.name }
