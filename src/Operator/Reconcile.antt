-- ===== src/Operator/Reconcile.antt =====
-- How the operator brings one object into the cluster, and removes those of a LogPilot: the second
-- part of internal/log-pilot-operator/deploy.go. The API client, and what controller-runtime does
-- with finalizers and owners, are a record of operations on a state of their own.
pub mod Contract
pub mod Accepted
pub mod Cleanup
pub mod Upsert
use logpilot.Prelude.{String, Bool, true, false, Option, List, [], ◌∷◌, str_eq, if◌then◌else◌}
use logpilot.Api.{Bytes}
use logpilot.Operator.LogPilot.{
  LogPilot, ObjectMeta, ServiceSpec, MutatingWebhook, Body, service_account, service, cluster_role,
  cluster_role_binding, mutating_webhook, deployment, daemon_set, Object, Key, object_key,
}
use logpilot.Operator.Deploy.{build_managed_objects}

pub data Answer (A : Type 0) : Type 0 where
  found : A → Answer A
  not_found get_failed : Answer A

-- How a write ends: without an error, with NotFound, or with another error.
pub data Outcome : Type 0 where
  done missing failed : Outcome

pub record Client (S : Type 0) : Type 0 where
  pub get : Key → S → Answer Object
  pub create : Object → S → S × Outcome
  pub update : Object → S → S × Outcome
  pub delete : Key → S → S × Outcome
  pub get_log_pilot : String → String → S → Answer LogPilot
  pub update_log_pilot : LogPilot → S → S × Outcome
  pub contains_finalizer : LogPilot → String → Bool
  pub add_finalizer : LogPilot → String → LogPilot
  pub remove_finalizer : LogPilot → String → LogPilot
  pub set_controller_reference : LogPilot → ObjectMeta → Option ObjectMeta

abbrev pub is_done : Outcome → Bool
is_done done = true
is_done missing = false
is_done failed = false

-- `err != nil && !apierrors.IsNotFound(err)`, negated.
abbrev pub is_gone : Outcome → Bool
is_gone done = true
is_gone missing = true
is_gone failed = false

-- The fields that the cluster sets in a service.
abbrev pub with_addresses : ServiceSpec → ServiceSpec → ServiceSpec
with_addresses old new = record new {
  cluster_ip = old.cluster_ip;
  cluster_ips = old.cluster_ips;
  ip_families = old.ip_families;
  ip_family_policy = old.ip_family_policy;
}

-- The loop over the existing webhooks; the last of the name wins.
unfoldable pub ca_bundle_of : String → List MutatingWebhook → Bytes → Bytes
ca_bundle_of name [] bundle = bundle
ca_bundle_of name (w ∷ ws) bundle =
    ca_bundle_of name ws (if str_eq name w.name then w.ca_bundle else bundle)

unfoldable pub with_bundles : List MutatingWebhook → List MutatingWebhook → List MutatingWebhook
unfolding ca_bundle_of
with_bundles old [] = []
with_bundles old (w ∷ ws) =
    record w { ca_bundle = ca_bundle_of w.name old w.ca_bundle } ∷ with_bundles old ws

abbrev pub preserve_service : ServiceSpec → Body → Body
preserve_service new (service old) = service (with_addresses old new)
preserve_service new old = service new

abbrev pub preserve_webhooks : List MutatingWebhook → Body → Body
preserve_webhooks new (mutating_webhook old) = mutating_webhook (with_bundles old new)
preserve_webhooks new old = mutating_webhook new

-- `preserveImmutableAndRuntimeFields`: the existing body first.
unfoldable pub preserve_immutable_and_runtime_fields : Body → Body → Body
unfolding with_bundles
preserve_immutable_and_runtime_fields old (service new) = preserve_service new old
preserve_immutable_and_runtime_fields old (mutating_webhook new) = preserve_webhooks new old
preserve_immutable_and_runtime_fields old new = new

-- What `reconcileObject` sends, where the object exists.
abbrev pub merged : Object → Object → Object
merged existing desired = record {
  meta = record desired.meta { resource_version = existing.meta.resource_version };
  body = preserve_immutable_and_runtime_fields existing.body desired.body;
}

-- What `reconcileDeployment` and `reconcileDaemonSet` send, where the object exists.
abbrev pub respecified : Object → Object → Object
respecified existing desired = record existing { body = desired.body }

module _ {S : Type 0} (c : Client S) where
  -- The shape that the three share, from the answer of `Get` on: `send` makes what is sent of what
  -- exists and what is desired.
  abbrev pub respond : (Object → Object → Object) → Object → S → Answer Object → S × Outcome
  respond send desired s get_failed = (s, failed)
  respond send desired s not_found = c.create desired s
  respond send desired s (found existing) = c.update (send existing desired) s

  abbrev pub upsert : (Object → Object → Object) → Object → S → S × Outcome
  upsert send desired s = respond send desired s (c.get (object_key desired) s)

  unfoldable pub reconcile_object : Object → S → S × Outcome
  unfolding preserve_immutable_and_runtime_fields
  reconcile_object desired s = upsert merged desired s

  unfoldable pub reconcile_deployment : Object → S → S × Outcome
  reconcile_deployment desired s = upsert respecified desired s

  unfoldable pub reconcile_daemon_set : Object → S → S × Outcome
  reconcile_daemon_set desired s = upsert respecified desired s

  -- The loop of `cleanupLogPilot`; the flag is false where an error is returned.
  unfoldable pub delete_all : List Object → S → S × Bool
  delete_all [] s = (s, true)
  delete_all (o ∷ os) s =
      let (s', outcome) = c.delete (object_key o) s in
      let rest = delete_all os s' in if is_gone outcome then rest else (s', false)

  unfoldable pub cleanup_log_pilot : LogPilot → S → S × Bool
  unfolding delete_all
  cleanup_log_pilot lp s = delete_all (build_managed_objects lp "" "") s
