-- ===== src/Operator/Reconcile/Contract.antt =====
-- What the operator relies on of the API server and of controller-runtime.
use logpilot.Prelude.{String, ◌≡◌, ◌≢◌, true, false, some, List, []}
use logpilot.Operator.LogPilot.{
  LogPilot, ObjectMeta, Body, service, cluster_role_binding, deployment, daemon_set, Object, Key,
  object_key,
}
use logpilot.Operator.Reconcile.{found, not_found, Client, done, is_gone}

-- An object is gone once its deletion is accepted: none of the operator's objects has a finalizer, and
-- what the garbage collector does to their dependents is left out. A LogPilot that is being deleted may
-- go with an update of it, which takes its last finalizer away. `Stored o x` says that the server
-- keeps `x` when `o` is sent: it may set defaults and a version.
pub record IsClient {S : Type 0} (c : Client S) (Stored : Object → Object → Type 0) : Type 0 where
  pub get-create :
      (o : Object) (s : S)
      → (c.create o s).1 ≡ done
      → (x : Object) × (c.get (object_key o) (c.create o s).0 ≡ found x) × Stored o x
  pub get-update :
      (o : Object) (s : S)
      → (c.update o s).1 ≡ done
      → (x : Object) × (c.get (object_key o) (c.update o s).0 ≡ found x) × Stored o x
  pub create_other :
      (o : Object) (k : Key) (s : S) → k ≢ object_key o → c.get k (c.create o s).0 ≡ c.get k s
  pub update_other :
      (o : Object) (k : Key) (s : S) → k ≢ object_key o → c.get k (c.update o s).0 ≡ c.get k s
  pub get-delete :
      (k : Key) (s : S) → is_gone (c.delete k s).1 ≡ true → c.get k (c.delete k s).0 ≡ not_found
  pub delete_other :
      (k l : Key) (s : S) → c.get k s ≡ not_found → c.get k (c.delete l s).0 ≡ not_found
  pub get-key : (k : Key) (s : S) (o : Object) → c.get k s ≡ found o → object_key o ≡ k
  pub log_pilot-delete :
      (namespace name : String) (k : Key) (s : S)
      → c.get_log_pilot namespace name (c.delete k s).0 ≡ c.get_log_pilot namespace name s
  pub get-update_log_pilot :
      (lp : LogPilot) (k : Key) (s : S) → c.get k (c.update_log_pilot lp s).0 ≡ c.get k s
  pub log_pilot-update :
      (lp : LogPilot) (s : S)
      → lp.deleting ≡ false
      → (c.update_log_pilot lp s).1 ≡ done
      → c.get_log_pilot lp.namespace lp.name (c.update_log_pilot lp s).0 ≡ found lp
  pub contains-add :
      (lp : LogPilot) (f : String) → c.contains_finalizer (c.add_finalizer lp f) f ≡ true
  pub add_finalizer-same :
      (lp : LogPilot) (f : String)
      → (fs : List String) × (c.add_finalizer lp f ≡ record lp { finalizers = fs })
  pub owner-key :
      (lp : LogPilot) (m m' : ObjectMeta)
      → c.set_controller_reference lp m ≡ some m'
      → (m'.name ≡ m.name) × (m'.namespace ≡ m.namespace)

-- The fields that an update may not change and that the operator does not take over from the stored
-- object: the role that a binding refers to, and the selector of a deployment or a daemon set.
abbrev pub Fits : Body → Body → Type 0
Fits (cluster_role_binding old s) (cluster_role_binding new t) = new ≡ old
Fits (deployment old) (deployment new) = new.match_labels ≡ old.match_labels
Fits (daemon_set old) (daemon_set new) = new.match_labels ≡ old.match_labels
Fits old new = Unit

-- All that an update may not change, the addresses of a service included.
abbrev pub KeepsImmutable : Body → Body → Type 0
KeepsImmutable (service old) (service new) =
    (new.cluster_ip ≡ old.cluster_ip)
    × (new.cluster_ips ≡ old.cluster_ips)
    × (new.ip_families ≡ old.ip_families)
    × (new.ip_family_policy ≡ old.ip_family_policy)
KeepsImmutable old new = Fits old new

-- A server that answers: it creates what is not there, updates what is there if it is sent the version
-- that it holds and nothing immutable is changed, and lets an object have an owner that has none.
pub record IsUp {S : Type 0} (c : Client S) : Type 0 where
  pub creates : (o : Object) (s : S) → c.get (object_key o) s ≡ not_found → (c.create o s).1 ≡ done
  pub updates :
      (o x : Object) (s : S)
      → c.get (object_key o) s ≡ found x
      → o.meta.resource_version ≡ x.meta.resource_version
      → KeepsImmutable x.body o.body
      → (c.update o s).1 ≡ done
  pub updates_log_pilot :
      (lp x : LogPilot) (s : S)
      → c.get_log_pilot lp.namespace lp.name s ≡ found x
      → (c.update_log_pilot lp s).1 ≡ done
  pub owns :
      (lp : LogPilot) (m : ObjectMeta)
      → m.namespace ≡ lp.namespace
      → m.owners ≡ []
      → (m' : ObjectMeta) × (c.set_controller_reference lp m ≡ some m')
