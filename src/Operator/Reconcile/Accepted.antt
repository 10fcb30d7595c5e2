-- ===== src/Operator/Reconcile/Accepted.antt =====
-- Which updates that the upserts of internal/log-pilot-operator/deploy.go send a server takes.
use logpilot.Prelude.{◌≡◌, refl}
use logpilot.Operator.LogPilot.{Body, service, mutating_webhook, Object}
use logpilot.Operator.Reconcile.{merged, respecified, preserve_immutable_and_runtime_fields}
use logpilot.Operator.Reconcile.Contract.{Fits, KeepsImmutable}

preserve-KeepsImmutable :
    (old new : Body)
    → Fits old new
    → KeepsImmutable old (preserve_immutable_and_runtime_fields old new)
unfolding preserve_immutable_and_runtime_fields
preserve-KeepsImmutable (service old) (service new) h = (refl, refl, refl, refl)
preserve-KeepsImmutable old (service new) h = h
preserve-KeepsImmutable (mutating_webhook old) (mutating_webhook new) h = tt
preserve-KeepsImmutable old (mutating_webhook new) h = h
preserve-KeepsImmutable (service old) new h = h
preserve-KeepsImmutable old new h = h

abbrev pub NotService : Body → Type 0
NotService (service new) = ⊥
NotService new = Unit

Fits-KeepsImmutable : (old new : Body) → NotService new → Fits old new → KeepsImmutable old new
Fits-KeepsImmutable (service old) (service new) n h = absurd n
Fits-KeepsImmutable (service old) new n h = h
Fits-KeepsImmutable old new n h = h

-- What `send` sends for the object is taken, where what is stored agrees with it.
abbrev pub Accepted : (Object → Object → Object) → Object → Type 0
Accepted send o =
    (old : Object)
    → Fits old.body o.body
    → ((send old o).meta.resource_version ≡ old.meta.resource_version)
      × KeepsImmutable old.body (send old o).body

pub merged-Accepted : (o : Object) → Accepted merged o
merged-Accepted o old h = (refl, preserve-KeepsImmutable old.body o.body h)

pub respecified-Accepted : (o : Object) → NotService o.body → Accepted respecified o
respecified-Accepted o n old h = (refl, Fits-KeepsImmutable old.body o.body n h)
