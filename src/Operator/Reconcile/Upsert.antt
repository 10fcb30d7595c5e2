-- ===== src/Operator/Reconcile/Upsert.antt =====
-- What one object's reconciliation leaves.
use logpilot.Prelude.{String, ◌≡◌, refl, ap, ◌∙◌, subst, ◌≢◌, true, List, [], ◌∷◌}
use logpilot.Operator.LogPilot.{
  ServiceSpec, MutatingWebhook, Body, service_account, service, cluster_role, cluster_role_binding,
  mutating_webhook, deployment, daemon_set, Object, Key, object_key, kind_of,
}
use logpilot.Operator.Reconcile.{
  Answer, found, not_found, get_failed, Client, Outcome, done, missing, failed, is_done,
  with_addresses, with_bundles, preserve_immutable_and_runtime_fields, merged, respecified, upsert,
  preserve_webhooks, preserve_service, respond,
}
use logpilot.Operator.Reconcile.Contract.{IsClient}

-- A webhook's configuration, but for the bundle of certificates.
abbrev pub SameWebhooks : List MutatingWebhook → List MutatingWebhook → Type 0
SameWebhooks [] [] = Unit
SameWebhooks [] (v ∷ vs) = ⊥
SameWebhooks (w ∷ ws) [] = ⊥
SameWebhooks (w ∷ ws) (v ∷ vs) = (w ≡ record v { ca_bundle = w.ca_bundle }) × SameWebhooks ws vs

-- What is sent has the content that is desired: the same body, but for the addresses of a service
-- and the bundles of webhooks.
abbrev pub HasContent : Body → Body → Type 0
HasContent (service new) b = (old : ServiceSpec) × (b ≡ service (with_addresses old new))
HasContent (mutating_webhook new) b =
    (ws : List MutatingWebhook) × (b ≡ mutating_webhook ws) × SameWebhooks ws new
HasContent service_account b = b ≡ service_account
HasContent (cluster_role r) b = b ≡ cluster_role r
HasContent (cluster_role_binding r s) b = b ≡ cluster_role_binding r s
HasContent (deployment d) b = b ≡ deployment d
HasContent (daemon_set d) b = b ≡ daemon_set d

SameWebhooks-refl : (ws : List MutatingWebhook) → SameWebhooks ws ws
SameWebhooks-refl [] = tt
SameWebhooks-refl (w ∷ ws) = (refl, SameWebhooks-refl ws)

with_bundles-SameWebhooks : (old ws : List MutatingWebhook) → SameWebhooks (with_bundles old ws) ws
unfolding with_bundles
with_bundles-SameWebhooks old [] = tt
with_bundles-SameWebhooks old (w ∷ ws) = (refl, with_bundles-SameWebhooks old ws)

HasContent-refl : (b : Body) → HasContent b b
HasContent-refl (service s) = (s, refl)
HasContent-refl (mutating_webhook ws) = (ws, refl, SameWebhooks-refl ws)
HasContent-refl service_account = refl
HasContent-refl (cluster_role r) = refl
HasContent-refl (cluster_role_binding r s) = refl
HasContent-refl (deployment d) = refl
HasContent-refl (daemon_set d) = refl

preserve_service-HasContent :
    (new : ServiceSpec) (old : Body) → HasContent (service new) (preserve_service new old)
preserve_service-HasContent new (service old) = (old, refl)
preserve_service-HasContent new old = (new, refl)

preserve_webhooks-HasContent :
    (new : List MutatingWebhook) (old : Body)
    → HasContent (mutating_webhook new) (preserve_webhooks new old)
preserve_webhooks-HasContent new (mutating_webhook old) =
    (with_bundles old new, refl, with_bundles-SameWebhooks old new)
preserve_webhooks-HasContent new old = (new, refl, SameWebhooks-refl new)

preserve-HasContent :
    (old new : Body) → HasContent new (preserve_immutable_and_runtime_fields old new)
unfolding preserve_immutable_and_runtime_fields
preserve-HasContent old (service new) = preserve_service-HasContent new old
preserve-HasContent old (mutating_webhook new) = preserve_webhooks-HasContent new old
preserve-HasContent old new = HasContent-refl new

HasContent-kind_of : (new b : Body) → HasContent new b → kind_of b ≡ kind_of new
HasContent-kind_of (service s) b (old, e) = ap kind_of e
HasContent-kind_of (mutating_webhook w) b (ws, e, same) = ap kind_of e
HasContent-kind_of new b e = ap kind_of e

-- The object is stored with its content.
abbrev pub Installed : {S : Type 0} → Client S → (Object → Object → Type 0) → S → Object → Type 0
Installed c Stored s o =
    (sent : Object) × (x : Object) × (c.get (object_key o) s ≡ found x)
    × Stored sent x
    × HasContent o.body sent.body

-- What `send` sends is the same object, with its content.
abbrev pub Sends : (Object → Object → Object) → Type 0
Sends send =
    (old new : Object)
    → object_key old ≡ object_key new
    → (object_key (send old new) ≡ object_key new) × HasContent new.body (send old new).body

pub merged-Sends : Sends merged
merged-Sends old new h =
    let same = preserve-HasContent old.body new.body in
    (
      ap (λ (k : String). record { kind = k; namespace = new.meta.namespace; name = new.meta.name })
          (HasContent-kind_of new.body _ same),
      same,
    )

pub respecified-Sends : Sends respecified
respecified-Sends old new h = (
  ap (λ (k : Key). record { kind = kind_of new.body; namespace = k.namespace; name = k.name }) h,
  HasContent-refl new.body,
)

-- The object is stored if no error comes back, and no other object changes.
abbrev pub Left :
    {S : Type 0} → Client S → (Object → Object → Type 0) → Object → S → S × Outcome → Type 0
Left c Stored o s (s', outcome) =
    (is_done outcome ≡ true → Installed c Stored s' o)
    × ((k : Key) → k ≢ object_key o → c.get k s' ≡ c.get k s)

module _ {S : Type 0} (c : Client S) (Stored : Object → Object → Type 0) (laws : IsClient c Stored)
    (send : Object → Object → Object) (sends : Sends send) (o : Object) (s : S) where
  of_is_done : (r : Outcome) → is_done r ≡ true → r ≡ done
  of_is_done done h = refl
  of_is_done missing h = absurd (cc)
  of_is_done failed h = absurd (cc)

  respond-Left :
      (a : Answer Object) → c.get (object_key o) s ≡ a → Left c Stored o s (respond c send o s a)
  respond-Left get_failed h = ((λ e. absurd (cc)), λ k d. refl)
  respond-Left not_found h = (
    (λ e.
        let (x, at_key, stored) = laws.get-create o s (of_is_done _ e) in
        (o, x, at_key, stored, HasContent-refl o.body)),
    λ k d. laws.create_other o k s d,
  )
  respond-Left (found old) h =
      let (same, content) = sends old o (laws.get-key (object_key o) s old h) in
      (
        (λ e.
            let (x, at_key, stored) = laws.get-update (send old o) s (of_is_done _ e) in
            (
              send old o,
              x,
              subst (λ (k : Key). c.get k (c.update (send old o) s).0 ≡ found x) same at_key,
              stored,
              content,
            )),
        λ k d. laws.update_other (send old o) k s (λ e. d (e ∙ same)),
      )

  pub upsert-Left : Left c Stored o s (upsert c send o s)
  upsert-Left = respond-Left (c.get (object_key o) s) refl
