-- ===== src/Operator/Controller/Install.antt =====
-- What `Reconcile` leaves of a LogPilot that is not being deleted.
use logpilot.Prelude.{
  String, ◌≡◌, refl, sym, ap, ◌∙◌, subst, ◌≢◌, inl, inr, Bool, true, false, not, Option, none, some,
  List, [], ◌∷◌, ◌++◌, str_eq, if-true, if-false, Bool-cases, of_some-eq-some, last, All,
  All-append, All-split, All-zip,
}
use logpilot.Operator.LogPilot.{LogPilot, ObjectMeta, Object, Key, kind_of, Body, object_key, Body}
use logpilot.Operator.Deploy.{
  build_support_objects, build_managed_objects, build_api_deployment, build_agent_daemon_set,
}
use logpilot.Operator.Deploy.Keys.{Distinct, managed-Distinct}
use logpilot.Operator.Reconcile.{
  Client, Outcome, reconcile_object, reconcile_deployment, reconcile_daemon_set, merged,
  respecified, upsert, found,
}
use logpilot.Operator.Reconcile.Contract.{IsClient}
use logpilot.Operator.Reconcile.Upsert.{
  Installed, Left, upsert-Left, merged-Sends, respecified-Sends, HasContent,
}
use logpilot.Operator.Controller.{
  and_then, owned, owned_support, put, install_support, install_deployment, install_daemon_set,
  install, reconcile, log_pilot_finalizer, api_image_of, agent_image_of, with_meta,
}

abbrev pub Apart : List Object → Key → Type 0
Apart os k = All (λ (o : Object). k ≢ object_key o) os

Apart-split : (k : Key) (os ps : List Object) → Apart (os ++ ps) k → Apart os k × Apart ps k
Apart-split k = All-split (λ (o : Object). k ≢ object_key o)

pub Distinct-append :
    (os ps : List Object)
    → Distinct (os ++ ps)
    → Distinct os × All (λ (o : Object). Apart ps (object_key o)) os × Distinct ps
Distinct-append [] ps d = (tt, tt, d)
Distinct-append (o ∷ os) ps d =
    let (left, cross, right) = Distinct-append os ps d.1 in
    let (here, there) = All-split (λ (p : Object). object_key o ≢ object_key p) os ps d.0 in
    ((here, left), (there, cross), right)

module _ {S : Type 0} (c : Client S) (Stored : Object → Object → Type 0)
    (laws : IsClient c Stored) where
  -- What a part of `install` has done from `s` on: every object of its own is stored unless an error
  -- comes back, and no other object changes.
  abbrev Does : List Object → S → S × Bool → Type 0
  Does os s (s', good) =
      (good ≡ true → All (Installed c Stored s') os)
      × ((k : Key) → Apart os k → c.get k s' ≡ c.get k s)

  Installed-same :
      (s s' : S) (o : Object)
      → c.get (object_key o) s' ≡ c.get (object_key o) s
      → Installed c Stored s o
      → Installed c Stored s' o
  Installed-same s s' o e (sent, x, at_key, stored, content) =
      (sent, x, e ∙ at_key, stored, content)

  and_then-Does :
      (os ps : List Object) (s : S) (r : S × Bool) (next : S → S × Bool)
      → All (λ (o : Object). Apart ps (object_key o)) os
      → Does os s r
      → ((s' : S) → Does ps s' (next s'))
      → Does (os ++ ps) s (and_then r next)
  and_then-Does os ps s (s', true) next cross d e = (
    (λ good.
        All-append (Installed c Stored _) os ps
          (All-zip (λ (o : Object) a i. Installed-same s' _ o ((e s').1 (object_key o) a) i) os
            cross (d.0 refl))
          ((e s').0 good)),
    λ k a. let (left, right) = Apart-split k os ps a in (e s').1 k right ∙ d.1 k left,
  )
  and_then-Does os ps s (s', false) next cross d e =
      ((λ good. absurd (cc)), λ k a. d.1 k (Apart-split k os ps a).0)

  -- An object with its owner is the same object, with the same content.
  abbrev SameAs : Object → Option Object → Type 0
  SameAs o a = (o' : Object) → a ≡ some o' → (object_key o' ≡ object_key o) × (o'.body ≡ o.body)

  SameAs-some : (o p : Object) → object_key p ≡ object_key o → p.body ≡ o.body → SameAs o (some p)
  SameAs-some o p k b o' e =
      subst (λ (q : Object). (object_key q ≡ object_key o) × (q.body ≡ o.body)) (of_some-eq-some e)
        (k, b)

  with_meta-SameAs :
      (lp : LogPilot) (o : Object) (a : Option ObjectMeta)
      → c.set_controller_reference lp o.meta ≡ a
      → SameAs o (with_meta o a)
  with_meta-SameAs lp o none h = λ o' e. absurd (cc)
  with_meta-SameAs lp o (some meta) h =
      let (name, namespace) = laws.owner-key lp o.meta meta h in
      SameAs-some o (record o { meta = meta })
        (λ i. record { kind = kind_of o.body; namespace = namespace i; name = name i }) refl

  owned-SameAs : (lp : LogPilot) (o : Object) → SameAs o (owned c lp o)
  owned-SameAs lp o = with_meta-SameAs lp o (c.set_controller_reference lp o.meta) refl

  owned_support-SameAs : (lp : LogPilot) (o : Object) → SameAs o (owned_support c lp o)
  owned_support-SameAs lp o = elim (Bool-cases (str_eq o.meta.namespace "")) [
    | inl n ↦ subst (SameAs o) (sym (if-false _ _ (ap not n))) (SameAs-some o o refl refl)
    | inr n ↦ subst (SameAs o) (sym (if-true _ _ (ap not n))) (owned-SameAs lp o)
  ]

  put-Does :
      (reconcile_one : Object → S → S × Outcome)
      → ((o : Object) (s : S) → Left c Stored o s (reconcile_one o s))
      → (o : Object) (a : Option Object) → SameAs o a
      → (s : S) → Does (o ∷ []) s (put c reconcile_one a s)
  put-Does reconcile_one left o none same s = ((λ good. absurd (cc)), λ k a. refl)
  put-Does reconcile_one left o (some o') same s =
      let (key, body) = same o' refl in
      let (stored, others) = left o' s in
      (
        (λ good.
            let (sent, x, at_key, kept, content) = stored good in
            (
              (
                sent,
                x,
                ap (λ (k : Key). c.get k (reconcile_one o' s).0) (sym key) ∙ at_key,
                kept,
                subst (λ (b : Body). HasContent b sent.body) body content,
              ),
              tt,
            )),
        λ k a. others k (λ e. a.0 (e ∙ key)),
      )

  pub put_support-Does :
      (lp : LogPilot) (o : Object) (s : S)
      → Does (o ∷ []) s (put c (reconcile_object c) (owned_support c lp o) s)
  unfolding reconcile_object
  put_support-Does lp o s =
      put-Does (reconcile_object c) (upsert-Left c Stored laws merged merged-Sends) o
        (owned_support c lp o) (owned_support-SameAs lp o) s

  pub put_workload-Does :
      (lp : LogPilot) (o : Object) (s : S)
      → Does (o ∷ []) s (put c (upsert c respecified) (owned c lp o) s)
  put_workload-Does lp o s =
      put-Does (upsert c respecified) (upsert-Left c Stored laws respecified respecified-Sends) o
        (owned c lp o) (owned-SameAs lp o) s

  pub install_support-Does :
      (lp : LogPilot) (os : List Object) (s : S)
      → Distinct os
      → Does os s (install_support c lp os s)
  unfolding install_support reconcile_object
  install_support-Does lp [] s d = ((λ good. tt), λ k a. refl)
  install_support-Does lp (o ∷ os) s d =
      and_then-Does (o ∷ []) os s _ _ (d.0, tt) (put_support-Does lp o s)
        (λ s'. install_support-Does lp os s' d.1)

  install-Does :
      (lp : LogPilot) (api_image agent_image : String) (s : S)
      → Does
          (build_managed_objects lp api_image agent_image)
          s
          (install c lp api_image agent_image s)
  unfolding install install_deployment install_daemon_set reconcile_deployment reconcile_daemon_set
      build_managed_objects
  install-Does lp api_image agent_image s =
      let deployment = build_api_deployment lp api_image in
      let daemon_set = build_agent_daemon_set lp agent_image in
      let (support, cross, last) =
        Distinct-append (build_support_objects lp) (deployment ∷ daemon_set ∷ [])
          (managed-Distinct lp api_image agent_image) in
      and_then-Does (build_support_objects lp) (deployment ∷ daemon_set ∷ []) s _ _ cross
        (install_support-Does lp (build_support_objects lp) s support)
        (λ s'.
          and_then-Does (deployment ∷ []) (daemon_set ∷ []) s' _ _ (last.0, tt)
            (put_workload-Does lp deployment s') (λ s''. put_workload-Does lp daemon_set s''))

-- A round of `Reconcile` for a LogPilot that has its finalizer and is not being deleted, which returns
-- no error, leaves every object that it is to have stored with its content: the four kinds of access
-- objects, the service and the webhook but for what the cluster sets in them, the deployment and the
-- daemon set; and it changes no other object.
pub reconcile_installs :
    {S : Type 0} (c : Client S) (Stored : Object → Object → Type 0)
    → IsClient c Stored
    → (namespace name api_variable agent_variable : String) (s : S) (lp : LogPilot)
    → c.get_log_pilot namespace name s ≡ found lp
    → lp.deleting ≡ false
    → c.contains_finalizer lp log_pilot_finalizer ≡ true
    → let (s', good) = reconcile c namespace name api_variable agent_variable s in
      let os =
        build_managed_objects lp (api_image_of api_variable) (agent_image_of agent_variable) in
      (good ≡ true → All (Installed c Stored s') os)
      × ((k : Key) → All (λ (o : Object). k ≢ object_key o) os → c.get k s' ≡ c.get k s)
unfolding reconcile
reconcile_installs c Stored laws namespace name api_variable agent_variable s lp h d f =
    subst
      (Does c Stored laws
        (build_managed_objects lp (api_image_of api_variable) (agent_image_of agent_variable)) s)
      (sym (rw (reconcile, h) (if-false _ _ d ∙ if-false _ _ (ap not f))))
      (install-Does c Stored laws lp (api_image_of api_variable) (agent_image_of agent_variable) s)
