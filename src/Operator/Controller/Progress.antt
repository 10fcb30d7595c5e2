-- ===== src/Operator/Controller/Progress.antt =====
-- `Reconcile` gets its work done while the API server answers.
use logpilot.Prelude.{
  String, ◌≡◌, refl, sym, ap, ◌∙◌, subst, ◌≢◌, ◌⊎◌, inl, inr, Bool, true, false, not, Option, List,
  [], ◌∷◌, str_eq, eq_iff, if-true, if-false, Bool-cases, last, All, All-map, All-split, All-zip,
}
use logpilot.Operator.LogPilot.{LogPilot, ObjectMeta, Body, Object, Key, object_key, kind_of}
use logpilot.Operator.Deploy.{
  build_support_objects, build_managed_objects, build_api_deployment, build_agent_daemon_set,
}
use logpilot.Operator.Reconcile.{
  Answer, found, not_found, Client, is_done, reconcile_object, reconcile_deployment,
  reconcile_daemon_set, merged, respecified, respond, upsert,
}
use logpilot.Operator.Reconcile.Contract.{IsClient, IsUp, Fits}
use logpilot.Operator.Reconcile.Accepted.{Accepted, merged-Accepted, respecified-Accepted}
use logpilot.Operator.Reconcile.Upsert.{Installed, Sends, merged-Sends, respecified-Sends}
use logpilot.Operator.Controller.{
  and_then, with_meta, owned, owned_support, put, install_support, install_deployment,
  install_daemon_set, install, reconcile, log_pilot_finalizer, api_image_of, agent_image_of,
}
use logpilot.Operator.Controller.Install.{
  Apart, reconcile_installs, Distinct-append, put_support-Does, put_workload-Does,
  install_support-Does,
}
use logpilot.Operator.Deploy.Keys.{Distinct, managed-Distinct}

abbrev Good : {S : Type 0} → S × Bool → Type 0
Good (s, good) = good ≡ true

and_then-Good :
    {S : Type 0} (r : S × Bool) (next : S → S × Bool)
    → Good r
    → Good (next r.0)
    → Good (and_then r next)
and_then-Good (s, true) next g h = h
and_then-Good (s, false) next g h = absurd (cc)

-- The key is free, or what is there agrees with the body in what an update may not change.
abbrev pub ReadyAt : {S : Type 0} → Client S → S → Key → Body → Type 0
ReadyAt c s k b = (c.get k s ≡ not_found) ⊎ ((x : Object) × (c.get k s ≡ found x) × Fits x.body b)

abbrev pub Ready : {S : Type 0} → Client S → S → Object → Type 0
Ready c s o = ReadyAt c s (object_key o) o.body

module _ {S : Type 0} (c : Client S) (Stored : Object → Object → Type 0) (laws : IsClient c Stored)
    (up : IsUp c) where
  upsert_done :
      (send : Object → Object → Object)
      → Sends send
      → (o : Object) → Accepted send o
      → (s : S) → Ready c s o
      → is_done (upsert c send o s).1 ≡ true
  upsert_done send sends o accepted s (inl n) =
      ap is_done (ap (λ (a : Answer Object). (respond c send o s a).1) n ∙ up.creates o s n)
  upsert_done send sends o accepted s (inr (old, h, fits)) =
      let key = (sends old o (laws.get-key (object_key o) s old h)).0 in
      let (version, kept) = accepted old fits in
      ap is_done (
        ap (λ (a : Answer Object). (respond c send o s a).1) h
        ∙ up.updates (send old o) old s (ap (λ (k : Key). c.get k s) key ∙ h) version kept)

  put-owned-Good :
      (lp : LogPilot) (o : Object) (send : Object → Object → Object)
      → Sends send
      → ((m : ObjectMeta) → Accepted send (record o { meta = m }))
      → o.meta.namespace ≡ lp.namespace
      → o.meta.owners ≡ []
      → (s : S) → Ready c s o
      → Good (put c (upsert c send) (owned c lp o) s)
  put-owned-Good lp o send sends accepted h free s ready =
      let (meta, e) = up.owns lp o.meta h free in
      let (name, namespace) = laws.owner-key lp o.meta meta e in
      let key : object_key o ≡ object_key (record o { meta = meta }) =
        λ i. record { kind = kind_of o.body; namespace = sym namespace i; name = sym name i } in
      subst (λ (a : Option ObjectMeta). Good (put c (upsert c send) (with_meta o a) s)) (sym e)
        (upsert_done send sends (record o { meta = meta }) (accepted meta) s
          (subst (λ (k : Key). ReadyAt c s k o.body) key ready))

  abbrev Scoped : LogPilot → Object → Type 0
  Scoped lp o = ((o.meta.namespace ≡ "") ⊎ (o.meta.namespace ≡ lp.namespace)) × (o.meta.owners ≡ [])

  put_support-Good :
      (lp : LogPilot) (o : Object)
      → Scoped lp o
      → (s : S) → Ready c s o
      → Good (put c (reconcile_object c) (owned_support c lp o) s)
  unfolding reconcile_object
  put_support-Good lp o (h, free) s ready = elim (Bool-cases (str_eq o.meta.namespace "")) [
    | inl n ↦
        subst (λ a. Good (put c (upsert c merged) a s)) (sym (if-false _ _ (ap not n)))
          (upsert_done merged merged-Sends o (merged-Accepted o) s ready)
    | inr n ↦
        subst (λ a. Good (put c (upsert c merged) a s)) (sym (if-true _ _ (ap not n)))
          (put-owned-Good lp o merged merged-Sends (λ m. merged-Accepted (record o { meta = m }))
            (elim h [ inl e ↦ let w = (eq_iff _ _).1 e in absurd (cc) | inr e ↦ e ]) free s ready)
  ]

  -- What has not changed is as ready as before.
  Ready-later :
      (s s' : S) (os : List Object)
      → All (λ (o : Object). c.get (object_key o) s' ≡ c.get (object_key o) s) os
      → All (Ready c s) os
      → All (Ready c s') os
  Ready-later s s' os same ready =
      All-zip
        (λ (o : Object) e r. elim r [
          | inl n ↦ inl (e ∙ n)
          | inr (x, h, fits) ↦ inr (x, e ∙ h, fits)
        ])
        os same ready

  install_support-Good :
      (lp : LogPilot) (os : List Object)
      → All (Scoped lp) os
      → Distinct os
      → (s : S) → All (Ready c s) os
      → Good (install_support c lp os s)
  unfolding install_support
  install_support-Good lp [] h d s ready = refl
  install_support-Good lp (o ∷ os) h d s ready =
      let one = put c (reconcile_object c) (owned_support c lp o) s in
      let others = (put_support-Does c Stored laws lp o s).1 in
      and_then-Good one _ (put_support-Good lp o h.0 s ready.0) (
        install_support-Good lp os h.1 d.1 one.0 (
          Ready-later s one.0 os
            (All-map (λ (p : Object) n. others (object_key p) ((λ e. n (sym e)), tt)) os d.0)
            ready.1))

  support-Scoped : (lp : LogPilot) → All (Scoped lp) (build_support_objects lp)
  unfolding build_support_objects
  support-Scoped lp = (
    (inr refl, refl),
    (
      (inr refl, refl),
      (
        (inr refl, refl),
        (
          (inl refl, refl),
          ((inl refl, refl), ((inl refl, refl), ((inl refl, refl), ((inl refl, refl), tt)))),
        ),
      ),
    ),
  )

  install-Good :
      (lp : LogPilot) (api_image agent_image : String) (s : S)
      → All (Ready c s) (build_managed_objects lp api_image agent_image)
      → Good (install c lp api_image agent_image s)
  unfolding install install_deployment install_daemon_set reconcile_deployment reconcile_daemon_set
      build_api_deployment build_agent_daemon_set build_managed_objects
  install-Good lp api_image agent_image s ready =
      let support = build_support_objects lp in
      let deployment = build_api_deployment lp api_image in
      let daemon_set = build_agent_daemon_set lp agent_image in
      let rest = deployment ∷ daemon_set ∷ [] in
      let (apart, cross, last) =
        Distinct-append support rest (managed-Distinct lp api_image agent_image) in
      let (ready_support, ready_rest) = All-split (Ready c s) support rest ready in
      let s1 = (install_support c lp support s).0 in
      let others = (install_support-Does c Stored laws lp support s apart).1 in
      let ready1 =
        Ready-later s s1 rest
          (
            others (object_key deployment) (
                All-map {P = λ (o : Object). Apart rest (object_key o)}
                  {Q = λ (o : Object). object_key deployment ≢ object_key o} (λ o a e. a.0 (sym e))
                  support cross),
            (
              others (object_key daemon_set) (
                  All-map {P = λ (o : Object). Apart rest (object_key o)}
                    {Q = λ (o : Object). object_key daemon_set ≢ object_key o}
                    (λ o a e. a.1.0 (sym e)) support cross),
              tt,
            ),
          )
          ready_rest in
      let two = put c (upsert c respecified) (owned c lp deployment) s1 in
      let others' = (put_workload-Does c Stored laws lp deployment s1).1 in
      let ready2 =
        Ready-later s1 two.0 (daemon_set ∷ [])
          (others' (object_key daemon_set) ((λ e. last.0.0 (sym e)), tt), tt) ready1.1 in
      and_then-Good _ _ (install_support-Good lp support (support-Scoped lp) apart s ready_support)
        (and_then-Good two _
          (put-owned-Good lp deployment respecified respecified-Sends
            (λ m. respecified-Accepted (record deployment { meta = m }) tt) refl refl s1 ready1.0)
          (put-owned-Good lp daemon_set respecified respecified-Sends
            (λ m. respecified-Accepted (record daemon_set { meta = m }) tt) refl refl two.0
            ready2.0))

  -- The round that adds the finalizer.
  reconcile-add :
      (namespace name api_variable agent_variable : String) (s : S) (lp : LogPilot)
      → c.get_log_pilot namespace name s ≡ found lp
      → lp.deleting ≡ false
      → c.contains_finalizer lp log_pilot_finalizer ≡ false
      → (reconcile c namespace name api_variable agent_variable s).0
        ≡ (c.update_log_pilot (c.add_finalizer lp log_pilot_finalizer) s).0
  unfolding reconcile
  reconcile-add namespace name api_variable agent_variable s lp h d f =
      let (s', outcome) = c.update_log_pilot (c.add_finalizer lp log_pilot_finalizer) s in
      let e : reconcile c namespace name api_variable agent_variable s ≡ (s', is_done outcome) =
        rw (reconcile, h) (if-false _ _ d ∙ if-true _ _ (ap not f)) in
      ap (λ (r : S × Bool). r.0) e

  reconcile-Good :
      (namespace name api_variable agent_variable : String) (s : S) (lp : LogPilot)
      → c.get_log_pilot namespace name s ≡ found lp
      → lp.deleting ≡ false
      → c.contains_finalizer lp log_pilot_finalizer ≡ true
      → All
          (Ready c s)
          (build_managed_objects lp (api_image_of api_variable) (agent_image_of agent_variable))
      → Good (reconcile c namespace name api_variable agent_variable s)
  unfolding reconcile
  reconcile-Good namespace name api_variable agent_variable s lp h d f ready =
      let e : reconcile c namespace name api_variable agent_variable s
          ≡ install c lp (api_image_of api_variable) (agent_image_of agent_variable) s =
        rw (reconcile, h) (if-false _ _ d ∙ if-false _ _ (ap not f)) in
      subst Good (sym e)
        (install-Good lp (api_image_of api_variable) (agent_image_of agent_variable) s ready)

-- A round from `s` on returns no error and leaves every object of the LogPilot stored.
abbrev pub Done :
    {S : Type 0} → Client S → (Object → Object → Type 0) → LogPilot → String → String → S → Type 0
Done c Stored lp api_variable agent_variable s =
    let (s', good) = reconcile c lp.namespace lp.name api_variable agent_variable s in
    (good ≡ true)
    × All (Installed c Stored s')
        (build_managed_objects lp (api_image_of api_variable) (agent_image_of agent_variable))

-- While the API server answers, two rounds of `Reconcile` are enough for a LogPilot without the
-- finalizer: the first adds it, and the second returns no error and leaves every object stored with
-- its content. Objects may be stored under the keys already, if the role that a binding refers to and
-- the selectors are those desired; the server takes an update only with the version that it holds and
-- with the addresses of a service as they are, and an owner only for an object that has none.
pub reconcile_twice :
    {S : Type 0} (c : Client S) (Stored : Object → Object → Type 0)
    → IsClient c Stored
    → IsUp c
    → (api_variable agent_variable : String) (s : S) (lp : LogPilot)
    → c.get_log_pilot lp.namespace lp.name s ≡ found lp
    → lp.deleting ≡ false
    → c.contains_finalizer lp log_pilot_finalizer ≡ false
    → All
        (Ready c s)
        (build_managed_objects lp (api_image_of api_variable) (agent_image_of agent_variable))
    → Done c Stored lp api_variable agent_variable
        (reconcile c lp.namespace lp.name api_variable agent_variable s).0
unfolding build_managed_objects build_support_objects build_api_deployment build_agent_daemon_set
reconcile_twice c Stored laws up api_variable agent_variable s lp h d f ready =
    let add = c.add_finalizer lp log_pilot_finalizer in
    let s' = (c.update_log_pilot add s).0 in
    let (fs, same) = laws.add_finalizer-same lp log_pilot_finalizer in
    let lp' = record lp { finalizers = fs } in
    let known : c.get_log_pilot add.namespace add.name s ≡ found lp =
      subst (λ (x : LogPilot). c.get_log_pilot x.namespace x.name s ≡ found lp) (sym same) h in
    let added : add.deleting ≡ false = subst (λ (x : LogPilot). x.deleting ≡ false) (sym same) d in
    let os = build_managed_objects lp (api_image_of api_variable) (agent_image_of agent_variable) in
    let ready' =
      Ready-later c Stored laws up s s' os
        (All-map {P = Ready c s} (λ (o : Object) r. laws.get-update_log_pilot add (object_key o) s)
          os ready)
        ready in
    let h' =
      subst (λ (x : LogPilot). c.get_log_pilot x.namespace x.name s' ≡ found x) same
        (laws.log_pilot-update add s added (up.updates_log_pilot add lp s known)) in
    let f' =
      subst (λ (x : LogPilot). c.contains_finalizer x log_pilot_finalizer ≡ true) same
        (laws.contains-add lp log_pilot_finalizer) in
    let good =
      reconcile-Good c Stored laws up lp.namespace lp.name api_variable agent_variable s' lp' h' d
        f' ready' in
    let installed =
      reconcile_installs c Stored laws lp.namespace lp.name api_variable agent_variable s' lp' h' d
        f' in
    subst (Done c Stored lp api_variable agent_variable)
      (sym (
        reconcile-add c Stored laws up lp.namespace lp.name api_variable agent_variable s lp h d f))
      (good, installed.0 good)
