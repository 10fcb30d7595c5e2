-- ===== src/Operator/Controller/Finalize.antt =====
-- A LogPilot that is being deleted.
use logpilot.Prelude.{
  String, ◌≡◌, refl, sym, ap, ◌∙◌, subst, ◌⊎◌, inl, inr, Bool, true, false, not, List,
  if◌then◌else◌, if-true, if-false, Bool-cases, All, All-map,
}
use logpilot.Operator.LogPilot.{LogPilot, Object, object_key, Key}
use logpilot.Operator.Deploy.{
  build_managed_objects, build_support_objects, build_api_deployment, build_agent_daemon_set,
}
use logpilot.Operator.Reconcile.{found, not_found, Client, cleanup_log_pilot}
use logpilot.Operator.Reconcile.Contract.{IsClient}
use logpilot.Operator.Reconcile.Cleanup.{delete_all-Gone, delete_all-log_pilot}
use logpilot.Operator.Controller.{
  log_pilot_finalizer, reconcile, finalize, is_done, build_support_objects, build_api_deployment,
  build_agent_daemon_set,
}

abbrev without_finalizer : {S : Type 0} → Client S → LogPilot → S → S × Bool
without_finalizer c lp s =
    let (s', outcome) = c.update_log_pilot (c.remove_finalizer lp log_pilot_finalizer) s in
    (s', is_done outcome)

module _ {S : Type 0} (c : Client S) (namespace name api_variable agent_variable : String) (s : S)
    (lp : LogPilot) (h : c.get_log_pilot namespace name s ≡ found lp) (d : lp.deleting ≡ true)
    (f : c.contains_finalizer lp log_pilot_finalizer ≡ true) where
  reconcile-finalize : reconcile c namespace name api_variable agent_variable s ≡ (
      if (cleanup_log_pilot c lp s).1
      then without_finalizer c lp (cleanup_log_pilot c lp s).0
      else ((cleanup_log_pilot c lp s).0, false))
  unfolding reconcile finalize
  reconcile-finalize = rw (reconcile, h) (if-true _ _ d ∙ if-false _ _ (ap not f))

  reconcile_clean :
      (cleanup_log_pilot c lp s).1 ≡ true
      → reconcile c namespace name api_variable agent_variable s
        ≡ without_finalizer c lp (cleanup_log_pilot c lp s).0
  reconcile_clean e = reconcile-finalize ∙ if-true _ _ e

  reconcile_unclean :
      (cleanup_log_pilot c lp s).1 ≡ false
      → reconcile c namespace name api_variable agent_variable s
        ≡ ((cleanup_log_pilot c lp s).0, false)
  reconcile_unclean e = reconcile-finalize ∙ if-false _ _ e

-- The images play no part in what an object's key is.
managed-key :
    (P : Key → Type 0) (lp : LogPilot) (api_image agent_image : String)
    → All (λ (o : Object). P (object_key o)) (build_managed_objects lp "" "")
    → All (λ (o : Object). P (object_key o)) (build_managed_objects lp api_image agent_image)
unfolding build_managed_objects build_support_objects build_api_deployment build_agent_daemon_set
managed-key P lp api_image agent_image h = h

-- What is left of the objects, or of the LogPilot itself.
abbrev pub Finalized :
    {S : Type 0} → Client S → String → String → LogPilot → List Object → S × Bool → Type 0
Finalized c namespace name lp os (s, good) =
    All (λ (o : Object). c.get (object_key o) s ≡ not_found) os
    ⊎ ((c.get_log_pilot namespace name s ≡ found lp) × (good ≡ false))

-- The finalizer of a LogPilot that is being deleted goes only when everything is gone: after
-- `Reconcile`, none of the objects that were made for it is left, or the LogPilot is as it was, with
-- its finalizer, and an error asks for another round. An object counts as gone once the API server has
-- accepted its deletion, as for objects without finalizers.
pub reconcile_deleting :
    {S : Type 0} (c : Client S) (Stored : Object → Object → Type 0)
    → IsClient c Stored
    → (namespace name api_variable agent_variable api_image agent_image : String) (s : S)
      (lp : LogPilot)
    → c.get_log_pilot namespace name s ≡ found lp
    → lp.deleting ≡ true
    → c.contains_finalizer lp log_pilot_finalizer ≡ true
    → Finalized c namespace name lp
        (build_managed_objects lp api_image agent_image)
        (reconcile c namespace name api_variable agent_variable s)
unfolding cleanup_log_pilot
reconcile_deleting c Stored laws namespace name api_variable agent_variable api_image agent_image s
      lp h d f =
    let os = build_managed_objects lp api_image agent_image in
    let kept =
      delete_all-log_pilot c Stored laws namespace name (build_managed_objects lp "" "") s in
    elim (Bool-cases (cleanup_log_pilot c lp s).1) [
      | inl e ↦
          subst (Finalized c namespace name lp os)
            (sym (reconcile_clean c namespace name api_variable agent_variable s lp h d f e))
            (inl (
              managed-key
                (λ (k : Key).
                  c.get k (without_finalizer c lp (cleanup_log_pilot c lp s).0).0 ≡ not_found)
                lp api_image agent_image
                (All-map
                  (λ (o : Object) g.
                    laws.get-update_log_pilot (c.remove_finalizer lp log_pilot_finalizer)
                      (object_key o) _
                    ∙ g)
                  _ (delete_all-Gone c Stored laws (build_managed_objects lp "" "") s e))))
      | inr e ↦
          subst (Finalized c namespace name lp os)
            (sym (reconcile_unclean c namespace name api_variable agent_variable s lp h d f e))
            (inr (kept ∙ h, refl))
    ]
