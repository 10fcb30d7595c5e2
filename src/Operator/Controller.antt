-- ===== src/Operator/Controller.antt =====
-- internal/log-pilot-operator/logpilot_controller.go: `Reconcile` of a LogPilot.
pub mod Finalize
pub mod Install
pub mod Progress
use logpilot.Prelude.{
  String, Bool, true, false, not, Option, none, some, List, [], ◌∷◌, str_eq, if◌then◌else◌,
}
use logpilot.Operator.LogPilot.{LogPilot, ObjectMeta, Object}
use logpilot.Operator.Deploy.{build_support_objects, build_api_deployment, build_agent_daemon_set}
use logpilot.Operator.Reconcile.{
  found, not_found, get_failed, Client, is_done, reconcile_object, reconcile_deployment,
  reconcile_daemon_set, cleanup_log_pilot, Outcome,
}

abbrev pub log_pilot_finalizer : String
log_pilot_finalizer = "logpilot.logpilot.jimyag.com/finalizer"

-- `os.Getenv` of a variable, and the image where it is not set.
unfoldable pub image_of : String → String → String
image_of variable fallback = if str_eq variable "" then fallback else variable

abbrev pub api_image_of : String → String
api_image_of variable = image_of variable "ghcr.io/jimyag/logpilot/log-pilot-api:latest"

abbrev pub agent_image_of : String → String
agent_image_of variable = image_of variable "ghcr.io/jimyag/logpilot/log-pilot-agent:latest"

-- An error ends the calls; the flag is false where one is returned, here and below.
abbrev pub and_then : {S : Type 0} → S × Bool → (S → S × Bool) → S × Bool
and_then (s, true) next = next s
and_then (s, false) next = (s, false)

abbrev pub with_meta : Object → Option ObjectMeta → Option Object
with_meta o none = none
with_meta o (some meta) = some (record o { meta = meta })

module _ {S : Type 0} (c : Client S) where
  -- `ctrl.SetControllerReference` on the object; none where it fails.
  abbrev pub owned : LogPilot → Object → Option Object
  owned lp o = with_meta o (c.set_controller_reference lp o.meta)

  -- Only a support object in a namespace gets an owner.
  abbrev pub owned_support : LogPilot → Object → Option Object
  owned_support lp o = if not (str_eq o.meta.namespace "") then owned lp o else some o

  abbrev pub put : (Object → S → S × Outcome) → Option Object → S → S × Bool
  put reconcile_one none s = (s, false)
  put reconcile_one (some o) s = let (s', outcome) = reconcile_one o s in (s', is_done outcome)

  -- The loop over the support objects.
  unfoldable pub install_support : LogPilot → List Object → S → S × Bool
  unfolding reconcile_object
  install_support lp [] s = (s, true)
  install_support lp (o ∷ os) s =
      and_then (put (reconcile_object c) (owned_support lp o) s) (install_support lp os)

  unfoldable pub install_deployment : LogPilot → String → S → S × Bool
  unfolding build_api_deployment reconcile_deployment
  install_deployment lp image s =
      put (reconcile_deployment c) (owned lp (build_api_deployment lp image)) s

  unfoldable pub install_daemon_set : LogPilot → String → S → S × Bool
  unfolding build_agent_daemon_set reconcile_daemon_set
  install_daemon_set lp image s =
      put (reconcile_daemon_set c) (owned lp (build_agent_daemon_set lp image)) s

  -- `Reconcile` from the images on.
  unfoldable pub install : LogPilot → String → String → S → S × Bool
  unfolding build_support_objects install_support install_deployment install_daemon_set
  install lp api_image agent_image s =
      and_then (install_support lp (build_support_objects lp) s)
        (λ s'. and_then (install_deployment lp api_image s') (install_daemon_set lp agent_image))

  abbrev update : LogPilot → S → S × Bool
  update lp s = let (s', outcome) = c.update_log_pilot lp s in (s', is_done outcome)

  -- What `Reconcile` does to a LogPilot that is being deleted.
  unfoldable pub finalize : LogPilot → S → S × Bool
  unfolding cleanup_log_pilot
  finalize lp s =
      let (s', clean) = cleanup_log_pilot c lp s in
      if not (c.contains_finalizer lp log_pilot_finalizer)
      then (s, true)
      else if clean
      then update (c.remove_finalizer lp log_pilot_finalizer) s'
      else (s', false)

  unfoldable pub reconcile : String → String → String → String → S → S × Bool
  unfolding finalize install image_of
  reconcile namespace name api_variable agent_variable s = elim (c.get_log_pilot namespace name s) [
    | get_failed ↦ (s, false)
    | not_found ↦ (s, true)
    | found lp ↦
        if lp.deleting
        then finalize lp s
        else if not (c.contains_finalizer lp log_pilot_finalizer)
        then update (c.add_finalizer lp log_pilot_finalizer) s
        else install lp (api_image_of api_variable) (agent_image_of agent_variable) s
  ]
