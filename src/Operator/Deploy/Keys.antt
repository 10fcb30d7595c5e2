-- ===== src/Operator/Deploy/Keys.antt =====
-- The objects of one LogPilot have different keys.
use logpilot.Prelude.{
  String, ◌≡◌, refl, ap, ◌≢◌, inl, inr, Bool, true, false, not, ◌&&◌, ◌||◌, List, [], ◌∷◌, arith,
  str_eq, eq_iff, Bool-cases, all, All,
}
use text.Mathlib.TextLemmas.{append_cancel_left}
use logpilot.Operator.LogPilot.{LogPilot, Object, Key, object_key, kind_of}
use logpilot.Operator.Deploy.{
  build_managed_objects, build_support_objects, build_api_deployment, build_agent_daemon_set,
  role_name, api_name, agent_name,
}

abbrev differ : Object → Object → Bool
differ o p = not (str_eq (kind_of o.body) (kind_of p.body)) || not (str_eq o.meta.name p.meta.name)

abbrev differ_all : List Object → Bool
differ_all [] = true
differ_all (o ∷ os) = all (differ o) os && differ_all os

abbrev pub Distinct : List Object → Type 0
Distinct [] = Unit
Distinct (o ∷ os) = All (λ (p : Object). object_key o ≢ object_key p) os × Distinct os

not-str_eq : (s t : String) → s ≡ t → not (str_eq s t) ≡ false
not-str_eq s t e = ap not ((eq_iff s t).1 e)

differ-keys : (o p : Object) → differ o p ≡ true → object_key o ≢ object_key p
differ-keys o p h e =
    let k = not-str_eq _ _ (ap (λ (k : Key). k.kind) e) in
    let n = not-str_eq _ _ (ap (λ (k : Key). k.name) e) in absurd (ground arith)

pub all-All :
    (o : Object) (os : List Object)
    → all (differ o) os ≡ true
    → All (λ (p : Object). object_key o ≢ object_key p) os
all-All o [] h = tt
all-All o (p ∷ ps) h = elim (Bool-cases (differ o p)) [
  | inl e ↦ (differ-keys o p e, all-All o ps (rw e at h))
  | inr e ↦ absurd (ground arith)
]

differ_all-Distinct : (os : List Object) → differ_all os ≡ true → Distinct os
differ_all-Distinct [] h = tt
differ_all-Distinct (o ∷ os) h = elim (Bool-cases (all (differ o) os)) [
  | inl e ↦ (all-All o os e, differ_all-Distinct os (rw e at h))
  | inr e ↦ absurd (ground arith)
]

role_names : (lp : LogPilot) → str_eq (role_name lp api_name) (role_name lp agent_name) ≡ false
role_names lp = elim (Bool-cases (str_eq (role_name lp api_name) (role_name lp agent_name))) [
  | inl e ↦
      let same = (eq_iff _ _).1 (append_cancel_left lp.namespace _ _ ((eq_iff _ _).0 e)) in
      absurd cc
  | inr e ↦ e
]

pub managed-Distinct :
    (lp : LogPilot) (api_image agent_image : String)
    → Distinct (build_managed_objects lp api_image agent_image)
unfolding build_managed_objects build_support_objects build_api_deployment build_agent_daemon_set
managed-Distinct lp api_image agent_image =
    differ_all-Distinct (build_managed_objects lp api_image agent_image) (rw (role_names lp) refl)
