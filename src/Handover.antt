-- ===== src/Handover.antt =====
-- How a policy gets from the webhook to the agent: internal/log-pilot-api/injector.go writes the
-- pod's policies to an annotation, and internal/log-pilot-agent/watcher/watcher.go reads them from
-- there. `agent_pod` is the injected pod as the agent sees it once it is scheduled.
pub mod LogPath
pub mod Access
pub mod Admission
use logpilot.Prelude.{
  ◌+◌, String, ◌≡◌, refl, sym, ap, ◌∙◌, subst, ◌↔◌, ◌⊎◌, inl, inr, Bool, true, false, Option, some,
  List, [], ◌∷◌, ◌++◌, map, str_eq, Bool-cases, Option-cases, of_some-eq-some, nonempty, lookup,
  insert, lookup-insert,
}
use logpilot.Api.{ContainerPolicy, LogPilotPolicySpec}
use logpilot.Json.{Json}
use logpilot.Webhook.Injector
use logpilot.Webhook.Injector.{
  pod_log_policy_annotation, collect_policies, inject_container, ensure_log_volume, inject_pod,
  matches_policy,
}
use logpilot.Agent.Watcher.Build
use logpilot.Agent.Watcher.Build.{parse_policies_from_pod}

-- The annotations are those that the webhook left.
abbrev pub agent_pod : String → String → String → Injector.Pod → Build.Pod
agent_pod uid name namespace pod = record {
  uid = uid;
  name = name;
  namespace = namespace;
  annotations = pod.annotations;
}

abbrev pub In : {A : Type 0} → A → List A → Type 0
In a [] = ⊥
In a (x ∷ xs) = (a ≡ x) ⊎ In a xs

In-append : {A : Type 0} (a : A) (xs ys : List A) → In a (xs ++ ys) ↔ (In a xs ⊎ In a ys)
In-append a [] ys = ((λ h. inr h), (λ h. elim h [ inl n ↦ absurd n | inr h ↦ h ]))
In-append a (x ∷ xs) ys =
    let (split, join) = In-append a xs ys in
    (
      (λ h. elim h [
        | inl e ↦ inl (inl e)
        | inr h ↦ elim (split h) [ inl l ↦ inl (inr l) | inr r ↦ inr r ]
      ]),
      (λ h. elim h [
        | inl l ↦ elim l [ inl e ↦ inl e | inr l ↦ inr (join (inl l)) ]
        | inr r ↦ inr (join (inr r))
      ]),
    )

-- The policy object has a selector, and the selector is valid and takes the pod.
abbrev pub Selects : Injector.Pod → LogPilotPolicySpec → Type 0
Selects pod p =
    (selector : List (String × String) → Option Bool) × (p.selector ≡ some selector)
    × (selector pod.labels ≡ some true)

-- The container policy stands in an object that selects the pod.
abbrev pub Wanted : Injector.Pod → List LogPilotPolicySpec → ContainerPolicy → Type 0
Wanted pod policies cp =
    (p : LogPilotPolicySpec) × In p policies × Selects pod p × In cp p.containers

matches_policy_iff :
    (pod : Injector.Pod) (p : LogPilotPolicySpec) → (matches_policy pod p ≡ true) ↔ Selects pod p
unfolding matches_policy
matches_policy_iff pod p = elim (Option-cases p.selector) [
  | inl n ↦ ((λ h. absurd (cc (rw (n, matches_policy) at h))), (λ x. absurd (cc (sym n ∙ x.1))))
  | inr (selector, e) ↦ elim (Option-cases (selector pod.labels)) [
    | inl n ↦ (
      (λ h. absurd (cc (rw (e, n, matches_policy) at h))),
      (λ x.
          let same : x.0 ≡ selector = of_some-eq-some (sym x.1 ∙ e) in
          absurd (
            cc (
              sym n
              ∙ ap (λ (f : List (String × String) → Option Bool). f pod.labels) (sym same)
              ∙ x.2))),
    )
    | inr (b, g) ↦ (
      (λ h.
          let t : b ≡ true = rw (e, g, matches_policy) at h in
          (selector, e, g ∙ ap (λ (x : Bool). some x) t)),
      (λ x.
          let same : x.0 ≡ selector = of_some-eq-some (sym x.1 ∙ e) in
          let t : b ≡ true = of_some-eq-some (
            sym g
            ∙ ap (λ (f : List (String × String) → Option Bool). f pod.labels) (sym same)
            ∙ x.2) in
          rw (e, g, matches_policy) t),
    )
  ]
]

collect_policies_iff :
    (pod : Injector.Pod) (policies : List LogPilotPolicySpec) (cp : ContainerPolicy)
    → In cp (collect_policies pod policies) ↔ Wanted pod policies cp
unfolding collect_policies
collect_policies_iff pod [] cp = ((λ h. absurd h), (λ x. absurd x.1))
collect_policies_iff pod (p ∷ ps) cp =
    let (found, back) = collect_policies_iff pod ps cp in
    let (split, join) = In-append cp p.containers (collect_policies pod ps) in
    let (selects, matches) = matches_policy_iff pod p in
    elim (Bool-cases (matches_policy pod p)) [
      | inl m ↦ rw m (
        (λ h. elim (split h) [
          | inl here ↦ (p, inl refl, selects m, here)
          | inr h ↦ let (q, i, s, c) = found h in (q, inr i, s, c)
        ]),
        (λ x. elim x.1 [
          | inl e ↦ join (inl (subst (λ (q : LogPilotPolicySpec). In cp q.containers) e x.3))
          | inr i ↦ join (inr (back (x.0, i, x.2, x.3)))
        ]),
      )
      | inr m ↦ rw m (
        (λ h. let (q, i, s, c) = found h in (q, inr i, s, c)),
        (λ x. elim x.1 [
          | inl e ↦ let t = matches (subst (Selects pod) e x.2) in absurd (cc (sym m ∙ t))
          | inr i ↦ back (x.0, i, x.2, x.3)
        ]),
      )
    ]

inject_pod-some :
    (marshal : List ContainerPolicy → Option String) (pod : Injector.Pod)
    (policies : List LogPilotPolicySpec) (raw : String)
    → nonempty (collect_policies pod policies) ≡ true
    → marshal (collect_policies pod policies) ≡ some raw
    → (pod' : Injector.Pod) × (inject_pod marshal pod policies ≡ some pod')
      × (lookup pod_log_policy_annotation pod'.annotations ≡ some raw)
unfolding inject_pod
inject_pod-some marshal pod policies raw n e =
    let cps = collect_policies pod policies in
    let pod' : Injector.Pod =
      ensure_log_volume (record pod { containers = map (inject_container cps) pod.containers })
        cps in
    (
      record pod' { annotations = insert pod_log_policy_annotation raw pod'.annotations },
      rw n (rw e refl),
      lookup-insert pod_log_policy_annotation pod_log_policy_annotation raw pod'.annotations,
    )

parse_policies_from_pod-read :
    (json : Json) (p : Build.Pod) (raw : String)
    → lookup Build.pod_log_policy_annotation p.annotations ≡ some raw
    → str_eq raw "" ≡ false
    → parse_policies_from_pod json p ≡ json.to_policies raw
unfolding parse_policies_from_pod
parse_policies_from_pod-read json p raw e full = rw (e, parse_policies_from_pod) (rw full refl)

-- A pod that no policy matches is left as it is. Any other pod is injected whenever its policies can
-- be encoded, and then the agent reads from it exactly the policies of the matching objects, in
-- order, under the annotation that the watcher looks up, if the decoder inverts the encoder on that
-- list and the encoding is not empty. These are the container policies of just those objects whose
-- selector is there, is valid and takes the pod's labels.
pub inject_pod-parse_policies_from_pod :
    (json : Json) (pod : Injector.Pod) (policies : List LogPilotPolicySpec)
    (uid name namespace : String)
    → ((raw : String)
        → json.from_policies (collect_policies pod policies) ≡ some raw
        → (json.to_policies raw ≡ some (collect_policies pod policies)) × (str_eq raw "" ≡ false))
    → (collect_policies pod policies ≡ [] → inject_pod json.from_policies pod policies ≡ some pod)
      × ((raw : String)
          → nonempty (collect_policies pod policies) ≡ true
          → json.from_policies (collect_policies pod policies) ≡ some raw
          → (pod' : Injector.Pod) × (inject_pod json.from_policies pod policies ≡ some pod')
            × (parse_policies_from_pod json (agent_pod uid name namespace pod')
                ≡ some (collect_policies pod policies)))
      × ((cp : ContainerPolicy) → In cp (collect_policies pod policies) ↔ Wanted pod policies cp)
unfolding inject_pod
inject_pod-parse_policies_from_pod json pod policies uid name namespace law = (
  (λ e. rw e refl),
  (λ raw n e.
      let (pod', same, a) = inject_pod-some json.from_policies pod policies raw n e in
      let (back, full) = law raw e in
      (
        pod',
        same,
        parse_policies_from_pod-read json (agent_pod uid name namespace pod') raw a full ∙ back,
      )),
  collect_policies_iff pod policies,
)
