-- ===== src/Handover/Admission.antt =====
-- From the admission request to the agent: `mutatePod` of internal/log-pilot-api/api.go, the patch applied
-- by the API server, and parsePoliciesFromPod of internal/log-pilot-agent/watcher/watcher.go.
use logpilot.Prelude.{
  String, ◌≡◌, refl, sym, ap, ◌∙◌, subst, ◌⊎◌, inl, inr, true, false, Option, some, List, [],
  str_eq, List-cases, of_some-eq-some, nonempty,
}
use logpilot.Api.{Bytes, LogPilotPolicySpec}
use logpilot.Json.{Json}
use logpilot.Webhook.Injector
use logpilot.Webhook.Injector.{collect_policies, inject_pod}
use logpilot.Webhook.Server.{Review, patched, mutate_pod}
use logpilot.Agent.Watcher.Build.{parse_policies_from_pod}
use logpilot.Handover.{agent_pod, inject_pod-parse_policies_from_pod}

module _ {P : Type 0} (json : Json) (decode : Bytes → Option Injector.Pod)
    (patch : Injector.Pod → Injector.Pod → P)
    (policies : String → Option (List LogPilotPolicySpec)) where
  mutate_pod-patched :
      (review : Review) (pod pod' : Injector.Pod) (specs : List LogPilotPolicySpec)
      → decode review.raw ≡ some pod
      → policies review.namespace ≡ some specs
      → inject_pod json.from_policies pod specs ≡ some pod'
      → mutate_pod decode patch policies json.from_policies review ≡ patched (patch pod pod')
  unfolding mutate_pod
  mutate_pod-patched review pod pod' specs d l e = rw (mutate_pod, d, l, e) refl

  -- A pod whose request decodes, whose namespace's policies can be listed, and whose policies can be
  -- encoded is admitted with a patch. If no policy matches the pod the patch leaves it as it is; otherwise
  -- the agent reads from the patched pod exactly the policies that match, in order. The API server
  -- applies a patch as it was made; the decoder inverts the encoder, and an encoding is not empty.
  pub mutate_pod-parse_policies_from_pod :
      (apply : P → Injector.Pod → Injector.Pod)
      → ((a b : Injector.Pod) → apply (patch a b) a ≡ b)
      → (review : Review) (pod : Injector.Pod) (specs : List LogPilotPolicySpec) (uid name : String)
        (raw : String)
      → decode review.raw ≡ some pod
      → policies review.namespace ≡ some specs
      → json.from_policies (collect_policies pod specs) ≡ some raw
      → (json.to_policies raw ≡ some (collect_policies pod specs)) × (str_eq raw "" ≡ false)
      → (p : P) × (mutate_pod decode patch policies json.from_policies review ≡ patched p)
        × (((collect_policies pod specs ≡ []) × (apply p pod ≡ pod))
            ⊎ ((nonempty (collect_policies pod specs) ≡ true)
                × (parse_policies_from_pod json (agent_pod uid name review.namespace (apply p pod))
                    ≡ some (collect_policies pod specs))))
  mutate_pod-parse_policies_from_pod apply applies review pod specs uid name raw d l e inverse =
      let (alone, injected, _) =
        inject_pod-parse_policies_from_pod json pod specs uid name review.namespace (λ raw' e'.
          subst
            (λ (r : String).
              (json.to_policies r ≡ some (collect_policies pod specs)) × (str_eq r "" ≡ false))
            (of_some-eq-some (sym e ∙ e')) inverse) in
      elim (List-cases (collect_policies pod specs)) [
        | inl n ↦ (
          patch pod pod,
          mutate_pod-patched review pod pod specs d l (alone n),
          inl (n, applies pod pod),
        )
        | inr (cp, cps, n) ↦
            let full : nonempty (collect_policies pod specs) ≡ true = ap nonempty n in
            let (pod', same, parsed) = injected raw full e in
            (
              patch pod pod',
              mutate_pod-patched review pod pod' specs d l same,
              inr (
                full,
                ap
                      (λ (q : Injector.Pod).
                        parse_policies_from_pod json (agent_pod uid name review.namespace q))
                      (applies pod pod')
                    ∙ parsed,
              ),
            )
      ]
