-- ===== src/Webhook/Server.antt =====
-- internal/log-pilot-api/api.go: `mutatePod`. The decoder, the list of policies and the maker of the patch
-- (webhook.PatchResponse) are parameters; a denial is an error response.
use logpilot.Prelude.{String, Option, none, some, List}
use logpilot.Api.{LogPilotPolicySpec, ContainerPolicy, Bytes}
use logpilot.Webhook.Injector.{Pod, inject_pod}

pub record Review : Type 0 where
  pub namespace : String
  pub raw : Bytes

pub data Response (P : Type 0) : Type 0 where
  patched : P → Response P
  errored : Response P

module _ {P : Type 0} (decode : Bytes → Option Pod) (patch : Pod → Pod → P)
    (policies : String → Option (List LogPilotPolicySpec))
    (marshal : List ContainerPolicy → Option String) where
  unfoldable pub mutate_pod : Review → Response P
  unfolding inject_pod
  mutate_pod review = elim (decode review.raw) [
    | none ↦ errored
    | some pod ↦ elim (policies review.namespace) [
      | none ↦ errored
      | some specs ↦ elim (inject_pod marshal pod specs) [
        | none ↦ errored
        | some pod' ↦ patched (patch pod pod')
      ]
    ]
  ]
