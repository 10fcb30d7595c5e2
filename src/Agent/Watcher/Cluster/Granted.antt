-- ===== src/Agent/Watcher/Cluster/Granted.antt =====
-- Which cluster policies a node runs after a reconciliation.
use logpilot.Prelude.{
  ℕ, String, ◌≡◌, refl, sym, ap, ◌∙◌, subst, inl, inr, Bool, true, false, not, ◌&&◌, some, List, [],
  ◌∷◌, map, arith, str_eq, eq_iff, eq_refl, Bool-cases, any, insert, has, has-insert, has-delete,
}
use logpilot.Api.{ClusterLogPilotPolicy}
use logpilot.Json.{Json, Result-cases}
use logpilot.Agent.Transform.{new_slice_from_specs}
use logpilot.Agent.Output
use logpilot.Agent.Status.{Server}
use logpilot.Agent.Watcher.Build.{Config}
use logpilot.Agent.Watcher.Lease.{Attempt, acquire_cluster_policy_lease}
use logpilot.Agent.Watcher.Pods.{contains, remove_key}
use logpilot.Agent.Watcher.Pods.Keys.{any-of, contains-remove_key}
use logpilot.Agent.Watcher.Cluster.{
  ClusterRunner, ClusterWatcher, policy_key, stop_runner, start_cluster_policy_runner,
  reconcile_policy, reconcile_policies, stop_gone, reconcile_cluster_policies,
}

-- Every runner is of a policy that counts as seen.
abbrev pub Tracked : ClusterWatcher → List String → Type 0
Tracked w seen = (k : String) → has k w.runners ≡ true → contains k seen ≡ true

has-stop_runner :
    (k key : String) (w : ClusterWatcher)
    → has k (stop_runner key w).runners ≡ (has k w.runners && not (str_eq key k))
unfolding stop_runner
has-stop_runner k key w = elim (Bool-cases (has key w.runners)) [
  | inl h ↦ rw (h, stop_runner) (has-delete k key w.runners ∙ ground arith)
  | inr h ↦ elim (Bool-cases (str_eq key k)) [
    | inl q ↦
        let same : has key w.runners ≡ has k w.runners =
          ap (λ j. has j w.runners) ((eq_iff key k).0 q) in
        rw (h, stop_runner) (ground arith)
    | inr q ↦ rw (h, stop_runner) (ground arith)
  ]
]

module _ (json : Json) (usable : String → Bool) (join : List String → String) (cfg : Config) where
  -- A start touches only its own key, and where it fails not even that.
  abbrev Starts : String → ClusterWatcher → ClusterWatcher × Bool → Type 0
  Starts key w result =
      ((k : String) → str_eq key k ≡ false → has k result.0.runners ≡ has k w.runners)
      × (result.1 ≡ false → result.0.runners ≡ w.runners)

  Starts-insert :
      (key : String) (r : ClusterRunner) (w : ClusterWatcher) (st : Server)
      → Starts key w (record w { runners = insert key r w.runners; status = st }, true)
  Starts-insert key r w st =
      ((λ k q. has-insert k key r w.runners ∙ rw q refl), (λ f. absurd (ground arith)))

  start-Starts :
      (p : ClusterLogPilotPolicy) (key : String) (w : ClusterWatcher)
      → Starts key w (start_cluster_policy_runner json usable join cfg p key w)
  unfolding start_cluster_policy_runner
  start-Starts p key w =
      elim (Bool-cases (
        not (str_eq p.spec.input.type "k8sEvent")
        && not (str_eq p.spec.input.type "k8sObjectState"))) [
          | inl c ↦ rw c ((λ k q. refl), (λ f. refl))
          | inr c ↦ elim (Bool-cases (has key w.runners)) [
            | inl h ↦ rw c (rw h ((λ k q. refl), (λ f. refl)))
            | inr h ↦ elim (Result-cases (new_slice_from_specs json p.spec.transforms)) [
              | inr (x, e) ↦ rw c (rw h (rw e ((λ k q. refl), (λ f. refl))))
              | inl (ts, e) ↦ elim (Result-cases (Output.new_from_spec json usable p.spec.output)) [
                | inr (x, o) ↦ rw c (rw h (rw e (rw o ((λ k q. refl), (λ f. refl)))))
                | inl (out, o) ↦ rw c (rw h (rw e (rw o (Starts-insert key _ w w.status))))
              ]
            ]
          ]
        ]

  module _ (granted : String → Bool) where
    -- What one round of the first loop makes of a watcher whose runners are all seen.
    abbrev Rounds : ClusterLogPilotPolicy → ClusterWatcher → ClusterWatcher × List String → Type 0
    Rounds p w result =
        Tracked result.0 result.1
        × (granted p.name ≡ false → has (policy_key p) result.0.runners ≡ false)
        × ((k : String)
            → str_eq (policy_key p) k ≡ false
            → has k result.0.runners ≡ has k w.runners)

    reconcile_policy-Rounds :
        (p : ClusterLogPilotPolicy) (w : ClusterWatcher) (seen : List String)
        → Tracked w seen
        → Rounds p w (reconcile_policy json usable join cfg granted p w seen)
    unfolding reconcile_policy contains
    reconcile_policy-Rounds p w seen t =
        let key = policy_key p in
        let start = start_cluster_policy_runner json usable join cfg p key w in
        let (others, failed) = start-Starts p key w in
        elim (Bool-cases (granted p.name)) [
          | inr g ↦ elim (Bool-cases (contains key seen)) [
            | inl c ↦ rw g (
                rw c (
                  (λ k h.
                      ground (arith, has-stop_runner k key w, contains-remove_key k key seen, t k)),
                  (λ f. ground (arith, has-stop_runner key key w, eq_refl key)),
                  (λ k q. ground (arith, has-stop_runner k key w)),
                ))
            | inr c ↦ rw g (rw c (t, (λ f. ground (arith, t key)), (λ k q. refl)))
          ]
          | inl g ↦ elim (Bool-cases (contains key seen)) [
            | inl c ↦ rw g (rw c (t, (λ f. ground arith), (λ k q. refl)))
            | inr c ↦ elim (Bool-cases start.1) [
              | inl s ↦ rw g (
                  rw c (rw s ((λ k h. ground (arith, others k, t k)), (λ f. ground arith), others)))
              | inr s ↦ rw g (
                  rw c (
                    rw s (
                      (λ k h. elim (Bool-cases (str_eq key k)) [
                        | inl q ↦
                            let same = (eq_iff key k).0 q in
                            t k (sym (ap (λ m. has k m) (failed s)) ∙ h)
                        | inr q ↦ t k (sym (others k q) ∙ h)
                      ]),
                      (λ f. ground arith),
                      others,
                    )))
            ]
          ]
        ]

    unlisted :
        (ps : List ClusterLogPilotPolicy) (w : ClusterWatcher) (seen : List String) (k : String)
        → Tracked w seen
        → contains k (map policy_key ps) ≡ false
        → has k (reconcile_policies json usable join cfg granted ps w seen).0.runners
          ≡ has k w.runners
    unfolding reconcile_policies contains
    unlisted [] w seen k t n = refl
    unlisted (p ∷ ps) w seen k t n =
        let first = reconcile_policy json usable join cfg granted p w seen in
        let (t', denied, others) = reconcile_policy-Rounds p w seen t in
        unlisted ps first.0 first.1 k t' (ground arith) ∙ others k (ground arith)

    -- The key is that of a policy in the list whose lease is granted.
    abbrev pub is_granted : List ClusterLogPilotPolicy → String → Bool
    is_granted ps k =
        any (λ (p : ClusterLogPilotPolicy). str_eq (policy_key p) k && granted p.name) ps

    reconcile_policies-granted :
        (ps : List ClusterLogPilotPolicy) (w : ClusterWatcher) (seen : List String)
        → Tracked w seen
        → let (w', seen') = reconcile_policies json usable join cfg granted ps w seen in
          Tracked w' seen'
          × ((k : String)
              → has k w'.runners ≡ true
              → contains k (map policy_key ps) ≡ true
              → is_granted ps k ≡ true)
    unfolding reconcile_policies contains
    reconcile_policies-granted [] w seen t = (t, (λ k h c. ground arith))
    reconcile_policies-granted (p ∷ ps) w seen t =
        let first = reconcile_policy json usable join cfg granted p w seen in
        let (t', denied, others) = reconcile_policy-Rounds p w seen t in
        let (t'', grants) = reconcile_policies-granted ps first.0 first.1 t' in
        (
          t'',
          (λ k h c. elim (Bool-cases (contains k (map policy_key ps))) [
            | inl more ↦ let i = grants k h more in ground arith
            | inr none_left ↦ elim (Bool-cases (granted p.name)) [
              | inl g ↦ ground arith
              | inr g ↦
                  let same : policy_key p ≡ k = (eq_iff (policy_key p) k).0 (ground arith) in
                  let gone : has k first.0.runners ≡ false =
                    subst (λ j. has j first.0.runners ≡ false) same (denied g) in
                  let kept = unlisted ps first.0 first.1 k t' none_left in absurd (ground arith)
            ]
          ]),
        )

  has-stop_gone :
      (current uids : List String) (w : ClusterWatcher) (seen : List String) (k : String)
      → has k (stop_gone json usable join cfg current uids w seen).0.runners
        ≡ (has k w.runners && not (any (λ u. not (contains u current) && str_eq u k) uids))
  unfolding stop_gone
  has-stop_gone current [] w seen k = ground arith
  has-stop_gone current (u ∷ us) w seen k = ground (
    arith,
    has-stop_gone current us w seen k,
    has-stop_gone current us (stop_runner u w) (remove_key u seen) k,
    has-stop_runner k u w,
  )

  contains-stop_gone :
      (current uids : List String) (w : ClusterWatcher) (seen : List String) (k : String)
      → contains k (stop_gone json usable join cfg current uids w seen).1
        ≡ (contains k seen && not (any (λ u. not (contains u current) && str_eq u k) uids))
  unfolding stop_gone
  contains-stop_gone current [] w seen k = ground arith
  contains-stop_gone current (u ∷ us) w seen k = ground (
    arith,
    contains-stop_gone current us w seen k,
    contains-stop_gone current us (stop_runner u w) (remove_key u seen) k,
    contains-remove_key k u seen,
  )

  -- After a reconciliation that got its list, a node runs only cluster policies that are on the list
  -- and whose lease it has just acquired, and all its runners still count as seen, if they did before.
  pub reconcile_cluster_policies_lem :
      (scripts : String → ℕ → Attempt) (policies : List ClusterLogPilotPolicy) (w : ClusterWatcher)
      (seen : List String)
      → Tracked w seen
      → let (w', seen') =
          reconcile_cluster_policies json usable join cfg scripts (some policies) w seen in
        Tracked w' seen'
        × ((k : String)
            → has k w'.runners ≡ true
            → is_granted
                (λ name.
                  (acquire_cluster_policy_lease cfg.namespace cfg.node_name (scripts name)).1)
                policies
                k
              ≡ true)
  unfolding reconcile_cluster_policies
  reconcile_cluster_policies_lem scripts policies w seen t =
      let granted : String → Bool =
        λ name. (acquire_cluster_policy_lease cfg.namespace cfg.node_name (scripts name)).1 in
      let current = map policy_key policies in
      let first = reconcile_policies json usable join cfg granted policies w seen in
      let (t', grants) = reconcile_policies-granted granted policies w seen t in
      (
        (λ k h.
            let a = has-stop_gone current first.1 first.0 first.1 k in
            let b = contains-stop_gone current first.1 first.0 first.1 k in
            let c = t' k (ground arith) in ground arith),
        (λ k h.
            let a = has-stop_gone current first.1 first.0 first.1 k in
            let here : has k first.0.runners ≡ true = ground arith in
            elim (Bool-cases (contains k current)) [
              | inl c ↦ grants k here c
              | inr c ↦
                  let gone =
                    any-of (λ u. not (contains u current) && str_eq u k) k first.1 (t' k here)
                      (ground (arith, eq_refl k)) in
                  absurd (ground arith)
            ]),
      )
