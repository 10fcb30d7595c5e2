-- ===== src/Agent/Watcher/Pods/Adding.antt =====
-- What `OnPodAdd` does to the runners.
use logpilot.Prelude.{
  String, str_append, ◌≡◌, refl, sym, ◌∙◌, subst, inl, inr, Bool, true, false, none, some, List, [],
  ◌∷◌, arith, eq_refl, Bool-cases, Option-cases, of_some-eq-some, All, lookup, has,
  lookup-eq-none_iff, has-insert,
}
use text.Mathlib.TextPositions.{starts_with-append}
use text.Mathlib.TextLemmas.{append_assoc as text_append_assoc}
use logpilot.Api.{ContainerPolicy}
use logpilot.Json.{Json, Result-cases}
use logpilot.Agent.Input.Dir.Persist.{Codec}
use logpilot.Agent.Watcher.Build.{
  Config, Pod, System, slashed, runner_key, log_path, parse_policies_from_pod, ensure_log_path,
  build_runner,
}
use logpilot.Agent.Watcher.Pods.{RunnerEntry, Watcher, is_of, add_policy, add_policies, on_pod_add}
use logpilot.Agent.Watcher.Pods.Keys.{Grows-insert, none≢some}

module _ {S : Type 0} (sys : System S) (json : Json) (codec : Codec) (usable : String → Bool)
    (cfg : Config) where
  -- Each runner of the first watcher is one of the second, and what the second has besides is `uid`'s.
  abbrev pub Grows : String → Watcher S → Watcher S → Type 0
  Grows uid w w' =
      (k : String)
      → ((e : RunnerEntry) → lookup k w.runners ≡ some e → lookup k w'.runners ≡ some e)
        × (is_of uid k ≡ false → lookup k w'.runners ≡ lookup k w.runners)

  abbrev pub has_runner : Watcher S → Pod → ContainerPolicy → Bool
  has_runner w pod cp = has (runner_key pod.uid cp.name cp.log_type) w.runners

  is_of-runner_key :
      (uid container log_type : String) → is_of uid (runner_key uid container log_type) ≡ true
  unfolding runner_key slashed
  is_of-runner_key uid container log_type =
      subst (λ (k : String). is_of uid k ≡ true) (text_append_assoc uid "/" _)
        (starts_with-append (str_append uid "/") (str_append container (str_append "/" log_type)))

  add_policy-Grows :
      (w : Watcher S) (pod : Pod) (cp : ContainerPolicy)
      → Grows pod.uid w (add_policy sys json codec usable cfg w pod cp).0
        × ((add_policy sys json codec usable cfg w pod cp).1 ≡ true
            → has_runner (add_policy sys json codec usable cfg w pod cp).0 pod cp ≡ true)
  unfolding add_policy
  add_policy-Grows w pod cp =
      let key = runner_key pod.uid cp.name cp.log_type in
      let path = log_path cfg pod cp in
      let sys' = ensure_log_path sys pod cp path w.system in
      elim (Bool-cases (has key w.runners)) [
        | inl h ↦ rw h ((λ k. ((λ e l. l), (λ n. refl))), (λ r. h))
        | inr h ↦ elim (Bool-cases sys'.1) [
          | inl m ↦
              elim (Result-cases (build_runner sys json codec usable cp path pod.uid cfg sys'.0)) [
                | inl (r, e) ↦ rw h (
                    rw m (
                      rw e (
                        (λ k.
                            Grows-insert key _ pod.uid k w.runners h
                              (is_of-runner_key pod.uid cp.name cp.log_type)),
                        (λ ready. ground (
                          arith,
                          has-insert key key (record { runner = r; log_path = path }) w.runners,
                          eq_refl key,
                        )),
                      )))
                | inr (x, e) ↦
                    rw h (rw m (rw e ((λ k. ((λ e l. l), (λ n. refl))), (λ r. ground arith))))
              ]
          | inr m ↦ rw h (rw m ((λ k. ((λ e l. l), (λ n. refl))), (λ r. ground arith)))
        ]
      ]

  Grows-has :
      (uid : String) (w w' : Watcher S) (k : String)
      → Grows uid w w'
      → has k w.runners ≡ true
      → has k w'.runners ≡ true
  unfolding has
  Grows-has uid w w' k g h = elim (Option-cases (lookup k w.runners)) [
    | inl e ↦ absurd (let n = (lookup-eq-none_iff k w.runners).0 e in ground arith)
    | inr (v, e) ↦ rw ((g k).0 v e, has) refl
  ]

  add_policies-Grows :
      (w : Watcher S) (pod : Pod) (cps : List ContainerPolicy)
      → Grows pod.uid w (add_policies sys json codec usable cfg w pod cps).0
        × ((add_policies sys json codec usable cfg w pod cps).1 ≡ true
            → All
                (λ cp.
                  has_runner (add_policies sys json codec usable cfg w pod cps).0 pod cp ≡ true)
                cps)
  unfolding add_policies
  add_policies-Grows w pod [] = ((λ k. ((λ e l. l), (λ n. refl))), (λ r. tt))
  add_policies-Grows w pod (cp ∷ cps) =
      let first = add_policy sys json codec usable cfg w pod cp in
      let rest = add_policies sys json codec usable cfg first.0 pod cps in
      let (g, ready) = add_policy-Grows w pod cp in
      let (gs, readys) = add_policies-Grows first.0 pod cps in
      (
        (λ k. ((λ e l. (gs k).0 e ((g k).0 e l)), (λ n. (gs k).1 n ∙ (g k).1 n))),
        (λ r.
            (Grows-has pod.uid first.0 rest.0 _ gs (ready (ground arith)), readys (ground arith))),
      )

  on_pod_add-none :
      (w : Watcher S) (pod : Pod)
      → parse_policies_from_pod json pod ≡ none
      → on_pod_add sys json codec usable cfg w pod ≡ (w, true)
  unfolding on_pod_add
  on_pod_add-none w pod e = rw (e, on_pod_add) refl

  on_pod_add-some :
      (w : Watcher S) (pod : Pod) (cps : List ContainerPolicy)
      → parse_policies_from_pod json pod ≡ some cps
      → on_pod_add sys json codec usable cfg w pod
        ≡ add_policies sys json codec usable cfg w pod cps
  unfolding on_pod_add add_policies
  on_pod_add-some w pod [] e = rw (e, on_pod_add) refl
  on_pod_add-some w pod (cp ∷ cps) e = rw (e, on_pod_add) refl

  -- What adding a pod to a watcher makes of it.
  abbrev pub Adds : Watcher S → Pod → Watcher S × Bool → Type 0
  Adds w pod result =
      Grows pod.uid w result.0
      × ((cps : List ContainerPolicy)
          → parse_policies_from_pod json pod ≡ some cps
          → result.1 ≡ true
          → All (λ cp. has_runner result.0 pod cp ≡ true) cps)

  -- A pod that is added loses no runner and replaces none, no key of another pod is touched, and
  -- where the pod is reported ready each of its policies has a runner.
  pub on_pod_add_lem :
      (w : Watcher S) (pod : Pod) → Adds w pod (on_pod_add sys json codec usable cfg w pod)
  on_pod_add_lem w pod = elim (Option-cases (parse_policies_from_pod json pod)) [
    | inl e ↦
        subst (Adds w pod) (sym (on_pod_add-none w pod e))
          ((λ k. ((λ v l. l), (λ n. refl))), (λ cps q r. absurd (none≢some (sym e ∙ q))))
    | inr (cps, e) ↦
        let (g, ready) = add_policies-Grows w pod cps in
        subst (Adds w pod) (sym (on_pod_add-some w pod cps e)) (
          g,
          (λ cps' q r.
              subst
                (λ (c : List ContainerPolicy).
                  All
                    (λ cp.
                      has_runner (add_policies sys json codec usable cfg w pod cps).0 pod cp ≡ true)
                    c)
                (of_some-eq-some (sym e ∙ q)) (ready r)),
        )
  ]
