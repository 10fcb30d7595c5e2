-- ===== src/Agent/Watcher/Pods/Sync.antt =====
-- What `onPodDeleted` and `syncPods` do to the runners.
use logpilot.Prelude.{
  String, ◌≡◌, refl, sym, ◌∙◌, inl, inr, Bool, true, false, not, ◌&&◌, ◌||◌, none, some, List, [],
  ◌∷◌, map, arith, str_eq, eq_refl, if◌then◌else◌, Bool-cases, any, lookup,
}
use logpilot.Json.{Json}
use logpilot.Agent.Input.Dir.Persist.{Codec}
use logpilot.Agent.Watcher.Build.{Config, Pod, System}
use logpilot.Agent.Watcher.Pods.{
  RunnerEntry, Watcher, contains, remove_key, is_of, on_pod_add, on_pod_deleted, see_pod, see_pods,
  drop_gone, sync_pods,
}
use logpilot.Agent.Watcher.Pods.Keys.{lookup-keep, contains-remove_key, any-of, any-none}
use logpilot.Agent.Watcher.Pods.Adding.{on_pod_add_lem}

module _ {S : Type 0} (sys : System S) (json : Json) (codec : Codec) (usable : String → Bool)
    (cfg : Config) where
  -- A deleted pod has no runner left; the others keep theirs.
  pub lookup-on_pod_deleted :
      (w : Watcher S) (uid k : String)
      → lookup k (on_pod_deleted sys json codec usable cfg w uid).runners
        ≡ (if is_of uid k then none else lookup k w.runners)
  unfolding on_pod_deleted
  lookup-on_pod_deleted w uid k = lookup-keep (is_of uid) k w.runners

  lookup-drop_gone :
      (current uids : List String) (w : Watcher S) (seen : List String) (k : String)
      → lookup k (drop_gone sys json codec usable cfg current uids w seen).0.runners ≡ (
          if any (λ u. not (contains u current) && is_of u k) uids
          then none
          else lookup k w.runners)
  unfolding drop_gone
  lookup-drop_gone current [] w seen k = refl
  lookup-drop_gone current (u ∷ us) w seen k = ground (
    arith,
    lookup-drop_gone current us w seen k,
    lookup-drop_gone current us (on_pod_deleted sys json codec usable cfg w u) (remove_key u seen)
        k,
    lookup-on_pod_deleted w u k,
  )

  contains-drop_gone :
      (current uids : List String) (w : Watcher S) (seen : List String) (v : String)
      → contains v (drop_gone sys json codec usable cfg current uids w seen).1
        ≡ (contains v seen && not (any (λ u. not (contains u current) && str_eq u v) uids))
  unfolding drop_gone
  contains-drop_gone current [] w seen v = ground arith
  contains-drop_gone current (u ∷ us) w seen v = ground (
    arith,
    contains-drop_gone current us w seen v,
    contains-drop_gone current us (on_pod_deleted sys json codec usable cfg w u) (remove_key u seen)
        v,
    contains-remove_key v u seen,
  )

  see_pod-keeps :
      (w : Watcher S) (seen : List String) (pod : Pod) (k : String) (e : RunnerEntry)
      → lookup k w.runners ≡ some e
      → lookup k (see_pod sys json codec usable cfg w seen pod).0.runners ≡ some e
  unfolding see_pod
  see_pod-keeps w seen pod k e l = elim (Bool-cases (contains pod.uid seen)) [
    | inl c ↦ rw c l
    | inr c ↦ elim (Bool-cases (on_pod_add sys json codec usable cfg w pod).1) [
      | inl r ↦ rw c (rw r (((on_pod_add_lem sys json codec usable cfg w pod).0 k).0 e l))
      | inr r ↦ rw c (rw r (((on_pod_add_lem sys json codec usable cfg w pod).0 k).0 e l))
    ]
  ]

  see_pod-contains :
      (w : Watcher S) (seen : List String) (pod : Pod) (u : String)
      → (contains u seen ≡ true
          → contains u (see_pod sys json codec usable cfg w seen pod).1 ≡ true)
        × (contains u (see_pod sys json codec usable cfg w seen pod).1 ≡ true
            → (contains u seen || str_eq pod.uid u) ≡ true)
  unfolding see_pod contains
  see_pod-contains w seen pod u = ground arith

  see_pods-keeps :
      (w : Watcher S) (seen : List String) (pods : List Pod) (k : String) (e : RunnerEntry)
      → lookup k w.runners ≡ some e
      → lookup k (see_pods sys json codec usable cfg w seen pods).0.runners ≡ some e
  unfolding see_pods
  see_pods-keeps w seen [] k e l = l
  see_pods-keeps w seen (p ∷ ps) k e l =
      let (w', seen') = see_pod sys json codec usable cfg w seen p in
      see_pods-keeps w' seen' ps k e (see_pod-keeps w seen p k e l)

  see_pods-contains :
      (w : Watcher S) (seen : List String) (pods : List Pod) (u : String)
      → (contains u seen ≡ true
          → contains u (see_pods sys json codec usable cfg w seen pods).1 ≡ true)
        × (contains u (see_pods sys json codec usable cfg w seen pods).1 ≡ true
            → (contains u seen || contains u (map (λ (p : Pod). p.uid) pods)) ≡ true)
  unfolding see_pods contains
  see_pods-contains w seen [] u = ((λ c. c), (λ c. ground arith))
  see_pods-contains w seen (p ∷ ps) u =
      let first = see_pod sys json codec usable cfg w seen p in
      let (a, b) = see_pod-contains w seen p u in
      let (c, d) = see_pods-contains first.0 first.1 ps u in
      (
        (λ h. c (a h)),
        (λ h.
            let i = d h in
            elim (Bool-cases (contains u first.1)) [
              | inl q ↦ let j = b q in ground arith
              | inr q ↦ ground arith
            ]),
      )

  -- A pod that was seen and is not listed is gone.
  abbrev pub is_gone : List String → List Pod → String → Bool
  is_gone seen pods u = contains u seen && not (contains u (map (λ (p : Pod). p.uid) pods))

  -- After a sync that got its list no pod that had been seen and is not listed has a runner, and only
  -- listed pods count as seen; a runner that was there and is of no such pod is kept as it was. Of a
  -- pod that is not listed and had not been seen, nothing is promised.
  pub sync_pods_lem :
      (w : Watcher S) (seen : List String) (pods : List Pod)
      → let ((w', seen'), good) = sync_pods sys json codec usable cfg w seen (some pods) in
        (good ≡ true)
        × ((u k : String)
            → is_gone seen pods u ≡ true
            → is_of u k ≡ true
            → lookup k w'.runners ≡ none)
        × ((u : String)
            → contains u seen' ≡ true
            → contains u (map (λ (p : Pod). p.uid) pods) ≡ true)
        × ((k : String) (e : RunnerEntry)
            → lookup k w.runners ≡ some e
            → ((u : String) → is_gone seen pods u ≡ true → is_of u k ≡ false)
            → lookup k w'.runners ≡ some e)
  unfolding sync_pods
  sync_pods_lem w seen pods =
      let current = map (λ (p : Pod). p.uid) pods in
      let first = see_pods sys json codec usable cfg w seen pods in
      (
        refl,
        (λ u k g o.
            lookup-drop_gone current first.1 first.0 first.1 k
            ∙ rw
                (any-of (λ v. not (contains v current) && is_of v k) u first.1
                  ((see_pods-contains w seen pods u).0 (ground arith)) (ground arith))
                refl),
        (λ u c.
            let x = sym (contains-drop_gone current first.1 first.0 first.1 u) ∙ c in
            elim (Bool-cases (contains u current)) [
              | inl q ↦ q
              | inr q ↦
                  let gone =
                    any-of (λ v. not (contains v current) && str_eq v u) u first.1 (ground arith)
                      (ground (arith, eq_refl u)) in
                  absurd (ground arith)
            ]),
        (λ k e l others.
            lookup-drop_gone current first.1 first.0 first.1 k
            ∙ rw
                (any-none (λ v. not (contains v current) && is_of v k) first.1
                  (λ u c. elim (Bool-cases (contains u current)) [
                    | inl q ↦ ground arith
                    | inr q ↦
                        let s = (see_pods-contains w seen pods u).1 c in
                        let o = others u (ground arith) in ground arith
                  ]))
                (see_pods-keeps w seen pods k e l)),
      )
