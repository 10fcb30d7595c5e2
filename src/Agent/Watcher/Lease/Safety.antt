-- ===== src/Agent/Watcher/Lease/Safety.antt =====
-- When `acquireClusterPolicyLease` answers true, and whose leases it writes over.
use logpilot.Prelude.{
  ℕ, zero, suc, ◌+◌, ◌≤◌, ◌<◌, String, ◌≡◌, refl, sym, ap, subst, ◌↔◌, ◌⊎◌, inl, inr, true, false,
  List, [], ◌∷◌, arith, str_eq, All,
}
use logpilot.Agent.Watcher.Lease.{Request, Attempt, attempt, attempts, acquire_cluster_policy_lease}
use logpilot.Agent.Watcher.Lease.Round.{
  Wins, Retries, Makes, attempt_lem, followed_by-All, followed_by-won,
}

-- From the round numbered `i` on, some round among `n` wins, and those before it are retried.
abbrev pub WinsFrom : String → (ℕ → Attempt) → ℕ → ℕ → Type 0
WinsFrom holder script n i =
    (k : ℕ) × (i ≤ k)
    × (k < i + n)
    × Wins holder (script k)
    × ((j : ℕ) → i ≤ j → j < k → Retries holder (script j))

-- The request is one that a round among `n` from `i` on may make.
abbrev pub MadeFrom : String → (ℕ → Attempt) → ℕ → ℕ → Request → Type 0
MadeFrom holder script n i r =
    (k : ℕ) × (i ≤ k)
    × (k < i + n)
    × Makes holder (script k).now (script k).checked (script k).got r

widen :
    (holder : String) (script : ℕ → Attempt) (n i : ℕ) (rs : List Request)
    → All (MadeFrom holder script n (suc i)) rs
    → All (MadeFrom holder script (suc n) i) rs
widen holder script n i [] h = tt
widen holder script n i (r ∷ rs) ((k, a, b, m), h) =
    ((k, omega arith, omega arith, m), widen holder script n i rs h)

here :
    (holder : String) (script : ℕ → Attempt) (n i : ℕ) (rs : List Request)
    → All (Makes holder (script i).now (script i).checked (script i).got) rs
    → All (MadeFrom holder script (suc n) i) rs
here holder script n i [] h = tt
here holder script n i (r ∷ rs) (m, h) =
    ((i, omega arith, omega arith, m), here holder script n i rs h)

attempts-made :
    (holder : String) (script : ℕ → Attempt) (n i : ℕ)
    → All (MadeFrom holder script n i) (attempts holder script n i).0
unfolding attempts
attempts-made holder script zero i = tt
attempts-made holder script (suc n) i =
    followed_by-All (MadeFrom holder script (suc n) i) (attempt holder (script i)) _
      (here holder script n i _ (attempt_lem holder (script i)).0)
      (widen holder script n i _ (attempts-made holder script n (suc i)))

le-cases : (i j : ℕ) → i ≤ j → (i ≡ j) ⊎ (suc i ≤ j)
le-cases zero zero h = inl refl
le-cases zero (suc j) h = inr (omega arith)
le-cases (suc i) zero h = absurd (omega arith)
le-cases (suc i) (suc j) h = elim (le-cases i j (omega arith)) [
  | inl e ↦ inl (ap (λ k. suc k) e)
  | inr q ↦ inr (omega arith)
]

attempts-win :
    (holder : String) (script : ℕ → Attempt) (n i : ℕ)
    → (attempts holder script n i).1 ≡ true
    → WinsFrom holder script n i
unfolding attempts
attempts-win holder script zero i e = ground arith
attempts-win holder script (suc n) i e =
    let (made, won, again') = attempt_lem holder (script i) in
    elim ((followed_by-won (attempt holder (script i)) (attempts holder script n (suc i))).0 e) [
      | inl w ↦ (i, omega arith, omega arith, won.0 w, (λ j c d. absurd (omega arith)))
      | inr (r, e') ↦
          let (k, a, b, w, before) = attempts-win holder script n (suc i) e' in
          (
            k,
            omega arith,
            omega arith,
            w,
            (λ j c d. elim (le-cases i j c) [
              | inl q ↦ subst (λ m. Retries holder (script m)) q (again'.0 r)
              | inr q ↦ before j q d
            ]),
          )
    ]

attempts-won :
    (holder : String) (script : ℕ → Attempt) (n i : ℕ)
    → WinsFrom holder script n i
    → (attempts holder script n i).1 ≡ true
unfolding attempts
attempts-won holder script zero i (k, a, b, w, before) = absurd (omega arith)
attempts-won holder script (suc n) i (k, a, b, w, before) =
    let (made, won, again') = attempt_lem holder (script i) in
    (followed_by-won (attempt holder (script i)) (attempts holder script n (suc i))).1
      (elim (le-cases i k a) [
        | inl q ↦ inl (won.1 (subst (λ m. Wins holder (script m)) (sym q) w))
        | inr q ↦ inr (
          again'.1 (before i (omega arith) q),
          attempts-won holder script n (suc i)
              (k, q, omega arith, w, (λ j c d. before j (omega arith) d)),
        )
      ])

-- With a namespace and a node name, the node gets the lease exactly where one of the first three
-- rounds wins (it finds no lease and the creation is accepted, or it finds one that no other node
-- holds unexpired and the update is accepted) and every earlier round met a conflict on such a
-- request; and no round ever writes over a lease that another node holds unexpired.
pub acquire_cluster_policy_lease_iff :
    (namespace node_name : String) (script : ℕ → Attempt)
    → str_eq namespace "" ≡ false
    → str_eq node_name "" ≡ false
    → (((acquire_cluster_policy_lease namespace node_name script).1 ≡ true)
        ↔ WinsFrom node_name script 3 0)
      × All
          (MadeFrom node_name script 3 0)
          (acquire_cluster_policy_lease namespace node_name script).0
unfolding acquire_cluster_policy_lease
acquire_cluster_policy_lease_iff namespace node_name script n m = rw n (
    rw m (
      (attempts-win node_name script 3 0, attempts-won node_name script 3 0),
      attempts-made node_name script 3 0,
    ))
