-- ===== src/Agent/Status.antt =====
-- internal/log-pilot-agent/status/server.go. Each method holds the lock throughout, so a method is
-- one step on the map. The lag is signed: an input may count a record out before it counts it in.
use logpilot.Prelude.{
  ℕ, String, ◌≡◌, ◌∙◌, inl, inr, Bool, true, false, none, some, List, [], ◌∷◌, arith, str_eq,
  eq_refl, if◌then◌else◌, Bool-cases, lookup, insert, delete, lookup-insert, lookup-delete,
}
use logpilot.Prelude.Int.{ℤ, is_positive}

pub record RunnerStatus : Type 0 where
  pub name : String
  pub lag : ℤ
  pub sent : ℕ

abbrev pub Server : Type 0
Server = List (String × RunnerStatus)

unfoldable pub update_runner : String → ℤ → ℕ → Server → Server
update_runner name lag sent s = insert name (record { name = name; lag = lag; sent = sent }) s

unfoldable pub remove_runner : String → Server → Server
remove_runner name s = delete name s

-- The loop of `IsDone`.
unfoldable pub is_done : Server → Bool
is_done [] = true
is_done ((k, r) ∷ s) = if is_positive r.lag then false else is_done s

-- The body that `ServeHTTP` encodes.
unfoldable pub response : Server → List RunnerStatus
response [] = []
response ((k, r) ∷ s) = r ∷ response s

is_done-lookup :
    (s : Server) (name : String) (r : RunnerStatus)
    → is_done s ≡ true
    → lookup name s ≡ some r
    → is_positive r.lag ≡ false
unfolding is_done lookup
is_done-lookup [] name r d l = cc
is_done-lookup ((k, q) ∷ s) name r d l = ground (arith, is_done-lookup s name r)

-- After an update the server reports exactly that status for the runner, and the others as before;
-- while the lag is positive it is not done. After a removal it reports none for the runner, and the
-- others as before. Whenever it is done, no runner that it reports has lag.
pub server_reports :
    (s : Server) (name other : String) (lag : ℤ) (sent : ℕ)
    → (lookup other (update_runner name lag sent s) ≡ (
        if str_eq name other
        then some (record { name = name; lag = lag; sent = sent })
        else lookup other s))
      × (is_positive lag ≡ true → is_done (update_runner name lag sent s) ≡ false)
      × (lookup other (remove_runner name s) ≡ (if str_eq name other then none else lookup other s))
      × ((r : RunnerStatus)
          → is_done s ≡ true
          → lookup other s ≡ some r
          → is_positive r.lag ≡ false)
unfolding update_runner remove_runner
server_reports s name other lag sent =
    let new : RunnerStatus = record { name = name; lag = lag; sent = sent } in
    let here : lookup name (insert name new s) ≡ some new =
      lookup-insert name name new s ∙ rw (eq_refl name) in
    (
      lookup-insert other name new s,
      (λ p. elim (Bool-cases (is_done (insert name new s))) [
        | inl d ↦ cc (is_done-lookup (insert name new s) name new d here)
        | inr d ↦ d
      ]),
      lookup-delete other name s,
      (λ r d l. is_done-lookup s other r d l),
    )
