-- ===== src/Agent/Watcher/Lease.antt =====
-- `acquireClusterPolicyLease` of internal/log-pilot-agent/watcher/watcher.go. The API server is a
-- script of its answers, one entry per attempt. Times are in nanoseconds; of a time that is not yet
-- reached, `time.Since` is negative, and the subtraction here stops at 0, which compares alike.
pub mod Round
pub mod Safety
use logpilot.Prelude.{
  ℕ, zero, suc, ◌+◌, ◌-◌, ◌*◌, String, Bool, true, false, not, ◌&&◌, ◌||◌, Option, none, some, List,
  [], ◌∷◌, ◌++◌, str_eq, leb, if◌then◌else◌,
}

-- `coordinationv1.LeaseSpec`
pub record Lease : Type 0 where
  pub holder : Option String
  pub duration : Option ℕ
  pub acquire_time : Option ℕ
  pub renew_time : Option ℕ

-- What `Get` answers.
pub data Got : Type 0 where
  found : Lease → Got
  not_found get_failed : Got

-- What `Create` or `Update` answers.
pub data Written : Type 0 where
  accepted already_exists conflict refused : Written

pub data Request : Type 0 where
  create update : Lease → Request

-- One attempt: the time at its start, the answer of `Get`, the time at the test for expiry, and the
-- answer of the request that may follow.
pub record Attempt : Type 0 where
  pub now : ℕ
  pub got : Got
  pub checked : ℕ
  pub answer : Written

abbrev pub lease_seconds : ℕ
lease_seconds = 30

-- `ttl`
abbrev pub lease_time : ℕ
lease_time = lease_seconds * 1000000000

-- Whether the attempts end here, and how.
pub data Next : Type 0 where
  ends : Bool → Next
  again : Next

-- Someone else holds a lease that has not expired.
unfoldable pub is_held : String → ℕ → Lease → Bool
is_held holder checked l = elim l.holder [
  | none ↦ false
  | some h ↦
      not (str_eq h holder)
      && elim l.renew_time [ none ↦ false | some t ↦ leb (checked - t) lease_time ]
]

unfoldable pub fresh : String → ℕ → Lease
fresh holder now = record {
  holder = some holder;
  duration = some lease_seconds;
  acquire_time = some now;
  renew_time = some now;
}

unfoldable pub renewed : String → ℕ → Lease → Lease
renewed holder now l = record l {
  holder = some holder;
  duration = some lease_seconds;
  renew_time = some now;
  acquire_time = elim l.acquire_time [ none ↦ some now | some t ↦ some t ];
}

-- After `Create`.
unfoldable pub after_create : Written → Next
after_create accepted = ends true
after_create already_exists = again
after_create conflict = ends false
after_create refused = ends false

-- After `Update`.
unfoldable pub after_update : Written → Next
after_update accepted = ends true
after_update already_exists = ends false
after_update conflict = again
after_update refused = ends false

-- One round of the loop, with the requests that it makes.
unfoldable pub attempt : String → Attempt → List Request × Next
unfolding is_held fresh renewed after_create after_update
attempt holder a = elim a.got [
  | not_found ↦ (create (fresh holder a.now) ∷ [], after_create a.answer)
  | get_failed ↦ ([], ends false)
  | found l ↦
      if is_held holder a.checked l
      then ([], ends false)
      else (update (renewed holder a.now l) ∷ [], after_update a.answer)
]

-- A round, and the rounds that follow where it does not end them.
unfoldable pub followed_by : List Request × Next → List Request × Bool → List Request × Bool
followed_by (sent, ends b) rest = (sent, b)
followed_by (sent, again) rest = (sent ++ rest.0, rest.1)

-- `n` rounds, from the one numbered `i`.
unfoldable pub attempts : String → (ℕ → Attempt) → ℕ → ℕ → List Request × Bool
unfolding attempt followed_by
attempts holder script zero i = ([], false)
attempts holder script (suc n) i =
    followed_by (attempt holder (script i)) (attempts holder script n (suc i))

unfoldable pub acquire_cluster_policy_lease : String → String → (ℕ → Attempt) → List Request × Bool
unfolding attempts
acquire_cluster_policy_lease namespace node_name script =
    if str_eq namespace "" || str_eq node_name ""
    then ([], false)
    else attempts node_name script 3 0
