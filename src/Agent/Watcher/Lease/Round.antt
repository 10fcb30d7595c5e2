-- ===== src/Agent/Watcher/Lease/Round.antt =====
-- What one round of `acquireClusterPolicyLease` does.
use logpilot.Prelude.{
  ℕ, ◌+◌, ◌-◌, ◌≤◌, String, ◌≡◌, refl, sym, ap, ◌∙◌, ◌≢◌, ◌↔◌, ◌⊎◌, inl, inr, Bool, true, false,
  not, ◌&&◌, none, some, List, arith, str_eq, eq_iff, leb, Bool-cases, Option-cases, All,
  All-append,
}
use logpilot.Agent.Watcher.Lease.{
  Lease, Got, found, not_found, get_failed, Written, accepted, already_exists, conflict, refused,
  Request, create, update, Attempt, lease_time, Next, ends, again, is_held, followed_by, fresh,
  renewed, after_create, after_update, attempt,
}

-- Another holds the lease, and renewed it at most 30 seconds ago.
abbrev pub TakenByOther : String → ℕ → Lease → Type 0
TakenByOther holder checked l =
    (h : String) × (t : ℕ) × (l.holder ≡ some h)
    × (l.renew_time ≡ some t)
    × (h ≢ holder)
    × (checked ≤ t + lease_time)

is_held-some :
    (holder : String) (checked : ℕ) (l : Lease) (h : String) (t : ℕ)
    → l.holder ≡ some h
    → l.renew_time ≡ some t
    → is_held holder checked l ≡ (not (str_eq h holder) && leb (checked - t) lease_time)
unfolding is_held
is_held-some holder checked l h t e f = rw e (rw f refl)

is_held_no_holder :
    (holder : String) (checked : ℕ) (l : Lease) → l.holder ≡ none → is_held holder checked l ≡ false
unfolding is_held
is_held_no_holder holder checked l e = rw e refl

is_held_no_renewal :
    (holder : String) (checked : ℕ) (l : Lease) (h : String)
    → l.holder ≡ some h
    → l.renew_time ≡ none
    → is_held holder checked l ≡ false
unfolding is_held
is_held_no_renewal holder checked l h e f = rw e (rw f (ground arith))

is_held→TakenByOther :
    (holder : String) (checked : ℕ) (l : Lease)
    → is_held holder checked l ≡ true
    → TakenByOther holder checked l
is_held→TakenByOther holder checked l q = elim (Option-cases l.holder) [
  | inl e ↦ let r = is_held_no_holder holder checked l e in ground arith
  | inr (h, e) ↦ elim (Option-cases l.renew_time) [
    | inl f ↦ let r = is_held_no_renewal holder checked l h e f in ground arith
    | inr (t, f) ↦
        let r = sym (is_held-some holder checked l h t e f) ∙ q in
        (h, t, e, f, (λ same. let w = (eq_iff h holder).1 same in ground arith), ground arith)
  ]
]

TakenByOther→is_held :
    (holder : String) (checked : ℕ) (l : Lease)
    → TakenByOther holder checked l
    → is_held holder checked l ≡ true
TakenByOther→is_held holder checked l (h, t, e, f, n, le) =
    is_held-some holder checked l h t e f ∙ elim (Bool-cases (str_eq h holder)) [
      | inl q ↦ absurd (n ((eq_iff h holder).0 q))
      | inr q ↦ ground arith
    ]

-- The request of an attempt may be made, and its answer is as given.
abbrev pub Answers : String → ℕ → Got → Written → Written → Written → Type 0
Answers holder checked not_found answer created updated = answer ≡ created
Answers holder checked get_failed answer created updated = ⊥
Answers holder checked (found l) answer created updated =
    ¬ TakenByOther holder checked l × (answer ≡ updated)

abbrev pub Wins : String → Attempt → Type 0
Wins holder a = Answers holder a.checked a.got a.answer accepted accepted

abbrev pub Retries : String → Attempt → Type 0
Retries holder a = Answers holder a.checked a.got a.answer already_exists conflict

-- The attempt may make the request.
abbrev pub Makes : String → ℕ → ℕ → Got → Request → Type 0
Makes holder now checked not_found r = r ≡ create (fresh holder now)
Makes holder now checked get_failed r = ⊥
Makes holder now checked (found l) r =
    ¬ TakenByOther holder checked l × (r ≡ update (renewed holder now l))

free :
    (holder : String) (checked : ℕ) (l : Lease)
    → is_held holder checked l ≡ false
    → ¬ TakenByOther holder checked l
free holder checked l e h = let t = TakenByOther→is_held holder checked l h in ground arith

abbrev is_won : Next → Bool
is_won (ends b) = b
is_won again = false

abbrev is_again : Next → Bool
is_again (ends b) = false
is_again again = true

won-create : (w : Written) → (is_won (after_create w) ≡ true) ↔ (w ≡ accepted)
unfolding after_create
won-create accepted = ((λ e. refl), (λ e. ap (λ x. is_won (after_create x)) e))
won-create already_exists = ((λ e. ground arith), (λ e. ap (λ x. is_won (after_create x)) e))
won-create conflict = ((λ e. ground arith), (λ e. ap (λ x. is_won (after_create x)) e))
won-create refused = ((λ e. ground arith), (λ e. ap (λ x. is_won (after_create x)) e))

won-update : (w : Written) → (is_won (after_update w) ≡ true) ↔ (w ≡ accepted)
unfolding after_update
won-update accepted = ((λ e. refl), (λ e. ap (λ x. is_won (after_update x)) e))
won-update already_exists = ((λ e. ground arith), (λ e. ap (λ x. is_won (after_update x)) e))
won-update conflict = ((λ e. ground arith), (λ e. ap (λ x. is_won (after_update x)) e))
won-update refused = ((λ e. ground arith), (λ e. ap (λ x. is_won (after_update x)) e))

again-create : (w : Written) → (is_again (after_create w) ≡ true) ↔ (w ≡ already_exists)
unfolding after_create
again-create accepted = ((λ e. ground arith), (λ e. ap (λ x. is_again (after_create x)) e))
again-create already_exists = ((λ e. refl), (λ e. ap (λ x. is_again (after_create x)) e))
again-create conflict = ((λ e. ground arith), (λ e. ap (λ x. is_again (after_create x)) e))
again-create refused = ((λ e. ground arith), (λ e. ap (λ x. is_again (after_create x)) e))

again-update : (w : Written) → (is_again (after_update w) ≡ true) ↔ (w ≡ conflict)
unfolding after_update
again-update accepted = ((λ e. ground arith), (λ e. ap (λ x. is_again (after_update x)) e))
again-update already_exists = ((λ e. ground arith), (λ e. ap (λ x. is_again (after_update x)) e))
again-update conflict = ((λ e. refl), (λ e. ap (λ x. is_again (after_update x)) e))
again-update refused = ((λ e. ground arith), (λ e. ap (λ x. is_again (after_update x)) e))

-- What one attempt does.
abbrev Describes : String → Attempt → List Request × Next → Type 0
Describes holder a result =
    All (Makes holder a.now a.checked a.got) result.0
    × ((is_won result.1 ≡ true) ↔ Wins holder a)
    × ((is_again result.1 ≡ true) ↔ Retries holder a)

attempt-Describes :
    (holder : String) (now checked : ℕ) (got : Got) (answer : Written)
    → let a : Attempt = record { now = now; got = got; checked = checked; answer = answer } in
      Describes holder a (attempt holder a)
unfolding attempt
attempt-Describes holder now checked not_found answer =
    ((refl, tt), won-create answer, again-create answer)
attempt-Describes holder now checked get_failed answer =
    (tt, ((λ e. ground arith), (λ v. absurd v)), ((λ e. ground arith), (λ v. absurd v)))
attempt-Describes holder now checked (found l) answer =
    elim (Bool-cases (is_held holder checked l)) [
      | inl q ↦
          let h = is_held→TakenByOther holder checked l q in
          rw q (
            tt,
            ((λ e. ground arith), (λ v. absurd (v.0 h))),
            ((λ e. ground arith), (λ v. absurd (v.0 h))),
          )
      | inr q ↦
          let n = free holder checked l q in
          rw q (
            ((n, refl), tt),
            ((λ e. (n, (won-update answer).0 e)), (λ v. (won-update answer).1 v.1)),
            ((λ e. (n, (again-update answer).0 e)), (λ v. (again-update answer).1 v.1)),
          )
    ]

pub attempt_lem : (holder : String) (a : Attempt) → Describes holder a (attempt holder a)
attempt_lem holder a = attempt-Describes holder a.now a.checked a.got a.answer

pub followed_by-All :
    (P : Request → Type 0) (result : List Request × Next) (rest : List Request × Bool)
    → All P result.0
    → All P rest.0
    → All P (followed_by result rest).0
unfolding followed_by
followed_by-All P (sent, ends b) rest h k = h
followed_by-All P (sent, again) rest h k = All-append P sent rest.0 h k

pub followed_by-won :
    (result : List Request × Next) (rest : List Request × Bool)
    → ((followed_by result rest).1 ≡ true)
      ↔ ((is_won result.1 ≡ true) ⊎ ((is_again result.1 ≡ true) × (rest.1 ≡ true)))
unfolding followed_by
followed_by-won (sent, ends b) rest = (inl, (λ h. elim h [ inl e ↦ e | inr h ↦ ground arith ]))
followed_by-won (sent, again) rest =
    ((λ e. inr (refl, e)), (λ h. elim h [ inl e ↦ ground arith | inr h ↦ h.1 ]))
