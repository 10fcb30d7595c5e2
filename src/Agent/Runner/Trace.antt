-- ===== src/Agent/Runner/Trace.antt =====
-- The trace of runner.go's calls read as what was due to the output and what reached it.
use logpilot.Prelude.{
  ℕ, zero, suc, ◌+◌, ◌≤◌, ◌≡◌, refl, ap, subst, inl, inr, Bool, true, false, Option, some, List, [],
  ◌∷◌, ◌++◌, arith, Bool-cases, of_some-eq-some,
}
use logpilot.Agent.Record.{Record}
use logpilot.Agent.Runner.{
  Output, World, Context, wait, Call, read, wrote, refused, commit, apply_transforms, write_loop,
}

-- What a batch that was read leaves to be written. An empty batch is not transformed.
abbrev pub due_of : List (List Record → Option (List Record)) → List Record → List Record
due_of ts [] = []
due_of ts (r ∷ rs) = apply_transforms ts (r ∷ rs)

-- Everything that was read, transformed, in order.
unfoldable pub due : List (List Record → Option (List Record)) → List Call → List Record
due ts [] = []
due ts (read rs ∷ cs) = due ts cs ++ due_of ts rs
due ts (_ ∷ cs) = due ts cs

-- Everything that the output accepted, in order.
unfoldable pub written : List Call → List Record
written [] = []
written (wrote rs ∷ cs) = written cs ++ rs
written (_ ∷ cs) = written cs

-- At each commit, everything read before it had been written.
abbrev pub CommitsAreSafe : List (List Record → Option (List Record)) → List Call → Type 0
CommitsAreSafe ts [] = Unit
CommitsAreSafe ts (commit ∷ cs) = (due ts cs ≡ written cs) × CommitsAreSafe ts cs
CommitsAreSafe ts (_ ∷ cs) = CommitsAreSafe ts cs

abbrev pub refusals : ℕ → List Record → List Call → List Call
refusals zero rs cs = cs
refusals (suc n) rs cs = refusals n rs (refused rs ∷ cs)

pub due-refusals :
    (ts : List (List Record → Option (List Record))) (n : ℕ) (rs : List Record) (cs : List Call)
    → due ts (refusals n rs cs) ≡ due ts cs
unfolding due
due-refusals ts zero rs cs = refl
due-refusals ts (suc n) rs cs = due-refusals ts n rs (refused rs ∷ cs)

pub written-refusals :
    (n : ℕ) (rs : List Record) (cs : List Call) → written (refusals n rs cs) ≡ written cs
unfolding written
written-refusals zero rs cs = refl
written-refusals (suc n) rs cs = written-refusals n rs (refused rs ∷ cs)

pub refusals-CommitsAreSafe :
    (ts : List (List Record → Option (List Record))) (n : ℕ) (rs : List Record) (cs : List Call)
    → CommitsAreSafe ts cs
    → CommitsAreSafe ts (refusals n rs cs)
refusals-CommitsAreSafe ts zero rs cs h = h
refusals-CommitsAreSafe ts (suc n) rs cs h = refusals-CommitsAreSafe ts n rs (refused rs ∷ cs) h

-- The last call of a write that was tried, with its batch.
abbrev pub last_call : Bool → List Record → Call
last_call true rs = wrote rs
last_call false rs = refused rs

-- A write of `rs` from `w` that returned: it has been refused some number of times and then
-- accepted, or refused once more, and the input and the count are as they were.
abbrev pub Tried : {S T : Type 0} → List Record → World S T → World S T × Bool → Type 0
Tried rs w (u, b) =
    ((n : ℕ) × (u.calls ≡ last_call b rs ∷ refusals n rs w.calls))
    × (u.sent ≡ w.sent)
    × (u.input ≡ w.input)

-- A wait goes forward, ends with the context where that is done at once, and is cut only by a done
-- context.
pub wait_lem :
    (ctx : Context) (t n : ℕ)
    → (t ≤ (wait ctx t n).0)
      × (ctx t ≡ true → (wait ctx t n).1 ≡ true)
      × ((wait ctx t n).1 ≡ true → ctx (wait ctx t n).0 ≡ true)
unfolding wait
wait_lem ctx t zero = (omega arith, (λ h. h), (λ h. h))
wait_lem ctx t (suc n) =
    let (forward, at_once, cut) = wait_lem ctx (t + 1) n in
    elim (Bool-cases (ctx t)) [
      | inl d ↦ rw (d, wait) (omega arith, (λ h. refl), (λ h. d))
      | inr d ↦ rw (d, wait) (omega arith, (λ h. absurd (cc)), cut)
    ]

module _ {S T : Type 0} where
  -- A write that is given up is given up under a done context.
  pub write_loop-cancelled :
      (out : Output T) (ctx : Context) (fuel backoff : ℕ) (rs : List Record) (w u : World S T)
      → write_loop out ctx fuel backoff rs w ≡ some (u, false)
      → ctx u.now ≡ true
  unfolding write_loop
  write_loop-cancelled out ctx zero backoff rs w u e = cc
  write_loop-cancelled out ctx (suc fuel) backoff rs w u e =
      let (t, accepted) = out.write_batch (ctx (w.now + 1)) rs w.output in
      let (end, cut) = wait ctx (w.now + 1) backoff in
      elim (Bool-cases accepted) [
        | inl a ↦ absurd (cc (ap (λ (x : World S T × Bool). x.1) (of_some-eq-some (rw a at e))))
        | inr a ↦ elim (Bool-cases cut) [
          | inl d ↦
              subst (λ (x : World S T × Bool). ctx x.0.now ≡ true)
                (of_some-eq-some (rw (a, d) at e)) ((wait_lem ctx (w.now + 1) backoff).2 d)
          | inr d ↦ write_loop-cancelled out ctx fuel _ rs _ u (rw (a, d) at e)
        ]
      ]

  -- A write that returns has tried the whole batch some number of times, refused each time but, where
  -- it succeeds, the last; it has touched neither the input nor the count of records sent.
  pub write_loop-Tried :
      (out : Output T) (ctx : Context) (fuel backoff : ℕ) (rs : List Record) (w : World S T)
      (x : World S T × Bool)
      → write_loop out ctx fuel backoff rs w ≡ some x
      → Tried rs w x
  unfolding write_loop
  write_loop-Tried out ctx zero backoff rs w x e = cc
  write_loop-Tried out ctx (suc fuel) backoff rs w x e =
      let (t, accepted) = out.write_batch (ctx (w.now + 1)) rs w.output in
      elim (Bool-cases accepted) [
        | inl a ↦ subst (Tried rs w) (of_some-eq-some (rw a at e)) ((0, refl), refl, refl)
        | inr a ↦ elim (Bool-cases (wait ctx (w.now + 1) backoff).1) [
          | inl d ↦ subst (Tried rs w) (of_some-eq-some (rw (a, d) at e)) ((0, refl), refl, refl)
          | inr d ↦
              let ((n, calls), sent, input) =
                write_loop-Tried out ctx fuel _ rs _ x (rw (a, d) at e) in
              ((suc n, calls), sent, input)
        ]
      ]
