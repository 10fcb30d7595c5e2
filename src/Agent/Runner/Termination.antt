-- ===== src/Agent/Runner/Termination.antt =====
-- runner.go's loops return: they end once their context is done, and fuel for that long suffices.
use logpilot.Prelude.{
  ℕ, zero, suc, ◌+◌, ◌≤◌, ◌<◌, ◌≡◌, refl, ◌∙◌, ◌⊎◌, inl, inr, Bool, true, false, Option, none, some,
  List, [], ◌∷◌, arith, Bool-cases,
}
use logpilot.Agent.Record.{Record}
use logpilot.Agent.Runner.Trace.{wait_lem}
use logpilot.Agent.Runner.{
  wait, Output, Config, World, Context, next_backoff, refused, wrote, write_loop, write_batch,
  resume, drain_round, round, drain_loop, drain_resume, run, run_loop, turn, Turn, stop, idle, skip,
  send, acknowledge, shutdown, after_read, drain_context, send,
}

-- From the time `n` on the context is done.
abbrev pub DoneBy : Context → ℕ → Type 0
DoneBy ctx n = (t : ℕ) → n ≤ t → ctx t ≡ true

-- A read that returns under a done context yields no record: it is empty, or an error. This is
-- what `Input` asks of an implementation for `shutdown` to end.
abbrev pub Quits : {S T : Type 0} → Config S T → Type 0
Quits {S = S} cfg =
    (n : ℕ) (s : S)
    → ((cfg.input.read_batch true n s).1 ≡ none) ⊎ ((cfg.input.read_batch true n s).1 ≡ some [])

abbrev Returns : {S T : Type 0} → World S T → Option (World S T × Bool) → Type 0
Returns {S = S} {T = T} w o = (u : World S T) × (b : Bool) × (o ≡ some (u, b)) × (w.now ≤ u.now)

module _ {S T : Type 0} where
  abbrev refused_once : Output T → Context → ℕ → List Record → World S T → World S T
  refused_once out ctx backoff rs w = record w {
    output = (out.write_batch (ctx (w.now + 1)) rs w.output).0;
    now = (wait ctx (w.now + 1) backoff).0;
    calls = refused rs ∷ w.calls;
  }

  write_loop_again :
      (out : Output T) (ctx : Context) (fuel backoff : ℕ) (rs : List Record) (w : World S T)
      → (out.write_batch (ctx (w.now + 1)) rs w.output).1 ≡ false
      → (wait ctx (w.now + 1) backoff).1 ≡ false
      → write_loop out ctx (suc fuel) backoff rs w
        ≡ write_loop out ctx fuel (next_backoff backoff) rs (refused_once out ctx backoff rs w)
  unfolding write_loop
  write_loop_again out ctx fuel backoff rs w a d = ground arith

  write_loop_ends :
      (out : Output T) (ctx : Context) (fuel backoff : ℕ) (rs : List Record) (w : World S T)
      → ((out.write_batch (ctx (w.now + 1)) rs w.output).1 ≡ true)
        ⊎ ((wait ctx (w.now + 1) backoff).1 ≡ true)
      → Returns w (write_loop out ctx (suc fuel) backoff rs w)
  unfolding write_loop
  write_loop_ends out ctx fuel backoff rs w h =
      elim (Bool-cases (out.write_batch (ctx (w.now + 1)) rs w.output).1) [
        | inl a ↦ (
          record w {
            output = (out.write_batch (ctx (w.now + 1)) rs w.output).0;
            now = w.now + 1;
            calls = wrote rs ∷ w.calls;
          },
          true,
          ground arith,
          omega arith,
        )
        | inr a ↦ (
          record w {
            output = (out.write_batch (ctx (w.now + 1)) rs w.output).0;
            now = (wait ctx (w.now + 1) backoff).0;
            calls = refused rs ∷ w.calls;
          },
          false,
          ground arith,
          omega (arith, (wait_lem ctx (w.now + 1) backoff).0),
        )
      ]

  write_loop_total :
      (out : Output T) (ctx : Context) (n : ℕ)
      → DoneBy ctx n
      → (fuel backoff : ℕ) (rs : List Record) (w : World S T) → 0 < fuel
      → n < w.now + fuel
      → Returns w (write_loop out ctx fuel backoff rs w)
  write_loop_total out ctx n done zero backoff rs w f h = absurd (omega arith)
  write_loop_total out ctx n done (suc fuel) backoff rs w f h =
      elim (Bool-cases (out.write_batch (ctx (w.now + 1)) rs w.output).1) [
        | inl a ↦ write_loop_ends out ctx fuel backoff rs w (inl a)
        | inr a ↦ elim (Bool-cases (wait ctx (w.now + 1) backoff).1) [
          | inl d ↦ write_loop_ends out ctx fuel backoff rs w (inr d)
          | inr d ↦
              let (forward, at_once, _) = wait_lem ctx (w.now + 1) backoff in
              let early : w.now + 1 < n = ground (arith, done (w.now + 1), at_once) in
              let (u, b, e, l) =
                write_loop_total out ctx n done fuel (next_backoff backoff) rs
                  (refused_once out ctx backoff rs w) (omega arith) (omega arith) in
              (u, b, write_loop_again out ctx fuel backoff rs w a d ∙ e, omega arith)
        ]
      ]

  write_batch_total :
      (out : Option (Output T)) (ctx : Context) (n : ℕ)
      → DoneBy ctx n
      → (fuel : ℕ) (rs : List Record) (w : World S T) → 0 < fuel
      → n < w.now + fuel
      → Returns w (write_batch out ctx fuel rs w)
  unfolding write_batch
  write_batch_total none ctx n done fuel rs w f h = (w, true, refl, omega arith)
  write_batch_total (some out) ctx n done fuel [] w f h = (w, true, refl, omega arith)
  write_batch_total (some out) ctx n done fuel (r ∷ rs) w f h =
      write_loop_total out ctx n done fuel 200 (r ∷ rs) w f h

  resume_total :
      (cfg : Config S T) (again : World S T → Option (World S T)) (rs : List Record) (w : World S T)
      (o : Option (World S T × Bool))
      → ((v : World S T) → w.now ≤ v.now → (u : World S T) × (again v ≡ some u))
      → Returns w o
      → (u : World S T) × (resume cfg again rs o ≡ some u)
  unfolding resume
  resume_total cfg again rs w o ih (u, true, e, l) =
      rw (e, resume) (ih (acknowledge cfg rs u) (omega arith))
  resume_total cfg again rs w o ih (u, false, e, l) = rw (e, resume) (u, refl)

  round_total :
      (cfg : Config S T) (again : World S T → Option (World S T)) (ctx : Context) (n fuel : ℕ)
      (w : World S T) (t : Turn)
      → DoneBy ctx n
      → 0 < fuel
      → n < w.now + fuel
      → ((v : World S T) → w.now ≤ v.now → (u : World S T) × (again v ≡ some u))
      → (u : World S T) × (round cfg again ctx fuel w t ≡ some u)
  unfolding round
  round_total cfg again ctx n fuel w stop done f h ih = (w, refl)
  round_total cfg again ctx n fuel w idle done f h ih =
      let (end, cut) = wait ctx w.now 200 in
      elim (Bool-cases cut) [
        | inl d ↦ rw (d, round) (record w { now = end }, refl)
        | inr d ↦ rw (d, round) (ih (record w { now = end }) (wait_lem ctx w.now 200).0)
      ]
  round_total cfg again ctx n fuel w skip done f h ih = ih w (omega arith)
  round_total cfg again ctx n fuel w (send rs) done f h ih =
      resume_total cfg again rs w _ ih (write_batch_total cfg.output ctx n done fuel rs w f h)

  run_loop_total :
      (cfg : Config S T) (ctx : Context) (n : ℕ)
      → DoneBy ctx n
      → (fuel : ℕ) (w : World S T) → 0 < fuel
      → n < w.now + fuel
      → (u : World S T) × (run_loop cfg ctx fuel w ≡ some u)
  unfolding run_loop
  run_loop_total cfg ctx n done zero w f h = absurd (omega arith)
  run_loop_total cfg ctx n done (suc fuel) w f h =
      let (s, got) = cfg.input.read_batch (ctx (w.now + 1)) cfg.batch_len w.input in
      elim (Bool-cases (ctx w.now)) [
        | inl d ↦ rw (d, run_loop) (w, refl)
        | inr d ↦
            let early : w.now < n = ground (arith, done w.now) in
            let (u, e) =
              round_total cfg (run_loop cfg ctx fuel) ctx n fuel (after_read got s w)
                (turn cfg.transforms got) done (omega arith) (omega arith)
                (λ v l. run_loop_total cfg ctx n done fuel v (omega arith) (omega arith)) in
            (u, rw (d, run_loop) e)
      ]

  drain_resume_total :
      (cfg : Config S T) (again : World S T → Option (World S T × Bool)) (rs : List Record)
      (w : World S T) (o : Option (World S T × Bool))
      → ((v : World S T) → w.now ≤ v.now → (u : World S T × Bool) × (again v ≡ some u))
      → Returns w o
      → (u : World S T × Bool) × (drain_resume cfg again rs o ≡ some u)
  unfolding drain_resume
  drain_resume_total cfg again rs w o ih (u, true, e, l) =
      rw (e, drain_resume) (ih (acknowledge cfg rs u) (omega arith))
  drain_resume_total cfg again rs w o ih (u, false, e, l) = rw (e, drain_resume) ((u, false), refl)

  drain_round_total :
      (cfg : Config S T) (again : World S T → Option (World S T × Bool)) (ctx : Context)
      (n fuel : ℕ) (w : World S T) (t : Turn)
      → DoneBy ctx n
      → 0 < fuel
      → n < w.now + fuel
      → ((v : World S T) → w.now ≤ v.now → (u : World S T × Bool) × (again v ≡ some u))
      → (u : World S T × Bool) × (drain_round cfg again ctx fuel w t ≡ some u)
  unfolding drain_round
  drain_round_total cfg again ctx n fuel w stop done f h ih = ((w, false), refl)
  drain_round_total cfg again ctx n fuel w idle done f h ih = ((w, true), refl)
  drain_round_total cfg again ctx n fuel w skip done f h ih = ih w (omega arith)
  drain_round_total cfg again ctx n fuel w (send rs) done f h ih =
      drain_resume_total cfg again rs w _ ih (write_batch_total cfg.output ctx n done fuel rs w f h)

  -- Under a done context the round ends the loop.
  drain_round_quits :
      (cfg : Config S T) (again : World S T → Option (World S T × Bool)) (ctx : Context) (fuel : ℕ)
      (w : World S T) (got : Option (List Record))
      → (got ≡ none) ⊎ (got ≡ some [])
      → (u : World S T × Bool) × (drain_round cfg again ctx fuel w (turn cfg.transforms got)
          ≡ some u)
  unfolding drain_round turn
  drain_round_quits cfg again ctx fuel w got (inl e) = rw (e, turn, drain_round) ((w, false), refl)
  drain_round_quits cfg again ctx fuel w got (inr e) = rw (e, turn, drain_round) ((w, true), refl)

  drain_loop_total :
      (cfg : Config S T) (ctx : Context) (n : ℕ)
      → DoneBy ctx n
      → Quits cfg
      → (fuel : ℕ) (w : World S T) → 0 < fuel
      → n < w.now + fuel
      → (u : World S T × Bool) × (drain_loop cfg ctx fuel w ≡ some u)
  unfolding drain_loop
  drain_loop_total cfg ctx n done quits zero w f h = absurd (omega arith)
  drain_loop_total cfg ctx n done quits (suc fuel) w f h =
      let (s, got) = cfg.input.read_batch (ctx (w.now + 1)) cfg.batch_len w.input in
      elim (Bool-cases (ctx (w.now + 1))) [
        | inl d ↦
            drain_round_quits cfg (drain_loop cfg ctx fuel) ctx fuel (after_read got s w) got
              (rw d (quits cfg.batch_len w.input))
        | inr d ↦
            let early : w.now + 1 < n = ground (arith, done (w.now + 1)) in
            drain_round_total cfg (drain_loop cfg ctx fuel) ctx n fuel (after_read got s w)
              (turn cfg.transforms got) done (omega arith) (omega arith)
              (λ v l. drain_loop_total cfg ctx n done quits fuel v (omega arith) (omega arith))
      ]

  -- If the context is done from the time `n` on, and the input yields nothing under a done context,
  -- then `Run`, with its `shutdown`, returns: fuel above `n` and above the five seconds that
  -- `shutdown` has is enough, whatever the output does.
  pub run_total :
      (cfg : Config S T) (ctx : Context) (n fuel : ℕ) (w : World S T)
      → DoneBy ctx n
      → Quits cfg
      → n < fuel
      → 5000 < fuel
      → (u : World S T) × (run cfg ctx fuel w ≡ some u)
  unfolding run shutdown
  run_total cfg ctx n fuel w done quits f g =
      let (v, e) = run_loop_total cfg ctx n done fuel w (omega arith) (omega arith) in
      let ((u, d), q) =
        drain_loop_total cfg (drain_context v.now) (v.now + 5000) (λ t l. ground arith) quits fuel v
          (omega arith) (omega arith) in
      rw (e, run) (rw (q, shutdown) (_, refl))
