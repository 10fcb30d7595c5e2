-- ===== src/Agent/Runner/Rules.antt =====
-- Invariant rules for the two loops of runner.go: what each kind of round must keep.
use logpilot.Prelude.{
  ℕ, zero, suc, ◌+◌, ◌≡◌, refl, subst, ◌≢◌, ◌⊎◌, inl, inr, Bool, true, false, Option, none, some,
  List, [], ◌∷◌, arith, Bool-cases, of_some-eq-some,
}
use logpilot.Agent.Record.{Record}
use logpilot.Agent.Runner.{
  Config, World, Call, read, read_failed, Turn, stop, idle, skip, send, turn, Context, wait,
  after_read, write_batch, acknowledge, resume, round, run_loop, drain_loop, drain_resume,
  drain_round,
}
use logpilot.Agent.Runner.Trace.{wait_lem}

module _ {S T : Type 0} (cfg : Config S T) where
  -- What holds of the worlds between rounds, `P`, and of one in which a write was given up, `Q`.
  pub record Kept {ℓ} (ctx : Context) (P Q : World S T → Type ℓ) : Type ℓ where
    pub waited : (w : World S T) (t : ℕ) → P w → P (record w { now = t })
    pub quiet :
        (w : World S T) (s : S) (got : Option (List Record))
        → ((rs : List Record) → turn cfg.transforms got ≢ send rs)
        → P w
        → P (after_read got s w)
    pub sent :
        (w : World S T) (s : S) (got : Option (List Record)) (rs : List Record) (fuel : ℕ)
        (u : World S T)
        → turn cfg.transforms got ≡ send rs
        → P w
        → write_batch cfg.output ctx fuel rs (after_read got s w) ≡ some (u, true)
        → P (acknowledge cfg rs u)
    pub given_up :
        (w : World S T) (s : S) (got : Option (List Record)) (rs : List Record) (fuel : ℕ)
        (u : World S T)
        → turn cfg.transforms got ≡ send rs
        → P w
        → write_batch cfg.output ctx fuel rs (after_read got s w) ≡ some (u, false)
        → Q u

  -- How the loop of `Run` ends: under a done context or with a read that failed, or else with a write
  -- given up.
  abbrev Halted {ℓ} : Context → (World S T → Type ℓ) → World S T → Type ℓ
  Halted ctx P u =
      P u × ((ctx u.now ≡ true) ⊎ ((rest : List Call) × (u.calls ≡ read_failed ∷ rest)))

  abbrev pub Halts {ℓ} : Context → (P Q : World S T → Type ℓ) → World S T → Type ℓ
  Halts ctx P Q u = Halted ctx P u ⊎ Q u

  turn_idle : (got : Option (List Record)) → turn cfg.transforms got ≡ idle → got ≡ some []
  unfolding turn
  turn_idle none e = cc
  turn_idle (some []) e = refl
  turn_idle (some (r ∷ rs)) e = ground arith

  turn-stop : (got : Option (List Record)) → turn cfg.transforms got ≡ stop → got ≡ none
  unfolding turn
  turn-stop none e = refl
  turn-stop (some []) e = cc
  turn-stop (some (r ∷ rs)) e = ground arith

  failed_calls :
      (w : World S T) (s : S) (got : Option (List Record))
      → got ≡ none
      → (rest : List Call) × ((after_read got s w).calls ≡ read_failed ∷ rest)
  failed_calls w s none e = (w.calls, refl)
  failed_calls w s (some rs) e = cc

  module _ {ℓ} (ctx : Context) (P Q : World S T → Type ℓ) (k : Kept ctx P Q) where
    resume_rule :
        (again : World S T → Option (World S T)) (w : World S T) (s : S)
        (got : Option (List Record)) (rs : List Record) (fuel : ℕ) (u : World S T)
        (result : Option (World S T × Bool))
        → ((v : World S T) → P v → again v ≡ some u → Halts ctx P Q u)
        → turn cfg.transforms got ≡ send rs
        → P w
        → write_batch cfg.output ctx fuel rs (after_read got s w) ≡ result
        → resume cfg again rs result ≡ some u
        → Halts ctx P Q u
    unfolding resume
    resume_rule again w s got rs fuel u none ih t p r e = cc
    resume_rule again w s got rs fuel u (some (v, true)) ih t p r e =
        ih (acknowledge cfg rs v) (k.sent w s got rs fuel v t p r) e
    resume_rule again w s got rs fuel u (some (v, false)) ih t p r e =
        inr (subst Q (of_some-eq-some e) (k.given_up w s got rs fuel v t p r))

    round_rule :
        (again : World S T → Option (World S T)) (w : World S T) (s : S)
        (got : Option (List Record)) (fuel : ℕ) (u : World S T) (t : Turn)
        → ((v : World S T) → P v → again v ≡ some u → Halts ctx P Q u)
        → turn cfg.transforms got ≡ t
        → P w
        → round cfg again ctx fuel (after_read got s w) t ≡ some u
        → Halts ctx P Q u
    unfolding round
    round_rule again w s got fuel u stop ih t p e = inl (
        subst (Halted ctx P) (of_some-eq-some e)
          (k.quiet w s got (λ rs q. cc) p, inr (failed_calls w s got (turn-stop got t))))
    round_rule again w s got fuel u idle ih t p e =
        let (end, cut) = wait ctx (w.now + 1) 200 in
        let later = k.waited _ end (k.quiet w s got (λ rs q. cc) p) in
        elim (Bool-cases cut) [
          | inl d ↦ inl (
              subst (Halted ctx P) (of_some-eq-some (rw (d, round) at e))
                (later, inl ((wait_lem ctx (w.now + 1) 200).2 d)))
          | inr n ↦ ih _ later (rw (n, round) at e)
        ]
    round_rule again w s got fuel u skip ih t p e =
        ih (after_read got s w) (k.quiet w s got (λ rs q. cc) p) e
    round_rule again w s got fuel u (send rs) ih t p e =
        resume_rule again w s got rs fuel u _ ih t p refl e

    pub run_loop_rule :
        (fuel : ℕ) (w u : World S T) → P w → run_loop cfg ctx fuel w ≡ some u → Halts ctx P Q u
    unfolding run_loop
    run_loop_rule zero w u p e = cc
    run_loop_rule (suc fuel) w u p e =
        let (s, got) = cfg.input.read_batch (ctx (w.now + 1)) cfg.batch_len w.input in
        elim (Bool-cases (ctx w.now)) [
          | inl d ↦ inl (subst (Halted ctx P) (of_some-eq-some (rw (d, run_loop) at e)) (p, inl d))
          | inr n ↦
              round_rule (run_loop cfg ctx fuel) w s got fuel u (turn cfg.transforms got)
                (λ v q r. run_loop_rule fuel v u q r) refl p (rw (n, run_loop) at e)
        ]

  -- How the drain loop ends: with an empty batch just read, with a read that failed, or with a
  -- write given up.
  abbrev pub Ends {ℓ} : (P Q : World S T → Type ℓ) → World S T → Bool → Type ℓ
  Ends P Q u true = P u × ((rest : List Call) × (u.calls ≡ read [] ∷ rest))
  Ends P Q u false = (P u × ((rest : List Call) × (u.calls ≡ read_failed ∷ rest))) ⊎ Q u

  module _ {ℓ} (ctx : Context) (P Q : World S T → Type ℓ) (k : Kept ctx P Q) where
    drain_resume_rule :
        (again : World S T → Option (World S T × Bool)) (w : World S T) (s : S)
        (got : Option (List Record)) (rs : List Record) (fuel : ℕ) (u : World S T) (b : Bool)
        (result : Option (World S T × Bool))
        → ((v : World S T) → P v → again v ≡ some (u, b) → Ends P Q u b)
        → turn cfg.transforms got ≡ send rs
        → P w
        → write_batch cfg.output ctx fuel rs (after_read got s w) ≡ result
        → drain_resume cfg again rs result ≡ some (u, b)
        → Ends P Q u b
    unfolding drain_resume
    drain_resume_rule again w s got rs fuel u b none ih t p r e = cc
    drain_resume_rule again w s got rs fuel u b (some (v, true)) ih t p r e =
        ih (acknowledge cfg rs v) (k.sent w s got rs fuel v t p r) e
    drain_resume_rule again w s got rs fuel u b (some (v, false)) ih t p r e =
        let q : (v, false) ≡ (u, b) = of_some-eq-some e in
        subst (λ (x : World S T × Bool). Ends P Q x.0 x.1) q
          (inr (k.given_up w s got rs fuel v t p r))

    drain_round_rule :
        (again : World S T → Option (World S T × Bool)) (w : World S T) (s : S)
        (got : Option (List Record)) (fuel : ℕ) (u : World S T) (b : Bool) (t : Turn)
        → ((v : World S T) → P v → again v ≡ some (u, b) → Ends P Q u b)
        → turn cfg.transforms got ≡ t
        → P w
        → drain_round cfg again ctx fuel (after_read got s w) t ≡ some (u, b)
        → Ends P Q u b
    unfolding drain_round
    drain_round_rule again w s got fuel u b stop ih t p e =
        subst (λ (x : World S T × Bool). Ends P Q x.0 x.1) (of_some-eq-some e)
          (inl (k.quiet w s got (λ rs q. cc) p, (w.calls, rw (turn-stop got t))))
    drain_round_rule again w s got fuel u b idle ih t p e =
        subst (λ (x : World S T × Bool). Ends P Q x.0 x.1) (of_some-eq-some e)
          (k.quiet w s got (λ rs q. cc) p, (w.calls, rw (turn_idle got t)))
    drain_round_rule again w s got fuel u b skip ih t p e =
        ih (after_read got s w) (k.quiet w s got (λ rs q. cc) p) e
    drain_round_rule again w s got fuel u b (send rs) ih t p e =
        drain_resume_rule again w s got rs fuel u b _ ih t p refl e

    pub drain_loop_rule :
        (fuel : ℕ) (w u : World S T) (b : Bool)
        → P w
        → drain_loop cfg ctx fuel w ≡ some (u, b)
        → Ends P Q u b
    unfolding drain_loop
    drain_loop_rule zero w u b p e = cc
    drain_loop_rule (suc fuel) w u b p e =
        let (s, got) = cfg.input.read_batch (ctx (w.now + 1)) cfg.batch_len w.input in
        drain_round_rule (drain_loop cfg ctx fuel) w s got fuel u b (turn cfg.transforms got)
          (λ v q r. drain_loop_rule fuel v u b q r) refl p e
