-- ===== src/Agent/Runner.antt =====
-- internal/log-pilot-agent/runner/runner.go: the pipeline Input → Transform → Output → Clean.
-- The input, the output and the cleaner are interfaces: records of functions on a state of their
-- own. A context is a function from the time to whether it is done. Time counts milliseconds; a
-- wait advances it by its length, and each call on an interface by one. `calls` records the calls
-- made on the interfaces, newest first. `none` is fuel that ran out. `Input` is never nil: `Run`
-- calls it with no test.
pub mod Control
pub mod Rules
pub mod Trace
pub mod Delivery
pub mod Termination
use logpilot.Prelude.{
  ℕ, zero, suc, ◌+◌, ◌*◌, Bool, true, false, not, ◌&&◌, Option, none, some, List, [], ◌∷◌, ltb, leb,
  ◌==◌, if◌then◌else◌, length,
}
use logpilot.Agent.Record.{Record}

-- The flag says whether the context is done when the call returns.
pub record Input (S : Type 0) : Type 0 where
  pub read_batch : Bool → ℕ → S → S × Option (List Record)
  pub commit : S → S
  pub lag : S → ℕ
  pub close : S → S

pub record Output (T : Type 0) : Type 0 where
  pub write_batch : Bool → List Record → T → T × Bool
  pub close : T → T

pub record Config (S T : Type 0) : Type 0 where
  pub transforms : List (List Record → Option (List Record))
  pub input : Input S
  pub output : Option (Output T)
  pub has_clean : Bool
  pub batch_len : ℕ

pub data Call : Type 0 where
  read : List Record → Call
  read_failed : Call
  wrote : List Record → Call
  refused : List Record → Call
  commit close_input close_output : Call
  clean : ℕ → Call

pub record World (S T : Type 0) : Type 0 where
  pub input : S
  pub output : T
  pub sent : ℕ
  pub now : ℕ
  pub calls : List Call

abbrev pub Context : Type 0
Context = ℕ → Bool

-- `New`
unfoldable pub new : {S T : Type 0} → Config S T → Config S T
new cfg = if cfg.batch_len == 0 then record cfg { batch_len = 1000 } else cfg

unfoldable pub apply_transforms :
    List (List Record → Option (List Record)) → List Record → List Record
apply_transforms [] rs = rs
apply_transforms (t ∷ ts) rs = elim (t rs) [
  | none ↦ []
  | some out ↦ elim out [ [] ↦ [] | r ∷ more ↦ apply_transforms ts (r ∷ more) ]
]

-- What a round does with what it read: an error ends the loop, an empty batch is idle, a batch
-- of which the transforms leave nothing is skipped, and any other is sent.
pub data Turn : Type 0 where
  stop idle skip : Turn
  send : List Record → Turn

abbrev pub turn_of : List Record → Turn
turn_of [] = skip
turn_of (r ∷ rs) = send (r ∷ rs)

unfoldable pub turn : List (List Record → Option (List Record)) → Option (List Record) → Turn
unfolding apply_transforms
turn ts none = stop
turn ts (some []) = idle
turn ts (some (r ∷ rs)) = turn_of (apply_transforms ts (r ∷ rs))

-- `if backoff < 5*time.Second { backoff *= 2 }`
unfoldable pub next_backoff : ℕ → ℕ
next_backoff backoff = if ltb backoff 5000 then backoff * 2 else backoff

-- `drainCtx` ends five seconds after `shutdown` starts.
abbrev pub drain_context : ℕ → Context
drain_context start t = leb (start + 5000) t

-- A `select` on the context and on a timer, from the time `t`: when it ends, and whether it was the
-- context that ended it, which also wins where both are ready.
unfoldable pub wait : Context → ℕ → ℕ → ℕ × Bool
wait ctx t zero = (t, ctx t)
wait ctx t (suc n) = elim (ctx t) [ true ↦ (t, true) | false ↦ wait ctx (t + 1) n ]

module _ {S T : Type 0} where
  abbrev pub after_read : Option (List Record) → S → World S T → World S T
  after_read got s w = record w {
    input = s;
    now = w.now + 1;
    calls = elim got [ none ↦ read_failed | some rs ↦ read rs ] ∷ w.calls;
  }

  -- The loop of `writeBatch`. The flag is false where it returns the context's error.
  unfoldable pub write_loop :
      Output T → Context → ℕ → ℕ → List Record → World S T → Option (World S T × Bool)
  unfolding next_backoff wait
  write_loop out ctx zero backoff rs w = none
  write_loop out ctx (suc fuel) backoff rs w =
      let (t, accepted) = out.write_batch (ctx (w.now + 1)) rs w.output in
      let (end, cut) = wait ctx (w.now + 1) backoff in
      let w' = record w { output = t; now = end; calls = refused rs ∷ w.calls } in
      let again = write_loop out ctx fuel (next_backoff backoff) rs w' in
      if accepted
      then some (record w { output = t; now = w.now + 1; calls = wrote rs ∷ w.calls }, true)
      else if cut
      then some (w', false)
      else again

  unfoldable pub write_batch :
      Option (Output T) → Context → ℕ → List Record → World S T → Option (World S T × Bool)
  unfolding write_loop
  write_batch none ctx fuel rs w = some (w, true)
  write_batch (some out) ctx fuel [] w = some (w, true)
  write_batch (some out) ctx fuel (r ∷ rs) w = write_loop out ctx fuel 200 (r ∷ rs) w

  abbrev pub close_output_of : Option (Output T) → World S T → World S T
  close_output_of none w = w
  close_output_of (some out) w = record w {
    output = out.close w.output;
    calls = close_output ∷ w.calls;
  }

  module _ (cfg : Config S T) where
    -- `Input.Commit()` and `sent.Add` after a batch that was written.
    abbrev pub acknowledge : List Record → World S T → World S T
    acknowledge rs w = record w {
      input = cfg.input.commit w.input;
      sent = w.sent + length rs;
      now = w.now + 1;
      calls = commit ∷ w.calls;
    }

    -- What a round of `Run` does with what it read; `again` is the next round.
    unfoldable pub resume :
        (World S T → Option (World S T))
        → List Record
        → Option (World S T × Bool)
        → Option (World S T)
    resume again rs none = none
    resume again rs (some (u, true)) = again (acknowledge rs u)
    resume again rs (some (u, false)) = some u

    unfoldable pub round :
        (World S T → Option (World S T)) → Context → ℕ → World S T → Turn → Option (World S T)
    unfolding resume wait
    round again ctx fuel w stop = some w
    round again ctx fuel w idle =
        let (end, cut) = wait ctx w.now 200 in
        elim cut [ true ↦ some (record w { now = end }) | false ↦ again (record w { now = end }) ]
    round again ctx fuel w skip = again w
    round again ctx fuel w (send rs) = resume again rs (write_batch cfg.output ctx fuel rs w)

    -- The loop of `Run`, up to the call of `shutdown` which follows it on every way out.
    unfoldable pub run_loop : Context → ℕ → World S T → Option (World S T)
    unfolding round
    run_loop ctx zero w = none
    run_loop ctx (suc fuel) w =
        let (s, got) = cfg.input.read_batch (ctx (w.now + 1)) cfg.batch_len w.input in
        elim (ctx w.now) [
          | true ↦ some w
          | false ↦
              round (run_loop ctx fuel) ctx fuel (after_read got s w) (turn cfg.transforms got)
        ]

    -- The same for `shutdown`; the flag is `drained`, before the context's deadline is looked at.
    unfoldable pub drain_resume :
        (World S T → Option (World S T × Bool))
        → List Record
        → Option (World S T × Bool)
        → Option (World S T × Bool)
    drain_resume again rs none = none
    drain_resume again rs (some (u, true)) = again (acknowledge rs u)
    drain_resume again rs (some (u, false)) = some (u, false)

    unfoldable pub drain_round :
        (World S T → Option (World S T × Bool))
        → Context
        → ℕ
        → World S T
        → Turn
        → Option (World S T × Bool)
    unfolding drain_resume
    drain_round again ctx fuel w stop = some (w, false)
    drain_round again ctx fuel w idle = some (w, true)
    drain_round again ctx fuel w skip = again w
    drain_round again ctx fuel w (send rs) =
        drain_resume again rs (write_batch cfg.output ctx fuel rs w)

    unfoldable pub drain_loop : Context → ℕ → World S T → Option (World S T × Bool)
    unfolding drain_round
    drain_loop ctx zero w = none
    drain_loop ctx (suc fuel) w =
        let (s, got) = cfg.input.read_batch (ctx (w.now + 1)) cfg.batch_len w.input in
        drain_round (drain_loop ctx fuel) ctx fuel (after_read got s w) (turn cfg.transforms got)

    -- What `shutdown` does after its loop.
    unfoldable pub finish : Bool → World S T → World S T
    finish drained w =
        let w' =
          close_output_of cfg.output
            (record w { input = cfg.input.close w.input; calls = close_input ∷ w.calls }) in
        if cfg.has_clean && drained
        then record w' { calls = clean (cfg.input.lag w'.input) ∷ w'.calls }
        else w'

    unfoldable pub shutdown : ℕ → World S T → Option (World S T)
    unfolding drain_loop finish
    shutdown fuel w = elim (drain_loop (drain_context w.now) fuel w) [
      | none ↦ none
      | some (u, drained) ↦ some (finish (drained && not (drain_context w.now u.now)) u)
    ]

    unfoldable pub run : Context → ℕ → World S T → Option (World S T)
    unfolding run_loop shutdown
    run ctx fuel w = elim (run_loop ctx fuel w) [ none ↦ none | some u ↦ shutdown fuel u ]
