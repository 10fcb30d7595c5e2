-- ===== src/Agent/Runner/Delivery.antt =====
-- What runner.go delivers: which records that were read reach the output, before which commits.
pub mod Loss
use logpilot.Prelude.{
  ℕ, ◌+◌, ◌≡◌, refl, sym, ap, ◌∙◌, ◌≢◌, ◌⊎◌, Bool, true, false, Option, none, some, List, [], ◌∷◌,
  ◌++◌, append-nil, arith, if◌then◌else◌, length, nonempty, length-append,
}
use logpilot.Agent.Record.{Record}
use logpilot.Agent.Runner.{
  Output, Config, World, Call, read, read_failed, refused, Context, Turn, send, stop, idle, skip,
  turn, turn_of, apply_transforms, write_batch, after_read, acknowledge, run_loop,
}
use logpilot.Agent.Runner.Rules.{Kept, run_loop_rule}
use logpilot.Agent.Runner.Trace.{
  due, due_of, written, CommitsAreSafe, refusals, Tried, due-refusals, written-refusals,
  refusals-CommitsAreSafe, write_loop-Tried, write_loop-cancelled,
}

abbrev pub got_call : Option (List Record) → Call
got_call got = elim got [ none ↦ read_failed | some rs ↦ read rs ]

of_send : (l rs : List Record) → turn_of l ≡ send rs → (l ≡ rs) × (nonempty rs ≡ true)
of_send [] rs q = cc
of_send (x ∷ xs) rs q = ground arith

module _ (ts : List (List Record → Option (List Record))) where
  pub turn_send :
      (got : Option (List Record)) (rs : List Record)
      → turn ts got ≡ send rs
      → (nonempty rs ≡ true)
        × ((cs : List Call) → due ts (got_call got ∷ cs) ≡ due ts cs ++ rs)
        × ((cs : List Call) → written (got_call got ∷ cs) ≡ written cs)
        × ((cs : List Call) → CommitsAreSafe ts cs → CommitsAreSafe ts (got_call got ∷ cs))
  unfolding turn due written
  turn_send none rs e = cc
  turn_send (some []) rs e = cc
  turn_send (some (r ∷ more)) rs e =
      let (same, full) = of_send (apply_transforms ts (r ∷ more)) rs e in
      (full, (λ cs. ap (◌++◌ (due ts cs)) same), (λ cs. refl), (λ cs h. h))

  -- A batch that was given up: what the transforms kept of the read `got`, which came right after
  -- `before`, and since then nothing but refusals of it.
  abbrev pub GivenUp : List Record → List Call → List Call → Type 0
  GivenUp pending before calls =
      (nonempty pending ≡ true)
      × ((got : List Record) × (n : ℕ) × (due_of ts got ≡ pending)
          × (calls ≡ refused pending ∷ refusals n pending (read got ∷ before)))

  pub Tried-GivenUp :
      {S T : Type 0} (w : World S T) (s : S) (got : Option (List Record)) (rs : List Record)
      (u : World S T)
      → turn ts got ≡ send rs
      → Tried rs (after_read got s w) (u, false)
      → GivenUp rs w.calls u.calls
  unfolding turn
  Tried-GivenUp w s none rs u e t = cc
  Tried-GivenUp w s (some []) rs u e t = cc
  Tried-GivenUp w s (some (r ∷ more)) rs u e ((n, calls), _, _) =
      let (same, full) = of_send (apply_transforms ts (r ∷ more)) rs e in
      (full, (r ∷ more, n, same, calls))

  pub turn_quiet :
      (got : Option (List Record))
      → ((rs : List Record) → turn ts got ≢ send rs)
      → ((cs : List Call) → due ts (got_call got ∷ cs) ≡ due ts cs)
        × ((cs : List Call) → written (got_call got ∷ cs) ≡ written cs)
        × ((cs : List Call) → CommitsAreSafe ts cs → CommitsAreSafe ts (got_call got ∷ cs))
  unfolding turn due written
  turn_quiet none h = ((λ cs. refl), (λ cs. refl), (λ cs k. k))
  turn_quiet (some []) h = ((λ cs. append-nil (due ts cs)), (λ cs. refl), (λ cs k. k))
  turn_quiet (some (r ∷ more)) h = (
    (λ cs. ap (◌++◌ (due ts cs)) (nothing (apply_transforms ts (r ∷ more)) h) ∙ append-nil _),
    (λ cs. refl),
    (λ cs k. k),
  )
    where
      nothing : (l : List Record) → ((rs : List Record) → turn_of l ≢ send rs) → l ≡ []
      nothing [] q = refl
      nothing (x ∷ xs) q = absurd (q (x ∷ xs) refl)

module _ {S T : Type 0} (cfg : Config S T) (out : Output T) (e : cfg.output ≡ some out) where
  pub write_batch-Tried :
      (ctx : Context) (fuel : ℕ) (rs : List Record) (w : World S T) (x : World S T × Bool)
      → nonempty rs ≡ true
      → write_batch cfg.output ctx fuel rs w ≡ some x
      → Tried rs w x
  unfolding write_batch
  write_batch-Tried ctx fuel [] w x full h = cc
  write_batch-Tried ctx fuel (r ∷ rs) w x full h =
      write_loop-Tried out ctx fuel 200 (r ∷ rs) w x (rw (e, write_batch) at h)

  pub write_batch-cancelled :
      (ctx : Context) (fuel : ℕ) (rs : List Record) (w u : World S T)
      → nonempty rs ≡ true
      → write_batch cfg.output ctx fuel rs w ≡ some (u, false)
      → ctx u.now ≡ true
  unfolding write_batch
  write_batch-cancelled ctx fuel [] w u full h = cc
  write_batch-cancelled ctx fuel (r ∷ rs) w u full h =
      write_loop-cancelled out ctx fuel 200 (r ∷ rs) w u (rw (e, write_batch) at h)

-- Between rounds: all that was read and kept by the transforms was written, each commit was made
-- with nothing outstanding, and `sent` counts what was written since it was `base`.
pub record Delivered (ts : List (List Record → Option (List Record))) (base : ℕ) {S T : Type 0}
    (w : World S T) : Type 0 where
  pub complete : due ts w.calls ≡ written w.calls
  pub safe : CommitsAreSafe ts w.calls
  pub counted : w.sent ≡ base + length (written w.calls)

-- The same after the write of the batch `pending` was given up, under a done context: it was read
-- last, all that had been read before it was written, and it is all that is outstanding.
pub record Interrupted (ctx : Context) (ts : List (List Record → Option (List Record))) (base : ℕ)
    {S T : Type 0} (w : World S T) : Type 0 where
  pub pending : List Record
  pub before : List Call
  pub given_up : GivenUp ts pending before w.calls
  pub complete : due ts before ≡ written before
  pub outstanding : due ts w.calls ≡ written w.calls ++ pending
  pub cancelled : ctx w.now ≡ true
  pub safe : CommitsAreSafe ts w.calls
  pub counted : w.sent ≡ base + length (written w.calls)

-- The trace after a write that was tried on a batch just read.
module _ (ts : List (List Record → Option (List Record))) {S T : Type 0} where
  pub Tried-trace :
      (w : World S T) (s : S) (got : Option (List Record)) (rs : List Record) (u : World S T)
      (b : Bool)
      → turn ts got ≡ send rs
      → Tried rs (after_read got s w) (u, b)
      → (due ts u.calls ≡ due ts w.calls ++ rs)
        × (written u.calls ≡ (if b then written w.calls ++ rs else written w.calls))
        × (CommitsAreSafe ts w.calls → CommitsAreSafe ts u.calls)
        × (u.sent ≡ w.sent)
  unfolding due written
  Tried-trace w s got rs u true t ((n, calls), sent, _) =
      let (full, dues, writes, safes) = turn_send ts got rs t in
      let cs = got_call got ∷ w.calls in
      (
        rw calls (due-refusals ts n rs cs ∙ dues w.calls),
        rw calls (ap (λ l. l ++ rs) (written-refusals n rs cs ∙ writes w.calls)),
        (λ h. rw calls (refusals-CommitsAreSafe ts n rs cs (safes w.calls h))),
        sent,
      )
  Tried-trace w s got rs u false t ((n, calls), sent, _) =
      let (full, dues, writes, safes) = turn_send ts got rs t in
      let cs = got_call got ∷ w.calls in
      (
        rw calls (due-refusals ts n rs cs ∙ dues w.calls),
        rw calls (written-refusals n rs cs ∙ writes w.calls),
        (λ h. rw calls (refusals-CommitsAreSafe ts n rs cs (safes w.calls h))),
        sent,
      )

module _ {S T : Type 0} (cfg : Config S T) (out : Output T) (e : cfg.output ≡ some out) where
  Delivered-Kept :
      (ctx : Context) (base : ℕ)
      → Kept cfg ctx (Delivered cfg.transforms base) (Interrupted ctx cfg.transforms base)
  unfolding due written
  Delivered-Kept ctx base = record {
    waited = λ w t p. record { complete = p.complete; safe = p.safe; counted = p.counted };
    quiet = λ w s got h p.
        let (dues, writes, safes) = turn_quiet cfg.transforms got h in
        record {
          complete = dues w.calls ∙ p.complete ∙ sym (writes w.calls);
          safe = safes w.calls p.safe;
          counted = rw (writes w.calls) p.counted;
        };
    sent = λ w s got rs fuel u t p r.
        let (full, _, _, _) = turn_send cfg.transforms got rs t in
        let tried = write_batch-Tried cfg out e ctx fuel rs _ (u, true) full r in
        let (dues, writes, safes, sent) = Tried-trace cfg.transforms w s got rs u true t tried in
        let same : due cfg.transforms u.calls ≡ written u.calls =
          dues ∙ ap (λ l. l ++ rs) p.complete ∙ sym writes in
        record {
          complete = same;
          safe = (same, safes p.safe);
          counted =
              omega (arith, ap length writes, length-append (written w.calls) rs, p.counted, sent);
        };
    given_up = λ w s got rs fuel u t p r.
        let (full, _, _, _) = turn_send cfg.transforms got rs t in
        let tried = write_batch-Tried cfg out e ctx fuel rs _ (u, false) full r in
        let (dues, writes, safes, sent) = Tried-trace cfg.transforms w s got rs u false t tried in
        record {
          pending = rs;
          before = w.calls;
          given_up = Tried-GivenUp cfg.transforms w s got rs u t tried;
          complete = p.complete;
          cancelled = write_batch-cancelled cfg out e ctx fuel rs _ u full r;
          outstanding = dues ∙ ap (λ l. l ++ rs) (p.complete ∙ sym writes);
          safe = safes p.safe;
          counted = omega (arith, ap length writes, p.counted, sent);
        };
  }

  -- With an output, the loop of `Run` that returns has either written, in order and once each, all
  -- that it read and that its transforms kept, and ended under a done context or with a read that
  -- failed; or it ended under a done context with one batch left: what the transforms kept of its last
  -- read, all before which was written, and which the output has refused since. Each commit on the way
  -- was made with nothing outstanding, and `sent` grew by exactly the records written.
  pub run_loop-Delivered :
      (ctx : Context) (fuel : ℕ) (base : ℕ) (w u : World S T)
      → Delivered cfg.transforms base w
      → run_loop cfg ctx fuel w ≡ some u
      → (Delivered cfg.transforms base u
          × ((ctx u.now ≡ true) ⊎ ((rest : List Call) × (u.calls ≡ read_failed ∷ rest))))
        ⊎ Interrupted ctx cfg.transforms base u
  run_loop-Delivered ctx fuel base w u p r =
      run_loop_rule cfg ctx _ _ (Delivered-Kept ctx base) fuel w u p r
