-- ===== src/Agent/Runner/Delivery/Loss.antt =====
-- What a whole `Run` of runner.go, with its `shutdown`, delivers and cleans.
use logpilot.Prelude.{
  ℕ, ◌≡◌, refl, sym, ap, ◌∙◌, subst, ◌⊎◌, inl, inr, Bool, true, false, not, ◌&&◌, Option, some,
  List, [], ◌∷◌, ◌++◌, append_assoc, append-nil, arith, Bool-cases, Option-cases, of_some-eq-some,
}
use logpilot.Agent.Record.{Record}
use logpilot.Agent.Runner.{
  Output, Config, World, Call, read, read_failed, close_input, close_output, clean, Context,
  run_loop, drain_loop, finish, drain_context, shutdown, run,
}
use logpilot.Agent.Runner.Rules.{Kept, drain_loop_rule, Ends}
use logpilot.Agent.Runner.Trace.{due, written}
use logpilot.Agent.Runner.Delivery.{
  turn_send, turn_quiet, write_batch-Tried, write_batch-cancelled, GivenUp, Tried-GivenUp,
  Tried-trace, Delivered, Interrupted, run_loop-Delivered,
}

-- `a` was written, `lost` was due after it and was not, and from then on all that was due was
-- written.
pub record Behind (ts : List (List Record → Option (List Record))) (a lost : List Record)
    {S T : Type 0} (w : World S T) : Type 0 where
  pub tail : List Record
  pub dues : due ts w.calls ≡ (a ++ lost) ++ tail
  pub writes : written w.calls ≡ a ++ tail

-- The same where the loop of `shutdown` has given up a batch, under its own context.
pub record GaveUp (ctx : Context) (ts : List (List Record → Option (List Record)))
    (a lost : List Record) {S T : Type 0} (w : World S T) : Type 0 where
  pub tail : List Record
  pub pending : List Record
  pub before : List Call
  pub dues : due ts w.calls ≡ (a ++ lost) ++ (tail ++ pending)
  pub writes : written w.calls ≡ a ++ tail
  pub given_up : GivenUp ts pending before w.calls
  pub cancelled : ctx w.now ≡ true

-- The calls that `shutdown` makes behind its loop: it closes both ends, and may clean.
abbrev pub Closes : List Call → List Call → Type 0
Closes drained calls =
    (calls ≡ close_output ∷ close_input ∷ drained)
    ⊎ ((lag : ℕ) × (calls ≡ clean lag ∷ close_output ∷ close_input ∷ drained))

-- How the loop of `shutdown` left off: nothing is pending and its last read found nothing or failed;
-- or `pending` is one batch, given up at a time when its context was done.
abbrev pub LeftOff :
    Context → List (List Record → Option (List Record)) → List Record → ℕ → List Call → Type 0
LeftOff ctx ts pending now drained =
    ((pending ≡ [])
      × ((rest : List Call) × ((drained ≡ read [] ∷ rest) ⊎ (drained ≡ read_failed ∷ rest))))
    ⊎ (((before : List Call) × GivenUp ts pending before drained) × (ctx now ≡ true))

-- After `shutdown`: `a` was written, `lost` was not, and behind it everything was but for `pending`.
pub record BehindTwice (ctx : Context) (ts : List (List Record → Option (List Record)))
    (a lost : List Record) {S T : Type 0} (w : World S T) : Type 0 where
  pub tail : List Record
  pub pending : List Record
  pub drained : List Call
  pub dues : due ts w.calls ≡ (a ++ lost) ++ (tail ++ pending)
  pub writes : written w.calls ≡ a ++ tail
  pub left_off : LeftOff ctx ts pending w.now drained
  pub closes : Closes drained w.calls

module _ {S T : Type 0} (cfg : Config S T) (out : Output T) (e : cfg.output ≡ some out) where
  Behind-Kept :
      (ctx : Context) (a lost : List Record)
      → Kept cfg ctx (Behind cfg.transforms a lost) (GaveUp ctx cfg.transforms a lost)
  unfolding due written
  Behind-Kept ctx a lost = record {
    waited = λ w t p. record { tail = p.tail; dues = p.dues; writes = p.writes };
    quiet = λ w s got h p.
        let (dues, writes, safes) = turn_quiet cfg.transforms got h in
        record { tail = p.tail; dues = dues w.calls ∙ p.dues; writes = writes w.calls ∙ p.writes };
    sent = λ w s got rs fuel u t p r.
        let (full, _, _, _) = turn_send cfg.transforms got rs t in
        let tried = write_batch-Tried cfg out e ctx fuel rs _ (u, true) full r in
        let (dues, writes, safes, sent) = Tried-trace cfg.transforms w s got rs u true t tried in
        record {
          tail = p.tail ++ rs;
          dues = dues ∙ ap (λ l. l ++ rs) p.dues ∙ append_assoc (a ++ lost) p.tail rs;
          writes = writes ∙ ap (λ l. l ++ rs) p.writes ∙ append_assoc a p.tail rs;
        };
    given_up = λ w s got rs fuel u t p r.
        let (full, _, _, _) = turn_send cfg.transforms got rs t in
        let tried = write_batch-Tried cfg out e ctx fuel rs _ (u, false) full r in
        let (dues, writes, safes, sent) = Tried-trace cfg.transforms w s got rs u false t tried in
        record {
          tail = p.tail;
          pending = rs;
          before = w.calls;
          given_up = Tried-GivenUp cfg.transforms w s got rs u t tried;
          cancelled = write_batch-cancelled cfg out e ctx fuel rs _ u full r;
          dues = dues ∙ ap (λ l. l ++ rs) p.dues ∙ append_assoc (a ++ lost) p.tail rs;
          writes = writes ∙ p.writes;
        };
  }

  -- What the end of the loop leaves, before anything is closed.
  abbrev Drained : Context → List Record → List Record → World S T → Type 0
  Drained ctx a lost u =
      (tail : List Record) × (pending : List Record) × (due cfg.transforms u.calls
        ≡ (a ++ lost) ++ (tail ++ pending))
      × (written u.calls ≡ a ++ tail)
      × LeftOff ctx cfg.transforms pending u.now u.calls

  Behind-Drained :
      (ctx : Context) (a lost : List Record) (u : World S T)
      → Behind cfg.transforms a lost u
      → (rest : List Call) × ((u.calls ≡ read [] ∷ rest) ⊎ (u.calls ≡ read_failed ∷ rest))
      → Drained ctx a lost u
  Behind-Drained ctx a lost u p r =
      (p.tail, [], rw (append-nil p.tail) p.dues, p.writes, inl (refl, r))

  Ends-Drained :
      (ctx : Context) (a lost : List Record) (u : World S T) (b : Bool)
      → Ends cfg (Behind cfg.transforms a lost) (GaveUp ctx cfg.transforms a lost) u b
      → Drained ctx a lost u
  Ends-Drained ctx a lost u true (p, (rest, e)) = Behind-Drained ctx a lost u p (rest, inl e)
  Ends-Drained ctx a lost u false (inl (p, (rest, e))) = Behind-Drained ctx a lost u p (rest, inr e)
  Ends-Drained ctx a lost u false (inr q) = gave_up q
    where
      gave_up : GaveUp ctx cfg.transforms a lost u → Drained ctx a lost u
      gave_up q = (q.tail, q.pending, q.dues, q.writes, inr ((q.before, q.given_up), q.cancelled))

  finish-Closes :
      (d : Bool) (w : World S T)
      → ((finish cfg d w).now ≡ w.now) × Closes w.calls (finish cfg d w).calls
  unfolding finish
  finish-Closes d w = elim (Bool-cases (cfg.has_clean && d)) [
    | inl c ↦ rw (e, c, finish) (refl, inr (_, refl))
    | inr c ↦ rw (e, c, finish) (refl, inl refl)
  ]

  finish-trace :
      (d : Bool) (w : World S T)
      → (due cfg.transforms (finish cfg d w).calls ≡ due cfg.transforms w.calls)
        × (written (finish cfg d w).calls ≡ written w.calls)
  unfolding finish due written
  finish-trace d w = rw e (ground arith)

  Drained-finish :
      (ctx : Context) (a lost : List Record) (d : Bool) (v : World S T)
      → Drained ctx a lost v
      → BehindTwice ctx cfg.transforms a lost (finish cfg d v)
  Drained-finish ctx a lost d v (tail, pending, due_v, written_v, left) =
      let (dues, writes) = finish-trace d v in
      let (now, closes) = finish-Closes d v in
      record {
        tail = tail;
        pending = pending;
        drained = v.calls;
        dues = dues ∙ due_v;
        writes = writes ∙ written_v;
        left_off = subst (λ t. LeftOff ctx cfg.transforms pending t v.calls) (sym now) left;
        closes = closes;
      }

  shutdown-Behind :
      (fuel : ℕ) (a lost : List Record) (w u : World S T)
      → Behind cfg.transforms a lost w
      → shutdown cfg fuel w ≡ some u
      → BehindTwice (drain_context w.now) cfg.transforms a lost u
  unfolding shutdown
  shutdown-Behind fuel a lost w u p r =
      elim (Option-cases (drain_loop cfg (drain_context w.now) fuel w)) [
        | inl n ↦ absurd (cc (rw (n, shutdown) at r))
        | inr ((v, d), q) ↦
            subst (BehindTwice (drain_context w.now) cfg.transforms a lost)
              (of_some-eq-some (rw (q, shutdown) at r))
              (Drained-finish (drain_context w.now) a lost (d && not (drain_context w.now v.now)) v
                (Ends-Drained (drain_context w.now) a lost v d (
                  drain_loop_rule cfg (drain_context w.now) _ _
                    (Behind-Kept (drain_context w.now) a lost) fuel w v d p q)))
      ]

  -- With an output, a `Run` that returns has written, in order and once each, all that it read and
  -- that its transforms kept, but for at most two batches. One is what the transforms kept of the last
  -- read of the loop of `Run`, refused until that loop's context was done, which `shutdown` steps over.
  -- The other is what they kept of the last read of `shutdown`, refused until five seconds after
  -- `shutdown` had started; without it, the last read of `shutdown` found nothing or failed. Behind
  -- its last read or write `shutdown` only closes both ends and may clean.
  pub run_gaps :
      (ctx : Context) (fuel base : ℕ) (w u : World S T)
      → Delivered cfg.transforms base w
      → run cfg ctx fuel w ≡ some u
      → (v : World S T) × (run_loop cfg ctx fuel w ≡ some v)
        × ((Delivered cfg.transforms base v
              × BehindTwice (drain_context v.now) cfg.transforms (written v.calls) [] u)
            ⊎ ((i : Interrupted ctx cfg.transforms base v) × BehindTwice
                  (drain_context v.now)
                  cfg.transforms
                  (written v.calls)
                  i.pending
                  u))
  unfolding run
  run_gaps ctx fuel base w u p r = elim (Option-cases (run_loop cfg ctx fuel w)) [
    | inl n ↦ absurd (cc (rw (n, run) at r))
    | inr (v, q) ↦
        let s : shutdown cfg fuel v ≡ some u = rw (q, run) at r in
        (
          v,
          q,
          elim (run_loop-Delivered cfg out e ctx fuel base w v p q) [
            | inl (d, _) ↦ inl (
              d,
              shutdown-Behind fuel (written v.calls) [] v u
                  (start v [] (d.complete ∙ sym (append-nil (written v.calls)))) s,
            )
            | inr i ↦ inr (
              i,
              shutdown-Behind fuel (written v.calls) i.pending v u (start v i.pending i.outstanding)
                  s,
            )
          ],
        )
  ]
    where
      start :
          (v : World S T) (lost : List Record)
          → due cfg.transforms v.calls ≡ written v.calls ++ lost
          → Behind cfg.transforms (written v.calls) lost v
      start v lost h = record {
        tail = [];
        dues = h ∙ sym (append-nil _);
        writes = sym (append-nil _);
      }

  finish-clean :
      (d : Bool) (w : World S T) (lag : ℕ) (cs : List Call)
      → (finish cfg d w).calls ≡ clean lag ∷ cs
      → (d ≡ true) × (cs ≡ close_output ∷ close_input ∷ w.calls)
  unfolding finish
  finish-clean d w lag cs h = ground (arith, e)

  cleaned :
      (ctx : Context) (v : World S T) (d late : Bool) (u : World S T) (a lost : List Record)
      (lag : ℕ) (cs : List Call)
      → finish cfg (d && not late) v ≡ u
      → Ends cfg (Behind cfg.transforms a lost) (GaveUp ctx cfg.transforms a lost) v d
      → u.calls ≡ clean lag ∷ cs
      → Behind cfg.transforms a lost u
        × ((rest : List Call) × (cs ≡ close_output ∷ close_input ∷ read [] ∷ rest))
        × (late ≡ false)
        × (u.now ≡ v.now)
  cleaned ctx v false late u a lost lag cs f h c =
      cc ((finish-clean false v lag cs (ap (λ (x : World S T). x.calls) f ∙ c)).0)
  cleaned ctx v true late u a lost lag cs f (b, (rest, ended)) c =
      let (dues, writes) = finish-trace (true && not late) v in
      let (on_time, calls) =
        finish-clean (true && not late) v lag cs (ap (λ (x : World S T). x.calls) f ∙ c) in
      (
        subst (Behind cfg.transforms a lost) f
            (record { tail = b.tail; dues = dues ∙ b.dues; writes = writes ∙ b.writes }),
        (rest, calls ∙ ap (λ l. close_output ∷ close_input ∷ l) ended),
        ground (arith, on_time),
        ap (λ (x : World S T). x.now) (sym f) ∙ (finish-Closes (true && not late) v).0,
      )

  -- With an output and a cleaner, `shutdown` cleans only after its last read found nothing, with
  -- both ends closed in between, and before its five seconds are over: then nothing that `shutdown`
  -- itself read is outstanding.
  pub clean_after_drain :
      (fuel : ℕ) (a lost : List Record) (w u : World S T) (lag : ℕ) (cs : List Call)
      → Behind cfg.transforms a lost w
      → shutdown cfg fuel w ≡ some u
      → u.calls ≡ clean lag ∷ cs
      → Behind cfg.transforms a lost u
        × ((rest : List Call) × (cs ≡ close_output ∷ close_input ∷ read [] ∷ rest))
        × (drain_context w.now u.now ≡ false)
  unfolding shutdown
  clean_after_drain fuel a lost w u lag cs p r c =
      elim (Option-cases (drain_loop cfg (drain_context w.now) fuel w)) [
        | inl n ↦ absurd (cc (rw (n, shutdown) at r))
        | inr ((v, d), q) ↦
            let same = of_some-eq-some (rw (q, shutdown) at r) in
            let (behind, calls, on_time, now) =
              cleaned (drain_context w.now) v d (drain_context w.now v.now) u a lost lag cs same
                (drain_loop_rule cfg (drain_context w.now) _ _
                  (Behind-Kept (drain_context w.now) a lost) fuel w v d p q)
                c in
            (behind, calls, ap (drain_context w.now) now ∙ on_time)
      ]
