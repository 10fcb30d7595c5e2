-- ===== src/Tests/Runner.antt =====
-- A runner whose input has two batches and whose output refuses the first write.
use logpilot.Prelude.{
  ℕ, zero, suc, ◌≡◌, refl, ◌≢◌, ◌⊎◌, inr, Bool, true, false, Option, none, some, List, [], ◌∷◌,
  arith, leb,
}
use logpilot.Agent.Record.{Record, plain}
use logpilot.Agent.Runner.{
  Input, Output, Config, World, Context, drain_context, Call, read, read_failed, clean, close_input,
  close_output, turn, write_batch, run_loop, shutdown, run, write_loop,
}
use logpilot.Agent.Runner.Trace.{due, written, Tried, write_loop-Tried, written}
use logpilot.Agent.Runner.Delivery.{Delivered, Interrupted, run_loop-Delivered}
use logpilot.Agent.Runner.Delivery.Loss.{Behind, BehindTwice, run_gaps, clean_after_drain}
use logpilot.Agent.Runner.Control.{
  Control, idle, finished, new_control, stop, begin_run, stops, begins, here, next, Reach-cancelled,
}
use logpilot.Agent.Runner.Termination.{DoneBy, Quits, run_total}

abbrev Feed : Type 0
Feed = List (List Record)

abbrev feed : Bool → Feed → Feed × Option (List Record)
feed true bs = (bs, some [])
feed false [] = ([], some [])
feed false (b ∷ bs) = (bs, some b)

abbrev source : Input Feed
source = record { read_batch = λ d n s. feed d s; commit = λ s. s; lag = λ s. 0; close = λ s. s }

abbrev accept : ℕ → ℕ × Bool
accept zero = (zero, true)
accept (suc n) = (n, false)

abbrev sink : Output ℕ
sink = record { write_batch = λ d rs t. accept t; close = λ t. t }

abbrev config : Config Feed ℕ
config = record {
  transforms = [];
  input = source;
  output = some sink;
  has_clean = true;
  batch_len = 10;
}

abbrev line : ℕ → Record
line n = plain (n ∷ [])

abbrev start : World Feed ℕ
start = record {
  input = (line 1 ∷ line 2 ∷ []) ∷ (line 3 ∷ []) ∷ [];
  output = 1;
  sent = 0;
  now = 0;
  calls = [];
}

abbrev until : ℕ → Context
until n t = leb n t

abbrev or_start : Option (World Feed ℕ) → World Feed ℕ
or_start none = start
or_start (some u) = u

start-Delivered : Delivered [] 0 start
unfolding due written
start-Delivered = record { complete = refl; safe = tt; counted = refl }

abbrev loop_end : World Feed ℕ
loop_end = or_start (run_loop config (until 300) 6 start)

loop_ran : run_loop config (until 300) 6 start ≡ some loop_end
unfolding run_loop turn write_batch
loop_ran = refl

run_loop-Delivered_example :
    (Delivered [] 0 loop_end
      × ((until 300 loop_end.now ≡ true)
          ⊎ ((rest : List Call) × (loop_end.calls ≡ read_failed ∷ rest))))
    ⊎ Interrupted (until 300) [] 0 loop_end
run_loop-Delivered_example =
    run_loop-Delivered config sink refl (until 300) 6 0 start loop_end start-Delivered loop_ran

-- The first write is refused at a time when the context is done.
abbrev run_end : World Feed ℕ
run_end = or_start (run config (until 2) 6 start)

whole_ran : run config (until 2) 6 start ≡ some run_end
unfolding run turn write_batch
whole_ran = refl

run_gaps_example :
    (v : World Feed ℕ) × (run_loop config (until 2) 6 start ≡ some v)
    × ((Delivered [] 0 v × BehindTwice (drain_context v.now) [] (written v.calls) [] run_end)
        ⊎ ((i : Interrupted (until 2) [] 0 v) × BehindTwice
              (drain_context v.now)
              []
              (written v.calls)
              i.pending
              run_end))
run_gaps_example = run_gaps config sink refl (until 2) 6 0 start run_end start-Delivered whole_ran

abbrev drained : World Feed ℕ
drained = or_start (shutdown config 6 start)

drain_ran : shutdown config 6 start ≡ some drained
unfolding shutdown turn write_batch
drain_ran = refl

start-Behind : Behind [] [] [] start
unfolding due written
start-Behind = record { tail = []; dues = refl; writes = refl }

abbrev behind_last : List Call → List Call
behind_last [] = []
behind_last (c ∷ cs) = cs

abbrev earlier : List Call
earlier = behind_last drained.calls

drain_calls : drained.calls ≡ clean 0 ∷ earlier
unfolding shutdown turn write_batch
drain_calls = refl

clean_after_drain_example :
    Behind [] [] [] drained
    × ((rest : List Call) × (earlier ≡ close_output ∷ close_input ∷ read [] ∷ rest))
    × (drain_context start.now drained.now ≡ false)
clean_after_drain_example =
    clean_after_drain config sink refl 6 [] [] start drained 0 earlier start-Behind drain_ran
      drain_calls

feed-Quits : Quits config
feed-Quits n s = inr refl

until-DoneBy : DoneBy (until 300) 300
until-DoneBy t l = ground arith

run_total_example : (u : World Feed ℕ) × (run config (until 300) 6000 start ≡ some u)
run_total_example =
    run_total config (until 300) 300 6000 start until-DoneBy feed-Quits (omega arith) (omega arith)

abbrev one_write : World Feed ℕ × Bool
one_write = elim (write_loop sink (until 300) 3 200 (line 1 ∷ []) start) [
  | none ↦ (start, false)
  | some x ↦ x
]

wrote_once : write_loop sink (until 300) 3 200 (line 1 ∷ []) start ≡ some one_write
unfolding write_loop
wrote_once = refl

write_loop-Tried_example : Tried (line 1 ∷ []) start one_write
write_loop-Tried_example =
    write_loop-Tried sink (until 300) 3 200 (line 1 ∷ []) start one_write wrote_once

abbrev early_stop : Control
early_stop = begin_run false (stop new_control)

Reach-cancelled_example :
    (early_stop.asked ≡ true → early_stop.phase ≢ idle → early_stop.cancelled ≡ true)
    × (early_stop.phase ≡ finished → early_stop.cancelled ≡ true)
unfolding stop begin_run
Reach-cancelled_example = Reach-cancelled (next (next here (stops refl)) (begins false refl refl))
