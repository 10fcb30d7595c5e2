-- ===== src/Agent/Watcher/Start/Ending.antt =====
-- When `Start` returns.
use logpilot.Prelude.{
  String, ◌≡◌, refl, ◌≢◌, inl, inr, Bool, true, false, ◌||◌, none, some, List, [], ◌∷◌, Bool-cases,
}
use logpilot.Json.{Json}
use logpilot.Agent.Input.Dir.Persist.{Codec}
use logpilot.Agent.Watcher.Build.{Config, Pod, System}
use logpilot.Agent.Watcher.Pods.{sync_pods, on_event}
use logpilot.Agent.Watcher.Start.{
  Agent, Answers, Turn, pod_event, ticked, context_done, Round, not_opened, opened, Ended, returned,
  failed, waiting, consume_pod_watch, resync, after_watch, watch_loop, start,
}

abbrev done_in_turns : List Turn → Bool
done_in_turns [] = false
done_in_turns (context_done ∷ turns) = true
done_in_turns (ticked answers ∷ turns) = done_in_turns turns
done_in_turns (pod_event ev ∷ turns) = done_in_turns turns

or_true : (b : Bool) → (b || true) ≡ true
or_true true = refl
or_true false = refl

-- The script says somewhere that the context is done.
abbrev pub done_in : List Round → Bool
done_in [] = false
done_in (not_opened gone ∷ rounds) = gone || done_in rounds
done_in (opened turns gone listing gone_after ∷ rounds) =
    done_in_turns turns || (gone || (gone_after || done_in rounds))

module _ {S : Type 0} (sys : System S) (json : Json) (codec : Codec) (usable : String → Bool)
    (join : List String → String) (cfg : Config) where
  -- An end that is only due to the context.
  abbrev OnlyDone : Bool → Ended → Type 0
  OnlyDone done returned = done ≡ true
  OnlyDone done failed = ⊥
  OnlyDone done waiting = Unit

  abbrev Breaks : Bool → Ended → Type 0
  Breaks done returned = done ≡ true
  Breaks done failed = Unit
  Breaks done waiting = Unit

  consume-Breaks :
      (turns : List Turn) (a : Agent S)
      → Breaks (done_in_turns turns) (consume_pod_watch sys json codec usable join cfg turns a).1
  unfolding consume_pod_watch
  consume-Breaks [] a = tt
  consume-Breaks (context_done ∷ turns) a = refl
  consume-Breaks (ticked answers ∷ turns) a = consume-Breaks turns _
  consume-Breaks (pod_event ev ∷ turns) a =
      elim (Bool-cases (on_event sys json codec usable cfg a.pods a.seen ev).1) [
        | inl e ↦ rw e (consume-Breaks turns _)
        | inr e ↦ rw e tt
      ]

  later-OnlyDone :
      (turned gone later : Bool) (ended : Ended)
      → OnlyDone later ended
      → OnlyDone (turned || (gone || later)) ended
  later-OnlyDone true gone later returned o = refl
  later-OnlyDone false true later returned o = refl
  later-OnlyDone false false later returned o = o
  later-OnlyDone turned gone later failed o = absurd o
  later-OnlyDone turned gone later waiting o = tt

  after_watch-OnlyDone :
      (a : Agent S) (ended : Ended) (gone : Bool) (synced : Agent S × Bool) (gone_after : Bool)
      (rest : Agent S × Ended) (turned later : Bool)
      → Breaks turned ended
      → OnlyDone later rest.1
      → OnlyDone
          (turned || (gone || (gone_after || later)))
          (after_watch sys json codec usable join cfg a ended gone synced gone_after rest).1
  after_watch-OnlyDone a returned gone synced gone_after rest turned later h o = rw h refl
  after_watch-OnlyDone a waiting gone synced gone_after rest turned later h o = tt
  after_watch-OnlyDone a failed true synced gone_after rest turned later h o = or_true turned
  after_watch-OnlyDone a failed false (a', true) gone_after rest turned later h o =
      later-OnlyDone turned gone_after later rest.1 o
  after_watch-OnlyDone a failed false (a', false) true rest turned later h o = or_true turned
  after_watch-OnlyDone a failed false (a', false) false rest turned later h o =
      later-OnlyDone turned false later rest.1 o

  of_OnlyDone :
      (done : Bool) (ended : Ended)
      → OnlyDone done ended
      → (ended ≢ failed) × (ended ≡ returned → done ≡ true)
  of_OnlyDone done returned o = ((λ e. absurd (cc)), λ e. o)
  of_OnlyDone done failed o = absurd o
  of_OnlyDone done waiting o = ((λ e. absurd (cc)), λ e. absurd (cc))

  watch_loop-OnlyDone :
      (rounds : List Round) (a : Agent S)
      → OnlyDone (done_in rounds) (watch_loop sys json codec usable join cfg rounds a).1
  unfolding watch_loop
  watch_loop-OnlyDone [] a = tt
  watch_loop-OnlyDone (not_opened true ∷ rounds) a = refl
  watch_loop-OnlyDone (not_opened false ∷ rounds) a = watch_loop-OnlyDone rounds a
  watch_loop-OnlyDone (opened turns gone listing gone_after ∷ rounds) a =
      let (a', ended) = consume_pod_watch sys json codec usable join cfg turns a in
      let synced = resync sys json codec usable join cfg listing a' in
      after_watch-OnlyDone a' ended gone synced gone_after _ (done_in_turns turns) (done_in rounds)
        (consume-Breaks turns a) (watch_loop-OnlyDone rounds synced.0)

  -- `Start` gives up only where its first list of the pods fails. After that no error ends it, neither
  -- a watch that cannot be opened, nor one that breaks, nor a list that fails: it returns no error, and
  -- it returns at all only if the context is done.
  pub start-returned :
      (answers : Answers) (rounds : List Round) (a : Agent S)
      → ((start sys json codec usable join cfg none answers rounds a).1 ≡ failed)
        × ((pods : List Pod)
            → ((start sys json codec usable join cfg (some pods) answers rounds a).1 ≢ failed)
              × ((start sys json codec usable join cfg (some pods) answers rounds a).1 ≡ returned
                  → done_in rounds ≡ true))
  unfolding start sync_pods
  start-returned answers rounds a =
      (refl, λ pods. of_OnlyDone (done_in rounds) _ (watch_loop-OnlyDone rounds _))
