-- ===== src/Agent/Input/Events/Listing.antt =====
-- Which events a namespace's goroutine queues.
use logpilot.Prelude.{
  ℕ, suc, String, ◌≡◌, refl, sym, ap, ◌∙◌, inl, inr, Bool, true, false, not, Option, some, List, [],
  ◌∷◌, ◌++◌, map, append_assoc, append-nil, str_eq, if◌then◌else◌, Bool-cases,
}
use logpilot.Api.{Bytes}
use logpilot.Agent.Record.{Record}
use logpilot.Agent.Input.Events.{
  ApiEvent, EventInput, Listed, listed, expired, list_failed, WatchEvent, changed, deleted,
  not_an_event, Watched, opened, watch_expired, watch_failed, record_of, version_after, left_by,
  enqueue_all, list_afresh, list_namespace, consume_watch, watch_namespace, run_namespace,
}

abbrev changes : List WatchEvent → List ApiEvent
changes [] = []
changes (changed ev ∷ evs) = ev ∷ changes evs
changes (deleted ∷ evs) = changes evs
changes (not_an_event ∷ evs) = changes evs

abbrev items_of : Listed → List ApiEvent
items_of (listed version items) = items
items_of expired = []
items_of list_failed = []

-- The events that a listing brings in: none where there is a version to resume from, unless that
-- version has expired.
abbrev pub listed_events : Bool → Listed → Listed → List ApiEvent
listed_events resumes (listed version items) second = if resumes then [] else items
listed_events resumes expired second = items_of second
listed_events resumes list_failed second = []

-- A listing under this version resumes from it.
abbrev pub resumes : String → Bool
resumes version = not (str_eq version "")

-- Those of the rounds of the watch.
abbrev pub watched_events : List Watched → List ApiEvent
watched_events [] = []
watched_events (opened evs ∷ rounds) = changes evs ++ watched_events rounds
watched_events (watch_expired left first second ∷ rounds) =
    listed_events (resumes (version_after left "")) first second ++ watched_events rounds
watched_events (watch_failed ∷ rounds) = watched_events rounds

-- A namespace's events, for the shared version it starts with: those of the first listing that
-- succeeds, and those of the watch behind it.
abbrev pub namespace_events :
    String → List (Option String × (Listed × Listed)) → List Watched → List ApiEvent
namespace_events version [] rounds = []
namespace_events version ((left, (listed v items, second)) ∷ lists) rounds =
    listed_events (resumes (version_after left version)) (listed v items) second
    ++ watched_events rounds
namespace_events version ((left, (expired, listed v items)) ∷ lists) rounds =
    items ++ watched_events rounds
namespace_events version ((left, (expired, expired)) ∷ lists) rounds =
    namespace_events "" lists rounds
namespace_events version ((left, (expired, list_failed)) ∷ lists) rounds =
    namespace_events "" lists rounds
namespace_events version ((left, (list_failed, second)) ∷ lists) rounds =
    namespace_events (version_after left version) lists rounds

module _ (encode : ApiEvent → Bytes) where
  abbrev pub marshal : ApiEvent → Option Bytes
  marshal ev = some (encode ev)

  abbrev pub always : ℕ → Bool
  always i = true

  abbrev pub records : List ApiEvent → List Record
  records evs = map (λ (ev : ApiEvent). record_of (encode ev) ev.resource_version) evs

  records-append : (xs ys : List ApiEvent) → records (xs ++ ys) ≡ records xs ++ records ys
  records-append [] ys = refl
  records-append (x ∷ xs) ys =
      ap (λ l. record_of (encode x) x.resource_version ∷ l) (records-append xs ys)

  pub enqueue_all-queue :
      (i : ℕ) (evs : List ApiEvent) (k : EventInput)
      → enqueue_all marshal always i evs k ≡ (record k { queue = k.queue ++ records evs }, true)
  unfolding enqueue_all
  enqueue_all-queue i [] k = ap (λ q. (record k { queue = q }, true)) (sym (append-nil k.queue))
  enqueue_all-queue i (ev ∷ evs) k =
      let k' = record k { queue = k.queue ++ record_of (encode ev) ev.resource_version ∷ [] } in
      enqueue_all-queue (suc i) evs k'
      ∙ ap (λ q. (record k { queue = q }, true)) (append_assoc k.queue _ (records evs))

  list_afresh-queue :
      (second : Listed) (k : EventInput)
      → (list_afresh marshal always second k).0.queue ≡ k.queue ++ records (items_of second)
  unfolding list_afresh
  list_afresh-queue (listed version items) k =
      ap (λ (x : EventInput × Bool). x.0.queue)
        (enqueue_all-queue 0 items (record k { last_resource_version = version }))
  list_afresh-queue expired k = sym (append-nil k.queue)
  list_afresh-queue list_failed k = sym (append-nil k.queue)

  list_namespace-queue :
      (first second : Listed) (k : EventInput)
      → (list_namespace marshal always first second k).0.queue
        ≡ k.queue ++ records (listed_events (resumes k.last_resource_version) first second)
  unfolding list_namespace
  list_namespace-queue (listed version items) second k =
      elim (Bool-cases (str_eq k.last_resource_version "")) [
        | inl e ↦ rw e (list_afresh-queue (listed version items) k)
        | inr e ↦ rw e (sym (append-nil k.queue))
      ]
  list_namespace-queue expired second k =
      list_afresh-queue second (record k { last_resource_version = "" })
  list_namespace-queue list_failed second k = sym (append-nil k.queue)

  consume_watch-queue :
      (i : ℕ) (evs : List WatchEvent) (k : EventInput)
      → (consume_watch marshal always i evs k).queue ≡ k.queue ++ records (changes evs)
  unfolding consume_watch
  consume_watch-queue i [] k = sym (append-nil k.queue)
  consume_watch-queue i (changed ev ∷ evs) k =
      consume_watch-queue (suc i) evs _ ∙ append_assoc k.queue _ (records (changes evs))
  consume_watch-queue i (deleted ∷ evs) k = consume_watch-queue i evs k
  consume_watch-queue i (not_an_event ∷ evs) k = consume_watch-queue i evs k

  -- One part after another of what is queued.
  joined :
      (q q' q'' : List Record) (xs ys : List ApiEvent)
      → q' ≡ q ++ records xs
      → q'' ≡ q' ++ records ys
      → q'' ≡ q ++ records (xs ++ ys)
  joined q q' q'' xs ys e f =
      f
      ∙ ap (λ l. l ++ records ys) e
      ∙ append_assoc q (records xs) (records ys)
      ∙ ap (λ l. q ++ l) (sym (records-append xs ys))

  watch_namespace-queue :
      (rounds : List Watched) (k : EventInput)
      → (watch_namespace marshal always rounds k).queue ≡ k.queue ++ records (watched_events rounds)
  unfolding watch_namespace
  watch_namespace-queue [] k = sym (append-nil k.queue)
  watch_namespace-queue (opened evs ∷ rounds) k =
      joined k.queue _ _ (changes evs) (watched_events rounds) (consume_watch-queue 0 evs k)
        (watch_namespace-queue rounds _)
  watch_namespace-queue (watch_expired left first second ∷ rounds) k =
      joined k.queue _ _ (listed_events (resumes (version_after left "")) first second)
        (watched_events rounds)
        (list_namespace-queue first second (left_by left (record k { last_resource_version = "" })))
        (watch_namespace-queue rounds _)
  watch_namespace-queue (watch_failed ∷ rounds) k = watch_namespace-queue rounds k

  list_namespace_failed :
      (second : Listed) (k : EventInput)
      → list_namespace marshal always list_failed second k ≡ (k, false)
  unfolding list_namespace
  list_namespace_failed second k = refl

  listed_then_watched :
      (version : String) (items : List ApiEvent) (rounds : List Watched) (k : EventInput)
      → let (k', good) =
          enqueue_all marshal always 0 items (record k { last_resource_version = version }) in
        (good ≡ true)
        × ((watch_namespace marshal always rounds k').queue
            ≡ k.queue ++ records (items ++ watched_events rounds))
  listed_then_watched version items rounds k =
      let k' = record k { last_resource_version = version } in
      rw (enqueue_all-queue 0 items k') (
        refl,
        joined k.queue _ _ items (watched_events rounds) refl
            (watch_namespace-queue rounds (record k' { queue = k.queue ++ records items })),
      )

  -- While the context is not done, encoding succeeds and sends find room, a namespace's goroutine
  -- queues exactly the events of its first listing that succeeds, where that listing finds the shared
  -- version empty or expired, and then, in order, those that its watches deliver and those of the
  -- listings that follow an expired watch, again where they find the version empty or expired. What
  -- the other namespaces' goroutines leave in the shared version before each listing is arbitrary.
  pub run_namespace-queue :
      (lists : List (Option String × (Listed × Listed))) (rounds : List Watched) (k : EventInput)
      → (run_namespace marshal always lists rounds k).queue
        ≡ k.queue ++ records (namespace_events k.last_resource_version lists rounds)
  unfolding run_namespace
  run_namespace-queue [] rounds k = sym (append-nil k.queue)
  run_namespace-queue ((left, (listed version items, second)) ∷ lists) rounds k =
      elim (Bool-cases (str_eq (version_after left k.last_resource_version) "")) [
        | inl e ↦ rw e (
            rw (listed_then_watched version items rounds k).0
              (listed_then_watched version items rounds k).1)
        | inr e ↦ rw e (watch_namespace-queue rounds (record k { last_resource_version = version }))
      ]
  run_namespace-queue ((left, (expired, listed version items)) ∷ lists) rounds k =
      rw (listed_then_watched version items rounds k).0
        (listed_then_watched version items rounds k).1
  run_namespace-queue ((left, (expired, expired)) ∷ lists) rounds k =
      run_namespace-queue lists rounds (record k { last_resource_version = "" })
  run_namespace-queue ((left, (expired, list_failed)) ∷ lists) rounds k =
      run_namespace-queue lists rounds (record k { last_resource_version = "" })
  run_namespace-queue ((left, (list_failed, second)) ∷ lists) rounds k =
      run_namespace-queue lists rounds (left_by left k)
