-- ===== src/Agent/Input/Events.antt =====
-- internal/log-pilot-agent/input/k8sevent.go. The API server is its answers; the encoder of
-- encoding/json is a parameter. `accepts i` says that the `i`-th select of `enqueue` sends, rather
-- than finding the context done; a send that waits for room is one that has waited.
-- Each namespace has a goroutine of its own, and all of them write the one `last_resource_version`:
-- where a listing reads it, what the others have left there since is an argument. `queue` takes what
-- the one goroutine sends. The counter behind `Lag` is left out.

pub mod Listing
pub mod Restart
use logpilot.Prelude.{
  ℕ, suc, ◌+◌, String, Bool, true, false, not, ◌||◌, Option, none, some, List, [], ◌∷◌, ◌++◌,
  str_eq, if◌then◌else◌, nonempty,
}
use logpilot.Api.{Bytes}
use logpilot.Agent.Record.{Record, meta_get}
use logpilot.Agent.Input.Channel.{take_batch}

-- `corev1.Event`
pub record ApiEvent : Type 0 where
  pub resource_version : String
  pub body : Bytes

pub record EventConfig : Type 0 where
  pub namespaces : List String
  pub resource_version_path : String

pub record EventInput : Type 0 where
  pub cfg : EventConfig
  pub queue : List Record
  pub cancelled : Bool
  pub last_resource_version : String
  pub read_resource_version : String

-- What `List` answers.
pub data Listed : Type 0 where
  listed : String → List ApiEvent → Listed
  expired list_failed : Listed

-- What a watch delivers: an event that is not a deletion, a deletion, an object that is no Event.
pub data WatchEvent : Type 0 where
  changed : ApiEvent → WatchEvent
  deleted not_an_event : WatchEvent

-- What `Watch` answers, with what it delivers until it closes; where the version has expired,
-- with the version that another goroutine has left since it was cleared, if one has, and what the
-- two calls of `List` answer then.
pub data Watched : Type 0 where
  opened : List WatchEvent → Watched
  watch_expired : Option String → Listed → Listed → Watched
  watch_failed : Watched

-- The file at the path, `none` where it cannot be read.
unfoldable pub load_resource_version : String → Option String → String
load_resource_version path disk =
    if str_eq path "" then "" else elim disk [ none ↦ "" | some raw ↦ raw ]

-- `NewK8sEventInput`, before its goroutine runs.
unfoldable pub new_k8s_event_input : EventConfig → Option String → EventInput
unfolding load_resource_version
new_k8s_event_input cfg disk = record {
  cfg = cfg;
  queue = [];
  cancelled = false;
  last_resource_version = load_resource_version cfg.resource_version_path disk;
  read_resource_version = "";
}

-- The namespaces that `run` starts a goroutine for.
unfoldable pub watched_namespaces : EventConfig → List String
watched_namespaces cfg = if nonempty cfg.namespaces then cfg.namespaces else "" ∷ []

-- The shared version where another namespace's goroutine has set it since.
abbrev pub version_after : Option String → String → String
version_after none version = version
version_after (some left) version = left

abbrev pub left_by : Option String → EventInput → EventInput
left_by left k = record k { last_resource_version = version_after left k.last_resource_version }

abbrev pub record_of : Bytes → String → Record
record_of raw version = record {
  payload = raw;
  offset = 0;
  meta = some (("resourceVersion", version) ∷ []);
}

module _ (marshal : ApiEvent → Option Bytes) (accepts : ℕ → Bool) where
  -- The flag is false where an error is returned.
  unfoldable pub enqueue : ℕ → ApiEvent → EventInput → EventInput × Bool
  enqueue i ev k = elim (marshal ev) [
    | none ↦ (k, false)
    | some raw ↦
        if accepts i
        then (record k { queue = k.queue ++ record_of raw ev.resource_version ∷ [] }, true)
        else (k, false)
  ]

  -- The loop of `listNamespace`.
  unfoldable pub enqueue_all : ℕ → List ApiEvent → EventInput → EventInput × Bool
  unfolding enqueue
  enqueue_all i [] k = (k, true)
  enqueue_all i (ev ∷ evs) k =
      let (k', sent) = enqueue i ev k in
      let rest = enqueue_all (suc i) evs k' in if sent then rest else (k', false)

  -- `listNamespace` from the second answer of `List`, which is asked with no version.
  unfoldable pub list_afresh : Listed → EventInput → EventInput × Bool
  unfolding enqueue_all
  list_afresh (listed version items) k =
      enqueue_all 0 items (record k { last_resource_version = version })
  list_afresh expired k = (k, false)
  list_afresh list_failed k = (k, false)

  unfoldable pub list_namespace : Listed → Listed → EventInput → EventInput × Bool
  unfolding list_afresh
  list_namespace (listed version items) second k =
      if not (str_eq k.last_resource_version "")
      then (record k { last_resource_version = version }, true)
      else list_afresh (listed version items) k
  list_namespace expired second k = list_afresh second (record k { last_resource_version = "" })
  list_namespace list_failed second k = (k, false)

  -- `consumeWatch`, until the channel closes or the context is done.
  unfoldable pub consume_watch : ℕ → List WatchEvent → EventInput → EventInput
  unfolding enqueue
  consume_watch i [] k = k
  consume_watch i (changed ev ∷ evs) k =
      consume_watch (suc i) evs
        (enqueue i ev (record k { last_resource_version = ev.resource_version })).0
  consume_watch i (deleted ∷ evs) k = consume_watch i evs k
  consume_watch i (not_an_event ∷ evs) k = consume_watch i evs k

  -- `watchNamespace`, round by round, until the context is done.
  unfoldable pub watch_namespace : List Watched → EventInput → EventInput
  unfolding consume_watch list_namespace
  watch_namespace [] k = k
  watch_namespace (opened evs ∷ rounds) k = watch_namespace rounds (consume_watch 0 evs k)
  watch_namespace (watch_expired left first second ∷ rounds) k =
      watch_namespace rounds
        (list_namespace first second (left_by left (record k { last_resource_version = "" }))).0
  watch_namespace (watch_failed ∷ rounds) k = watch_namespace rounds k

  -- `runNamespace`: lists until that succeeds, and then watches for good. Each listing comes with
  -- what the other goroutines have left in the version before it.
  unfoldable pub run_namespace :
      List (Option String × (Listed × Listed)) → List Watched → EventInput → EventInput
  unfolding watch_namespace
  run_namespace [] rounds k = k
  run_namespace ((left, (first, second)) ∷ lists) rounds k =
      let (k', good) = list_namespace first second (left_by left k) in
      let again = run_namespace lists rounds k' in if good then watch_namespace rounds k' else again

-- The last version among the records' that is not empty, or the one before.
unfoldable pub last_read : String → List Record → String
last_read version [] = version
last_read version (r ∷ rs) =
    last_read
      (if str_eq (meta_get r "resourceVersion") "" then version else meta_get r "resourceVersion")
      rs

unfoldable pub read_batch :
    (ℕ → List Record) → (ℕ → Bool) → ℕ → EventInput → EventInput × List Record
unfolding take_batch last_read
read_batch arrivals leaves size k =
    let (batch, waiting) = take_batch arrivals leaves size 0 k.queue in
    (
      record k { queue = waiting; read_resource_version = last_read k.read_resource_version batch },
      batch,
    )

-- `stored` says whether the directory could be made and the file written and renamed; the flag is
-- false where an error is returned.
unfoldable pub commit : Bool → EventInput → Option String → Option String × Bool
commit stored k disk =
    let version =
      if str_eq k.read_resource_version ""
      then k.last_resource_version
      else k.read_resource_version in
    if str_eq k.cfg.resource_version_path "" || str_eq version ""
    then (disk, true)
    else if stored
    then (some version, true)
    else (disk, false)

unfoldable pub close : Bool → EventInput → Option String → EventInput × Option String × Bool
unfolding commit
close stored k disk =
    let (disk', good) = commit stored k disk in (record k { cancelled = true }, disk', good)
