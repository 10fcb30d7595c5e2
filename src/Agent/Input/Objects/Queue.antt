-- ===== src/Agent/Input/Objects/Queue.antt =====
-- What the collectors queue.
use logpilot.Prelude.{
  ℕ, suc, String, ◌≡◌, refl, sym, ap, ◌∙◌, Bool, true, Option, none, some, List, [], ◌∷◌, ◌++◌, map,
  append_assoc, append-nil, length,
}
use logpilot.Api.{Bytes}
use logpilot.Agent.Record.{Record}
use logpilot.Agent.Input.Objects.State.{Value}
use logpilot.Agent.Input.Objects.{
  ObjectInput, ApiObject, pod_object, node_object, deployment_object, stateful_set_object,
  daemon_set_object, job_object, other_object, WatchEvent, Round, list_failed, listed, enqueue,
  describe, handle, handle_object, snapshot, watch, collect,
}

-- What is to be seen: an action and an object.
abbrev Sight : Type 0
Sight = String × ApiObject

abbrev snapshots : List ApiObject → List Sight
snapshots os = map (λ (o : ApiObject). ("snapshot", o)) os

abbrev changes : List WatchEvent → List Sight
changes evs = map (λ (ev : WatchEvent). (ev.type, ev.obj)) evs

-- The sights of a collector's rounds: what the lists hold, and what the watches deliver behind them.
abbrev pub sights : List Round → List Sight
sights [] = []
sights (list_failed ∷ rounds) = sights rounds
sights (listed os none ∷ rounds) = snapshots os ++ sights rounds
sights (listed os (some evs) ∷ rounds) = snapshots os ++ (changes evs ++ sights rounds)

-- The kind of an object of the six types.
abbrev pub kind_of : ApiObject → Option String
kind_of (pod_object o) = some "Pod"
kind_of (node_object o) = some "Node"
kind_of (deployment_object o) = some "Deployment"
kind_of (stateful_set_object o) = some "StatefulSet"
kind_of (daemon_set_object o) = some "DaemonSet"
kind_of (job_object o) = some "Job"
kind_of other_object = none

abbrev pub label : Sight → List (Option (List (String × String)))
label (action, o) = elim (kind_of o) [
  | none ↦ []
  | some kind ↦ some (("kind", kind) ∷ ("action", action) ∷ []) ∷ []
]

abbrev pub labels_of : List Sight → List (Option (List (String × String)))
labels_of [] = []
labels_of (v ∷ vs) = label v ++ labels_of vs

-- The meta data of what is queued.
abbrev pub queued : ObjectInput → List (Option (List (String × String)))
queued k = map (λ (r : Record). r.meta) k.queue

map-append {ℓ κ} :
    {A : Type ℓ} {B : Type κ} (f : A → B) (xs ys : List A) → map f (xs ++ ys) ≡ map f xs ++ map f ys
map-append f [] ys = refl
map-append f (x ∷ xs) ys = ap (λ l. f x ∷ l) (map-append f xs ys)

module _ (encode : Value → Bytes) (format : ℕ → String) (now : ℕ → ℕ) where
  abbrev pub marshal : Value → Option Bytes
  marshal v = some (encode v)

  abbrev pub always : ℕ → Bool
  always i = true

  handle-queued :
      (i : ℕ) (action : String) (o : ApiObject) (k : ObjectInput)
      → queued (handle marshal format now always i action o k) ≡ queued k ++ label (action, o)
  unfolding handle describe enqueue
  handle-queued i action other_object k = sym (append-nil (queued k))
  handle-queued i action (pod_object o) k = map-append _ k.queue _
  handle-queued i action (node_object o) k = map-append _ k.queue _
  handle-queued i action (deployment_object o) k = map-append _ k.queue _
  handle-queued i action (stateful_set_object o) k = map-append _ k.queue _
  handle-queued i action (daemon_set_object o) k = map-append _ k.queue _
  handle-queued i action (job_object o) k = map-append _ k.queue _

  snapshot-queued :
      (i : ℕ) (os : List ApiObject) (k : ObjectInput)
      → queued (snapshot marshal format now always i os k) ≡ queued k ++ labels_of (snapshots os)
  unfolding snapshot
  snapshot-queued i [] k = sym (append-nil (queued k))
  snapshot-queued i (o ∷ os) k =
      snapshot-queued (suc i) os _
      ∙ ap (λ l. l ++ labels_of (snapshots os)) (handle-queued i "snapshot" o k)
      ∙ append_assoc (queued k) _ _

  watch-queued :
      (i : ℕ) (evs : List WatchEvent) (k : ObjectInput)
      → queued (watch marshal format now always i evs k) ≡ queued k ++ labels_of (changes evs)
  unfolding watch handle_object
  watch-queued i [] k = sym (append-nil (queued k))
  watch-queued i (ev ∷ evs) k =
      watch-queued (suc i) evs _
      ∙ ap (λ l. l ++ labels_of (changes evs)) (handle-queued i ev.type ev.obj k)
      ∙ append_assoc (queued k) _ _

  labels_of-append : (vs ws : List Sight) → labels_of (vs ++ ws) ≡ labels_of vs ++ labels_of ws
  labels_of-append [] ws = refl
  labels_of-append (v ∷ vs) ws =
      ap (λ l. label v ++ l) (labels_of-append vs ws) ∙ sym (append_assoc (label v) _ _)

  behind :
      (q q' q'' : List (Option (List (String × String)))) (vs ws : List Sight)
      → q' ≡ q ++ labels_of vs
      → q'' ≡ q' ++ labels_of ws
      → q'' ≡ q ++ labels_of (vs ++ ws)
  behind q q' q'' vs ws e f =
      f
      ∙ ap (λ l. l ++ labels_of ws) e
      ∙ append_assoc q (labels_of vs) (labels_of ws)
      ∙ ap (λ l. q ++ l) (sym (labels_of-append vs ws))

  -- While the context is not done, a collector queues one record for every object that its lists hold
  -- and for every event that its watches deliver, in order, named by the object's kind and by
  -- "snapshot" or the type of the event; objects of no known type and rounds whose list fails add none.
  pub collect-queued :
      (rounds : List Round) (k : ObjectInput)
      → queued (collect marshal format now always rounds k) ≡ queued k ++ labels_of (sights rounds)
  unfolding collect
  collect-queued [] k = sym (append-nil (queued k))
  collect-queued (list_failed ∷ rounds) k = collect-queued rounds k
  collect-queued (listed os none ∷ rounds) k =
      let k' = snapshot marshal format now always 0 os k in
      behind (queued k) (queued k') _ (snapshots os) (sights rounds) (snapshot-queued 0 os k)
        (collect-queued rounds k')
  collect-queued (listed os (some evs) ∷ rounds) k =
      let k' = snapshot marshal format now always 0 os k in
      let k'' = watch marshal format now always (length os) evs k' in
      behind (queued k) (queued k') _ (snapshots os) (changes evs ++ sights rounds)
        (snapshot-queued 0 os k)
        (behind (queued k') (queued k'') _ (changes evs) (sights rounds)
          (watch-queued (length os) evs k') (collect-queued rounds k''))
