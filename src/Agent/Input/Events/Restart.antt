-- ===== src/Agent/Input/Events/Restart.antt =====
-- What a namespace's first listing queues when there is a version to resume from: the one that another
-- namespace has left, or the one that was saved.
use logpilot.Prelude.{
  String, ◌≡◌, refl, ap, ◌∙◌, Bool, true, false, Option, List, [], ◌∷◌, ◌++◌, str_eq, All,
}
use logpilot.Api.{Bytes}
use logpilot.Agent.Input.Events.{
  ApiEvent, EventInput, Listed, listed, list_failed, new_k8s_event_input, list_namespace, close,
}
use logpilot.Agent.Input.Events.Listing.{records, marshal, always, enqueue_all-queue}

module _ (encode : ApiEvent → Bytes) where
  -- The namespaces' first listings, each a version and its items, one after the other.
  abbrev pub list_in_turn : List (String × List ApiEvent) → EventInput → EventInput
  list_in_turn [] k = k
  list_in_turn ((version, items) ∷ lists) k =
      list_in_turn lists
        (list_namespace (marshal encode) (always encode) (listed version items) list_failed k).0

  abbrev pub Versioned : List (String × List ApiEvent) → Type 0
  Versioned lists = All (λ (p : String × List ApiEvent). str_eq p.0 "" ≡ false) lists

  list_resumed :
      (version : String) (items : List ApiEvent) (second : Listed) (k : EventInput)
      → str_eq k.last_resource_version "" ≡ false
      → list_namespace (marshal encode) (always encode) (listed version items) second k
        ≡ (record k { last_resource_version = version }, true)
  unfolding list_namespace
  list_resumed version items second k e = rw e refl

  list_fresh :
      (version : String) (items : List ApiEvent) (second : Listed) (k : EventInput)
      → str_eq k.last_resource_version "" ≡ true
      → list_namespace (marshal encode) (always encode) (listed version items) second k ≡ (
        record k { last_resource_version = version; queue = k.queue ++ (records encode) items },
        true,
      )
  unfolding list_namespace
  list_fresh version items second k e =
      rw e ((enqueue_all-queue encode) 0 items (record k { last_resource_version = version }))

  listed_again :
      (lists : List (String × List ApiEvent)) (k : EventInput)
      → str_eq k.last_resource_version "" ≡ false
      → Versioned lists
      → (list_in_turn lists k).queue ≡ k.queue
  listed_again [] k e v = refl
  listed_again ((version, items) ∷ lists) k e (n, v) =
      ap (λ (x : EventInput × Bool). (list_in_turn lists x.0).queue)
        (list_resumed version items list_failed k e)
      ∙ listed_again lists (record k { last_resource_version = version }) n v

  -- All namespaces share one last version: when their goroutines start with none saved, and their first
  -- listings succeed one after the other, each with a version, the events that exist are queued for the
  -- namespace that is listed first, and for no other.
  pub list_in_turn-queue :
      (version : String) (items : List ApiEvent) (lists : List (String × List ApiEvent))
      (k : EventInput)
      → str_eq k.last_resource_version "" ≡ true
      → Versioned ((version, items) ∷ lists)
      → (list_in_turn ((version, items) ∷ lists) k).queue ≡ k.queue ++ (records encode) items
  list_in_turn-queue version items lists k e (n, v) =
      let k' : EventInput = record k {
        last_resource_version = version;
        queue = k.queue ++ (records encode) items;
      } in
      ap (λ (x : EventInput × Bool). (list_in_turn lists x.0).queue)
        (list_fresh version items list_failed k e)
      ∙ listed_again lists k' n v

  closed :
      (k : EventInput) (disk : Option String)
      → str_eq k.cfg.resource_version_path "" ≡ false
      → str_eq k.read_resource_version "" ≡ false
      → (new_k8s_event_input k.cfg (close true k disk).1).last_resource_version
        ≡ k.read_resource_version
  unfolding close new_k8s_event_input
  closed k disk p r = rw (p, r) (rw r refl)

  -- A restart loses what happened meanwhile: an input that was closed after it had read up to a
  -- version starts from that version, but a listing that succeeds then queues none of its events,
  -- and the watch goes on from the version of the listing.
  pub close-list_namespace :
      (k : EventInput) (disk : Option String) (version : String) (items : List ApiEvent)
      (second : Listed)
      → str_eq k.cfg.resource_version_path "" ≡ false
      → str_eq k.read_resource_version "" ≡ false
      → let n = new_k8s_event_input k.cfg (close true k disk).1 in
        (n.last_resource_version ≡ k.read_resource_version)
        × (list_namespace (marshal encode) (always encode) (listed version items) second n
            ≡ (record n { last_resource_version = version }, true))
        × (n.queue ≡ [])
  unfolding new_k8s_event_input
  close-list_namespace k disk version items second p r =
      let n = new_k8s_event_input k.cfg (close true k disk).1 in
      (closed k disk p r, list_resumed version items second n (rw (closed k disk p r) r), refl)
