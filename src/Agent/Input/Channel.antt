-- ===== src/Agent/Input/Channel.antt =====
-- The queue between a watching goroutine and `ReadBatch`, which internal/log-pilot-agent/input has
-- twice, in k8sevent.go and k8sobjectstate.go: a Go channel of records; the counter of what
-- waits in it is left out.
pub mod Batch
use logpilot.Prelude.{ℕ, zero, suc, ◌+◌, Bool, true, false, List, [], ◌∷◌, ◌++◌}
use logpilot.Agent.Record.{Record}

-- What one `ReadBatch` takes from the channel. Before select `k` the watching goroutines have sent
-- `arrivals k`; `leaves k` says that the context is done and select `k` picks it. With nothing in the
-- channel the loop ends too. `left` is the room in the batch.
unfoldable pub take_batch :
    (ℕ → List Record) → (ℕ → Bool) → ℕ → ℕ → List Record → List Record × List Record
take_batch arrivals leaves zero k items = ([], items)
take_batch arrivals leaves (suc left) k items = elim (leaves k) [
  | true ↦ ([], items ++ arrivals k)
  | false ↦ elim (items ++ arrivals k) [
    | [] ↦ ([], [])
    | r ∷ rest ↦
        let (batch, waiting) = take_batch arrivals leaves left (suc k) rest in (r ∷ batch, waiting)
  ]
]
