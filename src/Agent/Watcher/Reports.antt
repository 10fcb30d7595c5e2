-- ===== src/Agent/Watcher/Reports.antt =====
-- The goroutines of one runner of a pod, in `OnPodAdd` and `onPodDeleted` of internal/log-pilot-agent/watcher/watcher.go: one runs the
-- runner, another reports to the status server every second, `OnPodAdd`
-- reports once, and when the pod is deleted a third stops the runner and, after that, removes it from
-- the server a second time. Each step
-- is what a goroutine does without another in between; the runner's lag and count are read before
-- the server's lock is taken.
use logpilot.Prelude.{
  ℕ, String, ◌≡◌, refl, ◌∙◌, ◌≢◌, Bool, true, false, some, eq_refl, if-true, lookup,
}
use logpilot.Prelude.Int.{ℤ, pos, is_positive}
use logpilot.Agent.Status.{Server, update_runner, remove_runner, is_done, server_reports}

-- The reporting goroutine: at its select, with a report in hand, or returned.
pub data Reporter : Type 0 where
  selecting : Reporter
  holding : ℤ → ℕ → Reporter
  returned : Reporter

-- The running goroutine: in `Run`, behind `close(done)`, or returned.
pub data Running : Type 0 where
  in_run done_closed ended : Running

-- The goroutine of `onPodDeleted`: not started, waiting for the runner it has stopped, or behind its
-- own `RemoveRunner`.
pub data Deletion : Type 0 where
  absent waiting finished : Deletion

-- `announced` says that `OnPodAdd` has made its report.
pub record Goroutines : Type 0 where
  pub reporter : Reporter
  pub running : Running
  pub announced : Bool
  pub deletion : Deletion
  pub status : Server

abbrev pub started : Server → Goroutines
started status = record {
  reporter = selecting;
  running = in_run;
  announced = false;
  deletion = absent;
  status = status;
}

-- A select that finds both the tick and `done` may take either. The deletion waits for the runner to
-- return, but for thirty seconds at most; the time is left open, so that it may go on at any time.
pub data Step (key : String) (g h : Goroutines) : Type 0 where
  announces :
      (lag : ℤ)
      → g.announced ≡ false
      → h ≡ record g { announced = true; status = update_runner key lag 0 g.status }
      → Step key g h
  ticks :
      (lag : ℤ) (sent : ℕ)
      → g.reporter ≡ selecting
      → h ≡ record g { reporter = holding lag sent }
      → Step key g h
  reports :
      (lag : ℤ) (sent : ℕ)
      → g.reporter ≡ holding lag sent
      → h ≡ record g { reporter = selecting; status = update_runner key lag sent g.status }
      → Step key g h
  quits :
      g.reporter ≡ selecting
      → g.running ≢ in_run
      → h ≡ record g { reporter = returned }
      → Step key g h
  closes : g.running ≡ in_run → h ≡ record g { running = done_closed } → Step key g h
  removes :
      g.running ≡ done_closed
      → h ≡ record g { running = ended; status = remove_runner key g.status }
      → Step key g h
  deletes : g.deletion ≡ absent → h ≡ record g { deletion = waiting } → Step key g h
  removes_again :
      g.deletion ≡ waiting
      → h ≡ record g { deletion = finished; status = remove_runner key g.status }
      → Step key g h

pub data Reach (key : String) (g : Goroutines) : Goroutines → Type 0 where
  here : Reach key g g
  next : {h k : Goroutines} → Reach key g h → Step key h k → Reach key g k

-- A runner that has ended may be reported for good: whatever its key and the last lag that is read of it,
-- the goroutines can interleave so that all of them have returned, that of the pod's deletion with its
-- second removal included, and the server still reports the runner with that lag; while that is
-- positive, the server never says that it is done.
pub stale_report :
    (key : String) (lag : ℤ) (sent : ℕ) (status : Server)
    → (g : Goroutines) × Reach key (started status) g
      × (g.reporter ≡ returned)
      × (g.running ≡ ended)
      × (g.announced ≡ true)
      × (g.deletion ≡ finished)
      × (lookup key g.status ≡ some (record { name = key; lag = lag; sent = sent }))
      × (is_positive lag ≡ true → is_done g.status ≡ false)
stale_report key lag sent status =
    let s1 = update_runner key (pos 0) 0 status in
    let s2 = remove_runner key (remove_runner key s1) in
    let last = update_runner key lag sent s2 in
    let (found, busy, gone, idle) = server_reports s2 key key lag sent in
    let asked : Reach key (started status) _ =
      next (next here (announces (pos 0) refl refl)) (deletes refl refl) in
    let held = next asked (ticks lag sent refl refl) in
    let removed = next (next held (closes refl refl)) (removes refl refl) in
    (
      record {
        reporter = returned;
        running = ended;
        announced = true;
        deletion = finished;
        status = last;
      },
      next (next (next removed (removes_again refl refl)) (reports lag sent refl refl))
          (quits refl (λ e. absurd (cc)) refl),
      refl,
      refl,
      refl,
      refl,
      found ∙ if-true _ _ (eq_refl key),
      busy,
    )
