-- ===== src/Tests/Reports.antt =====
-- The status of a runner at concrete inputs.
use logpilot.Prelude.{◌≡◌, true, false, some, [], lookup}
use logpilot.Prelude.Int.{pos, is_positive}
use logpilot.Agent.Status.{is_done}
use logpilot.Agent.Watcher.Reports.{
  Goroutines, returned, ended, finished, started, Reach, stale_report,
}

stale_report_example :
    (g : Goroutines) × Reach "u1/app/access" (started []) g
    × (g.reporter ≡ returned)
    × (g.running ≡ ended)
    × (g.announced ≡ true)
    × (g.deletion ≡ finished)
    × (lookup "u1/app/access" g.status
        ≡ some (record { name = "u1/app/access"; lag = pos 3; sent = 2 }))
    × (is_positive (pos 3) ≡ true → is_done g.status ≡ false)
stale_report_example = stale_report "u1/app/access" (pos 3) 2 []
