-- ===== src/Tasks/Runs/Sweep.antt =====
-- What a sweep leaves (SweepTaskRuns of internal/store/tasks.go).
use sy_mon.Base.{
  ℕ, ◌+◌, ◌*◌, ltb, leb, String, Bool, false, ◌&&◌, ◌||◌, not, Option, none, some, List, [], ◌∷◌,
  string_eq, All, any, ◌≡◌, refl, arith,
}
use sy_mon.Alerts.Data.{second}
use sy_mon.Tasks.Runs.{
  TaskRun, Runs, is_busy, is_queued, is_running, update_where, not_picked_up, as_expired,
  went_silent, as_lost, sweep_task_runs,
}

-- Two minutes, and one, in nanoseconds.
abbrev pub two_minutes : ℕ
two_minutes = 120000000000

abbrev pub one_minute : ℕ
one_minute = 60000000000

abbrev pub is_late : ℕ → ℕ → Option ℕ → Bool
is_late now timeout none = false
is_late now timeout (some started) = ltb (started + timeout * second + one_minute) now

-- Requested two minutes ago or before and not picked up, or running for more than the timeout and a
-- minute.
abbrev pub is_overdue : ℕ → TaskRun → Bool
is_overdue now r =
    (is_queued r.status && leb (r.requested_at + two_minutes) now)
    || (is_running r.status && is_late now r.timeout_seconds r.started_at)

swept_rows :
    (now : ℕ) (why : String) (rs : List TaskRun)
    → All
        (λ r. is_overdue now r ≡ false)
        (update_where
          (went_silent now)
          (as_lost now why)
          (update_where (not_picked_up now) (as_expired now) rs))
swept_rows now why [] = tt
swept_rows now why (r ∷ rs) = (ground arith, swept_rows now why rs)

busy_after :
    (host : String) (now : ℕ) (why : String) (rs : List TaskRun)
    → any (is_busy host) (
        update_where
          (went_silent now)
          (as_lost now why)
          (update_where (not_picked_up now) (as_expired now) rs))
      ≡ any (λ r. is_busy host r && not (is_overdue now r)) rs
busy_after host now why [] = refl
busy_after host now why (r ∷ rs) = ground (arith, busy_after host now why rs)

-- After a sweep no run is overdue: none that was requested two minutes ago is queued, and none that
-- started more than its timeout and a minute ago is running. A host is busy then exactly when it had a queued
-- or running run before that was not overdue.
pub sweep_task_runs_lem :
    (q : Runs) (now : ℕ) (host : String)
    → All (λ r. is_overdue now r ≡ false) (sweep_task_runs q now).1.rows
      × (any (is_busy host) (sweep_task_runs q now).1.rows
          ≡ any (λ r. is_busy host r && not (is_overdue now r)) q.rows)
unfolding sweep_task_runs
sweep_task_runs_lem q now host = (swept_rows now _ q.rows, busy_after host now _ q.rows)
