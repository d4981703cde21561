-- ===== src/Tasks/Saved.antt =====
-- The tasks that the collector keeps of a host (`saveTasks` of internal/api/tasks.go with SaveHostTasks
-- and HostTasks of internal/store/tasks.go).
use sy_mon.Base.{
  ◌≤◌, String, some, List, [], length, lookup, lookup_inserted, string_eq, Result, ok, err, ◌≡◌,
  refl, arith,
}
use sy_mon.Tasks.Offer.{Task, ListError, validate_all, max_tasks}
use sy_mon.Tasks.Offer.Accepted.{Accepted, validate_all_lem}
use sy_mon.Tasks.Runs.{Runs, host_tasks, save_host_tasks}
use sy_mon.Tasks.Server.{save_tasks, list_or_none}

kept_list :
    (sent : List Task) (r : Result ListError (List Task))
    → validate_all sent ≡ r
    → Accepted [] (list_or_none r) × (length (list_or_none r) ≤ max_tasks)
kept_list sent (err x) e = (tt, omega arith)
kept_list sent (ok ts) e = let a = validate_all_lem sent e in (a.0, a.1)

kept_by_host :
    (q : Runs) (host : String) (list : List Task) {old : List Task}
    → lookup host q.hosts ≡ some old
    → host_tasks (save_host_tasks q host list) host ≡ ok list
unfolding host_tasks save_host_tasks
kept_by_host q host list e =
    rw (save_host_tasks, e) (rw (host_tasks, lookup_inserted host list q.hosts) refl)

-- Whatever tasks an agent sends for a host that exists, the host then offers a list that breaks no rule
-- of a tasks file: at most 50 tasks within the limits, of different names. It is the accepted list, or
-- no task at all when Validate refuses what was sent.
pub save_tasks-Accepted :
    (q : Runs) (host : String) (sent : List Task) {old : List Task}
    → lookup host q.hosts ≡ some old
    → (host_tasks (save_tasks q host sent) host ≡ ok (list_or_none (validate_all sent)))
      × Accepted [] (list_or_none (validate_all sent))
      × (length (list_or_none (validate_all sent)) ≤ max_tasks)
unfolding save_tasks
save_tasks-Accepted q host sent e =
    let k = kept_list sent (validate_all sent) refl in
    (kept_by_host q host (list_or_none (validate_all sent)) e, k.0, k.1)
