-- ===== src/Tasks/Runs.antt =====
-- The task_runs table and the tasks that hosts offer (internal/store/tasks.go), oldest run first. A
-- statement that the database refuses for another reason than the one-active index changes nothing
-- and is not modelled.
use Prim.Native.String.{◌++◌ as append}
use sy_mon.Base.{
  ℕ, suc, ◌+◌, ◌-◌, ◌*◌, min, String, Bool, true, false, ◌&&◌, ◌||◌, not, Option, none, some, List,
  [], ◌∷◌, ◌++◌, if◌then◌else◌, ◌==◌, nat_eq, int_eq, string_eq, ltb, leb, ℤ, pos, negsuc, any,
  select, find, length, take, map, lookup, insert, is_empty, Result, ok, err,
}
use sy_mon.Stored.{clean_text, left, chars, max_task_error, short_error}
use sy_mon.Alerts.Data.{second}
use sy_mon.Tasks.Offer.{Task}
pub mod Laws
pub mod Updates
pub mod Steps
pub mod Moves
pub mod Follows
pub mod Pickup
pub mod Sweep

pub data TaskStatus : Type 0 where
  queued running succeeded failed timed_out expired lost : TaskStatus

pub data RunError : Type 0 where
  not_found task_busy : RunError

-- 256 << 10
abbrev pub task_output_limit : ℕ
task_output_limit = 262144

abbrev pub task_pickup_window : ℕ
task_pickup_window = 120 * second

abbrev pub task_lost_after : ℕ
task_lost_after = 60

pub record TaskRun : Type 0 where
  pub id : ℕ
  pub host : String
  pub task : String
  pub command : String
  pub timeout_seconds : ℕ
  pub status : TaskStatus
  pub requested_by : String
  pub requested_at : ℕ
  pub started_at : Option ℕ
  pub finished_at : Option ℕ
  pub exit_code : Option ℤ
  pub error : String
  pub output : String
  pub truncated : Bool

pub record Runs : Type 0 where
  pub rows : List TaskRun
  pub next_id : ℕ
  -- hosts.tasks, by the host's name
  pub hosts : List (String × List Task)

abbrev pub is_queued : TaskStatus → Bool
is_queued queued = true
is_queued running = false
is_queued succeeded = false
is_queued failed = false
is_queued timed_out = false
is_queued expired = false
is_queued lost = false

abbrev pub is_running : TaskStatus → Bool
is_running queued = false
is_running running = true
is_running succeeded = false
is_running failed = false
is_running timed_out = false
is_running expired = false
is_running lost = false

-- The condition of the task_runs_one_active index.
abbrev pub is_active : TaskStatus → Bool
is_active s = is_queued s || is_running s

-- UPDATE … SET … WHERE
abbrev pub update_where : (TaskRun → Bool) → (TaskRun → TaskRun) → List TaskRun → List TaskRun
update_where p g [] = []
update_where p g (r ∷ rs) = (if p r then g r else r) ∷ update_where p g rs

-- UPDATE hosts SET tasks: a host that is gone keeps nothing.
unfoldable pub save_host_tasks : Runs → String → List Task → Runs
unfolding lookup insert
save_host_tasks q host list = elim (lookup host q.hosts) [
  | none ↦ q
  | some old ↦ record q { hosts = insert host list q.hosts }
]

unfoldable pub host_tasks : Runs → String → Result RunError (List Task)
unfolding lookup
host_tasks q host = elim (lookup host q.hosts) [ none ↦ err not_found | some list ↦ ok list ]

-- The integer that the timeout is cast to. Validate lets no negative one through.
abbrev pub to_seconds : ℤ → ℕ
to_seconds (pos n) = n
to_seconds (negsuc n) = 0

unfoldable pub new_run : ℕ → String → Task → String → ℕ → TaskRun
new_run id host t by' now = record {
  id = id;
  host = host;
  task = t.name;
  command = t.command;
  timeout_seconds = to_seconds t.timeout_seconds;
  status = queued;
  requested_by = by';
  requested_at = now;
  started_at = none;
  finished_at = none;
  exit_code = none;
  error = "";
  output = "";
  truncated = false;
}

abbrev pub is_busy : String → TaskRun → Bool
is_busy host r = r.host == host && is_active r.status

abbrev pub offers : String → Runs → List Task
offers host q = elim (lookup host q.hosts) [ none ↦ [] | some list ↦ list ]

-- The rows that `SELECT … WHERE t->>'Name' = $2` gives are inserted; the index takes one of a host.
abbrev pub insert_run : Runs → String → String → ℕ → List Task → Result RunError TaskRun × Runs
insert_run q host by' now [] = (err not_found, q)
insert_run q host by' now (t ∷ []) = if any (is_busy host) q.rows then (err task_busy, q) else (
  ok (new_run q.next_id host t by' now),
  record q { rows = q.rows ++ new_run q.next_id host t by' now ∷ []; next_id = suc q.next_id },
)
insert_run q host by' now (t ∷ u ∷ ts) = (err task_busy, q)

unfoldable pub request_task_run :
    Runs → String → String → String → ℕ → Result RunError TaskRun × Runs
unfolding lookup new_run
request_task_run q host task by' now =
    insert_run q host by' now (select (λ (t : Task). t.name == task) (offers host q))

abbrev pub was_lost : String → TaskRun → Bool
was_lost host r = is_running r.status && r.host == host

abbrev pub as_lost : ℕ → String → TaskRun → TaskRun
as_lost now why r = record r { status = lost; finished_at = some now; error = why }

abbrev pub is_claimable : String → ℕ → TaskRun → Bool
is_claimable host now r =
    is_queued r.status && r.host == host && ltb now (r.requested_at + task_pickup_window)

abbrev pub as_running : ℕ → TaskRun → TaskRun
as_running now r = record r { status = running; started_at = some now }

abbrev pub started : Option TaskRun → ℕ → Option TaskRun
started none now = none
started (some r) now = some (as_running now r)

unfoldable pub claim_task_run : Runs → String → ℕ → Option TaskRun × Runs
claim_task_run q host now =
    let rows =
      update_where (was_lost host) (as_lost now "the agent stopped before the task finished")
        q.rows in
    (
      started (find (is_claimable host now) rows) now,
      record q { rows = update_where (is_claimable host now) (as_running now) rows },
    )

abbrev pub with_output : String → Bool → TaskRun → TaskRun
with_output text truncated r = record r {
  output = append r.output (left (task_output_limit - chars r.output) text);
  truncated = r.truncated || truncated || ltb task_output_limit (chars r.output + chars text);
}

abbrev pub is_going : String → ℕ → TaskRun → Bool
is_going host id r = r.id == id && is_running r.status && r.host == host

-- ErrNotFound when no row was affected.
abbrev pub affect :
    Runs → (TaskRun → Bool) → (TaskRun → TaskRun) → Result RunError (Unit {0}) × Runs
affect q p g =
    if any p q.rows
    then (ok tt, record q { rows = update_where p g q.rows })
    else (err not_found, q)

unfoldable pub append_task_output :
    Runs → String → ℕ → String → Bool → Result RunError (Unit {0}) × Runs
unfolding clean_text left chars
append_task_output q host id text truncated =
    affect q (is_going host id) (with_output (clean_text text) truncated)

pub record TaskResult : Type 0 where
  pub output : String
  pub truncated : Bool
  pub exit_code : ℤ
  pub timed_out : Bool
  pub error : String

unfoldable pub result_status : TaskResult → TaskStatus
result_status r =
    if r.timed_out
    then timed_out
    else if not (is_empty r.error) || not (r.exit_code == pos 0)
    then failed
    else succeeded

abbrev pub ended : ℕ → TaskResult → TaskRun → TaskRun
ended now result r = record (with_output (clean_text result.output) result.truncated r) {
  status = result_status result;
  exit_code = some result.exit_code;
  error = short_error result.error;
  finished_at = some now;
}

unfoldable pub finish_task_run :
    Runs → String → ℕ → TaskResult → ℕ → Result RunError (Unit {0}) × Runs
unfolding clean_text left chars short_error result_status
finish_task_run q host id result now = affect q (is_going host id) (ended now result)

abbrev pub not_picked_up : ℕ → TaskRun → Bool
not_picked_up now r = is_queued r.status && leb (r.requested_at + task_pickup_window) now

abbrev pub as_expired : ℕ → TaskRun → TaskRun
as_expired now r = record r {
  status = expired;
  finished_at = some now;
  error = "the agent did not pick the task up";
}

abbrev pub over_by : ℕ → ℕ → Option ℕ → Bool
over_by now timeout none = false
over_by now timeout (some t) = ltb (t + (timeout + task_lost_after) * second) now

abbrev pub went_silent : ℕ → TaskRun → Bool
went_silent now r = is_running r.status && over_by now r.timeout_seconds r.started_at

unfoldable pub sweep_task_runs : Runs → ℕ → ℕ × Runs
sweep_task_runs q now =
    let rows = update_where (not_picked_up now) (as_expired now) q.rows in
    (
      length (select (not_picked_up now) q.rows) + length (select (went_silent now) rows),
      record q {
        rows = update_where (went_silent now) (as_lost now "the agent stopped reporting") rows;
      },
    )

abbrev pub is_kept : ℕ → ℕ → TaskRun → Bool
is_kept now keep r = not (ltb (r.requested_at + keep) now) || is_active r.status

unfoldable pub purge_task_runs : Runs → ℕ → ℕ → ℕ × Runs
purge_task_runs q now keep = (
  length (select (λ r. not (is_kept now keep r)) q.rows),
  record q { rows = select (is_kept now keep) q.rows },
)

abbrev pub newest : List TaskRun → List TaskRun → List TaskRun
newest [] acc = acc
newest (r ∷ rs) acc = newest rs (r ∷ acc)

abbrev pub runs_limit : ℤ → ℕ
runs_limit (pos ℕ.zero) = 50
runs_limit (pos (suc n)) = min (suc n) 200
runs_limit (negsuc n) = 50

-- Newest first, without their output.
unfoldable pub task_runs : Runs → String → ℤ → Result RunError (List TaskRun)
unfolding lookup
task_runs q host limit = elim (lookup host q.hosts) [
  | none ↦ err not_found
  | some list ↦ ok (
      map (λ (r : TaskRun). record r { output = "" })
        (take (runs_limit limit) (newest (select (λ (r : TaskRun). r.host == host) q.rows) [])))
]
