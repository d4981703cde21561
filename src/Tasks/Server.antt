-- ===== src/Tasks/Server.antt =====
-- The collector's calls about tasks (internal/api/tasks.go) and how the agent reports a run
-- (`report` of agent/tasks.go). The host is the one that the call was authenticated as, if any, and
-- otherwise the one that it names.
use sy_mon.Base.{
  ℕ, zero, suc, String, Bool, true, ◌||◌, Option, none, some, List, [], if◌then◌else◌, nat_eq, ℤ,
  is_empty, leb, Result, ok, err,
}
use sy_mon.Tasks.Offer.{Task, validate_all}
use sy_mon.Tasks.Runs.{
  Runs, TaskRun, RunError, save_host_tasks, request_task_run, append_task_output, finish_task_run,
}

pub record TaskProgress : Type 0 where
  pub id : ℕ
  pub server_name : String
  pub output : String
  pub truncated : Bool
  pub done : Bool
  pub exit_code : ℤ
  pub timed_out : Bool
  pub error : String

abbrev pub host_of : Option String → String → String
host_of none named = named
host_of (some authenticated) named = authenticated

-- A list that breaks the rules of a tasks file leaves the host offering nothing.
abbrev pub list_or_none : {E : Type 0} → Result E (List Task) → List Task
list_or_none (ok list) = list
list_or_none (err e) = []

unfoldable pub save_tasks : Runs → String → List Task → Runs
unfolding validate_all save_host_tasks
save_tasks q host sent = save_host_tasks q host (list_or_none (validate_all sent))

unfoldable pub report_task :
    Runs → Option String → TaskProgress → ℕ → Result RunError (Unit {0}) × Runs
unfolding finish_task_run append_task_output
report_task q authenticated p now =
    let host = host_of authenticated p.server_name in
    if p.done
    then finish_task_run q host p.id
        (record {
          output = p.output;
          truncated = p.truncated;
          exit_code = p.exit_code;
          timed_out = p.timed_out;
          error = p.error;
        })
        now
    else append_task_output q host p.id p.output p.truncated

pub data CallError : Type 0 where
  invalid_argument : CallError
  of_store : RunError → CallError

abbrev pub from_store : {A : Type 0} → Result RunError A × Runs → Result CallError A × Runs
from_store (ok a, q) = (ok a, q)
from_store (err e, q) = (err (of_store e), q)

unfoldable pub request_run : Runs → String → String → String → ℕ → Result CallError TaskRun × Runs
unfolding request_task_run
request_run q host task by' now =
    if is_empty host || is_empty task || is_empty by'
    then (err invalid_argument, q)
    else from_store (request_task_run q host task by' now)

-- What a try of the report comes to.
pub data Reply : Type 0 where
  taken gone unreachable : Reply

-- Whether the loop of `report` ends with this try.
abbrev pub last_try : ℕ → ℕ → Reply → Bool
last_try try tries taken = true
last_try try tries gone = true
last_try try tries unreachable = leb tries try

-- The loop, with the reply to each try; `left` more tries than this one are enough.
unfoldable pub report_from : ℕ → ℕ → (ℕ → Reply) → ℕ → ℕ × Reply
report_from zero try replies tries = (try, replies try)
report_from (suc left) try replies tries =
    let rest = report_from left (suc try) replies tries in
    if last_try try tries (replies try) then (try, replies try) else rest

-- How many tries are made and the last reply.
unfoldable pub report : (ℕ → Reply) → ℕ → ℕ × Reply
unfolding report_from
report replies tries = report_from tries 1 replies tries
