-- ===== src/Examples.antt =====
-- Concrete rules, tables and events that the theorems are applied to.
pub mod Users
pub mod Fleet
pub mod Clusters
pub mod Editing
use sy_mon.Base.{
  ℕ, ◌*◌, ◌≤◌, ℤ, pos, ltb_ℤ, beq_ℤ, true, false, ◌&&◌, none, some, List, [], ◌∷◌, ◌++◌, Float64,
  not, ◌==◌, if◌then◌else◌, map, lookup, length, take, ltb, contains, any, All, ok, err, ◌≡◌, refl,
  arith, nat_eq, string_eq, trim_space,
}
use sy_mon.Rules.{AlertConfig}
use sy_mon.Rules.Validate.{
  UrlParser, parse_rules, validate, check_channels, check_watched, check_metric,
  check_servers_and_op, check_servers, check_op, threshold_ops,
}
use sy_mon.Rules.Valid.Parse.{Accepted, names_of, trimmed_names, parse_rules_lem}
use sy_mon.Alerts.Data.{Alert, resolved, second}
use sy_mon.Alerts.Text.{Format}
use sy_mon.Alerts.Store.{Alerts, open_alert, create_alert, update_alert, resolve_alert}
use sy_mon.Alerts.Store.Laws
use sy_mon.Alerts.Store.Laws.{open_alert-create, open_alert-update, open_alert-resolve}
use sy_mon.Alerts.Evaluator.{Evaluator, check}
use sy_mon.Alerts.Evaluator.History.{alarm, story}
use sy_mon.Alerts.Evaluator.Tracks.{SameAlarm, events, open_of}
use sy_mon.Alerts.Evaluator.Refines.{Fresh, watch, watch-alarm}
use sy_mon.Alerts.Evaluator.Once.{check-check}
use sy_mon.Notify.Channels.{Channel, pick_channels}
use sy_mon.Notify.Queue.{Queue, Queued, queue_notifications, notified_channels}
use sy_mon.Notify.Deliver.{World, deliver_due}
use sy_mon.Notify.Order
use sy_mon.Notify.Order.{queue_notifications-IsValid}
use sy_mon.Notify.Batch.{deliver_due-IsValid}
use sy_mon.Notify.Told.{is_on, tells, pick_channels-resolved}
use sy_mon.Tasks.Offer.{Task, validate_all, max_tasks}
use sy_mon.Tasks.Offer.Accepted
use sy_mon.Tasks.Offer.Accepted.{validate_all_lem}
use sy_mon.Tasks.Output.{
  no_output, write, full_rune, whole_from, whole_characters, cut_output, take_output,
}
use sy_mon.Tasks.Kept as Kept
use sy_mon.Tasks.Kept.{printed, taken, run, all_printed, CutFrom, run_lem}
use sy_mon.Tasks.Runs.{Runs, TaskRun, request_task_run, claim_task_run, as_running, new_run}
use sy_mon.Tasks.Runs.Laws as RunLaws
use sy_mon.Tasks.Runs.Steps.{start, then', requested, claimed, no_runs, Reachable-IsValid}
use sy_mon.Tasks.Runs.Follows.{Follows, Step-Follows}
use sy_mon.Tasks.Runs.Pickup.{claim-request}
use sy_mon.Tasks.Server.{Reply, unreachable, report_from, report}
use sy_mon.Tasks.Runs.{expired, running, sweep_task_runs, is_busy, host_tasks}
use sy_mon.Tasks.Runs.Sweep.{is_overdue, sweep_task_runs_lem}
use sy_mon.Tasks.Server.{save_tasks, list_or_none}
use sy_mon.Tasks.Saved.{save_tasks-Accepted}
use sy_mon.Tasks.Reported.{Reported, report_lem}
use sy_mon.Kube.Types.{Pod, ClusterState, workload_key}
use sy_mon.Kube.Targets.{KubeTarget, kube_targets, pending_of, in_namespace}
use sy_mon.Kube.EachPodOnce.{Distinct, target_names, total, pending_among, kube_targets-pending}

-- Whole numbers in place of float64.
instance abbrev whole : Float64 ℤ
whole = record { less = ltb_ℤ; same = beq_ℤ; of_int = λ n. n; to_int = λ n. n }

abbrev plain : Format ℤ
plain = record {
  rfc1123 = λ at. "at";
  utc = λ at. "at";
  expiry = λ at days. "soon";
  fixed_2 = λ v. "v";
  fixed_0 = λ v. "v";
}

abbrev cpu_rule : AlertConfig
cpu_rule = record {
  name = "cpu";
  description = "";
  metric_name = "procUsage";
  is_custom = false;
  op = ">";
  template = "";
  warn_threshold = pos 80;
  critical_threshold = pos 90;
  trigger_intveral = pos 60;
  servers = "web1" ∷ [];
  endpoint = "";
  expected_http_code = pos 0;
  method = "";
  custom_ca_cert = "";
  post_content_type = "";
  post_body = "";
  disk = "";
  service = "";
  cluster = "";
  namespace = "";
  channels = [];
  email = false;
  pagerduty = false;
  slack = false;
  slack_channel = "";
  cert_warn_days = none;
  cert_critical_days = none;
}

abbrev no_alerts : Alerts ℤ
no_alerts = record { hosts = "web1" ∷ []; rows = []; next_id = 1 }

abbrev idle : Evaluator ℤ
idle = record {
  alerts = no_alerts;
  sent = [];
  faults = [];
  pending = [];
  checked = [];
  check_errors = [];
  reasons = [];
}

-- Above the critical level for two minutes, then fine.
abbrev busy_spell : List (ℤ × ℕ)
busy_spell = (pos 10, 200 * second) ∷ (pos 95, 120 * second) ∷ (pos 95, 0) ∷ []

idle-Fresh : Fresh plain cpu_rule "web1" "" idle
unfolding lookup open_alert
idle-Fresh = record {
  calm = refl;
  valid = tt;
  known = refl;
  unchecked = refl;
  nothing_pending = refl;
  no_alert = refl;
}

watch-alarm_example :
    SameAlarm
      (open_of cpu_rule "web1" "" (watch plain cpu_rule "web1" "" idle busy_spell))
      (alarm cpu_rule busy_spell)
    × (events (watch plain cpu_rule "web1" "" idle busy_spell).sent
        ≡ [] ++ story cpu_rule busy_spell)
    × Laws.IsValid (watch plain cpu_rule "web1" "" idle busy_spell).alerts
watch-alarm_example =
    watch-alarm plain cpu_rule "web1" "" idle busy_spell (omega arith, omega arith) refl idle-Fresh
      (omega arith, (omega arith, tt))

check-check_example :
    check plain cpu_rule "web1" "" (pos 99) 5 (check plain cpu_rule "web1" "" (pos 95) 7 idle).1
    ≡ (ok tt, (check plain cpu_rule "web1" "" (pos 95) 7 idle).1)
check-check_example = check-check plain cpu_rule "web1" "" (pos 95) (pos 99) 7 5 idle (omega arith)

abbrev no_urls : UrlParser
no_urls url = none

parsed : parse_rules no_urls (cpu_rule ∷ []) ≡ ok (cpu_rule ∷ [])
unfolding parse_rules validate trim_space check_channels check_watched check_metric
    check_servers_and_op check_servers check_op threshold_ops
parsed = refl

parse_rules_lem_example :
    Accepted no_urls [] (cpu_rule ∷ [])
    × (names_of (cpu_rule ∷ []) ≡ trimmed_names (cpu_rule ∷ []))
    × (parse_rules no_urls (cpu_rule ∷ []) ≡ ok (cpu_rule ∷ []))
parse_rules_lem_example = parse_rules_lem no_urls (cpu_rule ∷ []) parsed

abbrev cpu_alert : Alert ℤ
cpu_alert = record {
  id = 0;
  host = "web1";
  rule = "cpu";
  metric = "procUsage";
  target = "";
  severity = 1;
  value = pos 85;
  started_at = 3;
  updated_at = 3;
  resolved_at = none;
}

abbrev stored_alert : Alert ℤ
stored_alert = record cpu_alert { id = 1 }

abbrev one_alert : Alerts ℤ
one_alert = record { hosts = "web1" ∷ []; rows = stored_alert ∷ []; next_id = 2 }

one_alert-IsValid : Laws.IsValid one_alert
one_alert-IsValid = (omega arith, (λ o. refl), tt)

one_alert_open : open_alert one_alert "web1" "cpu" "procUsage" "" ≡ some stored_alert
unfolding open_alert
one_alert_open = refl

none_open : open_alert no_alerts "web1" "cpu" "procUsage" "" ≡ none
unfolding open_alert
none_open = refl

open_alert-create_example :
    ((create_alert no_alerts cpu_alert).0 ≡ ok 1)
    × (open_alert (create_alert no_alerts cpu_alert).1 "web1" "cpu" "procUsage" ""
        ≡ some stored_alert)
    × ((create_alert no_alerts cpu_alert).1.hosts ≡ "web1" ∷ [])
open_alert-create_example = open_alert-create no_alerts cpu_alert refl none_open

open_alert-update_example :
    open_alert (update_alert one_alert 1 2 (pos 95) 9) "web1" "cpu" "procUsage" ""
    ≡ some (record stored_alert { severity = 2; value = pos 95; updated_at = 9 })
open_alert-update_example =
    open_alert-update one_alert "web1" "cpu" "procUsage" "" stored_alert 2 (pos 95) 9
      one_alert-IsValid one_alert_open

open_alert-resolve_example :
    open_alert (resolve_alert one_alert 1 (pos 10) 9) "web1" "cpu" "procUsage" "" ≡ none
open_alert-resolve_example =
    open_alert-resolve one_alert "web1" "cpu" "procUsage" "" stored_alert (pos 10) 9
      one_alert-IsValid one_alert_open

abbrev mail : Channel
mail = record {
  id = 4;
  name = "mail";
  kind = "email";
  settings = "";
  is_default = true;
  skip_warnings = false;
  enabled = true;
}

abbrev empty_queue : Queue ℤ
empty_queue = record { rows = []; next_id = 1; channel_ids = 4 ∷ [] }

abbrev cpu_text : Queued ℤ
cpu_text = record {
  alert_id = 1;
  event = resolved;
  severity = 0;
  value = pos 10;
  subject = "fine";
  body = "fine";
}

abbrev queued_once : Queue ℤ
queued_once = (queue_notifications empty_queue cpu_text 5 (4 ∷ [])).1

queue_notifications-IsValid_example : Order.IsValid queued_once
queue_notifications-IsValid_example =
    queue_notifications-IsValid empty_queue cpu_text 5 (4 ∷ []) (omega arith)

abbrev answering : World ℤ
answering = record {
  channels = mail ∷ [];
  parse = λ c. ok tt;
  send = λ c n ref. err "no answer";
  clock = λ id. 6;
  marks = λ id. true;
}

deliver_due-IsValid_example : Order.IsValid (deliver_due answering queued_once 6)
deliver_due-IsValid_example =
    deliver_due-IsValid answering queued_once 6
      (queue_notifications-IsValid empty_queue cpu_text 5 (4 ∷ []) (omega arith))

pick_channels-resolved_example :
    contains (pick_channels cpu_rule (mail ∷ []) resolved 0 (notified_channels queued_once 1)) 4
    ≡ (any (is_on 4) (mail ∷ []) && any (tells 1 4) queued_once.rows)
pick_channels-resolved_example = pick_channels-resolved cpu_rule 0 1 (mail ∷ []) queued_once 4

abbrev backup : Task
backup = record {
  name = "backup";
  description = "";
  command = "/usr/bin/backup";
  timeout_seconds = pos 300;
}

backup_accepted : validate_all (record backup { timeout_seconds = pos 0 } ∷ []) ≡ ok (backup ∷ [])
unfolding validate_all trim_space
backup_accepted = refl

validate_all_lem_example :
    Accepted.Accepted [] (backup ∷ [])
    × (length (backup ∷ []) ≤ max_tasks)
    × (validate_all (backup ∷ []) ≡ ok (backup ∷ []))
validate_all_lem_example =
    validate_all_lem (record backup { timeout_seconds = pos 0 } ∷ []) backup_accepted

-- "hi", a NUL and the first byte of "é", whose second one is printed after a take.
abbrev in_halves : List Kept.Event
in_halves = printed (104 ∷ 105 ∷ 0 ∷ 195 ∷ []) ∷ taken false ∷ printed (169 ∷ []) ∷ taken true ∷ []

run_lem_example :
    CutFrom
      (λ text. text)
      (all_printed in_halves)
      (run (λ text. text) in_halves no_output).0
      (run (λ text. text) in_halves no_output).1
run_lem_example = run_lem (λ text. text) in_halves

in_halves_taken :
    (run (λ text. text) in_halves no_output).0 ≡ (104 ∷ 105 ∷ []) ∷ (195 ∷ 169 ∷ []) ∷ []
unfolding take_output cut_output write whole_characters whole_from full_rune
in_halves_taken = refl

abbrev offering : Runs
offering = no_runs (("web1", backup ∷ []) ∷ [])

abbrev backup_run : TaskRun
backup_run = new_run 1 "web1" backup "admin" 10

requested_run : (request_task_run offering "web1" "backup" "admin" 10).0 ≡ ok backup_run
unfolding request_task_run
requested_run = refl

claim-request_example :
    (claim_task_run (request_task_run offering "web1" "backup" "admin" 10).1 "web1" 20).0
    ≡ some (as_running 20 backup_run)
claim-request_example =
    claim-request offering "web1" "backup" "admin" 10 20 requested_run (omega arith)

Reachable-IsValid_example :
    RunLaws.IsValid
      (claim_task_run (request_task_run offering "web1" "backup" "admin" 10).1 "web1" 20).1
Reachable-IsValid_example =
    Reachable-IsValid
      (then' (then' start (requested "web1" "backup" "admin" 10)) (claimed "web1" 20))

Step-Follows_example : Follows [] (request_task_run offering "web1" "backup" "admin" 10).1.rows
Step-Follows_example = Step-Follows {q = offering} (requested "web1" "backup" "admin" 10)

-- The third try gets through.
abbrev third_taken : ℕ → Reply
third_taken n = if n == 3 then Reply.taken else unreachable

report_lem_example : Reported 1 5 third_taken (report third_taken 5)
report_lem_example = report_lem third_taken 5 (omega arith)

third_try : report third_taken 5 ≡ (3, Reply.taken)
unfolding report report_from
third_try = refl

abbrev web_pod : Pod
web_pod = record {
  namespace = "shop";
  name = "web-1";
  uid = "u1";
  node = "";
  workload = "deployment/web";
  phase = "Pending";
  ready = false;
  reason = "Unschedulable";
  created = 90;
  containers = [];
}

abbrev cluster : ClusterState ℤ
cluster = record {
  cluster = "home";
  time = 100;
  error = "";
  nodes = [];
  workloads = [];
  pods = web_pod ∷ web_pod ∷ [];
  events = [];
}

abbrev pending_rule : AlertConfig
pending_rule = record cpu_rule { metric_name = "kube_pending"; servers = []; cluster = "home" }

abbrev pending_targets : List (KubeTarget ℤ)
pending_targets = kube_targets pending_rule cluster []

kube_targets-pending_example :
    Distinct (target_names pending_targets)
    × All
        (λ (t : KubeTarget ℤ). t.value ≡ pos (length (pending_of t.target cluster.pods)))
        pending_targets
    × All
        (λ p.
          in_namespace pending_rule p.namespace ≡ true
          → contains (target_names pending_targets) (workload_key p) ≡ true)
        cluster.pods
    × (total (λ k. length (pending_of k cluster.pods)) (target_names pending_targets)
        ≡ pending_among (target_names pending_targets) cluster.pods)
kube_targets-pending_example = kube_targets-pending pending_rule cluster [] refl refl

-- A run of web1 that was requested long ago, and one of web2 that is going.
abbrev two_runs : Runs
two_runs = record offering {
  rows = backup_run ∷ as_running 170000000000 (new_run 2 "web2" backup "admin" 165000000000) ∷ [];
}

sweep_task_runs_lem_example :
    All (λ r. is_overdue 180000000000 r ≡ false) (sweep_task_runs two_runs 180000000000).1.rows
    × (any (is_busy "web1") (sweep_task_runs two_runs 180000000000).1.rows
        ≡ any (λ r. is_busy "web1" r && not (is_overdue 180000000000 r)) two_runs.rows)
sweep_task_runs_lem_example = sweep_task_runs_lem two_runs 180000000000 "web1"

one_swept :
    map (λ r. r.status) (sweep_task_runs two_runs 180000000000).1.rows ≡ expired ∷ running ∷ []
unfolding sweep_task_runs new_run
one_swept = refl

offering_web1 : lookup "web1" offering.hosts ≡ some (backup ∷ [])
unfolding lookup
offering_web1 = refl

save_tasks-Accepted_example :
    (host_tasks (save_tasks offering "web1" (backup ∷ backup ∷ [])) "web1"
      ≡ ok (list_or_none (validate_all (backup ∷ backup ∷ []))))
    × Accepted.Accepted [] (list_or_none (validate_all (backup ∷ backup ∷ [])))
    × (length (list_or_none (validate_all (backup ∷ backup ∷ []))) ≤ max_tasks)
save_tasks-Accepted_example =
    save_tasks-Accepted offering "web1" (backup ∷ backup ∷ []) offering_web1
