-- ===== src/Tasks/Runs/Moves.antt =====
-- How one run may change (internal/store/tasks.go).
use Prim.Native.String.{◌++◌ as append}
use text.Mathlib.TextLemmas.{append-nil, append_assoc}
use sy_mon.Base.{
  ℕ, String, Bool, true, false, ◌||◌, string_eq, nat_eq, ◌≡◌, refl, arith, ◌⊎◌, inl, inr,
  Bool-cases, ◌∙◌, sym, ap, ◌-◌,
}
use sy_mon.Stored.{clean_text, left, chars}
use sy_mon.Tasks.Runs.{
  TaskRun, TaskStatus, queued, running, succeeded, failed, timed_out, expired, lost, is_queued,
  is_running, is_active, task_output_limit, as_lost, as_running, with_output, TaskResult,
  result_status, ended, as_expired,
}

abbrev pub is_expired : TaskStatus → Bool
is_expired queued = false
is_expired running = false
is_expired succeeded = false
is_expired failed = false
is_expired timed_out = false
is_expired expired = true
is_expired lost = false

-- The run `s` is what has become of the run `r`.
pub record Moves (r s : TaskRun) : Type 0 where
  pub same_id : s.id ≡ r.id
  pub same_host : s.host ≡ r.host
  pub same_task : s.task ≡ r.task
  pub same_command : s.command ≡ r.command
  pub same_request : s.requested_at ≡ r.requested_at
  pub stays : is_active r.status ≡ false → s ≡ r
  pub running_on : is_running r.status ≡ true → (is_queued s.status || is_expired s.status) ≡ false
  pub grows : (t : String) × (s.output ≡ append r.output t)

pub unmoved : (r : TaskRun) → Moves r r
unmoved r = record {
  same_id = refl;
  same_host = refl;
  same_task = refl;
  same_command = refl;
  same_request = refl;
  stays = λ e. refl;
  running_on = λ e. running_only r.status e;
  grows = ("", sym (append-nil r.output));
}
  where
    running_only : (s : TaskStatus) → is_running s ≡ true → (is_queued s || is_expired s) ≡ false
    running_only running e = refl
    running_only queued e = cc
    running_only succeeded e = cc
    running_only failed e = cc
    running_only timed_out e = cc
    running_only expired e = cc
    running_only lost e = cc

-- A run that is not queued or expired runs, or is finished.
pub Moves-trans : (r s t : TaskRun) → Moves r s → Moves s t → Moves r t
Moves-trans r s t m n = record {
  same_id = n.same_id ∙ m.same_id;
  same_host = n.same_host ∙ m.same_host;
  same_task = n.same_task ∙ m.same_task;
  same_command = n.same_command ∙ m.same_command;
  same_request = n.same_request ∙ m.same_request;
  stays = λ e. n.stays (rw (m.stays e) e) ∙ m.stays e;
  running_on = λ e. on (Bool-cases (is_running s.status)) (m.running_on e);
  grows = (
    append m.grows.0 n.grows.0,
    n.grows.1 ∙ ap (λ o. append o n.grows.0) m.grows.1 ∙ append_assoc r.output m.grows.0 n.grows.0,
  );
}
  where
    on :
        (is_running s.status ≡ true) ⊎ (is_running s.status ≡ false)
        → (is_queued s.status || is_expired s.status) ≡ false
        → (is_queued t.status || is_expired t.status) ≡ false
    on (inl e) f = n.running_on e
    on (inr e) f = rw (n.stays (ground arith)) f

pub as_lost-Moves :
    (now : ℕ) (why : String) (r : TaskRun)
    → is_running r.status ≡ true
    → Moves r (as_lost now why r)
as_lost-Moves now why r e = record {
  same_id = refl;
  same_host = refl;
  same_task = refl;
  same_command = refl;
  same_request = refl;
  stays = λ f. absurd (ground arith);
  running_on = λ f. refl;
  grows = ("", sym (append-nil r.output));
}

pub as_expired-Moves :
    (now : ℕ) (r : TaskRun) → is_queued r.status ≡ true → Moves r (as_expired now r)
as_expired-Moves now r e = record {
  same_id = refl;
  same_host = refl;
  same_task = refl;
  same_command = refl;
  same_request = refl;
  stays = λ f. absurd (ground arith);
  running_on = λ f. absurd (queued_only r.status e f);
  grows = ("", sym (append-nil r.output));
}
  where
    queued_only : (s : TaskStatus) → is_queued s ≡ true → is_running s ≡ true → ⊥
    queued_only queued e f = cc
    queued_only running e f = cc
    queued_only succeeded e f = cc
    queued_only failed e f = cc
    queued_only timed_out e f = cc
    queued_only expired e f = cc
    queued_only lost e f = cc

pub as_running-Moves :
    (now : ℕ) (r : TaskRun) → is_queued r.status ≡ true → Moves r (as_running now r)
as_running-Moves now r e = record {
  same_id = refl;
  same_host = refl;
  same_task = refl;
  same_command = refl;
  same_request = refl;
  stays = λ f. absurd (ground arith);
  running_on = λ f. refl;
  grows = ("", sym (append-nil r.output));
}

pub with_output-Moves :
    (text : String) (b : Bool) (r : TaskRun)
    → is_running r.status ≡ true
    → Moves r (with_output text b r)
with_output-Moves text b r e = record {
  same_id = refl;
  same_host = refl;
  same_task = refl;
  same_command = refl;
  same_request = refl;
  stays = λ f. absurd (ground arith);
  running_on = (unmoved r).running_on;
  grows = (left (task_output_limit - chars r.output) text, refl);
}

pub ended-Moves :
    (now : ℕ) (result : TaskResult) (r : TaskRun)
    → is_running r.status ≡ true
    → Moves r (ended now result r)
unfolding result_status
ended-Moves now result r e = record {
  same_id = refl;
  same_host = refl;
  same_task = refl;
  same_command = refl;
  same_request = refl;
  stays = λ f. absurd (ground arith);
  running_on = λ f. ground arith;
  grows = (left (task_output_limit - chars r.output) (clean_text result.output), refl);
}
