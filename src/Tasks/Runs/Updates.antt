-- ===== src/Tasks/Runs/Updates.antt =====
-- The updates of the task_runs table (internal/store/tasks.go) and its invariant.
use sy_mon.Base.{
  ℕ, ◌-◌, ◌≤◌, String, Bool, true, ◌&&◌, not, Option, some, string_eq, nat_eq, int_eq, ◌≡◌, refl,
  arith, ◌∙◌, sym, is_empty,
}
use sy_mon.Stored.{clean_text, left, chars, chars-append, chars-left, short_error, max_task_error}
use sy_mon.Tasks.Runs.{
  TaskRun, TaskStatus, queued, running, succeeded, failed, timed_out, expired, lost, is_queued,
  is_running, task_output_limit, was_lost, as_lost, is_claimable, as_running, with_output, is_going,
  TaskResult, result_status, ended, not_picked_up, as_expired, went_silent,
}
use sy_mon.Tasks.Runs.Laws.{is_set, fits, RunOk, Update}

fits_running :
    (s : TaskStatus) (t f : Option ℕ) (o : String)
    → is_running s ≡ true
    → fits s t f o ≡ (is_set t && not (is_set f))
fits_running running t f o e = refl
fits_running queued t f o e = cc
fits_running succeeded t f o e = cc
fits_running failed t f o e = cc
fits_running timed_out t f o e = cc
fits_running expired t f o e = cc
fits_running lost t f o e = cc

fits_queued :
    (s : TaskStatus) (t f : Option ℕ) (o : String)
    → is_queued s ≡ true
    → fits s t f o ≡ (not (is_set t) && not (is_set f) && is_empty o)
fits_queued queued t f o e = refl
fits_queued running t f o e = cc
fits_queued succeeded t f o e = cc
fits_queued failed t f o e = cc
fits_queued timed_out t f o e = cc
fits_queued expired t f o e = cc
fits_queued lost t f o e = cc

as_lost-keeps :
    (now : ℕ) (why : String) (r : TaskRun)
    → chars why ≤ max_task_error
    → is_running r.status ≡ true
    → RunOk r
    → RunOk (as_lost now why r)
as_lost-keeps now why r h e k = record {
  output_kept = k.output_kept;
  error_kept = h;
  times_fit =
      ground (arith, fits_running r.status r.started_at r.finished_at r.output e, k.times_fit);
}

pub was_lost-Update :
    (host why : String) (now : ℕ)
    → chars why ≤ max_task_error
    → Update (was_lost host) (as_lost now why)
was_lost-Update host why now h = record {
  of_active = λ r e. ground arith;
  same_host = λ r. refl;
  keeps = λ r e k. as_lost-keeps now why r h (ground arith) k;
}

pub went_silent-Update :
    (why : String) (now : ℕ)
    → chars why ≤ max_task_error
    → Update (went_silent now) (as_lost now why)
went_silent-Update why now h = record {
  of_active = λ r e. ground arith;
  same_host = λ r. refl;
  keeps = λ r e k. as_lost-keeps now why r h (ground arith) k;
}

pub not_picked_up-Update : (now : ℕ) → Update (not_picked_up now) (as_expired now)
unfolding chars
not_picked_up-Update now = record {
  of_active = λ r e. ground arith;
  same_host = λ r. refl;
  keeps = λ r e k. record {
    output_kept = k.output_kept;
    error_kept = omega arith;
    times_fit = ground (
      arith,
      fits_queued r.status r.started_at r.finished_at r.output (ground arith),
      k.times_fit,
    );
  };
}

pub is_claimable-Update :
    (host : String) (now : ℕ) → Update (is_claimable host now) (as_running now)
is_claimable-Update host now = record {
  of_active = λ r e. ground arith;
  same_host = λ r. refl;
  keeps = λ r e k. record {
    output_kept = k.output_kept;
    error_kept = k.error_kept;
    times_fit = ground (
      arith,
      fits_queued r.status r.started_at r.finished_at r.output (ground arith),
      k.times_fit,
    );
  };
}

-- What is kept of the output fits the limit.
with_output-bound :
    (text : String) (truncated : Bool) (r : TaskRun)
    → chars r.output ≤ task_output_limit
    → chars (with_output text truncated r).output ≤ task_output_limit
with_output-bound text truncated r h = omega (
  arith,
  h,
  chars-append r.output (left (task_output_limit - chars r.output) text),
  chars-left (task_output_limit - chars r.output) text,
)

pub with_output-Update :
    (host text : String) (id : ℕ) (truncated : Bool)
    → Update (is_going host id) (with_output text truncated)
with_output-Update host text id truncated = record {
  of_active = λ r e. ground arith;
  same_host = λ r. refl;
  keeps = λ r e k. record {
    output_kept = with_output-bound text truncated r k.output_kept;
    error_kept = k.error_kept;
    times_fit =
        fits_running r.status r.started_at r.finished_at _ (ground arith)
        ∙ sym (fits_running r.status r.started_at r.finished_at r.output (ground arith))
        ∙ k.times_fit;
  };
}

result-fits :
    (result : TaskResult) (t : Option ℕ) (now : ℕ) (o : String)
    → is_set t ≡ true
    → fits (result_status result) t (some now) o ≡ true
unfolding result_status
result-fits result t now o e = ground arith

pub ended-Update :
    (host : String) (id now : ℕ) (result : TaskResult)
    → Update (is_going host id) (ended now result)
unfolding short_error
ended-Update host id now result = record {
  of_active = λ r e. ground arith;
  same_host = λ r. refl;
  keeps = λ r e k. record {
    output_kept = with_output-bound (clean_text result.output) result.truncated r k.output_kept;
    error_kept = chars-left max_task_error (clean_text result.error);
    times_fit = result-fits result r.started_at now _ (
        ground (
          arith,
          fits_running r.status r.started_at r.finished_at r.output (ground arith),
          k.times_fit,
        ));
  };
}
