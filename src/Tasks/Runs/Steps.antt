-- ===== src/Tasks/Runs/Steps.antt =====
-- What the collector and the agents can do to the table of runs, one call at a time
-- (internal/store/tasks.go), and the tables that this leads to.
use sy_mon.Base.{
  ℕ, String, Bool, true, false, Option, none, some, List, [], ◌∷◌, ◌++◌, string_eq, nat_eq, All,
  any, select, ◌≡◌, refl, arith, inl, inr, Bool-cases, lookup,
}
use sy_mon.Stored.{chars}
use sy_mon.Tasks.Offer.{Task}
use sy_mon.Tasks.Runs.{
  TaskRun, Runs, is_active, is_busy, update_where, new_run, request_task_run, was_lost, as_lost,
  is_claimable, as_running, claim_task_run, with_output, is_going, append_task_output, TaskResult,
  ended, finish_task_run, not_picked_up, as_expired, went_silent, sweep_task_runs, is_kept,
  purge_task_runs, save_host_tasks, insert_run, affect,
}
use sy_mon.Tasks.Runs.Laws.{RunOk, OneActive, IsValid, Update, update_where-IsValid}
use sy_mon.Tasks.Runs.Updates.{
  was_lost-Update, went_silent-Update, not_picked_up-Update, is_claimable-Update,
  with_output-Update, ended-Update,
}
use sy_mon.Stored.{clean_text}

pub data Step (q : Runs) : Runs → Type 0 where
  offered : (host : String) (list : List Task) → Step q (save_host_tasks q host list)
  requested : (host task by' : String) (now : ℕ) → Step q (request_task_run q host task by' now).1
  claimed : (host : String) (now : ℕ) → Step q (claim_task_run q host now).1
  printed :
      (host : String) (id : ℕ) (text : String) (truncated : Bool)
      → Step q (append_task_output q host id text truncated).1
  finished :
      (host : String) (id : ℕ) (result : TaskResult) (now : ℕ)
      → Step q (finish_task_run q host id result now).1
  swept : (now : ℕ) → Step q (sweep_task_runs q now).1
  purged : (now keep : ℕ) → Step q (purge_task_runs q now keep).1

abbrev pub no_runs : List (String × List Task) → Runs
no_runs hosts = record { rows = []; next_id = 1; hosts = hosts }

-- The tables that the calls lead to, from one without runs.
pub data Reachable (hosts : List (String × List Task)) : Runs → Type 0 where
  start : Reachable hosts (no_runs hosts)
  then' : {q r : Runs} → Reachable hosts q → Step q r → Reachable hosts r

affect-IsValid :
    (q : Runs) (p : TaskRun → Bool) (g : TaskRun → TaskRun)
    → Update p g
    → IsValid q
    → IsValid (affect q p g).1
affect-IsValid q p g u v = elim (Bool-cases (any p q.rows)) [
  | inl e ↦ rw e (update_where-IsValid p g q u v)
  | inr e ↦ rw e v
]

new_run-RunOk :
    (id : ℕ) (host : String) (t : Task) (by' : String) (now : ℕ) → RunOk (new_run id host t by' now)
unfolding new_run chars
new_run-RunOk id host t by' now = record {
  output_kept = omega arith;
  error_kept = omega arith;
  times_fit = refl;
}

All-snoc :
    (P : TaskRun → Type 0) (rs : List TaskRun) (r : TaskRun) → All P rs → P r → All P (rs ++ r ∷ [])
All-snoc P [] r a p = (p, tt)
All-snoc P (x ∷ rs) r a p = (a.0, All-snoc P rs r a.1 p)

idle-snoc :
    (h : String) (rs : List TaskRun) (r : TaskRun)
    → any (is_busy h) rs ≡ false
    → is_busy h r ≡ false
    → any (is_busy h) (rs ++ r ∷ []) ≡ false
idle-snoc h [] r e f = ground arith
idle-snoc h (x ∷ rs) r e f = ground (arith, idle-snoc h rs r)

OneActive-snoc :
    (rs : List TaskRun) (r : TaskRun)
    → OneActive rs
    → any (is_busy r.host) rs ≡ false
    → OneActive (rs ++ r ∷ [])
OneActive-snoc [] r o e = ((λ h. refl), tt)
OneActive-snoc (x ∷ rs) r o e =
    ((λ h. idle-snoc x.host rs r (o.0 h) (other h)), OneActive-snoc rs r o.1 (ground arith))
  where
    other : is_active x.status ≡ true → is_busy x.host r ≡ false
    other h = ground (arith, string_eq.beq_iff r.host x.host, string_eq.beq_iff x.host r.host)

insert_run-IsValid :
    (q : Runs) (host by' : String) (now : ℕ) (ts : List Task)
    → IsValid q
    → IsValid (insert_run q host by' now ts).1
unfolding new_run
insert_run-IsValid q host by' now [] v = v
insert_run-IsValid q host by' now (t ∷ u ∷ ts) v = v
insert_run-IsValid q host by' now (t ∷ []) v = elim (Bool-cases (any (is_busy host) q.rows)) [
  | inl e ↦ rw e v
  | inr e ↦ rw e (
    All-snoc RunOk q.rows (new_run q.next_id host t by' now) v.0
        (new_run-RunOk q.next_id host t by' now),
    OneActive-snoc q.rows (new_run q.next_id host t by' now) v.1 e,
  )
]

idle-select :
    (h : String) (t : TaskRun → Bool) (rs : List TaskRun)
    → any (is_busy h) rs ≡ false
    → any (is_busy h) (select t rs) ≡ false
idle-select h t [] e = refl
idle-select h t (r ∷ rs) e = ground (arith, idle-select h t rs)

select-IsValid :
    (t : TaskRun → Bool) (rs : List TaskRun)
    → All RunOk rs × OneActive rs
    → All RunOk (select t rs) × OneActive (select t rs)
select-IsValid t [] v = v
select-IsValid t (r ∷ rs) v = choose (select-IsValid t rs (v.0.1, v.1.1))
  where
    choose :
        All RunOk (select t rs) × OneActive (select t rs)
        → All RunOk (select t (r ∷ rs)) × OneActive (select t (r ∷ rs))
    choose rest = elim (Bool-cases (t r)) [
      | inl e ↦ rw e ((v.0.0, rest.0), ((λ h. idle-select r.host t rs (v.1.0 h)), rest.1))
      | inr e ↦ rw e rest
    ]

save-IsValid :
    (q : Runs) (host : String) (list : List Task)
    → IsValid q
    → IsValid (save_host_tasks q host list)
unfolding save_host_tasks
save-IsValid q host list v = go (lookup host q.hosts) refl
  where
    go : (o : Option (List Task)) → lookup host q.hosts ≡ o → IsValid (save_host_tasks q host list)
    go none e = rw (save_host_tasks, e) v
    go (some old) e = rw (save_host_tasks, e) v

-- Every call keeps the table valid.
Step-IsValid : {q r : Runs} → IsValid q → Step q r → IsValid r
unfolding request_task_run claim_task_run append_task_output finish_task_run sweep_task_runs
    purge_task_runs chars
Step-IsValid {q} v (offered host list) = save-IsValid q host list v
Step-IsValid {q} v (requested host task by' now) = insert_run-IsValid q host by' now _ v
Step-IsValid {q} v (claimed host now) =
    update_where-IsValid (is_claimable host now) (as_running now)
      (record q {
        rows =
            update_where (was_lost host) (as_lost now "the agent stopped before the task finished")
              q.rows;
      })
      (is_claimable-Update host now)
      (update_where-IsValid (was_lost host)
        (as_lost now "the agent stopped before the task finished") q
        (was_lost-Update host _ now (omega arith)) v)
Step-IsValid {q} v (printed host id text truncated) =
    affect-IsValid q (is_going host id) (with_output (clean_text text) truncated)
      (with_output-Update host (clean_text text) id truncated) v
Step-IsValid {q} v (finished host id result now) =
    affect-IsValid q (is_going host id) (ended now result) (ended-Update host id now result) v
Step-IsValid {q} v (swept now) =
    update_where-IsValid (went_silent now) (as_lost now "the agent stopped reporting")
      (record q { rows = update_where (not_picked_up now) (as_expired now) q.rows })
      (went_silent-Update _ now (omega arith))
      (update_where-IsValid (not_picked_up now) (as_expired now) q (not_picked_up-Update now) v)
Step-IsValid {q} v (purged now keep) = select-IsValid (is_kept now keep) q.rows v

-- However requests, claims, reports, sweeps and purges are interleaved, a host never has two runs
-- that are queued or running, and of every run: at most 256 Ki characters of output and 500 of the
-- error are kept, a queued or expired run was never started and printed nothing, a running one has
-- started and not finished, and any other has both times.
pub Reachable-IsValid :
    {hosts : List (String × List Task)} {q : Runs} → Reachable hosts q → IsValid q
Reachable-IsValid start = (tt, tt)
Reachable-IsValid (then' r s) = Step-IsValid (Reachable-IsValid r) s
