-- ===== src/Tasks/Runs/Follows.antt =====
-- How the calls may change the runs (internal/store/tasks.go).
use sy_mon.Base.{
  ℕ, String, Bool, true, false, Option, none, some, List, [], ◌∷◌, ◌++◌, if◌then◌else◌, string_eq,
  nat_eq, All, any, ◌≡◌, refl, arith, inl, inr, Bool-cases, lookup, select,
}
use sy_mon.Stored.{clean_text}
use sy_mon.Tasks.Offer.{Task}
use sy_mon.Tasks.Runs.{
  TaskRun, Runs, is_queued, is_active, is_busy, update_where, new_run, request_task_run, was_lost,
  as_lost, is_claimable, as_running, claim_task_run, with_output, is_going, append_task_output,
  ended, finish_task_run, not_picked_up, as_expired, went_silent, sweep_task_runs, is_kept,
  purge_task_runs, save_host_tasks, insert_run, affect,
}
use sy_mon.Tasks.Runs.Steps.{Step, offered, requested, claimed, printed, finished, swept, purged}
use sy_mon.Tasks.Runs.Moves.{
  Moves, unmoved, Moves-trans, as_lost-Moves, as_expired-Moves, as_running-Moves, with_output-Moves,
  ended-Moves,
}

-- The rows after a call: each run of before has moved, or was finished and is deleted; new rows are
-- queued.
pub data Follows : List TaskRun → List TaskRun → Type 0 where
  fresh : (new : List TaskRun) → All (λ r. is_queued r.status ≡ true) new → Follows [] new
  moved :
      (r s : TaskRun) (rs ss : List TaskRun) → Moves r s → Follows rs ss → Follows (r ∷ rs) (s ∷ ss)
  deleted :
      (r : TaskRun) (rs ss : List TaskRun)
      → is_active r.status ≡ false
      → Follows rs ss
      → Follows (r ∷ rs) ss

abbrev Moving : (TaskRun → Bool) → (TaskRun → TaskRun) → Type 0
Moving p g = (r : TaskRun) → p r ≡ true → Moves r (g r)

one_move :
    (p : TaskRun → Bool) (g : TaskRun → TaskRun) (r : TaskRun)
    → Moving p g
    → Moves r (if p r then g r else r)
one_move p g r m = elim (Bool-cases (p r)) [ inl e ↦ rw e (m r e) | inr e ↦ rw e (unmoved r) ]

unchanged : (rs : List TaskRun) → Follows rs rs
unchanged [] = fresh [] tt
unchanged (r ∷ rs) = moved r r rs rs (unmoved r) (unchanged rs)

update-Follows :
    (p : TaskRun → Bool) (g : TaskRun → TaskRun) (rs : List TaskRun)
    → Moving p g
    → Follows rs (update_where p g rs)
update-Follows p g [] m = fresh [] tt
update-Follows p g (r ∷ rs) m = moved r _ rs _ (one_move p g r m) (update-Follows p g rs m)

two_updates-Follows :
    (p p' : TaskRun → Bool) (g g' : TaskRun → TaskRun) (rs : List TaskRun)
    → Moving p g
    → Moving p' g'
    → Follows rs (update_where p' g' (update_where p g rs))
two_updates-Follows p p' g g' [] m m' = fresh [] tt
two_updates-Follows p p' g g' (r ∷ rs) m m' =
    moved r _ rs _
      (Moves-trans r (if p r then g r else r) _ (one_move p g r m) (one_move p' g' _ m'))
      (two_updates-Follows p p' g g' rs m m')

snoc-Follows :
    (rs : List TaskRun) (r : TaskRun) → is_queued r.status ≡ true → Follows rs (rs ++ r ∷ [])
snoc-Follows [] r e = fresh (r ∷ []) (e, tt)
snoc-Follows (x ∷ rs) r e = moved x x rs _ (unmoved x) (snoc-Follows rs r e)

select-Follows :
    (t : TaskRun → Bool) (rs : List TaskRun)
    → ((r : TaskRun) → t r ≡ false → is_active r.status ≡ false)
    → Follows rs (select t rs)
select-Follows t [] h = fresh [] tt
select-Follows t (r ∷ rs) h = choose (select-Follows t rs h)
  where
    choose : Follows rs (select t rs) → Follows (r ∷ rs) (select t (r ∷ rs))
    choose f = elim (Bool-cases (t r)) [
      | inl e ↦ rw e (moved r r rs _ (unmoved r) f)
      | inr e ↦ rw e (deleted r rs _ (h r e) f)
    ]

affect-Follows :
    (q : Runs) (p : TaskRun → Bool) (g : TaskRun → TaskRun)
    → Moving p g
    → Follows q.rows (affect q p g).1.rows
affect-Follows q p g m = elim (Bool-cases (any p q.rows)) [
  | inl e ↦ rw e (update-Follows p g q.rows m)
  | inr e ↦ rw e (unchanged q.rows)
]

insert_run-Follows :
    (q : Runs) (host by' : String) (now : ℕ) (ts : List Task)
    → Follows q.rows (insert_run q host by' now ts).1.rows
unfolding new_run
insert_run-Follows q host by' now [] = unchanged q.rows
insert_run-Follows q host by' now (t ∷ u ∷ ts) = unchanged q.rows
insert_run-Follows q host by' now (t ∷ []) = elim (Bool-cases (any (is_busy host) q.rows)) [
  | inl e ↦ rw e (unchanged q.rows)
  | inr e ↦ rw e (snoc-Follows q.rows (new_run q.next_id host t by' now) refl)
]

save-rows :
    (q : Runs) (host : String) (list : List Task) → (save_host_tasks q host list).rows ≡ q.rows
unfolding save_host_tasks
save-rows q host list = go (lookup host q.hosts) refl
  where
    go :
        (o : Option (List Task))
        → lookup host q.hosts ≡ o
        → (save_host_tasks q host list).rows ≡ q.rows
    go none e = rw (save_host_tasks, e) refl
    go (some old) e = rw (save_host_tasks, e) refl

-- Every call leaves a finished run as it is or deletes it, takes a running run only on to running or
-- to an end, keeps a run's host, task, command and time of request, only adds to what it has
-- printed, and creates queued runs only.
pub Step-Follows : {q r : Runs} → Step q r → Follows q.rows r.rows
unfolding request_task_run claim_task_run append_task_output finish_task_run sweep_task_runs
    purge_task_runs
Step-Follows {q} (offered host list) = rw (save-rows q host list) (unchanged q.rows)
Step-Follows {q} (requested host task by' now) = insert_run-Follows q host by' now _
Step-Follows {q} (claimed host now) =
    two_updates-Follows (was_lost host) (is_claimable host now) (as_lost now _) (as_running now)
      q.rows (λ r e. as_lost-Moves now _ r (ground arith))
      (λ r e. as_running-Moves now r (ground arith))
Step-Follows {q} (printed host id text truncated) =
    affect-Follows q (is_going host id) (with_output (clean_text text) truncated)
      λ r e. with_output-Moves _ truncated r (ground arith)
Step-Follows {q} (finished host id result now) =
    affect-Follows q (is_going host id) (ended now result)
      λ r e. ended-Moves now result r (ground arith)
Step-Follows {q} (swept now) =
    two_updates-Follows (not_picked_up now) (went_silent now) (as_expired now) (as_lost now _)
      q.rows (λ r e. as_expired-Moves now r (ground arith))
      (λ r e. as_lost-Moves now _ r (ground arith))
Step-Follows {q} (purged now keep) = select-Follows (is_kept now keep) q.rows λ r e. ground arith
