-- ===== src/Tasks/Runs/Pickup.antt =====
-- From a request to the agent's claim (RequestTaskRun and ClaimTaskRun of internal/store/tasks.go).
use sy_mon.Base.{
  ℕ, ◌+◌, ◌<◌, String, true, false, some, List, [], ◌∷◌, ◌++◌, string_eq, nat_eq, any, find, ◌≡◌,
  arith, inl, inr, Bool-cases, ok, ==_refl,
}
use sy_mon.Tasks.Offer.{Task}
use sy_mon.Tasks.Runs.{
  TaskRun, Runs, is_busy, update_where, new_run, request_task_run, insert_run, was_lost, as_lost,
  is_claimable, as_running, claim_task_run, task_pickup_window,
}

-- An update that no row of an idle host meets changes nothing, and neither does the new one.
idle-unlost :
    (host why : String) (now : ℕ) (rs : List TaskRun) (r : TaskRun)
    → any (is_busy host) rs ≡ false
    → was_lost host r ≡ false
    → update_where (was_lost host) (as_lost now why) (rs ++ r ∷ []) ≡ rs ++ r ∷ []
idle-unlost host why now [] r e f = ground arith
idle-unlost host why now (x ∷ rs) r e f = ground (arith, idle-unlost host why now rs r)

idle-find :
    (host : String) (now : ℕ) (rs : List TaskRun) (r : TaskRun)
    → any (is_busy host) rs ≡ false
    → is_claimable host now r ≡ true
    → find (is_claimable host now) (rs ++ r ∷ []) ≡ some r
idle-find host now [] r e f = ground arith
idle-find host now (x ∷ rs) r e f = ground (arith, idle-find host now rs r)

claimed_new :
    (q : Runs) (host by' : String) (now later : ℕ) (ts : List Task) {run : TaskRun}
    → (insert_run q host by' now ts).0 ≡ ok run
    → later < now + task_pickup_window
    → (claim_task_run (insert_run q host by' now ts).1 host later).0 ≡ some (as_running later run)
unfolding claim_task_run new_run
claimed_new q host by' now later [] e h = cc
claimed_new q host by' now later (t ∷ u ∷ ts) e h = cc
claimed_new q host by' now later (t ∷ []) {run} e h =
    elim (Bool-cases (any (is_busy host) q.rows)) [
      | inl b ↦ ground (arith, b, e)
      | inr b ↦
          rw
            (
              b,
              idle-unlost host "the agent stopped before the task finished" later q.rows
                  (new_run q.next_id host t by' now) b (ground arith),
              idle-find host later q.rows (new_run q.next_id host t by' now) b
                  (ground (arith, ==_refl host)),
            )
            (ground (arith, b, e))
    ]

-- A run that is asked for is handed to its host's agent, with its command, when the agent asks within
-- two minutes: the claim returns the run, as running since then.
pub claim-request :
    (q : Runs) (host task by' : String) (now later : ℕ) {run : TaskRun}
    → (request_task_run q host task by' now).0 ≡ ok run
    → later < now + task_pickup_window
    → (claim_task_run (request_task_run q host task by' now).1 host later).0
      ≡ some (as_running later run)
unfolding request_task_run
claim-request q host task by' now later e h = claimed_new q host by' now later _ e h
