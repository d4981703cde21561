-- ===== src/Tasks/Runs/Laws.antt =====
-- The invariant of the task_runs table (internal/store/tasks.go), and updates of its rows.
use sy_mon.Base.{
  ℕ, ◌≤◌, String, Bool, true, false, ◌&&◌, not, Option, none, some, List, [], ◌∷◌, string_eq,
  nat_eq, int_eq, All, any, ◌≡◌, refl, arith, inl, inr, Bool-cases, sym, subst, is_empty,
}
use sy_mon.Stored.{chars, max_task_error}
use sy_mon.Tasks.Runs.{
  TaskRun, Runs, TaskStatus, queued, running, succeeded, failed, timed_out, expired, lost,
  is_active, is_busy, update_where, task_output_limit,
}

abbrev pub is_set : Option ℕ → Bool
is_set none = false
is_set (some t) = true

-- Which times are set in a status, and whether anything was printed.
abbrev pub fits : TaskStatus → Option ℕ → Option ℕ → String → Bool
fits queued s f o = not (is_set s) && not (is_set f) && is_empty o
fits running s f o = is_set s && not (is_set f)
fits succeeded s f o = is_set s && is_set f
fits failed s f o = is_set s && is_set f
fits timed_out s f o = is_set s && is_set f
fits expired s f o = not (is_set s) && is_set f && is_empty o
fits lost s f o = is_set s && is_set f

pub record RunOk (r : TaskRun) : Type 0 where
  pub output_kept : chars r.output ≤ task_output_limit
  pub error_kept : chars r.error ≤ max_task_error
  pub times_fit : fits r.status r.started_at r.finished_at r.output ≡ true

abbrev pub OneActive : List TaskRun → Type 0
OneActive [] = Unit
OneActive (r ∷ rs) = (is_active r.status ≡ true → any (is_busy r.host) rs ≡ false) × OneActive rs

abbrev pub IsValid : Runs → Type 0
IsValid q = All RunOk q.rows × OneActive q.rows

-- An update of active runs, which keeps each as it should be.
pub record Update (p : TaskRun → Bool) (g : TaskRun → TaskRun) : Type 0 where
  pub of_active : (r : TaskRun) → p r ≡ true → is_active r.status ≡ true
  pub same_host : (r : TaskRun) → (g r).host ≡ r.host
  pub keeps : (r : TaskRun) → p r ≡ true → RunOk r → RunOk (g r)

update_where-RunOk :
    (p : TaskRun → Bool) (g : TaskRun → TaskRun) (rs : List TaskRun)
    → Update p g
    → All RunOk rs
    → All RunOk (update_where p g rs)
update_where-RunOk p g [] u a = tt
update_where-RunOk p g (r ∷ rs) u a = elim (Bool-cases (p r)) [
  | inl e ↦ rw e (u.keeps r e a.0, update_where-RunOk p g rs u a.1)
  | inr e ↦ rw e (a.0, update_where-RunOk p g rs u a.1)
]

still_idle :
    (p : TaskRun → Bool) (g : TaskRun → TaskRun) (h : String) (rs : List TaskRun)
    → Update p g
    → any (is_busy h) rs ≡ false
    → any (is_busy h) (update_where p g rs) ≡ false
still_idle p g h [] u e = refl
still_idle p g h (r ∷ rs) u e = ground (arith, u.of_active r, u.same_host r, still_idle p g h rs u)

update_where-OneActive :
    (p : TaskRun → Bool) (g : TaskRun → TaskRun) (rs : List TaskRun)
    → Update p g
    → OneActive rs
    → OneActive (update_where p g rs)
update_where-OneActive p g [] u a = tt
update_where-OneActive p g (r ∷ rs) u a = elim (Bool-cases (p r)) [
  | inl e ↦ rw e (
    (λ k.
        subst (λ h. any (is_busy h) (update_where p g rs) ≡ false) (sym (u.same_host r))
          (still_idle p g r.host rs u (a.0 (u.of_active r e)))),
    update_where-OneActive p g rs u a.1,
  )
  | inr e ↦ rw e ((λ k. still_idle p g r.host rs u (a.0 k)), update_where-OneActive p g rs u a.1)
]

pub update_where-IsValid :
    (p : TaskRun → Bool) (g : TaskRun → TaskRun) (q : Runs)
    → Update p g
    → IsValid q
    → IsValid (record q { rows = update_where p g q.rows })
update_where-IsValid p g q u v =
    (update_where-RunOk p g q.rows u v.0, update_where-OneActive p g q.rows u v.1)
