-- ===== src/Tasks/Offer/Accepted.antt =====
-- What Validate lets through (internal/tasks/tasks.go). The agent runs it on the tasks file and the
-- collector on the list that the agent sends.
use sy_mon.Base.{
  ℕ, suc, ◌≤◌, String, Bool, true, false, ◌&&◌, not, List, [], ◌∷◌, if◌then◌else◌, ◌==◌, int_eq,
  string_eq, ltb, leb→le, ℤ, pos, ltb_ℤ, trim_space, trim_space_idem, is_empty, is_blank, len,
  contains, length, Result, ok, err, ◌>>=◌, >>=-eq-ok, guard-eq-ok, guard_only, ◌≡◌, refl, arith,
  sym, ap, subst,
}
use sy_mon.Stored.{chars}
use sy_mon.Tasks.Offer.{
  Task, TaskError, trimmed, check_task, validate, at_task, validate_from, validate_all, any_char,
  is_control, is_nul, max_timeout_seconds, default_timeout_seconds, max_tasks, too_many, same_name,
}

pub record IsOffered (t : Task) : Type 0 where
  pub named : is_empty t.name ≡ false
  pub name_trimmed : trim_space t.name ≡ t.name
  pub name_fits : chars t.name ≤ 64
  pub name_one_line : any_char is_control t.name ≡ false
  pub description_trimmed : trim_space t.description ≡ t.description
  pub description_fits : chars t.description ≤ 200
  pub description_one_line : any_char is_control t.description ≡ false
  pub has_command : is_blank t.command ≡ false
  pub command_fits : len t.command ≤ 4096
  pub command_is_text : any_char is_nul t.command ≡ false
  pub timeout_from_one : ltb_ℤ (pos 0) t.timeout_seconds ≡ true
  pub timeout_to_a_day : ltb_ℤ max_timeout_seconds t.timeout_seconds ≡ false

not-true : (b : Bool) → not b ≡ true → b ≡ false
not-true b e = ground arith

timeouts :
    (n : ℤ)
    → (not (ltb_ℤ n (pos 0)) && not (ltb_ℤ max_timeout_seconds n)) ≡ true
    → (ltb_ℤ n (pos 0) ≡ false) × (ltb_ℤ max_timeout_seconds n ≡ false)
timeouts n e = ground arith

default_timeout : (n : ℤ) → ((if n == pos 0 then default_timeout_seconds else n) == pos 0) ≡ false
default_timeout n = ground arith

positive : (n : ℤ) → ltb_ℤ n (pos 0) ≡ false → (n == pos 0) ≡ false → ltb_ℤ (pos 0) n ≡ true
positive n e f = ground arith

trimmed_idem : (t : Task) → trimmed (trimmed t) ≡ trimmed t
trimmed_idem t =
    rw (trim_space_idem t.name, trim_space_idem t.description, default_timeout t.timeout_seconds)
      refl

check_task-IsOffered : (t : Task) → check_task (trimmed t) ≡ ok tt → IsOffered (trimmed t)
unfolding check_task
check_task-IsOffered t e =
    let g1 = guard-eq-ok _ _ _ e in
    let g2 = guard-eq-ok _ _ _ g1.1 in
    let g3 = guard-eq-ok _ _ _ g2.1 in
    let g4 = guard-eq-ok _ _ _ g3.1 in
    let g5 = guard-eq-ok _ _ _ g4.1 in
    let g6 = guard-eq-ok _ _ _ g5.1 in
    let g7 = guard-eq-ok _ _ _ g6.1 in
    let g8 = guard-eq-ok _ _ _ g7.1 in
    let g9 = guard_only _ _ g8.1 in
    let to = timeouts (trimmed t).timeout_seconds g9 in
    record {
      named = not-true _ g1.0;
      name_trimmed = trim_space_idem t.name;
      name_fits = leb→le _ _ g2.0;
      name_one_line = not-true _ g3.0;
      description_trimmed = trim_space_idem t.description;
      description_fits = leb→le _ _ g4.0;
      description_one_line = not-true _ g5.0;
      has_command = not-true _ g6.0;
      command_fits = leb→le _ _ g7.0;
      command_is_text = not-true _ g8.0;
      timeout_from_one = positive _ to.0 (default_timeout t.timeout_seconds);
      timeout_to_a_day = to.1;
    }

-- The tasks are as they should be, unchanged by Validate, and their names differ from one another
-- and from those in `names`.
abbrev pub Accepted : List String → List Task → Type 0
Accepted names [] = Unit
Accepted names (t ∷ ts) =
    IsOffered t
    × (validate t ≡ ok t)
    × (contains names t.name ≡ false)
    × Accepted (t.name ∷ names) ts

ok-injective : {E A : Type 0} {a b : A} → Path (Result E A) (ok a) (ok b) → a ≡ b
ok-injective e = cc

again : (t : Task) → check_task (trimmed t) ≡ ok tt → validate (trimmed t) ≡ ok (trimmed t)
unfolding validate
again t e =
    subst (λ u. (check_task u >>= λ (x : Unit). ok u) ≡ ok (trimmed t)) (sym (trimmed_idem t))
      (subst (λ r. (r >>= λ (x : Unit). ok (trimmed t)) ≡ ok (trimmed t)) (sym e) refl)

validate-Accepted :
    (t : Task) {t' : Task} → validate t ≡ ok t' → IsOffered t' × (validate t' ≡ ok t')
unfolding validate
validate-Accepted t e =
    let c = >>=-eq-ok (check_task (trimmed t)) (λ _. ok (trimmed t)) e in
    subst (λ u. IsOffered u × (validate u ≡ ok u)) (ok-injective c.2)
      (check_task-IsOffered t c.1, again t c.1)

at_task-ok : (i : ℕ) (r : Result TaskError Task) {t : Task} → at_task i r ≡ ok t → r ≡ ok t
at_task-ok i (ok u) e = cc
at_task-ok i (err x) e = cc

validate_from-Accepted :
    (i : ℕ) (names : List String) (ts : List Task) {ts' : List Task}
    → validate_from i names ts ≡ ok ts'
    → Accepted names ts' × (length ts' ≡ length ts)
unfolding validate_from
validate_from-Accepted i names [] e = rw (sym (ok-injective e)) (tt, refl)
validate_from-Accepted i names (t ∷ ts) {ts'} e =
    let v = >>=-eq-ok _ _ e in
    let g = guard-eq-ok (not (contains names v.0.name)) (same_name i) _ v.2 in
    let r = >>=-eq-ok _ _ g.1 in
    let rest = validate_from-Accepted (suc i) (v.0.name ∷ names) ts r.1 in
    let one = validate-Accepted t (at_task-ok i _ v.1) in
    subst (λ us. Accepted names us × (length us ≡ suc (length ts))) (ok-injective r.2)
      ((one.0, one.1, not-true _ g.0, rest.0), ap suc rest.1)

Accepted-unchanged :
    (i : ℕ) (names : List String) (ts : List Task)
    → Accepted names ts
    → validate_from i names ts ≡ ok ts
unfolding validate_from
Accepted-unchanged i names [] a = refl
Accepted-unchanged i names (t ∷ ts) a =
    ground (arith, a.1, a.2, Accepted-unchanged (suc i) (t.name ∷ names) ts a.3)

-- A list of tasks that Validate accepts has at most 50 entries, each with a one-line name, command
-- and timeout within the limits, no two of a name, and Validate accepts it again as it is: the
-- collector keeps the list that an agent sends just as the agent read it.
pub validate_all_lem :
    (ts : List Task) {ts' : List Task}
    → validate_all ts ≡ ok ts'
    → Accepted [] ts' × (length ts' ≤ max_tasks) × (validate_all ts' ≡ ok ts')
unfolding validate_all
validate_all_lem ts {ts'} e =
    let g = guard-eq-ok (not (ltb max_tasks (length ts))) too_many _ e in
    let a = validate_from-Accepted 1 [] ts g.1 in
    (a.0, ground (arith, a.1, g.0), ground (arith, a.1, g.0, Accepted-unchanged 1 [] ts' a.0))
