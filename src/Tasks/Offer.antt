-- ===== src/Tasks/Offer.antt =====
-- The tasks a host offers (`Task`, `validate`, `Validate` and `Find` of internal/tasks/tasks.go).
use sy_mon.Base.{
  ℕ, suc, String, Char, code, Bool, true, false, ◌&&◌, ◌||◌, not, Option, List, [], ◌∷◌,
  if◌then◌else◌, ◌==◌, nat_eq, int_eq, string_eq, ltb, leb, ℤ, pos, negsuc, ltb_ℤ, trim_space,
  is_empty, is_blank, len, contains, find, length, Result, ok, err, guard, ◌>>=◌, ◌>>◌,
}
use sy_mon.Stored.{chars}
pub mod Accepted

pub record Task : Type 0 where
  pub name : String
  pub description : String
  pub command : String
  pub timeout_seconds : ℤ

abbrev pub default_timeout_seconds : ℤ
default_timeout_seconds = pos 300

abbrev pub max_timeout_seconds : ℤ
max_timeout_seconds = pos 86400

abbrev pub max_tasks : ℕ
max_tasks = 50

pub data TaskError : Type 0 where
  no_name long_name control_in_name long_description control_in_description no_command long_command
        nul_in_command bad_timeout :
      TaskError

-- unicode.IsControl
abbrev pub is_control : Char → Bool
is_control c = ltb (code c) 0x20 || (leb 0x7f (code c) && leb (code c) 0x9f)

abbrev pub any_char : (Char → Bool) → String → Bool
any_char p String.[] = false
any_char p (String.◌∷◌ c s) = p c || any_char p s

abbrev pub is_nul : Char → Bool
is_nul c = code c == 0

abbrev pub trimmed : Task → Task
trimmed t = record t {
  name = trim_space t.name;
  description = trim_space t.description;
  timeout_seconds =
      if t.timeout_seconds == pos 0 then default_timeout_seconds else t.timeout_seconds;
}

-- The switch of `validate`.
unfoldable pub check_task : Task → Result TaskError (Unit {0})
unfolding chars
check_task t = do
  guard (not (is_empty t.name)) no_name
  guard (leb (chars t.name) 64) long_name
  guard (not (any_char is_control t.name)) control_in_name
  guard (leb (chars t.description) 200) long_description
  guard (not (any_char is_control t.description)) control_in_description
  guard (not (is_blank t.command)) no_command
  guard (leb (len t.command) 4096) long_command
  guard (not (any_char is_nul t.command)) nul_in_command
  guard (not (ltb_ℤ t.timeout_seconds (pos 0)) && not (ltb_ℤ max_timeout_seconds t.timeout_seconds))
      bad_timeout

-- The task with its blanks trimmed and the default timeout filled in.
unfoldable pub validate : Task → Result TaskError Task
unfolding check_task
validate t = do check_task (trimmed t); ok (trimmed t)

pub data ListError : Type 0 where
  too_many : ListError
  in_task : ℕ → TaskError → ListError
  same_name : ℕ → ListError

abbrev pub at_task : ℕ → Result TaskError Task → Result ListError Task
at_task i (ok t) = ok t
at_task i (err e) = err (in_task i e)

-- The loop of Validate; `i` counts from one, `names` are those seen.
unfoldable pub validate_from : ℕ → List String → List Task → Result ListError (List Task)
unfolding validate
validate_from i names [] = ok []
validate_from i names (t ∷ ts) = do
  t' ← at_task i (validate t)
  guard (not (contains names t'.name)) (same_name i)
  ts' ← validate_from (suc i) (t'.name ∷ names) ts
  ok (t' ∷ ts')

unfoldable pub validate_all : List Task → Result ListError (List Task)
unfolding validate_from
validate_all ts = do guard (not (ltb max_tasks (length ts))) too_many; validate_from 1 [] ts

unfoldable pub find_task : String → List Task → Option Task
find_task name ts = find (λ (t : Task). t.name == name) ts
