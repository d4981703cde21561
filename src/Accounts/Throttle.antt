-- ===== src/Accounts/Throttle.antt =====
-- Wrong passwords, counted by user name (internal/api/login.go). A Go map is an association list;
-- times are nanoseconds, and a call reads the clock when it asks whether the name is locked out and
-- when it counts.
use sy_mon.Base.{
  ℕ, suc, ◌-◌, ◌*◌, String, Bool, true, false, ◌&&◌, not, Option, none, some, List, [], ◌∷◌,
  if◌then◌else◌, ◌==◌, string_eq, ltb, leb, length, select, lookup, insert, delete, Result, ok, err,
}
use sy_mon.Alerts.Data.{second}
use sy_mon.Accounts.Users.{
  Hashes, Accounts, UserError, bad_login, Session, login, check_password, session, change_password,
}
pub mod Windows
pub mod Guesses

abbrev pub login_limit : ℕ
login_limit = 10

abbrev pub login_window : ℕ
login_window = 900 * second

pub record FailureWindow : Type 0 where
  pub count : ℕ
  pub since : ℕ

abbrev pub Failures : Type 0
Failures = List (String × FailureWindow)

abbrev pub is_over : ℕ → FailureWindow → Bool
is_over now w = leb login_window (now - w.since)

abbrev pub blocks : ℕ → Option FailureWindow → Bool
blocks now none = false
blocks now (some w) = leb login_limit w.count && not (is_over now w)

unfoldable pub blocked : Failures → String → ℕ → Bool
unfolding lookup
blocked l name now = blocks now (lookup name l)

abbrev pub is_current : ℕ → String × FailureWindow → Bool
is_current now (name, w) = not (is_over now w)

-- Guesses at many names would otherwise grow the map without end.
abbrev pub pruned : Failures → ℕ → Failures
pruned l now = if ltb 1000 (length l) then select (is_current now) l else l

-- The window that a wrong password counts in.
abbrev pub counted : ℕ → Option FailureWindow → FailureWindow
counted now none = record { count = 1; since = now }
counted now (some w) =
    if is_over now w
    then record { count = 1; since = now }
    else record { count = suc w.count; since = w.since }

unfoldable pub fail : Failures → String → ℕ → Failures
unfolding lookup insert
fail l name now = insert name (counted now (lookup name (pruned l now))) (pruned l now)

unfoldable pub clear : Failures → String → Failures
unfolding delete
clear l name = delete name l

pub data LoginError : Type 0 where
  too_many_logins : LoginError
  store_error : UserError → LoginError

abbrev pub is_bad_login : UserError → Bool
is_bad_login bad_login = true
is_bad_login other = false

-- After the check: a wrong password is counted, a right one forgets the name's count.
abbrev pub after_check {ℓ} :
    {A : Type ℓ}
    → Failures
    → String
    → ℕ
    → Result UserError A × Accounts
    → Result LoginError A × Failures × Accounts
after_check l name now (ok x, a) = (ok x, clear l name, a)
after_check l name now (err e, a) =
    (err (store_error e), (if is_bad_login e then fail l name now else l), a)

unfoldable pub check_login {ℓ} :
    {A : Type ℓ}
    → Failures
    → Accounts
    → String
    → ℕ
    → ℕ
    → (Accounts → Result UserError A × Accounts)
    → Result LoginError A × Failures × Accounts
unfolding blocked fail clear
check_login l a name now then' check =
    if blocked l name now then (err too_many_logins, l, a) else after_check l name then' (check a)

-- Login: the store's login drew the token and read the clock at `at`.
unfoldable pub api_login :
    Hashes
    → Failures
    → Accounts
    → String
    → String
    → String
    → ℕ
    → ℕ
    → ℕ
    → Result LoginError Session × Failures × Accounts
unfolding check_login
api_login h l a user password token now at then' =
    check_login l a user now then' (λ b. login h b user password token at)

unfoldable pub api_check_password :
    Hashes
    → Failures
    → Accounts
    → String
    → String
    → ℕ
    → ℕ
    → Result LoginError (ℕ × String) × Failures × Accounts
unfolding check_login
api_check_password h l a user password now then' =
    check_login l a user now then' (λ b. (check_password h b user password, b))

abbrev pub change_of_session :
    Hashes
    → Failures
    → Accounts
    → Result UserError Session
    → String
    → String
    → String
    → String
    → ℕ
    → ℕ
    → ℕ
    → Result LoginError (Unit {0}) × Failures × Accounts
change_of_session h l a (err e) token current next salt now at then' = (err (store_error e), l, a)
change_of_session h l a (ok s) token current next salt now at then' =
    check_login l a s.user now then' (λ b. change_password h b token current next salt at)

-- A wrong current password counts like a failed login.
unfoldable pub api_change_password :
    Hashes
    → Failures
    → Accounts
    → String
    → String
    → String
    → String
    → ℕ
    → ℕ
    → ℕ
    → Result LoginError (Unit {0}) × Failures × Accounts
unfolding check_login
api_change_password h l a token current next salt now at then' =
    change_of_session h l a (session h a token now) token current next salt now at then'
