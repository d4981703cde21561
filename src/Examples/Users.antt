-- ===== src/Examples/Users.antt =====
-- A user, a session and guesses at a password that the theorems on accounts are applied to.
use Prim.Native.String.{◌++◌ as append}
use sy_mon.Base.{
  ℕ, Bool, true, false, insert, delete, not, nat_eq, ◌+◌, ◌≤◌, String, none, some, List, [], ◌∷◌,
  if◌then◌else◌, Result, ok, err, ◌≡◌, refl, arith, ◌==◌, string_eq, lookup, ◌++◌,
}
use sy_mon.Stored.{chars}
use sy_mon.Accounts.Users.{
  Hashes, Accounts, bad_login, add_user, set_password, login, session, change_password,
  check_password, valid_user_name, Session, session_ttl,
}
use sy_mon.Accounts.Users.Laws.{IsValid}
use sy_mon.Accounts.Users.Steps.{no_users, start, then', added, logged_in, Reachable-accounts}
use sy_mon.Accounts.Users.Ends.{LoggedOut, set_password-LoggedOut}
use sy_mon.Accounts.Users.Own.{OnlyThis, change_password_lem}
use sy_mon.Accounts.Users.LogsIn.{LogsIn, login-LogsIn, add_user-check_password}
use sy_mon.Accounts.Throttle.{login_limit, check_login, blocked, fail, clear}
use sy_mon.Accounts.Throttle.Guesses.{Login, OnlyWrong, tries, room, tries-bound}
use sy_mon.Accounts.Cache.{UserSession, Code, SessionInfo, session_of, cached_session, keep_session}
use sy_mon.Accounts.Cache.Trusted as Cached
use sy_mon.Accounts.Cache.Trusted.{Trusted, confirms, session_of-Trusted}

-- Texts in place of hashes.
abbrev plain_hashes : Hashes
plain_hashes = record {
  derive_key = λ password salt n. append salt password;
  sum256 = λ text. append "#" text;
}

abbrev with_ann : Accounts
with_ann = (add_user plain_hashes no_users "ann" "correct horse" "admin" "salt" 5).1

abbrev logged_ann : Accounts
logged_ann = (login plain_hashes with_ann "ann" "correct horse" "t1" 10).1

with_ann-IsValid : IsValid with_ann
with_ann-IsValid = Reachable-accounts (then' start (added "ann" "correct horse" "admin" "salt" 5))

Reachable-accounts_example : IsValid logged_ann
Reachable-accounts_example = Reachable-accounts {h = plain_hashes} (
    then' (then' start (added "ann" "correct horse" "admin" "salt" 5))
      (logged_in "ann" "correct horse" "t1" 10))

logged_ann-IsValid : IsValid logged_ann
logged_ann-IsValid = Reachable-accounts {h = plain_hashes} (
    then' (then' start (added "ann" "correct horse" "admin" "salt" 5))
      (logged_in "ann" "correct horse" "t1" 10))

abbrev anns : Session
anns = record { token = ""; user = "ann"; role = "admin"; expires = 10 + session_ttl }

anns-session : session plain_hashes logged_ann "t1" 20 ≡ ok anns
unfolding session login check_password add_user valid_user_name chars
anns-session = refl

anns_change :
    (change_password plain_hashes logged_ann "t1" "correct horse" "battery staple" "salt2" 20).0
    ≡ ok tt
unfolding change_password session login check_password add_user valid_user_name chars
anns_change = refl

change_password_lem_example :
    OnlyThis plain_hashes "t1" 20 anns
      (change_password plain_hashes logged_ann "t1" "correct horse" "battery staple" "salt2" 20).1
change_password_lem_example =
    change_password_lem plain_hashes logged_ann "t1" "correct horse" "battery staple" "salt2" 20
      anns logged_ann-IsValid anns-session anns_change

abbrev all_work : ℕ → Bool
all_work n = true

anns_reset :
    (set_password plain_hashes logged_ann "ann" "battery staple" "salt2" all_work).0 ≡ ok tt
unfolding set_password login check_password add_user valid_user_name chars
anns_reset = refl

set_password-LoggedOut_example :
    LoggedOut plain_hashes
      (set_password plain_hashes logged_ann "ann" "battery staple" "salt2" all_work).1
      "ann"
set_password-LoggedOut_example =
    set_password-LoggedOut plain_hashes logged_ann "ann" "battery staple" "salt2" all_work
      logged_ann-IsValid anns_reset

abbrev new_session : Session
new_session = record { token = "t1"; user = "ann"; role = "admin"; expires = 10 + session_ttl }

anns_login : (login plain_hashes with_ann "ann" "correct horse" "t1" 10).0 ≡ ok new_session
unfolding login check_password add_user valid_user_name chars
anns_login = refl

login-LogsIn_example : LogsIn plain_hashes "ann" "t1" 10 20 new_session logged_ann
login-LogsIn_example =
    login-LogsIn plain_hashes with_ann "ann" "correct horse" "t1" 10 20 new_session with_ann-IsValid
      anns_login

ann_added : (add_user plain_hashes no_users "ann" "correct horse" "admin" "salt" 5).0 ≡ ok tt
unfolding add_user valid_user_name chars
ann_added = refl

add_user-check_password_example : check_password plain_hashes with_ann "ann" "wrong horse" ≡ (
    if append "salt" "wrong horse" == append "salt" "correct horse"
    then ok (1, "admin")
    else err bad_login)
add_user-check_password_example =
    add_user-check_password plain_hashes no_users "ann" "correct horse" "admin" "salt" "wrong horse"
      5 ann_added

-- The DELETE fails.
abbrev no_delete : ℕ → Bool
no_delete n = not (n == 2)

-- Two wrong passwords for ann, and a right one for bob between them.
abbrev three_logins : List Login
three_logins =
    record { name = "ann"; is_right = false; asked = 100; answered = 110 }
    ∷ record { name = "bob"; is_right = true; asked = 120; answered = 130 }
    ∷ record { name = "ann"; is_right = false; asked = 140; answered = 150 }
    ∷ []

only_wrong : OnlyWrong "ann" three_logins
only_wrong = (
  (λ e. refl),
  ((λ e. absurd (ground (arith, e, string_eq.beq_iff "bob" "ann"))), ((λ e. refl), tt)),
)

tries-bound_example :
    (tries [] no_users "ann" three_logins ≤ room none + login_limit)
    × (room none ≤ login_limit)
    × (room none ≡ 0)
unfolding lookup
tries-bound_example =
    tries-bound [] no_users "ann" 100 three_logins tt
      (
        omega arith,
        omega arith,
        omega arith,
        (omega arith, omega arith, omega arith, (omega arith, omega arith, omega arith, tt)),
      )
      only_wrong

two_tried : tries [] no_users "ann" three_logins ≡ 2
unfolding check_login blocked fail clear lookup insert delete
two_tried = refl

abbrev ann_who : UserSession
ann_who = record { user = "ann"; role = "admin" }

abbrev says_ann : String → Result Code SessionInfo
says_ann token = ok (record { user = "ann"; role = "admin"; expires = 1000 })

abbrev mark : String → String
mark text = append "#" text

ann_cached :
    (session_of mark
      (session_of mark (record { sessions = []; passwords = [] }) (some "t1") 100 101 says_ann).1
      (some "t1")
      150
      151
      says_ann).0
    ≡ ok ann_who
unfolding session_of cached_session keep_session lookup
ann_cached = refl

session_of-Trusted_example :
    Trusted mark
      (confirms mark (record { sessions = []; passwords = [] }) (some "t1") 100 101 says_ann ++ [])
      "t1"
      150
      says_ann
      ann_who
session_of-Trusted_example =
    session_of-Trusted "t1" 150 151 says_ann ann_who
      (Cached.requested (some "t1") 100 101 says_ann Cached.start) ann_cached
