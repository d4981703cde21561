-- ===== src/Accounts/Cache.antt =====
-- The dashboard's memory of sessions and passwords that the collector accepted
-- (client/internal/server/auth.go). Go maps are association lists, keyed by a hash of the secret.
-- What the collector answers and the times that the clock gives are arguments.
use Prim.Native.String.{◌++◌ as append}
use sy_mon.Base.{
  ℕ, ◌+◌, ◌-◌, ◌*◌, String, Bool, true, false, ◌&&◌, ◌||◌, not, Option, none, some, List, [], ◌∷◌,
  if◌then◌else◌, ◌==◌, string_eq, ltb, leb, lookup, insert, delete, select, Result, ok, err,
  is_empty,
}
use sy_mon.Alerts.Data.{second}
pub mod Trusted

abbrev pub session_cache_ttl : ℕ
session_cache_ttl = 60 * second

abbrev pub password_cache_ttl : ℕ
password_cache_ttl = 300 * second

-- Who a session belongs to.
pub record UserSession : Type 0 where
  pub user : String
  pub role : String

pub record CachedSession : Type 0 where
  pub who : UserSession
  pub until : ℕ

pub record AuthCache : Type 0 where
  pub sessions : List (String × CachedSession)
  -- when the password was checked
  pub passwords : List (String × ℕ)

abbrev pub fresh_session : ℕ → Option CachedSession → Option UserSession
fresh_session now none = none
fresh_session now (some c) = if ltb c.until now then none else some c.who

unfoldable pub cached_session : AuthCache → String → ℕ → Option UserSession
unfolding lookup
cached_session c key now = fresh_session now (lookup key c.sessions)

abbrev pub until_of : ℕ → ℕ → ℕ
until_of now expires =
    if ltb expires (now + session_cache_ttl) then expires else now + session_cache_ttl

unfoldable pub keep_session : AuthCache → String → UserSession → ℕ → ℕ → AuthCache
unfolding insert
keep_session c key who expires now = record c {
  sessions = insert key (record { who = who; until = until_of now expires }) c.sessions;
}

unfoldable pub forget_session : AuthCache → String → AuthCache
unfolding delete
forget_session c key = record c { sessions = delete key c.sessions }

abbrev pub is_others : String → String → String × CachedSession → Bool
is_others user kept (key, cached) = cached.who.user == user && not (key == kept)

-- A user's cached sessions but one, after the collector ended the others.
unfoldable pub forget_user : AuthCache → String → String → AuthCache
forget_user c user kept = record c {
  sessions = select (λ e. not (is_others user kept e)) c.sessions;
}

abbrev pub fresh_password : ℕ → Option ℕ → Bool
fresh_password now none = false
fresh_password now (some checked) = ltb (now - checked) password_cache_ttl

unfoldable pub cached_password : AuthCache → String → ℕ → Bool
unfolding lookup
cached_password c key now = fresh_password now (lookup key c.passwords)

unfoldable pub keep_password : AuthCache → String → ℕ → AuthCache
unfolding insert
keep_password c key now = record c { passwords = insert key now c.passwords }

-- What the collector answers to a call: a status of gRPC when it fails.
pub data Code : Type 0 where
  unauthenticated resource_exhausted other_code : Code

pub record SessionInfo : Type 0 where
  pub user : String
  pub role : String
  -- seconds since the epoch
  pub expires : ℕ

pub data AuthError : Type 0 where
  not_logged_in : AuthError
  from_collector : Code → AuthError

abbrev pub asked_session :
    AuthCache → String → ℕ → Result Code SessionInfo → Result AuthError UserSession × AuthCache
asked_session c key later (err unauthenticated) = (err not_logged_in, c)
asked_session c key later (err other) = (err (from_collector other), c)
asked_session c key later (ok info) =
    let who : UserSession = record { user = info.user; role = info.role } in
    (ok who, keep_session c key who (info.expires * second) later)

abbrev pub ask :
    AuthCache
    → String
    → String
    → ℕ
    → (String → Result Code SessionInfo)
    → Option UserSession
    → Result AuthError UserSession × AuthCache
ask c token key later check (some who) = (ok who, c)
ask c token key later check none = asked_session c key later (check token)

-- The cookie of the request, when there is one; the cache is asked `now`, and what the collector says
-- is kept `later`.
unfoldable pub session_of :
    (String → String)
    → AuthCache
    → Option String
    → ℕ
    → ℕ
    → (String → Result Code SessionInfo)
    → Result AuthError UserSession × AuthCache
unfolding cached_session keep_session
session_of sum256 c none now later check = (err not_logged_in, c)
session_of sum256 c (some token) now later check =
    if is_empty token
    then (err not_logged_in, c)
    else ask c token (sum256 token) later check (cached_session c (sum256 token) now)

-- The answers of the handlers.
pub data Answer : Type 0 where
  done forbidden unauthorized : Answer
  failed : Code → Answer

-- requireLogin: whether the handler is called.
unfoldable pub require_login : Result AuthError UserSession → Option Answer
require_login (ok who) = none
require_login (err not_logged_in) = some unauthorized
require_login (err (from_collector code)) = some (failed code)

abbrev pub changed_password :
    (String → String)
    → AuthCache
    → String
    → UserSession
    → Result Code (Unit {0})
    → Answer × AuthCache
changed_password sum256 c token who (ok x) = (done, forget_user c who.user (sum256 token))
changed_password sum256 c token who (err unauthenticated) = (forbidden, c)
changed_password sum256 c token who (err other) = (failed other, c)

abbrev pub change_for :
    (String → String)
    → Option String
    → (String → Result Code (Unit {0}))
    → Result AuthError UserSession × AuthCache
    → Answer × AuthCache
change_for sum256 none change (r, c) = (unauthorized, c)
change_for sum256 (some token) change (err e, c) = (unauthorized, c)
change_for sum256 (some token) change (ok who, c) =
    changed_password sum256 c token who (change token)

-- postPassword, once the body is read; `change` is the collector's ChangePassword.
unfoldable pub post_password :
    (String → String)
    → AuthCache
    → Option String
    → ℕ
    → ℕ
    → (String → Result Code SessionInfo)
    → (String → Result Code (Unit {0}))
    → Answer × AuthCache
unfolding session_of forget_user
post_password sum256 c cookie now later check change =
    change_for sum256 cookie change (session_of sum256 c cookie now later check)

abbrev pub logged_out : Result Code (Unit {0}) → Answer
logged_out (ok x) = done
logged_out (err code) = failed code

-- postLogout, once the body is read.
unfoldable pub post_logout :
    (String → String)
    → AuthCache
    → Option String
    → (String → Result Code (Unit {0}))
    → Answer × AuthCache
unfolding forget_session
post_logout sum256 c none logout = (done, c)
post_logout sum256 c (some token) logout =
    if is_empty token
    then (done, c)
    else (logged_out (logout token), forget_session c (sum256 token))

abbrev pub password_key : (String → String) → String → String → String
password_key sum256 user password = sum256 (append user (append "\0" password))

abbrev pub asked_password :
    AuthCache → String → ℕ → Result Code (Unit {0}) → Result Code (Unit {0}) × AuthCache
asked_password c key later (err code) = (err code, c)
asked_password c key later (ok x) = (ok tt, keep_password c key later)

unfoldable pub check_password :
    (String → String)
    → AuthCache
    → String
    → String
    → ℕ
    → ℕ
    → (String → String → Result Code (Unit {0}))
    → Result Code (Unit {0}) × AuthCache
unfolding cached_password keep_password
check_password sum256 c user password now later check =
    if cached_password c (password_key sum256 user password) now
    then (ok tt, c)
    else asked_password c (password_key sum256 user password) later (check user password)

abbrev pub password_allowed : Result Code (Unit {0}) × AuthCache → Bool × AuthCache
password_allowed (ok x, c) = (true, c)
password_allowed (err code, c) = (false, c)

abbrev pub by_password :
    (String → String)
    → AuthCache
    → Option (String × String)
    → ℕ
    → ℕ
    → (String → String → Result Code (Unit {0}))
    → Bool × AuthCache
by_password sum256 c none now later check = (false, c)
by_password sum256 c (some (user, password)) now later check =
    password_allowed (check_password sum256 c user password now later check)

abbrev pub allowed_by :
    (String → String)
    → Option (String × String)
    → ℕ
    → ℕ
    → (String → String → Result Code (Unit {0}))
    → Result AuthError UserSession × AuthCache
    → Bool × AuthCache
allowed_by sum256 basic now later check (ok who, c) = (true, c)
allowed_by sum256 basic now later check (err e, c) = by_password sum256 c basic now later check

-- Whether /metrics answers: it needs no login, or a session, or a password as basic auth.
unfoldable pub metrics_allowed :
    (String → String)
    → Bool
    → AuthCache
    → Option String
    → Option (String × String)
    → ℕ
    → ℕ
    → (String → Result Code SessionInfo)
    → (String → String → Result Code (Unit {0}))
    → Bool × AuthCache
unfolding session_of check_password
metrics_allowed sum256 false c cookie basic now later session check = (true, c)
metrics_allowed sum256 true c cookie basic now later session check =
    allowed_by sum256 basic now later check (session_of sum256 c cookie now later session)
