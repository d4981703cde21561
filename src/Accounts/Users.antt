-- ===== src/Accounts/Users.antt =====
-- The users and user_sessions tables (internal/store/users.go). Times are nanoseconds. Hashes, the
-- salts and tokens drawn at random, and the clock are arguments. That a context ends while a call
-- waits for a hash slot is not modelled, and neither are the failures of the database but those of
-- its constraints and of the transaction of SetPassword. Bytes are texts.
use sy_mon.Base.{
  ℕ, zero, suc, ◌+◌, ◌*◌, String, Char, code, Bool, true, false, ◌&&◌, ◌||◌, not, Option, none,
  some, List, [], ◌∷◌, ◌++◌, if◌then◌else◌, ◌==◌, nat_eq, string_eq, ltb, leb, any, select, find,
  length, map, change, Result, ok, err, guard, ◌>>=◌, ◌>>◌,
}
use sy_mon.Stored.{chars}
use sy_mon.Alerts.Data.{second}
pub mod Laws
pub mod Steps
pub mod Ends
pub mod LogsIn
pub mod Own
pub mod Fails

-- pbkdf2.Key with SHA-256, and sha256.Sum256.
pub record Hashes : Type 0 where
  pub derive_key : String → String → ℕ → String
  pub sum256 : String → String

pub data UserError : Type 0 where
  bad_name bad_role short_password bad_login bad_session user_exists not_found : UserError
  -- a UNIQUE constraint
  refused : UserError
  -- the database did not carry a statement out
  store_failed : UserError

pub record UserRow : Type 0 where
  pub id : ℕ
  pub name : String
  pub password_hash : String
  pub salt : String
  pub iterations : ℕ
  pub role : String
  pub created_at : ℕ
  pub last_login_at : Option ℕ

pub record SessionRow : Type 0 where
  pub token_hash : String
  pub user_id : ℕ
  pub expires_at : ℕ

pub record Accounts : Type 0 where
  pub users : List UserRow
  pub sessions : List SessionRow
  pub next_id : ℕ

abbrev pub password_iterations : ℕ
password_iterations = 600000

abbrev pub min_password_length : ℕ
min_password_length = 12

abbrev pub session_ttl : ℕ
session_ttl = 30 * 24 * 3600 * second

abbrev pub is_between : ℕ → ℕ → Char → Bool
is_between low high c = leb low (code c) && leb (code c) high

abbrev pub is_alphanumeric : Char → Bool
is_alphanumeric c = is_between 65 90 c || is_between 97 122 c || is_between 48 57 c

abbrev pub is_name_char : Char → Bool
is_name_char c = is_alphanumeric c || code c == 46 || code c == 95 || code c == 64 || code c == 45

-- At most n of `[A-Za-z0-9._@-]`.
abbrev pub rest_of_name : ℕ → String → Bool
rest_of_name n String.[] = true
rest_of_name zero (String.◌∷◌ c s) = false
rest_of_name (suc n) (String.◌∷◌ c s) = is_name_char c && rest_of_name n s

unfoldable pub valid_user_name : String → Bool
valid_user_name String.[] = false
valid_user_name (String.◌∷◌ c s) = is_alphanumeric c && rest_of_name 63 s

abbrev pub is_role : String → Bool
is_role role = role == "admin" || role == "viewer"

abbrev pub check_role : String → Result UserError (Unit {0})
check_role role = guard (is_role role) bad_role

abbrev pub check_new_password : String → Result UserError (Unit {0})
check_new_password password = guard (not (ltb (chars password) min_password_length)) short_password

-- The salt is drawn by the caller.
abbrev pub new_password_hash : Hashes → String → String → Result UserError String
new_password_hash h password salt = do
  check_new_password password
  ok (h.derive_key password salt password_iterations)

abbrev pub is_named : String → UserRow → Bool
is_named name u = u.name == name

abbrev pub has_id : ℕ → UserRow → Bool
has_id id u = u.id == id

abbrev pub new_user : ℕ → String → String → String → String → ℕ → UserRow
new_user id name hash salt role now = record {
  id = id;
  name = name;
  password_hash = hash;
  salt = salt;
  iterations = password_iterations;
  role = role;
  created_at = now;
  last_login_at = none;
}

-- INSERT … ON CONFLICT (name) DO NOTHING. The number of the row is drawn in any case.
abbrev pub insert_user :
    Accounts → String → String → String → String → ℕ → Result UserError (Unit {0}) × Accounts
insert_user a name hash salt role now =
    if any (is_named name) a.users
    then (err user_exists, record a { next_id = suc a.next_id })
    else (
      ok tt,
      record a {
        users = a.users ++ new_user a.next_id name hash salt role now ∷ [];
        next_id = suc a.next_id;
      },
    )

-- A statement, after checks that come before it.
abbrev pub run_if {ℓ κ} :
    {A : Type ℓ} {B : Type κ}
    → Accounts
    → Result UserError A
    → (A → Result UserError B × Accounts)
    → Result UserError B × Accounts
run_if a (err e) next = (err e, a)
run_if a (ok x) next = next x

abbrev pub check_user : Hashes → String → String → String → String → Result UserError String
check_user h name password salt role = do
  guard (valid_user_name name) bad_name
  check_role role
  new_password_hash h password salt

unfoldable pub add_user :
    Hashes
    → Accounts
    → String
    → String
    → String
    → String
    → ℕ
    → Result UserError (Unit {0}) × Accounts
unfolding valid_user_name chars
add_user h a name password role salt now =
    run_if a (check_user h name password salt role) (λ hash. insert_user a name hash salt role now)

abbrev pub with_password : String → String → UserRow → UserRow
with_password hash salt u = record u {
  password_hash = hash;
  salt = salt;
  iterations = password_iterations;
}

-- A transaction: the tables that a rollback leaves, and those that its statements changed.
pub record Transaction : Type 0 where
  pub before : Accounts
  pub working : Accounts

abbrev pub roll_back : UserError → Transaction → Result UserError (Unit {0}) × Accounts
roll_back e x = (err e, x.before)

abbrev pub commit : (ℕ → Bool) → Transaction → Result UserError (Unit {0}) × Accounts
commit works x = if works 3 then (ok tt, x.working) else roll_back store_failed x

-- DELETE FROM user_sessions
abbrev pub end_sessions : (ℕ → Bool) → ℕ → Transaction → Result UserError (Unit {0}) × Accounts
end_sessions works id x =
    let deleted : Accounts = record x.working {
      sessions = select (λ (s : SessionRow). not (s.user_id == id)) x.working.sessions;
    } in
    if works 2
    then commit works (record { before = x.before; working = deleted })
    else roll_back store_failed x

-- UPDATE users … RETURNING id, of the row with that name.
abbrev pub update_password :
    (ℕ → Bool)
    → Transaction
    → Option UserRow
    → String
    → String
    → String
    → Result UserError (Unit {0}) × Accounts
update_password works x none name hash salt = roll_back not_found x
update_password works x (some u) name hash salt = end_sessions works u.id (record {
  before = x.before;
  working = record x.working {
    users = change (is_named name) (with_password hash salt) x.working.users;
  };
})

-- The transaction of SetPassword. `works` says which of Begin, the two statements and Commit the
-- database carries out.
abbrev pub replace_password :
    (ℕ → Bool)
    → Accounts
    → Option UserRow
    → String
    → String
    → String
    → Result UserError (Unit {0}) × Accounts
replace_password works a o name hash salt =
    if not (works 0)
    then (err store_failed, a)
    else if not (works 1)
    then roll_back store_failed (record { before = a; working = a })
    else update_password works (record { before = a; working = a }) o name hash salt

unfoldable pub set_password :
    Hashes
    → Accounts
    → String
    → String
    → String
    → (ℕ → Bool)
    → Result UserError (Unit {0}) × Accounts
unfolding chars
set_password h a name password salt works =
    run_if a (new_password_hash h password salt)
      (λ hash. replace_password works a (find (is_named name) a.users) name hash salt)

abbrev pub put_role : Accounts → String → String → Result UserError (Unit {0}) × Accounts
put_role a name role =
    if any (is_named name) a.users
    then (
      ok tt,
      record a { users = change (is_named name) (λ u. record u { role = role }) a.users },
    )
    else (err not_found, a)

unfoldable pub set_role : Accounts → String → String → Result UserError (Unit {0}) × Accounts
set_role a name role = run_if a (check_role role) (λ t. put_role a name role)

-- The sessions of a deleted user go with it: ON DELETE CASCADE.
abbrev pub delete_user : Accounts → Option UserRow → String → Result UserError (Unit {0}) × Accounts
delete_user a none name = (err not_found, a)
delete_user a (some u) name = (
  ok tt,
  record a {
    users = select (λ v. not (is_named name v)) a.users;
    sessions = select (λ (s : SessionRow). not (s.user_id == u.id)) a.sessions;
  },
)

unfoldable pub remove_user : Accounts → String → Result UserError (Unit {0}) × Accounts
remove_user a name = delete_user a (find (is_named name) a.users) name

unfoldable pub has_users : Accounts → Bool
has_users a = any (λ u. true) a.users

abbrev pub is_password : Hashes → UserRow → String → Bool
is_password h u password = h.derive_key password u.salt u.iterations == u.password_hash

-- The id and the role.
abbrev pub check_row : Hashes → Option UserRow → String → Result UserError (ℕ × String)
check_row h none password = err bad_login
check_row h (some u) password =
    if is_password h u password then ok (u.id, u.role) else err bad_login

unfoldable pub check_password : Hashes → Accounts → String → String → Result UserError (ℕ × String)
check_password h a name password = check_row h (find (is_named name) a.users) password

pub record Session : Type 0 where
  pub token : String
  pub user : String
  pub role : String
  pub expires : ℕ

abbrev pub is_session : String → SessionRow → Bool
is_session hash s = s.token_hash == hash

-- The batch of Login. token_hash is the primary key.
abbrev pub start_session :
    Hashes → Accounts → String → String → ℕ → ℕ × String → Result UserError Session × Accounts
start_session h a name token now (id, role) =
    if any (is_session (h.sum256 token)) a.sessions then (err refused, a) else (
      ok (record { token = token; user = name; role = role; expires = now + session_ttl }),
      record a {
        users = change (has_id id) (λ u. record u { last_login_at = some now }) a.users;
        sessions =
            a.sessions
            ++ record { token_hash = h.sum256 token; user_id = id; expires_at = now + session_ttl }
              ∷ [];
      },
    )

unfoldable pub login :
    Hashes → Accounts → String → String → String → ℕ → Result UserError Session × Accounts
unfolding check_password
login h a name password token now =
    run_if a (check_password h a name password) (start_session h a name token now)

-- The join with the users.
abbrev pub with_owner : SessionRow → Option UserRow → Result UserError Session
with_owner s none = err bad_session
with_owner s (some u) =
    ok (record { token = ""; user = u.name; role = u.role; expires = s.expires_at })

abbrev pub session_row : Accounts → Option SessionRow → Result UserError Session
session_row a none = err bad_session
session_row a (some s) = with_owner s (find (has_id s.user_id) a.users)

abbrev pub is_live : String → ℕ → SessionRow → Bool
is_live hash now s = is_session hash s && ltb now s.expires_at

unfoldable pub session : Hashes → Accounts → String → ℕ → Result UserError Session
session h a token now = session_row a (find (is_live (h.sum256 token) now) a.sessions)

-- The batch of ChangePassword.
abbrev pub keep_one : Accounts → ℕ → String → String → String → Accounts
keep_one a id hash salt kept = record a {
  users = change (has_id id) (with_password hash salt) a.users;
  sessions =
      select (λ (s : SessionRow). not (s.user_id == id && not (s.token_hash == kept))) a.sessions;
}

abbrev pub change_user :
    Hashes → Accounts → String → String → String → Session → Result UserError (ℕ × String)
change_user h a current next salt s = do
  u ← check_password h a s.user current
  hash ← new_password_hash h next salt
  ok (u.0, hash)

abbrev pub change_checks :
    Hashes → Accounts → String → String → String → String → ℕ → Result UserError (ℕ × String)
change_checks h a token current next salt now =
    session h a token now >>= change_user h a current next salt

unfoldable pub change_password :
    Hashes
    → Accounts
    → String
    → String
    → String
    → String
    → ℕ
    → Result UserError (Unit {0}) × Accounts
unfolding session check_password chars
change_password h a token current next salt now =
    run_if a (change_checks h a token current next salt now)
      (λ found. (ok tt, keep_one a found.0 found.1 salt (h.sum256 token)))

unfoldable pub logout : Hashes → Accounts → String → Accounts
logout h a token = record a {
  sessions = select (λ (s : SessionRow). not (is_session (h.sum256 token) s)) a.sessions;
}

unfoldable pub purge_sessions : Accounts → ℕ → ℕ × Accounts
purge_sessions a now = (
  length (select (λ (s : SessionRow). ltb s.expires_at now) a.sessions),
  record a { sessions = select (λ (s : SessionRow). not (ltb s.expires_at now)) a.sessions },
)

pub record User : Type 0 where
  pub name : String
  pub role : String
  pub created_at : ℕ
  pub last_login : Option ℕ

abbrev pub as_user : UserRow → User
as_user u = record {
  name = u.name;
  role = u.role;
  created_at = u.created_at;
  last_login = u.last_login_at;
}

-- ORDER BY name, in the order of the database's collation.
abbrev pub by_name : (String → String → Bool) → UserRow → List UserRow → List UserRow
by_name before u [] = u ∷ []
by_name before u (v ∷ vs) = if before v.name u.name then v ∷ by_name before u vs else u ∷ v ∷ vs

abbrev pub sorted_by_name : (String → String → Bool) → List UserRow → List UserRow
sorted_by_name before [] = []
sorted_by_name before (u ∷ us) = by_name before u (sorted_by_name before us)

unfoldable pub list_users : (String → String → Bool) → Accounts → List User
list_users before a = map as_user (sorted_by_name before a.users)
