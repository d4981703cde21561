-- ===== src/Accounts/Users/Steps.antt =====
-- What the collector and its users command can do to users and sessions, one call at a time
-- (internal/store/users.go), and the tables that this leads to.
use sy_mon.Base.{
  ℕ, String, Bool, true, Option, none, some, [], string_eq, nat_eq, any, find, ◌≡◌, refl, sym,
  arith, inl, inr, Bool-cases, Result, ok, err, guard, guard-eq-ok, found-any, change, select, not,
  ◌==◌,
}
use sy_mon.Accounts.Users.{
  Hashes, UserError, UserRow, SessionRow, Accounts, valid_user_name, is_role, has_id, is_named,
  is_session, insert_user, check_user, run_if, add_user, with_password, replace_password,
  set_password, set_role, delete_user, remove_user, check_row, check_password, start_session, login,
  change_checks, change_password, logout, purge_sessions, new_password_hash,
}
use sy_mon.Accounts.Users.Laws.{
  IsValid, Update, user_id, changed-IsValid, end-IsValid, drawn-IsValid, insert-IsValid,
  delete-IsValid, start-IsValid,
}

pub data Step (h : Hashes) (a : Accounts) : Accounts → Type 0 where
  added :
      (name password role salt : String) (now : ℕ)
      → Step h a (add_user h a name password role salt now).1
  reset :
      (name password salt : String) (works : ℕ → Bool)
      → Step h a (set_password h a name password salt works).1
  moved : (name role : String) → Step h a (set_role a name role).1
  removed : (name : String) → Step h a (remove_user a name).1
  logged_in :
      (name password token : String) (now : ℕ) → Step h a (login h a name password token now).1
  changed :
      (token current next salt : String) (now : ℕ)
      → Step h a (change_password h a token current next salt now).1
  logged_out : (token : String) → Step h a (logout h a token)
  purged : (now : ℕ) → Step h a (purge_sessions a now).1

abbrev pub no_users : Accounts
no_users = record { users = []; sessions = []; next_id = 1 }

-- The tables that the calls lead to, from empty ones.
pub data Reachable (h : Hashes) : Accounts → Type 0 where
  start : Reachable h no_users
  then' : {a b : Accounts} → Reachable h a → Step h a b → Reachable h b

-- A statement after checks keeps the tables valid, when it does once they passed.
run_if-IsValid {ℓ κ} :
    {A : Type ℓ} {B : Type κ} (a : Accounts) (checks : Result UserError A)
    (next : A → Result UserError B × Accounts)
    → IsValid a
    → ((x : A) → checks ≡ ok x → IsValid (next x).1)
    → IsValid (run_if a checks next).1
run_if-IsValid a (err e) next v k = v
run_if-IsValid a (ok x) next v k = k x refl

pub with_password-Update :
    (p : UserRow → Bool) (hash salt : String) → Update p (with_password hash salt)
with_password-Update p hash salt = record {
  same_id = λ u. refl;
  same_name = λ u. refl;
  keeps_role = λ u r. r;
}

insert_user-IsValid :
    (a : Accounts) (name hash salt role : String) (now : ℕ)
    → valid_user_name name ≡ true
    → is_role role ≡ true
    → IsValid a
    → IsValid (insert_user a name hash salt role now).1
insert_user-IsValid a name hash salt role now n r v =
    elim (Bool-cases (any (is_named name) a.users)) [
      | inl e ↦ rw e (drawn-IsValid a v)
      | inr e ↦ rw e (insert-IsValid a name hash salt role now e n r v)
    ]

replace_password-IsValid :
    (works : ℕ → Bool) (a : Accounts) (name hash salt : String)
    → IsValid a
    → (o : Option UserRow) → IsValid (replace_password works a o name hash salt).1
replace_password-IsValid works a name hash salt v none = ground (arith, v)
replace_password-IsValid works a name hash salt v (some u) = elim (Bool-cases (works 0)) [
  | inr b ↦ rw b v
  | inl b ↦ elim (Bool-cases (works 1)) [
    | inr c ↦ rw (b, c) v
    | inl c ↦ elim (Bool-cases (works 2)) [
      | inr d ↦ rw (b, c, d) v
      | inl d ↦ elim (Bool-cases (works 3)) [
        | inr e ↦ rw (b, c, d, e) v
        | inl e ↦ rw (b, c, d, e) done
      ]
    ]
  ]
]
  where
    done : IsValid (record a {
      users = change (is_named name) (with_password hash salt) a.users;
      sessions = select (λ (s : SessionRow). not (s.user_id == u.id)) a.sessions;
    })
    done = end-IsValid _ _ (
        changed-IsValid a (is_named name) (with_password hash salt)
          (with_password-Update _ hash salt) v)

set_role-IsValid :
    (a : Accounts) (name role : String)
    → is_role role ≡ true
    → IsValid a
    → IsValid (record a { users = change (is_named name) (λ u. record u { role = role }) a.users })
set_role-IsValid a name role r v =
    changed-IsValid a (is_named name) (λ u. record u { role = role })
      (record { same_id = λ u. refl; same_name = λ u. refl; keeps_role = λ u k. r }) v

delete_user-IsValid :
    (a : Accounts) (o : Option UserRow) (name : String)
    → find (is_named name) a.users ≡ o
    → IsValid a
    → IsValid (delete_user a o name).1
delete_user-IsValid a none name e v = v
delete_user-IsValid a (some u) name e v = delete-IsValid a name e v

pub check_row-ok :
    (h : Hashes) (o : Option UserRow) (password : String) {x : ℕ × String}
    → check_row h o password ≡ ok x
    → (u : UserRow) × (o ≡ some u)
      × (u.id ≡ x.0)
      × (u.role ≡ x.1)
      × (h.derive_key password u.salt u.iterations ≡ u.password_hash)
unfolding check_password
check_row-ok h none password e = cc
check_row-ok h (some u) password {x} e = (
  u,
  refl,
  ground arith,
  ground arith,
  ground (arith, string_eq.beq_iff (h.derive_key password u.salt u.iterations) u.password_hash),
)

start_session-IsValid :
    (h : Hashes) (a : Accounts) (name token : String) (now : ℕ) (x : ℕ × String)
    → any (has_id x.0) a.users ≡ true
    → IsValid a
    → IsValid (start_session h a name token now x).1
start_session-IsValid h a name token now (id, role) o v =
    elim (Bool-cases (any (is_session (h.sum256 token)) a.sessions)) [
      | inl e ↦ rw e v
      | inr e ↦ rw e (
          changed-IsValid _ (has_id id) (λ u. record u { last_login_at = some now })
            (record { same_id = λ u. refl; same_name = λ u. refl; keeps_role = λ u r. r })
            (start-IsValid a _ e o v))
    ]

check_user-ok :
    (h : Hashes) (name password salt role : String) {hash : String}
    → check_user h name password salt role ≡ ok hash
    → (valid_user_name name ≡ true) × (is_role role ≡ true)
check_user-ok h name password salt role e =
    let named = guard-eq-ok (valid_user_name name) _ _ e in
    (named.0, (guard-eq-ok (is_role role) _ _ named.1).0)

-- Every call keeps the tables valid.
Step-IsValid : {h : Hashes} {a b : Accounts} → IsValid a → Step h a b → IsValid b
unfolding add_user set_password set_role remove_user login check_password change_password logout
    purge_sessions
Step-IsValid {h} {a} v (added name password role salt now) =
    run_if-IsValid a (check_user h name password salt role) _ v (λ hash e.
      let c = check_user-ok h name password salt role e in
      insert_user-IsValid a name hash salt role now c.0 c.1 v)
Step-IsValid {h} {a} v (reset name password salt works) =
    run_if-IsValid a (new_password_hash h password salt) _ v
      (λ hash e. replace_password-IsValid works a name hash salt v _)
Step-IsValid {h} {a} v (moved name role) = run_if-IsValid a (guard (is_role role) _) _ v (λ t e.
    elim (Bool-cases (any (is_named name) a.users)) [
      | inl n ↦ rw n (set_role-IsValid a name role (ground arith) v)
      | inr n ↦ rw n v
    ])
Step-IsValid {h} {a} v (removed name) = delete_user-IsValid a _ name refl v
Step-IsValid {h} {a} v (logged_in name password token now) =
    run_if-IsValid a (check_password h a name password) _ v (λ x e.
      let c = check_row-ok h (find (is_named name) a.users) password e in
      start_session-IsValid h a name token now x
        (rw (sym c.2) (found-any user_id (is_named name) a.users c.1)) v)
Step-IsValid {h} {a} v (changed token current next salt now) =
    run_if-IsValid a (change_checks h a token current next salt now) _ v (λ x e.
      end-IsValid _ _ (
        changed-IsValid a (has_id x.0) (with_password x.1 salt) (with_password-Update _ x.1 salt)
          v))
Step-IsValid {h} {a} v (logged_out token) = end-IsValid a _ v
Step-IsValid {h} {a} v (purged now) = end-IsValid a _ v

-- However the calls are interleaved, user names, user ids and the hashes of session tokens are
-- unique, every user has a name that the pattern admits and the admin or viewer role, and every
-- session belongs to a user of the table.
pub Reachable-accounts : {h : Hashes} {a : Accounts} → Reachable h a → IsValid a
Reachable-accounts start = record {
  unique_ids = tt;
  unique_names = tt;
  unique_tokens = tt;
  users_ok = tt;
  owned = tt;
}
Reachable-accounts (then' r s) = Step-IsValid (Reachable-accounts r) s
