-- ===== src/Accounts/Users/LogsIn.antt =====
-- Logging in with a password, and what a session token is worth (internal/store/users.go).
use sy_mon.Base.{
  ℕ, ◌+◌, String, true, false, not, none, some, List, [], ◌∷◌, ◌++◌, string_eq, nat_eq, ◌==◌, ltb,
  any, find, change, ◌≡◌, refl, sym, ap, ◌∙◌, arith, inl, inr, Bool-cases, Result, ok, err,
  found_test, found_by_key, find-snoc, find-change, change_found, if◌then◌else◌, subst, guard-eq-ok,
}
use sy_mon.Accounts.Users.{
  Hashes, UserError, bad_session, bad_login, UserRow, SessionRow, Accounts, has_id, is_named,
  is_session, is_live, password_iterations, new_user, insert_user, check_user, add_user, Session,
  session, session_row, session_ttl, login, start_session, check_password, check_row,
  valid_user_name, is_role, min_password_length,
}
use sy_mon.Stored.{chars}
use sy_mon.Accounts.Users.Laws.{IsValid, user_id}
use sy_mon.Accounts.Users.Steps.{check_row-ok}
use sy_mon.Accounts.Users.Ends.{after_checks}

-- What the token of a session gives at a time.
abbrev pub told_of : Session → ℕ → Result UserError Session
told_of s t =
    if ltb t s.expires
    then ok (record { token = ""; user = s.user; role = s.role; expires = s.expires })
    else err bad_session

new_session :
    (hash : String) (id expires : ℕ) (ss : List SessionRow) (t : ℕ)
    → any (is_session hash) ss ≡ false
    → find
        (is_live hash t)
        (ss ++ record { token_hash = hash; user_id = id; expires_at = expires } ∷ [])
      ≡ (if ltb t expires
          then some (record { token_hash = hash; user_id = id; expires_at = expires })
          else none)
new_session hash id expires [] t e = ground (arith, string_eq.beq_iff hash hash)
new_session hash id expires (s ∷ ss) t e = ground (arith, new_session hash id expires ss t)

read_session :
    (a : Accounts) (hash : String) (id expires t : ℕ) (s : Session) {u : UserRow}
    → find (has_id id) a.users ≡ some u
    → u.name ≡ s.user
    → u.role ≡ s.role
    → expires ≡ s.expires
    → session_row a (
        if ltb t expires
        then some (record { token_hash = hash; user_id = id; expires_at = expires })
        else none)
      ≡ told_of s t
read_session a hash id expires t s {u} f n r x = elim (Bool-cases (ltb t expires)) [
  | inl e ↦ ground arith
  | inr e ↦ ground arith
]

-- A login, noted in the row of the user.
abbrev pub noted : ℕ → UserRow → UserRow
noted now u = record u { last_login_at = some now }

still_found :
    (id now : ℕ) (us : List UserRow) {u : UserRow}
    → find (has_id id) us ≡ some u
    → find (has_id id) (change (has_id id) (noted now) us) ≡ some (noted now u)
still_found id now us {u} f =
    find-change (has_id id) (has_id id) (noted now) us (λ w. refl)
    ∙ ap (change_found (has_id id) (noted now)) f
    ∙ rw (found_test (has_id id) us f) refl

-- A session of that name and time, which its token gives until it expires.
pub record LogsIn (h : Hashes) (name token : String) (now t : ℕ) (s : Session) (b : Accounts)
    : Type 0 where
  pub own_name : s.user ≡ name
  pub own_expiry : s.expires ≡ now + session_ttl
  pub given : session h b token t ≡ told_of s t

start_session_lem :
    (h : Hashes) (a : Accounts) (name token : String) (now t id : ℕ) (role : String) (u : UserRow)
    (s : Session)
    → find (has_id id) a.users ≡ some u
    → u.name ≡ name
    → u.role ≡ role
    → (start_session h a name token now (id, role)).0 ≡ ok s
    → LogsIn h name token now t s (start_session h a name token now (id, role)).1
unfolding session
start_session_lem h a name token now t id role u s f n r e =
    elim (Bool-cases (any (is_session (h.sum256 token)) a.sessions)) [
      | inl b ↦ absurd (refused_login b)
      | inr b ↦ record {
        own_name = ap (λ z. z.user) (sym (made b));
        own_expiry = ap (λ z. z.expires) (sym (made b));
        given =
            rw (b, new_session (h.sum256 token) id (now + session_ttl) a.sessions t b)
              (read_session (record a { users = change (has_id id) (noted now) a.users })
                (h.sum256 token) id (now + session_ttl) t s (still_found id now a.users f)
                (n ∙ ap (λ z. z.user) (made b)) (r ∙ ap (λ z. z.role) (made b))
                (ap (λ z. z.expires) (made b)));
      }
    ]
  where
    made :
        any (is_session (h.sum256 token)) a.sessions ≡ false
        → record { token = token; user = name; role = role; expires = now + session_ttl } ≡ s
    made b = ground arith

    refused_login : any (is_session (h.sum256 token)) a.sessions ≡ true → ⊥
    refused_login b = ground arith

-- A login to valid tables that succeeds gives a session with the user's name that expires thirty
-- days later, and then its token gives the user's name and role at any time before that, and is
-- refused from then on.
pub login-LogsIn :
    (h : Hashes) (a : Accounts) (name password token : String) (now t : ℕ) (s : Session)
    → IsValid a
    → (login h a name password token now).0 ≡ ok s
    → LogsIn h name token now t s (login h a name password token now).1
unfolding login check_password
login-LogsIn h a name password token now t s v k =
    after_checks (LogsIn h name token now t s) a (check_password h a name password) _ k (λ x c d.
      let row = check_row-ok h (find (is_named name) a.users) password c in
      start_session_lem h a name token now t x.0 x.1 row.0 s (by_id x.0 row.0 row.1 row.2)
        ((string_eq.beq_iff row.0.name name).0 (found_test (is_named name) a.users row.1)) row.3 d)
  where
    by_id :
        (id : ℕ) (u : UserRow)
        → find (is_named name) a.users ≡ some u
        → u.id ≡ id
        → find (has_id id) a.users ≡ some u
    by_id id u f e =
        subst (λ i. find (has_id i) a.users ≡ some u) e
          (found_by_key user_id (is_named name) a.users v.unique_ids f)

check_user-hash :
    (h : Hashes) (name password salt role : String) {hash : String}
    → check_user h name password salt role ≡ ok hash
    → hash ≡ h.derive_key password salt password_iterations
check_user-hash h name password salt role {hash} e =
    let named = guard-eq-ok (valid_user_name name) _ _ e in
    let known = guard-eq-ok (is_role role) _ _ named.1 in
    let long = guard-eq-ok (not (ltb (chars password) min_password_length)) _ _ known.1 in
    last _ _ refl long.1
  where
    last : (made : String) (m : Result UserError String) → m ≡ ok made → m ≡ ok hash → hash ≡ made
    last made m e h = ground arith

insert_user-check :
    (h : Hashes) (a : Accounts) (name hash salt role q : String) (now : ℕ)
    → (insert_user a name hash salt role now).0 ≡ ok tt
    → check_row h (find (is_named name) (insert_user a name hash salt role now).1.users) q ≡ (
        if h.derive_key q salt password_iterations == hash
        then ok (a.next_id, role)
        else err bad_login)
insert_user-check h a name hash salt role q now k =
    elim (Bool-cases (any (is_named name) a.users)) [
      | inl e ↦ absurd (taken e)
      | inr e ↦
          rw
            (
              e,
              find-snoc (is_named name) a.users (new_user a.next_id name hash salt role now) e
                  ((string_eq.beq_iff name name).1 refl),
            )
            refl
    ]
  where
    taken : any (is_named name) a.users ≡ true → ⊥
    taken e = ground arith

-- Who is added can log in with that password, and with another only when it has the same hash:
-- CheckPassword then gives the new id and the role, and says "wrong user name or password" else.
pub add_user-check_password :
    (h : Hashes) (a : Accounts) (name password role salt q : String) (now : ℕ)
    → (add_user h a name password role salt now).0 ≡ ok tt
    → check_password h (add_user h a name password role salt now).1 name q ≡ (
        if h.derive_key q salt password_iterations == h.derive_key password salt password_iterations
        then ok (a.next_id, role)
        else err bad_login)
unfolding add_user check_password
add_user-check_password h a name password role salt q now k =
    after_checks (λ b. check_row h (find (is_named name) b.users) q ≡ expected) a
      (check_user h name password salt role) _ k
      (λ hash c d.
        subst
          (λ z.
            check_row h (find (is_named name) (insert_user a name hash salt role now).1.users) q ≡ (
              if h.derive_key q salt password_iterations == z
              then ok (a.next_id, role)
              else err bad_login))
          (check_user-hash h name password salt role c)
          (insert_user-check h a name hash salt role q now d))
  where
    expected : Result UserError (ℕ × String)
    expected =
        if h.derive_key q salt password_iterations == h.derive_key password salt password_iterations
        then ok (a.next_id, role)
        else err bad_login
