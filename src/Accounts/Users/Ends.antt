-- ===== src/Accounts/Users/Ends.antt =====
-- Which calls end the sessions of a user (internal/store/users.go).
use sy_mon.Base.{
  succeeds_with, succeeds_not, Bool-cases, inl, inr, Bool, false, ℕ, String, true, not, Option,
  none, some, string_eq, nat_eq, ◌==◌, find, All, ◌≡◌, ◌≢◌, refl, sym, ◌∙◌, arith, Result, ok, err,
  selected, found, only_found, All-map, All-change, All-select,
}
use sy_mon.Accounts.Users.{
  Hashes, UserError, UserRow, SessionRow, Accounts, has_id, is_named, with_password,
  replace_password, set_password, delete_user, remove_user, Session, session, with_owner, is_live,
  session_row, run_if, new_password_hash,
}
use sy_mon.Accounts.Users.Laws.{IsValid, user_name}
use sy_mon.Accounts.Users.Fails.{replaced-works}

-- The rows that a session was read from.
pub record Backed (a : Accounts) (hash : String) (now : ℕ) (s : Session) : Type 0 where
  pub row : SessionRow
  pub owner : UserRow
  pub row_found : find (is_live hash now) a.sessions ≡ some row
  pub owner_found : find (has_id row.user_id) a.users ≡ some owner
  pub read_off : with_owner row (some owner) ≡ ok s
  pub same_user : s.user ≡ owner.name

pub session-Backed :
    (h : Hashes) (a : Accounts) (token : String) (now : ℕ) {s : Session}
    → session h a token now ≡ ok s
    → Backed a (h.sum256 token) now s
unfolding session
session-Backed h a token now {s} e = go (find (is_live (h.sum256 token) now) a.sessions) refl e
  where
    join :
        (r : SessionRow) (o : Option UserRow)
        → find (is_live (h.sum256 token) now) a.sessions ≡ some r
        → find (has_id r.user_id) a.users ≡ o
        → with_owner r o ≡ ok s
        → Backed a (h.sum256 token) now s
    join r none f g k = cc
    join r (some u) f g k = record {
      row = r;
      owner = u;
      row_found = f;
      owner_found = g;
      read_off = k;
      same_user = ground arith;
    }

    go :
        (o : Option SessionRow)
        → find (is_live (h.sum256 token) now) a.sessions ≡ o
        → session_row a o ≡ ok s
        → Backed a (h.sum256 token) now s
    go none f k = cc
    go (some r) f k = join r (find (has_id r.user_id) a.users) f refl k

abbrev pub is_users : String → Session → Bool
is_users name s = s.user == name

-- No token is a session of the user, at any time.
abbrev pub LoggedOut : Hashes → Accounts → String → Type 0
LoggedOut h a name =
    (token : String) (now : ℕ) → succeeds_with (is_users name) (session h a token now) ≡ false

-- No session is of a user whose rows' number no session has.
foreign :
    (h : Hashes) (a : Accounts) (name : String) (id : ℕ)
    → All (λ (u : UserRow). u.name ≡ name → u.id ≡ id) a.users
    → All (λ (s : SessionRow). not (s.user_id == id) ≡ true) a.sessions
    → (token : String) (now : ℕ) (s : Session) → session h a token now ≡ ok s
    → s.user ≢ name
foreign h a name id only none' token now s e n =
    ground (
      arith,
      owner.0 (sym b.same_user ∙ n),
      owner.1,
      row.0,
      nat_eq.beq_iff b.owner.id b.row.user_id,
    )
  where
    b : Backed a (h.sum256 token) now s
    b = session-Backed h a token now e

    owner : (b.owner.name ≡ name → b.owner.id ≡ id) × (has_id b.row.user_id b.owner ≡ true)
    owner = found (λ (u : UserRow). u.name ≡ name → u.id ≡ id) _ a.users b.owner_found only

    row : (not (b.row.user_id == id) ≡ true) × (is_live (h.sum256 token) now b.row ≡ true)
    row = found (λ (r : SessionRow). not (r.user_id == id) ≡ true) _ a.sessions b.row_found none'

not_theirs : (user name : String) → user ≢ name → (user == name) ≡ false
not_theirs user name n = elim (Bool-cases (user == name)) [
  | inl e ↦ absurd (n ((string_eq.beq_iff user name).0 e))
  | inr e ↦ e
]

logged_out :
    (h : Hashes) (a : Accounts) (name : String) (id : ℕ)
    → All (λ (u : UserRow). u.name ≡ name → u.id ≡ id) a.users
    → All (λ (s : SessionRow). not (s.user_id == id) ≡ true) a.sessions
    → LoggedOut h a name
logged_out h a name id only none' token now =
    succeeds_not (is_users name) (session h a token now)
      (λ s e. not_theirs s.user name (foreign h a name id only none' token now s e))

pub only_id :
    (a : Accounts) (name : String) {u : UserRow}
    → IsValid a
    → find (is_named name) a.users ≡ some u
    → All (λ (w : UserRow). w.name ≡ name → w.id ≡ u.id) a.users
only_id a name {u} v e =
    All-map (λ w. w.name ≡ name → w ≡ u) (λ w. w.name ≡ name → w.id ≡ u.id) a.users
      (λ w h n. rw (h n) refl) (only_found user_name name a.users v.unique_names e)

replaced-LoggedOut :
    (h : Hashes) (works : ℕ → Bool) (a : Accounts) (name hash salt : String) (u : UserRow)
    → find (is_named name) a.users ≡ some u
    → IsValid a
    → (replace_password works a (some u) name hash salt).0 ≡ ok tt
    → LoggedOut h (replace_password works a (some u) name hash salt).1 name
replaced-LoggedOut h works a name hash salt u e v k =
    rw (done.0, done.1, done.2, done.3)
      (logged_out h _ name u.id
        (All-change (λ w. w.name ≡ name → w.id ≡ u.id) (λ w. w.name ≡ name → w.id ≡ u.id)
          (is_named name) (with_password hash salt) a.users (λ w m t. m) (λ w m t. m)
          (only_id a name v e))
        (selected (λ (s : SessionRow). not (s.user_id == u.id)) a.sessions))
  where
    done : (works 0 ≡ true) × (works 1 ≡ true) × (works 2 ≡ true) × (works 3 ≡ true)
    done = replaced-works works a (some u) name hash salt k

replace_password-LoggedOut :
    (h : Hashes) (works : ℕ → Bool) (a : Accounts) (name hash salt : String) (o : Option UserRow)
    → find (is_named name) a.users ≡ o
    → IsValid a
    → (replace_password works a o name hash salt).0 ≡ ok tt
    → LoggedOut h (replace_password works a o name hash salt).1 name
replace_password-LoggedOut h works a name hash salt none e v k = ground arith
replace_password-LoggedOut h works a name hash salt (some u) e v k =
    replaced-LoggedOut h works a name hash salt u e v k

-- What holds after the statement holds after a call that succeeds.
pub after_checks {ℓ κ μ} :
    {A : Type ℓ} {B : Type κ} (P : Accounts → Type μ) (a : Accounts) (checks : Result UserError A)
    (next : A → Result UserError B × Accounts) {b : B}
    → (run_if a checks next).0 ≡ ok b
    → ((x : A) → checks ≡ ok x → (next x).0 ≡ ok b → P (next x).1)
    → P (run_if a checks next).1
after_checks P a (err e) next h k = cc
after_checks P a (ok x) next h k = k x refl h

-- When SetPassword succeeds in valid tables, no token is a session of that user any more.
pub set_password-LoggedOut :
    (h : Hashes) (a : Accounts) (name password salt : String) (works : ℕ → Bool)
    → IsValid a
    → (set_password h a name password salt works).0 ≡ ok tt
    → LoggedOut h (set_password h a name password salt works).1 name
unfolding set_password
set_password-LoggedOut h a name password salt works v k =
    after_checks (λ b. LoggedOut h b name) a (new_password_hash h password salt) _ k
      (λ hash e.
        replace_password-LoggedOut h works a name hash salt (find (is_named name) a.users) refl v)

delete_user-LoggedOut :
    (h : Hashes) (a : Accounts) (name : String) (o : Option UserRow)
    → find (is_named name) a.users ≡ o
    → IsValid a
    → (delete_user a o name).0 ≡ ok tt
    → LoggedOut h (delete_user a o name).1 name
delete_user-LoggedOut h a name none e v k = cc
delete_user-LoggedOut h a name (some u) e v k =
    logged_out h (delete_user a (some u) name).1 name u.id
      (All-select (λ w. w.name ≡ name → w.id ≡ u.id) (λ w. not (is_named name w)) a.users
        (only_id a name v e))
      (selected (λ (s : SessionRow). not (s.user_id == u.id)) a.sessions)

-- When RemoveUser succeeds in valid tables, no token is a session of that user any more.
pub remove_user-LoggedOut :
    (h : Hashes) (a : Accounts) (name : String)
    → IsValid a
    → (remove_user a name).0 ≡ ok tt
    → LoggedOut h (remove_user a name).1 name
unfolding remove_user
remove_user-LoggedOut h a name v k =
    delete_user-LoggedOut h a name (find (is_named name) a.users) refl v k
