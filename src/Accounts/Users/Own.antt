-- ===== src/Accounts/Users/Own.antt =====
-- A user who changes their own password (`ChangePassword` of internal/store/users.go).
use sy_mon.Base.{
  false, err, succeeds_with, ℕ, String, true, ◌&&◌, not, some, string_eq, nat_eq, ◌==◌, find, All,
  ◌≡◌, refl, sym, ap, ◌∙◌, arith, inl, inr, Bool-cases, Result, ok, selected, found, All-map,
  All-change, find-select, find-change, ◌>>=◌, >>=-eq-ok, found_test, change_found, subst,
}
use sy_mon.Accounts.Users.{
  Hashes, UserError, UserRow, SessionRow, Accounts, has_id, is_named, is_live, with_owner,
  with_password, Session, session, new_password_hash, change_user, change_checks, keep_one,
  change_password, check_password,
}
use sy_mon.Accounts.Users.Laws.{IsValid}
use sy_mon.Accounts.Users.Steps.{check_row-ok}
use sy_mon.Accounts.Users.Ends.{is_users, Backed, session-Backed, only_id, after_checks}

-- The sessions of the user that are left are the one with the token, which is as it was.
pub record OnlyThis (h : Hashes) (token : String) (now : ℕ) (s : Session) (b : Accounts)
    : Type 0 where
  pub kept : session h b token now ≡ ok s
  pub others_end :
      (other : String) (then' : ℕ)
      → (succeeds_with (is_users s.user) (session h b other then')
          && not (h.sum256 other == h.sum256 token))
        ≡ false

stays_owner :
    (r : SessionRow) (u : UserRow) (id : ℕ) (hash salt : String)
    → with_owner r (change_found (has_id id) (with_password hash salt) (some u))
      ≡ with_owner r (some u)
stays_owner r u id hash salt = elim (Bool-cases (has_id id u)) [
  | inl e ↦ rw e refl
  | inr e ↦ rw e refl
]

keep_one-kept :
    (h : Hashes) (a : Accounts) (id : ℕ) (hash salt token : String) (now : ℕ) {s : Session}
    → session h a token now ≡ ok s
    → session h (keep_one a id hash salt (h.sum256 token)) token now ≡ ok s
unfolding session
keep_one-kept h a id hash salt token now {s} e =
    rw (row, owner) (stays_owner b.row b.owner id hash salt ∙ b.read_off)
  where
    b : Backed a (h.sum256 token) now s
    b = session-Backed h a token now e

    row :
        find (is_live (h.sum256 token) now) (keep_one a id hash salt (h.sum256 token)).sessions
        ≡ some b.row
    row =
        find-select (is_live (h.sum256 token) now) _ a.sessions b.row_found
          (ground (arith, found_test (is_live (h.sum256 token) now) a.sessions b.row_found))

    owner :
        find (has_id b.row.user_id) (keep_one a id hash salt (h.sum256 token)).users
        ≡ change_found (has_id id) (with_password hash salt) (some b.owner)
    owner =
        find-change (has_id id) (has_id b.row.user_id) (with_password hash salt) a.users (λ u. refl)
        ∙ ap (change_found (has_id id) (with_password hash salt)) b.owner_found

keep_one-others :
    (h : Hashes) (a : Accounts) (name : String) (id : ℕ) (hash salt kept : String)
    → All (λ (w : UserRow). w.name ≡ name → w.id ≡ id) a.users
    → (other : String) (now : ℕ) (s : Session)
    → session h (keep_one a id hash salt kept) other now ≡ ok s
    → s.user ≡ name
    → h.sum256 other ≡ kept
keep_one-others h a name id hash salt kept only other now s e n = ground (
  arith,
  owner.0 (sym b.same_user ∙ n),
  owner.1,
  row.0,
  row.1,
  nat_eq.beq_iff b.owner.id b.row.user_id,
  nat_eq.beq_iff b.row.user_id id,
  string_eq.beq_iff b.row.token_hash kept,
  string_eq.beq_iff b.row.token_hash (h.sum256 other),
)
  where
    b : Backed (keep_one a id hash salt kept) (h.sum256 other) now s
    b = session-Backed h (keep_one a id hash salt kept) other now e

    owner : (b.owner.name ≡ name → b.owner.id ≡ id) × (has_id b.row.user_id b.owner ≡ true)
    owner =
        found (λ (u : UserRow). u.name ≡ name → u.id ≡ id) _ (keep_one a id hash salt kept).users
          b.owner_found
          (All-change (λ w. w.name ≡ name → w.id ≡ id) (λ w. w.name ≡ name → w.id ≡ id) (has_id id)
            (with_password hash salt) a.users (λ w m t. m) (λ w m t. m) only)

    row :
        (not (b.row.user_id == id && not (b.row.token_hash == kept)) ≡ true)
        × (is_live (h.sum256 other) now b.row ≡ true)
    row =
        found (λ (r : SessionRow). not (r.user_id == id && not (r.token_hash == kept)) ≡ true) _ _
          b.row_found
          (selected (λ (r : SessionRow). not (r.user_id == id && not (r.token_hash == kept)))
            a.sessions)

change_user-id :
    (h : Hashes) (a : Accounts) (current next salt : String) (s : Session) {x : ℕ × String}
    → change_user h a current next salt s ≡ ok x
    → (u : UserRow) × (find (is_named s.user) a.users ≡ some u) × (u.id ≡ x.0)
unfolding check_password
change_user-id h a current next salt s {x} k =
    let first = >>=-eq-ok (check_password h a s.user current) _ k in
    let second = >>=-eq-ok (new_password_hash h next salt) _ first.2 in
    let row = check_row-ok h (find (is_named s.user) a.users) current first.1 in
    (row.0, row.1, row.2 ∙ same first.0.0 second.0 _ refl second.2)
  where
    same :
        (i : ℕ) (hash : String) (m : Result UserError (ℕ × String))
        → m ≡ ok (i, hash)
        → m ≡ ok x
        → i ≡ x.0
    same i hash m e r = ground arith

change_checks-id :
    (h : Hashes) (a : Accounts) (token current next salt : String) (now : ℕ) {s : Session}
    {x : ℕ × String}
    → session h a token now ≡ ok s
    → change_checks h a token current next salt now ≡ ok x
    → (u : UserRow) × (find (is_named s.user) a.users ≡ some u) × (u.id ≡ x.0)
change_checks-id h a token current next salt now {s} {x} e k =
    change_user-id h a current next salt s
      (subst (λ m. (m >>= change_user h a current next salt) ≡ ok x) e k)

ended :
    (name x y : String) (r : Result UserError Session)
    → ((s : Session) → r ≡ ok s → s.user ≡ name → x ≡ y)
    → (succeeds_with (is_users name) r && not (x == y)) ≡ false
ended name x y (err e) h = refl
ended name x y (ok s) h =
    ground (arith, h s refl, string_eq.beq_iff s.user name, string_eq.beq_iff x y)

-- When ChangePassword succeeds in valid tables, the session whose token it was given is as it was,
-- and no other token hash is a session of that user any more.
pub change_password_lem :
    (h : Hashes) (a : Accounts) (token current next salt : String) (now : ℕ) (s : Session)
    → IsValid a
    → session h a token now ≡ ok s
    → (change_password h a token current next salt now).0 ≡ ok tt
    → OnlyThis h token now s (change_password h a token current next salt now).1
unfolding change_password
change_password_lem h a token current next salt now s v e k =
    after_checks (OnlyThis h token now s) a (change_checks h a token current next salt now) _ k
      (λ x c d.
        let row = change_checks-id h a token current next salt now e c in
        record {
          kept = keep_one-kept h a x.0 x.1 salt token now e;
          others_end = λ other then'.
              ended s.user _ _ (session h (keep_one a x.0 x.1 salt (h.sum256 token)) other then') (
                keep_one-others h a s.user x.0 x.1 salt (h.sum256 token)
                  (All-map _ (λ w. w.name ≡ s.user → w.id ≡ x.0) a.users (λ w f n. f n ∙ row.2)
                    (only_id a s.user v row.1))
                  other then');
        })
