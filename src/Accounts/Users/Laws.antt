-- ===== src/Accounts/Users/Laws.antt =====
-- The invariant of the users and user_sessions tables (internal/store/users.go), and what the
-- statements do to it.
use sy_mon.Base.{
  ℕ, suc, ◌<◌, String, Bool, true, false, not, some, List, [], ◌∷◌, ◌++◌, ◌==◌, string_eq, nat_eq,
  All, any, select, find, change, Unique, ◌≡◌, refl, arith, ◌∙◌, All-select, selected, All-both,
  All-change, All-map, All-snoc, any-snoc, any-change, Unique-select, Unique-snoc, Unique-change,
  only_found,
}
use sy_mon.Accounts.Users.{
  UserRow, SessionRow, Accounts, valid_user_name, is_role, has_id, is_named, is_session, new_user,
}

pub record UserOk (next_id : ℕ) (u : UserRow) : Type 0 where
  pub id_drawn : u.id < next_id
  pub name_ok : valid_user_name u.name ≡ true
  pub role_ok : is_role u.role ≡ true

abbrev pub Owned : List UserRow → SessionRow → Type 0
Owned users s = any (has_id s.user_id) users ≡ true

abbrev pub user_id : UserRow → ℕ
user_id u = u.id

abbrev pub user_name : UserRow → String
user_name u = u.name

abbrev pub token_hash : SessionRow → String
token_hash s = s.token_hash

pub record IsValid (a : Accounts) : Type 0 where
  pub unique_ids : Unique user_id a.users
  pub unique_names : Unique user_name a.users
  pub unique_tokens : Unique token_hash a.sessions
  pub users_ok : All (UserOk a.next_id) a.users
  pub owned : All (Owned a.users) a.sessions

-- UPDATE users, of other columns than the key and the name.
pub record Update (p : UserRow → Bool) (g : UserRow → UserRow) : Type 0 where
  pub same_id : (u : UserRow) → (g u).id ≡ u.id
  pub same_name : (u : UserRow) → (g u).name ≡ u.name
  pub keeps_role : (u : UserRow) → is_role u.role ≡ true → is_role (g u).role ≡ true

pub changed-IsValid :
    (a : Accounts) (p : UserRow → Bool) (g : UserRow → UserRow)
    → Update p g
    → IsValid a
    → IsValid (record a { users = change p g a.users })
changed-IsValid a p g u v = record {
  unique_ids = Unique-change user_id p g a.users u.same_id v.unique_ids;
  unique_names = Unique-change user_name p g a.users u.same_name v.unique_names;
  unique_tokens = v.unique_tokens;
  users_ok =
      All-change (UserOk a.next_id) (UserOk a.next_id) p g a.users kept (λ x o e. o) v.users_ok;
  owned = All-map (Owned a.users) (Owned (change p g a.users)) a.sessions there v.owned;
}
  where
    kept : (x : UserRow) → UserOk a.next_id x → p x ≡ true → UserOk a.next_id (g x)
    kept x o e = record {
      id_drawn = rw (u.same_id x) o.id_drawn;
      name_ok = rw (u.same_name x) o.name_ok;
      role_ok = u.keeps_role x o.role_ok;
    }

    there : (s : SessionRow) → Owned a.users s → Owned (change p g a.users) s
    there s o = any-change p (has_id s.user_id) g a.users (λ x. rw (u.same_id x) refl) ∙ o

-- DELETE FROM user_sessions.
pub end-IsValid :
    (a : Accounts) (p : SessionRow → Bool)
    → IsValid a
    → IsValid (record a { sessions = select p a.sessions })
end-IsValid a p v = record {
  unique_ids = v.unique_ids;
  unique_names = v.unique_names;
  unique_tokens = Unique-select token_hash p a.sessions v.unique_tokens;
  users_ok = v.users_ok;
  owned = All-select (Owned a.users) p a.sessions v.owned;
}

pub drawn-IsValid : (a : Accounts) → IsValid a → IsValid (record a { next_id = suc a.next_id })
drawn-IsValid a v = record {
  unique_ids = v.unique_ids;
  unique_names = v.unique_names;
  unique_tokens = v.unique_tokens;
  users_ok =
      All-map (UserOk a.next_id) (UserOk (suc a.next_id)) a.users
        (λ u o. record {
          id_drawn = omega (arith, o.id_drawn);
          name_ok = o.name_ok;
          role_ok = o.role_ok;
        })
        v.users_ok;
  owned = v.owned;
}

fresh_id : (n : ℕ) (us : List UserRow) → All (UserOk n) us → any (λ u. user_id u == n) us ≡ false
fresh_id n [] a = refl
fresh_id n (u ∷ us) a = ground (arith, a.0.id_drawn, fresh_id n us a.1)

pub insert-IsValid :
    (a : Accounts) (name hash salt role : String) (now : ℕ)
    → any (is_named name) a.users ≡ false
    → valid_user_name name ≡ true
    → is_role role ≡ true
    → IsValid a
    → IsValid (record a {
      users = a.users ++ new_user a.next_id name hash salt role now ∷ [];
      next_id = suc a.next_id;
    })
insert-IsValid a name hash salt role now free ok' known v = record {
  unique_ids = Unique-snoc user_id a.users u (fresh_id a.next_id a.users v.users_ok) v.unique_ids;
  unique_names = Unique-snoc user_name a.users u free v.unique_names;
  unique_tokens = v.unique_tokens;
  users_ok =
      All-snoc (UserOk (suc a.next_id)) a.users u (drawn-IsValid a v).users_ok
        (record { id_drawn = omega arith; name_ok = ok'; role_ok = known });
  owned =
      All-map (Owned a.users) (Owned (a.users ++ u ∷ [])) a.sessions
        (λ s. any-snoc (has_id s.user_id) a.users u) v.owned;
}
  where
    u : UserRow
    u = new_user a.next_id name hash salt role now

-- The user whose id a session has stays, unless it is the deleted one.
stays :
    (i j : ℕ) (name : String) (us : List UserRow)
    → All (λ u. u.name ≡ name → u.id ≡ i) us
    → (j == i) ≡ false
    → any (has_id j) us ≡ true
    → any (has_id j) (select (λ u. not (is_named name u)) us) ≡ true
stays i j name [] a n e = cc
stays i j name (u ∷ us) a n e =
    ground (arith, a.0, stays i j name us a.1 n, string_eq.beq_iff u.name name)

pub delete-IsValid :
    (a : Accounts) (name : String) {u : UserRow}
    → find (is_named name) a.users ≡ some u
    → IsValid a
    → IsValid (record a {
      users = select (λ v. not (is_named name v)) a.users;
      sessions = select (λ (s : SessionRow). not (s.user_id == u.id)) a.sessions;
    })
delete-IsValid a name {u} e v = record {
  unique_ids = Unique-select user_id _ a.users v.unique_ids;
  unique_names = Unique-select user_name _ a.users v.unique_names;
  unique_tokens = Unique-select token_hash _ a.sessions v.unique_tokens;
  users_ok = All-select (UserOk a.next_id) _ a.users v.users_ok;
  owned =
      All-map (λ s. Owned a.users s × (not (s.user_id == u.id) ≡ true))
        (Owned (select (λ w. not (is_named name w)) a.users))
        (select (λ s. not (s.user_id == u.id)) a.sessions)
        (λ s o. stays u.id s.user_id name a.users only (ground arith) o.0)
        (All-both (Owned a.users) (λ s. not (s.user_id == u.id) ≡ true) _
          (All-select (Owned a.users) _ a.sessions v.owned)
          (selected (λ s. not (s.user_id == u.id)) a.sessions));
}
  where
    only : All (λ w. w.name ≡ name → w.id ≡ u.id) a.users
    only =
        All-map (λ w. w.name ≡ name → w ≡ u) (λ w. w.name ≡ name → w.id ≡ u.id) a.users
          (λ w h n. rw (h n) refl) (only_found user_name name a.users v.unique_names e)

pub start-IsValid :
    (a : Accounts) (s : SessionRow)
    → any (is_session s.token_hash) a.sessions ≡ false
    → Owned a.users s
    → IsValid a
    → IsValid (record a { sessions = a.sessions ++ s ∷ [] })
start-IsValid a s free o v = record {
  unique_ids = v.unique_ids;
  unique_names = v.unique_names;
  unique_tokens = Unique-snoc token_hash a.sessions s free v.unique_tokens;
  users_ok = v.users_ok;
  owned = All-snoc (Owned a.users) a.sessions s v.owned o;
}
