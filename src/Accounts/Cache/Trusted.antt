-- ===== src/Accounts/Cache/Trusted.antt =====
-- How long the dashboard trusts a session without asking the collector
-- (client/internal/server/auth.go).
use sy_mon.Base.{
  ℕ, ◌+◌, ◌*◌, String, Bool, true, false, ◌&&◌, Option, none, some, List, [], ◌∷◌, ◌++◌,
  if◌then◌else◌, ◌==◌, string_eq, leb, ltb, any, All, lookup, ◌≡◌, ◌⊎◌, refl, subst, sym, arith,
  inl, inr, Bool-cases, Result, ok, err, is_empty, All-insert, All-delete, All-lookup, All-select,
  All-map,
}
use sy_mon.Alerts.Data.{second}
use sy_mon.Accounts.Cache.{
  UserSession, CachedSession, AuthCache, session_cache_ttl, fresh_session, cached_session,
  keep_session, forget_session, forget_user, Code, unauthenticated, resource_exhausted, other_code,
  SessionInfo, AuthError, not_logged_in, asked_session, ask, session_of, changed_password,
  change_for, post_password, post_logout, keep_password, check_password, asked_password,
  password_key, cached_password,
}

-- That the collector said whose a session is.
pub record Confirmed : Type 0 where
  pub key : String
  pub who : UserSession
  pub at : ℕ
  pub expires : ℕ

abbrev pub is_for : String → UserSession → Confirmed → Bool
is_for key who f = f.key == key && f.who.user == who.user && f.who.role == who.role

-- The session was confirmed a minute before the time or later, and expires no earlier than the time.
abbrev pub vouches : String → UserSession → ℕ → Confirmed → Bool
vouches key who time f =
    is_for key who f && leb time (f.at + session_cache_ttl) && leb time f.expires

abbrev pub answer_kept : String → ℕ → Result Code SessionInfo → List Confirmed
answer_kept key later (err code) = []
answer_kept key later (ok info) =
    record {
      key = key;
      who = record { user = info.user; role = info.role };
      at = later;
      expires = info.expires * second;
    }
    ∷ []

abbrev pub unless_cached : Option UserSession → List Confirmed → List Confirmed
unless_cached none fs = fs
unless_cached (some who) fs = []

-- What the collector confirms during a call of sessionOf.
abbrev pub confirms :
    (String → String)
    → AuthCache
    → Option String
    → ℕ
    → ℕ
    → (String → Result Code SessionInfo)
    → List Confirmed
confirms sum256 c none now later check = []
confirms sum256 c (some token) now later check =
    if is_empty token
    then []
    else unless_cached (cached_session c (sum256 token) now)
        (answer_kept (sum256 token) later (check token))

-- The caches that the handlers lead to, with what the collector has confirmed, newest first.
pub data Kept (sum256 : String → String) : AuthCache → List Confirmed → Type 0 where
  start : Kept sum256 (record { sessions = []; passwords = [] }) []
  requested :
      {c : AuthCache} {fs : List Confirmed} (cookie : Option String) (now later : ℕ)
      (check : String → Result Code SessionInfo)
      → Kept sum256 c fs
      → Kept sum256
          (session_of sum256 c cookie now later check).1
          (confirms sum256 c cookie now later check ++ fs)
  changed :
      {c : AuthCache} {fs : List Confirmed} (cookie : Option String) (now later : ℕ)
      (check : String → Result Code SessionInfo) (change : String → Result Code (Unit {0}))
      → Kept sum256 c fs
      → Kept sum256
          (post_password sum256 c cookie now later check change).1
          (confirms sum256 c cookie now later check ++ fs)
  logged_out :
      {c : AuthCache} {fs : List Confirmed} (cookie : Option String)
      (logout : String → Result Code (Unit {0}))
      → Kept sum256 c fs
      → Kept sum256 (post_logout sum256 c cookie logout).1 fs
  scraped :
      {c : AuthCache} {fs : List Confirmed} (user password : String) (now later : ℕ)
      (check : String → String → Result Code (Unit {0}))
      → Kept sum256 c fs
      → Kept sum256 (check_password sum256 c user password now later check).1 fs

abbrev pub IsVouched : List Confirmed → String × CachedSession → Type 0
IsVouched fs (key, s) = any (vouches key s.who s.until) fs ≡ true

more :
    (fs gs : List Confirmed) (e : String × CachedSession) → IsVouched gs e → IsVouched (fs ++ gs) e
more [] gs e h = h
more (f ∷ fs) gs (key, s) h = ground (arith, more fs gs (key, s) h)

keep-Vouched :
    (c : AuthCache) (fs : List Confirmed) (key : String) (who : UserSession) (expires now : ℕ)
    → All (IsVouched fs) c.sessions
    → All
        (IsVouched (record { key = key; who = who; at = now; expires = expires } ∷ fs))
        (keep_session c key who expires now).sessions
unfolding keep_session
keep-Vouched c fs key who expires now a =
    All-insert (IsVouched (f ∷ fs)) key _ c.sessions
      (ground (
        arith,
        string_eq.beq_iff key key,
        string_eq.beq_iff who.user who.user,
        string_eq.beq_iff who.role who.role,
      ))
      (All-map (IsVouched fs) (IsVouched (f ∷ fs)) c.sessions (λ e h. more (f ∷ []) fs e h) a)
  where
    f : Confirmed
    f = record { key = key; who = who; at = now; expires = expires }

ask-Vouched :
    (c : AuthCache) (fs : List Confirmed) (token key : String) (later : ℕ)
    (check : String → Result Code SessionInfo) (o : Option UserSession)
    → All (IsVouched fs) c.sessions
    → All
        (IsVouched (unless_cached o (answer_kept key later (check token)) ++ fs))
        (ask c token key later check o).1.sessions
ask-Vouched c fs token key later check (some who) a = a
ask-Vouched c fs token key later check none a = go (check token)
  where
    go :
        (r : Result Code SessionInfo)
        → All (IsVouched (answer_kept key later r ++ fs)) (asked_session c key later r).1.sessions
    go (err unauthenticated) = a
    go (err resource_exhausted) = a
    go (err other_code) = a
    go (ok info) = keep-Vouched c fs key _ (info.expires * second) later a

session_of-Vouched :
    (sum256 : String → String) (c : AuthCache) (fs : List Confirmed) (cookie : Option String)
    (now later : ℕ) (check : String → Result Code SessionInfo)
    → All (IsVouched fs) c.sessions
    → All
        (IsVouched (confirms sum256 c cookie now later check ++ fs))
        (session_of sum256 c cookie now later check).1.sessions
unfolding session_of
session_of-Vouched sum256 c fs none now later check a = a
session_of-Vouched sum256 c fs (some token) now later check a = elim (Bool-cases (is_empty token)) [
  | inl e ↦ rw e a
  | inr e ↦
      rw e
        (ask-Vouched c fs token (sum256 token) later check (cached_session c (sum256 token) now) a)
]

change_for-Vouched :
    (sum256 : String → String) (fs : List Confirmed) (cookie : Option String)
    (change : String → Result Code (Unit {0})) (r : Result AuthError UserSession × AuthCache)
    → All (IsVouched fs) r.1.sessions
    → All (IsVouched fs) (change_for sum256 cookie change r).1.sessions
unfolding forget_user
change_for-Vouched sum256 fs none change (r, c) a = a
change_for-Vouched sum256 fs (some token) change (err e, c) a = a
change_for-Vouched sum256 fs (some token) change (ok who, c) a = go (change token)
  where
    go :
        (r : Result Code (Unit {0}))
        → All (IsVouched fs) (changed_password sum256 c token who r).1.sessions
    go (ok x) = All-select (IsVouched fs) _ c.sessions a
    go (err unauthenticated) = a
    go (err resource_exhausted) = a
    go (err other_code) = a

post_logout-Vouched :
    (sum256 : String → String) (c : AuthCache) (fs : List Confirmed) (cookie : Option String)
    (logout : String → Result Code (Unit {0}))
    → All (IsVouched fs) c.sessions
    → All (IsVouched fs) (post_logout sum256 c cookie logout).1.sessions
unfolding post_logout forget_session
post_logout-Vouched sum256 c fs none logout a = a
post_logout-Vouched sum256 c fs (some token) logout a = elim (Bool-cases (is_empty token)) [
  | inl e ↦ rw e a
  | inr e ↦ rw e (All-delete (IsVouched fs) (sum256 token) c.sessions a)
]

same_sessions :
    (sum256 : String → String) (c : AuthCache) (user password : String) (now later : ℕ)
    (check : String → String → Result Code (Unit {0}))
    → (check_password sum256 c user password now later check).1.sessions ≡ c.sessions
unfolding check_password keep_password
same_sessions sum256 c user password now later check =
    elim (Bool-cases (cached_password c (password_key sum256 user password) now)) [
      | inl e ↦ rw e refl
      | inr e ↦ rw e (go (check user password))
    ]
  where
    go :
        (r : Result Code (Unit {0}))
        → (asked_password c (password_key sum256 user password) later r).1.sessions ≡ c.sessions
    go (ok x) = refl
    go (err code) = refl

Kept-Vouched :
    {sum256 : String → String} {c : AuthCache} {fs : List Confirmed}
    → Kept sum256 c fs
    → All (IsVouched fs) c.sessions
unfolding post_password
Kept-Vouched start = tt
Kept-Vouched {sum256} (requested {c} {fs} cookie now later check k) =
    session_of-Vouched sum256 c fs cookie now later check (Kept-Vouched k)
Kept-Vouched {sum256} (changed {c} {fs} cookie now later check change k) =
    change_for-Vouched sum256 _ cookie change (session_of sum256 c cookie now later check)
      (session_of-Vouched sum256 c fs cookie now later check (Kept-Vouched k))
Kept-Vouched {sum256} (logged_out {c} {fs} cookie logout k) =
    post_logout-Vouched sum256 c fs cookie logout (Kept-Vouched k)
Kept-Vouched {sum256} (scraped {c} {fs} user password now later check k) =
    subst (All (IsVouched fs)) (sym (same_sessions sum256 c user password now later check))
      (Kept-Vouched k)

from_cache :
    (fs : List Confirmed) (key : String) (now : ℕ) (o : Option CachedSession) {who : UserSession}
    → ((s : CachedSession) → o ≡ some s → IsVouched fs (key, s))
    → fresh_session now o ≡ some who
    → any (vouches key who now) fs ≡ true
from_cache fs key now none h e = cc
from_cache fs key now (some s) {who} h e = go fs (h s refl)
  where
    same : s.who ≡ who
    same = ground arith

    live : ltb s.until now ≡ false
    live = ground arith

    go :
        (gs : List Confirmed)
        → any (vouches key s.who s.until) gs ≡ true
        → any (vouches key who now) gs ≡ true
    go [] g = cc
    go (f ∷ gs) g = ground (arith, go gs, same, live)

-- Confirmed a minute before or later and not expired, or confirmed by this call.
abbrev pub Trusted :
    (String → String)
    → List Confirmed
    → String
    → ℕ
    → (String → Result Code SessionInfo)
    → UserSession
    → Type 0
Trusted sum256 fs token now check who =
    (any (vouches (sum256 token) who now) fs ≡ true)
    ⊎ ((info : SessionInfo) × (check token ≡ ok info)
        × (who.user ≡ info.user)
        × (who.role ≡ info.role))

asked-Trusted :
    (sum256 : String → String) (c : AuthCache) (fs : List Confirmed) (token : String)
    (now later : ℕ) (check : String → Result Code SessionInfo) (r : Result Code SessionInfo)
    {who : UserSession}
    → check token ≡ r
    → (asked_session c (sum256 token) later r).0 ≡ ok who
    → Trusted sum256 fs token now check who
asked-Trusted sum256 c fs token now later check (err unauthenticated) t e = cc
asked-Trusted sum256 c fs token now later check (err resource_exhausted) t e = cc
asked-Trusted sum256 c fs token now later check (err other_code) t e = cc
asked-Trusted sum256 c fs token now later check (ok info) t e =
    inr (info, t, ground arith, ground arith)

ask-Trusted :
    (sum256 : String → String) (c : AuthCache) (fs : List Confirmed) (token : String)
    (now later : ℕ) (check : String → Result Code SessionInfo) (o : Option UserSession)
    {who : UserSession}
    → ((w : UserSession) → o ≡ some w → any (vouches (sum256 token) w now) fs ≡ true)
    → (ask c token (sum256 token) later check o).0 ≡ ok who
    → Trusted sum256 fs token now check who
ask-Trusted sum256 c fs token now later check none h e =
    asked-Trusted sum256 c fs token now later check (check token) refl e
ask-Trusted sum256 c fs token now later check (some w) {who} h e =
    inl (subst (λ x. any (vouches (sum256 token) x now) fs ≡ true) same (h w refl))
  where
    same : w ≡ who
    same = ground arith

-- However the handlers are called, a session that sessionOf takes for a request at a time is one that
-- the collector has confirmed for that token, with that user and role, a minute before that time or
-- later and with an expiry no earlier than that time, or that it confirms now.
pub session_of-Trusted :
    {sum256 : String → String} {c : AuthCache} {fs : List Confirmed} (token : String)
    (now later : ℕ) (check : String → Result Code SessionInfo) (who : UserSession)
    → Kept sum256 c fs
    → (session_of sum256 c (some token) now later check).0 ≡ ok who
    → Trusted sum256 fs token now check who
unfolding session_of cached_session
session_of-Trusted {sum256} {c} {fs} token now later check who k e =
    elim (Bool-cases (is_empty token)) [
      | inl b ↦ absurd (nobody b)
      | inr b ↦
          ask-Trusted sum256 c fs token now later check (cached_session c (sum256 token) now)
            (λ w f.
              from_cache fs (sum256 token) now (lookup (sum256 token) c.sessions)
                (λ s g. All-lookup (IsVouched fs) (sum256 token) c.sessions g (Kept-Vouched k)) f)
            (somebody b)
    ]
  where
    nobody : is_empty token ≡ true → ⊥
    nobody b = ground arith

    somebody :
        is_empty token ≡ false
        → (ask c token (sum256 token) later check (cached_session c (sum256 token) now)).0 ≡ ok who
    somebody b =
        subst
          (λ t.
            (if t
              then (err not_logged_in, c)
              else ask c token (sum256 token) later check (cached_session c (sum256 token) now)).0
            ≡ ok who)
          b e
