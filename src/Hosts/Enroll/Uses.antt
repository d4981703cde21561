-- ===== src/Hosts/Enroll/Uses.antt =====
-- How often an enrollment token can be used (internal/store/enrollment.go).
use sy_mon.Base.{
  ℕ, suc, ◌+◌, ◌≤◌, String, Bool, true, false, ◌||◌, not, Option, none, some, List, [], ◌∷◌, ◌==◌,
  string_eq, nat_eq, ltb, any, find, select, ◌≡◌, refl, subst, arith, inl, inr, Bool-cases, ◌∙◌,
  if◌then◌else◌, Result, ok, err, ℤ, pos, negsuc, find-change, found_by_key, found_test, find-none,
  find-other, any-select, Unique, zero, ◌-◌, ◌⊎◌, is_empty,
}
use sy_mon.Hosts.{
  HostRow, TokenRow, Hosts, is_called, delete_host, remove_host, add_host, heartbeat,
}
use sy_mon.Hosts.Enroll.{
  insert_token, create_enrollment_token, bound_name, fits_host, is_usable, upsert_host,
  finish_enroll, use_token, use_once, enroll, purge_enrollment_tokens, is_spent, max_uses,
  new_token,
}
use sy_mon.Hosts.Agents.{agent_check_in, request_agent_update}
use sy_mon.Hosts.Laws.{IsValid, token_hash, elsewhere}
use sy_mon.Hosts.Steps.{
  Step, created, enrolled, purged, added, removed, beaten, pinged, requested, Step-IsValid,
}

abbrev pub hashes_to : String → TokenRow → Bool
hashes_to hash t = t.token_hash == hash

abbrev pub uses_of : Option TokenRow → ℕ
uses_of none = 0
uses_of (some t) = t.uses_left

-- The uses left of the token with that hash.
abbrev pub left_of : String → Hosts → ℕ
left_of hash s = uses_of (find (hashes_to hash) s.tokens)

abbrev pub count_ok {ℓ κ} : {E : Type ℓ} {A : Type κ} → Result E A → ℕ
count_ok (ok x) = 1
count_ok (err e) = 0

-- The hosts that a call enrolls with that token, and whether it creates a token with that hash.
abbrev pub enrolls : {sum256 : String → String} {s t : Hosts} → String → Step sum256 s t → ℕ
enrolls {sum256} {s} hash (enrolled token host timezone secret now) =
    if sum256 token == hash then count_ok (enroll sum256 s token host timezone secret now).0 else 0
enrolls hash (created host uses ttl token now) = 0
enrolls hash (purged now) = 0
enrolls hash (added host timezone) = 0
enrolls hash (removed host) = 0
enrolls hash (beaten host at) = 0
enrolls hash (pinged host at version arch error) = 0
enrolls hash (requested hosts version url now) = 0

abbrev pub creates : {sum256 : String → String} {s t : Hosts} → String → Step sum256 s t → Bool
creates {sum256} hash (created host uses ttl token now) = sum256 token == hash
creates hash (enrolled token host timezone secret now) = false
creates hash (purged now) = false
creates hash (added host timezone) = false
creates hash (removed host) = false
creates hash (beaten host at) = false
creates hash (pinged host at version arch error) = false
creates hash (requested hosts version url now) = false

pub data Calls (sum256 : String → String) (s : Hosts) : Hosts → Type 0 where
  here : Calls sum256 s s
  step : {t u : Hosts} → Calls sum256 s t → Step sum256 t u → Calls sum256 s u

abbrev pub enrollments : {sum256 : String → String} {s t : Hosts} → String → Calls sum256 s t → ℕ
enrollments hash here = 0
enrollments hash (step p c) = enrollments hash p + enrolls hash c

abbrev pub recreated : {sum256 : String → String} {s t : Hosts} → String → Calls sum256 s t → Bool
recreated hash here = false
recreated hash (step p c) = recreated hash p || creates hash c

left-use_once :
    (hash : String) (id : ℕ) (ts : List TokenRow)
    → uses_of (find (hashes_to hash) (use_once id ts)) ≤ uses_of (find (hashes_to hash) ts)
left-use_once hash id [] = omega arith
left-use_once hash id (t ∷ ts) = ground (arith, left-use_once hash id ts)

left-select :
    (hash : String) (p : TokenRow → Bool) (ts : List TokenRow)
    → Unique token_hash ts
    → uses_of (find (hashes_to hash) (select p ts)) ≤ uses_of (find (hashes_to hash) ts)
left-select hash p [] u = omega arith
left-select hash p (t ∷ ts) u = elim (Bool-cases (hashes_to hash t)) [
  | inl e ↦
      ground (
        arith,
        find-none (hashes_to hash) (select p ts) (any-select p (hashes_to hash) ts (gone e)),
      )
  | inr e ↦ ground (arith, left-select hash p ts u.1)
]
  where
    gone : hashes_to hash t ≡ true → any (hashes_to hash) ts ≡ false
    gone e =
        subst (λ k. any (hashes_to k) ts ≡ false) ((string_eq.beq_iff t.token_hash hash).0 e) u.0

-- The token with that hash, when it is used, has a use less.
spent :
    (hash : String) (t : TokenRow) (ts : List TokenRow)
    → find (hashes_to hash) ts ≡ some t
    → ltb 0 t.uses_left ≡ true
    → suc (uses_of (find (hashes_to hash) (use_once t.id ts))) ≤ uses_of (find (hashes_to hash) ts)
spent hash t ts e h =
    rw
      (
        find-change (λ x. x.id == t.id) (hashes_to hash)
            (λ x. record x { uses_left = x.uses_left - 1 }) ts (λ x. refl),
        e,
        (nat_eq.beq_iff t.id t.id).1 refl,
      )
      (ground (arith, h))

insert-left :
    (s : Hosts) (hash hash' : String) (name : Option String) (uses expires : ℕ)
    → (hash' == hash) ≡ false
    → left_of hash (insert_token s hash' name uses expires).1 ≤ left_of hash s
insert-left s hash hash' name uses expires n =
    elim (Bool-cases
      (ltb max_uses uses || any (λ (t : TokenRow). t.token_hash == hash') s.tokens)) [
        | inl e ↦ rw e (omega arith)
        | inr e ↦
            rw
              (
                e,
                find-other (hashes_to hash) s.tokens
                    (new_token s.next_token hash' name uses expires) n,
              )
              (omega arith)
      ]

create-left :
    (sum256 : String → String) (s : Hosts) (hash host : String) (uses ttl : ℤ) (token : String)
    (now : ℕ)
    → (sum256 token == hash) ≡ false
    → left_of hash (create_enrollment_token sum256 s host uses ttl token now).1 ≤ left_of hash s
unfolding create_enrollment_token
create-left sum256 s hash host (pos (suc uses)) (pos (suc ttl)) token now n =
    insert-left s hash (sum256 token) (bound_name host) (suc uses) _ n
create-left sum256 s hash host (pos (suc uses)) (pos zero) token now n = omega arith
create-left sum256 s hash host (pos (suc uses)) (negsuc ttl) token now n = omega arith
create-left sum256 s hash host (pos zero) ttl token now n = omega arith
create-left sum256 s hash host (negsuc uses) ttl token now n = omega arith

-- A batch that fails keeps the tokens, one that succeeds uses one up.
finish-left :
    (s : Hosts) (r : ℕ × Hosts) (t : TokenRow) (hash secret hash' : String) (b : Bool)
    → find (hashes_to hash) s.tokens ≡ some t ⊎ (b ≡ false)
    → ltb 0 t.uses_left ≡ true
    → (if b then count_ok (finish_enroll s r t secret hash').0 else 0)
        + left_of hash (finish_enroll s r t secret hash').1
      ≤ left_of hash s
finish-left s (id, after) t hash secret hash' b f h =
    elim (Bool-cases (any (elsewhere id hash') s.credentials)) [
      | inl e ↦ rw e (ground arith)
      | inr e ↦ rw e (uses f)
    ]
  where
    uses :
        find (hashes_to hash) s.tokens ≡ some t ⊎ (b ≡ false)
        → (if b then 1 else 0) + uses_of (find (hashes_to hash) (use_once t.id s.tokens))
          ≤ left_of hash s
    uses (inl g) = ground (arith, spent hash t s.tokens g h)
    uses (inr g) = ground (arith, left-use_once hash t.id s.tokens)

use_token-left :
    (s : Hosts) (o : Option TokenRow) (hash used : String) (now : ℕ)
    (host timezone secret hash' : String)
    → find (is_usable used now) s.tokens ≡ o
    → Unique token_hash s.tokens
    → (if used == hash then count_ok (use_token s o host timezone secret hash').0 else 0)
        + left_of hash (use_token s o host timezone secret hash').1
      ≤ left_of hash s
use_token-left s none hash used now host timezone secret hash' e u = ground arith
use_token-left s (some t) hash used now host timezone secret hash' e u =
    elim (Bool-cases (fits_host t.host_name host)) [
      | inl f ↦ rw f (
          finish-left s (upsert_host s (find (is_called host) s.hosts) host timezone) t hash secret
            hash' (used == hash) (same (Bool-cases (used == hash))) some_left)
      | inr f ↦ rw f (ground arith)
    ]
  where
    usable : is_usable used now t ≡ true
    usable = found_test (is_usable used now) s.tokens e

    its : hashes_to used t ≡ true
    its = ground (arith, usable)

    some_left : ltb 0 t.uses_left ≡ true
    some_left = ground (arith, usable)

    same :
        ((used == hash) ≡ true) ⊎ ((used == hash) ≡ false)
        → find (hashes_to hash) s.tokens ≡ some t ⊎ ((used == hash) ≡ false)
    same (inr n) = inr n
    same (inl y) = inl (
        subst (λ k. find (hashes_to k) s.tokens ≡ some t)
          ((string_eq.beq_iff t.token_hash used).0 its ∙ (string_eq.beq_iff used hash).0 y)
          (found_by_key token_hash (is_usable used now) s.tokens u e))

enroll-left :
    (sum256 : String → String) (s : Hosts) (hash token host timezone secret : String) (now : ℕ)
    → IsValid s
    → (if sum256 token == hash
          then count_ok (enroll sum256 s token host timezone secret now).0
          else 0)
        + left_of hash (enroll sum256 s token host timezone secret now).1
      ≤ left_of hash s
unfolding enroll
enroll-left sum256 s hash token host timezone secret now v = elim (Bool-cases (is_empty host)) [
  | inl e ↦ rw e (ground arith)
  | inr e ↦ rw e (
      use_token-left s (find (is_usable (sum256 token) now) s.tokens) hash (sum256 token) now host
        timezone secret (sum256 secret) refl v.tokens_keyed.unique_keys)
]

remove-left :
    (s : Hosts) (o : Option HostRow) (hash host : String)
    → left_of hash (delete_host s o host).1 ≡ left_of hash s
remove-left s none hash host = refl
remove-left s (some r) hash host = refl

add-left :
    (s : Hosts) (hash host timezone : String)
    → left_of hash (add_host s host timezone).1 ≡ left_of hash s
unfolding add_host
add-left s hash host timezone = elim (Bool-cases (any (is_called host) s.hosts)) [
  | inl e ↦ rw e refl
  | inr e ↦ rw e refl
]

beat-left :
    (s : Hosts) (hash host : String) (at : ℕ)
    → left_of hash (heartbeat s host at).1 ≡ left_of hash s
unfolding heartbeat
beat-left s hash host at = elim (Bool-cases (any (is_called host) s.hosts)) [
  | inl e ↦ rw e refl
  | inr e ↦ rw e refl
]

-- A call spends what it enrolls.
step-left :
    {sum256 : String → String} {s t : Hosts} (hash : String) (c : Step sum256 s t)
    → IsValid s
    → creates hash c ≡ false
    → enrolls hash c + left_of hash t ≤ left_of hash s
unfolding purge_enrollment_tokens remove_host agent_check_in request_agent_update
step-left {sum256} {s} hash (created host uses ttl token now) v n =
    omega (arith, create-left sum256 s hash host uses ttl token now n)
step-left {sum256} {s} hash (enrolled token host timezone secret now) v n =
    enroll-left sum256 s hash token host timezone secret now v
step-left {sum256} {s} hash (purged now) v n =
    omega (arith, left-select hash (λ t. not (is_spent now t)) s.tokens v.tokens_keyed.unique_keys)
step-left {sum256} {s} hash (added host timezone) v n = omega (arith, add-left s hash host timezone)
step-left {sum256} {s} hash (removed host) v n =
    omega (arith, remove-left s (find (is_called host) s.hosts) hash host)
step-left {sum256} {s} hash (beaten host at) v n = omega (arith, beat-left s hash host at)
step-left {sum256} {s} hash (pinged host at version arch error) v n = omega arith
step-left {sum256} {s} hash (requested hosts version url now) v n = omega arith

Calls-IsValid : {sum256 : String → String} {s t : Hosts} → IsValid s → Calls sum256 s t → IsValid t
Calls-IsValid v here = v
Calls-IsValid v (step p c) = Step-IsValid (Calls-IsValid v p) c

-- From valid tables on, and as long as no token with the same hash is created, the hosts that a token
-- enrolls and the uses it has left are together at most the uses it had, whatever else is called.
pub calls-left :
    {sum256 : String → String} {s t : Hosts} (hash : String) (p : Calls sum256 s t)
    → IsValid s
    → recreated hash p ≡ false
    → enrollments hash p + left_of hash t ≤ left_of hash s
calls-left hash here v n = omega arith
calls-left hash (step p c) v n =
    omega (
      arith,
      calls-left hash p v (ground arith),
      step-left hash c (Calls-IsValid v p) (ground arith),
    )
