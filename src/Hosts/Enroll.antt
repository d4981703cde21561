-- ===== src/Hosts/Enroll.antt =====
-- Enrollment tokens and the credentials of agents (internal/store/enrollment.go, and `Enroll` of
-- internal/api/api.go for the host's name).
use sy_mon.Base.{
  ℕ, zero, suc, ◌+◌, ◌-◌, String, Char, code, Bool, true, false, ◌&&◌, ◌||◌, not, Option, none,
  some, List, [], ◌∷◌, ◌++◌, if◌then◌else◌, ◌==◌, nat_eq, string_eq, ltb, leb, any, select, find,
  length, change, ℤ, pos, negsuc, is_empty, Result, ok, err,
}
use sy_mon.Hosts.{
  HostError, invalid, bad_token, not_found, refused, HostRow, TokenRow, CredentialRow, Hosts,
  is_called, with_host,
}
pub mod Enrolled
pub mod Key
pub mod Uses

-- uses_left is an integer of 32 bits.
abbrev pub max_uses : ℕ
max_uses = 2147483647

abbrev pub bound_name : String → Option String
bound_name host_name = if is_empty host_name then none else some host_name

abbrev pub new_token : ℕ → String → Option String → ℕ → ℕ → TokenRow
new_token id hash name uses expires = record {
  id = id;
  token_hash = hash;
  host_name = name;
  uses_left = uses;
  expires_at = expires;
}

abbrev pub insert_token : Hosts → String → Option String → ℕ → ℕ → Result HostError ℕ × Hosts
insert_token s hash name uses expires =
    if ltb max_uses uses || any (λ (t : TokenRow). t.token_hash == hash) s.tokens
    then (err refused, record s { next_token = suc s.next_token })
    else (
      ok expires,
      record s {
        tokens = s.tokens ++ new_token s.next_token hash name uses expires ∷ [];
        next_token = suc s.next_token;
      },
    )

-- Gives the time that the token expires. Both arguments must be positive.
unfoldable pub create_enrollment_token :
    (String → String) → Hosts → String → ℤ → ℤ → String → ℕ → Result HostError ℕ × Hosts
create_enrollment_token sum256 s host_name (pos (suc uses)) (pos (suc ttl)) token now =
    insert_token s (sum256 token) (bound_name host_name) (suc uses) (now + suc ttl)
create_enrollment_token sum256 s host_name (pos (suc uses)) (pos zero) token now = (err invalid, s)
create_enrollment_token sum256 s host_name (pos (suc uses)) (negsuc ttl) token now =
    (err invalid, s)
create_enrollment_token sum256 s host_name (pos zero) ttl token now = (err invalid, s)
create_enrollment_token sum256 s host_name (negsuc uses) ttl token now = (err invalid, s)

abbrev pub is_usable : String → ℕ → TokenRow → Bool
is_usable hash now t = t.token_hash == hash && ltb 0 t.uses_left && ltb now t.expires_at

abbrev pub fits_host : Option String → String → Bool
fits_host none host = true
fits_host (some name) host = name == host

-- INSERT … ON CONFLICT (name) DO UPDATE SET timezone: the host's id, and the tables.
abbrev pub upsert_host : Hosts → Option HostRow → String → String → ℕ × Hosts
upsert_host s none host timezone = (s.next_host, with_host s host timezone)
upsert_host s (some r) host timezone = (
  r.id,
  record s {
    hosts = change (is_called host) (λ h. record h { timezone = timezone }) s.hosts;
    next_host = suc s.next_host;
  },
)

abbrev pub of_host : ℕ → CredentialRow → Bool
of_host id c = c.host_id == id

abbrev pub has_secret : String → CredentialRow → Bool
has_secret hash c = c.secret_hash == hash

abbrev pub use_once : ℕ → List TokenRow → List TokenRow
use_once id tokens =
    change (λ (t : TokenRow). t.id == id) (λ t. record t { uses_left = t.uses_left - 1 }) tokens

-- The batch of Enroll: the host's one credential is set, and a use of the token is gone. secret_hash
-- is unique; when it is taken the transaction is rolled back, all but the number drawn for the host.
abbrev pub finish_enroll :
    Hosts → ℕ × Hosts → TokenRow → String → String → Result HostError String × Hosts
finish_enroll s (id, after) t secret hash =
    if any (λ c. has_secret hash c && not (of_host id c)) s.credentials
    then (err refused, record s { next_host = after.next_host })
    else (
      ok secret,
      record after {
        credentials =
            if any (of_host id) s.credentials
            then change (of_host id) (λ c. record c { secret_hash = hash }) s.credentials
            else s.credentials ++ record { host_id = id; secret_hash = hash } ∷ [];
        tokens = use_once t.id s.tokens;
      },
    )

abbrev pub use_token :
    Hosts → Option TokenRow → String → String → String → String → Result HostError String × Hosts
use_token s none host timezone secret hash = (err bad_token, s)
use_token s (some t) host timezone secret hash =
    if fits_host t.host_name host
    then finish_enroll s (upsert_host s (find (is_called host) s.hosts) host timezone) t secret hash
    else (err bad_token, s)

unfoldable pub enroll :
    (String → String)
    → Hosts
    → String
    → String
    → String
    → String
    → ℕ
    → Result HostError String × Hosts
enroll sum256 s token host timezone secret now =
    if is_empty host
    then (err invalid, s)
    else use_token s (find (is_usable (sum256 token) now) s.tokens) host timezone secret
        (sum256 secret)

abbrev pub name_of : Option HostRow → Result HostError String
name_of none = err not_found
name_of (some r) = ok r.name

abbrev pub host_of : Hosts → Option CredentialRow → Result HostError String
host_of s none = err not_found
host_of s (some c) = name_of (find (λ (h : HostRow). h.id == c.host_id) s.hosts)

unfoldable pub host_for_credential : (String → String) → Hosts → String → Result HostError String
host_for_credential sum256 s secret = host_of s (find (has_secret (sum256 secret)) s.credentials)

abbrev pub is_spent : ℕ → TokenRow → Bool
is_spent now t = t.uses_left == 0 || ltb t.expires_at now

unfoldable pub purge_enrollment_tokens : Hosts → ℕ → ℕ × Hosts
purge_enrollment_tokens s now = (
  length (select (is_spent now) s.tokens),
  record s { tokens = select (λ t. not (is_spent now t)) s.tokens },
)
