-- ===== src/Hosts.antt =====
-- The hosts table and what belongs to it (internal/store/hosts.go): the credentials of agents and
-- the enrollment tokens of internal/store/enrollment.go, and the updates that agents are asked to
-- install of internal/store/agents.go. Times are nanoseconds; the clock, secrets drawn at random and
-- sha256 are arguments. Failures of the database other than a UNIQUE constraint are not modelled.
use sy_mon.Base.{
  ℕ, suc, String, Bool, true, false, ◌||◌, not, Option, none, some, List, [], ◌∷◌, ◌++◌,
  if◌then◌else◌, ◌==◌, nat_eq, string_eq, ltb, any, select, find, map, change, Result, ok, err,
}
pub mod Enroll
pub mod Agents
pub mod Access
pub mod Laws
pub mod Steps
pub mod Granted

pub data HostError : Type 0 where
  invalid bad_token host_exists not_found refused nil_pointer : HostError

pub record HostRow : Type 0 where
  pub id : ℕ
  pub name : String
  pub timezone : String
  pub last_seen : Option ℕ
  pub agent_version : String
  pub agent_arch : String
  pub update_version : Option String
  pub update_url : Option String
  pub update_requested_at : Option ℕ
  pub update_error : String

pub record TokenRow : Type 0 where
  pub id : ℕ
  pub token_hash : String
  pub host_name : Option String
  pub uses_left : ℕ
  pub expires_at : ℕ

pub record CredentialRow : Type 0 where
  pub host_id : ℕ
  pub secret_hash : String

pub record Hosts : Type 0 where
  pub hosts : List HostRow
  pub tokens : List TokenRow
  pub credentials : List CredentialRow
  pub next_host : ℕ
  pub next_token : ℕ

abbrev pub is_called : String → HostRow → Bool
is_called name r = r.name == name

abbrev pub new_host : ℕ → String → String → HostRow
new_host id name timezone = record {
  id = id;
  name = name;
  timezone = timezone;
  last_seen = none;
  agent_version = "";
  agent_arch = "";
  update_version = none;
  update_url = none;
  update_requested_at = none;
  update_error = "";
}

abbrev pub with_host : Hosts → String → String → Hosts
with_host s name timezone = record s {
  hosts = s.hosts ++ new_host s.next_host name timezone ∷ [];
  next_host = suc s.next_host;
}

-- INSERT … ON CONFLICT (name) DO NOTHING. The number is drawn in any case.
unfoldable pub add_host : Hosts → String → String → Result HostError (Unit {0}) × Hosts
add_host s name timezone =
    if any (is_called name) s.hosts
    then (err host_exists, record s { next_host = suc s.next_host })
    else (ok tt, with_host s name timezone)

abbrev pub delete_host : Hosts → Option HostRow → String → Result HostError (Unit {0}) × Hosts
delete_host s none name = (err not_found, s)
delete_host s (some r) name = (
  ok tt,
  record s {
    hosts = select (λ h. not (is_called name h)) s.hosts;
    credentials = select (λ (c : CredentialRow). not (c.host_id == r.id)) s.credentials;
  },
)

-- The credential goes with the host: ON DELETE CASCADE.
unfoldable pub remove_host : Hosts → String → Result HostError (Unit {0}) × Hosts
remove_host s name = delete_host s (find (is_called name) s.hosts) name

pub record Host : Type 0 where
  pub id : ℕ
  pub name : String
  pub timezone : String
  pub last_seen : Option ℕ

abbrev pub as_host : HostRow → Host
as_host r = record { id = r.id; name = r.name; timezone = r.timezone; last_seen = r.last_seen }

-- ORDER BY name, in the order of the database's collation.
abbrev pub place : (String → String → Bool) → HostRow → List HostRow → List HostRow
place before r [] = r ∷ []
place before r (h ∷ hs) = if before h.name r.name then h ∷ place before r hs else r ∷ h ∷ hs

abbrev pub in_order : (String → String → Bool) → List HostRow → List HostRow
in_order before [] = []
in_order before (r ∷ rs) = place before r (in_order before rs)

unfoldable pub list_hosts : (String → String → Bool) → Hosts → List Host
list_hosts before s = map as_host (in_order before s.hosts)

abbrev pub id_of : Option HostRow → Result HostError ℕ
id_of none = err not_found
id_of (some r) = ok r.id

unfoldable pub host_id : Hosts → String → Result HostError ℕ
host_id s name = id_of (find (is_called name) s.hosts)

-- greatest, which passes over NULL.
abbrev pub greatest : Option ℕ → ℕ → Option ℕ
greatest none at = some at
greatest (some t) at = some (if ltb t at then at else t)

abbrev pub heard : ℕ → HostRow → HostRow
heard at r = record r { last_seen = greatest r.last_seen at }

unfoldable pub heartbeat : Hosts → String → ℕ → Result HostError (Unit {0}) × Hosts
heartbeat s name at =
    if any (is_called name) s.hosts
    then (ok tt, record s { hosts = change (is_called name) (heard at) s.hosts })
    else (err not_found, s)

abbrev pub seen_of : Option HostRow → Result HostError (Option ℕ)
seen_of none = err not_found
seen_of (some r) = ok r.last_seen

unfoldable pub last_seen : Hosts → String → Result HostError (Option ℕ)
last_seen s name = seen_of (find (is_called name) s.hosts)
