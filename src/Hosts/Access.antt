-- ===== src/Hosts/Access.antt =====
-- Which calls a caller may make, and as which host (internal/api/auth.go and
-- `AuthInterceptor` of internal/transport/transport.go).
use sy_mon.Base.{
  String, Bool, Option, none, some, List, [], ◌∷◌, if◌then◌else◌, ◌==◌, string_eq, contains, Result,
  ok, err,
}
use sy_mon.Hosts.{HostError, not_found}

pub data Denied : Type 0 where
  permission_denied unknown_key no_metadata no_jwt bad_jwt store_failed : Denied

abbrev pub enroll_method : String
enroll_method = "/api.MonitorDataService/Enroll"

-- The calls an enrolled agent may make with its own key.
abbrev pub agent_methods : List String
agent_methods =
    "/api.MonitorDataService/HandlePing" ∷ "/api.MonitorDataService/HandleMonitorData"
    ∷ "/api.MonitorDataService/HandleCustomMonitorData" ∷ "/api.MonitorDataService/NextTask"
    ∷ "/api.MonitorDataService/ReportTask" ∷ "/api.MonitorDataService/ReportCluster" ∷ []

abbrev pub as_agent : Result HostError String → Result Denied (Option String)
as_agent (ok host) = ok (some host)
as_agent (err not_found) = err unknown_key
as_agent (err other) = err store_failed

-- AuthInterceptor of internal/transport: the check of the shared key. `jwts` are the values of the
-- jwt header, when there is metadata at all.
abbrev pub shared_key : (String → Bool) → Option (List String) → Result Denied (Option String)
shared_key valid_token none = err no_metadata
shared_key valid_token (some []) = err no_jwt
shared_key valid_token (some (jwt ∷ [])) = if valid_token jwt then ok none else err bad_jwt
shared_key valid_token (some (jwt ∷ other ∷ rest)) = err no_jwt

-- AuthInterceptor: the host that the handler sees, when it is called. `keys` are the values of the
-- agent key header.
unfoldable pub authorize :
    (String → Result HostError String)
    → (String → Bool)
    → Option (List String)
    → String
    → List String
    → Result Denied (Option String)
authorize host_of valid_token jwts method [] =
    if method == enroll_method then ok none else shared_key valid_token jwts
authorize host_of valid_token jwts method (key ∷ []) =
    if method == enroll_method
    then ok none
    else if contains agent_methods method
    then as_agent (host_of key)
    else err permission_denied
authorize host_of valid_token jwts method (key ∷ other ∷ rest) =
    if method == enroll_method then ok none else err permission_denied

-- agentHost: data is stored under the host of the key, whatever the payload says.
unfoldable pub acting_host : Option String → String → String
acting_host none named = named
acting_host (some host) named = host
