-- ===== src/Hosts/Agents.antt =====
-- The updates that agents are asked to install (internal/store/agents.go).
use sy_mon.Base.{
  ℕ, String, Bool, true, false, ◌&&◌, not, Option, none, some, List, if◌then◌else◌, ◌==◌, string_eq,
  any, find, select, contains, length, change, is_empty, Result, ok, err,
}
use sy_mon.Hosts.{HostError, not_found, nil_pointer, HostRow, Hosts, is_called, greatest}
pub mod Asked

pub record AgentUpdate : Type 0 where
  pub version : String
  pub url : String
  -- none is Go's zero time
  pub requested_at : Option ℕ

-- `update_version = $3` in SQL, which NULL does not satisfy.
abbrev pub is_version : String → Option String → Bool
is_version version none = false
is_version version (some asked) = asked == version

-- The SET of AgentCheckIn, where all expressions see the row as it was.
abbrev pub checked_in : ℕ → String → String → String → HostRow → HostRow
checked_in at version arch error r = record r {
  last_seen = greatest r.last_seen at;
  agent_version = if is_empty version then r.agent_version else version;
  agent_arch = if is_empty arch then r.agent_arch else arch;
  update_error = if is_version version r.update_version then "" else error;
  update_url = if is_version version r.update_version then none else r.update_url;
  update_requested_at = if is_version version r.update_version then none else r.update_requested_at;
  update_version = if is_version version r.update_version then none else r.update_version;
}

-- What is read off the row. The URL's pointer is followed when there is a version.
abbrev pub waiting :
    Option String → Option String → Option ℕ → Result HostError (Option AgentUpdate)
waiting none url requested_at = ok none
waiting (some version) none requested_at = err nil_pointer
waiting (some version) (some url) requested_at =
    ok (some (record { version = version; url = url; requested_at = requested_at }))

abbrev pub waiting_of : Option HostRow → Result HostError (Option AgentUpdate)
waiting_of none = err not_found
waiting_of (some r) = waiting r.update_version r.update_url r.update_requested_at

unfoldable pub agent_check_in :
    Hosts → String → ℕ → String → String → String → Result HostError (Option AgentUpdate) × Hosts
agent_check_in s host at version arch error =
    let hosts = change (is_called host) (checked_in at version arch error) s.hosts in
    (waiting_of (find (is_called host) hosts), record s { hosts = hosts })

-- Agents that cannot update themselves say no arch.
abbrev pub is_asked : List String → String → HostRow → Bool
is_asked hosts version r =
    contains hosts r.name && not (is_empty r.agent_arch) && not (r.agent_version == version)

abbrev pub asked : String → String → ℕ → HostRow → HostRow
asked version url now r = record r {
  update_version = some version;
  update_url = some url;
  update_requested_at = some now;
  update_error = "";
}

unfoldable pub request_agent_update : Hosts → List String → String → String → ℕ → ℕ × Hosts
request_agent_update s hosts version url now = (
  length (select (is_asked hosts version) s.hosts),
  record s { hosts = change (is_asked hosts version) (asked version url now) s.hosts },
)
