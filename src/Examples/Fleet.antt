-- ===== src/Examples/Fleet.antt =====
-- A token, a host and an update that the theorems on hosts are applied to.
use Prim.Native.String.{◌++◌ as append}
use sy_mon.Base.{◌+◌, ◌≤◌, String, false, none, some, [], ◌∷◌, ok, ◌≡◌, refl, pos}
use sy_mon.Hosts.{Hosts, HostRow}
use sy_mon.Hosts.Enroll.{create_enrollment_token, enroll, host_for_credential}
use sy_mon.Hosts.Enroll.Key.{Enrolled, enroll-Enrolled}
use sy_mon.Hosts.Enroll.Uses.{Calls, here, step, enrollments, left_of, calls-left}
use sy_mon.Hosts.Agents.{agent_check_in, request_agent_update}
use sy_mon.Hosts.Agents.Asked.{Updatable, request-check_in}
use sy_mon.Hosts.Access.{authorize}
use sy_mon.Hosts.Granted.{Granted, authorize-Granted}
use sy_mon.Hosts.Laws.{IsValid}
use sy_mon.Hosts.Steps.{no_hosts, start, then', created, enrolled, Reachable-hosts}

abbrev mark_secret : String → String
mark_secret text = append "#" text

abbrev with_token : Hosts
with_token = (create_enrollment_token mark_secret no_hosts "" (pos 2) (pos 1000) "tok" 10).1

abbrev with_web : Hosts
with_web = (enroll mark_secret with_token "tok" "web1" "UTC" "key1" 20).1

with_token-IsValid : IsValid with_token
with_token-IsValid =
    Reachable-hosts {sum256 = mark_secret} (then' start (created "" (pos 2) (pos 1000) "tok" 10))

Reachable-hosts_example : IsValid with_web
Reachable-hosts_example = Reachable-hosts {sum256 = mark_secret} (
    then' (then' start (created "" (pos 2) (pos 1000) "tok" 10))
      (enrolled "tok" "web1" "UTC" "key1" 20))

web_enrolled : (enroll mark_secret with_token "tok" "web1" "UTC" "key1" 20).0 ≡ ok "key1"
unfolding enroll create_enrollment_token
web_enrolled = refl

enroll-Enrolled_example : Enrolled mark_secret with_token "tok" "web1" "key1" 20 "key1" with_web
enroll-Enrolled_example =
    enroll-Enrolled mark_secret with_token "tok" "web1" "UTC" "key1" 20 "key1" with_token-IsValid
      web_enrolled

abbrev one_enrollment : Calls mark_secret with_token with_web
one_enrollment = step here (enrolled "tok" "web1" "UTC" "key1" 20)

calls-left_example :
    enrollments "#tok" one_enrollment + left_of "#tok" with_web ≤ left_of "#tok" with_token
calls-left_example = calls-left "#tok" one_enrollment with_token-IsValid refl

abbrev pinged_web : Hosts
pinged_web = (agent_check_in with_web "web1" 30 "1.0" "amd64" "").1

abbrev web_row : HostRow
web_row = record {
  id = 1;
  name = "web1";
  timezone = "UTC";
  last_seen = some 30;
  agent_version = "1.0";
  agent_arch = "amd64";
  update_version = none;
  update_url = none;
  update_requested_at = none;
  update_error = "";
}

web-Updatable : Updatable pinged_web ("web1" ∷ []) "web1" "1.1"
unfolding agent_check_in enroll create_enrollment_token
web-Updatable = record { row = web_row; row_found = refl; row_asked = refl }

request-check_in_example :
    let t = (request_agent_update pinged_web ("web1" ∷ []) "1.1" "http://dash" 40).1 in
    let u = (agent_check_in t "web1" 50 "1.1" "amd64" "").1 in
    ((agent_check_in t "web1" 50 "1.0" "amd64" "").0
      ≡ ok (some (record { version = "1.1"; url = "http://dash"; requested_at = some 40 })))
    × ((agent_check_in t "web1" 50 "1.1" "amd64" "").0 ≡ ok none)
    × ((agent_check_in u "web1" 60 "1.1" "amd64" "").0 ≡ ok none)
request-check_in_example =
    request-check_in pinged_web ("web1" ∷ []) "web1" "1.1" "http://dash" 40 50 60 "1.0" "1.1"
      "amd64" "" web-Updatable refl

web_authorized :
    authorize
      (host_for_credential mark_secret with_web)
      (λ jwt. false)
      none
      "/api.MonitorDataService/HandlePing"
      ("key1" ∷ [])
    ≡ ok (some "web1")
unfolding authorize host_for_credential enroll create_enrollment_token
web_authorized = refl

authorize-Granted_example :
    Granted
      (host_for_credential mark_secret with_web)
      (λ jwt. false)
      none
      "/api.MonitorDataService/HandlePing"
      ("key1" ∷ [])
      (some "web1")
authorize-Granted_example =
    authorize-Granted (host_for_credential mark_secret with_web) (λ jwt. false) none
      "/api.MonitorDataService/HandlePing" ("key1" ∷ []) (some "web1") web_authorized
