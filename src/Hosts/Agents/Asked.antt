-- ===== src/Hosts/Agents/Asked.antt =====
-- What an agent hears of an update that an admin asked for (internal/store/agents.go).
use sy_mon.Base.{
  ℕ, String, Bool, true, false, Option, none, some, List, ◌==◌, string_eq, find, change, ◌≡◌, ◌≢◌,
  refl, ap, ◌∙◌, arith, ok, err, find-change, change_found, found, found_test, All,
}
use sy_mon.Hosts.{nil_pointer, HostRow, Hosts, is_called}
use sy_mon.Hosts.Agents.{
  checked_in, waiting, waiting_of, agent_check_in, is_asked, asked, request_agent_update,
}
use sy_mon.Hosts.Laws.{IsValid, UpdateOk, has_url, changed-IsValid}
use sy_mon.Hosts.Steps.{checked_in-Update}

has_url-waiting :
    (version url : Option String) (at : Option ℕ)
    → has_url version url ≡ true
    → waiting version url at ≢ err nil_pointer
has_url-waiting none url at h e = cc
has_url-waiting (some version) none at h e = cc
has_url-waiting (some version) (some url) at h e = cc

waiting_of-safe :
    (rows : List HostRow) (o : Option HostRow) (p : HostRow → Bool)
    → find p rows ≡ o
    → All UpdateOk rows
    → waiting_of o ≢ err nil_pointer
waiting_of-safe rows none p e a h = cc
waiting_of-safe rows (some r) p e a h =
    has_url-waiting r.update_version r.update_url r.update_requested_at
      (found UpdateOk p rows e a).0 h

-- In valid tables the URL that AgentCheckIn reads off a row with a version is never null.
pub agent_check_in-safe :
    (s : Hosts) (host : String) (at : ℕ) (version arch error : String)
    → IsValid s
    → (agent_check_in s host at version arch error).0 ≢ err nil_pointer
unfolding agent_check_in
agent_check_in-safe s host at version arch error v =
    waiting_of-safe (change (is_called host) (checked_in at version arch error) s.hosts) _
      (is_called host) refl
      (changed-IsValid s (is_called host) (checked_in at version arch error)
        (checked_in-Update _ at version arch error) v).updates_ok

-- A host that can update itself and does not run the version.
pub record Updatable (s : Hosts) (hosts : List String) (host version : String) : Type 0 where
  pub row : HostRow
  pub row_found : find (is_called host) s.hosts ≡ some row
  pub row_asked : is_asked hosts version row ≡ true

checked :
    (s : Hosts) (host : String) (at : ℕ) (version arch error : String) {r : HostRow}
    → find (is_called host) s.hosts ≡ some r
    → find (is_called host) (agent_check_in s host at version arch error).1.hosts
      ≡ some (checked_in at version arch error r)
unfolding agent_check_in
checked s host at version arch error {r} e =
    find-change (is_called host) (is_called host) (checked_in at version arch error) s.hosts
      (λ h. refl)
    ∙ ap (change_found (is_called host) (checked_in at version arch error)) e
    ∙ rw (found_test (is_called host) s.hosts e) refl

answered :
    (s : Hosts) (host : String) (at : ℕ) (version arch error : String) {r : HostRow}
    → find (is_called host) s.hosts ≡ some r
    → (agent_check_in s host at version arch error).0
      ≡ waiting_of (some (checked_in at version arch error r))
unfolding agent_check_in
answered s host at version arch error e = ap waiting_of (checked s host at version arch error e)

asked_found :
    (s : Hosts) (hosts : List String) (host version url : String) (now : ℕ)
    → (u : Updatable s hosts host version)
    → find (is_called host) (request_agent_update s hosts version url now).1.hosts
      ≡ some (asked version url now u.row)
unfolding request_agent_update
asked_found s hosts host version url now u =
    find-change (is_asked hosts version) (is_called host) (asked version url now) s.hosts
      (λ h. refl)
    ∙ ap (change_found (is_asked hosts version) (asked version url now)) u.row_found
    ∙ rw u.row_asked refl

told_other :
    (r : HostRow) (version url v arch error : String) (now at : ℕ)
    → (v == version) ≡ false
    → waiting_of (some (checked_in at v arch error (asked version url now r)))
      ≡ ok (some (record { version = version; url = url; requested_at = some now }))
told_other r version url v arch error now at n =
    ground (arith, string_eq.beq_iff v version, string_eq.beq_iff version v)

told_same :
    (r : HostRow) (version url arch error : String) (now at : ℕ)
    → waiting_of (some (checked_in at version arch error (asked version url now r))) ≡ ok none
told_same r version url arch error now at = rw ((string_eq.beq_iff version version).1 refl) refl

told_later :
    (r : HostRow) (version url w arch error : String) (now at later : ℕ)
    → waiting_of (
        some (
          checked_in later w arch error
            (checked_in at version arch error (asked version url now r))))
      ≡ ok none
told_later r version url w arch error now at later =
    rw ((string_eq.beq_iff version version).1 refl) refl

-- Once asked of a host that can update itself and runs another version, an update is what its agent's
-- next check-in gives when that says another version; when it says the version asked for, nothing is
-- waiting, then and at the check-in after that one, whatever version that says.
pub request-check_in :
    (s : Hosts) (hosts : List String) (host version url : String) (now at later : ℕ)
    (v w arch error : String)
    → Updatable s hosts host version
    → (v == version) ≡ false
    → let t = (request_agent_update s hosts version url now).1 in
      let u = (agent_check_in t host at version arch error).1 in
      ((agent_check_in t host at v arch error).0
        ≡ ok (some (record { version = version; url = url; requested_at = some now })))
      × ((agent_check_in t host at version arch error).0 ≡ ok none)
      × ((agent_check_in u host later w arch error).0 ≡ ok none)
request-check_in s hosts host version url now at later v w arch error u n = (
  answered _ host at v arch error asks ∙ told_other u.row version url v arch error now at n,
  answered _ host at version arch error asks ∙ told_same u.row version url arch error now at,
  answered _ host later w arch error (checked _ host at version arch error asks)
      ∙ told_later u.row version url w arch error now at later,
)
  where
    asks :
        find (is_called host) (request_agent_update s hosts version url now).1.hosts
        ≡ some (asked version url now u.row)
    asks = asked_found s hosts host version url now u
