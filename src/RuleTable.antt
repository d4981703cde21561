-- ===== src/RuleTable.antt =====
-- The alert_rules and rule_setup tables, with what they change in the alerts and in the history of
-- endpoint checks (internal/store/rules.go). A call is one transaction: when a statement violates a
-- UNIQUE constraint or an index, only the number drawn for a row stays drawn. The JSON that rules are
-- kept in is not modelled.
use sy_mon.Base.{
  ℕ, suc, ◌+◌, String, Bool, true, false, ◌&&◌, ◌||◌, not, Option, none, some, List, [], ◌∷◌, ◌++◌,
  map, if◌then◌else◌, ◌==◌, nat_eq, string_eq, any, select, find, change, contains, ℤ, pos, Result,
  ok, err, ◌>>=◌, length,
}
use sy_mon.Metric
use sy_mon.Rules.{AlertConfig, all_hosts}
use sy_mon.Rules.Validate.{UrlParser, RuleError, validate}
use sy_mon.Alerts.Data.{Alert}
use sy_mon.Alerts.Store.{Alerts, is_open}
pub mod Laws
pub mod Steps
pub mod Resolved
pub mod Setup

pub data TableError : Type 0 where
  invalid : RuleError → TableError
  rule_exists not_found refused : TableError

abbrev pub default_heartbeat : AlertConfig
default_heartbeat = record {
  name = "Host not reporting";
  description = "Added by SyMon for every host";
  metric_name = Metric.ping;
  is_custom = false;
  op = "";
  template = "{subject}\n{serverName} has sent nothing for over {triggerInterval} seconds";
  warn_threshold = pos 0;
  critical_threshold = pos 0;
  trigger_intveral = pos 300;
  servers = all_hosts ∷ [];
  endpoint = "";
  expected_http_code = pos 0;
  method = "";
  custom_ca_cert = "";
  post_content_type = "";
  post_body = "";
  disk = "";
  service = "";
  cluster = "";
  namespace = "";
  channels = [];
  email = false;
  pagerduty = false;
  slack = false;
  slack_channel = "";
  cert_warn_days = none;
  cert_critical_days = none;
}

pub record AlertRule : Type 0 where
  pub id : ℕ
  pub name : String
  pub enabled : Bool
  pub rule : AlertConfig
  pub updated_at : ℕ
  -- empty for SyMon itself
  pub updated_by : String

pub record Tables (V : Type 0) : Type 0 where
  pub rules : List AlertRule
  pub next_id : ℕ
  pub alerts : Alerts V
  -- the names in endpoint_checks
  pub checks : List String
  -- the source and the number of rules imported, once they are set up
  pub setup : List (String × ℕ)

abbrev pub has_name : String → AlertRule → Bool
has_name name r = r.name == name

abbrev pub has_id : ℕ → AlertRule → Bool
has_id id r = r.id == id

abbrev pub or_invalid : Result RuleError AlertConfig → Result TableError AlertConfig
or_invalid (err e) = err (invalid e)
or_invalid (ok rule) = ok rule

abbrev pub check_rule : UrlParser → AlertConfig → Result TableError AlertConfig
check_rule parse_url rule = or_invalid (validate parse_url rule)

abbrev pub new_rule : ℕ → AlertConfig → Bool → String → ℕ → AlertRule
new_rule id rule enabled by' now = record {
  id = id;
  name = rule.name;
  enabled = enabled;
  rule = rule;
  updated_at = now;
  updated_by = by';
}

abbrev pub is_rules_alert : {V : Type 0} → String → Alert V → Bool
is_rules_alert name a = a.rule == name && is_open a.resolved_at

abbrev pub rename_checks : String → String → List String → List String
rename_checks old new checks = map (λ name. if name == old then new else name) checks

abbrev pub replaced : ℕ → AlertConfig → Bool → String → ℕ → AlertRule → AlertRule
replaced id rule enabled by' now r = new_rule r.id rule enabled by' now

abbrev pub is_taken : ℕ → String → AlertRule → Bool
is_taken id name r = r.name == name && not (r.id == id)

abbrev pub is_set_up : List (String × ℕ) → Bool
is_set_up [] = false
is_set_up (s ∷ ss) = true

abbrev pub is_heartbeat : AlertConfig → Bool
is_heartbeat rule = rule.metric_name == Metric.ping && contains rule.servers all_hosts

-- A heartbeat for all hosts, or a rule with the default one's name.
abbrev pub replaces_default : AlertConfig → Bool
replaces_default rule = is_heartbeat rule || rule.name == default_heartbeat.name

abbrev pub check_rules : UrlParser → List AlertConfig → Result TableError (List AlertConfig)
check_rules parse_url [] = ok []
check_rules parse_url (rule ∷ rules) = do
  rule' ← check_rule parse_url rule
  rules' ← check_rules parse_url rules
  ok (rule' ∷ rules')

abbrev pub place : (String → String → Bool) → AlertRule → List AlertRule → List AlertRule
place before r [] = r ∷ []
place before r (s ∷ ss) = if before s.name r.name then s ∷ place before r ss else r ∷ s ∷ ss

abbrev pub by_name : (String → String → Bool) → List AlertRule → List AlertRule
by_name before [] = []
by_name before (r ∷ rs) = place before r (by_name before rs)

abbrev pub imported : AlertConfig → String → ℕ → AlertRule → AlertRule
imported rule by' now r = record r { rule = rule; updated_at = now; updated_by = by' }

-- What SetupRules did.
pub record RuleSetup : Type 0 where
  -- that the rules were set up before
  pub done : Bool
  pub imported : ℕ
  pub added : List String

module _ {V : Type 0} where
  abbrev pub with_rule : Tables V → AlertConfig → Bool → String → ℕ → Tables V
  with_rule t rule enabled by' now = record t {
    rules = t.rules ++ new_rule t.next_id rule enabled by' now ∷ [];
    next_id = suc t.next_id;
  }

  -- INSERT INTO alert_rules: the new number.
  abbrev pub insert_rule :
      Tables V → AlertConfig → Bool → String → ℕ → Result TableError ℕ × Tables V
  insert_rule t rule enabled by' now =
      if any (has_name rule.name) t.rules
      then (err rule_exists, record t { next_id = suc t.next_id })
      else (ok t.next_id, with_rule t rule enabled by' now)

  -- A call that checks the rule first.
  abbrev pub checked {ℓ} :
      {B : Type ℓ}
      → Tables V
      → Result TableError AlertConfig
      → (AlertConfig → Result TableError B × Tables V)
      → Result TableError B × Tables V
  checked t (err e) next = (err e, t)
  checked t (ok rule) next = next rule

  unfoldable pub create_rule :
      UrlParser → Tables V → AlertConfig → Bool → String → ℕ → Result TableError ℕ × Tables V
  create_rule parse_url t rule enabled by' now =
      checked t (check_rule parse_url rule) (λ rule'. insert_rule t rule' enabled by' now)

  abbrev pub with_alerts : Tables V → List (Alert V) → Tables V
  with_alerts t rows = record t { alerts = record (t.alerts) { rows = rows } }

  -- resolveRuleAlerts
  abbrev pub resolve_rule_alerts : Tables V → String → ℕ → Tables V
  resolve_rule_alerts t name now = with_alerts t (
      change (is_rules_alert name) (λ a. record a { resolved_at = some now; updated_at = now })
        t.alerts.rows)

  abbrev pub same_key : Alert V → Alert V → Bool
  same_key a b = a.host == b.host && a.metric == b.metric && a.target == b.target

  -- The alerts_one_open index refuses a name when an open alert of it has the key of one renamed.
  abbrev pub clashes : String → String → List (Alert V) → Bool
  clashes old new rows =
      any (λ a. is_rules_alert old a && any (λ b. is_rules_alert new b && same_key a b) rows) rows

  abbrev pub rename_alerts : String → String → List (Alert V) → List (Alert V)
  rename_alerts old new rows = change (is_rules_alert old) (λ a. record a { rule = new }) rows

  abbrev pub resolve_if : Bool → Tables V → String → ℕ → Tables V
  resolve_if true t name now = resolve_rule_alerts t name now
  resolve_if false t name now = t

  abbrev pub renamed : Tables V → String → String → Tables V
  renamed t old new =
      if old == new then t else record (with_alerts t (rename_alerts old new t.alerts.rows)) {
        checks = rename_checks old new t.checks;
      }

  abbrev pub with_replaced : Tables V → ℕ → AlertConfig → Bool → String → ℕ → Tables V
  with_replaced t id rule enabled by' now = record t {
    rules = change (has_id id) (replaced id rule enabled by' now) t.rules;
  }

  -- The statements of UpdateRule, for the row that has the number.
  abbrev pub put_rule :
      Tables V
      → Option AlertRule
      → ℕ
      → AlertConfig
      → Bool
      → String
      → ℕ
      → Result TableError (Unit {0}) × Tables V
  put_rule t none id rule enabled by' now = (err not_found, t)
  put_rule t (some old) id rule enabled by' now =
      if any (is_taken id rule.name) t.rules
      then (err rule_exists, t)
      else if not (old.name == rule.name) && clashes old.name rule.name t.alerts.rows
      then (err refused, t)
      else (
        ok tt,
        resolve_if (not enabled)
            (renamed (with_replaced t id rule enabled by' now) old.name rule.name) rule.name now,
      )

  unfoldable pub update_rule :
      UrlParser
      → Tables V
      → ℕ
      → AlertConfig
      → Bool
      → String
      → ℕ
      → Result TableError (Unit {0}) × Tables V
  update_rule parse_url t id rule enabled by' now =
      checked t (check_rule parse_url rule)
        (λ rule'. put_rule t (find (has_id id) t.rules) id rule' enabled by' now)

  abbrev pub drop_rule :
      Tables V → Option AlertRule → ℕ → ℕ → Result TableError (Unit {0}) × Tables V
  drop_rule t none id now = (err not_found, t)
  drop_rule t (some r) id now = (
    ok tt,
    resolve_rule_alerts (record t { rules = select (λ s. not (has_id id s)) t.rules }) r.name now,
  )

  unfoldable pub delete_rule : Tables V → ℕ → ℕ → Result TableError (Unit {0}) × Tables V
  delete_rule t id now = drop_rule t (find (has_id id) t.rules) id now

  unfoldable pub rules_set_up : Tables V → Bool
  rules_set_up t = is_set_up t.setup

  abbrev pub then_rest :
      AlertConfig
      → Result TableError (List AlertConfig) × Tables V
      → Result TableError (List AlertConfig) × Tables V
  then_rest rule (err e, t) = (err e, t)
  then_rest rule (ok rules, t) = (ok (rule ∷ rules), t)

  abbrev pub then_add :
      AlertConfig
      → Result TableError ℕ × Tables V
      → (Tables V → Result TableError (List AlertConfig) × Tables V)
      → Result TableError (List AlertConfig) × Tables V
  then_add rule (err e, t) next = (err e, t)
  then_add rule (ok id, t) next = then_rest rule (next t)

  -- The loop of SetupRules, with the rules that it inserted.
  abbrev pub add_rules :
      UrlParser → Tables V → List AlertConfig → ℕ → Result TableError (List AlertConfig) × Tables V
  add_rules parse_url t [] now = (ok [], t)
  add_rules parse_url t (rule ∷ rules) now = checked t (check_rule parse_url rule) (λ rule'.
      then_add rule' (insert_rule t rule' true "" now) (λ u. add_rules parse_url u rules now))

  abbrev pub note_setup : Tables V → String → ℕ → Tables V
  note_setup t source imported = record t { setup = (source, imported) ∷ t.setup }

  -- The default heartbeat rule, unless the rules have one. `t` is what a failure goes back to.
  abbrev pub add_default :
      Tables V
      → Result TableError (List AlertConfig) × Tables V
      → String
      → ℕ
      → Result TableError RuleSetup × Tables V
  add_default t (err e, u) source now = (err e, record t { next_id = u.next_id })
  add_default t (ok rules, u) source now =
      if any replaces_default rules
      then (
        ok (record { done = false; imported = length rules; added = [] }),
        note_setup u source (length rules),
      )
      else if any (has_name default_heartbeat.name) u.rules
      then (err rule_exists, record t { next_id = suc u.next_id })
      else (
        ok (record { done = false; imported = length rules; added = default_heartbeat.name ∷ [] }),
        note_setup (with_rule u default_heartbeat true "" now) source (length rules),
      )

  unfoldable pub setup_rules :
      UrlParser → Tables V → List AlertConfig → String → ℕ → Result TableError RuleSetup × Tables V
  unfolding rules_set_up
  setup_rules parse_url t rules source now =
      if rules_set_up t
      then (ok (record { done = true; imported = 0; added = [] }), t)
      else add_default t (add_rules parse_url t rules now) source now

  -- INSERT … ON CONFLICT (name) DO UPDATE: the numbers added and updated, and the tables.
  abbrev pub upsert_rules : Tables V → List AlertConfig → String → ℕ → ℕ × ℕ × Tables V
  upsert_rules t [] by' now = (0, 0, t)
  upsert_rules t (rule ∷ rules) by' now =
      let is_new = not (any (has_name rule.name) t.rules) in
      let rest =
        upsert_rules
          (if is_new then with_rule t rule true by' now else record t {
            rules = change (has_name rule.name) (imported rule by' now) t.rules;
            next_id = suc t.next_id;
          })
          rules by' now in
      if is_new then (suc rest.0, rest.1, rest.2) else (rest.0, suc rest.1, rest.2)

  abbrev pub import_checked :
      Tables V
      → Result TableError (List AlertConfig)
      → String
      → ℕ
      → Result TableError (ℕ × ℕ) × Tables V
  import_checked t (err e) by' now = (err e, t)
  import_checked t (ok rules) by' now = let r = upsert_rules t rules by' now in (ok (r.0, r.1), r.2)

  unfoldable pub import_rules :
      UrlParser → Tables V → List AlertConfig → String → ℕ → Result TableError (ℕ × ℕ) × Tables V
  import_rules parse_url t rules by' now = import_checked t (check_rules parse_url rules) by' now

  -- ORDER BY name, in the order of the database's collation.
  unfoldable pub alert_rules : (String → String → Bool) → Tables V → List AlertRule
  alert_rules before t = by_name before t.rules

  -- The rules the collector checks.
  unfoldable pub enabled_rules : (String → String → Bool) → Tables V → List AlertConfig
  enabled_rules before t =
      map (λ (r : AlertRule). r.rule)
        (by_name before (select (λ (r : AlertRule). r.enabled) t.rules))
