-- ===== src/Examples/Editing.antt =====
-- Rules that the theorems on the rules table are applied to.
use sy_mon.Base.{ℤ, true, false, none, [], ◌∷◌, ok, ◌≡◌, refl, trim_space}
use sy_mon.Rules.Validate.{
  UrlParser, validate, check_channels, check_watched, check_metric, check_servers,
  check_blank_servers, check_op, check_cluster, check_servers_and_op, check_endpoint, check_custom,
}
use sy_mon.Alerts.Store.{Alerts}
use sy_mon.RuleTable.{Tables, RuleSetup, default_heartbeat, create_rule, update_rule}
use sy_mon.RuleTable.Steps.{TablesOk, start, then', created, no_rules, Reachable-rules}
use sy_mon.RuleTable.Resolved.{Updated, update_rule-Updated}

abbrev no_urls : UrlParser
no_urls = λ url. none

abbrev none_open : Alerts ℤ
none_open = record { hosts = []; rows = []; next_id = 1 }

abbrev empty_tables : Tables ℤ
empty_tables = no_rules none_open []

abbrev with_heartbeat : Tables ℤ
with_heartbeat = (create_rule no_urls empty_tables default_heartbeat true "ann" 5).1

Reachable-rules_example : TablesOk no_urls with_heartbeat
Reachable-rules_example =
    Reachable-rules {p = no_urls}
      (then' (start none_open []) (created default_heartbeat true "ann" 5))

heartbeat_disabled :
    (update_rule no_urls with_heartbeat 1 default_heartbeat false "ann" 9).0 ≡ ok tt
unfolding update_rule create_rule validate check_channels check_watched check_metric check_servers
    check_blank_servers check_op check_cluster check_servers_and_op check_endpoint check_custom
    trim_space
heartbeat_disabled = refl

update_rule-Updated_example :
    Updated no_urls default_heartbeat 1 false with_heartbeat
      (update_rule no_urls with_heartbeat 1 default_heartbeat false "ann" 9).1
update_rule-Updated_example =
    update_rule-Updated no_urls with_heartbeat 1 default_heartbeat false "ann" 9 heartbeat_disabled

abbrev first_setup : RuleSetup
first_setup = record { done = false; imported = 0; added = default_heartbeat.name ∷ [] }
