-- ===== src/Alerts/Status.antt =====
-- How a value of a rule is judged (collector/evaluator.go, collector/alerts.go and
-- collector/endpoints.go).
use sy_mon.Base.{
  ℤ, pos, ◌≤ℤ◌, wrap_64, scale, String, Bool, ◌&&◌, ◌||◌, not, Option, none, some, List, [], ◌∷◌,
  if◌then◌else◌, ◌==◌, string_eq, int_eq, Float64, less, same, at_most, of_int, to_int, concat,
  contains,
}
use sy_mon.Metric
use sy_mon.Metric.{is_kube}
use sy_mon.Rules.{AlertConfig, cert_days, all_hosts}
use sy_mon.Alerts.Data.{StatusType, normal, warning, critical, second}

-- The hosts a rule checks: endpoint and kubernetes rules have none, "*" is every registered host.
unfoldable pub rule_hosts : AlertConfig → List String → List String
unfolding is_kube
rule_hosts rule hosts =
    if rule.metric_name == Metric.endpoint || is_kube rule.metric_name
    then "" ∷ []
    else if contains rule.servers all_hosts
    then hosts
    else rule.servers

-- The disk, service or URL a rule watches, empty for other metrics.
unfoldable pub rule_target : AlertConfig → String
rule_target rule =
    if metric == Metric.disks || metric == Metric.disk_forecast
    then rule.disk
    else if metric == Metric.services
    then rule.service
    else if metric == Metric.endpoint || metric == Metric.certificate
    then rule.endpoint
    else ""
  where
    open rule use {metric_name as metric}

-- The name of a rule's target on a host in the evaluator's maps.
unfoldable pub alert_key : String → AlertConfig → String → String
alert_key host rule target =
    concat (host ∷ "|" ∷ rule.name ∷ "|" ∷ rule.metric_name ∷ "|" ∷ target ∷ [])

-- The status code an endpoint rule wants, 200 when unset.
unfoldable pub expected_code : AlertConfig → ℤ
expected_code rule = if rule.expected_http_code == pos 0 then pos 200 else rule.expected_http_code

-- The trigger interval in nanoseconds: a product of 64 bits.
unfoldable pub trigger_interval : AlertConfig → ℤ
trigger_interval rule = wrap_64 (scale rule.trigger_intveral second)

-- An interval that is not negative and, in nanoseconds, not more than 64 bits hold.
abbrev pub FitsDuration : AlertConfig → Type 0
FitsDuration rule = (pos 0 ≤ℤ rule.trigger_intveral) × (rule.trigger_intveral ≤ℤ pos 9223372036)

-- The alert on an HTTPS endpoint rule's certificate, none when the rule has none.
unfoldable pub certificate_rule : AlertConfig → Option AlertConfig
unfolding cert_days
certificate_rule rule =
    let (warn, crit) = cert_days rule in
    if warn == pos 0 && crit == pos 0
    then none
    else some (record rule {
      metric_name = Metric.certificate;
      op = "<";
      warn_threshold = warn;
      critical_threshold = crit;
      trigger_intveral = pos 0;
    })

-- The first level that the value reaches.
abbrev pub level : Bool → Bool → StatusType
level at_critical at_warning =
    if at_critical then critical else if at_warning then warning else normal

module _ {V : Type 0} ⦃f : Float64 V⦄ where
  unfoldable pub get_alert_type : AlertConfig → V → StatusType
  get_alert_type alert val =
      if op == "=="
      then level (same val crit) (same val warn)
      else if op == "!="
      then level (not (same val crit)) (not (same val warn))
      else if op == ">"
      then level (less crit val) (less warn val)
      else if op == "<"
      then level (less val crit) (less val warn)
      else if op == ">="
      then level (at_most crit val) (at_most warn val)
      else if op == "<="
      then level (at_most val crit) (at_most val warn)
      else if op == "inactive"
      then (if same val (of_int (pos 0)) then critical else normal)
      else if op == "active"
      then (if same val (of_int (pos 1)) then critical else normal)
      else normal
    where
      open alert use {op}

      crit : V
      crit = of_int alert.critical_threshold

      warn : V
      warn = of_int alert.warn_threshold

  -- A host is critical once it is silent longer than the trigger interval, an endpoint while it
  -- answers with another code, a kubernetes target while its value is above 0.
  unfoldable pub rule_status : AlertConfig → V → StatusType
  unfolding get_alert_type expected_code
  rule_status rule value =
      if metric == Metric.endpoint
      then (if not (to_int value == expected_code rule) then critical else normal)
      else if metric == Metric.ping
      then (if less (of_int rule.trigger_intveral) value then critical else normal)
      else if metric == Metric.kube_node
          || metric == Metric.kube_workload
          || metric == Metric.kube_pending
      then (if less (of_int (pos 0)) value then critical else normal)
      else get_alert_type rule value
    where
      open rule use {metric_name as metric}
