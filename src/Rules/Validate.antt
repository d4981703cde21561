-- ===== src/Rules/Validate.antt =====
-- AlertConfig.Validate and ParseRules (internal/alerts/rules.go). `Validate` writes the trimmed
-- name, channels, cluster and namespace back to the rule, so a rule that passes is returned. The
-- URL parser and the JSON decoder are not this program's: the first is the parameter `parse_url`,
-- and the rules that `ParseRules` checks are what the second decoded.
use sy_mon.Base.{
  ℕ, suc, ℤ, pos, ltb_ℤ, leb, String, len, Bool, false, ◌&&◌, ◌||◌, not, Option, none, some, List,
  [], ◌∷◌, map, if◌then◌else◌, ◌==◌, string_eq, int_eq, codes, upper, same_codes, is_empty,
  is_blank, trim_space, Result, ok, err, guard, ◌>>=◌, ◌>>◌, contains,
}
use sy_mon.Metric
use sy_mon.Rules.{AlertConfig, cert_days}

pub data RuleError : Type 0 where
  no_name long_name negative_interval empty_channel no_custom_metric no_servers empty_server :
      RuleError
  channel_twice unknown_op unknown_method unknown_metric : String → RuleError
  no_disk no_service bad_service_op no_cluster bad_endpoint bad_code negative_days : RuleError
  days_order no_metric : RuleError

-- What url.Parse says of an endpoint: its scheme and host.
pub record Url : Type 0 where
  pub scheme : String
  pub host : String

abbrev pub UrlParser : Type 0
UrlParser = String → Option Url

unfoldable pub threshold_ops : String → Bool
threshold_ops op = op == ">" || op == "<" || op == ">=" || op == "<=" || op == "==" || op == "!="

-- The loop over the channels: each is trimmed, and none may be empty or come twice.
unfoldable pub check_channels : List String → List String → Result RuleError (List String)
check_channels seen [] = ok []
check_channels seen (name ∷ names) = do
  let name' = trim_space name
  guard (not (is_empty name')) empty_channel
  guard (not (contains seen name')) (channel_twice name')
  rest ← check_channels (name' ∷ seen) names
  ok (name' ∷ rest)

unfoldable pub check_blank_servers : List String → Result RuleError (Unit {0})
check_blank_servers [] = ok tt
check_blank_servers (server ∷ servers) = do
  guard (not (is_blank server)) empty_server
  check_blank_servers servers

unfoldable pub check_servers : AlertConfig → Result RuleError (Unit {0})
unfolding check_blank_servers
check_servers rule = elim rule.servers [
  | [] ↦ err no_servers
  | _ ↦ check_blank_servers rule.servers
]

unfoldable pub check_op : AlertConfig → Result RuleError (Unit {0})
check_op rule = guard (threshold_ops rule.op) (unknown_op rule.op)

-- The cluster and the namespace are trimmed first.
unfoldable pub check_cluster : AlertConfig → Result RuleError AlertConfig
check_cluster rule =
    let rule' = record rule {
      cluster = trim_space rule.cluster;
      namespace = trim_space rule.namespace;
    } in
    guard (not (is_empty rule'.cluster)) no_cluster >> ok rule'

abbrev pub is_negative : Option ℤ → Bool
is_negative none = false
is_negative (some n) = ltb_ℤ n (pos 0)

abbrev pub is_web : Option Url → Bool
is_web none = false
is_web (some url) = (url.scheme == "http" || url.scheme == "https") && not (is_empty url.host)

-- strings.ToUpper(strings.TrimSpace(method)) is empty, GET, HEAD or POST.
unfoldable pub known_method : String → Bool
unfolding upper
known_method method =
    let name = map upper (codes (trim_space method)) in
    same_codes name (codes "")
    || same_codes name (codes "GET")
    || same_codes name (codes "HEAD")
    || same_codes name (codes "POST")

unfoldable pub days_in_order : ℤ × ℤ → Bool
days_in_order (warn, critical) = not (ltb_ℤ (pos 0) warn && ltb_ℤ warn critical)

unfoldable pub check_endpoint : UrlParser → AlertConfig → Result RuleError (Unit {0})
check_endpoint parse_url rule = do
  guard (is_web (parse_url rule.endpoint)) bad_endpoint
  guard (known_method rule.method) (unknown_method rule.method)
  guard
      (rule.expected_http_code == pos 0
        || not (ltb_ℤ rule.expected_http_code (pos 100) || ltb_ℤ (pos 599) rule.expected_http_code))
      bad_code
  guard (not (is_negative rule.cert_warn_days || is_negative rule.cert_critical_days)) negative_days
  guard (days_in_order (cert_days rule)) days_order

-- firstError(rule.checkServers(), rule.checkOp())
unfoldable pub check_servers_and_op : AlertConfig → Result RuleError (Unit {0})
check_servers_and_op rule = check_servers rule >> check_op rule

-- The switch over the metric of a rule that is not custom.
unfoldable pub check_metric : UrlParser → AlertConfig → Result RuleError AlertConfig
check_metric parse_url rule =
    if metric == Metric.proc_usage || metric == Metric.memory || metric == Metric.swap
    then check_servers_and_op rule >> ok rule
    else if metric == Metric.disks || metric == Metric.disk_forecast
    then guard (not (is_blank rule.disk)) no_disk >> (check_servers_and_op rule >> ok rule)
    else if metric == Metric.services
    then guard (not (is_blank rule.service)) no_service
      >> (guard (rule.op == "active" || rule.op == "inactive") bad_service_op
          >> (check_servers rule >> ok rule))
    else if metric == Metric.ping
    then check_servers rule >> ok rule
    else if metric == Metric.endpoint
    then check_endpoint parse_url rule >> ok rule
    else if metric == Metric.kube_node
        || metric == Metric.kube_workload
        || metric == Metric.kube_pending
    then check_cluster rule
    else if metric == Metric.kube_restarts
    then (check_cluster rule >>= λ rule'. check_op rule' >> ok rule')
    else if is_empty metric
    then err no_metric
    else err (unknown_metric metric)
  where
    open rule use {metric_name as metric}

unfoldable pub check_custom : AlertConfig → Result RuleError AlertConfig
check_custom rule =
    guard (not (is_blank rule.metric_name)) no_custom_metric
    >> (check_servers_and_op rule >> ok rule)

unfoldable pub check_watched : UrlParser → AlertConfig → Result RuleError AlertConfig
check_watched parse_url rule =
    if rule.is_custom then check_custom rule else check_metric parse_url rule

unfoldable pub validate : UrlParser → AlertConfig → Result RuleError AlertConfig
validate parse_url rule = do
  let rule' = record rule { name = trim_space rule.name }
  guard (not (is_empty rule'.name)) no_name
  guard (leb (len rule'.name) 100) long_name
  guard (not (ltb_ℤ rule'.trigger_intveral (pos 0))) negative_interval
  channels ← check_channels [] rule'.channels
  check_watched parse_url (record rule' { channels = channels })

pub data ParseError : Type 0 where
  in_rule : ℕ → String → RuleError → ParseError
  name_taken : ℕ → String → ParseError

abbrev pub at_rule : ℕ → String → Result RuleError AlertConfig → Result ParseError AlertConfig
at_rule i name (ok rule) = ok rule
at_rule i name (err e) = err (in_rule i name e)

-- The loop of ParseRules: `names` are the names so far, `i` counts from 1.
unfoldable pub parse_rules_from :
    UrlParser → ℕ → List String → List AlertConfig → Result ParseError (List AlertConfig)
parse_rules_from parse_url i names [] = ok []
parse_rules_from parse_url i names (rule ∷ rules) = do
  rule' ← at_rule i (trim_space rule.name) (validate parse_url rule)
  guard (not (contains names rule'.name)) (name_taken i rule'.name)
  rest ← parse_rules_from parse_url (suc i) (rule'.name ∷ names) rules
  ok (rule' ∷ rest)

unfoldable pub parse_rules : UrlParser → List AlertConfig → Result ParseError (List AlertConfig)
unfolding parse_rules_from
parse_rules parse_url rules = parse_rules_from parse_url 1 [] rules
