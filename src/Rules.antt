-- ===== src/Rules.antt =====
-- Alert rules (internal/alerts/alert.go). A Go `int` is ℤ, a nil pointer is `none`.
pub mod Validate
pub mod Valid
use sy_mon.Metric
use sy_mon.Base.{
  ℤ, pos, String, Bool, true, ◌||◌, not, Option, none, some, List, map, if◌then◌else◌, ◌==◌,
  string_eq, lower, codes, codes_start_with,
}

-- A rule in whose `servers` this stands is for every registered host.
abbrev pub all_hosts : String
all_hosts = "*"

pub record AlertConfig : Type 0 where
  pub name : String
  pub description : String
  pub metric_name : String
  pub is_custom : Bool
  pub op : String
  pub template : String
  pub warn_threshold : ℤ
  pub critical_threshold : ℤ
  pub trigger_intveral : ℤ
  pub servers : List String
  pub endpoint : String
  pub expected_http_code : ℤ
  pub method : String
  pub custom_ca_cert : String
  pub post_content_type : String
  pub post_body : String
  pub disk : String
  pub service : String
  pub cluster : String
  pub namespace : String
  pub channels : List String
  pub email : Bool
  pub pagerduty : Bool
  pub slack : Bool
  pub slack_channel : String
  pub cert_warn_days : Option ℤ
  pub cert_critical_days : Option ℤ

abbrev pub default_cert_warn_days : ℤ
default_cert_warn_days = pos 14

abbrev pub default_cert_critical_days : ℤ
default_cert_critical_days = pos 3

abbrev pub or_default : Option ℤ → ℤ → ℤ
or_default none d = d
or_default (some n) d = n

-- strings.HasPrefix(strings.ToLower(url), "https://")
unfoldable pub is_https : String → Bool
unfolding lower
is_https url = codes_start_with (map lower (codes url)) (codes "https://")

-- The days left at which an endpoint's certificate alert turns warning and critical.
unfoldable pub cert_days : AlertConfig → ℤ × ℤ
cert_days rule =
    if not (rule.metric_name == Metric.endpoint) || not (is_https rule.endpoint)
    then (pos 0, pos 0)
    else (
      or_default rule.cert_warn_days default_cert_warn_days,
      or_default rule.cert_critical_days default_cert_critical_days,
    )
