-- ===== src/Rules/Valid.antt =====
-- What a rule has to be, said without the code of internal/alerts/rules.go: the specification of
-- Validate. Its children relate the two.
pub mod Sound
pub mod Complete
pub mod Parse
use Prim.Native.Nat.{◌≤◌}
use sy_mon.Base.{
  ℤ, pos, ltb_ℤ, ◌≤ℤ◌, String, len, Bool, true, false, ◌||◌, not, Option, none, some, List, [],
  if◌then◌else◌, ◌==◌, ◌≡◌, ◌≢◌, ◌⊎◌, string_eq, int_eq, is_blank, trim_space, contains, All, ◌∷◌,
}
use sy_mon.Metric
use sy_mon.Rules.{AlertConfig, cert_days}
use sy_mon.Rules.Validate.{
  UrlParser, Url, threshold_ops, known_method, days_in_order, is_web, is_negative,
}

abbrev pub NotBlank : String → Type 0
NotBlank s = is_blank s ≡ false

-- Trimmed, not empty and all different, also from the names in `seen`.
abbrev pub ChannelNames : List String → List String → Type 0
ChannelNames seen [] = Unit
ChannelNames seen (name ∷ names) =
    (trim_space name ≡ name)
    × (name ≢ "")
    × (contains seen name ≡ false)
    × ChannelNames (name ∷ seen) names

pub record HasServers (r : AlertConfig) : Type 0 where
  pub some_server : r.servers ≢ []
  pub no_blank : All NotBlank r.servers

-- An endpoint rule's own fields.
pub record WatchesEndpoint (parse_url : UrlParser) (r : AlertConfig) : Type 0 where
  pub url : is_web (parse_url r.endpoint) ≡ true
  pub method : known_method r.method ≡ true
  pub code :
      (r.expected_http_code ≡ pos 0)
      ⊎ ((pos 100 ≤ℤ r.expected_http_code) × (r.expected_http_code ≤ℤ pos 599))
  pub warn_days : is_negative r.cert_warn_days ≡ false
  pub critical_days : is_negative r.cert_critical_days ≡ false
  pub order : days_in_order (cert_days r) ≡ true

pub record HasCluster (r : AlertConfig) : Type 0 where
  pub cluster_trimmed : trim_space r.cluster ≡ r.cluster
  pub namespace_trimmed : trim_space r.namespace ≡ r.namespace
  pub cluster_set : r.cluster ≢ ""

-- What a rule needs for its metric, a case for each kind of metric.
pub data Watches (parse_url : UrlParser) (r : AlertConfig) : Type 0 where
  custom :
      r.is_custom ≡ true
      → NotBlank r.metric_name
      → HasServers r
      → threshold_ops r.op ≡ true
      → Watches parse_url r
  host_metric :
      r.is_custom ≡ false
      → (r.metric_name ≡ Metric.proc_usage)
        ⊎ (r.metric_name ≡ Metric.memory)
        ⊎ (r.metric_name ≡ Metric.swap)
      → HasServers r
      → threshold_ops r.op ≡ true
      → Watches parse_url r
  disk_metric :
      r.is_custom ≡ false
      → (r.metric_name ≡ Metric.disks) ⊎ (r.metric_name ≡ Metric.disk_forecast)
      → NotBlank r.disk
      → HasServers r
      → threshold_ops r.op ≡ true
      → Watches parse_url r
  service_metric :
      r.is_custom ≡ false
      → r.metric_name ≡ Metric.services
      → NotBlank r.service
      → (r.op ≡ "active") ⊎ (r.op ≡ "inactive")
      → HasServers r
      → Watches parse_url r
  ping_metric :
      r.is_custom ≡ false → r.metric_name ≡ Metric.ping → HasServers r → Watches parse_url r
  endpoint_metric :
      r.is_custom ≡ false
      → r.metric_name ≡ Metric.endpoint
      → WatchesEndpoint parse_url r
      → Watches parse_url r
  kube_state :
      r.is_custom ≡ false
      → (r.metric_name ≡ Metric.kube_node)
        ⊎ (r.metric_name ≡ Metric.kube_workload)
        ⊎ (r.metric_name ≡ Metric.kube_pending)
      → HasCluster r
      → Watches parse_url r
  kube_count :
      r.is_custom ≡ false
      → r.metric_name ≡ Metric.kube_restarts
      → HasCluster r
      → threshold_ops r.op ≡ true
      → Watches parse_url r

pub record IsValid (parse_url : UrlParser) (r : AlertConfig) : Type 0 where
  pub name_trimmed : trim_space r.name ≡ r.name
  pub name_set : r.name ≢ ""
  pub name_short : len r.name ≤ 100
  pub interval : pos 0 ≤ℤ r.trigger_intveral
  pub channel_names : ChannelNames [] r.channels
  pub watches : Watches parse_url r
