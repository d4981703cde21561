-- ===== src/Rules/Valid/Sound.antt =====
-- The rules that pass Validate (internal/alerts/rules.go).
use text.Mathlib.TextEquality.{eq_iff}
use sy_mon.Base.{
  pos, ltb_ℤ, String, len, Bool, true, false, ◌||◌, not, List, [], if◌then◌else◌, ◌==◌, ◌≡◌, ◌⊎◌,
  string_eq, int_eq, is_blank, trim_space, All, ◌∷◌, Result, ok, err, refl, arith, guard, ◌>>=◌,
  ◌>>◌, OnOk, OnOk->>=, leb, OnOk-guard, is_empty, trim_space_idem,
}
use sy_mon.Metric
use sy_mon.Rules.{AlertConfig}
use sy_mon.Rules.Validate.{
  UrlParser, validate, check_channels, check_blank_servers, check_servers, check_op, check_cluster,
  check_endpoint, check_metric, check_custom, check_watched, check_servers_and_op, threshold_ops,
  no_disk, no_service, bad_service_op, RuleError,
}
use sy_mon.Rules.Valid.{
  NotBlank, ChannelNames, HasServers, HasCluster, WatchesEndpoint, Watches, custom, host_metric,
  disk_metric, service_metric, ping_metric, endpoint_metric, kube_state, kube_count, IsValid,
}

channels_sound : (seen names : List String) → OnOk (ChannelNames seen) (check_channels seen names)
unfolding check_channels
channels_sound seen [] = tt
channels_sound seen (name ∷ names) = ground (
  arith,
  trim_space_idem name,
  eq_iff (trim_space name) "",
  channels_sound (trim_space name ∷ seen) names,
)

blank_sound :
    (servers : List String) → OnOk (λ _. All NotBlank servers) (check_blank_servers servers)
unfolding check_blank_servers
blank_sound [] = tt
blank_sound (s ∷ ss) = ground (arith, blank_sound ss)

servers_sound : (r : AlertConfig) → OnOk (λ _. HasServers r) (check_servers r)
unfolding check_servers
servers_sound r = ground (arith, blank_sound r.servers)

-- The rule that `check_cluster` returns.
trimmed : AlertConfig → AlertConfig
trimmed r = record r { cluster = trim_space r.cluster; namespace = trim_space r.namespace }

cluster_sound :
    (r : AlertConfig) → not (is_empty (trim_space r.cluster)) ≡ true → HasCluster (trimmed r)
unfolding trimmed
cluster_sound r h = ground (
  arith,
  trim_space_idem r.cluster,
  trim_space_idem r.namespace,
  eq_iff (trim_space r.cluster) "",
)

endpoint_sound :
    (p : UrlParser) (r : AlertConfig) → OnOk (λ _. WatchesEndpoint p r) (check_endpoint p r)
unfolding check_endpoint
endpoint_sound p r = ground arith

servers_and_op_sound :
    (r : AlertConfig)
    → OnOk (λ _. HasServers r × (threshold_ops r.op ≡ true)) (check_servers_and_op r)
unfolding check_servers_and_op check_op
servers_and_op_sound r = ground (arith, servers_sound r)

-- The metric's checks leave the other fields alone.
pub record Keeps (r r' : AlertConfig) : Type 0 where
  pub name : r'.name ≡ r.name
  pub channels : r'.channels ≡ r.channels
  pub interval : r'.trigger_intveral ≡ r.trigger_intveral

abbrev Good : UrlParser → AlertConfig → AlertConfig → Type 0
Good p r r' = Keeps r r' × Watches p r'

as_is : {p : UrlParser} {r : AlertConfig} → Watches p r → Good p r r
as_is w = (record { name = refl; channels = refl; interval = refl }, w)

not-true : (b : Bool) → not b ≡ true → b ≡ false
not-true b h = ground arith

custom_sound :
    (p : UrlParser) (r : AlertConfig) → r.is_custom ≡ true → OnOk (Good p r) (check_custom r)
unfolding check_custom
custom_sound p r c = OnOk-guard (Good p r) (not (is_blank r.metric_name)) _ _ λ n.
    OnOk->>= _ (Good p r) (check_servers_and_op r) _ (servers_and_op_sound r)
      λ _ h. as_is (custom c (not-true _ n) h.0 h.1)

-- An `if` whose two branches have the property.
OnOk-if {ℓ κ μ} :
    {E : Type ℓ} {A : Type κ} (Q : A → Type μ) (t : Bool) (m n : Result E A)
    → (t ≡ true → OnOk Q m)
    → (t ≡ false → OnOk Q n)
    → OnOk Q (if t then m else n)
OnOk-if Q true m n h k = h refl
OnOk-if Q false m n h k = k refl

or_cases : (a b : Bool) → (a || b) ≡ true → (a ≡ true) ⊎ (b ≡ true)
or_cases a b h = ground arith

name_eq : (s t : String) → (s == t) ≡ true → s ≡ t
name_eq s t = (eq_iff s t).0

-- The metric is one of three.
one_of_three :
    (m a b c : String) → (m == a || m == b || m == c) ≡ true → (m ≡ a) ⊎ (m ≡ b) ⊎ (m ≡ c)
one_of_three m a b c h = ground (arith, eq_iff m a, eq_iff m b, eq_iff m c)

one_of_two : (m a b : String) → (m == a || m == b) ≡ true → (m ≡ a) ⊎ (m ≡ b)
one_of_two m a b h = ground (arith, eq_iff m a, eq_iff m b)

no_success :
    (p : UrlParser) (r : AlertConfig) (t : Bool) (d e : RuleError)
    → OnOk (Good p r) (if t then err d else err e)
no_success p r true d e = tt
no_success p r false d e = tt

module _ (p : UrlParser) (r : AlertConfig) (c : r.is_custom ≡ false) where
  host_sound :
      (r.metric_name ≡ Metric.proc_usage)
        ⊎ (r.metric_name ≡ Metric.memory)
        ⊎ (r.metric_name ≡ Metric.swap)
      → OnOk (Good p r) (check_servers_and_op r >> ok r)
  host_sound m =
      OnOk->>= _ (Good p r) (check_servers_and_op r) _ (servers_and_op_sound r)
        λ _ h. as_is (host_metric c m h.0 h.1)

  disk_sound :
      (r.metric_name ≡ Metric.disks) ⊎ (r.metric_name ≡ Metric.disk_forecast)
      → OnOk (Good p r) (guard (not (is_blank r.disk)) no_disk >> (check_servers_and_op r >> ok r))
  disk_sound m = OnOk-guard (Good p r) (not (is_blank r.disk)) _ _ λ d.
      OnOk->>= _ (Good p r) (check_servers_and_op r) _ (servers_and_op_sound r)
        λ _ h. as_is (disk_metric c m (not-true _ d) h.0 h.1)

  service_sound :
      r.metric_name ≡ Metric.services
      → OnOk (Good p r) (
          guard (not (is_blank r.service)) no_service
          >> (guard (r.op == "active" || r.op == "inactive") bad_service_op
              >> (check_servers r >> ok r)))
  service_sound m = OnOk-guard (Good p r) (not (is_blank r.service)) _ _ λ d.
      OnOk-guard (Good p r) (r.op == "active" || r.op == "inactive") _ _ λ o.
        OnOk->>= _ (Good p r) (check_servers r) _ (servers_sound r)
          λ _ h. as_is (service_metric c m (not-true _ d) (one_of_two r.op "active" "inactive" o) h)

  kube_state_sound :
      (r.metric_name ≡ Metric.kube_node)
        ⊎ (r.metric_name ≡ Metric.kube_workload)
        ⊎ (r.metric_name ≡ Metric.kube_pending)
      → OnOk (Good p r) (check_cluster r)
  unfolding check_cluster trimmed
  kube_state_sound m = OnOk-guard (Good p r) (not (is_empty (trim_space r.cluster))) _ _ λ n.
      (record { name = refl; channels = refl; interval = refl }, kube_state c m (cluster_sound r n))

  kube_count_sound :
      r.metric_name ≡ Metric.kube_restarts
      → OnOk (Good p r) (check_cluster r >>= λ r'. check_op r' >> ok r')
  unfolding check_cluster check_op trimmed
  kube_count_sound m =
      OnOk->>=
        (λ r'.
          Keeps r r'
          × HasCluster r'
          × (r'.is_custom ≡ false)
          × (r'.metric_name ≡ Metric.kube_restarts))
        (Good p r) (check_cluster r) _
        (OnOk-guard _ (not (is_empty (trim_space r.cluster))) _ _
          λ n. (record { name = refl; channels = refl; interval = refl }, cluster_sound r n, c, m))
        λ r' h. OnOk-guard (Good p r) (threshold_ops r'.op) _ _ λ o. (h.0, kube_count h.2 h.3 h.1 o)

  endpoint_rule_sound :
      r.metric_name ≡ Metric.endpoint → OnOk (Good p r) (check_endpoint p r >> ok r)
  endpoint_rule_sound m =
      OnOk->>= _ (Good p r) (check_endpoint p r) _ (endpoint_sound p r)
        λ _ h. as_is (endpoint_metric c m h)

  ping_sound : r.metric_name ≡ Metric.ping → OnOk (Good p r) (check_servers r >> ok r)
  ping_sound m =
      OnOk->>= _ (Good p r) (check_servers r) _ (servers_sound r) λ _ h. as_is (ping_metric c m h)

  metric_sound : OnOk (Good p r) (check_metric p r)
  unfolding check_metric
  metric_sound =
      OnOk-if (Good p r) _ _ _ (λ m. host_sound (one_of_three _ _ _ _ m))
        λ _.
          OnOk-if (Good p r) _ _ _ (λ m. disk_sound (one_of_two _ _ _ m))
            λ _.
              OnOk-if (Good p r) _ _ _ (λ m. service_sound (name_eq _ _ m))
                λ _.
                  OnOk-if (Good p r) _ _ _ (λ m. ping_sound (name_eq _ _ m))
                    λ _.
                      OnOk-if (Good p r) _ _ _ (λ m. endpoint_rule_sound (name_eq _ _ m))
                        λ _.
                          OnOk-if (Good p r) _ _ _ (λ m. kube_state_sound (one_of_three _ _ _ _ m))
                            λ _.
                              OnOk-if (Good p r) _ _ _ (λ m. kube_count_sound (name_eq _ _ m))
                                λ _. no_success p r (is_empty r.metric_name) _ _

watched_sound : (p : UrlParser) (r : AlertConfig) → OnOk (Good p r) (check_watched p r)
unfolding check_watched
watched_sound p r =
    OnOk-if (Good p r) r.is_custom _ _ (λ c. custom_sound p r c) (λ c. metric_sound p r c)

IsValid-of_parts :
    (p : UrlParser) (r r' : AlertConfig)
    → trim_space r.name ≡ r.name
    → not (is_empty r.name) ≡ true
    → leb (len r.name) 100 ≡ true
    → not (ltb_ℤ r.trigger_intveral (pos 0)) ≡ true
    → ChannelNames [] r.channels
    → Keeps r r'
    → Watches p r'
    → IsValid p r'
IsValid-of_parts p r r' t n l i c k w = record {
  name_trimmed = ground arith;
  name_set = ground (arith, eq_iff r.name "");
  name_short = ground arith;
  interval = ground arith;
  channel_names = rw k.channels c;
  watches = w;
}

OnOk-map {ℓ κ μ ν} :
    {E : Type ℓ} {A : Type κ} (P : A → Type μ) (Q : A → Type ν) (m : Result E A)
    → ((a : A) → P a → Q a)
    → OnOk P m
    → OnOk Q m
OnOk-map P Q (ok a) k h = k a h
OnOk-map P Q (err e) k h = tt

-- A rule that Validate accepts is valid, and its name is the old one, trimmed.
pub validate-OnOk :
    (p : UrlParser) (r : AlertConfig)
    → OnOk (λ r'. IsValid p r' × (r'.name ≡ trim_space r.name)) (validate p r)
unfolding validate
validate-OnOk p r = OnOk-guard Accepted (not (is_empty (trim_space r.name))) _ _ λ n.
    OnOk-guard Accepted (leb (len (trim_space r.name)) 100) _ _ λ l.
      OnOk-guard Accepted (not (ltb_ℤ r.trigger_intveral (pos 0))) _ _ λ i.
        OnOk->>= (ChannelNames []) Accepted (check_channels [] r.channels) _
          (channels_sound [] r.channels)
          λ names k.
            let r1 = record r { name = trim_space r.name; channels = names } in
            OnOk-map (Good p r1) Accepted (check_watched p r1)
              (λ r' h.
                (IsValid-of_parts p r1 r' (trim_space_idem r.name) n l i k h.0 h.1, h.0.name))
              (watched_sound p r1)
  where
    Accepted : AlertConfig → Type 0
    Accepted r' = IsValid p r' × (r'.name ≡ trim_space r.name)
