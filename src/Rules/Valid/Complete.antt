-- ===== src/Rules/Valid/Complete.antt =====
-- Validate on a rule that is valid (internal/alerts/rules.go).
use sy_mon.Base.{
  String, true, List, [], ◌≡◌, string_eq, int_eq, All, ◌∷◌, ok, refl, arith, inl, inr,
}
use text.Mathlib.TextEquality.{eq_iff}
use sy_mon.Rules.{AlertConfig}
use sy_mon.Rules.Validate.{
  UrlParser, validate, check_channels, check_blank_servers, check_servers, check_op, check_cluster,
  check_endpoint, check_metric, check_custom, check_watched, check_servers_and_op, threshold_ops,
}
use sy_mon.Rules.Valid.{
  NotBlank, ChannelNames, HasServers, HasCluster, WatchesEndpoint, Watches, custom, host_metric,
  disk_metric, service_metric, ping_metric, endpoint_metric, kube_state, kube_count, IsValid,
}

channels_pass :
    (seen names : List String) → ChannelNames seen names → check_channels seen names ≡ ok names
unfolding check_channels
channels_pass seen [] h = refl
channels_pass seen (name ∷ names) h =
    ground (arith, eq_iff name "", channels_pass (name ∷ seen) names h.3)

blank_pass : (servers : List String) → All NotBlank servers → check_blank_servers servers ≡ ok tt
unfolding check_blank_servers
blank_pass [] h = refl
blank_pass (s ∷ ss) h = ground (arith, blank_pass ss h.1)

servers_pass : (r : AlertConfig) → HasServers r → check_servers r ≡ ok tt
unfolding check_servers
servers_pass r h = ground (arith, blank_pass r.servers h.no_blank)

cluster_pass : (r : AlertConfig) → HasCluster r → check_cluster r ≡ ok r
unfolding check_cluster
cluster_pass r h = ground (arith, eq_iff r.cluster "")

endpoint_pass : (p : UrlParser) (r : AlertConfig) → WatchesEndpoint p r → check_endpoint p r ≡ ok tt
unfolding check_endpoint
endpoint_pass p r h = ground arith

servers_and_op_pass :
    (r : AlertConfig) → HasServers r → threshold_ops r.op ≡ true → check_servers_and_op r ≡ ok tt
unfolding check_servers_and_op check_op
servers_and_op_pass r s o = ground (arith, servers_pass r s)

-- Each kind of metric: the switch reaches its case.
watched_pass : (p : UrlParser) (r : AlertConfig) → Watches p r → check_watched p r ≡ ok r
unfolding check_watched check_custom check_metric check_op
watched_pass p r (custom c m s o) = simp (c, m, servers_and_op_pass r s o)
watched_pass p r (host_metric c (inl m) s o) = simp (c, m, servers_and_op_pass r s o)
watched_pass p r (host_metric c (inr (inl m)) s o) = simp (c, m, servers_and_op_pass r s o)
watched_pass p r (host_metric c (inr (inr m)) s o) = simp (c, m, servers_and_op_pass r s o)
watched_pass p r (disk_metric c (inl m) d s o) = simp (c, m, d, servers_and_op_pass r s o)
watched_pass p r (disk_metric c (inr m) d s o) = simp (c, m, d, servers_and_op_pass r s o)
watched_pass p r (service_metric c m d (inl o) s) = simp (c, m, d, o, servers_pass r s)
watched_pass p r (service_metric c m d (inr o) s) = simp (c, m, d, o, servers_pass r s)
watched_pass p r (ping_metric c m s) = simp (c, m, servers_pass r s)
watched_pass p r (endpoint_metric c m w) = simp (c, m, endpoint_pass p r w)
watched_pass p r (kube_state c (inl m) k) = simp (c, m, cluster_pass r k)
watched_pass p r (kube_state c (inr (inl m)) k) = simp (c, m, cluster_pass r k)
watched_pass p r (kube_state c (inr (inr m)) k) = simp (c, m, cluster_pass r k)
watched_pass p r (kube_count c m k o) = simp (c, m, cluster_pass r k, o)

pub validate-IsValid_unchanged :
    (p : UrlParser) (r : AlertConfig) → IsValid p r → validate p r ≡ ok r
unfolding validate
validate-IsValid_unchanged p r h = rw (h.name_trimmed) (
    ground (
      arith,
      eq_iff r.name "",
      channels_pass [] r.channels h.channel_names,
      watched_pass p r h.watches,
    ))
