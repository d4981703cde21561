-- ===== src/Kube/Targets.antt =====
-- The nodes and workloads that a cluster's rule checks (`kubeTargets` and `podReason` of
-- collector/kube.go).
use sy_mon.Base.{
  ℕ, ◌+◌, ◌*◌, String, Bool, true, false, ◌||◌, none, some, List, [], ◌∷◌, ◌++◌, map, if◌then◌else◌,
  ◌==◌, nat_eq, string_eq, ltb, ℤ, pos, concat, is_empty, contains, select, length, lookup, Float64,
}
use sy_mon.Metric.{kube_node, kube_workload, kube_pending, kube_restarts}
use sy_mon.Rules.{AlertConfig}
use sy_mon.Alerts.Data.{second}
use sy_mon.Kube.Types.{
  Node, Workload, PodContainer, Pod, ClusterState, key_of, missing, workload_key,
}

pub record KubeTarget (V : Type 0) : Type 0 where
  pub target : String
  pub value : V
  pub reason : String

-- `Stale`: 90 seconds, in the unit of the clock
abbrev pub is_stale {κ} : {V : Type κ} → ClusterState V → ℕ → Bool
is_stale state now = ltb (state.time * second + 90 * second) now

-- strings.Join(…, ", ")
abbrev pub join : List String → String
join [] = ""
join (s ∷ []) = s
join (s ∷ t ∷ ts) = concat (s ∷ ", " ∷ join (t ∷ ts) ∷ [])

abbrev pub in_namespace : AlertConfig → String → Bool
in_namespace rule ns = is_empty rule.namespace || rule.namespace == ns

-- `add`: a key is kept once, in the order of its first appearance.
abbrev pub add : List String → String → List String
add keys key = if contains keys key then keys else keys ++ key ∷ []

abbrev pub add_workloads : AlertConfig → List String → List Workload → List String
add_workloads rule keys [] = keys
add_workloads rule keys (w ∷ ws) =
    add_workloads rule (if in_namespace rule w.namespace then add keys (key_of w) else keys) ws

abbrev pub add_pods : AlertConfig → List String → List Pod → List String
add_pods rule keys [] = keys
add_pods rule keys (p ∷ ps) =
    add_pods rule (if in_namespace rule p.namespace then add keys (workload_key p) else keys) ps

-- The workloads in the rule's namespace and, for all but the workload metric, the pods' keys.
unfoldable pub kube_keys {κ} : {V : Type κ} → AlertConfig → ClusterState V → List String
kube_keys rule state =
    let keys = add_workloads rule [] state.workloads in
    if rule.metric_name == kube_workload then keys else add_pods rule keys state.pods

-- `pods[key]` for a key that was added.
abbrev pub pods_of : String → List Pod → List Pod
pods_of key ps = select (λ (p : Pod). workload_key p == key) ps

abbrev pub is_pending : Pod → Bool
is_pending p = p.phase == "Pending"

unfoldable pub pending_of : String → List Pod → List Pod
pending_of key ps = select is_pending (pods_of key ps)

abbrev pub first_reason : List String → String
first_reason [] = ""
first_reason (r ∷ rs) = if is_empty r then first_reason rs else r

abbrev pub last_reasons : List Pod → List String
last_reasons [] = []
last_reasons (p ∷ ps) = map (λ (c : PodContainer). c.last_reason) p.containers ++ last_reasons ps

unfoldable pub pod_reason : List Pod → Bool → String
pod_reason ps last_run =
    first_reason (map (λ (p : Pod). p.reason) ps ++ (if last_run then last_reasons ps else []))

-- restarts[key]: a Go map gives zero for a missing key
abbrev pub count_at : String → List (String × ℤ) → ℤ
count_at key restarts = elim (lookup key restarts) [ none ↦ pos 0 | some n ↦ n ]

module _ {V : Type 0} ⦃f : Float64 V⦄ where
  abbrev node_target : Node V → KubeTarget V
  node_target n = record {
    target = n.name;
    value = f.of_int (if n.ready then pos 0 else pos 1);
    reason = join n.pressure;
  }

  abbrev workload_target : List Pod → Workload → KubeTarget V
  workload_target ps w = record {
    target = key_of w;
    value = f.of_int (missing w);
    reason = pod_reason (pods_of (key_of w) ps) false;
  }

  abbrev pub pending_target : List Pod → String → KubeTarget V
  pending_target ps key = record {
    target = key;
    value = f.of_int (pos (length (pending_of key ps)));
    reason = pod_reason (pending_of key ps) false;
  }

  abbrev restart_target : List Pod → List (String × ℤ) → String → KubeTarget V
  restart_target ps restarts key = record {
    target = key;
    value = f.of_int (count_at key restarts);
    reason = pod_reason (pods_of key ps) true;
  }

  unfoldable pub kube_targets :
      AlertConfig → ClusterState V → List (String × ℤ) → List (KubeTarget V)
  unfolding kube_keys pending_of pod_reason lookup
  kube_targets rule state restarts =
      if rule.metric_name == kube_node
      then map node_target state.nodes
      else if rule.metric_name == kube_workload
      then map (workload_target state.pods)
          (select (λ (w : Workload). in_namespace rule w.namespace) state.workloads)
      else if rule.metric_name == kube_pending
      then map (pending_target state.pods) (kube_keys rule state)
      else if rule.metric_name == kube_restarts
      then map (restart_target state.pods restarts) (kube_keys rule state)
      else []
