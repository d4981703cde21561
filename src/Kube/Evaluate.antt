-- ===== src/Kube/Evaluate.antt =====
-- A cluster's rule checked against its newest state (`evaluateCluster` and `resolveGone` of
-- collector/kube.go). What the store has of the cluster and of its restarts is an argument.
use sy_mon.Base.{
  ℕ, ◌*◌, String, code, ℤ, pos, Bool, true, false, ◌||◌, not, Option, none, some, List, [], ◌∷◌,
  if◌then◌else◌, ◌==◌, string_eq, nat_eq, Float64, of_int, concat, contains, insert,
}
use sy_mon.Metric.{kube_restarts}
use sy_mon.Rules.{AlertConfig}
use sy_mon.Alerts.Data.{normal, resolved, Alert, Notice, second}
use sy_mon.Alerts.Status.{alert_key}
use sy_mon.Alerts.Text.{Format, kube_gone_text}
use sy_mon.Alerts.Store.{list_alerts}
use sy_mon.Alerts.Evaluator.{
  Evaluator, M, ◌>>=◌, ◌>>◌, return, modify, gets, query, resolve_alert, notify, message, check,
}
use sy_mon.Kube.Types.{ClusterState}
use sy_mon.Kube.Targets.{KubeTarget, kube_targets, is_stale}

-- strings.CutPrefix
unfoldable pub cut_prefix : String → String → Option String
cut_prefix String.[] s = some s
cut_prefix (String.◌∷◌ c p) String.[] = none
cut_prefix (String.◌∷◌ c p) (String.◌∷◌ d s) =
    let rest = cut_prefix p s in if code c == code d then rest else none

abbrev pub is_gone : String → List String → String → Bool
is_gone prefix present key = elim (cut_prefix prefix key) [
  | none ↦ false
  | some target ↦ not (contains present target)
]

-- The loops that delete from the evaluator's maps.
unfoldable pub forget : {A : Type 0} → String → List String → List (String × A) → List (String × A)
unfolding cut_prefix
forget prefix present [] = []
forget prefix present ((key, a) ∷ m) =
    let rest = forget prefix present m in
    if is_gone prefix present key then rest else (key, a) ∷ rest

module _ {V : Type 0} where
  abbrev pub names_of : List (KubeTarget V) → List String
  names_of [] = []
  names_of (t ∷ ts) = t.target ∷ names_of ts

  unfoldable pub forget_gone : AlertConfig → List String → Evaluator V → Evaluator V
  unfolding forget alert_key
  forget_gone rule present e = record e {
    pending = forget (alert_key "" rule "") present e.pending;
    checked = forget (alert_key "" rule "") present e.checked;
    reasons = forget (concat (rule.name ∷ "|" ∷ [])) present e.reasons;
  }

module _ {V : Type 0} ⦃f : Float64 V⦄ (fmt : Format V) where
  unfoldable pub gone_notice : Evaluator V → AlertConfig → Alert V → ℕ → Notice V
  unfolding message kube_gone_text
  gone_notice e rule a at =
      record (message fmt e rule "" a.target a.id resolved normal (of_int (pos 0)) at) {
        subject = (kube_gone_text fmt rule a.target at).0;
        body = (kube_gone_text fmt rule a.target at).1;
      }

  unfoldable pub resolve_each : AlertConfig → List String → ℕ → List (Alert V) → M V (Unit {0})
  unfolding resolve_alert
  resolve_each rule present at [] = return tt
  resolve_each rule present at (a ∷ as') =
      let rest = resolve_each rule present at as' in
      if not (a.metric == rule.metric_name) || contains present a.target then rest else do
        resolve_alert a.id (of_int (pos 0)) at
        n ← gets λ e. gone_notice e rule a at
        notify n
        rest

  unfoldable pub resolve_gone : AlertConfig → List (KubeTarget V) → ℕ → M V (Unit {0})
  unfolding query list_alerts resolve_each forget_gone
  resolve_gone rule targets at = do
    query
    open' ← gets λ e.
        list_alerts e.alerts
          (record { host = ""; rule = rule.name; open_only = true; from = none; to = none })
    resolve_each rule (names_of targets) at open'
    modify (forget_gone rule (names_of targets))

  unfoldable pub check_targets : AlertConfig → ℕ → List (KubeTarget V) → M V (Unit {0})
  unfolding check insert
  check_targets rule at [] = return tt
  check_targets rule at (t ∷ ts) = do
    modify λ e. record e {
      reasons = insert (concat (rule.name ∷ "|" ∷ t.target ∷ [])) t.reason e.reasons;
    }
    check fmt rule "" t.target t.value at
    check_targets rule at ts

  -- RestartsSince, for the restart rule only
  abbrev query_restarts : AlertConfig → M V (Unit {0})
  query_restarts rule = if rule.metric_name == kube_restarts then query else return tt

  -- Store calls: the cluster's state and, for the restart rule, its restarts in the last hour.
  unfoldable pub evaluate_cluster :
      AlertConfig → Option (ClusterState V) → List (String × ℤ) → ℕ → M V (Unit {0})
  unfolding query check_targets resolve_gone kube_targets
  evaluate_cluster rule none restarts now = query
  evaluate_cluster rule (some state) restarts now = do
    query
    if is_stale state now then return tt else do
      query_restarts rule
      check_targets rule (state.time * second) (kube_targets rule state restarts)
      resolve_gone rule (kube_targets rule state restarts) (state.time * second)
