-- ===== src/Alerts/Evaluator.antt =====
-- The rule evaluator (collector/evaluator.go). Its state holds its maps, the alerts table and the
-- notices handed to `notify`, oldest first. Each store call may fail: `faults` says of the calls to
-- come which do, and none fails where the list has ended.
pub mod History
pub mod Tracks
pub mod Off
pub mod On
pub mod Step
pub mod Refines
pub mod Once
use sy_mon.Base.{
  ℕ, ℤ, pos, leb, sub_ℕ, saturate_64, ltb_ℤ, String, Bool, true, false, ◌&&◌, ◌||◌, not, Option,
  none, some, List, [], ◌∷◌, ◌++◌, if◌then◌else◌, ◌==◌, string_eq, nat_eq, int_eq, Float64, to_int,
  of_int, concat, lookup, insert, delete, Result, ok, err,
}
use sy_mon.Metric
use sy_mon.Metric.{is_kube}
use sy_mon.Rules.{AlertConfig}
use sy_mon.Alerts.Data.{
  StatusType, normal, warning, critical, Event, opened, changed, resolved, Alert, Notice,
  severity_of, is_normal,
}
use sy_mon.Alerts.Status.{rule_target, alert_key, rule_status, trigger_interval}
use sy_mon.Alerts.Text.{Format, endpoint_text, certificate_text, alert_text, kube_text}
use sy_mon.Alerts.Store
use sy_mon.Alerts.Store.{Alerts, StoreError, failure}

-- A status change that has not lasted the trigger interval yet.
pub record PendingStatus : Type 0 where
  pub status : StatusType
  pub since : ℕ

pub record Evaluator (V : Type 0) : Type 0 where
  pub alerts : Alerts V
  pub sent : List (Notice V)
  pub faults : List Bool
  pub pending : List (String × PendingStatus)
  pub checked : List (String × ℕ)
  pub check_errors : List (String × String)
  pub reasons : List (String × String)

-- A method of the evaluator: its result, or the error that it returns, and the evaluator after it.
abbrev pub M : Type 0 → Type 0 → Type 0
M V A = Evaluator V → Result StoreError A × Evaluator V

module _ {V : Type 0} where
  abbrev pub after :
      {A B : Type 0}
      → (A → M V B)
      → Result StoreError A × Evaluator V
      → Result StoreError B × Evaluator V
  after f (ok a, e) = f a e
  after f (err x, e) = (err x, e)

  infixl 5 ◌>>=◌ ◌>>◌
  abbrev pub ◌>>=◌ : {A B : Type 0} → M V A → (A → M V B) → M V B
  ◌>>=◌ m f e = after f (m e)

  abbrev pub ◌>>◌ : {B : Type 0} → M V (Unit {0}) → M V B → M V B
  m >> k = m >>= λ _. k

  abbrev pub return : {A : Type 0} → A → M V A
  return a e = (ok a, e)

  abbrev pub modify : (Evaluator V → Evaluator V) → M V (Unit {0})
  modify f e = (ok tt, f e)

  abbrev pub gets : {A : Type 0} → (Evaluator V → A) → M V A
  gets f e = (ok (f e), e)

  -- A call of the store: it fails if the next fault says so.
  abbrev fault : List Bool → Evaluator V → Result StoreError (Unit {0}) × Evaluator V
  fault [] e = (ok tt, e)
  fault (true ∷ faults) e = (err failure, record e { faults = faults })
  fault (false ∷ faults) e = (ok tt, record e { faults = faults })

  unfoldable pub query : M V (Unit {0})
  query e = fault e.faults e

  unfoldable pub open_alert : String → String → String → String → M V (Option (Alert V))
  open_alert host rule metric target = do
    query
    gets λ e. Store.open_alert e.alerts host rule metric target

  unfoldable pub create_alert : Alert V → M V ℕ
  create_alert a = do
    query
    λ e. let result = Store.create_alert e.alerts a in (result.0, record e { alerts = result.1 })

  unfoldable pub update_alert : ℕ → ℕ → V → ℕ → M V (Unit {0})
  update_alert id severity value at = do
    query
    modify λ e. record e { alerts = Store.update_alert e.alerts id severity value at }

  unfoldable pub resolve_alert : ℕ → V → ℕ → M V (Unit {0})
  resolve_alert id value at = do
    query
    modify λ e. record e { alerts = Store.resolve_alert e.alerts id value at }

  abbrev pub notify : Notice V → M V (Unit {0})
  notify n = modify λ e. record e { sent = e.sent ++ (n ∷ []) }

  unfoldable pub set_pending : String → PendingStatus → M V (Unit {0})
  set_pending key p = modify λ e. record e { pending = insert key p e.pending }

  unfoldable pub clear_pending : String → M V (Unit {0})
  clear_pending key = modify λ e. record e { pending = delete key e.pending }

abbrev or_empty : Option String → String
or_empty none = ""
or_empty (some s) = s

-- `p, ok := pending[key]`: there is one, and it waits for normal; there is one, and it does not.
abbrev pub waits_for_normal : Option PendingStatus → Bool
waits_for_normal none = false
waits_for_normal (some p) = is_normal p.status

abbrev pub waits_for_alert : Option PendingStatus → Bool
waits_for_alert none = false
waits_for_alert (some p) = not (is_normal p.status)

abbrev pub since_or : ℕ → Option PendingStatus → ℕ
since_or at none = at
since_or at (some p) = p.since

-- `at.Sub(since) < interval`: Sub gives the longest duration when the difference is longer.
unfoldable pub too_early : AlertConfig → ℕ → ℕ → Bool
unfolding trigger_interval
too_early rule at since = ltb_ℤ (saturate_64 (sub_ℕ at since)) (trigger_interval rule)

-- A sample that is not newer than the newest one seen.
abbrev pub is_seen : ℕ → Option ℕ → Bool
is_seen at none = false
is_seen at (some last) = leb at last

module _ {V : Type 0} ⦃f : Float64 V⦄ (fmt : Format V) where
  -- The subject and body, by the rule's metric.
  unfoldable pub message_text :
      Evaluator V → AlertConfig → String → String → StatusType → V → ℕ → String × String
  message_text e rule host target status value at =
      if is_kube metric
      then kube_text fmt rule target
          (or_empty (lookup (concat (rule.name ∷ "|" ∷ target ∷ [])) e.reasons)) status value at
      else if metric == Metric.endpoint
      then endpoint_text fmt rule (to_int value) (or_empty (lookup rule.name e.check_errors))
          (is_normal status) at
      else if metric == Metric.certificate
      then certificate_text fmt rule value status at
      else alert_text fmt rule host status value at
    where
      open rule use {metric_name as metric}

  unfoldable pub message :
      Evaluator V → AlertConfig → String → String → ℕ → Event → StatusType → V → ℕ → Notice V
  message e rule host target id event status value at =
      let text = message_text e rule host target status value at in
      record {
        alert_id = id;
        rule = rule;
        host = host;
        target = target;
        event = event;
        severity = severity_of status;
        value = value;
        subject = text.0;
        body = text.1;
        at = at;
      }

  -- e.notify(ctx, e.message(…))
  unfoldable pub tell :
      AlertConfig → String → String → ℕ → Event → StatusType → V → ℕ → M V (Unit {0})
  tell rule host target id event status value at = do
    n ← gets λ e. message e rule host target id event status value at
    notify n

  unfoldable pub resolve_open : AlertConfig → String → String → Alert V → V → ℕ → M V (Unit {0})
  resolve_open rule host key a value at = do
    resolve_alert a.id value at
    clear_pending key
    tell rule host a.target a.id resolved normal value at

  unfoldable pub update_open :
      AlertConfig → String → String → Alert V → StatusType → V → ℕ → M V (Unit {0})
  update_open rule host key a status value at =
      if is_normal status
      then (do
        p ← gets λ e. lookup key e.pending
        if not (waits_for_normal p)
            then set_pending key (record { status = normal; since = at })
            else if too_early rule at (since_or at p)
            then return tt
            else resolve_open rule host key a value at)
      else (do
        clear_pending key
        if severity_of status == a.severity then return tt else (do
          update_alert a.id (severity_of status) value at
          tell rule host a.target a.id changed status value at))

  unfoldable pub create_open :
      AlertConfig → String → String → String → StatusType → V → ℕ → M V (Unit {0})
  create_open rule host target key status value at = do
    id ← create_alert (record {
      id = 0;
      host = host;
      rule = rule.name;
      metric = rule.metric_name;
      target = target;
      severity = severity_of status;
      value = value;
      started_at = at;
      updated_at = at;
      resolved_at = none;
    })
    clear_pending key
    tell rule host target id opened status value at

  unfoldable pub open_if_breached :
      AlertConfig → String → String → String → StatusType → V → ℕ → M V (Unit {0})
  open_if_breached rule host target key status value at =
      if is_normal status then clear_pending key else (do
        p ← gets λ e. lookup key e.pending
        if not (waits_for_alert p)
            then set_pending key (record { status = status; since = at })
            else if too_early rule at (since_or at p)
            then return tt
            else create_open rule host target key status value at)

  unfoldable pub act_on :
      AlertConfig → String → String → String → V → ℕ → Option (Alert V) → M V (Unit {0})
  act_on rule host target key value at none =
      open_if_breached rule host target key (rule_status rule value) value at
  act_on rule host target key value at (some a) =
      update_open rule host key a (rule_status rule value) value at

  -- Compares one value of a rule's target with the rule, and opens, changes or resolves its alert.
  unfoldable pub check : AlertConfig → String → String → V → ℕ → M V (Unit {0})
  check rule host target value at =
      let key = alert_key host rule target in
      (do
        last ← gets λ e. lookup key e.checked
        if is_seen at last then return tt else (do
          modify λ e. record e { checked = insert key at e.checked }
          a ← open_alert host rule.name rule.metric_name target
          act_on rule host target key value at a))
