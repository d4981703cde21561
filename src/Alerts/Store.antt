-- ===== src/Alerts/Store.antt =====
-- The alerts table (internal/store/alerts.go). Its unique index allows one open alert for a host,
-- rule, metric and target (internal/store/migrations/001_schema.sql, 006_endpoint_checks.sql).
pub mod Laws
use sy_mon.Base.{
  ℕ, suc, ltb, leb, String, Bool, true, false, ◌&&◌, ◌||◌, not, Option, none, some, List, [], ◌∷◌,
  if◌then◌else◌, ◌==◌, string_eq, nat_eq, contains, find, select, map, is_empty, Result, ok, err,
}
use sy_mon.Alerts.Data.{Alert}

pub data StoreError : Type 0 where
  not_found conflict failure : StoreError

abbrev pub is_open : Option ℕ → Bool
is_open none = true
is_open (some t) = false

pub record AlertFilter : Type 0 where
  pub host : String
  pub rule : String
  pub open_only : Bool
  -- none is no limit
  pub from : Option ℕ
  pub to : Option ℕ

pub record Alerts (V : Type 0) : Type 0 where
  pub hosts : List String
  pub rows : List (Alert V)
  pub next_id : ℕ

abbrev starts_from : Option ℕ → ℕ → Bool
starts_from none at = true
starts_from (some from) at = leb from at

abbrev starts_before : Option ℕ → ℕ → Bool
starts_before none at = true
starts_before (some to) at = ltb at to

module _ {V : Type 0} where
  abbrev pub is_for : String → String → String → String → Alert V → Bool
  is_for host rule metric target a =
      a.host == host
      && a.rule == rule
      && a.metric == metric
      && a.target == target
      && is_open a.resolved_at

  -- The unresolved alert for a host, rule, metric and target.
  unfoldable pub open_alert : Alerts V → String → String → String → String → Option (Alert V)
  open_alert t host rule metric target = find (is_for host rule metric target) t.rows

  -- A new row, unless its host is unknown or the index holds an open one.
  unfoldable pub create_alert : Alerts V → Alert V → Result StoreError ℕ × Alerts V
  unfolding open_alert
  create_alert t a =
      let row = record a { id = t.next_id; updated_at = a.started_at; resolved_at = none } in
      if not (is_empty a.host) && not (contains t.hosts a.host)
      then (err not_found, t)
      else elim (open_alert t a.host a.rule a.metric a.target) [
        | none ↦ (ok t.next_id, record t { rows = row ∷ t.rows; next_id = suc t.next_id })
        | some other ↦ (err conflict, t)
      ]

  abbrev pub change : ℕ → (Alert V → Alert V) → List (Alert V) → List (Alert V)
  change id f [] = []
  change id f (a ∷ as') = (if a.id == id then f a else a) ∷ change id f as'

  unfoldable pub update_alert : Alerts V → ℕ → ℕ → V → ℕ → Alerts V
  update_alert t id severity value at = record t {
    rows = change id (λ a. record a { severity = severity; value = value; updated_at = at }) t.rows;
  }

  unfoldable pub resolve_alert : Alerts V → ℕ → V → ℕ → Alerts V
  resolve_alert t id value at = record t {
    rows =
        change id (λ a. record a { value = value; updated_at = at; resolved_at = some at }) t.rows;
  }

  unfoldable pub passes : AlertFilter → Alert V → Bool
  passes filter a =
      (is_empty filter.host || a.host == filter.host)
      && (is_empty filter.rule || a.rule == filter.rule)
      && (not filter.open_only || is_open a.resolved_at)
      && starts_from filter.from a.started_at
      && starts_before filter.to a.started_at

  -- ORDER BY started_at DESC
  unfoldable pub insert_by_start : Alert V → List (Alert V) → List (Alert V)
  insert_by_start a [] = a ∷ []
  insert_by_start a (b ∷ bs) =
      if ltb a.started_at b.started_at then b ∷ insert_by_start a bs else a ∷ b ∷ bs

  unfoldable pub newest_first : List (Alert V) → List (Alert V)
  unfolding insert_by_start
  newest_first [] = []
  newest_first (a ∷ as') = insert_by_start a (newest_first as')

  unfoldable pub list_alerts : Alerts V → AlertFilter → List (Alert V)
  unfolding passes newest_first
  list_alerts t filter = newest_first (select (passes filter) t.rows)
