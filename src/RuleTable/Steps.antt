-- ===== src/RuleTable/Steps.antt =====
-- What admins, the collector's start and its rules command do to the rules, one call at a time
-- (internal/store/rules.go), and the tables that this leads to.
use sy_mon.Base.{
  ℕ, suc, String, Bool, true, false, ◌&&◌, not, Option, none, some, List, [], ◌∷◌, ◌==◌, nat_eq,
  string_eq, any, find, change, All, All-change, All-select, Keyed-draw, Keyed-change, Keyed-select,
  ◌≡◌, refl, sym, inl, inr, Bool-cases, Result, ok, err, Unique-change,
}
use sy_mon.Rules.{AlertConfig}
use sy_mon.Rules.Validate.{UrlParser}
use sy_mon.Rules.Valid
use sy_mon.Alerts.Store.{Alerts}
use sy_mon.RuleTable.{
  TableError, default_heartbeat, AlertRule, Tables, has_name, has_id, check_rule, check_rules,
  with_rule, insert_rule, checked, create_rule, resolve_if, renamed, replaced, with_replaced,
  is_taken, clashes, put_rule, update_rule, drop_rule, delete_rule, replaces_default, add_rules,
  then_add, then_rest, add_default, import_checked, with_alerts, rename_alerts, rename_checks,
  setup_rules, rules_set_up, imported, upsert_rules, import_rules,
}
use sy_mon.RuleTable.Laws.{
  RuleOk, RulesOk, rule_id, rule_name, check_rule-IsValid, default-IsValid, draw-RulesOk,
  add-RulesOk, insert_rule-RulesOk, replace-Unique, check_rules-IsValid,
}

pub data Step (p : UrlParser) {V : Type 0} (t : Tables V) : Tables V → Type 0 where
  created :
      (rule : AlertConfig) (enabled : Bool) (by' : String) (now : ℕ)
      → Step p t (create_rule p t rule enabled by' now).1
  updated :
      (id : ℕ) (rule : AlertConfig) (enabled : Bool) (by' : String) (now : ℕ)
      → Step p t (update_rule p t id rule enabled by' now).1
  deleted : (id now : ℕ) → Step p t (delete_rule t id now).1
  set_up :
      (rules : List AlertConfig) (source : String) (now : ℕ)
      → Step p t (setup_rules p t rules source now).1
  imported_all :
      (rules : List AlertConfig) (by' : String) (now : ℕ)
      → Step p t (import_rules p t rules by' now).1

abbrev pub no_rules : {V : Type 0} → Alerts V → List String → Tables V
no_rules alerts checks = record {
  rules = [];
  next_id = 1;
  alerts = alerts;
  checks = checks;
  setup = [];
}

-- The tables that the calls lead to, from ones without rules.
pub data Reachable (p : UrlParser) {V : Type 0} : Tables V → Type 0 where
  start : (alerts : Alerts V) (checks : List String) → Reachable p (no_rules alerts checks)
  then' : {t u : Tables V} → Reachable p t → Step p t u → Reachable p u

module _ (p : UrlParser) {V : Type 0} where
  abbrev pub TablesOk : Tables V → Type 0
  TablesOk t = RulesOk p t.next_id t.rules

  checked-TablesOk {ℓ} :
      {B : Type ℓ} (t : Tables V) (r : Result TableError AlertConfig)
      (next : AlertConfig → Result TableError B × Tables V)
      → TablesOk t
      → ((rule : AlertConfig) → r ≡ ok rule → TablesOk (next rule).1)
      → TablesOk (checked t r next).1
  checked-TablesOk t (err e) next v k = v
  checked-TablesOk t (ok rule) next v k = k rule refl

  resolved :
      (b : Bool) (t : Tables V) (name : String) (now : ℕ)
      → TablesOk t
      → TablesOk (resolve_if b t name now)
  resolved true t name now v = v
  resolved false t name now v = v

  same_rules :
      (t : Tables V) (old new : String) (b : Bool) (now : ℕ)
      → TablesOk t
      → TablesOk (resolve_if b (renamed t old new) new now)
  same_rules t old new b now v = elim (Bool-cases (old == new)) [
    | inl e ↦ rw e (resolved b t new now v)
    | inr e ↦ rw e (
        resolved b
          (record (with_alerts t (rename_alerts old new t.alerts.rows)) {
            checks = rename_checks old new t.checks;
          })
          new now v)
  ]

  replaced-TablesOk :
      (t : Tables V) (id : ℕ) (rule : AlertConfig) (enabled : Bool) (by' : String) (now : ℕ)
      → any (is_taken id rule.name) t.rules ≡ false
      → Valid.IsValid p rule
      → TablesOk t
      → TablesOk (with_replaced t id rule enabled by' now)
  replaced-TablesOk t id rule enabled by' now free g v = record {
    keyed = record {
      unique_ids =
          Unique-change rule_id (has_id id) (replaced id rule enabled by' now) t.rules (λ r. refl)
            v.keyed.unique_ids;
      unique_keys =
          replace-Unique p id rule enabled by' now t.rules v.keyed.unique_ids v.keyed.unique_keys
            free;
      drawn =
          All-change _ _ (has_id id) (replaced id rule enabled by' now) t.rules (λ r h e. h)
            (λ r h e. h) v.keyed.drawn;
    };
    all_ok =
        All-change (RuleOk p) (RuleOk p) (has_id id) (replaced id rule enabled by' now) t.rules
          (λ r h e. record { name_kept = refl; rule_valid = g }) (λ r h e. h) v.all_ok;
  }

  put_rule-TablesOk :
      (t : Tables V) (o : Option AlertRule) (id : ℕ) (rule : AlertConfig) (enabled : Bool)
      (by' : String) (now : ℕ)
      → Valid.IsValid p rule
      → TablesOk t
      → TablesOk (put_rule t o id rule enabled by' now).1
  put_rule-TablesOk t none id rule enabled by' now g v = v
  put_rule-TablesOk t (some old) id rule enabled by' now g v =
      elim (Bool-cases (any (is_taken id rule.name) t.rules)) [
        | inl e ↦ rw e v
        | inr e ↦
            elim (Bool-cases
              (not (old.name == rule.name) && clashes old.name rule.name t.alerts.rows)) [
                | inl f ↦ rw (e, f) v
                | inr f ↦
                    rw (e, f)
                      (same_rules (with_replaced t id rule enabled by' now) old.name rule.name
                        (not enabled) now (replaced-TablesOk t id rule enabled by' now e g v))
              ]
      ]

  drop_rule-TablesOk :
      (t : Tables V) (o : Option AlertRule) (id now : ℕ)
      → TablesOk t
      → TablesOk (drop_rule t o id now).1
  drop_rule-TablesOk t none id now v = v
  drop_rule-TablesOk t (some r) id now v = record {
    keyed = Keyed-select rule_id rule_name t.next_id (λ s. not (has_id id s)) t.rules v.keyed;
    all_ok = All-select (RuleOk p) (λ s. not (has_id id s)) t.rules v.all_ok;
  }

  -- Valid, and so is what a rollback to these rows leaves.
  abbrev BothOk : List AlertRule → Tables V → Type 0
  BothOk old u = TablesOk u × RulesOk p u.next_id old

  insert_rule-BothOk :
      (old : List AlertRule) (t : Tables V) (rule : AlertConfig) (now : ℕ)
      → Valid.IsValid p rule
      → BothOk old t
      → BothOk old (insert_rule t rule true "" now).1
  insert_rule-BothOk old t rule now g v = (
    insert_rule-RulesOk p t rule true "" now g v.0,
    elim (Bool-cases (any (has_name rule.name) t.rules)) [
      | inl e ↦ rw e (draw-RulesOk p t.next_id old v.1)
      | inr e ↦ rw e (draw-RulesOk p t.next_id old v.1)
    ],
  )

  then_add-BothOk :
      (old : List AlertRule) (rule : AlertConfig) (r : Result TableError ℕ × Tables V)
      (next : Tables V → Result TableError (List AlertConfig) × Tables V)
      → BothOk old r.1
      → ((u : Tables V) → BothOk old u → BothOk old (next u).1)
      → BothOk old (then_add rule r next).1
  then_add-BothOk old rule (err e, u) next v k = v
  then_add-BothOk old rule (ok id, u) next v k = rest (next u) (k u v)
    where
      rest :
          (r : Result TableError (List AlertConfig) × Tables V)
          → BothOk old r.1
          → BothOk old (then_rest rule r).1
      rest (err e, w) h = h
      rest (ok rules, w) h = h

  checked-BothOk {ℓ} :
      {B : Type ℓ} (old : List AlertRule) (t : Tables V) (r : Result TableError AlertConfig)
      (next : AlertConfig → Result TableError B × Tables V)
      → BothOk old t
      → ((rule : AlertConfig) → r ≡ ok rule → BothOk old (next rule).1)
      → BothOk old (checked t r next).1
  checked-BothOk old t (err e) next v k = v
  checked-BothOk old t (ok rule) next v k = k rule refl

  add_rules-BothOk :
      (old : List AlertRule) (rules : List AlertConfig) (now : ℕ) (t : Tables V)
      → BothOk old t
      → BothOk old (add_rules p t rules now).1
  add_rules-BothOk old [] now t v = v
  add_rules-BothOk old (rule ∷ rules) now t v =
      checked-BothOk old t (check_rule p rule) _ v (λ rule' c.
        then_add-BothOk old rule' (insert_rule t rule' true "" now) _
          (insert_rule-BothOk old t rule' now (check_rule-IsValid p rule c) v)
          (λ u w. add_rules-BothOk old rules now u w))

  add_default-TablesOk :
      (t : Tables V) (r : Result TableError (List AlertConfig) × Tables V) (source : String)
      (now : ℕ)
      → BothOk t.rules r.1
      → TablesOk (add_default t r source now).1
  add_default-TablesOk t (err e, u) source now v = v.1
  add_default-TablesOk t (ok rules, u) source now v =
      elim (Bool-cases (any replaces_default rules)) [
        | inl e ↦ rw e v.0
        | inr e ↦ elim (Bool-cases (any (has_name default_heartbeat.name) u.rules)) [
          | inl f ↦ rw (e, f) (draw-RulesOk p u.next_id t.rules v.1)
          | inr f ↦
              rw (e, f)
                (add-RulesOk p u.next_id u.rules default_heartbeat true "" now f (default-IsValid p)
                  v.0)
        ]
      ]

  setup_rules-TablesOk :
      (t : Tables V) (rules : List AlertConfig) (source : String) (now : ℕ)
      → TablesOk t
      → TablesOk (setup_rules p t rules source now).1
  unfolding setup_rules
  setup_rules-TablesOk t rules source now v = elim (Bool-cases (rules_set_up t)) [
    | inl e ↦ rw e v
    | inr e ↦ rw e (
        add_default-TablesOk t (add_rules p t rules now) source now
          (add_rules-BothOk t.rules rules now t (v, v)))
  ]

  replace_imported :
      (t : Tables V) (rule : AlertConfig) (by' : String) (now : ℕ)
      → Valid.IsValid p rule
      → TablesOk t
      → RulesOk p (suc t.next_id) (change (has_name rule.name) (imported rule by' now) t.rules)
  replace_imported t rule by' now g v = record {
    keyed =
        Keyed-change rule_id rule_name (suc t.next_id) (has_name rule.name) (imported rule by' now)
          t.rules (λ r. refl) (λ r. refl) (Keyed-draw rule_id rule_name t.next_id t.rules v.keyed);
    all_ok =
        All-change (RuleOk p) (RuleOk p) (has_name rule.name) (imported rule by' now) t.rules
          (λ r h e. record {
            name_kept = sym ((string_eq.beq_iff r.name rule.name).0 e);
            rule_valid = g;
          })
          (λ r h e. h) v.all_ok;
  }

  upsert_rules-TablesOk :
      (rules : List AlertConfig) (by' : String) (now : ℕ) (t : Tables V)
      → All (Valid.IsValid p) rules
      → TablesOk t
      → TablesOk (upsert_rules t rules by' now).2
  upsert_rules-TablesOk [] by' now t a v = v
  upsert_rules-TablesOk (rule ∷ rules) by' now t a v =
      elim (Bool-cases (any (has_name rule.name) t.rules)) [
        | inl e ↦ rw e (
            upsert_rules-TablesOk rules by' now
              (record t {
                rules = change (has_name rule.name) (imported rule by' now) t.rules;
                next_id = suc t.next_id;
              })
              a.1 (replace_imported t rule by' now a.0 v))
        | inr e ↦ rw e (
            upsert_rules-TablesOk rules by' now (with_rule t rule true by' now) a.1
              (add-RulesOk p t.next_id t.rules rule true by' now e a.0 v))
      ]

  import_rules-TablesOk :
      (t : Tables V) (rules : List AlertConfig) (by' : String) (now : ℕ)
      → TablesOk t
      → TablesOk (import_rules p t rules by' now).1
  unfolding import_rules
  import_rules-TablesOk t rules by' now v = go (check_rules p rules) refl
    where
      go :
          (r : Result TableError (List AlertConfig))
          → check_rules p rules ≡ r
          → TablesOk (import_checked t r by' now).1
      go (err e) c = v
      go (ok rules') c = upsert_rules-TablesOk rules' by' now t (check_rules-IsValid p rules c) v

-- Every call keeps the tables valid.
Step-TablesOk :
    {p : UrlParser} {V : Type 0} {t u : Tables V} → TablesOk p t → Step p t u → TablesOk p u
unfolding create_rule update_rule delete_rule
Step-TablesOk {p} {t = t} v (created rule enabled by' now) =
    checked-TablesOk p t (check_rule p rule) _ v
      (λ rule' e. insert_rule-RulesOk p t rule' enabled by' now (check_rule-IsValid p rule e) v)
Step-TablesOk {p} {t = t} v (updated id rule enabled by' now) =
    checked-TablesOk p t (check_rule p rule) _ v (λ rule' e.
      put_rule-TablesOk p t (find (has_id id) t.rules) id rule' enabled by' now
        (check_rule-IsValid p rule e) v)
Step-TablesOk {p} {t = t} v (deleted id now) =
    drop_rule-TablesOk p t (find (has_id id) t.rules) id now v
Step-TablesOk {p} {t = t} v (set_up rules source now) = setup_rules-TablesOk p t rules source now v
Step-TablesOk {p} {t = t} v (imported_all rules by' now) = import_rules-TablesOk p t rules by' now v

-- However the calls are interleaved, the numbers and names of rules are unique, and every rule of the
-- table is one that Validate accepts and is kept under its own name.
pub Reachable-rules : {p : UrlParser} {V : Type 0} {t : Tables V} → Reachable p t → TablesOk p t
Reachable-rules (start alerts checks) = record {
  keyed = record { unique_ids = tt; unique_keys = tt; drawn = tt };
  all_ok = tt;
}
Reachable-rules (then' r s) = Step-TablesOk (Reachable-rules r) s
