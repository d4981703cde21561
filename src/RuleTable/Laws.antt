-- ===== src/RuleTable/Laws.antt =====
-- The invariant of the alert_rules table (internal/store/rules.go), and the tables that the calls lead
-- to.
use sy_mon.Base.{
  ℕ, suc, String, Bool, false, List, [], ◌∷◌, ◌++◌, ◌==◌, nat_eq, string_eq, any, change, All,
  All-snoc, Keyed, Keyed-draw, Keyed-snoc, ◌≡◌, refl, subst, arith, inl, inr, Bool-cases, Result,
  ok, err, OnOk-eq, Unique, trim_space, >>=-eq-ok,
}
use sy_mon.Rules.{AlertConfig}
use sy_mon.Rules.Validate.{
  UrlParser, RuleError, threshold_ops, check_channels, check_blank_servers, check_servers, check_op,
  check_cluster, known_method, days_in_order, check_endpoint, check_servers_and_op, check_metric,
  check_custom, check_watched, validate,
}
use sy_mon.Rules.Valid
use sy_mon.Rules.Valid.Sound.{validate-OnOk}
use sy_mon.RuleTable.{
  TableError, or_invalid, default_heartbeat, AlertRule, Tables, has_name, has_id, check_rule,
  check_rules, new_rule, insert_rule, replaced, is_taken,
}

abbrev pub rule_id : AlertRule → ℕ
rule_id r = r.id

abbrev pub rule_name : AlertRule → String
rule_name r = r.name

module _ (p : UrlParser) where
  pub record RuleOk (r : AlertRule) : Type 0 where
    pub name_kept : r.rule.name ≡ r.name
    pub rule_valid : Valid.IsValid p r.rule

  pub record RulesOk (next_id : ℕ) (rules : List AlertRule) : Type 0 where
    pub keyed : Keyed rule_id rule_name next_id rules
    pub all_ok : All RuleOk rules

  abbrev Accepted : String → AlertConfig → Type 0
  Accepted name r = Valid.IsValid p r × (r.name ≡ trim_space name)

  valid_ok : (v : Result RuleError AlertConfig) {r : AlertConfig} → or_invalid v ≡ ok r → v ≡ ok r
  valid_ok (err e) h = cc
  valid_ok (ok rule) h = ground arith

  pub check_rule-IsValid :
      (rule : AlertConfig) {r : AlertConfig} → check_rule p rule ≡ ok r → Valid.IsValid p r
  check_rule-IsValid rule e =
      (OnOk-eq (Accepted rule.name) (validate p rule) (validate-OnOk p rule)
        (valid_ok (validate p rule) e)).0

  default_ok : check_rule p default_heartbeat ≡ ok default_heartbeat
  unfolding threshold_ops check_channels check_blank_servers check_servers check_op check_cluster
      known_method days_in_order check_endpoint check_servers_and_op check_metric check_custom
      check_watched validate trim_space
  default_ok = refl

  pub default-IsValid : Valid.IsValid p default_heartbeat
  default-IsValid = check_rule-IsValid default_heartbeat default_ok

  pub draw-RulesOk : (n : ℕ) (rs : List AlertRule) → RulesOk n rs → RulesOk (suc n) rs
  draw-RulesOk n rs v = record {
    keyed = Keyed-draw rule_id rule_name n rs v.keyed;
    all_ok = v.all_ok;
  }

  pub add-RulesOk :
      (n : ℕ) (rs : List AlertRule) (rule : AlertConfig) (enabled : Bool) (by' : String) (now : ℕ)
      → any (has_name rule.name) rs ≡ false
      → Valid.IsValid p rule
      → RulesOk n rs
      → RulesOk (suc n) (rs ++ new_rule n rule enabled by' now ∷ [])
  add-RulesOk n rs rule enabled by' now free g v = record {
    keyed = Keyed-snoc rule_id rule_name n rs (new_rule n rule enabled by' now) refl free v.keyed;
    all_ok =
        All-snoc RuleOk rs (new_rule n rule enabled by' now) v.all_ok
          (record { name_kept = refl; rule_valid = g });
  }

  pub insert_rule-RulesOk :
      {V : Type 0} (t : Tables V) (rule : AlertConfig) (enabled : Bool) (by' : String) (now : ℕ)
      → Valid.IsValid p rule
      → RulesOk t.next_id t.rules
      → RulesOk
          (insert_rule t rule enabled by' now).1.next_id
          (insert_rule t rule enabled by' now).1.rules
  insert_rule-RulesOk t rule enabled by' now g v =
      elim (Bool-cases (any (has_name rule.name) t.rules)) [
        | inl e ↦ rw e (draw-RulesOk t.next_id t.rules v)
        | inr e ↦ rw e (add-RulesOk t.next_id t.rules rule enabled by' now e g v)
      ]

  -- A row replaced by one with another name, which no other row has.
  pub replace-Unique :
      (id : ℕ) (rule : AlertConfig) (enabled : Bool) (by' : String) (now : ℕ) (rs : List AlertRule)
      → Unique rule_id rs
      → Unique rule_name rs
      → any (is_taken id rule.name) rs ≡ false
      → Unique rule_name (change (has_id id) (replaced id rule enabled by' now) rs)
  replace-Unique id rule enabled by' now [] i u e = tt
  replace-Unique id rule enabled by' now (r ∷ rs) i u e = elim (Bool-cases (has_id id r)) [
    | inl h ↦ rw h (
      others rs (ground (arith, i.0, nat_eq.beq_iff r.id id)) (ground arith),
      replace-Unique id rule enabled by' now rs i.1 u.1 (ground arith),
    )
    | inr h ↦ rw h (
      still r.name rs u.0
          (ground (arith, string_eq.beq_iff rule.name r.name, string_eq.beq_iff r.name rule.name)),
      replace-Unique id rule enabled by' now rs i.1 u.1 (ground arith),
    )
  ]
    where
      others :
          (rs : List AlertRule)
          → any (has_id id) rs ≡ false
          → any (is_taken id rule.name) rs ≡ false
          → any (has_name rule.name) (change (has_id id) (replaced id rule enabled by' now) rs)
            ≡ false
      others [] a b = refl
      others (s ∷ rs) a b = ground (arith, others rs)

      still :
          (k : String) (rs : List AlertRule)
          → any (has_name k) rs ≡ false
          → (rule.name == k) ≡ false
          → any (has_name k) (change (has_id id) (replaced id rule enabled by' now) rs) ≡ false
      still k [] a b = refl
      still k (s ∷ rs) a b = ground (arith, still k rs)

  pub check_rules-IsValid :
      (rules : List AlertConfig) {checked' : List AlertConfig}
      → check_rules p rules ≡ ok checked'
      → All (Valid.IsValid p) checked'
  check_rules-IsValid [] {checked'} e = subst (All (Valid.IsValid p)) (same checked' _ refl e) tt
    where
      same :
          (xs : List AlertConfig) (r : Result TableError (List AlertConfig))
          → r ≡ ok []
          → r ≡ ok xs
          → [] ≡ xs
      same xs r f g = ground arith
  check_rules-IsValid (rule ∷ rules) {checked'} e =
      let first = >>=-eq-ok (check_rule p rule) _ e in
      let second = >>=-eq-ok (check_rules p rules) _ first.2 in
      subst (All (Valid.IsValid p)) (same (first.0 ∷ second.0) checked' _ refl second.2)
        (check_rule-IsValid rule first.1, check_rules-IsValid rules second.1)
    where
      same :
          (xs ys : List AlertConfig) (r : Result TableError (List AlertConfig))
          → r ≡ ok xs
          → r ≡ ok ys
          → xs ≡ ys
      same xs ys r f g = ground arith
