-- ===== src/RuleTable/Resolved.antt =====
-- The open alerts of a rule that is deleted, disabled or renamed (internal/store/rules.go).
use sy_mon.Base.{
  ap, ◌||◌, or_of, ℕ, String, Bool, true, false, ◌&&◌, not, Option, none, some, List, [], ◌∷◌, ◌==◌,
  string_eq, nat_eq, any, find, select, change, ◌≡◌, refl, arith, inl, inr, Bool-cases, Result, ok,
  err,
}
use sy_mon.Rules.{AlertConfig}
use sy_mon.Rules.Validate.{UrlParser}
use sy_mon.Alerts.Data.{Alert}
use sy_mon.RuleTable.{
  TableError, refused, AlertRule, Tables, has_id, check_rule, checked, is_rules_alert,
  rename_alerts, renamed, resolve_if, is_taken, clashes, put_rule, update_rule, drop_rule,
  delete_rule,
}

select_none :
    (q : AlertRule → Bool) (rs : List AlertRule) → any q (select (λ s. not (q s)) rs) ≡ false
select_none q [] = refl
select_none q (r ∷ rs) = ground (arith, select_none q rs)

module _ {V : Type 0} where
  abbrev pub has_open : String → Tables V → Bool
  has_open name t = any (is_rules_alert name) t.alerts.rows

  all_resolved :
      (name : String) (now : ℕ) (rows : List (Alert V))
      → any (is_rules_alert name) (
          change
            (is_rules_alert name)
            (λ a. record a { resolved_at = some now; updated_at = now })
            rows)
        ≡ false
  all_resolved name now [] = refl
  all_resolved name now (a ∷ rows) = ground (arith, all_resolved name now rows)

  -- No open alert of the rule is left, nor is the rule.
  pub record Gone (id : ℕ) (r : AlertRule) (t u : Tables V) : Type 0 where
    pub was_there : find (has_id id) t.rules ≡ some r
    pub not_there : any (has_id id) u.rules ≡ false
    pub none_open : has_open r.name u ≡ false

  drop_rule-Gone :
      (t : Tables V) (o : Option AlertRule) (id now : ℕ)
      → find (has_id id) t.rules ≡ o
      → (drop_rule t o id now).0 ≡ ok tt
      → (r : AlertRule) × Gone id r t (drop_rule t o id now).1
  drop_rule-Gone t none id now f e = cc
  drop_rule-Gone t (some r) id now f e = (
    r,
    record {
      was_there = f;
      not_there = select_none (has_id id) t.rules;
      none_open = all_resolved r.name now t.alerts.rows;
    },
  )

  -- When DeleteRule succeeds, there was a rule with that number, and neither it nor an open alert of
  -- it is left.
  pub delete_rule-Gone :
      (t : Tables V) (id now : ℕ)
      → (delete_rule t id now).0 ≡ ok tt
      → (r : AlertRule) × Gone id r t (delete_rule t id now).1
  unfolding delete_rule
  delete_rule-Gone t id now e = drop_rule-Gone t (find (has_id id) t.rules) id now refl e

  -- What an update leaves open: nothing of a disabled rule, and nothing under a name that it had before.
  pub record Updated (p : UrlParser) (rule : AlertConfig) (id : ℕ) (enabled : Bool) (t u : Tables V)
      : Type 0 where
    pub old : AlertRule
    pub new : AlertConfig
    pub was_there : find (has_id id) t.rules ≡ some old
    pub accepted : check_rule p rule ≡ ok new
    pub disabled_resolve : (enabled || not (has_open new.name u)) ≡ true
    pub names_follow : ((old.name == new.name) || not (has_open old.name u)) ≡ true

  none_left :
      (old new : String) (rows : List (Alert V))
      → (old == new) ≡ false
      → any (is_rules_alert old) (rename_alerts old new rows) ≡ false
  none_left old new [] n = refl
  none_left old new (a ∷ rows) n =
      ground (arith, none_left old new rows n, string_eq.beq_iff new old, string_eq.beq_iff old new)

  still_none :
      (name other : String) (now : ℕ) (rows : List (Alert V))
      → any (is_rules_alert name) rows ≡ false
      → any (is_rules_alert name) (
          change
            (is_rules_alert other)
            (λ a. record a { resolved_at = some now; updated_at = now })
            rows)
        ≡ false
  still_none name other now [] e = refl
  still_none name other now (a ∷ rows) e = ground (arith, still_none name other now rows)

  resolve_if-none :
      (b : Bool) (name other : String) (now : ℕ) (u : Tables V)
      → has_open name u ≡ false
      → has_open name (resolve_if b u other now) ≡ false
  resolve_if-none true name other now u e = still_none name other now u.alerts.rows e
  resolve_if-none false name other now u e = e

  disabled-none :
      (enabled : Bool) (name : String) (now : ℕ) (u : Tables V)
      → enabled ≡ false
      → has_open name (resolve_if (not enabled) u name now) ≡ false
  disabled-none true name now u e = cc
  disabled-none false name now u e = all_resolved name now u.alerts.rows

  renamed-none :
      (t : Tables V) (old new : String)
      → (old == new) ≡ false
      → has_open old (renamed t old new) ≡ false
  renamed-none t old new n = rw n (none_left old new t.alerts.rows n)

  put_rule-Updated :
      (p : UrlParser) (t : Tables V) (o : Option AlertRule) (rule new : AlertConfig) (id : ℕ)
      (enabled : Bool) (by' : String) (now : ℕ)
      → find (has_id id) t.rules ≡ o
      → check_rule p rule ≡ ok new
      → (put_rule t o id new enabled by' now).0 ≡ ok tt
      → Updated p rule id enabled t (put_rule t o id new enabled by' now).1
  put_rule-Updated p t none rule new id enabled by' now f c e = cc
  put_rule-Updated p t (some old) rule new id enabled by' now f c e =
      elim (Bool-cases (any (is_taken id new.name) t.rules)) [
        | inl a ↦ absurd (taken a)
        | inr a ↦
            elim (Bool-cases
              (not (old.name == new.name) && clashes old.name new.name t.alerts.rows)) [
                | inl b ↦ absurd (clash a b)
                | inr b ↦
                    rw (a, b)
                      (record {
                        old = old;
                        new = new;
                        was_there = f;
                        accepted = c;
                        disabled_resolve =
                            or_of enabled _ (λ d. ap not (disabled-none enabled new.name now _ d));
                        names_follow = or_of (old.name == new.name) _ (λ n. ap not (
                            resolve_if-none (not enabled) old.name new.name now _
                              (renamed-none _ old.name new.name n)));
                      })
              ]
      ]
    where
      taken : any (is_taken id new.name) t.rules ≡ true → ⊥
      taken a = ground arith

      clash :
          any (is_taken id new.name) t.rules ≡ false
          → (not (old.name == new.name) && clashes old.name new.name t.alerts.rows) ≡ true
          → ⊥
      clash a b = no_result _ (rw (a, b) refl) e
        where
          no_result : (r : Result TableError (Unit {0})) → r ≡ err refused → r ≡ ok tt → ⊥
          no_result r g h = ground arith

  checked-Updated :
      (p : UrlParser) (t : Tables V) (r : Result TableError AlertConfig) (rule : AlertConfig)
      (id : ℕ) (enabled : Bool) (by' : String) (now : ℕ)
      → check_rule p rule ≡ r
      → (checked t r (λ new. put_rule t (find (has_id id) t.rules) id new enabled by' now)).0
        ≡ ok tt
      → Updated p rule id enabled t
          (checked t r (λ new. put_rule t (find (has_id id) t.rules) id new enabled by' now)).1
  checked-Updated p t (err x) rule id enabled by' now c e = cc
  checked-Updated p t (ok new) rule id enabled by' now c e =
      put_rule-Updated p t (find (has_id id) t.rules) rule new id enabled by' now refl c e

  -- When UpdateRule succeeds, there was a rule with that number and the new one is valid; if it is
  -- disabled, no open alert of it is left, and if its name changed, none is left under the old name.
  pub update_rule-Updated :
      (p : UrlParser) (t : Tables V) (id : ℕ) (rule : AlertConfig) (enabled : Bool) (by' : String)
      (now : ℕ)
      → (update_rule p t id rule enabled by' now).0 ≡ ok tt
      → Updated p rule id enabled t (update_rule p t id rule enabled by' now).1
  unfolding update_rule
  update_rule-Updated p t id rule enabled by' now e =
      checked-Updated p t (check_rule p rule) rule id enabled by' now refl e
