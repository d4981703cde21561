-- ===== src/RuleTable/Setup.antt =====
-- The rules are set up once (`SetupRules` of internal/store/rules.go).
use sy_mon.Base.{Bool, true, ◌||◌, List, string_eq, any, ◌≡◌, Result, ok, err}
use sy_mon.Rules.{AlertConfig}
use sy_mon.Rules.Validate.{UrlParser}
use sy_mon.RuleTable.{TableError, AlertRule, Tables, RuleSetup, replaces_default, rules_set_up}

abbrev pub has_replacing : List AlertRule → Bool
has_replacing rs = any (λ (r : AlertRule). replaces_default r.rule) rs

-- Rules inserted into the table: one that replaces the default heartbeat, there before or inserted, is
-- in it.
abbrev Kept :
    {V : Type 0} → List AlertRule → Result TableError (List AlertConfig) × Tables V → Type 0
Kept old (err e, u) = Unit
Kept old (ok rs, u) =
    (has_replacing old || any replaces_default rs) ≡ true → has_replacing u.rules ≡ true

module _ (p : UrlParser) {V : Type 0} where
  -- Set up, by this call with the default heartbeat or a rule that replaces it, or before.
  pub record SetUp (s : RuleSetup) (u : Tables V) : Type 0 where
    pub is_done : rules_set_up u ≡ true
    pub default_or_replaced : (s.done || has_replacing u.rules) ≡ true
