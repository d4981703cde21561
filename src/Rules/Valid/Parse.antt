-- ===== src/Rules/Valid/Parse.antt =====
-- What ParseRules accepts, and what becomes of accepted rules that are read again
-- (internal/alerts/rules.go).
use mathlib.Core.Path.{ap₂}
use sy_mon.Base.{
  ℕ, suc, String, true, false, not, List, [], ◌∷◌, map, ◌≡◌, string_eq, contains, ok, refl, arith,
  trim_space, OnOk, OnOk-eq, OnOk->>=, OnOk-guard,
}
use sy_mon.Rules.{AlertConfig}
use sy_mon.Rules.Validate.{UrlParser, ParseError, validate, at_rule, parse_rules_from, parse_rules}
use sy_mon.Rules.Valid.{IsValid}
use sy_mon.Rules.Valid.Sound.{validate-OnOk}
use sy_mon.Rules.Valid.Complete.{validate-IsValid_unchanged}

-- The rules are valid, and their names differ from one another and from those in `names`.
abbrev pub Accepted : UrlParser → List String → List AlertConfig → Type 0
Accepted p names [] = Unit
Accepted p names (r ∷ rs) =
    IsValid p r × (contains names r.name ≡ false) × Accepted p (r.name ∷ names) rs

abbrev pub names_of : List AlertConfig → List String
names_of = map λ r. r.name

abbrev pub trimmed_names : List AlertConfig → List String
trimmed_names = map λ r. trim_space r.name

abbrev Read : UrlParser → List String → List AlertConfig → List AlertConfig → Type 0
Read p names rs rs' = Accepted p names rs' × (names_of rs' ≡ trimmed_names rs)

at_rule-OnOk :
    (p : UrlParser) (i : ℕ) (r : AlertConfig)
    → OnOk
        (λ r'. IsValid p r' × (r'.name ≡ trim_space r.name))
        (at_rule i (trim_space r.name) (validate p r))
at_rule-OnOk p i r = ground (arith, validate-OnOk p r)

accept :
    (p : UrlParser) (names : List String) (r : AlertConfig) (rs : List AlertConfig)
    (r' : AlertConfig) (rs' : List AlertConfig)
    → IsValid p r' × (r'.name ≡ trim_space r.name)
    → not (contains names r'.name) ≡ true
    → Read p (r'.name ∷ names) rs rs'
    → Read p names (r ∷ rs) (r' ∷ rs')
accept p names r rs r' rs' v d h = ((v.0, ground arith, h.0), ap₂ ◌∷◌ v.1 h.1)

parse_from-OnOk :
    (p : UrlParser) (i : ℕ) (names : List String) (rs : List AlertConfig)
    → OnOk (Read p names rs) (parse_rules_from p i names rs)
unfolding parse_rules_from
parse_from-OnOk p i names [] = (tt, refl)
parse_from-OnOk p i names (r ∷ rs) =
    OnOk->>= {E = ParseError} {A = AlertConfig} _ (Read p names (r ∷ rs)) _ _ (at_rule-OnOk p i r)
      λ (r' : AlertConfig) v.
        OnOk-guard (Read p names (r ∷ rs)) (not (contains names r'.name)) _ _ λ d.
          OnOk->>= (Read p (r'.name ∷ names) rs) (Read p names (r ∷ rs)) _ _
            (parse_from-OnOk p (suc i) (r'.name ∷ names) rs)
            λ rs' h. accept p names r rs r' rs' v d h

parse_from-Accepted :
    (p : UrlParser) (i : ℕ) (names : List String) (rs : List AlertConfig)
    → Accepted p names rs
    → parse_rules_from p i names rs ≡ ok rs
unfolding parse_rules_from
parse_from-Accepted p i names [] h = refl
parse_from-Accepted p i names (r ∷ rs) h = ground (
  arith,
  validate-IsValid_unchanged p r h.0,
  parse_from-Accepted p (suc i) (r.name ∷ names) rs h.2,
)

-- The rules that ParseRules returns are valid, their names all differ and are those of the rules
-- read, in order and trimmed, and reading the returned rules again gives them back unchanged.
pub parse_rules_lem :
    (p : UrlParser) (rs : List AlertConfig) {rs' : List AlertConfig}
    → parse_rules p rs ≡ ok rs'
    → Accepted p [] rs' × (names_of rs' ≡ trimmed_names rs) × (parse_rules p rs' ≡ ok rs')
unfolding parse_rules
parse_rules_lem p rs {rs'} e =
    let read = OnOk-eq (Read p [] rs) (parse_rules_from p 1 [] rs) (parse_from-OnOk p 1 [] rs) e in
    (read.0, read.1, parse_from-Accepted p 1 [] rs' read.0)
