-- ===== src/Tasks/Reported.antt =====
-- How long the agent keeps trying to report (`report` of agent/tasks.go).
use sy_mon.Base.{
  ℕ, zero, suc, ◌+◌, ◌≤◌, ◌<◌, true, false, ◌≡◌, refl, arith, inl, inr, Bool-cases, leb, subst,
}
use sy_mon.Tasks.Server.{Reply, taken, gone, unreachable, last_try, report_from, report}

abbrev pub Reported : ℕ → ℕ → (ℕ → Reply) → ℕ × Reply → Type 0
Reported first tries replies r =
    (first ≤ r.0)
    × (r.0 ≤ tries)
    × (r.1 ≡ replies r.0)
    × (r.1 ≡ unreachable → r.0 ≡ tries)
    × ((k : ℕ) → first ≤ k → k < r.0 → replies k ≡ unreachable)

not_last :
    (try tries : ℕ) (r : Reply) → last_try try tries r ≡ false → (r ≡ unreachable) × (try < tries)
not_last try tries taken e = cc
not_last try tries gone e = cc
not_last try tries unreachable e = (refl, ground arith)

-- A loop that ends without a reply has no tries left.
at_limit :
    (try tries : ℕ) (r : Reply)
    → last_try try tries r ≡ true
    → try ≤ tries
    → r ≡ unreachable
    → try ≡ tries
at_limit try tries r e h u = omega (arith, h, last (subst (λ x. last_try try tries x ≡ true) u e))
  where
    last : leb tries try ≡ true → tries ≤ try
    last f = ground (arith, f)

extend :
    (try : ℕ) (replies : ℕ → Reply) (r : ℕ)
    → replies try ≡ unreachable
    → ((k : ℕ) → suc try ≤ k → k < r → replies k ≡ unreachable)
    → (k : ℕ) → try ≤ k
    → k < r
    → replies k ≡ unreachable
extend try replies r u f k h l = elim (Bool-cases (leb (suc try) k)) [
  | inl e ↦ f k (ground arith) l
  | inr e ↦ subst (λ j. replies j ≡ unreachable) (ground arith) u
]

report_from-Reported :
    (left try : ℕ) (replies : ℕ → Reply) (tries : ℕ)
    → try ≤ tries
    → tries ≤ try + left
    → Reported try tries replies (report_from left try replies tries)
unfolding report_from
report_from-Reported zero try replies tries h l =
    (omega arith, h, refl, λ u. omega (arith, h, l), λ k a b. absurd (omega (arith, a, b)))
report_from-Reported (suc left) try replies tries h l =
    choose (report_from-Reported left (suc try) replies tries)
  where
    choose :
        (suc try ≤ tries
          → tries ≤ suc try + left
          → Reported (suc try) tries replies (report_from left (suc try) replies tries))
        → Reported try tries replies (report_from (suc left) try replies tries)
    choose f = elim (Bool-cases (last_try try tries (replies try))) [
      | inl e ↦ rw e (
        omega arith,
        h,
        refl,
        at_limit try tries (replies try) e h,
        λ k a b. absurd (omega (arith, a, b)),
      )
      | inr e ↦
          let n = not_last try tries (replies try) e in
          let r = f (omega (arith, n.1)) (omega (arith, l)) in
          rw e (omega (arith, r.0), r.1, r.2, r.3, extend try replies _ n.0 r.4)
    ]

-- A report is tried at least once and at most `tries` times. Every try but the last could not be
-- delivered, and the reply returned is that of the last; if that one could not be delivered either,
-- all `tries` were made. Otherwise the collector took it or said that the run is not going any more.
pub report_lem :
    (replies : ℕ → Reply) (tries : ℕ) → 1 ≤ tries → Reported 1 tries replies (report replies tries)
unfolding report
report_lem replies tries h = report_from-Reported tries 1 replies tries h (omega arith)
