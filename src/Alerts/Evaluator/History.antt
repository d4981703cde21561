-- ===== src/Alerts/Evaluator/History.antt =====
-- When an alert should be open, said of the samples alone: the specification of the evaluator's
-- `check`. A history lists the samples of one rule's target, newest first.
use sy_mon.Base.{
  ℕ, ◌+◌, ◌*◌, ◌<◌, leb, pos_part, Bool, false, not, Option, none, some, List, [], ◌∷◌, ◌++◌,
  if◌then◌else◌, Float64, nat_eq, ◌==◌,
}
use sy_mon.Rules.{AlertConfig}
use sy_mon.Alerts.Data.{
  StatusType, Event, opened, changed, resolved, severity_of, is_normal, second,
}
use sy_mon.Alerts.Status.{rule_status}
use sy_mon.Alerts.Evaluator.{PendingStatus}

abbrev pub is_breached : StatusType → Bool
is_breached s = not (is_normal s)

-- What is told when the alarm goes from the one to the other.
abbrev pub told : Option StatusType → Option StatusType → List (Event × ℕ)
told none none = []
told none (some s) = (opened, severity_of s) ∷ []
told (some s) none = (resolved, 0) ∷ []
told (some s) (some t) =
    if severity_of t == severity_of s then [] else (changed, severity_of t) ∷ []

-- The trigger interval has passed since then.
abbrev pub lasted : AlertConfig → ℕ → Option PendingStatus → Bool
lasted rule at none = false
lasted rule at (some first) = leb (first.since + pos_part rule.trigger_intveral * second) at

module _ {V : Type 0} ⦃f : Float64 V⦄ (rule : AlertConfig) where
  -- The first sample of the unbroken run of such samples that the history ends with.
  unfoldable pub streak : (StatusType → Bool) → List (V × ℕ) → Option PendingStatus
  streak p [] = none
  streak p ((v, at) ∷ h) = elim (streak p h) [
    | none ↦
        if p (rule_status rule v)
        then some (record { status = rule_status rule v; since = at })
        else none
    | some first ↦ if p (rule_status rule v) then some first else none
  ]

  -- The alarm after one more sample: it starts at a breach when the breaches before it have
  -- lasted, and ends at a normal sample when the normal ones before it have.
  unfoldable pub next_alarm : Option StatusType → StatusType → ℕ → List (V × ℕ) → Option StatusType
  unfolding streak
  next_alarm none s at h =
      if is_normal s then none else if lasted rule at (streak is_breached h) then some s else none
  next_alarm (some severity) s at h =
      if is_normal s
      then (if lasted rule at (streak is_normal h) then none else some severity)
      else some s

  unfoldable pub alarm : List (V × ℕ) → Option StatusType
  unfolding next_alarm
  alarm [] = none
  alarm ((v, at) ∷ h) = next_alarm (alarm h) (rule_status rule v) at h

  unfoldable pub story : List (V × ℕ) → List (Event × ℕ)
  unfolding alarm
  story [] = []
  story (x ∷ h) = story h ++ told (alarm h) (alarm (x ∷ h))

module _ {V : Type 0} where
  abbrev pub newest : List (V × ℕ) → Option ℕ
  newest [] = none
  newest ((v, at) ∷ h) = some at

  -- The samples come in the order of their times.
  abbrev pub Increasing : List (V × ℕ) → Type 0
  Increasing [] = Unit
  Increasing ((v, at) ∷ []) = Unit
  Increasing ((v, at) ∷ (w, before) ∷ h) = (before < at) × Increasing ((w, before) ∷ h)
