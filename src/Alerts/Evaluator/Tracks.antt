-- ===== src/Alerts/Evaluator/Tracks.antt =====
-- The relation between the evaluator and the history that it has seen, and what one more sample
-- does to the specification.
use mathlib.Core.List.{append-nil, append_assoc}
use sy_mon.Base.{
  ℕ, String, Bool, true, false, ◌||◌, Option, none, some, List, [], ◌∷◌, ◌++◌, Float64, nat_eq,
  string_eq, lookup, is_empty, contains, ◌≡◌, ◌≢◌, refl, arith, ap,
}
use sy_mon.Rules.{AlertConfig}
use sy_mon.Alerts.Data.{StatusType, Event, Alert, Notice, severity_of, is_normal}
use sy_mon.Alerts.Status.{rule_status, alert_key}
use sy_mon.Alerts.Store
use sy_mon.Alerts.Store.Laws
use sy_mon.Alerts.Evaluator.{PendingStatus, Evaluator}
use sy_mon.Alerts.Evaluator.History.{streak, is_breached, next_alarm, alarm, told, story, newest}

-- The alert of the table is the alarm's.
abbrev pub SameAlarm : {V : Type 0} → Option (Alert V) → Option StatusType → Type 0
SameAlarm none none = Unit
SameAlarm none (some s) = ⊥
SameAlarm (some a) none = ⊥
SameAlarm (some a) (some s) = (a.severity ≡ severity_of s) × (severity_of s ≢ 0)

-- What the evaluator waits for: normal samples while an alert is open, breached ones while not.
abbrev pub awaited : Option StatusType → StatusType → Bool
awaited none = is_breached
awaited (some s) = is_normal

abbrev pub events : {V : Type 0} → List (Notice V) → List (Event × ℕ)
events [] = []
events (n ∷ ns) = (n.event, n.severity) ∷ events ns

pub events-append :
    {V : Type 0} (ms ns : List (Notice V)) → events (ms ++ ns) ≡ events ms ++ events ns
events-append [] ns = refl
events-append (m ∷ ms) ns = ap (◌∷◌ (m.event, m.severity)) (events-append ms ns)

module _ {V : Type 0} ⦃f : Float64 V⦄ (rule : AlertConfig) (host target : String) where
  abbrev pub open_of : Evaluator V → Option (Alert V)
  open_of e = Store.open_alert e.alerts host rule.name rule.metric_name target

  -- The evaluator `e` has seen the history `h` after which the alarm is `a`, and `before` was told
  -- before that.
  pub record TracksAs (a : Option StatusType) (before : List (Event × ℕ)) (e : Evaluator V)
      (h : List (V × ℕ)) : Type 0 where
    pub calm : e.faults ≡ []
    pub valid : Laws.IsValid e.alerts
    pub known : (is_empty host || contains e.alerts.hosts host) ≡ true
    pub seen : lookup (alert_key host rule target) e.checked ≡ newest h
    pub waiting : lookup (alert_key host rule target) e.pending ≡ streak rule (awaited a) h
    pub alert : SameAlarm (open_of e) a
    pub log : events e.sent ≡ before ++ story rule h

  abbrev pub Tracks : List (Event × ℕ) → Evaluator V → List (V × ℕ) → Type 0
  Tracks before e h = TracksAs (alarm rule h) before e h

  module _ (before : List (Event × ℕ)) (e : Evaluator V) (h : List (V × ℕ)) (v : V) (at : ℕ) where
    -- What the sample does to the specification.
    pub alarm_step :
        {a : Option StatusType}
        → alarm rule h ≡ a
        → alarm rule ((v, at) ∷ h) ≡ next_alarm rule a (rule_status rule v) at h
    unfolding alarm
    alarm_step off = rw off

    pub story_cons :
        story rule ((v, at) ∷ h) ≡ story rule h ++ told (alarm rule h) (alarm rule ((v, at) ∷ h))
    unfolding story
    story_cons = refl

    pub streak_stop :
        (p : StatusType → Bool)
        → p (rule_status rule v) ≡ false
        → streak rule p ((v, at) ∷ h) ≡ none
    unfolding streak
    streak_stop p n = ground arith

    pub streak_start :
        (p : StatusType → Bool)
        → p (rule_status rule v) ≡ true
        → streak rule p h ≡ none
        → streak rule p ((v, at) ∷ h) ≡ some (record { status = rule_status rule v; since = at })
    unfolding streak
    streak_start p n q = ground arith

    pub streak_on :
        (p : StatusType → Bool) (first : PendingStatus)
        → p (rule_status rule v) ≡ true
        → streak rule p h ≡ some first
        → streak rule p ((v, at) ∷ h) ≡ some first
    unfolding streak
    streak_on p first n q = ground arith

    -- Nothing is told.
    pub quiet :
        {a : Option StatusType}
        → alarm rule h ≡ a
        → alarm rule ((v, at) ∷ h) ≡ a
        → told a a ≡ []
        → events e.sent ≡ before ++ story rule h
        → events e.sent ≡ before ++ story rule ((v, at) ∷ h)
    quiet p q n l = rw (story_cons, p, q, n, append-nil) l

    -- One notice is told.
    pub speaks :
        (n : Notice V) {a b : Option StatusType}
        → alarm rule h ≡ a
        → alarm rule ((v, at) ∷ h) ≡ b
        → told a b ≡ (n.event, n.severity) ∷ []
        → events e.sent ≡ before ++ story rule h
        → events (e.sent ++ (n ∷ [])) ≡ before ++ story rule ((v, at) ∷ h)
    speaks n p q o l = rw (story_cons, p, q, o, events-append, l) (append_assoc before _ _)
