-- ===== src/Alerts/Evaluator/Refines.antt =====
-- The evaluator's `check` (collector/evaluator.go) on the samples of a history, and the alarm of
-- History.
use mathlib.Core.List.{append-nil}
use sy_mon.Base.{
  ℕ, String, true, false, ◌||◌, none, List, [], ◌∷◌, ◌++◌, Float64, nat_eq, string_eq, ◌==◌, lookup,
  is_empty, contains, ◌≡◌, refl, arith, sym, subst,
}
use sy_mon.Metric.{certificate}
use sy_mon.Rules.{AlertConfig}
use sy_mon.Alerts.Data.{Event}
use sy_mon.Alerts.Status.{alert_key, FitsDuration}
use sy_mon.Alerts.Text.{Format}
use sy_mon.Alerts.Store.Laws
use sy_mon.Alerts.Evaluator.{Evaluator, query, open_alert, act_on, check, is_seen}
use sy_mon.Alerts.Evaluator.History.{streak, alarm, story, newest, Increasing}
use sy_mon.Alerts.Evaluator.Tracks.{TracksAs, SameAlarm, events, open_of}
use sy_mon.Alerts.Evaluator.Tracks.{Tracks}
use sy_mon.Alerts.Evaluator.Step.{act_step, noted}

module _ {V : Type 0} ⦃f : Float64 V⦄ (fmt : Format V) (rule : AlertConfig)
    (host target : String) where
  -- The evaluator after the samples of a history, checked one after the other.
  pub watch : Evaluator V → List (V × ℕ) → Evaluator V
  watch e [] = e
  watch e ((v, at) ∷ h) = (check fmt rule host target v at (watch e h)).1

  check_new :
      (e : Evaluator V) (v : V) (at : ℕ)
      → e.faults ≡ []
      → is_seen at (lookup (alert_key host rule target) e.checked) ≡ false
      → check fmt rule host target v at e
        ≡ act_on fmt rule host target
            (alert_key host rule target)
            v
            at
            (open_of rule host target e)
            (noted fmt rule host target e at)
  unfolding check open_alert query
  check_new e v at calm new = ground arith

  newer :
      (v : V) (at : ℕ) (h : List (V × ℕ)) → Increasing ((v, at) ∷ h) → is_seen at (newest h) ≡ false
  newer v at [] i = refl
  newer v at ((w, before) ∷ h) i = ground (arith, i.0)

  earlier : (v : V) (at : ℕ) (h : List (V × ℕ)) → Increasing ((v, at) ∷ h) → Increasing h
  earlier v at [] i = tt
  earlier v at ((w, before) ∷ h) i = i.1

  watch-Tracks :
      (before : List (Event × ℕ)) (e : Evaluator V)
      → FitsDuration rule
      → Tracks rule host target before e []
      → (h : List (V × ℕ)) → Increasing h
      → Tracks rule host target before (watch e h) h
  unfolding watch
  watch-Tracks before e i t [] inc = t
  watch-Tracks before e i t ((v, at) ∷ h) inc =
      let u = watch-Tracks before e i t h (earlier v at h inc) in
      subst (λ r. TracksAs rule host target (alarm rule ((v, at) ∷ h)) before r.1 ((v, at) ∷ h))
        (sym (check_new (watch e h) v at u.calm (rw u.seen (newer v at h inc))))
        (act_step fmt rule host target before (watch e h) h v at i (alarm rule h) refl u _ refl)

  -- An evaluator and a table that know nothing yet of the rule's target: nothing is pending,
  -- checked or open, the host is registered and no store call fails.
  pub record Fresh (e : Evaluator V) : Type 0 where
    pub calm : e.faults ≡ []
    pub valid : Laws.IsValid e.alerts
    pub known : (is_empty host || contains e.alerts.hosts host) ≡ true
    pub unchecked : lookup (alert_key host rule target) e.checked ≡ none
    pub nothing_pending : lookup (alert_key host rule target) e.pending ≡ none
    pub no_alert : open_of rule host target e ≡ none

  Fresh-Tracks : (e : Evaluator V) → Fresh e → Tracks rule host target (events e.sent) e []
  unfolding alarm streak story
  Fresh-Tracks e r = record {
    calm = r.calm;
    valid = r.valid;
    known = r.known;
    seen = r.unchecked;
    waiting = r.nothing_pending;
    alert = rw r.no_alert tt;
    log = sym (append-nil (events e.sent));
  }

  -- For a rule whose trigger interval is not negative and at most 9223372036 seconds, so that 64 bits
  -- hold it in nanoseconds, and that is no certificate rule: from an evaluator that knows nothing of
  -- the rule's target, checking samples with growing times, while no store call fails, leaves an alert open
  -- in the table exactly when the alarm of the samples is on, with the alarm's severity, and the
  -- channels are told of the openings, changes and resolutions that the samples say, in order and
  -- once each. The table stays valid: at most one alert is open for a host, rule, metric and target.
  pub watch-alarm :
      (e : Evaluator V) (h : List (V × ℕ))
      → FitsDuration rule
      → (rule.metric_name == certificate) ≡ false
      → Fresh e
      → Increasing h
      → SameAlarm (open_of rule host target (watch e h)) (alarm rule h)
        × (events (watch e h).sent ≡ events e.sent ++ story rule h)
        × Laws.IsValid (watch e h).alerts
  watch-alarm e h i other r inc =
      let t = watch-Tracks (events e.sent) e i (Fresh-Tracks e r) h inc in (t.alert, t.log, t.valid)
