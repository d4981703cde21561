-- ===== src/Alerts/Evaluator/Off.antt =====
-- A sample while no alert is open (`openIfBreached` of collector/evaluator.go).
use sy_mon.Base.{
  ℕ, ℤ, pos, negsuc, ◌≤ℤ◌, ltb_ℤ, saturate_64, wrap_64, sub_ℕ, scale, pos_part, leb, ◌+◌, ◌*◌,
  Bool-cases, inl, inr, String, true, false, not, Option, none, some, List, [], ◌∷◌, ◌++◌, Float64,
  nat_eq, string_eq, lookup, insert, delete, lookup_inserted, lookup_deleted, ◌≡◌, refl, arith, sym,
  ◌∙◌,
}
use sy_mon.Rules.{AlertConfig}
use sy_mon.Alerts.Data.{StatusType, Event, opened, second, Alert, Notice, severity_of, is_normal}
use sy_mon.Alerts.Status.{rule_status, alert_key, trigger_interval, FitsDuration}
use sy_mon.Alerts.Store
use sy_mon.Alerts.Store.Laws
use sy_mon.Alerts.Evaluator.{PendingStatus, Evaluator, too_early}
use sy_mon.Alerts.Evaluator.History.{streak, is_breached, lasted, next_alarm, alarm}
use sy_mon.Alerts.Evaluator.Tracks.{
  TracksAs, alarm_step, streak_stop, streak_start, streak_on, quiet, speaks, open_of,
}

early :
    (i : ℤ) (at since : ℕ)
    → pos 0 ≤ℤ i
    → i ≤ℤ pos 9223372036
    → ltb_ℤ (saturate_64 (sub_ℕ at since)) (wrap_64 (scale i second))
      ≡ not (leb (since + pos_part i * second) at)
early (pos n) at since low high = elim (Bool-cases (leb since at)) [
  | inl e ↦ rw e (ground arith)
  | inr e ↦ rw e (ground arith)
]
early (negsuc n) at since low high = absurd (omega (arith, low))

-- The code's test on durations is the one on times, for an interval that fits.
pub too_early_lem :
    (rule : AlertConfig) (at : ℕ) (p : PendingStatus)
    → FitsDuration rule
    → too_early rule at p.since ≡ not (lasted rule at (some p))
unfolding too_early trigger_interval
too_early_lem rule at p h = early rule.trigger_intveral at p.since h.0 h.1

module _ {V : Type 0} ⦃f : Float64 V⦄ (rule : AlertConfig) (host target : String) where
  abbrev pub Follows : Option StatusType → List (Event × ℕ) → Evaluator V → List (V × ℕ) → Type 0
  Follows = TracksAs rule host target

  -- The evaluator after the sample, whatever is pending, told and in the table then.
  abbrev pub with_pending : Evaluator V → ℕ → List (String × PendingStatus) → Evaluator V
  with_pending e at p = record e {
    checked = insert (alert_key host rule target) at e.checked;
    pending = p;
  }

  -- A sample while no alert is open.
  module _ (before : List (Event × ℕ)) (e : Evaluator V) (h : List (V × ℕ)) (v : V) (at : ℕ)
      (interval : FitsDuration rule) (off : alarm rule h ≡ none) (t : Follows none before e h) where
    abbrev pub Tracked : Evaluator V → Type 0
    Tracked e' = Follows (alarm rule ((v, at) ∷ h)) before e' ((v, at) ∷ h)

    abbrev pub judged : StatusType
    judged = rule_status rule v

    -- The alarm stays off, so only what is pending has to be right.
    stays_off :
        (p : List (String × PendingStatus))
        → alarm rule ((v, at) ∷ h) ≡ none
        → lookup (alert_key host rule target) p ≡ streak rule is_breached ((v, at) ∷ h)
        → Tracked (with_pending e at p)
    stays_off p next q = rw next (record {
      calm = t.calm;
      valid = t.valid;
      known = t.known;
      seen = lookup_inserted (alert_key host rule target) at e.checked;
      waiting = q;
      alert = t.alert;
      log = quiet rule host target before e h v at off next refl t.log;
    })

    pub off_normal :
        is_normal judged ≡ true
        → Tracked (with_pending e at (delete (alert_key host rule target) e.pending))
    off_normal n =
        stays_off (delete (alert_key host rule target) e.pending)
          (alarm_step rule host target before e h v at off ∙ unfold next_alarm in rw n)
          (lookup_deleted (alert_key host rule target) e.pending
            ∙ sym (streak_stop rule host target before e h v at is_breached (rw n)))

    pub off_first :
        is_normal judged ≡ false
        → streak rule is_breached h ≡ none
        → Tracked (
            with_pending e at (
              insert
                (alert_key host rule target)
                (record { status = judged; since = at })
                e.pending))
    off_first n q =
        stays_off _
          (alarm_step rule host target before e h v at off ∙ unfold next_alarm in rw (n, q))
          (lookup_inserted (alert_key host rule target) (record { status = judged; since = at })
              e.pending
            ∙ sym (streak_start rule host target before e h v at is_breached (rw n) q))

    pub off_waiting :
        (first : PendingStatus)
        → is_normal judged ≡ false
        → streak rule is_breached h ≡ some first
        → lasted rule at (some first) ≡ false
        → Tracked (with_pending e at e.pending)
    off_waiting first n q l =
        stays_off _
          (alarm_step rule host target before e h v at off ∙ unfold next_alarm in rw (n, q, l))
          (t.waiting
            ∙ q
            ∙ sym (streak_on rule host target before e h v at is_breached first (rw n) q))

    -- The row that an opening alert writes.
    abbrev pub new_row : Alert V
    new_row = record {
      id = 0;
      host = host;
      rule = rule.name;
      metric = rule.metric_name;
      target = target;
      severity = severity_of judged;
      value = v;
      started_at = at;
      updated_at = at;
      resolved_at = none;
    }

    abbrev pub opened_state : Notice V → Evaluator V
    opened_state n = record e {
      alerts = (Store.create_alert e.alerts new_row).1;
      sent = e.sent ++ (n ∷ []);
      checked = insert (alert_key host rule target) at e.checked;
      pending = delete (alert_key host rule target) e.pending;
    }

    pub off_opens :
        (n : Notice V) (first : PendingStatus)
        → n.event ≡ opened
        → n.severity ≡ severity_of judged
        → is_normal judged ≡ false
        → open_of rule host target e ≡ none
        → streak rule is_breached h ≡ some first
        → lasted rule at (some first) ≡ true
        → Tracked (opened_state n)
    off_opens n first ev sv b o q l =
        let next : alarm rule ((v, at) ∷ h) ≡ some judged =
          alarm_step rule host target before e h v at off ∙ unfold next_alarm in rw (b, q, l) in
        let made = Laws.open_alert-create e.alerts new_row t.known o in
        rw next (record {
          calm = t.calm;
          valid = Laws.create_alert-IsValid e.alerts new_row t.valid;
          known = rw made.2 t.known;
          seen = lookup_inserted (alert_key host rule target) at e.checked;
          waiting =
              lookup_deleted (alert_key host rule target) e.pending
              ∙ sym (streak_stop rule host target before e h v at is_normal b);
          alert = rw made.1 (refl, ground arith);
          log = speaks rule host target before e h v at n off next (ground (arith, ev, sv)) t.log;
        })
