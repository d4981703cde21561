-- ===== src/Alerts/Evaluator/On.antt =====
-- A sample while an alert is open (`updateOpen` of collector/evaluator.go).
use sy_mon.Base.{
  ℕ, String, true, false, none, some, List, [], ◌∷◌, ◌++◌, Float64, nat_eq, string_eq, ◌==◌, lookup,
  insert, delete, lookup_inserted, lookup_deleted, ◌≡◌, refl, arith, sym, ◌∙◌, subst, ap,
}
use sy_mon.Rules.{AlertConfig}
use sy_mon.Alerts.Data.{
  StatusType, normal, warning, critical, Event, changed, resolved, Alert, Notice, severity_of,
  is_normal,
}
use sy_mon.Alerts.Status.{rule_status, alert_key}
use sy_mon.Alerts.Store
use sy_mon.Alerts.Store.Laws
use sy_mon.Alerts.Evaluator.{PendingStatus, Evaluator}
use sy_mon.Alerts.Evaluator.History.{streak, is_breached, lasted, next_alarm, alarm, told}
use sy_mon.Alerts.Evaluator.Tracks.{
  TracksAs, SameAlarm, alarm_step, streak_stop, streak_start, streak_on, quiet, speaks, open_of,
}

unchanged : (s : StatusType) → told (some s) (some s) ≡ []
unchanged normal = refl
unchanged warning = refl
unchanged critical = refl

module _ {V : Type 0} ⦃f : Float64 V⦄ (rule : AlertConfig) (host target : String) where
  module _ (before : List (Event × ℕ)) (e : Evaluator V) (h : List (V × ℕ)) (v : V) (at : ℕ)
      (s : StatusType) (on : alarm rule h ≡ some s)
      (t : TracksAs rule host target (some s) before e h) (a : Alert V)
      (found : open_of rule host target e ≡ some a) where
    abbrev pub Tracked : Evaluator V → Type 0
    Tracked e' = TracksAs rule host target (alarm rule ((v, at) ∷ h)) before e' ((v, at) ∷ h)

    abbrev pub judged : StatusType
    judged = rule_status rule v

    abbrev pub its_key : String
    its_key = alert_key host rule target

    same : SameAlarm (some a) (some s)
    same = subst (λ o. SameAlarm o (some s)) found t.alert

    -- Nothing is told and the alert stays as it is, so only what is pending has to be right.
    stays_on :
        (p : List (String × PendingStatus))
        → alarm rule ((v, at) ∷ h) ≡ some s
        → lookup its_key p ≡ streak rule is_normal ((v, at) ∷ h)
        → Tracked (record e { checked = insert its_key at e.checked; pending = p })
    stays_on p next q = rw next (record {
      calm = t.calm;
      valid = t.valid;
      known = t.known;
      seen = lookup_inserted its_key at e.checked;
      waiting = q;
      alert = t.alert;
      log = quiet rule host target before e h v at on next (unchanged s) t.log;
    })

    pub on_first :
        is_normal judged ≡ true
        → streak rule is_normal h ≡ none
        → Tracked (record e {
          checked = insert its_key at e.checked;
          pending = insert its_key (record { status = judged; since = at }) e.pending;
        })
    on_first n q =
        stays_on _ (alarm_step rule host target before e h v at on ∙ unfold next_alarm in rw (n, q))
          (lookup_inserted its_key (record { status = judged; since = at }) e.pending
            ∙ sym (streak_start rule host target before e h v at is_normal n q))

    pub on_waiting :
        (first : PendingStatus)
        → is_normal judged ≡ true
        → streak rule is_normal h ≡ some first
        → lasted rule at (some first) ≡ false
        → Tracked (record e { checked = insert its_key at e.checked })
    on_waiting first n q l =
        stays_on e.pending
          (alarm_step rule host target before e h v at on ∙ unfold next_alarm in rw (n, q, l))
          (t.waiting ∙ q ∙ sym (streak_on rule host target before e h v at is_normal first n q))

    pub on_same :
        is_normal judged ≡ false
        → judged ≡ s
        → Tracked
            (record e { checked = insert its_key at e.checked; pending = delete its_key e.pending })
    on_same n j =
        stays_on _
          (alarm_step rule host target before e h v at on ∙ unfold next_alarm in rw n (ap some j))
          (lookup_deleted its_key e.pending
            ∙ sym (streak_stop rule host target before e h v at is_normal n))

    pub on_changed :
        (n : Notice V)
        → n.event ≡ changed
        → n.severity ≡ severity_of judged
        → is_normal judged ≡ false
        → (severity_of judged == severity_of s) ≡ false
        → Tracked (record e {
          alerts = Store.update_alert e.alerts a.id (severity_of judged) v at;
          sent = e.sent ++ (n ∷ []);
          checked = insert its_key at e.checked;
          pending = delete its_key e.pending;
        })
    on_changed n ev sv b d =
        let next : alarm rule ((v, at) ∷ h) ≡ some judged =
          alarm_step rule host target before e h v at on ∙ unfold next_alarm in rw b in
        rw next (record {
          calm = t.calm;
          valid = Laws.update_alert-IsValid e.alerts a.id (severity_of judged) v at t.valid;
          known = unfold Store.update_alert in t.known;
          seen = lookup_inserted its_key at e.checked;
          waiting =
              lookup_deleted its_key e.pending
              ∙ sym (streak_stop rule host target before e h v at is_normal b);
          alert =
              rw
                (Laws.open_alert-update e.alerts host rule.name rule.metric_name target a
                  (severity_of judged) v at t.valid found)
                (refl, ground arith);
          log = speaks rule host target before e h v at n on next (ground (arith, ev, sv)) t.log;
        })

    pub on_resolved :
        (n : Notice V) (first : PendingStatus)
        → n.event ≡ resolved
        → n.severity ≡ 0
        → is_normal judged ≡ true
        → streak rule is_normal h ≡ some first
        → lasted rule at (some first) ≡ true
        → Tracked (record e {
          alerts = Store.resolve_alert e.alerts a.id v at;
          sent = e.sent ++ (n ∷ []);
          checked = insert its_key at e.checked;
          pending = delete its_key e.pending;
        })
    on_resolved n first ev sv b q l =
        let next : alarm rule ((v, at) ∷ h) ≡ none =
          alarm_step rule host target before e h v at on ∙ unfold next_alarm in rw (b, q, l) in
        rw next (record {
          calm = t.calm;
          valid = Laws.resolve_alert-IsValid e.alerts a.id v at t.valid;
          known = unfold Store.resolve_alert in t.known;
          seen = lookup_inserted its_key at e.checked;
          waiting =
              lookup_deleted its_key e.pending
              ∙ sym (streak_stop rule host target before e h v at is_breached (rw b));
          alert =
              rw
                (Laws.open_alert-resolve e.alerts host rule.name rule.metric_name target a v at
                  t.valid found)
                tt;
          log = speaks rule host target before e h v at n on next (ground (arith, ev, sv)) t.log;
        })
