-- ===== src/Alerts/Evaluator/Step.antt =====
-- One more sample: the code's branches and the specification (collector/evaluator.go).
use sy_mon.Base.{
  ℕ, String, Bool, true, false, Option, none, some, List, [], ◌∷◌, ◌++◌, Float64, nat_eq, string_eq,
  ◌==◌, insert, delete, ◌≡◌, refl, arith, inl, inr, Bool-cases, Option-cases, sym, subst,
}
use sy_mon.Rules.{AlertConfig}
use sy_mon.Alerts.Data.{
  StatusType, normal, Event, opened, changed, resolved, Alert, Notice, severity_of, is_normal,
}
use sy_mon.Alerts.Status.{rule_status, alert_key, FitsDuration}
use sy_mon.Alerts.Text.{Format}
use sy_mon.Alerts.Store
use sy_mon.Alerts.Store.{Alerts}
use sy_mon.Alerts.Store.Laws
use sy_mon.Alerts.Evaluator.{
  PendingStatus, Evaluator, query, create_alert, update_alert, resolve_alert, set_pending,
  clear_pending, tell, message, resolve_open, update_open, create_open, open_if_breached, act_on,
}
use sy_mon.Alerts.Evaluator.History.{streak, is_breached, lasted, alarm}
use sy_mon.Alerts.Evaluator.Tracks.{TracksAs, SameAlarm, open_of}
use sy_mon.Alerts.Evaluator.Off.{
  too_early_lem, off_normal, off_first, off_waiting, off_opens, new_row, opened_state,
}
use sy_mon.Alerts.Evaluator.On.{on_first, on_waiting, on_same, on_changed, on_resolved}

normal_of : (s : StatusType) → is_normal s ≡ true → s ≡ normal
normal_of s h = ground arith

severity_inj : (s t : StatusType) → (severity_of s == severity_of t) ≡ true → s ≡ t
severity_inj s t h = ground arith

module _ {V : Type 0} ⦃f : Float64 V⦄ (fmt : Format V) (rule : AlertConfig)
    (host target : String) where
  abbrev pub key : String
  key = alert_key host rule target

  -- The time of the sample is noted first.
  abbrev pub noted : Evaluator V → ℕ → Evaluator V
  noted e at = record e { checked = insert key at e.checked }

  -- The run begins with a sample of its kind.
  streak_status :
      (p : StatusType → Bool) (h : List (V × ℕ)) (first : PendingStatus)
      → streak rule p h ≡ some first
      → p first.status ≡ true
  unfolding streak
  streak_status p [] first e = cc
  streak_status p ((v, at) ∷ h) first e = ground (arith, streak_status p h first)

  module _ (before : List (Event × ℕ)) (e : Evaluator V) (h : List (V × ℕ)) (v : V) (at : ℕ)
      (interval : FitsDuration rule) where
    abbrev Tracked : Evaluator V → Type 0
    Tracked e' = TracksAs rule host target (alarm rule ((v, at) ∷ h)) before e' ((v, at) ∷ h)

    abbrev judged : StatusType
    judged = rule_status rule v

    -- What is told when the alert opens.
    opening : Alerts V → ℕ → Notice V
    opening alerts id =
        let e' = record e {
          alerts = alerts;
          checked = insert key at e.checked;
          pending = delete key e.pending;
        } in
        message fmt e' rule host target id opened judged v at

    created :
        (off : alarm rule h ≡ none)
        → (t : TracksAs rule host target none before e h) → open_of rule host target e ≡ none
        → let row = new_row rule host target before e h v at interval off t in
          (create_open fmt rule host target key judged v at (noted e at)).1
          ≡ opened_state rule host target before e h v at interval off t
              (opening (Store.create_alert e.alerts row).1 e.alerts.next_id)
    unfolding create_open create_alert query clear_pending tell opening
    created off t o =
        let row = new_row rule host target before e h v at interval off t in
        rw (t.calm, (Laws.open_alert-create e.alerts row t.known o).0)

    creates :
        alarm rule h ≡ none
        → TracksAs rule host target none before e h
        → open_of rule host target e ≡ none
        → is_normal judged ≡ false
        → (first : PendingStatus) → streak rule is_breached h ≡ some first
        → lasted rule at (some first) ≡ true
        → Tracked (create_open fmt rule host target key judged v at (noted e at)).1
    creates off t o b first q l =
        let row = new_row rule host target before e h v at interval off t in
        let made = Laws.open_alert-create e.alerts row t.known o in
        let n = opening (Store.create_alert e.alerts row).1 e.alerts.next_id in
        subst Tracked (sym (created off t o)) (
          off_opens rule host target before e h v at interval off t n first
            (unfold opening message in refl) (unfold opening message in refl) b o q l)

    off_started :
        alarm rule h ≡ none
        → TracksAs rule host target none before e h
        → open_of rule host target e ≡ none
        → is_normal judged ≡ false
        → (first : PendingStatus) → streak rule is_breached h ≡ some first
        → is_breached first.status ≡ true
        → Tracked (open_if_breached fmt rule host target key judged v at (noted e at)).1
    unfolding open_if_breached
    off_started off t o b first q w = elim (Bool-cases (lasted rule at (some first))) [
      | inl l ↦
          rw (b, t.waiting, q, w, too_early_lem rule at first interval, l)
            (creates off t o b first q l)
      | inr l ↦
          rw (b, t.waiting, q, w, too_early_lem rule at first interval, l)
            (off_waiting rule host target before e h v at interval off t first b q l)
    ]

    off_step :
        alarm rule h ≡ none
        → TracksAs rule host target none before e h
        → open_of rule host target e ≡ none
        → Tracked (open_if_breached fmt rule host target key judged v at (noted e at)).1
    unfolding open_if_breached set_pending clear_pending
    off_step off t o = elim (Bool-cases (is_normal judged)) [
      | inl n ↦ rw n (off_normal rule host target before e h v at interval off t n)
      | inr b ↦ elim (Option-cases (streak rule is_breached h)) [
        | inl q ↦
            rw (b, t.waiting, q) (off_first rule host target before e h v at interval off t b q)
        | inr (first, q) ↦ off_started off t o b first q (streak_status is_breached h first q)
      ]
    ]

    module _ (s : StatusType) (on : alarm rule h ≡ some s)
        (t : TracksAs rule host target (some s) before e h) (a : Alert V)
        (found : open_of rule host target e ≡ some a) where
      abbrev cleared : Evaluator V
      cleared = record e { checked = insert key at e.checked; pending = delete key e.pending }

      same_severity : a.severity ≡ severity_of s
      same_severity = (subst (λ o. SameAlarm o (some s)) found t.alert).0

      resolving : Notice V
      resolving =
          let e' = record cleared { alerts = Store.resolve_alert e.alerts a.id v at } in
          message fmt e' rule host a.target a.id resolved normal v at

      changing : Notice V
      changing =
          let e' = record cleared {
            alerts = Store.update_alert e.alerts a.id (severity_of judged) v at;
          } in
          message fmt e' rule host a.target a.id changed judged v at

      resolves :
          (first : PendingStatus)
          → is_normal judged ≡ true
          → streak rule is_normal h ≡ some first
          → is_normal first.status ≡ true
          → lasted rule at (some first) ≡ true
          → (update_open fmt rule host key a judged v at (noted e at)).1 ≡ record cleared {
            alerts = Store.resolve_alert e.alerts a.id v at;
            sent = e.sent ++ (resolving ∷ []);
          }
      unfolding update_open resolve_open resolve_alert query clear_pending tell resolving
      resolves first n q w l =
          rw (n, t.waiting, q, w, too_early_lem rule at first interval, l, t.calm)

      changes :
          is_normal judged ≡ false
          → (severity_of judged == a.severity) ≡ false
          → (update_open fmt rule host key a judged v at (noted e at)).1 ≡ record cleared {
            alerts = Store.update_alert e.alerts a.id (severity_of judged) v at;
            sent = e.sent ++ (changing ∷ []);
          }
      unfolding update_open update_alert query clear_pending tell changing
      changes b d = rw (b, d, t.calm)

      on_normal :
          is_normal judged ≡ true
          → Tracked (update_open fmt rule host key a judged v at (noted e at)).1
      unfolding update_open set_pending
      on_normal n = elim (Option-cases (streak rule is_normal h)) [
        | inl q ↦
            rw (n, t.waiting, q)
              (subst
                (λ x. Tracked (record e {
                  checked = insert key at e.checked;
                  pending = insert key (record { status = x; since = at }) e.pending;
                }))
                (normal_of judged n) (on_first rule host target before e h v at s on t a found n q))
        | inr (first, q) ↦ elim (Bool-cases (lasted rule at (some first))) [
          | inl l ↦ subst Tracked (sym (resolves first n q (streak_status is_normal h first q) l)) (
              on_resolved rule host target before e h v at s on t a found resolving first
                (unfold resolving message in refl) (unfold resolving message in refl) n q l)
          | inr l ↦
              rw
                (
                  n,
                  t.waiting,
                  q,
                  streak_status is_normal h first q,
                  too_early_lem rule at first interval,
                  l,
                )
                (on_waiting rule host target before e h v at s on t a found first n q l)
        ]
      ]

      on_breached :
          is_normal judged ≡ false
          → Tracked (update_open fmt rule host key a judged v at (noted e at)).1
      unfolding update_open clear_pending
      on_breached b = elim (Bool-cases (severity_of judged == a.severity)) [
        | inl d ↦
            rw (b, d)
              (on_same rule host target before e h v at s on t a found b
                (severity_inj judged s (rw (← same_severity) d)))
        | inr d ↦ subst Tracked (sym (changes b d)) (
            on_changed rule host target before e h v at s on t a found changing
              (unfold changing message in refl) (unfold changing message in refl) b
              (rw (← same_severity) d))
      ]

      on_step : Tracked (update_open fmt rule host key a judged v at (noted e at)).1
      on_step = elim (Bool-cases (is_normal judged)) [ inl n ↦ on_normal n | inr b ↦ on_breached b ]

  -- One more sample, whether an alert is open or not.
  pub act_step :
      (before : List (Event × ℕ)) (e : Evaluator V) (h : List (V × ℕ)) (v : V) (at : ℕ)
      → FitsDuration rule
      → (s : Option StatusType) → alarm rule h ≡ s
      → TracksAs rule host target s before e h
      → (a : Option (Alert V)) → open_of rule host target e ≡ a
      → TracksAs rule host target
          (alarm rule ((v, at) ∷ h))
          before
          (act_on fmt rule host target key v at a (noted e at)).1
          ((v, at) ∷ h)
  unfolding act_on
  act_step before e h v at i none p t none o = off_step before e h v at i p t o
  act_step before e h v at i none p t (some a) o = absurd (subst (λ x. SameAlarm x none) o t.alert)
  act_step before e h v at i (some s) p t none o =
      absurd (subst (λ x. SameAlarm x (some s)) o t.alert)
  act_step before e h v at i (some s) p t (some a) o = on_step before e h v at i s p t a o
