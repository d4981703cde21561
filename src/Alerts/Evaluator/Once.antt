-- ===== src/Alerts/Evaluator/Once.antt =====
-- A sample that is checked again, and store calls that fail (collector/evaluator.go).
use sy_mon.Base.{
  ℕ, ◌≤◌, String, Bool, true, false, Option, none, some, List, [], ◌∷◌, Float64, string_eq, lookup,
  insert, lookup_inserted, ok, ◌≡◌, refl, arith, inl, inr, Bool-cases,
}
use sy_mon.Rules.{AlertConfig}
use sy_mon.Alerts.Data.{StatusType, Alert}
use sy_mon.Alerts.Status.{rule_status, alert_key}
use sy_mon.Alerts.Text.{Format}
use sy_mon.Alerts.Evaluator.{
  Evaluator, query, open_alert, create_alert, update_alert, resolve_alert, set_pending,
  clear_pending, tell, resolve_open, update_open, create_open, open_if_breached, act_on, check,
  is_seen,
}

module _ {V : Type 0} ⦃f : Float64 V⦄ (fmt : Format V) (rule : AlertConfig)
    (host target : String) where
  create_open-checked :
      (key : String) (s : StatusType) (v : V) (at : ℕ) (e : Evaluator V)
      → (create_open fmt rule host target key s v at e).1.checked ≡ e.checked
  unfolding create_open create_alert query clear_pending tell
  create_open-checked key s v at e = ground arith

  open_if_breached-checked :
      (key : String) (s : StatusType) (v : V) (at : ℕ) (e : Evaluator V)
      → (open_if_breached fmt rule host target key s v at e).1.checked ≡ e.checked
  unfolding open_if_breached set_pending clear_pending
  open_if_breached-checked key s v at e = ground (arith, create_open-checked key s v at e)

  resolve_open-checked :
      (key : String) (a : Alert V) (v : V) (at : ℕ) (e : Evaluator V)
      → (resolve_open fmt rule host key a v at e).1.checked ≡ e.checked
  unfolding resolve_open resolve_alert query clear_pending tell
  resolve_open-checked key a v at e = ground arith

  update_open-checked :
      (key : String) (a : Alert V) (s : StatusType) (v : V) (at : ℕ) (e : Evaluator V)
      → (update_open fmt rule host key a s v at e).1.checked ≡ e.checked
  unfolding update_open set_pending clear_pending update_alert query tell
  update_open-checked key a s v at e = ground (arith, resolve_open-checked key a v at e)

  act_on-checked :
      (key : String) (v : V) (at : ℕ) (a : Option (Alert V)) (e : Evaluator V)
      → (act_on fmt rule host target key v at a e).1.checked ≡ e.checked
  unfolding act_on
  act_on-checked key v at none e = open_if_breached-checked key (rule_status rule v) v at e
  act_on-checked key v at (some a) e = update_open-checked key a (rule_status rule v) v at e

  new-checked :
      (v : V) (at : ℕ) (e : Evaluator V) (fs : List Bool)
      → e.faults ≡ fs
      → is_seen at (lookup (alert_key host rule target) e.checked) ≡ false
      → (check fmt rule host target v at e).1.checked
        ≡ insert (alert_key host rule target) at e.checked
  unfolding check open_alert query
  new-checked v at e [] p n = rw (n, p) (act_on-checked (alert_key host rule target) v at _ _)
  new-checked v at e (true ∷ fs) p n = rw (n, p)
  new-checked v at e (false ∷ fs) p n =
      rw (n, p) (act_on-checked (alert_key host rule target) v at _ _)

  seen_same : (at : ℕ) → is_seen at (some at) ≡ true
  seen_same at = ground arith

  -- After a check the sample's time counts as seen.
  check-seen :
      (v : V) (at : ℕ) (e : Evaluator V)
      → is_seen at
          (lookup (alert_key host rule target) (check fmt rule host target v at e).1.checked)
        ≡ true
  check-seen v at e =
      elim (Bool-cases (is_seen at (lookup (alert_key host rule target) e.checked))) [
        | inl y ↦ unfold check in rw y y
        | inr n ↦
            rw
              (
                new-checked v at e e.faults refl n,
                lookup_inserted (alert_key host rule target) at e.checked,
              )
              (seen_same at)
      ]

  seen_earlier :
      (at before : ℕ) (last : Option ℕ)
      → before ≤ at
      → is_seen at last ≡ true
      → is_seen before last ≡ true
  seen_earlier at before last h s = ground arith

  -- After a sample was checked, whether the store calls worked or not, checking a sample that is not
  -- newer does nothing: it returns no error and leaves the maps, the table and the notices.
  pub check-check :
      (v w : V) (at before : ℕ) (e : Evaluator V)
      → before ≤ at
      → let e' = (check fmt rule host target v at e).1 in
        check fmt rule host target w before e' ≡ (ok tt, e')
  check-check v w at before e h = skips w before _ (seen_earlier at before _ h (check-seen v at e))
    where
      skips :
          (w : V) (before : ℕ) (e' : Evaluator V)
          → is_seen before (lookup (alert_key host rule target) e'.checked) ≡ true
          → check fmt rule host target w before e' ≡ (ok tt, e')
      skips w before e' y = unfold check in rw y
