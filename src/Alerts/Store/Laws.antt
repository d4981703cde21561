-- ===== src/Alerts/Store/Laws.antt =====
-- The invariant of the alerts table (internal/store/alerts.go) and what its operations do to the open
-- alert of a host, rule, metric and target.
use text.Mathlib.TextEquality.{eq_iff}
use sy_mon.Base.{
  ℕ, ◌≤◌, ◌<◌, String, Bool, true, false, ◌||◌, none, some, List, [], ◌∷◌, string_eq, nat_eq,
  contains, find, is_empty, ok, ◌≡◌, refl, arith, inl, inr, Bool-cases,
}
use sy_mon.Alerts.Data.{Alert}
use sy_mon.Alerts.Store.{
  Alerts, is_open, is_for, open_alert, create_alert, change, update_alert, resolve_alert,
}

false_true : {A : Type 0} {b : Bool} → b ≡ false → b ≡ true → A
false_true e h = cc

module _ {V : Type 0} where
  -- Ids fall along the rows, and below an open row none is open for the same key.
  abbrev pub Below : ℕ → List (Alert V) → Type 0
  Below n [] = Unit
  Below n (a ∷ as') =
      (a.id < n)
      × (is_open a.resolved_at ≡ true → find (is_for a.host a.rule a.metric a.target) as' ≡ none)
      × Below a.id as'

  abbrev pub IsValid : Alerts V → Type 0
  IsValid t = Below t.next_id t.rows

  is_for-eq :
      (h r m t : String) (a : Alert V)
      → is_for h r m t a ≡ true
      → (a.host ≡ h)
        × (a.rule ≡ r)
        × (a.metric ≡ m)
        × (a.target ≡ t)
        × (is_open a.resolved_at ≡ true)
  is_for-eq h r m t a e =
      ground (arith, eq_iff a.host h, eq_iff a.rule r, eq_iff a.metric m, eq_iff a.target t)

  Below-mono : {m n : ℕ} (rows : List (Alert V)) → m ≤ n → Below m rows → Below n rows
  Below-mono [] h b = tt
  Below-mono (a ∷ as') h b = (omega arith, b.1, b.2)

  -- A change of an id above all rows changes nothing.
  change_above :
      (id : ℕ) (g : Alert V → Alert V) (n : ℕ) (rows : List (Alert V))
      → Below n rows
      → n ≤ id
      → change id g rows ≡ rows
  change_above id g n [] b h = refl
  change_above id g n (a ∷ as') b h = ground (arith, change_above id g a.id as' b.2)

  found-Below :
      (p : Alert V → Bool) (n : ℕ) (rows : List (Alert V)) (a : Alert V)
      → Below n rows
      → find p rows ≡ some a
      → a.id < n
  found-Below p n [] a b e = cc
  found-Below p n (x ∷ xs) a b e = ground (arith, found-Below p x.id xs a b.2)

  found_passes :
      (p : Alert V → Bool) (rows : List (Alert V)) (a : Alert V) → find p rows ≡ some a → p a ≡ true
  found_passes p [] a e = cc
  found_passes p (x ∷ xs) a e = ground (arith, found_passes p xs a)

  -- A change of the alert that was found, which leaves what is searched alone, is found.
  find-change_self :
      (p : Alert V → Bool) (g : Alert V → Alert V) (n : ℕ) (rows : List (Alert V)) (a : Alert V)
      → ((x : Alert V) → p (g x) ≡ p x)
      → Below n rows
      → find p rows ≡ some a
      → find p (change a.id g rows) ≡ some (g a)
  find-change_self p g n [] a k b e = cc
  find-change_self p g n (x ∷ xs) a k b e = elim (Bool-cases (p x)) [
    | inl hit ↦ ground (arith, k x)
    | inr miss ↦
        ground (arith, k x, found-Below p x.id xs a b.2, find-change_self p g x.id xs a k b.2)
  ]

  -- A change that makes no row pass finds none where there was none.
  find-change-none :
      (p : Alert V → Bool) (id : ℕ) (g : Alert V → Alert V) (rows : List (Alert V))
      → ((x : Alert V) → p (g x) ≡ true → p x ≡ true)
      → find p rows ≡ none
      → find p (change id g rows) ≡ none
  find-change-none p id g [] k e = refl
  find-change-none p id g (x ∷ xs) k e = ground (arith, k x, find-change-none p id g xs k)

  abbrev close : V → ℕ → Alert V → Alert V
  close value at a = record a { value = value; updated_at = at; resolved_at = some at }

  abbrev revise : ℕ → V → ℕ → Alert V → Alert V
  revise severity value at a = record a { severity = severity; value = value; updated_at = at }

  none_under :
      (h r m t : String) (x : Alert V) (xs : List (Alert V))
      → is_for h r m t x ≡ true
      → (is_open x.resolved_at ≡ true → find (is_for x.host x.rule x.metric x.target) xs ≡ none)
      → find (is_for h r m t) xs ≡ none
  none_under h r m t x xs hit only =
      let q = is_for-eq h r m t x hit in rw (← q.0, ← q.1, ← q.2, ← q.3) (only q.4)

  not_closed :
      (h r m t : String) (value : V) (at : ℕ) (x : Alert V)
      → is_for h r m t (close value at x) ≡ false
  not_closed h r m t value at x = ground arith

  find-close :
      (h r m t : String) (value : V) (at n : ℕ) (rows : List (Alert V)) (a : Alert V)
      → Below n rows
      → find (is_for h r m t) rows ≡ some a
      → find (is_for h r m t) (change a.id (close value at) rows) ≡ none
  find-close h r m t value at n [] a b e = cc
  find-close h r m t value at n (x ∷ xs) a b e = elim (Bool-cases (is_for h r m t x)) [
    | inl hit ↦ ground (
      arith,
      not_closed h r m t value at x,
      change_above a.id (close value at) x.id xs b.2,
      none_under h r m t x xs hit b.1,
    )
    | inr miss ↦ ground (
      arith,
      found-Below (is_for h r m t) x.id xs a b.2,
      find-close h r m t value at x.id xs a b.2,
    )
  ]

  revise-Below :
      (severity : ℕ) (value : V) (at id n : ℕ) (rows : List (Alert V))
      → Below n rows
      → Below n (change id (revise severity value at) rows)
  revise-Below severity value at id n [] b = tt
  revise-Below severity value at id n (x ∷ xs) b =
      let g = revise severity value at in
      ground (
        arith,
        revise-Below severity value at id x.id xs b.2,
        find-change-none (is_for x.host x.rule x.metric x.target) id g xs (λ y h. h),
      )

  close-Below :
      (value : V) (at id n : ℕ) (rows : List (Alert V))
      → Below n rows
      → Below n (change id (close value at) rows)
  close-Below value at id n [] b = tt
  close-Below value at id n (x ∷ xs) b =
      let g = close value at in
      ground (
        arith,
        close-Below value at id x.id xs b.2,
        find-change-none (is_for x.host x.rule x.metric x.target) id g xs
            (λ y h. false_true (not_closed x.host x.rule x.metric x.target value at y) h),
      )

  -- An open alert is one of the key that is asked for.
  pub open_alert_key :
      (t : Alerts V) (h r m k : String) (a : Alert V)
      → open_alert t h r m k ≡ some a
      → (a.host ≡ h) × (a.rule ≡ r) × (a.metric ≡ m) × (a.target ≡ k)
  unfolding open_alert
  open_alert_key t h r m k a e =
      let q = is_for-eq h r m k a (found_passes (is_for h r m k) t.rows a e) in (q.0, q.1, q.2, q.3)

  pub update_alert-IsValid :
      (t : Alerts V) (id severity : ℕ) (value : V) (at : ℕ)
      → IsValid t
      → IsValid (update_alert t id severity value at)
  unfolding update_alert
  update_alert-IsValid t id severity value at b =
      revise-Below severity value at id t.next_id t.rows b

  pub resolve_alert-IsValid :
      (t : Alerts V) (id : ℕ) (value : V) (at : ℕ)
      → IsValid t
      → IsValid (resolve_alert t id value at)
  unfolding resolve_alert
  resolve_alert-IsValid t id value at b = close-Below value at id t.next_id t.rows b

  pub create_alert-IsValid : (t : Alerts V) (a : Alert V) → IsValid t → IsValid (create_alert t a).1
  unfolding create_alert open_alert
  create_alert-IsValid t a b = ground arith

  -- Creating an alert of a known host, where none is open for its key, returns the table's next id
  -- and makes it, with that id, the open one of its key. The hosts stay.
  pub open_alert-create :
      (t : Alerts V) (a : Alert V)
      → (is_empty a.host || contains t.hosts a.host) ≡ true
      → open_alert t a.host a.rule a.metric a.target ≡ none
      → let row = record a { id = t.next_id; updated_at = a.started_at; resolved_at = none } in
        ((create_alert t a).0 ≡ ok t.next_id)
        × (open_alert (create_alert t a).1 a.host a.rule a.metric a.target ≡ some row)
        × ((create_alert t a).1.hosts ≡ t.hosts)
  unfolding create_alert open_alert
  open_alert-create t a known e = ground (
    arith,
    eq_iff a.host a.host,
    eq_iff a.rule a.rule,
    eq_iff a.metric a.metric,
    eq_iff a.target a.target,
  )

  -- In a valid table, an update of the open alert of a key changes its severity, value and time, and
  -- it stays the open one.
  pub open_alert-update :
      (t : Alerts V) (h r m k : String) (a : Alert V) (severity : ℕ) (value : V) (at : ℕ)
      → IsValid t
      → open_alert t h r m k ≡ some a
      → open_alert (update_alert t a.id severity value at) h r m k
        ≡ some (record a { severity = severity; value = value; updated_at = at })
  unfolding update_alert open_alert
  open_alert-update t h r m k a severity value at b e =
      find-change_self (is_for h r m k) (revise severity value at) t.next_id t.rows a (λ x. refl) b
        e

  -- In a valid table, after the open alert of a key is resolved none is open for that key.
  pub open_alert-resolve :
      (t : Alerts V) (h r m k : String) (a : Alert V) (value : V) (at : ℕ)
      → IsValid t
      → open_alert t h r m k ≡ some a
      → open_alert (resolve_alert t a.id value at) h r m k ≡ none
  unfolding resolve_alert open_alert
  open_alert-resolve t h r m k a value at b e = find-close h r m k value at t.next_id t.rows a b e
