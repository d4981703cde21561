-- ===== src/Accounts/Throttle/Windows.antt =====
-- The map of wrong passwords: a name's window in it (internal/api/login.go).
use sy_mon.Base.{
  ℕ, ◌+◌, ◌≤◌, ◌<◌, String, true, false, ◌||◌, Option, none, some, [], ◌∷◌, if◌then◌else◌, ◌==◌,
  string_eq, ltb, any, length, select, lookup, insert, delete, Unique, Unique-select, any-select,
  ◌≡◌, refl, ◌∙◌, ap, arith, lookup_inserted, inl, inr, Bool-cases, subst,
}
use sy_mon.Accounts.Throttle.{
  FailureWindow, Failures, is_over, is_current, pruned, counted, fail, login_window,
}

abbrev pub name_in : String × FailureWindow → String
name_in e = e.0

-- A window that is over is as good as none.
abbrev pub current : ℕ → Option FailureWindow → Option FailureWindow
current now none = none
current now (some w) = if is_over now w then none else some w

counted-current : (now : ℕ) (o : Option FailureWindow) → counted now (current now o) ≡ counted now o
counted-current now none = refl
counted-current now (some w) = elim (Bool-cases (is_over now w)) [
  | inl e ↦ rw e refl
  | inr e ↦ rw (e, e) refl
]

lookup-absent :
    (name : String) (l : Failures) → any (λ e. name_in e == name) l ≡ false → lookup name l ≡ none
unfolding lookup
lookup-absent name [] e = refl
lookup-absent name ((other, w) ∷ l) e = ground (arith, lookup-absent name l)

pub lookup-select :
    (name : String) (now : ℕ) (l : Failures)
    → Unique name_in l
    → lookup name (select (is_current now) l) ≡ current now (lookup name l)
unfolding lookup
lookup-select name now [] u = refl
lookup-select name now ((other, w) ∷ l) u = elim (Bool-cases (other == name)) [
  | inl e ↦ ground (arith, gone e)
  | inr e ↦ ground (arith, lookup-select name now l u.1)
]
  where
    gone : (other == name) ≡ true → lookup name (select (is_current now) l) ≡ none
    gone e = lookup-absent name (select (is_current now) l) (
        any-select (is_current now) (λ x. name_in x == name) l
          (subst (λ k. any (λ x. name_in x == k) l ≡ false) ((string_eq.beq_iff other name).0 e)
            u.0))

insert-keys :
    (k name : String) (w : FailureWindow) (l : Failures)
    → any (λ e. name_in e == k) (insert name w l) ≡ any (λ e. name_in e == k) l || name == k
unfolding insert
insert-keys k name w [] = ground arith
insert-keys k name w ((other, v) ∷ l) =
    ground (arith, insert-keys k name w l, string_eq.beq_iff other name)

insert-Unique :
    (name : String) (w : FailureWindow) (l : Failures)
    → Unique name_in l
    → Unique name_in (insert name w l)
unfolding insert
insert-Unique name w [] u = (refl, tt)
insert-Unique name w ((other, v) ∷ l) u = elim (Bool-cases (other == name)) [
  | inl e ↦ rw e (
    subst (λ k. any (λ x. name_in x == k) l ≡ false) ((string_eq.beq_iff other name).0 e) u.0,
    u.1,
  )
  | inr e ↦ rw e (
    insert-keys other name w l
        ∙ ground (arith, u.0, string_eq.beq_iff other name, string_eq.beq_iff name other),
    insert-Unique name w l u.1,
  )
]

pruned-Unique : (l : Failures) (now : ℕ) → Unique name_in l → Unique name_in (pruned l now)
pruned-Unique l now u = elim (Bool-cases (ltb 1000 (length l))) [
  | inl e ↦ rw e (Unique-select name_in (is_current now) l u)
  | inr e ↦ rw e u
]

pub fail-Unique :
    (l : Failures) (name : String) (now : ℕ) → Unique name_in l → Unique name_in (fail l name now)
unfolding fail
fail-Unique l name now u = insert-Unique name _ (pruned l now) (pruned-Unique l now u)

counted-pruned :
    (l : Failures) (name : String) (now : ℕ)
    → Unique name_in l
    → counted now (lookup name (pruned l now)) ≡ counted now (lookup name l)
counted-pruned l name now u = elim (Bool-cases (ltb 1000 (length l))) [
  | inl e ↦ rw (e, lookup-select name now l u) (counted-current now (lookup name l))
  | inr e ↦ rw e refl
]

pub lookup-fail :
    (l : Failures) (name : String) (now : ℕ)
    → Unique name_in l
    → lookup name (fail l name now) ≡ some (counted now (lookup name l))
unfolding fail
lookup-fail l name now u =
    lookup_inserted name _ (pruned l now) ∙ ap some (counted-pruned l name now u)

pub running :
    (t : ℕ) (w : FailureWindow) → w.since ≤ t → t < w.since + login_window → is_over t w ≡ false
running t w a b = ground arith

delete-absent :
    (k name : String) (l : Failures)
    → any (λ e. name_in e == k) l ≡ false
    → any (λ e. name_in e == k) (delete name l) ≡ false
unfolding delete
delete-absent k name [] h = refl
delete-absent k name ((other, w) ∷ l) h = ground (arith, h, delete-absent k name l)

pub delete-Unique :
    (name : String) (l : Failures) → Unique name_in l → Unique name_in (delete name l)
unfolding delete
delete-Unique name [] u = tt
delete-Unique name ((other, w) ∷ l) u = elim (Bool-cases (other == name)) [
  | inl e ↦ rw e (delete-Unique name l u.1)
  | inr e ↦ rw e (delete-absent other name l u.0, delete-Unique name l u.1)
]
