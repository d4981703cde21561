-- ===== src/Accounts/Throttle/Guesses.antt =====
-- How many wrong passwords can be tried for a name (internal/api/login.go).
use sy_mon.Base.{
  ℕ, suc, ◌+◌, ◌-◌, ◌≤◌, ◌<◌, String, true, false, Option, none, some, List, [], ◌∷◌, if◌then◌else◌,
  ◌==◌, string_eq, ltb, length, lookup, insert, lookup-insert, lookup-delete, All, leb, ◌⊎◌, Bool,
  Unique, ◌≡◌, refl, ◌∙◌, ap, arith, inl, inr, Bool-cases, subst, Result, ok, err,
}
use sy_mon.Accounts.Users.{Accounts, UserError, bad_login}
use sy_mon.Accounts.Throttle.{
  FailureWindow, Failures, is_over, blocks, blocked, pruned, counted, fail, clear, login_limit,
  login_window, LoginError, too_many_logins, store_error, check_login,
}
use sy_mon.Accounts.Throttle.Windows.{
  name_in, current, lookup-select, fail-Unique, lookup-fail, running, delete-Unique,
}

-- A login: whether the password is right, when the throttle is asked, and when it counts.
pub record Login : Type 0 where
  pub name : String
  pub is_right : Bool
  pub asked : ℕ
  pub answered : ℕ

abbrev pub outcome : Bool → Result UserError (Unit {0})
outcome right = if right then ok tt else err bad_login

abbrev pub call : Failures → Accounts → Login → Result LoginError (Unit {0}) × Failures × Accounts
call l a g = check_login l a g.name g.asked g.answered (λ b. (outcome g.is_right, b))

abbrev pub is_checked : Result LoginError (Unit {0}) → ℕ
is_checked (ok x) = 1
is_checked (err too_many_logins) = 0
is_checked (err (store_error e)) = 1

-- How many passwords for the name are checked in these logins.
abbrev pub tries : Failures → Accounts → String → List Login → ℕ
tries l a name [] = 0
tries l a name (g ∷ gs) =
    (if g.name == name then is_checked (call l a g).0 else 0) + tries (call l a g).1 a name gs

-- One after the other, from one time on and before another.
abbrev pub Between : ℕ → ℕ → List Login → Type 0
Between low high [] = Unit
Between low high (g ∷ gs) =
    (low ≤ g.asked) × (g.asked ≤ g.answered) × (g.answered < high) × Between g.answered high gs

-- No right password for the name.
abbrev pub OnlyWrong : String → List Login → Type 0
OnlyWrong name gs = All (λ g. g.name ≡ name → g.is_right ≡ false) gs

call-Unique :
    (l : Failures) (a : Accounts) (g : Login) → Unique name_in l → Unique name_in (call l a g).1
unfolding check_login clear
call-Unique l a g u = elim (Bool-cases (blocked l g.name g.asked)) [
  | inl e ↦ rw e u
  | inr e ↦ elim (Bool-cases g.is_right) [
    | inl r ↦ rw (e, r) (delete-Unique g.name l u)
    | inr r ↦ rw (e, r) (fail-Unique l g.name g.answered u)
  ]
]

-- A wrong password: whether it is checked, and the name's window then.
call-wrong :
    (l : Failures) (a : Accounts) (g : Login)
    → g.is_right ≡ false
    → Unique name_in l
    → (is_checked (call l a g).0 ≡ (if blocks g.asked (lookup g.name l) then 0 else 1))
      × (lookup g.name (call l a g).1 ≡ (
          if blocks g.asked (lookup g.name l)
          then lookup g.name l
          else some (counted g.answered (lookup g.name l))))
unfolding check_login blocked
call-wrong l a g r u = elim (Bool-cases (blocks g.asked (lookup g.name l))) [
  | inl e ↦ rw e (refl, refl)
  | inr e ↦ rw (e, r) (refl, lookup-fail l g.name g.answered u)
]

-- Another name's login may only drop the name's window, when that is over.
call-other :
    (l : Failures) (a : Accounts) (name : String) (g : Login)
    → (g.name == name) ≡ false
    → Unique name_in l
    → (lookup name (call l a g).1 ≡ lookup name l)
      ⊎ (lookup name (call l a g).1 ≡ current g.answered (lookup name l))
unfolding check_login clear fail
call-other l a name g n u = elim (Bool-cases (blocked l g.name g.asked)) [
  | inl e ↦ rw e (inl refl)
  | inr e ↦ elim (Bool-cases g.is_right) [
    | inl r ↦ rw (e, r) (inl (lookup-delete g.name name l ∙ ground (arith, n)))
    | inr r ↦
        rw (e, r)
          (elim (Bool-cases (ltb 1000 (length l))) [
            | inl f ↦ inr (kept _ ∙ rw f (lookup-select name g.answered l u))
            | inr f ↦ inl (kept _ ∙ rw f refl)
          ])
  ]
]
  where
    kept :
        (w : FailureWindow)
        → lookup name (insert g.name w (pruned l g.answered)) ≡ lookup name (pruned l g.answered)
    kept w = lookup-insert g.name name w (pruned l g.answered) ∙ ground (arith, n)

abbrev pub room : Option FailureWindow → ℕ
room none = 0
room (some w) = login_limit - w.count

abbrev grown : FailureWindow → FailureWindow
grown w = record { count = suc w.count; since = w.since }

then_taken {ℓ} :
    {A : Type ℓ} {b : Bool} {x : A} (y z : A) → b ≡ true → x ≡ (if b then y else z) → x ≡ y
then_taken y z e c = c ∙ ap (λ d. if d then y else z) e

else_taken {ℓ} :
    {A : Type ℓ} {b : Bool} {x : A} (y z : A) → b ≡ false → x ≡ (if b then y else z) → x ≡ z
else_taken y z e c = c ∙ ap (λ d. if d then y else z) e

module _ (a : Accounts) (name : String) (high : ℕ) where
  -- What a wrong password for the name comes to.
  own :
      (l : Failures) (g : Login) (o : Option FailureWindow)
      → lookup name l ≡ o
      → (g.name == name) ≡ true
      → (g.name ≡ name → g.is_right ≡ false)
      → Unique name_in l
      → (is_checked (call l a g).0 ≡ (if blocks g.asked o then 0 else 1))
        × (lookup name (call l a g).1
            ≡ (if blocks g.asked o then o else some (counted g.answered o)))
  own l g o h e r u =
      subst
        (λ k.
          (is_checked (call l a g).0 ≡ (if blocks g.asked k then 0 else 1))
          × (lookup name (call l a g).1
              ≡ (if blocks g.asked k then k else some (counted g.answered k))))
        h
        (subst
          (λ k.
            (is_checked (call l a g).0 ≡ (if blocks g.asked (lookup k l) then 0 else 1))
            × (lookup k (call l a g).1 ≡ (
                if blocks g.asked (lookup k l)
                then lookup k l
                else some (counted g.answered (lookup k l)))))
          ((string_eq.beq_iff g.name name).0 e)
          (call-wrong l a g (r ((string_eq.beq_iff g.name name).0 e)) u))

  -- One login while a window runs, when the bound holds of those after it.
  within_step :
      (g : Login) (gs : List Login) (l : Failures) (w : FailureWindow) (low : ℕ)
      → lookup name l ≡ some w
      → w.since ≤ low
      → high ≤ w.since + login_window
      → Between low high (g ∷ gs)
      → OnlyWrong name (g ∷ gs)
      → Unique name_in l
      → ((v : FailureWindow)
          → v.since ≡ w.since
          → lookup name (call l a g).1 ≡ some v
          → tries (call l a g).1 a name gs ≤ login_limit - v.count)
      → tries l a name (g ∷ gs) ≤ login_limit - w.count
  within_step g gs l w low h s t b o u next = elim (Bool-cases (g.name == name)) [
    | inl e ↦ rw e (mine (own l g (some w) h e o.0 u))
    | inr e ↦ rw e (elim (call-other l a name g e u) [
      | inl k ↦ omega (arith, next w refl (k ∙ h))
      | inr k ↦
          omega (arith, next w refl (k ∙ ap (current g.answered) h ∙ rw answered_running refl))
    ])
  ]
    where
      asked_running : is_over g.asked w ≡ false
      asked_running = running g.asked w (omega (arith, s, b.0)) (omega (arith, t, b.1, b.2))

      answered_running : is_over g.answered w ≡ false
      answered_running = running g.answered w (omega (arith, s, b.0, b.1)) (omega (arith, t, b.2))

      mine :
          (is_checked (call l a g).0 ≡ (if blocks g.asked (some w) then 0 else 1))
            × (lookup name (call l a g).1
                ≡ (if blocks g.asked (some w) then some w else some (counted g.answered (some w))))
          → is_checked (call l a g).0 + tries (call l a g).1 a name gs ≤ login_limit - w.count
      mine (c, k) = elim (Bool-cases (leb login_limit w.count)) [
        | inl f ↦
            omega
              (arith, then_taken _ _ (blocking f) c, next w refl (then_taken _ _ (blocking f) k))
        | inr f ↦ omega (
          arith,
          else_taken _ _ (passing f) c,
          next (grown w) refl (else_taken _ _ (passing f) k ∙ rw answered_running refl),
          below f,
        )
      ]
        where
          blocking : leb login_limit w.count ≡ true → blocks g.asked (some w) ≡ true
          blocking f = rw (f, asked_running) refl

          passing : leb login_limit w.count ≡ false → blocks g.asked (some w) ≡ false
          passing f = rw f refl

          below : leb login_limit w.count ≡ false → w.count < login_limit
          below f = ground (arith, f)

  within :
      (gs : List Login) (l : Failures) (w : FailureWindow) (low : ℕ)
      → lookup name l ≡ some w
      → w.since ≤ low
      → high ≤ w.since + login_window
      → Between low high gs
      → OnlyWrong name gs
      → Unique name_in l
      → tries l a name gs ≤ login_limit - w.count
  within [] l w low h s t b o u = omega arith
  within (g ∷ gs) l w low h s t b o u = within_step g gs l w low h s t b o u (λ v q k.
      within gs (call l a g).1 v g.answered k (omega (arith, q, s, b.0, b.1)) (omega (arith, q, t))
        b.3 o.1 (call-Unique l a g u))

  -- With the window that starts now.
  fresh :
      (gs : List Login) (l : Failures) (now : ℕ)
      → lookup name l ≡ some (record { count = 1; since = now })
      → high ≤ now + login_window
      → Between now high gs
      → OnlyWrong name gs
      → Unique name_in l
      → tries l a name gs ≤ login_limit - 1
  fresh gs l now h t b o u = within gs l _ now h (omega arith) t b o u

  -- One login, when the bound holds of those after it.
  across_step :
      (g : Login) (gs : List Login) (l : Failures) (w : Option FailureWindow)
      → lookup name l ≡ w
      → high ≤ g.answered + login_window
      → g.asked ≤ g.answered
      → Between g.answered high gs
      → OnlyWrong name (g ∷ gs)
      → Unique name_in l
      → ((v : Option FailureWindow)
          → lookup name (call l a g).1 ≡ v
          → tries (call l a g).1 a name gs ≤ room v + login_limit)
      → tries l a name (g ∷ gs) ≤ room w + login_limit
  across_step g gs l w h t i b o u next = elim (Bool-cases (g.name == name)) [
    | inl e ↦ rw e (mine w (own l g w h e o.0 u))
    | inr e ↦ rw e (elim (call-other l a name g e u) [
      | inl k ↦ omega (arith, next w (k ∙ h))
      | inr k ↦ omega (arith, dropped w (k ∙ ap (current g.answered) h))
    ])
  ]
    where
      dropped :
          (v : Option FailureWindow)
          → lookup name (call l a g).1 ≡ current g.answered v
          → tries (call l a g).1 a name gs ≤ room v + login_limit
      dropped none k = next none k
      dropped (some v) k = elim (Bool-cases (is_over g.answered v)) [
        | inl f ↦ omega (arith, next none (k ∙ rw f refl))
        | inr f ↦ next (some v) (k ∙ rw f refl)
      ]

      begun :
          lookup name (call l a g).1 ≡ some (record { count = 1; since = g.answered })
          → tries (call l a g).1 a name gs ≤ login_limit - 1
      begun k = fresh gs (call l a g).1 g.answered k t b o.1 (call-Unique l a g u)

      few :
          (v : FailureWindow)
          → is_over g.answered v ≡ false
          → blocks g.asked (some v) ≡ false
          → v.count < login_limit
      few v f e = ground (arith, e, f, i)

      mine :
          (v : Option FailureWindow)
          → (is_checked (call l a g).0 ≡ (if blocks g.asked v then 0 else 1))
            × (lookup name (call l a g).1
                ≡ (if blocks g.asked v then v else some (counted g.answered v)))
          → is_checked (call l a g).0 + tries (call l a g).1 a name gs ≤ room v + login_limit
      mine none (c, k) = omega (arith, c, begun k)
      mine (some v) (c, k) = elim (Bool-cases (blocks g.asked (some v))) [
        | inl e ↦ omega (arith, then_taken _ _ e c, next (some v) (then_taken _ _ e k))
        | inr e ↦ elim (Bool-cases (is_over g.answered v)) [
          | inl f ↦ omega (arith, else_taken _ _ e c, begun (else_taken _ _ e k ∙ rw f refl))
          | inr f ↦ omega (
            arith,
            else_taken _ _ e c,
            next (some (grown v)) (else_taken _ _ e k ∙ rw f refl),
            few v f e,
          )
        ]
      ]

  across :
      (gs : List Login) (l : Failures) (w : Option FailureWindow) (low : ℕ)
      → lookup name l ≡ w
      → high ≤ low + login_window
      → Between low high gs
      → OnlyWrong name gs
      → Unique name_in l
      → tries l a name gs ≤ room w + login_limit
  across [] l w low h t b o u = omega arith
  across (g ∷ gs) l w low h t b o u =
      across_step g gs l w h (omega (arith, t, b.0, b.1)) b.1 b.3 o u (λ v k.
        across gs (call l a g).1 v g.answered k (omega (arith, t, b.0, b.1)) b.3 o.1
          (call-Unique l a g u))

room_bound : (o : Option FailureWindow) → room o ≤ login_limit
room_bound none = omega arith
room_bound (some w) = omega arith

-- When logins, with any passwords for other names and wrong ones for this name, come one after the
-- other within fifteen minutes, each once the one before is answered, at most ten passwords for this
-- name are checked, and as many more as the window that is counted at their start has left: ten at
-- most, and none when nothing is counted for the name.
pub tries-bound :
    (l : Failures) (a : Accounts) (name : String) (low : ℕ) (gs : List Login)
    → Unique name_in l
    → Between low (low + login_window) gs
    → OnlyWrong name gs
    → (tries l a name gs ≤ room (lookup name l) + login_limit)
      × (room (lookup name l) ≤ login_limit)
      × (room none ≡ 0)
tries-bound l a name low gs u b o = (
  across a name (low + login_window) gs l (lookup name l) low refl (omega arith) b o u,
  room_bound (lookup name l),
  refl,
)
