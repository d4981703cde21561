-- ===== src/Base/Rows.antt =====
-- Tables as lists of rows: `UPDATE … SET … WHERE`, keys that are unique, and what a query finds.
use Prim.Native.Nat.{◌≤◌}
use mathlib.Core.Path.{◌≡◌, refl, sym, ◌∙◌, subst}
use mathlib.Core.Logic.{inl, inr}
use mathlib.Core.Bool.{Bool, true, false}
use mathlib.Core.List.{List, [], ◌∷◌, ◌++◌}
use mathlib.Core.Option.{Option, none, some}
use native.Mathlib.Omega.{arith}
use sy_mon.Base.Tests.{Eq, ◌==◌, if◌then◌else◌, Bool-cases}
use sy_mon.Base.Lists.{length, select, find, any, All}

module _ {ℓ} {A : Type ℓ} where
  abbrev pub change : (A → Bool) → (A → A) → List A → List A
  change p g [] = []
  change p g (x ∷ xs) = (if p x then g x else x) ∷ change p g xs

  abbrev pub change_found : (A → Bool) → (A → A) → Option A → Option A
  change_found p g none = none
  change_found p g (some x) = some (if p x then g x else x)

  pub All-select {κ} :
      (P : A → Type κ) (p : A → Bool) (xs : List A) → All P xs → All P (select p xs)
  All-select P p [] a = tt
  All-select P p (x ∷ xs) a = elim (Bool-cases (p x)) [
    | inl e ↦ rw e (a.0, All-select P p xs a.1)
    | inr e ↦ rw e (All-select P p xs a.1)
  ]

  pub selected : (p : A → Bool) (xs : List A) → All (λ x. p x ≡ true) (select p xs)
  selected p [] = tt
  selected p (x ∷ xs) = elim (Bool-cases (p x)) [
    | inl e ↦ rw e (e, selected p xs)
    | inr e ↦ rw e (selected p xs)
  ]

  pub All-change {κ μ} :
      (P : A → Type κ) (Q : A → Type μ) (p : A → Bool) (g : A → A) (xs : List A)
      → ((x : A) → P x → p x ≡ true → Q (g x))
      → ((x : A) → P x → p x ≡ false → Q x)
      → All P xs
      → All Q (change p g xs)
  All-change P Q p g [] h k a = tt
  All-change P Q p g (x ∷ xs) h k a = elim (Bool-cases (p x)) [
    | inl e ↦ rw e (h x a.0 e, All-change P Q p g xs h k a.1)
    | inr e ↦ rw e (k x a.0 e, All-change P Q p g xs h k a.1)
  ]

  pub All-map {κ μ} :
      (P : A → Type κ) (Q : A → Type μ) (xs : List A) → ((x : A) → P x → Q x) → All P xs → All Q xs
  All-map P Q [] h a = tt
  All-map P Q (x ∷ xs) h a = (h x a.0, All-map P Q xs h a.1)

  pub All-both {κ μ} :
      (P : A → Type κ) (Q : A → Type μ) (xs : List A)
      → All P xs
      → All Q xs
      → All (λ x. P x × Q x) xs
  All-both P Q [] a b = tt
  All-both P Q (x ∷ xs) a b = ((a.0, b.0), All-both P Q xs a.1 b.1)

  pub All-snoc {κ} : (P : A → Type κ) (xs : List A) (x : A) → All P xs → P x → All P (xs ++ x ∷ [])
  All-snoc P [] x a h = (h, tt)
  All-snoc P (y ∷ xs) x a h = (a.0, All-snoc P xs x a.1 h)

  pub found {κ} :
      (P : A → Type κ) (p : A → Bool) (xs : List A) {x : A}
      → find p xs ≡ some x
      → All P xs
      → P x × (p x ≡ true)
  found P p [] e a = cc
  found P p (y ∷ ys) {x} e a = elim (Bool-cases (p y)) [
    | inl t ↦ subst (λ z. P z × (p z ≡ true)) (same t) (a.0, t)
    | inr t ↦ found P p ys (later t) a.1
  ]
    where
      same : p y ≡ true → y ≡ x
      same t = ground arith

      later : p y ≡ false → find p ys ≡ some x
      later t = ground arith

  pub found_test : (p : A → Bool) (xs : List A) {x : A} → find p xs ≡ some x → p x ≡ true
  found_test p [] e = cc
  found_test p (y ∷ ys) {x} e = elim (Bool-cases (p y)) [
    | inl t ↦ subst (λ z. p z ≡ true) (same t) t
    | inr t ↦ found_test p ys (later t)
  ]
    where
      same : p y ≡ true → y ≡ x
      same t = ground arith

      later : p y ≡ false → find p ys ≡ some x
      later t = ground arith

  pub find-snoc :
      (p : A → Bool) (xs : List A) (x : A)
      → any p xs ≡ false
      → p x ≡ true
      → find p (xs ++ x ∷ []) ≡ some x
  find-snoc p [] x e h = rw h refl
  find-snoc p (y ∷ ys) x e h = ground (arith, find-snoc p ys x)

  pub find-other :
      (p : A → Bool) (xs : List A) (x : A) → p x ≡ false → find p (xs ++ x ∷ []) ≡ find p xs
  find-other p [] x h = rw h refl
  find-other p (y ∷ ys) x h = ground (arith, find-other p ys x)

  pub find-none : (p : A → Bool) (xs : List A) → any p xs ≡ false → find p xs ≡ none
  find-none p [] e = refl
  find-none p (y ∷ ys) e = ground (arith, find-none p ys)

  pub find-change :
      (p q : A → Bool) (g : A → A) (xs : List A)
      → ((x : A) → q (g x) ≡ q x)
      → find q (change p g xs) ≡ change_found p g (find q xs)
  find-change p q g [] h = refl
  find-change p q g (x ∷ xs) h = ground (arith, h x, find-change p q g xs h)

  pub none_found : (p : A → Bool) (xs : List A) → find p xs ≡ none → any p xs ≡ false
  none_found p [] e = refl
  none_found p (y ∷ ys) e = ground (arith, none_found p ys)

  -- A row that is kept is still the first that a query finds.
  pub find-select :
      (p q : A → Bool) (xs : List A) {x : A}
      → find p xs ≡ some x
      → q x ≡ true
      → find p (select q xs) ≡ some x
  find-select p q [] e h = cc
  find-select p q (y ∷ ys) {x} e h = elim (Bool-cases (p y)) [
    | inl t ↦ ground (arith, subst (λ z. q z ≡ true) (sym (same t)) h)
    | inr t ↦ ground (arith, find-select p q ys (later t) h)
  ]
    where
      same : p y ≡ true → y ≡ x
      same t = ground arith

      later : p y ≡ false → find p ys ≡ some x
      later t = ground arith

  pub any-select : (p q : A → Bool) (xs : List A) → any q xs ≡ false → any q (select p xs) ≡ false
  any-select p q [] e = refl
  any-select p q (x ∷ xs) e = ground (arith, any-select p q xs)

  pub any-change :
      (p q : A → Bool) (g : A → A) (xs : List A)
      → ((x : A) → q (g x) ≡ q x)
      → any q (change p g xs) ≡ any q xs
  any-change p q g [] h = refl
  any-change p q g (x ∷ xs) h = ground (arith, h x, any-change p q g xs h)

  pub any-snoc :
      (q : A → Bool) (xs : List A) (x : A) → any q xs ≡ true → any q (xs ++ x ∷ []) ≡ true
  any-snoc q [] x e = ground arith
  any-snoc q (y ∷ ys) x e = ground (arith, any-snoc q ys x)

  pub any-last : (q : A → Bool) (xs : List A) (x : A) → q x ≡ true → any q (xs ++ x ∷ []) ≡ true
  any-last q [] x e = ground arith
  any-last q (y ∷ ys) x e = ground (arith, any-last q ys x)

  pub find-any : (q : A → Bool) (xs : List A) → any q xs ≡ true → (x : A) × (find q xs ≡ some x)
  find-any q [] e = cc
  find-any q (y ∷ ys) e = elim (Bool-cases (q y)) [
    | inl t ↦ rw t (y, refl)
    | inr t ↦ rw t (find-any q ys (ground arith))
  ]

  pub any-append :
      (q : A → Bool) (xs : List A) (x : A)
      → any q xs ≡ false
      → q x ≡ false
      → any q (xs ++ x ∷ []) ≡ false
  any-append q [] x e h = ground arith
  any-append q (y ∷ ys) x e h = ground (arith, any-append q ys x)

  pub length-select : (p : A → Bool) (xs : List A) → length (select p xs) ≤ length xs
  length-select p [] = omega arith
  length-select p (x ∷ xs) = ground (arith, length-select p xs)

-- A column without duplicates.
module _ {ℓ κ} {A : Type ℓ} {K : Type κ} ⦃e : Eq K⦄ where
  abbrev pub Unique : (A → K) → List A → Type 0
  Unique f [] = Unit
  Unique f (x ∷ xs) = (any (λ y. f y == f x) xs ≡ false) × Unique f xs

  pub Unique-select :
      (f : A → K) (p : A → Bool) (xs : List A) → Unique f xs → Unique f (select p xs)
  Unique-select f p [] u = tt
  Unique-select f p (x ∷ xs) u = elim (Bool-cases (p x)) [
    | inl t ↦ rw t (any-select p (λ y. f y == f x) xs u.0, Unique-select f p xs u.1)
    | inr t ↦ rw t (Unique-select f p xs u.1)
  ]

  pub Unique-snoc :
      (f : A → K) (xs : List A) (x : A)
      → any (λ y. f y == f x) xs ≡ false
      → Unique f xs
      → Unique f (xs ++ x ∷ [])
  Unique-snoc f [] x h u = (refl, tt)
  Unique-snoc f (y ∷ ys) x h u =
      (any-append (λ z. f z == f y) ys x u.0 other, Unique-snoc f ys x (ground arith) u.1)
    where
      other : (f x == f y) ≡ false
      other = ground (arith, e.beq_iff (f x) (f y), e.beq_iff (f y) (f x))

  pub Unique-change :
      (f : A → K) (p : A → Bool) (g : A → A) (xs : List A)
      → ((x : A) → f (g x) ≡ f x)
      → Unique f xs
      → Unique f (change p g xs)
  Unique-change f p g [] h u = tt
  Unique-change f p g (x ∷ xs) h u = elim (Bool-cases (p x)) [
    | inl t ↦ rw (t, h x) (still, Unique-change f p g xs h u.1)
    | inr t ↦ rw t (still, Unique-change f p g xs h u.1)
  ]
    where
      still : any (λ y. f y == f x) (change p g xs) ≡ false
      still = any-change p (λ y. f y == f x) g xs (λ y. rw (h y) refl) ∙ u.0

  absent :
      (f : A → K) (k : K) (xs : List A)
      → any (λ y. f y == k) xs ≡ false
      → All (λ y. (f y == k) ≡ false) xs
  absent f k [] h = tt
  absent f k (x ∷ xs) h = (ground arith, absent f k xs (ground arith))

  -- A key names one row.
  pub only_found :
      (f : A → K) (k : K) (xs : List A) {x : A}
      → Unique f xs
      → find (λ y. f y == k) xs ≡ some x
      → All (λ y. f y ≡ k → y ≡ x) xs
  only_found f k [] u h = tt
  only_found f k (y ∷ ys) {x} u h = elim (Bool-cases (f y == k)) [
    | inl t ↦ (
      (λ s. same t),
      All-map (λ z. (f z == k) ≡ false) (λ z. f z ≡ k → z ≡ x) ys
          (λ z n s. ground (arith, e.beq_iff (f z) k))
          (absent f k ys
            (subst (λ j. any (λ z. f z == j) ys ≡ false) ((e.beq_iff (f y) k).0 t) u.0)),
    )
    | inr t ↦ ((λ s. ground (arith, e.beq_iff (f y) k)), only_found f k ys u.1 (later t))
  ]
    where
      same : (f y == k) ≡ true → y ≡ x
      same t = ground arith

      later : (f y == k) ≡ false → find (λ y. f y == k) ys ≡ some x
      later t = ground arith

  found_not_absent :
      (f : A → K) (p : A → Bool) (k : K) (xs : List A) {x : A}
      → find p xs ≡ some x
      → any (λ y. f y == k) xs ≡ false
      → (f x == k) ≡ false
  found_not_absent f p k xs h n = (found (λ y. (f y == k) ≡ false) p xs h (absent f k xs n)).0

  -- A row that some query finds is found by its key.
  pub found_by_key :
      (f : A → K) (p : A → Bool) (xs : List A) {x : A}
      → Unique f xs
      → find p xs ≡ some x
      → find (λ y. f y == f x) xs ≡ some x
  found_by_key f p [] u h = cc
  found_by_key f p (y ∷ ys) {x} u h = elim (Bool-cases (p y)) [
    | inl t ↦ subst (λ z. find (λ w. f w == f z) (y ∷ ys) ≡ some z) (same t) here
    | inr t ↦ there (later t) (found_by_key f p ys u.1 (later t))
  ]
    where
      same : p y ≡ true → y ≡ x
      same t = ground arith

      later : p y ≡ false → find p ys ≡ some x
      later t = ground arith

      here : find (λ w. f w == f y) (y ∷ ys) ≡ some y
      here = ground (arith, e.beq_iff (f y) (f y))

      there :
          find p ys ≡ some x
          → find (λ w. f w == f x) ys ≡ some x
          → find (λ w. f w == f x) (y ∷ ys) ≡ some x
      there g r = ground (
        arith,
        found_not_absent f p (f y) ys g u.0,
        e.beq_iff (f y) (f x),
        e.beq_iff (f x) (f y),
        r,
      )

  pub found-any :
      (f : A → K) (p : A → Bool) (xs : List A) {x : A}
      → find p xs ≡ some x
      → any (λ y. f y == f x) xs ≡ true
  found-any f p xs {x} h = elim (Bool-cases (any (λ y. f y == f x) xs)) [
    | inl t ↦ t
    | inr t ↦ absurd (ground (arith, found_not_absent f p (f x) xs h t, e.beq_iff (f x) (f x)))
  ]
