-- ===== src/Base/Lists.antt =====
-- Lists measured by native numbers, searched by Boolean tests, and association lists for Go's maps.
use Prim.Native.Nat.{ℕ, zero, suc, ◌+◌, min}
use mathlib.Core.Path.{◌≡◌, refl, ap}
use mathlib.Core.Bool.{Bool, true, false, ◌&&◌, ◌||◌}
use mathlib.Core.List.{List, [], ◌∷◌, ◌++◌}
use mathlib.Core.Option.{Option, none, some}
use native.Mathlib.Omega.{arith}
use sy_mon.Base.Tests.{Eq, ◌==◌, if◌then◌else◌}

module _ {ℓ} {A : Type ℓ} where
  abbrev pub length : List A → ℕ
  length [] = 0
  length (x ∷ xs) = suc (length xs)

  abbrev pub take : ℕ → List A → List A
  take zero xs = []
  take (suc n) [] = []
  take (suc n) (x ∷ xs) = x ∷ take n xs

  abbrev pub drop : ℕ → List A → List A
  drop zero xs = xs
  drop (suc n) [] = []
  drop (suc n) (x ∷ xs) = drop n xs

  -- The entries that pass the test, in order.
  abbrev pub select : (A → Bool) → List A → List A
  select p [] = []
  select p (x ∷ xs) = let rest = select p xs in if p x then x ∷ rest else rest

  abbrev pub find : (A → Bool) → List A → Option A
  find p [] = none
  find p (x ∷ xs) = let rest = find p xs in if p x then some x else rest

  abbrev pub any : (A → Bool) → List A → Bool
  any p [] = false
  any p (x ∷ xs) = p x || any p xs

  abbrev pub all : (A → Bool) → List A → Bool
  all p [] = true
  all p (x ∷ xs) = p x && all p xs

  -- A predicate that every entry has.
  abbrev pub All {κ} : (A → Type κ) → List A → Type κ
  All P [] = Unit
  All P (x ∷ xs) = P x × All P xs

  pub length-append : (xs ys : List A) → length (xs ++ ys) ≡ length xs + length ys
  length-append [] ys = omega arith
  length-append (x ∷ xs) ys = omega (arith, length-append xs ys)

  pub length-take : (n : ℕ) (xs : List A) → length (take n xs) ≡ min n (length xs)
  length-take zero xs = omega arith
  length-take (suc n) [] = omega arith
  length-take (suc n) (x ∷ xs) = omega (arith, length-take n xs)

  pub take-append-drop : (n : ℕ) (xs : List A) → take n xs ++ drop n xs ≡ xs
  take-append-drop zero xs = refl
  take-append-drop (suc n) [] = refl
  take-append-drop (suc n) (x ∷ xs) = ap (◌∷◌ x) (take-append-drop n xs)

module _ {ℓ} {A : Type ℓ} ⦃e : Eq A⦄ where
  abbrev pub contains : List A → A → Bool
  contains [] a = false
  contains (x ∷ xs) a = x == a || contains xs a

-- A Go map: at most the first entry of a key counts.
module _ {ℓ κ} {K : Type ℓ} {V : Type κ} ⦃e : Eq K⦄ where
  unfoldable pub lookup : K → List (K × V) → Option V
  lookup key [] = none
  lookup key ((other, val) ∷ rest) = if other == key then some val else lookup key rest

  unfoldable pub delete : K → List (K × V) → List (K × V)
  delete key [] = []
  delete key ((other, val) ∷ rest) =
      if other == key then delete key rest else (other, val) ∷ delete key rest

  pub lookup-delete :
      (key sought : K) (entries : List (K × V))
      → lookup sought (delete key entries) ≡ (if key == sought then none else lookup sought entries)
  unfolding lookup delete
  lookup-delete key sought [] = ground arith
  lookup-delete key sought ((other, val) ∷ rest) = ground (
    arith,
    lookup-delete key sought rest,
    e.beq_iff other sought,
    e.beq_iff key sought,
    e.beq_iff other key,
  )

  pub lookup_deleted : (key : K) (entries : List (K × V)) → lookup key (delete key entries) ≡ none
  lookup_deleted key entries = ground (arith, lookup-delete key key entries, e.beq_iff key key)

  unfoldable pub insert : K → V → List (K × V) → List (K × V)
  insert key val [] = (key, val) ∷ []
  insert key val ((other, old) ∷ rest) =
      if other == key then (key, val) ∷ rest else (other, old) ∷ insert key val rest

  pub lookup-insert :
      (key sought : K) (val : V) (entries : List (K × V))
      → lookup sought (insert key val entries)
        ≡ (if key == sought then some val else lookup sought entries)
  unfolding lookup insert
  lookup-insert key sought val [] = refl
  lookup-insert key sought val ((other, old) ∷ rest) = ground (
    arith,
    lookup-insert key sought val rest,
    e.beq_iff other sought,
    e.beq_iff key sought,
    e.beq_iff other key,
  )

  pub lookup_inserted :
      (key : K) (val : V) (entries : List (K × V)) → lookup key (insert key val entries) ≡ some val
  lookup_inserted key val entries =
      ground (arith, lookup-insert key key val entries, e.beq_iff key key)
