-- ===== src/Base/Table.antt =====
-- Tables whose rows have a number drawn from a sequence, and a unique key.
use Prim.Native.Nat.{ℕ, suc, ◌<◌}
use Prim.Native.String.{String}
use mathlib.Core.Path.{◌≡◌, refl}
use mathlib.Core.Bool.{Bool, false}
use mathlib.Core.List.{List, [], ◌∷◌, ◌++◌}
use native.Mathlib.Omega.{arith}
use sy_mon.Base.Tests.{◌==◌, nat_eq, string_eq}
use sy_mon.Base.Lists.{any, select, All}
use sy_mon.Base.Rows.{
  change, Unique, Unique-select, Unique-snoc, Unique-change, All-select, All-change, All-map,
  All-snoc,
}

module _ {A : Type 0} (id : A → ℕ) (key : A → String) where
  pub record Keyed (n : ℕ) (xs : List A) : Type 0 where
    pub unique_ids : Unique id xs
    pub unique_keys : Unique key xs
    pub drawn : All (λ x. id x < n) xs

  pub Keyed-draw : (n : ℕ) (xs : List A) → Keyed n xs → Keyed (suc n) xs
  Keyed-draw n xs k = record {
    unique_ids = k.unique_ids;
    unique_keys = k.unique_keys;
    drawn = All-map (λ x. id x < n) (λ x. id x < suc n) xs (λ x h. omega (arith, h)) k.drawn;
  }

  pub Keyed-fresh : (n : ℕ) (xs : List A) → All (λ x. id x < n) xs → any (λ x. id x == n) xs ≡ false
  Keyed-fresh n [] a = refl
  Keyed-fresh n (x ∷ xs) a = ground (arith, a.0, Keyed-fresh n xs a.1)

  pub Keyed-snoc :
      (n : ℕ) (xs : List A) (x : A)
      → id x ≡ n
      → any (λ y. key y == key x) xs ≡ false
      → Keyed n xs
      → Keyed (suc n) (xs ++ x ∷ [])
  Keyed-snoc n xs x e free k = record {
    unique_ids = Unique-snoc id xs x (rw e (Keyed-fresh n xs k.drawn)) k.unique_ids;
    unique_keys = Unique-snoc key xs x free k.unique_keys;
    drawn = All-snoc (λ y. id y < suc n) xs x (Keyed-draw n xs k).drawn (omega (arith, e));
  }

  pub Keyed-change :
      (n : ℕ) (p : A → Bool) (g : A → A) (xs : List A)
      → ((x : A) → id (g x) ≡ id x)
      → ((x : A) → key (g x) ≡ key x)
      → Keyed n xs
      → Keyed n (change p g xs)
  Keyed-change n p g xs i j k = record {
    unique_ids = Unique-change id p g xs i k.unique_ids;
    unique_keys = Unique-change key p g xs j k.unique_keys;
    drawn =
        All-change (λ x. id x < n) (λ x. id x < n) p g xs (λ x h t. rw (i x) h) (λ x h t. h)
          k.drawn;
  }

  pub Keyed-select : (n : ℕ) (p : A → Bool) (xs : List A) → Keyed n xs → Keyed n (select p xs)
  Keyed-select n p xs k = record {
    unique_ids = Unique-select id p xs k.unique_ids;
    unique_keys = Unique-select key p xs k.unique_keys;
    drawn = All-select (λ x. id x < n) p xs k.drawn;
  }
