-- ===== src/Base/Float.antt =====
-- float64 as an interface: the type `V` and what the program uses of it. `x >= y` on floats is
-- `y < x || y == x`, also for NaN.
use mathlib.Core.Bool.{Bool, ◌||◌}
use sy_mon.Base.Int.{ℤ}

pub record Float64 (V : Type 0) : Type 0 where
  pub less : V → V → Bool
  pub same : V → V → Bool
  -- float64(n)
  pub of_int : ℤ → V
  -- int(x), which cuts the fraction off
  pub to_int : V → ℤ

module _ {V : Type 0} ⦃f : Float64 V⦄ where
  abbrev pub less : V → V → Bool
  less = f.less

  abbrev pub same : V → V → Bool
  same = f.same

  abbrev pub at_most : V → V → Bool
  at_most x y = less x y || same x y

  abbrev pub of_int : ℤ → V
  of_int = f.of_int

  abbrev pub to_int : V → ℤ
  to_int = f.to_int
