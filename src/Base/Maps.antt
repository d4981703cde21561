-- ===== src/Base/Maps.antt =====
-- What holds of every entry of an association list.
use mathlib.Core.Path.{◌≡◌, subst}
use mathlib.Core.Logic.{inl, inr}
use mathlib.Core.Bool.{true, false}
use mathlib.Core.List.{List, [], ◌∷◌}
use mathlib.Core.Option.{some}
use native.Mathlib.Omega.{arith}
use sy_mon.Base.Tests.{Eq, ◌==◌, Bool-cases}
use sy_mon.Base.Lists.{All, lookup, insert, delete}

module _ {ℓ κ} {K : Type ℓ} {V : Type κ} ⦃e : Eq K⦄ where
  pub All-insert {μ} :
      (P : K × V → Type μ) (key : K) (val : V) (entries : List (K × V))
      → P (key, val)
      → All P entries
      → All P (insert key val entries)
  unfolding insert
  All-insert P key val [] h a = (h, tt)
  All-insert P key val ((other, old) ∷ rest) h a = elim (Bool-cases (other == key)) [
    | inl t ↦ rw t (h, a.1)
    | inr t ↦ rw t (a.0, All-insert P key val rest h a.1)
  ]

  pub All-delete {μ} :
      (P : K × V → Type μ) (key : K) (entries : List (K × V))
      → All P entries
      → All P (delete key entries)
  unfolding delete
  All-delete P key [] a = tt
  All-delete P key ((other, old) ∷ rest) a = elim (Bool-cases (other == key)) [
    | inl t ↦ rw t (All-delete P key rest a.1)
    | inr t ↦ rw t (a.0, All-delete P key rest a.1)
  ]

  pub All-lookup {μ} :
      (P : K × V → Type μ) (key : K) (entries : List (K × V)) {val : V}
      → lookup key entries ≡ some val
      → All P entries
      → P (key, val)
  unfolding lookup
  All-lookup P key [] h a = cc
  All-lookup P key ((other, old) ∷ rest) {val} h a = elim (Bool-cases (other == key)) [
    | inl t ↦
        subst (λ k. P (k, val)) ((e.beq_iff other key).0 t) (subst (λ v. P (other, v)) (same t) a.0)
    | inr t ↦ All-lookup P key rest (later t) a.1
  ]
    where
      same : (other == key) ≡ true → old ≡ val
      same t = ground arith

      later : (other == key) ≡ false → lookup key rest ≡ some val
      later t = ground arith
