-- ===== src/Base/Trim.antt =====
-- strings.TrimSpace leaves nothing for a second call to trim.
use Prim.Native.Char.{Char}
use Prim.Native.String.{String}
use mathlib.Core.Path.{◌≡◌, refl}
use mathlib.Core.Logic.{inl, inr}
use mathlib.Core.Bool.{false}
use sy_mon.Base.Tests.{Bool-cases}
use sy_mon.Base.Text.{is_space, trim_left, trim_right, trim_space, cons_unless_blank}

pub trim_left_idem : (s : String) → trim_left (trim_left s) ≡ trim_left s
unfolding trim_left
trim_left_idem String.[] = refl
trim_left_idem (String.◌∷◌ c s) = elim (Bool-cases (is_space c)) [
  | inl e ↦ rw e (trim_left_idem s)
  | inr e ↦ rw e (rw e)
]

cons_idem :
    (c : Char) (s : String)
    → trim_right s ≡ s
    → trim_right (cons_unless_blank c s) ≡ cons_unless_blank c s
unfolding trim_right
cons_idem c String.[] h = elim (Bool-cases (is_space c)) [ inl e ↦ rw e | inr e ↦ rw e (rw e) ]
cons_idem c (String.◌∷◌ d s) h = rw h

pub trim_right_idem : (s : String) → trim_right (trim_right s) ≡ trim_right s
unfolding trim_right
trim_right_idem String.[] = refl
trim_right_idem (String.◌∷◌ c s) = cons_idem c (trim_right s) (trim_right_idem s)

-- A text that begins with no white space still does when its end is trimmed.
cons_left :
    (c : Char) (s : String)
    → is_space c ≡ false
    → trim_left (cons_unless_blank c s) ≡ cons_unless_blank c s
unfolding trim_left
cons_left c String.[] e = rw e (rw e)
cons_left c (String.◌∷◌ d s) e = rw e

left-right-left : (s : String) → trim_left (trim_right (trim_left s)) ≡ trim_right (trim_left s)
unfolding trim_left
left-right-left String.[] = unfold trim_right in refl
left-right-left (String.◌∷◌ c s) = elim (Bool-cases (is_space c)) [
  | inl e ↦ rw e (left-right-left s)
  | inr e ↦ rw e (unfold trim_right in cons_left c (trim_right s) e)
]

pub trim_space_idem : (s : String) → trim_space (trim_space s) ≡ trim_space s
unfolding trim_space
trim_space_idem s = rw (left-right-left s) (trim_right_idem (trim_left s))
