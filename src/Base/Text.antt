-- ===== src/Base/Text.antt =====
-- Go's string functions that the program calls, over the native texts.
use Prim.Native.Nat.{ℕ, zero, suc, ◌+◌, ◌-◌, ◌/◌, ◌%◌}
use Prim.Native.Char.{Char, code}
use Prim.Native.String.{String, ◌++◌, count}
use text.Mathlib.Text.{◌==◌ as str_eq, starts_with}
use mathlib.Core.Path.{◌≡◌, refl}
use mathlib.Core.Bool.{Bool, true, false, ◌&&◌, ◌||◌}
use mathlib.Core.List.{List, [], ◌∷◌, map}
use mathlib.Core.Option.{Option, none, some}
use sy_mon.Base.Int.{ℤ, pos, negsuc}
use sy_mon.Base.Tests.{ltb, nat_eq, leb, ◌==◌, if◌then◌else◌}

-- `a + b + c` on Go strings.
abbrev pub concat : List String → String
concat [] = ""
concat (s ∷ []) = s
concat (s ∷ t ∷ ts) = s ++ concat (t ∷ ts)

abbrev pub is_empty : String → Bool
is_empty s = str_eq s ""

-- unicode.IsSpace
unfoldable pub is_space : Char → Bool
is_space c =
    let n = code c in
    (leb 9 n && leb n 13)
    || n == 32
    || n == 0x85
    || n == 0xa0
    || n == 0x1680
    || (leb 0x2000 n && leb n 0x200a)
    || n == 0x2028
    || n == 0x2029
    || n == 0x202f
    || n == 0x205f
    || n == 0x3000

-- strings.TrimSpace: leading, then trailing white space goes.
unfoldable pub trim_left : String → String
trim_left String.[] = ""
trim_left (String.◌∷◌ c s) = if is_space c then trim_left s else String.◌∷◌ c s

abbrev pub cons_unless_blank : Char → String → String
cons_unless_blank c String.[] = if is_space c then "" else String.◌∷◌ c ""
cons_unless_blank c (String.◌∷◌ d s) = String.◌∷◌ c (String.◌∷◌ d s)

unfoldable pub trim_right : String → String
trim_right String.[] = ""
trim_right (String.◌∷◌ c s) = cons_unless_blank c (trim_right s)

unfoldable pub trim_space : String → String
unfolding trim_left trim_right is_space
trim_space s = trim_right (trim_left s)

-- strings.TrimSpace(s) == ""
abbrev pub is_blank : String → Bool
is_blank s = is_empty (trim_space s)

-- The code points of a text.
abbrev pub codes : String → List ℕ
codes String.[] = []
codes (String.◌∷◌ c s) = code c ∷ codes s

-- strings.ToLower and strings.ToUpper, as far as the program reads their results: it compares them
-- with ASCII texts without the letters k and i, and of the letters beyond ASCII only the long s,
-- U+017F, has such a letter for its upper case.
unfoldable pub lower : ℕ → ℕ
lower c = if leb b'A' c && leb c b'Z' then c + 32 else c

unfoldable pub upper : ℕ → ℕ
upper c = if leb b'a' c && leb c b'z' then c - 32 else if c == 0x17f then b'S' else c

abbrev pub same_codes : List ℕ → List ℕ → Bool
same_codes [] [] = true
same_codes [] (y ∷ ys) = false
same_codes (x ∷ xs) [] = false
same_codes (x ∷ xs) (y ∷ ys) = x == y && same_codes xs ys

abbrev pub codes_start_with : List ℕ → List ℕ → Bool
codes_start_with xs [] = true
codes_start_with [] (y ∷ ys) = false
codes_start_with (x ∷ xs) (y ∷ ys) = x == y && codes_start_with xs ys

-- strings.NewReplacer(old, new, …).Replace: from left to right, the first pair whose old text begins
-- here is replaced, and the scan goes on behind it. `skip` counts the characters still to pass over.
abbrev pub pair_at : List (String × String) → String → Option (String × String)
pair_at [] s = none
pair_at ((old, new) ∷ pairs) s = if starts_with s old then some (old, new) else pair_at pairs s

unfoldable pub replace_from : List (String × String) → ℕ → String → String
replace_from pairs skip String.[] = ""
replace_from pairs (suc skip) (String.◌∷◌ c s) = replace_from pairs skip s
replace_from pairs zero (String.◌∷◌ c s) =
    let kept = replace_from pairs 0 s in
    elim (pair_at pairs (String.◌∷◌ c s)) [
      | none ↦ String.◌∷◌ c kept
      | some (old, new) ↦ new ++ replace_from pairs (count old - 1) s
    ]

unfoldable pub replacer : List (String × String) → String → String
unfolding replace_from
replacer pairs s = replace_from pairs 0 s

-- strconv.Itoa
unfoldable pub digits_from : ℕ → ℕ → List ℕ → List ℕ
digits_from zero n acc = acc
digits_from (suc fuel) n acc =
    let rest = digits_from fuel (n / 10) ((n % 10) ∷ acc) in if ltb n 10 then n ∷ acc else rest

abbrev pub digit : ℕ → String
digit zero = "0"
digit (suc zero) = "1"
digit (suc (suc zero)) = "2"
digit (suc (suc (suc zero))) = "3"
digit (suc (suc (suc (suc zero)))) = "4"
digit (suc (suc (suc (suc (suc zero))))) = "5"
digit (suc (suc (suc (suc (suc (suc zero)))))) = "6"
digit (suc (suc (suc (suc (suc (suc (suc zero))))))) = "7"
digit (suc (suc (suc (suc (suc (suc (suc (suc zero)))))))) = "8"
digit (suc (suc (suc (suc (suc (suc (suc (suc (suc n))))))))) = "9"

unfoldable pub itoa : ℤ → String
unfolding digits_from
itoa (pos n) = concat (map digit (digits_from (suc n) n []))
itoa (negsuc n) = concat ("-" ∷ map digit (digits_from (suc (suc n)) (suc n) []))

itoa_sample : itoa (negsuc 2048) ≡ "-2049"
unfolding itoa
itoa_sample = refl

replacer_sample : replacer (("{a}", "x") ∷ ("{b}", "{a}") ∷ []) "1{b}2{a}{c}" ≡ "1{a}2x{c}"
unfolding replacer
replacer_sample = refl
