-- ===== src/Tasks/Output.antt =====
-- What the agent collects of a task's output (`taskOutput` and `wholeCharacters` of agent/tasks.go).
-- Output and texts are lists of bytes. strings.ToValidUTF8 with U+FFFD is an argument.
use sy_mon.Base.{
  ℕ, zero, suc, ◌+◌, ◌-◌, ◌≤◌, min, Bool, false, ◌&&◌, ◌||◌, not, List, [], ◌∷◌, ◌++◌,
  if◌then◌else◌, ◌==◌, nat_eq, ltb, leb, length, take, drop, select, arith,
}

-- 256 << 10
abbrev pub output_limit : ℕ
output_limit = 262144

pub record Output : Type 0 where
  pub pending : List ℕ
  pub kept : ℕ
  pub dropped : Bool

abbrev pub no_output : Output
no_output = record { pending = []; kept = 0; dropped = false }

-- `Write`
unfoldable pub write : List ℕ → Output → Output
write data' o =
    let keep = min (length data') (output_limit - o.kept) in
    record {
      pending = o.pending ++ take keep data';
      kept = o.kept + keep;
      dropped = o.dropped || ltb keep (length data');
    }

-- utf8.RuneStart: not a continuation byte
abbrev pub rune_start : ℕ → Bool
rune_start b = not (leb 0x80 b && ltb b 0xc0)

-- The number of bytes that a rune starting with this byte has, one for a byte that starts none.
abbrev pub rune_size : ℕ → ℕ
rune_size b =
    if ltb b 0xc2
    then 1
    else if ltb b 0xe0
    then 2
    else if ltb b 0xf0
    then 3
    else if ltb b 0xf5
    then 4
    else 1

-- The range of the second byte.
abbrev pub second_fits : ℕ → ℕ → Bool
second_fits b c =
    leb (if b == 0xe0 then 0xa0 else if b == 0xf0 then 0x90 else 0x80) c
    && leb c (if b == 0xed then 0x9f else if b == 0xf4 then 0x8f else 0xbf)

-- utf8.FullRune: whether the bytes begin with a full encoding, or with one that no byte can complete.
unfoldable pub full_rune : List ℕ → Bool
full_rune [] = false
full_rune (b ∷ []) = leb (rune_size b) 1
full_rune (b ∷ c ∷ []) = leb (rune_size b) 2 || not (second_fits b c)
full_rune (b ∷ c ∷ d ∷ bs) =
    leb (rune_size b) (length (b ∷ c ∷ d ∷ bs))
    || not (second_fits b c)
    || not (leb 0x80 d && leb d 0xbf)

abbrev pub starts_rune : List ℕ → Bool
starts_rune [] = false
starts_rune (b ∷ bs) = rune_start b

-- The loop of `wholeCharacters`: `left` more places to look at, from `back` bytes before the end.
unfoldable pub whole_from : ℕ → ℕ → List ℕ → ℕ
unfolding full_rune
whole_from zero back data' = length data'
whole_from (suc left) back data' =
    let rest = whole_from left (suc back) data' in
    let end = drop (length data' - back) data' in
    if leb back (length data')
    then if starts_rune end
      then if full_rune end then length data' else length data' - back
      else rest
    else length data'

-- utf8.UTFMax is 4
unfoldable pub whole_characters : List ℕ → ℕ
unfolding whole_from
whole_characters data' = whole_from 4 1 data'

-- The bytes since the last take, as `take` cuts them off, and what is left.
unfoldable pub cut_output : Bool → Output → List ℕ × Output
unfolding whole_characters
cut_output end o =
    let whole = if end then length o.pending else whole_characters o.pending in
    (take whole o.pending, record o { pending = drop whole o.pending })

-- The bytes as text without NUL characters.
abbrev pub cleaned : (List ℕ → List ℕ) → List ℕ → List ℕ
cleaned to_valid text = select (λ b. not (b == 0)) (to_valid text)

-- `take`: the text since the last take and whether any output was dropped, and what is left.
unfoldable pub take_output : (List ℕ → List ℕ) → Bool → Output → (List ℕ × Bool) × Output
unfolding cut_output
take_output to_valid end o =
    let piece = cut_output end o in ((cleaned to_valid piece.0, o.dropped), piece.1)

whole_from-bounds :
    (left back : ℕ) (data' : List ℕ)
    → back + left ≤ 5
    → (whole_from left back data' ≤ length data') × (length data' ≤ whole_from left back data' + 4)
unfolding whole_from
whole_from-bounds zero back data' h = omega arith
whole_from-bounds (suc left) back data' h = ground (arith, whole_from-bounds left (suc back) data')
