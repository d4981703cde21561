-- ===== src/Stored.antt =====
-- Text as the database's text columns take it (`cleanText` of internal/store/tasks.go and
-- `shortError` of internal/store/notifications.go).
use Prim.Native.String.{◌++◌ as append}
use text.Mathlib.TextLemmas.{nil-append, cons-append}
use sy_mon.Base.{◌≡◌, ◌+◌, ap, ℕ, zero, suc, ◌≤◌, String, code, ◌==◌, nat_eq, if◌then◌else◌, arith}

-- Drops NUL characters, which a text column cannot hold.
unfoldable pub clean_text : String → String
clean_text String.[] = ""
clean_text (String.◌∷◌ c s) =
    let rest = clean_text s in if code c == 0 then rest else String.◌∷◌ c rest

-- The first n characters: `left(s, n)` in SQL, `runes[:n]` in Go.
unfoldable pub left : ℕ → String → String
left zero s = ""
left (suc n) String.[] = ""
left (suc n) (String.◌∷◌ c s) = String.◌∷◌ c (left n s)

-- The number of characters, `length(s)` in SQL.
unfoldable pub chars : String → ℕ
chars String.[] = 0
chars (String.◌∷◌ c s) = suc (chars s)

abbrev pub max_task_error : ℕ
max_task_error = 500

unfoldable pub short_error : String → String
unfolding clean_text left
short_error text = left max_task_error (clean_text text)

pub chars-left : (n : ℕ) (s : String) → chars (left n s) ≤ n
unfolding chars left
chars-left zero s = omega arith
chars-left (suc n) String.[] = omega arith
chars-left (suc n) (String.◌∷◌ c s) = omega (arith, chars-left n s)

pub chars-append : (s t : String) → chars (append s t) ≡ chars s + chars t
unfolding chars
chars-append String.[] t = omega (arith, ap chars (nil-append t))
chars-append (String.◌∷◌ c s) t = rw (cons-append c s t) (omega (arith, chars-append s t))
