-- ===== src/Accounts/Users/Fails.antt =====
-- SetPassword when the database fails (internal/store/users.go).
use sy_mon.Base.{
  ℕ, String, Bool, true, Option, none, some, ◌≡◌, arith, Result, ok, err, nat_eq, string_eq,
}
use sy_mon.Accounts.Users.{UserError, UserRow, Accounts, replace_password}

-- Begin, both statements and Commit were carried out.
abbrev pub AllWork : (ℕ → Bool) → Type 0
AllWork works = (works 0 ≡ true) × (works 1 ≡ true) × (works 2 ≡ true) × (works 3 ≡ true)

pub replaced-works :
    (works : ℕ → Bool) (a : Accounts) (o : Option UserRow) (name hash salt : String)
    → (replace_password works a o name hash salt).0 ≡ ok tt
    → AllWork works
replaced-works works a none name hash salt k = ground arith
replaced-works works a (some u) name hash salt k = ground arith

-- Success needs all of the transaction, and anything else leaves the tables as they were.
abbrev pub AllOrNothing : (ℕ → Bool) → Accounts → Result UserError (Unit {0}) × Accounts → Type 0
AllOrNothing works a r = (r.0 ≡ ok tt → AllWork works) × ((e : UserError) → r.0 ≡ err e → r.1 ≡ a)
