-- ===== src/Prelude/Decimal.antt =====
-- Integers in decimal, as Sprintf("%d") prints them.
pub mod Digits
use compute_sentry.Prelude.Tests.{ltb, if◌then◌else◌}
use compute_sentry.Prelude.Int.{ℤ, pos, negsuc}
use Prim.Native.Nat.{ℕ, zero, suc, ◌/◌, ◌%◌}
use Prim.Native.String.{String, ◌++◌, slice}

-- A digit, by its position; past 9 there is none.
abbrev pub digit : ℕ → String
digit d = slice "0123456789" d (suc d)

-- At most so many digits.
unfoldable pub digits : (fuel : ℕ) → ℕ → String
digits zero n = ""
digits (suc fuel) n =
    let rest = digits fuel (n / 10) in if ltb n 10 then digit n else rest ++ digit (n % 10)

-- The digits of n are at most n + 1.
unfoldable pub decimal : ℤ → String
decimal (pos n) = digits (suc n) n
decimal (negsuc n) = "-" ++ digits (suc (suc n)) (suc n)
