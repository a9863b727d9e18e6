-- ===== src/Tests.antt =====
-- The values that the tests share: a small ledger, a decimal fixed point in place of the floats, and
-- one miner's connection with a job.
pub mod Money
pub mod Mining
pub mod Logins
pub mod Server
pub mod Coinbase
pub mod Sessions
pub mod Payments
pub mod Accounts
pub mod Node
pub mod Chat
pub mod Dashboard
use native.Mathlib.Nat.{div-mul-le_self}
use elektron_net_ppool.Common.{
  ℕ, suc, ◌%◌, ◌++◌, ◌+◌, ◌*◌, ◌/◌, ◌-◌, ◌≤◌, ℤ, pos, pos_part, String, Bool, true, false, Option,
  none, some, List, [], ◌∷◌, leb, ltb, arith,
}
use elektron_net_ppool.Common.Js.{Text, codes}
use elektron_net_ppool.Common.Float.{Float64}
use elektron_net_ppool.Config.{Config}
use elektron_net_ppool.WalletRpc.{decimal, digit}
use elektron_net_ppool.Ledger.{PayoutLedger, new_row}
use elektron_net_ppool.Rewards.{Books}
use elektron_net_ppool.Rewards.Bound.{Rounds}

-- Nothing is configured.
abbrev pub defaults : Config
defaults key = none

-- The last digits of a number, with zeros in front.
abbrev digits : (count : ℕ) → ℕ → Text
digits ℕ.zero n = []
digits (suc count) n = digits count (n / 10) ++ digit (n % 10) ∷ []

-- Numbers with six digits behind the point.
abbrev pub fixed : Float64
fixed = record {
  F = ℕ;
  of_int = λ n. pos_part n * 1_000_000;
  add = λ a b. a + b;
  sub = λ a b. a - b;
  mul = λ a b. a * b / 1_000_000;
  div = λ a b. a * 1_000_000 / b;
  floor = λ a. pos (a / 1_000_000);
  round = λ a. pos (a / 1_000_000);
  le = leb;
  lt = ltb;
  parse = λ s. none;
  number = λ s. none;
  to_fixed8 =
      λ a. decimal (suc (a / 1_000_000)) (a / 1_000_000) ++ b'.' ∷ digits 8 (a % 1_000_000 * 100);
}

-- Two miners' rows of three blocks.
abbrev pub ledger : PayoutLedger
ledger = record {
  rows =
      new_row 1 0 "alice" (pos 150_000) 10
      ∷ new_row 2 0 "bob" (pos 40_000) 10
      ∷ new_row 3 0 "alice" (pos 30_000) 300
      ∷ [];
  next_id = 4;
}

abbrev pub books : Books
books = record { ledger = ledger; accounting = none }
