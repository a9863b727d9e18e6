-- ===== src/WalletRpc/Amounts.antt =====
-- A number as text, and the number that is read from it.
use elektron_net_ppool.Common.{
  ℕ, zero, suc, ◌+◌, ◌-◌, ◌*◌, ◌/◌, ◌%◌, ◌≤◌, ◌<◌, ◌≡◌, refl, [], ◌∷◌, ◌++◌, All, All-append, arith,
  ltb, Bool-cases, inl, inr,
}
use elektron_net_ppool.Common.Js.{Text}
use elektron_net_ppool.WalletRpc.{digit, decimal}

-- The digits of a text as one number.
abbrev pub read : ℕ → Text → ℕ
read acc [] = acc
read acc (c ∷ s) = read (acc * 10 + (c - b'0')) s

abbrev pub IsDigit : ℕ → Type 0
IsDigit c = (b'0' ≤ c) × (c ≤ b'9')

read-append : (acc : ℕ) (s t : Text) → read acc (s ++ t) ≡ read (read acc s) t
read-append acc [] t = refl
read-append acc (c ∷ s) t =
    ground (arith, read-append acc s t, read-append (acc * 10 + (c - b'0')) s t)

pub decimal-digits : (fuel n : ℕ) → All IsDigit (decimal fuel n)
unfolding decimal
decimal-digits zero n = tt
decimal-digits (suc fuel) n = elim (Bool-cases (ltb n 10)) [
  | inl small ↦ rw small ((omega arith, ground arith), tt)
  | inr large ↦ rw large (
      All-append IsDigit (decimal fuel (n / 10)) _ (decimal-digits fuel (n / 10))
        ((omega arith, omega arith), tt))
]

pub read-decimal : (fuel n : ℕ) → n < fuel → read 0 (decimal fuel n) ≡ n
unfolding decimal
read-decimal zero n h = elim h [ ]
read-decimal (suc fuel) n h = elim (Bool-cases (ltb n 10)) [
  | inl small ↦ rw small (ground arith)
  | inr large ↦
      rw
        (
          large,
          read-append 0 (decimal fuel (n / 10)) (digit (n % 10) ∷ []),
          read-decimal fuel (n / 10) (ground arith),
        )
        (ground arith)
]
