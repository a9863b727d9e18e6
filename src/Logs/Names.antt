-- ===== src/Logs/Names.antt =====
-- The names of the log files are the ones that the clean-up looks for.
use elektron_net_ppool.Common.{
  ℕ, zero, suc, ◌/◌, ◌%◌, ◌≤◌, ◌<◌, ◌≡◌, refl, true, [], ◌∷◌, ◌++◌, ltb, arith, Bool-cases, inl,
  inr,
}
use elektron_net_ppool.Common.Js.{is_digit}
use elektron_net_ppool.WalletRpc.{decimal, digit}
use elektron_net_ppool.Logs.{number, pad_two, Date, today_stamp, file_name, is_log_file}

decimal_small : (fuel n : ℕ) → n < 10 → decimal (suc fuel) n ≡ digit n ∷ []
unfolding decimal
decimal_small fuel n h = ground (arith, h)

decimal_large :
    (fuel n : ℕ) → 10 ≤ n → decimal (suc fuel) n ≡ decimal fuel (n / 10) ++ digit (n % 10) ∷ []
unfolding decimal
decimal_large fuel n h = ground (arith, h)

four_digits :
    (fuel n : ℕ)
    → 1000 ≤ n
    → n < 10_000
    → decimal (suc (suc (suc (suc fuel)))) n
      ≡ digit (n / 10 / 10 / 10)
        ∷ digit (n / 10 / 10 % 10)
        ∷ digit (n / 10 % 10)
        ∷ digit (n % 10)
        ∷ []
four_digits fuel n h k =
    rw
      (
        decimal_large (suc (suc (suc fuel))) n (omega (arith, h)),
        decimal_large (suc (suc fuel)) (n / 10) (omega (arith, h)),
        decimal_large (suc fuel) (n / 10 / 10) (omega (arith, h)),
        decimal_small fuel (n / 10 / 10 / 10) (omega (arith, k)),
      )
      refl

year_digits :
    (n : ℕ)
    → 1000 ≤ n
    → n < 10_000
    → number n
      ≡ digit (n / 10 / 10 / 10)
        ∷ digit (n / 10 / 10 % 10)
        ∷ digit (n / 10 % 10)
        ∷ digit (n % 10)
        ∷ []
year_digits (suc (suc (suc n))) h k = four_digits n (suc (suc (suc n))) h k
year_digits (suc (suc zero)) h k = absurd (omega (arith, h))
year_digits (suc zero) h k = absurd (omega (arith, h))
year_digits zero h k = absurd (omega (arith, h))

two_digits : (n : ℕ) → n < 100 → pad_two (number n) ≡ digit (n / 10) ∷ digit (n % 10) ∷ []
unfolding decimal
two_digits zero h = refl
two_digits (suc n) h = elim (Bool-cases (ltb (suc n) 10)) [
  | inl small ↦
      let tens : suc n / 10 ≡ 0 = ground (arith, small) in
      let ones : suc n % 10 ≡ suc n = ground (arith, small) in
      rw (decimal_small (suc n) (suc n) (ground (arith, small)), tens, ones) refl
  | inr large ↦
      rw
        (
          decimal_large (suc n) (suc n) (ground (arith, large)),
          decimal_small n (suc n / 10) (omega (arith, h)),
        )
        refl
]

digit-is_digit : (n : ℕ) → n < 10 → is_digit (digit n) ≡ true
digit-is_digit n h = ground (arith, h)

-- The file of a day, with a year of four digits, has a name that the clean-up looks for.
pub file_name-is_log_file :
    (d : Date)
    → 1000 ≤ d.year
    → d.year < 10_000
    → d.month < 12
    → d.day < 32
    → is_log_file (file_name (today_stamp d)) ≡ true
unfolding today_stamp
file_name-is_log_file d low high month day =
    rw
      (
        year_digits d.year low high,
        two_digits (suc d.month) (omega (arith, month)),
        two_digits d.day (omega (arith, day)),
        digit-is_digit (d.year / 10 / 10 / 10) (omega (arith, high)),
        digit-is_digit (d.year / 10 / 10 % 10) (omega arith),
        digit-is_digit (d.year / 10 % 10) (omega arith),
        digit-is_digit (d.year % 10) (omega arith),
        digit-is_digit (suc d.month / 10) (omega (arith, month)),
        digit-is_digit (suc d.month % 10) (omega arith),
        digit-is_digit (d.day / 10) (omega (arith, day)),
        digit-is_digit (d.day % 10) (omega arith),
      )
      refl
