-- ===== src/MiningJob/Hex.antt =====
-- The hexadecimal text of a number reads back as the number.
use elektron_net_ppool.Common.{
  ◌⊎◌, ℕ, zero, suc, ◌+◌, ◌*◌, ◌/◌, ◌%◌, ◌≤◌, ◌<◌, pos, ◌≡◌, refl, Bool, true, false, ◌&&◌, some,
  [], ◌∷◌, ◌++◌, ltb, ◌==◌, arith, Bool-cases, inl, inr, All, All-append,
}
use elektron_net_ppool.Common.Js.{Text, is_space, lower_code}
use elektron_net_ppool.Jobs.{hex_digit, hex_from, to_hex}
use elektron_net_ppool.Stratum.Header.{
  is_hex_digit, hex_value, hex_digits_from, leading_hex, without_prefix, signed_hex, parse_hex,
}

-- A digit that `toString(16)` writes.
unfoldable IsHex : ℕ → Type 0
IsHex c = ((b'0' ≤ c) × (c ≤ b'9')) ⊎ ((b'a' ≤ c) × (c ≤ b'f'))

hex_digit-IsHex : (d : ℕ) → d < 16 → IsHex (hex_digit d)
unfolding IsHex
hex_digit-IsHex d h = elim (Bool-cases (ltb d 10)) [
  | inl e ↦ rw e (inl (omega arith, ground arith))
  | inr e ↦ rw e (inr (omega arith, omega arith))
]

is_hex_digit-IsHex : (c : ℕ) → IsHex c → is_hex_digit c ≡ true
unfolding IsHex
is_hex_digit-IsHex c h = ground arith

hex_value-hex_digit : (d : ℕ) → d < 16 → hex_value (hex_digit d) ≡ d
hex_value-hex_digit d h = ground arith

hex_digits_from-append :
    (xs ys : Text) (n : ℕ)
    → All IsHex xs
    → hex_digits_from n (xs ++ ys) ≡ hex_digits_from (hex_digits_from n xs) ys
hex_digits_from-append [] ys n h = refl
hex_digits_from-append (x ∷ xs) ys n (hx, h) =
    rw (is_hex_digit-IsHex x hx, hex_digits_from-append xs ys (n * 16 + hex_value x) h) refl

hex_digits_from-hex_digit : (n d : ℕ) → d < 16 → hex_digits_from n (hex_digit d ∷ []) ≡ n * 16 + d
hex_digits_from-hex_digit n d h =
    rw (is_hex_digit-IsHex (hex_digit d) (hex_digit-IsHex d h), hex_value-hex_digit d h) refl

hex_from-IsHex : (fuel n : ℕ) → All IsHex (hex_from fuel n)
unfolding hex_from
hex_from-IsHex zero n = tt
hex_from-IsHex (suc fuel) n = elim (Bool-cases (ltb n 16)) [
  | inl e ↦ rw e (hex_digit-IsHex n (ground arith), tt)
  | inr e ↦ rw e (
      All-append IsHex (hex_from fuel (n / 16)) _ (hex_from-IsHex fuel (n / 16))
        (hex_digit-IsHex (n % 16) (omega arith), tt))
]

hex_digits_from-hex_from : (fuel n : ℕ) → n < fuel → hex_digits_from 0 (hex_from fuel n) ≡ n
unfolding hex_from
hex_digits_from-hex_from zero n h = absurd (omega arith)
hex_digits_from-hex_from (suc fuel) n h = elim (Bool-cases (ltb n 16)) [
  | inl e ↦ rw (e, hex_digits_from-hex_digit 0 n (ground arith)) (omega arith)
  | inr e ↦
      rw
        (
          e,
          hex_digits_from-append (hex_from fuel (n / 16)) (hex_digit (n % 16) ∷ []) 0
              (hex_from-IsHex fuel (n / 16)),
          hex_digits_from-hex_from fuel (n / 16) (ground arith),
          hex_digits_from-hex_digit (n / 16) (n % 16) (omega arith),
        )
        (omega arith)
]

-- Nothing is cut off a text of such digits.
is_space-IsHex : (c : ℕ) → IsHex c → is_space c ≡ false
unfolding IsHex
is_space-IsHex c h = ground arith

minus-IsHex : (c : ℕ) → IsHex c → (c == b'-') ≡ false
unfolding IsHex
minus-IsHex c h = ground arith

plus-IsHex : (c : ℕ) → IsHex c → (c == b'+') ≡ false
unfolding IsHex
plus-IsHex c h = ground arith

lower_code-IsHex : (c : ℕ) → IsHex c → (lower_code c == b'x') ≡ false
unfolding IsHex
lower_code-IsHex c h = ground arith

&&-false : (b : Bool) → (b && false) ≡ false
&&-false true = refl
&&-false false = refl

without_prefix-IsHex : (s : Text) → All IsHex s → without_prefix s ≡ s
without_prefix-IsHex [] h = refl
without_prefix-IsHex (a ∷ []) h = refl
without_prefix-IsHex (a ∷ b ∷ s) h = rw (lower_code-IsHex b h.1.0, &&-false (a == b'0')) refl

parse_hex-IsHex : (s : Text) → All IsHex s → parse_hex s ≡ signed_hex false (leading_hex s)
parse_hex-IsHex [] h = refl
parse_hex-IsHex (c ∷ s) h =
    rw (is_space-IsHex c h.0, minus-IsHex c h.0, plus-IsHex c h.0, without_prefix-IsHex (c ∷ s) h)
      refl

leading_hex-append :
    (xs : Text) (d : ℕ)
    → All IsHex xs
    → IsHex d
    → leading_hex (xs ++ d ∷ []) ≡ some (hex_digits_from 0 (xs ++ d ∷ []))
leading_hex-append [] d h k = rw (is_hex_digit-IsHex d k) refl
leading_hex-append (x ∷ xs) d h k = rw (is_hex_digit-IsHex x h.0) refl

leading_hex-hex_from :
    (fuel n : ℕ)
    → n < fuel
    → leading_hex (hex_from fuel n) ≡ some (hex_digits_from 0 (hex_from fuel n))
unfolding hex_from
leading_hex-hex_from zero n h = absurd (omega arith)
leading_hex-hex_from (suc fuel) n h = elim (Bool-cases (ltb n 16)) [
  | inl e ↦ rw e (leading_hex-append [] (hex_digit n) tt (hex_digit-IsHex n (ground arith)))
  | inr e ↦ rw e (
      leading_hex-append (hex_from fuel (n / 16)) (hex_digit (n % 16))
        (hex_from-IsHex fuel (n / 16)) (hex_digit-IsHex (n % 16) (omega arith)))
]

-- The hexadecimal text of a number is read back as the number.
pub parse_hex-to_hex : (n : ℕ) → parse_hex (to_hex n) ≡ some (pos n)
parse_hex-to_hex n =
    rw
      (
        parse_hex-IsHex (to_hex n) (hex_from-IsHex (suc n) n),
        leading_hex-hex_from (suc n) n (omega arith),
        hex_digits_from-hex_from (suc n) n (omega arith),
      )
      refl
