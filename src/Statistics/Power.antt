-- ===== src/Statistics/Power.antt =====
-- The smeared bits of a number are all ones up to its highest, so that what is left of them is the
-- power of two at or below the number.
use elektron_net_ppool.Common.{
  ltb-true, ℕ, zero, suc, ◌+◌, ◌*◌, ◌/◌, ◌^◌, ◌≤◌, ◌<◌, pos, ◌-ℤ◌, ◌≡◌, refl, ap, ◌∙◌, ltb, arith,
  Bool-cases, inl, inr, int_laws,
}
use native.Mathlib.Nat.{pow-suc}
use elektron_net_ppool.Statistics.Difficulty.{shift_right, smear, to_signed, highest_bit}
use elektron_net_ppool.Statistics.Bits.{
  halved, spread, spread-lt, bits_of_smear, bits_of_smear-lt, bits_of_smear-ge, bits_of_smear-ones,
}
use Prim.Native.Nat.{bit_or}

shift_right-small : (k x : ℕ) → x < 2 ^ 31 → shift_right x k ≡ x / 2 ^ k
shift_right-small k x h = rw (ltb-true x (2 ^ 31) h) (omega arith)

smear-spread : (k x : ℕ) → x < 2 ^ 31 → x / 2 ^ k ≡ halved k x → smear k x ≡ spread k x
unfolding spread
smear-spread k x h e = ap (λ s. bit_or x s) (shift_right-small k x h ∙ e)

half : (x : ℕ) → (x / 2 ^ 1 ≡ halved 1 x) × (x / 2 ^ 2 ≡ halved 2 x) × (x / 2 ^ 4 ≡ halved 4 x)
unfolding halved
half x = (omega arith, omega arith, omega arith)

eighth : (x : ℕ) → (x / 2 ^ 0 ≡ halved 0 x) × (x / 2 ^ 8 ≡ halved 8 x) × (x / 2 ^ 16 ≡ halved 16 x)
unfolding halved
eighth x = (omega arith, omega arith, omega arith)

-- One step, from a number that is known to the next.
smear_next :
    (k x y : ℕ)
    → y / 2 ^ k ≡ halved k y
    → (x ≡ y) × (y < 2 ^ 31)
    → (smear k x ≡ spread k y) × (spread k y < 2 ^ 31)
smear_next k x y e (q, h) = (rw q (smear-spread k y h e), spread-lt 31 k y h)

smeared :
    (n : ℕ)
    → n < 2 ^ 31
    → smear 0 (smear 16 (smear 8 (smear 4 (smear 2 (smear 1 n))))) ≡ bits_of_smear n
unfolding bits_of_smear
smeared n h =
    (smear_next 0 _ _ (eighth _).0 (
      smear_next 16 _ _ (eighth _).2 (
        smear_next 8 _ _ (eighth _).1 (
          smear_next 4 _ _ (half _).2
            (smear_next 2 _ _ (half _).1 (smear_next 1 n n (half n).0 (refl, h))))))).0

to_signed-small : (x : ℕ) → x < 2 ^ 31 → to_signed x ≡ pos x
to_signed-small x h = rw (ltb-true x (2 ^ 31) h) refl

difference : (x p : ℕ) → x + 1 ≡ p * 2 → pos x -ℤ pos (x / 2 ^ 1) ≡ pos p
difference x p e = omega int_laws

-- What is left of the smeared bits, `x - (x >> 1)`.
left_over :
    (x k : ℕ)
    → x < 2 ^ 31
    → x + 1 ≡ 2 ^ suc k
    → to_signed x -ℤ to_signed (shift_right x 1) ≡ pos (2 ^ k)
left_over x k h e =
    let e' = rw pow-suc at e in
    ap (λ a. a -ℤ to_signed (shift_right x 1)) (to_signed-small x h)
    ∙ ap (λ b. pos x -ℤ b)
        (ap (λ s. to_signed s) (shift_right-small 1 x h)
          ∙ to_signed-small (x / 2 ^ 1) (omega arith))
    ∙ difference x (2 ^ k) e'

below_one : (a n : ℕ) → n < a → 1 ≤ a
below_one a n h = omega arith

above : (k n : ℕ) → bits_of_smear n + 1 ≡ 2 ^ suc k → 2 ^ k ≤ n
above k n e = elim (Bool-cases (ltb n (2 ^ k))) [
  | inl b ↦
      let e' = rw pow-suc at e in
      absurd
        (omega (arith, e', bits_of_smear-lt k n (ground arith), below_one (2 ^ k) n (ground arith)))
  | inr b ↦ ground arith
]

-- Of a number from 1 to below 2 ^ 31, the bits leave the greatest power of two that is at most it.
pub highest_bit-power :
    (n : ℕ)
    → 1 ≤ n
    → n < 2 ^ 31
    → (k : ℕ) × (highest_bit n ≡ pos (2 ^ k)) × (2 ^ k ≤ n) × (n < 2 ^ suc k)
unfolding highest_bit
highest_bit-power n low high = go (bits_of_smear-ones n high)
  where
    go :
        (k : ℕ) × (bits_of_smear n + 1 ≡ 2 ^ k)
        → (k : ℕ) × (highest_bit n ≡ pos (2 ^ k)) × (2 ^ k ≤ n) × (n < 2 ^ suc k)
    go (zero, e) = absurd (omega (arith, e, bits_of_smear-ge n))
    go (suc k, e) = (
      k,
      rw (smeared n high) (left_over _ k (bits_of_smear-lt 31 n high) e),
      above k n e,
      omega (arith, e, bits_of_smear-ge n),
    )
