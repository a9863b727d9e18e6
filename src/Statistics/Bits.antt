-- ===== src/Statistics/Bits.antt =====
-- The bits of a number that is or-ed with its own halves: ones up to the highest.
use elektron_net_ppool.Common.{
  ℕ, zero, suc, ◌+◌, ◌*◌, ◌/◌, ◌%◌, ◌^◌, ◌≤◌, ◌<◌, max, ◌≡◌, refl, ap, ◌∙◌, arith,
}
use native.Mathlib.Nat.{pow-suc}
use Prim.Native.Nat.{bit_or, digits, bit_or-bitwise}

abbrev or_digits : ℕ → ℕ → ℕ → ℕ
or_digits n a b = digits (λ b. b) max n a b

or_digits_fuel : (n m a b : ℕ) → a ≤ n → a ≤ m → or_digits n a b ≡ or_digits m a b
or_digits_fuel zero zero a b p q = refl
or_digits_fuel zero (suc m) zero b p q = refl
or_digits_fuel zero (suc m) (suc a) b p q = absurd (omega arith)
or_digits_fuel (suc n) zero zero b p q = refl
or_digits_fuel (suc n) zero (suc a) b p q = absurd (omega arith)
or_digits_fuel (suc n) (suc m) zero b p q = refl
or_digits_fuel (suc n) (suc m) (suc a) b p q =
    omega (arith, or_digits_fuel n m (suc a / 2) (b / 2) (omega arith) (omega arith))

zero-bit_or : (b : ℕ) → bit_or 0 b ≡ b
zero-bit_or b = bit_or-bitwise 0 b

bit_or_step : (a b : ℕ) → bit_or a b ≡ bit_or (a / 2) (b / 2) * 2 + max (a % 2) (b % 2)
bit_or_step zero b = omega (arith, zero-bit_or b, zero-bit_or (b / 2))
bit_or_step (suc a) b = omega (
  arith,
  bit_or-bitwise (suc a) b,
  bit_or-bitwise (suc a / 2) (b / 2),
  or_digits_fuel a (suc a / 2) (suc a / 2) (b / 2) (omega arith) (omega arith),
)

bit_or_half : (a b : ℕ) → bit_or a b / 2 ≡ bit_or (a / 2) (b / 2)
bit_or_half a b = omega (arith, bit_or_step a b)

bit_or_low : (a b : ℕ) → bit_or a b % 2 ≡ max (a % 2) (b % 2)
bit_or_low a b = omega (arith, bit_or_step a b)

bit_or-lt : (k a b : ℕ) → a < 2 ^ k → b < 2 ^ k → bit_or a b < 2 ^ k
bit_or-lt zero zero b h l = omega (arith, zero-bit_or b)
bit_or-lt zero (suc a) b h l = absurd (omega arith)
bit_or-lt (suc k) a b h l =
    let h' = rw pow-suc at h in
    let l' = rw pow-suc at l in
    rw pow-suc
      (omega (arith, bit_or_step a b, bit_or-lt k (a / 2) (b / 2) (omega arith) (omega arith)))

-- Bit `i`.
unfoldable bit : ℕ → ℕ → ℕ
bit zero x = x % 2
bit (suc i) x = bit i (x / 2)

bit-bit_or : (i a b : ℕ) → bit i (bit_or a b) ≡ max (bit i a) (bit i b)
unfolding bit
bit-bit_or zero a b = bit_or_low a b
bit-bit_or (suc i) a b = rw (bit_or_half a b) (bit-bit_or i (a / 2) (b / 2))

unfoldable pub halved : ℕ → ℕ → ℕ
halved zero x = x
halved (suc k) x = halved k (x / 2)

bit_at : (i j x : ℕ) → i ≡ j → bit i x ≡ bit j x
bit_at i j x e = ap (λ k. bit k x) e

bit-halved : (k i x : ℕ) → bit i (halved k x) ≡ bit (k + i) x
unfolding bit halved
bit-halved zero i x = bit_at i (0 + i) x (omega arith)
bit-halved (suc k) i x = bit-halved k i (x / 2) ∙ bit_at (suc (k + i)) (suc k + i) x (omega arith)

halved-le : (k x : ℕ) → halved k x ≤ x
unfolding halved
halved-le zero x = omega arith
halved-le (suc k) x = omega (arith, halved-le k (x / 2))

unfoldable pub spread : ℕ → ℕ → ℕ
spread k x = bit_or x (halved k x)

pub spread-lt : (m k x : ℕ) → x < 2 ^ m → spread k x < 2 ^ m
unfolding spread
spread-lt m k x h = bit_or-lt m x (halved k x) h (omega (arith, halved-le k x))

bit_or-ge_fuel : (n a b : ℕ) → a ≤ n → a ≤ bit_or a b
bit_or-ge_fuel n zero b h = omega arith
bit_or-ge_fuel zero (suc a) b h = absurd (omega arith)
bit_or-ge_fuel (suc n) (suc a) b h =
    omega (arith, bit_or_step (suc a) b, bit_or-ge_fuel n (suc a / 2) (b / 2) (omega arith))

spread-ge : (k x : ℕ) → x ≤ spread k x
unfolding spread
spread-ge k x = bit_or-ge_fuel x x (halved k x) (omega arith)

-- The highest of the `m` bits from bit `i` on.
unfoldable any : (m i x : ℕ) → ℕ
any zero i x = 0
any (suc m) i x = max (bit i x) (any m (suc i) x)

any_of : (m n i j x : ℕ) → m ≡ n → i ≡ j → any m i x ≡ any n j x
any_of m n i j x e e' = rw (e, e') refl

any-append : (m n i x : ℕ) → any (m + n) i x ≡ max (any m i x) (any n (m + i) x)
unfolding any
any-append zero n i x = any_of (0 + n) n i (0 + i) x (omega arith) (omega arith) ∙ omega arith
any-append (suc m) n i x = omega (
  arith,
  any_of (suc m + n) (suc (m + n)) i i x (omega arith) refl,
  any-append m n (suc i) x,
  any_of n n (m + suc i) (suc m + i) x refl (omega arith),
)

bit-spread :
    (m x y : ℕ) → ((i : ℕ) → bit i y ≡ any m i x) → (i : ℕ) → bit i (spread m y) ≡ any (m + m) i x
unfolding spread
bit-spread m x y h i =
    omega (arith, bit-bit_or i y (halved m y), bit-halved m i y, h i, h (m + i), any-append m m i x)

bit-big : (k j x : ℕ) → x < 2 ^ k → k ≤ j → bit j x ≡ 0
unfolding bit
bit-big zero zero x h le = omega arith
bit-big zero (suc j) x h le = bit-big zero j (x / 2) (omega arith) (omega arith)
bit-big (suc k) zero x h le = absurd (omega arith)
bit-big (suc k) (suc j) x h le =
    let h' = rw pow-suc at h in bit-big k j (x / 2) (omega arith) (omega arith)

-- A number each of whose bits is at most the one below it is one less than a power of two.
ones : (fuel y : ℕ) → y ≤ fuel → ((i : ℕ) → bit (suc i) y ≤ bit i y) → (k : ℕ) × (y + 1 ≡ 2 ^ k)
unfolding bit
ones fuel zero le h = (0, refl)
ones zero (suc y) le h = absurd (omega arith)
ones (suc fuel) (suc y) le h = go (ones fuel (suc y / 2) (omega arith) (λ i. h (suc i)))
  where
    go : (k : ℕ) × (suc y / 2 + 1 ≡ 2 ^ k) → (k : ℕ) × (suc y + 1 ≡ 2 ^ k)
    go (zero, e) = (1, omega arith)
    go (suc k, e) =
        let e' = rw pow-suc at e in (suc (suc k), rw (pow-suc, pow-suc) (omega (arith, e', h 0)))

bit-spread_zero : (z i : ℕ) → bit i (spread 0 z) ≡ bit i z
unfolding spread
bit-spread_zero z i =
    omega (arith, bit-bit_or i z (halved 0 z), bit-halved 0 i z, bit_at (0 + i) i z (omega arith))

unfoldable pub bits_of_smear : ℕ → ℕ
bits_of_smear n = spread 0 (spread 16 (spread 8 (spread 4 (spread 2 (spread 1 n)))))

bit-one : (n i : ℕ) → bit i n ≡ any 1 i n
unfolding any
bit-one n i = omega arith

bit-bits_of_smear : (n i : ℕ) → bit i (bits_of_smear n) ≡ any 32 i n
unfolding bits_of_smear
bit-bits_of_smear n i =
    bit-spread_zero _ i
    ∙ bit-spread 16 n _
        (bit-spread 8 n _ (bit-spread 4 n _ (bit-spread 2 n _ (bit-spread 1 n n (bit-one n))))) i

pub bits_of_smear-lt : (m n : ℕ) → n < 2 ^ m → bits_of_smear n < 2 ^ m
unfolding bits_of_smear
bits_of_smear-lt m n h =
    spread-lt m 0 _
      (spread-lt m 16 _ (spread-lt m 8 _ (spread-lt m 4 _ (spread-lt m 2 _ (spread-lt m 1 n h)))))

pub bits_of_smear-ge : (n : ℕ) → n ≤ bits_of_smear n
unfolding bits_of_smear
bits_of_smear-ge n = omega (
  arith,
  spread-ge 1 n,
  spread-ge 2 (spread 1 n),
  spread-ge 4 (spread 2 (spread 1 n)),
  spread-ge 8 (spread 4 (spread 2 (spread 1 n))),
  spread-ge 16 (spread 8 (spread 4 (spread 2 (spread 1 n)))),
  spread-ge 0 (spread 16 (spread 8 (spread 4 (spread 2 (spread 1 n))))),
)

-- Below 2 ^ 31 no bit is above the 31st, so the ones have no gap.
pub bits_of_smear-ones : (n : ℕ) → n < 2 ^ 31 → (k : ℕ) × (bits_of_smear n + 1 ≡ 2 ^ k)
bits_of_smear-ones n h = ones (bits_of_smear n) (bits_of_smear n) (omega arith) go
  where
    go : (i : ℕ) → bit (suc i) (bits_of_smear n) ≤ bit i (bits_of_smear n)
    go i = omega (
      arith,
      bit-bits_of_smear n i,
      bit-bits_of_smear n (suc i),
      any-append 31 1 (suc i) n,
      bit-one n i,
      bit-one n (31 + suc i),
      any-append 1 31 i n,
      any_of 31 31 (1 + i) (suc i) n refl (omega arith),
      bit-big 31 (31 + suc i) n h (omega arith),
    )
