-- ===== src/Common/Products.antt =====
-- Inequalities between products, for the analysis of rounding.
use Prim.Native.Nat.{ℕ, ◌+◌, ◌*◌, ◌^◌, ◌≤◌, ◌<◌}
use native.Mathlib.Omega.{arith}
use native.Mathlib.Nat.{pow-suc}
use native.Mathlib.Numerals.{add-two}
use mathlib.Core.Path.{◌≡◌}

pub mul_mono : (k : ℕ) {a b : ℕ} → a ≤ b → a * k ≤ b * k
mul_mono k h = grind arith

pub mul_cancel : (k a b : ℕ) → 0 < k → a * k ≤ b * k → a ≤ b
mul_cancel k a b p h = grind arith

pub mul_cancel_lt : (k a b : ℕ) → a * k < b * k → a < b
mul_cancel_lt k a b h = grind arith

-- Three roundings in a row: a quotient `p` of `d` by `t`, a product `m` with `n`, and its floor `a`.
pub rounded_share :
    (a s m k j n p t d : ℕ)
    → a * s ≤ m
    → m * k ≤ n * p * j
    → p * t * k ≤ d * s * j
    → 0 < s
    → a * t * (k * k) ≤ n * d * (j * j)
rounded_share a s m k j n p t d h₁ h₂ h₃ pos =
    mul_cancel s (a * t * (k * k)) (n * d * (j * j)) pos
      (omega (arith, mul_mono (t * k * k) h₁, mul_mono (t * k) h₂, mul_mono (n * j) h₃))

-- One more rounded addition, `u` of `x` and `d`, in front of `n` others.
pub rounded_sum :
    (x d u rest total k j kn jn : ℕ)
    → (x + d) * k ≤ u * j
    → k ≤ j
    → (u + rest) * kn ≤ total * jn
    → (x + (d + rest)) * (kn * k) ≤ total * (jn * j)
rounded_sum x d u rest total k j kn jn h₁ h₂ h₃ =
    omega (arith, mul_mono kn h₁, mul_mono (kn * rest) h₂, mul_mono j h₃)

-- The share and the sum together: `a` in all is at most `n`, where the factors are that close.
pub rounded_total :
    (a n t d k j kn jn : ℕ)
    → a * t * (k * k) ≤ n * d * (j * j)
    → d * kn ≤ t * jn
    → 0 < t
    → n * (jn * j * j) < (n + 1) * (kn * k * k)
    → a ≤ n
rounded_total a n t d k j kn jn h₁ h₂ pos small =
    let near : a * (kn * k * k) ≤ n * (jn * j * j) =
      mul_cancel t (a * (kn * k * k)) (n * (jn * j * j)) pos
        (omega (arith, mul_mono kn h₁, mul_mono (n * j * j) h₂)) in
    let below = mul_cancel_lt (kn * k * k) a (n + 1) (omega arith) in omega arith

pub pow-add_two : (b n : ℕ) → b ^ (n + 2) ≡ b ^ n * b * b
pow-add_two b n = simp (add-two, pow-suc)
