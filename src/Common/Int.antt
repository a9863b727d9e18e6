-- ===== src/Common/Int.antt =====
-- Signed integers over the native numbers: the whole-number values of the source's `number`.
use Prim.Native.Nat.{ℕ, suc, ◌+◌, ◌-◌, ◌≤◌}
use mathlib.Core.Path.{◌≡◌, refl}
use mathlib.Core.Bool.{Bool, true, false}
use native.Mathlib.Omega.{arith}
use elektron_net_ppool.Common.Tests.{ltb, leb, ◌==◌, ==→eq, ==-refl, false_not_true, if◌then◌else◌}

-- `negsuc n` is -(n + 1).
pub data ℤ : Type 0 where
  pos : ℕ → ℤ
  negsuc : ℕ → ℤ

abbrev pub pos_part : ℤ → ℕ
pos_part (pos n) = n
pos_part (negsuc n) = 0

abbrev pub neg_part : ℤ → ℕ
neg_part (pos n) = 0
neg_part (negsuc n) = suc n

abbrev pub sub_ℕ : ℕ → ℕ → ℤ
sub_ℕ a b = if leb b a then pos (a - b) else negsuc (b - a - 1)

infixl 65 ◌+ℤ◌ ◌-ℤ◌
infix 50 ◌≤ℤ◌
unfoldable pub ◌+ℤ◌ : ℤ → ℤ → ℤ
a +ℤ b = sub_ℕ (pos_part a + pos_part b) (neg_part a + neg_part b)

unfoldable pub ◌-ℤ◌ : ℤ → ℤ → ℤ
a -ℤ b = sub_ℕ (pos_part a + neg_part b) (neg_part a + pos_part b)

abbrev pub ◌≤ℤ◌ : ℤ → ℤ → Type 0
a ≤ℤ b = pos_part a + neg_part b ≤ pos_part b + neg_part a

abbrev pub ltb_ℤ : ℤ → ℤ → Bool
ltb_ℤ a b = ltb (pos_part a + neg_part b) (pos_part b + neg_part a)

abbrev pub leb_ℤ : ℤ → ℤ → Bool
leb_ℤ a b = leb (pos_part a + neg_part b) (pos_part b + neg_part a)

abbrev pub eqb_ℤ : ℤ → ℤ → Bool
eqb_ℤ (pos a) (pos b) = a == b
eqb_ℤ (negsuc a) (negsuc b) = a == b
eqb_ℤ _ _ = false

pub eqb_ℤ-true : (a b : ℤ) → eqb_ℤ a b ≡ true → a ≡ b
eqb_ℤ-true (pos a) (pos b) h = rw (==→eq a b h)
eqb_ℤ-true (pos a) (negsuc b) h = absurd (false_not_true h)
eqb_ℤ-true (negsuc a) (pos b) h = absurd (false_not_true h)
eqb_ℤ-true (negsuc a) (negsuc b) h = rw (==→eq a b h)

pub eqb_ℤ_refl : (a : ℤ) → eqb_ℤ a a ≡ true
eqb_ℤ_refl (pos a) = ==-refl a
eqb_ℤ_refl (negsuc a) = ==-refl a

pub eqb_ℤ_sym : (a b : ℤ) → eqb_ℤ a b ≡ eqb_ℤ b a
eqb_ℤ_sym (pos a) (pos b) = ground arith
eqb_ℤ_sym (pos a) (negsuc b) = refl
eqb_ℤ_sym (negsuc a) (pos b) = refl
eqb_ℤ_sym (negsuc a) (negsuc b) = ground arith

pub +ℤ_parts :
    (a b : ℤ)
    → pos_part (a +ℤ b) + neg_part a + neg_part b ≡ neg_part (a +ℤ b) + pos_part a + pos_part b
unfolding ◌+ℤ◌
+ℤ_parts a b = ground arith

pub -ℤ_parts :
    (a b : ℤ)
    → pos_part (a -ℤ b) + neg_part a + pos_part b ≡ neg_part (a -ℤ b) + pos_part a + neg_part b
unfolding ◌-ℤ◌
-ℤ_parts a b = ground arith

pub eq_of_parts : (a b : ℤ) → pos_part a + neg_part b ≡ pos_part b + neg_part a → a ≡ b
eq_of_parts a b h = ground arith

pub ruleset int_laws = (arith, +ℤ_parts, -ℤ_parts, eq_of_parts)

pub +ℤ_zero : (a : ℤ) → a +ℤ pos 0 ≡ a
+ℤ_zero a = omega int_laws

-- `omega` reads an equation between integers through this.
pub parts_of_eq : (a b : ℤ) → a ≡ b → pos_part a + neg_part b ≡ pos_part b + neg_part a
parts_of_eq a b e = rw e (omega arith)

-- Two moves in a row, from `p` to `q` and from `q` to `r`, where amounts go out and come in.
pub +ℤ_chain :
    (p q r out out' come come' : ℤ)
    → q +ℤ out ≡ p +ℤ come
    → r +ℤ out' ≡ q +ℤ come'
    → r +ℤ (out +ℤ out') ≡ p +ℤ (come +ℤ come')
+ℤ_chain p q r out out' come come' h k = omega (int_laws, parts_of_eq _ _ h, parts_of_eq _ _ k)

pub +ℤ_gain : (p q r gain gain' : ℤ) → q ≡ p +ℤ gain → r ≡ q +ℤ gain' → r ≡ p +ℤ (gain +ℤ gain')
+ℤ_gain p q r gain gain' h k = rw (k, h) (omega int_laws)

pub leb_ℤ→≤ℤ : (a b : ℤ) → leb_ℤ a b ≡ true → a ≤ℤ b
leb_ℤ→≤ℤ a b h = ground arith

pub ≤ℤ→leb_ℤ : (a b : ℤ) → a ≤ℤ b → leb_ℤ a b ≡ true
≤ℤ→leb_ℤ a b h = ground arith

pub +ℤ_zero_left : (a : ℤ) → pos 0 +ℤ a ≡ a
+ℤ_zero_left a = omega int_laws

pub pos_part-+ℤ_le : (a b : ℤ) → pos_part (a +ℤ b) ≤ pos_part a + pos_part b
unfolding ◌+ℤ◌
pos_part-+ℤ_le a b = ground arith
