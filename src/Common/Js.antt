-- ===== src/Common/Js.antt =====
-- What the source uses of the language's library on text: `parseInt(s, 10)`, `toLowerCase`, `trim`,
-- `split` and `includes`, on code points. Case is that of ASCII.
use Prim.Native.Nat.{ℕ, ◌+◌, ◌-◌, ◌*◌}
use Prim.Native.Char.{code}
use Prim.Native.String.{String}
use mathlib.Core.Bool.{Bool, true, false, ◌&&◌, ◌||◌}
use mathlib.Core.Option.{Option, none, some}
use mathlib.Core.List.{List, [], ◌∷◌, map, reverse}
use mathlib.Core.Path.{◌≡◌, refl}
use mathlib.Core.Logic.{inl, inr}
use native.Mathlib.Omega.{arith}
use elektron_net_ppool.Common.Tests.{
  leb, ◌==◌, if◌then◌else◌, Bool-cases, ==→eq, ==-refl, false_not_true,
}
use elektron_net_ppool.Common.Int.{ℤ, pos, ◌-ℤ◌}

abbrev pub Text : Type 0
Text = List ℕ

abbrev pub codes : String → Text
codes String.[] = []
codes (String.◌∷◌ c s) = code c ∷ codes s

abbrev pub lower_code : ℕ → ℕ
lower_code c = if leb b'A' c && leb c b'Z' then c + 32 else c

abbrev pub to_lower : Text → Text
to_lower s = map lower_code s

abbrev pub is_space : ℕ → Bool
is_space c =
    (leb 9 c && leb c 13)
    || (c == 32)
    || (c == 160)
    || (c == 5760)
    || (leb 8192 c && leb c 8202)
    || (c == 8232)
    || (c == 8233)
    || (c == 8239)
    || (c == 8287)
    || (c == 12288)
    || (c == 65279)

abbrev pub trim_start : Text → Text
trim_start [] = []
trim_start (c ∷ s) = let rest = trim_start s in if is_space c then rest else c ∷ s

abbrev pub trim : Text → Text
trim s = reverse (trim_start (reverse (trim_start s)))

abbrev pub text_eq : Text → Text → Bool
text_eq [] [] = true
text_eq (a ∷ s) (b ∷ t) = a == b && text_eq s t
text_eq _ _ = false

abbrev pub starts_with : Text → Text → Bool
starts_with s [] = true
starts_with [] (b ∷ t) = false
starts_with (a ∷ s) (b ∷ t) = a == b && starts_with s t

-- `s.includes(t)`
abbrev pub includes : Text → Text → Bool
includes [] t = starts_with [] t
includes (a ∷ s) t = starts_with (a ∷ s) t || includes s t

-- `s.split(sep)`, with the part so far
abbrev pub split_from : ℕ → Text → Text → List Text
split_from sep part [] = reverse part ∷ []
split_from sep part (c ∷ s) =
    let closed = split_from sep [] s in
    let longer = split_from sep (c ∷ part) s in if c == sep then reverse part ∷ closed else longer

abbrev pub split : ℕ → Text → List Text
split sep s = split_from sep [] s

abbrev pub is_digit : ℕ → Bool
is_digit c = leb b'0' c && leb c b'9'

-- The value of the leading digits; `none` if there is none.
abbrev pub digits_from : ℕ → Text → ℕ
digits_from n [] = n
digits_from n (c ∷ s) =
    let rest = digits_from (n * 10 + (c - b'0')) s in if is_digit c then rest else n

abbrev pub leading_number : Text → Option ℕ
leading_number [] = none
leading_number (c ∷ s) = if is_digit c then some (digits_from 0 (c ∷ s)) else none

abbrev pub negated : Option ℕ → Option ℤ
negated none = none
negated (some n) = some (pos 0 -ℤ pos n)

abbrev pub positive : Option ℕ → Option ℤ
positive none = none
positive (some n) = some (pos n)

abbrev pub signed : Text → Option ℤ
signed [] = none
signed (c ∷ s) =
    if c == b'-'
    then negated (leading_number s)
    else if c == b'+'
    then positive (leading_number s)
    else positive (leading_number (c ∷ s))

-- `parseInt(s, 10)`; `none` is `NaN`.
unfoldable pub parse_int : Text → Option ℤ
unfolding ◌-ℤ◌
parse_int s = signed (trim_start s)

pub text_eq-true : (s t : Text) → text_eq s t ≡ true → s ≡ t
text_eq-true [] [] h = refl
text_eq-true [] (b ∷ t) h = absurd (ground arith)
text_eq-true (a ∷ s) [] h = absurd (ground arith)
text_eq-true (a ∷ s) (b ∷ t) h = elim (Bool-cases (a == b)) [
  | inl e ↦ rw (==→eq a b e, text_eq-true s t (rw e at h)) refl
  | inr e ↦ absurd (false_not_true (rw e at h))
]

pub text_eq_refl : (s : Text) → text_eq s s ≡ true
text_eq_refl [] = refl
text_eq_refl (x ∷ s) = rw (==-refl x, text_eq_refl s) refl

pub text_eq_sym : (s t : Text) → text_eq s t ≡ text_eq t s
text_eq_sym [] [] = refl
text_eq_sym [] (b ∷ t) = refl
text_eq_sym (a ∷ s) [] = refl
text_eq_sym (a ∷ s) (b ∷ t) = rw (text_eq_sym s t) (ground arith)
