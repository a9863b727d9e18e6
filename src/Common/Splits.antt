-- ===== src/Common/Splits.antt =====
-- `join` and `split` of texts undo each other.
use Prim.Native.Nat.{ℕ}
use mathlib.Core.Path.{◌≡◌, refl, ap, ◌∙◌}
use mathlib.Core.Logic.{◌≢◌}
use mathlib.Core.List.{List, [], ◌∷◌, ◌++◌, append_assoc, append-nil, reverse, reverse-cons}
use elektron_net_ppool.Common.Tests.{==-ne, ==-refl}
use elektron_net_ppool.Common.Lists.{All}
use elektron_net_ppool.Common.Js.{Text, split, split_from}

-- `parts.join(separator)`
abbrev pub join : ℕ → List Text → Text
join separator [] = []
join separator (s ∷ []) = s
join separator (s ∷ t ∷ rest) = s ++ separator ∷ join separator (t ∷ rest)

-- A text without a separator.
abbrev pub IsFree : ℕ → Text → Type 0
IsFree separator s = All (λ c. c ≢ separator) s

pushed : (part : Text) (c : ℕ) (s : Text) → reverse (c ∷ part) ++ s ≡ reverse part ++ c ∷ s
pushed part c s = rw (reverse-cons c part) (append_assoc (reverse part) (c ∷ []) s)

pub split_from-free :
    (separator : ℕ) (part s : Text)
    → IsFree separator s
    → split_from separator part s ≡ (reverse part ++ s) ∷ []
split_from-free separator part [] h = rw (append-nil (reverse part)) refl
split_from-free separator part (c ∷ s) h =
    rw (==-ne c separator h.0, split_from-free separator (c ∷ part) s h.1)
      (ap (λ t. t ∷ []) (pushed part c s))

pub split_from-separator :
    (separator : ℕ) (part s t : Text)
    → IsFree separator s
    → split_from separator part (s ++ separator ∷ t) ≡ (reverse part ++ s) ∷ split separator t
split_from-separator separator part [] t h = rw (==-refl separator, append-nil (reverse part)) refl
split_from-separator separator part (c ∷ s) t h =
    rw (==-ne c separator h.0, split_from-separator separator (c ∷ part) s t h.1)
      (ap (λ u. u ∷ split separator t) (pushed part c s))

-- What is joined is read back, where no part holds the separator and there is a part.
pub split-join :
    (separator : ℕ) (s : Text) (parts : List Text)
    → IsFree separator s
    → All (IsFree separator) parts
    → split separator (join separator (s ∷ parts)) ≡ s ∷ parts
split-join separator s [] h k = split_from-free separator [] s h
split-join separator s (t ∷ parts) h k =
    split_from-separator separator [] s (join separator (t ∷ parts)) h
    ∙ ap (λ ts. s ∷ ts) (split-join separator t parts k.0 k.1)

pub join-append :
    (separator : ℕ) (s : Text) (parts : List Text)
    → join separator (s ∷ parts) ++ separator ∷ [] ≡ join separator (s ∷ parts ++ [] ∷ [])
join-append separator s [] = refl
join-append separator s (t ∷ parts) =
    append_assoc s (separator ∷ join separator (t ∷ parts)) (separator ∷ [])
    ∙ ap (λ u. s ++ separator ∷ u) (join-append separator t parts)
