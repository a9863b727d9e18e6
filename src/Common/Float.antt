-- ===== src/Common/Float.antt =====
-- The floating-point numbers of the language, as a type with the operations that the source uses.
-- `floor` and `round` are those of `Math` on finite values; `parse` is `parseFloat`, with `none` for what
-- is not finite, and `number` is `Number` of a text in the same way; `to_fixed8` is `toFixed(8)`.
use elektron_net_ppool.Common.Int.{ℤ}
use elektron_net_ppool.Common.Js.{Text}
use mathlib.Core.Bool.{Bool}
use mathlib.Core.Option.{Option}

pub record Float64 : Type 1 where
  pub F : Type 0
  pub of_int : ℤ → F
  pub add : F → F → F
  pub sub : F → F → F
  pub mul : F → F → F
  pub div : F → F → F
  pub floor : F → ℤ
  pub round : F → ℤ
  pub le : F → F → Bool
  pub lt : F → F → Bool
  pub parse : Text → Option F
  pub number : Text → Option F
  pub to_fixed8 : F → Text
