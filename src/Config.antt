-- ===== src/Config.antt =====
-- `ConfigService.get` and the readings of whole-number settings that the services share:
-- `const configured = parseInt(get(key), 10)`, which must be finite and above 0, else a default.
use elektron_net_ppool.Common.{
  ℕ, suc, ℤ, pos, negsuc, String, Bool, false, Option, none, some, ◌<◌, arith,
}
use elektron_net_ppool.Common.Js.{codes, to_lower, text_eq, parse_int}

abbrev pub Config : Type 0
Config = String → Option String

unfoldable pub parsed : Option String → Option ℤ
unfolding parse_int
parsed none = none
parsed (some s) = parse_int (codes s)

abbrev pub positive_or : ℕ → Option ℤ → ℕ
positive_or d none = d
positive_or d (some (negsuc n)) = d
positive_or d (some (pos ℕ.zero)) = d
positive_or d (some (pos (suc n))) = suc n

abbrev pub positive_setting : Config → String → ℕ → ℕ
positive_setting config key d = positive_or d (parsed (config key))

-- `get(key)?.toLowerCase() === 'true'`
abbrev pub is_true : Option String → Bool
is_true none = false
is_true (some s) = text_eq (to_lower (codes s)) (codes "true")

-- A reading is never 0, whatever is configured.
pub positive_setting-pos :
    (config : Config) (key : String) (d : ℕ) → 0 < d → 0 < positive_setting config key d
positive_setting-pos config key d h = go (parsed (config key))
  where
    go : (o : Option ℤ) → 0 < positive_or d o
    go none = h
    go (some (negsuc n)) = h
    go (some (pos ℕ.zero)) = h
    go (some (pos (suc n))) = omega arith
