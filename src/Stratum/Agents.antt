-- ===== src/Stratum/Agents.antt =====
-- The lists of user agents, and the settings that tune a session (src/models/StratumV1Client.ts).
use elektron_net_ppool.Common.{
  ℕ, suc, max, ℤ, pos, negsuc, String, str_eq, Bool, true, false, ◌||◌, ◌&&◌, not, Option, none,
  some, List, [], ◌∷◌, map, if◌then◌else◌,
}
use elektron_net_ppool.Common.Js.{Text, codes, to_lower, trim, split, includes, parse_int}
use elektron_net_ppool.Common.Float.{Float64}
use elektron_net_ppool.Config.{Config}

abbrev pub is_empty : Text → Bool
is_empty [] = true
is_empty (c ∷ s) = false

-- `list.split(',').map(ua => ua.trim().toLowerCase())`
abbrev pub agent_list : Text → List Text
agent_list s = map (λ ua. to_lower (trim ua)) (split b',' s)

abbrev pub some_included : Text → List Text → Bool
some_included haystack [] = false
some_included haystack (n ∷ needles) =
    (not (is_empty n) && includes haystack n) || some_included haystack needles

-- `!list || list.trim() === ''` is no list.
abbrev pub non_blank : Option String → Option Text
non_blank none = none
non_blank (some s) = if is_empty (trim (codes s)) then none else some (codes s)

abbrev pub is_listed : Option Text → Text → Bool
is_listed none agent = false
is_listed (some list) agent = some_included (to_lower agent) (agent_list list)

abbrev is_listed_agent : Option Text → Text → Bool
is_listed_agent list agent = if is_empty agent then false else is_listed list agent

unfoldable pub is_hobby_miner : Config → Text → Bool
is_hobby_miner config agent = is_listed_agent (non_blank (config "HOBBY_MINER_USER_AGENTS")) agent

unfoldable pub is_low_hashrate_miner : Config → Text → Bool
is_low_hashrate_miner config agent =
    is_listed_agent (non_blank (config "LOW_HASHRATE_USER_AGENTS")) agent

-- `a || b` on settings: an unset or empty one gives way.
abbrev or_else : Option String → Option String → Option String
or_else none b = b
or_else (some s) b = if str_eq s "" then b else some s

unfoldable pub is_blocked_user_agent : Config → Text → Bool
is_blocked_user_agent config agent =
    is_listed
      (non_blank (
        or_else (config "NON_COMPLIANT_USER_AGENTS")
          (or_else (config "BLOCKED_USER_AGENTS") (config "COMPLIANT_HEADERS"))))
      agent

abbrev tuned : ℕ → ℕ → Option ℤ → ℕ
tuned default_ms min_ms none = default_ms
tuned default_ms min_ms (some (negsuc n)) = default_ms
tuned default_ms min_ms (some (pos ℕ.zero)) = default_ms
tuned default_ms min_ms (some (pos (suc n))) = max (suc n) min_ms

unfoldable pub parsed_ms : Option String → Option ℤ
unfolding parse_int
parsed_ms none = none
parsed_ms (some s) = parse_int (codes s)

-- A blank setting parses to `NaN`, so the first test of the source needs no case of its own.
unfoldable pub get_tuned_interval_ms : Config → String → (default_ms min_ms : ℕ) → ℕ
unfolding parse_int
get_tuned_interval_ms config key default_ms min_ms =
    tuned default_ms min_ms (parsed_ms (config key))

-- `Number(get(key))`, finite and above 0, or a default.
unfoldable pub tuned_difficulty : (f : Float64) → Config → String → f.F → f.F
tuned_difficulty f config key d = elim (config key) [
  | none ↦ d
  | some s ↦ elim (f.number (codes s)) [
    | none ↦ d
    | some x ↦ if f.lt (f.of_int (pos 0)) x then x else d
  ]
]
