-- ===== src/Registry.antt =====
-- The pool registry (src/services/pool-registry.service.ts): the blocks that were found lately, the
-- list of explorers, and the reports to them. The answers of the web are arguments; the copy on the
-- disk is the text that is kept.
pub mod Recent
use elektron_net_ppool.Common.{
  ℕ, zero, suc, ◌+◌, ◌*◌, String, Bool, true, false, ◌&&◌, ◌||◌, Option, none, some, List, [], ◌∷◌,
  ◌++◌, map, length, ltb, ◌==◌, if◌then◌else◌,
}
use elektron_net_ppool.Common.Js.{Text, codes, to_lower, trim, split, text_eq}
use mathlib.Core.List.{reverse}
use elektron_net_ppool.Config.{Config}

-- RegistryMempoolEntry
pub record RegistryMempoolEntry : Type 0 where
  pub name : Text
  pub url : Text

abbrev pub recent_block_ttl_ms : ℕ
recent_block_ttl_ms = 30 * 60 * 1000

-- `Map<string, number>`
abbrev pub FoundBlocks : Type 0
FoundBlocks = List (Text × ℕ)

pub record PoolRegistry : Type 0 where
  pub mempools : List RegistryMempoolEntry
  pub recently_found_blocks : FoundBlocks
  pub local_cache : Option Text

unfoldable pub prune_old_entries : (now : ℕ) → FoundBlocks → FoundBlocks
prune_old_entries now [] = []
prune_old_entries now ((k, found_at) ∷ m) =
    let rest = prune_old_entries now m in
    if ltb (found_at + recent_block_ttl_ms) now then rest else (k, found_at) ∷ rest

abbrev pub remove : Text → FoundBlocks → FoundBlocks
remove k [] = []
remove k ((k', t) ∷ m) = let rest = remove k m in if text_eq k' k then rest else (k', t) ∷ rest

abbrev pub has : Text → FoundBlocks → Bool
has k [] = false
has k ((k', t) ∷ m) = if text_eq k' k then true else has k m

unfoldable pub record_found_block : (now : ℕ) → Text → FoundBlocks → FoundBlocks
unfolding prune_old_entries
record_found_block now hash m =
    prune_old_entries now ((to_lower hash, now) ∷ remove (to_lower hash) m)

unfoldable pub was_recently_found : (now : ℕ) → Text → FoundBlocks → Bool × FoundBlocks
unfolding prune_old_entries
was_recently_found now hash m = let m' = prune_old_entries now m in (has (to_lower hash) m', m')

-- What stands up to the closing quote, and what follows it; a backslash takes the next character
-- with it, which must not end a line. `part` is what was read, the last character first.
abbrev pub quoted : Text → Text → Option (Text × Text)
quoted part [] = none
quoted part (c ∷ []) = if c == b'"' then some (reverse part, []) else none
quoted part (c ∷ d ∷ s) = if c == b'"' then some (reverse part, d ∷ s) else (elim (c == 92) [
  | true ↦ elim ((d == 10) || (d == 13) || (d == 8232) || (d == 8233)) [
    | true ↦ none
    | false ↦ quoted (d ∷ c ∷ part) s
  ]
  | false ↦ quoted (c ∷ part) (d ∷ s)
])

-- `line.matchAll(/"((?:[^"\\]|\\.)*)"/g)`, with `fuel` for the length of the line.
abbrev pub fields_from : (fuel : ℕ) → Text → List Text
fields_from zero s = []
fields_from (suc fuel) [] = []
fields_from (suc fuel) (c ∷ s) = elim (c == b'"') [
  | true ↦ elim (quoted [] s) [
    | none ↦ fields_from fuel s
    | some found ↦ found.0 ∷ fields_from fuel found.1
  ]
  | false ↦ fields_from fuel s
]

abbrev with_entry : List Text → List RegistryMempoolEntry → List RegistryMempoolEntry
with_entry (name ∷ url ∷ []) rest = elim (trim name) [
  | [] ↦ rest
  | ◌∷◌ a n ↦ elim (trim url) [ [] ↦ rest | ◌∷◌ b u ↦ record { name = a ∷ n; url = b ∷ u } ∷ rest ]
]
with_entry _ rest = rest

abbrev entries_of : List Text → List RegistryMempoolEntry
entries_of [] = []
entries_of (raw_line ∷ lines) =
    let line = trim raw_line in with_entry (fields_from (length line) line) (entries_of lines)

unfoldable pub parse_mempools_registry : Text → List RegistryMempoolEntry
parse_mempools_registry text = entries_of (split 10 text)

abbrev pub with_entries : Text → List RegistryMempoolEntry → PoolRegistry → PoolRegistry
with_entries text [] r = r
with_entries text (e ∷ entries) r = record r { mempools = e ∷ entries; local_cache = some text }

-- `refreshRegistry`, with what the registry's host answers; `none` is a failure.
unfoldable pub refresh_registry : Option Text → PoolRegistry → PoolRegistry
unfolding parse_mempools_registry
refresh_registry none r = r
refresh_registry (some text) r = with_entries text (parse_mempools_registry text) r

-- `loadLocalCache`, with the file's text.
unfoldable pub load_local_cache : Option Text → PoolRegistry → PoolRegistry
unfolding parse_mempools_registry
load_local_cache none r = r
load_local_cache (some text) r = record r { mempools = parse_mempools_registry text }

unfoldable pub on_module_init :
    (file : Option Text) → (answer : Option Text) → PoolRegistry → PoolRegistry
unfolding load_local_cache refresh_registry
on_module_init file answer r = refresh_registry answer (load_local_cache file r)

-- A report that is sent, to the entry's URL; whether it arrives is not looked at.
pub record Report : Type 0 where
  pub to : RegistryMempoolEntry
  pub name : Text
  pub block_hash : Text

abbrev pub pool_name : Config → Text
pool_name config = elim (config "POOL_IDENTIFIER") [ none ↦ [] | some s ↦ trim (codes s) ]

abbrev reports : Text → Text → List RegistryMempoolEntry → List Report
reports [] hash mempools = []
reports (c ∷ name) hash mempools =
    map (λ e. record { to = e; name = c ∷ name; block_hash = hash }) mempools

unfoldable pub report_block_found :
    Config → (now : ℕ) → Text → PoolRegistry → List Report × PoolRegistry
unfolding record_found_block
report_block_found config now hash r = (
  reports (pool_name config) hash r.mempools,
  record r { recently_found_blocks = record_found_block now hash r.recently_found_blocks },
)
