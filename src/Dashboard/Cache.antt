-- ===== src/Dashboard/Cache.antt =====
-- The cache in front of the routes of src/app.controller.ts. An entry is the value with the time at which
-- it expires; before that time the library's cache answers it, and afterwards nothing.
use elektron_net_ppool.Common.{ℕ, ◌+◌, ◌*◌, Option, none, some, ltb, if◌then◌else◌}

-- The times for which the routes keep their answers.
abbrev pub info_ttl : ℕ
info_ttl = 60 * 1000

abbrev pub pool_ttl : ℕ
pool_ttl = 5 * 60 * 1000

abbrev pub chart_ttl : ℕ
chart_ttl = 10 * 60 * 1000

abbrev pub accounting_ttl : ℕ
accounting_ttl = 10 * 1000

module _ (A : Type 0) where
  abbrev pub Entry : Type 0
  Entry = Option (A × ℕ)

  -- `get(CACHE_KEY)`
  abbrev pub cached : (now : ℕ) → Entry → Option A
  cached now none = none
  cached now (some (value, expires_at)) = if ltb now expires_at then some value else none

  -- `set(CACHE_KEY, value, ttl)`
  abbrev pub set_entry : (ttl now : ℕ) → A → Entry
  set_entry ttl now value = some (value, now + ttl)
