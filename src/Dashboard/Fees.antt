-- ===== src/Dashboard/Fees.antt =====
-- What the dashboard says of the pool's terms and name (src/controllers/pplns/pplns.controller.ts), next to
-- what the payout scheduler and the reward calculator use.
use elektron_net_ppool.Common.{
  ℕ, zero, suc, ◌≡◌, refl, ℤ, pos, negsuc, ◌≤ℤ◌, String, Bool, true, false, ◌&&◌, Option, none,
  some, List, [], ◌∷◌, ◌==◌, if◌then◌else◌, arith,
}
use elektron_net_ppool.Common.Js.{Text, codes, trim}
use elektron_net_ppool.Common.Float.{Float64}
use elektron_net_ppool.Config.{Config, parsed, positive_or}
use elektron_net_ppool.Ledger.{
  PayoutLedgerEntity, get_pending_total, get_total_paid, get_last_payout_at,
}
use elektron_net_ppool.Registry.{FoundBlocks, was_recently_found}
use elektron_net_ppool.Rewards.{within, parsed_float, get_fee_percent}
use elektron_net_ppool.Scheduler.{get_min_payout_threshold_sats, get_interval_minutes}
use elektron_net_ppool.Shares.{ShareLog, get_window_minutes, window_start, get_window_stats}

-- `Number.isFinite(configured) ? configured : fallback`
abbrev pub finite_or : ℕ → Option ℤ → ℤ
finite_or fallback none = pos fallback
finite_or fallback (some n) = n

pub record PendingBalance : Type 0 where
  pub pending_sats : ℤ
  pub last_payout_at : Option ℕ
  pub total_paid_sats : ℤ

unfoldable pub get_pending_balance : String → List PayoutLedgerEntity → PendingBalance
get_pending_balance address rows = record {
  pending_sats = get_pending_total address rows;
  last_payout_at = get_last_payout_at address rows;
  total_paid_sats = get_total_paid address rows;
}

-- `get(key)?.trim() || null`
abbrev pub if_text : Text → Option Text
if_text [] = none
if_text (c ∷ s) = some (c ∷ s)

abbrev pub trimmed_setting : Option String → Option Text
trimmed_setting none = none
trimmed_setting (some s) = if_text (trim (codes s))

-- `replace(/^@/, '')`
abbrev pub without_at : Text → Text
without_at [] = []
without_at (c ∷ s) = if c == b'@' then s else c ∷ s

abbrev pub bot_name : Option Text → Option Text
bot_name none = none
bot_name (some s) = some (without_at s)

unfoldable pub get_telegram_info : Config → Option Text
get_telegram_info config = bot_name (trimmed_setting (config "TELEGRAM_BOT_USERNAME"))

unfoldable pub get_pool_identity : Config → Option Text × Option Text
get_pool_identity config =
    (trimmed_setting (config "POOL_IDENTIFIER"), trimmed_setting (config "POOL_URL"))

abbrev pub confirmed_of : (now : ℕ) → Option Text → FoundBlocks → Bool × FoundBlocks
confirmed_of now none blocks = (false, blocks)
confirmed_of now (some []) blocks = (false, blocks)
confirmed_of now (some (c ∷ hash)) blocks = was_recently_found now (c ∷ hash) blocks

-- `blockHash` is `none` where the query has no such text.
unfoldable pub get_pool_identity_confirm :
    Config
    → (now : ℕ) → Option Text
    → FoundBlocks
    → (Bool × (Option Text × Option Text)) × FoundBlocks
unfolding get_pool_identity
get_pool_identity_confirm config now block_hash blocks =
    let (answer, blocks') = confirmed_of now block_hash blocks in
    ((answer, get_pool_identity config), blocks')

module _ (f : Float64) where
  pub record FeeInfo : Type 0 where
    pub fee_percent : f.F
    pub min_payout_threshold_sats : ℤ
    pub payout_interval_minutes : ℤ

  -- `Number.isFinite(feePercent) ? feePercent : 0`
  abbrev pub finite_fee : Option f.F → f.F
  finite_fee none = f.of_int (pos 0)
  finite_fee (some x) = x

  unfoldable pub get_fee_info : Config → FeeInfo
  unfolding parsed
  get_fee_info config = record {
    fee_percent = finite_fee (parsed_float f (config "POOL_FEE_PERCENT"));
    min_payout_threshold_sats = finite_or 100_000 (parsed (config "MIN_PAYOUT_THRESHOLD_SATS"));
    payout_interval_minutes = finite_or 60 (parsed (config "PAYOUT_INTERVAL_MINUTES"));
  }

  unfoldable pub get_pplns_window_stats : Config → (now : ℕ) → ShareLog f → ℕ × (f.F × ℕ)
  get_pplns_window_stats config now log =
      (get_window_minutes config, get_window_stats f (window_start config now) log)

  -- A setting that is missing, no number, or above 0.
  unfoldable pub IsSensible : Option ℤ → Type 0
  IsSensible none = Unit
  IsSensible (some n) = pos 1 ≤ℤ n

  -- A fee that is missing, no number, or from 0 up to and without 100.
  unfoldable pub IsFee : Option f.F → Type 0
  IsFee none = Unit
  IsFee (some x) = (f.le (f.of_int (pos 0)) x && f.lt x (f.of_int (pos 100))) ≡ true

  finite_fee-within : (o : Option f.F) → IsFee o → finite_fee o ≡ within f o
  unfolding IsFee
  finite_fee-within none h = refl
  finite_fee-within (some x) h = rw h refl

  finite_or-positive_or :
      (fallback : ℕ) (o : Option ℤ)
      → IsSensible o
      → finite_or fallback o ≡ pos (positive_or fallback o)
  unfolding IsSensible
  finite_or-positive_or fallback none h = refl
  finite_or-positive_or fallback (some (pos zero)) h = absurd (omega (arith, h))
  finite_or-positive_or fallback (some (pos (suc n))) h = refl
  finite_or-positive_or fallback (some (negsuc n)) h = absurd (omega (arith, h))

  -- Where the settings are sensible or missing, the dashboard shows the fee that the rewards are reduced by, and the
  -- threshold and the interval that the payouts follow.
  pub get_fee_info_agrees :
      (config : Config)
      → IsFee (parsed_float f (config "POOL_FEE_PERCENT"))
      → IsSensible (parsed (config "MIN_PAYOUT_THRESHOLD_SATS"))
      → IsSensible (parsed (config "PAYOUT_INTERVAL_MINUTES"))
      → ((get_fee_info config).fee_percent ≡ get_fee_percent f config)
        × ((get_fee_info config).min_payout_threshold_sats
            ≡ pos (get_min_payout_threshold_sats config))
        × ((get_fee_info config).payout_interval_minutes ≡ pos (get_interval_minutes config))
  unfolding get_fee_info
  get_fee_info_agrees config fee threshold interval = (
    finite_fee-within (parsed_float f (config "POOL_FEE_PERCENT")) fee,
    finite_or-positive_or 100_000 (parsed (config "MIN_PAYOUT_THRESHOLD_SATS")) threshold,
    finite_or-positive_or 60 (parsed (config "PAYOUT_INTERVAL_MINUTES")) interval,
  )
