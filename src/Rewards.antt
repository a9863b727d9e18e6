-- ===== src/Rewards.antt =====
-- src/pplns/reward-calculator.service.ts: the split of a block's reward. Difficulties, proportions
-- and the fee are floats; amounts are whole numbers, as `Math.floor` leaves them.
pub mod Conserves
pub mod Earned
pub mod Bound
use elektron_net_ppool.Common.{
  ℕ, ℤ, pos, ◌+ℤ◌, ◌-ℤ◌, leb_ℤ, String, str_eq, Bool, true, false, not, ◌&&◌, Option, none, some,
  List, [], ◌∷◌, if◌then◌else◌,
}
use elektron_net_ppool.Common.Js.{Text, codes}
use elektron_net_ppool.Common.Float.{Float64}
use elektron_net_ppool.Config.{Config}
use elektron_net_ppool.Shares.{
  PplnsShareEntity, ShareLog, sum_difficulty, get_shares_in_window, window_start,
}
use elektron_net_ppool.Ledger.{PayoutLedger, credit}
use elektron_net_ppool.Accounting.{PoolAccounting, add_fee_and_dust}

-- The tables that a block's reward is written to.
pub record Books : Type 0 where
  pub ledger : PayoutLedger
  pub accounting : PoolAccounting

-- `Map<string, number>` in insertion order.
abbrev pub Totals : Type 0
Totals = List (String × ℤ)

-- `map.set(a, (map.get(a) ?? 0) + amount)`
unfoldable pub add_amount : String → ℤ → Totals → Totals
add_amount a amount [] = (a, pos 0 +ℤ amount) ∷ []
add_amount a amount ((b, x) ∷ m) =
    if str_eq b a then (b, x +ℤ amount) ∷ m else (b, x) ∷ add_amount a amount m

-- The loop that credits, with the total allocated so far.
unfoldable pub credit_all : (now : ℕ) → ℕ → Totals → ℤ → PayoutLedger → ℤ × PayoutLedger
credit_all now height [] allocated l = (allocated, l)
credit_all now height ((a, amount) ∷ m) allocated l =
    let next = credit_all now height m (allocated +ℤ amount) (credit now a amount height l) in
    let skip = credit_all now height m allocated l in if leb_ℤ amount (pos 0) then skip else next

module _ (f : Float64) where
  open f use {F, of_int, add, sub, mul, div, floor, le, lt, parse}

  abbrev pub within : Option F → F
  within none = of_int (pos 0)
  within (some x) = if le (of_int (pos 0)) x && lt x (of_int (pos 100)) then x else of_int (pos 0)

  abbrev pub parsed_float : Option String → Option F
  parsed_float none = none
  parsed_float (some s) = parse (codes s)

  abbrev pub get_fee_percent : Config → F
  get_fee_percent config = within (parsed_float (config "POOL_FEE_PERCENT"))

  -- `Math.floor(blockRewardSats * (1 - feePercent / 100))`
  abbrev pub distributable_of : Config → ℤ → F
  distributable_of config reward =
      mul (of_int reward) (sub (of_int (pos 1)) (div (get_fee_percent config) (of_int (pos 100))))

  -- `Math.floor(distributable * (share.difficulty / totalDifficulty))`
  abbrev pub amount_of : ℤ → F → PplnsShareEntity f → ℤ
  amount_of distributable total s = floor (mul (of_int distributable) (div s.difficulty total))

  unfoldable pub per_miner_totals : ℤ → F → ShareLog f → Totals → Totals
  per_miner_totals distributable total [] m = m
  per_miner_totals distributable total (s ∷ shares) m =
      per_miner_totals distributable total shares
        (add_amount s.miner_address (amount_of distributable total s) m)

  -- The split among shares with a positive total difficulty.
  unfoldable pub distribute : Config → (now : ℕ) → ℕ → ℤ → F → ShareLog f → Books → Books
  unfolding credit_all per_miner_totals
  distribute config now height reward total shares books =
      let distributable = floor (distributable_of config reward) in
      let fee_sats = reward -ℤ distributable in
      let (allocated, ledger) =
        credit_all now height (per_miner_totals distributable total shares []) (pos 0)
          books.ledger in
      record {
        ledger = ledger;
        accounting = add_fee_and_dust fee_sats (distributable -ℤ allocated) books.accounting;
      }

  unfoldable pub process_block_found : Config → (now : ℕ) → ℕ → ℤ → ShareLog f → Books → Books
  unfolding distribute get_shares_in_window
  process_block_found config now height reward log books =
      let shares = get_shares_in_window f (window_start config now) log in
      let total = sum_difficulty f (of_int (pos 0)) shares in
      if le total (of_int (pos 0))
      then record books { accounting = add_fee_and_dust (pos 0) reward books.accounting }
      else distribute config now height reward total shares books
