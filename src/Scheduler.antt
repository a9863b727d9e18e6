-- ===== src/Scheduler.antt =====
-- src/pplns/payout-scheduler.service.ts: the payout cycle, the confirmation of sent payouts and the
-- balance check. What other services answer is an argument: the height of `getMiningInfo`, the
-- overrides of the accounts, and the wallet. Log lines and notifications are left out; the way a
-- cycle ends is a value.
pub mod Settles
pub mod Cycle
use elektron_net_ppool.Common.{
  ℕ, ◌+◌, ℤ, pos, ◌+ℤ◌, ◌-ℤ◌, ltb_ℤ, leb_ℤ, String, str_eq, Bool, true, false, not, Option, none,
  some, List, [], ◌∷◌, map, filter, if◌then◌else◌,
}
use elektron_net_ppool.Config.{Config, positive_setting, is_true}
use elektron_net_ppool.Wallet.{Result, ok, threw, RpcError, Payout, Wallet}
use elektron_net_ppool.Ledger.{
  PayoutLedger, PendingPayoutCandidate, credit, get_mature_pending_totals, mark_sent_up_to,
  get_distinct_sent_txids, mark_confirmed, get_total_pending_across_all_miners,
}

abbrev pub reconciliation_tolerance_sats : ℤ
reconciliation_tolerance_sats = pos 100_000

abbrev pub is_dry_run : Config → Bool
is_dry_run config = is_true (config "PAYOUT_DRY_RUN")

abbrev pub get_min_payout_threshold_sats : Config → ℕ
get_min_payout_threshold_sats config = positive_setting config "MIN_PAYOUT_THRESHOLD_SATS" 100_000

abbrev pub get_coinbase_maturity : Config → ℕ
get_coinbase_maturity config = positive_setting config "COINBASE_MATURITY" 100

abbrev pub get_interval_minutes : Config → ℕ
get_interval_minutes config = positive_setting config "PAYOUT_INTERVAL_MINUTES" 60

abbrev pub get_confirmations_required : Config → ℕ
get_confirmations_required config = positive_setting config "PAYOUT_CONFIRMATIONS_REQUIRED" 1

-- How a cycle ends: one constructor for each early return, for the failures, and for the payout.
pub data CycleEnd : Type 0 where
  no_height : CycleEnd
  none_pending : CycleEnd
  none_due : CycleEnd
  dry_run : CycleEnd
  balance_failed : RpcError → CycleEnd
  deferred : CycleEnd
  send_failed : RpcError → CycleEnd
  paid : String → List PendingPayoutCandidate → CycleEnd

-- A credit that another task makes while the cycle awaits.
pub record Arrival : Type 0 where
  pub at : ℕ
  pub miner_address : String
  pub amount_sats : ℤ
  pub block_height : ℕ

abbrev pub arrive : List Arrival → PayoutLedger → PayoutLedger
arrive [] l = l
arrive (a ∷ rest) l = arrive rest (credit a.at a.miner_address a.amount_sats a.block_height l)

abbrev pub effective_threshold : (String → Option ℤ) → ℕ → PendingPayoutCandidate → ℤ
effective_threshold overrides pool c = elim (overrides c.miner_address) [
  | none ↦ pos pool
  | some own ↦ own
]

abbrev pub is_due : (String → Option ℤ) → ℕ → PendingPayoutCandidate → Bool
is_due overrides pool c = leb_ℤ (effective_threshold overrides pool c) c.total_pending_sats

abbrev pub total_requested : List PendingPayoutCandidate → ℤ
total_requested [] = pos 0
total_requested (c ∷ cs) = c.total_pending_sats +ℤ total_requested cs

abbrev pub payout_of : PendingPayoutCandidate → Payout
payout_of c = record { address = c.miner_address; amount_sats = c.total_pending_sats }

-- The loop that marks each candidate; `arrivals` holds what is credited before each mark.
unfoldable pub settle :
    (now : ℕ) (txid : String)
    → List PendingPayoutCandidate
    → List (List Arrival)
    → PayoutLedger
    → PayoutLedger
settle now txid [] arrivals l = l
settle now txid (c ∷ cs) [] l =
    settle now txid cs []
      (record l { rows = mark_sent_up_to now c.miner_address c.max_row_id txid l.rows })
settle now txid (c ∷ cs) (a ∷ arrivals) l =
    let l' = arrive a l in
    settle now txid cs arrivals
      (record l' { rows = mark_sent_up_to now c.miner_address c.max_row_id txid l'.rows })

-- `currentHeight - getCoinbaseMaturity() + 1`
abbrev pub mature_up_to : Config → ℕ → ℤ
mature_up_to config height = pos height -ℤ pos (get_coinbase_maturity config) +ℤ pos 1

abbrev pub send_batch :
    Wallet
    → ℕ
    → List (List Arrival)
    → List PendingPayoutCandidate
    → PayoutLedger
    → CycleEnd × PayoutLedger
send_batch wallet now arrivals candidates l =
    elim (wallet.send_many_sats (map payout_of candidates)) [
      | threw e ↦ (send_failed e, l)
      | ok txid ↦ (paid txid candidates, settle now txid candidates arrivals l)
    ]

abbrev pub check_funds :
    Wallet
    → ℕ
    → List (List Arrival)
    → List PendingPayoutCandidate
    → PayoutLedger
    → CycleEnd × PayoutLedger
check_funds wallet now arrivals candidates l = elim wallet.get_wallet_balance_sats [
  | threw e ↦ (balance_failed e, l)
  | ok spendable ↦
      if ltb_ℤ spendable (total_requested candidates)
      then (deferred, l)
      else send_batch wallet now arrivals candidates l
]

abbrev pub pay_due :
    Config
    → Wallet
    → ℕ
    → List (List Arrival)
    → List PendingPayoutCandidate
    → PayoutLedger
    → CycleEnd × PayoutLedger
pay_due config wallet now arrivals [] l = (none_due, l)
pay_due config wallet now arrivals (c ∷ cs) l =
    if is_dry_run config then (dry_run, l) else check_funds wallet now arrivals (c ∷ cs) l

abbrev pub pay_pending :
    Config
    → (String → Option ℤ)
    → Wallet
    → ℕ
    → List (List Arrival)
    → List PendingPayoutCandidate
    → PayoutLedger
    → CycleEnd × PayoutLedger
pay_pending config overrides wallet now arrivals [] l = (none_pending, l)
pay_pending config overrides wallet now arrivals (c ∷ cs) l =
    pay_due config wallet now arrivals
      (filter (is_due overrides (get_min_payout_threshold_sats config)) (c ∷ cs)) l

unfoldable pub run_payout_cycle :
    Config
    → (String → Option ℤ)
    → Wallet
    → (height : Option ℕ) → (now : ℕ) → List (List Arrival)
    → PayoutLedger
    → CycleEnd × PayoutLedger
run_payout_cycle config overrides wallet none now arrivals l = (no_height, l)
run_payout_cycle config overrides wallet (some height) now arrivals l =
    pay_pending config overrides wallet now arrivals
      (get_mature_pending_totals (mature_up_to config height) l.rows) l

-- The loop of `reconcileSentPayouts`; a failed query skips its transaction.
abbrev pub reconcile_each : Wallet → ℕ → (now : ℕ) → List String → PayoutLedger → PayoutLedger
reconcile_each wallet required now [] l = l
reconcile_each wallet required now (t ∷ ts) l =
    reconcile_each wallet required now ts (elim (wallet.get_confirmations t) [
      | threw e ↦ l
      | ok confirmations ↦
          if leb_ℤ (pos required) confirmations
          then record l { rows = mark_confirmed now t l.rows }
          else l
    ])

unfoldable pub reconcile_sent_payouts : Config → Wallet → (now : ℕ) → PayoutLedger → PayoutLedger
reconcile_sent_payouts config wallet now l =
    reconcile_each wallet (get_confirmations_required config) now (get_distinct_sent_txids l.rows) l

-- `some true` is the mismatch alert; `none` that the check could not run.
unfoldable pub check_pool_wallet_reconciliation : Wallet → PayoutLedger → Option Bool
check_pool_wallet_reconciliation wallet l = elim wallet.get_wallet_total_balance_sats [
  | threw e ↦ none
  | ok balance ↦ some (
      ltb_ℤ (balance +ℤ reconciliation_tolerance_sats) (get_total_pending_across_all_miners l.rows))
]
