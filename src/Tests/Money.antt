-- ===== src/Tests/Money.antt =====
-- The claims about the ledger, the scheduler, the rewards and the wallet at concrete inputs.
use native.Mathlib.Nat.{div-mul-le_self}
use elektron_net_ppool.Common.{
  ℕ, ◌+◌, ◌*◌, ◌/◌, ◌≤◌, ℤ, pos, ◌+ℤ◌, ◌-ℤ◌, ◌≤ℤ◌, ◌≡◌, refl, String, false, Option, none, some, [],
  ◌∷◌, All, map, arith, if◌then◌else◌, str_eq,
}
use elektron_net_ppool.Config.{parsed}
use elektron_net_ppool.Wallet.{Wallet, ok}
use elektron_net_ppool.Ledger.{
  get_total_pending_across_all_miners, get_mature_pending_totals, PayoutLedger,
  PendingPayoutCandidate, get_mature_pending_totals, group_by_miner, add_to_group, sum_where,
  is_claimed, get_pending_total, get_total_paid, mark_sent_up_to,
}
use elektron_net_ppool.Ledger.Groups.{mature_of, IsDistinct}
use elektron_net_ppool.Ledger.Credits.{IsValid}
use elektron_net_ppool.Ledger.Maturity.{IsSettled, claimed_iff_mature}
use elektron_net_ppool.Ledger.Marks.{mark_sent_up_to_totals}
use elektron_net_ppool.Scheduler.{
  no_height, settle, run_payout_cycle, is_dry_run, effective_threshold, mature_up_to,
  total_requested, payout_of, get_min_payout_threshold_sats,
}
use elektron_net_ppool.Scheduler.Settles.{sent_to, credited_during}
use elektron_net_ppool.Scheduler.Cycle.{
  run_payout_cycle_settles, run_payout_cycle_unpaid, run_payout_cycle_pays,
}
use elektron_net_ppool.Shares.{
  PplnsShareEntity, ShareLog, get_shares_in_window, window_start, sum_difficulty,
}
use elektron_net_ppool.Rewards.{distributable_of, process_block_found}
use elektron_net_ppool.Rewards.Conserves.{worth, payable, process_block_found_conserves}
use elektron_net_ppool.Rewards.Earned.{earned_from, process_block_found_credits}
use elektron_net_ppool.Rewards.Bound.{Rounds, process_block_found_never_overpays}
use elektron_net_ppool.Tests.{defaults, fixed, ledger, books}

pub ledger-IsValid : IsValid ledger
ledger-IsValid = ground arith

abbrev pub wallet : Wallet
wallet = record {
  send_many_sats = λ payouts. ok "tx";
  get_confirmations = λ txid. ok (pos 0);
  get_wallet_balance_sats = ok (pos 500_000);
  get_wallet_total_balance_sats = ok (pos 500_000);
}

abbrev pub overrides : String → Option ℤ
overrides a = none

-- At the threshold of 100,000, alice alone is due, with her row of block 10.
abbrev alice_due : PendingPayoutCandidate
alice_due = record { miner_address = "alice"; total_pending_sats = pos 150_000; max_row_id = 1 }

abbrev after : PayoutLedger
after = record { rows = mark_sent_up_to 9 "alice" 1 "tx" ledger.rows; next_id = 4 }

run_payout_cycle_settles_example :
    (get_pending_total "alice" after.rows +ℤ sent_to "alice" (alice_due ∷ [])
      ≡ get_pending_total "alice" ledger.rows +ℤ credited_during "alice" [] (alice_due ∷ []))
    × (get_total_paid "alice" after.rows
        ≡ get_total_paid "alice" ledger.rows +ℤ sent_to "alice" (alice_due ∷ []))
unfolding run_payout_cycle settle get_mature_pending_totals group_by_miner add_to_group parsed ◌+ℤ◌
    ◌-ℤ◌
run_payout_cycle_settles_example =
    run_payout_cycle_settles defaults overrides wallet 9 [] ledger (some 200) "tx" (alice_due ∷ [])
      after "alice" ledger-IsValid refl

run_payout_cycle_unpaid_example : ledger ≡ ledger
unfolding run_payout_cycle
run_payout_cycle_unpaid_example =
    run_payout_cycle_unpaid defaults overrides wallet 9 [] ledger none no_height ledger refl
      (λ txid cs e. cc)

mark_sent_up_to_totals_example :
    let rows' = mark_sent_up_to 9 "alice" 1 "tx" ledger.rows in
    let claimed =
      if str_eq "alice" "alice" then sum_where (is_claimed "alice" 1) ledger.rows else pos 0 in
    (get_pending_total "alice" rows' +ℤ claimed ≡ get_pending_total "alice" ledger.rows)
    × (get_total_paid "alice" ledger.rows +ℤ claimed ≡ get_total_paid "alice" rows')
mark_sent_up_to_totals_example = mark_sent_up_to_totals 9 "alice" "alice" 1 "tx" ledger.rows

claimed_iff_mature_example :
    All (IsSettled (pos 100) ledger.rows) (get_mature_pending_totals (pos 100) ledger.rows)
claimed_iff_mature_example =
    claimed_iff_mature (pos 100) ledger.rows ledger-IsValid.ordered (ground arith)

run_payout_cycle_pays_example :
    (tip : ℕ) × (some 200 ≡ some tip)
    × (is_dry_run defaults ≡ false)
    × IsDistinct (alice_due ∷ [])
    × All
        (λ c.
          (c.total_pending_sats
            ≡ sum_where (mature_of (mature_up_to defaults tip) c.miner_address) ledger.rows)
          × (effective_threshold overrides (get_min_payout_threshold_sats defaults) c
              ≤ℤ c.total_pending_sats))
        (alice_due ∷ [])
    × ((spendable : ℤ) × (wallet.get_wallet_balance_sats ≡ ok spendable)
        × (total_requested (alice_due ∷ []) ≤ℤ spendable))
    × (wallet.send_many_sats (map payout_of (alice_due ∷ [])) ≡ ok "tx")
unfolding run_payout_cycle settle get_mature_pending_totals group_by_miner add_to_group parsed ◌+ℤ◌
    ◌-ℤ◌
run_payout_cycle_pays_example =
    run_payout_cycle_pays defaults overrides wallet 9 [] ledger (some 200) "tx" (alice_due ∷ [])
      after refl

abbrev share : String → ℕ → PplnsShareEntity fixed
share a d = record {
  miner_address = a;
  difficulty = d * 1_000_000;
  timestamp = 5;
  block_height_at_submission = 301;
}

-- Two shares of alice and one of bob.
abbrev log : ShareLog fixed
log = share "alice" 3 ∷ share "bob" 2 ∷ share "alice" 1 ∷ []

process_block_found_conserves_example :
    worth (process_block_found fixed defaults 9 301 (pos 1000) log books) ≡ worth books +ℤ pos 1000
process_block_found_conserves_example =
    process_block_found_conserves fixed defaults 9 301 (pos 1000) log books

process_block_found_credits_example :
    let shares = get_shares_in_window fixed (window_start defaults 9) log in
    let total = sum_difficulty fixed (fixed.of_int (pos 0)) shares in
    let earned =
      earned_from fixed
        (fixed.floor (distributable_of fixed defaults (pos 1000)))
        total
        "alice"
        (pos 0)
        shares in
    get_pending_total "alice"
      (process_block_found fixed defaults 9 301 (pos 1000) log books).ledger.rows
    ≡ get_pending_total "alice" books.ledger.rows
      +ℤ (if fixed.le total (fixed.of_int (pos 0)) then pos 0 else payable earned)
process_block_found_credits_example =
    process_block_found_credits fixed defaults 9 301 (pos 1000) log books "alice"

div_near_fixed : (a b : ℕ) → a * 1_000_000 / b * b * 1_000_000 ≤ a * 1_000_000 * (1_000_000 + 1)
div_near_fixed a b = omega (arith, div-mul-le_self (a * 1_000_000) b)

mul_near_fixed : (n b : ℕ) → n * 1_000_000 * b / 1_000_000 * 1_000_000 ≤ n * b * (1_000_000 + 1)
mul_near_fixed n b = omega (arith, div-mul-le_self (n * 1_000_000 * b) 1_000_000)

abbrev rounds : Rounds fixed 1_000_000
rounds = record {
  Fits = λ a. Unit;
  units = λ a. a;
  scale = 1_000_000;
  scale_pos = omega arith;
  add_near = λ a b u v w. omega arith;
  div_near = λ a b u v w. div_near_fixed a b;
  mul_near = λ n b u v. mul_near_fixed n b;
  floor_below = λ a u. div-mul-le_self a 1_000_000;
  le_zero = λ a u e. ground arith;
}

process_block_found_never_overpays_example :
    get_total_pending_across_all_miners
      (process_block_found fixed defaults 9 301 (pos 1000) log books).ledger.rows
    ≤ℤ get_total_pending_across_all_miners books.ledger.rows +ℤ pos 1000
unfolding get_shares_in_window parsed ◌+ℤ◌ ◌-ℤ◌
process_block_found_never_overpays_example =
    process_block_found_never_overpays fixed 1_000_000 rounds defaults 9 301 (pos 1000) log books
      1000 refl refl
      (record {
        sums = (tt, (tt, (tt, tt)));
        shares = ((tt, tt, tt), ((tt, tt, tt), ((tt, tt, tt), tt)));
        total = tt;
        small = omega arith;
      })
