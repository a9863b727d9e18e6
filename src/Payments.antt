-- ===== src/Payments.antt =====
-- The ledger over time: what the reward calculator credits between and during the payout cycles, and
-- the two timers of src/pplns/payout-scheduler.service.ts, in any order.
pub mod Validity
pub mod Balances
use elektron_net_ppool.Common.{ℕ, ◌≤◌, ℤ, pos, ◌+ℤ◌, String, Option, List, [], ◌∷◌}
use elektron_net_ppool.Config.{Config}
use elektron_net_ppool.Wallet.{Wallet}
use elektron_net_ppool.Ledger.{PayoutLedger}
use elektron_net_ppool.Scheduler.{
  Arrival, arrive, CycleEnd, no_height, none_pending, none_due, dry_run, balance_failed, deferred,
  send_failed, paid, run_payout_cycle, reconcile_sent_payouts,
}
use elektron_net_ppool.Scheduler.Settles.{sent_to, credited_to, credited_during}

-- A cycle has its own wallet, tip, time and arrivals; so has each pass of confirmations.
pub data Event : Type 0 where
  earned : List Arrival → Event
  cycled : Wallet → (height : Option ℕ) → (now : ℕ) → List (List Arrival) → Event
  reconciled : Wallet → (now : ℕ) → Event

-- What a cycle sent to a miner, and what the miner was credited while it settled.
abbrev pub sent_by : String → CycleEnd → ℤ
sent_by b (paid txid cs) = sent_to b cs
sent_by b _ = pos 0

abbrev pub credited_while : String → List (List Arrival) → CycleEnd → ℤ
credited_while b arrivals (paid txid cs) = credited_during b arrivals cs
credited_while b arrivals _ = pos 0

module _ (config : Config) (overrides : String → Option ℤ) where
  unfoldable pub handle : Event → PayoutLedger → PayoutLedger
  unfolding run_payout_cycle reconcile_sent_payouts
  handle (earned rest) l = arrive rest l
  handle (cycled wallet height now arrivals) l =
      (run_payout_cycle config overrides wallet height now arrivals l).1
  handle (reconciled wallet now) l = reconcile_sent_payouts config wallet now l

  unfoldable pub play : List Event → PayoutLedger → PayoutLedger
  play [] l = l
  play (e ∷ es) l = play es (handle e l)

  unfoldable pub sent_in : String → Event → PayoutLedger → ℤ
  unfolding run_payout_cycle
  sent_in b (earned rest) l = pos 0
  sent_in b (cycled wallet height now arrivals) l =
      sent_by b (run_payout_cycle config overrides wallet height now arrivals l).0
  sent_in b (reconciled wallet now) l = pos 0

  unfoldable pub credited_in : String → Event → PayoutLedger → ℤ
  unfolding run_payout_cycle
  credited_in b (earned rest) l = credited_to b rest
  credited_in b (cycled wallet height now arrivals) l =
      credited_while b arrivals (run_payout_cycle config overrides wallet height now arrivals l).0
  credited_in b (reconciled wallet now) l = pos 0

  -- The sums over a history.
  unfoldable pub sent_over : String → List Event → PayoutLedger → ℤ
  unfolding sent_in handle
  sent_over b [] l = pos 0
  sent_over b (e ∷ es) l = sent_in b e l +ℤ sent_over b es (handle e l)

  unfoldable pub credited_over : String → List Event → PayoutLedger → ℤ
  unfolding credited_in handle
  credited_over b [] l = pos 0
  credited_over b (e ∷ es) l = credited_in b e l +ℤ credited_over b es (handle e l)

-- Blocks are credited in the order of their heights, from `n` on: the heights of the credits never
-- fall.
abbrev pub IsRising : ℕ → List Arrival → Type 0
IsRising n [] = Unit
IsRising n (a ∷ rest) = (n ≤ a.block_height) × IsRising a.block_height rest

abbrev pub top : ℕ → List Arrival → ℕ
top n [] = n
top n (a ∷ rest) = top a.block_height rest

abbrev pub AllRising : ℕ → List (List Arrival) → Type 0
AllRising n [] = Unit
AllRising n (a ∷ arrivals) = IsRising n a × AllRising (top n a) arrivals

abbrev pub all_top : ℕ → List (List Arrival) → ℕ
all_top n [] = n
all_top n (a ∷ arrivals) = all_top (top n a) arrivals

abbrev pub EventRising : ℕ → Event → Type 0
EventRising n (earned rest) = IsRising n rest
EventRising n (cycled wallet height now arrivals) = AllRising n arrivals
EventRising n (reconciled wallet now) = Unit

abbrev pub event_top : ℕ → Event → ℕ
event_top n (earned rest) = top n rest
event_top n (cycled wallet height now arrivals) = all_top n arrivals
event_top n (reconciled wallet now) = n

abbrev pub HistoryRising : ℕ → List Event → Type 0
HistoryRising n [] = Unit
HistoryRising n (e ∷ es) = EventRising n e × HistoryRising (event_top n e) es
