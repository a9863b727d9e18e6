-- ===== src/Tests/Payments.antt =====
-- The claims about the ledger over time at concrete inputs.
use elektron_net_ppool.Common.{pos, some, List, [], ◌∷◌, arith}
use elektron_net_ppool.Ledger.Credits.{IsValid}
use elektron_net_ppool.Payments.{Event, earned, cycled, reconciled, play, credited_over, sent_over}
use elektron_net_ppool.Payments.Balances.{Moves, play_balances}
use elektron_net_ppool.Tests.{defaults, ledger}
use elektron_net_ppool.Tests.Money.{wallet, overrides, ledger-IsValid}

-- A block's credit, a payout cycle with another credit before its mark, and a pass of confirmations.
abbrev history : List Event
history =
    earned (
      record { at = 5; miner_address = "alice"; amount_sats = pos 90_000; block_height = 300 } ∷ [])
    ∷ cycled wallet (some 500) 9 (
        (record { at = 8; miner_address = "bob"; amount_sats = pos 7; block_height = 301 } ∷ [])
        ∷ [])
    ∷ reconciled wallet 20
    ∷ []

play_balances_example :
    Moves "alice" ledger
      (play defaults overrides history ledger)
      (credited_over defaults overrides "alice" history ledger)
      (sent_over defaults overrides "alice" history ledger)
    × IsValid (play defaults overrides history ledger)
play_balances_example =
    play_balances defaults overrides history 300 ledger "alice"
      ((omega arith, tt), (((omega arith, tt), tt), (tt, tt))) (ledger-IsValid, ground arith)
