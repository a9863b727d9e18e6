-- ===== src/Rewards/Conserves.antt =====
-- A block's reward goes whole to miners, fee and dust, and each miner gets what its shares earn.
use elektron_net_ppool.Common.{
  ℕ, ℤ, pos, ◌+ℤ◌, ◌-ℤ◌, +ℤ_zero, +ℤ_gain, +ℤ_zero_left, int_laws, leb_ℤ, ◌≡◌, sym, ◌∙◌, ap, String,
  str_eq, Bool, true, false, ◌&&◌, [], ◌∷◌, arith, if◌then◌else◌, Bool-cases, inl, inr,
}
use elektron_net_ppool.Common.Float.{Float64}
use elektron_net_ppool.Config.{Config}
use elektron_net_ppool.Shares.{ShareLog, sum_difficulty, get_shares_in_window, window_start}
use elektron_net_ppool.Ledger.{
  PayoutLedger, PayoutLedgerEntity, is_pending, credit, sum_where,
  get_total_pending_across_all_miners,
}
use elektron_net_ppool.Ledger.Credits.{sum_where-credit}
use elektron_net_ppool.Accounting
use elektron_net_ppool.Accounting.{PoolAccounting, add_fee_and_dust, get-add_fee_and_dust}
use elektron_net_ppool.Rewards.{
  Books, Totals, credit_all, distributable_of, per_miner_totals, distribute, process_block_found,
}

-- An amount as `credit` takes it: what is not above 0 is skipped.
abbrev pub payable : ℤ → ℤ
payable x = if leb_ℤ x (pos 0) then pos 0 else x

-- What a list of totals pays, over the miners that a test selects.
abbrev pub payable_where : (String → Bool) → Totals → ℤ
payable_where p [] = pos 0
payable_where p ((a, x) ∷ m) = (if p a then payable x else pos 0) +ℤ payable_where p m

abbrev pub all_miners : String → Bool
all_miners a = true

abbrev pub only : String → String → Bool
only b a = str_eq a b

module _ (now height : ℕ) (p : String → Bool) where
  abbrev pub selected : PayoutLedgerEntity → Bool
  selected r = p r.miner_address && is_pending r.status

  credit_step :
      (a : String) (x : ℤ) (l : PayoutLedger)
      → sum_where selected (credit now a x height l).rows
        ≡ sum_where selected l.rows +ℤ (if p a then payable x else pos 0)
  credit_step a x l = rw (sum_where-credit selected now a x height l) (ground arith)

  nothing_added : (b : Bool) (g : ℤ) → g ≡ (if b then pos 0 else pos 0) +ℤ g
  nothing_added true g = omega int_laws
  nothing_added false g = omega int_laws

  -- The rows added for the selected miners are worth what the totals pay them.
  pub credit_all_pays :
      (m : Totals) (allocated : ℤ) (l : PayoutLedger)
      → sum_where selected (credit_all now height m allocated l).1.rows
        ≡ sum_where selected l.rows +ℤ payable_where p m
  unfolding credit_all
  credit_all_pays [] allocated l = sym (+ℤ_zero (sum_where selected l.rows))
  credit_all_pays ((a, x) ∷ m) allocated l = elim (Bool-cases (leb_ℤ x (pos 0))) [
    | inl skip ↦ rw skip (
        credit_all_pays m allocated l
        ∙ ap (λ g. sum_where selected l.rows +ℤ g) (nothing_added (p a) (payable_where p m)))
    | inr pay ↦ rw pay (
        +ℤ_gain _ _ _ _ _ (rw pay at (credit_step a x l))
          (credit_all_pays m (allocated +ℤ x) (credit now a x height l)))
  ]

pub credit_all-allocated :
    (now height : ℕ) (m : Totals) (allocated : ℤ) (l : PayoutLedger)
    → (credit_all now height m allocated l).0 ≡ allocated +ℤ payable_where all_miners m
unfolding credit_all
credit_all-allocated now height [] allocated l = sym (+ℤ_zero allocated)
credit_all-allocated now height ((a, x) ∷ m) allocated l = elim (Bool-cases (leb_ℤ x (pos 0))) [
  | inl skip ↦ rw skip (credit_all-allocated now height m allocated l ∙ omega int_laws)
  | inr pay ↦ rw pay (
      credit_all-allocated now height m (allocated +ℤ x) (credit now a x height l) ∙ omega int_laws)
]

-- All that the books hold for somebody: balances owed, fees and dust.
abbrev pub worth : Books → ℤ
worth books =
    get_total_pending_across_all_miners books.ledger.rows
    +ℤ (Accounting.get books.accounting).total_fee_sats
    +ℤ (Accounting.get books.accounting).total_dust_sats

fee_and_dust_worth :
    (l : PayoutLedger) (fee dust : ℤ) (acc : PoolAccounting)
    → worth (record { ledger = l; accounting = add_fee_and_dust fee dust acc })
      ≡ worth (record { ledger = l; accounting = acc }) +ℤ (fee +ℤ dust)
fee_and_dust_worth l fee dust acc =
    let g = get-add_fee_and_dust fee dust acc in rw (g.0, g.1) (omega int_laws)

distribute_conserves :
    (f : Float64) (config : Config) (now height : ℕ) (reward : ℤ) (total : f.F)
    (shares : ShareLog f) (books : Books)
    → worth (distribute f config now height reward total shares books) ≡ worth books +ℤ reward
unfolding distribute get_total_pending_across_all_miners
distribute_conserves f config now height reward total shares books =
    let d = f.floor (distributable_of f config reward) in
    let m = per_miner_totals f d total shares [] in
    rw
      (
        fee_and_dust_worth (credit_all now height m (pos 0) books.ledger).1 (reward -ℤ d)
            (d -ℤ (credit_all now height m (pos 0) books.ledger).0) books.accounting,
        credit_all_pays now height all_miners m (pos 0) books.ledger,
        credit_all-allocated now height m (pos 0) books.ledger,
      )
      (omega int_laws)

-- A block's reward goes whole to the miners' pending balances, the fee and the dust, whatever the
-- shares and the fee are.
pub process_block_found_conserves :
    (f : Float64) (config : Config) (now height : ℕ) (reward : ℤ) (log : ShareLog f) (books : Books)
    → worth (process_block_found f config now height reward log books) ≡ worth books +ℤ reward
unfolding process_block_found
process_block_found_conserves f config now height reward log books =
    let shares = get_shares_in_window f (window_start config now) log in
    let total = sum_difficulty f (f.of_int (pos 0)) shares in
    elim (Bool-cases (f.le total (f.of_int (pos 0)))) [
      | inl empty ↦
          rw empty
            (fee_and_dust_worth books.ledger (pos 0) reward books.accounting ∙ rw +ℤ_zero_left)
      | inr some_work ↦
          rw some_work (distribute_conserves f config now height reward total shares books)
    ]
