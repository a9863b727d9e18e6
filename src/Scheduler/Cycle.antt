-- ===== src/Scheduler/Cycle.antt =====
-- The payout cycle as a whole: when it pays, whom, how much, and what it leaves alone.
use elektron_net_ppool.Common.{
  ℕ, ℤ, pos, ◌+ℤ◌, ◌≤ℤ◌, ◌≡◌, ◌≢◌, refl, String, Bool, true, false, Option, none, some, List, [],
  ◌∷◌, All, All-map, All-filter, All-and, leb_ℤ→≤ℤ, filter, map, arith, if◌then◌else◌,
}
use elektron_net_ppool.Config.{Config}
use elektron_net_ppool.Wallet.{Wallet, Result, ok, threw}
use elektron_net_ppool.Ledger.{
  PayoutLedger, PendingPayoutCandidate, get_pending_total, get_total_paid,
  get_mature_pending_totals, sum_where,
}
use elektron_net_ppool.Ledger.Groups.{
  Differs, IsDistinct, IsClaim, mature_of, get_mature_pending_totals-IsClaim,
  get_mature_pending_totals-IsDistinct,
}
use elektron_net_ppool.Ledger.Credits.{IsValid}
use elektron_net_ppool.Ledger.Settlement.{Owes, get_mature_pending_totals-Owes}
use elektron_net_ppool.Scheduler.{
  Arrival, CycleEnd, paid, settle, is_dry_run, is_due, effective_threshold,
  get_min_payout_threshold_sats, mature_up_to, payout_of, total_requested, run_payout_cycle,
}
use elektron_net_ppool.Scheduler.Settles.{sent_to, credited_during, settle_totals}

IsDistinct-filter :
    (p : PendingPayoutCandidate → Bool) (cs : List PendingPayoutCandidate)
    → IsDistinct cs
    → IsDistinct (filter p cs)
IsDistinct-filter p [] d = tt
IsDistinct-filter p (c ∷ cs) d =
    go (p c) (All-filter (Differs c.miner_address) p cs d.0) (IsDistinct-filter p cs d.1)
  where
    go :
        (b : Bool)
        → All (Differs c.miner_address) (filter p cs)
        → IsDistinct (filter p cs)
        → IsDistinct (if b then c ∷ filter p cs else filter p cs)
    go true f k = (f, k)
    go false f k = k

All-due :
    (p : PendingPayoutCandidate → Bool) (cs : List PendingPayoutCandidate)
    → All (λ c. p c ≡ true) (filter p cs)
All-due p [] = tt
All-due p (c ∷ cs) = go (p c) refl (All-due p cs)
  where
    go :
        (b : Bool)
        → p c ≡ b
        → All (λ d. p d ≡ true) (filter p cs)
        → All (λ d. p d ≡ true) (if b then c ∷ filter p cs else filter p cs)
    go true e k = (e, k)
    go false e k = k

abbrev value_or : {A : Type 0} → A → Result A → A
value_or d (ok a) = a
value_or d (threw e) = d

module _ (config : Config) (overrides : String → Option ℤ) (wallet : Wallet) (now : ℕ)
    (arrivals : List (List Arrival)) (l : PayoutLedger) where
  -- The candidates of a cycle at a height, after the threshold.
  abbrev pub due : ℕ → List PendingPayoutCandidate
  due height =
      filter (is_due overrides (get_min_payout_threshold_sats config))
        (get_mature_pending_totals (mature_up_to config height) l.rows)

  -- What must have held for a cycle to pay.
  pub record IsPayout (height : Option ℕ) (txid : String) (cs : List PendingPayoutCandidate)
      (l' : PayoutLedger) : Type 0 where
    pub tip : ℕ
    pub known : height ≡ some tip
    pub candidates : cs ≡ due tip
    pub live : is_dry_run config ≡ false
    pub spendable : ℤ
    pub balance : wallet.get_wallet_balance_sats ≡ ok spendable
    pub covered : total_requested cs ≤ℤ spendable
    pub sent : wallet.send_many_sats (map payout_of cs) ≡ ok txid
    pub settled : l' ≡ settle now txid cs arrivals l

  pub run_payout_cycle-IsPayout :
      (height : Option ℕ) (txid : String) (cs : List PendingPayoutCandidate) (l' : PayoutLedger)
      → run_payout_cycle config overrides wallet height now arrivals l ≡ (paid txid cs, l')
      → IsPayout height txid cs l'
  unfolding run_payout_cycle
  run_payout_cycle-IsPayout none txid cs l' e = cc
  run_payout_cycle-IsPayout (some tip) txid cs l' e = record {
    tip = tip;
    known = refl;
    candidates = ground arith;
    live = ground arith;
    spendable = value_or (pos 0) wallet.get_wallet_balance_sats;
    balance = ground arith;
    covered = ground arith;
    sent = ground arith;
    settled = ground arith;
  }

  -- A cycle that ends in any other way leaves the ledger as it was.
  pub run_payout_cycle_unpaid :
      (height : Option ℕ) (end : CycleEnd) (l' : PayoutLedger)
      → run_payout_cycle config overrides wallet height now arrivals l ≡ (end, l')
      → ((txid : String) (cs : List PendingPayoutCandidate) → end ≢ paid txid cs)
      → l' ≡ l
  unfolding run_payout_cycle
  run_payout_cycle_unpaid none end l' e n = cc
  run_payout_cycle_unpaid (some tip) end l' e n =
      ground (arith, n (value_or "" (wallet.send_many_sats (map payout_of (due tip)))) (due tip))

  -- A payout goes out for a miner only if its mature pending rows add up to the amount sent and reach
  -- the miner's own threshold, or the pool's if it has none; no miner is paid twice in a batch, the
  -- wallet covers the whole batch, and a dry run pays nothing.
  pub run_payout_cycle_pays :
      (height : Option ℕ) (txid : String) (cs : List PendingPayoutCandidate) (l' : PayoutLedger)
      → run_payout_cycle config overrides wallet height now arrivals l ≡ (paid txid cs, l')
      → (tip : ℕ) × (height ≡ some tip)
        × (is_dry_run config ≡ false)
        × IsDistinct cs
        × All
            (λ c.
              (c.total_pending_sats
                ≡ sum_where (mature_of (mature_up_to config tip) c.miner_address) l.rows)
              × (effective_threshold overrides (get_min_payout_threshold_sats config) c
                  ≤ℤ c.total_pending_sats))
            cs
        × ((spendable : ℤ) × (wallet.get_wallet_balance_sats ≡ ok spendable)
            × (total_requested cs ≤ℤ spendable))
        × (wallet.send_many_sats (map payout_of cs) ≡ ok txid)
  run_payout_cycle_pays height txid cs l' e =
      let p = run_payout_cycle-IsPayout height txid cs l' e in
      let h = mature_up_to config p.tip in
      let pending = get_mature_pending_totals h l.rows in
      let due_test = is_due overrides (get_min_payout_threshold_sats config) in
      (
        p.tip,
        p.known,
        p.live,
        rw p.candidates
            (IsDistinct-filter due_test pending (get_mature_pending_totals-IsDistinct h l.rows)),
        rw p.candidates (
            All-map (λ c. IsClaim h l.rows c × (due_test c ≡ true))
              (λ c.
                (c.total_pending_sats ≡ sum_where (mature_of h c.miner_address) l.rows)
                × (effective_threshold overrides (get_min_payout_threshold_sats config) c
                    ≤ℤ c.total_pending_sats))
              (due p.tip)
              (λ c k. (
                k.0.total,
                leb_ℤ→≤ℤ (effective_threshold overrides (get_min_payout_threshold_sats config) c)
                    c.total_pending_sats k.1,
              ))
              (All-and (IsClaim h l.rows) (λ c. due_test c ≡ true) (due p.tip)
                (All-filter (IsClaim h l.rows) due_test pending
                  (get_mature_pending_totals-IsClaim h l.rows))
                (All-due due_test pending))),
        (p.spendable, p.balance, p.covered),
        p.sent,
      )

  -- Of every miner a payout takes from the pending total exactly what was sent to it, up to what was
  -- credited meanwhile, and adds the same to what it was paid.
  pub run_payout_cycle_settles :
      (height : Option ℕ) (txid : String) (cs : List PendingPayoutCandidate) (l' : PayoutLedger)
      (b : String)
      → IsValid l
      → run_payout_cycle config overrides wallet height now arrivals l ≡ (paid txid cs, l')
      → (get_pending_total b l'.rows +ℤ sent_to b cs
          ≡ get_pending_total b l.rows +ℤ credited_during b arrivals cs)
        × (get_total_paid b l'.rows ≡ get_total_paid b l.rows +ℤ sent_to b cs)
  run_payout_cycle_settles height txid cs l' b v e =
      let p = run_payout_cycle-IsPayout height txid cs l' e in
      let h = mature_up_to config p.tip in
      let pending = get_mature_pending_totals h l.rows in
      let due_test = is_due overrides (get_min_payout_threshold_sats config) in
      rw p.settled (
        settle_totals now txid b cs arrivals l
          (rw p.candidates
            (IsDistinct-filter due_test pending (get_mature_pending_totals-IsDistinct h l.rows)))
          (rw p.candidates
            (All-filter (Owes l) due_test pending (get_mature_pending_totals-Owes h l v))))
