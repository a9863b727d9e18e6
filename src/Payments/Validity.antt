-- ===== src/Payments/Validity.antt =====
-- A ledger stays valid through credits, cycles and confirmations.
use elektron_net_ppool.Common.{
  ℕ, ◌≤◌, ℤ, pos, ◌≡◌, refl, String, Bool, true, false, some, List, [], ◌∷◌, All, leb_ℤ,
  if◌then◌else◌, arith,
}
use elektron_net_ppool.Config.{Config}
use elektron_net_ppool.Wallet.{Wallet, Result, ok, threw}
use elektron_net_ppool.Ledger.{
  PayoutLedger, PayoutLedgerEntity, PendingPayoutCandidate, sent, confirmed, credit, update_where,
  mark_sent_up_to, mark_confirmed, is_claimed, is_sent_by, get_distinct_sent_txids,
}
use elektron_net_ppool.Ledger.Credits.{Precedes, IsOrdered, IsRow, IsValid, IsUpTo, credit-IsValid}
use elektron_net_ppool.Scheduler.{
  Arrival, arrive, settle, reconcile_each, reconcile_sent_payouts, get_confirmations_required,
}
use elektron_net_ppool.Payments.{IsRising, top, AllRising, all_top}

-- A ledger whose credits go up to a height.
abbrev pub IsSound : ℕ → PayoutLedger → Type 0
IsSound n l = IsValid l × IsUpTo n l.rows

IsUpTo-mono : (n m : ℕ) (rows : List PayoutLedgerEntity) → n ≤ m → IsUpTo n rows → IsUpTo m rows
IsUpTo-mono n m [] h u = tt
IsUpTo-mono n m (r ∷ rs) h u = (omega (arith, u.0), IsUpTo-mono n m rs h u.1)

pub IsSound-mono : (n m : ℕ) (l : PayoutLedger) → n ≤ m → IsSound n l → IsSound m l
IsSound-mono n m l h s = (s.0, IsUpTo-mono n m l.rows h s.1)

le-top : (n : ℕ) (rest : List Arrival) → IsRising n rest → n ≤ top n rest
le-top n [] r = omega arith
le-top n (a ∷ rest) r = omega (arith, r.0, le-top a.block_height rest r.1)

pub le-all_top :
    (n : ℕ) (arrivals : List (List Arrival)) → AllRising n arrivals → n ≤ all_top n arrivals
le-all_top n [] r = omega arith
le-all_top n (a ∷ arrivals) r = omega (arith, le-top n a r.0, le-all_top (top n a) arrivals r.1)

pub arrive-IsSound :
    (n : ℕ) (rest : List Arrival) (l : PayoutLedger)
    → IsRising n rest
    → IsSound n l
    → IsSound (top n rest) (arrive rest l)
arrive-IsSound n [] l r s = s
arrive-IsSound n (a ∷ rest) l r s =
    let s' = IsSound-mono n a.block_height l r.0 s in
    arrive-IsSound a.block_height rest (credit a.at a.miner_address a.amount_sats a.block_height l)
      r.1 (credit-IsValid a.at a.miner_address a.amount_sats a.block_height l s'.0 s'.1)

-- An update that keeps what was credited keeps the ledger valid.
abbrev Keeps : (PayoutLedgerEntity → PayoutLedgerEntity) → Type 0
Keeps f =
    (r : PayoutLedgerEntity)
    → ((f r).id ≡ r.id)
      × ((f r).block_height ≡ r.block_height)
      × ((f r).amount_sats ≡ r.amount_sats)

module _ (p : PayoutLedgerEntity → Bool) (f : PayoutLedgerEntity → PayoutLedgerEntity)
    (keeps : Keeps f) where
  update-Precedes :
      (x : PayoutLedgerEntity) (rows : List PayoutLedgerEntity)
      → All (Precedes x) rows
      → All (Precedes (if p x then f x else x)) (update_where p f rows)
  update-Precedes x [] h = tt
  update-Precedes x (r ∷ rs) h = (ground (arith, keeps x, keeps r), update-Precedes x rs h.1)

  update-IsOrdered :
      (rows : List PayoutLedgerEntity) → IsOrdered rows → IsOrdered (update_where p f rows)
  update-IsOrdered [] o = tt
  update-IsOrdered (r ∷ rs) o = (update-Precedes r rs o.0, update-IsOrdered rs o.1)

  update-IsRow :
      (next : ℕ) (rows : List PayoutLedgerEntity)
      → All (IsRow next) rows
      → All (IsRow next) (update_where p f rows)
  update-IsRow next [] h = tt
  update-IsRow next (r ∷ rs) h = (ground (arith, keeps r), update-IsRow next rs h.1)

  update-IsUpTo :
      (n : ℕ) (rows : List PayoutLedgerEntity) → IsUpTo n rows → IsUpTo n (update_where p f rows)
  update-IsUpTo n [] h = tt
  update-IsUpTo n (r ∷ rs) h = (ground (arith, keeps r), update-IsUpTo n rs h.1)

  update-IsSound :
      (n : ℕ) (l : PayoutLedger)
      → IsSound n l
      → IsSound n (record l { rows = update_where p f l.rows })
  update-IsSound n l s = (
    record {
      ordered = update-IsOrdered l.rows s.0.ordered;
      rows = update-IsRow l.next_id l.rows s.0.rows;
      next = s.0.next;
    },
    update-IsUpTo n l.rows s.1,
  )

mark_sent_up_to-IsSound :
    (n now : ℕ) (a : String) (m : ℕ) (txid : String) (l : PayoutLedger)
    → IsSound n l
    → IsSound n (record l { rows = mark_sent_up_to now a m txid l.rows })
unfolding mark_sent_up_to
mark_sent_up_to-IsSound n now a m txid l s =
    update-IsSound (is_claimed a m)
      (λ r. record r { status = sent; txid = some txid; updated_at = now })
      (λ r. (refl, refl, refl)) n l s

mark_confirmed-IsSound :
    (n now : ℕ) (txid : String) (l : PayoutLedger)
    → IsSound n l
    → IsSound n (record l { rows = mark_confirmed now txid l.rows })
unfolding mark_confirmed
mark_confirmed-IsSound n now txid l s =
    update-IsSound (is_sent_by txid) (λ r. record r { status = confirmed; updated_at = now })
      (λ r. (refl, refl, refl)) n l s

pub settle-IsSound :
    (n now : ℕ) (txid : String) (cs : List PendingPayoutCandidate) (arrivals : List (List Arrival))
    (l : PayoutLedger)
    → AllRising n arrivals
    → IsSound n l
    → IsSound (all_top n arrivals) (settle now txid cs arrivals l)
unfolding settle
settle-IsSound n now txid [] arrivals l r s =
    IsSound-mono n (all_top n arrivals) l (le-all_top n arrivals r) s
settle-IsSound n now txid (c ∷ cs) [] l r s =
    settle-IsSound n now txid cs [] _ r
      (mark_sent_up_to-IsSound n now c.miner_address c.max_row_id txid l s)
settle-IsSound n now txid (c ∷ cs) (a ∷ arrivals) l r s =
    settle-IsSound (top n a) now txid cs arrivals _ r.1 (
      mark_sent_up_to-IsSound (top n a) now c.miner_address c.max_row_id txid (arrive a l)
        (arrive-IsSound n a l r.0 s))

reconcile_each-IsSound :
    (wallet : Wallet) (required n now : ℕ) (ts : List String) (l : PayoutLedger)
    → IsSound n l
    → IsSound n (reconcile_each wallet required now ts l)
reconcile_each-IsSound wallet required n now [] l s = s
reconcile_each-IsSound wallet required n now (t ∷ ts) l s =
    reconcile_each-IsSound wallet required n now ts _ (go (wallet.get_confirmations t))
  where
    go :
        (r : Result ℤ)
        → IsSound n (elim r [
          | threw e ↦ l
          | ok confirmations ↦
              if leb_ℤ (pos required) confirmations
              then record l { rows = mark_confirmed now t l.rows }
              else l
        ])
    go (threw e) = s
    go (ok confirmations) = pick (leb_ℤ (pos required) confirmations)
      where
        pick :
            (b : Bool)
            → IsSound n (if b then record l { rows = mark_confirmed now t l.rows } else l)
        pick true = mark_confirmed-IsSound n now t l s
        pick false = s

pub reconcile_sent_payouts-IsSound :
    (config : Config) (wallet : Wallet) (n now : ℕ) (l : PayoutLedger)
    → IsSound n l
    → IsSound n (reconcile_sent_payouts config wallet now l)
unfolding reconcile_sent_payouts
reconcile_sent_payouts-IsSound config wallet n now l s =
    reconcile_each-IsSound wallet (get_confirmations_required config) n now
      (get_distinct_sent_txids l.rows) l s
