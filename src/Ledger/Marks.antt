-- ===== src/Ledger/Marks.antt =====
-- What the two updates do to the sums, and that they only move rows forward.
use elektron_net_ppool.Common.{
  ℕ, ◌+◌, ℤ, pos, ◌+ℤ◌, leb_ℤ, ◌≡◌, refl, String, str_eq, str_eq_iff, Bool, true, false, ◌&&◌, ◌⊎◌,
  inl, some, List, [], ◌∷◌, ◌++◌, All, arith, if◌then◌else◌,
}
use elektron_net_ppool.Ledger.{
  PayoutLedger, PayoutLedgerEntity, pending, sent, confirmed, credit, sum_where, is_pending_of,
  is_paid_to, is_claimed, get_pending_total, get_total_paid, mark_sent_up_to, mark_confirmed,
  new_row,
}
use elektron_net_ppool.Ledger.Sums.{IsUnion, sum_where-union, sum_where-and, sum_where-update}

-- A row as it is and as it is later: what was credited never changes, and the status goes from
-- pending to sent, which sets the transaction, to confirmed.
abbrev pub SameCredit : PayoutLedgerEntity → PayoutLedgerEntity → Type 0
SameCredit r s =
    (s.id ≡ r.id)
    × (s.miner_address ≡ r.miner_address)
    × (s.block_height ≡ r.block_height)
    × (s.amount_sats ≡ r.amount_sats)

abbrev pub Forward : PayoutLedgerEntity → PayoutLedgerEntity → Type 0
Forward r s =
    ((s.status ≡ r.status) × (s.txid ≡ r.txid))
    ⊎ ((r.status ≡ pending) × (s.status ≡ sent))
    ⊎ ((r.status ≡ sent) × (s.status ≡ confirmed) × (s.txid ≡ r.txid))

-- Each row goes on to a later form of itself, and what is new is pending.
abbrev pub Advances : List PayoutLedgerEntity → List PayoutLedgerEntity → Type 0
Advances [] new = All (λ r. r.status ≡ pending) new
Advances (r ∷ rs) [] = ⊥
Advances (r ∷ rs) (s ∷ ss) = (SameCredit r s × Forward r s) × Advances rs ss

-- Crediting adds a pending row at most.
credit-Advances :
    (now : ℕ) (a : String) (amount : ℤ) (n : ℕ) (l : PayoutLedger)
    → Advances l.rows (credit now a amount n l).rows
unfolding credit
credit-Advances now a amount n l = go (leb_ℤ amount (pos 0)) l.rows
  where
    added :
        (rows : List PayoutLedgerEntity)
        → Advances rows (rows ++ new_row l.next_id now a amount n ∷ [])
    added [] = (refl, tt)
    added (r ∷ rs) = (((refl, refl, refl, refl), inl (refl, refl)), added rs)

    same : (rows : List PayoutLedgerEntity) → Advances rows rows
    same [] = tt
    same (r ∷ rs) = (((refl, refl, refl, refl), inl (refl, refl)), same rs)

    go :
        (b : Bool) (rows : List PayoutLedgerEntity)
        → Advances l.rows
            (if b then l else record {
              rows = l.rows ++ new_row l.next_id now a amount n ∷ [];
              next_id = l.next_id + 1;
            }).rows
    go true rows = same l.rows
    go false rows = added l.rows

mark_sent_up_to-Advances :
    (now : ℕ) (a : String) (m : ℕ) (t : String) (rows : List PayoutLedgerEntity)
    → Advances rows (mark_sent_up_to now a m t rows)
unfolding mark_sent_up_to
mark_sent_up_to-Advances now a m t [] = tt
mark_sent_up_to-Advances now a m t (r ∷ rs) = (ground arith, mark_sent_up_to-Advances now a m t rs)

mark_confirmed-Advances :
    (now : ℕ) (t : String) (rows : List PayoutLedgerEntity)
    → Advances rows (mark_confirmed now t rows)
unfolding mark_confirmed
mark_confirmed-Advances now t [] = tt
mark_confirmed-Advances now t (r ∷ rs) = (ground arith, mark_confirmed-Advances now t rs)

module _ (now : ℕ) (a b : String) (m : ℕ) (t : String) (r : PayoutLedgerEntity) where
  abbrev marked : PayoutLedgerEntity
  marked =
      if is_claimed a m r then record r { status = sent; txid = some t; updated_at = now } else r

  pending-IsUnion :
      IsUnion (is_pending_of b marked) (str_eq a b && is_claimed a m r) (is_pending_of b r)
  pending-IsUnion =
      ground (arith, str_eq_iff a b, str_eq_iff r.miner_address a, str_eq_iff r.miner_address b)

  paid-IsUnion : IsUnion (is_paid_to b r) (str_eq a b && is_claimed a m r) (is_paid_to b marked)
  paid-IsUnion =
      ground (arith, str_eq_iff a b, str_eq_iff r.miner_address a, str_eq_iff r.miner_address b)

-- The rows that a mark claims leave the pending total of its miner and join what it was paid.
pub mark_sent_up_to_totals :
    (now : ℕ) (a b : String) (m : ℕ) (t : String) (rows : List PayoutLedgerEntity)
    → let rows' = mark_sent_up_to now a m t rows in
      let claimed = if str_eq a b then sum_where (is_claimed a m) rows else pos 0 in
      (get_pending_total b rows' +ℤ claimed ≡ get_pending_total b rows)
      × (get_total_paid b rows +ℤ claimed ≡ get_total_paid b rows')
unfolding mark_sent_up_to get_pending_total get_total_paid
mark_sent_up_to_totals now a b m t rows =
    let as_sent =
      λ (r : PayoutLedgerEntity). record r { status = sent; txid = some t; updated_at = now } in
    let mark = λ (r : PayoutLedgerEntity). if is_claimed a m r then as_sent r else r in
    let moved = λ (r : PayoutLedgerEntity). str_eq a b && is_claimed a m r in
    let split = sum_where-and (str_eq a b) (is_claimed a m) rows in
    (
      rw (← split, sum_where-update (is_pending_of b) (is_claimed a m) as_sent rows (λ r. refl))
          (sum_where-union (λ r. is_pending_of b (mark r)) moved (is_pending_of b) rows
            (λ r. pending-IsUnion now a b m t r)),
      rw (← split, sum_where-update (is_paid_to b) (is_claimed a m) as_sent rows (λ r. refl))
          (sum_where-union (is_paid_to b) moved (λ r. is_paid_to b (mark r)) rows
            (λ r. paid-IsUnion now a b m t r)),
    )
