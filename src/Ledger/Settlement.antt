-- ===== src/Ledger/Settlement.antt =====
-- The rows that a candidate stands for: from the query that makes it up to the mark that settles it,
-- while credits and the marks of other candidates come in between.
use elektron_net_ppool.Common.{
  ℕ, ◌≤◌, ◌<◌, ℤ, +ℤ_zero, ◌≡◌, refl, sym, ◌∙◌, String, str_eq, str_eq_iff, Bool, false, List, [],
  ◌∷◌, All, All-map, arith, if◌then◌else◌, some,
}
use elektron_net_ppool.Ledger.{
  PayoutLedger, PayoutLedgerEntity, PendingPayoutCandidate, sent, is_claimed, sum_where, credit,
  mark_sent_up_to, get_mature_pending_totals,
}
use elektron_net_ppool.Ledger.Sums.{max_id_where, sum_where-congr, sum_where-update}
use elektron_net_ppool.Ledger.Groups.{mature_of, IsClaim, get_mature_pending_totals-IsClaim}
use elektron_net_ppool.Ledger.Credits.{IsValid, IsRow, sum_where-credit}
use elektron_net_ppool.Ledger.Maturity.{claimed_up_to_cutoff}

-- The rows that settling `c` will claim add up to its total, and no later row can be among them.
pub record Owes (l : PayoutLedger) (c : PendingPayoutCandidate) : Type 0 where
  pub exact : sum_where (is_claimed c.miner_address c.max_row_id) l.rows ≡ c.total_pending_sats
  pub closed : c.max_row_id < l.next_id

max_id_where-lt :
    (p : PayoutLedgerEntity → Bool) (next : ℕ) (rows : List PayoutLedgerEntity)
    → 0 < next
    → All (IsRow next) rows
    → max_id_where p rows < next
max_id_where-lt p next [] n h = n
max_id_where-lt p next (r ∷ rs) n h = ground (arith, max_id_where-lt p next rs n h.1)

-- A claim on a valid ledger is settled exactly.
claim-Owes :
    (h : ℤ) (l : PayoutLedger) (c : PendingPayoutCandidate)
    → IsValid l
    → IsClaim h l.rows c
    → Owes l c
claim-Owes h l c v k = record {
  exact = rw k.cutoff (
      sum_where-congr _ (mature_of h c.miner_address) l.rows (
        claimed_up_to_cutoff h c.miner_address l.rows v.ordered
          (All-map (IsRow l.next_id) (λ r. 0 < r.id) l.rows (λ r q. q.0) v.rows))
      ∙ sym k.total);
  closed =
      rw k.cutoff (max_id_where-lt (mature_of h c.miner_address) l.next_id l.rows v.next v.rows);
}

pub get_mature_pending_totals-Owes :
    (h : ℤ) (l : PayoutLedger) → IsValid l → All (Owes l) (get_mature_pending_totals h l.rows)
get_mature_pending_totals-Owes h l v =
    All-map (IsClaim h l.rows) (Owes l) (get_mature_pending_totals h l.rows)
      (λ c k. claim-Owes h l c v k) (get_mature_pending_totals-IsClaim h l.rows)

credit_next-le :
    (now : ℕ) (a : String) (amount : ℤ) (n : ℕ) (l : PayoutLedger)
    → l.next_id ≤ (credit now a amount n l).next_id
unfolding credit
credit_next-le now a amount n l = ground arith

-- A credit that arrives in the meantime is not among the rows to settle.
pub credit-Owes :
    (now : ℕ) (a : String) (amount : ℤ) (n : ℕ) (l : PayoutLedger) (c : PendingPayoutCandidate)
    → Owes l c
    → Owes (credit now a amount n l) c
credit-Owes now a amount n l c o = record {
  exact =
      rw (sum_where-credit (is_claimed c.miner_address c.max_row_id) now a amount n l)
        (ground (arith, o.closed, o.exact, +ℤ_zero c.total_pending_sats));
  closed = omega (arith, o.closed, credit_next-le now a amount n l);
}

-- Nor does settling one miner touch what another is owed.
pub mark_sent_up_to-Owes :
    (now : ℕ) (a : String) (m : ℕ) (t : String) (l : PayoutLedger) (c : PendingPayoutCandidate)
    → str_eq c.miner_address a ≡ false
    → Owes l c
    → Owes (record l { rows = mark_sent_up_to now a m t l.rows }) c
unfolding mark_sent_up_to
mark_sent_up_to-Owes now a m t l c d o = record {
  exact =
      sum_where-update (is_claimed c.miner_address c.max_row_id) (is_claimed a m)
        (λ r. record r { status = sent; txid = some t; updated_at = now }) l.rows (λ r. refl)
      ∙ sum_where-congr _ (is_claimed c.miner_address c.max_row_id) l.rows (same l.rows)
      ∙ o.exact;
  closed = o.closed;
}
  where
    mark : PayoutLedgerEntity → PayoutLedgerEntity
    mark r =
        if is_claimed a m r then record r { status = sent; txid = some t; updated_at = now } else r

    same :
        (rows : List PayoutLedgerEntity)
        → All
            (λ r.
              is_claimed c.miner_address c.max_row_id (mark r)
              ≡ is_claimed c.miner_address c.max_row_id r)
            rows
    same [] = tt
    same (r ∷ rs) = (
      ground (
        arith,
        str_eq_iff r.miner_address a,
        str_eq_iff r.miner_address c.miner_address,
        str_eq_iff c.miner_address a,
      ),
      same rs,
    )
