-- ===== src/Ledger/Maturity.antt =====
-- `markSentUpTo` claims by id what `getMaturePendingTotals` summed by height. In a ledger whose
-- heights never fall with the ids the two select the same rows.
use elektron_net_ppool.Common.{
  ℕ, ◌≤◌, ◌<◌, max, ℤ, pos, leb_ℤ, ◌≡◌, subst, sym, ◌∙◌, str_eq, ◌&&◌, Bool, String, true, false,
  List, [], ◌∷◌, All, All-map, arith, Bool-cases, inl, inr,
}
use elektron_net_ppool.Ledger.{
  PayoutLedgerEntity, PendingPayoutCandidate, is_claimed, is_pending, is_pending_of, sum_where,
  get_mature_pending_totals,
}
use elektron_net_ppool.Ledger.Sums.{max_id_where, max_id_where-none, sum_where-congr}
use elektron_net_ppool.Ledger.Groups.{mature_of, IsClaim, get_mature_pending_totals-IsClaim}
use elektron_net_ppool.Ledger.Credits.{Precedes, IsOrdered}

module _ (h : ℤ) (a : String) where
  abbrev cutoff : List PayoutLedgerEntity → ℕ
  cutoff rows = max_id_where (mature_of h a) rows

  abbrev Within : ℕ → PayoutLedgerEntity → Type 0
  Within m r = mature_of h a r ≡ true → r.id ≤ m

  abbrev Ripe : ℕ → PayoutLedgerEntity → Type 0
  Ripe m r = is_pending_of a r ≡ true → r.id ≤ m → leb_ℤ (pos r.block_height) h ≡ true

  Within-cutoff : (rows : List PayoutLedgerEntity) → All (Within (cutoff rows)) rows
  Within-cutoff [] = tt
  Within-cutoff (r ∷ rs) = (
    λ e. rw e (omega arith),
    All-map (Within (cutoff rs)) (Within (cutoff (r ∷ rs))) rs (λ s k. ground (arith, k))
        (Within-cutoff rs),
  )

  -- Above a row that is not mature no row of the ledger is.
  none_mature :
      (r : PayoutLedgerEntity) (rs : List PayoutLedgerEntity)
      → All (Precedes r) rs
      → leb_ℤ (pos r.block_height) h ≡ false
      → cutoff rs ≡ 0
  none_mature r rs p e =
      max_id_where-none (mature_of h a) rs
        (All-map (Precedes r) (λ s. mature_of h a s ≡ false) rs (λ s q. ground arith) p)

  ripe_head :
      (r : PayoutLedgerEntity) (rs : List PayoutLedgerEntity)
      → All (Precedes r) rs
      → 0 < r.id
      → Ripe (cutoff (r ∷ rs)) r
  ripe_head r rs o p d i = ground (arith, none_mature r rs o)

  -- A mature row in front raises the cutoff, but not past the rows behind it.
  raised :
      (r : PayoutLedgerEntity) (rs : List PayoutLedgerEntity) (m : ℕ) (xs : List PayoutLedgerEntity)
      → m ≡ max r.id (cutoff rs)
      → All (Precedes r) xs
      → All (Ripe (cutoff rs)) xs
      → All (Ripe m) xs
  raised r rs m [] e q k = tt
  raised r rs m (x ∷ xs) e q k = ((λ d i. k.0 d (omega arith)), raised r rs m xs e q.1 k.1)

  cutoff-eq :
      (r : PayoutLedgerEntity) (rs : List PayoutLedgerEntity)
      → mature_of h a r ≡ false
      → cutoff rs ≡ cutoff (r ∷ rs)
  cutoff-eq r rs e = rw e

  Ripe_cutoff :
      (rows : List PayoutLedgerEntity)
      → IsOrdered rows
      → All (λ r. 0 < r.id) rows
      → All (Ripe (cutoff rows)) rows
  Ripe_cutoff [] o p = tt
  Ripe_cutoff (r ∷ rs) o p = (
    ripe_head r rs o.0 p.0,
    elim (Bool-cases (mature_of h a r)) [
      | inl ripe ↦ raised r rs (cutoff (r ∷ rs)) rs (rw ripe) o.0 (Ripe_cutoff rs o.1 p.1)
      | inr unripe ↦ subst (λ m. All (Ripe m) rs) (cutoff-eq r rs unripe) (Ripe_cutoff rs o.1 p.1)
    ],
  )

  claimed-eq-mature :
      (m : ℕ) (rows : List PayoutLedgerEntity)
      → All (Within m) rows
      → All (Ripe m) rows
      → All (λ r. is_claimed a m r ≡ mature_of h a r) rows
  claimed-eq-mature m [] w k = tt
  claimed-eq-mature m (r ∷ rs) w k = (ground (arith, w.0, k.0), claimed-eq-mature m rs w.1 k.1)

  -- A miner's rows up to the cutoff are its mature rows.
  pub claimed_up_to_cutoff :
      (rows : List PayoutLedgerEntity)
      → IsOrdered rows
      → All (λ r. 0 < r.id) rows
      → All (λ r. is_claimed a (cutoff rows) r ≡ mature_of h a r) rows
  claimed_up_to_cutoff rows o p =
      claimed-eq-mature (cutoff rows) rows (Within-cutoff rows) (Ripe_cutoff rows o p)

-- The rows of a miner that are pending and at most as high as a height.
abbrev pub is_ripe : ℤ → String → PayoutLedgerEntity → Bool
is_ripe h a r = str_eq r.miner_address a && (leb_ℤ (pos r.block_height) h && is_pending r.status)

-- What a candidate that was summed means for the rows that its settlement claims.
pub record IsSettled (h : ℤ) (rows : List PayoutLedgerEntity) (c : PendingPayoutCandidate)
    : Type 0 where
  pub same_rows :
      All (λ r. is_claimed c.miner_address c.max_row_id r ≡ is_ripe h c.miner_address r) rows
  pub same_total : c.total_pending_sats ≡ sum_where (is_claimed c.miner_address c.max_row_id) rows

mature-ripe :
    (h : ℤ) (a : String) (m : ℕ) (r : PayoutLedgerEntity)
    → is_claimed a m r ≡ mature_of h a r
    → is_claimed a m r ≡ is_ripe h a r
mature-ripe h a m r e = e ∙ ground arith

claim-IsSettled :
    (h : ℤ) (rows : List PayoutLedgerEntity) (c : PendingPayoutCandidate)
    → IsOrdered rows
    → All (λ r. 0 < r.id) rows
    → IsClaim h rows c
    → IsSettled h rows c
claim-IsSettled h rows c o p k =
    let a = c.miner_address in
    let same : All (λ r. is_claimed a c.max_row_id r ≡ mature_of h a r) rows =
      rw k.cutoff (claimed_up_to_cutoff h a rows o p) in
    record {
      same_rows =
          All-map (λ r. is_claimed a c.max_row_id r ≡ mature_of h a r) _ rows
            (λ r e. mature-ripe h a c.max_row_id r e) same;
      same_total =
          k.total ∙ sym (sum_where-congr (is_claimed a c.max_row_id) (mature_of h a) rows same);
    }

-- With heights that never fall with the ids, and ids above 0: for every candidate that
-- `get_mature_pending_totals` gives, the rows that its address and cutoff claim are exactly the miner's
-- pending rows up to the height, and the candidate's total is their sum.
pub claimed_iff_mature :
    (h : ℤ) (rows : List PayoutLedgerEntity)
    → IsOrdered rows
    → All (λ r. 0 < r.id) rows
    → All (IsSettled h rows) (get_mature_pending_totals h rows)
claimed_iff_mature h rows o p =
    All-map (IsClaim h rows) (IsSettled h rows) (get_mature_pending_totals h rows)
      (λ c k. claim-IsSettled h rows c o p k) (get_mature_pending_totals-IsClaim h rows)
