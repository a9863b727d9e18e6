-- ===== src/Ledger.antt =====
-- src/ORM/payout-ledger: the payout ledger's rows and the queries of `PayoutLedgerService`.
-- The table is the list of its rows in the order of their generated ids; a query is translated to
-- the filter, sum, grouping or update that it states. Groups come in the order of their last row,
-- which SQL leaves open. `updatedAt` is the column that TypeORM sets on every write, so writes take
-- the time `now`.
pub mod Sums
pub mod Groups
pub mod Credits
pub mod Maturity
pub mod Marks
pub mod Settlement
use elektron_net_ppool.Common.{
  ℕ, suc, ◌+◌, max, ℤ, pos, ◌+ℤ◌, leb_ℤ, leb, String, str_eq, Bool, true, false, ◌&&◌, Option, none,
  some, List, [], ◌∷◌, ◌++◌, filter, if◌then◌else◌,
}

-- ePayoutStatus
pub data PayoutStatus : Type 0 where
  pending sent confirmed : PayoutStatus

pub record PayoutLedgerEntity : Type 0 where
  pub id : ℕ
  pub miner_address : String
  pub block_height : ℕ
  pub amount_sats : ℤ
  pub status : PayoutStatus
  pub txid : Option String
  pub updated_at : ℕ

-- `id` is generated: `next_id` is above every id that was ever given.
pub record PayoutLedger : Type 0 where
  pub rows : List PayoutLedgerEntity
  pub next_id : ℕ

pub record PendingPayoutCandidate : Type 0 where
  pub miner_address : String
  pub total_pending_sats : ℤ
  pub max_row_id : ℕ

abbrev pub is_pending : PayoutStatus → Bool
is_pending pending = true
is_pending sent = false
is_pending confirmed = false

abbrev pub is_sent : PayoutStatus → Bool
is_sent pending = false
is_sent sent = true
is_sent confirmed = false

-- `status IN (SENT, CONFIRMED)`
abbrev pub is_paid : PayoutStatus → Bool
is_paid pending = false
is_paid sent = true
is_paid confirmed = true

-- The inserted row: `status: PENDING`, `txid: null`.
abbrev pub new_row : (id now : ℕ) → String → ℤ → ℕ → PayoutLedgerEntity
new_row id now miner_address amount_sats block_height = record {
  id = id;
  miner_address = miner_address;
  block_height = block_height;
  amount_sats = amount_sats;
  status = pending;
  txid = none;
  updated_at = now;
}

unfoldable pub credit : (now : ℕ) → String → ℤ → ℕ → PayoutLedger → PayoutLedger
credit now miner_address amount_sats block_height l =
    if leb_ℤ amount_sats (pos 0) then l else record {
      rows = l.rows ++ new_row l.next_id now miner_address amount_sats block_height ∷ [];
      next_id = l.next_id + 1;
    }

-- `SELECT COALESCE(SUM(amountSats), 0) WHERE p`
abbrev pub sum_where : (PayoutLedgerEntity → Bool) → List PayoutLedgerEntity → ℤ
sum_where p [] = pos 0
sum_where p (r ∷ rs) = let rest = sum_where p rs in if p r then r.amount_sats +ℤ rest else rest

-- The `WHERE` clauses of the queries.
abbrev pub is_pending_of : String → PayoutLedgerEntity → Bool
is_pending_of a r = str_eq r.miner_address a && is_pending r.status

abbrev pub is_paid_to : String → PayoutLedgerEntity → Bool
is_paid_to a r = str_eq r.miner_address a && is_paid r.status

abbrev pub is_mature : ℤ → PayoutLedgerEntity → Bool
is_mature h r = is_pending r.status && leb_ℤ (pos r.block_height) h

unfoldable pub get_pending_total : String → List PayoutLedgerEntity → ℤ
get_pending_total a rows = sum_where (is_pending_of a) rows

unfoldable pub get_total_pending_across_all_miners : List PayoutLedgerEntity → ℤ
get_total_pending_across_all_miners rows = sum_where (λ r. is_pending r.status) rows

unfoldable pub get_total_paid : String → List PayoutLedgerEntity → ℤ
get_total_paid a rows = sum_where (is_paid_to a) rows

-- `GROUP BY minerAddress` with `SUM(amountSats)` and `MAX(id)`, one row at a time.
unfoldable pub add_to_group :
    PayoutLedgerEntity → List PendingPayoutCandidate → List PendingPayoutCandidate
add_to_group r [] =
    record {
      miner_address = r.miner_address;
      total_pending_sats = r.amount_sats;
      max_row_id = r.id;
    }
    ∷ []
add_to_group r (c ∷ cs) =
    if str_eq c.miner_address r.miner_address
    then record c {
      total_pending_sats = r.amount_sats +ℤ c.total_pending_sats;
      max_row_id = max r.id c.max_row_id;
    }
      ∷ cs
    else c ∷ add_to_group r cs

unfoldable pub group_by_miner : List PayoutLedgerEntity → List PendingPayoutCandidate
unfolding add_to_group
group_by_miner [] = []
group_by_miner (r ∷ rs) = add_to_group r (group_by_miner rs)

unfoldable pub get_all_pending_totals : List PayoutLedgerEntity → List PendingPayoutCandidate
unfolding group_by_miner
get_all_pending_totals rows = group_by_miner (filter (λ r. is_pending r.status) rows)

unfoldable pub get_mature_pending_totals : ℤ → List PayoutLedgerEntity → List PendingPayoutCandidate
unfolding group_by_miner
get_mature_pending_totals mature_up_to_height rows =
    group_by_miner (filter (is_mature mature_up_to_height) rows)

-- `UPDATE … SET … WHERE`
abbrev pub update_where :
    (PayoutLedgerEntity → Bool)
    → (PayoutLedgerEntity → PayoutLedgerEntity)
    → List PayoutLedgerEntity
    → List PayoutLedgerEntity
update_where p f [] = []
update_where p f (r ∷ rs) = (if p r then f r else r) ∷ update_where p f rs

abbrev pub is_claimed : String → ℕ → PayoutLedgerEntity → Bool
is_claimed a max_row_id r = (str_eq r.miner_address a && leb r.id max_row_id) && is_pending r.status

unfoldable pub mark_sent_up_to :
    (now : ℕ) → String → ℕ → String → List PayoutLedgerEntity → List PayoutLedgerEntity
mark_sent_up_to now a max_row_id txid rows =
    update_where (is_claimed a max_row_id)
      (λ r. record r { status = sent; txid = some txid; updated_at = now }) rows

abbrev pub has_txid : String → Option String → Bool
has_txid t none = false
has_txid t (some u) = str_eq u t

-- `SELECT DISTINCT txid WHERE status = SENT`, then the `null`s are dropped.
abbrev pub add_distinct : Option String → List String → List String
add_distinct none ts = ts
add_distinct (some t) [] = t ∷ []
add_distinct (some t) (u ∷ ts) = if str_eq u t then u ∷ ts else u ∷ add_distinct (some t) ts

unfoldable pub get_distinct_sent_txids : List PayoutLedgerEntity → List String
get_distinct_sent_txids [] = []
get_distinct_sent_txids (r ∷ rs) =
    let rest = get_distinct_sent_txids rs in
    if is_sent r.status then add_distinct r.txid rest else rest

abbrev pub is_sent_by : String → PayoutLedgerEntity → Bool
is_sent_by t r = has_txid t r.txid && is_sent r.status

unfoldable pub mark_confirmed :
    (now : ℕ) → String → List PayoutLedgerEntity → List PayoutLedgerEntity
mark_confirmed now t rows =
    update_where (is_sent_by t) (λ r. record r { status = confirmed; updated_at = now }) rows

-- `ORDER BY updatedAt DESC`; rows of one time stay in the table's order, which SQL leaves open.
abbrev pub insert_by_time : PayoutLedgerEntity → List PayoutLedgerEntity → List PayoutLedgerEntity
insert_by_time r [] = r ∷ []
insert_by_time r (s ∷ rs) =
    if leb s.updated_at r.updated_at then r ∷ s ∷ rs else s ∷ insert_by_time r rs

abbrev pub order_by_time : List PayoutLedgerEntity → List PayoutLedgerEntity
order_by_time [] = []
order_by_time (r ∷ rs) = insert_by_time r (order_by_time rs)

abbrev pub take : ℕ → List PayoutLedgerEntity → List PayoutLedgerEntity
take ℕ.zero rs = []
take (suc n) [] = []
take (suc n) (r ∷ rs) = r ∷ take n rs

unfoldable pub get_payout_history :
    (limit : ℕ) → String → List PayoutLedgerEntity → List PayoutLedgerEntity
get_payout_history limit a rows = take limit (order_by_time (filter (is_paid_to a) rows))

abbrev pub first_time : List PayoutLedgerEntity → Option ℕ
first_time [] = none
first_time (r ∷ rs) = some r.updated_at

unfoldable pub get_last_payout_at : String → List PayoutLedgerEntity → Option ℕ
get_last_payout_at a rows = first_time (order_by_time (filter (is_paid_to a) rows))
