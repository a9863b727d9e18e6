-- ===== src/Ledger/Groups.antt =====
-- What `GROUP BY minerAddress` computes: one candidate for each miner with a selected row, who is
-- owed the sum of those rows, with the greatest of their ids.
use elektron_net_ppool.Common.{
  max, ℤ, ◌+ℤ◌, ◌≡◌, refl, ◌∙◌, subst, String, str_eq, str_eq_iff, str_eq_refl, Bool, true, false,
  ◌&&◌, Option, none, some, List, [], ◌∷◌, All, All-map, filter, arith, int_laws, if◌then◌else◌,
}
use elektron_net_ppool.Ledger.{
  PayoutLedgerEntity, PendingPayoutCandidate, sum_where, add_to_group, group_by_miner,
  get_mature_pending_totals, is_mature,
}
use elektron_net_ppool.Ledger.Sums.{
  max_id_where, sum_where-filter, max_id_where-filter, sum_where-none, max_id_where-none,
}

abbrev pub owned : String → PayoutLedgerEntity → Bool
owned a r = str_eq r.miner_address a

abbrev pub find : String → List PendingPayoutCandidate → Option PendingPayoutCandidate
find a [] = none
find a (c ∷ cs) = if str_eq c.miner_address a then some c else find a cs

abbrev merge : PayoutLedgerEntity → Option PendingPayoutCandidate → PendingPayoutCandidate
merge r none = record {
  miner_address = r.miner_address;
  total_pending_sats = r.amount_sats;
  max_row_id = r.id;
}
merge r (some c) = record c {
  total_pending_sats = r.amount_sats +ℤ c.total_pending_sats;
  max_row_id = max r.id c.max_row_id;
}

find-add_to_group :
    (a : String) (r : PayoutLedgerEntity) (cs : List PendingPayoutCandidate)
    → find a (add_to_group r cs)
      ≡ (if str_eq r.miner_address a then some (merge r (find a cs)) else find a cs)
unfolding add_to_group
find-add_to_group a r [] = refl
find-add_to_group a r (c ∷ cs) = ground (
  arith,
  find-add_to_group a r cs,
  str_eq_iff c.miner_address r.miner_address,
  str_eq_iff c.miner_address a,
  str_eq_iff r.miner_address a,
)

-- What a candidate says of the rows that it was made from.
abbrev pub Sums : String → List PayoutLedgerEntity → Option PendingPayoutCandidate → Type 0
Sums a rows none = All (λ r. owned a r ≡ false) rows
Sums a rows (some c) =
    (c.miner_address ≡ a)
    × (c.total_pending_sats ≡ sum_where (owned a) rows)
    × (c.max_row_id ≡ max_id_where (owned a) rows)

merge-Sums :
    (a : String) (r : PayoutLedgerEntity) (rs : List PayoutLedgerEntity)
    (o : Option PendingPayoutCandidate)
    → str_eq r.miner_address a ≡ true
    → Sums a rs o
    → Sums a (r ∷ rs) (some (merge r o))
merge-Sums a r rs none e h =
    rw (e, sum_where-none (owned a) rs h, max_id_where-none (owned a) rs h)
      ((str_eq_iff r.miner_address a).0 e, omega int_laws, omega arith)
merge-Sums a r rs (some c) e h = ground (arith, e)

find-group_by_miner :
    (a : String) (rows : List PayoutLedgerEntity) → Sums a rows (find a (group_by_miner rows))
unfolding group_by_miner
find-group_by_miner a [] = tt
find-group_by_miner a (r ∷ rs) =
    rw (find-add_to_group a r (group_by_miner rs))
      (go (str_eq r.miner_address a) (find a (group_by_miner rs)) refl (find-group_by_miner a rs))
  where
    go :
        (b : Bool) (o : Option PendingPayoutCandidate)
        → str_eq r.miner_address a ≡ b
        → Sums a rs o
        → Sums a (r ∷ rs) (if b then some (merge r o) else o)
    go true o e h = merge-Sums a r rs o e h
    go false none e h = (e, h)
    go false (some c) e h = rw e h

-- No miner has two candidates.
abbrev pub Differs : String → PendingPayoutCandidate → Type 0
Differs a c = str_eq c.miner_address a ≡ false

abbrev pub IsDistinct : List PendingPayoutCandidate → Type 0
IsDistinct [] = Unit
IsDistinct (c ∷ cs) = All (Differs c.miner_address) cs × IsDistinct cs

add_to_group-Differs :
    (a : String) (r : PayoutLedgerEntity) (cs : List PendingPayoutCandidate)
    → str_eq r.miner_address a ≡ false
    → All (Differs a) cs
    → All (Differs a) (add_to_group r cs)
unfolding add_to_group
add_to_group-Differs a r [] e h = (e, tt)
add_to_group-Differs a r (c ∷ cs) e h = ground (arith, add_to_group-Differs a r cs e)

add_to_group-IsDistinct :
    (r : PayoutLedgerEntity) (cs : List PendingPayoutCandidate)
    → IsDistinct cs
    → IsDistinct (add_to_group r cs)
unfolding add_to_group
add_to_group-IsDistinct r [] h = (tt, tt)
add_to_group-IsDistinct r (c ∷ cs) h = ground (
  arith,
  add_to_group-IsDistinct r cs,
  add_to_group-Differs c.miner_address r cs,
  str_eq_iff c.miner_address r.miner_address,
  str_eq_iff r.miner_address c.miner_address,
)

group_by_miner-IsDistinct : (rows : List PayoutLedgerEntity) → IsDistinct (group_by_miner rows)
unfolding group_by_miner
group_by_miner-IsDistinct [] = tt
group_by_miner-IsDistinct (r ∷ rs) =
    add_to_group-IsDistinct r (group_by_miner rs) (group_by_miner-IsDistinct rs)

-- In a list with distinct miners every candidate is the one that `find` gives.
find-cons :
    (c : PendingPayoutCandidate) (cs xs : List PendingPayoutCandidate)
    → All (Differs c.miner_address) xs
    → All (λ d. find d.miner_address cs ≡ some d) xs
    → All (λ d. find d.miner_address (c ∷ cs) ≡ some d) xs
find-cons c cs [] h k = tt
find-cons c cs (x ∷ xs) h k = (
  ground (
    arith,
    str_eq_iff x.miner_address c.miner_address,
    str_eq_iff c.miner_address x.miner_address,
  ),
  find-cons c cs xs h.1 k.1,
)

pub find_self :
    (cs : List PendingPayoutCandidate)
    → IsDistinct cs
    → All (λ c. find c.miner_address cs ≡ some c) cs
find_self [] h = tt
find_self (c ∷ cs) h = (rw (str_eq_refl c.miner_address), find-cons c cs cs h.0 (find_self cs h.1))

-- How a candidate of `get_mature_pending_totals` stands for the rows of the ledger.
abbrev pub mature_of : ℤ → String → PayoutLedgerEntity → Bool
mature_of h a r = is_mature h r && owned a r

pub record IsClaim (h : ℤ) (rows : List PayoutLedgerEntity) (c : PendingPayoutCandidate)
    : Type 0 where
  pub total : c.total_pending_sats ≡ sum_where (mature_of h c.miner_address) rows
  pub cutoff : c.max_row_id ≡ max_id_where (mature_of h c.miner_address) rows

IsClaim-of_Sums :
    (h : ℤ) (rows : List PayoutLedgerEntity) (c : PendingPayoutCandidate)
    → Sums c.miner_address (filter (is_mature h) rows) (some c)
    → IsClaim h rows c
IsClaim-of_Sums h rows c s = record {
  total = s.1 ∙ sum_where-filter (is_mature h) (owned c.miner_address) rows;
  cutoff = s.2 ∙ max_id_where-filter (is_mature h) (owned c.miner_address) rows;
}

-- Every candidate is owed exactly the sum of its miner's mature pending rows, with the greatest of
-- their ids as the cutoff.
pub get_mature_pending_totals-IsClaim :
    (h : ℤ) (rows : List PayoutLedgerEntity)
    → All (IsClaim h rows) (get_mature_pending_totals h rows)
unfolding get_mature_pending_totals
get_mature_pending_totals-IsClaim h rows =
    let selected = filter (is_mature h) rows in
    All-map (λ c. find c.miner_address (group_by_miner selected) ≡ some c) (IsClaim h rows)
      (group_by_miner selected)
      (λ c e.
        IsClaim-of_Sums h rows c
          (subst (Sums c.miner_address selected) e (find-group_by_miner c.miner_address selected)))
      (find_self (group_by_miner selected) (group_by_miner-IsDistinct selected))

pub get_mature_pending_totals-IsDistinct :
    (h : ℤ) (rows : List PayoutLedgerEntity) → IsDistinct (get_mature_pending_totals h rows)
unfolding get_mature_pending_totals
get_mature_pending_totals-IsDistinct h rows = group_by_miner-IsDistinct (filter (is_mature h) rows)
