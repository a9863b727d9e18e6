-- ===== src/Ledger/Credits.antt =====
-- What a credit does to the sums and to the ids of the ledger.
use elektron_net_ppool.Common.{
  ℕ, ◌+◌, ◌≤◌, ◌<◌, ℤ, pos, ◌+ℤ◌, ◌≤ℤ◌, leb_ℤ, +ℤ_zero, int_laws, ◌≡◌, refl, String, str_eq, Bool,
  true, false, List, [], ◌∷◌, ◌++◌, All, All-append, All-map, arith, if◌then◌else◌, Bool-cases, inl,
  inr,
}
use elektron_net_ppool.Ledger.{
  PayoutLedger, PayoutLedgerEntity, credit, sum_where, is_pending_of, is_paid_to, get_pending_total,
  get_total_paid, new_row,
}
use elektron_net_ppool.Ledger.Sums.{sum_where-append}

-- Ids ascend from 1, heights never fall with the ids, amounts are positive, and the next id is new.
abbrev pub Precedes : PayoutLedgerEntity → PayoutLedgerEntity → Type 0
Precedes r s = (r.id < s.id) × (r.block_height ≤ s.block_height)

abbrev pub IsOrdered : List PayoutLedgerEntity → Type 0
IsOrdered [] = Unit
IsOrdered (r ∷ rs) = All (Precedes r) rs × IsOrdered rs

abbrev pub IsRow : ℕ → PayoutLedgerEntity → Type 0
IsRow next r = (0 < r.id) × (r.id < next) × (pos 1 ≤ℤ r.amount_sats)

pub record IsValid (l : PayoutLedger) : Type 0 where
  pub ordered : IsOrdered l.rows
  pub rows : All (IsRow l.next_id) l.rows
  pub next : 0 < l.next_id

-- No row of the ledger is from a higher block than `n`.
abbrev pub IsUpTo : ℕ → List PayoutLedgerEntity → Type 0
IsUpTo n rows = All (λ r. r.block_height ≤ n) rows

IsOrdered-append :
    (xs : List PayoutLedgerEntity) (y : PayoutLedgerEntity)
    → IsOrdered xs
    → All (λ x. Precedes x y) xs
    → IsOrdered (xs ++ y ∷ [])
IsOrdered-append [] y o h = (tt, tt)
IsOrdered-append (x ∷ xs) y o h =
    (All-append (Precedes x) xs (y ∷ []) o.0 (h.0, tt), IsOrdered-append xs y o.1 h.1)

Precedes-all :
    (n : ℕ) (y : PayoutLedgerEntity) (xs : List PayoutLedgerEntity)
    → All (IsRow y.id) xs
    → IsUpTo n xs
    → n ≤ y.block_height
    → All (λ x. Precedes x y) xs
Precedes-all n y [] h k e = tt
Precedes-all n y (x ∷ xs) h k e = ((h.0.1, omega arith), Precedes-all n y xs h.1 k.1 e)

-- A credit from a block that is no lower than those before keeps the ledger valid.
pub credit-IsValid :
    (now : ℕ) (a : String) (amount : ℤ) (n : ℕ) (l : PayoutLedger)
    → IsValid l
    → IsUpTo n l.rows
    → IsValid (credit now a amount n l) × IsUpTo n (credit now a amount n l).rows
unfolding credit
credit-IsValid now a amount n l v u = elim (Bool-cases (leb_ℤ amount (pos 0))) [
  | inl none_due ↦ rw none_due (v, u)
  | inr due ↦ rw due (
    record {
      ordered =
          IsOrdered-append l.rows (new_row l.next_id now a amount n) v.ordered
            (Precedes-all n (new_row l.next_id now a amount n) l.rows v.rows u (omega arith));
      rows =
          All-append _ l.rows _
            (All-map (IsRow l.next_id) (IsRow (l.next_id + 1)) l.rows (λ r h. omega arith) v.rows)
            ((v.next, omega arith, ground (arith, due)), tt);
      next = omega arith;
    },
    All-append _ l.rows _ u (omega arith, tt),
  )
]

pub sum_where-credit :
    (p : PayoutLedgerEntity → Bool) (now : ℕ) (a : String) (amount : ℤ) (n : ℕ) (l : PayoutLedger)
    → sum_where p (credit now a amount n l).rows
      ≡ sum_where p l.rows
        +ℤ (if leb_ℤ amount (pos 0)
            then pos 0
            else if p (new_row l.next_id now a amount n)
            then amount
            else pos 0)
unfolding credit
sum_where-credit p now a amount n l =
    go (leb_ℤ amount (pos 0)) (p (new_row l.next_id now a amount n)) refl
  where
    go :
        (b due : Bool)
        → p (new_row l.next_id now a amount n) ≡ due
        → sum_where p
            (if b then l else record {
              rows = l.rows ++ new_row l.next_id now a amount n ∷ [];
              next_id = l.next_id + 1;
            }).rows
          ≡ sum_where p l.rows +ℤ (if b then pos 0 else if due then amount else pos 0)
    go true due e = omega int_laws
    go false true e = rw (sum_where-append, e) (omega int_laws)
    go false false e = rw (sum_where-append, e)

-- A positive credit raises the pending total of its miner by its amount and no other total; a credit
-- of zero or less does nothing.
pub credit_totals :
    (now : ℕ) (a b : String) (amount : ℤ) (n : ℕ) (l : PayoutLedger)
    → let l' = credit now a amount n l in
      let gain = if leb_ℤ amount (pos 0) then pos 0 else if str_eq a b then amount else pos 0 in
      (get_pending_total b l'.rows ≡ get_pending_total b l.rows +ℤ gain)
      × (get_total_paid b l'.rows ≡ get_total_paid b l.rows)
unfolding get_pending_total get_total_paid
credit_totals now a b amount n l = (
  rw (sum_where-credit (is_pending_of b) now a amount n l) (ground arith),
  rw (sum_where-credit (is_paid_to b) now a amount n l)
      (ground (arith, +ℤ_zero (get_total_paid b l.rows))),
)

-- Amounts are positive, so no sum is negative.
pub sum_where_nonneg :
    (p : PayoutLedgerEntity → Bool) (next : ℕ) (rows : List PayoutLedgerEntity)
    → All (IsRow next) rows
    → pos 0 ≤ℤ sum_where p rows
sum_where_nonneg p next [] h = omega arith
sum_where_nonneg p next (r ∷ rs) h = elim (Bool-cases (p r)) [
  | inl chosen ↦ rw chosen (omega (int_laws, sum_where_nonneg p next rs h.1))
  | inr left ↦ rw left (sum_where_nonneg p next rs h.1)
]
