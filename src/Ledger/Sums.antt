-- ===== src/Ledger/Sums.antt =====
-- Sums over the rows that a `WHERE` clause selects.
use elektron_net_ppool.Common.{
  ℕ, max, pos, ◌+ℤ◌, int_laws, ◌≡◌, refl, Bool, true, false, ◌&&◌, ◌||◌, List, [], ◌∷◌, ◌++◌, All,
  filter, arith, if◌then◌else◌, Bool-cases, inl, inr,
}
use elektron_net_ppool.Ledger.{PayoutLedgerEntity, sum_where, update_where}

-- `SELECT MAX(id) WHERE p`, with 0 for no row: the ids begin at 1.
abbrev pub max_id_where : (PayoutLedgerEntity → Bool) → List PayoutLedgerEntity → ℕ
max_id_where p [] = 0
max_id_where p (r ∷ rs) = let rest = max_id_where p rs in if p r then max r.id rest else rest

module _ (p : PayoutLedgerEntity → Bool) where
  pub sum_where-append :
      (xs ys : List PayoutLedgerEntity) → sum_where p (xs ++ ys) ≡ sum_where p xs +ℤ sum_where p ys
  sum_where-append [] ys = omega int_laws
  sum_where-append (x ∷ xs) ys = elim (Bool-cases (p x)) [
    | inl t ↦ rw (t, sum_where-append xs ys) (omega int_laws)
    | inr f ↦ rw (f, sum_where-append xs ys)
  ]

  pub sum_where-filter :
      (q : PayoutLedgerEntity → Bool) (rows : List PayoutLedgerEntity)
      → sum_where q (filter p rows) ≡ sum_where (λ r. p r && q r) rows
  sum_where-filter q [] = refl
  sum_where-filter q (r ∷ rs) = ground (arith, sum_where-filter q rs)

  pub max_id_where-filter :
      (q : PayoutLedgerEntity → Bool) (rows : List PayoutLedgerEntity)
      → max_id_where q (filter p rows) ≡ max_id_where (λ r. p r && q r) rows
  max_id_where-filter q [] = refl
  max_id_where-filter q (r ∷ rs) = ground (arith, max_id_where-filter q rs)

  pub sum_where-congr :
      (q : PayoutLedgerEntity → Bool) (rows : List PayoutLedgerEntity)
      → All (λ r. p r ≡ q r) rows
      → sum_where p rows ≡ sum_where q rows
  sum_where-congr q [] h = refl
  sum_where-congr q (r ∷ rs) h = rw (h.0, sum_where-congr q rs h.1)

  pub sum_where-none :
      (rows : List PayoutLedgerEntity) → All (λ r. p r ≡ false) rows → sum_where p rows ≡ pos 0
  sum_where-none [] h = refl
  sum_where-none (r ∷ rs) h = rw (h.0, sum_where-none rs h.1)

-- What a sum becomes when an update leaves the amounts alone.
pub sum_where-update :
    (p q : PayoutLedgerEntity → Bool) (f : PayoutLedgerEntity → PayoutLedgerEntity)
    (rows : List PayoutLedgerEntity)
    → ((r : PayoutLedgerEntity) → (f r).amount_sats ≡ r.amount_sats)
    → sum_where p (update_where q f rows) ≡ sum_where (λ r. p (if q r then f r else r)) rows
sum_where-update p q f [] h = refl
sum_where-update p q f (r ∷ rs) h = ground (arith, sum_where-update p q f rs h, h r)

pub max_id_where-none :
    (p : PayoutLedgerEntity → Bool) (rows : List PayoutLedgerEntity)
    → All (λ r. p r ≡ false) rows
    → max_id_where p rows ≡ 0
max_id_where-none p [] h = refl
max_id_where-none p (r ∷ rs) h = rw (h.0, max_id_where-none p rs h.1)

-- `r` is selected by `q` exactly when one of `p` and `c` selects it, and never both.
abbrev pub IsUnion : Bool → Bool → Bool → Type 0
IsUnion p c q = (q ≡ (p || c)) × ((p && c) ≡ false)

pub sum_where-union :
    (p c q : PayoutLedgerEntity → Bool) (rows : List PayoutLedgerEntity)
    → ((r : PayoutLedgerEntity) → IsUnion (p r) (c r) (q r))
    → sum_where p rows +ℤ sum_where c rows ≡ sum_where q rows
sum_where-union p c q [] h = omega int_laws
sum_where-union p c q (r ∷ rs) h = go (p r) (c r) (q r) (h r) (sum_where-union p c q rs h)
  where
    go :
        (x y z : Bool)
        → IsUnion x y z
        → sum_where p rs +ℤ sum_where c rs ≡ sum_where q rs
        → (if x then r.amount_sats +ℤ sum_where p rs else sum_where p rs)
            +ℤ (if y then r.amount_sats +ℤ sum_where c rs else sum_where c rs)
          ≡ (if z then r.amount_sats +ℤ sum_where q rs else sum_where q rs)
    go true true z u ih = cc
    go true false true u ih = rw (← ih) (omega int_laws)
    go false true true u ih = rw (← ih) (omega int_laws)
    go false false false u ih = ih
    go true false false u ih = cc
    go false true false u ih = cc
    go false false true u ih = cc

pub sum_where-and :
    (b : Bool) (p : PayoutLedgerEntity → Bool) (rows : List PayoutLedgerEntity)
    → sum_where (λ r. b && p r) rows ≡ (if b then sum_where p rows else pos 0)
sum_where-and true p rows = refl
sum_where-and false p [] = refl
sum_where-and false p (r ∷ rs) = sum_where-and false p rs
