-- ===== src/Accounting.antt =====
-- src/ORM/pool-accounting: the one row of fees and dust, made on its first use.
use elektron_net_ppool.Common.{ℤ, pos, ◌+ℤ◌, ◌≡◌, refl, Option, none, some}

pub record PoolAccountingEntity : Type 0 where
  pub total_fee_sats : ℤ
  pub total_dust_sats : ℤ

abbrev pub PoolAccounting : Type 0
PoolAccounting = Option PoolAccountingEntity

-- `INSERT OR IGNORE` of the zero row.
abbrev insert_or_ignore : PoolAccounting → PoolAccountingEntity
insert_or_ignore none = record { total_fee_sats = pos 0; total_dust_sats = pos 0 }
insert_or_ignore (some row) = row

unfoldable pub add_fee_and_dust : ℤ → ℤ → PoolAccounting → PoolAccounting
add_fee_and_dust fee_sats dust_sats acc =
    let row = insert_or_ignore acc in
    some (record row {
      total_fee_sats = row.total_fee_sats +ℤ fee_sats;
      total_dust_sats = row.total_dust_sats +ℤ dust_sats;
    })

unfoldable pub get : PoolAccounting → PoolAccountingEntity
get none = record { total_fee_sats = pos 0; total_dust_sats = pos 0 }
get (some row) = row

-- The totals grow by what is added, also when the row is made by the call.
pub get-add_fee_and_dust :
    (fee dust : ℤ) (acc : PoolAccounting)
    → ((get (add_fee_and_dust fee dust acc)).total_fee_sats ≡ (get acc).total_fee_sats +ℤ fee)
      × ((get (add_fee_and_dust fee dust acc)).total_dust_sats ≡ (get acc).total_dust_sats +ℤ dust)
unfolding add_fee_and_dust get
get-add_fee_and_dust fee dust none = (refl, refl)
get-add_fee_and_dust fee dust (some row) = (refl, refl)
