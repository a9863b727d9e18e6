-- ===== src/Account/Thresholds.antt =====
-- The thresholds that a payout cycle reads from the accounts' settings.
use elektron_net_ppool.Common.{
  ℕ, ℤ, pos, ◌≡◌, refl, sym, ap, ◌∙◌, String, str_eq, str_eq_iff, true, false, Option, none, some,
  List, [], ◌∷◌, if◌then◌else◌, arith, Bool-cases, inl, inr,
}
use elektron_net_ppool.Ledger.{PendingPayoutCandidate}
use elektron_net_ppool.Scheduler.{effective_threshold}
use elektron_net_ppool.Account.{
  MinerAccountSettings, Table, get_settings, Changes, or_keep, change, upsert_settings, member,
  with_override, overrides_in, get_overrides_by_address, get,
}
use elektron_net_ppool.Account.Settings.{
  IsTable, settings_or_default, same_settings, get_settings-upsert_settings,
  IsTable-upsert_settings,
}

abbrev pub override_of : Option MinerAccountSettings → Option ℤ
override_of none = none
override_of (some r) = r.payout_threshold_sats_override

get-with_override :
    (r : MinerAccountSettings) (rest : List (String × ℤ)) (a : String)
    → str_eq r.address a ≡ true
    → get rest a ≡ none
    → get (with_override r rest) a ≡ r.payout_threshold_sats_override
get-with_override r rest a e h = go r.payout_threshold_sats_override
  where
    go : (o : Option ℤ) → get (elim o [ none ↦ rest | some n ↦ (r.address, n) ∷ rest ]) a ≡ o
    go none = h
    go (some n) = rw e refl

get-with_override_other :
    (r : MinerAccountSettings) (rest : List (String × ℤ)) (a : String)
    → str_eq r.address a ≡ false
    → get (with_override r rest) a ≡ get rest a
get-with_override_other r rest a e = go r.payout_threshold_sats_override
  where
    go :
        (o : Option ℤ)
        → get (elim o [ none ↦ rest | some n ↦ (r.address, n) ∷ rest ]) a ≡ get rest a
    go none = refl
    go (some n) = rw e refl

same_member :
    (addresses : List String) (a b : String)
    → str_eq a b ≡ true
    → member a addresses ≡ member b addresses
same_member addresses a b h = ap (λ x. member x addresses) ((str_eq_iff a b).0 h)

get-overrides_in :
    (addresses : List String) (a : String) (rows : Table)
    → IsTable rows
    → member a addresses ≡ true
    → get (overrides_in addresses rows) a ≡ override_of (get_settings a rows)
unfolding IsTable
get-overrides_in addresses a [] h m = refl
get-overrides_in addresses a (r ∷ rows) h m = elim (Bool-cases (str_eq r.address a)) [
  | inl e ↦
      rw (e, same_member addresses r.address a e, m)
        (get-with_override r (overrides_in addresses rows) a e (
          get-overrides_in addresses a rows h.1 m
          ∙ ap override_of (same_settings r.address a rows e ∙ h.0)))
  | inr e ↦ elim (Bool-cases (member r.address addresses)) [
    | inl k ↦
        rw (e, k)
          (get-with_override_other r (overrides_in addresses rows) a e
            ∙ get-overrides_in addresses a rows h.1 m)
    | inr k ↦ rw (e, k) (get-overrides_in addresses a rows h.1 m)
  ]
]

get_overrides_by_address-get :
    (addresses : List String) (a : String) (rows : Table)
    → IsTable rows
    → member a addresses ≡ true
    → get (get_overrides_by_address addresses rows) a ≡ override_of (get_settings a rows)
unfolding get_overrides_by_address
get_overrides_by_address-get [] a rows h m = absurd (ground arith)
get_overrides_by_address-get (b ∷ addresses) a rows h m =
    get-overrides_in (b ∷ addresses) a rows h m

-- The account's own threshold, or the pool's.
abbrev pub threshold_or : ℕ → Option ℤ → ℤ
threshold_or pool none = pos pool
threshold_or pool (some own) = own

effective_threshold-get :
    (m : String → Option ℤ) (pool : ℕ) (c : PendingPayoutCandidate)
    → effective_threshold m pool c ≡ threshold_or pool (m c.miner_address)
effective_threshold-get m pool c = go (m c.miner_address)
  where
    go : (o : Option ℤ) → elim o [ none ↦ pos pool | some own ↦ own ] ≡ threshold_or pool o
    go none = refl
    go (some own) = refl

unfoldable pub cycle_threshold :
    (addresses : List String) (pool : ℕ) (c : PendingPayoutCandidate) → Table → ℤ
cycle_threshold addresses pool c rows =
    effective_threshold (get (get_overrides_by_address addresses rows)) pool c

cycle_threshold-settings :
    (addresses : List String) (pool : ℕ) (c : PendingPayoutCandidate) (rows : Table)
    → IsTable rows
    → member c.miner_address addresses ≡ true
    → cycle_threshold addresses pool c rows
      ≡ threshold_or pool (override_of (get_settings c.miner_address rows))
unfolding cycle_threshold
cycle_threshold-settings addresses pool c rows h m =
    effective_threshold-get (get (get_overrides_by_address addresses rows)) pool c
    ∙ ap (threshold_or pool) (get_overrides_by_address-get addresses c.miner_address rows h m)

override_of-change :
    (ch : Changes) (a : String) (o : Option MinerAccountSettings)
    → override_of (some (change ch (settings_or_default a o)))
      ≡ or_keep ch.payout_threshold_sats_override (override_of o)
override_of-change ch a none = refl
override_of-change ch a (some r) = refl

-- In a table with one row of an address, the threshold that the next payout cycle holds against a
-- miner's pending total is, after a change of the miner's settings, the one that the change sets,
-- or the pool's when it sets null, or the former one when it does not mention it; every other
-- miner's threshold is what it was.
pub cycle_threshold-upsert_settings :
    (addresses : List String) (pool : ℕ) (c : PendingPayoutCandidate) (a : String) (ch : Changes)
    (rows : Table)
    → IsTable rows
    → member c.miner_address addresses ≡ true
    → cycle_threshold addresses pool c (upsert_settings a ch rows).1 ≡ (
        if str_eq a c.miner_address
        then threshold_or pool
            (or_keep ch.payout_threshold_sats_override (override_of (get_settings a rows)))
        else cycle_threshold addresses pool c rows)
cycle_threshold-upsert_settings addresses pool c a ch rows h m =
    cycle_threshold-settings addresses pool c (upsert_settings a ch rows).1
      (IsTable-upsert_settings a ch rows h) m
    ∙ elim (Bool-cases (str_eq a c.miner_address)) [
      | inl e ↦
          rw (get_settings-upsert_settings a c.miner_address ch rows, e)
            (ap (threshold_or pool) (override_of-change ch a (get_settings a rows)))
      | inr e ↦
          rw (get_settings-upsert_settings a c.miner_address ch rows, e)
            (sym (cycle_threshold-settings addresses pool c rows h m))
    ]
