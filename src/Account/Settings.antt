-- ===== src/Account/Settings.antt =====
-- The settings that a change leaves.
use elektron_net_ppool.Common.{
  ℤ, ◌⊎◌, ◌≡◌, refl, sym, ap, ◌∙◌, String, str_eq, str_eq_iff, Bool, true, false, Option, none,
  some, [], ◌∷◌, ◌++◌, if◌then◌else◌, arith, Bool-cases, inl, inr,
}
use elektron_net_ppool.Account.{
  MinerAccountSettings, Table, get_settings, Changes, change, insert_settings_or_ignore, change_if,
  update_settings, changes_none, upsert_settings,
}

-- No two rows have the same address.
unfoldable pub IsTable : Table → Type 0
IsTable [] = Unit
IsTable (r ∷ rows) = (get_settings r.address rows ≡ none) × IsTable rows

abbrev pub default_settings : String → MinerAccountSettings
default_settings a = record {
  address = a;
  payout_threshold_sats_override = none;
  notify_on_payout = false;
}

abbrev pub settings_or_default : String → Option MinerAccountSettings → MinerAccountSettings
settings_or_default a none = default_settings a
settings_or_default a (some r) = r

get_settings-append :
    (a b : String) (rows : Table)
    → get_settings b (rows ++ default_settings a ∷ []) ≡ elim (get_settings b rows) [
      | some r ↦ some r
      | none ↦ if str_eq a b then some (default_settings a) else none
    ]
get_settings-append a b [] = refl
get_settings-append a b (r ∷ rows) = elim (Bool-cases (str_eq r.address b)) [
  | inl e ↦ rw e refl
  | inr e ↦ rw e (get_settings-append a b rows)
]

abbrev changed :
    String → Changes → String → Option MinerAccountSettings → Option MinerAccountSettings
changed a ch b none = none
changed a ch b (some r) = some (if str_eq a b then change ch r else r)

change_if-address :
    (a : String) (ch : Changes) (r : MinerAccountSettings) → (change_if a ch r).address ≡ r.address
change_if-address a ch r = elim (Bool-cases (str_eq r.address a)) [
  | inl e ↦ rw e refl
  | inr e ↦ rw e refl
]

same_side : (x a b : String) → str_eq x b ≡ true → str_eq x a ≡ str_eq a b
same_side x a b h = ground (arith, str_eq_iff x b, str_eq_iff x a, str_eq_iff a b)

get_settings-update_settings :
    (a b : String) (ch : Changes) (rows : Table)
    → get_settings b (update_settings a ch rows) ≡ changed a ch b (get_settings b rows)
unfolding update_settings
get_settings-update_settings a b ch [] = refl
get_settings-update_settings a b ch (r ∷ rows) = elim (Bool-cases (str_eq r.address b)) [
  | inl e ↦ rw (change_if-address a ch r, e, same_side r.address a b e) refl
  | inr e ↦ rw (change_if-address a ch r, e) (get_settings-update_settings a b ch rows)
]

pub same_settings :
    (a b : String) (rows : Table) → str_eq a b ≡ true → get_settings b rows ≡ get_settings a rows
same_settings a b rows h = ap (λ x. get_settings x rows) (sym ((str_eq_iff a b).0 h))

or_none :
    (b : Bool) (x : MinerAccountSettings) (o : Option MinerAccountSettings)
    → b ≡ false
    → elim o [ some r ↦ some r | none ↦ if b then some x else none ] ≡ o
or_none b x none h = rw h refl
or_none b x (some r) h = refl

if_false : {b : Bool} → b ≡ false → (x y : Option MinerAccountSettings) → (if b then x else y) ≡ y
if_false h x y = rw h refl

if_true : {b : Bool} → b ≡ true → (x y : MinerAccountSettings) → (if b then x else y) ≡ x
if_true h x y = rw h refl

changed-other :
    (a b : String) (ch : Changes) (o : Option MinerAccountSettings)
    → str_eq a b ≡ false
    → changed a ch b o ≡ o
changed-other a b ch none h = refl
changed-other a b ch (some r) h = rw h refl

-- With the account's row, whether it was there or is new.
get_settings-insert_settings_or_ignore :
    (a b : String) (rows : Table)
    → get_settings b (insert_settings_or_ignore a rows) ≡ (
        if str_eq a b
        then some (settings_or_default a (get_settings a rows))
        else get_settings b rows)
unfolding insert_settings_or_ignore
get_settings-insert_settings_or_ignore a b rows =
    go (get_settings a rows) refl (Bool-cases (str_eq a b))
  where
    go :
        (o : Option MinerAccountSettings)
        → get_settings a rows ≡ o
        → (str_eq a b ≡ true) ⊎ (str_eq a b ≡ false)
        → get_settings b (elim o [ none ↦ rows ++ default_settings a ∷ [] | some r ↦ rows ])
          ≡ (if str_eq a b then some (settings_or_default a o) else get_settings b rows)
    go none e (inl h) = rw (get_settings-append a b rows, same_settings a b rows h, e, h) refl
    go none e (inr h) =
        rw (get_settings-append a b rows, h)
          (or_none (str_eq a b) (default_settings a) (get_settings b rows) h)
    go (some r) e (inl h) = rw (h, same_settings a b rows h) e
    go (some r) e (inr h) = rw h refl

no_change : (ch : Changes) (r : MinerAccountSettings) → changes_none ch ≡ true → change ch r ≡ r
no_change ch r h = go ch.payout_threshold_sats_override ch.notify_on_payout h
  where
    go :
        (o : Option (Option ℤ)) (n : Option Bool)
        → changes_none (record { payout_threshold_sats_override = o; notify_on_payout = n }) ≡ true
        → change (record { payout_threshold_sats_override = o; notify_on_payout = n }) r ≡ r
    go none none e = refl
    go none (some b) e = absurd (ground arith)
    go (some o) n e = absurd (ground arith)

-- After a change, the account's settings are the former ones, or those of a new account, with the
-- change made to them, and all other accounts' settings are as they were.
pub get_settings-upsert_settings :
    (a b : String) (ch : Changes) (rows : Table)
    → get_settings b (upsert_settings a ch rows).1 ≡ (
        if str_eq a b
        then some (change ch (settings_or_default a (get_settings a rows)))
        else get_settings b rows)
unfolding upsert_settings
get_settings-upsert_settings a b ch rows = elim (Bool-cases (changes_none ch)) [
  | inl e ↦
      rw
        (
          e,
          get_settings-insert_settings_or_ignore a b rows,
          no_change ch (settings_or_default a (get_settings a rows)) e,
        )
        refl
  | inr e ↦
      rw
        (
          e,
          get_settings-update_settings a b ch (insert_settings_or_ignore a rows),
          get_settings-insert_settings_or_ignore a b rows,
        )
        (elim (Bool-cases (str_eq a b)) [
          | inl h ↦ rw h (ap (λ r. some r) (if_true h _ _))
          | inr h ↦ rw h (changed-other a b ch (get_settings b rows) h)
        ])
]

some_not_none : (r : MinerAccountSettings) → ¬ (some r ≡ none)
some_not_none r h = absurd (ground arith)

not_same : (a b : String) → str_eq a b ≡ false → str_eq b a ≡ false
not_same a b h = ground (arith, str_eq_iff a b, str_eq_iff b a)

IsTable-append :
    (a : String) (rows : Table)
    → get_settings a rows ≡ none
    → IsTable rows
    → IsTable (rows ++ default_settings a ∷ [])
unfolding IsTable
IsTable-append a [] h k = (refl, tt)
IsTable-append a (r ∷ rows) h k = elim (Bool-cases (str_eq r.address a)) [
  | inl e ↦ absurd (some_not_none r (rw e at h))
  | inr e ↦ (
    get_settings-append a r.address rows ∙ rw k.0 (if_false (not_same r.address a e) _ _),
    IsTable-append a rows (rw e at h) k.1,
  )
]

IsTable-update_settings :
    (a : String) (ch : Changes) (rows : Table) → IsTable rows → IsTable (update_settings a ch rows)
unfolding IsTable update_settings
IsTable-update_settings a ch [] h = tt
IsTable-update_settings a ch (r ∷ rows) h = (
  rw (change_if-address a ch r, get_settings-update_settings a r.address ch rows, h.0) refl,
  IsTable-update_settings a ch rows h.1,
)

IsTable-insert_settings_or_ignore :
    (a : String) (rows : Table) → IsTable rows → IsTable (insert_settings_or_ignore a rows)
unfolding insert_settings_or_ignore
IsTable-insert_settings_or_ignore a rows h = go (get_settings a rows) refl
  where
    go :
        (o : Option MinerAccountSettings)
        → get_settings a rows ≡ o
        → IsTable (elim o [ none ↦ rows ++ default_settings a ∷ [] | some r ↦ rows ])
    go none e = IsTable-append a rows e h
    go (some r) e = h

pub IsTable-upsert_settings :
    (a : String) (ch : Changes) (rows : Table)
    → IsTable rows
    → IsTable (upsert_settings a ch rows).1
unfolding IsTable upsert_settings
IsTable-upsert_settings a ch rows h = elim (Bool-cases (changes_none ch)) [
  | inl e ↦ rw e (IsTable-insert_settings_or_ignore a rows h)
  | inr e ↦ rw e (
      IsTable-update_settings a ch (insert_settings_or_ignore a rows)
        (IsTable-insert_settings_or_ignore a rows h))
]
