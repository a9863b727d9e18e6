-- ===== src/Account/Guarded.antt =====
-- What a request to the routes of an account can do.
use elektron_net_ppool.Common.{
  zero, suc, ℤ, pos, negsuc, ◌≤ℤ◌, ◌⊎◌, ◌≡◌, ◌≢◌, refl, sym, ap, ◌∙◌, String, str_eq, str_eq_iff,
  Bool, true, false, Option, none, some, [], ◌∷◌, ◌++◌, if◌then◌else◌, arith, Bool-cases, inl, inr,
  All, All-append, drop,
}
use elektron_net_ppool.Common.Js.{Text, codes, starts_with}
use elektron_net_ppool.Config.{Config}
use elektron_net_ppool.Account.{
  MinerAccountSettings, Table, get_settings, Changes, or_keep, change, insert_settings_or_ignore,
  change_if, update_settings, changes_none, upsert_settings, Access, granted, other_address,
  missing_token, invalid_token, if_granted, VerifyToken, get_jwt_secret, token_of, access_to,
  can_activate, Answer, unauthorized, bad_request, is_valid, answer_of, patched,
  patch_account_settings,
}
use elektron_net_ppool.Account.Settings.{
  IsTable, default_settings, get_settings-upsert_settings, IsTable-upsert_settings,
}

-- A threshold of an account is above 0.
unfoldable pub IsThreshold : Option ℤ → Type 0
IsThreshold none = Unit
IsThreshold (some n) = pos 1 ≤ℤ n

abbrev pub HasThreshold : MinerAccountSettings → Type 0
unfolding IsThreshold
HasThreshold r = IsThreshold r.payout_threshold_sats_override

-- The table that the routes keep: one row of an address, and thresholds above 0.
unfoldable pub IsSound : Table → Type 0
unfolding IsTable
IsSound rows = IsTable rows × All HasThreshold rows

-- The header carries a token for the address, signed with a secret that is long enough.
unfoldable pub HasToken : VerifyToken → Config → Option Text → String → Type 0
HasToken verify config none a = ⊥
HasToken verify config (some header) a =
    (starts_with header (codes "Bearer ") ≡ true)
    × (token_of verify (drop 7 header) (get_jwt_secret config) ≡ some a)

granted_to : Access → String → String
granted_to (granted sub) a = sub
granted_to _ a = a

same_name : {a b : String} → granted a ≡ granted b → b ≡ a
unfolding granted_to
same_name {a} {b} h = sym (ap (λ x. granted_to x a) h)

not_granted : {b : String} → ¬ (other_address ≡ granted b)
not_granted h = absurd (ground arith)

missing_not_granted : {b : String} → ¬ (missing_token ≡ granted b)
missing_not_granted h = absurd (ground arith)

access_to-granted :
    (o : Option String) (a b : String) → access_to o (some a) ≡ granted b → (o ≡ some a) × (b ≡ a)
access_to-granted none a b h = absurd (ground arith)
access_to-granted (some sub) a b h = elim (Bool-cases (str_eq a sub)) [
  | inl e ↦ (
    ap (λ x. some x) (sym ((str_eq_iff a sub).0 e)),
    same_name (rw e at h) ∙ sym ((str_eq_iff a sub).0 e),
  )
  | inr e ↦ absurd (not_granted (rw e at h))
]

can_activate-HasToken :
    (verify : VerifyToken) (config : Config) (header : Option Text) (a b : String)
    → can_activate verify config header (some a) ≡ granted b
    → HasToken verify config header a
unfolding can_activate HasToken
can_activate-HasToken verify config none a b h = absurd (ground arith)
can_activate-HasToken verify config (some header) a b h =
    elim (Bool-cases (starts_with header (codes "Bearer "))) [
      | inl e ↦ (
        e,
        (access_to-granted (token_of verify (drop 7 header) (get_jwt_secret config)) a b
            (rw e at h)).0,
      )
      | inr e ↦ absurd (missing_not_granted (rw e at h))
    ]

change-IsThreshold :
    (ch : Changes) (r : MinerAccountSettings)
    → is_valid ch ≡ true
    → HasThreshold r
    → HasThreshold (change ch r)
unfolding IsThreshold
change-IsThreshold ch r h k = go ch.payout_threshold_sats_override ch.notify_on_payout h
  where
    go :
        (o : Option (Option ℤ)) (n : Option Bool)
        → is_valid (record { payout_threshold_sats_override = o; notify_on_payout = n }) ≡ true
        → IsThreshold (or_keep o r.payout_threshold_sats_override)
    go none n e = k
    go (some none) n e = tt
    go (some (some (pos zero))) n e = absurd (ground arith)
    go (some (some (pos (suc m)))) n e = omega arith
    go (some (some (negsuc m))) n e = absurd (ground arith)

insert_settings_or_ignore-HasThreshold :
    (a : String) (rows : Table)
    → All HasThreshold rows
    → All HasThreshold (insert_settings_or_ignore a rows)
unfolding insert_settings_or_ignore IsThreshold
insert_settings_or_ignore-HasThreshold a rows h = go (get_settings a rows)
  where
    go :
        (o : Option MinerAccountSettings)
        → All HasThreshold (elim o [ none ↦ rows ++ default_settings a ∷ [] | some r ↦ rows ])
    go none = All-append HasThreshold rows (default_settings a ∷ []) h (tt, tt)
    go (some r) = h

change_if-HasThreshold :
    (a : String) (ch : Changes) (r : MinerAccountSettings)
    → is_valid ch ≡ true
    → HasThreshold r
    → HasThreshold (change_if a ch r)
change_if-HasThreshold a ch r v h = elim (Bool-cases (str_eq r.address a)) [
  | inl e ↦ rw e (change-IsThreshold ch r v h)
  | inr e ↦ rw e h
]

update_settings-HasThreshold :
    (a : String) (ch : Changes) (rows : Table)
    → is_valid ch ≡ true
    → All HasThreshold rows
    → All HasThreshold (update_settings a ch rows)
unfolding update_settings
update_settings-HasThreshold a ch [] v h = tt
update_settings-HasThreshold a ch (r ∷ rows) v h =
    (change_if-HasThreshold a ch r v h.0, update_settings-HasThreshold a ch rows v h.1)

upsert_settings-HasThreshold :
    (a : String) (ch : Changes) (rows : Table)
    → is_valid ch ≡ true
    → All HasThreshold rows
    → All HasThreshold (upsert_settings a ch rows).1
unfolding upsert_settings
upsert_settings-HasThreshold a ch rows v h = elim (Bool-cases (changes_none ch)) [
  | inl e ↦ rw e (insert_settings_or_ignore-HasThreshold a rows h)
  | inr e ↦ rw e (
      update_settings-HasThreshold a ch (insert_settings_or_ignore a rows) v
        (insert_settings_or_ignore-HasThreshold a rows h))
]

upsert_settings-IsSound :
    (a : String) (ch : Changes) (rows : Table)
    → is_valid ch ≡ true
    → IsSound rows
    → IsSound (upsert_settings a ch rows).1
unfolding IsSound
upsert_settings-IsSound a ch rows v h =
    (IsTable-upsert_settings a ch rows h.0, upsert_settings-HasThreshold a ch rows v h.1)

-- What holds of the answer to a request of an account and of the table after it.
unfoldable pub IsGuarded :
    VerifyToken → Config → Option Text → String → Table → Answer × Table → Type 0
unfolding IsSound HasToken
IsGuarded verify config header a rows (answer, rows') =
    ((answer ≢ unauthorized) → HasToken verify config header a)
    × ((answer ≡ unauthorized) ⊎ (answer ≡ bad_request) → rows' ≡ rows)
    × ((b : String) → str_eq a b ≡ false → get_settings b rows' ≡ get_settings b rows)
    × (IsSound rows → IsSound rows')

refused-IsGuarded :
    (verify : VerifyToken) (config : Config) (header : Option Text) (a : String) (rows : Table)
    → IsGuarded verify config header a rows (unauthorized, rows)
unfolding IsGuarded
refused-IsGuarded verify config header a rows =
    (λ h. absurd (h refl), λ r. refl, λ c d. refl, λ k. k)

answer_of-settings :
    (config : Config) (o : Option MinerAccountSettings)
    → ¬ ((answer_of config o ≡ unauthorized) ⊎ (answer_of config o ≡ bad_request))
unfolding answer_of
answer_of-settings config none (inl e) = absurd (ground arith)
answer_of-settings config none (inr e) = absurd (ground arith)
answer_of-settings config (some r) (inl e) = absurd (ground arith)
answer_of-settings config (some r) (inr e) = absurd (ground arith)

-- A request that patches the settings of an account is answered otherwise than with 401 only when it
-- carries a token for this very address that is signed with a configured secret. A refused or
-- malformed request leaves the table as it is, no request touches the settings of another address,
-- and each keeps one row of an address and thresholds above 0.
pub patch_account_settings-IsGuarded :
    (verify : VerifyToken) (config : Config) (header : Option Text) (a : String) (ch : Changes)
    (rows : Table)
    → IsGuarded verify config header a rows (patch_account_settings verify config header a ch rows)
unfolding patch_account_settings patched IsGuarded IsSound
patch_account_settings-IsGuarded verify config header a ch rows =
    go (can_activate verify config header (some a)) (can_activate-HasToken verify config header a)
      (Bool-cases (is_valid ch))
  where
    go :
        (access : Access)
        → ((b : String) → access ≡ granted b → HasToken verify config header a)
        → (is_valid ch ≡ true) ⊎ (is_valid ch ≡ false)
        → IsGuarded verify config header a rows (
            if_granted access rows (
              if is_valid ch
              then patched config (upsert_settings a ch rows)
              else (bad_request, rows)))
    go missing_token h v = refused-IsGuarded verify config header a rows
    go invalid_token h v = refused-IsGuarded verify config header a rows
    go other_address h v = refused-IsGuarded verify config header a rows
    go (granted b) h (inl v) = rw v (
      λ _. h b refl,
      λ r. absurd (answer_of-settings config (upsert_settings a ch rows).0 r),
      λ c d. get_settings-upsert_settings a c ch rows ∙ rw d refl,
      upsert_settings-IsSound a ch rows v,
    )
    go (granted b) h (inr v) = rw v (λ _. h b refl, λ r. refl, λ c d. refl, λ k. k)
