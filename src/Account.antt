-- ===== src/Account.antt =====
-- The settings of the miners' accounts: the table (src/ORM/miner-account-settings), the guard of its
-- routes (src/auth/jwt-auth.guard.ts) and the routes (src/controllers/miner-account). Verifying a token
-- is the JWT library's.
pub mod Settings
pub mod Guarded
pub mod Thresholds
use elektron_net_ppool.Common.{
  ℕ, zero, suc, ℤ, pos, negsuc, String, str_eq, Bool, true, false, ◌&&◌, Option, none, some, List,
  [], ◌∷◌, ◌++◌, map, length, filter, ltb, if◌then◌else◌, drop,
}
use elektron_net_ppool.Common.Js.{Text, codes, starts_with}
use elektron_net_ppool.Config.{Config, positive_setting}

-- MinerAccountSettingsEntity
pub record MinerAccountSettings : Type 0 where
  pub address : String
  pub payout_threshold_sats_override : Option ℤ
  pub notify_on_payout : Bool

abbrev pub Table : Type 0
Table = List MinerAccountSettings

abbrev pub get_settings : String → Table → Option MinerAccountSettings
get_settings a [] = none
get_settings a (r ∷ rows) = if str_eq r.address a then some r else get_settings a rows

-- What a request changes; the threshold is absent, null or a number. A null for the flag, which the
-- table refuses, is left out.
pub record Changes : Type 0 where
  pub payout_threshold_sats_override : Option (Option ℤ)
  pub notify_on_payout : Option Bool

abbrev pub or_keep {ℓ} : {A : Type ℓ} → Option A → A → A
or_keep none a = a
or_keep (some b) a = b

abbrev pub change : Changes → MinerAccountSettings → MinerAccountSettings
change ch r = record r {
  payout_threshold_sats_override =
      or_keep ch.payout_threshold_sats_override r.payout_threshold_sats_override;
  notify_on_payout = or_keep ch.notify_on_payout r.notify_on_payout;
}

-- `insert().orIgnore()`, with the columns' defaults
unfoldable pub insert_settings_or_ignore : String → Table → Table
insert_settings_or_ignore a rows = elim (get_settings a rows) [
  | none ↦
      rows
      ++ record { address = a; payout_threshold_sats_override = none; notify_on_payout = false }
        ∷ []
  | some r ↦ rows
]

abbrev pub change_if : String → Changes → MinerAccountSettings → MinerAccountSettings
change_if a ch r = if str_eq r.address a then change ch r else r

-- `repository.update({ address }, changes)`
unfoldable pub update_settings : String → Changes → Table → Table
update_settings a ch rows = map (change_if a ch) rows

abbrev pub changes_none : Changes → Bool
changes_none ch = elim ch.payout_threshold_sats_override [
  | none ↦ elim ch.notify_on_payout [ none ↦ true | some b ↦ false ]
  | some o ↦ false
]

unfoldable pub upsert_settings : String → Changes → Table → Option MinerAccountSettings × Table
unfolding insert_settings_or_ignore update_settings
upsert_settings a ch rows =
    let inserted = insert_settings_or_ignore a rows in
    let rows' = if changes_none ch then inserted else update_settings a ch inserted in
    (get_settings a rows', rows')

abbrev pub member : String → List String → Bool
member a [] = false
member a (b ∷ bs) = if str_eq b a then true else member a bs

abbrev pub with_override : MinerAccountSettings → List (String × ℤ) → List (String × ℤ)
with_override r rest = elim r.payout_threshold_sats_override [
  | none ↦ rest
  | some n ↦ (r.address, n) ∷ rest
]

abbrev pub overrides_in : List String → Table → List (String × ℤ)
overrides_in addresses [] = []
overrides_in addresses (r ∷ rows) =
    let rest = overrides_in addresses rows in
    if member r.address addresses then with_override r rest else rest

-- The map, by its pairs; without addresses there is no query.
unfoldable pub get_overrides_by_address : List String → Table → List (String × ℤ)
get_overrides_by_address [] rows = []
get_overrides_by_address (a ∷ addresses) rows = overrides_in (a ∷ addresses) rows

-- `map.get(address)`; the addresses of the table's rows are different.
abbrev pub get : List (String × ℤ) → String → Option ℤ
get [] a = none
get ((b, n) ∷ m) a = if str_eq b a then some n else get m a

abbrev pub notified : List String → Table → List String
notified addresses rows =
    map (λ r. r.address) (filter (λ r. member r.address addresses && r.notify_on_payout) rows)

unfoldable pub get_notify_on_payout_addresses : List String → Table → List String
get_notify_on_payout_addresses [] rows = []
get_notify_on_payout_addresses (a ∷ addresses) rows = notified (a ∷ addresses) rows

pub data Access : Type 0 where
  missing_token invalid_token other_address : Access
  granted : (sub : String) → Access

-- `verifyAsync(token, { secret })`: the address that the token was issued to.
abbrev pub VerifyToken : Type 0
VerifyToken = (token secret : Text) → Option String

-- `JWT_SECRET` must have 16 characters.
unfoldable pub get_jwt_secret : Config → Option Text
get_jwt_secret config = elim (config "JWT_SECRET") [
  | none ↦ none
  | some s ↦ if ltb (length (codes s)) 16 then none else some (codes s)
]

abbrev pub token_of : VerifyToken → Text → Option Text → Option String
token_of verify token none = none
token_of verify token (some secret) = verify token secret

abbrev pub access_to : Option String → Option String → Access
access_to none route = invalid_token
access_to (some sub) none = granted sub
access_to (some sub) (some address) = if str_eq address sub then granted sub else other_address

-- `canActivate`, of the request's authorization header and the address of its route.
unfoldable pub can_activate : VerifyToken → Config → Option Text → Option String → Access
unfolding get_jwt_secret
can_activate verify config none route = missing_token
can_activate verify config (some header) route =
    if starts_with header (codes "Bearer ")
    then access_to (token_of verify (drop 7 header) (get_jwt_secret config)) route
    else missing_token

-- What a request is answered: 401, 400, or the account's settings and the pool's default.
pub data Answer : Type 0 where
  unauthorized bad_request : Answer
  settings : Option ℤ → Bool → ℕ → Answer

unfoldable pub get_pool_default_threshold_sats : Config → ℕ
get_pool_default_threshold_sats config = positive_setting config "MIN_PAYOUT_THRESHOLD_SATS" 100_000

-- UpdateMinerAccountSettingsDto: a threshold that is not null is at least 1.
abbrev pub is_valid : Changes → Bool
is_valid ch = elim ch.payout_threshold_sats_override [
  | none ↦ true
  | some none ↦ true
  | some (some (pos zero)) ↦ false
  | some (some (pos (suc n))) ↦ true
  | some (some (negsuc n)) ↦ false
]

unfoldable pub answer_of : Config → Option MinerAccountSettings → Answer
unfolding get_pool_default_threshold_sats
answer_of config none = settings none false (get_pool_default_threshold_sats config)
answer_of config (some r) =
    settings r.payout_threshold_sats_override r.notify_on_payout
      (get_pool_default_threshold_sats config)

abbrev pub if_granted : Access → Table → Answer × Table → Answer × Table
if_granted (granted sub) rows result = result
if_granted _ rows result = (unauthorized, rows)

-- `GET :address/account-settings`
unfoldable pub get_account_settings :
    VerifyToken → Config → Option Text → (address : String) → Table → Answer × Table
unfolding answer_of can_activate
get_account_settings verify config header address rows =
    if_granted (can_activate verify config header (some address)) rows
      (answer_of config (get_settings address rows), rows)

unfoldable pub patched : Config → Option MinerAccountSettings × Table → Answer × Table
unfolding answer_of
patched config (r, rows) = (answer_of config r, rows)

-- `PATCH :address/account-settings`
unfoldable pub patch_account_settings :
    VerifyToken → Config → Option Text → (address : String) → Changes → Table → Answer × Table
unfolding patched upsert_settings can_activate
patch_account_settings verify config header address ch rows =
    if_granted (can_activate verify config header (some address)) rows (
      if is_valid ch then patched config (upsert_settings address ch rows) else (bad_request, rows))
