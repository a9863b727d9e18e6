-- ===== src/Tests/Accounts.antt =====
-- The claims about accounts and the pool registry at concrete inputs.
use elektron_net_ppool.Common.{pos, ◌≡◌, true, none, some, [], ◌∷◌, arith}
use elektron_net_ppool.Common.Js.{codes}
use elektron_net_ppool.Config.{Config}
use elektron_net_ppool.Account.{Table, Changes, VerifyToken, patch_account_settings}
use elektron_net_ppool.Account.Guarded.{IsGuarded, patch_account_settings-IsGuarded}
use elektron_net_ppool.Registry.{FoundBlocks, was_recently_found}
use elektron_net_ppool.Registry.Recent.{
  recorded, InOrder, found_lately, was_recently_found-found_lately,
}

-- Alice has a threshold of her own.
abbrev accounts : Table
accounts =
    record {
      address = "alice";
      payout_threshold_sats_override = some (pos 20_000);
      notify_on_payout = true;
    }
    ∷ []

abbrev raise_threshold : Changes
raise_threshold = record {
  payout_threshold_sats_override = some (some (pos 50_000));
  notify_on_payout = none;
}

-- A secret of 16 characters, and a token that names its address.
abbrev secret : Config
secret key = some "0123456789abcdef"

abbrev verify : VerifyToken
verify token key = some "alice"

patch_account_settings-IsGuarded_example :
    IsGuarded verify secret (some (codes "Bearer x")) "alice" accounts (
      patch_account_settings verify secret
        (some (codes "Bearer x"))
        "alice"
        raise_threshold
        accounts)
patch_account_settings-IsGuarded_example =
    patch_account_settings-IsGuarded verify secret (some (codes "Bearer x")) "alice" raise_threshold
      accounts

-- The same block twice, and another one long before.
abbrev history : FoundBlocks
history = (codes "AB", 9_000_000) ∷ (codes "ab", 8_000_000) ∷ (codes "cd", 1000) ∷ []

was_recently_found-found_lately_example :
    (was_recently_found 9_100_000 (codes "Ab") (recorded history)).0
    ≡ found_lately 9_100_000 (codes "Ab") history
unfolding InOrder
was_recently_found-found_lately_example =
    was_recently_found-found_lately 9_100_000 (codes "Ab") history
      (omega arith, (omega arith, (omega arith, tt)))
