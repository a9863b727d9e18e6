-- ===== src/Telegram.antt =====
-- src/services/telegram.service.ts, with the service of the subscriptions: the bot's commands, its polls
-- and its notifications. The Telegram server is a parameter; what it is sent is a list, newest first.
-- The address check and the ledger are the services of their own modules; console lines are left out.
pub mod Texts
pub mod Bot
pub mod Commands
pub mod Polls
pub mod Notices
use elektron_net_ppool.Common.{
  ℕ, suc, ◌+◌, ◌/◌, ◌%◌, ℤ, pos, negsuc, Bool, true, false, Option, none, some, List, [], ◌∷◌, ◌++◌,
  map, drop, ltb, ◌==◌, length, if◌then◌else◌, String,
}
use elektron_net_ppool.Common.Js.{Text, codes, starts_with, trim}
use elektron_net_ppool.WalletRpc.{decimal, digit}
use elektron_net_ppool.Config.{Config}
use elektron_net_ppool.Network.{BitcoinLibrary, is_valid_address}
use elektron_net_ppool.Subscriptions.{
  Subscription, Subscriptions, get_subscriptions, get_subscriptions_for_chat, save_subscription,
  remove_subscription, remove_all_subscriptions,
}

-- `msg.text` and `msg.chat.id`
pub record Msg : Type 0 where
  pub text : Option Text
  pub chat_id : ℤ

pub record Update : Type 0 where
  pub update_id : ℕ
  pub message : Option Msg

-- What the bot answers to a command.
pub data Reply : Type 0 where
  unsubscribed_all : ℕ → Reply
  not_subscribed : Reply
  unsubscribed not_subscribed_to : Text → Reply
  invalid_address : Reply
  subscribed : Option Text → Reply
  listed : List Text → Reply
  none_listed : Reply
  balance_usage : Reply
  balance : Option Text → ℤ → Reply
  help : Reply

-- Everything behind the command, trimmed; `none` is `undefined`.
abbrev pub if_any : Text → Option Text
if_any [] = none
if_any (c ∷ rest) = some (c ∷ rest)

unfoldable pub extract_arg : Text → Text → Option Text
extract_arg text command = if_any (trim (drop (length command) text))

-- What the commands ask of the rest of the program.
pub record Services : Type 0 where
  pub config : Config
  pub library : BitcoinLibrary
  -- `payoutLedgerService.getPendingTotal`
  pub get_pending_total : Text → ℤ

unfoldable pub unsubscribe : ℤ → Option Text → Subscriptions → Reply × Subscriptions
unsubscribe chat none t =
    let (removed, t') = remove_all_subscriptions chat t in
    (if ltb 0 removed then unsubscribed_all removed else not_subscribed, t')
unsubscribe chat (some address) t =
    let (removed, t') = remove_subscription chat address t in
    (if removed then unsubscribed address else not_subscribed_to address, t')

abbrev pub save_if : ℤ → Option Text → Subscriptions → Subscriptions
save_if chat none t = t
save_if chat (some address) t = save_subscription chat address t

unfoldable pub subscribe : Services → ℤ → Option Text → Subscriptions → Reply × Subscriptions
subscribe services chat address t =
    if is_valid_address services.library services.config address
    then (subscribed address, save_if chat address t)
    else (invalid_address, t)

abbrev pub list_of : List Subscription → Reply
list_of [] = none_listed
list_of (r ∷ rows) = listed (map (λ s. s.address) (r ∷ rows))

abbrev pub pending_of : Services → Option Text → ℤ
pending_of services none = pos 0
pending_of services (some address) = services.get_pending_total address

unfoldable pub balance_reply : Services → Option Text → Reply
balance_reply services address =
    if is_valid_address services.library services.config address
    then balance address (pending_of services address)
    else balance_usage

-- The branches of `handleMessage` that only read; no reply where no command fits.
unfoldable pub query : Services → ℤ → Text → Subscriptions → Option Reply
unfolding extract_arg balance_reply
query services chat text t =
    if starts_with text (codes "/list")
    then some (list_of (get_subscriptions_for_chat chat t))
    else if starts_with text (codes "/balance")
    then some (balance_reply services (extract_arg text (codes "/balance")))
    else if starts_with text (codes "/help")
    then some help
    else if starts_with text (codes "/start")
    then some help
    else none

abbrev pub replied : Reply × Subscriptions → Option Reply × Subscriptions
replied (reply, t) = (some reply, t)

-- The branches of `handleMessage` on the trimmed text.
unfoldable pub command : Services → ℤ → Text → Subscriptions → Option Reply × Subscriptions
unfolding unsubscribe subscribe extract_arg query
command services chat text t =
    if starts_with text (codes "/unsubscribe")
    then replied (unsubscribe chat (extract_arg text (codes "/unsubscribe")) t)
    else if starts_with text (codes "/subscribe")
    then replied (subscribe services chat (extract_arg text (codes "/subscribe")) t)
    else (query services chat text t, t)
