-- ===== src/Telegram/Notices.antt =====
-- Who is sent a notification.
use elektron_net_ppool.Common.{
  ℕ, ◌≤◌, ltb, ◌≡◌, refl, ℤ, eqb_ℤ, Bool, Option, some, List, [], ◌∷◌, length, filter, arith,
  if◌then◌else◌,
}
use elektron_net_ppool.Common.Js.{Text}
use elektron_net_ppool.Config.{Config}
use elektron_net_ppool.Subscriptions.{Subscription, Subscriptions, is_about, get_subscriptions}
use elektron_net_ppool.Subscriptions.Links.{links, IsTable}
use elektron_net_ppool.Telegram.Bot.{
  bot_token, if_bot, Sent, messages_to, notify_payout_sent, notify_subscribers_block_found,
}
use elektron_net_ppool.Telegram.Texts.{payout_sent_text, block_found_text}

-- How many of the messages go to a chat.
abbrev pub messages_for : ℤ → Sent → ℕ
messages_for chat sent = length (filter (λ m. eqb_ℤ m.0 chat) sent)

messages_to-links :
    (text : Text) (address : Text) (chat : ℤ) (rows : List Subscription)
    → messages_for chat (messages_to text (filter (is_about address) rows))
      ≡ links chat address rows
messages_to-links text address chat [] = refl
messages_to-links text address chat (r ∷ rows) =
    ground (arith, messages_to-links text address chat rows)

-- Whether a chat is subscribed to an address.
abbrev pub is_subscribed : ℤ → Text → List Subscription → Bool
is_subscribed chat address rows = ltb 0 (links chat address rows)

once : (n : ℕ) → n ≤ 1 → n ≡ (if ltb 0 n then 1 else 0)
once n h = ground arith

if_bot-notified :
    (o : Option Text) (token text address : Text) (chat : ℤ) (rows : List Subscription)
    → IsTable rows
    → o ≡ some token
    → messages_for chat (if_bot o (messages_to text (filter (is_about address) rows)))
      ≡ (if is_subscribed chat address rows then 1 else 0)
unfolding IsTable
if_bot-notified o token text address chat rows h e =
    rw (e, messages_to-links text address chat rows)
      (once (links chat address rows) (h chat address))

-- Where the bot is configured and no subscription is repeated, a notification about an address, of a
-- payout or of a block, goes exactly once to each chat that is subscribed to the address, and to no other.
pub notified_once :
    (config : Config) (token address : Text) (chat : ℤ) (t : Subscriptions) (amount : ℤ)
    (txid : Text) (height : ℕ) (message : Text)
    → IsTable t.rows
    → bot_token config ≡ some token
    → let expected : ℕ = if is_subscribed chat address t.rows then 1 else 0 in
      (messages_for chat (notify_payout_sent config address amount txid t) ≡ expected)
      × (messages_for chat (notify_subscribers_block_found config address height message t)
          ≡ expected)
unfolding notify_payout_sent notify_subscribers_block_found get_subscriptions
notified_once config token address chat t amount txid height message h e = (
  if_bot-notified (bot_token config) token (payout_sent_text amount txid) address chat t.rows h e,
  if_bot-notified (bot_token config) token (block_found_text message height) address chat t.rows h
      e,
)
