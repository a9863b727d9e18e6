-- ===== src/Notifications.antt =====
-- src/services/notification.service.ts with the Discord bot of src/services/discord.service.ts, and the
-- notices at the end of a payout cycle (src/pplns/payout-scheduler.service.ts). Discord's client is a
-- parameter: whether the guild and the channel can be fetched. What a chat is sent counts here, not
-- whether Telegram delivers it.
use elektron_net_ppool.Common.{
  ℕ, ◌+◌, ◌≡◌, refl, ◌∙◌, sym, ◌||◌, All, All-map, str_eq_iff, str_eq_refl, ℤ, String, str_eq, Bool,
  true, false, ◌&&◌, not, Bool-cases, inl, inr, Option, none, some, List, [], ◌∷◌, ◌++◌,
  if◌then◌else◌, arith,
}
use elektron_net_ppool.Common.Js.{Text, codes}
use elektron_net_ppool.Config.{Config}
use elektron_net_ppool.Account.{Table, member, notified, get_notify_on_payout_addresses}
use elektron_net_ppool.Ledger.{PendingPayoutCandidate}
use elektron_net_ppool.Scheduler.{CycleEnd, paid}
use elektron_net_ppool.Subscriptions.{Subscriptions}
use elektron_net_ppool.Subscriptions.Links.{IsTable}
use elektron_net_ppool.Telegram.Bot.{
  Sent, bot_token, notify_payout_sent, notify_subscribers_block_found,
}
use elektron_net_ppool.Telegram.Texts.{block_found_text}
use elektron_net_ppool.Telegram.Notices.{messages_for, is_subscribed, notified_once}

-- `NODE_APP_INSTANCE == null || NODE_APP_INSTANCE == '0'`
abbrev pub is_first_instance : Option String → Bool
is_first_instance none = true
is_first_instance (some instance_id) = str_eq instance_id "0"

abbrev pub is_set : Option String → Bool
is_set none = false
is_set (some s) = not (str_eq s "")

-- The bot exists where all four settings are there.
unfoldable pub has_discord_bot : Config → Option String → Bool
has_discord_bot config instance_id =
    is_first_instance instance_id
    && is_set (config "DISCORD_BOT_TOKEN")
    && is_set (config "DISCORD_BOT_CLIENTID")
    && is_set (config "DISCORD_BOT_GUILD_ID")
    && is_set (config "DISCORD_BOT_CHANNEL_ID")

-- What a call does at Discord: nothing, a message, or an exception of `fetch`.
pub data DiscordCall : Type 0 where
  silent failed : DiscordCall
  posted : Text → DiscordCall

abbrev pub post : (has_bot fetches : Bool) → Text → DiscordCall
post false fetches text = silent
post true false text = failed
post true true text = posted text

unfoldable pub discord_block_found :
    Config → Option String → (fetches : Bool) → ℕ → Text → DiscordCall
unfolding has_discord_bot
discord_block_found config instance_id fetches height message =
    post (has_discord_bot config instance_id) fetches (block_found_text message height)

unfoldable pub notify_restarted : Config → Option String → (fetches : Bool) → DiscordCall
unfolding has_discord_bot
notify_restarted config instance_id fetches =
    post (has_discord_bot config instance_id) fetches (codes "Server Restarted.")

-- Telegram comes after Discord, and not at all where that has thrown.
abbrev pub then_telegram : DiscordCall → Sent → DiscordCall × Sent
then_telegram silent sent = (silent, sent)
then_telegram failed sent = (failed, [])
then_telegram (posted text) sent = (posted text, sent)

unfoldable pub notify_block_found :
    Config
    → Option String
    → (fetches : Bool) → (address : Text) → ℕ
    → (message : Text) → Subscriptions
    → DiscordCall × Sent
unfolding discord_block_found notify_subscribers_block_found
notify_block_found config instance_id fetches address height message t =
    then_telegram (discord_block_found config instance_id fetches height message)
      (notify_subscribers_block_found config address height message t)

-- The notices for the candidates whose address is in the set.
abbrev pub notices :
    Config → List String → (txid : Text) → Subscriptions → List PendingPayoutCandidate → Sent
notices config opted txid t [] = []
notices config opted txid t (c ∷ cs) =
    let rest = notices config opted txid t cs in
    if member c.miner_address opted
    then notify_payout_sent config (codes c.miner_address) c.total_pending_sats txid t ++ rest
    else rest

abbrev pub addresses_of : List PendingPayoutCandidate → List String
addresses_of [] = []
addresses_of (c ∷ cs) = c.miner_address ∷ addresses_of cs

-- What a cycle sends when it has ended; only one that has paid sends anything.
unfoldable pub notify_cycle : Config → Table → Subscriptions → CycleEnd → Sent
unfolding get_notify_on_payout_addresses notify_payout_sent
notify_cycle config accounts t (paid txid candidates) =
    notices config (get_notify_on_payout_addresses (addresses_of candidates) accounts) (codes txid)
      t candidates
notify_cycle config accounts t ending = []

-- Whether an account of the table is of an address and has asked for notices.
unfoldable pub wants_notices : String → Table → Bool
wants_notices a [] = false
wants_notices a (r ∷ rows) = (str_eq r.address a && r.notify_on_payout) || wants_notices a rows

-- The candidates whose account wants notices and whose address the chat is subscribed to.
unfoldable pub wanted : Table → ℤ → Subscriptions → List PendingPayoutCandidate → ℕ
wanted accounts chat t [] = 0
wanted accounts chat t (c ∷ cs) =
    (if wants_notices c.miner_address accounts && is_subscribed chat (codes c.miner_address) t.rows
      then 1
      else 0)
    + wanted accounts chat t cs

member-notified :
    (a : String) (addresses : List String) (rows : Table)
    → member a (notified addresses rows) ≡ (member a addresses && wants_notices a rows)
unfolding wants_notices
member-notified a addresses [] = ground arith
member-notified a addresses (r ∷ rows) = elim (Bool-cases (str_eq r.address a)) [
  | inl e ↦
      rw ((str_eq_iff r.address a).0 e, str_eq_refl a)
        (ground (arith, member-notified a addresses rows, str_eq_refl a))
  | inr e ↦ rw e (ground (arith, member-notified a addresses rows, e))
]

-- The set of the query agrees with the table on some candidates.
abbrev Agrees : List String → Table → List PendingPayoutCandidate → Type 0
Agrees opted accounts cs =
    All (λ c. member c.miner_address opted ≡ wants_notices c.miner_address accounts) cs

listed :
    (a : String) (addresses : List String) (cs : List PendingPayoutCandidate)
    → All (λ c. member c.miner_address addresses ≡ true) cs
    → All (λ c. member c.miner_address (a ∷ addresses) ≡ true) cs
listed a addresses [] h = tt
listed a addresses (c ∷ cs) h = (ground (arith, h.0), listed a addresses cs h.1)

all_listed :
    (cs : List PendingPayoutCandidate)
    → All (λ c. member c.miner_address (addresses_of cs) ≡ true) cs
all_listed [] = tt
all_listed (c ∷ cs) = (
  rw (str_eq_refl c.miner_address) refl,
  listed c.miner_address (addresses_of cs) cs (all_listed cs),
)

get_notify_on_payout_addresses-Agrees :
    (accounts : Table) (cs : List PendingPayoutCandidate)
    → Agrees (get_notify_on_payout_addresses (addresses_of cs) accounts) accounts cs
unfolding get_notify_on_payout_addresses
get_notify_on_payout_addresses-Agrees accounts [] = tt
get_notify_on_payout_addresses-Agrees accounts (c ∷ cs) =
    All-map (λ d. member d.miner_address (addresses_of (c ∷ cs)) ≡ true) _ (c ∷ cs)
      (λ d h. member-notified d.miner_address (addresses_of (c ∷ cs)) accounts ∙ rw h refl)
      (all_listed (c ∷ cs))

messages_for-append :
    (chat : ℤ) (a b : Sent) → messages_for chat (a ++ b) ≡ messages_for chat a + messages_for chat b
messages_for-append chat [] b = omega arith
messages_for-append chat (m ∷ a) b = ground (arith, messages_for-append chat a b)

notices-wanted :
    (config : Config) (token : Text) (opted : List String) (txid : Text) (chat : ℤ)
    (t : Subscriptions) (accounts : Table) (cs : List PendingPayoutCandidate)
    → IsTable t.rows
    → bot_token config ≡ some token
    → Agrees opted accounts cs
    → messages_for chat (notices config opted txid t cs) ≡ wanted accounts chat t cs
unfolding wanted
notices-wanted config token opted txid chat t accounts [] h e k = refl
notices-wanted config token opted txid chat t accounts (c ∷ cs) h e k =
    let rest = notices-wanted config token opted txid chat t accounts cs h e k.1 in
    elim (Bool-cases (member c.miner_address opted)) [
      | inl opted_in ↦
          rw
            (
              opted_in,
              sym k.0 ∙ opted_in,
              messages_for-append chat
                  (notify_payout_sent config (codes c.miner_address) c.total_pending_sats txid t)
                  (notices config opted txid t cs),
              (notified_once config token (codes c.miner_address) chat t c.total_pending_sats txid 0
                  [] h e).0,
              rest,
            )
            refl
      | inr opted_out ↦ rw (opted_out, sym k.0 ∙ opted_out) (rest ∙ omega arith)
    ]

-- Where the bot is configured and no subscription is repeated, a payout cycle that has paid sends a chat
-- exactly one message for each miner that it has paid, of whom the table has an account with
-- `notify_on_payout`, and to whose address the chat is subscribed.
pub notify_cycle-wanted :
    (config : Config) (token : Text) (accounts : Table) (t : Subscriptions) (chat : ℤ)
    (txid : String) (candidates : List PendingPayoutCandidate)
    → IsTable t.rows
    → bot_token config ≡ some token
    → messages_for chat (notify_cycle config accounts t (paid txid candidates))
      ≡ wanted accounts chat t candidates
unfolding notify_cycle
notify_cycle-wanted config token accounts t chat txid candidates h e =
    notices-wanted config token (get_notify_on_payout_addresses (addresses_of candidates) accounts)
      (codes txid) chat t accounts candidates h e
      (get_notify_on_payout_addresses-Agrees accounts candidates)
