-- ===== src/Telegram/Bot.antt =====
-- The bot's state and the messages that it sends: `handleMessage`, `pollUpdates` and the notifications.
-- A poll is a request at a tick of the timer and an answer later; the requests under way are kept with
-- their offsets.
use elektron_net_ppool.Common.{
  ℕ, suc, ◌+◌, ℤ, Bool, true, false, Option, none, some, List, [], ◌∷◌, map, ltb, ◌==◌,
  if◌then◌else◌,
}
use elektron_net_ppool.Common.Js.{Text, trim, codes}
use elektron_net_ppool.Config.{Config}
use elektron_net_ppool.Subscriptions.{Subscription, Subscriptions, get_subscriptions}
use elektron_net_ppool.Telegram.{Msg, Update, Reply, Services, command}
use elektron_net_ppool.Telegram.Texts.{text_of, block_found_text, payout_sent_text}

-- A request that was rejected, with the status of the answer if there was one.
pub record Failure : Type 0 where
  pub status : Option ℕ

-- `chat_id` and `text` of `sendMessage`
abbrev pub Sent : Type 0
Sent = List (ℤ × Text)

-- Whether the last of the messages is rejected.
abbrev pub Deliver : Type 0
Deliver = Sent → Option Failure

pub record TelegramService : Type 0 where
  pub update_offset : ℕ
  pub conflict_backoff_until : ℕ
  pub is_polling : Bool
  -- the offsets of the `getUpdates` requests under way
  pub requests : List ℕ
  pub table : Subscriptions
  pub sent : Sent
  -- the updates that `handleMessage` was called for, newest first
  pub handled : List ℕ

abbrev pub conflict_pause_ms : ℕ
conflict_pause_ms = 60_000

-- The token of the configuration; without one there is no bot.
unfoldable pub bot_token : Config → Option Text
bot_token config = elim (config "TELEGRAM_BOT_TOKEN") [
  | none ↦ none
  | some s ↦ elim (trim (codes s)) [ [] ↦ none | c ∷ rest ↦ some (c ∷ rest) ]
]

abbrev pub send_reply :
    Deliver → ℤ → Option Reply × Subscriptions → TelegramService → Option Failure × TelegramService
send_reply deliver chat (none, t) s = (none, record s { table = t })
send_reply deliver chat (some reply, t) s =
    let sent = (chat, text_of reply) ∷ s.sent in (deliver sent, record s { table = t; sent = sent })

abbrev pub handle_text :
    Services → Deliver → ℤ → Option Text → TelegramService → Option Failure × TelegramService
handle_text services deliver chat none s = (none, s)
handle_text services deliver chat (some text) s =
    send_reply deliver chat (command services chat (trim text) s.table) s

-- `msg?.text == null`, then the command. A rejected `sendMessage` is thrown.
unfoldable pub handle_message :
    Services → Deliver → Option Msg → TelegramService → Option Failure × TelegramService
unfolding command
handle_message services deliver none s = (none, s)
handle_message services deliver (some msg) s = handle_text services deliver msg.chat_id msg.text s

-- The loop over the updates: the offset moves before the message is handled.
abbrev pub take_update : Update → TelegramService → TelegramService
take_update u s = record s { update_offset = suc u.update_id; handled = u.update_id ∷ s.handled }

unfoldable pub handle_updates :
    Services → Deliver → List Update → TelegramService → Option Failure × TelegramService
unfolding handle_message
handle_updates services deliver [] s = (none, s)
handle_updates services deliver (u ∷ updates) s =
    let (failure, s') = handle_message services deliver u.message (take_update u s) in
    elim failure [ some e ↦ (some e, s') | none ↦ handle_updates services deliver updates s' ]

-- The `catch`: a conflict pauses the polls.
abbrev pub is_conflict : Failure → Bool
is_conflict e = elim e.status [ none ↦ false | some status ↦ status == 409 ]

abbrev pub back_off : (now : ℕ) → Option Failure × TelegramService → TelegramService
back_off now (none, s) = s
back_off now (some e, s) =
    if is_conflict e then record s { conflict_backoff_until = now + conflict_pause_ms } else s

-- A tick of the timer: the two guards, then the request.
unfoldable pub start_poll : (now : ℕ) → TelegramService → TelegramService
start_poll now s =
    if ltb now s.conflict_backoff_until
    then s
    else if s.is_polling
    then s
    else record s { is_polling = true; requests = s.update_offset ∷ s.requests }

-- What `getUpdates` answers to an offset, or its failure.
pub data Answer : Type 0 where
  updates : List Update → Answer
  rejected : Failure → Answer

abbrev pub react : Services → Deliver → Answer → TelegramService → Option Failure × TelegramService
react services deliver (rejected e) s = (some e, s)
react services deliver (updates us) s = handle_updates services deliver us s

abbrev pub finish_request :
    Services
    → Deliver
    → (server : ℕ → Answer) → (now : ℕ) → (requests : List ℕ) → TelegramService
    → TelegramService
finish_request services deliver server now [] s = s
finish_request services deliver server now (offset ∷ others) s =
    let s' =
      back_off now (react services deliver (server offset) (record s { requests = others })) in
    record s' { is_polling = false }

-- The answer to a request under way, and the `finally`.
unfoldable pub finish_poll :
    Services → Deliver → (server : ℕ → Answer) → (now : ℕ) → TelegramService → TelegramService
unfolding handle_updates
finish_poll services deliver server now s = finish_request services deliver server now s.requests s

abbrev pub messages_to : Text → List Subscription → Sent
messages_to text rows = map (λ r. (r.telegram_chat_id, text)) rows

-- Nothing is sent without a bot.
abbrev pub if_bot : Option Text → Sent → Sent
if_bot none sent = []
if_bot (some token) sent = sent

unfoldable pub notify_payout_sent : Config → Text → ℤ → Text → Subscriptions → Sent
notify_payout_sent config address amount txid t =
    if_bot (bot_token config)
      (messages_to (payout_sent_text amount txid) (get_subscriptions address t))

unfoldable pub notify_subscribers_block_found : Config → Text → ℕ → Text → Subscriptions → Sent
notify_subscribers_block_found config address height message t =
    if_bot (bot_token config)
      (messages_to (block_found_text message height) (get_subscriptions address t))
