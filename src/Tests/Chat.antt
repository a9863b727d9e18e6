-- ===== src/Tests/Chat.antt =====
-- The claims about the Telegram bot and the notices at concrete inputs.
use elektron_net_ppool.Common.{
  ℕ, zero, suc, ◌≡◌, refl, subst, ℤ, pos, negsuc, eqb_ℤ, str_eq, Bool-cases, inl, inr, true, false,
  none, some, List, [], ◌∷◌, arith, if◌then◌else◌,
}
use elektron_net_ppool.Common.Js.{Text, codes}
use elektron_net_ppool.Config.{Config}
use elektron_net_ppool.Account.{Table}
use elektron_net_ppool.Ledger.{PendingPayoutCandidate}
use elektron_net_ppool.Network.{elektron_regtest}
use elektron_net_ppool.Scheduler.{paid}
use elektron_net_ppool.Subscriptions.{Subscription, Subscriptions, is_link}
use elektron_net_ppool.Subscriptions.Links.{links, IsTable}
use elektron_net_ppool.Telegram.{Update, Services, command}
use elektron_net_ppool.Telegram.Bot.{Deliver, TelegramService, Answer, updates, bot_token}
use elektron_net_ppool.Telegram.Commands.{apply, effect_of, command-Refines}
use elektron_net_ppool.Telegram.Polls.{
  Ascending, IsServer, IsBot, Descending, Event, tick, answered, live, Serves, live-IsBot,
}
use elektron_net_ppool.Telegram.Notices.{messages_for}
use elektron_net_ppool.Notifications.{notify_cycle, wanted, notify_cycle-wanted}

abbrev settings : Config
settings key =
    if str_eq key "NETWORK"
    then some "mainnet"
    else if str_eq key "TELEGRAM_BOT_TOKEN"
    then some " 123:abc "
    else none

abbrev services : Services
services = record {
  config = settings;
  library = record {
    bitcoin = elektron_regtest;
    testnet = elektron_regtest;
    regtest = elektron_regtest;
    to_output_script = λ address network. true;
  };
  get_pending_total = λ address. pos 7;
}

-- A chat and a group, both subscribed to one miner.
abbrev chat_row : Subscription
chat_row = record { id = 1; address = codes "alice"; telegram_chat_id = pos 11 }

abbrev group_row : Subscription
group_row = record { id = 2; address = codes "alice"; telegram_chat_id = negsuc 4 }

abbrev table : Subscriptions
table = record { rows = chat_row ∷ group_row ∷ []; next_id = 3 }

table-IsTable : IsTable table.rows
unfolding IsTable
table-IsTable (pos n) a = elim (Bool-cases (is_link (pos n) a chat_row)) [
  | inl e ↦ rw e (omega arith)
  | inr e ↦ rw e (omega arith)
]
table-IsTable (negsuc n) a = elim (Bool-cases (is_link (negsuc n) a group_row)) [
  | inl e ↦ rw e (omega arith)
  | inr e ↦ rw e (omega arith)
]

command-Refines_example :
    let rows' = (command services (pos 11) (codes "/subscribe alice") table).1.rows in
    IsTable rows'
    × ((c : ℤ) (a : Text)
        → links c a rows'
          ≡ apply
              (effect_of services (codes "/subscribe alice"))
              (pos 11)
              (λ d b. links d b table.rows)
              c
              a)
    × ((c : ℤ) (a : Text) → eqb_ℤ c (pos 11) ≡ false → links c a rows' ≡ links c a table.rows)
command-Refines_example =
    command-Refines services (pos 11) (codes "/subscribe alice") table table-IsTable

abbrev bot : TelegramService
bot = record {
  update_offset = 0;
  conflict_backoff_until = 0;
  is_polling = false;
  requests = [];
  table = table;
  sent = [];
  handled = [];
}

-- Two updates, of which a request from the second on gets the second alone.
abbrev first : Update
first = record {
  update_id = 5;
  message = some (record { text = some (codes " /list "); chat_id = pos 11 });
}

abbrev second : Update
second = record {
  update_id = 6;
  message = some (record { text = some (codes "/unsubscribe"); chat_id = pos 11 });
}

abbrev server : ℕ → Answer
server zero = updates (first ∷ second ∷ [])
server (suc offset) = updates []

abbrev deliver : Deliver
deliver sent = none

-- The second tick comes before the first answer.
abbrev events : List Event
events = tick 10 ∷ tick 20 ∷ answered server 30 ∷ tick 40 ∷ answered server 50 ∷ []

updates_eq : (us vs : List Update) → updates us ≡ updates vs → us ≡ vs
updates_eq us vs e = ground (arith, e)

server-IsServer : IsServer server
unfolding IsServer Ascending
server-IsServer zero us e =
    subst (Ascending 0) (updates_eq (first ∷ second ∷ []) us e) (omega arith, (omega arith, tt))
server-IsServer (suc offset) us e = subst (Ascending (suc offset)) (updates_eq [] us e) tt

live-IsBot_example : IsBot (live services deliver events bot)
unfolding Serves Descending
live-IsBot_example =
    live-IsBot services deliver events bot
      (tt, (tt, (server-IsServer, (tt, (server-IsServer, tt)))))
      (record { once = tt; one_request = refl; table = table-IsTable })

abbrev accounts : Table
accounts =
    record { address = "alice"; payout_threshold_sats_override = none; notify_on_payout = true }
    ∷ record { address = "bob"; payout_threshold_sats_override = none; notify_on_payout = false }
    ∷ []

abbrev candidates : List PendingPayoutCandidate
candidates =
    record { miner_address = "alice"; total_pending_sats = pos 150_000; max_row_id = 1 }
    ∷ record { miner_address = "bob"; total_pending_sats = pos 40_000; max_row_id = 2 }
    ∷ []

notify_cycle-wanted_example :
    messages_for (pos 11) (notify_cycle settings accounts table (paid "tx" candidates))
    ≡ wanted accounts (pos 11) table candidates
unfolding bot_token
notify_cycle-wanted_example =
    notify_cycle-wanted settings (codes "123:abc") accounts table (pos 11) "tx" candidates
      table-IsTable refl
