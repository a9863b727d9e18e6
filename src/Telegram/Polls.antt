-- ===== src/Telegram/Polls.antt =====
-- What the bot does over any sequence of ticks of its timer and answers of the server.
use elektron_net_ppool.Common.{
  ℕ, suc, ◌+◌, ◌≤◌, ◌<◌, ◌≡◌, refl, sym, subst, ℤ, Bool, true, false, Bool-cases, Option-cases, inl,
  inr, Option, none, some, List, [], ◌∷◌, arith, if◌then◌else◌, ltb, ltb-true, All,
}
use elektron_net_ppool.Common.Js.{Text, trim}
use elektron_net_ppool.Subscriptions.{Subscriptions}
use elektron_net_ppool.Subscriptions.Links.{IsTable}
use elektron_net_ppool.Telegram.{Msg, Update, Reply, Services, command}
use elektron_net_ppool.Telegram.Commands.{command-Refines}
use elektron_net_ppool.Telegram.Bot.{
  Failure, Deliver, TelegramService, conflict_pause_ms, send_reply, handle_text, handle_message,
  take_update, handle_updates, is_conflict, back_off, start_poll, Answer, updates, rejected, react,
  finish_request, finish_poll,
}

-- The ids of a list of updates rise from an offset on.
unfoldable pub Ascending : ℕ → List Update → Type 0
Ascending offset [] = Unit
Ascending offset (u ∷ us) = (offset ≤ u.update_id) × Ascending (suc u.update_id) us

-- What the documentation of `getUpdates` says of its answer: updates from the offset on, in order.
unfoldable pub IsServer : (ℕ → Answer) → Type 0
IsServer server = (offset : ℕ) (us : List Update) → server offset ≡ updates us → Ascending offset us

-- The ids are below a bound and fall: newest first, none twice.
unfoldable pub Descending : ℕ → List ℕ → Type 0
Descending bound [] = Unit
Descending bound (id ∷ ids) = (id < bound) × Descending id ids

abbrev pub requests_of : Bool → ℕ → List ℕ
requests_of true offset = offset ∷ []
requests_of false offset = []

-- What always holds of the bot: every update handled is below the offset, none was handled twice, at
-- most one request is under way, and it has the current offset; no subscription is repeated.
pub record IsBot (s : TelegramService) : Type 0 where
  pub once : Descending s.update_offset s.handled
  pub one_request : s.requests ≡ requests_of s.is_polling s.update_offset
  pub table : IsTable s.table.rows

pub data Event : Type 0 where
  tick : (now : ℕ) → Event
  answered : (server : ℕ → Answer) → (now : ℕ) → Event

unfoldable pub live : Services → Deliver → List Event → TelegramService → TelegramService
unfolding start_poll finish_poll
live services deliver [] s = s
live services deliver (tick now ∷ events) s = live services deliver events (start_poll now s)
live services deliver (answered server now ∷ events) s =
    live services deliver events (finish_poll services deliver server now s)

unfoldable pub Serves : Event → Type 0
unfolding IsServer
Serves (tick now) = Unit
Serves (answered server now) = IsServer server

-- What the handling of updates keeps, while their request is the only one.
record IsHandling (s : TelegramService) : Type 0 where
  once : Descending s.update_offset s.handled
  no_request : s.requests ≡ []
  table : IsTable s.table.rows

send_reply-IsHandling :
    (deliver : Deliver) (chat : ℤ) (o : Option Reply) (t : Subscriptions) (s : TelegramService)
    → IsHandling s
    → IsTable t.rows
    → IsHandling (send_reply deliver chat (o, t) s).1
send_reply-IsHandling deliver chat none t s h k = record {
  once = h.once;
  no_request = h.no_request;
  table = k;
}
send_reply-IsHandling deliver chat (some reply) t s h k = record {
  once = h.once;
  no_request = h.no_request;
  table = k;
}

handle_text-IsHandling :
    (services : Services) (deliver : Deliver) (chat : ℤ) (o : Option Text) (s : TelegramService)
    → IsHandling s
    → IsHandling (handle_text services deliver chat o s).1
handle_text-IsHandling services deliver chat none s h = h
handle_text-IsHandling services deliver chat (some text) s h =
    let reply = command services chat (trim text) s.table in
    send_reply-IsHandling deliver chat reply.0 reply.1 s h
      (command-Refines services chat (trim text) s.table h.table).0

handle_message-IsHandling :
    (services : Services) (deliver : Deliver) (o : Option Msg) (s : TelegramService)
    → IsHandling s
    → IsHandling (handle_message services deliver o s).1
unfolding handle_message
handle_message-IsHandling services deliver none s h = h
handle_message-IsHandling services deliver (some msg) s h =
    handle_text-IsHandling services deliver msg.chat_id msg.text s h

-- A message moves neither the offset nor the flag.
IsStill : TelegramService → TelegramService → Type 0
IsStill s s' = (s'.update_offset ≡ s.update_offset) × (s'.is_polling ≡ s.is_polling)

send_reply-IsStill :
    (deliver : Deliver) (chat : ℤ) (r : Option Reply × Subscriptions) (s : TelegramService)
    → IsStill s (send_reply deliver chat r s).1
unfolding IsStill
send_reply-IsStill deliver chat (none, t) s = (refl, refl)
send_reply-IsStill deliver chat (some reply, t) s = (refl, refl)

handle_text-IsStill :
    (services : Services) (deliver : Deliver) (chat : ℤ) (o : Option Text) (s : TelegramService)
    → IsStill s (handle_text services deliver chat o s).1
unfolding IsStill
handle_text-IsStill services deliver chat none s = (refl, refl)
handle_text-IsStill services deliver chat (some text) s =
    send_reply-IsStill deliver chat (command services chat (trim text) s.table) s

handle_message-IsStill :
    (services : Services) (deliver : Deliver) (o : Option Msg) (s : TelegramService)
    → IsStill s (handle_message services deliver o s).1
unfolding handle_message IsStill
handle_message-IsStill services deliver none s = (refl, refl)
handle_message-IsStill services deliver (some msg) s =
    handle_text-IsStill services deliver msg.chat_id msg.text s

Descending-up :
    (low high : ℕ) (ids : List ℕ) → low ≤ high → Descending low ids → Descending high ids
unfolding Descending
Descending-up low high [] h d = tt
Descending-up low high (id ∷ ids) h d = (omega (arith, d.0), d.1)

take_update-IsHandling :
    (u : Update) (s : TelegramService)
    → s.update_offset ≤ u.update_id
    → IsHandling s
    → IsHandling (take_update u s)
unfolding Descending
take_update-IsHandling u s a h = record {
  once = (omega arith, Descending-up s.update_offset u.update_id s.handled a h.once);
  no_request = h.no_request;
  table = h.table;
}

handle_updates-IsHandling :
    (services : Services) (deliver : Deliver) (us : List Update) (s : TelegramService)
    → Ascending s.update_offset us
    → IsHandling s
    → IsHandling (handle_updates services deliver us s).1
unfolding handle_updates Ascending IsStill
handle_updates-IsHandling services deliver [] s a h = h
handle_updates-IsHandling services deliver (u ∷ us) s a h =
    let taken = take_update u s in
    let s' = handle_message services deliver u.message taken in
    let still = handle_message-IsStill services deliver u.message taken in
    let k =
      handle_message-IsHandling services deliver u.message taken
        (take_update-IsHandling u s a.0 h) in
    elim (Option-cases s'.0) [
      | inl passed ↦
          rw (handle_updates, passed)
            (handle_updates-IsHandling services deliver us s'.1 (rw still.0 a.1) k)
      | inr (e, thrown) ↦ rw (handle_updates, thrown) k
    ]

react-IsHandling :
    (services : Services) (deliver : Deliver) (answer : Answer) (s : TelegramService)
    → ((us : List Update) → answer ≡ updates us → Ascending s.update_offset us)
    → IsHandling s
    → IsHandling (react services deliver answer s).1
react-IsHandling services deliver (rejected e) s a h = h
react-IsHandling services deliver (updates us) s a h =
    handle_updates-IsHandling services deliver us s (a us refl) h

-- The end of a poll: the flag is cleared with no request under way.
finished :
    (now : ℕ) (r : Option Failure × TelegramService)
    → IsHandling r.1
    → IsBot (record (back_off now r) { is_polling = false })
finished now (none, s) h = record { once = h.once; one_request = h.no_request; table = h.table }
finished now (some e, s) h = elim (Bool-cases (is_conflict e)) [
  | inl conflict ↦
      rw conflict (record { once = h.once; one_request = h.no_request; table = h.table })
  | inr other ↦ rw other (record { once = h.once; one_request = h.no_request; table = h.table })
]

start_poll-IsBot : (now : ℕ) (s : TelegramService) → IsBot s → IsBot (start_poll now s)
unfolding start_poll
start_poll-IsBot now s h = elim (Bool-cases (ltb now s.conflict_backoff_until)) [
  | inl paused ↦ rw paused h
  | inr due ↦ rw due (go s.is_polling refl)
]
  where
    go :
        (busy : Bool)
        → s.is_polling ≡ busy
        → IsBot (
            if busy
            then s
            else record s { is_polling = true; requests = s.update_offset ∷ s.requests })
    go true e = h
    go false e = record { once = h.once; one_request = rw (h.one_request, e) refl; table = h.table }

finish_request-IsBot :
    (services : Services) (deliver : Deliver) (server : ℕ → Answer) (now : ℕ) (s : TelegramService)
    (busy : Bool)
    → IsServer server
    → IsBot s
    → s.is_polling ≡ busy
    → IsBot (finish_request services deliver server now (requests_of busy s.update_offset) s)
unfolding IsServer
finish_request-IsBot services deliver server now s false promise h e = h
finish_request-IsBot services deliver server now s true promise h e =
    finished now (react services deliver (server s.update_offset) (record s { requests = [] })) (
      react-IsHandling services deliver (server s.update_offset) (record s { requests = [] })
        (promise s.update_offset) (record { once = h.once; no_request = refl; table = h.table }))

finish_poll-IsBot :
    (services : Services) (deliver : Deliver) (server : ℕ → Answer) (now : ℕ) (s : TelegramService)
    → IsServer server
    → IsBot s
    → IsBot (finish_poll services deliver server now s)
unfolding finish_poll
finish_poll-IsBot services deliver server now s promise h =
    subst (λ rs. IsBot (finish_request services deliver server now rs s)) (sym h.one_request)
      (finish_request-IsBot services deliver server now s s.is_polling promise h refl)

-- Over any sequence of ticks and answers, where the server answers an offset as documented: no update is
-- handled twice and none below the offset is left to come, at most one request is under way, and no
-- subscription is repeated.
pub live-IsBot :
    (services : Services) (deliver : Deliver) (events : List Event) (s : TelegramService)
    → All Serves events
    → IsBot s
    → IsBot (live services deliver events s)
unfolding live Serves
live-IsBot services deliver [] s promises h = h
live-IsBot services deliver (tick now ∷ events) s promises h =
    live-IsBot services deliver events (start_poll now s) promises.1 (start_poll-IsBot now s h)
live-IsBot services deliver (answered server now ∷ events) s promises h =
    live-IsBot services deliver events (finish_poll services deliver server now s) promises.1
      (finish_poll-IsBot services deliver server now s promises.0 h)

-- Ticks before a time.
abbrev pub IsBefore : ℕ → Event → Type 0
IsBefore end (tick now) = now < end
IsBefore end (answered server now) = ⊥

paused_stays :
    (services : Services) (deliver : Deliver) (end : ℕ) (events : List Event) (s : TelegramService)
    → s.conflict_backoff_until ≡ end
    → All (IsBefore end) events
    → live services deliver events s ≡ s
unfolding live start_poll
paused_stays services deliver end [] s e h = refl
paused_stays services deliver end (tick now ∷ events) s e h =
    let paused : ltb now s.conflict_backoff_until ≡ true = rw e (ltb-true now end h.0) in
    rw paused (paused_stays services deliver end events s e h.1)
paused_stays services deliver end (answered server now ∷ events) s e h = absurd h.0

finish_request-conflict :
    (services : Services) (deliver : Deliver) (server : ℕ → Answer) (now : ℕ) (s : TelegramService)
    (offset : ℕ) (others requests : List ℕ) (e : Failure)
    → requests ≡ offset ∷ others
    → server offset ≡ rejected e
    → is_conflict e ≡ true
    → (finish_request services deliver server now requests s).conflict_backoff_until
      ≡ now + conflict_pause_ms
finish_request-conflict services deliver server now s offset others requests e r a c =
    rw (r, a, c) refl

-- After an answer that is a conflict, the bot sends no request for sixty seconds, however often its
-- timer ticks.
pub conflict_pauses :
    (services : Services) (deliver : Deliver) (server : ℕ → Answer) (now : ℕ) (s : TelegramService)
    (offset : ℕ) (others : List ℕ) (e : Failure) (events : List Event)
    → s.requests ≡ offset ∷ others
    → server offset ≡ rejected e
    → is_conflict e ≡ true
    → All (IsBefore (now + conflict_pause_ms)) events
    → let s' = finish_poll services deliver server now s in live services deliver events s' ≡ s'
unfolding finish_poll
conflict_pauses services deliver server now s offset others e events r a c h =
    paused_stays services deliver (now + conflict_pause_ms) events
      (finish_poll services deliver server now s)
      (finish_request-conflict services deliver server now s offset others s.requests e r a c) h
