-- ===== src/Subscriptions.antt =====
-- src/ORM/telegram-subscriptions: which chat is told about which address. The table is the list of its
-- rows, in the order of their ids.
pub mod Links
use elektron_net_ppool.Common.{
  ℕ, suc, ◌+◌, ◌≡◌, refl, ℤ, eqb_ℤ, Bool, true, false, not, List, [], ◌∷◌, ◌++◌, ◌&&◌, ltb, length,
  filter, if◌then◌else◌,
}
use elektron_net_ppool.Common.Js.{Text, text_eq}

-- TelegramSubscriptionsEntity
pub record Subscription : Type 0 where
  pub id : ℕ
  pub address : Text
  pub telegram_chat_id : ℤ

pub record Subscriptions : Type 0 where
  pub rows : List Subscription
  pub next_id : ℕ

abbrev pub is_about : Text → Subscription → Bool
is_about address r = text_eq r.address address

abbrev pub is_of : ℤ → Subscription → Bool
is_of chat r = eqb_ℤ r.telegram_chat_id chat

abbrev pub is_link : ℤ → Text → Subscription → Bool
is_link chat address r = is_of chat r && is_about address r

unfoldable pub get_subscriptions : Text → Subscriptions → List Subscription
get_subscriptions address t = filter (is_about address) t.rows

unfoldable pub get_subscriptions_for_chat : ℤ → Subscriptions → List Subscription
get_subscriptions_for_chat chat t = filter (is_of chat) t.rows

abbrev pub insert : ℤ → Text → Subscriptions → Subscriptions
insert chat address t = record {
  rows = t.rows ++ record { id = t.next_id; address = address; telegram_chat_id = chat } ∷ [];
  next_id = suc t.next_id;
}

-- `findOne(...)` and, where it finds none, `save(...)`
abbrev pub insert_unless : List Subscription → ℤ → Text → Subscriptions → Subscriptions
insert_unless [] chat address t = insert chat address t
insert_unless (existing ∷ others) chat address t = t

unfoldable pub save_subscription : ℤ → Text → Subscriptions → Subscriptions
save_subscription chat address t =
    insert_unless (filter (is_link chat address) t.rows) chat address t

-- `DELETE ... WHERE p`, with the number of rows affected.
abbrev pub delete_where : (Subscription → Bool) → Subscriptions → ℕ × Subscriptions
delete_where p t = (length (filter p t.rows), record t { rows = filter (λ r. not (p r)) t.rows })

unfoldable pub remove_subscription : ℤ → Text → Subscriptions → Bool × Subscriptions
remove_subscription chat address t =
    let (affected, t') = delete_where (is_link chat address) t in (ltb 0 affected, t')

unfoldable pub remove_all_subscriptions : ℤ → Subscriptions → ℕ × Subscriptions
remove_all_subscriptions chat t = delete_where (is_of chat) t
