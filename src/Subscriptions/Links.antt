-- ===== src/Subscriptions/Links.antt =====
-- The table of subscriptions as a set of pairs of a chat and an address.
use elektron_net_ppool.Common.{
  ℕ, ◌+◌, ◌≤◌, ◌≡◌, refl, ℤ, eqb_ℤ, eqb_ℤ-true, eqb_ℤ_sym, Bool, true, false, not, List, [], ◌∷◌,
  ◌++◌, ◌&&◌, length, filter, if◌then◌else◌, Bool-cases, inl, inr, arith,
}
use elektron_net_ppool.Common.Js.{Text, text_eq, text_eq-true, text_eq_sym}
use elektron_net_ppool.Subscriptions.{
  Subscription, Subscriptions, is_about, is_of, is_link, save_subscription, insert_unless,
  remove_subscription, remove_all_subscriptions,
}

-- How many rows link a chat to an address.
abbrev pub links : ℤ → Text → List Subscription → ℕ
links chat address rows = length (filter (is_link chat address) rows)

-- No pair has two rows.
unfoldable pub IsTable : List Subscription → Type 0
IsTable rows = (chat : ℤ) (address : Text) → links chat address rows ≤ 1

abbrev pub one_if : Bool → ℕ
one_if b = if b then 1 else 0

pub links-cons :
    (chat : ℤ) (address : Text) (r : Subscription) (rows : List Subscription)
    → links chat address (r ∷ rows) ≡ one_if (is_link chat address r) + links chat address rows
links-cons chat address r rows = ground arith

links-insert :
    (c : ℤ) (a : Text) (r : Subscription) (rows : List Subscription)
    → links c a (rows ++ r ∷ []) ≡ links c a rows + one_if (is_link c a r)
links-insert c a r [] = ground arith
links-insert c a r (x ∷ rows) = ground (arith, links-insert c a r rows)

-- Where `p` is constant on the rows of a pair, a deletion takes all of them or none.
links-delete :
    (c : ℤ) (a : Text) (p : Subscription → Bool) (b : Bool) (rows : List Subscription)
    → ((r : Subscription) → is_link c a r ≡ true → p r ≡ b)
    → links c a (filter (λ r. not (p r)) rows) ≡ (if b then 0 else links c a rows)
links-delete c a p true [] h = refl
links-delete c a p false [] h = refl
links-delete c a p true (r ∷ rows) h = ground (arith, h r, links-delete c a p true rows h)
links-delete c a p false (r ∷ rows) h = ground (arith, h r, links-delete c a p false rows h)

and_true : (a b : Bool) → (a && b) ≡ true → (a ≡ true) × (b ≡ true)
and_true true b h = (refl, h)
and_true false b h = absurd (ground arith)

of_link :
    (c chat : ℤ) (a : Text) (r : Subscription) → is_link c a r ≡ true → is_of chat r ≡ eqb_ℤ c chat
of_link c chat a r h =
    rw (eqb_ℤ-true r.telegram_chat_id c (and_true (is_of c r) (is_about a r) h).0) refl

about_link :
    (c : ℤ) (a address : Text) (r : Subscription)
    → is_link c a r ≡ true
    → is_about address r ≡ text_eq a address
about_link c a address r h =
    rw (text_eq-true r.address a (and_true (is_of c r) (is_about a r) h).1) refl

-- Whether two pairs are the same.
abbrev pub same_link : ℤ → Text → ℤ → Text → Bool
same_link c a chat address = eqb_ℤ c chat && text_eq a address

link_of_link :
    (c chat : ℤ) (a address : Text) (r : Subscription)
    → is_link c a r ≡ true
    → is_link chat address r ≡ same_link c a chat address
link_of_link c chat a address r h = rw (of_link c chat a r h, about_link c a address r h) refl

links_same :
    (c chat : ℤ) (a address : Text)
    → same_link c a chat address ≡ true
    → (rows : List Subscription) → links c a rows ≡ links chat address rows
links_same c chat a address h rows =
    let k = and_true (eqb_ℤ c chat) (text_eq a address) h in
    rw (eqb_ℤ-true c chat k.0, text_eq-true a address k.1) refl

-- Saving links the pair, once, and no other.
pub save_subscription-links :
    (chat : ℤ) (address : Text) (t : Subscriptions) (c : ℤ) (a : Text)
    → IsTable t.rows
    → links c a (save_subscription chat address t).rows
      ≡ (if same_link c a chat address then 1 else links c a t.rows)
unfolding save_subscription IsTable
save_subscription-links chat address t c a h =
    go (filter (is_link chat address) t.rows) refl (h chat address)
  where
    new : Subscription
    new = record { id = t.next_id; address = address; telegram_chat_id = chat }

    new_link : is_link c a new ≡ same_link c a chat address
    new_link = rw (eqb_ℤ_sym chat c, text_eq_sym address a) refl

    go :
        (found : List Subscription)
        → filter (is_link chat address) t.rows ≡ found
        → length found ≤ 1
        → links c a (insert_unless found chat address t).rows
          ≡ (if same_link c a chat address then 1 else links c a t.rows)
    go [] e k = elim (Bool-cases (same_link c a chat address)) [
      | inl same ↦
          rw
            (
              same,
              links-insert c a new t.rows,
              new_link,
              same,
              links_same c chat a address same t.rows,
              e,
            )
            (omega arith)
      | inr other ↦ rw (other, links-insert c a new t.rows, new_link, other) (omega arith)
    ]
    go (x ∷ others) e k = elim (Bool-cases (same_link c a chat address)) [
      | inl same ↦ rw (same, links_same c chat a address same t.rows, e) (omega arith)
      | inr other ↦ rw other refl
    ]

pub remove_subscription-links :
    (chat : ℤ) (address : Text) (t : Subscriptions) (c : ℤ) (a : Text)
    → links c a (remove_subscription chat address t).1.rows
      ≡ (if same_link c a chat address then 0 else links c a t.rows)
unfolding remove_subscription
remove_subscription-links chat address t c a =
    links-delete c a (is_link chat address) (same_link c a chat address) t.rows
      (link_of_link c chat a address)

pub remove_all_subscriptions-links :
    (chat : ℤ) (t : Subscriptions) (c : ℤ) (a : Text)
    → links c a (remove_all_subscriptions chat t).1.rows
      ≡ (if eqb_ℤ c chat then 0 else links c a t.rows)
unfolding remove_all_subscriptions
remove_all_subscriptions-links chat t c a =
    links-delete c a (is_of chat) (eqb_ℤ c chat) t.rows (of_link c chat a)
