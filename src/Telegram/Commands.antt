-- ===== src/Telegram/Commands.antt =====
-- What the commands of a chat do to the subscriptions.
use elektron_net_ppool.Common.{
  ℕ, ◌≤◌, ◌≡◌, refl, ◌∙◌, ℤ, eqb_ℤ, false, Bool-cases, inl, inr, Option, none, some, arith,
  if◌then◌else◌,
}
use elektron_net_ppool.Common.Js.{Text, codes, starts_with}
use elektron_net_ppool.Network.{is_valid_address}
use elektron_net_ppool.Subscriptions.{Subscriptions}
use elektron_net_ppool.Subscriptions.Links.{
  links, IsTable, same_link, save_subscription-links, remove_subscription-links,
  remove_all_subscriptions-links,
}
use elektron_net_ppool.Telegram.{Services, extract_arg, unsubscribe, save_if, subscribe, command}

-- What a text asks for.
pub data Effect : Type 0 where
  adds drops : Text → Effect
  clears keeps : Effect

abbrev pub drops_or_clears : Option Text → Effect
drops_or_clears none = clears
drops_or_clears (some address) = drops address

abbrev pub adds_any : Option Text → Effect
adds_any none = keeps
adds_any (some address) = adds address

abbrev pub effect_of : Services → Text → Effect
effect_of services text =
    let argument = extract_arg text (codes "/subscribe") in
    if starts_with text (codes "/unsubscribe")
    then drops_or_clears (extract_arg text (codes "/unsubscribe"))
    else if starts_with text (codes "/subscribe")
    then (if is_valid_address services.library services.config argument
        then adds_any argument
        else keeps)
    else keeps

-- The effect on a set of pairs, given as 0 or 1 for each.
abbrev pub apply : Effect → ℤ → (ℤ → Text → ℕ) → ℤ → Text → ℕ
apply (adds address) chat m c a = if same_link c a chat address then 1 else m c a
apply (drops address) chat m c a = if same_link c a chat address then 0 else m c a
apply clears chat m c a = if eqb_ℤ c chat then 0 else m c a
apply keeps chat m c a = m c a

unsubscribe-links :
    (chat : ℤ) (o : Option Text) (t : Subscriptions) (c : ℤ) (a : Text)
    → links c a (unsubscribe chat o t).1.rows
      ≡ apply (drops_or_clears o) chat (λ d b. links d b t.rows) c a
unfolding unsubscribe
unsubscribe-links chat none t c a = remove_all_subscriptions-links chat t c a
unsubscribe-links chat (some address) t c a = remove_subscription-links chat address t c a

save_if-links :
    (chat : ℤ) (o : Option Text) (t : Subscriptions) (c : ℤ) (a : Text)
    → IsTable t.rows
    → links c a (save_if chat o t).rows ≡ apply (adds_any o) chat (λ d b. links d b t.rows) c a
save_if-links chat none t c a h = refl
save_if-links chat (some address) t c a h = save_subscription-links chat address t c a h

command-links :
    (services : Services) (chat : ℤ) (text : Text) (t : Subscriptions) (c : ℤ) (a : Text)
    → IsTable t.rows
    → links c a (command services chat text t).1.rows
      ≡ apply (effect_of services text) chat (λ d b. links d b t.rows) c a
unfolding command subscribe
command-links services chat text t c a h =
    let argument = extract_arg text (codes "/subscribe") in
    elim (Bool-cases (starts_with text (codes "/unsubscribe"))) [
      | inl e ↦ rw e (unsubscribe-links chat (extract_arg text (codes "/unsubscribe")) t c a)
      | inr e ↦ elim (Bool-cases (starts_with text (codes "/subscribe"))) [
        | inl e' ↦ elim (Bool-cases (is_valid_address services.library services.config argument)) [
          | inl valid ↦ rw (e, e', valid) (save_if-links chat argument t c a h)
          | inr invalid ↦ rw (e, e', invalid) refl
        ]
        | inr e' ↦ rw (e, e') refl
      ]
    ]

-- The effect, written without 0 and 1: the table stays one, and other chats keep what they have.
apply-le :
    (e : Effect) (chat : ℤ) (m : ℤ → Text → ℕ) (c : ℤ) (a : Text)
    → m c a ≤ 1
    → apply e chat m c a ≤ 1
apply-le (adds address) chat m c a h = ground arith
apply-le (drops address) chat m c a h = ground arith
apply-le clears chat m c a h = ground arith
apply-le keeps chat m c a h = h

apply-others :
    (e : Effect) (chat : ℤ) (m : ℤ → Text → ℕ) (c : ℤ) (a : Text)
    → eqb_ℤ c chat ≡ false
    → apply e chat m c a ≡ m c a
apply-others (adds address) chat m c a h = rw h refl
apply-others (drops address) chat m c a h = rw h refl
apply-others clears chat m c a h = rw h refl
apply-others keeps chat m c a h = refl

-- On a table without a repeated pair, a message of a chat has the effect of its command on the set of pairs, and
-- no other: a subscription is added once however often it is asked for, is dropped whole, or all of
-- the chat's are; no pair is repeated afterwards, and the subscriptions of other chats stay.
pub command-Refines :
    (services : Services) (chat : ℤ) (text : Text) (t : Subscriptions)
    → IsTable t.rows
    → let rows' = (command services chat text t).1.rows in
      IsTable rows'
      × ((c : ℤ) (a : Text)
          → links c a rows' ≡ apply (effect_of services text) chat (λ d b. links d b t.rows) c a)
      × ((c : ℤ) (a : Text) → eqb_ℤ c chat ≡ false → links c a rows' ≡ links c a t.rows)
unfolding IsTable
command-Refines services chat text t h =
    let effect = effect_of services text in
    let m : ℤ → Text → ℕ = λ d b. links d b t.rows in
    (
      λ c a. rw (command-links services chat text t c a h) (apply-le effect chat m c a (h c a)),
      λ c a. command-links services chat text t c a h,
      λ c a other. command-links services chat text t c a h ∙ apply-others effect chat m c a other,
    )
