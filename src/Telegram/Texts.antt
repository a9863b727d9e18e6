-- ===== src/Telegram/Texts.antt =====
-- The texts that the bot sends.
use elektron_net_ppool.Common.{
  ℕ, zero, suc, ◌/◌, ◌%◌, ℤ, pos, negsuc, Option, none, some, List, [], ◌∷◌, ◌++◌, ltb,
  if◌then◌else◌,
}
use elektron_net_ppool.Common.Js.{Text, codes}
use elektron_net_ppool.WalletRpc.{decimal, digit}
use elektron_net_ppool.Telegram.{
  Reply, unsubscribed_all, not_subscribed, unsubscribed, not_subscribed_to, invalid_address,
  subscribed, listed, none_listed, balance_usage, balance, help,
}

abbrev pub number : ℕ → Text
number n = decimal (suc n) n

-- `toLocaleString('en-US')` of a whole number: a comma before each group of three digits; `fuel` above
-- the number is enough.
unfoldable pub grouped : (fuel : ℕ) → ℕ → Text
grouped zero n = []
grouped (suc fuel) n =
    let front = grouped fuel (n / 1000) in
    if ltb n 1000
    then number n
    else front ++ b',' ∷ digit (n / 100 % 10) ∷ digit (n / 10 % 10) ∷ digit (n % 10) ∷ []

abbrev pub to_locale_string : ℤ → Text
to_locale_string (pos n) = grouped (suc n) n
to_locale_string (negsuc n) = b'-' ∷ grouped (suc (suc n)) (suc n)

-- `${x}` of a whole number.
abbrev pub printed : ℤ → Text
printed (pos n) = number n
printed (negsuc n) = b'-' ∷ number (suc n)

abbrev or_undefined : Option Text → Text
or_undefined none = codes "undefined"
or_undefined (some s) = s

abbrev line_feed : ℕ
line_feed = 10

-- `lines.join('\n')`
abbrev pub join_lines : List Text → Text
join_lines [] = []
join_lines (s ∷ []) = s
join_lines (s ∷ t ∷ rest) = s ++ line_feed ∷ join_lines (t ∷ rest)

abbrev pub help_text : Text
help_text = join_lines (
    codes "Elektron Net PPLNS Pool bot commands:"
    ∷ codes
        "/subscribe <address> - get notified here about blocks found and payouts for this address"
    ∷ codes "/unsubscribe <address> - stop notifications for this address"
    ∷ codes "/unsubscribe - stop all notifications for this chat"
    ∷ codes "/list - show which addresses you are subscribed to"
    ∷ codes "/balance <address> - show the pending (not yet paid out) balance for this address"
    ∷ codes "/help - show this message"
    ∷ [])

unfoldable pub text_of : Reply → Text
text_of (unsubscribed_all n) = codes "Unsubscribed from all " ++ number n ++ codes " address(es)."
text_of not_subscribed = codes "You weren't subscribed to anything."
text_of (unsubscribed address) = codes "Unsubscribed from " ++ address ++ codes "."
text_of (not_subscribed_to address) = codes "You weren't subscribed to " ++ address ++ codes "."
text_of invalid_address = codes "Invalid address. Usage: /subscribe <address>"
text_of (subscribed address) =
    codes "Subscribed! You'll be notified here about blocks found and payouts for "
    ++ or_undefined address
    ++ codes "."
text_of (listed addresses) = codes "Subscribed addresses:" ++ line_feed ∷ join_lines addresses
text_of none_listed = codes "You're not subscribed to any address yet. Use /subscribe <address>."
text_of balance_usage = codes "Usage: /balance <address>"
text_of (balance address sats) =
    codes "Pending (not yet paid out) balance for "
    ++ or_undefined address
    ++ codes ": "
    ++ to_locale_string sats
    ++ codes " lep"
text_of help = help_text

unfoldable pub block_found_text : Text → ℕ → Text
block_found_text message height =
    codes "Block Found! Result: " ++ message ++ codes ", Height: " ++ number height

unfoldable pub payout_sent_text : ℤ → Text → Text
payout_sent_text amount txid =
    codes "Payout sent: " ++ printed amount ++ codes " lep (txid: " ++ txid ++ codes ")"
