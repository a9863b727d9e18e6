-- ===== src/Dashboard/Csv.antt =====
-- The payout history as CSV (`getPayoutHistoryCsv` of src/controllers/pplns/pplns.controller.ts). A row has
-- its fields as texts: the height, the amount, the transaction, the status and the time.
use elektron_net_ppool.Common.Splits.{join}
use elektron_net_ppool.Common.{
  ℕ, suc, Option, none, some, List, [], ◌∷◌, ◌++◌, map, String, ℤ, pos, negsuc,
}
use elektron_net_ppool.Common.Js.{Text, codes, split}
use elektron_net_ppool.WalletRpc.{decimal}
use elektron_net_ppool.Ledger.{
  PayoutLedgerEntity, PayoutStatus, pending, sent, confirmed, get_payout_history,
}

abbrev pub comma : ℕ
comma = b','

abbrev pub line_feed : ℕ
line_feed = 10

abbrev pub csv_header : Text × List Text
csv_header = (
  codes "blockHeight",
  codes "amountSats" ∷ codes "txid" ∷ codes "status" ∷ codes "timestamp" ∷ [],
)

-- A line has at least one field.
abbrev pub Line : Type 0
Line = Text × List Text

abbrev pub fields : Line → List Text
fields (s, rest) = s ∷ rest

-- `[header, ...lines].join('\n') + '\n'`
unfoldable pub to_csv : Line → List Line → Text
to_csv header lines =
    join line_feed (map (λ l. join comma (fields l)) (header ∷ lines)) ++ line_feed ∷ []

-- The fields of a text that is read line by line and comma by comma.
unfoldable pub read_csv : Text → List (List Text)
read_csv text = map (split comma) (split line_feed text)

abbrev pub status_text : PayoutStatus → Text
status_text pending = codes "PENDING"
status_text sent = codes "SENT"
status_text confirmed = codes "CONFIRMED"

-- `row.txid ?? ''`
abbrev pub txid_text : Option String → Text
txid_text none = []
txid_text (some txid) = codes txid

abbrev pub number : ℕ → Text
number n = decimal (suc n) n

abbrev pub amount_text : ℤ → Text
amount_text (pos n) = number n
amount_text (negsuc n) = b'-' ∷ number (suc n)

-- A row of the history; `iso` is `toISOString` of a time.
abbrev pub line_of : (iso : ℕ → Text) → PayoutLedgerEntity → Line
line_of iso r = (
  number r.block_height,
  amount_text r.amount_sats ∷ txid_text r.txid ∷ status_text r.status ∷ iso r.updated_at ∷ [],
)

abbrev pub csv_export_row_limit : ℕ
csv_export_row_limit = 100_000

unfoldable pub get_payout_history_csv : (iso : ℕ → Text) → String → List PayoutLedgerEntity → Text
unfolding to_csv
get_payout_history_csv iso address rows =
    to_csv csv_header (map (line_of iso) (get_payout_history csv_export_row_limit address rows))
