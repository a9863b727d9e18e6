-- ===== src/Dashboard/CsvReads.antt =====
-- The CSV of the payout history is read back.
use elektron_net_ppool.Common.Splits.{join, IsFree, split-join, join-append}
use elektron_net_ppool.Common.{
  ℕ, suc, ◌-◌, ◌==◌, ◌≡◌, ◌≢◌, refl, ◌∙◌, ap, Option, none, some, if◌then◌else◌, List, [], ◌∷◌,
  ◌++◌, map, All, All-append, All-map, arith, String, ℤ, pos, negsuc,
}
use elektron_net_ppool.Common.Js.{Text, codes, text_eq, split}
use elektron_net_ppool.WalletRpc.Amounts.{IsDigit, decimal-digits, read, read-decimal}
use elektron_net_ppool.Ledger.{
  PayoutLedgerEntity, PayoutStatus, pending, sent, confirmed, get_payout_history,
}
use elektron_net_ppool.Dashboard.Csv.{
  Line, amount_text, comma, csv_export_row_limit, csv_header, fields, get_payout_history_csv,
  line_feed, line_of, number, read_csv, status_text, to_csv, txid_text,
}

-- No field of a line holds a comma or a line feed.
abbrev pub IsClean : Line → Type 0
IsClean l = All (λ s. IsFree comma s × IsFree line_feed s) (fields l)

join-IsFree_fields :
    (s : Text) (parts : List Text)
    → All (λ t. IsFree comma t × IsFree line_feed t) (s ∷ parts)
    → IsFree line_feed (join comma (s ∷ parts))
join-IsFree_fields s [] h = h.0.1
join-IsFree_fields s (t ∷ parts) h =
    All-append (λ c. c ≢ line_feed) s _ h.0.1
      ((λ e. absurd (omega (arith, e)), join-IsFree_fields t parts h.1))

split-fields : (l : Line) → IsClean l → split comma (join comma (fields l)) ≡ fields l
split-fields (s, parts) h =
    split-join comma s parts h.0.0
      (All-map (λ t. IsFree comma t × IsFree line_feed t) (IsFree comma) parts (λ t k. k.0) h.1)

split-lines :
    (lines : List Line)
    → All IsClean lines
    → map (split comma) (map (λ l. join comma (fields l)) lines ++ [] ∷ [])
      ≡ map fields lines ++ ([] ∷ []) ∷ []
split-lines [] h = refl
split-lines (l ∷ lines) h = rw (split-fields l h.0, split-lines lines h.1) refl

lines-IsFree :
    (lines : List Line)
    → All IsClean lines
    → All (IsFree line_feed) (map (λ l. join comma (fields l)) lines ++ [] ∷ [])
lines-IsFree [] h = (tt, tt)
lines-IsFree (l ∷ lines) h = (join-IsFree_fields l.0 l.1 h.0, lines-IsFree lines h.1)

-- The exported text is read back field by field, the header first, and an empty line at the end.
read_csv-to_csv :
    (header : Line) (lines : List Line)
    → All IsClean (header ∷ lines)
    → read_csv (to_csv header lines) ≡ map fields (header ∷ lines) ++ ([] ∷ []) ∷ []
unfolding read_csv to_csv
read_csv-to_csv header lines h =
    let line : Line → Text = λ l. join comma (fields l) in
    rw
      (
        join-append line_feed (line header) (map line lines),
        split-join line_feed (line header) (map line lines ++ [] ∷ [])
            (join-IsFree_fields header.0 header.1 h.0) (lines-IsFree lines h.1),
        split-fields header h.0,
      )
      (ap (λ t. fields header ∷ t) (split-lines lines h.1))

abbrev pub IsCleanText : Text → Type 0
IsCleanText s = IsFree comma s × IsFree line_feed s

digits-clean : (s : Text) → All IsDigit s → IsCleanText s
digits-clean [] h = (tt, tt)
digits-clean (c ∷ s) h =
    let k = digits-clean s h.1 in
    ((λ e. absurd (omega (arith, h.0, e)), k.0), (λ e. absurd (omega (arith, h.0, e)), k.1))

number-clean : (n : ℕ) → IsCleanText (number n)
number-clean n = digits-clean (number n) (decimal-digits (suc n) n)

amount_text-clean : (n : ℤ) → IsCleanText (amount_text n)
amount_text-clean (pos n) = number-clean n
amount_text-clean (negsuc n) =
    let k = number-clean (suc n) in
    ((λ e. absurd (omega (arith, e)), k.0), (λ e. absurd (omega (arith, e)), k.1))

status_text-clean : (s : PayoutStatus) → IsCleanText (status_text s)
status_text-clean pending = ground arith
status_text-clean sent = ground arith
status_text-clean confirmed = ground arith

line_of-IsClean :
    (iso : ℕ → Text) (rows : List PayoutLedgerEntity)
    → ((t : ℕ) → IsCleanText (iso t))
    → All (λ r. IsCleanText (txid_text r.txid)) rows
    → All IsClean (map (line_of iso) rows)
line_of-IsClean iso [] h k = tt
line_of-IsClean iso (r ∷ rows) h k = (
  (
    number-clean r.block_height,
    (amount_text-clean r.amount_sats, (k.0, (status_text-clean r.status, (h r.updated_at, tt)))),
  ),
  line_of-IsClean iso rows h k.1,
)

-- The status that a text names.
unfoldable pub status_named : Text → Option PayoutStatus
status_named s =
    if text_eq s (codes "PENDING")
    then some pending
    else if text_eq s (codes "SENT")
    then some sent
    else if text_eq s (codes "CONFIRMED")
    then some confirmed
    else none

-- The whole number that a text spells, with a sign where it is negative.
unfoldable pub read_amount : Text → ℤ
read_amount [] = pos 0
read_amount (c ∷ s) = if c == b'-' then negsuc (read 0 s - 1) else pos (read 0 (c ∷ s))

abbrev pub IsTxid : Option String → Text → Type 0
IsTxid none t = t ≡ []
IsTxid (some txid) t = t ≡ codes txid

-- The five fields of a row.
unfoldable pub IsRowOf : (iso : ℕ → Text) → PayoutLedgerEntity → List Text → Type 0
IsRowOf iso r (height ∷ amount ∷ txid ∷ status ∷ time ∷ []) =
    (read 0 height ≡ r.block_height)
    × (read_amount amount ≡ r.amount_sats)
    × IsTxid r.txid txid
    × (status_named status ≡ some r.status)
    × (time ≡ iso r.updated_at)
IsRowOf iso r _ = ⊥

-- A line for each row, in their order, and an empty one.
unfoldable pub AreRows : (iso : ℕ → Text) → List PayoutLedgerEntity → List (List Text) → Type 0
unfolding IsRowOf
AreRows iso [] lines = lines ≡ ([] ∷ []) ∷ []
AreRows iso (r ∷ rows) [] = ⊥
AreRows iso (r ∷ rows) (l ∷ lines) = IsRowOf iso r l × AreRows iso rows lines

read_amount-digits : (s : Text) → All IsDigit s → read_amount s ≡ pos (read 0 s)
unfolding read_amount
read_amount-digits [] h = refl
read_amount-digits (c ∷ s) h = ground (arith, h.0)

negative-read : (s : Text) (n : ℕ) → read 0 s ≡ suc n → read_amount (b'-' ∷ s) ≡ negsuc n
unfolding read_amount
negative-read s n e = rw e (ap (λ m. negsuc m) (omega arith))

amount_text-read : (n : ℤ) → read_amount (amount_text n) ≡ n
amount_text-read (pos n) =
    read_amount-digits (number n) (decimal-digits (suc n) n)
    ∙ ap (λ m. pos m) (read-decimal (suc n) n (omega arith))
amount_text-read (negsuc n) =
    negative-read (number (suc n)) n (read-decimal (suc (suc n)) (suc n) (omega arith))

txid_text-IsTxid : (o : Option String) → IsTxid o (txid_text o)
txid_text-IsTxid none = refl
txid_text-IsTxid (some txid) = refl

status_text-named : (s : PayoutStatus) → status_named (status_text s) ≡ some s
unfolding status_named
status_text-named pending = refl
status_text-named sent = refl
status_text-named confirmed = refl

line_of-IsRowOf : (iso : ℕ → Text) (r : PayoutLedgerEntity) → IsRowOf iso r (fields (line_of iso r))
unfolding IsRowOf
line_of-IsRowOf iso r = (
  read-decimal (suc r.block_height) r.block_height (omega arith),
  amount_text-read r.amount_sats,
  txid_text-IsTxid r.txid,
  status_text-named r.status,
  refl,
)

lines_of-AreRows :
    (iso : ℕ → Text) (rows : List PayoutLedgerEntity)
    → AreRows iso rows (map fields (map (line_of iso) rows) ++ ([] ∷ []) ∷ [])
unfolding AreRows
lines_of-AreRows iso [] = refl
lines_of-AreRows iso (r ∷ rows) = (line_of-IsRowOf iso r, lines_of-AreRows iso rows)

-- The export of an address, read line by line and comma by comma, is the five names of the columns and
-- then, for each row of its payout history in order, the row's height and amount, its transaction or
-- nothing, its status and its time, given that neither the transaction ids nor the printed times hold
-- a comma or a line feed. An empty line ends it.
pub get_payout_history_csv-read :
    (iso : ℕ → Text) (address : String) (rows : List PayoutLedgerEntity)
    → ((t : ℕ) → IsCleanText (iso t))
    → let history = get_payout_history csv_export_row_limit address rows in
      All (λ r. IsCleanText (txid_text r.txid)) history
      → (lines : List (List Text)) × ((read_csv (get_payout_history_csv iso address rows)
            ≡ (codes "blockHeight"
                ∷ codes "amountSats"
                ∷ codes "txid"
                ∷ codes "status"
                ∷ codes "timestamp"
                ∷ [])
              ∷ lines)
          × AreRows iso history lines)
unfolding get_payout_history_csv
get_payout_history_csv-read iso address rows h k =
    let history = get_payout_history csv_export_row_limit address rows in
    (
      map fields (map (line_of iso) history) ++ ([] ∷ []) ∷ [],
      (
        read_csv-to_csv csv_header (map (line_of iso) history)
            (ground arith, line_of-IsClean iso history h k),
        lines_of-AreRows iso history,
      ),
    )
