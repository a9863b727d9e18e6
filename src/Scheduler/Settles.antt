-- ===== src/Scheduler/Settles.antt =====
-- A payout settles in the ledger exactly what it sent.
use elektron_net_ppool.Common.{
  ℕ, ℤ, pos, ◌+ℤ◌, +ℤ_zero, +ℤ_chain, +ℤ_gain, int_laws, ◌≡◌, refl, sym, ◌∙◌, ap, String, str_eq,
  List, [], ◌∷◌, All, All-map, if◌then◌else◌, leb_ℤ,
}
use elektron_net_ppool.Ledger.{
  PayoutLedger, PendingPayoutCandidate, credit, mark_sent_up_to, get_pending_total, get_total_paid,
}
use elektron_net_ppool.Ledger.Groups.{Differs, IsDistinct}
use elektron_net_ppool.Ledger.Credits.{credit_totals}
use elektron_net_ppool.Ledger.Marks.{mark_sent_up_to_totals}
use elektron_net_ppool.Ledger.Settlement.{Owes, credit-Owes, mark_sent_up_to-Owes}
use elektron_net_ppool.Scheduler.{Arrival, arrive, settle}

-- What a batch sends to one miner, and what arrivals credit to one miner.
abbrev pub share_of : String → PendingPayoutCandidate → ℤ
share_of b c = if str_eq c.miner_address b then c.total_pending_sats else pos 0

abbrev pub sent_to : String → List PendingPayoutCandidate → ℤ
sent_to b [] = pos 0
sent_to b (c ∷ cs) = share_of b c +ℤ sent_to b cs

abbrev pub credited_to : String → List Arrival → ℤ
credited_to b [] = pos 0
credited_to b (a ∷ rest) =
    (if leb_ℤ a.amount_sats (pos 0)
      then pos 0
      else if str_eq a.miner_address b
      then a.amount_sats
      else pos 0)
    +ℤ credited_to b rest

-- What of the arrivals the loop awaits: those before a mark, and none after the last one.
abbrev pub credited_during : String → List (List Arrival) → List PendingPayoutCandidate → ℤ
credited_during b [] cs = pos 0
credited_during b (a ∷ arrivals) [] = pos 0
credited_during b (a ∷ arrivals) (c ∷ cs) = credited_to b a +ℤ credited_during b arrivals cs

pub arrive_totals :
    (b : String) (rest : List Arrival) (l : PayoutLedger)
    → (get_pending_total b (arrive rest l).rows ≡ get_pending_total b l.rows +ℤ credited_to b rest)
      × (get_total_paid b (arrive rest l).rows ≡ get_total_paid b l.rows)
arrive_totals b [] l = (sym (+ℤ_zero (get_pending_total b l.rows)), refl)
arrive_totals b (a ∷ rest) l =
    let l' = credit a.at a.miner_address a.amount_sats a.block_height l in
    let now = credit_totals a.at a.miner_address b a.amount_sats a.block_height l in
    let later = arrive_totals b rest l' in (later.0 ∙ rw now.0 (omega int_laws), later.1 ∙ now.1)

arrive-Owes :
    (rest : List Arrival) (l : PayoutLedger) (cs : List PendingPayoutCandidate)
    → All (Owes l) cs
    → All (Owes (arrive rest l)) cs
arrive-Owes [] l cs o = o
arrive-Owes (a ∷ rest) l cs o =
    arrive-Owes rest (credit a.at a.miner_address a.amount_sats a.block_height l) cs (
      All-map (Owes l) (Owes (credit a.at a.miner_address a.amount_sats a.block_height l)) cs
        (λ c p. credit-Owes a.at a.miner_address a.amount_sats a.block_height l c p) o)

module _ (now : ℕ) (txid : String) where
  abbrev marked : PendingPayoutCandidate → PayoutLedger → PayoutLedger
  marked c l = record l { rows = mark_sent_up_to now c.miner_address c.max_row_id txid l.rows }

  marked-Owes :
      (l : PayoutLedger) (c : PendingPayoutCandidate) (cs : List PendingPayoutCandidate)
      → All (Differs c.miner_address) cs
      → All (Owes l) cs
      → All (Owes (marked c l)) cs
  marked-Owes l c [] d o = tt
  marked-Owes l c (x ∷ xs) d o = (
    mark_sent_up_to-Owes now c.miner_address c.max_row_id txid l x d.0 o.0,
    marked-Owes l c xs d.1 o.1,
  )

  -- One mark moves the candidate's total from what its miner is owed to what it was paid.
  marked_totals :
      (b : String) (l : PayoutLedger) (c : PendingPayoutCandidate)
      → Owes l c
      → let moved = if str_eq c.miner_address b then c.total_pending_sats else pos 0 in
        (get_pending_total b (marked c l).rows +ℤ moved ≡ get_pending_total b l.rows)
        × (get_total_paid b (marked c l).rows ≡ get_total_paid b l.rows +ℤ moved)
  marked_totals b l c o =
      let t = mark_sent_up_to_totals now c.miner_address b c.max_row_id txid l.rows in
      (rw o.exact at t.0, sym (rw o.exact at t.1))

  abbrev Settled : String → PayoutLedger → PayoutLedger → ℤ → ℤ → Type 0
  Settled b l l' sent arrived =
      (get_pending_total b l'.rows +ℤ sent ≡ get_pending_total b l.rows +ℤ arrived)
      × (get_total_paid b l'.rows ≡ get_total_paid b l.rows +ℤ sent)

  pub settle_totals :
      (b : String) (cs : List PendingPayoutCandidate) (arrivals : List (List Arrival))
      (l : PayoutLedger)
      → IsDistinct cs
      → All (Owes l) cs
      → Settled b l (settle now txid cs arrivals l) (sent_to b cs) (credited_during b arrivals cs)
  unfolding settle
  settle_totals b [] [] l d o = (refl, sym (+ℤ_zero (get_total_paid b l.rows)))
  settle_totals b [] (a ∷ arrivals) l d o = (refl, sym (+ℤ_zero (get_total_paid b l.rows)))
  settle_totals b (c ∷ cs) [] l d o =
      let m = marked_totals b l c o.0 in
      let ih = settle_totals b cs [] (marked c l) d.1 (marked-Owes l c cs d.0 o.1) in
      (
        +ℤ_chain _ _ _ _ _ _ _ (m.0 ∙ sym (+ℤ_zero (get_pending_total b l.rows))) ih.0
            ∙ ap (λ x. get_pending_total b l.rows +ℤ x) (+ℤ_zero (pos 0)),
        +ℤ_gain _ _ _ _ _ m.1 ih.1,
      )
  settle_totals b (c ∷ cs) (a ∷ arrivals) l d o =
      let l' = arrive a l in
      let o' = arrive-Owes a l (c ∷ cs) o in
      let m = marked_totals b l' c o'.0 in
      let ih = settle_totals b cs arrivals (marked c l') d.1 (marked-Owes l' c cs d.0 o'.1) in
      let came = arrive_totals b a l in
      (
        +ℤ_chain _ _ _ _ _ _ _ (m.0 ∙ came.0) ih.0,
        +ℤ_gain _ _ _ _ _ (m.1 ∙ ap (λ p. p +ℤ share_of b c) came.1) ih.1,
      )
