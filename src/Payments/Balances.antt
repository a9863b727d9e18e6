-- ===== src/Payments/Balances.antt =====
-- What each miner is owed and was paid over a whole history.
use elektron_net_ppool.Common.{
  ℕ, ℤ, pos, ◌+ℤ◌, +ℤ_zero, +ℤ_chain, +ℤ_gain, ◌≡◌, ◌≢◌, refl, sym, ◌∙◌, ap, subst, String, Bool,
  true, false, Option, List, [], ◌∷◌, leb_ℤ, if◌then◌else◌, arith,
}
use elektron_net_ppool.Config.{Config}
use elektron_net_ppool.Wallet.{Wallet, Result, ok, threw}
use elektron_net_ppool.Ledger.{
  PayoutLedger, PayoutLedgerEntity, PendingPayoutCandidate, mark_confirmed, get_distinct_sent_txids,
  get_pending_total, get_total_paid,
}
use elektron_net_ppool.Ledger.Credits.{IsValid}
use elektron_net_ppool.Scheduler.{
  Arrival, CycleEnd, no_height, none_pending, none_due, dry_run, balance_failed, deferred,
  send_failed, paid, run_payout_cycle, reconcile_each, reconcile_sent_payouts,
  get_confirmations_required,
}
use elektron_net_ppool.Scheduler.Settles.{arrive_totals}
use elektron_net_ppool.Scheduler.Cycle.{
  run_payout_cycle-IsPayout, run_payout_cycle_settles, run_payout_cycle_unpaid,
}
use elektron_net_ppool.Payments.{
  Event, earned, cycled, reconciled, sent_by, credited_while, handle, play, sent_in, credited_in,
  sent_over, credited_over, AllRising, all_top, EventRising, event_top, HistoryRising,
}
use elektron_net_ppool.Payments.Validity.{
  IsSound, arrive-IsSound, settle-IsSound, reconcile_sent_payouts-IsSound, le-all_top, IsSound-mono,
}

-- One miner's balances move by what it was credited and what it was sent.
abbrev pub Moves : String → PayoutLedger → PayoutLedger → (gain outgo : ℤ) → Type 0
Moves b l l' gain outgo =
    (get_pending_total b l'.rows +ℤ outgo ≡ get_pending_total b l.rows +ℤ gain)
    × (get_total_paid b l'.rows ≡ get_total_paid b l.rows +ℤ outgo)

Moves-chain :
    (b : String) (l l' l'' : PayoutLedger) (c s c' s' : ℤ)
    → Moves b l l' c s
    → Moves b l' l'' c' s'
    → Moves b l l'' (c +ℤ c') (s +ℤ s')
Moves-chain b l l' l'' c s c' s' m n = (+ℤ_chain _ _ _ _ _ _ _ m.0 n.0, +ℤ_gain _ _ _ _ _ m.1 n.1)

mark_confirmed_totals :
    (now : ℕ) (txid b : String) (rows : List PayoutLedgerEntity)
    → (get_pending_total b (mark_confirmed now txid rows) ≡ get_pending_total b rows)
      × (get_total_paid b (mark_confirmed now txid rows) ≡ get_total_paid b rows)
unfolding mark_confirmed get_pending_total get_total_paid
mark_confirmed_totals now txid b [] = (refl, refl)
mark_confirmed_totals now txid b (r ∷ rs) =
    let ih = mark_confirmed_totals now txid b rs in (ground (arith, ih), ground (arith, ih))

Moves-none : (b : String) (l : PayoutLedger) → Moves b l l (pos 0) (pos 0)
Moves-none b l = (refl, sym (+ℤ_zero (get_total_paid b l.rows)))

mark_confirmed-Moves :
    (now : ℕ) (txid b : String) (l : PayoutLedger) (confirms : Bool)
    → Moves b l
        (if confirms then record l { rows = mark_confirmed now txid l.rows } else l)
        (pos 0)
        (pos 0)
mark_confirmed-Moves now txid b l true =
    let m = mark_confirmed_totals now txid b l.rows in
    (ap (λ x. x +ℤ pos 0) m.0, m.1 ∙ sym (+ℤ_zero (get_total_paid b l.rows)))
mark_confirmed-Moves now txid b l false = Moves-none b l

Moves-none-chain :
    (b : String) (l l' l'' : PayoutLedger)
    → Moves b l l' (pos 0) (pos 0)
    → Moves b l' l'' (pos 0) (pos 0)
    → Moves b l l'' (pos 0) (pos 0)
Moves-none-chain b l l' l'' m n =
    subst (λ z. Moves b l l'' z z) (+ℤ_zero (pos 0))
      (Moves-chain b l l' l'' (pos 0) (pos 0) (pos 0) (pos 0) m n)

reconcile_each-Moves :
    (wallet : Wallet) (required now : ℕ) (b : String) (ts : List String) (l : PayoutLedger)
    → Moves b l (reconcile_each wallet required now ts l) (pos 0) (pos 0)
reconcile_each-Moves wallet required now b [] l = Moves-none b l
reconcile_each-Moves wallet required now b (t ∷ ts) l =
    go (wallet.get_confirmations t) (λ l'. reconcile_each-Moves wallet required now b ts l')
  where
    go :
        (r : Result ℤ)
        → ((l' : PayoutLedger)
            → Moves b l' (reconcile_each wallet required now ts l') (pos 0) (pos 0))
        → Moves b l
            (reconcile_each wallet required now ts (elim r [
              | threw e ↦ l
              | ok confirmations ↦
                  if leb_ℤ (pos required) confirmations
                  then record l { rows = mark_confirmed now t l.rows }
                  else l
            ]))
            (pos 0)
            (pos 0)
    go (threw e) ih = ih l
    go (ok confirmations) ih =
        let l' =
          if leb_ℤ (pos required) confirmations
          then record l { rows = mark_confirmed now t l.rows }
          else l in
        Moves-none-chain b l l' (reconcile_each wallet required now ts l')
          (mark_confirmed-Moves now t b l (leb_ℤ (pos required) confirmations)) (ih l')

module _ (config : Config) (overrides : String → Option ℤ) (wallet : Wallet) (height : Option ℕ)
    (now : ℕ) (arrivals : List (List Arrival)) (l : PayoutLedger) (n : ℕ)
    (rising : AllRising n arrivals) (sound : IsSound n l) where
  -- What a cycle leaves behind.
  abbrev Leaves : CycleEnd → PayoutLedger → Type 0
  Leaves end l' =
      IsSound (all_top n arrivals) l'
      × ((b : String) → Moves b l l' (credited_while b arrivals end) (sent_by b end))

  untouched :
      (end : CycleEnd) (l' : PayoutLedger)
      → run_payout_cycle config overrides wallet height now arrivals l ≡ (end, l')
      → ((txid : String) (cs : List PendingPayoutCandidate) → end ≢ paid txid cs)
      → ((b : String) → credited_while b arrivals end ≡ pos 0)
      → ((b : String) → sent_by b end ≡ pos 0)
      → Leaves end l'
  untouched end l' e unpaid c s =
      let same =
        run_payout_cycle_unpaid config overrides wallet now arrivals l height end l' e unpaid in
      rw same (
        IsSound-mono n (all_top n arrivals) l (le-all_top n arrivals rising) sound,
        λ b. rw (c b, s b) (Moves-none b l),
      )

  cycle-Leaves :
      (end : CycleEnd) (l' : PayoutLedger)
      → run_payout_cycle config overrides wallet height now arrivals l ≡ (end, l')
      → Leaves end l'
  cycle-Leaves (paid txid cs) l' e =
      let p =
        run_payout_cycle-IsPayout config overrides wallet now arrivals l height txid cs l' e in
      (
        rw p.settled (settle-IsSound n now txid cs arrivals l rising sound),
        λ b.
            run_payout_cycle_settles config overrides wallet now arrivals l height txid cs l' b
              sound.0 e,
      )
  cycle-Leaves no_height l' e = untouched no_height l' e (λ t cs q. cc) (λ b. refl) (λ b. refl)
  cycle-Leaves none_pending l' e =
      untouched none_pending l' e (λ t cs q. cc) (λ b. refl) (λ b. refl)
  cycle-Leaves none_due l' e = untouched none_due l' e (λ t cs q. cc) (λ b. refl) (λ b. refl)
  cycle-Leaves dry_run l' e = untouched dry_run l' e (λ t cs q. cc) (λ b. refl) (λ b. refl)
  cycle-Leaves (balance_failed x) l' e =
      untouched (balance_failed x) l' e (λ t cs q. cc) (λ b. refl) (λ b. refl)
  cycle-Leaves deferred l' e = untouched deferred l' e (λ t cs q. cc) (λ b. refl) (λ b. refl)
  cycle-Leaves (send_failed x) l' e =
      untouched (send_failed x) l' e (λ t cs q. cc) (λ b. refl) (λ b. refl)

module _ (config : Config) (overrides : String → Option ℤ) where
  handle-Moves :
      (e : Event) (n : ℕ) (l : PayoutLedger)
      → EventRising n e
      → IsSound n l
      → IsSound (event_top n e) (handle config overrides e l)
        × ((b : String)
            → Moves b l
                (handle config overrides e l)
                (credited_in config overrides b e l)
                (sent_in config overrides b e l))
  unfolding handle credited_in sent_in reconcile_sent_payouts
  handle-Moves (earned rest) n l r s = (
    arrive-IsSound n rest l r s,
    λ b. let t = arrive_totals b rest l in (+ℤ_zero _ ∙ t.0, t.1 ∙ sym (+ℤ_zero _)),
  )
  handle-Moves (cycled wallet height now arrivals) n l r s =
      let o = run_payout_cycle config overrides wallet height now arrivals l in
      cycle-Leaves config overrides wallet height now arrivals l n r s o.0 o.1 refl
  handle-Moves (reconciled wallet now) n l r s = (
    reconcile_sent_payouts-IsSound config wallet n now l s,
    λ b.
        reconcile_each-Moves wallet (get_confirmations_required config) now b
          (get_distinct_sent_txids l.rows) l,
  )

  -- Over any history of credits, cycles and confirmations, in which the heights of the credits never
  -- fall, what a miner is owed grows by what it was credited less what was sent to it, and what it was
  -- paid grows by what was sent to it; the ledger stays valid.
  pub play_balances :
      (es : List Event) (n : ℕ) (l : PayoutLedger) (b : String)
      → HistoryRising n es
      → IsSound n l
      → Moves b l
          (play config overrides es l)
          (credited_over config overrides b es l)
          (sent_over config overrides b es l)
        × IsValid (play config overrides es l)
  unfolding play credited_over sent_over
  play_balances [] n l b r s = (Moves-none b l, s.0)
  play_balances (e ∷ es) n l b r s =
      let k = handle-Moves e n l r.0 s in
      let ih = play_balances es (event_top n e) (handle config overrides e l) b r.1 k.0 in
      let l' = handle config overrides e l in
      (Moves-chain b l l' (play config overrides es l') _ _ _ _ (k.1 b) ih.0, ih.1)
