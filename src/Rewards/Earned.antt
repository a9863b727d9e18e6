-- ===== src/Rewards/Earned.antt =====
-- What one miner is credited for a block: the whole amounts of its own shares, added up.
use elektron_net_ppool.Common.{
  ℕ, ℤ, pos, ◌+ℤ◌, +ℤ_zero, +ℤ_zero_left, int_laws, ◌≡◌, refl, sym, ◌∙◌, ap, subst, String, str_eq,
  str_eq_iff, false, [], ◌∷◌, All, arith, if◌then◌else◌, Bool-cases, inl, inr,
}
use elektron_net_ppool.Common.Float.{Float64}
use elektron_net_ppool.Config.{Config}
use elektron_net_ppool.Shares.{ShareLog, sum_difficulty, get_shares_in_window, window_start}
use elektron_net_ppool.Ledger.{get_pending_total}
use elektron_net_ppool.Rewards.{
  Books, Totals, add_amount, distributable_of, amount_of, per_miner_totals, distribute,
  process_block_found,
}
use elektron_net_ppool.Rewards.Conserves.{payable, payable_where, only, credit_all_pays}

-- `map.get(b) ?? 0`
abbrev entry : String → Totals → ℤ
entry b [] = pos 0
entry b ((a, x) ∷ m) = if str_eq a b then x else entry b m

abbrev Fresh : String → Totals → Type 0
Fresh b m = All (λ e. str_eq e.0 b ≡ false) m

abbrev IsMap : Totals → Type 0
IsMap [] = Unit
IsMap (e ∷ m) = Fresh e.0 m × IsMap m

entry-add_amount :
    (a b : String) (x : ℤ) (m : Totals)
    → entry b (add_amount a x m) ≡ entry b m +ℤ (if str_eq a b then x else pos 0)
unfolding add_amount
entry-add_amount a b x [] = elim (Bool-cases (str_eq a b)) [
  | inl t ↦ rw t
  | inr u ↦ rw u (omega int_laws)
]
entry-add_amount a b x ((c, y) ∷ m) = elim (Bool-cases (str_eq c a)) [
  | inl same ↦
      rw same (ground (arith, str_eq_iff c a, str_eq_iff a b, str_eq_iff c b, +ℤ_zero (entry b m)))
  | inr other ↦ rw other (
      ground (
        arith,
        str_eq_iff c a,
        str_eq_iff a b,
        str_eq_iff c b,
        +ℤ_zero y,
        entry-add_amount a b x m,
      ))
]

add_amount-Fresh :
    (a b : String) (x : ℤ) (m : Totals)
    → str_eq a b ≡ false
    → Fresh b m
    → Fresh b (add_amount a x m)
unfolding add_amount
add_amount-Fresh a b x [] e h = (e, tt)
add_amount-Fresh a b x ((c, y) ∷ m) e h = ground (arith, add_amount-Fresh a b x m e)

add_amount-IsMap : (a : String) (x : ℤ) (m : Totals) → IsMap m → IsMap (add_amount a x m)
unfolding add_amount
add_amount-IsMap a x [] h = (tt, tt)
add_amount-IsMap a x ((c, y) ∷ m) h =
    ground (arith, add_amount-IsMap a x m, add_amount-Fresh a c x m, str_eq_iff c a, str_eq_iff a c)

payable_where-Fresh : (b : String) (m : Totals) → Fresh b m → payable_where (only b) m ≡ pos 0
payable_where-Fresh b [] h = refl
payable_where-Fresh b ((a, x) ∷ m) h = rw (h.0, payable_where-Fresh b m h.1) (omega int_laws)

-- In a map the entries of one miner are one entry.
payable_where-entry :
    (b : String) (m : Totals) → IsMap m → payable_where (only b) m ≡ payable (entry b m)
payable_where-entry b [] h = refl
payable_where-entry b ((a, x) ∷ m) h = elim (Bool-cases (str_eq a b)) [
  | inl t ↦ rw t (
      ap (λ g. payable x +ℤ g)
        (payable_where-Fresh b m (subst (λ k. Fresh k m) ((str_eq_iff a b).0 t) h.0))
      ∙ +ℤ_zero (payable x))
  | inr u ↦ rw u (+ℤ_zero_left _ ∙ payable_where-entry b m h.1)
]

module _ (f : Float64) (distributable : ℤ) (total : f.F) where
  -- The amounts of one miner's shares, added up in the order of the log.
  abbrev pub earned_from : String → ℤ → ShareLog f → ℤ
  earned_from b acc [] = acc
  earned_from b acc (s ∷ shares) =
      earned_from b
        (acc +ℤ (if str_eq s.miner_address b then amount_of f distributable total s else pos 0))
        shares

  entry-per_miner_totals :
      (b : String) (shares : ShareLog f) (m : Totals)
      → entry b (per_miner_totals f distributable total shares m) ≡ earned_from b (entry b m) shares
  unfolding per_miner_totals
  entry-per_miner_totals b [] m = refl
  entry-per_miner_totals b (s ∷ shares) m =
      entry-per_miner_totals b shares
        (add_amount s.miner_address (amount_of f distributable total s) m)
      ∙ ap (λ acc. earned_from b acc shares)
          (entry-add_amount s.miner_address b (amount_of f distributable total s) m)

  per_miner_totals-IsMap :
      (shares : ShareLog f) (m : Totals)
      → IsMap m
      → IsMap (per_miner_totals f distributable total shares m)
  unfolding per_miner_totals
  per_miner_totals-IsMap [] m h = h
  per_miner_totals-IsMap (s ∷ shares) m h =
      per_miner_totals-IsMap shares
        (add_amount s.miner_address (amount_of f distributable total s) m)
        (add_amount-IsMap s.miner_address (amount_of f distributable total s) m h)

-- Each miner is credited the amounts of its own shares in the window, added up, if the sum is above
-- 0; where the window has no difficulty nobody is credited.
pub process_block_found_credits :
    (f : Float64) (config : Config) (now height : ℕ) (reward : ℤ) (log : ShareLog f) (books : Books)
    (b : String)
    → let shares = get_shares_in_window f (window_start config now) log in
      let total = sum_difficulty f (f.of_int (pos 0)) shares in
      let earned =
        earned_from f (f.floor (distributable_of f config reward)) total b (pos 0) shares in
      get_pending_total b (process_block_found f config now height reward log books).ledger.rows
      ≡ get_pending_total b books.ledger.rows
        +ℤ (if f.le total (f.of_int (pos 0)) then pos 0 else payable earned)
unfolding process_block_found distribute get_pending_total
process_block_found_credits f config now height reward log books b =
    let shares = get_shares_in_window f (window_start config now) log in
    let total = sum_difficulty f (f.of_int (pos 0)) shares in
    let d = f.floor (distributable_of f config reward) in
    let m = per_miner_totals f d total shares [] in
    elim (Bool-cases (f.le total (f.of_int (pos 0)))) [
      | inl empty ↦ rw empty (sym (+ℤ_zero (get_pending_total b books.ledger.rows)))
      | inr some_work ↦ rw some_work (
          credit_all_pays now height (only b) m (pos 0) books.ledger
          ∙ ap (λ g. get_pending_total b books.ledger.rows +ℤ g)
              (payable_where-entry b m (per_miner_totals-IsMap f d total shares [] tt)
                ∙ ap payable (entry-per_miner_totals f d total b shares [])))
    ]
