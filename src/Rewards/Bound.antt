-- ===== src/Rewards/Bound.antt =====
-- Rounding never gives more to the miners than there is to distribute.
use native.Mathlib.Nat.{pow-suc, pow-zero}
use elektron_net_ppool.Common.{
  ℕ, ◌+◌, ◌*◌, ◌^◌, ◌≤◌, ◌<◌, ℤ, pos, pos_part, ◌+ℤ◌, ◌≤ℤ◌, pos_part-+ℤ_le, int_laws, ◌≡◌, refl,
  String, str_eq, false, [], ◌∷◌, All, length, arith, Bool-cases, inl, inr,
}
use elektron_net_ppool.Common.Float.{Float64}
use elektron_net_ppool.Common.Products.{rounded_share, rounded_sum, rounded_total, pow-add_two}
use elektron_net_ppool.Config.{Config}
use elektron_net_ppool.Shares.{
  PplnsShareEntity, ShareLog, sum_difficulty, get_shares_in_window, window_start,
}
use elektron_net_ppool.Ledger.{get_total_pending_across_all_miners}
use elektron_net_ppool.Rewards.{
  Books, Totals, add_amount, distributable_of, amount_of, per_miner_totals, distribute,
  process_block_found,
}
use elektron_net_ppool.Rewards.Conserves.{payable, payable_where, all_miners, credit_all_pays}

-- IEEE 754 arithmetic on values that are 0 or positive and normal (`Fits`), against their exact
-- values, which are whole numbers of some smallest unit, `scale` units to 1. Each operation returns
-- a nearest value, so it is off by one part in `k` at most, which is 2 ^ 53 for a double.
pub record Rounds (f : Float64) (k : ℕ) : Type 1 where
  pub Fits : f.F → Type 0
  pub units : f.F → ℕ
  pub scale : ℕ
  pub scale_pos : 0 < scale
  pub add_near :
      (a b : f.F)
      → Fits a
      → Fits b
      → Fits (f.add a b)
      → (units a + units b) * k ≤ units (f.add a b) * (k + 1)
  pub div_near :
      (a b : f.F)
      → Fits a
      → Fits b
      → Fits (f.div a b)
      → units (f.div a b) * units b * k ≤ units a * scale * (k + 1)
  pub mul_near :
      (n : ℕ) (b : f.F)
      → Fits b
      → Fits (f.mul (f.of_int (pos n)) b)
      → units (f.mul (f.of_int (pos n)) b) * k ≤ n * units b * (k + 1)
  pub floor_below : (a : f.F) → Fits a → pos_part (f.floor a) * scale ≤ units a
  pub le_zero : (a : f.F) → Fits a → f.le a (f.of_int (pos 0)) ≡ false → 0 < units a

-- What a list of totals pays, in lepton.
abbrev paid_out : Totals → ℕ
paid_out [] = 0
paid_out ((a, x) ∷ m) = pos_part x + paid_out m

payable-pos_part : (x : ℤ) → payable x ≡ pos (pos_part x)
payable-pos_part x = ground arith

payable_where-paid_out : (m : Totals) → payable_where all_miners m ≡ pos (paid_out m)
payable_where-paid_out [] = refl
payable_where-paid_out ((a, x) ∷ m) =
    rw (payable_where-paid_out m, payable-pos_part x) (omega int_laws)

paid_out-add_amount :
    (a : String) (x : ℤ) (m : Totals) → paid_out (add_amount a x m) ≤ paid_out m + pos_part x
unfolding add_amount
paid_out-add_amount a x [] = omega (arith, pos_part-+ℤ_le (pos 0) x)
paid_out-add_amount a x ((c, y) ∷ m) = elim (Bool-cases (str_eq c a)) [
  | inl t ↦ rw t (omega (arith, pos_part-+ℤ_le y x))
  | inr u ↦ rw u (omega (arith, paid_out-add_amount a x m))
]

module _ (f : Float64) (k : ℕ) (r : Rounds f k) (distributable : ℕ) (total : f.F) where
  abbrev amounts : ShareLog f → ℕ
  amounts [] = 0
  amounts (s ∷ shares) = pos_part (amount_of f (pos distributable) total s) + amounts shares

  abbrev difficulties : ShareLog f → ℕ
  difficulties [] = 0
  difficulties (s ∷ shares) = r.units s.difficulty + difficulties shares

  paid_out-per_miner_totals :
      (shares : ShareLog f) (m : Totals)
      → paid_out (per_miner_totals f (pos distributable) total shares m)
        ≤ paid_out m + amounts shares
  unfolding per_miner_totals
  paid_out-per_miner_totals [] m = omega arith
  paid_out-per_miner_totals (s ∷ shares) m =
      let x = amount_of f (pos distributable) total s in
      omega (
        arith,
        paid_out-per_miner_totals shares (add_amount s.miner_address x m),
        paid_out-add_amount s.miner_address x m,
      )

  -- The numbers of the computation are 0 or positive and normal.
  abbrev FitsShare : PplnsShareEntity f → Type 0
  FitsShare s =
      r.Fits s.difficulty
      × r.Fits (f.div s.difficulty total)
      × r.Fits (f.mul (f.of_int (pos distributable)) (f.div s.difficulty total))

  abbrev FitsSums : f.F → ShareLog f → Type 0
  FitsSums acc [] = r.Fits acc
  FitsSums acc (s ∷ shares) = r.Fits acc × FitsSums (f.add acc s.difficulty) shares

  amounts_near :
      (shares : ShareLog f)
      → r.Fits total
      → All FitsShare shares
      → amounts shares * r.units total * (k * k)
        ≤ distributable * difficulties shares * ((k + 1) * (k + 1))
  amounts_near [] t h = omega arith
  amounts_near (s ∷ shares) t h =
      let q = f.div s.difficulty total in
      let m = f.mul (f.of_int (pos distributable)) q in
      omega (
        arith,
        amounts_near shares t h.1,
        rounded_share (pos_part (f.floor m)) r.scale (r.units m) k (k + 1) distributable (r.units q)
            (r.units total) (r.units s.difficulty) (r.floor_below m h.0.2)
            (r.mul_near distributable q h.0.1 h.0.2) (r.div_near s.difficulty total h.0.0 t h.0.1)
            r.scale_pos,
      )

  FitsSums-head : (acc : f.F) (shares : ShareLog f) → FitsSums acc shares → r.Fits acc
  FitsSums-head acc [] h = h
  FitsSums-head acc (s ∷ shares) h = h.0

  sum_near :
      (acc : f.F) (shares : ShareLog f)
      → FitsSums acc shares
      → All FitsShare shares
      → (r.units acc + difficulties shares) * k ^ length shares
        ≤ r.units (sum_difficulty f acc shares) * (k + 1) ^ length shares
  sum_near acc [] h g = rw (pow-zero, pow-zero) (omega arith)
  sum_near acc (s ∷ shares) h g =
      let u = f.add acc s.difficulty in
      rw (pow-suc, pow-suc)
        (rounded_sum (r.units acc) (r.units s.difficulty) (r.units u) (difficulties shares)
          (r.units (sum_difficulty f u shares)) k (k + 1) (k ^ length shares)
          ((k + 1) ^ length shares)
          (r.add_near acc s.difficulty h.0 g.0.0 (FitsSums-head u shares h.1)) (omega arith)
          (sum_near u shares h.1 g.1))

  abbrev IsSmall : ShareLog f → Type 0
  IsSmall shares =
      distributable * (k + 1) ^ (length shares + 2) < (distributable + 1) * k ^ (length shares + 2)

  pub amounts-le :
      (start : f.F) (shares : ShareLog f)
      → total ≡ sum_difficulty f start shares
      → FitsSums start shares
      → All FitsShare shares
      → r.Fits total
      → f.le total (f.of_int (pos 0)) ≡ false
      → IsSmall shares
      → amounts shares ≤ distributable
  amounts-le start shares e h g t positive small =
      rounded_total (amounts shares) distributable (r.units total) (difficulties shares) k (k + 1)
        (k ^ length shares) ((k + 1) ^ length shares) (amounts_near shares t g)
        (rw e (omega (arith, sum_near start shares h g))) (r.le_zero total t positive)
        (rw (pow-add_two k (length shares), pow-add_two (k + 1) (length shares)) at small)

-- What a block is split by: the shares of the window and their total difficulty.
abbrev pub shares_of : (f : Float64) → Config → (now : ℕ) → ShareLog f → ShareLog f
shares_of f config now log = get_shares_in_window f (window_start config now) log

abbrev pub total_of : (f : Float64) → Config → (now : ℕ) → ShareLog f → f.F
total_of f config now log = sum_difficulty f (f.of_int (pos 0)) (shares_of f config now log)

-- No value of the split is negative, under- or overflows, and the amount and the number of shares
-- are small against the precision.
pub record IsRepresentable (f : Float64) (k : ℕ) (r : Rounds f k) (config : Config) (now : ℕ)
    (log : ShareLog f) (distributable : ℕ) : Type 0 where
  pub sums :
      FitsSums f k r distributable
        (total_of f config now log)
        (f.of_int (pos 0))
        (shares_of f config now log)
  pub shares :
      All (FitsShare f k r distributable (total_of f config now log)) (shares_of f config now log)
  pub total : r.Fits (total_of f config now log)
  pub small : IsSmall f k r distributable (total_of f config now log) (shares_of f config now log)

-- Where the window's total difficulty is positive, no value under- or overflows, and the amount to
-- distribute and the number of shares are small against the precision, the pending balances of all
-- miners together grow by no more than that amount.
pub process_block_found_never_overpays :
    (f : Float64) (k : ℕ) (r : Rounds f k) (config : Config) (now height : ℕ) (reward : ℤ)
    (log : ShareLog f) (books : Books) (distributable : ℕ)
    → f.floor (distributable_of f config reward) ≡ pos distributable
    → f.le (total_of f config now log) (f.of_int (pos 0)) ≡ false
    → IsRepresentable f k r config now log distributable
    → get_total_pending_across_all_miners
        (process_block_found f config now height reward log books).ledger.rows
      ≤ℤ get_total_pending_across_all_miners books.ledger.rows +ℤ pos distributable
unfolding process_block_found distribute get_total_pending_across_all_miners
process_block_found_never_overpays f k r config now height reward log books d e positive fits =
    let total = total_of f config now log in
    let shares = shares_of f config now log in
    let m = per_miner_totals f (pos d) total shares [] in
    let bound =
      amounts-le f k r d total (f.of_int (pos 0)) shares refl fits.sums fits.shares fits.total
        positive fits.small in
    let paid = paid_out-per_miner_totals f k r d total shares [] in
    rw
      (
        positive,
        e,
        credit_all_pays now height all_miners m (pos 0) books.ledger,
        payable_where-paid_out m,
      )
      (omega int_laws)
