-- ===== src/Statistics/Difficulty.antt =====
-- The difficulty that a session's statistics suggest
-- (src/models/StratumV1ClientStatistics.ts): getSuggestedDifficulty and nearestPowerOfTwo.
use elektron_net_ppool.Common.{
  ℕ, zero, suc, ◌+◌, ◌-◌, ◌/◌, ◌%◌, ◌^◌, ℤ, pos, negsuc, ◌-ℤ◌, Bool, true, false, ◌&&◌, Option,
  none, some, List, [], ◌∷◌, length, ltb, if◌then◌else◌,
}
use elektron_net_ppool.Common.Float.{Float64}
use elektron_net_ppool.Statistics.{Entry, Statistics}
use Prim.Native.Nat.{bit_or}

-- The bits of a number below 2 ^ 32 moved down by `k`, with the sign's bit repeated: `>>`.
abbrev pub shift_right : ℕ → ℕ → ℕ
shift_right x k = x / 2 ^ k + (if ltb x (2 ^ 31) then 0 else 2 ^ 32 - 2 ^ (32 - k))

-- `x | (x >> k)`
abbrev pub smear : ℕ → ℕ → ℕ
smear k x = bit_or x (shift_right x k)

abbrev pub to_signed : ℕ → ℤ
to_signed n = if ltb n (2 ^ 31) then pos n else negsuc ((2 ^ 32 - 1) - n)

-- `x - (x >> 1)` of the smeared number; a shift by 32 is one by 0.
unfoldable pub highest_bit : ℕ → ℤ
highest_bit n =
    let x = smear 0 (smear 16 (smear 8 (smear 4 (smear 2 (smear 1 n))))) in
    to_signed x -ℤ to_signed (shift_right x 1)

-- `ToInt32` of a whole number, as the number below 2 ^ 32 with the same bits.
abbrev pub bits_of : ℤ → ℕ
bits_of (pos n) = n % 2 ^ 32
bits_of (negsuc n) = (2 ^ 32 - 1) - n % 2 ^ 32

abbrev pub is_zero : ℤ → Bool
is_zero (pos zero) = true
is_zero _ = false

module _ (f : Float64) where
  -- 0.00001
  abbrev pub min_diff : f.F
  min_diff = f.div (f.of_int (pos 1)) (f.of_int (pos 100_000))

  abbrev pub hundredth : Option (Option f.F) → Option (Option f.F)
  hundredth none = none
  hundredth (some none) = some (some (f.div (f.of_int (pos 0)) (f.of_int (pos 100))))
  hundredth (some (some d)) = some (some (f.div d (f.of_int (pos 100))))

  -- Of a finite value. The outer `none` is a run that is out of fuel, the inner one is `null`.
  unfoldable pub nearest_power_of_two : (fuel : ℕ) → f.F → Option (Option f.F)
  nearest_power_of_two zero val = none
  nearest_power_of_two (suc fuel) val =
      let larger = f.mul val (f.of_int (pos 100)) in
      let rest = nearest_power_of_two fuel larger in
      let res = highest_bit (bits_of (f.floor val)) in
      if f.le val (f.of_int (pos 0)) && f.le (f.of_int (pos 0)) val
      then some none
      else if f.lt val min_diff
      then some (some min_diff)
      else if is_zero res && f.lt larger min_diff
      then some (some min_diff)
      else if is_zero res
      then hundredth rest
      else some (some (f.of_int res))

  abbrev sum_difficulty : f.F → List (Entry f) → f.F
  sum_difficulty pre [] = pre
  sum_difficulty pre (cur ∷ cache) = sum_difficulty (f.add pre cur.difficulty) cache

  abbrev last_time : ℕ → List (Entry f) → ℕ
  last_time t [] = t
  last_time t (e ∷ cache) = last_time e.time cache

  -- Ten times the difficulty per second of the entries.
  unfoldable pub target_difficulty : Entry f → List (Entry f) → f.F
  target_difficulty e cache =
      let diff_seconds =
        f.div (f.of_int (pos (last_time e.time cache) -ℤ pos e.time)) (f.of_int (pos 1000)) in
      f.mul (f.div (sum_difficulty (f.of_int (pos 0)) (e ∷ cache)) diff_seconds) (f.of_int (pos 10))

  abbrev from_cache : (fuel : ℕ) → f.F → List (Entry f) → Option (Option f.F)
  unfolding target_difficulty nearest_power_of_two
  from_cache fuel client_difficulty [] = some none
  from_cache fuel client_difficulty (e ∷ cache) =
      let target = target_difficulty e cache in
      let answer = nearest_power_of_two fuel target in
      if f.lt (f.mul client_difficulty (f.of_int (pos 2))) target
      then answer
      else if f.lt target (f.div client_difficulty (f.of_int (pos 2)))
      then answer
      else some none

  unfoldable pub get_suggested_difficulty :
      (fuel now : ℕ) → f.F → Statistics f → Option (Option f.F)
  unfolding from_cache nearest_power_of_two
  get_suggested_difficulty fuel now client_difficulty s =
      if ltb (length s.submission_cache) 5
      then (if ltb (s.submission_cache_start + 60_000) now
          then nearest_power_of_two fuel (f.div client_difficulty (f.of_int (pos 6)))
          else some none)
      else from_cache fuel client_difficulty s.submission_cache
