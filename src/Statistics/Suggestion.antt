-- ===== src/Statistics/Suggestion.antt =====
-- The difficulty that is suggested: a power of two, found in at most four steps.
use elektron_net_ppool.Common.{
  false_not_true, ℕ, zero, suc, ◌^◌, ◌≤◌, ◌<◌, pos, ◌≡◌, refl, sym, ◌∙◌, Bool, true, false, ◌&&◌,
  Option, none, some, if◌then◌else◌, arith,
}
use native.Mathlib.Nat.{pow-suc}
use elektron_net_ppool.Common.Float.{Float64}
use elektron_net_ppool.Statistics.Difficulty.{
  highest_bit, bits_of, is_zero, min_diff, hundredth, nearest_power_of_two,
}
use elektron_net_ppool.Statistics.Power.{highest_bit-power}

bits_of-small : (n : ℕ) → n < 2 ^ 31 → bits_of (pos n) ≡ n
bits_of-small n h = omega arith

is_zero-pos : (n : ℕ) → 1 ≤ n → is_zero (pos n) ≡ false
is_zero-pos zero h = absurd (omega arith)
is_zero-pos (suc n) h = refl

power_pos : (k : ℕ) → 1 ≤ 2 ^ k
power_pos zero = omega arith
power_pos (suc k) = rw pow-suc (omega (arith, power_pos k))

not_zero : (n : ℕ) → 1 ≤ n → n < 2 ^ 31 → ¬ (is_zero (highest_bit (bits_of (pos n))) ≡ true)
not_zero n low high h =
    let (k, bit, le, lt) = highest_bit-power n low high in
    false_not_true
      (sym (rw (bits_of-small n high, bit, is_zero-pos (2 ^ k) (power_pos k)) refl) ∙ h)

small_enough : (m : ℕ) → m ≤ 100 → m < 2 ^ 31
small_enough m h = omega arith

module _ (f : Float64) where
  abbrev pub times_100 : f.F → f.F
  times_100 val = f.mul val (f.of_int (pos 100))

  -- What is used of the numbers: 100,000 times 100 times 100 is at least 1 however it is rounded,
  -- a hundredfold is not smaller, and the hundredfold of what is below 1 is at most 100.
  pub record Scales : Type 0 where
    pub nonneg : (val : f.F) → f.lt val (min_diff f) ≡ false → (n : ℕ) × (f.floor val ≡ pos n)
    pub grows :
        (val : f.F)
        → f.lt val (min_diff f) ≡ false
        → ¬ (f.floor (times_100 (times_100 (times_100 val))) ≡ pos 0)
    pub above :
        (val : f.F) → f.lt val (min_diff f) ≡ false → f.lt (times_100 val) (min_diff f) ≡ false
    pub small :
        (val : f.F) (n : ℕ) → f.floor val ≡ pos 0 → f.floor (times_100 val) ≡ pos n → n ≤ 100

  power_answer :
      (fuel n k : ℕ) (val : f.F)
      → f.floor val ≡ pos n
      → n < 2 ^ 31
      → highest_bit n ≡ pos (2 ^ k)
      → (f.le val (f.of_int (pos 0)) && f.le (f.of_int (pos 0)) val) ≡ false
      → f.lt val (min_diff f) ≡ false
      → nearest_power_of_two f (suc fuel) val ≡ some (some (f.of_int (pos (2 ^ k))))
  unfolding nearest_power_of_two
  power_answer fuel n k val e high bit nonzero above =
      rw (nonzero, above, e, bits_of-small n high, bit, is_zero-pos (2 ^ k) (power_pos k)) refl

  -- From 1 to below 2 ^ 31 the answer is the greatest power of two that is at most the value, at once.
  pub nearest_power_of_two-power :
      (fuel : ℕ) (val : f.F) (n : ℕ)
      → f.floor val ≡ pos n
      → 1 ≤ n
      → n < 2 ^ 31
      → (f.le val (f.of_int (pos 0)) && f.le (f.of_int (pos 0)) val) ≡ false
      → f.lt val (min_diff f) ≡ false
      → (k : ℕ) × (nearest_power_of_two f (suc fuel) val ≡ some (some (f.of_int (pos (2 ^ k)))))
        × (2 ^ k ≤ n)
        × (n < 2 ^ suc k)
  nearest_power_of_two-power fuel val n e low high nonzero above =
      let (k, bit, le, lt) = highest_bit-power n low high in
      (k, power_answer fuel n k val e high bit nonzero above, le, lt)

  -- There is an answer within the fuel.
  unfoldable pub Answers : Option (Option f.F) → Type 0
  Answers none = ⊥
  Answers (some d) = Unit

  hundredth-Answers : (o : Option (Option f.F)) → Answers o → Answers (hundredth f o)
  unfolding Answers
  hundredth-Answers none h = h
  hundredth-Answers (some none) h = tt
  hundredth-Answers (some (some d)) h = tt

  branches-Answers :
      (zero_value low lowest none_left : Bool) (rest : Option (Option f.F)) (res : f.F)
      → (low ≡ false → none_left ≡ true → Answers rest)
      → Answers (
          if zero_value
          then some none
          else if low
          then some (some (min_diff f))
          else if lowest
          then some (some (min_diff f))
          else if none_left
          then hundredth f rest
          else some (some res))
  unfolding Answers
  branches-Answers true low lowest none_left rest res h = tt
  branches-Answers false true lowest none_left rest res h = tt
  branches-Answers false false true none_left rest res h = tt
  branches-Answers false false false true rest res h = hundredth-Answers rest (h refl refl)
  branches-Answers false false false false rest res h = tt

  -- A value that is not answered at once is answered when its hundredfold is.
  next-Answers :
      (fuel : ℕ) (val : f.F)
      → (f.lt val (min_diff f) ≡ false
          → is_zero (highest_bit (bits_of (f.floor val))) ≡ true
          → Answers (nearest_power_of_two f fuel (times_100 val)))
      → Answers (nearest_power_of_two f (suc fuel) val)
  unfolding nearest_power_of_two
  next-Answers fuel val h =
      let larger = times_100 val in
      let res = highest_bit (bits_of (f.floor val)) in
      branches-Answers (f.le val (f.of_int (pos 0)) && f.le (f.of_int (pos 0)) val)
        (f.lt val (min_diff f)) (is_zero res && f.lt larger (min_diff f)) (is_zero res)
        (nearest_power_of_two f fuel larger) (f.of_int res) h

  level :
      (fuel : ℕ) (val : f.F) (n : ℕ)
      → f.floor val ≡ pos n
      → n < 2 ^ 31
      → (f.floor val ≡ pos 0
          → f.lt val (min_diff f) ≡ false
          → Answers (nearest_power_of_two f fuel (times_100 val)))
      → Answers (nearest_power_of_two f (suc fuel) val)
  level fuel val zero e high h = next-Answers fuel val (λ a _. h e a)
  level fuel val (suc n) e high h =
      next-Answers fuel val (λ a z. absurd (not_zero (suc n) (omega arith) high (rw e at z)))

  -- With numbers that scale, four steps are enough for every value that is not negative and below
  -- 2 ^ 31: the recursion ends.
  pub nearest_power_of_two-Answers :
      Scales
      → (val : f.F) (n : ℕ) → f.floor val ≡ pos n
      → n < 2 ^ 31
      → Answers (nearest_power_of_two f 4 val)
  nearest_power_of_two-Answers scales val n e high = level 3 val n e high (λ z a.
      let a1 = scales.above val a in
      let (m, e1) = scales.nonneg (times_100 val) a1 in
      level 2 (times_100 val) m e1 (small_enough m (scales.small val m z e1)) (λ z1 _.
        let a2 = scales.above (times_100 val) a1 in
        let (m2, e2) = scales.nonneg (times_100 (times_100 val)) a2 in
        level 1 (times_100 (times_100 val)) m2 e2
          (small_enough m2 (scales.small (times_100 val) m2 z1 e2))
          (λ z2 _.
            let a3 = scales.above (times_100 (times_100 val)) a2 in
            let (m3, e3) = scales.nonneg (times_100 (times_100 (times_100 val))) a3 in
            level 0 (times_100 (times_100 (times_100 val))) m3 e3
              (small_enough m3 (scales.small (times_100 (times_100 val)) m3 z2 e3))
              (λ z3 _. absurd (scales.grows val a z3)))))
