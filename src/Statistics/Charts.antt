-- ===== src/Statistics/Charts.antt =====
-- What the charts of the dashboard show.
use elektron_net_ppool.Common.{
  take, ℕ, zero, suc, ◌+◌, ◌-◌, ◌/◌, ◌%◌, ◌≤◌, ◌<◌, ◌≡◌, refl, Bool, true, false, ◌&&◌, Option,
  none, some, List, [], ◌∷◌, map, length, filter, ltb, ◌==◌, if◌then◌else◌, arith, All, All-map,
  All-and, All-filter, filter-All, Bool-cases, inl, inr,
}
use elektron_net_ppool.Common.Float.{Float64}
use elektron_net_ppool.Statistics.{Row, coeff}
use elektron_net_ppool.Statistics.Queries.{
  Scope, is_in, in_window, all_but_last, add_to_chart, group_by_time, shown, get_chart_data, day,
  is_after,
}

module _ (f : Float64) where
  -- The labels rise.
  unfoldable pub Rising : List (ℕ × f.F) → Type 0
  Rising [] = Unit
  Rising ((t, x) ∷ chart) = All (λ p. t < p.0) chart × Rising chart

  -- The value at a label.
  unfoldable pub value_at : ℕ → List (ℕ × f.F) → Option f.F
  value_at t [] = none
  value_at t ((u, x) ∷ chart) = if u == t then some x else value_at t chart

  abbrev pub plus : Option f.F → f.F → f.F
  plus none x = x
  plus (some y) x = f.add y x

  -- The sum of the shares of the rows of one time, where there are any.
  unfoldable pub total_at : ℕ → List (Row f) → Option f.F
  total_at t [] = none
  total_at t (r ∷ rows) =
      let rest = total_at t rows in if r.time == t then some (plus rest r.shares) else rest

  above_none :
      (t u : ℕ) (chart : List (ℕ × f.F))
      → t ≤ u
      → All (λ p. u < p.0) chart
      → value_at t chart ≡ none
  unfolding value_at
  above_none t u [] h k = refl
  above_none t u ((v, y) ∷ chart) h k = ground (arith, above_none t u chart h k.1)

  value_at-add_to_chart :
      (s t : ℕ) (x : f.F) (chart : List (ℕ × f.F))
      → Rising chart
      → value_at s (add_to_chart f t x chart)
        ≡ (if t == s then some (plus (value_at s chart) x) else value_at s chart)
  unfolding value_at Rising
  value_at-add_to_chart s t x [] h = refl
  value_at-add_to_chart s t x ((u, y) ∷ chart) h =
      let missing : s ≤ u → value_at s chart ≡ none = λ k. above_none s u chart k h.0 in
      ground (arith, missing, value_at-add_to_chart s t x chart h.1)

  add_to_chart-All :
      (P : ℕ → Type 0) (t : ℕ) (x : f.F) (chart : List (ℕ × f.F))
      → P t
      → All (λ p. P p.0) chart
      → All (λ p. P p.0) (add_to_chart f t x chart)
  add_to_chart-All P t x [] h k = (h, tt)
  add_to_chart-All P t x ((u, y) ∷ chart) h k =
      ground (arith, h, k, add_to_chart-All P t x chart h k.1)

  add_to_chart-Rising :
      (t : ℕ) (x : f.F) (chart : List (ℕ × f.F)) → Rising chart → Rising (add_to_chart f t x chart)
  unfolding Rising
  add_to_chart-Rising t x [] h = (tt, tt)
  add_to_chart-Rising t x ((u, y) ∷ chart) h =
      let later : u < t → All (λ p. u < p.0) (add_to_chart f t x chart) =
        λ k. add_to_chart-All (λ s. u < s) t x chart k h.0 in
      let all_later : t < u → All (λ p. t < p.0) chart =
        λ k. All-map (λ p. u < p.0) (λ p. t < p.0) chart (λ p l. omega (arith, k, l)) h.0 in
      elim (Bool-cases (ltb t u)) [
        | inl e ↦ rw e ((ground (arith, e), all_later (ground (arith, e))), h)
        | inr e ↦ elim (Bool-cases (t == u)) [
          | inl e' ↦ rw (e, e') h
          | inr e' ↦ rw (e, e') (later (ground (arith, e, e')), add_to_chart-Rising t x chart h.1)
        ]
      ]

  group_by_time-Rising : (rows : List (Row f)) → Rising (group_by_time f rows)
  unfolding group_by_time Rising
  group_by_time-Rising [] = tt
  group_by_time-Rising (r ∷ rows) =
      add_to_chart-Rising r.time r.shares (group_by_time f rows) (group_by_time-Rising rows)

  group_by_time-total :
      (t : ℕ) (rows : List (Row f)) → value_at t (group_by_time f rows) ≡ total_at t rows
  unfolding group_by_time total_at value_at
  group_by_time-total t [] = refl
  group_by_time-total t (r ∷ rows) =
      rw
        (
          value_at-add_to_chart t r.time r.shares (group_by_time f rows)
              (group_by_time-Rising rows),
          group_by_time-total t rows,
        )
        refl

  group_by_time-All :
      (P : ℕ → Type 0) (rows : List (Row f))
      → All (λ r. P r.time) rows
      → All (λ p. P p.0) (group_by_time f rows)
  unfolding group_by_time
  group_by_time-All P [] h = tt
  group_by_time-All P (r ∷ rows) h =
      add_to_chart-All P r.time r.shares (group_by_time f rows) h.0 (group_by_time-All P rows h.1)

  -- A time slot between two others.
  unfoldable pub IsBetween : (low high : ℕ) → ℕ → Type 0
  IsBetween low high t = (t % coeff ≡ 0) × ((low ≤ t / coeff) × (t / coeff ≤ high))

  length-between :
      (low high : ℕ) (chart : List (ℕ × f.F))
      → Rising chart
      → All (λ p. IsBetween low high p.0) chart
      → low ≤ high + 1
      → length chart + low ≤ high + 1
  unfolding IsBetween Rising
  length-between low high [] h k l = omega (arith, l)
  length-between low high ((t, x) ∷ chart) h k l =
      let higher : (p : ℕ × f.F)
          → (t < p.0) × ((p.0 % coeff ≡ 0) × ((low ≤ p.0 / coeff) × (p.0 / coeff ≤ high)))
          → (p.0 % coeff ≡ 0) × ((t / coeff + 1 ≤ p.0 / coeff) × (p.0 / coeff ≤ high)) =
        λ p q. (q.1.0, (omega (arith, q.0, q.1.0, k.0.0), q.1.1.1)) in
      let rest =
        length-between (t / coeff + 1) high chart h.1
          (All-map _ _ chart higher (All-and _ _ chart h.0 k.1)) (omega (arith, k.0.1.1)) in
      omega (arith, rest, k.0.1.0)

  take_all : {A : Type 0} (n : ℕ) (xs : List A) → length xs ≤ n → take n xs ≡ xs
  take_all zero [] h = refl
  take_all zero (x ∷ xs) h = absurd (omega (arith, h))
  take_all (suc n) [] h = refl
  take_all (suc n) (x ∷ xs) h = rw (take_all n xs (omega (arith, h))) refl

  -- A saved row: the start of a slot of ten minutes that is not in the future.
  unfoldable pub IsSaved : (now : ℕ) → Row f → Type 0
  IsSaved now r = (r.time % coeff ≡ 0) × (r.time ≤ now)

  window-IsBetween :
      (now : ℕ) (scope : Scope) (rows : List (Row f))
      → All (IsSaved now) rows
      → All
          (λ r. IsBetween (now / coeff - 143) (now / coeff) r.time)
          (filter (in_window f now scope) rows)
  unfolding IsSaved IsBetween
  window-IsBetween now scope rows h =
      let recent : (r : Row f) → in_window f now scope r ≡ true → now < r.time + day f =
        λ r e. is_after_true (is_in f scope r) r.time e in
      All-map _ _ (filter (in_window f now scope) rows)
        (λ r q. (q.1.0, (omega (arith, q.0, q.1.0), omega (arith, q.1.1))))
        (All-and (λ r. now < r.time + day f) (IsSaved now) (filter (in_window f now scope) rows)
          (filter-All (in_window f now scope) (λ r. now < r.time + day f) rows recent)
          (All-filter (IsSaved now) (in_window f now scope) rows h))
    where
      is_after_true : (b : Bool) (t : ℕ) → (b && is_after now (day f) t) ≡ true → now < t + day f
      is_after_true true t e = ground arith
      is_after_true false t e = absurd (ground arith)

  -- Where the rows are saved at starts of slots up to now, a chart has, without the newest slot, every slot of the
  -- last day with its rows: the limit of 144 cuts nothing off. Its labels rise, and the value at a label
  -- is made from the sum of the shares of exactly the rows of that time in the scope.
  pub get_chart_data-group_by_time :
      (now : ℕ) (scope : Scope) (rows : List (Row f))
      → All (IsSaved now) rows
      → let window = filter (in_window f now scope) rows in
        let groups = group_by_time f window in
        (get_chart_data f now scope rows ≡ all_but_last (map (shown f scope) groups))
        × Rising groups
        × ((t : ℕ) → value_at t groups ≡ total_at t window)
  unfolding get_chart_data
  get_chart_data-group_by_time now scope rows h =
      let window = filter (in_window f now scope) rows in
      let groups = group_by_time f window in
      let fits =
        length-between (now / coeff - 143) (now / coeff) groups (group_by_time-Rising window)
          (group_by_time-All (IsBetween (now / coeff - 143) (now / coeff)) window
            (window-IsBetween now scope rows h))
          (omega arith) in
      (
        rw (take_all 144 groups (omega (arith, fits))) refl,
        group_by_time-Rising window,
        λ t. group_by_time-total t window,
      )
