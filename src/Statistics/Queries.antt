-- ===== src/Statistics/Queries.antt =====
-- The questions that the dashboard asks of the saved statistics
-- (src/ORM/client-statistics/client-statistics.service.ts): sums, hash rates and charts. A chart's label
-- is kept as its milliseconds; the order in which SQL adds floats is one of the possible ones.
use elektron_net_ppool.Common.{
  ℕ, ◌+◌, ◌*◌, ◌^◌, ℤ, pos, ◌-ℤ◌, String, str_eq, Bool, true, ◌&&◌, List, [], ◌∷◌, map, filter,
  take, ltb, ltb_ℤ, leb, ◌==◌, if◌then◌else◌,
}
use elektron_net_ppool.Common.Float.{Float64}
use elektron_net_ppool.Statistics.{Owner, owner_eq, Row}

-- The `WHERE` clauses.
pub data Scope : Type 0 where
  for_pool : Scope
  for_address : String → Scope
  for_group : String → String → Scope
  for_session : Owner → Scope

unfoldable pub in_scope : Scope → Owner → Bool
unfolding owner_eq
in_scope for_pool o = true
in_scope (for_address address) o = str_eq address o.address
in_scope (for_group address name) o = str_eq address o.address && str_eq name o.client_name
in_scope (for_session owner) o = owner_eq owner o

abbrev pub minute : ℕ
minute = 60_000

-- `time >= now - age`
abbrev pub is_since : (now age : ℕ) → ℕ → Bool
is_since now age time = leb now (time + age)

-- `time > now - age`
abbrev pub is_after : (now age : ℕ) → ℕ → Bool
is_after now age time = ltb now (time + age)

-- `slice(0, length - 1)`
unfoldable pub all_but_last {ℓ} : {A : Type ℓ} → List A → List A
all_but_last [] = []
all_but_last (x ∷ []) = []
all_but_last (x ∷ y ∷ xs) = x ∷ all_but_last (y ∷ xs)

module _ (f : Float64) where
  -- `COALESCE(SUM(acceptedCount), 0)` of the rows that pass a test.
  unfoldable pub sum_accepted : (Row f → Bool) → List (Row f) → ℕ
  sum_accepted p [] = 0
  sum_accepted p (r ∷ rows) =
      let rest = sum_accepted p rows in if p r then r.accepted_count + rest else rest

  abbrev pub sum_shares : (Row f → Bool) → List (Row f) → f.F
  sum_shares p [] = f.of_int (pos 0)
  sum_shares p (r ∷ rows) =
      let rest = sum_shares p rows in if p r then f.add rest r.shares else rest

  -- `(x * 4294967296) / seconds`
  abbrev pub per_second : ℕ → f.F → f.F
  per_second seconds x = f.div (f.mul x (f.of_int (pos (2 ^ 32)))) (f.of_int (pos seconds))

  pub record Accounting : Type 0 where
    pub total_credited_difficulty : f.F
    pub total_accepted_shares : ℕ
    pub credited_difficulty_last_hour : f.F
    pub accepted_shares_last_10_minutes : ℕ
    pub hash_rate_last_10_minutes : f.F
    pub hash_rate_last_hour : f.F

  abbrev pub is_in : Scope → Row f → Bool
  is_in scope r = in_scope scope r.owner

  unfoldable pub get_accounting : (now : ℕ) → Scope → List (Row f) → Accounting
  unfolding in_scope sum_accepted
  get_accounting now scope rows =
      let selected = filter (is_in scope) rows in
      let last_hour = sum_shares (λ r. is_since now (60 * minute) r.time) selected in
      let last_10_minutes = sum_shares (λ r. is_since now (10 * minute) r.time) selected in
      record {
        total_credited_difficulty = sum_shares (λ r. true) selected;
        total_accepted_shares = sum_accepted (λ r. true) selected;
        credited_difficulty_last_hour = last_hour;
        accepted_shares_last_10_minutes =
            sum_accepted (λ r. is_since now (10 * minute) r.time) selected;
        hash_rate_last_10_minutes = per_second (10 * 60) last_10_minutes;
        hash_rate_last_hour = per_second (60 * 60) last_hour;
      }

  -- The hour's sum over the seconds of ten minutes.
  unfoldable pub get_hash_rate_for_group : (now : ℕ) → String → String → List (Row f) → f.F
  unfolding in_scope
  get_hash_rate_for_group now address name rows = per_second 600 (
      sum_shares (λ r. is_after now (60 * minute) r.time)
        (filter (is_in (for_group address name)) rows))

  -- A saved row with the columns of TrackedEntity.
  pub record Tracked : Type 0 where
    pub created_at : ℕ
    pub updated_at : ℕ
    pub row : Row f

  -- `ORDER BY time DESC`
  abbrev pub insert_latest : Tracked → List Tracked → List Tracked
  insert_latest t [] = t ∷ []
  insert_latest t (u ∷ us) =
      let rest = insert_latest t us in if ltb t.row.time u.row.time then u ∷ rest else t ∷ u ∷ us

  abbrev pub latest_first : List Tracked → List Tracked
  latest_first [] = []
  latest_first (t ∷ ts) = insert_latest t (latest_first ts)

  -- `(shares * 4294967296) / (time / 1000)`, and 0 for less than a minute
  abbrev pub rate_over : ℤ → f.F → f.F
  rate_over time shares =
      if ltb_ℤ time (pos minute)
      then f.of_int (pos 0)
      else f.div (f.mul shares (f.of_int (pos (2 ^ 32))))
          (f.div (f.of_int time) (f.of_int (pos 1000)))

  abbrev pub rate_of_latest : List Tracked → f.F
  rate_of_latest [] = f.of_int (pos 0)
  rate_of_latest (t ∷ []) = rate_over (pos t.updated_at -ℤ pos t.created_at) t.row.shares
  rate_of_latest (t ∷ u ∷ others) =
      rate_over (pos t.updated_at -ℤ pos u.created_at) (f.add t.row.shares u.row.shares)

  unfoldable pub get_hash_rate_for_session : Owner → List Tracked → f.F
  unfolding in_scope
  get_hash_rate_for_session owner rows =
      rate_of_latest (take 2 (latest_first (filter (λ t. is_in (for_session owner) t.row) rows)))

  -- `GROUP BY time ORDER BY time` with `SUM(shares)`, one row at a time.
  abbrev pub add_to_chart : ℕ → f.F → List (ℕ × f.F) → List (ℕ × f.F)
  add_to_chart t x [] = (t, x) ∷ []
  add_to_chart t x ((u, y) ∷ chart) =
      let rest = add_to_chart t x chart in
      if ltb t u
      then (t, x) ∷ (u, y) ∷ chart
      else if t == u
      then (u, f.add y x) ∷ chart
      else (u, y) ∷ rest

  unfoldable pub group_by_time : List (Row f) → List (ℕ × f.F)
  group_by_time [] = []
  group_by_time (r ∷ rows) = add_to_chart r.time r.shares (group_by_time rows)

  abbrev pub chart_points : ℕ
  chart_points = 144

  abbrev pub day : ℕ
  day = 24 * 60 * minute

  -- The rows of the last day.
  abbrev pub in_window : (now : ℕ) → Scope → Row f → Bool
  in_window now scope r = is_in scope r && is_after now day r.time

  -- `getChartDataForSite` rounds what it shows, the others do not.
  abbrev pub shown : Scope → ℕ × f.F → ℕ × f.F
  shown for_pool (t, x) = (t, f.of_int (f.round (per_second 600 x)))
  shown scope (t, x) = (t, per_second 600 x)

  unfoldable pub get_chart_data : (now : ℕ) → Scope → List (Row f) → List (ℕ × f.F)
  unfolding in_scope all_but_last group_by_time
  get_chart_data now scope rows =
      all_but_last
        (map (shown scope) (take chart_points (group_by_time (filter (in_window now scope) rows))))
