-- ===== src/Shares.antt =====
-- src/ORM/pplns-shares: the log of accepted shares and its window queries.
pub mod Window
use elektron_net_ppool.Common.{
  ℕ, suc, ◌+◌, ◌*◌, ℤ, pos, ◌-ℤ◌, leb_ℤ, ltb_ℤ, String, str_eq, Bool, true, false, List, [], ◌∷◌,
  ◌++◌, filter, if◌then◌else◌, length,
}
use elektron_net_ppool.Common.Float.{Float64}
use elektron_net_ppool.Config.{Config, positive_setting}

-- PplnsShareEntity; `id` is generated and no query reads it.
pub record PplnsShareEntity (f : Float64) : Type 0 where
  pub miner_address : String
  pub difficulty : f.F
  pub timestamp : ℕ
  pub block_height_at_submission : ℕ

abbrev pub minute_ms : ℕ
minute_ms = 60 * 1000

abbrev pub prune_safety_margin_ms : ℕ
prune_safety_margin_ms = 60 * 60 * 1000

abbrev pub get_window_minutes : Config → ℕ
get_window_minutes config = positive_setting config "PPLNS_WINDOW_MINUTES" 90

-- `Date.now() - windowMinutes * 60 * 1000`
abbrev pub window_start : Config → (now : ℕ) → ℤ
window_start config now = pos now -ℤ pos (get_window_minutes config * minute_ms)

-- The cutoff of the hourly sweep.
abbrev pub prune_cutoff : Config → (now : ℕ) → ℤ
prune_cutoff config now = window_start config now -ℤ pos prune_safety_margin_ms

module _ (f : Float64) where
  abbrev pub ShareLog : Type 0
  ShareLog = List (PplnsShareEntity f)

  unfoldable pub record_share : (now : ℕ) → String → f.F → ℕ → ShareLog → ShareLog
  record_share now miner_address difficulty block_height log =
      log
      ++ record {
        miner_address = miner_address;
        difficulty = difficulty;
        timestamp = now;
        block_height_at_submission = block_height;
      }
        ∷ []

  abbrev pub in_window : ℤ → PplnsShareEntity f → Bool
  in_window start s = leb_ℤ start (pos s.timestamp)

  unfoldable pub get_shares_in_window : ℤ → ShareLog → ShareLog
  get_shares_in_window start log = filter (in_window start) log

  abbrev pub sum_difficulty : f.F → ShareLog → f.F
  sum_difficulty acc [] = acc
  sum_difficulty acc (s ∷ log) = sum_difficulty (f.add acc s.difficulty) log

  abbrev pub add_name : String → List String → List String
  add_name a [] = a ∷ []
  add_name a (b ∷ names) = if str_eq b a then b ∷ names else b ∷ add_name a names

  abbrev pub miners : ShareLog → List String
  miners [] = []
  miners (s ∷ log) = add_name s.miner_address (miners log)

  -- `SUM(difficulty)` and `COUNT(DISTINCT minerAddress)`
  unfoldable pub get_window_stats : ℤ → ShareLog → f.F × ℕ
  unfolding get_shares_in_window
  get_window_stats start log =
      let shares = get_shares_in_window start log in
      (sum_difficulty (f.of_int (pos 0)) shares, length (miners shares))

  unfoldable pub prune_older_than : ℤ → ShareLog → ShareLog
  prune_older_than cutoff log = filter (λ s. leb_ℤ cutoff (pos s.timestamp)) log
