-- ===== src/Shares/Window.antt =====
-- Pruning and recording against the window that a reward is computed from.
use elektron_net_ppool.Common.{
  ℕ, ◌≤◌, ℤ, pos, ◌≤ℤ◌, int_laws, ≤ℤ→leb_ℤ, ◌≡◌, refl, ◌∙◌, String, Bool, [], ◌∷◌, ◌++◌, filter,
  arith,
}
use elektron_net_ppool.Common.Float.{Float64}
use elektron_net_ppool.Config.{Config}
use elektron_net_ppool.Shares.{
  PplnsShareEntity, ShareLog, window_start, prune_cutoff, in_window, record_share,
  get_shares_in_window, prune_older_than,
}

module _ (f : Float64) where
  prune-window :
      (cutoff start : ℤ) (log : ShareLog f)
      → cutoff ≤ℤ start
      → get_shares_in_window f start (prune_older_than f cutoff log)
        ≡ get_shares_in_window f start log
  unfolding get_shares_in_window prune_older_than
  prune-window cutoff start [] h = refl
  prune-window cutoff start (s ∷ log) h = ground (arith, prune-window cutoff start log h)

  -- The hourly sweep at one time removes no share from the window of that or of any later time.
  pub prune_keeps_window :
      (config : Config) (swept now : ℕ) (log : ShareLog f)
      → swept ≤ now
      → get_shares_in_window f
          (window_start config now)
          (prune_older_than f (prune_cutoff config swept) log)
        ≡ get_shares_in_window f (window_start config now) log
  prune_keeps_window config swept now log h =
      prune-window (prune_cutoff config swept) (window_start config now) log (omega int_laws)

  filter-append :
      (p : PplnsShareEntity f → Bool) (xs ys : ShareLog f)
      → filter p (xs ++ ys) ≡ filter p xs ++ filter p ys
  filter-append p [] ys = refl
  filter-append p (x ∷ xs) ys = ground (arith, filter-append p xs ys)

  -- A share that is recorded is the last of the window at that time, whatever the window's length, so
  -- the share that finds a block takes part in the block's own reward.
  pub record_share_in_window :
      (config : Config) (now : ℕ) (a : String) (d : f.F) (height : ℕ) (log : ShareLog f)
      → get_shares_in_window f (window_start config now) (record_share f now a d height log)
        ≡ get_shares_in_window f (window_start config now) log
          ++ record {
            miner_address = a;
            difficulty = d;
            timestamp = now;
            block_height_at_submission = height;
          }
            ∷ []
  unfolding get_shares_in_window record_share
  record_share_in_window config now a d height log =
      filter-append (in_window f (window_start config now)) log _
      ∙ rw (≤ℤ→leb_ℤ (window_start config now) (pos now) (omega int_laws))
