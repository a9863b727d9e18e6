-- ===== src/Statistics/Totals.antt =====
-- The accounting of a session counts the shares that it submitted.
use elektron_net_ppool.Common.{
  ℕ, ◌+◌, ◌*◌, ◌≤◌, ◌≡◌, refl, Bool, true, Option, none, some, List, [], ◌∷◌, length, filter, arith,
}
use elektron_net_ppool.Common.Float.{Float64}
use elektron_net_ppool.Statistics.{Owner, owner_eq, Row, new_statistics}
use elektron_net_ppool.Statistics.Rows.{rows_of, accepted_in, Counts, IsCounted}
use elektron_net_ppool.Statistics.Counts.{
  IsCountedAfter, Share, add_all, InOrder, add_all-IsCountedAfter,
}
use elektron_net_ppool.Statistics.Queries.{
  Scope, for_pool, for_address, for_group, for_session, in_scope, is_in, is_since, minute,
  sum_accepted, get_accounting,
}

module _ (f : Float64) where
  -- The shares that the accounting of a scope counts.
  abbrev pub counted : (now : ℕ) → Scope → List (Row f) → ℕ
  counted now scope rows = (get_accounting f now scope rows).total_accepted_shares

  sum_accepted-accepted_in :
      (owner : Owner) (rows : List (Row f))
      → sum_accepted f (λ r. true) rows ≡ accepted_in f owner rows
  unfolding sum_accepted accepted_in
  sum_accepted-accepted_in owner [] = refl
  sum_accepted-accepted_in owner (r ∷ rows) = rw (sum_accepted-accepted_in owner rows) refl

  Counts-bounds :
      (owner : Owner) (n c : ℕ) (current : Option ℕ) (rows : List (Row f))
      → Counts f owner n current c rows
      → (accepted_in f owner rows ≤ n) × (n ≤ accepted_in f owner rows + c)
  unfolding Counts accepted_in
  Counts-bounds owner n c none [] (e, _) = (omega (arith, e), omega (arith, e))
  Counts-bounds owner n c none (r ∷ rows) h = absurd h
  Counts-bounds owner n c (some slot) [] h = absurd h
  Counts-bounds owner n c (some slot) (r ∷ rows) (_, _, le, _, sum) =
      (omega (arith, le, sum), omega (arith, le, sum))

  -- Of a session that starts without rows, after shares whose calls do not overlap and whose time slots do not
  -- go back, the accounting counts no share that was not submitted, and lacks at most the shares of
  -- the current slot, which are in memory until they are saved.
  pub get_accounting-add_all :
      (owner : Owner) (shares : List (Share f owner)) (start now : ℕ) (rows : List (Row f))
      → rows_of f owner rows ≡ []
      → InOrder f owner none shares
      → let (s, rows') = add_all f owner shares (new_statistics f start, rows) in
        (counted now (for_session owner) rows' ≤ length shares)
        × (length shares ≤ counted now (for_session owner) rows' + s.accepted_count)
  unfolding get_accounting in_scope IsCountedAfter IsCounted rows_of
  get_accounting-add_all owner shares start now rows fresh order =
      let p = add_all f owner shares (new_statistics f start, rows) in
      let k =
        Counts-bounds owner (length shares) p.0.accepted_count p.0.current_time_slot
          (rows_of f owner p.1) (add_all-IsCountedAfter f owner shares start rows fresh order) in
      rw (sum_accepted-accepted_in owner (rows_of f owner p.1)) k

  sum_accepted-filter :
      (p q : Row f → Bool) (rows : List (Row f))
      → ((r : Row f) → p r ≡ true → q r ≡ true)
      → sum_accepted f (λ r. true) (filter p rows) ≤ sum_accepted f (λ r. true) (filter q rows)
  unfolding sum_accepted
  sum_accepted-filter p q [] h = omega arith
  sum_accepted-filter p q (r ∷ rows) h = ground (arith, h r, sum_accepted-filter p q rows h)

  sum_accepted-all :
      (p : Row f → Bool) (rows : List (Row f))
      → sum_accepted f p rows ≤ sum_accepted f (λ r. true) rows
  unfolding sum_accepted
  sum_accepted-all p [] = omega arith
  sum_accepted-all p (r ∷ rows) = ground (arith, sum_accepted-all p rows)

  -- The scopes are nested: a session counts no more than its group, the group no more than its address, the
  -- address no more than the pool, and of each scope the last ten minutes no more than the whole.
  pub get_accounting_nested :
      (now : ℕ) (owner : Owner) (rows : List (Row f))
      → let group = for_group owner.address owner.client_name in
        (counted now (for_session owner) rows ≤ counted now group rows)
        × (counted now group rows ≤ counted now (for_address owner.address) rows)
        × (counted now (for_address owner.address) rows ≤ counted now for_pool rows)
        × ((scope : Scope)
            → (get_accounting f now scope rows).accepted_shares_last_10_minutes
              ≤ counted now scope rows)
  unfolding get_accounting in_scope owner_eq
  get_accounting_nested now owner rows = (
    sum_accepted-filter (is_in f (for_session owner))
        (is_in f (for_group owner.address owner.client_name)) rows (λ r h. ground (arith, h)),
    sum_accepted-filter (is_in f (for_group owner.address owner.client_name))
        (is_in f (for_address owner.address)) rows (λ r h. ground (arith, h)),
    sum_accepted-filter (is_in f (for_address owner.address)) (is_in f for_pool) rows (λ r h. refl),
    λ scope.
        sum_accepted-all (λ r. is_since now (10 * minute) r.time) (filter (is_in f scope) rows),
  )
