-- ===== src/Statistics/Overlaps.antt =====
-- Two calls of `addShares` that overlap where a slot ends.
use elektron_net_ppool.Common.{
  ℕ, ◌+◌, ◌*◌, ◌/◌, ◌≡◌, ◌∙◌, ap, refl, false, some, List, [], ◌∷◌, length, filter, ◌==◌, arith,
  Bool-cases, inl, inr, ==-refl, ◌&&◌, str_eq_refl,
}
use elektron_net_ppool.Common.Float.{Float64}
use elektron_net_ppool.Statistics.{
  Owner, owner_eq, coeff, Row, Statistics, Await, entering, remember, Progress, is_row_of, update,
  add_shares, resume, row_of, insert, add_in_slot, next_slot, enter_slot,
}

module _ (f : Float64) (owner : Owner) where
  -- How many rows a session has of a slot.
  unfoldable pub rows_at : ℕ → List (Row f) → ℕ
  unfolding owner_eq
  rows_at slot rows = length (filter (λ r. owner_eq owner r.owner && (r.time == slot)) rows)

  -- Two calls that wait go on, the first one first.
  unfoldable pub proceed : (third fourth : ℕ) → Await f → Progress f → Statistics f × List (Row f)
  unfolding resume
  proceed third fourth w (w', (s, rows)) =
      let (_, (s', rows')) = resume f owner third w s rows in (resume f owner fourth w' s' rows').1

  -- The first call starts, the second one starts before the first save is done, and then both go on.
  unfoldable pub overlap :
      (first second third fourth : ℕ)
      → f.F
      → f.F
      → Statistics f
      → List (Row f)
      → Statistics f × List (Row f)
  unfolding proceed
  overlap first second third fourth d d' s rows =
      let p = add_shares f owner first d s rows in
      proceed third fourth p.0 (add_shares f owner second d' p.1.0 p.1.1)

  rows_at-update :
      (slot : ℕ) (r : Row f) (rows : List (Row f))
      → rows_at slot (update f r rows) ≡ rows_at slot rows
  unfolding rows_at update
  rows_at-update slot r [] = refl
  rows_at-update slot r (x ∷ rows) = elim (Bool-cases (is_row_of f r x)) [
    | inl e ↦ rw e (ground (arith, rows_at-update slot r rows))
    | inr e ↦ rw e (ground (arith, rows_at-update slot r rows))
  ]

  rows_at-insert :
      (slot c : ℕ) (x : f.F) (rows : List (Row f))
      → rows_at slot
          (insert f (record { time = slot; shares = x; accepted_count = c; owner = owner }) rows)
        ≡ 1 + rows_at slot rows
  unfolding rows_at insert
  rows_at-insert slot c x rows =
      rw
        (
          str_eq_refl owner.address,
          str_eq_refl owner.client_name,
          str_eq_refl owner.session_id,
          ==-refl slot,
        )
        (omega arith)

  -- A session in some slot.
  abbrev pub in_slot : ℕ → Statistics f → Statistics f
  in_slot old s = record s { current_time_slot = some old }

  abbrev remembered : (now : ℕ) → f.F → Statistics f → Statistics f
  remembered now d s = record s {
    submission_cache = remember f (record { time = now; difficulty = d }) s.submission_cache;
  }

  add_shares-entering :
      (now old slot : ℕ) (d : f.F) (s : Statistics f) (rows : List (Row f))
      → now / coeff * coeff ≡ slot
      → (old == slot) ≡ false
      → add_shares f owner now d (in_slot old s) rows ≡ (
        entering slot d,
        (in_slot old (remembered now d s), update f (row_of f owner old (remembered now d s)) rows),
      )
  unfolding add_shares add_in_slot next_slot
  add_shares-entering now old slot d s rows e differs = rw (e, differs) refl

  -- Two shares of one new slot, of which the second comes while the first still saves the slot before: both
  -- insert a row of the new slot, so that the session has two rows where it should have one.
  pub overlap_inserts_twice :
      (first second third fourth old slot : ℕ) (d d' : f.F) (s : Statistics f) (rows : List (Row f))
      → first / coeff * coeff ≡ slot
      → second / coeff * coeff ≡ slot
      → (old == slot) ≡ false
      → rows_at slot (overlap first second third fourth d d' (in_slot old s) rows).1
        ≡ 2 + rows_at slot rows
  unfolding overlap proceed resume enter_slot
  overlap_inserts_twice first second third fourth old slot d d' s rows e e' differs =
      let s1 = remembered first d s in
      let rows1 = update f (row_of f owner old s1) rows in
      rw
        (
          add_shares-entering first old slot d s rows e differs,
          add_shares-entering second old slot d' s1 rows1 e' differs,
        )
        (rows_at-insert slot _ _ _
          ∙ ap (λ n. 1 + n) (rows_at-insert slot _ _ _)
          ∙ omega (
            arith,
            rows_at-update slot (row_of f owner old (remembered second d' s1)) rows1,
            rows_at-update slot (row_of f owner old s1) rows,
          ))
