-- ===== src/Statistics/Rows.antt =====
-- The rows of a session among the saved ones, and what they count.
use elektron_net_ppool.Common.{
  ℕ, ◌+◌, ◌≤◌, ◌<◌, ◌≡◌, refl, ap, Bool, true, false, ◌&&◌, Option, none, some, List, [], ◌∷◌,
  filter, arith, Bool-cases, inl, inr, All, All-map, ==-refl, ==-ne, str_eq_refl,
}
use elektron_net_ppool.Common.Float.{Float64}
use elektron_net_ppool.Statistics.{
  Owner, owner_eq, Row, Statistics, is_row_of, insert, update_one, update,
}

owner_eq_refl : (a : Owner) → owner_eq a a ≡ true
unfolding owner_eq
owner_eq_refl a =
    rw (str_eq_refl a.address, str_eq_refl a.client_name, str_eq_refl a.session_id) refl

and_false : (b : Bool) → (b && false) ≡ false
and_false true = refl
and_false false = refl

module _ (f : Float64) (owner : Owner) where
  -- The session's rows, the newest first.
  unfoldable pub rows_of : List (Row f) → List (Row f)
  rows_of rows = filter (λ r. owner_eq owner r.owner) rows

  unfoldable pub accepted_in : List (Row f) → ℕ
  accepted_in [] = 0
  accepted_in (r ∷ rows) = r.accepted_count + accepted_in rows

  -- The newest row is the one of the time slot, the others are older, and with the count `c` in
  -- memory in place of the newest row's they count `n` shares.
  unfoldable pub Counts : ℕ → Option ℕ → (c : ℕ) → List (Row f) → Type 0
  Counts n none c [] = (n ≡ 0) × (c ≡ 0)
  Counts n none c (r ∷ rows) = ⊥
  Counts n (some slot) c [] = ⊥
  Counts n (some slot) c (r ∷ rows) =
      (r.time ≡ slot)
      × (owner_eq owner r.owner ≡ true)
      × (r.accepted_count ≤ c)
      × All (λ r'. r'.time < slot) rows
      × (c + accepted_in rows ≡ n)

  unfoldable pub IsCounted : ℕ → Statistics f → List (Row f) → Type 0
  unfolding Counts rows_of
  IsCounted n s rows = Counts n s.current_time_slot s.accepted_count (rows_of rows)

  abbrev pub saved : ℕ → f.F → ℕ → Row f
  saved slot shares c = record { time = slot; shares = shares; accepted_count = c; owner = owner }

  pub rows_of-insert :
      (slot c : ℕ) (shares : f.F) (rows : List (Row f))
      → rows_of (insert f (saved slot shares c) rows) ≡ saved slot shares c ∷ rows_of rows
  unfolding rows_of insert
  rows_of-insert slot c shares rows = rw (owner_eq_refl owner) refl

  update_one-owner :
      (r r' : Row f) → owner_eq owner (update_one f r r').owner ≡ owner_eq owner r'.owner
  update_one-owner r r' = elim (Bool-cases (is_row_of f r r')) [
    | inl e ↦ rw e refl
    | inr e ↦ rw e refl
  ]

  pub rows_of-update :
      (r : Row f) (rows : List (Row f)) → rows_of (update f r rows) ≡ update f r (rows_of rows)
  unfolding rows_of update
  rows_of-update r [] = refl
  rows_of-update r (r' ∷ rows) = elim (Bool-cases (owner_eq owner r'.owner)) [
    | inl e ↦
        rw (update_one-owner r r', e) (ap (λ l. update_one f r r' ∷ l) (rows_of-update r rows))
    | inr e ↦ rw (update_one-owner r r', e) (rows_of-update r rows)
  ]

  -- The row of the slot gets the count, and the older ones stay.
  update-older :
      (r : Row f) (rows : List (Row f)) → All (λ r'. r'.time < r.time) rows → update f r rows ≡ rows
  unfolding update
  update-older r [] h = refl
  update-older r (r' ∷ rows) h =
      rw
        (
          ==-ne r'.time r.time (λ e. absurd (omega (arith, e, h.0))),
          and_false (owner_eq r.owner r'.owner),
          update-older r rows h.1,
        )
        refl

  update-newest :
      (slot c : ℕ) (shares : f.F) (r : Row f) (rows : List (Row f))
      → r.time ≡ slot
      → owner_eq owner r.owner ≡ true
      → All (λ r'. r'.time < slot) rows
      → update f (saved slot shares c) (r ∷ rows)
        ≡ record { time = slot; shares = shares; accepted_count = c; owner = r.owner } ∷ rows
  unfolding update
  update-newest slot c shares r rows e k h =
      rw (k, e, ==-refl slot)
        (ap (λ l. record { time = slot; shares = shares; accepted_count = c; owner = r.owner } ∷ l)
          (update-older (saved slot shares c) rows h))

  -- The next slot's row goes in front, and the row of the slot before it has its last count.
  pub Counts-next :
      (n old slot c : ℕ) (shares shares' : f.F) (rows : List (Row f))
      → old < slot
      → Counts n (some old) c rows
      → Counts (n + 1) (some slot) 1 (saved slot shares' 1 ∷ update f (saved old shares c) rows)
  unfolding Counts accepted_in
  Counts-next n old slot c shares shares' [] h k = absurd k
  Counts-next n old slot c shares shares' (r ∷ rows) h (e, k, _, older, sum) =
      rw (update-newest old c shares r rows e k older) (
        refl,
        owner_eq_refl owner,
        omega arith,
        (h, All-map _ _ rows (λ r' lt. omega arith) older),
        omega (arith, sum),
      )

  pub Counts-same :
      (n slot c : ℕ) (shares : f.F) (rows : List (Row f))
      → Counts n (some slot) c rows
      → Counts (n + 1) (some slot) (c + 1) (update f (saved slot shares (c + 1)) rows)
  unfolding Counts
  Counts-same n slot c shares [] h = absurd h
  Counts-same n slot c shares (r ∷ rows) (e, k, _, older, sum) =
      rw (update-newest slot (c + 1) shares r rows e k older)
        (refl, k, omega arith, older, omega (arith, sum))

  pub Counts-kept :
      (n slot c : ℕ) (rows : List (Row f))
      → Counts n (some slot) c rows
      → Counts (n + 1) (some slot) (c + 1) rows
  unfolding Counts
  Counts-kept n slot c [] h = absurd h
  Counts-kept n slot c (r ∷ rows) (e, k, le, older, sum) =
      (e, k, omega arith, older, omega (arith, sum))

  pub Counts-first :
      (n slot c : ℕ) (shares : f.F) (rows : List (Row f))
      → Counts n none c rows
      → Counts (n + 1) (some slot) (c + 1) (saved slot shares (c + 1) ∷ rows)
  unfolding Counts accepted_in
  Counts-first n slot c shares [] h =
      (refl, owner_eq_refl owner, omega arith, tt, omega (arith, h.0, h.1))
  Counts-first n slot c shares (r ∷ rows) h = absurd h
