-- ===== src/Statistics/Counts.antt =====
-- The shares that a session has submitted are the ones that its rows count.
use elektron_net_ppool.Common.{
  ==→eq, ℕ, ◌+◌, ◌*◌, ◌/◌, ◌≤◌, ◌<◌, ◌≡◌, sym, ap, ◌∙◌, subst, Option, none, some, List, [], ◌∷◌,
  length, ltb, ◌==◌, arith, Bool-cases, inl, inr, refl,
}
use elektron_net_ppool.Common.Float.{Float64}
use elektron_net_ppool.Statistics.{
  Owner, coeff, Row, Statistics, new_statistics, update, row_of, count, with_hash_rate,
  first_record, next_slot, same_slot, add_in_slot, add_shares, uninterrupted,
}
use elektron_net_ppool.Statistics.Rows.{
  rows_of, rows_of-insert, rows_of-update, Counts, IsCounted, Counts-next, Counts-same, Counts-kept,
  Counts-first,
}

module _ (f : Float64) (owner : Owner) where
  -- The clock has not gone back to an earlier slot.
  unfoldable pub IsLater : ℕ → Option ℕ → Type 0
  IsLater now none = Unit
  IsLater now (some slot) = slot ≤ now / coeff * coeff

  unfoldable pub IsCountedAfter : ℕ → Statistics f × List (Row f) → Type 0
  unfolding IsCounted
  IsCountedAfter n (s, rows) = IsCounted f owner n s rows

  with_hash_rate-count :
      (now : ℕ) (s : Statistics f) → (with_hash_rate f now s).accepted_count ≡ s.accepted_count
  with_hash_rate-count now s = ground arith

  with_hash_rate-slot :
      (now : ℕ) (s : Statistics f)
      → (with_hash_rate f now s).current_time_slot ≡ s.current_time_slot
  with_hash_rate-slot now s = ground arith

  next-IsCounted :
      (n now saved_at old slot : ℕ) (difficulty : f.F) (s : Statistics f) (rows : List (Row f))
      → old < slot
      → Counts f owner n (some old) s.accepted_count (rows_of f owner rows)
      → IsCountedAfter
          (n + 1)
          (uninterrupted f owner now saved_at (next_slot f owner old slot difficulty s rows))
  unfolding IsCountedAfter next_slot uninterrupted
  next-IsCounted n now saved_at old slot difficulty s rows h k =
      rw
        (
          rows_of-insert f owner slot 1 difficulty (update f (row_of f owner old s) rows),
          rows_of-update f owner (row_of f owner old s) rows,
        )
        (Counts-next f owner n old slot s.accepted_count s.shares difficulty (rows_of f owner rows)
          h k)

  first-IsCounted :
      (n now saved_at slot : ℕ) (difficulty : f.F) (s : Statistics f) (rows : List (Row f))
      → Counts f owner n none s.accepted_count (rows_of f owner rows)
      → IsCountedAfter
          (n + 1)
          (uninterrupted f owner now saved_at (first_record f owner now slot difficulty s rows))
  unfolding IsCountedAfter first_record uninterrupted
  first-IsCounted n now saved_at slot difficulty s rows k =
      rw (rows_of-insert f owner slot (s.accepted_count + 1) (f.add s.shares difficulty) rows) (
        Counts-first f owner n slot s.accepted_count (f.add s.shares difficulty)
          (rows_of f owner rows) k)

  same-IsCounted :
      (n now saved_at slot : ℕ) (difficulty : f.F) (s : Statistics f) (rows : List (Row f))
      → s.current_time_slot ≡ some slot
      → Counts f owner n (some slot) s.accepted_count (rows_of f owner rows)
      → IsCountedAfter
          (n + 1)
          (uninterrupted f owner now saved_at (same_slot f owner now slot difficulty s rows))
  unfolding IsCountedAfter same_slot uninterrupted
  same-IsCounted n now saved_at slot difficulty s rows e k =
      elim (Bool-cases (ltb (s.last_save + 60_000) now)) [
        | inl b ↦
            rw (b, rows_of-update f owner (row_of f owner slot (count f difficulty s)) rows, e)
              (Counts-same f owner n slot s.accepted_count (f.add s.shares difficulty)
                (rows_of f owner rows) k)
        | inr b ↦
            rw
              (
                b,
                with_hash_rate-slot now (count f difficulty s),
                with_hash_rate-count now (count f difficulty s),
                e,
              )
              (Counts-kept f owner n slot s.accepted_count (rows_of f owner rows) k)
      ]

  add_in_slot-IsCounted :
      (n now saved_at : ℕ) (difficulty : f.F) (current : Option ℕ) (s : Statistics f)
      (rows : List (Row f))
      → s.current_time_slot ≡ current
      → IsLater now current
      → Counts f owner n current s.accepted_count (rows_of f owner rows)
      → IsCountedAfter (n + 1) (
          uninterrupted f owner now saved_at
            (add_in_slot f owner now (now / coeff * coeff) difficulty current s rows))
  unfolding IsLater add_in_slot uninterrupted
  add_in_slot-IsCounted n now saved_at difficulty none s rows e later h =
      first-IsCounted n now saved_at (now / coeff * coeff) difficulty s rows h
  add_in_slot-IsCounted n now saved_at difficulty (some old) s rows e later h =
      elim (Bool-cases (old == now / coeff * coeff)) [
        | inl b ↦
            let q = ==→eq old (now / coeff * coeff) b in
            rw b (
              same-IsCounted n now saved_at (now / coeff * coeff) difficulty s rows
                (e ∙ ap (λ t. some t) q)
                (subst (λ t. Counts f owner n (some t) s.accepted_count (rows_of f owner rows)) q
                  h))
        | inr b ↦ rw b (
            next-IsCounted n now saved_at old (now / coeff * coeff) difficulty s rows (ground arith)
              h)
      ]

  -- A share whose call nothing interrupts is one more that is counted, if the clock has not gone back over the
  -- start of a slot.
  add_shares-IsCounted :
      (n now saved_at : ℕ) (difficulty : f.F) (s : Statistics f) (rows : List (Row f))
      → IsLater now s.current_time_slot
      → IsCounted f owner n s rows
      → IsCountedAfter
          (n + 1)
          (uninterrupted f owner now saved_at (add_shares f owner now difficulty s rows))
  unfolding add_shares IsCounted
  add_shares-IsCounted n now saved_at difficulty s rows later h =
      add_in_slot-IsCounted n now saved_at difficulty s.current_time_slot _ rows refl later h

  -- A share's time, the time after it is saved, and its difficulty.
  abbrev pub Share : Type 0
  Share = ℕ × ℕ × f.F

  -- The shares of the session in their order, each call ended before the next one.
  unfoldable pub add_all : List Share → Statistics f × List (Row f) → Statistics f × List (Row f)
  add_all [] p = p
  add_all ((now, saved_at, difficulty) ∷ shares) (s, rows) =
      add_all shares (uninterrupted f owner now saved_at (add_shares f owner now difficulty s rows))

  -- No share comes in an earlier slot than the one before it.
  unfoldable pub InOrder : Option ℕ → List Share → Type 0
  unfolding IsLater
  InOrder current [] = Unit
  InOrder current ((now, saved_at, difficulty) ∷ shares) =
      IsLater now current × InOrder (some (now / coeff * coeff)) shares

  same_slot-current :
      (now saved_at slot : ℕ) (difficulty : f.F) (s : Statistics f) (rows : List (Row f))
      → (uninterrupted f owner now saved_at
          (same_slot f owner now slot difficulty s rows)).0.current_time_slot
        ≡ s.current_time_slot
  unfolding same_slot uninterrupted
  same_slot-current now saved_at slot difficulty s rows =
      elim (Bool-cases (ltb (s.last_save + 60_000) now)) [
        | inl b ↦ rw b refl
        | inr b ↦ rw b (with_hash_rate-slot now (count f difficulty s))
      ]

  add_in_slot-current :
      (now saved_at slot : ℕ) (difficulty : f.F) (current : Option ℕ) (s : Statistics f)
      (rows : List (Row f))
      → s.current_time_slot ≡ current
      → (uninterrupted f owner now saved_at
          (add_in_slot f owner now slot difficulty current s rows)).0.current_time_slot
        ≡ some slot
  unfolding add_in_slot first_record next_slot uninterrupted
  add_in_slot-current now saved_at slot difficulty none s rows e = refl
  add_in_slot-current now saved_at slot difficulty (some old) s rows e =
      elim (Bool-cases (old == slot)) [
        | inl b ↦ rw b (
            same_slot-current now saved_at slot difficulty s rows
            ∙ e
            ∙ ap (λ t. some t) (==→eq old slot b))
        | inr b ↦ rw b refl
      ]

  add_shares-current :
      (now saved_at : ℕ) (difficulty : f.F) (s : Statistics f) (rows : List (Row f))
      → (uninterrupted f owner now saved_at
          (add_shares f owner now difficulty s rows)).0.current_time_slot
        ≡ some (now / coeff * coeff)
  unfolding add_shares
  add_shares-current now saved_at difficulty s rows =
      add_in_slot-current now saved_at (now / coeff * coeff) difficulty s.current_time_slot _ rows
        refl

  add_all-IsCounted :
      (shares : List Share) (n : ℕ) (s : Statistics f) (rows : List (Row f))
      → InOrder s.current_time_slot shares
      → IsCounted f owner n s rows
      → IsCountedAfter (n + length shares) (add_all shares (s, rows))
  unfolding InOrder add_all IsCountedAfter
  add_all-IsCounted [] n s rows order h = subst (λ m. IsCountedAfter m (s, rows)) (omega arith) h
  add_all-IsCounted ((now, saved_at, difficulty) ∷ shares) n s rows order h =
      let p = uninterrupted f owner now saved_at (add_shares f owner now difficulty s rows) in
      let e = add_shares-current now saved_at difficulty s rows in
      subst (λ m. IsCountedAfter m (add_all shares p)) (omega arith)
        (add_all-IsCounted shares (n + 1) p.0 p.1 (subst (λ c. InOrder c shares) (sym e) order.1)
          (add_shares-IsCounted n now saved_at difficulty s rows order.0 h))

  -- Of a session that has no rows, after shares whose calls do not overlap and whose time slots do not go back:
  -- the rows of the
  -- former slots and the count in memory count every share once, there is one row of the current
  -- slot, and it counts at most what is in memory.
  pub add_all-IsCountedAfter :
      (shares : List Share) (start : ℕ) (rows : List (Row f))
      → rows_of f owner rows ≡ []
      → InOrder none shares
      → IsCountedAfter (length shares) (add_all shares (new_statistics f start, rows))
  unfolding IsCounted Counts new_statistics
  add_all-IsCountedAfter shares start rows fresh order =
      subst (λ m. IsCountedAfter m (add_all shares (new_statistics f start, rows))) (omega arith)
        (add_all-IsCounted shares 0 (new_statistics f start) rows order (rw fresh (refl, refl)))
