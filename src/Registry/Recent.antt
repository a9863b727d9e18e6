-- ===== src/Registry/Recent.antt =====
-- A block counts as found lately exactly when it was recorded in the last thirty minutes.
use elektron_net_ppool.Common.{
  false_not_true, ℕ, ◌+◌, ◌≤◌, ◌≡◌, refl, ap, ◌∙◌, Bool, true, false, ◌&&◌, ◌||◌, [], ◌∷◌, ltb, leb,
  arith, Bool-cases, inl, inr, All, All-map,
}
use elektron_net_ppool.Common.Js.{Text, to_lower, text_eq, text_eq-true}
use elektron_net_ppool.Registry.{
  FoundBlocks, recent_block_ttl_ms, prune_old_entries, remove, has, record_found_block,
  was_recently_found,
}

-- A record of the block that is at most thirty minutes old.
abbrev pub is_recent : (now : ℕ) → Text → Text × ℕ → Bool
is_recent now k (k', t) = text_eq k' k && leb now (t + recent_block_ttl_ms)

unfoldable pub recent_in : (now : ℕ) → Text → FoundBlocks → Bool
recent_in now k [] = false
recent_in now k (e ∷ m) = is_recent now k e || recent_in now k m

has-prune_old_entries :
    (now : ℕ) (k : Text) (m : FoundBlocks) → has k (prune_old_entries now m) ≡ recent_in now k m
unfolding prune_old_entries recent_in
has-prune_old_entries now k [] = refl
has-prune_old_entries now k ((k', t) ∷ m) = elim (Bool-cases (ltb (t + recent_block_ttl_ms) now)) [
  | inl e ↦ rw (e, has-prune_old_entries now k m) (ground arith)
  | inr e ↦ rw (e, has-prune_old_entries now k m) (ground arith)
]

recent_in-prune_old_entries :
    (now t : ℕ) (k : Text) (m : FoundBlocks)
    → t ≤ now
    → recent_in now k (prune_old_entries t m) ≡ recent_in now k m
unfolding prune_old_entries recent_in
recent_in-prune_old_entries now t k [] h = refl
recent_in-prune_old_entries now t k ((k', t') ∷ m) h =
    elim (Bool-cases (ltb (t' + recent_block_ttl_ms) t)) [
      | inl e ↦ rw (e, recent_in-prune_old_entries now t k m h) (ground arith)
      | inr e ↦ rw (e, recent_in-prune_old_entries now t k m h) refl
    ]

absorb : (p x y r : Bool) → (y ≡ true → x ≡ true) → (p && x || r) ≡ (p && x || (p && y || r))
absorb true true y r h = refl
absorb true false true r h = absurd (false_not_true (h refl))
absorb true false false r h = refl
absorb false x y r h = refl

under : (u v a b : Bool) → (u || a) ≡ (u || b) → (u || (v || a)) ≡ (u || (v || b))
under true v a b h = refl
under false true a b h = refl
under false false a b h = h

newer :
    (now t t' : ℕ)
    → t' ≤ t
    → leb now (t' + recent_block_ttl_ms) ≡ true
    → leb now (t + recent_block_ttl_ms) ≡ true
newer now t t' h k = ground arith

module _ (P : Text × ℕ → Type 0) where
  All-remove : (k : Text) (m : FoundBlocks) → All P m → All P (remove k m)
  All-remove k [] h = tt
  All-remove k ((k', t) ∷ m) h = elim (Bool-cases (text_eq k' k)) [
    | inl e ↦ rw e (All-remove k m h.1)
    | inr e ↦ rw e (h.0, All-remove k m h.1)
  ]

  All-prune_old_entries : (now : ℕ) (m : FoundBlocks) → All P m → All P (prune_old_entries now m)
  unfolding prune_old_entries
  All-prune_old_entries now [] h = tt
  All-prune_old_entries now ((k, t) ∷ m) h = elim (Bool-cases (ltb (t + recent_block_ttl_ms) now)) [
    | inl e ↦ rw e (All-prune_old_entries now m h.1)
    | inr e ↦ rw e (h.0, All-prune_old_entries now m h.1)
  ]

-- Only the newest record of a block matters.
recent_in-remove :
    (now t : ℕ) (k h : Text) (m : FoundBlocks)
    → All (λ e. e.1 ≤ t) m
    → (is_recent now h (k, t) || recent_in now h (remove k m))
      ≡ (is_recent now h (k, t) || recent_in now h m)
unfolding recent_in
recent_in-remove now t k h [] o = refl
recent_in-remove now t k h ((k', t') ∷ m) o = elim (Bool-cases (text_eq k' k)) [
  | inl e ↦
      rw (e, text_eq-true k' k e)
        (recent_in-remove now t k h m o.1
          ∙ absorb (text_eq k h) (leb now (t + recent_block_ttl_ms))
              (leb now (t' + recent_block_ttl_ms)) (recent_in now h m) (λ y. newer now t t' o.0 y))
  | inr e ↦ rw e (
      under (is_recent now h (k, t)) (is_recent now h (k', t')) (recent_in now h (remove k m))
        (recent_in now h m) (recent_in-remove now t k h m o.1))
]

-- The blocks that were recorded, the newest first, and the map that the records leave.
unfoldable pub recorded : FoundBlocks → FoundBlocks
recorded [] = []
recorded ((hash, t) ∷ older) = record_found_block t hash (recorded older)

-- No block was recorded after a later one, or after `now`.
unfoldable pub InOrder : (now : ℕ) → FoundBlocks → Type 0
InOrder now [] = Unit
InOrder now ((hash, t) ∷ older) = (t ≤ now) × InOrder t older

-- Whether a block was recorded in the last thirty minutes.
unfoldable pub found_lately : (now : ℕ) → Text → FoundBlocks → Bool
found_lately now hash [] = false
found_lately now hash ((hash', t) ∷ older) =
    (text_eq (to_lower hash') (to_lower hash) && leb now (t + recent_block_ttl_ms))
    || found_lately now hash older

recorded-times :
    (now : ℕ) (history : FoundBlocks)
    → InOrder now history
    → All (λ e. e.1 ≤ now) (recorded history)
unfolding recorded record_found_block InOrder
recorded-times now [] h = tt
recorded-times now ((hash, t) ∷ older) h =
    All-prune_old_entries _ t ((to_lower hash, t) ∷ remove (to_lower hash) (recorded older)) (
      h.0,
      All-remove _ (to_lower hash) (recorded older) (
          All-map _ _ (recorded older) (λ e le. omega (arith, h.0, le))
            (recorded-times t older h.1)),
    )

InOrder-weaken :
    (now t : ℕ) (history : FoundBlocks) → t ≤ now → InOrder t history → InOrder now history
unfolding InOrder
InOrder-weaken now t [] h k = tt
InOrder-weaken now t ((hash, t') ∷ older) h k = (omega (arith, k.0), k.1)

recent_in-recorded :
    (now : ℕ) (hash : Text) (history : FoundBlocks)
    → InOrder now history
    → recent_in now (to_lower hash) (recorded history) ≡ found_lately now hash history
unfolding recorded InOrder found_lately record_found_block recent_in
recent_in-recorded now hash [] h = refl
recent_in-recorded now hash ((hash', t) ∷ older) h =
    recent_in-prune_old_entries now t (to_lower hash)
      ((to_lower hash', t) ∷ remove (to_lower hash') (recorded older)) h.0
    ∙ recent_in-remove now t (to_lower hash') (to_lower hash) (recorded older)
        (recorded-times t older h.1)
    ∙ ap (λ r. is_recent now (to_lower hash) (to_lower hash', t) || r)
        (recent_in-recorded now hash older (InOrder-weaken now t older h.0 h.1))

-- When the records were made in the order of their times and none after now, a block is answered to
-- have been found lately exactly when one of all the records so far is of it, in whatever case the
-- two hashes are written, and is at most thirty minutes old: what the map has dropped is not missed.
pub was_recently_found-found_lately :
    (now : ℕ) (hash : Text) (history : FoundBlocks)
    → InOrder now history
    → (was_recently_found now hash (recorded history)).0 ≡ found_lately now hash history
unfolding was_recently_found
was_recently_found-found_lately now hash history h =
    has-prune_old_entries now (to_lower hash) (recorded history)
    ∙ recent_in-recorded now hash history h
