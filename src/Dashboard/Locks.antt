-- ===== src/Dashboard/Locks.antt =====
-- The laws of the shared templates (src/ORM/rpc-block/rpc-block.service.ts).
use elektron_net_ppool.Common.{
  ℕ, ◌≤◌, ◌≡◌, refl, String, Bool, false, not, Bool-cases, inl, inr, Option, none, some, List, [],
  ◌∷◌, filter, ltb, ◌==◌, ==-refl, max, if◌then◌else◌, arith, All, filter-All, All-and, All-map,
  All-filter,
}
use elektron_net_ppool.Common.Js.{Text}
use elektron_net_ppool.Dashboard.Blocks.{
  RpcBlock, get_block, put_block, lock_block, save_block, newest_block, delete_old_blocks,
}

abbrev locked : ℕ → String → RpcBlock
locked height process = record { block_height = height; locked_by = some process; template = none }

get_block-put_block :
    (height : ℕ) (b : RpcBlock) (blocks : List RpcBlock)
    → get_block height (put_block b blocks)
      ≡ (if b.block_height == height then some b else get_block height blocks)
unfolding get_block
get_block-put_block height b [] = refl
get_block-put_block height b (c ∷ blocks) = ground (arith, get_block-put_block height b blocks)

abbrev with_template : Text → Option RpcBlock → Option RpcBlock
with_template template none = none
with_template template (some b) = some (record b { template = some template })

get_block-save_block :
    (height h : ℕ) (template : Text) (blocks : List RpcBlock)
    → get_block height (save_block h template blocks) ≡ (
        if h == height
        then with_template template (get_block height blocks)
        else get_block height blocks)
unfolding get_block save_block
get_block-save_block height h template [] = ground arith
get_block-save_block height h template (b ∷ blocks) = elim (Bool-cases (b.block_height == h)) [
  | inl same ↦ rw same (ground (arith, same, get_block-save_block height h template blocks))
  | inr other ↦ rw other (ground (arith, other, get_block-save_block height h template blocks))
]

-- A block that a process locks and then saves is the one that is found at its height, with that lock
-- and that template, whatever the table held; the other heights keep their rows.
pub get_block-lock_save :
    (height other : ℕ) (process : String) (template : Text) (blocks : List RpcBlock)
    → let blocks' = save_block height template (lock_block height process blocks) in
      (get_block height blocks'
        ≡ some (record (locked height process) { template = some template }))
      × ((height == other) ≡ false → get_block other blocks' ≡ get_block other blocks)
unfolding lock_block
get_block-lock_save height other process template blocks = (
  rw
      (
        get_block-save_block height height template (put_block (locked height process) blocks),
        get_block-put_block height (locked height process) blocks,
        ==-refl height,
      )
      refl,
  λ e.
      rw
        (
          get_block-save_block other height template (put_block (locked height process) blocks),
          e,
          get_block-put_block other (locked height process) blocks,
          e,
        )
        refl,
)

newest_block-le : (blocks : List RpcBlock) → All (λ b. b.block_height ≤ newest_block blocks) blocks
newest_block-le [] = tt
newest_block-le (b ∷ blocks) = (
  omega arith,
  All-map (λ c. c.block_height ≤ newest_block blocks)
      (λ c. c.block_height ≤ max b.block_height (newest_block blocks)) blocks
      (λ c h. omega (arith, h)) (newest_block-le blocks),
)

get_block-filter :
    (height limit : ℕ) (blocks : List RpcBlock)
    → limit ≤ height
    → get_block height (filter (λ b. not (ltb b.block_height limit)) blocks)
      ≡ get_block height blocks
unfolding get_block
get_block-filter height limit [] h = refl
get_block-filter height limit (b ∷ blocks) h =
    ground (arith, h, get_block-filter height limit blocks h)

-- The clean-up keeps the rows of the newest height alone, and the block found there is still found.
pub delete_old_blocks-newest :
    (blocks : List RpcBlock)
    → All (λ b. b.block_height ≡ newest_block blocks) (delete_old_blocks blocks)
      × (get_block (newest_block blocks) (delete_old_blocks blocks)
          ≡ get_block (newest_block blocks) blocks)
unfolding delete_old_blocks
delete_old_blocks-newest blocks =
    let newest = newest_block blocks in
    let kept : RpcBlock → Bool = λ b. not (ltb b.block_height newest) in
    (
      All-map _ _ (filter kept blocks) (λ b h. omega (arith, h.0, h.1))
          (All-and (λ b. newest ≤ b.block_height) (λ b. b.block_height ≤ newest)
            (filter kept blocks)
            (filter-All kept (λ b. newest ≤ b.block_height) blocks (λ b h. ground (arith, h)))
            (All-filter (λ b. b.block_height ≤ newest) kept blocks (newest_block-le blocks))),
      get_block-filter (newest_block blocks) (newest_block blocks) blocks (omega arith),
    )
