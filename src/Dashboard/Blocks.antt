-- ===== src/Dashboard/Blocks.antt =====
-- The tables of blocks: the found ones (src/ORM/blocks/blocks.service.ts) and the templates that are
-- shared between processes (src/ORM/rpc-block/rpc-block.service.ts).
use elektron_net_ppool.Common.{
  ℕ, ◌≤◌, ◌≡◌, refl, ◌∙◌, String, str_eq, Bool, not, Bool-cases, inl, inr, Option, none, some, List,
  [], ◌∷◌, ◌++◌, map, filter, length, ltb, ◌==◌, max, if◌then◌else◌, arith, All,
}
use elektron_net_ppool.Common.Js.{Text}

-- BlocksEntity
pub record FoundBlock : Type 0 where
  pub height : ℕ
  pub miner_address : String
  pub worker : String
  pub session_id : String
  pub block_data : Text

-- The columns that are selected.
pub record Shown : Type 0 where
  pub height : ℕ
  pub miner_address : String
  pub worker : String
  pub session_id : String

abbrev pub shown : FoundBlock → Shown
shown b = record {
  height = b.height;
  miner_address = b.miner_address;
  worker = b.worker;
  session_id = b.session_id;
}

unfoldable pub save : FoundBlock → List FoundBlock → List FoundBlock
save b blocks = blocks ++ b ∷ []

-- `ORDER BY height DESC`
abbrev pub insert_high : FoundBlock → List FoundBlock → List FoundBlock
insert_high b [] = b ∷ []
insert_high b (c ∷ cs) =
    let rest = insert_high b cs in if ltb b.height c.height then c ∷ rest else b ∷ c ∷ cs

unfoldable pub highest_first : List FoundBlock → List FoundBlock
highest_first [] = []
highest_first (b ∷ blocks) = insert_high b (highest_first blocks)

unfoldable pub get_found_blocks : List FoundBlock → List Shown
unfolding highest_first
get_found_blocks blocks = map shown (highest_first blocks)

unfoldable pub get_found_blocks_by_address : String → List FoundBlock → List Shown
unfolding highest_first
get_found_blocks_by_address address blocks =
    map shown (highest_first (filter (λ b. str_eq b.miner_address address) blocks))

-- RpcBlockEntity
pub record RpcBlock : Type 0 where
  pub block_height : ℕ
  pub locked_by : Option String
  pub template : Option Text

unfoldable pub get_block : ℕ → List RpcBlock → Option RpcBlock
get_block height [] = none
get_block height (b ∷ blocks) =
    let rest = get_block height blocks in if b.block_height == height then some b else rest

-- `save`: the row of the key, or a new one.
abbrev pub put_block : RpcBlock → List RpcBlock → List RpcBlock
put_block b [] = b ∷ []
put_block b (c ∷ blocks) =
    let rest = put_block b blocks in
    if c.block_height == b.block_height then b ∷ blocks else c ∷ rest

unfoldable pub lock_block : ℕ → String → List RpcBlock → List RpcBlock
lock_block height process =
    put_block (record { block_height = height; locked_by = some process; template = none })

unfoldable pub save_block : ℕ → Text → List RpcBlock → List RpcBlock
save_block height template =
    map (λ b. if b.block_height == height then record b { template = some template } else b)

-- `MAX(blockHeight)`; without rows nothing is below it.
abbrev pub newest_block : List RpcBlock → ℕ
newest_block [] = 0
newest_block (b ∷ blocks) = max b.block_height (newest_block blocks)

unfoldable pub delete_old_blocks : List RpcBlock → List RpcBlock
delete_old_blocks blocks = filter (λ b. not (ltb b.block_height (newest_block blocks))) blocks

-- The heights fall.
abbrev pub Falling : List Shown → Type 0
Falling [] = Unit
Falling (b ∷ blocks) = All (λ c. c.height ≤ b.height) blocks × Falling blocks

insert_high-All :
    (top : ℕ) (b : FoundBlock) (cs : List FoundBlock)
    → b.height ≤ top
    → All (λ c. c.height ≤ top) (map shown cs)
    → All (λ c. c.height ≤ top) (map shown (insert_high b cs))
insert_high-All top b [] h k = (h, tt)
insert_high-All top b (c ∷ cs) h k = ground (arith, h, k, insert_high-All top b cs h k.1)

All-below :
    (low high : ℕ) (cs : List Shown)
    → low ≤ high
    → All (λ c. c.height ≤ low) cs
    → All (λ c. c.height ≤ high) cs
All-below low high [] h k = tt
All-below low high (c ∷ cs) h k = (omega (arith, h, k.0), All-below low high cs h k.1)

insert_high-Falling :
    (b : FoundBlock) (cs : List FoundBlock)
    → Falling (map shown cs)
    → Falling (map shown (insert_high b cs))
insert_high-Falling b [] h = (tt, tt)
insert_high-Falling b (c ∷ cs) h = elim (Bool-cases (ltb b.height c.height)) [
  | inl lower ↦
      rw lower
        (insert_high-All c.height b cs (ground (arith, lower)) h.0, insert_high-Falling b cs h.1)
  | inr higher ↦ rw higher (
    (
      ground (arith, higher),
      All-below c.height b.height (map shown cs) (ground (arith, higher)) h.0,
    ),
    h,
  )
]

-- Rows that pass a test.
abbrev pub count : (FoundBlock → Bool) → List FoundBlock → ℕ
count p blocks = length (filter p blocks)

insert_high-count :
    (p : FoundBlock → Bool) (b : FoundBlock) (cs : List FoundBlock)
    → count p (insert_high b cs) ≡ count p (b ∷ cs)
insert_high-count p b [] = refl
insert_high-count p b (c ∷ cs) = ground (arith, insert_high-count p b cs)

highest_first-count :
    (p : FoundBlock → Bool) (blocks : List FoundBlock)
    → count p (highest_first blocks) ≡ count p blocks
unfolding highest_first
highest_first-count p [] = refl
highest_first-count p (b ∷ blocks) =
    insert_high-count p b (highest_first blocks) ∙ ground (arith, highest_first-count p blocks)

highest_first-Falling : (blocks : List FoundBlock) → Falling (map shown (highest_first blocks))
unfolding highest_first
highest_first-Falling [] = tt
highest_first-Falling (b ∷ blocks) =
    insert_high-Falling b (highest_first blocks) (highest_first-Falling blocks)

-- The dashboard lists the blocks from the highest down, and each row of the table as often as the table
-- has it: by whatever test the rows are counted, the list has as many.
pub get_found_blocks-Falling :
    (blocks : List FoundBlock)
    → Falling (get_found_blocks blocks)
      × ((p : FoundBlock → Bool) → count p (highest_first blocks) ≡ count p blocks)
unfolding get_found_blocks
get_found_blocks-Falling blocks = (highest_first-Falling blocks, λ p. highest_first-count p blocks)
