-- ===== src/Dashboard/Site.antt =====
-- The routes of the pool as a whole (src/app.controller.ts). `info` and `info/chart` are the same as `pool`
-- with other tables and another time. Between asking the cache and setting it the route waits for its tables, so
-- other requests come in between.
use elektron_net_ppool.Common.{ℕ, ◌≤◌, ◌≡◌, pos, Option, List, length, filter}
use elektron_net_ppool.Common.Float.{Float64}
use elektron_net_ppool.Clients.{ClientRow, connected_client_count}
use elektron_net_ppool.NodeRpc.{MiningInfo}
use elektron_net_ppool.Dashboard.Blocks.{Shown}
use elektron_net_ppool.Dashboard.Agents.{
  AgentGroup, get_user_agents, total_miners, total_hash_rate_from, has_agent, get_user_agents-total,
}
use elektron_net_ppool.Dashboard.Cache.{Entry, cached, set_entry, pool_ttl}

module _ (f : Float64) where
  pub record PoolInfo : Type 0 where
    pub total_hash_rate : f.F
    pub block_height : ℕ
    pub total_miners : ℕ
    pub blocks_found : List Shown
    pub fee : ℕ

  -- What a miss of the cache answers; the route reads the three one after the other.
  unfoldable pub pool_info :
      (user_agents : List (AgentGroup f)) → MiningInfo → List Shown → PoolInfo
  pool_info user_agents newest blocks_found = record {
    total_hash_rate = total_hash_rate_from f (f.of_int (pos 0)) user_agents;
    block_height = newest.blocks;
    total_miners = total_miners f user_agents;
    blocks_found = blocks_found;
    fee = 0;
  }

  -- The route up to what it waits for, and where it ends after a miss of the cache.
  unfoldable pub pool : (now : ℕ) → Entry PoolInfo → Option PoolInfo
  pool now entry = cached PoolInfo now entry

  unfoldable pub finish_pool : (now : ℕ) → PoolInfo → PoolInfo × Entry PoolInfo
  finish_pool now info = (info, set_entry PoolInfo pool_ttl now info)

  -- However the live clients are grouped by their user agents, the route tells as many miners as there were
  -- live clients with a user agent when it read the table, and so no more than were connected.
  pub pool_info-miners :
      (clients : List (ClientRow f)) (newest : MiningInfo) (blocks_found : List Shown)
      → let info = pool_info (get_user_agents f clients) newest blocks_found in
        (info.total_miners ≡ length (filter (has_agent f) clients))
        × (info.total_miners ≤ connected_client_count f clients)
  unfolding pool_info
  pool_info-miners clients newest blocks_found = get_user_agents-total f clients
