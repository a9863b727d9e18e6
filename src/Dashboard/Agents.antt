-- ===== src/Dashboard/Agents.antt =====
-- The user agents of the connected clients (src/ORM/client/client.service.ts) and the totals that
-- `pool` of src/app.controller.ts makes of them. Rows that are deleted softly are not selected; a
-- client without a user agent is a group whose count is 0, since SQL counts no NULL.
use elektron_net_ppool.Common.{
  ℕ, ◌+◌, ◌≤◌, ◌≡◌, refl, ◌∙◌, ap, String, str_eq, Bool, true, false, ◌&&◌, Bool-cases, inl, inr,
  Option, none, some, List, [], ◌∷◌, filter, length, ltb, if◌then◌else◌, arith,
}
use elektron_net_ppool.Common.Float.{Float64}
use elektron_net_ppool.Clients.{ClientRow, is_live, connected_client_count}

abbrev pub agent_eq : Option String → Option String → Bool
agent_eq none none = true
agent_eq (some a) (some b) = str_eq a b
agent_eq _ _ = false

-- What `COUNT(userAgent)` adds for a row.
abbrev pub counts : Option String → ℕ
counts none = 0
counts (some agent) = 1

module _ (f : Float64) where
  -- A row of the answer.
  pub record AgentGroup : Type 0 where
    pub user_agent : Option String
    pub count : ℕ
    pub best_difficulty : f.F
    pub total_hash_rate : f.F

  abbrev pub larger : f.F → f.F → f.F
  larger a b = if f.lt a b then b else a

  -- `GROUP BY userAgent`, one row at a time.
  abbrev pub add_client : ClientRow f → List AgentGroup → List AgentGroup
  add_client r [] =
      record {
        user_agent = r.user_agent;
        count = counts r.user_agent;
        best_difficulty = r.best_difficulty;
        total_hash_rate = r.hash_rate;
      }
      ∷ []
  add_client r (g ∷ groups) =
      let rest = add_client r groups in
      if agent_eq g.user_agent r.user_agent
      then record g {
        count = g.count + counts r.user_agent;
        best_difficulty = larger g.best_difficulty r.best_difficulty;
        total_hash_rate = f.add g.total_hash_rate r.hash_rate;
      }
        ∷ groups
      else g ∷ rest

  abbrev pub group_agents : List (ClientRow f) → List AgentGroup
  group_agents [] = []
  group_agents (r ∷ rows) = add_client r (group_agents rows)

  -- `ORDER BY count DESC`
  abbrev pub insert_common : AgentGroup → List AgentGroup → List AgentGroup
  insert_common g [] = g ∷ []
  insert_common g (h ∷ groups) =
      let rest = insert_common g groups in if ltb g.count h.count then h ∷ rest else g ∷ h ∷ groups

  abbrev pub most_common_first : List AgentGroup → List AgentGroup
  most_common_first [] = []
  most_common_first (g ∷ groups) = insert_common g (most_common_first groups)

  unfoldable pub get_user_agents : List (ClientRow f) → List AgentGroup
  get_user_agents rows = most_common_first (group_agents (filter (is_live f) rows))

  -- `reduce((acc, userAgent) => acc + ..., 0)`
  abbrev pub total_miners : List AgentGroup → ℕ
  total_miners [] = 0
  total_miners (g ∷ groups) = g.count + total_miners groups

  abbrev pub total_hash_rate_from : f.F → List AgentGroup → f.F
  total_hash_rate_from acc [] = acc
  total_hash_rate_from acc (g ∷ groups) = total_hash_rate_from (f.add acc g.total_hash_rate) groups

  -- The live clients that sent a user agent.
  unfoldable pub has_agent : ClientRow f → Bool
  has_agent r = is_live f r && elim r.user_agent [ none ↦ false | some agent ↦ true ]

  total_miners-add_client :
      (r : ClientRow f) (groups : List AgentGroup)
      → total_miners (add_client r groups) ≡ counts r.user_agent + total_miners groups
  total_miners-add_client r [] = ground arith
  total_miners-add_client r (g ∷ groups) = ground (arith, total_miners-add_client r groups)

  total_miners-insert_common :
      (g : AgentGroup) (groups : List AgentGroup)
      → total_miners (insert_common g groups) ≡ g.count + total_miners groups
  total_miners-insert_common g [] = refl
  total_miners-insert_common g (h ∷ groups) = ground (arith, total_miners-insert_common g groups)

  total_miners-most_common_first :
      (groups : List AgentGroup) → total_miners (most_common_first groups) ≡ total_miners groups
  total_miners-most_common_first [] = refl
  total_miners-most_common_first (g ∷ groups) =
      total_miners-insert_common g (most_common_first groups)
      ∙ ap (λ n. g.count + n) (total_miners-most_common_first groups)

  counts-length :
      (o : Option String) (r : ClientRow f) (rows : List (ClientRow f))
      → counts o + length rows
        ≡ length (if elim o [ none ↦ false | some agent ↦ true ] then r ∷ rows else rows)
  counts-length none r rows = omega arith
  counts-length (some agent) r rows = omega arith

  total_miners-group_agents :
      (rows : List (ClientRow f))
      → total_miners (group_agents (filter (is_live f) rows)) ≡ length (filter has_agent rows)
  unfolding has_agent
  total_miners-group_agents [] = refl
  total_miners-group_agents (r ∷ rows) = elim (Bool-cases (is_live f r)) [
    | inl live ↦ rw live (
        total_miners-add_client r (group_agents (filter (is_live f) rows))
        ∙ ap (λ n. counts r.user_agent + n) (total_miners-group_agents rows)
        ∙ counts-length r.user_agent r (filter has_agent rows))
    | inr gone ↦ rw gone (total_miners-group_agents rows)
  ]

  live_with_agent :
      (rows : List (ClientRow f)) → length (filter has_agent rows) ≤ connected_client_count f rows
  unfolding has_agent connected_client_count
  live_with_agent [] = omega arith
  live_with_agent (r ∷ rows) = ground (arith, live_with_agent rows)

  -- The miners that the dashboard counts over the groups are the live clients that sent a user agent, each
  -- once, and so never more than are connected.
  pub get_user_agents-total :
      (rows : List (ClientRow f))
      → (total_miners (get_user_agents rows) ≡ length (filter has_agent rows))
        × (total_miners (get_user_agents rows) ≤ connected_client_count f rows)
  unfolding get_user_agents
  get_user_agents-total rows =
      let e =
        total_miners-most_common_first (group_agents (filter (is_live f) rows))
        ∙ total_miners-group_agents rows in
      (e, rw e (live_with_agent rows))
