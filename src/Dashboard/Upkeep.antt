-- ===== src/Dashboard/Upkeep.antt =====
-- The timers of src/services/app.service.ts: what they delete, and what of the dashboard that leaves as it is.
use elektron_net_ppool.Common.{
  ℕ, ◌-◌, ◌*◌, ◌≤◌, ◌≡◌, refl, String, str_eq, Bool, true, false, ◌&&◌, Bool-cases, inl, inr,
  Option, none, some, List, [], ◌∷◌, filter, ltb, if◌then◌else◌, arith,
}
use elektron_net_ppool.Common.Float.{Float64}
use elektron_net_ppool.Clients.{ClientRow, kill_dead_clients, delete_old_clients}
use elektron_net_ppool.Statistics.{Row, delete_old_statistics}
use elektron_net_ppool.Statistics.Queries.{Scope, is_in, in_window, is_after, day, get_chart_data}
use elektron_net_ppool.Dashboard.Blocks.{RpcBlock, delete_old_blocks}

module _ (f : Float64) where
  pub record Tables : Type 0 where
    pub statistics : List (Row f)
    pub clients : List (ClientRow f)
    pub templates : List RpcBlock

  -- The hourly timer, the one of five minutes and the daily one.
  pub data Timer : Type 0 where
    hourly five_minutes daily : Timer

  -- `NODE_APP_INSTANCE == null || NODE_APP_INSTANCE == '0'`
  abbrev pub runs_timers : Option String → Bool
  runs_timers none = true
  runs_timers (some instance_id) = str_eq instance_id "0"

  unfoldable pub fire : (now : ℕ) → Timer → Tables → Tables
  unfolding delete_old_statistics delete_old_clients kill_dead_clients delete_old_blocks
  fire now hourly t = record t {
    statistics = delete_old_statistics f now t.statistics;
    clients = delete_old_clients f now t.clients;
  }
  fire now five_minutes t = record t { clients = kill_dead_clients f now t.clients }
  fire now daily t = record t { templates = delete_old_blocks t.templates }

  filter-window :
      (now later : ℕ) (scope : Scope) (rows : List (Row f))
      → now ≤ later
      → filter (in_window f later scope) (delete_old_statistics f now rows)
        ≡ filter (in_window f later scope) rows
  unfolding delete_old_statistics
  filter-window now later scope [] h = refl
  filter-window now later scope (r ∷ rows) h =
      elim (Bool-cases (ltb r.time (now - 24 * 60 * 60 * 1000))) [
        | inl old ↦
            let outside : is_after later (day f) r.time ≡ false = ground (arith, old, h) in
            rw (old, outside, and_false (is_in f scope r)) (filter-window now later scope rows h)
        | inr young ↦
            rw young (kept (in_window f later scope r) (filter-window now later scope rows h))
      ]
    where
      and_false : (b : Bool) → (b && false) ≡ false
      and_false true = refl
      and_false false = refl

      kept :
          (b : Bool) {xs ys : List (Row f)}
          → xs ≡ ys
          → (if b then r ∷ xs else xs) ≡ (if b then r ∷ ys else ys)
      kept b e = rw e refl

  -- No timer, whichever fires, changes what a chart shows then or later: only rows that are out of its
  -- window are deleted.
  pub get_chart_data-fire :
      (now later : ℕ) (timer : Timer) (scope : Scope) (t : Tables)
      → now ≤ later
      → get_chart_data f later scope (fire now timer t).statistics
        ≡ get_chart_data f later scope t.statistics
  unfolding get_chart_data fire
  get_chart_data-fire now later hourly scope t h =
      rw (filter-window now later scope t.statistics h) refl
  get_chart_data-fire now later five_minutes scope t h = refl
  get_chart_data-fire now later daily scope t h = refl
