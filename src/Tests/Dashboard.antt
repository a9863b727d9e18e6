-- ===== src/Tests/Dashboard.antt =====
-- The claims about what the dashboard shows at concrete inputs.
use elektron_net_ppool.Common.{
  ℕ, ◌+◌, ◌≤◌, ◌≡◌, refl, none, some, List, [], ◌∷◌, map, filter, length, All, arith,
}
use elektron_net_ppool.Common.Js.{Text, codes}
use elektron_net_ppool.Ledger.{get_payout_history}
use elektron_net_ppool.Statistics.{Owner, Row, new_statistics}
use elektron_net_ppool.Statistics.Rows.{rows_of}
use elektron_net_ppool.Statistics.Counts.{Share, InOrder, add_all}
use elektron_net_ppool.Statistics.Queries.{
  for_address, for_session, in_window, all_but_last, group_by_time, shown, get_chart_data,
}
use elektron_net_ppool.Statistics.Charts.{
  IsSaved, Rising, value_at, total_at, get_chart_data-group_by_time,
}
use elektron_net_ppool.Statistics.Totals.{counted, get_accounting-add_all}
use elektron_net_ppool.Dashboard.Csv.{csv_export_row_limit, get_payout_history_csv, read_csv}
use elektron_net_ppool.Dashboard.CsvReads.{IsCleanText, AreRows, get_payout_history_csv-read}
use elektron_net_ppool.Dashboard.Agents.{get_user_agents, has_agent}
use elektron_net_ppool.Dashboard.Site.{pool_info, pool_info-miners}
use elektron_net_ppool.Clients.{ClientRow, connected_client_count}
use elektron_net_ppool.Statistics.Overlaps.{in_slot, rows_at, overlap, overlap_inserts_twice}
use elektron_net_ppool.Dashboard.Shares.{ExternalPoolShare, Library}
use elektron_net_ppool.Tests.{fixed, ledger}

abbrev rig : Owner
rig = record { address = "alice"; client_name = "rig"; session_id = "01" }

abbrev other : Owner
other = record { address = "bob"; client_name = "rig"; session_id = "02" }

abbrev rows : List (Row fixed)
rows =
    record { time = 600_000; shares = 3_000_000; accepted_count = 2; owner = rig }
    ∷ record { time = 1_200_000; shares = 1_000_000; accepted_count = 1; owner = other }
    ∷ record { time = 1_200_000; shares = 5_000_000; accepted_count = 1; owner = rig }
    ∷ []

abbrev of_alice : List (Row fixed)
of_alice = filter (in_window fixed 1_300_000 (for_address "alice")) rows

rows-IsSaved : All (IsSaved fixed 1_300_000) rows
unfolding IsSaved
rows-IsSaved = ground arith

get_chart_data-group_by_time_example :
    let groups = group_by_time fixed of_alice in
    (get_chart_data fixed 1_300_000 (for_address "alice") rows
      ≡ all_but_last (map (shown fixed (for_address "alice")) groups))
    × Rising fixed groups
    × ((t : ℕ) → value_at fixed t groups ≡ total_at fixed t of_alice)
get_chart_data-group_by_time_example =
    get_chart_data-group_by_time fixed 1_300_000 (for_address "alice") rows rows-IsSaved

-- Two shares in one slot, a third in the next.
abbrev shares : List (Share fixed rig)
shares =
    (600_100, 600_101, 1_000_000)
    ∷ (600_200, 600_201, 2_000_000)
    ∷ (1_200_300, 1_200_301, 3_000_000)
    ∷ []

shares-InOrder : InOrder fixed rig none shares
unfolding InOrder
shares-InOrder = ground arith

get_accounting-add_all_example :
    let (s, rows') = add_all fixed rig shares (new_statistics fixed 0, []) in
    (counted fixed 1_300_000 (for_session rig) rows' ≤ 3)
    × (3 ≤ counted fixed 1_300_000 (for_session rig) rows' + s.accepted_count)
unfolding rows_of
get_accounting-add_all_example =
    get_accounting-add_all fixed rig shares 0 1_300_000 [] refl shares-InOrder

abbrev iso : ℕ → Text
iso t = codes "1970-01-01T00:00:00.000Z"

iso-IsCleanText : (t : ℕ) → IsCleanText (iso t)
iso-IsCleanText t = ground arith

get_payout_history_csv-read_example :
    let history = get_payout_history csv_export_row_limit "alice" ledger.rows in
    (lines : List (List Text)) × ((read_csv (get_payout_history_csv iso "alice" ledger.rows)
        ≡ (codes "blockHeight"
            ∷ codes "amountSats"
            ∷ codes "txid"
            ∷ codes "status"
            ∷ codes "timestamp"
            ∷ [])
          ∷ lines)
      × AreRows iso history lines)
unfolding get_payout_history
get_payout_history_csv-read_example =
    get_payout_history_csv-read iso "alice" ledger.rows iso-IsCleanText (ground arith)

abbrev report : ExternalPoolShare
report = record {
  worker = "rig";
  address = "alice";
  user_agent = "miner/1.0";
  external_pool_name = "elsewhere";
  header = codes "00ff";
}

abbrev library : Library fixed
library = record { hash256 = λ bytes. 1 ∷ []; infinity = 0; block_timestamp = λ bytes. some 1300 }

abbrev connected : List (ClientRow fixed)
connected =
    record {
      key = rig;
      user_agent = some "miner/1.0";
      best_difficulty = 0;
      hash_rate = 1_000_000;
      updated_at = 5;
      deleted_at = none;
    }
    ∷ record {
      key = other;
      user_agent = none;
      best_difficulty = 0;
      hash_rate = 0;
      updated_at = 5;
      deleted_at = none;
    }
    ∷ []

pool_info-miners_example :
    let info = pool_info fixed (get_user_agents fixed connected) (record { blocks = 7 }) [] in
    (info.total_miners ≡ length (filter (has_agent fixed) connected))
    × (info.total_miners ≤ connected_client_count fixed connected)
pool_info-miners_example = pool_info-miners fixed connected (record { blocks = 7 }) []

overlap_inserts_twice_example :
    rows_at fixed rig 600_000
      (overlap fixed rig 600_100 600_101 600_102 600_103 1_000_000 2_000_000
        (in_slot fixed rig 0 (new_statistics fixed 0))
        rows).1
    ≡ 2 + rows_at fixed rig 600_000 rows
overlap_inserts_twice_example =
    overlap_inserts_twice fixed rig 600_100 600_101 600_102 600_103 0 600_000 1_000_000 2_000_000
      (new_statistics fixed 0) rows refl refl refl
