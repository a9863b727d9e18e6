-- ===== src/Dashboard.antt =====
-- What the dashboard is shown: the tables of found blocks and of external shares, the settings of
-- addresses, and the controllers that answer from them (src/app.controller.ts,
-- src/controllers/client, src/controllers/external-share).
pub mod Cache
pub mod Blocks
pub mod Locks
pub mod Agents
pub mod Site
pub mod Csv
pub mod CsvReads
pub mod Fees
pub mod Shares
pub mod Settings
pub mod Upkeep
