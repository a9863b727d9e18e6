-- ===== src/Stratum.antt =====
-- src/models/StratumV1Client.ts: one connection of a miner. The JSON of a message and the checks of
-- class-validator come as an argument with each message, as do random ids, times and the lookups in
-- other services. What the client writes is a list of outputs; whether a write reached the socket may
-- depend on all that was written before it.
pub mod Agents
pub mod Throttle
pub mod Parsing
pub mod Entity
pub mod Modes
pub mod Session
pub mod Messages
pub mod Header
pub mod Submit
pub mod Work
