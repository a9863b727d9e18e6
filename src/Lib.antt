-- ===== src/Lib.antt =====
-- The PPLNS mining pool of Elektron Net: a verification library of the code under src/.
--
-- Miners connect over Stratum (src/models/StratumV1Client.ts). A share that they submit is checked
-- against a job of the job service (src/services/stratum-v1-jobs.service.ts), logged
-- (src/ORM/pplns-shares), and, if it is a block that the node accepts, the reward is split over the
-- window of the log (src/pplns/reward-calculator.service.ts) into rows of the payout ledger
-- (src/ORM/payout-ledger) and the pool's own account (src/ORM/pool-accounting). The payout scheduler
-- (src/pplns/payout-scheduler.service.ts) pays mature rows through the wallet
-- (src/services/wallet-rpc.service.ts), with the thresholds that miners set for their accounts.
--
-- Modules and what they model:
--   Common: shared names; integers (Int), lists (Lists), text functions of the language (Js), and
--     floating-point numbers as an interface (Float).
--   Config: ConfigService.get and the readings of whole-number settings.
--   Ledger: PayoutLedgerService, one function for each query or update over the list of rows.
--   Wallet: the operations that the scheduler relies on. WalletRpc: WalletRpcService, whose calls of
--     the node are a list and whose answers are a function of the calls so far.
--   Scheduler: PayoutSchedulerService.runPayoutCycle, reconcileSentPayouts and
--     checkPoolWalletReconciliation; what others credit while the cycle awaits is an argument.
--   Shares: PplnsShareLogService. Accounting: PoolAccountingService.
--   Rewards: RewardCalculatorService.processBlockFound, in the order of the source's operations.
--   Payments: the ledger over a history of credits, payout cycles and passes of confirmations.
--   Jobs: StratumV1JobsService. MiningJob (src/models/MiningJob.ts): the coinbase, its two parts, the
--     notification (response) and the submitted block (copyAndUpdateBlock); Diagnostics has the headers
--     of its diagnostics, and Hex, Miner, Payout and Submitted have its proofs.
--   Stratum.Agents: the user-agent lists. Stratum.Session: the fields of a client, write and the ends
--     of a connection. Stratum.Messages: handleMessage and initStratum. Stratum.Header:
--     MiningJob.buildHeaderBuffer and the difficulty of a header. Stratum.Submit:
--     handleMiningSubmission with the tables that it writes. Stratum.Work: sendNewMiningJob and its
--     three callers.
--   Statistics: StratumV1ClientStatistics (src/models/StratumV1ClientStatistics.ts) and the rows that it
--     saves (src/ORM/client-statistics); Rows, Counts and Overlaps for the slots, Difficulty for the suggested
--     difficulty, with Bits, Power and Suggestion for its proofs.
--   Clients: ClientService (src/ORM/client/client.service.ts), its table and the queue of its inserts.
--   Auth: AuthChallengeStore and AuthService.login and loginOnChain (src/auth); verifying a signature
--     and scanning for a payment are arguments.
--   Account: MinerAccountSettingsService, JwtAuthGuard and the routes of MinerAccountController
--     (src/controllers/miner-account); verifying a token is an argument.
--   Registry: PoolRegistryService (src/services/pool-registry.service.ts).
--   Server: StratumV1Service (src/services/stratum-v1.service.ts), its listeners and their backpressure.
--   NodeRpc: BitcoinRpcService (src/services/bitcoin-rpc.service.ts), whose node is a function of the
--     call's number; Tip, Templates and Scans for its proofs.
--   Network: src/utils/elektron-network.ts, BitcoinAddressValidator and the bot's check of an address.
--   Subscriptions: TelegramSubscriptionsService. Telegram: the commands of the bot
--     (src/services/telegram.service.ts), with its Texts and the Bot's polling and notices; Commands, Polls
--     and Notices for its proofs. Notifications: NotificationService, DiscordService and the notices of
--     a payout cycle.
--   Dashboard: what the routes read. Cache and Site for src/app.controller.ts; Fees and Csv for
--     src/controllers/pplns; Shares for src/controllers/external-share and its table; Blocks for
--     src/ORM/blocks and src/ORM/rpc-block; Agents for ClientService.getUserAgents; Settings for
--     src/ORM/address-settings; Upkeep for the timers of src/services/app.service.ts.
--     Statistics.Queries has the charts and the accounting of src/ORM/client-statistics.
--   Logs: LogRotationService (src/services/log-rotation.service.ts).
--   Stratum.Parsing: the transforms of src/models/stratum-messages. Stratum.Throttle, Stratum.Entity and
--     Stratum.Modes: the throttled logs, ensureClientEntity and the diagnostics of StratumV1Client.
--   Tests: concrete inputs.
--
-- A handler is one step, but where the source waits and others come in between: the shares of a session
-- (Statistics), the flushes of the queue of inserts (Clients), the cached route (Dashboard.Site), the
-- payout cycle and the polls are cut at what they wait for.
-- State is passed explicitly: a handler takes the client and the tables that it may change and
-- returns them. Failures of calls are results or Boolean arguments. Amounts are integers without a
-- bound; the source's numbers are exact up to 2 ^ 53, above every amount of money that exists.
-- Fuel is used for printing a number, whose digits and groups of digits are fewer than the number plus
-- one; for reading the fields of a line, which are fewer than its characters; for the recursion of
-- nearestPowerOfTwo, for which four steps are proved to be enough below 2 ^ 31; and for the loop of
-- loadBlockTemplate, which is proved to end when the node first answers something other than null.
--
-- Not modelled: the controllers that only join the tables for one address, the signing of tokens, the
-- transport of the calls, the decoding of transactions by bitcoinjs-lib, the set-up of sockets and
-- connections, the clients of Braiins and BTCPay, and the texts of most log lines. They keep no state that
-- the parts above read, or are code of other packages, which is a parameter (hash256, class-validator's
-- verdict, random ids).
pub mod Common
pub mod Config
pub mod Ledger
pub mod Wallet
pub mod Scheduler
pub mod Payments
pub mod Shares
pub mod Accounting
pub mod Rewards
pub mod WalletRpc
pub mod Jobs
pub mod Stratum
pub mod MiningJob
pub mod Statistics
pub mod Clients
pub mod Auth
pub mod Account
pub mod Registry
pub mod Server
pub mod NodeRpc
pub mod Subscriptions
pub mod Network
pub mod Telegram
pub mod Notifications
pub mod Dashboard
pub mod Logs
pub mod Tests
