-- ===== src/Lib.antt =====
-- A verification library for the server of BitWindow (litwindow/server, Go).
--
-- The server keeps a SQLite database that blocks, a background engine and the user's requests
-- change. Modelled are:
--   * the withdrawal messages of LIP 005 and the sidechain database that they drive: M3 messages
--     propose a withdrawal bundle, M4 messages vote on bundles, and every block ages them;
--   * the listing of withdrawal bundles from the validator's peg data, with its cache;
--   * the selection of coins for a transaction;
--   * the cheques: addresses of a wallet that are funded by others and swept by their holder;
--   * the deniability plans, which move an output on by several hops, and the engine that runs them;
--   * the monitor of the sidechains, which waits for fast withdrawals, pays them and reports them;
--   * the addresses of deposits to a sidechain, with the transaction of a deposit, and the classes of
--     addresses;
--   * the CPU miner: the decoding of a block template, its Merkle trees, and the scan of the nonces;
--   * the distribution of a wallet's outputs over ranges of values.
--
-- Which file models what:
--   * Prelude (Tests, Lists, Maps, Predicates, Results, Sorting, Int): the libraries' names, tests on
--     numbers, lists, Go's maps as entries, rows chosen and ordered as SQL does, signed integers.
--   * Int64: Go's int64 and uint64 as 64 bits that wrap around.
--   * Database (Moves, Succeeds, Loops): calls on the one connection to SQLite. A call runs on the
--     tables, the connection's latest row id and the number of calls made; a `Driver` says which
--     calls fail and what time they read. `exec`, `insert`, `update` and `query` are the calls of
--     database/sql, `transaction` is BeginTx with Commit or the deferred Rollback. A statement is a
--     function of the tables, which stands beside the SQL it translates.
--   * M4/Message: the types and constants of litwindow/server/models/m4/m4.go.
--   * M4/Parser: ParseM4Bytes, ParseM3Bytes, EncodeVotePreferences and the two tests of
--     litwindow/server/models/m4/parser.go; Accepts, Votes, Ballot and Proposal prove what they read.
--   * M4/Scdb: the tables of migrations/019_m4_scdb.sql; Statements and Engine are the SQL and the
--     methods of litwindow/server/engines/m4_engine.go (`process_block` is ProcessBlock, and so on),
--     Queries its reads. Evolution, Decision, Lifetime, Upvotes and Replay prove what a block does.
--   * M4/Generate: GenerateM4Bytes and SetVotePreference of litwindow/server/api/m4/m4.go.
--   * Withdrawals: processPegDataBlocks, mergeBundles and updateBundleAges of
--     litwindow/server/api/drivechain/drivechain.go; Merged and Ages prove how a bundle is listed.
--   * CoinSelection: litwindow/server/engines/coin_selection.go (`select_coins` is SelectCoins).
--   * Deniability: the types and the schedule of litwindow/server/models/deniability/deniability.go;
--     Sizes is its column of target sizes, Store and Store/Operations its statements and functions.
--   * Deniability/Engine and Engine/Round: litwindow/server/engines/deniability_engine.go, from
--     `check_denials` down.
--   * Deniability/Requests: CreateDenial and the three other requests on plans of
--     litwindow/server/api/bitwindowd/bitwindowd.go; Created and Extended prove when CreateDenial
--     comes to the store and what it does to a plan that it finds.
--   * Cheques and Cheques/Operations: litwindow/server/models/cheques/cheques.go; Index and Recovery
--     prove what a new index, a recovery scan and a funding do.
--     Requests and Sweep are the requests on cheques of litwindow/server/api/wallet/wallet.go and the
--     transaction that sweeps one; Deletion, Funding, Missing, Swept and Broadcast prove what a
--     request deletes, stores, returns and sends. Scan is ScanForFunds and the loop over the wallets of
--     litwindow/server/engines/cheque_engine.go, and Scan/Found proves what it finds.
--   * SidechainMonitor: litwindow/server/engines/sidechain_monitor_engine.go. Json is its reading of
--     answers, Payments and Completion the payment of a withdrawal, Poll one round (`poll`). Account and
--     its modules say what the turns of a loop account for: what is detected, told, reported and
--     settled (Answers, Sending, Polls), and that a listed withdrawal is detected (Detection). Steps
--     is the step relation of the sections under the lock on any arguments, Runs reads a turn as
--     such a run, Broadcasts follows runs, Outputs and Cleanup prove what a round finds and forgets.
--   * DepositAddress: litwindow/server/drivechain/utils.go; Deposits is CreateSidechainDeposit of
--     litwindow/server/api/wallet/wallet.go, Classes is litwindow/server/models/addressbook/classify.go, and
--     RoundTrip and Sound prove what an address reads as.
--   * CpuMiner: Encoding is litwindow/server/cpuminer/util.go; Merkle, Scan, Coinbase, Script and
--     Work are the parts of gbtWorkDecode and scanhashSha256d of litwindow/server/cpuminer/miner.go.
--   * UtxoDistribution: GetUTXODistribution and generateDynamicBuckets of
--     litwindow/server/api/wallet/wallet.go; Partition proves where each output stands.
--   * The module Tests of a part: its theorems at a concrete input.
--
-- The parts meet in the tables: the M4 requests and the M4 engine share those of M4/Scdb, the
-- deniability engine and the requests on plans work through the operations of Deniability/Store, and
-- the requests on cheques through those of Cheques/Operations.
--
-- What stands for code that is not here: the driver for SQLite, a `Reordering` for sort.Slice and
-- rand.Shuffle, whose order Go leaves open, and `Wallets` for the answers of the wallets and nodes.
-- The monitor, the scan for cheques and the requests take the answers of servers and nodes as a
-- record; the miner takes SHA-256, the clock and the conversions of btcd, the sweep of a cheque the
-- calls of btcd that sign it, the deposit requests the decoder of addresses, and the distribution the
-- floating-point index, as parameters. So are the sums of float64 amounts.
-- A theorem that needs more than any driver gives says so by `IsReliable`; those on the monitor's
-- account ask that Go ranges over the entries of a map alone (`RangesOver`) and that 95 times a
-- pending amount is an int64 (`AreSmall`).
--
-- Bounds and fuel: M4/Generate runs over the 256 slots; a formatted number takes at most 20 digits,
-- which an int64 never needs; the wait for a transaction tries 300 times, once a second for five
-- minutes, and times out then. The loop over the levels of a Merkle tree has one round more than the
-- tree has hashes, the scan one round for every nonce to the last, the writing of a height one for
-- each of at most ten bytes, and a reversal one more than the bytes there are; the scan for cheques
-- and the selection of boundaries count to a bound that the code gives. All other loops run over a
-- list.
--
-- Not modelled: logs; the texts of errors (data types instead); the explanatory text beside the
-- generated bytes; the scan of a row, which always succeeds except where it parses; the scheduling of
-- the tasks of one round, which run one after another; the JSON-RPC calls and goroutines of the
-- miner; a negative height of a block, for which the loop over its bytes would not end; the streams, dialogs and services that the requests forward to; and the other parts of the
-- server.
pub mod Prelude
pub mod Int64
pub mod Database
pub mod Cheques
pub mod CoinSelection
pub mod CpuMiner
pub mod Deniability
pub mod DepositAddress
pub mod M4
pub mod SidechainMonitor
pub mod UtxoDistribution
pub mod Withdrawals
