-- ===== src/Lib.antt =====
-- The liquid staking hub of contracts/hub: users bond the native token of the chain for Steak, a cw20
-- token, and unbond it in batches; the hub delegates what it holds to validators, by mining power that
-- miners earn with a proof of work.
--
-- The program's parts, from the repository's root, and the files that model them:
--   packages/steak/src/hub.rs, contracts/hub/src/types/staking.rs: the stored types, Types.
--   contracts/hub/src/state.rs: the storage, State: an Item is an Option, a map an association list in
--     the order in which the hub iterates over it (Store).
--   contracts/hub/src/math.rs: Math, with one file for each computation: Exchange (compute_mint_amount,
--     compute_unbond_amount), Undelegate, Removal, Rebalance, Target, Deduct (reconcile_batches).
--   contracts/hub/src/types/coins.rs: Coins, with its parser in Coins/FromStr, which has parse_coin of
--     contracts/hub/src/helpers.rs as well; the rest of that file is Helpers. Text has what Rust's
--     texts offer.
--   contracts/hub/src/execute.rs: Hub, with its handlers in Hub/Instantiate, Bond (bond, harvest),
--     Reinvest, Unbond (queue_unbond, submit_batch), Reconcile, Withdraw, Validators, Ownership and
--     Mining. A handler is a function from the state to a Result of the new state and the messages.
--   contracts/hub/src/contract.rs: Hub/Contract, the dispatch that composes the handlers; Hub/Replies, with
--     the handlers of replies; Hub/Migrate, with contracts/hub/src/migrations.rs.
--   contracts/hub/src/queries.rs: Hub/Queries, and Hub/Queries/Pages for the lists of requests and powers;
--     Hub/Queries/Dispatch composes them as query of contracts/hub/src/contract.rs does.
--   contracts/hub/src/types/staking.rs, with proto_encode of contracts/hub/src/helpers.rs: Hub/Staking, the
--     form that messages to the staking module take for the chain; Text/Decimal reads their amounts back.
--   packages/steak/src/lib.rs: checked_mul_uint, in Hub/Reinvest; the rest is Decimals.
--   contracts/token/src/lib.rs: Token, the guards in front of cw20-base, which is a parameter there.
--   packages/dpow-browser-miner, packages/dpow-hash: Miner/Browser and Miner/Pow.
--   packages/dpow-miner-cli: Miner/Cli has mine and one worker (create_tokio_handler), Miner/Threads the threads
--     of main, Miner/Commands the commands that are run (poll_miner_params, submit_proof, update_entropy) and
--     the environment (get_speed_as_int and the others).
--   Miner/Accepted and Miner/Delivered put the miners and the hub together.
-- Hub/Accounting and its children hold the book-keeping of unbonding (Closing a deposit with the submission
-- that it causes, Claimed/Fair two users of one batch), Hub/Invariant the invariants of the whole hub
-- (Reachable its states, Deployed the hub with its stored version and migrations), Hub/Ledger an abstract
-- view of it as shares of users in batches, Hub/Guards, Hub/Choices (with Deposits, Fees and Gaps) and
-- Hub/Difficulty what single handlers promise, Hub/Effect what an accepted message comes to, Hub/Queries/Walk a client that reads all pages, Miner/Threads/Sent, Flag and Races what the threads
-- promise and what they do not, Miner/Cli/Met and Miner/Cli/Ascending what the miner
-- of the command line promises, and Math/Tests, Hub/Tests, Miner/Tests and Tests the runs.
--
-- How it is modelled. Integers are native numbers; a sum or difference that does not fit its width is
-- the error `panic`, since the contracts are built with overflow checks (Uint). An error or a panic rolls
-- back the call, so it carries no state (Base/Outcome). A Decimal is its number of atoms, 10^18 to the
-- whole. The chain is a parameter, the record Chain: queries, address checks, SHA-256, and the
-- fixed-point operations of cosmwasm-std, whose documented values are laws of the record CosmwasmMath
-- in Uint. Messages to the chain are values (Chain).
--
-- Bounds and fuel: the matching of sources with destinations in Math/Rebalance/Matching uses up a source
-- or a destination in each round, so its fuel is the number of both. The browser's miner has fuel for
-- one round more than its tries, which Miner/Browser proves to be enough where the nonces fit 64 bits.
-- The miner of the command line runs until it finds a proof; it takes the list of what it reads of the
-- state that it shares with other threads, and is still running where that ends. Its workers never end;
-- they are run for a number of rounds. In Miner/Threads a step is one access to the shared state, taken by any
-- thread, since each lock is let go before the next is taken, in a condition with || as well (Rust 1.67 on);
-- a run is any sequence of steps. Miner/Threads keeps the answers of the hub and the proofs sent beside the
-- state. A client in Hub/Queries/Walk has as many pages as it wants. The search in Miner/Pow takes the list of the random nonces it draws.
--
-- Parameters: besides the chain, and the machine of a miner (Miner/Commands.Host: environment, processes, JSON), which characters are alphabetic (Coins/FromStr.Alphabet, fixed for ASCII), the texts
-- of a Decimal (Decimals.DecimalText), in Miner SHA-256 and bech32, and in Hub/Staking the encoding of a message into bytes.
--
-- Not modelled: events and attributes that the hub emits, the encoding of answers in JSON,
-- the metadata of the token, sleeping and printing, what the joed command does with a transaction, the
-- thread of packages/dpow-miner-cli that calls update_entropy at intervals, the keys of the indexes by flag,
-- and scripts and deploy.
pub mod Base
pub mod Uint
pub mod Types
pub mod Store
pub mod Chain
pub mod State
pub mod Helpers
pub mod Text
pub mod Coins
pub mod Math
pub mod Hub
pub mod Decimals
pub mod Token
pub mod Miner
pub mod Tests
