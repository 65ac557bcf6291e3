-- ===== src/Lib.antt =====
-- A model of the sequencer: an L2 node that takes transactions into a pool, orders them, executes
-- them in blocks with go-ethereum's EVM, and stores the blocks.
--
-- The parts and their files:
-- - Base, Word, Float: shared names, tests and lists; unsigned 64-bit arithmetic with its wrap-around
--   written out; Go's float64 as an interface with the laws of IEEE 754 that the proofs need
--   (`IsIeee`), and a type in which they hold (Float/Milli).
-- - Heap: Go's container/heap, which the queues call, as far as the source uses it: Push, Pop,
--   Remove. Out of range is `none`; the loops run on fuel, one unit for each entry.
-- - Types: pkg/types/block.go and transaction.go.
-- - Queue: internal/mempool/queue.go, and the draining loop that PopBatch and drainLane share; its
--   fuel is one more than the number of entries, and each round takes an entry.
-- - Mempool: internal/mempool/mempool.go and errors.go. Mempool/Invariant relates the queue with the
--   map of known hashes; Mempool/Batches is about PopBatch, Mempool/Removal about Remove.
-- - Lanes: internal/mempool/lanes.go, the pool with three lanes; Lanes/Batches drains one lane,
--   Lanes/Fills follows the two phases of PopBatchLaned, Lanes/Removal is about Remove.
-- - Fees: internal/fees/model.go. Sizer: internal/producer/adaptive.go.
-- - Evm: internal/execution/evm.go; Evm/Contract is CallContract, with EstimateGas on it. The state database, the EVM and the signer of go-ethereum are
--   parameters, `StateDb` and `Evm`; `EvmLaws` states what the source relies on: a run leaves no more
--   gas than it is given, and a balance is a word of 256 bits. A panic inside the EVM, such as on the
--   blob base fee that Manager's calls leave nil, is outside the model. The search of EstimateGas has 64 rounds of fuel, enough for gas limits below 2^63.
-- - Merkle and Receipts: internal/execution/receipts.go, over hash functions that are parameters.
-- - ChainDb: internal/execution/chaindb.go over a map from byte strings. The JSON encoding is left out;
--   an object of another kind under a key is `foreign`, and what panics on it is `none`.
-- - StateStore: internal/execution/statestore.go over the trie database of go-ethereum, a parameter
--   `TrieDb`. ChainDb/Meta is about the entries that NewChainDB and NewManager look up.
-- - Manager: internal/state/manager.go, which executes a block on the state at the tip, commits the
--   state and stores the block. Manager/Commit follows ExecuteAndCommitBlock, Manager/Restart what
--   NewManager makes of the disk, where a write of the L1 origin may fail unseen, Manager/Hash is about computeBlockHash, Manager/Reads has the calls
--   and reads that keep nothing.
-- - Pool: internal/mempool/pool.go, the interface TxPool as a record; `IsPool` is what a client relies
--   on; Pool/Basic shows it for the Mempool, Pool/Laned for the pool with lanes, where priorities made of
--   proper weights and scores are numbers. Mempool/Weight and Lanes/Weight: the weight stays.
-- - Producer: produceBlock of internal/producer/producer.go, which draws a batch from the pool, has the
--   state manager make a block of it, returns what was skipped, and adjusts the fees and the sizer.
-- - Batcher: internal/batcher/batcher.go, the submission of blocks to L1; RLP and zlib are parameters,
--   and the L1 client is an interface, as in the source. Batcher/Cover follows runs of submissions,
--   confirmations and new blocks; Batcher/Submission one submission and what becomes of its
--   batch, Batcher/Confirmation a check of the confirmations.
-- - Rpc: eth_getLogs of internal/rpc/handler.go. The scan runs on fuel, 1002 rounds, one for each block
--   of the range and one to stop. Rpc/Matching is about matchLog, Rpc/Scan about the range.
-- - Rpc/Json: the parameters of a request, and what the decoders of the library make of them.
-- - Rpc/Admission: eth_sendRawTransaction of internal/rpc/handler.go, over any pool; the decoders of a
--   transaction are a parameter. Rpc/Admission/Laned takes the pool with lanes.
-- - Rpc/Chain: the requests of internal/rpc/handler.go that read blocks, transactions, receipts and
--   accounts; Rpc/Chain/Latest is about what they answer after a block, Rpc/Chain/Readable about when
--   they panic.
-- - Rpc/Subscriptions: internal/rpc/websocket.go, the subscriptions and the broadcasts.
--   Rpc/Subscriptions/Reached follows the manager over any run of what clients do,
--   Rpc/Subscriptions/Silence what happens after eth_unsubscribe.
-- - Rpc/Calls: eth_call, eth_estimateGas, eth_getCode and eth_getStorageAt; Rpc/Calls/Estimate is about
--   the answer of eth_estimateGas.
-- - Rpc/Status: eth_feeHistory and the custom requests about fees, compute receipts, lanes, the block
--   sizer and blocks; Rpc/Status/Receipt is about compute receipts. Rpc/Scores: the custom requests that
--   ask for scores; Rpc/Scores/Tiers is about the tiers of the compliance status.
-- - Rpc/Protocol and Rpc/Handler: the methods by their names, and Handle of internal/rpc/handler.go, which
--   runs them on one handler, which Rpc/Handler/Setup makes; Rpc/Handler/Dispatched and
--   Rpc/Handler/Handled are about Handle on any method.
-- - Rpc/Server: internal/rpc/server.go and the loop of HandleWS in internal/rpc/websocket.go;
--   Rpc/Server/Serving follows a whole connection.
-- - Metrics: internal/metrics/metrics.go, and what the producer and the batcher set of it.
-- - Genesis: internal/genesis/genesis.go; Genesis/Supply is about InitializeState.
-- - Config: the records and the defaults of internal/config/config.go.
-- - Node: cmd/sequencer/main.go, the components put together, and the steps of a running node.
-- - TasteScore: internal/tastescore/client.go, the cache in front of the HTTP service, and what becomes of
--   its reply.
-- - Tests: runs on small inputs.
--
-- A method is a function from the state to its results and the next state; an error is a value.
-- Locks and logs are not modelled: every method runs alone. The metrics stand apart from the producer and
-- the batcher, which only write them. The clock is an argument. The
-- tickers are not modelled: a round of a loop is a step, and the steps come in any order.
--
-- Not modelled: the reading of genesis.json and of the configuration, which are calls of libraries; the
-- listening and the writing of internal/rpc/server.go and internal/metrics, which are I/O; the constant
-- fields of the responses, which depend on nothing; the tickers; the flags, the signals and the opening of
-- the disk in cmd/sequencer.
pub mod Base
pub mod Float
pub mod Word
pub mod Heap
pub mod Types
pub mod Queue
pub mod Mempool
pub mod Lanes
pub mod Fees
pub mod Sizer
pub mod Merkle
pub mod Receipts
pub mod TasteScore
pub mod Tests
pub mod Evm
pub mod ChainDb
pub mod StateStore
pub mod Manager
pub mod Batcher
pub mod Pool
pub mod Producer
pub mod Rpc
pub mod Config
pub mod Node
pub mod Genesis
pub mod Metrics
