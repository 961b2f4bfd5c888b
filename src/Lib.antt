-- ===== src/Lib.antt =====
-- A verification library for cw-orchestrator: the state of a deployment, the transactions of contract
-- objects on a chain environment, the daemon that sends transactions to a node and keeps its
-- deployment in a JSON file, and the analysis of IBC packets across chains.
--
-- The parts and how they interact. A contract object (packages/cw-orch-core/src/contract) calls its
-- chain environment and registers what the responses name in the environment's state. The state is
-- an interface with a contract of its own; the mock state, the daemon state and the state of a
-- clone implement it. A daemon hands a transaction builder to the broadcaster, which builds, signs
-- and sends until no strategy asks for another try. An interchain environment follows packets and
-- returns an analysis.
--
-- Common: results with errors and panics (Outcome), state passing (Exec), maps (Dict), lists, texts.
--
-- Core: packages/cw-orch-core/src
--   Core/Error         error.rs: CwEnvError
--   Core/Events        environment/index_response.rs: the searches of events and what the default
--                      methods of IndexResponse parse
--   Core/State         environment/state.rs: StateInterface as a record of operations, and its contract
--   Core/Contract      contract/contract_instance.rs: Contract, over the transactions of TxHandler
--                      (environment/cosmwasm_environment.rs), which are a record of operations
--   Core/Conditional   contract/interface_traits.rs: ConditionalUpload and ConditionalMigrate
--   Core/ChainInfo     environment/chain_info.rs: ChainInfo and overwrite_with
--   Core/EnvVars       env.rs: the variables and their parsing
--   Core/Deploy        contract/deploy.rs: multi_network_deploy and its file; Progress says what the
--                      file holds, Resuming what the next run deploys; Deploy/Imported is the state
--                      that a crate brings with it
--   Core/Paths         contract/paths.rs, build.rs: the search for the wasm file of a contract;
--                      Priority is the choice as a specification
-- Mock: packages/cw-orch-mock/src
--   Mock/State         state.rs: MockState
--   Mock/Core          core.rs: the transactions of MockBase and upload_custom; the state is shared
--                      through Rc and RefCell, whose instance of StateInterface is in
--                      packages/cw-orch-core/src/environment/state.rs
-- Clone: packages/clone-testing/src
--   Clone/State        state.rs: MockState over the state of a daemon
--   Clone/Core         core.rs: the transactions of CloneTesting
-- Daemon: cw-orch-daemon/src
--   Daemon/Error       error.rs: DaemonError and its text
--   Daemon/TxBuilder   tx_builder.rs: build and simulate, over a record of the wallet's operations
--   Daemon/Broadcaster tx_broadcaster.rs: the loop of broadcast; Strategies has the two strategies,
--                      Passes and Termination what the loop does with retries
--   Daemon/SuggestedFee tx_broadcaster.rs: parse_suggested_fee
--   Daemon/Batch       senders/cosmos_batch.rs: the queue of CosmosBatchSender; Delivery says which
--                      messages it hands to its wallet, Cosmos is about the wallet of
--                      senders/cosmos.rs
--   Daemon/Node        queriers/node.rs: the searches for a transaction with retries
--   Daemon/Core        core.rs: the transactions over a sender and the waiting for blocks
--   Daemon/TxResponse  tx_resp.rs: CosmTxResponse, its logs and events; Timestamp has parse_timestamp
--   Daemon/GrpcChannel channel.rs: connect; Dialing and Tls say which channels it gives
--   Daemon/Wallet      senders/cosmos.rs: fees, the assertion of a balance, commit_tx_any, simulate
--   Daemon/Json        the interface of serde_json values, and a tree that implements it; Json/Locked is
--                      json_lock.rs: JsonLockedState
--   Daemon/State       state.rs: the handles of DaemonState on a world of files, LOCKED_FILES and shared
--                      states; State/Interface is the implementation of StateInterface, State/Lifecycle
--                      has new, clone and drop, Sharing and Exclusive who may open a file
-- Interchain: packages/interchain; without another path, interchain-core/src
--   Interchain/Error   error.rs: InterchainError
--   Interchain/Channel channel.rs: ports and channels
--   Interchain/Analysis types.rs, ack_parser.rs and the analysis of env.rs
--   Interchain/Environment env.rs: create_channel and await_and_check_packets over any environment
--   Interchain/Following await_packets of interchain-mock/src/interchain.rs and wait_ibc of
--                      interchain-daemon/src/packet_inspector.rs, over the following of one packet
--   Interchain/Inspector interchain-daemon/src/packet_inspector.rs: the searches for the transactions
--                      of a packet; Sent finds the packets, Cycle follows one
--   Interchain/MockEnv interchain-mock/src/interchain.rs: the environment of mocks; Packets has
--                      its following of packets
--   Interchain/DaemonEnv interchain-daemon/src/interchain_env.rs: the search for the creation of a
--                      channel
-- The Tests modules run the theorems at concrete inputs.
--
-- Conventions. A panic of the source is the outcome `panic`. Numbers of fixed width that are only
-- handed on, gas, fees, code ids and sequences, are natural numbers, as is the counter of retries,
-- which no run brings near 2 ^ 64. Log lines are left out. Futures that are joined run one after
-- the other. Five loops take fuel. The loop of the broadcaster takes one unit for each round;
-- Daemon/Broadcaster/Termination says how many rounds are enough and when none are. The following
-- of packets takes one unit for each relay that comes after another; Interchain/Following/Ending
-- says that a rank of the transactions is enough. The assertion of a balance takes one unit for
-- each answer of the user, who may ask for another try without end. The waiting for blocks takes
-- one unit for each query of the height; on a chain that grows by a
-- block in any patience + 1 sleeps, Daemon/Core/Waiting says that patience + 1 rounds for each block
-- are enough. The waiting for an uploaded code takes one unit for each query, which the source repeats
-- without end. Everything else recurs on lists, trees or a number of retries. Operations of
-- third-party code, the node, the wallet, the transport, cw-multi-test, serde_json, the answers of
-- the file system and the decoders of acknowledgements, are parameters.
--
-- Not modelled: single requests over gRPC, keys and signatures, the construction of protobuf
-- messages, tables of networks, procedural macros and examples, which call libraries or hold
-- constants; and the other queries of the node, the builders of the daemon, the construction and
-- the log of the interchain daemon, its tracker, and the bank functions of the mocks and of the
-- clone testing environment.
pub mod Common
pub mod Core
pub mod Mock
pub mod Daemon
pub mod Interchain
pub mod Clone
