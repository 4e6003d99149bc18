-- ===== src/Lib.antt =====
-- Spectra Portal: the core of the client (client_app/src).
--
-- A user asks the pathfinder service for a route between two chains; the client turns the answer into
-- steps, has each step's transaction signed, follows its packets from chain to chain, and keeps a
-- history of the transfers in the browser. The modules:
--
--   * Base: tests, lists, texts and sorting over the native numbers, for all the others.
--   * Pathfinder: the messages of the pathfinder service that the client reads
--     (client_app/src/lib/generated/pathfinder/pathfinder_route_pb.ts), with the fields it reads.
--   * Config: the client's configuration (client_app/src/components/modules/tomlTypes.ts), and its
--     lookups and its loading (client_app/src/lib/config/config.ts) in Config/Lookup.
--   * Mutex: client_app/src/lib/mutex/mutex.ts. `lock` and `unlock` are one step each of a system of
--     tasks (Mutex/System): a task runs up to its next `await`, and a resolved one goes on later.
--   * Transfer: client_app/src/context/transferContext.tsx. Transfer/Reducer has `transferReducer`
--     (`transfer_reducer`) and what the provider computes from the state; Transfer/Steps has
--     `generateStepsFromResponse` and `extractChainPath`.
--   * IndexDb: client_app/src/lib/indexDb/dbManager.ts over an object store, an interface of requests
--     and their documented behaviour (IndexDb/Store) that a store in memory meets (IndexDb/Memory). IndexDb/Shown has the hook
--     client_app/src/hooks/useTransactionHistory.ts over it; the age of a transaction is 0 where the
--     code's is negative, which is shown and tested in the same way.
--   * Tracking: client_app/src/hooks/ibcTracking and client_app/src/hooks/useIbcTracking.ts, over an
--     interface of the chains, the clock and the abort signal (`ChainApi`).
--   * Quote: client_app/src/hooks/usePathfinderQuery.ts and client_app/src/hooks/useRouteInfo.ts.
--     `fetchRouteInternal` is two steps (Quote/Hook), up to its request and from its answer on, of a
--     session with any number of requests in flight (Quote/InFlight).
--   * Health: client_app/src/app/api/health/route.ts over what the endpoints answer, with its cache,
--     and client_app/src/lib/apiQueries/featchHealthyEndpoint.ts, the client's side of it.
--   * Wallet: client_app/src/context/walletContext.tsx, the connections of the provider and what it keeps
--     in the local storage (Wallet/Provider, Wallet/Storage; the JSON of a state is kept as the state, and
--     each operation runs to its end before the next one),
--     and client_app/src/lib/wallets/walletUtility.ts. The wait for an extension has fuel, one round
--     for each millisecond and one more.
--     Wallet/Send has `sendTransaction` over an interface of the extension and of the signing clients,
--     `Signing`; its world keeps the requests to sign. A gas adjustment is a fraction there, and the
--     product is exact.
--   * Rest: client_app/src/lib/apiQueries/fetchApiData.ts, the queries by hash and by events, over what
--     the requests answer and how the schemas parse it (Rest/Platform). `chain_api` gives them to
--     Tracking as its interface of the chains.
--   * Amounts: client_app/src/lib/utils.ts, the conversion of an amount to base units (Amounts/Convert).
--   * Form: client_app/src/hooks/useTransferFormState.ts, the fields of the form and the search parameters
--     of the page's address (Form/Address; a navigation is done before the next change), and
--     client_app/src/hooks/useDebounce.ts, the refs of `useDebouncedCallback` and the page's event loop
--     as a step relation (Form/Debounce). Form/Chains has the chains to receive on that
--     client_app/src/components/ui/send/senderUi.tsx computes (Form/Network says which they are to
--     be, from the configuration alone), and Form/Submit the chains whose wallets it requires and its
--     submission, as the actions for the reducer of Transfer.
--   * Messages: client_app/src/hooks/useTransactionConstr.ts, the messages of the transactions.
--   * Wire: the codecs of the swap messages that the wallet signs
--     (client_app/src/lib/generated/osmosis), over the writes and reads of the protobuf package, a
--     record `Wire` with their documented behaviour, `WireLaws`. A writer is the bytes written so far,
--     a reader the bytes that are left and the length of all; the loop of a `decode` (Wire/Loop) has
--     fuel, one round for each byte left and one more. Wire/Schema has the messages by the numbers and
--     types of their fields, which the bytes are compared with.
--   * Task: client_app/src/context/taskProvider.tsx. Task/Platform has what the executor is given (the
--     wallet, the chains, the store) and the world that it acts on; Task/Step has `executeStep`,
--     Task/Run `executeStepsWithTracking`, and Task/Provider `executeTransfer` and `retryStep`. Each is
--     a state passing computation that is done, throws, or is stray. The closures' `transfer.state` is
--     the state at the call; no other call dispatches while one runs.
--
-- A state change is a function from state to state; what throws or is rejected is a value. A write
-- behind the end of the step list, which leaves the types of the program, is `none` in the reducer and
-- `stray` in the executor. The loops of the tracking are recursion on the attempts that are left, as
-- in the code, so they need no fuel; the hops are recursion on the chain path, and the executor's loop
-- on the steps. Numbers are natural numbers: the clock's difference stops at 0, which no comparison
-- with a timeout sees. Texts compare by value.
--
-- Not modelled: the opening, upgrading and deleting of the browser's database, logging and progress
-- callbacks that only log, React's rendering and scheduling, the cryptography of signing, the React hooks
-- that repeat the REST queries, the amounts that are shown, which use floating point, the parsing of
-- slippage errors, the JSON texts of messages, the query string of a request, the chain's own decoder
-- of the messages, the generated code for Osmosis that the client does not call, and the services in
-- Go (pathfinder, config_manager).
pub mod Base
pub mod Pathfinder
pub mod Mutex
pub mod Transfer
pub mod IndexDb
pub mod Config
pub mod Tracking
pub mod Messages
pub mod Task
pub mod Quote
pub mod Health
pub mod Wallet
pub mod Rest
pub mod Amounts
pub mod Wire
pub mod Form
