-- ===== src/Lib.antt =====
-- blockchain-api, a server that proxies JSON-RPC requests of projects to providers of blockchain
-- nodes, and answers about balances, names, sessions and exchanges.
--
-- A request to the RPC proxy passes the checks of its project (src/state.rs, on data from the
-- registry or its cache, src/project), then providers of its chain are drawn by their weights
-- (src/providers/mod.rs) and called one after the other until one gives an acceptable answer
-- (src/handlers/proxy.rs). The weights are recalculated from the metrics of those calls
-- (src/providers/weights.rs). Whatever fails on the way is an RpcError (src/error.rs), which
-- becomes the response.
--
-- Assets are bought at exchanges (src/handlers/json_rpc/exchanges): a request for an address to buy
-- at starts a session, which is a row of a table (src/database/exchange_reconciliation.rs); the
-- requests for its status and a reconciler that polls the table settle the row by what the exchange
-- says. Chains, assets and accounts are CAIP identifiers (src/utils/crypto.rs).
--
-- Files, and the code that they are about:
--   Errors: RpcError and the types it holds (src/error.rs and others named there); Errors/Response:
--     `into_response` and the bodies; Errors/Namespaces: names of CaipNamespaces.
--   Providers/Kind, Providers/Weight: ProviderKind, Priority and Weight with their functions.
--   Providers/Repository: the maps of ProviderRepository and the `add_..._provider` functions;
--     Providers/Additions: sequences of them.
--   Providers/Sampling: `rand`'s WeightedIndex as an interface; Providers/Selection: the functions
--     `get_rpc_provider_for_chain_id`, `get_balance_provider_for_namespace` and
--     `get_ws_provider_for_chain_id`; Providers/Selection/Limit: how many providers the first
--     gives.
--   Providers/Lookup: `get_rpc_provider_by_provider_kind` and `get_rpc_provider_by_provider_id`.
--   Providers/Messages: the classes of JSON-RPC errors.
--   Providers/Weights: `parse_weights`, `calculate_chain_weight`, `update_values`.
--   Proxy: `rpc_provider_call` and the loop over the providers in `rpc_call`; Proxy/Handler:
--     `handler_internal` and the rest of `rpc_call`; Proxy/Counter: a count of the calls of
--     providers.
--   Registry: Registry with its circuit breaker, and ProjectStorage (src/project); Project: the
--     checks of AppState (src/state.rs).
--   Cache: the methods answered from memory (src/utils/json_rpc_cache.rs).
--   Caip: `disassemble_caip2`; Caip/Chains: Caip2ChainId; Caip/Assets: Caip19Asset; Caip/Accounts:
--     `disassemble_caip10` and the validation of addresses; Caip/CoinTypes: ChainId and the coin
--     types of ENSIP-11 (all src/utils/crypto.rs).
--   Exchanges and Exchanges/Enabled: which exchanges are enabled
--     (src/handlers/json_rpc/exchanges/mod.rs);
--     Exchanges/Ledger: the rows and statements of the table, Exchanges/Ledger/Steps: their
--     sequences (src/database/exchange_reconciliation.rs); Exchanges/Transactions: transactions.rs;
--     Exchanges/Reconciler: reconciler.rs; Exchanges/BuyStatus: get_exchange_buy_status.rs;
--     Exchanges/PayUrl: get_exchange_url.rs; Exchanges/Assets: get_exchanges.rs and the tables of
--     binance.rs, coinbase.rs and test_exchange.rs (all src/handlers/json_rpc/exchanges).
--   Amounts: TokenAmount (src/utils/token_amount.rs).
--   Cors: `host_matches_pattern` (src/utils/cors.rs); Cors/Origins: the entries of allowed origins
--     (src/handlers/json_rpc/handler.rs).
--   Permissions: src/utils/sessions.rs and src/utils/permissions.rs.
--   Prelude: lists, maps and texts that the others share.
--
-- Machine integers are native numbers with the wrap-around written out. Hash maps are association
-- lists, whose order stands for the unspecified order of iteration. Loops are structural
-- recursion, so no fuel is used but for printing numbers: 256 decimal digits,
-- enough for 256 bits, and 16 hexadecimal digits, enough for 64 bits.
-- Providers, the network, the registry's client, the cache, the clock, JSON parsers, random
-- sampling and floating-point numbers are parameters; the state of the network is passed from call
-- to call; the checks of projects have an outside apart from that of the providers. Shared mutable
-- weights are updated one at a time. Statements on the table run one after the other, each at the
-- time of its transaction, in microseconds; the rows that other transactions hold locked are an
-- argument of a claim. 64-bit floating-point amounts of rows are their bits.
--
-- Not modelled: the clients of external services, the handlers other than the proxy and those of
-- exchanges, the trimming of allowed origins, storage back ends, configuration, durations in
-- metrics, log output and the widths of the table's columns.
pub mod Prelude
pub mod Amounts
pub mod Caip
pub mod Cache
pub mod Errors
pub mod Cors
pub mod Exchanges
pub mod Permissions
pub mod Project
pub mod Providers
pub mod Proxy
pub mod Registry
