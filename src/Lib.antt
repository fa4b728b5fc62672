-- ===== src/Lib.antt =====
-- A verification library for evm-amm-search, which finds routes between tokens over pools of
-- automated market makers, quotes them, and streams the best ones to a caller.
--
-- A search takes a `SearchConfig` and enumerates candidate paths over the token graph. Each candidate
-- is quoted hop by hop by pool adapters of another crate. A streaming search hands every quote, and
-- every candidate that failed, to `StreamingRouteState`, which keeps the best routes and decides
-- which events the callback gets and when the search stops. The parts and their files:
--
-- - Route: hops, paths, quotes and errors (src/search.rs).
-- - Config: the configuration records, with their presets and builder methods (Config/Presets and
--   Config/Methods) and the `validate` methods (Config/Validate) of src/search.rs and
--   src/liquidity.rs. Config/Valid says what is accepted, Config/Builders and Config/Heuristic what
--   builder calls lead to.
-- - Stream: `StreamingRouteState` of src/search.rs. Stream/State has the fields and
--   `record_top_route`, Stream/Progress the figures, policies and reports, Stream/Events the
--   handlers that emit events. Each handler takes the state with the events emitted so far and
--   returns whether the search goes on. Stream/Session has the steps of
--   `stream_routes_parallel_with_cache`, in any order and whatever they answered: calls of the
--   handlers, `PhaseCompleted` and `finish_stream_report`. Stream/Best, Stream/Top with
--   Stream/TopRoutes, and Stream/Delivery with Stream/Gate are about what such steps lead to,
--   Stream/Frame and Stream/Stops about one step, Stream/Bounds about all states.
-- - Enumerate: `AmmSearcher::enumerate_routes_filtered` of src/search.rs, one function for each part
--   of its loop. Enumerate/Loop has the search loop and the results, Enumerate/Spec an independent
--   description of the routes; Enumerate/Ends, Enumerate/Complete with Enumerate/Hits,
--   Enumerate/Simple with Enumerate/Routes, and Enumerate/Found relate the two;
--   Enumerate/Sound and Enumerate/Short are about searches that a limit or a callback cuts short.
-- - Quote: `quote_path_with_registry` and `rank_or_no_viable` of src/search.rs; the registry of pools
--   and adapters is an interface. Quote/Explained and Quote/Ranked are about their results.
--   Quote/Dag has `QuoteDag`, Quote/Evaluate `QuoteDagEvaluator` and `quote_paths_with_registry`;
--   Quote/Items, Quote/Together, Quote/Yields, Quote/Evaluated and Quote/Observed are about what they
--   quote.
-- - Quote/Cache: `SharedQuoteCache` of src/search.rs. `ask` is one pass of the loop of `get_or_quote`,
--   `complete` what it does after the quote, `abandon` the drop of `InFlightQuoteGuard`; the threads
--   that are asleep on the condition variable are part of the cache, and a thread that was woken up
--   asks again. Cache/Shared has the steps of the threads, Cache/Parts, Cache/Found and
--   Cache/Reached are about the states they reach, Cache/Truth about what a thread learns,
--   Cache/Asleep about those that wait.
-- - Dominance: `PrefixDominanceIndex` of src/search.rs; Dominance/Kept is about the labels it keeps.
-- - Work: `split_paths`, `split_indexed_items`, `collect_ordered_results` and `heuristic_pass_modes` of
--   src/search.rs; Work/Dealt is about what they deal out, Work/Ordered about the order of the results.
-- - Graph: `AmmGraph` of src/graph.rs over an interface for the petgraph storage. Graph/Tokens has the
--   tokens of a pool, Graph/Edges the private methods, Graph/Update the public ones. Graph/Held says
--   when the parts of a graph hold given links. Graph/Insert, Graph/Connect, Graph/Pairs,
--   Graph/Directed and Graph/Added are about adding a pool, Graph/Forget, Graph/Remove,
--   Graph/Without, Graph/Removed and Graph/Prune about removing one. Graph/Normalized is about the
--   tokens; Graph/Valid has the invariant; Graph/Applied, Graph/Compact and Graph/Refine relate the
--   public methods to a map from pools to tokens; Graph/Orphans is about the edges and nodes that a
--   removal takes out of the storage. Graph/Registered and Graph/Registry are about the
--   graph of a registry; Graph/Hops and Graph/Routes join it to Enumerate.
-- - Prelude: Boolean tests, lists, equality, results and a stable sort. Tests: runs on small inputs.
--
-- Numbers are natural numbers. Where the source saturates or narrows, the model does so at the width
-- of a 64-bit `usize`; counters that the source increments plainly are not bounded. An address is the
-- number of its bytes. A `HashSet` is a list of which only membership and size are read. Pool
-- keys, node indices and adapter errors are types of other crates, hence parameters; so is the type of
-- the counters that a progress report passes on unread.
-- A callback may keep state, so it is a function of the events, or of the polls, before.
--
-- The fuel of the search loop is the number of search states that the graph can lead to within
-- `max_hops`, computed from the graph; it is enough for every graph and every callback.
--
-- Not modelled: the heuristic search but for its dominance index and pass modes, the keys of the
-- quote cache, sessions with incremental updates, the liquidity index and the live runtime, which the
-- library does not cover; the terminal program, the sidecar service and the contracts, which are glue
-- over external crates.
pub mod Prelude
pub mod Route
pub mod Config
pub mod Stream
pub mod Enumerate
pub mod Graph
pub mod Quote
pub mod Dominance
pub mod Work
pub mod Tests
