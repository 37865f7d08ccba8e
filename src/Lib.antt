-- ===== src/Lib.antt =====
-- A model of the backend of reorg-playground (Rust, src/): it follows the block headers of several bitcoin
-- networks through the nodes that are configured, keeps them as a tree, and publishes the tree, the nodes' tips
-- and the rate of stale blocks over HTTP.
--
-- The parts of the program and the files that model them:
--   * src/headertree.rs: `HeaderTree`. A tree is a petgraph graph of headers and an index from hashes to
--     nodes. `insert_headers` is modelled as its two loops, the one that adds nodes and the one that adds edges;
--     `unexpected_root_count` and `unexpected_roots` are in `HeaderTree.Roots`, `serialize_tree` is in
--     `HeaderTree.Serialize`, `sorted_interesting_heights` in `HeaderTree.Hotspots` and `recent_forks` in
--     `HeaderTree.Forks`, where petgraph's depth-first search is an argument.
--   * src/metrics.rs: `Metrics`. From the tree and the tips that the nodes report it finds the block that the
--     reachable nodes agree on, and counts active and stale blocks in windows that end there.
--   * src/node/mod.rs, src/node/types.rs, src/error.rs: `Node`. A trait object is a record of operations on a
--     state `W`, which stands for the bitcoin nodes behind it.
--   * src/config.rs: `Config`, from the records that serde fills to the networks and nodes, and `State` for the
--     types that the server shares.
--   * src/api.rs: `Api`. A handler takes the shared state, the path, the body and `W`, and gives the status,
--     the response, and `W` after the calls it makes.
--   * src/node/shared_fetch.rs, up to the JSON-RPC transport: `Fetch`, with `Fetch.Branches` for the fetch by hash and
--     `Fetch.Repair` for the missing headers below unexpected roots. The state of a fetch holds the node and
--     the tree, which may change while it runs.
--   * src/cache.rs: `Cache`. What other tasks do to the caches while an update holds no lock is its argument `others`.
--   * src/main.rs: `Main`. The tasks of a network share a state, the record `Server`; a call of a node may change all
--     of it, since other tasks run meanwhile. `Main.Steps` has the steps of the tasks and `Main.Invariant` what they
--     keep in any order; `Main.Persist` and `Main.Poll` follow the polling of a node, `Main.Miners` the search for
--     miners.
--   * src/db.rs: `Db`. A connection is an argument with the statements that run on it, `External.Sqlite`; what they do
--     to the rows of the table, and that a header is read back from its text, are laws. `External.RowList` is a
--     connection that is a list of rows.
--   * src/peer_api.rs: `PeerApi`. `PeerApi.Matching` finds the configured node that a peer is, `PeerApi.Topology`
--     answers with the peers of a network, `PeerApi.Actions` connects and disconnects. What a host name resolves to
--     is an argument, and a socket address is a number with a text and a port.
--   * src/rss.rs: `Rss`, the items of the feeds without the XML around them. The feed of invalid blocks is left
--     out.
--   * src/types.rs: `Types` and `State`.
--
-- `External` has what the program takes from other packages: the hashes and texts of rust-bitcoin, graphs of petgraph,
-- addresses and amounts. They are records that the definitions take as instance arguments, with the laws that
-- the program relies on; `External.ListGraph` and `External.SampleHashes` are instances that the tests run on.
-- `Prelude` has what the parts share: tests and lists over the native numbers, maps as association lists,
-- results, sorting, and operations on texts.
--
-- Numbers are natural numbers, and where a u64 may wrap the code's `+ 1` is taken modulo 2^64. Logging, locks and
-- the async runtime are left out: each operation runs as a whole, but for an update of the cache: `Main.Steps` has what it does under
-- each lock as a step of its own, and the functions of `Main` run it without another task in between. `path_to_root` has no bound in the code; the
-- model gives it as many steps as the block is high, plus one, and `Metrics.Paths` proves that these are enough
-- where heights rise along the edges. The fetch by batches has as many steps as the tip is high, plus two, and
-- `Fetch.Batches` proves that these are enough. All other loops are over lists or a number of heights.
--
-- Not modelled: the setup of the router and the timers in src/main.rs, the requests that the backends
-- in src/node/ make to bitcoin nodes, the signet miner, the user interface in ui/ and the scripts.
pub mod Prelude
pub mod PeerApi
pub mod Db
pub mod Main
pub mod Rss
pub mod External
pub mod Types
pub mod HeaderTree
pub mod Metrics
pub mod Node
pub mod State
pub mod Api
pub mod Config
pub mod Fetch
pub mod Cache
