-- ===== src/External.antt =====
-- What the program takes from other packages: block headers (rust-bitcoin) and graphs (petgraph).
pub mod Bitcoin
pub mod Petgraph
pub mod ListGraph
pub mod SampleHashes
pub mod Network
pub mod Sockets
pub mod Sqlite
pub mod RowList
pub mod Http
