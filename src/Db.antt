-- ===== src/Db.antt =====
-- src/db.rs: the headers in the database. A function gives its result and the connection after it: a transaction
-- that fails is dropped, which leaves the connection as it was.
pub mod Stored
pub mod Reading
pub mod Loaded
pub mod Rows
pub mod Tree
pub mod Links
mod Tests
use Prim.Native.String.{String}
use reorg_playground.Prelude.{
  ℕ, Option, none, some, List, [], ◌∷◌, Map, get, insert, length, Result, ok, err, ◌>>=◌,
}
use reorg_playground.External.Bitcoin.{BlockHash, Bitcoin}
use reorg_playground.External.Petgraph.{DiGraph}
use reorg_playground.External.Sqlite.{Row, Sqlite, Encoding}
use reorg_playground.Types.{HeaderInfo, TreeInfo}
use reorg_playground.HeaderTree.{hash_of}

-- What another library's error carries is the text that it prints.
pub data DbError : Type 0 where
  rusqlite decode_hex bitcoin_deserialize : String → DbError

module _ {D : Type 0} ⦃sqlite : Sqlite DbError D⦄ where
  open sqlite use {create_headers, transaction, insert_or_ignore, update_headers, commit}

  pub setup_db : D → Result DbError Unit × D
  setup_db db = elim (create_headers db) [ ok db' ↦ (ok tt, db') | err e ↦ (err e, db) ]

  -- The end of a transaction: the connection that it leaves
  abbrev pub finish_transaction : D → Result DbError D → Result DbError Unit × D
  finish_transaction db (ok db') = (ok tt, db')
  finish_transaction db (err e) = (err e, db)

module _ ⦃bitcoin : Bitcoin⦄ ⦃encoding : Encoding DbError⦄ where
  -- The values of the INSERT statement
  abbrev pub row_of : ℕ → HeaderInfo → Row
  row_of network info = record {
    height = info.height;
    network = network;
    hash = bitcoin.to_string (hash_of info);
    header = encoding.serialize_hex info.header;
    miner = info.miner;
  }

module _ ⦃encoding : Encoding DbError⦄ where
  -- The loop of `load_header_infos`
  pub read_rows : List Row → Result DbError (List HeaderInfo)
  read_rows [] = ok []
  read_rows (row ∷ rows) = do
    header ← encoding.decode row.header
    rest ← read_rows rows
    ok (record { height = row.height; header = header; miner = row.miner } ∷ rest)

module _ {D : Type 0} ⦃bitcoin : Bitcoin⦄ ⦃encoding : Encoding DbError⦄
    ⦃sqlite : Sqlite DbError D⦄ where
  open sqlite use {transaction, insert_or_ignore, update_headers, commit, select_headers}

  -- The loop of `write_to_db`
  pub insert_infos : ℕ → List HeaderInfo → D → Result DbError D
  insert_infos network [] tx = ok tx
  insert_infos network (info ∷ infos) tx = do
    tx' ← insert_or_ignore (row_of network info) tx
    insert_infos network infos tx'

  pub write_to_db : List HeaderInfo → D → ℕ → Result DbError Unit × D
  write_to_db new_headers db network =
      finish_transaction db
        (do tx ← transaction db; tx' ← insert_infos network new_headers tx; commit tx')

  pub update_miner : D → BlockHash → String → Result DbError Unit × D
  update_miner db hash miner =
      finish_transaction db
        (do tx ← transaction db; tx' ← update_headers miner (bitcoin.to_string hash) tx; commit tx')

  pub load_header_infos : D → ℕ → ℕ → Result DbError (List HeaderInfo)
  load_header_infos db network first_tracked_height = do
    rows ← select_headers network first_tracked_height db
    read_rows rows

module _ {G : Type 0} ⦃bitcoin : Bitcoin⦄ ⦃petgraph : DiGraph HeaderInfo G⦄ where
  open petgraph use {empty, raw_nodes, add_node, update_edge}

  -- The first loop of `load_treeinfos`
  pub add_loaded : TreeInfo G → List HeaderInfo → TreeInfo G
  add_loaded t [] = t
  add_loaded t (h ∷ hs) =
      add_loaded
        (record {
          graph = add_node t.graph h;
          index = insert (hash_of h) (length (raw_nodes t.graph)) t.index;
        })
        hs

  -- The second loop; `none` is the panic of its `expect`.
  pub link_loaded : Map ℕ → G → List HeaderInfo → Option G
  link_loaded index g [] = some g
  link_loaded index g (current ∷ rest) = elim (get (hash_of current) index) [
    | none ↦ none
    | some idx_current ↦ elim (get current.header.prev_blockhash index) [
      | none ↦ link_loaded index g rest
      | some idx_prev ↦ link_loaded index (update_edge g idx_prev idx_current) rest
    ]
  ]

  -- The tree of `load_treeinfos`
  pub build_tree : List HeaderInfo → Option (TreeInfo G)
  build_tree header_infos =
      let added = add_loaded (record { graph = empty; index = [] }) header_infos in
      elim (link_loaded added.index added.graph header_infos) [
        | none ↦ none
        | some g ↦ some (record added { graph = g })
      ]

module _ {D G : Type 0} ⦃bitcoin : Bitcoin⦄ ⦃petgraph : DiGraph HeaderInfo G⦄
    ⦃encoding : Encoding DbError⦄ ⦃sqlite : Sqlite DbError D⦄ where
  pub load_treeinfos : D → ℕ → ℕ → Result DbError (Option (TreeInfo G))
  load_treeinfos db network first_tracked_height = do
    header_infos ← load_header_infos db network first_tracked_height
    ok (build_tree header_infos)
