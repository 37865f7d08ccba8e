-- ===== src/Types.antt =====
-- The data that the components share (src/types.rs).
pub mod Tips
pub mod Blocks
pub mod Metrics
use Prim.Native.String.{String}
use reorg_playground.Prelude.{ℕ, List, Map}
use reorg_playground.External.Bitcoin.{Header, Bitcoin}

pub record HeaderInfo : Type 0 where
  pub height : ℕ
  pub header : Header
  pub miner : String

-- The graph of headers has an edge from each block to the blocks built on it; `index` gives the
-- graph's node for a hash. `Graph` is petgraph's type.
pub record TreeInfo (Graph : Type 0) : Type 0 where
  pub graph : Graph
  pub index : Map ℕ

pub record Fork : Type 0 where
  pub common : HeaderInfo
  pub children : List HeaderInfo

pub record HeaderInfoJson : Type 0 where
  pub id : ℕ
  pub prev_id : ℕ
  pub height : ℕ
  pub hash : String
  pub version : ℕ
  pub prev_blockhash : String
  pub merkle_root : String
  pub time : ℕ
  pub bits : ℕ
  pub difficulty_int : ℕ
  pub nonce : ℕ
  pub miner : String

module _ ⦃bitcoin : Bitcoin⦄ where
  -- `HeaderInfoJson::new`
  unfoldable pub header_info_json : HeaderInfo → ℕ → ℕ → HeaderInfoJson
  header_info_json hi id prev_id = record {
    id = id;
    prev_id = prev_id;
    height = hi.height;
    hash = bitcoin.to_string (bitcoin.block_hash hi.header);
    version = hi.header.version;
    prev_blockhash = bitcoin.to_string hi.header.prev_blockhash;
    merkle_root = bitcoin.merkle_to_string hi.header.merkle_root;
    time = hi.header.time;
    bits = hi.header.bits;
    difficulty_int = bitcoin.difficulty_int hi.header;
    nonce = hi.header.nonce;
    miner = hi.miner;
  }
