-- ===== src/External/Sqlite.antt =====
-- The database of src/db.rs: what rusqlite and SQLite do with the program's four statements, and the encoding of a
-- header by rust-bitcoin, as interfaces with their documented behaviour as laws.
use Prim.Native.String.{String}
use text.Mathlib.Text.{◌==◌ as str_eq}
use reorg_playground.Prelude.{
  ℕ, ◌≡◌, ◌&&◌, ◌↔◌, ◌==◌, leb, Bool, Result, ok, List, [], ◌∷◌, ◌++◌, map, Any, IsSortedBy, any_by,
  filter_by, if◌then◌else◌,
}
use reorg_playground.External.Bitcoin.{Header}

-- A row of the table `headers`. The columns of type INT hold the numbers whose texts are bound.
pub record Row : Type 0 where
  pub height : ℕ
  pub network : ℕ
  pub hash : String
  pub header : String
  pub miner : String

-- PRIMARY KEY (network, hash, header)
abbrev pub same_key : Row → Row → Bool
same_key a b = (a.network == b.network) && (str_eq a.hash b.hash && str_eq a.header b.header)

-- INSERT OR IGNORE
abbrev pub insert_row : Row → List Row → List Row
insert_row row rows = if any_by (same_key row) rows then rows else rows ++ row ∷ []

-- UPDATE headers SET miner = ? WHERE hash = ?
abbrev pub set_miner : String → String → List Row → List Row
set_miner miner hash rows =
    map (λ (row : Row). if str_eq row.hash hash then record row { miner = miner } else row) rows

-- WHERE network = ? AND height >= ?
abbrev pub is_selected : ℕ → ℕ → Row → Bool
is_selected network first_tracked_height row =
    (row.network == network) && leb first_tracked_height row.height

-- A connection `D`, on which a statement may fail. A transaction that is dropped leaves the connection as it was.
pub record Sqlite (E D : Type 0) : Type 0 where
  pub rows : D → List Row
  pub create_headers : D → Result E D
  pub transaction : D → Result E D
  pub insert_or_ignore : Row → D → Result E D
  pub update_headers : String → String → D → Result E D
  pub commit : D → Result E D
  pub select_headers : ℕ → ℕ → D → Result E (List Row)
  -- CREATE TABLE IF NOT EXISTS
  pub rows-create_headers : (d d' : D) → create_headers d ≡ ok d' → rows d' ≡ rows d
  pub rows-transaction : (d d' : D) → transaction d ≡ ok d' → rows d' ≡ rows d
  pub rows-insert_or_ignore :
      (row : Row) (d d' : D) → insert_or_ignore row d ≡ ok d' → rows d' ≡ insert_row row (rows d)
  pub rows-update_headers :
      (miner hash : String) (d d' : D)
      → update_headers miner hash d ≡ ok d'
      → rows d' ≡ set_miner miner hash (rows d)
  pub rows-commit : (d d' : D) → commit d ≡ ok d' → rows d' ≡ rows d
  -- ORDER BY height ASC; nothing is said of the order of rows with one height.
  pub select_headers-sorted :
      (network first : ℕ) (d : D) (selected : List Row)
      → select_headers network first d ≡ ok selected
      → IsSortedBy (λ row. row.height) selected
  pub select_headers-rows :
      (network first : ℕ) (d : D) (selected : List Row)
      → select_headers network first d ≡ ok selected
      → (row : Row)
      → Any (λ r. r ≡ row) selected
        ↔ Any (λ r. r ≡ row) (filter_by (is_selected network first) (rows d))

-- `serialize_hex`, and `hex::decode` with `deserialize`
pub record Encoding (E : Type 0) : Type 0 where
  pub serialize_hex : Header → String
  pub decode : String → Result E Header
  pub decode-serialize_hex : (h : Header) → decode (serialize_hex h) ≡ ok h
