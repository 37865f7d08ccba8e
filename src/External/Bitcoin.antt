-- ===== src/External/Bitcoin.antt =====
-- rust-bitcoin, as far as the program uses it: the fields of a block header, and the hash functions
-- and their texts, which are not modelled but taken as an argument.
use Prim.Native.String.{String}
use reorg_playground.Prelude.{ℕ, ◌≡◌, Option, some}

-- A 256-bit hash, as a number.
abbrev pub BlockHash : Type 0
BlockHash = ℕ

-- `version` is the field's 32 bits as a u32 (`version.to_consensus() as u32`).
pub record Header : Type 0 where
  pub version : ℕ
  pub prev_blockhash : BlockHash
  pub merkle_root : ℕ
  pub time : ℕ
  pub bits : ℕ
  pub nonce : ℕ

pub record Bitcoin : Type 0 where
  -- `header.block_hash()`
  pub block_hash : Header → BlockHash
  -- `hash.to_string()` and `BlockHash::from_str`, where `none` is the parse error
  pub to_string : BlockHash → String
  pub from_str : String → Option BlockHash
  -- `merkle_root.to_string()`
  pub merkle_to_string : ℕ → String
  -- `header.difficulty_float() as u64`
  pub difficulty_int : Header → ℕ
  -- The text of a hash is read back as that hash.
  pub from_str-to_string : (h : BlockHash) → from_str (to_string h) ≡ some h
