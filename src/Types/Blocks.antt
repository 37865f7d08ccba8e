-- ===== src/Types/Blocks.antt =====
-- The blocks that exist, for statements on what the program makes of them (src/types.rs).
use reorg_playground.Prelude.{ℕ, suc, ◌≡◌}
use reorg_playground.External.Bitcoin.{Header, Bitcoin}
use reorg_playground.Types.{HeaderInfo}

-- No two blocks have one hash, and a block is one higher than its predecessor.
pub record AreBlocks ⦃bitcoin : Bitcoin⦄ (IsBlock : Header → Type 0) (block_height : Header → ℕ)
    : Type 0 where
  pub distinct :
      (a b : Header) → IsBlock a → IsBlock b → bitcoin.block_hash a ≡ bitcoin.block_hash b → a ≡ b
  pub rises :
      (a b : Header)
      → IsBlock a
      → IsBlock b
      → a.prev_blockhash ≡ bitcoin.block_hash b
      → block_height a ≡ suc (block_height b)

-- A block that stands at its height
abbrev pub IsSound : (Header → Type 0) → (Header → ℕ) → HeaderInfo → Type 0
IsSound IsBlock block_height h = IsBlock h.header × (h.height ≡ block_height h.header)
