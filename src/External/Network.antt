-- ===== src/External/Network.antt =====
-- The bitcoin crate's network, and what the faucet asks of the crate about an address and an amount.
use Prim.Native.String.{String}
use reorg_playground.Prelude.{ℕ, Option}

-- `bitcoin::Network`
pub data BitcoinNetwork : Type 0 where
  bitcoin testnet signet regtest : BitcoinNetwork

pub record Payments : Type 0 where
  -- `Address::from_str(s)` and `require_network(Regtest)`, then `to_string`; `none` where one of the first two fails
  pub regtest_address : String → Option String
  -- `Amount::from_str_in(s, Denomination::Bitcoin)` in satoshi
  pub amount_from_str_in : String → Option ℕ
