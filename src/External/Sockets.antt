-- ===== src/External/Sockets.antt =====
-- `std::net::SocketAddr`, as a number: how its text is read and written, and its port.
use Prim.Native.String.{String}
use reorg_playground.Prelude.{ℕ, Option}

abbrev pub SocketAddr : Type 0
SocketAddr = ℕ

pub record Sockets : Type 0 where
  -- `s.parse::<SocketAddr>().ok()`
  pub parse : String → Option SocketAddr
  pub port : SocketAddr → ℕ
  pub to_string : SocketAddr → String
