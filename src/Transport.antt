-- ===== src/Transport.antt =====
-- pkg/transport/transport.go: the interface between the lifecycle manager and the neb.
pub mod Stdio
use nile.Prelude.{Option}
use nile.Protocol.{Request, Response}

-- The methods take the state of the connection and of the neb behind it; no response is an error.
pub record Transport (T : Type 0) : Type 0 where
  pub send : Request → T → Option Response × T
  pub close : T → T
