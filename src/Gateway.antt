-- ===== src/Gateway.antt =====
-- The HTTP gateway of src/gateway.c: `GwRequest`, `NcGateway`, and setting it up and stopping it.
-- Sockets, `accept` and the threads are outside; a connection is one call of `handle_conn`.
pub mod Parse
pub mod Handle
mod Tests
use tiniclaw.Base.{ℕ, ◌==◌, Bool, true, false, Option, none, some, Bytes, if◌then◌else◌}
use tiniclaw.Base.Int.{ℤ, pos, negsuc, ltb_ℤ}
use tiniclaw.Security.Pairing.{PairingGuard, pairing_init}

-- The texts are those up to the first NUL of the arrays; `none` is a NULL body.
pub record GwRequest : Type 0 where
  pub method : Bytes
  pub path : Bytes
  pub auth : Bytes
  pub body : Option Bytes

-- `has_agent` is whether the pointer to the agent is set.
pub record Gateway : Type 0 where
  pub has_agent : Bool
  pub pairing : PairingGuard
  pub port : ℕ
  pub server_fd : ℤ
  pub running : Bool

pub port_or_default : Option ℕ → ℕ
port_or_default none = 7007
port_or_default (some port) = if port == 0 then 7007 else port

-- The configuration's port, `none` for a NULL configuration; the random bytes are arguments.
unfoldable pub gateway_init : Option ℕ → Bool → ℕ → Bytes → Gateway
gateway_init port has_agent code token = record {
  has_agent = has_agent;
  pairing = pairing_init code token;
  port = port_or_default port;
  server_fd = negsuc 0;
  running = false;
}

-- The listening socket's descriptor is closed if it is open.
unfoldable pub gateway_stop : Gateway → Gateway
gateway_stop gw = record gw {
  running = false;
  server_fd = if ltb_ℤ gw.server_fd (pos 0) then gw.server_fd else negsuc 0;
}
