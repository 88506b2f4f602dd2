-- ===== src/Core/Peer.antt =====
-- crates/qvs-core/src/types.rs: `PeerInfo`, and the `SocketAddr` of the standard library: the 4 or 16
-- bytes of an address, and a port. The flow information and the scope of an IPv6 address are left out.
use qvod_player.Prelude.{ℕ, Bool, Option, Bytes, String}

pub record SocketAddr : Type 0 where
  pub ip : Bytes
  pub port : ℕ

pub record PeerInfo (Addr : Type 0) : Type 0 where
  pub peer_id : Bytes
  pub addr : Addr
  pub is_firewalled : Bool
  pub bw_up : ℕ
  pub bw_down : ℕ
  pub location : Option String
  pub latency : ℕ
