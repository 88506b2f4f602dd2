-- ===== src/Dht/Node/Defs.antt =====
-- crates/qvs-dht/src/node.rs: what the loop of `start` does with a packet, and `announce`. A step reads
-- one packet; what it sends is its result.
use qvod_player.Prelude.{ℕ, ◌+◌, Option, none, some, List, map, take, Bytes, u64}
use qvod_player.Core.Error.{Result, ok, err}
use qvod_player.Core.NodeId.{NodeId}
use qvod_player.Core.Peer.{SocketAddr}
use qvod_player.Dht.Bucket.Defs.{KBucketEntry}
use qvod_player.Dht.Table.Defs.{RoutingTable, find_closest}
use qvod_player.Dht.Table.Defs as Table
use qvod_player.Dht.Token.Defs.{TokenManager, generate_token}
use qvod_player.Dht.Rpc.Defs.{MessageType, DhtMessage, announce, header_of, encode, error_response}
use qvod_player.Dht.Rpc.Decode.{decode}
use qvod_player.Dht.Krpc.Defs.{KademliaRpc, handle_message}
use qvod_player.Dht.Krpc.Defs as Krpc

pub record DhtNode : Type 0 where
  pub local_id : NodeId
  pub krpc : KademliaRpc
  pub messages_received : ℕ
  pub messages_sent : ℕ

unfoldable pub new : NodeId → TokenManager → ℕ → DhtNode
unfolding Table.new Krpc.new
new local_id tokens now = record {
  local_id = local_id;
  krpc = Krpc.new (Table.new local_id now) tokens;
  messages_received = 0;
  messages_sent = 0;
}

-- `encode`, the count and `send_to`.
unfoldable pub send : DhtNode → DhtMessage → DhtNode × Option Bytes
send s m = (record s { messages_sent = u64 (s.messages_sent + 1) }, some (encode m))

module _ (sha1 : Bytes → Bytes) (ip_text : Bytes → Bytes) where
  -- The `match` on the answer.
  unfoldable pub reply : DhtNode → DhtMessage → Result (Option DhtMessage) → DhtNode × Option Bytes
  unfolding send
  reply s m (ok (some r)) = send s r
  reply s m (ok none) = (s, none)
  reply s m (err e) = elim (error_response m) [ none ↦ (s, none) | some r ↦ send s r ]

  unfoldable pub handle : DhtNode → DhtMessage → SocketAddr → DhtNode × Option Bytes
  unfolding reply
  handle s m sender =
      let (krpc, answer) = handle_message sha1 ip_text s.krpc m sender in
      reply (record s { krpc = krpc }) m answer

  -- The buffer has 1400 bytes; a longer packet is cut.
  unfoldable pub receive : DhtNode → Bytes → SocketAddr → DhtNode × Option Bytes
  unfolding handle
  receive s packet sender =
      let counted = record s { messages_received = u64 (s.messages_received + 1) } in
      elim (decode (take 1400 packet)) [ ok m ↦ handle counted m sender | err e ↦ (counted, none) ]

  -- The announcement for one node.
  unfoldable pub announcement : DhtNode → Bytes → ℕ → SocketAddr → DhtMessage
  announcement s info_hash port addr =
      announce (header_of MessageType.announce 0) s.local_id info_hash
        (generate_token sha1 ip_text s.krpc.token_manager addr) port

  unfoldable pub announce_to_closest : DhtNode → Bytes → ℕ → List (SocketAddr × Bytes)
  unfolding announcement
  announce_to_closest s info_hash port =
      map (λ (e : KBucketEntry). (e.addr, encode (announcement s info_hash port e.addr)))
        (find_closest s.krpc.routing_table info_hash 8)
