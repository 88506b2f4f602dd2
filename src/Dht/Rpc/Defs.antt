-- ===== src/Dht/Rpc/Defs.antt =====
-- crates/qvs-dht/src/rpc.rs: the messages, their encoding, `is_response` and `error_response`. Arrays
-- are lists of their size.
use qvod_player.Prelude.{
  ℕ, ◌^◌, ◌-◌, Bool, true, false, Option, none, some, List, [], ◌∷◌, ◌++◌, ◌==◌, if◌then◌else◌,
  length, Bytes, to_be16, u16,
}
use qvod_player.Core.NodeId.{NodeId}

-- `MAGIC` and `PROTOCOL_VERSION`
abbrev pub magic_bytes : Bytes
magic_bytes = 0x51 ∷ 0x56 ∷ 0x44 ∷ 0x54 ∷ []

abbrev pub protocol_version : ℕ
protocol_version = 1

pub data MessageType : Type 0 where
  ping find_node find_peers announce : MessageType

-- `msg_type as u8`
abbrev pub to_u8 : MessageType → ℕ
to_u8 MessageType.ping = 0
to_u8 MessageType.find_node = 1
to_u8 MessageType.find_peers = 2
to_u8 MessageType.announce = 3

unfoldable pub from_u8 : ℕ → Option MessageType
from_u8 v =
    if v == 0
    then some MessageType.ping
    else if v == 1
    then some MessageType.find_node
    else if v == 2
    then some MessageType.find_peers
    else if v == 3
    then some MessageType.announce
    else none

pub record MessageHeader : Type 0 where
  pub magic : Bytes
  pub msg_type : MessageType
  pub txn_id : ℕ
  pub ver : ℕ

pub record NodeInfo : Type 0 where
  pub node_id : NodeId
  pub ip : Bytes
  pub port : ℕ

pub data FindPeersResult : Type 0 where
  peers : List Bytes → FindPeersResult
  nodes : List NodeInfo → FindPeersResult

pub data DhtMessage : Type 0 where
  ping ping_response : MessageHeader → NodeId → DhtMessage
  find_node : MessageHeader → NodeId → NodeId → DhtMessage
  find_node_response : MessageHeader → NodeId → List NodeInfo → DhtMessage
  find_peers : MessageHeader → NodeId → Bytes → DhtMessage
  find_peers_response : MessageHeader → NodeId → FindPeersResult → DhtMessage
  announce : MessageHeader → NodeId → Bytes → Bytes → ℕ → DhtMessage
  announce_response : MessageHeader → NodeId → DhtMessage

-- `NodeInfo::encode`
unfoldable pub encode_node : NodeInfo → Bytes
encode_node n = n.node_id ++ (n.ip ++ to_be16 n.port)

unfoldable pub encode_header : MessageHeader → Bytes
encode_header h = magic_bytes ++ to_u8 h.msg_type ∷ (to_be16 h.txn_id ++ protocol_version ∷ [])

-- The loops over the nodes and over the peers.
unfoldable pub encode_nodes : List NodeInfo → Bytes
unfolding encode_node
encode_nodes [] = []
encode_nodes (n ∷ ns) = encode_node n ++ encode_nodes ns

unfoldable pub encode_peers : List Bytes → Bytes
encode_peers [] = []
encode_peers (p ∷ ps) = p ++ encode_peers ps

unfoldable pub encode_result : FindPeersResult → Bytes
unfolding encode_nodes encode_peers
encode_result (peers ps) = 0 ∷ (to_be16 (u16 (length ps)) ++ encode_peers ps)
encode_result (nodes ns) = 1 ∷ (to_be16 (u16 (length ns)) ++ encode_nodes ns)

unfoldable pub encode : DhtMessage → Bytes
unfolding encode_header encode_result
encode (ping h id) = encode_header h ++ id
encode (ping_response h id) = encode_header h ++ id
encode (find_node h id target) = encode_header h ++ (id ++ target)
encode (find_node_response h id ns) = encode_header h ++ (id ++ encode_nodes ns)
encode (find_peers h id info_hash) = encode_header h ++ (id ++ info_hash)
encode (find_peers_response h id values) = encode_header h ++ (id ++ encode_result values)
encode (announce h id info_hash token port) =
    encode_header h ++ (id ++ (info_hash ++ (token ++ to_be16 port)))
encode (announce_response h id) = encode_header h ++ (id ++ 0 ∷ [])

unfoldable pub is_response : DhtMessage → Bool
is_response (ping_response h id) = true
is_response (find_node_response h id ns) = true
is_response (find_peers_response h id values) = true
is_response (announce_response h id) = true
is_response _ = false

-- The header and the identifier of a request.
unfoldable pub request_head : DhtMessage → Option (MessageHeader × NodeId)
request_head (ping h id) = some (h, id)
request_head (find_node h id target) = some (h, id)
request_head (find_peers h id info_hash) = some (h, id)
request_head (announce h id info_hash token port) = some (h, id)
request_head _ = none

-- A header of this node.
abbrev pub header_of : MessageType → ℕ → MessageHeader
header_of t txn = record { magic = magic_bytes; msg_type = t; txn_id = txn; ver = protocol_version }

unfoldable pub error_response : DhtMessage → Option DhtMessage
unfolding request_head
error_response msg = elim (request_head msg) [
  | none ↦ none
  | some (h, id) ↦ some (ping_response (header_of h.msg_type (2 ^ 16 - 1)) id)
]
