-- ===== src/Dht/Rpc/RoundTrip.antt =====
-- Encoding a message and decoding it.
use qvod_player.Prelude.{
  ◌^◌, ◌<◌, ◌≡◌, refl, true, some, ◌++◌, length, Bytes, arith, to_be16, from_be16-to_be16,
  length-append, append_assoc, take_sized, drop_sized, get_or_past,
}
use qvod_player.Core.Error.{ok}
use qvod_player.Core.NodeId.{same_id}
use qvod_player.Dht.Rpc.Defs.{
  MessageType, MessageHeader, NodeInfo, magic_bytes, to_u8, from_u8, encode_node, encode_header,
  header_of,
}
use qvod_player.Dht.Rpc.Decode.{decode_node, decode_header}

from_u8-to_u8 : (t : MessageType) → from_u8 (to_u8 t) ≡ some t
unfolding from_u8
from_u8-to_u8 MessageType.ping = refl
from_u8-to_u8 MessageType.find_node = refl
from_u8-to_u8 MessageType.find_peers = refl
from_u8-to_u8 MessageType.announce = refl

-- A header is read back with the magic bytes and the version of the protocol.
pub decode_header-encode_header :
    (h : MessageHeader) (rest : Bytes)
    → h.txn_id < 2 ^ 16
    → decode_header (encode_header h ++ rest) ≡ ok (header_of h.msg_type h.txn_id, rest)
unfolding decode_header encode_header
decode_header-encode_header h rest lt =
    let magic_same : same_id magic_bytes magic_bytes ≡ true = unfold same_id in refl in
    ground (arith, magic_same, from_u8-to_u8 h.msg_type, from_be16-to_be16 h.txn_id lt)

-- The arrays of a node have their sizes, and its port fits 16 bits.
pub record IsNodeInfo (n : NodeInfo) : Type 0 where
  pub node_id_sized : length n.node_id ≡ 20
  pub ip_sized : length n.ip ≡ 4
  pub port_fits : n.port < 2 ^ 16

encode_node-append :
    (n : NodeInfo) (rest : Bytes)
    → encode_node n ++ rest ≡ n.node_id ++ (n.ip ++ (to_be16 n.port ++ rest))
unfolding encode_node
encode_node-append n rest = simp append_assoc

pub length-encode_node : (n : NodeInfo) → IsNodeInfo n → length (encode_node n) ≡ 26
unfolding encode_node
length-encode_node n w = omega (
  arith,
  length-append n.node_id (n.ip ++ to_be16 n.port),
  length-append n.ip (to_be16 n.port),
  w.node_id_sized,
  w.ip_sized,
)

pub decode_node-encode_node :
    (n : NodeInfo) (rest : Bytes)
    → IsNodeInfo n
    → decode_node (encode_node n ++ rest) ≡ ok (n, rest)
unfolding decode_node
decode_node-encode_node n rest w =
    let long = length-append (encode_node n) rest in
    let sized = length-encode_node n w in
    let p = to_be16 n.port ++ rest in
    let whole = n.ip ++ p in
    let id_sized = w.node_id_sized in
    let e24 = get_or_past 20 4 24 n.node_id whole 0 id_sized (omega arith) in
    let e25 = get_or_past 20 5 25 n.node_id whole 0 id_sized (omega arith) in
    let f24 = get_or_past 4 0 4 n.ip p 0 w.ip_sized (omega arith) in
    let f25 = get_or_past 4 1 5 n.ip p 0 w.ip_sized (omega arith) in
    let d26 = drop_sized 26 (encode_node n) rest sized in
    let d20 = drop_sized 20 n.node_id whole id_sized in
    let t20 = take_sized 20 n.node_id whole id_sized in
    let t4 = take_sized 4 n.ip p w.ip_sized in
    ground (arith, encode_node-append n rest, from_be16-to_be16 n.port w.port_fits)
