-- ===== src/Dht/Krpc/Defs.antt =====
-- crates/qvs-dht/src/krpc.rs: the record, `handle_message` and `get_peers`. Each arm holds its locks to
-- its end, so that a call is one step. An address of 16 bytes is an IPv6 one.
use qvod_player.Prelude.{
  ℕ, false, Option, none, some, List, [], ◌∷◌, ◌++◌, map, ltb, ◌==◌, not, if◌then◌else◌, length,
  replicate, Bytes, to_be16,
}
use qvod_player.Core.Error.{Message, QvodError, Result, ok, err}
use qvod_player.Core.HashMap.{get, put}
use qvod_player.Core.NodeId.{NodeId}
use qvod_player.Core.Peer.{SocketAddr, PeerInfo}
use qvod_player.Dht.Bucket.Defs.{KBucketEntry, k}
use qvod_player.Dht.Table.Defs.{RoutingTable, find_closest}
use qvod_player.Dht.Token.Defs.{TokenManager, verify_token}
use qvod_player.Dht.Rpc.Defs.{
  MessageHeader, NodeInfo, DhtMessage, header_of, peers, nodes, ping, ping_response, find_node,
  find_node_response, find_peers, find_peers_response, announce, announce_response,
}

-- `MAX_PEERS_PER_HASH`
abbrev pub max_peers_per_hash : ℕ
max_peers_per_hash = 50

abbrev pub Peers : Type 0
Peers = List (PeerInfo SocketAddr)

pub record KademliaRpc : Type 0 where
  pub routing_table : RoutingTable
  pub token_manager : TokenManager
  pub peer_lists : List (Bytes × Peers)

unfoldable pub new : RoutingTable → TokenManager → KademliaRpc
new table tokens = record { routing_table = table; token_manager = tokens; peer_lists = [] }

-- `get(info_hash).cloned().unwrap_or_default()`
abbrev pub or_default : Option Peers → Peers
or_default none = []
or_default (some ps) = ps

unfoldable pub get_peers : KademliaRpc → Bytes → Peers
unfolding get
get_peers s info_hash = or_default (get s.peer_lists info_hash)

-- The four bytes of an IPv4 address, and zeros for an IPv6 one.
unfoldable pub octets : SocketAddr → Bytes
octets a = if length a.ip == 4 then a.ip else replicate 4 0

unfoldable pub node_info : KBucketEntry → NodeInfo
unfolding octets
node_info e = record { node_id = e.node_id; ip = octets e.addr; port = e.addr.port }

unfoldable pub compact : PeerInfo SocketAddr → Bytes
unfolding octets
compact p = octets p.addr ++ to_be16 p.addr.port

unfoldable pub closest : KademliaRpc → NodeId → List NodeInfo
unfolding node_info
closest s target = map node_info (find_closest s.routing_table target k)

-- The header of an answer.
abbrev pub answer_header : MessageHeader → MessageHeader
answer_header h = header_of h.msg_type h.txn_id

unfoldable pub handle_find_peers : KademliaRpc → MessageHeader → Bytes → DhtMessage
unfolding compact closest get_peers
handle_find_peers s h info_hash =
    find_peers_response (answer_header h) s.routing_table.local_id (elim (get_peers s info_hash) [
      | [] ↦ nodes (closest s info_hash)
      | p ∷ ps ↦ peers (map compact (p ∷ ps))
    ])

-- The peer that an announcement stores.
unfoldable pub announced : SocketAddr → ℕ → PeerInfo SocketAddr
announced sender port = record {
  peer_id = replicate 20 0;
  addr = record { ip = sender.ip; port = port };
  is_firewalled = false;
  bw_up = 0;
  bw_down = 0;
  location = none;
  latency = 0;
}

-- `entry(info_hash).or_default()`, and the push below the limit.
unfoldable pub store_peer : KademliaRpc → Bytes → PeerInfo SocketAddr → KademliaRpc
unfolding get_peers put
store_peer s info_hash peer =
    let known = get_peers s info_hash in
    record s {
      peer_lists =
          put s.peer_lists info_hash
            (if ltb (length known) max_peers_per_hash then known ++ peer ∷ [] else known);
    }

abbrev pub answer : DhtMessage → Result (Option DhtMessage)
answer m = ok (some m)

module _ (sha1 : Bytes → Bytes) (ip_text : Bytes → Bytes) where
  unfoldable pub handle_announce :
      KademliaRpc
      → MessageHeader
      → Bytes
      → Bytes
      → ℕ
      → SocketAddr
      → KademliaRpc × Result (Option DhtMessage)
  unfolding store_peer announced
  handle_announce s h info_hash token port sender =
      if not (verify_token sha1 ip_text s.token_manager sender token)
      then (s, err (QvodError.protocol (Message.text "invalid announce token")))
      else (
        store_peer s info_hash (announced sender port),
        answer (announce_response (answer_header h) s.routing_table.local_id),
      )

  unfoldable pub handle_message :
      KademliaRpc → DhtMessage → SocketAddr → KademliaRpc × Result (Option DhtMessage)
  unfolding handle_announce handle_find_peers closest
  handle_message s (ping h id) sender =
      (s, answer (ping_response (answer_header h) s.routing_table.local_id))
  handle_message s (find_node h id target) sender =
      (s, answer (find_node_response (answer_header h) s.routing_table.local_id (closest s target)))
  handle_message s (find_peers h id info_hash) sender =
      (s, answer (handle_find_peers s h info_hash))
  handle_message s (announce h id info_hash token port) sender =
      handle_announce s h info_hash token port sender
  handle_message s _ sender = (s, err (QvodError.protocol (Message.text "unhandled message")))
