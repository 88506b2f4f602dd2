-- ===== src/Dht/Krpc/Lookup.antt =====
-- crates/qvs-dht/src/krpc.rs: `iterative_find_peers` with what it leaves in the shared state, and the messages of
-- `refresh_buckets`.
use qvod_player.Prelude.{ℕ, ◌/◌, ◌%◌, Option, none, some, [], ◌∷◌, replicate, Bytes}
use qvod_player.Core.Error.{Message, QvodError, Result, ok, err}
use qvod_player.Core.NodeId.{NodeId}
use qvod_player.Core.Peer.{SocketAddr}
use qvod_player.Dht.Bucket.Defs.{Entries, k}
use qvod_player.Dht.Table.Defs.{RoutingTable, find_closest}
use qvod_player.Dht.Table.Defs as Table
use qvod_player.Dht.Rpc.Defs.{MessageType, DhtMessage, header_of, find_node}
use qvod_player.Dht.Krpc.Defs.{KademliaRpc, Peers, store_peer}
use qvod_player.Dht.Krpc.Search.{Step, found, going, search}

-- What the search leaves in the shared state.
unfoldable pub store_found : KademliaRpc → Bytes → Peers → KademliaRpc
unfolding store_peer
store_found s info_hash [] = s
store_found s info_hash (p ∷ ps) = store_found (store_peer s info_hash p) info_hash ps

unfoldable pub insert_all : RoutingTable → Entries → ℕ → RoutingTable
unfolding Table.insert
insert_all t [] now = t
insert_all t (e ∷ es) now = insert_all (Table.insert t e now).0 es now

pub record IterativeFindPeersResult : Type 0 where
  pub peers : Peers
  pub closest_nodes : Entries

abbrev finish : KademliaRpc → Bytes → ℕ → Step → KademliaRpc × Result IterativeFindPeersResult
finish s info_hash now (found ps t) =
    (store_found s info_hash ps, ok (record { peers = ps; closest_nodes = t.shortlist }))
finish s info_hash now (going any t) = (
  record s { routing_table = insert_all s.routing_table t.shortlist now },
  ok (record { peers = []; closest_nodes = t.shortlist }),
)

-- A search that no other call interrupts; `now` is the time of its end.
unfoldable pub iterative_find_peers :
    (ℕ → SocketAddr → Option (Bytes × ℕ))
    → KademliaRpc
    → Bytes
    → ℕ
    → ℕ
    → KademliaRpc × Result IterativeFindPeersResult
unfolding search store_found insert_all
iterative_find_peers net s info_hash alpha now = elim (find_closest s.routing_table info_hash k) [
  | [] ↦ (
    s,
    err (
        QvodError.dht_routing_failed
          (Message.text "no nodes in routing table for iterative find_peers")),
  )
  | e ∷ es ↦ finish s info_hash now (search net (e ∷ es) alpha info_hash)
]

-- The target of the refresh of a bucket, and the message to the node that is closest to it.
unfoldable pub refresh_target : ℕ → NodeId
refresh_target idx = (idx % 256) ∷ (idx / 256 % 256) ∷ replicate 18 0

unfoldable pub refresh_query : RoutingTable → NodeId → ℕ → Option (SocketAddr × DhtMessage)
unfolding refresh_target
refresh_query t local_id idx = elim (find_closest t (refresh_target idx) k) [
  | [] ↦ none
  | e ∷ es ↦
      some (e.addr, find_node (header_of MessageType.find_node 0) local_id (refresh_target idx))
]
