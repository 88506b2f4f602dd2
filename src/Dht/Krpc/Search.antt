-- ===== src/Dht/Krpc/Search.antt =====
-- crates/qvs-dht/src/krpc.rs: the loop of `iterative_find_peers`. The socket is a parameter: for the
-- number of the packet and the address it is sent to, the packet that arrives in time, and when.
pub mod Bound
pub mod Apart
pub mod Waiting
pub mod Once
use qvod_player.Prelude.{
  ℕ, zero, suc, ◌+◌, ◌*◌, ◌/◌, ◌%◌, ◌^◌, Bool, true, false, ◌&&◌, ◌||◌, Option, none, some, List,
  [], ◌∷◌, ◌++◌, map, ltb, ◌==◌, not, if◌then◌else◌, length, replicate, take, Bytes,
}
use qvod_player.Core.Error.{Message, QvodError, Result, ok, err}
use qvod_player.Core.NodeId.{NodeId, same_id}
use qvod_player.Core.Peer.{SocketAddr, PeerInfo}
use qvod_player.Dht.Bucket.Defs.{KBucketEntry, Entries, k, sort_by_distance}
use qvod_player.Dht.Table.Defs.{RoutingTable, find_closest}
use qvod_player.Dht.Table.Defs as Table
use qvod_player.Dht.Rpc.Defs.{
  MessageType, NodeInfo, FindPeersResult, DhtMessage, header_of, peers, nodes, find_node,
  find_node_response, find_peers, find_peers_response, encode,
}
use qvod_player.Dht.Rpc.Decode.{decode, be16_at}
use qvod_player.Dht.Krpc.Defs.{KademliaRpc, Peers, announced, store_peer}

-- `MAX_ROUNDS`
abbrev pub max_rounds : ℕ
max_rounds = 8

-- The variables of the search, and the addresses it has sent packets to, the last one first.
pub record Search : Type 0 where
  pub shortlist : Entries
  pub queried : List SocketAddr
  pub closest_peer : Option Bytes
  pub asked : List SocketAddr

-- The search has peers, or goes on; the test is `found_any`.
pub data Step : Type 0 where
  found : Peers → Search → Step
  going : Bool → Search → Step

abbrev pub same_addr : SocketAddr → SocketAddr → Bool
same_addr a b = same_id a.ip b.ip && a.port == b.port

unfoldable pub contains : List SocketAddr → SocketAddr → Bool
contains [] a = false
contains (b ∷ bs) a = same_addr b a || contains bs a

-- `HashSet::insert`
unfoldable pub insert_addr : List SocketAddr → SocketAddr → List SocketAddr
unfolding contains
insert_addr set a = if contains set a then set else a ∷ set

unfoldable pub unqueried : List SocketAddr → Entries → Entries
unfolding contains
unqueried queried [] = []
unqueried queried (e ∷ es) =
    if contains queried e.addr then unqueried queried es else e ∷ unqueried queried es

-- A peer in its six bytes.
unfoldable pub decoded_peer : Bytes → PeerInfo SocketAddr
decoded_peer cp = announced (record { ip = take 4 cp; port = 0 }) (be16_at cp 4)

unfoldable pub node_entry : ℕ → NodeInfo → KBucketEntry
node_entry now n = record {
  node_id = n.node_id;
  addr = record { ip = n.ip; port = n.port };
  last_seen = now;
  latency = 0;
  is_firewalled = false;
}

unfoldable pub any_addr : Entries → SocketAddr → Bool
any_addr [] a = false
any_addr (e ∷ es) a = same_addr e.addr a || any_addr es a

-- The loop over the nodes of an answer.
unfoldable pub add_nodes : ℕ → List NodeInfo → Bool → Search → Step
unfolding node_entry any_addr contains
add_nodes now [] any s = going any s
add_nodes now (n ∷ ns) any s =
    let e = node_entry now n in
    if not (any_addr s.shortlist e.addr) && not (contains s.queried e.addr)
    then add_nodes now ns true (record s { shortlist = s.shortlist ++ e ∷ [] })
    else add_nodes now ns any s

unfoldable pub take_answer : ℕ → DhtMessage → Bool → Search → Step
unfolding add_nodes decoded_peer
take_answer now (find_peers_response h id (peers [])) any s = going any s
take_answer now (find_peers_response h id (peers (p ∷ ps))) any s =
    found (map decoded_peer (p ∷ ps)) s
take_answer now (find_peers_response h id (nodes ns)) any s = add_nodes now ns any s
take_answer now (find_node_response h id ns) any s = add_nodes now ns any s
take_answer now _ any s = going any s

-- The buffer has 1400 bytes.
unfoldable pub receive : Option (Bytes × ℕ) → Bool → Search → Step
unfolding take_answer
receive none any s = going any s
receive (some (packet, now)) any s = elim (decode (take 1400 packet)) [
  | ok m ↦ take_answer now m any s
  | err e ↦ going any s
]

-- The message to each node.
unfoldable pub query : NodeId → Bytes → DhtMessage
query local_id info_hash = find_peers (header_of MessageType.find_peers 0) local_id info_hash

unfoldable pub sort_shortlist : NodeId → Search → Search
unfolding sort_by_distance
sort_shortlist target s = record s { shortlist = sort_by_distance target s.shortlist }

-- `None` where the round is the last one, since the closest node is the one of the round before.
abbrev closer : Option Bytes → Bytes → Option (Option Bytes)
closer none current = some (some current)
closer (some prev) current = if same_id current prev then none else some (some current)

unfoldable pub track_closest : Search → Option Search
track_closest s = elim s.shortlist [
  | [] ↦ some s
  | e ∷ es ↦ elim (closer s.closest_peer e.node_id) [
    | none ↦ none
    | some c ↦ some (record s { closest_peer = c })
  ]
]

-- The end of a round, before `more` rounds: where the closest node is the one of the round before, and
-- where no node was added, there are no more.
abbrev pub tracked : (Search → Step) → Bool → Search → Option Search → Step
tracked more any t none = going any t
tracked more any t (some u) = if not any then going any u else more u

abbrev pub end_round : (Search → Step) → NodeId → Step → Step
end_round more target (found ps t) = found ps t
end_round more target (going any t) =
    tracked more any (sort_shortlist target t) (track_closest (sort_shortlist target t))

module _ (net : ℕ → SocketAddr → Option (Bytes × ℕ)) where
  unfoldable pub ask : Bool → Search → KBucketEntry → Step
  unfolding receive insert_addr
  ask any s e =
      receive (net (length s.asked) e.addr) any
        (record s { queried = insert_addr s.queried e.addr; asked = e.addr ∷ s.asked })

  -- The loop over the nodes of a round.
  unfoldable pub query_all : Entries → Bool → Search → Step
  unfolding ask
  query_all [] any s = going any s
  query_all (e ∷ es) any s = elim (ask any s e) [
    | found ps t ↦ found ps t
    | going b t ↦ query_all es b t
  ]

  -- The nodes of a round.
  unfoldable pub to_query : ℕ → Search → Entries
  unfolding unqueried
  to_query alpha s = take alpha (unqueried s.queried s.shortlist)

  abbrev pub round : (Search → Step) → NodeId → Search → Entries → Step
  round more target s [] = going false s
  round more target s (e ∷ es) = end_round more target (query_all (e ∷ es) false s)

  unfoldable pub rounds : ℕ → ℕ → NodeId → Search → Step
  unfolding query_all sort_shortlist to_query track_closest
  rounds zero alpha target s = going false s
  rounds (suc n) alpha target s =
      let sorted = sort_shortlist target s in
      round (λ t. rounds n alpha target t) target sorted (to_query alpha sorted)

  abbrev pub start : Entries → Search
  start shortlist = record { shortlist = shortlist; queried = []; closest_peer = none; asked = [] }

  -- The search itself, from the closest nodes of the table.
  unfoldable pub search : Entries → ℕ → NodeId → Step
  unfolding rounds
  search shortlist alpha target = rounds max_rounds alpha target (start shortlist)
