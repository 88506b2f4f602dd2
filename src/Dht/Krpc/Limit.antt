-- ===== src/Dht/Krpc/Limit.antt =====
-- What holds after any messages.
use qvod_player.Prelude.{
  ◌≤◌, ◌≡◌, refl, inl, inr, List, [], ◌∷◌, length, length-append, Bytes, arith, Bool-cases,
}
use qvod_player.Core.Peer.{SocketAddr, PeerInfo}
use qvod_player.Dht.Table.Defs.{RoutingTable}
use qvod_player.Dht.Token.Defs.{TokenManager, verify_token}
use qvod_player.Dht.Rpc.Defs.{DhtMessage, announce}
use qvod_player.Dht.Krpc.Defs.{
  KademliaRpc, new, get_peers, announced, store_peer, handle_announce, handle_message,
}
use qvod_player.Dht.Krpc.Announce.{get_peers-store_peer}

-- No identifier has more than 50 peers, and the routing table and the tokens are as they were.
pub record IsLimited (table : RoutingTable) (tokens : TokenManager) (s : KademliaRpc) : Type 0 where
  pub same_table : s.routing_table ≡ table
  pub same_tokens : s.token_manager ≡ tokens
  pub limited : (info_hash : Bytes) → length (get_peers s info_hash) ≤ 50

store_peer-limited :
    (s : KademliaRpc) (info_hash j : Bytes) (peer : PeerInfo SocketAddr)
    → length (get_peers s j) ≤ 50
    → length (get_peers (store_peer s info_hash peer) j) ≤ 50
store_peer-limited s info_hash j peer h =
    let l = length-append (get_peers s j) (peer ∷ []) in
    rw (get_peers-store_peer s info_hash j peer) (ground (arith, h, l))

store_peer-IsLimited :
    (table : RoutingTable) (tokens : TokenManager) (s : KademliaRpc) (info_hash : Bytes)
    (peer : PeerInfo SocketAddr)
    → IsLimited table tokens s
    → IsLimited table tokens (store_peer s info_hash peer)
store_peer-IsLimited table tokens s info_hash peer h = record {
  same_table = unfold store_peer in h.same_table;
  same_tokens = unfold store_peer in h.same_tokens;
  limited = λ j. store_peer-limited s info_hash j peer (h.limited j);
}

module _ (sha1 : Bytes → Bytes) (ip_text : Bytes → Bytes) where
  -- The messages that arrive, each with its sender.
  unfoldable pub run : KademliaRpc → List (DhtMessage × SocketAddr) → KademliaRpc
  run s [] = s
  run s ((m, sender) ∷ rest) = run (handle_message sha1 ip_text s m sender).0 rest

  handle_message-IsLimited :
      (table : RoutingTable) (tokens : TokenManager) (s : KademliaRpc) (m : DhtMessage)
      (sender : SocketAddr)
      → IsLimited table tokens s
      → IsLimited table tokens (handle_message sha1 ip_text s m sender).0
  unfolding handle_message handle_announce
  handle_message-IsLimited table tokens s (announce h id info_hash token port) sender w =
      elim (Bool-cases (verify_token sha1 ip_text s.token_manager sender token)) [
        | inl p ↦ rw p (store_peer-IsLimited table tokens s info_hash (announced sender port) w)
        | inr p ↦ rw p w
      ]
  handle_message-IsLimited table tokens s _ sender w = w

  run-kept :
      (table : RoutingTable) (tokens : TokenManager) (s : KademliaRpc)
      (messages : List (DhtMessage × SocketAddr))
      → IsLimited table tokens s
      → IsLimited table tokens (run s messages)
  unfolding run
  run-kept table tokens s [] w = w
  run-kept table tokens s ((m, sender) ∷ rest) w =
      run-kept table tokens (handle_message sha1 ip_text s m sender).0 rest
        (handle_message-IsLimited table tokens s m sender w)

  -- After any messages from any senders, a node that started without peers knows at most 50 for each
  -- identifier, and its routing table and its tokens are those that it started with.
  pub run-IsLimited :
      (table : RoutingTable) (tokens : TokenManager) (messages : List (DhtMessage × SocketAddr))
      → IsLimited table tokens (run (new table tokens) messages)
  unfolding new get_peers
  run-IsLimited table tokens messages =
      run-kept table tokens (new table tokens) messages
        (record { same_table = refl; same_tokens = refl; limited = λ j. omega arith })
