-- ===== src/Dht/Krpc/Announce.antt =====
-- What an announcement does, and who finds it.
use mathlib.Core.List.{map-append}
use qvod_player.Prelude.{
  ℕ, ◌<◌, ◌≡◌, ◌∙◌, refl, ap, inl, inr, Bool, true, false, ◌&&◌, [], ◌∷◌, ◌++◌, map, ltb,
  if◌then◌else◌, length, Bytes, arith, Bool-cases,
}
use qvod_player.Core.Error.{Message, QvodError, err}
use qvod_player.Core.HashMap.{get-put}
use qvod_player.Core.NodeId.{NodeId, same_id, same_id_iff}
use qvod_player.Core.Peer.{SocketAddr, PeerInfo}
use qvod_player.Dht.Token.Defs.{verify_token}
use qvod_player.Dht.Rpc.Defs.{
  MessageHeader, peers, find_peers, find_peers_response, announce, announce_response,
}
use qvod_player.Dht.Krpc.Defs.{
  KademliaRpc, Peers, get_peers, compact, announced, store_peer, answer, answer_header,
  handle_announce, handle_find_peers, handle_message,
}

-- The peers of an identifier, where another one may have been stored.
pub get_peers-store_peer :
    (s : KademliaRpc) (info_hash j : Bytes) (peer : PeerInfo SocketAddr)
    → get_peers (store_peer s info_hash peer) j ≡ (
        if same_id info_hash j && ltb (length (get_peers s j)) 50
        then get_peers s j ++ peer ∷ []
        else get_peers s j)
unfolding store_peer get_peers
get_peers-store_peer s info_hash j peer = elim (Bool-cases (same_id info_hash j)) [
  | inl p ↦ let same : info_hash ≡ j = (same_id_iff info_hash j).0 p in rw (get-put, p, same) refl
  | inr p ↦ rw (get-put, p) refl
]

handle_find_peers-peers :
    (t : KademliaRpc) (h : MessageHeader) (info_hash : Bytes) (known : Peers)
    (peer : PeerInfo SocketAddr)
    → get_peers t info_hash ≡ known ++ peer ∷ []
    → handle_find_peers t h info_hash
      ≡ find_peers_response
          (answer_header h)
          t.routing_table.local_id
          (peers (map compact known ++ compact peer ∷ []))
unfolding handle_find_peers
handle_find_peers-peers t h info_hash [] peer e = rw (handle_find_peers, e) refl
handle_find_peers-peers t h info_hash (x ∷ xs) peer e =
    rw (handle_find_peers, e, map-append compact xs (peer ∷ [])) refl

module _ (sha1 : Bytes → Bytes) (ip_text : Bytes → Bytes) where
  abbrev accepts : KademliaRpc → SocketAddr → Bytes → Bool
  accepts s sender token = verify_token sha1 ip_text s.token_manager sender token

  -- An announcement with a token that is not accepted is refused and changes nothing. Any other is
  -- answered, and adds the sender's address with the announced port to the peers of its identifier where
  -- these are fewer than 50; the peers of the other identifiers and the routing table stay.
  pub handle_message-announce :
      (s : KademliaRpc) (h : MessageHeader) (id : NodeId) (info_hash token j : Bytes) (port : ℕ)
      (sender : SocketAddr)
      → let (t, a) = handle_message sha1 ip_text s (announce h id info_hash token port) sender in
        (verify_token sha1 ip_text s.token_manager sender token ≡ false
          → (t ≡ s) × (a ≡ err (QvodError.protocol (Message.text "invalid announce token"))))
        × (verify_token sha1 ip_text s.token_manager sender token ≡ true
            → (a ≡ answer (announce_response (answer_header h) s.routing_table.local_id))
              × (t.routing_table ≡ s.routing_table)
              × (get_peers t j ≡ (
                  if same_id info_hash j && ltb (length (get_peers s j)) 50
                  then get_peers s j ++ announced sender port ∷ []
                  else get_peers s j)))
  unfolding handle_message handle_announce
  handle_message-announce s h id info_hash token j port sender = (
    (λ p. rw p (refl, refl)),
    λ p. rw p (refl, refl, get_peers-store_peer s info_hash j (announced sender port)),
  )

  -- After an accepted announcement for an identifier with fewer than 50 peers, `find_peers` answers
  -- the compact addresses of the peers known before, and of the announced one behind them.
  pub find_peers-announce :
      (s : KademliaRpc) (h g : MessageHeader) (id asker : NodeId) (info_hash token : Bytes)
      (port : ℕ) (sender other : SocketAddr)
      → verify_token sha1 ip_text s.token_manager sender token ≡ true
      → length (get_peers s info_hash) < 50
      → let t = (handle_message sha1 ip_text s (announce h id info_hash token port) sender).0 in
        (handle_message sha1 ip_text t (find_peers g asker info_hash) other).1
        ≡ answer (
            find_peers_response
              (answer_header g)
              s.routing_table.local_id
              (peers (map compact (get_peers s info_hash) ++ compact (announced sender port) ∷ [])))
  unfolding handle_message handle_announce
  find_peers-announce s h g id asker info_hash token port sender other p room =
      let peer = announced sender port in
      let same : same_id info_hash info_hash ≡ true = (same_id_iff info_hash info_hash).1 refl in
      let few : ltb (length (get_peers s info_hash)) 50 ≡ true = ground (arith, room) in
      let stored : get_peers (store_peer s info_hash peer) info_hash
          ≡ get_peers s info_hash ++ peer ∷ [] =
        get_peers-store_peer s info_hash info_hash peer ∙ rw (same, few) refl in
      let state : (handle_message sha1 ip_text s (announce h id info_hash token port) sender).0
          ≡ store_peer s info_hash peer =
        rw p refl in
      ap
        (λ (t : KademliaRpc).
          (handle_message sha1 ip_text t (find_peers g asker info_hash) other).1)
        state
      ∙ ap answer (
          handle_find_peers-peers (store_peer s info_hash peer) g info_hash (get_peers s info_hash)
            peer stored)
