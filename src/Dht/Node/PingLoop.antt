-- ===== src/Dht/Node/PingLoop.antt =====
-- Two nodes that answer each other's answers to a ping.
use qvod_player.Prelude.{
  ℕ, zero, suc, ◌+◌, ◌≤◌, ◌≡◌, ◌∙◌, refl, ap, Option, none, some, [], ◌∷◌, length, length-append,
  take, Bytes, arith, u64,
}
use qvod_player.Core.Error.{ok}
use qvod_player.Core.NodeId.{NodeId}
use qvod_player.Core.Peer.{SocketAddr}
use qvod_player.Dht.Rpc.Defs.{
  MessageType, MessageHeader, DhtMessage, ping, ping_response, header_of, encode, encode_header,
}
use qvod_player.Dht.Rpc.Decode.{decode}
use qvod_player.Dht.Rpc.Message.{IsHead, decode-encode_message}
use qvod_player.Dht.Krpc.Defs.{KademliaRpc, handle_message}
use qvod_player.Dht.Node.Defs.{DhtNode, send, reply, handle, receive}

take_short : (n : ℕ) (xs : Bytes) → length xs ≤ n → take n xs ≡ xs
take_short zero [] h = refl
take_short zero (x ∷ xs) h = absurd (omega arith)
take_short (suc n) [] h = refl
take_short (suc n) (x ∷ xs) h = ap (λ r. x ∷ r) (take_short n xs (omega arith))

abbrev pub own_id : DhtNode → NodeId
own_id s = s.krpc.routing_table.local_id

take-encode_ping :
    (h : MessageHeader) (id : NodeId)
    → length id ≡ 20
    → take 1400 (encode (ping h id)) ≡ encode (ping h id)
take-encode_ping h id e =
    take_short 1400 (encode (ping h id))
      (unfold encode in omega (arith, length-append (encode_header h) id))

module _ (sha1 : Bytes → Bytes) (ip_text : Bytes → Bytes) where
  abbrev counted : DhtNode → DhtNode
  counted s = record s { messages_received = u64 (s.messages_received + 1) }

  pub receive-decoded :
      (s : DhtNode) (packet : Bytes) (m : DhtMessage) (sender : SocketAddr)
      → decode (take 1400 packet) ≡ ok m
      → receive sha1 ip_text s packet sender ≡ handle sha1 ip_text (counted s) m sender
  unfolding receive
  receive-decoded s packet m sender e = rw (receive, e) refl

  handle-ping :
      (s : DhtNode) (h : MessageHeader) (id : NodeId) (sender : SocketAddr)
      → handle sha1 ip_text s (ping h id) sender
        ≡ send s (ping_response (header_of h.msg_type h.txn_id) (own_id s))
  unfolding handle reply handle_message
  handle-ping s h id sender = refl

  -- The answer, with the type in the header replaced by what it is.
  receive-encode_ping :
      (s : DhtNode) (h : MessageHeader) (id : NodeId) (sender : SocketAddr)
      → IsHead MessageType.ping h id
      → receive sha1 ip_text s (encode (ping h id)) sender
        ≡ send (counted s) (ping_response (header_of MessageType.ping h.txn_id) (own_id s))
  receive-encode_ping s h id sender w =
      let short = take-encode_ping h id w.id_sized in
      let type_same : h.msg_type ≡ MessageType.ping =
        ap (λ (x : MessageHeader). x.msg_type) w.standard in
      receive-decoded s (encode (ping h id)) (ping h id) sender
        (ap decode short ∙ decode-encode_message (ping h id) w)
      ∙ handle-ping (counted s) h id sender
      ∙ ap (λ (t : MessageType). send (counted s) (ping_response (header_of t h.txn_id) (own_id s)))
          type_same

  -- The packet of a ping is answered by a packet that is itself that of a ping of this node, with the
  -- same number; both are counted, and nothing else changes.
  pub receive-ping :
      (s : DhtNode) (h : MessageHeader) (id : NodeId) (sender : SocketAddr)
      → IsHead MessageType.ping h id
      → let (t, sent) = receive sha1 ip_text s (encode (ping h id)) sender in
        (sent ≡ some (encode (ping (header_of MessageType.ping h.txn_id) (own_id s))))
        × (t.krpc ≡ s.krpc)
        × (t.messages_received ≡ u64 (s.messages_received + 1))
        × (t.messages_sent ≡ u64 (s.messages_sent + 1))
  unfolding send encode
  receive-ping s h id sender w = rw (receive-encode_ping s h id sender w) (refl, refl, refl, refl)

  -- `a` has sent the packet to `b`; each packet that comes back is the next one. After `n` packets, the
  -- one that is under way.
  unfoldable pub exchange : ℕ → DhtNode → DhtNode → SocketAddr → SocketAddr → Bytes → Option Bytes
  exchange zero a b at_a at_b packet = some packet
  exchange (suc n) a b at_a at_b packet =
      let (b', sent) = receive sha1 ip_text b packet at_a in
      elim sent [ none ↦ none | some next ↦ exchange n b' a at_b at_a next ]

  -- One ping starts an exchange between two nodes that does not end: after any number of packets,
  -- one more is under way.
  pub exchange-some :
      (n : ℕ) (a b : DhtNode) (at_a at_b : SocketAddr) (h : MessageHeader) (id : NodeId)
      → IsHead MessageType.ping h id
      → length (own_id a) ≡ 20
      → length (own_id b) ≡ 20
      → (packet : Bytes) × (exchange n a b at_a at_b (encode (ping h id)) ≡ some packet)
  unfolding exchange
  exchange-some zero a b at_a at_b h id w ea eb = (encode (ping h id), refl)
  exchange-some (suc n) a b at_a at_b h id w ea eb =
      let (sent, kept, _, _) = receive-ping b h id at_a w in
      let b' = (receive sha1 ip_text b (encode (ping h id)) at_a).0 in
      let next = header_of MessageType.ping h.txn_id in
      let head : IsHead MessageType.ping next (own_id b) = record {
        standard = refl;
        txn_fits = w.txn_fits;
        id_sized = eb;
      } in
      let same : own_id b' ≡ own_id b = ap (λ (k : KademliaRpc). k.routing_table.local_id) kept in
      let (packet, e) =
        exchange-some n b' a at_b at_a next (own_id b) head (ap length same ∙ eb) ea in
      (packet, rw (exchange, sent) e)
