-- ===== src/Dht/Rpc/Message.antt =====
-- Which messages are read back, and as what.
use qvod_player.Prelude.{
  ℕ, zero, suc, ◌*◌, ◌^◌, ◌≤◌, ◌<◌, ◌≡◌, ◌∙◌, refl, sym, ap, List, [], ◌∷◌, ◌++◌, length, Bytes,
  arith, to_be16, from_be16-to_be16, All, length-append, take_sized, drop_sized, drop_past,
  get_or_past, take_exact,
}
use qvod_player.Core.Error.{ok}
use qvod_player.Core.NodeId.{NodeId}
use qvod_player.Dht.Rpc.Defs.{
  MessageType, MessageHeader, NodeInfo, DhtMessage, encode_node, encode_header, encode_nodes,
  encode, header_of, ping, ping_response, find_node, find_node_response, find_peers,
  find_peers_response, announce, announce_response,
}
use qvod_player.Dht.Rpc.Decode.{
  decode_nodes, decode_ping, decode_find_node, decode_find_peers, decode_announce, decode_body,
  decode, decode_header,
}
use qvod_player.Dht.Rpc.RoundTrip.{
  decode_header-encode_header, IsNodeInfo, decode_node-encode_node, length-encode_node,
}

-- A header of this protocol with the type, and an identifier of 20 bytes.
pub record IsHead (t : MessageType) (h : MessageHeader) (id : NodeId) : Type 0 where
  pub standard : h ≡ header_of t h.txn_id
  pub txn_fits : h.txn_id < 2 ^ 16
  pub id_sized : length id ≡ 20

-- A message with the standard header of its variant, whose parts have their sizes, and that is no answer to
-- `find_peers`.
abbrev pub IsMessage : DhtMessage → Type 0
IsMessage (ping h id) = IsHead MessageType.ping h id
IsMessage (ping_response h id) = IsHead MessageType.ping h id
IsMessage (find_node h id target) = IsHead MessageType.find_node h id × (length target ≡ 20)
IsMessage (find_node_response h id ns) = IsHead MessageType.find_node h id × All IsNodeInfo ns
IsMessage (find_peers h id info_hash) = IsHead MessageType.find_peers h id × (length info_hash ≡ 20)
IsMessage (find_peers_response h id values) = ⊥
IsMessage (announce h id info_hash token port) =
    IsHead MessageType.announce h id
    × (length info_hash ≡ 20)
    × (length token ≡ 4)
    × (port < 2 ^ 16)
IsMessage (announce_response h id) = IsHead MessageType.announce h id

-- The answer to a ping is read as a ping; the other messages are read as they are.
abbrev pub received : DhtMessage → DhtMessage
received (ping_response h id) = ping h id
received m = m

decode-eq :
    (bs rest : Bytes) (h : MessageHeader) (t : MessageType)
    → decode_header bs ≡ ok (h, rest)
    → h.msg_type ≡ t
    → decode bs ≡ decode_body t h rest
unfolding decode
decode-eq bs rest h t e f = rw (decode, e) (ap (λ (x : MessageType). decode_body x h rest) f)

pub decode-encode_header :
    (t : MessageType) (h : MessageHeader) (id : NodeId) (body : Bytes)
    → IsHead t h id
    → decode (encode_header h ++ body) ≡ decode_body t h body
decode-encode_header t h id body w =
    let type_same : h.msg_type ≡ t = ap (λ (x : MessageHeader). x.msg_type) w.standard in
    let whole : header_of h.msg_type h.txn_id ≡ h =
      ap (λ (x : MessageType). header_of x h.txn_id) type_same ∙ sym w.standard in
    decode-eq (encode_header h ++ body) body h t
      (decode_header-encode_header h body w.txn_fits
        ∙ ap (λ (x : MessageHeader). ok (x, body)) whole)
      type_same

pub length-encode_nodes :
    (ns : List NodeInfo) → All IsNodeInfo ns → length (encode_nodes ns) ≡ 26 * length ns
unfolding encode_nodes
length-encode_nodes [] w = refl
length-encode_nodes (n ∷ ns) w = omega (
  arith,
  length-append (encode_node n) (encode_nodes ns),
  length-encode_node n w.0,
  length-encode_nodes ns w.1,
)

decode_nodes-encode_nodes :
    (fuel : ℕ) (ns : List NodeInfo)
    → length ns ≤ fuel
    → All IsNodeInfo ns
    → decode_nodes fuel (encode_nodes ns) ≡ ok ns
unfolding decode_nodes encode_nodes
decode_nodes-encode_nodes zero [] h w = refl
decode_nodes-encode_nodes zero (n ∷ ns) h w = absurd (omega arith)
decode_nodes-encode_nodes (suc fuel) [] h w = refl
decode_nodes-encode_nodes (suc fuel) (n ∷ ns) h w =
    let long = length-append (encode_node n) (encode_nodes ns) in
    let sized = length-encode_node n w.0 in
    ground (
      arith,
      decode_node-encode_node n (encode_nodes ns) w.0,
      decode_nodes-encode_nodes fuel ns (omega arith) w.1,
    )

pub decode_ping-eq :
    (h : MessageHeader) (id : NodeId) → length id ≡ 20 → decode_ping h id ≡ ok (ping h id)
unfolding decode_ping
decode_ping-eq h id e = ground (arith, take_exact 20 id e)

decode_find_node-eq :
    (h : MessageHeader) (id target : NodeId)
    → length id ≡ 20
    → length target ≡ 20
    → decode_find_node h (id ++ target) ≡ ok (find_node h id target)
unfolding decode_find_node
decode_find_node-eq h id target e f = ground (
  arith,
  length-append id target,
  take_sized 20 id target e,
  drop_sized 20 id target e,
  take_exact 20 target f,
)

pub decode_find_node-nodes :
    (h : MessageHeader) (id : NodeId) (ns : List NodeInfo)
    → length id ≡ 20
    → All IsNodeInfo ns
    → decode_find_node h (id ++ encode_nodes ns) ≡ ok (find_node_response h id ns)
unfolding decode_find_node
decode_find_node-nodes h id ns e w =
    let long = length-append id (encode_nodes ns) in
    let sized = length-encode_nodes ns w in
    ground (
      arith,
      take_sized 20 id (encode_nodes ns) e,
      drop_sized 20 id (encode_nodes ns) e,
      decode_nodes-encode_nodes (length (id ++ encode_nodes ns)) ns (omega arith) w,
    )

decode_find_peers-eq :
    (h : MessageHeader) (id : NodeId) (info_hash : Bytes)
    → length id ≡ 20
    → length info_hash ≡ 20
    → decode_find_peers h (id ++ info_hash) ≡ ok (find_peers h id info_hash)
unfolding decode_find_peers
decode_find_peers-eq h id info_hash e f = ground (
  arith,
  length-append id info_hash,
  take_sized 20 id info_hash e,
  drop_sized 20 id info_hash e,
  take_exact 20 info_hash f,
)

decode_announce_response-eq :
    (h : MessageHeader) (id : NodeId)
    → length id ≡ 20
    → decode_announce h (id ++ 0 ∷ []) ≡ ok (announce_response h id)
unfolding decode_announce
decode_announce_response-eq h id e =
    ground (arith, length-append id (0 ∷ []), take_sized 20 id (0 ∷ []) e)

decode_announce-eq :
    (h : MessageHeader) (id : NodeId) (info_hash token : Bytes) (port : ℕ)
    → length id ≡ 20
    → length info_hash ≡ 20
    → length token ≡ 4
    → port < 2 ^ 16
    → decode_announce h (id ++ (info_hash ++ (token ++ to_be16 port)))
      ≡ ok (announce h id info_hash token port)
unfolding decode_announce
decode_announce-eq h id info_hash token port ei eh et hp =
    let p = to_be16 port in
    let tail = token ++ p in
    let body = info_hash ++ tail in
    let l1 = length-append id body in
    let l2 = length-append info_hash tail in
    let l3 = length-append token p in
    let t1 = take_sized 20 id body ei in
    let d1 = drop_sized 20 id body ei in
    let t2 = take_sized 20 info_hash tail eh in
    let d2 = drop_past 20 20 40 id body ei (omega arith) in
    let d3 = drop_sized 20 info_hash tail eh in
    let t3 = take_sized 4 token p et in
    let g1 = get_or_past 20 24 44 id body 0 ei (omega arith) in
    let g2 = get_or_past 20 25 45 id body 0 ei (omega arith) in
    let g3 = get_or_past 20 4 24 info_hash tail 0 eh (omega arith) in
    let g4 = get_or_past 20 5 25 info_hash tail 0 eh (omega arith) in
    let g5 = get_or_past 4 0 4 token p 0 et (omega arith) in
    let g6 = get_or_past 4 1 5 token p 0 et (omega arith) in
    ground (arith, from_be16-to_be16 port hp)

-- Every message but an answer to `find_peers`, whose header has the magic and the version of the protocol
-- and the type of its variant, and whose parts have their sizes, is read back as it is, except that the
-- answer to a ping is read as a ping.
pub decode-encode_message : (m : DhtMessage) → IsMessage m → decode (encode m) ≡ ok (received m)
unfolding encode decode_body
decode-encode_message (ping h id) w =
    decode-encode_header MessageType.ping h id id w ∙ decode_ping-eq h id w.id_sized
decode-encode_message (ping_response h id) w =
    decode-encode_header MessageType.ping h id id w ∙ decode_ping-eq h id w.id_sized
decode-encode_message (find_node h id target) (w, e) =
    decode-encode_header MessageType.find_node h id (id ++ target) w
    ∙ decode_find_node-eq h id target w.id_sized e
decode-encode_message (find_node_response h id ns) (w, a) =
    decode-encode_header MessageType.find_node h id (id ++ encode_nodes ns) w
    ∙ decode_find_node-nodes h id ns w.id_sized a
decode-encode_message (find_peers h id info_hash) (w, e) =
    decode-encode_header MessageType.find_peers h id (id ++ info_hash) w
    ∙ decode_find_peers-eq h id info_hash w.id_sized e
decode-encode_message (find_peers_response h id values) w = elim w [ ]
decode-encode_message (announce h id info_hash token port) (w, eh, et, hp) =
    decode-encode_header MessageType.announce h id (id ++ (info_hash ++ (token ++ to_be16 port))) w
    ∙ decode_announce-eq h id info_hash token port w.id_sized eh et hp
decode-encode_message (announce_response h id) w =
    decode-encode_header MessageType.announce h id (id ++ 0 ∷ []) w
    ∙ decode_announce_response-eq h id w.id_sized
