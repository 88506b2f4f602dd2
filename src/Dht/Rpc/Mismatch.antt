-- ===== src/Dht/Rpc/Mismatch.antt =====
-- Messages that are not read back: the answers to `find_peers`, and the answers to a failed request.
use qvod_player.Prelude.{
  ℕ, zero, suc, ◌+◌, ◌*◌, ◌≤◌, ◌≡◌, ◌≢◌, ◌∙◌, refl, sym, ap, inl, inr, some, List, [], ◌∷◌, ◌++◌,
  ◌==◌, ltb, length, take, drop, Bytes, arith, All, length-append, length-drop, Bool-cases,
  append-nil,
}
use qvod_player.Core.Error.{Message, Result, ok, ok-of->>=}
use qvod_player.Core.NodeId.{NodeId}
use qvod_player.Dht.Rpc.Defs.{
  MessageType, MessageHeader, NodeInfo, FindPeersResult, DhtMessage, peers, nodes, encode_nodes,
  encode_peers, encode_result, encode, header_of, ping, ping_response, find_node,
  find_node_response, find_peers, find_peers_response, announce, announce_response, error_response,
}
use qvod_player.Dht.Rpc.Decode.{
  decode_find_node, decode_find_peers, decode_announce, decode_body, decode, decode_node,
  decode_result, take_peers, take_nodes, fail, at, be16_at,
}
use qvod_player.Dht.Rpc.RoundTrip.{IsNodeInfo}
use qvod_player.Dht.Rpc.Message.{
  IsHead, IsMessage, decode-encode_header, length-encode_nodes, decode_ping-eq,
  decode_find_node-nodes,
}

length-take_peers : (count : ℕ) (bs : Bytes) → 6 * length (take_peers count bs) ≤ length bs
unfolding take_peers
length-take_peers zero bs = omega arith
length-take_peers (suc count) bs =
    ground (arith, length-take_peers count (drop 6 bs), length-drop 6 bs)

length-decode_node :
    (bs rest : Bytes) (n : NodeInfo)
    → 26 ≤ length bs
    → decode_node bs ≡ ok (n, rest)
    → length rest + 26 ≡ length bs
unfolding decode_node
length-decode_node bs rest n long h =
    let e : drop 26 bs ≡ rest = ground (arith, h) in omega (arith, length-drop 26 bs, ap length e)

length-take_nodes : (count : ℕ) (bs : Bytes) → 26 * length (take_nodes count bs) ≤ length bs
unfolding take_nodes decode_node
length-take_nodes zero bs = omega arith
length-take_nodes (suc count) bs =
    ground (arith, length-take_nodes count (drop 26 bs), length-drop 26 bs)

-- The bytes that the peers or the nodes of an answer take.
abbrev result_size : FindPeersResult → ℕ
result_size (peers ps) = 6 * length ps
result_size (nodes ns) = 26 * length ns

decode_result-size :
    (bs : Bytes) (values : FindPeersResult)
    → decode_result bs ≡ ok values
    → result_size values + 3 ≤ length bs
unfolding decode_result
decode_result-size bs values h =
    let payload = drop 1 bs in
    let body = drop 2 payload in
    let count = be16_at payload 0 in
    let l1 = length-drop 1 bs in
    let l2 = length-drop 2 payload in
    let p = length-take_peers count body in
    let n = length-take_nodes count body in
    elim (Bool-cases (ltb (length payload) 2)) [
      | inl short ↦ cc (rw (decode_result, short) at h)
      | inr long ↦ elim (Bool-cases (at bs 0 == 0)) [
        | inl tag ↦
            let same : peers (take_peers count body) ≡ values =
              cc (rw (decode_result, long, tag) at h) in
            rw (← same) (ground (arith, long))
        | inr tag ↦
            let same : nodes (take_nodes count body) ≡ values =
              cc (rw (decode_result, long, tag) at h) in
            rw (← same) (ground (arith, long))
      ]
    ]

-- Each peer has 6 bytes, and each node its sizes.
abbrev pub IsResult : FindPeersResult → Type 0
IsResult (peers ps) = All (λ p. length p ≡ 6) ps
IsResult (nodes ns) = All IsNodeInfo ns

length-encode_peers :
    (ps : List Bytes) → All (λ p. length p ≡ 6) ps → length (encode_peers ps) ≡ 6 * length ps
unfolding encode_peers
length-encode_peers [] w = refl
length-encode_peers (p ∷ ps) w =
    omega (arith, length-append p (encode_peers ps), w.0, length-encode_peers ps w.1)

length-encode_result :
    (values : FindPeersResult)
    → IsResult values
    → length (encode_result values) ≡ 3 + result_size values
unfolding encode_result
length-encode_result (peers ps) w = omega (arith, length-encode_peers ps w)
length-encode_result (nodes ns) w = omega (arith, length-encode_nodes ns w)

-- An answer to `find_peers`, whatever peers or nodes it carries, is never read back as it is: it is
-- written without the 20 bytes behind the identifier that the reader skips.
pub decode-encode_find_peers_response_ne :
    (h : MessageHeader) (id : NodeId) (values : FindPeersResult)
    → IsHead MessageType.find_peers h id
    → IsResult values
    → decode (encode (find_peers_response h id values)) ≢ ok (find_peers_response h id values)
unfolding encode decode_body decode_find_peers
decode-encode_find_peers_response_ne h id values w sized e =
    let rest = id ++ encode_result values in
    let body = decode-encode_header MessageType.find_peers h id rest w in
    let l1 = length-append id (encode_result values) in
    let l2 = length-encode_result values sized in
    let l3 = length-drop 40 rest in
    let found : decode_find_peers h rest ≡ ok (find_peers_response h id values) = sym body ∙ e in
    elim (Bool-cases (ltb (length rest) 40)) [
      | inl short ↦ cc (rw (decode_find_peers, short) at found)
      | inr long ↦ elim (Bool-cases (length rest == 40)) [
        | inl exact ↦ cc (rw (decode_find_peers, long, exact) at found)
        | inr more ↦
            let step = λ (v : FindPeersResult). ok (find_peers_response h (take 20 rest) v) in
            let (v, read, same) =
              ok-of->>= (decode_result (drop 40 rest)) step (find_peers_response h id values)
                (rw (decode_find_peers, long, more) at found) in
            let kept : v ≡ values = cc same in
            let size =
              decode_result-size (drop 40 rest) values
                (read ∙ ap (λ (x : FindPeersResult). ok x) kept) in
            omega arith
      ]
    ]

-- What the answer to a failed request is read as.
abbrev pub ErrorRead : DhtMessage → Result DhtMessage → Type 0
ErrorRead (ping h id) a = a ≡ ok (ping (header_of MessageType.ping 0xFFFF) id)
ErrorRead (find_node h id target) a =
    a ≡ ok (find_node_response (header_of MessageType.find_node 0xFFFF) id [])
ErrorRead (find_peers h id info_hash) a = a ≡ fail (Message.text "find_peers too short")
ErrorRead (announce h id info_hash token port) a = a ≡ fail (Message.text "announce too short")
ErrorRead _ a = ⊥

-- The head of such an answer.
error-IsHead : (t : MessageType) (id : NodeId) → length id ≡ 20 → IsHead t (header_of t 0xFFFF) id
error-IsHead t id e = record { standard = refl; txn_fits = omega arith; id_sized = e }

decode_find_peers-short :
    (h : MessageHeader) (id : NodeId)
    → length id ≡ 20
    → decode_find_peers h id ≡ fail (Message.text "find_peers too short")
unfolding decode_find_peers
decode_find_peers-short h id e = ground arith

decode_announce-short :
    (h : MessageHeader) (id : NodeId)
    → length id ≡ 20
    → decode_announce h id ≡ fail (Message.text "announce too short")
unfolding decode_announce
decode_announce-short h id e = ground arith

-- The answer with the type of a request, read.
read_error :
    (t : MessageType) (id : NodeId)
    → length id ≡ 20
    → decode (encode (ping_response (header_of t 0xFFFF) id))
      ≡ decode_body t (header_of t 0xFFFF) id
unfolding encode
read_error t id e = decode-encode_header t (header_of t 0xFFFF) id id (error-IsHead t id e)

find_node_short :
    (h : MessageHeader) (id : NodeId)
    → length id ≡ 20
    → decode_find_node h id ≡ ok (find_node_response h id [])
unfolding encode_nodes
find_node_short h id e =
    ap (decode_find_node h) (sym (append-nil id)) ∙ decode_find_node-nodes h id [] e tt

answered :
    (t : MessageType) (h : MessageHeader) (id : NodeId) (r : DhtMessage)
    → IsHead t h id
    → some (ping_response (header_of h.msg_type 0xFFFF) id) ≡ some r
    → decode (encode r) ≡ decode_body t (header_of t 0xFFFF) id
answered t h id r w e =
    let same : ping_response (header_of h.msg_type 0xFFFF) id ≡ r = cc e in
    let type_same : h.msg_type ≡ t = ap (λ (x : MessageHeader). x.msg_type) w.standard in
    ap (λ (x : DhtMessage). decode (encode x)) (sym same)
    ∙ ap (λ (x : MessageType). decode (encode (ping_response (header_of x 0xFFFF) id))) type_same
    ∙ read_error t id w.id_sized

-- The answer to a failed request is read as a ping for a ping, as an answer without nodes for
-- `find_node`, and not at all for the two other requests: it carries their type with too few bytes.
pub error_response-decode :
    (m r : DhtMessage) → IsMessage m → error_response m ≡ some r → ErrorRead m (decode (encode r))
unfolding error_response decode_body
error_response-decode (ping h id) r w e =
    answered MessageType.ping h id r w e
    ∙ decode_ping-eq (header_of MessageType.ping 0xFFFF) id w.id_sized
error_response-decode (find_node h id target) r (w, _) e =
    answered MessageType.find_node h id r w e
    ∙ find_node_short (header_of MessageType.find_node 0xFFFF) id w.id_sized
error_response-decode (find_peers h id info_hash) r (w, _) e =
    answered MessageType.find_peers h id r w e
    ∙ decode_find_peers-short (header_of MessageType.find_peers 0xFFFF) id w.id_sized
error_response-decode (announce h id info_hash token port) r (w, _, _, _) e =
    answered MessageType.announce h id r w e
    ∙ decode_announce-short (header_of MessageType.announce 0xFFFF) id w.id_sized
error_response-decode (ping_response h id) r w e = cc
error_response-decode (find_node_response h id ns) r w e = cc
error_response-decode (find_peers_response h id values) r w e = cc
error_response-decode (announce_response h id) r w e = cc
