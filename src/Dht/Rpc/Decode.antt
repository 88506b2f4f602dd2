-- ===== src/Dht/Rpc/Decode.antt =====
-- crates/qvs-dht/src/rpc.rs: the decoding of the messages. A slice of bytes that is left over is the
-- second part of a result.
use qvod_player.Prelude.{
  ℕ, zero, suc, ◌+◌, Option, none, some, List, [], ◌∷◌, ◌==◌, leb, ltb, not, if◌then◌else◌, length,
  get_or, take, drop, slice, Bytes, from_be16,
}
use qvod_player.Core.Error.{Message, QvodError, Result, ok, err, ◌>>=◌}
use qvod_player.Core.NodeId.{same_id}
use qvod_player.Dht.Rpc.Defs.{
  MessageType, MessageHeader, NodeInfo, FindPeersResult, DhtMessage, magic_bytes, protocol_version,
  from_u8, peers, nodes,
}

abbrev pub fail {ℓ} : {A : Type ℓ} → Message → Result A
fail m = err (QvodError.protocol m)

abbrev pub at : Bytes → ℕ → ℕ
at bs i = get_or bs i 0

-- `u16::from_be_bytes([bs[i], bs[i + 1]])`
abbrev pub be16_at : Bytes → ℕ → ℕ
be16_at bs i = from_be16 (at bs i) (at bs (i + 1))

-- `NodeInfo::decode`
unfoldable pub decode_node : Bytes → Result (NodeInfo × Bytes)
decode_node bs =
    if ltb (length bs) 26
    then fail (Message.text "node info too short")
    else ok (record { node_id = take 20 bs; ip = slice bs 20 24; port = be16_at bs 24 }, drop 26 bs)

-- The last steps of `decode_header`, behind the lookup of the type.
unfoldable pub finish_header : Bytes → Option MessageType → Result (MessageHeader × Bytes)
finish_header bs none = fail (Message.text "unknown msg type")
finish_header bs (some t) =
    if not (at bs 7 == protocol_version)
    then fail (Message.text "unsupported version")
    else ok (
      record { magic = take 4 bs; msg_type = t; txn_id = be16_at bs 5; ver = at bs 7 },
      drop 8 bs,
    )

unfoldable pub decode_header : Bytes → Result (MessageHeader × Bytes)
unfolding finish_header
decode_header bs =
    if ltb (length bs) 8
    then fail (Message.text "header too short")
    else if not (same_id (take 4 bs) magic_bytes)
    then fail (Message.text "invalid magic")
    else finish_header bs (from_u8 (at bs 4))

-- `while remaining.len() >= 26`, on fuel; each round takes 26 bytes.
unfoldable pub decode_nodes : ℕ → Bytes → Result (List NodeInfo)
unfolding decode_node
decode_nodes zero bs = ok []
decode_nodes (suc fuel) bs =
    let more = decode_node bs >>= λ (n, rest). decode_nodes fuel rest >>= λ ns. ok (n ∷ ns) in
    if leb 26 (length bs) then more else ok []

-- `for _ in 0..count`, over the peers and over the nodes.
unfoldable pub take_peers : ℕ → Bytes → List Bytes
take_peers zero bs = []
take_peers (suc count) bs =
    let more = take 6 bs ∷ take_peers count (drop 6 bs) in if ltb (length bs) 6 then [] else more

-- `if let Ok` has no other case here, since 26 bytes are left.
unfoldable pub take_nodes : ℕ → Bytes → List NodeInfo
unfolding decode_node
take_nodes zero bs = []
take_nodes (suc count) bs =
    let more : List NodeInfo = elim (decode_node bs) [
      | ok (n, rest) ↦ n ∷ take_nodes count rest
      | err e ↦ take_nodes count bs
    ] in
    if ltb (length bs) 26 then [] else more

unfoldable pub decode_ping : MessageHeader → Bytes → Result DhtMessage
decode_ping h rest =
    if ltb (length rest) 20
    then fail (Message.text "ping too short")
    else ok (DhtMessage.ping h (take 20 rest))

unfoldable pub decode_find_node : MessageHeader → Bytes → Result DhtMessage
unfolding decode_nodes
decode_find_node h rest =
    if ltb (length rest) 20
    then fail (Message.text "find_node too short")
    else if length rest == 40
    then ok (DhtMessage.find_node h (take 20 rest) (slice rest 20 40))
    else decode_nodes (length rest) (drop 20 rest) >>= λ ns.
        ok (DhtMessage.find_node_response h (take 20 rest) ns)

unfoldable pub decode_result : Bytes → Result FindPeersResult
unfolding take_peers take_nodes
decode_result bs =
    let tag = at bs 0 in
    let payload = drop 1 bs in
    if ltb (length payload) 2
    then fail (Message.text "find_peers response too short")
    else let count = be16_at payload 0 in
      let body = drop 2 payload in
      if tag == 0 then ok (peers (take_peers count body)) else ok (nodes (take_nodes count body))

unfoldable pub decode_find_peers : MessageHeader → Bytes → Result DhtMessage
unfolding decode_result
decode_find_peers h rest =
    if ltb (length rest) 40
    then fail (Message.text "find_peers too short")
    else if length rest == 40
    then ok (DhtMessage.find_peers h (take 20 rest) (slice rest 20 40))
    else decode_result (drop 40 rest) >>= λ values.
        ok (DhtMessage.find_peers_response h (take 20 rest) values)

unfoldable pub decode_announce : MessageHeader → Bytes → Result DhtMessage
decode_announce h rest =
    if ltb (length rest) 21
    then fail (Message.text "announce too short")
    else if length rest == 21
    then ok (DhtMessage.announce_response h (take 20 rest))
    else if leb 46 (length rest)
    then ok (
        DhtMessage.announce h (take 20 rest) (slice rest 20 40) (slice rest 40 44)
          (be16_at rest 44))
    else fail (Message.text "announce payload incomplete")

-- The `match` on the type.
unfoldable pub decode_body : MessageType → MessageHeader → Bytes → Result DhtMessage
unfolding decode_ping decode_find_node decode_find_peers decode_announce
decode_body MessageType.ping h rest = decode_ping h rest
decode_body MessageType.find_node h rest = decode_find_node h rest
decode_body MessageType.find_peers h rest = decode_find_peers h rest
decode_body MessageType.announce h rest = decode_announce h rest

unfoldable pub decode : Bytes → Result DhtMessage
unfolding decode_header decode_body
decode bs = decode_header bs >>= λ (h, rest). decode_body h.msg_type h rest
