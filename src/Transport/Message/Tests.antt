-- ===== src/Transport/Message/Tests.antt =====
-- The theorems on messages at concrete inputs.
use qvod_player.Prelude.{◌≡◌, ◌↔◌, refl, some, [], ◌∷◌, ◌++◌, arith, Bytes}
use qvod_player.Core.Error.{Message, QvodError, ok, err}
use qvod_player.Transport.Message.MsgId
use qvod_player.Transport.Message.Parse.{
  PeerMessage, keep_alive, encode, decode, have, bitfield, parse_bitfield, request, piece, cancel,
  port, suggest_piece, parse_have, parse_request, parse_piece, parse_cancel, parse_port,
  parse_suggest_piece,
}
use qvod_player.Transport.Message.RoundTrip.{parse-build}
use qvod_player.Transport.Message.Framing.{decode_iff}

abbrev bits : PeerMessage
bits = record { msg_id = MsgId.bitfield; payload = 0xff ∷ 0x0a ∷ [] }

abbrev wire : Bytes
wire = 0 ∷ 0 ∷ 0 ∷ 3 ∷ 5 ∷ 0xff ∷ 0x0a ∷ 9 ∷ []

bits_on_wire : encode bits ++ 9 ∷ [] ≡ wire
unfolding encode MsgId.to_u8
bits_on_wire = refl

unknown_id :
    decode (0 ∷ 0 ∷ 0 ∷ 1 ∷ 99 ∷ [])
    ≡ err (QvodError.protocol (Message.with_number "unknown msg_id: " 99))
unfolding decode MsgId.from_u8
unknown_id = refl

keep_alive_refused :
    decode keep_alive ≡ err (QvodError.protocol (Message.text "keep-alive has no msg_id"))
unfolding decode keep_alive
keep_alive_refused = refl

decode_iff_example : (decode wire ≡ ok bits) ↔ ((rest : Bytes) × (wire ≡ encode bits ++ rest))
decode_iff_example = decode_iff wire bits (omega arith) (omega arith)

parse-build_example :
    (parse_have (have 7) ≡ some 7)
    × (parse_request (request 7 0 16384) ≡ some (7, 0, 16384))
    × (parse_piece (piece 7 0 (1 ∷ 2 ∷ [])) ≡ some (7, 0, 1 ∷ 2 ∷ []))
    × (parse_bitfield (bitfield (3 ∷ [])) ≡ some (3 ∷ []))
    × (parse_cancel (cancel 7 0 16384) ≡ some (7, 0, 16384))
    × (parse_port (port 8621) ≡ some 8621)
    × (parse_suggest_piece (suggest_piece 7) ≡ some 7)
parse-build_example =
    parse-build 7 0 16384 8621 (1 ∷ 2 ∷ []) (3 ∷ []) (omega arith) (omega arith) (omega arith)
      (omega arith) (omega arith)
