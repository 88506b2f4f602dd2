-- ===== src/Dht/Rpc/Tests.antt =====
-- The theorems on DHT messages at concrete inputs.
use qvod_player.Prelude.{◌≡◌, ◌≢◌, refl, [], ◌∷◌, replicate, some, arith}
use qvod_player.Core.Error.{ok}
use qvod_player.Dht.Rpc.Defs.{
  MessageType, MessageHeader, DhtMessage, announce, find_peers_response, ping_response, peers,
  header_of, encode, error_response,
}
use qvod_player.Dht.Rpc.Decode.{decode}
use qvod_player.Dht.Rpc.Message.{IsMessage, received, decode-encode_message}
use qvod_player.Dht.Rpc.Mismatch.{
  ErrorRead, decode-encode_find_peers_response_ne, error_response-decode,
}

abbrev head : MessageHeader
head = header_of MessageType.announce 7

abbrev message : DhtMessage
message = announce head (replicate 20 1) (replicate 20 2) (1 ∷ 2 ∷ 3 ∷ 4 ∷ []) 8621

message-IsMessage : IsMessage message
message-IsMessage =
    (record { standard = refl; txn_fits = omega arith; id_sized = refl }, refl, refl, omega arith)

decode-encode_message_example : decode (encode message) ≡ ok (received message)
decode-encode_message_example = decode-encode_message message message-IsMessage

abbrev asked : MessageHeader
asked = header_of MessageType.find_peers 9

decode-encode_find_peers_response_ne_example :
    decode (encode (find_peers_response asked (replicate 20 1) (peers (replicate 6 5 ∷ []))))
    ≢ ok (find_peers_response asked (replicate 20 1) (peers (replicate 6 5 ∷ [])))
decode-encode_find_peers_response_ne_example =
    decode-encode_find_peers_response_ne asked (replicate 20 1) (peers (replicate 6 5 ∷ []))
      (record { standard = refl; txn_fits = omega arith; id_sized = refl }) (refl, tt)

abbrev failure : DhtMessage
failure = ping_response (header_of MessageType.announce 0xFFFF) (replicate 20 1)

failure_run : error_response message ≡ some failure
unfolding error_response
failure_run = refl

error_response-decode_example : ErrorRead message (decode (encode failure))
error_response-decode_example = error_response-decode message failure message-IsMessage failure_run
