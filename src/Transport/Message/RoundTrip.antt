-- ===== src/Transport/Message/RoundTrip.antt =====
-- Encoding a message and decoding it, and building a payload and parsing it.
use qvod_player.Prelude.{
  ℕ, suc, ◌+◌, ◌-◌, ◌^◌, ◌<◌, ◌≡◌, refl, some, ◌∷◌, ◌++◌, arith, length, length-append, take-append,
  Bytes, to_be32, from_be32-to_be32, from_be16-to_be16, u32,
}
use qvod_player.Core.Error.{ok}
use qvod_player.Transport.Message.MsgId.{MsgId, to_u8, from_u8-to_u8}
use qvod_player.Transport.Message.Parse.{
  PeerMessage, at, encode, decode, finish, have, bitfield, request, piece, cancel, port,
  suggest_piece, be32_at, parse_have, parse_request, parse_piece, parse_bitfield, parse_cancel,
  parse_port, parse_suggest_piece,
}

-- The head of an encoded message: its length, the identifier byte and the payload.
encoded : ℕ → ℕ → Bytes → Bytes → Bytes
encoded n i p rest = to_be32 n ++ i ∷ (p ++ rest)

be32_at-encoded : (n i : ℕ) (p rest : Bytes) → n < 2 ^ 32 → be32_at (encoded n i p rest) 0 ≡ n
unfolding encoded
be32_at-encoded n i p rest h = from_be32-to_be32 n h

at-encoded : (n i : ℕ) (p rest : Bytes) → at (encoded n i p rest) 4 ≡ i
unfolding encoded
at-encoded n i p rest = refl

length-encoded :
    (n i : ℕ) (p rest : Bytes) → length (encoded n i p rest) ≡ 5 + length p + length rest
unfolding encoded
length-encoded n i p rest = omega (arith, length-append p rest)

finish-encoded :
    (n : ℕ) (m : MsgId) (p rest : Bytes)
    → n ≡ suc (length p)
    → finish (encoded n (to_u8 m) p rest) n (some m) ≡ ok (record { msg_id = m; payload = p })
unfolding encoded finish
finish-encoded n m p rest e =
    let k : 4 + n - 5 ≡ length p = omega arith in rw (k, take-append p rest)

decode-encoded :
    (n : ℕ) (m : MsgId) (p rest : Bytes)
    → n ≡ suc (length p)
    → n < 2 ^ 32
    → decode (encoded n (to_u8 m) p rest) ≡ ok (record { msg_id = m; payload = p })
unfolding decode
decode-encoded n m p rest e h = ground (
  arith,
  length-encoded n (to_u8 m) p rest,
  be32_at-encoded n (to_u8 m) p rest h,
  at-encoded n (to_u8 m) p rest,
  from_u8-to_u8 m,
  finish-encoded n m p rest e,
)

-- Decoding the encoding of a message, with any bytes behind it, gives the message.
pub decode-encode :
    (m : PeerMessage) (rest : Bytes)
    → length m.payload + 1 < 2 ^ 32
    → decode (encode m ++ rest) ≡ ok m
unfolding encode encoded
decode-encode m rest h =
    let e : u32 (1 + u32 (length m.payload)) ≡ suc (length m.payload) = omega arith in
    rw e (decode-encoded (suc (length m.payload)) m.msg_id m.payload rest refl (omega arith))

-- Each of the seven parse methods gives back what its message was built from, for numbers that fit
-- their width and a bit field of one byte or more.
pub parse-build :
    (i b l p : ℕ) (block bits : Bytes)
    → i < 2 ^ 32
    → b < 2 ^ 32
    → l < 2 ^ 32
    → p < 2 ^ 16
    → 0 < length bits
    → (parse_have (have i) ≡ some i)
      × (parse_request (request i b l) ≡ some (i, b, l))
      × (parse_piece (piece i b block) ≡ some (i, b, block))
      × (parse_bitfield (bitfield bits) ≡ some bits)
      × (parse_cancel (cancel i b l) ≡ some (i, b, l))
      × (parse_port (port p) ≡ some p)
      × (parse_suggest_piece (suggest_piece i) ≡ some i)
unfolding parse_bitfield bitfield parse_have parse_request parse_piece parse_cancel parse_port
    parse_suggest_piece have request piece cancel port suggest_piece
parse-build i b l p block bits hi hb hl hp hbits =
    let ei = from_be32-to_be32 i hi in
    let eb = from_be32-to_be32 b hb in
    let el = from_be32-to_be32 l hl in
    (
      rw ei,
      rw (ei, eb, el),
      ground (arith, ei, eb),
      ground arith,
      rw (ei, eb, el),
      rw (from_be16-to_be16 p hp),
      rw ei,
    )
