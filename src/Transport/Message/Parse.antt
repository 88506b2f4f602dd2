-- ===== src/Transport/Message/Parse.antt =====
-- crates/qvs-transport/src/message.rs: `PeerMessage`, its constructors, `encode`, `decode` and the
-- `parse_*` methods.
use qvod_player.Prelude.{
  ℕ, ◌+◌, ◌||◌, not, Option, none, some, [], ◌∷◌, ◌++◌, ◌==◌, ltb, if◌then◌else◌, length, get_or,
  slice, drop, Bytes, to_be16, to_be32, from_be16, from_be32, u32, replicate,
}
use qvod_player.Core.Error.{Message, QvodError, Result, ok, err}
use qvod_player.Transport.Message.MsgId.{MsgId, to_u8, from_u8, is}

pub record PeerMessage : Type 0 where
  pub msg_id : MsgId
  pub payload : Bytes

-- `payload[i]`
abbrev pub at : Bytes → ℕ → ℕ
at bs i = get_or bs i 0

-- `u32::from_be_bytes([payload[i], payload[i + 1], payload[i + 2], payload[i + 3]])`
abbrev pub be32_at : Bytes → ℕ → ℕ
be32_at bs i = from_be32 (at bs i) (at bs (i + 1)) (at bs (i + 2)) (at bs (i + 3))

unfoldable pub new : MsgId → Bytes → PeerMessage
new m p = record { msg_id = m; payload = p }

unfoldable pub keep_alive : Bytes
keep_alive = replicate 4 0

-- The length is a `u32` sum: it wraps where a payload has 2 ^ 32 - 1 bytes or more.
unfoldable pub encode : PeerMessage → Bytes
encode m = to_be32 (u32 (1 + u32 (length m.payload))) ++ to_u8 m.msg_id ∷ m.payload

abbrev fail {ℓ} : {A : Type ℓ} → Message → Result A
fail m = err (QvodError.protocol m)

-- The tail of `decode`, from the lookup of the identifier byte.
unfoldable pub finish : Bytes → ℕ → Option MsgId → Result PeerMessage
finish bs len none = fail (Message.with_number "unknown msg_id: " (at bs 4))
finish bs len (some m) = ok (record { msg_id = m; payload = slice bs 5 (4 + len) })

unfoldable pub decode : Bytes → Result PeerMessage
unfolding finish
decode bs =
    if ltb (length bs) 4
    then fail (Message.text "message too short")
    else let len = be32_at bs 0 in
      if len == 0
      then fail (Message.text "keep-alive has no msg_id")
      else if ltb (length bs) (4 + len)
      then fail (Message.text "message truncated")
      else finish bs len (from_u8 (at bs 4))

unfoldable pub have : ℕ → PeerMessage
have index = record { msg_id = MsgId.have; payload = to_be32 index }

unfoldable pub bitfield : Bytes → PeerMessage
bitfield bs = record { msg_id = MsgId.bitfield; payload = bs }

-- `index`, `begin` and `length` one behind the other, as in a request, a cancel and a reject.
abbrev pub triple : ℕ → ℕ → ℕ → Bytes
triple index begin len = to_be32 index ++ to_be32 begin ++ to_be32 len

unfoldable pub request : ℕ → ℕ → ℕ → PeerMessage
request index begin len = record { msg_id = MsgId.request; payload = triple index begin len }

unfoldable pub piece : ℕ → ℕ → Bytes → PeerMessage
piece index begin block = record {
  msg_id = MsgId.piece;
  payload = to_be32 index ++ (to_be32 begin ++ block);
}

unfoldable pub cancel : ℕ → ℕ → ℕ → PeerMessage
cancel index begin len = record { msg_id = MsgId.cancel; payload = triple index begin len }

unfoldable pub port : ℕ → PeerMessage
port p = record { msg_id = MsgId.port; payload = to_be16 p }

unfoldable pub have_all : PeerMessage
have_all = record { msg_id = MsgId.have_all; payload = [] }

unfoldable pub have_none : PeerMessage
have_none = record { msg_id = MsgId.have_none; payload = [] }

unfoldable pub reject_request : ℕ → ℕ → ℕ → PeerMessage
reject_request index begin len = record {
  msg_id = MsgId.reject_request;
  payload = triple index begin len;
}

unfoldable pub allowed_fast : ℕ → PeerMessage
allowed_fast index = record { msg_id = MsgId.allowed_fast; payload = to_be32 index }

unfoldable pub suggest_piece : ℕ → PeerMessage
suggest_piece index = record { msg_id = MsgId.suggest_piece; payload = to_be32 index }

unfoldable pub parse_have : PeerMessage → Option ℕ
unfolding is
parse_have m =
    if not (is m.msg_id MsgId.have) || ltb (length m.payload) 4
    then none
    else some (be32_at m.payload 0)

unfoldable pub parse_request : PeerMessage → Option (ℕ × ℕ × ℕ)
unfolding is
parse_request m =
    if not (is m.msg_id MsgId.request) || ltb (length m.payload) 12
    then none
    else some (be32_at m.payload 0, be32_at m.payload 4, be32_at m.payload 8)

unfoldable pub parse_piece : PeerMessage → Option (ℕ × ℕ × Bytes)
unfolding is
parse_piece m =
    if not (is m.msg_id MsgId.piece) || ltb (length m.payload) 8
    then none
    else some (be32_at m.payload 0, be32_at m.payload 4, drop 8 m.payload)

unfoldable pub parse_bitfield : PeerMessage → Option Bytes
unfolding is
parse_bitfield m =
    if not (is m.msg_id MsgId.bitfield) || length m.payload == 0 then none else some m.payload

unfoldable pub parse_cancel : PeerMessage → Option (ℕ × ℕ × ℕ)
unfolding is
parse_cancel m =
    if not (is m.msg_id MsgId.cancel) || ltb (length m.payload) 12
    then none
    else some (be32_at m.payload 0, be32_at m.payload 4, be32_at m.payload 8)

unfoldable pub parse_port : PeerMessage → Option ℕ
unfolding is
parse_port m =
    if not (is m.msg_id MsgId.port) || ltb (length m.payload) 2
    then none
    else some (from_be16 (at m.payload 0) (at m.payload 1))

unfoldable pub parse_suggest_piece : PeerMessage → Option ℕ
unfolding is
parse_suggest_piece m =
    if not (is m.msg_id MsgId.suggest_piece) || ltb (length m.payload) 4
    then none
    else some (be32_at m.payload 0)
