-- ===== src/Transport/PeerWire/State.antt =====
-- crates/qvs-transport/src/peer_wire.rs: the record, its methods and `handle_message`.
use qvod_player.Prelude.{
  ℕ, ◌+◌, Bool, true, false, ◌&&◌, not, Option, none, some, [], if◌then◌else◌, Bytes, u64,
}
use qvod_player.Core.Error.{Message, QvodError, Result, ok, err}
use qvod_player.Transport.Message.MsgId.{MsgId}
use qvod_player.Transport.Message.Parse
use qvod_player.Transport.Message.Parse.{PeerMessage}

pub data ConnectionState : Type 0 where
  initial handshake_sent handshake_received established disconnecting disconnected : ConnectionState

pub record PeerWireProtocol : Type 0 where
  pub state : ConnectionState
  pub am_choking : Bool
  pub am_interested : Bool
  pub peer_choking : Bool
  pub peer_interested : Bool
  pub bytes_sent : ℕ
  pub bytes_received : ℕ
  pub messages_sent : ℕ
  pub messages_received : ℕ

-- `state == …` on the fieldless enum.
abbrev is_handshake_sent : ConnectionState → Bool
is_handshake_sent handshake_sent = true
is_handshake_sent _ = false

abbrev is_established : ConnectionState → Bool
is_established established = true
is_established _ = false

unfoldable pub new : PeerWireProtocol
new = record {
  state = initial;
  am_choking = true;
  am_interested = false;
  peer_choking = true;
  peer_interested = false;
  bytes_sent = 0;
  bytes_received = 0;
  messages_sent = 0;
  messages_received = 0;
}

unfoldable pub on_handshake_sent : PeerWireProtocol → PeerWireProtocol
on_handshake_sent s = record s { state = handshake_sent }

unfoldable pub on_handshake_received : PeerWireProtocol → PeerWireProtocol
on_handshake_received s =
    if is_handshake_sent s.state
    then record s { state = established }
    else record s { state = handshake_received }

unfoldable pub on_established : PeerWireProtocol → PeerWireProtocol
on_established s = record s { state = established }

-- The `match` on the identifier, once the message has been counted.
unfoldable pub dispatch : MsgId → PeerWireProtocol → PeerWireProtocol × Result (Option PeerMessage)
unfolding Parse.new
dispatch MsgId.choke s = (record s { peer_choking = true }, ok none)
dispatch MsgId.unchoke s = (record s { peer_choking = false }, ok none)
dispatch MsgId.interested s = (
  record s { peer_interested = true },
  if s.am_choking then ok (some (Parse.new MsgId.unchoke [])) else ok none,
)
dispatch MsgId.not_interested s = (record s { peer_interested = false }, ok none)
dispatch MsgId.request s = (
  s,
  if s.am_choking
      then err (QvodError.protocol (Message.text "requested while choked"))
      else ok none,
)
dispatch _ s = (s, ok none)

unfoldable pub handle_message :
    PeerWireProtocol → PeerMessage → PeerWireProtocol × Result (Option PeerMessage)
unfolding dispatch
handle_message s m =
    dispatch m.msg_id (record s { messages_received = u64 (s.messages_received + 1) })

unfoldable pub build_interested : PeerWireProtocol → Option PeerMessage
build_interested s = if s.am_interested then none else some (Parse.new MsgId.interested [])

unfoldable pub build_not_interested : PeerWireProtocol → Option PeerMessage
build_not_interested s = if s.am_interested then some (Parse.new MsgId.not_interested []) else none

unfoldable pub build_unchoke : PeerWireProtocol → Option PeerMessage
build_unchoke s = if s.am_choking then some (Parse.new MsgId.unchoke []) else none

unfoldable pub build_choke : PeerWireProtocol → Option PeerMessage
build_choke s = if s.am_choking then none else some (Parse.new MsgId.choke [])

-- crates/qvs-core/src/types.rs: `BlockRequest`.
pub record BlockRequest : Type 0 where
  pub piece_index : ℕ
  pub begin : ℕ
  pub length : ℕ

unfoldable pub build_request : PeerWireProtocol → BlockRequest → PeerMessage
build_request s b = Parse.request b.piece_index b.begin b.length

unfoldable pub build_have : PeerWireProtocol → ℕ → PeerMessage
build_have s index = Parse.have index

unfoldable pub build_bitfield : PeerWireProtocol → Bytes → PeerMessage
build_bitfield s bits = Parse.bitfield bits

unfoldable pub build_cancel : PeerWireProtocol → BlockRequest → PeerMessage
build_cancel s b = Parse.cancel b.piece_index b.begin b.length

unfoldable pub start_unchoke : PeerWireProtocol → PeerWireProtocol
start_unchoke s = record s { am_choking = false }

unfoldable pub start_choke : PeerWireProtocol → PeerWireProtocol
start_choke s = record s { am_choking = true }

unfoldable pub send_interested : PeerWireProtocol → PeerWireProtocol
send_interested s = record s { am_interested = true }

unfoldable pub send_not_interested : PeerWireProtocol → PeerWireProtocol
send_not_interested s = record s { am_interested = false }

unfoldable pub record_sent : PeerWireProtocol → ℕ → PeerWireProtocol
record_sent s n = record s {
  bytes_sent = u64 (s.bytes_sent + n);
  messages_sent = u64 (s.messages_sent + 1);
}

unfoldable pub record_received : PeerWireProtocol → ℕ → PeerWireProtocol
record_received s n = record s {
  bytes_received = u64 (s.bytes_received + n);
  messages_received = u64 (s.messages_received + 1);
}

unfoldable pub is_ready_for_request : PeerWireProtocol → Bool
is_ready_for_request s = is_established s.state && s.am_interested && not s.peer_choking
