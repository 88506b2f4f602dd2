-- ===== src/Transport/PeerWire/Choking.antt =====
-- Choking: which requests are refused, and what a peer that shows interest gets.
use qvod_player.Prelude.{◌+◌, ◌≡◌, ◌↔◌, true, none, some, [], arith, Bytes, u64}
use qvod_player.Core.Error.{Message, QvodError, ok, err}
use qvod_player.Transport.Message.MsgId.{MsgId}
use qvod_player.Transport.Message.Parse
use qvod_player.Transport.Message.Parse.{PeerMessage}
use qvod_player.Transport.PeerWire.State.{PeerWireProtocol, handle_message, start_unchoke}

-- The error "requested while choked" is returned exactly for a request that arrives while we choke
-- the peer.
pub handle_message-refuses_iff :
    (s : PeerWireProtocol) (m : PeerMessage)
    → ((handle_message s m).1 ≡ err (QvodError.protocol (Message.text "requested while choked")))
      ↔ ((m.msg_id ≡ MsgId.request) × (s.am_choking ≡ true))
unfolding handle_message
handle_message-refuses_iff s m = ground arith

-- A message changes nothing but the two flags of the peer and the count of messages, which grows
-- by one below 2 ^ 64.
pub handle_message_frame :
    (s : PeerWireProtocol) (m : PeerMessage)
    → let t = (handle_message s m).0 in
      (t.state ≡ s.state)
      × (t.am_choking ≡ s.am_choking)
      × (t.am_interested ≡ s.am_interested)
      × (t.bytes_sent ≡ s.bytes_sent)
      × (t.bytes_received ≡ s.bytes_received)
      × (t.messages_sent ≡ s.messages_sent)
      × (t.messages_received ≡ u64 (s.messages_received + 1))
unfolding handle_message
handle_message_frame s m = ground arith

-- A choked peer that says it is interested is answered by an unchoke message, and its next request
-- is refused all the same, since the answer does not clear our own flag; after `start_unchoke` the
-- request is accepted.
pub interested-request_refused :
    (s : PeerWireProtocol) (p q : Bytes)
    → s.am_choking ≡ true
    → let interest = Parse.new MsgId.interested p in
      let request = Parse.new MsgId.request q in
      let t = (handle_message s interest).0 in
      ((handle_message s interest).1 ≡ ok (some (Parse.new MsgId.unchoke [])))
      × ((handle_message t request).1
          ≡ err (QvodError.protocol (Message.text "requested while choked")))
      × ((handle_message (start_unchoke t) request).1 ≡ ok none)
unfolding handle_message start_unchoke Parse.new
interested-request_refused s p q h = ground arith
