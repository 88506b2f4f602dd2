-- ===== src/Transport/PeerWire/Tests.antt =====
-- The theorems on a peer connection at concrete inputs.
use mathlib.Core.List.{Memᴰ}
use qvod_player.Prelude.{◌≡◌, ◌⊎◌, refl, true, false, none, some, [], ◌∷◌, List}
use qvod_player.Core.Error.{Message, QvodError, ok, err}
use qvod_player.Transport.Message.MsgId
use qvod_player.Transport.Message.Parse
use qvod_player.Transport.Message.Parse.{PeerMessage}
use qvod_player.Transport.PeerWire.State.{
  PeerWireProtocol, new, handle_message, start_unchoke, is_ready_for_request,
}
use qvod_player.Transport.PeerWire.Machine.{
  Call, handshake_sent, handshake_received, established, message, choke, interested, apply, run,
  last_of, am_interested_of, peer_choking_of,
}
use qvod_player.Transport.PeerWire.Ready.{ready_needs}
use qvod_player.Transport.PeerWire.Choking.{interested-request_refused}

abbrev unchoked : PeerMessage
unchoked = record { msg_id = MsgId.unchoke; payload = [] }

abbrev calls : List Call
calls = handshake_sent ∷ handshake_received ∷ interested ∷ message unchoked ∷ choke ∷ []

calls_ready : is_ready_for_request (run new calls) ≡ true
unfolding is_ready_for_request run apply new
calls_ready = refl

ready_needs_example :
    (Memᴰ established calls ⊎ (Memᴰ handshake_sent calls × Memᴰ handshake_received calls))
    × (last_of am_interested_of false calls ≡ true)
    × (last_of peer_choking_of true calls ≡ false)
ready_needs_example = ready_needs calls calls_ready

abbrev asked : PeerWireProtocol
asked = (handle_message new (Parse.new MsgId.interested [])).0

interested-request_refused_example :
    ((handle_message new (Parse.new MsgId.interested [])).1
      ≡ ok (some (Parse.new MsgId.unchoke [])))
    × ((handle_message asked (Parse.new MsgId.request (0 ∷ []))).1
        ≡ err (QvodError.protocol (Message.text "requested while choked")))
    × ((handle_message (start_unchoke asked) (Parse.new MsgId.request (0 ∷ []))).1 ≡ ok none)
interested-request_refused_example = interested-request_refused new [] (0 ∷ []) (unfold new in refl)
