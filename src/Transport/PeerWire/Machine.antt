-- ===== src/Transport/PeerWire/Machine.antt =====
-- The connection as a step relation, over every method that changes it.
use qvod_player.Prelude.{ℕ, ◌≡◌, refl, Bool, true, false, Option, none, some, List, [], ◌∷◌, arith}
use qvod_player.Transport.Message.MsgId.{MsgId}
use qvod_player.Transport.Message.Parse.{PeerMessage}
use qvod_player.Transport.PeerWire.State.{
  PeerWireProtocol, on_handshake_sent, on_handshake_received, on_established, handle_message,
  start_unchoke, start_choke, send_interested, send_not_interested, record_sent, record_received,
}

-- What the owner of the connection may call.
pub data Call : Type 0 where
  handshake_sent handshake_received established : Call
  message : PeerMessage → Call
  unchoke choke interested not_interested : Call
  sent received : ℕ → Call

unfoldable pub apply : Call → PeerWireProtocol → PeerWireProtocol
unfolding on_handshake_sent on_handshake_received on_established handle_message start_unchoke
    start_choke send_interested send_not_interested record_sent record_received
apply handshake_sent s = on_handshake_sent s
apply handshake_received s = on_handshake_received s
apply established s = on_established s
apply (message m) s = (handle_message s m).0
apply unchoke s = start_unchoke s
apply choke s = start_choke s
apply interested s = send_interested s
apply not_interested s = send_not_interested s
apply (sent n) s = record_sent s n
apply (received n) s = record_received s n

unfoldable pub run : PeerWireProtocol → List Call → PeerWireProtocol
run s [] = s
run s (c ∷ cs) = run (apply c s) cs

-- What a message says of the peer's two flags, and nothing where it does not concern the flag.
abbrev pub choke_of_id : MsgId → Option Bool
choke_of_id MsgId.choke = some true
choke_of_id MsgId.unchoke = some false
choke_of_id _ = none

abbrev pub interest_of_id : MsgId → Option Bool
interest_of_id MsgId.interested = some true
interest_of_id MsgId.not_interested = some false
interest_of_id _ = none

abbrev pub peer_choking_of : Call → Option Bool
peer_choking_of (message m) = choke_of_id m.msg_id
peer_choking_of _ = none

abbrev pub peer_interested_of : Call → Option Bool
peer_interested_of (message m) = interest_of_id m.msg_id
peer_interested_of _ = none

abbrev pub am_choking_of : Call → Option Bool
am_choking_of unchoke = some false
am_choking_of choke = some true
am_choking_of _ = none

abbrev pub am_interested_of : Call → Option Bool
am_interested_of interested = some true
am_interested_of not_interested = some false
am_interested_of _ = none

abbrev pub updated : Option Bool → Bool → Bool
updated none b = b
updated (some v) b = v

-- The flag after a sequence of calls: what the last call that concerns it says.
abbrev pub last_of : (Call → Option Bool) → Bool → List Call → Bool
last_of f b [] = b
last_of f b (c ∷ cs) = last_of f (updated (f c) b) cs

apply-peer_choking :
    (c : Call) (s : PeerWireProtocol)
    → (apply c s).peer_choking ≡ updated (peer_choking_of c) s.peer_choking
unfolding apply
apply-peer_choking c s = ground arith

apply-peer_interested :
    (c : Call) (s : PeerWireProtocol)
    → (apply c s).peer_interested ≡ updated (peer_interested_of c) s.peer_interested
unfolding apply
apply-peer_interested c s = ground arith

apply-am_choking :
    (c : Call) (s : PeerWireProtocol)
    → (apply c s).am_choking ≡ updated (am_choking_of c) s.am_choking
unfolding apply
apply-am_choking c s = ground arith

apply-am_interested :
    (c : Call) (s : PeerWireProtocol)
    → (apply c s).am_interested ≡ updated (am_interested_of c) s.am_interested
unfolding apply
apply-am_interested c s = ground arith

-- Each of the four flags is what the last call that concerns it says, whatever else was called
-- in between.
pub run_flags :
    (s : PeerWireProtocol) (cs : List Call)
    → ((run s cs).am_choking ≡ last_of am_choking_of s.am_choking cs)
      × ((run s cs).am_interested ≡ last_of am_interested_of s.am_interested cs)
      × ((run s cs).peer_choking ≡ last_of peer_choking_of s.peer_choking cs)
      × ((run s cs).peer_interested ≡ last_of peer_interested_of s.peer_interested cs)
unfolding run
run_flags s [] = (refl, refl, refl, refl)
run_flags s (c ∷ cs) =
    let (a, b, d, e) = run_flags (apply c s) cs in
    (
      rw (← apply-am_choking c s) a,
      rw (← apply-am_interested c s) b,
      rw (← apply-peer_choking c s) d,
      rw (← apply-peer_interested c s) e,
    )
