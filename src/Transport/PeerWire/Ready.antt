-- ===== src/Transport/PeerWire/Ready.antt =====
-- When a connection may send a request, told from the calls that were made.
use mathlib.Core.List.{Memᴰ}
use qvod_player.Prelude.{◌≡◌, ◌∙◌, sym, ◌⊎◌, inl, inr, true, false, List, [], ◌∷◌, arith}
use qvod_player.Transport.PeerWire.State.{
  ConnectionState, PeerWireProtocol, new, is_ready_for_request,
}
use qvod_player.Transport.PeerWire.Machine.{
  Call, handshake_sent, handshake_received, established, apply, run, run_flags, last_of,
  am_interested_of, peer_choking_of,
}

sent_step :
    (c : Call) (s : PeerWireProtocol)
    → (apply c s).state ≡ ConnectionState.handshake_sent
    → (s.state ≡ ConnectionState.handshake_sent) ⊎ (c ≡ handshake_sent)
unfolding apply
sent_step c s h = ground arith

established_step :
    (c : Call) (s : PeerWireProtocol)
    → (apply c s).state ≡ ConnectionState.established
    → (s.state ≡ ConnectionState.established)
      ⊎ ((c ≡ established)
          ⊎ ((s.state ≡ ConnectionState.handshake_sent) × (c ≡ handshake_received)))
unfolding apply
established_step c s h = ground arith

-- A handshake was sent before, or is sent by one of the calls.
abbrev pub Sent : PeerWireProtocol → List Call → Type 0
Sent s cs = (s.state ≡ ConnectionState.handshake_sent) ⊎ Memᴰ handshake_sent cs

Sent-cons :
    (c : Call) (s : PeerWireProtocol) (cs : List Call) → Sent (apply c s) cs → Sent s (c ∷ cs)
Sent-cons c s cs (inl e) = elim (sent_step c s e) [
  | inl old ↦ inl old
  | inr now ↦ inr (Memᴰ.head (sym now))
]
Sent-cons c s cs (inr m) = inr (Memᴰ.tail m)

established_needs :
    (s : PeerWireProtocol) (cs : List Call)
    → (run s cs).state ≡ ConnectionState.established
    → (s.state ≡ ConnectionState.established)
      ⊎ (Memᴰ established cs ⊎ (Sent s cs × Memᴰ handshake_received cs))
unfolding run
established_needs s [] h = inl h
established_needs s (c ∷ cs) h = elim (established_needs (apply c s) cs h) [
  | inl e ↦ elim (established_step c s e) [
    | inl old ↦ inl old
    | inr (inl now) ↦ inr (inl (Memᴰ.head (sym now)))
    | inr (inr (old, now)) ↦ inr (inr (inl old, Memᴰ.head (sym now)))
  ]
  | inr (inl m) ↦ inr (inl (Memᴰ.tail m))
  | inr (inr (w, m)) ↦ inr (inr (Sent-cons c s cs w, Memᴰ.tail m))
]

ready_state :
    (s : PeerWireProtocol)
    → is_ready_for_request s ≡ true
    → (s.state ≡ ConnectionState.established) × (s.am_interested ≡ true) × (s.peer_choking ≡ false)
unfolding is_ready_for_request
ready_state s h = ground arith

-- A connection that started new, was changed by calls of its methods alone (its fields are public, and a
-- write to a field is no call), and may send requests has been established by its owner or by both
-- handshake calls; the last interest call was `interested`, and the last choke message was an unchoke.
pub ready_needs :
    (cs : List Call)
    → is_ready_for_request (run new cs) ≡ true
    → (Memᴰ established cs ⊎ (Memᴰ handshake_sent cs × Memᴰ handshake_received cs))
      × (last_of am_interested_of false cs ≡ true)
      × (last_of peer_choking_of true cs ≡ false)
unfolding new
ready_needs cs h =
    let (e, i, c) = ready_state (run new cs) h in
    let (_, fi, fc, _) = run_flags new cs in
    (
      elim (established_needs new cs e) [
        | inl old ↦ cc
        | inr (inl m) ↦ inl m
        | inr (inr (inl old, m)) ↦ cc
        | inr (inr (inr w, m)) ↦ inr (w, m)
      ],
      sym fi ∙ i,
      sym fc ∙ c,
    )
