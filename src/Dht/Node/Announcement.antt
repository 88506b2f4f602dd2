-- ===== src/Dht/Node/Announcement.antt =====
-- What another node makes of an announcement.
use qvod_player.Prelude.{ℕ, ◌≡◌, ◌≢◌, ◌↔◌, inl, inr, Bytes, Bool-cases}
use qvod_player.Core.Error.{Message, QvodError, err}
use qvod_player.Core.Peer.{SocketAddr}
use qvod_player.Dht.Token.Defs.{generate_with_secret, generate_token, verify_token}
use qvod_player.Dht.Token.Lifetime.{verify_token_iff}
use qvod_player.Dht.Rpc.Defs.{MessageType, header_of}
use qvod_player.Dht.Krpc.Defs.{handle_message}
use qvod_player.Dht.Krpc.Announce.{handle_message-announce}
use qvod_player.Dht.Node.Defs.{DhtNode, announcement}

module _ (sha1 : Bytes → Bytes) (ip_text : Bytes → Bytes) where
  -- The announcement that `s` makes for the address of `t` is refused by `t` unless the token that `s`
  -- makes for that address by its own secret is one that `t` makes for the address of `s` by one of the
  -- two secrets of `t`.
  pub announcement-handle_message :
      (s t : DhtNode) (info_hash : Bytes) (port : ℕ) (at_s at_t : SocketAddr)
      → let token = generate_with_secret sha1 ip_text at_t s.krpc.token_manager.secret_a in
        let m = t.krpc.token_manager in
        ((handle_message sha1 ip_text t.krpc
            (announcement sha1 ip_text s info_hash port at_t)
            at_s).1
          ≡ err (QvodError.protocol (Message.text "invalid announce token")))
        ↔ ((token ≢ generate_with_secret sha1 ip_text at_s m.secret_a)
            × (token ≢ generate_with_secret sha1 ip_text at_s m.secret_b))
  unfolding announcement generate_token
  announcement-handle_message s t info_hash port at_s at_t =
      let m = t.krpc.token_manager in
      let token = generate_with_secret sha1 ip_text at_t s.krpc.token_manager.secret_a in
      let (to, from) = verify_token_iff sha1 ip_text m at_s token in
      let (refused, accepted) =
        handle_message-announce sha1 ip_text t.krpc (header_of MessageType.announce 0) s.local_id
          info_hash token info_hash port at_s in
      elim (Bool-cases (verify_token sha1 ip_text m at_s token)) [
        | inl p ↦ (
          (λ e. let (a, _, _) = accepted p in cc (a, e)),
          λ (na, nb). absurd (elim (to p) [ inl e ↦ na e | inr e ↦ nb e ]),
        )
        | inr p ↦
            ((λ _. ((λ e. cc (from (inl e), p)), λ e. cc (from (inr e), p))), λ _. (refused p).1)
      ]
