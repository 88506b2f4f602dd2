-- ===== src/Transport/Handshake/Tests.antt =====
-- The handshake theorem at a concrete input.
use qvod_player.Prelude.{◌≡◌, refl, [], ◌∷◌, ◌++◌, replicate}
use qvod_player.Core.Error.{ok}
use qvod_player.Transport.Handshake.Defs.{Handshake, new, encode, decode, has_flag}
use qvod_player.Transport.Handshake.RoundTrip.{IsSized, handshake-decode-encode}

abbrev greeting : Handshake
greeting = new (replicate 20 5) (replicate 20 9)

greeting-IsSized : IsSized greeting
unfolding new
greeting-IsSized = record { reserved_sized = refl; info_hash_sized = refl; peer_id_sized = refl }

handshake-decode-encode_example :
    decode (encode greeting ++ (1 ∷ 2 ∷ []))
    ≡ ok (record greeting { supports_metadata = has_flag greeting.reserved })
handshake-decode-encode_example = handshake-decode-encode greeting (1 ∷ 2 ∷ []) greeting-IsSized
