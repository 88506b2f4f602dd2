-- ===== src/Dht/Token/Tests.antt =====
-- The token theorems at concrete inputs, with a hash that keeps the text and an empty address text.
use qvod_player.Prelude.{ℕ, ◌*◌, ◌^◌, ◌≡◌, true, List, [], ◌∷◌, All, Bytes, arith}
use qvod_player.Core.Peer.{SocketAddr}
use qvod_player.Dht.Token.Defs.{TokenManager, generate_token, verify_token}
use qvod_player.Dht.Token.Lifetime.{run, Within, verify_token-generate_token}

abbrev keep : Bytes → Bytes
keep s = s

abbrev no_text : Bytes → Bytes
no_text s = []

abbrev sender : SocketAddr
sender = record { ip = 10 ∷ 0 ∷ 0 ∷ 1 ∷ []; port = 21 }

abbrev tokens : TokenManager
tokens = record { secret_a = 1 ∷ 2 ∷ []; secret_b = 3 ∷ 4 ∷ []; last_rotation = 0 }

-- Two checks, of which the first rotates.
abbrev checks : List (Bytes × ℕ)
checks = (5 ∷ [], 700 * 10 ^ 9) ∷ (6 ∷ [], 1100 * 10 ^ 9) ∷ []

checks-Within : All (Within (590 * 10 ^ 9)) checks
checks-Within = omega arith

verify_token-generate_token_example :
    verify_token keep no_text (run tokens checks) sender (generate_token keep no_text tokens sender)
    ≡ true
verify_token-generate_token_example =
    verify_token-generate_token keep no_text tokens sender (590 * 10 ^ 9) checks checks-Within
