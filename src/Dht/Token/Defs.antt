-- ===== src/Dht/Token/Defs.antt =====
-- crates/qvs-dht/src/token.rs. The hash function of the crate `sha1`, and the text of an IP address,
-- are parameters; new secrets and the time of a call are arguments. Times are in nanoseconds.
use qvod_player.Prelude.{
  ℕ, ◌-◌, ◌/◌, ◌^◌, Bool, ◌||◌, leb, ◌∷◌, ◌++◌, if◌then◌else◌, take, Bytes, print,
}
use qvod_player.Core.NodeId.{same_id}
use qvod_player.Core.Peer.{SocketAddr}

pub record TokenManager : Type 0 where
  pub secret_a : Bytes
  pub secret_b : Bytes
  pub last_rotation : ℕ

unfoldable pub new : Bytes → Bytes → ℕ → TokenManager
new a b now = record { secret_a = a; secret_b = b; last_rotation = now }

unfoldable pub rotate_secret : TokenManager → Bytes → ℕ → TokenManager
rotate_secret m secret now = record {
  secret_a = secret;
  secret_b = m.secret_a;
  last_rotation = now;
}

unfoldable pub check_rotation : TokenManager → Bytes → ℕ → TokenManager
unfolding rotate_secret
check_rotation m secret now =
    if leb 600 ((now - m.last_rotation) / 10 ^ 9) then rotate_secret m secret now else m

module _ (sha1 : Bytes → Bytes) (ip_text : Bytes → Bytes) where
  unfoldable pub generate_with_secret : SocketAddr → Bytes → Bytes
  generate_with_secret addr secret =
      take 4 (sha1 (ip_text addr.ip ++ b':' ∷ (print addr.port ++ b':' ∷ secret)))

  unfoldable pub generate_token : TokenManager → SocketAddr → Bytes
  generate_token m addr = generate_with_secret addr m.secret_a

  unfoldable pub verify_token : TokenManager → SocketAddr → Bytes → Bool
  verify_token m addr token =
      same_id (generate_token m addr) token || same_id (generate_with_secret addr m.secret_b) token
