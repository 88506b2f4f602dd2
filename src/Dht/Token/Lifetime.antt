-- ===== src/Dht/Token/Lifetime.antt =====
-- How long a token is accepted.
use qvod_player.Prelude.{
  ℕ, ◌+◌, ◌-◌, ◌*◌, ◌/◌, ◌^◌, ◌≤◌, ◌<◌, ◌≡◌, ◌↔◌, ◌⊎◌, refl, inl, inr, true, List, [], ◌∷◌, leb,
  All, Bytes, arith, Bool-cases,
}
use qvod_player.Core.NodeId.{same_id_iff}
use qvod_player.Core.Peer.{SocketAddr}
use qvod_player.Dht.Token.Defs.{
  TokenManager, check_rotation, generate_with_secret, generate_token, verify_token,
}

-- The calls of `check_rotation`, each with the secret it would take and its time.
unfoldable pub run : TokenManager → List (Bytes × ℕ) → TokenManager
run m [] = m
run m ((secret, now) ∷ calls) = run (check_rotation m secret now) calls

-- The call is made within 600 seconds from a time on.
abbrev pub Within : ℕ → Bytes × ℕ → Type 0
Within start call = (start ≤ call.1) × (call.1 < start + 600 * 10 ^ 9)

-- The secret is the current one, or the last one, replaced since the time.
Holds : Bytes → ℕ → TokenManager → Type 0
Holds secret start m = (m.secret_a ≡ secret) ⊎ ((m.secret_b ≡ secret) × (start ≤ m.last_rotation))

check_rotation-Holds :
    (secret fresh : Bytes) (start now : ℕ) (m : TokenManager)
    → Within start (fresh, now)
    → Holds secret start m
    → Holds secret start (check_rotation m fresh now)
unfolding check_rotation Holds
check_rotation-Holds secret fresh start now m w h =
    elim (Bool-cases (leb 600 ((now - m.last_rotation) / 10 ^ 9))) [
      | inr p ↦ rw p h
      | inl p ↦ elim h [
        | inl e ↦ rw p (inr (e, w.0))
        | inr (e, le) ↦ absurd (ground (arith, p, w, le))
      ]
    ]

run-Holds :
    (secret : Bytes) (start : ℕ) (m : TokenManager) (calls : List (Bytes × ℕ))
    → All (Within start) calls
    → Holds secret start m
    → Holds secret start (run m calls)
unfolding run
run-Holds secret start m [] w h = h
run-Holds secret start m ((fresh, now) ∷ calls) w h =
    run-Holds secret start (check_rotation m fresh now) calls w.1
      (check_rotation-Holds secret fresh start now m w.0 h)

module _ (sha1 : Bytes → Bytes) (ip_text : Bytes → Bytes) where
  -- A token is accepted if and only if it is the one of the current or of the last secret.
  pub verify_token_iff :
      (m : TokenManager) (addr : SocketAddr) (token : Bytes)
      → (verify_token sha1 ip_text m addr token ≡ true) ↔ (
          (token ≡ generate_with_secret sha1 ip_text addr m.secret_a)
          ⊎ (token ≡ generate_with_secret sha1 ip_text addr m.secret_b))
  unfolding verify_token generate_token
  verify_token_iff m addr token = ground (
    arith,
    same_id_iff (generate_with_secret sha1 ip_text addr m.secret_a) token,
    same_id_iff (generate_with_secret sha1 ip_text addr m.secret_b) token,
  )

  -- A token is accepted from its address, whatever rotations are checked in the 600 seconds from the
  -- time on at which it was generated.
  pub verify_token-generate_token :
      (m : TokenManager) (addr : SocketAddr) (start : ℕ) (calls : List (Bytes × ℕ))
      → All (Within start) calls
      → verify_token sha1 ip_text (run m calls) addr (generate_token sha1 ip_text m addr) ≡ true
  unfolding generate_token Holds
  verify_token-generate_token m addr start calls w =
      let later = run m calls in
      let token = generate_with_secret sha1 ip_text addr m.secret_a in
      elim (run-Holds m.secret_a start m calls w (inl refl)) [
        | inl e ↦ (verify_token_iff later addr token).1 (inl (rw e refl))
        | inr (e, _) ↦ (verify_token_iff later addr token).1 (inr (rw e refl))
      ]
