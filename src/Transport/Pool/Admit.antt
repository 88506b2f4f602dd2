-- ===== src/Transport/Pool/Admit.antt =====
-- Which peers a pool admits.
use qvod_player.Prelude.{
  ℕ, ◌≤◌, ◌≡◌, ◌↔◌, refl, inl, inr, true, ◌||◌, List, [], ◌∷◌, length, Bytes, arith, leb,
  Bool-cases,
}
use qvod_player.Core.Error.{QvodError, ok, err}
use qvod_player.Core.NodeId.{same_id, same_id_iff}
use qvod_player.Core.HashMap.{contains_key, put}
use qvod_player.Core.Peer.{PeerInfo}
use qvod_player.Transport.Pool.Defs.{ConnectionPool, new_connection, add_peer}

same_id_self : (id : Bytes) → same_id id id ≡ true
same_id_self id = (same_id_iff id id).1 refl

contains_key-put {ℓ} :
    {V : Type ℓ} (m : List (Bytes × V)) (id j : Bytes) (v : V)
    → contains_key (put m id v) j ≡ (same_id id j || contains_key m j)
unfolding contains_key put
contains_key-put [] id j v = refl
contains_key-put ((i, w) ∷ rest) id j v = elim (Bool-cases (same_id i id)) [
  | inl p ↦ let same : i ≡ id = (same_id_iff i id).0 p in rw (p, same) (ground arith)
  | inr p ↦ rw (p, contains_key-put rest id j v) (ground arith)
]

contains_key-put_self {ℓ} :
    {V : Type ℓ} (m : List (Bytes × V)) (id : Bytes) (v : V) → contains_key (put m id v) id ≡ true
contains_key-put_self m id v = rw (contains_key-put m id id v, same_id_self id) refl

contains_key-put_kept {ℓ} :
    {V : Type ℓ} (m : List (Bytes × V)) (id j : Bytes) (v : V)
    → contains_key m j ≡ true
    → contains_key (put m id v) j ≡ true
contains_key-put_kept m id j v h = rw (contains_key-put m id j v, h) (ground arith)

-- A peer is refused exactly when the pool is full; a peer that is not refused has a connection
-- afterwards, and so have all that had one.
pub add_peer-contains_key :
    {Addr F C : Type 0} (zero_f : F) (fresh : C) (p : ConnectionPool Addr F C)
    (peer : PeerInfo Addr) (now later : ℕ)
    → let (q, answer) = add_peer zero_f fresh p peer now later in
      ((answer ≡ err QvodError.connection_limit_reached)
        ↔ (p.max_connections ≤ length p.connections))
      × (answer ≡ ok tt → contains_key q.connections peer.peer_id ≡ true)
      × ((id : Bytes) → contains_key p.connections id ≡ true → contains_key q.connections id ≡ true)
unfolding add_peer
add_peer-contains_key zero_f fresh p peer now later =
    let c = new_connection zero_f peer.peer_id peer.addr now later in
    elim (Bool-cases (leb p.max_connections (length p.connections))) [
      | inl q ↦ rw q (((λ _. ground (arith, q)), λ _. refl), (λ e. cc e), λ id h. h)
      | inr q ↦ elim (Bool-cases (contains_key p.connections peer.peer_id)) [
        | inl r ↦
            rw (q, r) (((λ e. cc e), λ le. absurd (ground (arith, q, le))), (λ e. r), λ id h. h)
        | inr r ↦
            rw (q, r)
              (
                ((λ e. cc e), λ le. absurd (ground (arith, q, le))),
                (λ e. contains_key-put_self p.connections peer.peer_id c),
                λ id h. contains_key-put_kept p.connections peer.peer_id id c h,
              )
      ]
    ]
