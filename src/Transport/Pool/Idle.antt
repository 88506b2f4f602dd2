-- ===== src/Transport/Pool/Idle.antt =====
-- What `cleanup_idle` leaves.
use qvod_player.Prelude.{
  ℕ, ◌≡◌, ◌∙◌, refl, inl, inr, false, List, [], ◌∷◌, if◌then◌else◌, Bytes, arith, Bool-cases,
  Option, none, some,
}
use qvod_player.Core.NodeId.{same_id, same_id_iff}
use qvod_player.Core.HashMap.{get, delete}
use qvod_player.Transport.Pool.Defs.{
  PeerConnection, ConnectionPool, get_peer, is_idle, idle_ids, remove_peer, remove_all,
  cleanup_idle,
}
use qvod_player.Transport.Pool.Keys.{keys, has_id, Distinct, same_id_flip}

get-delete {ℓ} :
    {V : Type ℓ} (m : List (Bytes × V)) (id j : Bytes)
    → get (delete m id) j ≡ (if same_id id j then none else get m j)
unfolding get delete
get-delete [] id j = ground arith
get-delete ((i, v) ∷ rest) id j = elim (Bool-cases (same_id i id)) [
  | inl p ↦
      let same : i ≡ id = (same_id_iff i id).0 p in
      rw (p, get-delete rest id j, same) (ground arith)
  | inr p ↦ elim (Bool-cases (same_id i j)) [
    | inl q ↦
        let same : i ≡ j = (same_id_iff i j).0 q in rw (p, q, ← same, same_id_flip i id p) refl
    | inr q ↦ rw (p, q) (get-delete rest id j)
  ]
]

get-remove_all :
    {Addr F C : Type 0} (p : ConnectionPool Addr F C) (ids : List Bytes) (j : Bytes)
    → get (remove_all p ids).connections j ≡ (if has_id ids j then none else get p.connections j)
unfolding remove_all remove_peer has_id
get-remove_all p [] j = refl
get-remove_all p (id ∷ ids) j =
    get-remove_all (remove_peer p id) ids j ∙ rw (get-delete p.connections id j) (ground arith)

-- A connection that is found unless it is idle.
abbrev pub unless_idle :
    {Addr F : Type 0} → ℕ → Option (PeerConnection Addr F) → Option (PeerConnection Addr F)
unless_idle now none = none
unless_idle now (some c) = if is_idle now c then none else some c

absent-idle_ids :
    {Addr F : Type 0} (now : ℕ) (m : List (Bytes × PeerConnection Addr F)) (j : Bytes)
    → has_id (keys m) j ≡ false
    → (has_id (idle_ids now m) j ≡ false) × (get m j ≡ none)
unfolding has_id keys idle_ids get
absent-idle_ids now [] j h = (refl, refl)
absent-idle_ids now ((i, c) ∷ rest) j h = elim (Bool-cases (same_id i j)) [
  | inl p ↦ cc (rw p at h)
  | inr p ↦
      let (a, b) = absent-idle_ids now rest j (rw p at h) in
      elim (Bool-cases (is_idle now c)) [ inl q ↦ rw (q, p) (a, b) | inr q ↦ rw (q, p) (a, b) ]
]

get-idle_ids :
    {Addr F : Type 0} (now : ℕ) (m : List (Bytes × PeerConnection Addr F)) (j : Bytes)
    → Distinct (keys m)
    → (if has_id (idle_ids now m) j then none else get m j) ≡ unless_idle now (get m j)
unfolding has_id keys idle_ids get
get-idle_ids now [] j d = refl
get-idle_ids now ((i, c) ∷ rest) j d = elim (Bool-cases (same_id i j)) [
  | inl p ↦
      let same : i ≡ j = (same_id_iff i j).0 p in
      let (a, _) = absent-idle_ids now rest j (rw (← same) d.0) in
      elim (Bool-cases (is_idle now c)) [ inl q ↦ rw (q, p, q) refl | inr q ↦ rw (q, p, a, q) refl ]
  | inr p ↦ elim (Bool-cases (is_idle now c)) [
    | inl q ↦ rw (q, p) (get-idle_ids now rest j d.1)
    | inr q ↦ rw (q, p) (get-idle_ids now rest j d.1)
  ]
]

-- In a pool with one connection for each identifier, the cleanup removes the idle connections and leaves
-- the others as they are.
pub get_peer-cleanup_idle :
    {Addr F C : Type 0} (p : ConnectionPool Addr F C) (now : ℕ) (id : Bytes)
    → Distinct (keys p.connections)
    → get_peer (cleanup_idle p now) id ≡ unless_idle now (get_peer p id)
unfolding get_peer cleanup_idle
get_peer-cleanup_idle p now id d =
    get-remove_all p (idle_ids now p.connections) id ∙ get-idle_ids now p.connections id d
