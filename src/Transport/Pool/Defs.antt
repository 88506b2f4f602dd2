-- ===== src/Transport/Pool/Defs.antt =====
-- crates/qvs-transport/src/pool.rs: the records and the methods. Addresses, the speeds (`f64`) and the
-- congestion control of congestion.rs are of any type: the pool stores them, and compares speeds. A
-- HashMap is an association list, whose order stands for the order of iteration.
use qvod_player.Prelude.{
  ℕ, ◌-◌, ◌*◌, ◌^◌, min, Bool, true, false, ◌&&◌, not, Option, List, [], ◌∷◌, map, take, length,
  leb, ltb, if◌then◌else◌, Bytes,
}
use qvod_player.Core.Error.{QvodError, Result, ok, err}
use qvod_player.Core.HashMap.{get, contains_key, put, delete}
use qvod_player.Core.Peer.{PeerInfo}

pub record PeerConnection (Addr F : Type 0) : Type 0 where
  pub peer_id : Bytes
  pub addr : Addr
  pub am_choking : Bool
  pub am_interested : Bool
  pub peer_choking : Bool
  pub peer_interested : Bool
  pub bitfield : Bytes
  pub speed_down : F
  pub speed_up : F
  pub rtt : ℕ
  pub connected_at : ℕ
  pub last_active : ℕ
  pub bytes_downloaded : ℕ
  pub bytes_uploaded : ℕ

pub record ConnectionPool (Addr F C : Type 0) : Type 0 where
  pub max_connections : ℕ
  pub connections : List (Bytes × PeerConnection Addr F)
  pub congestion : List (Bytes × C)

pub record PoolStats : Type 0 where
  pub total_peers : ℕ
  pub connected_peers : ℕ
  pub upload_peers : ℕ
  pub download_peers : ℕ
  pub idle_peers : ℕ

abbrev pub max_peer_connections : ℕ
max_peer_connections = 50

-- `PeerConnection::new`, with `0.0` and the two readings of the clock given.
unfoldable pub new_connection : {Addr F : Type 0} → F → Bytes → Addr → ℕ → ℕ → PeerConnection Addr F
new_connection zero_f id addr now later = record {
  peer_id = id;
  addr = addr;
  am_choking = true;
  am_interested = false;
  peer_choking = true;
  peer_interested = false;
  bitfield = [];
  speed_down = zero_f;
  speed_up = zero_f;
  rtt = 100 * 10 ^ 6;
  connected_at = now;
  last_active = later;
  bytes_downloaded = 0;
  bytes_uploaded = 0;
}

unfoldable pub update_activity :
    {Addr F : Type 0} → PeerConnection Addr F → ℕ → PeerConnection Addr F
update_activity c now = record c { last_active = now }

unfoldable pub is_idle : {Addr F : Type 0} → ℕ → PeerConnection Addr F → Bool
is_idle now c = ltb (300 * 10 ^ 9) (now - c.last_active)

unfoldable pub is_interesting : {Addr F : Type 0} → PeerConnection Addr F → Bool
is_interesting c = not c.peer_choking

unfoldable pub new : {Addr F C : Type 0} → ℕ → ConnectionPool Addr F C
new limit = record {
  max_connections = min limit max_peer_connections;
  connections = [];
  congestion = [];
}

-- `add_peer`, with `0.0`, `UdpCongestionControl::new()` and the readings of the clock given.
unfoldable pub add_peer :
    {Addr F C : Type 0}
    → F
    → C
    → ConnectionPool Addr F C
    → PeerInfo Addr
    → ℕ
    → ℕ
    → ConnectionPool Addr F C × Result (Unit {0})
unfolding put new_connection
add_peer zero_f fresh p peer now later =
    if leb p.max_connections (length p.connections)
    then (p, err QvodError.connection_limit_reached)
    else if contains_key p.connections peer.peer_id
    then (p, ok tt)
    else (
      record p {
        connections =
            put p.connections peer.peer_id (new_connection zero_f peer.peer_id peer.addr now later);
        congestion = put p.congestion peer.peer_id fresh;
      },
      ok tt,
    )

unfoldable pub remove_peer :
    {Addr F C : Type 0} → ConnectionPool Addr F C → Bytes → ConnectionPool Addr F C
unfolding delete
remove_peer p id = record p {
  connections = delete p.connections id;
  congestion = delete p.congestion id;
}

unfoldable pub get_peer :
    {Addr F C : Type 0} → ConnectionPool Addr F C → Bytes → Option (PeerConnection Addr F)
unfolding get
get_peer p id = get p.connections id

unfoldable pub get_congestion : {Addr F C : Type 0} → ConnectionPool Addr F C → Bytes → Option C
get_congestion p id = get p.congestion id

abbrev pub keep {ℓ} : {A : Type ℓ} → (A → Bool) → List A → List A
keep f [] = []
keep f (x ∷ xs) = if f x then x ∷ keep f xs else keep f xs

abbrev pub values : {Addr F C : Type 0} → ConnectionPool Addr F C → List (PeerConnection Addr F)
values p = map (λ x. x.1) p.connections

unfoldable pub select_upload_peers :
    {Addr F C : Type 0} → ConnectionPool Addr F C → ℕ → List (PeerConnection Addr F)
select_upload_peers p count =
    take count (keep (λ c. c.peer_interested && not c.am_choking) (values p))

-- The stable sort from fast to slow, where `above a b` answers whether `a` is the greater speed.
unfoldable pub place_speed :
    {Addr F : Type 0}
    → (F → F → Bool)
    → PeerConnection Addr F
    → List (PeerConnection Addr F)
    → List (PeerConnection Addr F)
place_speed above x [] = x ∷ []
place_speed above x (y ∷ ys) =
    if above y.speed_down x.speed_down then y ∷ place_speed above x ys else x ∷ y ∷ ys

unfoldable pub sort_speed :
    {Addr F : Type 0} → (F → F → Bool) → List (PeerConnection Addr F) → List (PeerConnection Addr F)
unfolding place_speed
sort_speed above [] = []
sort_speed above (x ∷ xs) = place_speed above x (sort_speed above xs)

unfoldable pub select_download_peers :
    {Addr F C : Type 0}
    → (F → F → Bool)
    → ConnectionPool Addr F C
    → ℕ
    → List (PeerConnection Addr F)
unfolding sort_speed
select_download_peers above p count =
    take count (sort_speed above (keep (λ c. not c.peer_choking) (values p)))

-- The identifiers that `cleanup_idle` collects, and its loop.
unfoldable pub idle_ids : {Addr F : Type 0} → ℕ → List (Bytes × PeerConnection Addr F) → List Bytes
unfolding is_idle
idle_ids now [] = []
idle_ids now ((id, c) ∷ rest) = if is_idle now c then id ∷ idle_ids now rest else idle_ids now rest

unfoldable pub remove_all :
    {Addr F C : Type 0} → ConnectionPool Addr F C → List Bytes → ConnectionPool Addr F C
remove_all p [] = p
remove_all p (id ∷ ids) = remove_all (remove_peer p id) ids

unfoldable pub cleanup_idle :
    {Addr F C : Type 0} → ConnectionPool Addr F C → ℕ → ConnectionPool Addr F C
unfolding idle_ids remove_all
cleanup_idle p now = remove_all p (idle_ids now p.connections)

unfoldable pub maintain_connections :
    {Addr F C : Type 0} → ConnectionPool Addr F C → ℕ → ConnectionPool Addr F C
maintain_connections p now = record p {
  connections = map (λ x. (x.0, update_activity x.1 now)) p.connections;
}

unfoldable pub stats : {Addr F C : Type 0} → ConnectionPool Addr F C → ℕ → PoolStats
stats p now = record {
  total_peers = length p.connections;
  connected_peers = length (keep (λ c. not (is_idle now c)) (values p));
  upload_peers = length (keep (λ c. not c.am_choking) (values p));
  download_peers = length (keep (λ c. not c.peer_choking) (values p));
  idle_peers = length (keep (is_idle now) (values p));
}
