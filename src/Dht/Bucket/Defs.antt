-- ===== src/Dht/Bucket/Defs.antt =====
-- crates/qvs-dht/src/routing.rs: `KBucket`, and crates/qvs-core/src/types.rs: `KBucketEntry`. An
-- `Instant` and a `Duration` are numbers of nanoseconds; the time of a call is an argument.
use Prim.Native.Nat.{bit_and}
use qvod_player.Prelude.{
  ℕ, zero, suc, ◌-◌, ◌*◌, ◌/◌, ◌%◌, ◌^◌, Bool, not, Option, none, some, List, [], ◌∷◌, ◌++◌, ltb,
  leb, ◌==◌, if◌then◌else◌, length, get_or, take, drop,
}
use qvod_player.Core.Peer.{SocketAddr}
use qvod_player.Core.NodeId.{NodeId, xor_distance, same_id, not_greater}

pub record KBucketEntry : Type 0 where
  pub node_id : NodeId
  pub addr : SocketAddr
  pub last_seen : ℕ
  pub latency : ℕ
  pub is_firewalled : Bool

abbrev pub Entries : Type 0
Entries = List KBucketEntry

pub record KBucket : Type 0 where
  pub entries : Entries
  pub last_refreshed : ℕ

pub data InsertResult : Type 0 where
  added existing replaced full : InsertResult

-- `K`, `REFRESH_INTERVAL` and `STALE_INTERVAL`
abbrev pub k : ℕ
k = 8

abbrev pub refresh_interval : ℕ
refresh_interval = 900 * 10 ^ 9

abbrev pub stale_interval : ℕ
stale_interval = 900 * 10 ^ 9

unfoldable pub new : ℕ → KBucket
new now = record { entries = []; last_refreshed = now }

unfoldable pub is_full : KBucket → Bool
is_full b = leb k (length b.entries)

-- `iter().position(p)`
unfoldable pub position : (KBucketEntry → Bool) → Entries → Option ℕ
position p [] = none
position p (e ∷ es) =
    if p e then some 0 else elim (position p es) [ none ↦ none | some i ↦ some (suc i) ]

-- The entry at a position with a new time and latency.
unfoldable pub touch : Entries → ℕ → ℕ → ℕ → Entries
touch [] pos now latency = []
touch (e ∷ es) zero now latency = record e { last_seen = now; latency = latency } ∷ es
touch (e ∷ es) (suc pos) now latency = e ∷ touch es pos now latency

unfoldable pub rotate_left : ℕ → Entries → Entries
rotate_left n es = drop n es ++ take n es

unfoldable pub remove_at : ℕ → Entries → Entries
remove_at n [] = []
remove_at zero (e ∷ es) = es
remove_at (suc n) (e ∷ es) = e ∷ remove_at n es

unfoldable pub is_stale : ℕ → KBucketEntry → Bool
is_stale now e = ltb stale_interval (now - e.last_seen)

-- The three branches of `insert`, behind the two searches.
unfoldable pub insert_fresh : KBucket → KBucketEntry → Option ℕ → KBucket × InsertResult
insert_fresh b e (some pos) = (record b { entries = remove_at pos b.entries ++ e ∷ [] }, replaced)
insert_fresh b e none = (b, full)

unfoldable pub insert_at : KBucket → KBucketEntry → ℕ → Option ℕ → KBucket × InsertResult
unfolding is_full insert_fresh rotate_left
insert_at b e now (some pos) =
    (record b { entries = rotate_left pos (touch b.entries pos now e.latency) }, existing)
insert_at b e now none =
    if not (is_full b)
    then (record b { entries = b.entries ++ e ∷ [] }, added)
    else insert_fresh b e (position (is_stale now) b.entries)

unfoldable pub insert : KBucket → KBucketEntry → ℕ → KBucket × InsertResult
unfolding insert_at
insert b e now = insert_at b e now (position (λ x. same_id x.node_id e.node_id) b.entries)

-- `retain(|e| e.node_id != *node_id)`
unfoldable pub without : NodeId → Entries → Entries
without id [] = []
without id (e ∷ es) = if same_id e.node_id id then without id es else e ∷ without id es

unfoldable pub remove : KBucket → NodeId → KBucket
unfolding without
remove b id = record b { entries = without id b.entries }

-- A stable sort by distance from the target.
unfoldable pub place : NodeId → KBucketEntry → Entries → Entries
place target e [] = e ∷ []
place target e (x ∷ xs) =
    if not_greater (xor_distance e.node_id target) (xor_distance x.node_id target)
    then e ∷ x ∷ xs
    else x ∷ place target e xs

unfoldable pub sort_by_distance : NodeId → Entries → Entries
unfolding place
sort_by_distance target [] = []
sort_by_distance target (e ∷ es) = place target e (sort_by_distance target es)

unfoldable pub find_closest : KBucket → NodeId → ℕ → Entries
unfolding sort_by_distance
find_closest b target count = take count (sort_by_distance target b.entries)

unfoldable pub needs_refresh : KBucket → ℕ → Bool
needs_refresh b now = ltb refresh_interval (now - b.last_refreshed)

unfoldable pub mark_refreshed : KBucket → ℕ → KBucket
mark_refreshed b now = record b { last_refreshed = now }

-- The bit of the distance that `split` tests.
unfoldable pub has_split_bit : NodeId → ℕ → KBucketEntry → Bool
has_split_bit local_id idx e =
    not (bit_and (get_or (xor_distance local_id e.node_id) (idx / 8) 0) (2 ^ (7 - idx % 8)) == 0)

-- The loop that empties the bucket, from the front, into the two new ones.
unfoldable pub split_loop : NodeId → ℕ → Entries → Entries → Entries → Entries × Entries
unfolding has_split_bit
split_loop local_id idx [] left right = (left, right)
split_loop local_id idx (e ∷ es) left right =
    let bit = has_split_bit local_id idx e in
    split_loop local_id idx es (if bit then left else left ++ e ∷ [])
      (if bit then right ++ e ∷ [] else right)

unfoldable pub split : KBucket → NodeId → ℕ → ℕ → KBucket × KBucket
unfolding split_loop new
split b local_id idx now =
    let (left, right) = split_loop local_id idx b.entries [] [] in
    (record (new now) { entries = left }, record (new now) { entries = right })
