-- ===== src/Dht/Table/Defs.antt =====
-- crates/qvs-dht/src/routing.rs: `RoutingTable`, its record and its methods.
use qvod_player.Prelude.{
  ℕ, zero, suc, ◌+◌, ◌-◌, ◌*◌, Bool, true, false, ◌&&◌, not, Option, none, some, List, [], ◌∷◌,
  ◌++◌, ltb, leb, ◌==◌, if◌then◌else◌, length, get_or, set, take, drop, replicate, min, Bytes,
}
use qvod_player.Core.NodeId.{NodeId, xor_distance, leading_zeros8}
use qvod_player.Dht.Bucket.Defs as Bucket
use qvod_player.Dht.Bucket.Defs.{
  KBucket, KBucketEntry, Entries, InsertResult, full, has_split_bit, sort_by_distance, split,
  needs_refresh, mark_refreshed,
}

pub record RoutingTable : Type 0 where
  pub local_id : NodeId
  pub buckets : List KBucket

unfoldable pub new : NodeId → ℕ → RoutingTable
unfolding Bucket.new
new local_id now = record { local_id = local_id; buckets = replicate 160 (Bucket.new now) }

-- `iter().enumerate().find(b != 0).map(i * 8 + b.leading_zeros())`, from position `i`.
unfoldable pub first_bit : ℕ → Bytes → Option ℕ
first_bit i [] = none
first_bit i (b ∷ bs) = if b == 0 then first_bit (suc i) bs else some (i * 8 + leading_zeros8 b)

abbrev unwrap_or : Option ℕ → ℕ → ℕ
unwrap_or none d = d
unwrap_or (some x) d = x

unfoldable pub bucket_index : RoutingTable → NodeId → ℕ
unfolding first_bit
bucket_index t id =
    let leading = unwrap_or (first_bit 0 (xor_distance t.local_id id)) (160 * 8) in
    min (1280 - 1 - leading) 159

-- `self.buckets[i]`, where the code has `i` in range.
abbrev pub bucket_at : List KBucket → ℕ → KBucket
bucket_at bs i = get_or bs i (record { entries = []; last_refreshed = 0 })

unfoldable pub can_split : RoutingTable → ℕ → Bool
can_split t idx = ltb idx (length t.buckets) && idx == bucket_index t t.local_id

unfoldable pub split_bucket : RoutingTable → ℕ → ℕ → RoutingTable × Bool
split_bucket t idx now =
    if leb (length t.buckets) idx
    then (t, false)
    else let (left, right) = split (bucket_at t.buckets idx) t.local_id idx now in
      (record t { buckets = take idx t.buckets ++ left ∷ right ∷ drop (idx + 1) t.buckets }, true)

abbrev put : RoutingTable → ℕ → KBucket → RoutingTable
put t i b = record t { buckets = set t.buckets i b }

-- The second insertion, into the half that the split bit chooses.
unfoldable pub insert_split : RoutingTable → KBucketEntry → ℕ → ℕ → RoutingTable × InsertResult
unfolding split_bucket
insert_split t e now idx =
    let t' = (split_bucket t idx now).0 in
    let new_idx = if has_split_bit t.local_id idx e then idx + 1 else idx in
    let (b, result) = Bucket.insert (bucket_at t'.buckets new_idx) e now in
    (put t' new_idx b, result)

abbrev is_full_result : InsertResult → Bool
is_full_result full = true
is_full_result _ = false

unfoldable pub insert : RoutingTable → KBucketEntry → ℕ → RoutingTable × InsertResult
unfolding insert_split
insert t e now =
    let idx = bucket_index t e.node_id in
    let (b, result) = Bucket.insert (bucket_at t.buckets idx) e now in
    let t' = put t idx b in
    if is_full_result result && can_split t' idx then insert_split t' e now idx else (t', result)

unfoldable pub remove : RoutingTable → NodeId → RoutingTable
remove t id =
    let idx = bucket_index t id in
    if ltb idx (length t.buckets) then put t idx (Bucket.remove (bucket_at t.buckets idx) id) else t

-- The buckets that the search of `find_closest` takes at an offset from its first bucket.
unfoldable pub entries_at : List KBucket → ℕ → ℕ → Entries
entries_at bs idx offset =
    let n = length bs in
    let upper = idx + offset in
    let low =
      if leb offset idx && ltb (idx - offset) n
      then (bucket_at bs (idx - offset)).entries
      else [] in
    let distinct = not (leb offset idx && upper == idx - offset) in
    low ++ (if ltb upper n && distinct then (bucket_at bs upper).entries else [])

-- The loop over the offsets, with the rounds that are left.
unfoldable pub gather : ℕ → List KBucket → ℕ → ℕ → ℕ → Entries → Entries
unfolding entries_at
gather zero bs idx count offset found = found
gather (suc left) bs idx count offset found =
    let found' = found ++ entries_at bs idx offset in
    let more = gather left bs idx count (suc offset) found' in
    if leb count (length found') then found' else more

unfoldable pub find_closest : RoutingTable → NodeId → ℕ → Entries
unfolding gather
find_closest t target count =
    let found = gather (length t.buckets) t.buckets (bucket_index t target) count 0 [] in
    take count (sort_by_distance target found)

-- The positions of the buckets that need a refresh, from position `i`.
unfoldable pub refresh_from : ℕ → ℕ → List KBucket → List ℕ
refresh_from i now [] = []
refresh_from i now (b ∷ bs) =
    if needs_refresh b now then i ∷ refresh_from (suc i) now bs else refresh_from (suc i) now bs

unfoldable pub refresh_list : RoutingTable → ℕ → List ℕ
unfolding refresh_from
refresh_list t now = refresh_from 0 now t.buckets

unfoldable pub mark_bucket : RoutingTable → ℕ → ℕ → RoutingTable
mark_bucket t i now =
    if ltb i (length t.buckets) then put t i (mark_refreshed (bucket_at t.buckets i) now) else t

unfoldable pub sum_lengths : List KBucket → ℕ
sum_lengths [] = 0
sum_lengths (b ∷ bs) = length b.entries + sum_lengths bs

unfoldable pub size : RoutingTable → ℕ
unfolding sum_lengths
size t = sum_lengths t.buckets
