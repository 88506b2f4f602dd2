-- ===== src/Dht/Table/Capacity.antt =====
-- How many nodes a routing table can hold.
use qvod_player.Prelude.{
  ℕ, zero, suc, ◌+◌, ◌≤◌, ◌<◌, ◌≡◌, ◌≢◌, ◌⊎◌, inl, inr, ◌∙◌, refl, sym, true, false, List, [], ◌∷◌,
  arith, ltb, length, set, Bool-cases, All, length-set, length-replicate,
}
use mathlib.Core.Path.{subst}
use qvod_player.Core.NodeId.{NodeId, IsNodeId, same_id, same_id_iff}
use qvod_player.Dht.Bucket.Defs as Bucket
use qvod_player.Dht.Bucket.Defs.{
  KBucket, KBucketEntry, Entries, InsertResult, full, k, without, mark_refreshed,
}
use qvod_player.Dht.Bucket.Insert.{insert_length}
use qvod_player.Dht.Table.Defs.{
  RoutingTable, new, bucket_index, bucket_at, can_split, insert, insert_split, split_bucket, remove,
  mark_bucket, size,
}
use qvod_player.Dht.Table.Room.{
  room, Bounded, rooms, sum_lengths-le, Bounded-set, Bounded-at, Bounded-new,
}
use qvod_player.Dht.Table.Own.{OnlyLocal, own_insert, without-le, OnlyLocal-without, own_set}
use qvod_player.Dht.Table.Index.{bucket_index_lem}

-- The calls that change a routing table.
pub data Call : Type 0 where
  inserted : KBucketEntry → ℕ → Call
  removed : NodeId → Call
  refreshed : ℕ → ℕ → Call

unfoldable pub apply : RoutingTable → Call → RoutingTable
apply t (inserted e now) = (insert t e now).0
apply t (removed id) = remove t id
apply t (refreshed i now) = mark_bucket t i now

unfoldable pub run : RoutingTable → List Call → RoutingTable
unfolding apply
run t [] = t
run t (c ∷ cs) = run (apply t c) cs

-- The identifiers in a call have 20 bytes.
abbrev pub HasNodeId : Call → Type 0
HasNodeId (inserted e now) = IsNodeId e.node_id
HasNodeId (removed id) = IsNodeId id
HasNodeId (refreshed i now) = Unit

record IsShaped (t : RoutingTable) : Type 0 where
  local_ok : IsNodeId t.local_id
  sized : length t.buckets ≡ 160
  bounded : Bounded 0 t.buckets
  own : OnlyLocal t.local_id (bucket_at t.buckets 0).entries

-- A bucket is replaced by one that keeps within the room of its place.
put-IsShaped :
    (t : RoutingTable) (i : ℕ) (b : KBucket)
    → IsShaped t
    → length b.entries ≤ room i
    → (i ≡ 0 → OnlyLocal t.local_id b.entries)
    → IsShaped (record t { buckets = set t.buckets i b })
put-IsShaped t i b s h o = record {
  local_ok = s.local_ok;
  sized = length-set t.buckets i b ∙ s.sized;
  bounded = Bounded-set 0 i t.buckets b s.bounded (let e : 0 + i ≡ i = omega arith in rw e h);
  own = own_set t.local_id t.buckets i b s.own o;
}

own_at :
    (t : RoutingTable)
    → IsShaped t
    → (i : ℕ) → i ≡ 0
    → OnlyLocal t.local_id (bucket_at t.buckets i).entries
own_at t s zero z = s.own
own_at t s (suc i) z = absurd (omega arith)

-- An insertion that ends in the first branch.
insert_plain :
    (t : RoutingTable) (e : KBucketEntry) (now i : ℕ)
    → bucket_index t e.node_id ≡ i
    → let out = Bucket.insert (bucket_at t.buckets i) e now in
      let t' = record t { buckets = set t.buckets i out.0 } in
      ((out.1 ≢ full) ⊎ (can_split t' i ≡ false)) → (insert t e now).0 ≡ t'
unfolding insert
insert_plain t e now i p (inl h) = ground (arith, p)
insert_plain t e now i p (inr h) = ground (arith, p)

own-can_split : (t : RoutingTable) → IsNodeId t.local_id → can_split t 159 ≡ false
unfolding can_split
own-can_split t h =
    ground (arith, bucket_index_lem t t.local_id h h, (same_id_iff t.local_id t.local_id).1 refl)

bucket_grows :
    (b : KBucket) (e : KBucketEntry) (now : ℕ)
    → length b.entries ≤ k
    → length (Bucket.insert b e now).0.entries ≤ k
bucket_grows b e now h = ground (arith, insert_length b e now)

same_symm : (x y : NodeId) → same_id x y ≡ true → same_id y x ≡ true
same_symm x y h = (same_id_iff y x).1 (sym ((same_id_iff x y).0 h))

insert-IsShaped :
    (t : RoutingTable) (e : KBucketEntry) (now : ℕ)
    → IsShaped t
    → IsNodeId e.node_id
    → IsShaped (insert t e now).0
unfolding room
insert-IsShaped t e now s he =
    let index = bucket_index_lem t e.node_id s.local_ok he in
    elim (Bool-cases (same_id t.local_id e.node_id)) [
      | inl own ↦
          let (l, o, f) =
            own_insert t.local_id (bucket_at t.buckets 0).entries
              (bucket_at t.buckets 0).last_refreshed e now (Bounded-at 0 0 t.buckets s.bounded)
              s.own (same_symm t.local_id e.node_id own) in
          rw (insert_plain t e now 0 (rw own at index) (inl f))
            (put-IsShaped t 0 (Bucket.insert (bucket_at t.buckets 0) e now).0 s l (λ _. o))
      | inr other ↦
          let out = (Bucket.insert (bucket_at t.buckets 159) e now).0 in
          let t' = record t { buckets = set t.buckets 159 out } in
          rw (insert_plain t e now 159 (rw other at index) (inr (own-can_split t' s.local_ok))) (
            put-IsShaped t 159 out s
              (bucket_grows (bucket_at t.buckets 159) e now (Bounded-at 0 159 t.buckets s.bounded))
              (λ z. absurd (omega arith)))
    ]

remove-IsShaped : (t : RoutingTable) (id : NodeId) → IsShaped t → IsShaped (remove t id)
unfolding remove Bucket.remove
remove-IsShaped t id s =
    let idx = bucket_index t id in
    let b = bucket_at t.buckets idx in
    let kept = record b { entries = without id b.entries } in
    let e : 0 + idx ≡ idx = omega arith in
    let room_left = rw e at (Bounded-at 0 idx t.buckets s.bounded) in
    elim (Bool-cases (ltb idx (length t.buckets))) [
      | inl p ↦ rw p (
          put-IsShaped t idx kept s (omega (arith, room_left, without-le id b.entries))
            (λ z. OnlyLocal-without t.local_id id b.entries (own_at t s idx z)))
      | inr p ↦ rw p s
    ]

mark_bucket-IsShaped : (t : RoutingTable) (i now : ℕ) → IsShaped t → IsShaped (mark_bucket t i now)
unfolding mark_bucket mark_refreshed
mark_bucket-IsShaped t i now s =
    let b = bucket_at t.buckets i in
    let e : 0 + i ≡ i = omega arith in
    elim (Bool-cases (ltb i (length t.buckets))) [
      | inl p ↦ rw p (
          put-IsShaped t i (record b { last_refreshed = now }) s
            (rw e at (Bounded-at 0 i t.buckets s.bounded)) (own_at t s i))
      | inr p ↦ rw p s
    ]

new-IsShaped : (local_id : NodeId) (now : ℕ) → IsNodeId local_id → IsShaped (new local_id now)
unfolding new
new-IsShaped local_id now h = record {
  local_ok = h;
  sized = length-replicate 160 (Bucket.new now);
  bounded = Bounded-new 0 160 now;
  own = unfold Bucket.new in tt;
}

run-IsShaped :
    (t : RoutingTable) (cs : List Call) → All HasNodeId cs → IsShaped t → IsShaped (run t cs)
unfolding run
run-IsShaped t [] h s = s
run-IsShaped t (inserted e now ∷ cs) h s =
    run-IsShaped (insert t e now).0 cs h.1 (insert-IsShaped t e now s h.0)
run-IsShaped t (removed id ∷ cs) h s = run-IsShaped (remove t id) cs h.1 (remove-IsShaped t id s)
run-IsShaped t (refreshed i now ∷ cs) h s =
    run-IsShaped (mark_bucket t i now) cs h.1 (mark_bucket-IsShaped t i now s)

-- No call changes the identifier of the table.
local_id_insert :
    (t : RoutingTable) (e : KBucketEntry) (now : ℕ) → (insert t e now).0.local_id ≡ t.local_id
unfolding insert insert_split split_bucket
local_id_insert t e now = ground arith

local_id_run : (t : RoutingTable) (cs : List Call) → (run t cs).local_id ≡ t.local_id
unfolding run
local_id_run t [] = refl
local_id_run t (inserted e now ∷ cs) = local_id_run (insert t e now).0 cs ∙ local_id_insert t e now
local_id_run t (removed id ∷ cs) = local_id_run (remove t id) cs ∙ (unfold remove in ground arith)
local_id_run t (refreshed i now ∷ cs) =
    local_id_run (mark_bucket t i now) cs ∙ (unfold mark_bucket in ground arith)

between :
    (bs : List KBucket) (i : ℕ)
    → 0 < i
    → i < 159
    → Bounded 0 bs
    → length (bucket_at bs i).entries ≡ 0
unfolding room
between bs i lo hi h =
    let e : 0 + i ≡ i = omega arith in
    let small : length (bucket_at bs i).entries ≤ room i = rw e at (Bounded-at 0 i bs h) in
    ground (arith, small)

-- Whatever is inserted, removed and refreshed with identifiers of 20 bytes, a routing table that started new
-- has 160 buckets and at most nine entries: at most one in bucket 0, which has the identifier of the node itself,
-- at most eight in bucket 159, and none in the buckets between them.
pub run-size :
    (local_id : NodeId) (now : ℕ) (cs : List Call)
    → IsNodeId local_id
    → All HasNodeId cs
    → let t = run (new local_id now) cs in
      (length t.buckets ≡ 160)
      × (size t ≤ 9)
      × (length (bucket_at t.buckets 0).entries ≤ 1)
      × OnlyLocal local_id (bucket_at t.buckets 0).entries
      × (length (bucket_at t.buckets 159).entries ≤ 8)
      × ((i : ℕ) → 0 < i → i < 159 → length (bucket_at t.buckets i).entries ≡ 0)
unfolding size rooms room new
run-size local_id now cs h hc =
    let s = run-IsShaped (new local_id now) cs hc (new-IsShaped local_id now h) in
    let t = run (new local_id now) cs in
    (
      s.sized,
      rw s.sized at (sum_lengths-le 0 t.buckets s.bounded),
      Bounded-at 0 0 t.buckets s.bounded,
      subst (λ id. OnlyLocal id (bucket_at t.buckets 0).entries)
          (local_id_run (new local_id now) cs) s.own,
      Bounded-at 0 159 t.buckets s.bounded,
      λ i lo hi. between t.buckets i lo hi s.bounded,
    )
