-- ===== src/Dht/Tests.antt =====
-- The theorems on the routing table at concrete inputs.
use qvod_player.Prelude.{ℕ, ◌<◌, ◌≤◌, ◌≡◌, refl, false, [], ◌∷◌, List, arith, length, replicate}
use qvod_player.Core.NodeId.{NodeId, IsNodeId}
use qvod_player.Dht.Bucket.Defs.{KBucket, KBucketEntry, added, k}
use qvod_player.Dht.Bucket.Defs as Bucket
use qvod_player.Dht.Bucket.Unique.{IsUnique, Inserted, insert-Inserted, count}
use qvod_player.Dht.Table.Defs.{RoutingTable, new, bucket_at, size}
use qvod_player.Dht.Table.Own.{OnlyLocal}
use qvod_player.Dht.Table.Capacity.{Call, inserted, removed, run, run-size}

abbrev me : NodeId
me = replicate 20 7

abbrev far : NodeId
far = replicate 20 9

me-IsNodeId : IsNodeId me
me-IsNodeId = record { sized = refl; bytes_ok = omega arith }

far-IsNodeId : IsNodeId far
far-IsNodeId = record { sized = refl; bytes_ok = omega arith }

abbrev entry : NodeId → KBucketEntry
entry id = record {
  node_id = id;
  addr = record { ip = 10 ∷ 0 ∷ 0 ∷ 1 ∷ []; port = 8621 };
  last_seen = 0;
  latency = 10;
  is_firewalled = false;
}

abbrev table : RoutingTable
table = record { local_id = me; buckets = [] }

abbrev calls : List Call
calls = inserted (entry me) 1 ∷ inserted (entry far) 2 ∷ removed me ∷ []

run-size_example :
    let t = run (new me 0) calls in
    (length t.buckets ≡ 160)
    × (size t ≤ 9)
    × (length (bucket_at t.buckets 0).entries ≤ 1)
    × OnlyLocal me (bucket_at t.buckets 0).entries
    × (length (bucket_at t.buckets 159).entries ≤ 8)
    × ((i : ℕ) → 0 < i → i < 159 → length (bucket_at t.buckets i).entries ≡ 0)
run-size_example = run-size me 0 calls me-IsNodeId (me-IsNodeId, (far-IsNodeId, (me-IsNodeId, tt)))

abbrev bucket : KBucket
bucket = record { entries = entry me ∷ []; last_refreshed = 0 }

bucket-IsUnique : IsUnique bucket.entries
unfolding count
bucket-IsUnique id = ground arith

insert-Inserted_example : Inserted bucket (entry far) (Bucket.insert bucket (entry far) 5)
insert-Inserted_example = insert-Inserted bucket (entry far) 5 bucket-IsUnique
