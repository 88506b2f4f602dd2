-- ===== src/Dht/Table/Room.antt =====
-- The room of each bucket, and lists of buckets that keep within it.
use qvod_player.Prelude.{
  ℕ, zero, suc, ◌+◌, ◌≤◌, ◌≡◌, List, [], ◌∷◌, arith, ◌==◌, if◌then◌else◌, length, set, replicate,
}
use qvod_player.Dht.Bucket.Defs as Bucket
use qvod_player.Dht.Bucket.Defs.{
  KBucket, KBucketEntry, Entries, InsertResult, full, k, without, mark_refreshed,
}
use qvod_player.Dht.Table.Defs.{bucket_at, sum_lengths}

-- The room that is used: one entry in bucket 0, eight in bucket 159, none elsewhere.
unfoldable pub room : ℕ → ℕ
room i = if i == 0 then 1 else if i == 159 then 8 else 0

abbrev pub Bounded : ℕ → List KBucket → Type 0
Bounded i [] = Unit
Bounded i (b ∷ bs) = (length b.entries ≤ room i) × Bounded (suc i) bs

unfoldable pub rooms : ℕ → ℕ → ℕ
rooms i zero = 0
rooms i (suc n) = room i + rooms (suc i) n

pub sum_lengths-le :
    (i : ℕ) (bs : List KBucket) → Bounded i bs → sum_lengths bs ≤ rooms i (length bs)
unfolding sum_lengths rooms
sum_lengths-le i [] h = omega arith
sum_lengths-le i (b ∷ bs) h = omega (arith, h.0, sum_lengths-le (suc i) bs h.1)

pub Bounded-set :
    (i j : ℕ) (bs : List KBucket) (b : KBucket)
    → Bounded i bs
    → length b.entries ≤ room (i + j)
    → Bounded i (set bs j b)
Bounded-set i j [] b h hb = h
Bounded-set i zero (x ∷ bs) b h hb = let e : i + 0 ≡ i = omega arith in (rw e at hb, h.1)
Bounded-set i (suc j) (x ∷ bs) b h hb =
    let e : i + suc j ≡ suc i + j = omega arith in
    (h.0, Bounded-set (suc i) j bs b h.1 (rw e at hb))

pub Bounded-at :
    (i j : ℕ) (bs : List KBucket) → Bounded i bs → length (bucket_at bs j).entries ≤ room (i + j)
Bounded-at i j [] h = omega arith
Bounded-at i zero (x ∷ bs) h = let e : i + 0 ≡ i = omega arith in rw e h.0
Bounded-at i (suc j) (x ∷ bs) h =
    let e : i + suc j ≡ suc i + j = omega arith in rw e (Bounded-at (suc i) j bs h.1)

pub Bounded-new : (i n now : ℕ) → Bounded i (replicate n (Bucket.new now))
unfolding Bucket.new
Bounded-new i zero now = tt
Bounded-new i (suc n) now = (omega arith, Bounded-new (suc i) n now)
